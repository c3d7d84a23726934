-- ===== src/Skills/Reading.antt =====
-- `skill_read` of src/backend/skills.ts, and the dispatch of the two tools.
use chatgpt_web_agent.Base.{
  ℕ, ◌≤◌, String, ◌<>◌, Bool, true, false, not, ◌||◌, Option, none, some, List, [], ◌∷◌, ◌==◌, ltb,
  if◌then◌else◌, Result, ok, err, raise_if, or_raise, ◌>>=◌, ◌>>◌, Ensures, returns, Ensures-bind,
  Ensures-inv, ◌≡◌, ◌⊎◌, inl, inr, refl, arith, if-cases, ap, sym, ◌∙◌, subst, ok-injective,
}
use chatgpt_web_agent.Base.Table.{select}
use chatgpt_web_agent.Json.{num, str, Fields, end, field, code_units, decimal}
use chatgpt_web_agent.Tools.{CallToolResult, text, tool_error, truncate_text}
use chatgpt_web_agent.Tools.Arguments.{string_arg}
use chatgpt_web_agent.Skills.{Deps, FileStat, VisibleSkill, visible_skills, SkillStatusEntry}
use chatgpt_web_agent.Skills.Catalog.{Folder}
use chatgpt_web_agent.Skills.Selection.{Search, list_skills}
use chatgpt_web_agent.Skills.Picking.{Member, Shows, visible_skills-Shows}

unfoldable pub is_exact : String → VisibleSkill → Bool
is_exact requested s = s.name == requested || s.skill_key == requested

unfoldable pub is_similar : Deps → String → VisibleSkill → Bool
is_similar deps normalized s =
    deps.to_lower_case s.name == normalized || deps.to_lower_case s.skill_key == normalized

unfoldable pub or_similar :
    Deps → String → List VisibleSkill → List VisibleSkill → List VisibleSkill
or_similar deps requested live [] = select (is_similar deps (deps.to_lower_case requested)) live
or_similar deps requested live (s ∷ ss) = s ∷ ss

-- `matches`
unfoldable pub matches_of : Deps → String → List VisibleSkill → List VisibleSkill
matches_of deps requested live = or_similar deps requested live (select (is_exact requested) live)

unfoldable pub only_one : String → List VisibleSkill → Result VisibleSkill
only_one requested [] = err ("Skill is not currently eligible/model-visible: " <> requested)
only_one requested (s ∷ []) = ok s
only_one requested (s ∷ t ∷ r) = err ("Skill name is ambiguous: " <> requested)

-- The skill's file, once the skill is known.
unfoldable pub read_file_of : Deps → ℕ → ℕ → VisibleSkill → Result (CallToolResult Fields)
read_file_of deps max_bytes max_chars skill = do
  stat ← deps.stat skill.file_path
  raise_if (not stat.is_file || not (deps.basename skill.file_path == "SKILL.md"))
      ("OpenClaw returned an invalid Skill file for " <> skill.name)
  raise_if (ltb max_bytes stat.size) (
      "Skill file is too large ("
      <> decimal stat.size
      <> " bytes; limit "
      <> decimal max_bytes
      <> ")")
  content ← deps.read_file skill.file_path
  ok (record {
    content = text (truncate_text max_chars (code_units content)) ∷ [];
    is_error = false;
    structured_content = some (
        field "name" (str skill.name) (
          field "skillKey" (str skill.skill_key)
            (field "source" (str skill.source) (field "bytes" (num stat.size) end))));
  })

-- `#read`; a required argument that `stringArg` returns is there.
unfoldable pub read_skill : Deps → ℕ → ℕ → Fields → Result (CallToolResult Fields)
read_skill deps max_bytes max_chars args = do
  name ← string_arg args "name" true
  requested ← or_raise name "name is required"
  status ← deps.fetch_status
  skill ← only_one requested (matches_of deps requested (visible_skills deps status))
  read_file_of deps max_bytes max_chars skill

abbrev answer :
    String → Folder → Result (CallToolResult Fields × Folder) → CallToolResult Fields × Folder
answer name folder (err e) = (tool_error (code_units (name <> " failed: " <> e)), folder)
answer name folder (ok r) = r

abbrev beside : Folder → Result (CallToolResult Fields) → Result (CallToolResult Fields × Folder)
beside folder (err e) = err e
beside folder (ok r) = ok (r, folder)

-- `callTool`
unfoldable pub call_tool :
    Deps → Search → ℕ → ℕ → String → Fields → Folder → CallToolResult Fields × Folder
call_tool deps search max_bytes max_chars name args folder =
    if name == "skills_list"
    then answer name folder (list_skills deps search args folder)
    else if name == "skill_read"
    then answer name folder (beside folder (read_skill deps max_bytes max_chars args))
    else (tool_error (code_units ("Tool not available: " <> name)), folder)

select-Member :
    (p : VisibleSkill → Bool) (v : VisibleSkill) (l : List VisibleSkill)
    → Member v (select p l)
    → Member v l × (p v ≡ true)
unfolding select
select-Member p v [] h = elim h [ ]
select-Member p v (s ∷ ss) h =
    if-cases (λ l. Member v l → Member v (s ∷ ss) × (p v ≡ true)) (p s) _ _
      (λ good m. elim m [
        | inl e ↦ (inl e, ap p (sym e) ∙ good)
        | inr later ↦
            let found : Member v ss × (p v ≡ true) = select-Member p v ss later in
            (inr found.0, found.1)
      ])
      (λ _ m.
        let found : Member v ss × (p v ≡ true) = select-Member p v ss m in (inr found.0, found.1))
      h

-- The skill is named exactly, or no skill is, and it is named but for the case of its letters.
abbrev pub IsNamed : Deps → String → List VisibleSkill → VisibleSkill → Type 0
IsNamed deps requested live s =
    (is_exact requested s ≡ true)
    ⊎ ((select (is_exact requested) live ≡ [])
        × (is_similar deps (deps.to_lower_case requested) s ≡ true))

or_similar-IsNamed :
    (deps : Deps) (requested : String) (live exact : List VisibleSkill) (s : VisibleSkill)
    → select (is_exact requested) live ≡ exact
    → or_similar deps requested live exact ≡ s ∷ []
    → Member s live × IsNamed deps requested live s
unfolding or_similar
or_similar-IsNamed deps requested live [] s none_exact e =
    let found : Member s live × (is_similar deps (deps.to_lower_case requested) s ≡ true) =
      select-Member (is_similar deps (deps.to_lower_case requested)) s live
        (subst (Member s) (sym e) (inl refl)) in
    (found.0, inr (none_exact, found.1))
or_similar-IsNamed deps requested live (t ∷ ts) s exact e =
    let found : Member s live × (is_exact requested s ≡ true) =
      select-Member (is_exact requested) s live (subst (Member s) (sym (exact ∙ e)) (inl refl)) in
    (found.0, inl found.1)

-- A skill that was read, and what was looked at on the way.
pub record IsRead (deps : Deps) (max_bytes max_chars : ℕ) (args : Fields)
    (r : CallToolResult Fields) : Type 0 where
  pub requested : String
  pub status : List SkillStatusEntry
  pub skill : VisibleSkill
  pub stat : FileStat
  pub content : String
  pub asked : string_arg args "name" true ≡ ok (some requested)
  pub answered : deps.fetch_status ≡ ok status
  pub is_shown : Shows skill status
  pub is_named : IsNamed deps requested (visible_skills deps status) skill
  pub is_unique : matches_of deps requested (visible_skills deps status) ≡ skill ∷ []
  pub is_skill_file :
      (deps.stat skill.file_path ≡ ok stat)
      × (stat.is_file ≡ true)
      × ((deps.basename skill.file_path == "SKILL.md") ≡ true)
  pub size_bound : stat.size ≤ max_bytes
  pub is_content : deps.read_file skill.file_path ≡ ok content
  pub is_result : r.content ≡ text (truncate_text max_chars (code_units content)) ∷ []

only-one :
    (requested : String) (l : List VisibleSkill) (s : VisibleSkill)
    → only_one requested l ≡ ok s
    → l ≡ s ∷ []
unfolding only_one
only-one requested [] s e = absurd (cc e)
only-one requested (t ∷ []) s e = ap (λ x. x ∷ []) (ok-injective e)
only-one requested (t ∷ u ∷ r) s e = absurd (cc e)

or_raise-some : (o : Option String) (m r : String) → or_raise o m ≡ ok r → o ≡ some r
or_raise-some none m r e = absurd (cc e)
or_raise-some (some s) m r e = ap some (ok-injective e)

read_skill-found :
    (deps : Deps) (max_bytes max_chars : ℕ) (args : Fields)
    → Ensures (IsRead deps max_bytes max_chars args) (read_skill deps max_bytes max_chars args)
unfolding read_skill read_file_of
read_skill-found deps max_bytes max_chars args =
    Ensures-bind (string_arg args "name" true) _ λ name asked.
      Ensures-bind (or_raise name "name is required") _ λ requested given.
        Ensures-bind deps.fetch_status _ λ status answered.
          Ensures-bind (only_one requested (matches_of deps requested (visible_skills deps status)))
            _
            λ skill only. Ensures-bind (deps.stat skill.file_path) _ λ stat found.
              Ensures-bind
                (raise_if (not stat.is_file || not (deps.basename skill.file_path == "SKILL.md")) _)
                _
                λ _ file. Ensures-bind (raise_if (ltb max_bytes stat.size) _) _ λ _ small.
                  Ensures-bind (deps.read_file skill.file_path) _ λ content read.
                    let unique : matches_of deps requested (visible_skills deps status)
                        ≡ skill ∷ [] =
                      only-one requested _ skill only in
                    let named : Member skill (visible_skills deps status)
                        × IsNamed deps requested (visible_skills deps status) skill =
                      unfold matches_of in
                      or_similar-IsNamed deps requested (visible_skills deps status) _ skill refl
                        unique in
                    returns (record {
                      requested = requested;
                      status = status;
                      skill = skill;
                      stat = stat;
                      content = content;
                      asked = asked ∙ ap ok (or_raise-some name _ requested given);
                      answered = answered;
                      is_shown = (visible_skills-Shows deps skill status).0 named.0;
                      is_named = named.1;
                      is_unique = unique;
                      is_skill_file = (found, ground (arith, file), ground (arith, file));
                      size_bound = ground (arith, small);
                      is_content = read;
                      is_result = refl;
                    })

-- A skill is read only if the gateway's status shows it and the request names it and no other: by
-- its exact name or key or, where no skill has that, by one that differs in case only. Its file is a
-- regular file named SKILL.md of at most `maxSkillFileBytes` bytes, and its content is returned, cut
-- to `maxOutputChars`.
pub read_skill-IsRead :
    (deps : Deps) (max_bytes max_chars : ℕ) (args : Fields) (r : CallToolResult Fields)
    → read_skill deps max_bytes max_chars args ≡ ok r
    → IsRead deps max_bytes max_chars args r
read_skill-IsRead deps max_bytes max_chars args r e =
    Ensures-inv (read_skill-found deps max_bytes max_chars args) e
