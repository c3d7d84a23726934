-- ===== src/Skills/Picking.antt =====
-- What `skills_list` of src/backend/skills.ts shows and picks.
use chatgpt_web_agent.Base.{
  ℕ, suc, ◌+◌, ◌≤◌, String, true, false, Option, none, some, List, [], ◌∷◌, length, leb, if-cases,
  ◌≡◌, ◌⊎◌, ◌↔◌, inl, inr, refl, arith, Bool-cases,
}
use chatgpt_web_agent.Base.Table.{Table, get, put}
use chatgpt_web_agent.Base.Table.Laws.{get-put_inv}
use chatgpt_web_agent.Skills.{
  Deps, VisibleSkill, SkillStatusEntry, visible_entry, shown, visible_entries, insert_by_name,
  sort_by_name, visible_skills,
}
use chatgpt_web_agent.Skills.Selection.{
  by_key_of, choose, contains, find_in, find_skill, key_all, select_hits,
}

abbrev pub Member : VisibleSkill → List VisibleSkill → Type 0
Member v [] = ⊥
Member v (s ∷ ss) = (s ≡ v) ⊎ Member v ss

-- The entry of the status that a skill comes from.
abbrev pub Shows : VisibleSkill → List SkillStatusEntry → Type 0
Shows v [] = ⊥
Shows v (s ∷ ss) =
    ((visible_entry s ≡ some v)
      × (s.eligible ≡ true)
      × (s.model_visible ≡ true)
      × (s.disabled ≡ false))
    ⊎ Shows v ss

shown-flags :
    (s : SkillStatusEntry) (name description file_path : Option String) (v : VisibleSkill)
    → shown s name description file_path ≡ some v
    → (s.eligible ≡ true) × (s.model_visible ≡ true) × (s.disabled ≡ false)
shown-flags s (some name) (some description) (some file_path) v e = ground arith
shown-flags s (some name) (some description) none v e = absurd (cc e)
shown-flags s (some name) none file_path v e = absurd (cc e)
shown-flags s none description file_path v e = absurd (cc e)

visible-flags :
    (s : SkillStatusEntry) (v : VisibleSkill)
    → visible_entry s ≡ some v
    → (s.eligible ≡ true) × (s.model_visible ≡ true) × (s.disabled ≡ false)
unfolding visible_entry
visible-flags s v = shown-flags s s.name s.description s.file_path v

entries-Shows :
    (v : VisibleSkill) (skills : List SkillStatusEntry)
    → Member v (visible_entries skills) ↔ Shows v skills
unfolding visible_entries
entries-Shows v [] = ((λ h. h), (λ h. h))
entries-Shows v (s ∷ ss) = ground (arith, visible-flags s v, entries-Shows v ss)

insert-Member :
    (deps : Deps) (v s : VisibleSkill) (l : List VisibleSkill)
    → Member v (insert_by_name deps s l) ↔ ((s ≡ v) ⊎ Member v l)
unfolding insert_by_name
insert-Member deps v s [] = ground arith
insert-Member deps v s (t ∷ ts) = ground (arith, insert-Member deps v s ts)

sort-Member :
    (deps : Deps) (v : VisibleSkill) (l : List VisibleSkill)
    → Member v (sort_by_name deps l) ↔ Member v l
unfolding sort_by_name
sort-Member deps v [] = ground arith
sort-Member deps v (s ∷ ss) =
    ground (arith, sort-Member deps v ss, insert-Member deps v s (sort_by_name deps ss))

-- A skill is shown if and only if the gateway's status has an entry for it that is eligible, visible
-- to the model and not disabled, and that has a name, a description and a path.
pub visible_skills-Shows :
    (deps : Deps) (v : VisibleSkill) (skills : List SkillStatusEntry)
    → Member v (visible_skills deps skills) ↔ Shows v skills
unfolding visible_skills
visible_skills-Shows deps v skills =
    ground (arith, sort-Member deps v (visible_entries skills), entries-Shows v skills)

key_all-Member :
    (k : String) (v : VisibleSkill) (ss : List VisibleSkill) (t : Table VisibleSkill)
    → get k (key_all ss t) ≡ some v
    → Member v ss ⊎ (get k t ≡ some v)
unfolding key_all
key_all-Member k v [] t h = inr h
key_all-Member k v (s ∷ ss) t h =
    ground (arith, key_all-Member k v ss (put s.skill_key s t) h, get-put_inv s.skill_key k s v t)

find_in-Member :
    (live : List VisibleSkill) (key : Option String) (s : VisibleSkill)
    → find_in (by_key_of live) key ≡ some s
    → Member s live
unfolding by_key_of get
find_in-Member live none s e = absurd (cc e)
find_in-Member live (some k) s e = elim (key_all-Member k s live [] e) [
  | inl h ↦ h
  | inr h ↦ absurd (cc h)
]

find_skill-Member :
    (deps : Deps) (files : Table String) (live : List VisibleSkill) (hit : Option String)
    (s : VisibleSkill)
    → find_skill deps files (by_key_of live) hit ≡ some s
    → Member s live
unfolding find_skill
find_skill-Member deps files live hit s = find_in-Member live _ s

-- The selected skills are live, and no key stands twice, nor among those seen before.
abbrev pub Picked : List VisibleSkill → List String → List VisibleSkill → Type 0
Picked live seen [] = Unit
Picked live seen (s ∷ ss) =
    Member s live × (contains s.skill_key seen ≡ false) × Picked live (s.skill_key ∷ seen) ss

-- The same, and there is room for them.
Chosen : List VisibleSkill → ℕ → ℕ → List String → List VisibleSkill → Type 0
Chosen live limit chosen seen l = (chosen + length l ≤ limit) × Picked live seen l

choose-Chosen :
    (live : List VisibleSkill) (limit chosen : ℕ) (seen : List String) (found : Option VisibleSkill)
    (same : List VisibleSkill) (next : VisibleSkill → List VisibleSkill)
    → suc chosen ≤ limit
    → ((s : VisibleSkill) → found ≡ some s → Member s live)
    → Chosen live limit chosen seen same
    → ((s : VisibleSkill)
        → suc (suc chosen) ≤ limit
        → Chosen live limit (suc chosen) (s.skill_key ∷ seen) (next s))
    → Chosen live limit chosen seen (choose limit chosen seen found same next)
unfolding choose Chosen
choose-Chosen live limit chosen seen none same next room found h k = h
choose-Chosen live limit chosen seen (some s) same next room found h k =
    if-cases (Chosen live limit chosen seen) (contains s.skill_key seen) _ _ (λ _. h)
      λ fresh. elim (Bool-cases (leb limit (suc chosen))) [
        | inl full ↦ rw full (omega arith, (found s refl, fresh, tt))
        | inr more ↦ rw more (
            let rest : Chosen live limit (suc chosen) (s.skill_key ∷ seen) (next s) =
              k s (ground arith) in
            (omega (arith, rest.0), (found s refl, fresh, rest.1)))
      ]

select_hits-Chosen :
    (deps : Deps) (files : Table String) (live : List VisibleSkill) (limit chosen : ℕ)
    (seen : List String) (hits : List (Option String))
    → suc chosen ≤ limit
    → Chosen live limit chosen seen (select_hits deps files (by_key_of live) limit chosen seen hits)
unfolding select_hits
select_hits-Chosen deps files live limit chosen seen [] room = unfold Chosen in (omega arith, tt)
select_hits-Chosen deps files live limit chosen seen (hit ∷ hits) room =
    choose-Chosen live limit chosen seen (find_skill deps files (by_key_of live) hit) _ _ room
      (find_skill-Member deps files live hit)
      (select_hits-Chosen deps files live limit chosen seen hits room)
      λ s more. select_hits-Chosen deps files live limit (suc chosen) (s.skill_key ∷ seen) hits more

-- Whatever files the search names, the skills that are selected from its hits are at most as many as
-- the limit, each is one of the skills that are shown, and no two have the same key.
pub select_hits-Picked :
    (deps : Deps) (files : Table String) (live : List VisibleSkill) (limit : ℕ)
    (hits : List (Option String))
    → 1 ≤ limit
    → (length (select_hits deps files (by_key_of live) limit 0 [] hits) ≤ limit)
      × Picked live [] (select_hits deps files (by_key_of live) limit 0 [] hits)
unfolding Chosen
select_hits-Picked deps files live limit hits low =
    let h : Chosen live limit 0 [] (select_hits deps files (by_key_of live) limit 0 [] hits) =
      select_hits-Chosen deps files live limit 0 [] hits (omega arith) in
    (omega (arith, h.0), h.1)
