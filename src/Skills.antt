-- ===== src/Skills.antt =====
-- The skills backend (src/backend/skills.ts): arguments, the skills that are shown, and the two
-- tools. The gateway, the semantic search, the hash, the comparison of a locale and the files are a
-- parameter.
pub mod Names
pub mod Catalog
pub mod Serving
pub mod Selection
pub mod Picking
pub mod Reading
use chatgpt_web_agent.Base.{
  ℕ, suc, ◌+◌, ◌-◌, String, ◌<>◌, trim, Bool, true, false, not, ◌&&◌, ◌||◌, Option, none, some,
  List, [], ◌∷◌, ◌++◌, map, length, ◌==◌, ltb, leb, nat_eq, is_some, get_or_else, if◌then◌else◌,
  Result, ok, err, or_raise, raise_if, ◌>>=◌, ◌>>◌,
}
use chatgpt_web_agent.Base.Table.{Table, get, put, any, select}
use chatgpt_web_agent.Json.{
  Json, undefined, null, num, str, arr, obj, Items, nil, cons, Fields, end, field, lookup_field,
  code_units, decimal, stringify,
}
use chatgpt_web_agent.Tools.{Units, CallToolResult, text, tool_error, pretty, truncate_text}

-- An entry of the gateway's status: a text that is missing, or is none, is `none`, and a flag tells
-- whether the field is `true`.
pub record SkillStatusEntry : Type 0 where
  pub name : Option String
  pub description : Option String
  pub source : Option String
  pub skill_key : Option String
  pub file_path : Option String
  pub eligible : Bool
  pub model_visible : Bool
  pub disabled : Bool

pub record VisibleSkill : Type 0 where
  pub name : String
  pub description : String
  pub source : String
  pub skill_key : String
  pub file_path : String

-- `fs.stat`
pub record FileStat : Type 0 where
  pub is_file : Bool
  pub size : ℕ

-- What the backend uses: `localeCompare` as "not after", `toLowerCase`, the SHA-256 in hexadecimal,
-- the names at the end of a path and of a URL, the gateway and the files.
pub record Deps : Type 0 where
  pub not_after : String → String → Bool
  pub to_lower_case : String → String
  pub sha256 : String → String
  pub basename : String → String
  pub url_basename : String → Option String
  pub fetch_status : Result (List SkillStatusEntry)
  pub stat : String → Result FileStat
  pub read_file : String → Result String

-- The three texts of an entry, where the three that are needed are there.
abbrev pub shown :
    SkillStatusEntry → Option String → Option String → Option String → Option VisibleSkill
shown s (some name) (some description) (some file_path) =
    if s.eligible && s.model_visible && not s.disabled
    then some (record {
      name = name;
      description = description;
      source = get_or_else s.source "unknown";
      skill_key = get_or_else s.skill_key name;
      file_path = file_path;
    })
    else none
shown s _ _ _ = none

unfoldable pub visible_entry : SkillStatusEntry → Option VisibleSkill
visible_entry s = shown s s.name s.description s.file_path

abbrev pub add_found : Option VisibleSkill → List VisibleSkill → List VisibleSkill
add_found none l = l
add_found (some s) l = s ∷ l

-- `status.skills.filter(...).map(...)`
unfoldable pub visible_entries : List SkillStatusEntry → List VisibleSkill
visible_entries [] = []
visible_entries (s ∷ ss) = add_found (visible_entry s) (visible_entries ss)

module _ (deps : Deps) where
  unfoldable pub insert_by_name : VisibleSkill → List VisibleSkill → List VisibleSkill
  insert_by_name s [] = s ∷ []
  insert_by_name s (t ∷ ts) =
      let rest = insert_by_name s ts in
      if deps.not_after s.name t.name then s ∷ t ∷ ts else t ∷ rest

  -- `.sort((a, b) => a.name.localeCompare(b.name))`, which is stable
  unfoldable pub sort_by_name : List VisibleSkill → List VisibleSkill
  sort_by_name [] = []
  sort_by_name (s ∷ ss) = insert_by_name s (sort_by_name ss)

  -- `visibleSkills`
  unfoldable pub visible_skills : List SkillStatusEntry → List VisibleSkill
  visible_skills skills = sort_by_name (visible_entries skills)

-- `jsonResult`
unfoldable pub json_result : Fields → String → CallToolResult Fields
json_result fields t = record {
  content = text (code_units t) ∷ [];
  is_error = false;
  structured_content = some fields;
}

-- `names.join(separator)`
unfoldable pub join_by : String → List String → String
join_by sep [] = ""
join_by sep (s ∷ []) = s
join_by sep (s ∷ t ∷ r) = s <> sep <> join_by sep (t ∷ r)

unfoldable pub names_json : List VisibleSkill → Items
names_json [] = nil
names_json (s ∷ ss) = cons (obj (field "name" (str s.name) end)) (names_json ss)

-- The result that names the skills only; `query` is undefined without one.
unfoldable pub names_result : String → Json → List VisibleSkill → CallToolResult Fields
names_result mode query live =
    json_result
      (field "mode" (str mode) (
        field "query" query
          (field "count" (num (length live)) (field "skills" (arr (names_json live)) end))))
      (join_by "\n" (map (λ (s : VisibleSkill). s.name) live))
