-- ===== src/Skills/Selection.antt =====
-- `skills_list` of src/backend/skills.ts: the skills that are shown, and those that the semantic
-- search picks.
use chatgpt_web_agent.Base.{
  ℕ, suc, String, ◌<>◌, starts_with, Bool, false, ◌||◌, Option, none, some, List, [], ◌∷◌, length,
  ◌==◌, leb, if◌then◌else◌, Result, ok, err, ◌>>=◌,
}
use chatgpt_web_agent.Base.Table.{Table, get, put}
use chatgpt_web_agent.Json.{
  undefined, num, str, arr, obj, Items, nil, cons, Fields, end, field, decimal,
}
use chatgpt_web_agent.Tools.{CallToolResult}
use chatgpt_web_agent.Tools.Arguments.{string_arg, integer_arg}
use chatgpt_web_agent.Skills.{
  Deps, VisibleSkill, visible_skills, json_result, join_by, names_result,
}
use chatgpt_web_agent.Skills.Catalog.{Disk, Folder, CatalogManifest, ensure_catalog}

-- The rest of what `skills_list` uses: making the directory, and the search of QMD, whose hits are
-- the files that it names.
pub record Search : Type 0 where
  pub mkdir : Result (Unit {0})
  pub disk : Disk
  pub semantic_search : String → ℕ → Result (List (Option String))
  pub default_limit : ℕ
  pub max_limit : ℕ

-- A text that is empty counts as missing.
abbrev filled : Option String → Option String
filled none = none
filled (some s) = if s == "" then none else some s

abbrev or_basename : Deps → String → Option String → Option String
or_basename deps file (some name) = some name
or_basename deps file none = some (deps.basename file)

abbrev hit_name : Deps → Option String → Option String
hit_name deps none = none
hit_name deps (some file) =
    if starts_with "qmd://" file
    then or_basename deps file (deps.url_basename file)
    else some (deps.basename file)

-- `qmdHitFilename`
unfoldable pub qmd_hit_filename : Deps → Option String → Option String
qmd_hit_filename deps file = hit_name deps (filled file)

abbrev pub find_in : {V : Type 0} → Table V → Option String → Option V
find_in t none = none
find_in t (some k) = get k t

-- The live skill that a hit stands for.
unfoldable pub find_skill :
    Deps → Table String → Table VisibleSkill → Option String → Option VisibleSkill
find_skill deps files by_key hit =
    find_in by_key (filled (find_in files (filled (qmd_hit_filename deps hit))))

unfoldable pub contains : String → List String → Bool
contains k [] = false
contains k (s ∷ ss) = s == k || contains k ss

-- One round of the loop: `same` goes on as before, `next` goes on after the skill is selected.
unfoldable pub choose :
    ℕ
    → ℕ
    → List String
    → Option VisibleSkill
    → List VisibleSkill
    → (VisibleSkill → List VisibleSkill)
    → List VisibleSkill
choose limit chosen seen none same next = same
choose limit chosen seen (some s) same next =
    if contains s.skill_key seen then same else s ∷ (if leb limit (suc chosen) then [] else next s)

-- The loop over the hits, with the number of skills that are selected and their keys.
unfoldable pub select_hits :
    Deps
    → Table String
    → Table VisibleSkill
    → ℕ
    → ℕ
    → List String
    → List (Option String)
    → List VisibleSkill
select_hits deps files by_key limit chosen seen [] = []
select_hits deps files by_key limit chosen seen (hit ∷ hits) =
    choose limit chosen seen (find_skill deps files by_key hit)
      (select_hits deps files by_key limit chosen seen hits)
      λ s. select_hits deps files by_key limit (suc chosen) (s.skill_key ∷ seen) hits

unfoldable pub key_all : List VisibleSkill → Table VisibleSkill → Table VisibleSkill
key_all [] t = t
key_all (s ∷ ss) t = key_all ss (put s.skill_key s t)

-- `new Map(live.map((skill) => [skill.skillKey, skill]))`
unfoldable pub by_key_of : List VisibleSkill → Table VisibleSkill
by_key_of live = key_all live []

unfoldable pub public_json : List VisibleSkill → Items
public_json [] = nil
public_json (s ∷ ss) =
    cons
      (obj (
        field "name" (str s.name) (
          field "description" (str s.description)
            (field "source" (str s.source) (field "skillKey" (str s.skill_key) end)))))
      (public_json ss)

unfoldable pub numbered : ℕ → List VisibleSkill → List String
numbered n [] = []
numbered n (s ∷ ss) =
    (decimal (suc n) <> ". " <> s.name <> "\n" <> s.description) ∷ numbered (suc n) ss

-- The result that describes the selected skills.
unfoldable pub semantic_result : String → List VisibleSkill → CallToolResult Fields
semantic_result query selected =
    json_result
      (field "mode" (str "semantic") (
        field "query" (str query) (
          field "count" (num (length selected)) (field "skills" (arr (public_json selected)) end))))
      (join_by "\n\n" (numbered 0 selected))

unfoldable pub result_of : String → List VisibleSkill → List VisibleSkill → CallToolResult Fields
result_of query live [] = names_result "fallback_catalog" (str query) live
result_of query live (s ∷ ss) = semantic_result query (s ∷ ss)

unfoldable pub after_hits :
    Deps
    → String
    → ℕ
    → List VisibleSkill
    → Result CatalogManifest × Folder
    → Result (List (Option String))
    → CallToolResult Fields × Folder
after_hits deps query limit live (err e, folder) hits =
    (names_result "fallback_catalog" (str query) live, folder)
after_hits deps query limit live (ok m, folder) (err e) =
    (names_result "fallback_catalog" (str query) live, folder)
after_hits deps query limit live (ok m, folder) (ok hits) =
    (result_of query live (select_hits deps m.files (by_key_of live) limit 0 [] hits), folder)

unfoldable pub after_mkdir :
    Deps
    → Search
    → String
    → ℕ
    → List VisibleSkill
    → Folder
    → Result (Unit {0})
    → CallToolResult Fields × Folder
after_mkdir deps search query limit live folder (err e) =
    (names_result "fallback_catalog" (str query) live, folder)
after_mkdir deps search query limit live folder (ok _) =
    after_hits deps query limit live (ensure_catalog deps search.disk live folder)
      (search.semantic_search query limit)

unfoldable pub list_live :
    Deps → Search → Option String → ℕ → List VisibleSkill → Folder → CallToolResult Fields × Folder
list_live deps search none limit live folder = (names_result "catalog" undefined live, folder)
list_live deps search (some query) limit live folder =
    after_mkdir deps search query limit live folder search.mkdir

-- `#list`, with the directory of the catalog before and after it
unfoldable pub list_skills :
    Deps → Search → Fields → Folder → Result (CallToolResult Fields × Folder)
list_skills deps search args folder = do
  query ← string_arg args "query" false
  limit ← integer_arg args "limit" search.default_limit 1 search.max_limit
  status ← deps.fetch_status
  ok (list_live deps search query limit (visible_skills deps status) folder)
