-- ===== src/Skills/Names.antt =====
-- The file names of the catalog (src/backend/skills.ts, `safeSlug` and `catalogFilename`).
use Prim.Native.Char.{code}
use chatgpt_web_agent.Base.{
  ℕ, String, ◌<>◌, trim, slice_to, Bool, true, false, not, ◌&&◌, ◌||◌, leb, nat_eq, ◌==◌,
  if◌then◌else◌, ◌≡◌, refl, sym, subst, if-cases, one-char,
}
use chatgpt_web_agent.Skills.{Deps, VisibleSkill}

-- `[a-z0-9._-]`
unfoldable pub is_slug_code : ℕ → Bool
is_slug_code n =
    (leb 97 n && leb n 122) || (leb 48 n && leb n 57) || nat_eq n 46 || nat_eq n 95 || nat_eq n 45

abbrev dash_then : String → String
dash_then s = "-" <> s

-- `.replace(/[^a-z0-9._-]+/g, '-')`; the flag tells whether a run has begun.
unfoldable pub replace_runs : Bool → String → String
replace_runs run String.[] = ""
replace_runs run (String.◌∷◌ c s) =
    let good = is_slug_code (code c) in
    let rest = replace_runs (not good) s in
    if good then String.◌∷◌ c rest else if run then rest else dash_then rest

-- `.replace(/-+/g, '-')`
unfoldable pub collapse_dashes : Bool → String → String
collapse_dashes run String.[] = ""
collapse_dashes run (String.◌∷◌ c s) =
    let dash = nat_eq (code c) 45 in
    let rest = collapse_dashes dash s in if dash && run then rest else String.◌∷◌ c rest

unfoldable pub drop_first_dashes : String → String
drop_first_dashes String.[] = ""
drop_first_dashes (String.◌∷◌ c s) =
    let rest = drop_first_dashes s in if nat_eq (code c) 45 then rest else String.◌∷◌ c s

unfoldable pub all_dashes : String → Bool
all_dashes String.[] = true
all_dashes (String.◌∷◌ c s) = nat_eq (code c) 45 && all_dashes s

unfoldable pub drop_last_dashes : String → String
drop_last_dashes String.[] = ""
drop_last_dashes (String.◌∷◌ c s) =
    let rest = drop_last_dashes s in if all_dashes (String.◌∷◌ c s) then "" else String.◌∷◌ c rest

-- `.replace(/^-+|-+$/g, '')`
unfoldable pub strip_dashes : String → String
strip_dashes s = drop_last_dashes (drop_first_dashes s)

abbrev slug_or_skill : String → String
slug_or_skill s = if s == "" then "skill" else s

-- `safeSlug`
unfoldable pub safe_slug : Deps → String → String
safe_slug deps value =
    slug_or_skill
      (strip_dashes (collapse_dashes false (replace_runs false (deps.to_lower_case (trim value)))))

-- `catalogFilename`
unfoldable pub catalog_filename : Deps → VisibleSkill → String → String
catalog_filename deps skill fingerprint =
    safe_slug deps skill.name
    <> "-"
    <> slice_to 10 fingerprint
    <> "-"
    <> slice_to 10 (deps.sha256 (skill.skill_key <> "\n" <> skill.name))
    <> ".md"

-- Every character is a small letter of ASCII, a digit, a dot, an underscore or a dash.
abbrev pub IsSlug : String → Type 0
IsSlug String.[] = Unit
IsSlug (String.◌∷◌ c s) = (is_slug_code (code c) ≡ true) × IsSlug s

dash_then-IsSlug : (s : String) → IsSlug s → IsSlug ("-" <> s)
unfolding is_slug_code
dash_then-IsSlug s h = subst IsSlug (sym (one-char _ s)) (refl, h)

replace_runs-IsSlug : (run : Bool) (s : String) → IsSlug (replace_runs run s)
unfolding replace_runs
replace_runs-IsSlug run String.[] = tt
replace_runs-IsSlug run (String.◌∷◌ c s) =
    if-cases IsSlug (is_slug_code (code c)) _ _
      (λ good. (good, replace_runs-IsSlug (not (is_slug_code (code c))) s))
      λ bad.
        if-cases IsSlug run _ _ (λ _. replace_runs-IsSlug (not (is_slug_code (code c))) s)
          λ _. dash_then-IsSlug _ (replace_runs-IsSlug (not (is_slug_code (code c))) s)

collapse_dashes-IsSlug : (run : Bool) (s : String) → IsSlug s → IsSlug (collapse_dashes run s)
unfolding collapse_dashes
collapse_dashes-IsSlug run String.[] h = tt
collapse_dashes-IsSlug run (String.◌∷◌ c s) (good, h) =
    if-cases IsSlug (nat_eq (code c) 45 && run) _ _
      (λ _. collapse_dashes-IsSlug (nat_eq (code c) 45) s h)
      λ _. (good, collapse_dashes-IsSlug (nat_eq (code c) 45) s h)

drop_first-IsSlug : (s : String) → IsSlug s → IsSlug (drop_first_dashes s)
unfolding drop_first_dashes
drop_first-IsSlug String.[] h = tt
drop_first-IsSlug (String.◌∷◌ c s) (good, h) =
    if-cases IsSlug (nat_eq (code c) 45) _ _ (λ _. drop_first-IsSlug s h) λ _. (good, h)

drop_last-IsSlug : (s : String) → IsSlug s → IsSlug (drop_last_dashes s)
unfolding drop_last_dashes
drop_last-IsSlug String.[] h = tt
drop_last-IsSlug (String.◌∷◌ c s) (good, h) =
    if-cases IsSlug (all_dashes (String.◌∷◌ c s)) _ _ (λ _. tt) λ _. (good, drop_last-IsSlug s h)

-- The slug of a skill's name is a text that can stand in a file's name: it is not empty and has only
-- small letters of ASCII, digits, dots, underscores and dashes, whatever the name is and whatever
-- `toLowerCase` makes of it.
pub safe_slug-IsSlug :
    (deps : Deps) (value : String)
    → IsSlug (safe_slug deps value) × ((safe_slug deps value == "") ≡ false)
unfolding safe_slug strip_dashes is_slug_code
safe_slug-IsSlug deps value = named _ (
    drop_last-IsSlug _ (
      drop_first-IsSlug _ (
        collapse_dashes-IsSlug false _
          (replace_runs-IsSlug false (deps.to_lower_case (trim value))))))
  where
    named : (s : String) → IsSlug s → IsSlug (slug_or_skill s) × ((slug_or_skill s == "") ≡ false)
    named s h =
        if-cases (λ t. IsSlug t × ((t == "") ≡ false)) (s == "") _ _
          (λ _. ((refl, (refl, (refl, (refl, (refl, tt))))), refl)) λ e. (h, e)
