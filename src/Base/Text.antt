-- ===== src/Base/Text.antt =====
-- What the program uses of JavaScript's strings.
use Prim.Native.Nat.{ℕ, zero, suc, ◌+◌}
use Prim.Native.Char.{Char, code}
use Prim.Native.String.{String, [], ◌∷◌}
use mathlib.Core.Logic.{inl, inr}
use mathlib.Core.Bool.{Bool, true, false, ◌&&◌, ◌||◌}
use mathlib.Core.Path.{◌≡◌, ap, ◌∙◌}
use mathlib.Core.List.{List}
use text.Mathlib.TextEquality.{eq_iff}
use text.Mathlib.TextLemmas.{cons-append, nil-append}
use chatgpt_web_agent.Base.Tests.{leb, ltb, nat_eq, if◌then◌else◌, ◌==◌, Bool-cases}

-- Concatenation, `+` of two strings.
infixr 65 ◌<>◌
abbrev pub ◌<>◌ : String → String → String
s <> t = Prim.Native.String.◌++◌ s t

-- `s.length`: UTF-16 code units
unfoldable pub js_length : String → ℕ
js_length [] = 0
js_length (c ∷ s) = (if ltb 65535 (code c) then 2 else 1) + js_length s

-- The characters that `trim` takes away.
unfoldable pub is_space : ℕ → Bool
is_space n =
    (leb 9 n && leb n 13)
    || nat_eq n 32
    || nat_eq n 160
    || nat_eq n 0x1680
    || (leb 0x2000 n && leb n 0x200a)
    || nat_eq n 0x2028
    || nat_eq n 0x2029
    || nat_eq n 0x202f
    || nat_eq n 0x205f
    || nat_eq n 0x3000
    || nat_eq n 0xfeff

-- `s.trim() === ''`
unfoldable pub is_blank : String → Bool
unfolding is_space
is_blank [] = true
is_blank (c ∷ s) = is_space (code c) && is_blank s

-- `s.slice(0, n)` of a text without surrogate pairs, such as a hexadecimal digest.
unfoldable pub slice_to : ℕ → String → String
slice_to zero s = ""
slice_to (suc n) [] = ""
slice_to (suc n) (c ∷ s) = c ∷ slice_to n s

-- `parts.join(',')`
unfoldable pub join_commas : List String → String
join_commas List.[] = ""
join_commas (List.◌∷◌ s List.[]) = s
join_commas (List.◌∷◌ s (List.◌∷◌ t r)) = s <> "," <> join_commas (List.◌∷◌ t r)

trim_start : String → String
unfolding is_space
trim_start [] = ""
trim_start (c ∷ s) = let rest = trim_start s in if is_space (code c) then rest else c ∷ s

trim_end : String → String
unfolding is_blank
trim_end [] = ""
trim_end (c ∷ s) = if is_blank (c ∷ s) then "" else c ∷ trim_end s

-- `s.trim()`
unfoldable pub trim : String → String
unfolding trim_start trim_end
trim s = trim_end (trim_start s)

-- `s.startsWith(prefix)`, the prefix first
unfoldable pub starts_with : String → String → Bool
starts_with [] s = true
starts_with (c ∷ p) [] = false
starts_with (c ∷ p) (d ∷ s) = nat_eq (code c) (code d) && starts_with p s

-- `s.endsWith('/')`
unfoldable pub ends_with_slash : String → Bool
ends_with_slash [] = false
ends_with_slash (c ∷ []) = nat_eq (code c) 47
ends_with_slash (c ∷ d ∷ s) = ends_with_slash (d ∷ s)

-- A text of one character in front of another text.
pub one-char : (c : Char) (rest : String) → (c ∷ "") <> rest ≡ c ∷ rest
one-char c rest = cons-append c "" rest ∙ ap (λ s. c ∷ s) (nil-append rest)

abbrev is_empty : String → Bool
is_empty [] = true
is_empty (c ∷ s) = false

pub cons-not_empty : (c : Char) (s : String) → ((c ∷ s) == "") ≡ false
cons-not_empty c s = elim (Bool-cases ((c ∷ s) == "")) [
  | inl e ↦ absurd (apart (ap is_empty ((eq_iff (c ∷ s) "").0 e)))
  | inr e ↦ e
]
  where
    apart : false ≡ true → ⊥
    apart p = cc p
