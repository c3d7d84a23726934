-- ===== src/Events/Secret.antt =====
-- Webhook secrets (src/events.ts, `validateSecret`): `whsec_` and 24 to 64 bytes in base64. The
-- decoder and the encoder are those of `Buffer`.
use Prim.Native.Char.{code}
use Prim.Native.String.{String}
use chatgpt_web_agent.Base.{
  ℕ, zero, suc, ◌+◌, ◌-◌, ◌*◌, ◌/◌, ◌%◌, Bool, true, false, not, ◌&&◌, ◌||◌, Option, none, some,
  List, [], ◌∷◌, length, Result, err, raise_if, ltb, leb, nat_eq, if◌then◌else◌,
}

abbrev chars : String → List ℕ
chars String.[] = []
chars (String.◌∷◌ c s) = code c ∷ chars s

-- A digit of base64.
unfoldable pub sextet : ℕ → Option ℕ
sextet c =
    if leb b'A' c && leb c b'Z'
    then some (c - b'A')
    else if leb b'a' c && leb c b'z'
    then some (c - b'a' + 26)
    else if leb b'0' c && leb c b'9'
    then some (c - b'0' + 52)
    else if nat_eq c b'+'
    then some 62
    else if nat_eq c b'/'
    then some 63
    else none

-- At most `n` characters `=` and nothing else.
abbrev is_padding : ℕ → List ℕ → Bool
is_padding n [] = true
is_padding zero (c ∷ cs) = false
is_padding (suc n) (c ∷ cs) = nat_eq c b'=' && is_padding n cs

-- The digits before the padding: `[A-Za-z0-9+/]*={0,2}` matches, or `none`.
unfoldable pub digits_of : List ℕ → Option (List ℕ)
digits_of [] = some []
digits_of (c ∷ cs) = elim (sextet c) [
  | some d ↦ elim (digits_of cs) [ none ↦ none | some ds ↦ some (d ∷ ds) ]
  | none ↦ if is_padding 2 (c ∷ cs) then some [] else none
]

-- `Buffer.from(s, 'base64')`: what is left of a last group that is too short is dropped.
unfoldable pub decode : List ℕ → List ℕ
decode (a ∷ b ∷ c ∷ d ∷ r) = (a * 4 + b / 16) ∷ (b % 16 * 16 + c / 4) ∷ (c % 4 * 64 + d) ∷ decode r
decode (a ∷ b ∷ c ∷ []) = (a * 4 + b / 16) ∷ (b % 16 * 16 + c / 4) ∷ []
decode (a ∷ b ∷ []) = (a * 4 + b / 16) ∷ []
decode _ = []

-- `bytes.toString('base64')` without its padding
unfoldable pub encode : List ℕ → List ℕ
encode (x ∷ y ∷ z ∷ r) =
    (x / 4) ∷ (x % 4 * 16 + y / 16) ∷ (y % 16 * 4 + z / 64) ∷ (z % 64) ∷ encode r
encode (x ∷ y ∷ []) = (x / 4) ∷ (x % 4 * 16 + y / 16) ∷ (y % 16 * 4) ∷ []
encode (x ∷ []) = (x / 4) ∷ (x % 4 * 16) ∷ []
encode [] = []

unfoldable pub same_digits : List ℕ → List ℕ → Bool
same_digits [] [] = true
same_digits (x ∷ xs) (y ∷ ys) = nat_eq x y && same_digits xs ys
same_digits _ _ = false

abbrev after_prefix : List ℕ → List ℕ → Option (List ℕ)
after_prefix [] cs = some cs
after_prefix (p ∷ ps) [] = none
after_prefix (p ∷ ps) (c ∷ cs) = if nat_eq p c then after_prefix ps cs else none

abbrev is_nonempty : List ℕ → Bool
is_nonempty [] = false
is_nonempty (x ∷ xs) = true

-- The digits of a secret of the right shape.
unfoldable pub secret_digits : String → Option (List ℕ)
secret_digits secret = elim (after_prefix (chars "whsec_") (chars secret)) [
  | none ↦ none
  | some cs ↦ elim (digits_of cs) [
    | none ↦ none
    | some ds ↦ if is_nonempty ds then some ds else none
  ]
]

abbrev pub is_sound_key : List ℕ → Bool
is_sound_key ds = not (
    ltb (length (decode ds)) 24
    || ltb 64 (length (decode ds))
    || not (same_digits (encode (decode ds)) ds))

unfoldable pub validate_secret : String → Result (Unit {0})
validate_secret secret = elim (secret_digits secret) [
  | none ↦ err "invalid_webhook_secret"
  | some ds ↦ raise_if (not (is_sound_key ds)) "invalid_webhook_secret"
]
