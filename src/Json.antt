-- ===== src/Json.antt =====
-- JSON values, `JSON.stringify`, and `canonicalJson` of src/events.ts.
-- Numbers are non-negative integers: the program writes no other into a body that is modelled.
use Prim.Native.Char.{Char, code}
use Prim.Native.Nat.{compare, Ordering}
use Prim.Native.String.{String}
use chatgpt_web_agent.Base.{
  ℕ, zero, suc, ◌+◌, ◌-◌, ◌/◌, ◌%◌, Bool, true, false, ◌<>◌, ltb, nat_eq, List, [], ◌∷◌,
  if◌then◌else◌, ◌≡◌, refl, ◌==◌,
}

mutual
  -- `undefined` is a value that a field or an item may have before it is written.
  pub data Json : Type 0 where
    undefined null : Json
    bool : Bool → Json
    num : ℕ → Json
    str : String → Json
    arr : Items → Json
    obj : Fields → Json

  pub data Items : Type 0 where
    nil : Items
    cons : Json → Items → Items

  pub data Fields : Type 0 where
    end : Fields
    field : String → Json → Fields → Fields

abbrev pub digit : ℕ → String
digit n =
    if nat_eq n 0
    then "0"
    else if nat_eq n 1
    then "1"
    else if nat_eq n 2
    then "2"
    else if nat_eq n 3
    then "3"
    else if nat_eq n 4
    then "4"
    else if nat_eq n 5
    then "5"
    else if nat_eq n 6
    then "6"
    else if nat_eq n 7
    then "7"
    else if nat_eq n 8
    then "8"
    else if nat_eq n 9
    then "9"
    else if nat_eq n 10
    then "a"
    else if nat_eq n 11
    then "b"
    else if nat_eq n 12
    then "c"
    else if nat_eq n 13
    then "d"
    else if nat_eq n 14
    then "e"
    else "f"

-- Each round divides by ten, so `n + 1` rounds are enough.
unfoldable pub decimal_from : ℕ → ℕ → String → String
decimal_from zero n acc = acc
decimal_from (suc fuel) n acc =
    let rest = decimal_from fuel (n / 10) (digit (n % 10) <> acc) in
    if ltb n 10 then digit n <> acc else rest

-- `String(n)` of an integer
unfoldable pub decimal : ℕ → String
unfolding decimal_from
decimal n = decimal_from (suc n) n ""

escape : Char → String
escape c =
    let n = code c in
    if nat_eq n 34
    then "\\\""
    else if nat_eq n 92
    then "\\\\"
    else if nat_eq n 8
    then "\\b"
    else if nat_eq n 9
    then "\\t"
    else if nat_eq n 10
    then "\\n"
    else if nat_eq n 12
    then "\\f"
    else if nat_eq n 13
    then "\\r"
    else if ltb n 32
    then "\\u00" <> digit (n / 16) <> digit (n % 16)
    else String.◌∷◌ c String.[]

escape_all : String → String
unfolding escape
escape_all String.[] = ""
escape_all (String.◌∷◌ c s) = escape c <> escape_all s

-- `JSON.stringify` of a string
unfoldable pub quote : String → String
unfolding escape_all
quote s = "\"" <> escape_all s <> "\""

-- Puts a comma between two parts, unless the later one is empty.
abbrev comma : String → String → String
comma a String.[] = a
comma a b = a <> "," <> b

unfoldable mutual
  unfolding decimal quote

  -- `JSON.stringify`: a field that is undefined is left out, an item that is undefined is null.
  pub stringify : Json → String
  stringify undefined = "null"
  stringify null = "null"
  stringify (bool true) = "true"
  stringify (bool false) = "false"
  stringify (num n) = decimal n
  stringify (str s) = quote s
  stringify (arr xs) = "[" <> stringify_items xs <> "]"
  stringify (obj fs) = "{" <> stringify_fields fs <> "}"

  pub stringify_items : Items → String
  stringify_items nil = ""
  stringify_items (cons v vs) = comma (stringify v) (stringify_items vs)

  pub stringify_fields : Fields → String
  stringify_fields end = ""
  stringify_fields (field k undefined fs) = stringify_fields fs
  stringify_fields (field k v fs) = comma (quote k <> ":" <> stringify v) (stringify_fields fs)

-- The UTF-16 code units of a text, by which JavaScript's `sort` compares.
unfoldable pub code_units : String → List ℕ
code_units String.[] = []
code_units (String.◌∷◌ c s) =
    let n = code c in
    let rest = code_units s in
    if ltb n 0x10000
    then n ∷ rest
    else (0xd800 + (n - 0x10000) / 0x400) ∷ (0xdc00 + (n - 0x10000) % 0x400) ∷ rest

-- Whether the first list comes before the second or equals it.
unfoldable pub units_le : List ℕ → List ℕ → Bool
units_le [] ys = true
units_le (x ∷ xs) [] = false
units_le (x ∷ xs) (y ∷ ys) = elim (compare x y) [
  | Ordering.lt ↦ true
  | Ordering.eq ↦ units_le xs ys
  | Ordering.gt ↦ false
]

-- One key with its canonical value, put in order.
unfoldable pub insert_field : String → String → List (String × String) → List (String × String)
unfolding code_units units_le
insert_field k v [] = (k, v) ∷ []
insert_field k v ((j, w) ∷ r) =
    if units_le (code_units k) (code_units j)
    then (k, v) ∷ (j, w) ∷ r
    else (j, w) ∷ insert_field k v r

unfoldable pub print_fields : List (String × String) → String
unfolding quote
print_fields [] = ""
print_fields ((k, v) ∷ r) = comma (quote k <> ":" <> v) (print_fields r)

unfoldable mutual
  unfolding stringify insert_field print_fields

  -- `canonicalJson`
  pub canonical_json : Json → String
  canonical_json undefined = "null"
  canonical_json (arr xs) = "[" <> canonical_items xs <> "]"
  canonical_json (obj fs) = "{" <> print_fields (canonical_fields fs) <> "}"
  canonical_json v = stringify v

  pub canonical_items : Items → String
  canonical_items nil = ""
  canonical_items (cons v vs) = comma (canonical_json v) (canonical_items vs)

  -- The defined fields, by key.
  pub canonical_fields : Fields → List (String × String)
  canonical_fields end = []
  canonical_fields (field k undefined fs) = canonical_fields fs
  canonical_fields (field k v fs) = insert_field k (canonical_json v) (canonical_fields fs)

-- `v[k]` of an object: `undefined` where there is no such field.
unfoldable pub lookup_field : String → Fields → Json
lookup_field k end = undefined
lookup_field k (field j v fs) = if j == k then v else lookup_field k fs

canonical_test :
    canonical_json (
      obj
        (field "b" (num 120) (field "x" undefined (field "a" (arr (cons (str "q\"\n") nil)) end))))
    ≡ "{\"a\":[\"q\\\"\\n\"],\"b\":120}"
unfolding canonical_json
canonical_test = refl
