-- ===== src/Feishu/Escaping.antt =====
-- The label of a mention is text (src/backend/feishu.ts, `escapeMentionName`).
use Prim.Native.Char.{Char, code}
use text.Mathlib.TextLemmas.{cons-append, nil-append, append_assoc}
use chatgpt_web_agent.Base.{
  ℕ, String, ◌<>◌, Bool, true, false, nat_eq, if◌then◌else◌, ◌≡◌, refl, sym, ap, ◌∙◌, Bool-cases,
  inl, inr, one-char,
}
use chatgpt_web_agent.Feishu.Mentions.{replace_code, escape_mention_name}

abbrev escaped_char : Char → String
escaped_char c =
    if nat_eq (code c) 38
    then "&amp;"
    else if nat_eq (code c) 60
    then "&lt;"
    else if nat_eq (code c) 62
    then "&gt;"
    else String.◌∷◌ c ""

-- The reference: every character on its own, in one pass.
unfoldable pub escape_once : String → String
escape_once String.[] = ""
escape_once (String.◌∷◌ c s) = escaped_char c <> escape_once s

replace-append :
    (n : ℕ) (new s t : String)
    → replace_code n new (s <> t) ≡ replace_code n new s <> replace_code n new t
unfolding replace_code
replace-append n new String.[] t = ap (replace_code n new) (nil-append t) ∙ sym (nil-append _)
replace-append n new (String.◌∷◌ c s) t =
    ap (replace_code n new) (cons-append c s t)
    ∙ split (nat_eq (code c) n) (replace-append n new s t)
  where
    split :
        (b : Bool)
        → replace_code n new (s <> t) ≡ replace_code n new s <> replace_code n new t
        → (if b
            then new <> replace_code n new (s <> t)
            else String.◌∷◌ c (replace_code n new (s <> t)))
          ≡ (if b then new <> replace_code n new s else String.◌∷◌ c (replace_code n new s))
            <> replace_code n new t
    split true ih = ap (λ r. new <> r) ih ∙ sym (append_assoc new _ _)
    split false ih = ap (λ r. String.◌∷◌ c r) ih ∙ sym (cons-append c _ _)

escape-append :
    (s t : String) → escape_mention_name (s <> t) ≡ escape_mention_name s <> escape_mention_name t
unfolding escape_mention_name
escape-append s t =
    ap (λ r. replace_code 62 "&gt;" (replace_code 60 "&lt;" r)) (replace-append 38 "&amp;" s t)
    ∙ ap (replace_code 62 "&gt;") (replace-append 60 "&lt;" (replace_code 38 "&amp;" s) _)
    ∙ replace-append 62 "&gt;" (replace_code 60 "&lt;" (replace_code 38 "&amp;" s)) _

escape-char : (c : Char) → escape_mention_name (String.◌∷◌ c "") ≡ escaped_char c
unfolding escape_mention_name replace_code
escape-char c = elim (Bool-cases (nat_eq (code c) 38)) [
  | inl e ↦ rw e refl
  | inr not_and ↦ rw not_and (elim (Bool-cases (nat_eq (code c) 60)) [
    | inl e ↦ rw e refl
    | inr not_less ↦ rw not_less (elim (Bool-cases (nat_eq (code c) 62)) [
      | inl e ↦ rw e refl
      | inr not_more ↦ rw not_more refl
    ])
  ])
]

-- The three replacements that are made one after the other give what one pass over the characters
-- gives: no replacement touches what an earlier one wrote.
pub escape-once : (s : String) → escape_mention_name s ≡ escape_once s
unfolding escape_once
escape-once String.[] = unfold escape_mention_name replace_code in refl
escape-once (String.◌∷◌ c s) =
    ap escape_mention_name (sym (one-char c s))
    ∙ escape-append (String.◌∷◌ c "") s
    ∙ ap (λ r. r <> escape_mention_name s) (escape-char c)
    ∙ ap (λ r. escaped_char c <> r) (escape-once s)
