-- ===== src/Config/Integers.antt =====
-- Reading back a positive integer that was written in decimal (src/config.ts,
-- `readPositiveInteger`).
use Prim.Native.Char.{Char, code}
use chatgpt_web_agent.Base.{
  ℕ, zero, suc, ◌+◌, ◌-◌, ◌*◌, ◌/◌, ◌%◌, ◌≤◌, ◌<◌, String, ◌<>◌, is_space, true, false, ◌&&◌, some,
  ◌==◌, ltb, leb, ok, ◌≡◌, refl, sym, ap, ◌∙◌, subst, arith, Bool-cases, inl, inr, one-char,
  cons-not_empty,
}
use chatgpt_web_agent.Json.{decimal, decimal_from, digit}
use chatgpt_web_agent.Config.Readers.{
  plus, is_digit, digits_value, parse_digits, parse_signed, parse_int, positive,
  read_positive_integer, max_safe_integer,
}

-- A digit is one character, which stands for its value.
pub digit-char : (d : ℕ) → d < 10 → (c : Char) × (code c ≡ 48 + d) × (digit d ≡ String.◌∷◌ c "")
digit-char zero h = (_, refl, refl)
digit-char (suc zero) h = (_, refl, refl)
digit-char (suc (suc zero)) h = (_, refl, refl)
digit-char (suc (suc (suc zero))) h = (_, refl, refl)
digit-char (suc (suc (suc (suc zero)))) h = (_, refl, refl)
digit-char (suc (suc (suc (suc (suc zero))))) h = (_, refl, refl)
digit-char (suc (suc (suc (suc (suc (suc zero)))))) h = (_, refl, refl)
digit-char (suc (suc (suc (suc (suc (suc (suc zero))))))) h = (_, refl, refl)
digit-char (suc (suc (suc (suc (suc (suc (suc (suc zero)))))))) h = (_, refl, refl)
digit-char (suc (suc (suc (suc (suc (suc (suc (suc (suc zero))))))))) h = (_, refl, refl)
digit-char (suc (suc (suc (suc (suc (suc (suc (suc (suc (suc d)))))))))) h = absurd (omega arith)

digits_value-char :
    (a d : ℕ) (c : Char) (rest : String)
    → d < 10
    → code c ≡ 48 + d
    → digits_value a (String.◌∷◌ c rest) ≡ digits_value (a * 10 + d) rest
unfolding digits_value is_digit
digits_value-char a d c rest h e =
    let same : code c - 48 ≡ d = omega (arith, e) in
    let first : (leb 48 (code c) && leb (code c) 57) ≡ true = ground (arith, e, h) in
    rw (first, same) refl

-- A digit that is read multiplies what was read before by ten.
digits_value-digit :
    (a d : ℕ) (rest : String)
    → d < 10
    → digits_value a (digit d <> rest) ≡ digits_value (a * 10 + d) rest
digits_value-digit a d rest h =
    let (c, value, e) = digit-char d h in
    ap (λ s. digits_value a (s <> rest)) e
    ∙ ap (digits_value a) (one-char c rest)
    ∙ digits_value-char a d c rest h value

digits_value-decimal_from :
    (fuel n : ℕ) (rest : String)
    → n < fuel
    → digits_value 0 (decimal_from fuel n rest) ≡ digits_value n rest
unfolding decimal_from
digits_value-decimal_from zero n rest h = absurd (omega arith)
digits_value-decimal_from (suc fuel) n rest h = elim (Bool-cases (ltb n 10)) [
  | inl small ↦
      rw small
        (digits_value-digit 0 n rest (ground arith) ∙ ap (λ m. digits_value m rest) (omega arith))
  | inr large ↦ rw large (
      digits_value-decimal_from fuel (n / 10) (digit (n % 10) <> rest) (ground arith)
      ∙ digits_value-digit (n / 10) (n % 10) rest (omega arith)
      ∙ ap (λ m. digits_value m rest) (omega arith))
]

-- A text that begins with a digit.
record FirstDigit (s : String) : Type 0 where
  first : Char
  rest : String
  low : 48 ≤ code first
  high : code first ≤ 57
  is_all : s ≡ String.◌∷◌ first rest

digit-FirstDigit : (d : ℕ) (rest : String) → d < 10 → FirstDigit (digit d <> rest)
digit-FirstDigit d rest h =
    let (c, value, e) = digit-char d h in
    record {
      first = c;
      rest = rest;
      low = omega (arith, value);
      high = omega (arith, value);
      is_all = ap (λ s. s <> rest) e ∙ one-char c rest;
    }

decimal_from-FirstDigit :
    (fuel n : ℕ) (rest : String) → n < fuel → FirstDigit (decimal_from fuel n rest)
unfolding decimal_from
decimal_from-FirstDigit zero n rest h = absurd (omega arith)
decimal_from-FirstDigit (suc fuel) n rest h = elim (Bool-cases (ltb n 10)) [
  | inl small ↦ rw small (digit-FirstDigit n rest (ground arith))
  | inr large ↦
      rw large (decimal_from-FirstDigit fuel (n / 10) (digit (n % 10) <> rest) (ground arith))
]

parse_int-digit :
    (c : Char) (s : String)
    → 48 ≤ code c
    → code c ≤ 57
    → parse_int (String.◌∷◌ c s) ≡ plus (digits_value 0 (String.◌∷◌ c s))
unfolding parse_int parse_signed parse_digits is_space is_digit
parse_int-digit c s low high = ground arith

parse_int-FirstDigit : (s : String) → FirstDigit s → parse_int s ≡ plus (digits_value 0 s)
parse_int-FirstDigit s h =
    subst (λ t. parse_int t ≡ plus (digits_value 0 t)) (sym h.is_all)
      (parse_int-digit h.first h.rest h.low h.high)

not-empty : (s : String) → FirstDigit s → (s == "") ≡ false
not-empty s h = subst (λ t. (t == "") ≡ false) (sym h.is_all) (cons-not_empty h.first h.rest)

decimal-FirstDigit : (n : ℕ) → FirstDigit (decimal n)
unfolding decimal
decimal-FirstDigit n = decimal_from-FirstDigit (suc n) n "" (omega arith)

parse_int-decimal : (n : ℕ) → parse_int (decimal n) ≡ plus n
unfolding decimal digits_value
parse_int-decimal n =
    parse_int-FirstDigit (decimal n) (decimal-FirstDigit n)
    ∙ ap plus (digits_value-decimal_from (suc n) n "" (omega arith))

positive-plus : (s : String) (n : ℕ) → 1 ≤ n → n ≤ max_safe_integer → positive s (plus n) ≡ ok n
unfolding positive
positive-plus s n low high = ground arith

-- A setting that is a positive integer of at most 2^53 - 1 in decimal digits is read as this
-- integer, whatever the default is.
pub read-decimal :
    (n fallback : ℕ)
    → 1 ≤ n
    → n ≤ max_safe_integer
    → read_positive_integer (some (decimal n)) fallback ≡ ok n
unfolding read_positive_integer
read-decimal n fallback low high =
    rw (not-empty (decimal n) (decimal-FirstDigit n), parse_int-decimal n)
      (positive-plus (decimal n) n low high)
