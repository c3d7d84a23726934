-- ===== src/RescueExec/Output.antt =====
-- What is kept of a command's output (src/backend/rescue-exec.ts, `append`), against all of it, and
-- how a command is settled.
use chatgpt_web_agent.Base.{
  length-append, append-nil, append_assoc, ℕ, zero, suc, ◌-◌, Bool, List, [], ◌∷◌, ◌++◌, length,
  ltb, nat_eq, if◌then◌else◌, ◌≡◌, refl, sym, ap, subst, ◌∙◌, arith, if-cases,
}
use chatgpt_web_agent.Base.Table.{take, any}
use chatgpt_web_agent.Tools.{Units}
use chatgpt_web_agent.RescueExec.Run.{
  Run, Setup, Event, output, timeout_fires, abort_fires, kill_fires, fails, closes, start, append,
  step, steps, resolve, cleanup, hard_kill_soon, Outcome,
}

take-none : (n : ℕ) (xs : Units) → n ≡ 0 → take n xs ≡ []
take-none zero xs h = refl
take-none (suc n) xs h = absurd (omega arith)

take-append : (n : ℕ) (xs ys : Units) → take n (xs ++ ys) ≡ take n xs ++ take (n - length xs) ys
take-append zero xs ys = sym (take-none (0 - length xs) ys (omega arith))
take-append (suc n) [] ys = let e : suc n ≡ suc n - 0 = omega arith in ap (λ m. take m ys) e
take-append (suc n) (x ∷ xs) ys =
    let e : n - length xs ≡ suc n - suc (length xs) = omega arith in
    ap (λ l. x ∷ l) (take-append n xs ys) ∙ ap (λ m. x ∷ (take n xs ++ take m ys)) e

length-take : (n : ℕ) (xs : Units) → n - length (take n xs) ≡ n - length xs
length-take zero xs = omega arith
length-take (suc n) [] = refl
length-take (suc n) (x ∷ xs) = omega (arith, length-take n xs)

-- All that the command printed, in the order of the events.
unfoldable pub all_output : List Event → Units
all_output [] = []
all_output (output chunk ∷ es) = chunk ++ all_output es
all_output (_ ∷ es) = all_output es

-- What is kept is what a cut of the whole output would keep.
abbrev pub Kept : ℕ → Units → Run → Type 0
Kept n seen r = (r.raw_output ≡ take n seen) × (r.omitted_chars ≡ length seen - n)

pub take-nil : (n : ℕ) → take {V = ℕ} n [] ≡ []
take-nil zero = refl
take-nil (suc n) = refl

take-if :
    (n : ℕ) (raw chunk : Units)
    → (if ltb 0 n then raw ++ take n chunk else raw) ≡ raw ++ take n chunk
take-if zero raw chunk = sym (append-nil raw)
take-if (suc n) raw chunk = ground arith

append-Kept :
    (n : ℕ) (seen chunk : Units) (r : Run)
    → Kept n seen r
    → Kept n (seen ++ chunk) (append n chunk r)
unfolding append
append-Kept n seen chunk r (raw, omitted) = (
  take-if (n - length r.raw_output) r.raw_output chunk
      ∙ ap (λ m. r.raw_output ++ take m chunk) left
      ∙ ap (λ l. l ++ take (n - length seen) chunk) raw
      ∙ sym (take-append n seen chunk),
  omega (arith, omitted, left, length-append seen chunk),
)
  where
    left : n - length r.raw_output ≡ n - length seen
    left = ap (λ l. n - length l) raw ∙ length-take n seen

-- Only `append` writes the output.
resolve-Kept :
    (n : ℕ) (seen : Units) (result : Outcome) (r : Run)
    → Kept n seen r
    → Kept n seen (resolve result r)
unfolding resolve cleanup
resolve-Kept n seen result r h = h

pub step-Kept :
    (setup : Setup) (seen : Units) (e : Event) (r : Run)
    → Kept setup.max_output_chars seen r
    → Kept setup.max_output_chars (seen ++ all_output (e ∷ [])) (step setup e r)
unfolding step all_output hard_kill_soon
step-Kept setup seen (output chunk) r h =
    rw (append-nil chunk) (append-Kept setup.max_output_chars seen chunk r h)
step-Kept setup seen (timeout_fires found) r h =
    rw (append-nil seen)
      (if-cases (Kept setup.max_output_chars seen) r.timeout_timer _ _ (λ _. h) λ _. h)
step-Kept setup seen (abort_fires found) r h =
    rw (append-nil seen)
      (if-cases (Kept setup.max_output_chars seen) r.abort_listener _ _ (λ _. h) λ _. h)
step-Kept setup seen (kill_fires id found) r h = rw (append-nil seen) (
    if-cases (Kept setup.max_output_chars seen) (any (nat_eq id) r.kill_timers) _ _ (λ _. h) λ _. h)
step-Kept setup seen (fails message) r h = rw (append-nil seen) (
    if-cases (Kept setup.max_output_chars seen) r.settled _ _ (λ _. h)
      λ _. resolve-Kept setup.max_output_chars seen _ r h)
step-Kept setup seen (closes code sig duration) r h = rw (append-nil seen) (
    if-cases (Kept setup.max_output_chars seen) r.settled _ _ (λ _. h)
      λ _. resolve-Kept setup.max_output_chars seen _ r h)

pub all_output-cons :
    (e : Event) (es : List Event) → all_output (e ∷ es) ≡ all_output (e ∷ []) ++ all_output es
unfolding all_output
all_output-cons (output chunk) es = ap (λ l. l ++ all_output es) (sym (append-nil chunk))
all_output-cons (timeout_fires _) es = refl
all_output-cons (abort_fires _) es = refl
all_output-cons (kill_fires _ _) es = refl
all_output-cons (fails _) es = refl
all_output-cons (closes _ _ _) es = refl

steps-Kept :
    (setup : Setup) (seen : Units) (es : List Event) (r : Run)
    → Kept setup.max_output_chars seen r
    → Kept setup.max_output_chars (seen ++ all_output es) (steps setup es r)
unfolding steps all_output
steps-Kept setup seen [] r h = rw (append-nil seen) h
steps-Kept setup seen (e ∷ es) r h =
    subst (λ l. Kept setup.max_output_chars l (steps setup (e ∷ es) r))
      (append_assoc seen (all_output (e ∷ [])) (all_output es)
        ∙ ap (λ l. seen ++ l) (sym (all_output-cons e es)))
      (steps-Kept setup (seen ++ all_output (e ∷ [])) es (step setup e r)
        (step-Kept setup seen e r h))

-- After any events of an execution, the output that was collected piece by piece is the first
-- `maxOutputChars` units of all that the command printed, and the count of the omitted units is
-- exactly the length of the rest.
pub steps-collected :
    (setup : Setup) (with_signal : Bool) (es : List Event)
    → ((steps setup es (start with_signal)).raw_output
        ≡ take setup.max_output_chars (all_output es))
      × ((steps setup es (start with_signal)).omitted_chars
          ≡ length (all_output es) - setup.max_output_chars)
unfolding start
steps-collected setup with_signal es =
    steps-Kept setup [] es (start with_signal) (sym (take-nil setup.max_output_chars), omega arith)
