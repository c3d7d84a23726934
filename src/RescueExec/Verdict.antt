-- ===== src/RescueExec/Verdict.antt =====
-- A rescue command as its caller sees it (src/backend/rescue-exec.ts, `#execute`): the result as a
-- function of the events, without timers, flags or buffers, and that the code computes it.
use chatgpt_web_agent.Base.{
  append_assoc, ℕ, ◌-◌, String, ◌<>◌, Bool, true, false, not, ◌&&◌, ◌||◌, Option, none, some, List,
  [], ◌∷◌, ◌++◌, length, ◌≡◌, refl, sym, ap, ◌∙◌, subst, arith,
}
use chatgpt_web_agent.Base.Table.{take, any}
use chatgpt_web_agent.Json.{code_units}
use chatgpt_web_agent.Tools.{Units, tool_error}
use chatgpt_web_agent.RescueExec.Run.{
  Run, Setup, Event, output, timeout_fires, abort_fires, kill_fires, fails, closes, Outcome, start,
  append, step, steps, resolve, cleanup, hard_kill_soon, close_result, collected_output,
}
use chatgpt_web_agent.RescueExec.Output.{all_output, take-nil, Kept, step-Kept, all_output-cons}
use chatgpt_web_agent.RescueExec.Settling.{steps-outcome}

abbrev is_timeout : Event → Bool
is_timeout (timeout_fires _) = true
is_timeout _ = false

abbrev is_abort : Event → Bool
is_abort (abort_fires _) = true
is_abort _ = false

-- A run that has only what the report of the end is written from: what was printed so far, whether
-- the time ran out, and whether the caller gave up.
unfoldable pub seen_run : ℕ → Bool → List Event → Run
seen_run max_output_chars with_signal before = record (start with_signal) {
  raw_output = take max_output_chars (all_output before);
  omitted_chars = length (all_output before) - max_output_chars;
  timed_out = any is_timeout before;
  aborted = with_signal && any is_abort before;
}

-- The result that the events lead to: the first failure or end of the child decides it.
unfoldable pub verdict : Setup → Bool → List Event → List Event → Option Outcome
verdict setup with_signal before [] = none
verdict setup with_signal before (fails message ∷ es) =
    some (tool_error (code_units ("rescue_exec failed: " <> message)))
verdict setup with_signal before (closes code sig duration ∷ es) =
    some (close_result setup code sig duration (seen_run setup.max_output_chars with_signal before))
verdict setup with_signal before (e ∷ es) = verdict setup with_signal (before ++ (e ∷ [])) es

any-append :
    (p : Event → Bool) (before : List Event) (e : Event)
    → any p (before ++ (e ∷ [])) ≡ (any p before || p e)
unfolding any
any-append p [] e = ground arith
any-append p (x ∷ before) e = ground (arith, any-append p before e)

all_output-append :
    (before : List Event) (e : Event)
    → all_output (before ++ (e ∷ [])) ≡ all_output before ++ all_output (e ∷ [])
all_output-append [] e = unfold all_output in refl
all_output-append (x ∷ before) e =
    all_output-cons x (before ++ (e ∷ []))
    ∙ ap (λ l. all_output (x ∷ []) ++ l) (all_output-append before e)
    ∙ sym (append_assoc (all_output (x ∷ [])) (all_output before) (all_output (e ∷ [])))
    ∙ ap (λ l. l ++ all_output (e ∷ [])) (sym (all_output-cons x before))

-- What a run that is not settled has kept of the events so far.
record Seen (n : ℕ) (with_signal : Bool) (before : List Event) (r : Run) : Type 0 where
  kept : Kept n (all_output before) r
  timed : r.timed_out ≡ any is_timeout before
  gave_up : r.aborted ≡ (with_signal && any is_abort before)
  timer : r.timeout_timer ≡ not (any is_timeout before)
  listener : r.abort_listener ≡ (with_signal && not (any is_abort before))
  unsettled : r.settled ≡ false
  no_outcome : r.outcome ≡ none

start-Seen : (n : ℕ) (with_signal : Bool) → Seen n with_signal [] (start with_signal)
unfolding start any all_output
start-Seen n with_signal = record {
  kept = (sym (take-nil n), omega arith);
  timed = refl;
  gave_up = ground arith;
  timer = refl;
  listener = ground arith;
  unsettled = refl;
  no_outcome = refl;
}

step-Kept_at :
    (setup : Setup) (before : List Event) (e : Event) (r : Run)
    → Kept setup.max_output_chars (all_output before) r
    → Kept setup.max_output_chars (all_output (before ++ (e ∷ []))) (step setup e r)
step-Kept_at setup before e r h =
    subst (λ l. Kept setup.max_output_chars l (step setup e r)) (sym (all_output-append before e))
      (step-Kept setup (all_output before) e r h)

module _ (setup : Setup) (with_signal : Bool) (before : List Event) (r : Run) where
  output-Seen :
      (chunk : Units)
      → Seen setup.max_output_chars with_signal before r
      → Seen setup.max_output_chars with_signal
          (before ++ (output chunk ∷ []))
          (step setup (output chunk) r)
  unfolding step append
  output-Seen chunk h = ground (
    arith,
    step-Kept_at setup before (output chunk) r h.kept,
    any-append is_timeout before (output chunk),
    any-append is_abort before (output chunk),
  )

  timeout-Seen :
      (found : Bool)
      → Seen setup.max_output_chars with_signal before r
      → Seen setup.max_output_chars with_signal
          (before ++ (timeout_fires found ∷ []))
          (step setup (timeout_fires found) r)
  unfolding step hard_kill_soon
  timeout-Seen found h = ground (
    arith,
    step-Kept_at setup before (timeout_fires found) r h.kept,
    any-append is_timeout before (timeout_fires found),
    any-append is_abort before (timeout_fires found),
  )

  abort-Seen :
      (found : Bool)
      → Seen setup.max_output_chars with_signal before r
      → Seen setup.max_output_chars with_signal
          (before ++ (abort_fires found ∷ []))
          (step setup (abort_fires found) r)
  unfolding step hard_kill_soon
  abort-Seen found h = ground (
    arith,
    step-Kept_at setup before (abort_fires found) r h.kept,
    any-append is_timeout before (abort_fires found),
    any-append is_abort before (abort_fires found),
  )

  kill-Seen :
      (id : ℕ) (found : Bool)
      → Seen setup.max_output_chars with_signal before r
      → Seen setup.max_output_chars with_signal
          (before ++ (kill_fires id found ∷ []))
          (step setup (kill_fires id found) r)
  unfolding step
  kill-Seen id found h = ground (
    arith,
    step-Kept_at setup before (kill_fires id found) r h.kept,
    any-append is_timeout before (kill_fires id found),
    any-append is_abort before (kill_fires id found),
  )

  close-Seen :
      (code : Option ℕ) (sig : Option String) (duration : ℕ)
      → Seen setup.max_output_chars with_signal before r
      → close_result setup code sig duration r
        ≡ close_result setup code sig duration (seen_run setup.max_output_chars with_signal before)
  unfolding close_result collected_output seen_run
  close-Seen code sig duration h i =
      close_result setup code sig duration (record (start with_signal) {
        raw_output = h.kept.0 i;
        omitted_chars = h.kept.1 i;
        timed_out = h.timed i;
        aborted = h.gave_up i;
      })

fails-resolves :
    (setup : Setup) (message : String) (r : Run)
    → r.settled ≡ false
    → step setup (fails message) r
      ≡ resolve (tool_error (code_units ("rescue_exec failed: " <> message))) r
unfolding step
fails-resolves setup message r e = rw e refl

closes-resolves :
    (setup : Setup) (code : Option ℕ) (sig : Option String) (duration : ℕ) (r : Run)
    → r.settled ≡ false
    → step setup (closes code sig duration) r ≡ resolve (close_result setup code sig duration r) r
unfolding step
closes-resolves setup code sig duration r e = ground (arith, e)

closing-outcome :
    (setup : Setup) (e : Event) (es : List Event) (r : Run) (result : Outcome)
    → step setup e r ≡ resolve result r
    → (steps setup (e ∷ es) r).outcome ≡ some result
unfolding steps resolve cleanup
closing-outcome setup e es r result same =
    let settled : (step setup e r).settled ≡ true = ap (λ s. s.settled) same in
    let later : ((steps setup es (step setup e r)).settled ≡ true)
        × ((steps setup es (step setup e r)).outcome ≡ (step setup e r).outcome) =
      steps-outcome setup es (step setup e r) settled in
    later.1 ∙ ap (λ s. s.outcome) same

steps-from :
    (setup : Setup) (with_signal : Bool) (before es : List Event) (r : Run)
    → Seen setup.max_output_chars with_signal before r
    → (steps setup es r).outcome ≡ verdict setup with_signal before es
unfolding verdict steps
steps-from setup with_signal before [] r h = h.no_outcome
steps-from setup with_signal before (output chunk ∷ es) r h =
    steps-from setup with_signal (before ++ (output chunk ∷ [])) es _
      (output-Seen setup with_signal before r chunk h)
steps-from setup with_signal before (timeout_fires found ∷ es) r h =
    steps-from setup with_signal (before ++ (timeout_fires found ∷ [])) es _
      (timeout-Seen setup with_signal before r found h)
steps-from setup with_signal before (abort_fires found ∷ es) r h =
    steps-from setup with_signal (before ++ (abort_fires found ∷ [])) es _
      (abort-Seen setup with_signal before r found h)
steps-from setup with_signal before (kill_fires id found ∷ es) r h =
    steps-from setup with_signal (before ++ (kill_fires id found ∷ [])) es _
      (kill-Seen setup with_signal before r id found h)
steps-from setup with_signal before (fails message ∷ es) r h =
    closing-outcome setup (fails message) es r _ (fails-resolves setup message r h.unsettled)
steps-from setup with_signal before (closes code sig duration ∷ es) r h =
    closing-outcome setup (closes code sig duration) es r _
      (closes-resolves setup code sig duration r h.unsettled)
    ∙ ap some (close-Seen setup with_signal before r code sig duration h)

-- What the caller is told is a function of the events alone: the first failure or end of the child
-- decides the result, and that of an end is written from the output that came before it, cut to
-- `maxOutputChars`, and from whether the timeout or, where the call can be aborted, an abort came
-- before it. While neither a failure nor an end has come, there is no result.
pub steps-verdict :
    (setup : Setup) (with_signal : Bool) (es : List Event)
    → (steps setup es (start with_signal)).outcome ≡ verdict setup with_signal [] es
steps-verdict setup with_signal es =
    steps-from setup with_signal [] es (start with_signal)
      (start-Seen setup.max_output_chars with_signal)
