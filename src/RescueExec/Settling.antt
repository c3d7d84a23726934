-- ===== src/RescueExec/Settling.antt =====
-- How a command is settled and what becomes of its timers (src/backend/rescue-exec.ts, `#execute`).
use chatgpt_web_agent.Base.{
  ℕ, zero, suc, Option, none, not, nat_eq, ◌++◌, if-cases, Bool-cases, inl, inr, ap, Bool, true,
  false, ◌&&◌, ◌||◌, some, List, [], ◌∷◌, nat_eq_iff, is_some, if◌then◌else◌, ◌≡◌, refl, arith, ◌⊎◌,
  ◌∙◌,
}
use chatgpt_web_agent.Base.Table.{any, select}
use chatgpt_web_agent.RescueExec.Run.{
  Run, Setup, Event, Signal, Sent, output, timeout_fires, abort_fires, kill_fires, fails, closes,
  start, append, step, steps, resolve, cleanup, hard_kill_soon, terminate_process_group, sigterm,
  sigkill, to_group, to_child,
}

-- The kill timers that still run, as long as the command was not both timed out and aborted: none,
-- or the one that the variable holds.
abbrev Held : Run → Type 0
Held r =
    (r.kill_timers ≡ [])
    ⊎ ((id : ℕ) × (r.kill_timers ≡ id ∷ [])
        × (r.kill_timer ≡ some id)
        × ((r.timed_out || r.aborted) ≡ true)
        × (r.settled ≡ false))

record Sound (r : Run) : Type 0 where
  outcome_iff : r.settled ≡ is_some r.outcome
  one_timeout : (r.timeout_timer && r.timed_out) ≡ false
  one_abort : (r.abort_listener && r.aborted) ≡ false
  quiet : r.settled ≡ true → (r.timeout_timer ≡ false) × (r.abort_listener ≡ false)
  held : (r.timed_out && r.aborted) ≡ false → Held r

start-Sound : (with_signal : Bool) → Sound (start with_signal)
unfolding start
start-Sound with_signal = ground arith

step-Sound : (setup : Setup) (e : Event) (r : Run) → Sound r → Sound (step setup e r)
unfolding step resolve cleanup hard_kill_soon append select any
step-Sound setup (output chunk) r h = ground (arith)
step-Sound setup (timeout_fires found) r h = ground (arith)
step-Sound setup (abort_fires found) r h = ground (arith)
step-Sound setup (kill_fires id found) r h = ground (arith)
step-Sound setup (fails message) r h = ground (arith)
step-Sound setup (closes code sig duration) r h = ground (arith)

steps-Sound : (setup : Setup) (es : List Event) (r : Run) → Sound r → Sound (steps setup es r)
unfolding steps
steps-Sound setup [] r h = h
steps-Sound setup (e ∷ es) r h = steps-Sound setup es (step setup e r) (step-Sound setup e r h)

pub step-outcome :
    (setup : Setup) (e : Event) (r : Run)
    → r.settled ≡ true
    → ((step setup e r).settled ≡ true) × ((step setup e r).outcome ≡ r.outcome)
unfolding step hard_kill_soon append
step-outcome setup (output chunk) r h = (h, refl)
step-outcome setup (timeout_fires found) r h = ground arith
step-outcome setup (abort_fires found) r h = ground arith
step-outcome setup (kill_fires id found) r h = ground arith
step-outcome setup (fails message) r h = ground arith
step-outcome setup (closes code sig duration) r h = ground arith

pub steps-outcome :
    (setup : Setup) (es : List Event) (r : Run)
    → r.settled ≡ true
    → ((steps setup es r).settled ≡ true) × ((steps setup es r).outcome ≡ r.outcome)
unfolding steps
steps-outcome setup [] r h = (h, refl)
steps-outcome setup (e ∷ es) r h =
    let one : ((step setup e r).settled ≡ true) × ((step setup e r).outcome ≡ r.outcome) =
      step-outcome setup e r h in
    let rest : ((steps setup es (step setup e r)).settled ≡ true)
        × ((steps setup es (step setup e r)).outcome ≡ (step setup e r).outcome) =
      steps-outcome setup es (step setup e r) one.0 in
    (rest.0, rest.1 ∙ one.1)

abbrev Closing : Event → Type 0
Closing (fails _) = Unit {0}
Closing (closes _ _ _) = Unit {0}
Closing _ = ⊥

step-settled : (setup : Setup) (e : Event) (r : Run) → Closing e → (step setup e r).settled ≡ true
unfolding step resolve cleanup
step-settled setup (output _) r c = elim c [ ]
step-settled setup (timeout_fires _) r c = elim c [ ]
step-settled setup (abort_fires _) r c = elim c [ ]
step-settled setup (kill_fires _ _) r c = elim c [ ]
step-settled setup (fails message) r c = ground arith
step-settled setup (closes code sig duration) r c = ground arith

-- Once the child has failed to start or has closed, the call has its result, and whatever events
-- follow the result is the same, no timeout and no abort is waited for any more and, unless the
-- command was both timed out and aborted, no timer is left to send a signal.
pub steps-settled :
    (setup : Setup) (with_signal : Bool) (before after : List Event) (e : Event)
    → Closing e
    → (is_some (step setup e (steps setup before (start with_signal))).outcome ≡ true)
      × ((steps setup after (step setup e (steps setup before (start with_signal)))).outcome
          ≡ (step setup e (steps setup before (start with_signal))).outcome)
      × ((steps setup after (step setup e (steps setup before (start with_signal)))).timeout_timer
          ≡ false)
      × ((steps setup after (step setup e (steps setup before (start with_signal)))).abort_listener
          ≡ false)
      × (((steps setup after (step setup e (steps setup before (start with_signal)))).kill_timers
            ≡ [])
          ⊎ (((steps setup after (step setup e (steps setup before (start with_signal)))).timed_out
                ≡ true)
              × ((steps setup after (step setup e (steps setup before (start with_signal)))).aborted
                  ≡ true)))
steps-settled setup with_signal before after e c =
    finished (step setup e (steps setup before (start with_signal)))
      (steps setup after (step setup e (steps setup before (start with_signal))))
      (step-Sound setup e (steps setup before (start with_signal))
        (steps-Sound setup before (start with_signal) (start-Sound with_signal)))
      (step-settled setup e (steps setup before (start with_signal)) c)
      (steps-Sound setup after _ (
        step-Sound setup e (steps setup before (start with_signal))
          (steps-Sound setup before (start with_signal) (start-Sound with_signal))))
      (steps-outcome setup after _
        (step-settled setup e (steps setup before (start with_signal)) c))
  where
    finished :
        (r s : Run)
        → Sound r
        → r.settled ≡ true
        → Sound s
        → (s.settled ≡ true) × (s.outcome ≡ r.outcome)
        → (is_some r.outcome ≡ true)
          × (s.outcome ≡ r.outcome)
          × (s.timeout_timer ≡ false)
          × (s.abort_listener ≡ false)
          × ((s.kill_timers ≡ []) ⊎ ((s.timed_out ≡ true) × (s.aborted ≡ true)))
    finished r s hr settled hs (stays, same) = ground arith

abbrev pub is_kill : Sent → Bool
is_kill (to_group sigkill) = true
is_kill (to_child sigkill) = true
is_kill (to_group sigterm) = false
is_kill (to_child sigterm) = false

-- What follows a SIGTERM: `before` was sent until then, `newer` has been sent since, the newest
-- first. The kill timer `id` is still to fire, or a SIGKILL was sent, or the command has ended.
data Doomed (term : Sent) (before : List Sent) (id : ℕ) (r : Run) : Type 0 where
  doomed :
      (newer : List Sent)
      → r.sent ≡ newer ++ (term ∷ before)
      → (r.settled || any is_kill newer || any (nat_eq id) r.kill_timers) ≡ true
      → Doomed term before id r

timer-kept :
    (id other : ℕ) (timers : List ℕ)
    → any (nat_eq id) timers ≡ true
    → nat_eq id other ≡ false
    → any (nat_eq id) (select (λ t. not (nat_eq t other)) timers) ≡ true
unfolding any select
timer-kept id other [] h differs = absurd (cc h)
timer-kept id other (t ∷ ts) h differs =
    ground (arith, nat_eq_iff id t, nat_eq_iff t other, nat_eq_iff id other, timer-kept id other ts)

-- To the process group or, where that is not found, to the child.
abbrev pub signalled : Signal → Bool → Sent
signalled s found = if found then to_group s else to_child s

-- A spawned command is sent the signal that `terminateProcessGroup` is called with.
terminated :
    (pid : Option ℕ) (n : ℕ) (s : Signal) (found : Bool)
    → pid ≡ some (suc n)
    → terminate_process_group pid s found ≡ signalled s found ∷ []
unfolding terminate_process_group
terminated none n s found e = absurd (cc e)
terminated (some zero) n s found e = absurd (cc e)
terminated (some (suc m)) n s true e = refl
terminated (some (suc m)) n s false e = refl

module _ (setup : Setup) (pid : ℕ) (spawned : setup.pid ≡ some (suc pid)) (term : Sent)
    (before : List Sent) (id : ℕ) where
  step-Doomed :
      (e : Event) (r : Run) → Doomed term before id r → Doomed term before id (step setup e r)
  unfolding step append resolve cleanup hard_kill_soon any
  step-Doomed (output chunk) r (doomed newer e h) = doomed newer e h
  step-Doomed (timeout_fires found) r (doomed newer e h) =
      if-cases (Doomed term before id) r.timeout_timer _ _
        (λ _.
          doomed (signalled sigterm found ∷ newer)
            (rw (terminated setup.pid pid sigterm found spawned)
              (ap (λ l. signalled sigterm found ∷ l) e))
            (ground (arith, h)))
        λ _. doomed newer e h
  step-Doomed (abort_fires found) r (doomed newer e h) =
      if-cases (Doomed term before id) r.abort_listener _ _
        (λ _.
          doomed (signalled sigterm found ∷ newer)
            (rw (terminated setup.pid pid sigterm found spawned)
              (ap (λ l. signalled sigterm found ∷ l) e))
            (ground (arith, h)))
        λ _. doomed newer e h
  step-Doomed (kill_fires other found) r (doomed newer e h) =
      if-cases (Doomed term before id) (any (nat_eq other) r.kill_timers) _ _
        (λ _.
          doomed (signalled sigkill found ∷ newer)
            (rw (terminated setup.pid pid sigkill found spawned)
              (ap (λ l. signalled sigkill found ∷ l) e))
            (killed found))
        λ _. doomed newer e h
    where
      killed :
          (found : Bool)
          → (r.settled
              || any is_kill (signalled sigkill found ∷ newer)
              || any (nat_eq id) (select (λ t. not (nat_eq t other)) r.kill_timers))
            ≡ true
      killed true = ground arith
      killed false = ground arith
  step-Doomed (fails message) r (doomed newer e h) =
      if-cases (Doomed term before id) r.settled _ _ (λ _. doomed newer e h)
        λ _. doomed newer e refl
  step-Doomed (closes code sig duration) r (doomed newer e h) =
      if-cases (Doomed term before id) r.settled _ _ (λ _. doomed newer e h)
        λ _. doomed newer e refl

  steps-Doomed :
      (es : List Event) (r : Run)
      → Doomed term before id r
      → Doomed term before id (steps setup es r)
  unfolding steps
  steps-Doomed [] r h = h
  steps-Doomed (e ∷ es) r h = steps-Doomed es (step setup e r) (step-Doomed e r h)

  kill-Doomed :
      (found : Bool) (r : Run)
      → Doomed term before id r
      → (newer : List Sent) × ((step setup (kill_fires id found) r).sent ≡ newer ++ (term ∷ before))
        × (((step setup (kill_fires id found) r).settled || any is_kill newer) ≡ true)
  unfolding step any
  kill-Doomed found r (doomed newer e h) = elim (Bool-cases (any (nat_eq id) r.kill_timers)) [
    | inl held ↦ rw held (
      signalled sigkill found ∷ newer,
      rw (terminated setup.pid pid sigkill found spawned) (ap (λ l. signalled sigkill found ∷ l) e),
      kills found,
    )
    | inr gone ↦ rw gone (newer, e, ground (arith, gone, h))
  ]
    where
      kills : (found : Bool) → (r.settled || any is_kill (signalled sigkill found ∷ newer)) ≡ true
      kills true = ground arith
      kills false = ground arith

timed_out-Doomed :
    (setup : Setup) (pid : ℕ) (found : Bool) (r : Run)
    → setup.pid ≡ some (suc pid)
    → r.timeout_timer ≡ true
    → Doomed (signalled sigterm found) r.sent r.made (step setup (timeout_fires found) r)
unfolding step hard_kill_soon any
timed_out-Doomed setup pid found r spawned live = rw live (
    doomed [] (rw (terminated setup.pid pid sigterm found spawned) refl)
      (ground (arith, nat_eq_iff r.made r.made)))

-- A command that outlives its timeout is killed. From any state in which the timeout is
-- still to fire, let it fire, then let any events come, output, an abort and its own kill
-- timer among them, and then let the timeout's kill timer fire. A spawned command has then been sent
-- SIGTERM and, unless it has ended, SIGKILL after it; each goes to the process group or, where that
-- is not found, to the child.
pub timeout-kills :
    (setup : Setup) (between : List Event) (found found_later : Bool) (pid : ℕ) (r : Run)
    → setup.pid ≡ some (suc pid)
    → r.timeout_timer ≡ true
    → (newer : List Sent) × ((step setup
          (kill_fires r.made found_later)
          (steps setup between (step setup (timeout_fires found) r))).sent
        ≡ newer ++ (signalled sigterm found ∷ r.sent))
      × (((step setup
              (kill_fires r.made found_later)
              (steps setup between (step setup (timeout_fires found) r))).settled
            || any is_kill newer)
          ≡ true)
timeout-kills setup between found found_later pid r spawned live =
    kill-Doomed setup pid spawned (signalled sigterm found) r.sent r.made found_later _ (
      steps-Doomed setup pid spawned (signalled sigterm found) r.sent r.made between _
        (timed_out-Doomed setup pid found r spawned live))
