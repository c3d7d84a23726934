-- ===== src/ProcessWaits/Checks.antt =====
-- What the watcher of src/process-waits.ts may conclude, and when it looks again.
use chatgpt_web_agent.Base.{
  ℕ, zero, suc, Bool, leb, ◌==◌, Bool-cases, inl, inr, ◌+◌, ◌^◌, ◌≤◌, min, String, true, false, not,
  Option, none, some, List, [], ◌∷◌, ◌≡◌, refl, subst, arith, if-cases, ok, Ensures, returns,
  Ensures-then, Ensures-if, Ensures-inv,
}
use chatgpt_web_agent.Json.{Json, undefined, null, bool, num, str, arr, obj, Fields, lookup_field}
use chatgpt_web_agent.State.{Env, Db, ProcessObservation, ProcessStatus, ProcessWait}
use chatgpt_web_agent.Workflows.Dispatch.{Fresh}
use chatgpt_web_agent.Workflows.Waits.{is_watching, is_terminal}
use chatgpt_web_agent.Workflows.Resuming.{resume_process_wait}
use chatgpt_web_agent.Workflows.Fence.{IsFenced}
use chatgpt_web_agent.Workflows.Fence.Waits.{
  record_process_observation-IsFenced, resume_process_wait-IsFenced,
}
use chatgpt_web_agent.ProcessWaits.{
  Inspection, running, terminal, unknown, ToolResult, is_text, ended_status, is_complete,
  observation_of, exit_code_of, nonempty_text, is_yes, inspect_ended, inspect_fields,
  inspect_process_result, check_delay, rechecked, recheck_found, recheck, note_inspection, Driver,
  resume_if_terminal, after_read, tick_one, tick_each, tick, due_waits,
}

-- An exit code of an observation stands in the receipt, as a safe integer.
abbrev pub IsCode : Json → Option ℕ → Type 0
IsCode j none = Unit
IsCode j (some n) = (j ≡ num n) × (n ≤ 9_007_199_254_740_991)

-- A signal or a reason of an observation stands in the receipt, as a text that is not empty.
abbrev pub IsWord : Json → Option String → Type 0
IsWord j none = Unit
IsWord j (some s) = (j ≡ str s) × (s == "" ≡ false)

-- A mark of an observation is the one of the receipt, or `false` where that is no Boolean.
abbrev pub IsMark : Json → Bool → Type 0
IsMark j true = j ≡ bool true
IsMark j false = Unit

-- Everything that an observation tells stands in the receipt.
pub record IsShown (d : Fields) (o : ProcessObservation) : Type 0 where
  pub code : IsCode (lookup_field "exitCode" d) o.exit_code
  pub signal : IsWord (lookup_field "exitSignal" d) o.exit_signal
  pub reason : IsWord (lookup_field "exitReason" d) o.exit_reason
  pub time_out : IsMark (lookup_field "timedOut" d) o.timed_out
  pub no_output : IsMark (lookup_field "noOutputTimedOut" d) o.no_output_timed_out

exit_code_of-IsCode : (j : Json) → IsCode j (exit_code_of j)
exit_code_of-IsCode (num n) = elim (Bool-cases (leb n 9_007_199_254_740_991)) [
  | inl safe ↦ rw safe (refl, ground (arith, safe))
  | inr unsafe ↦ rw unsafe tt
]
exit_code_of-IsCode undefined = tt
exit_code_of-IsCode null = tt
exit_code_of-IsCode (bool _) = tt
exit_code_of-IsCode (str _) = tt
exit_code_of-IsCode (arr _) = tt
exit_code_of-IsCode (obj _) = tt

nonempty_text-IsWord : (j : Json) → IsWord j (nonempty_text j)
nonempty_text-IsWord (str s) = elim (Bool-cases (s == "")) [
  | inl empty ↦ rw empty tt
  | inr full ↦ rw full (refl, full)
]
nonempty_text-IsWord undefined = tt
nonempty_text-IsWord null = tt
nonempty_text-IsWord (bool _) = tt
nonempty_text-IsWord (num _) = tt
nonempty_text-IsWord (arr _) = tt
nonempty_text-IsWord (obj _) = tt

is_yes-IsMark : (j : Json) → IsMark j (is_yes j)
is_yes-IsMark (bool true) = refl
is_yes-IsMark (bool false) = tt
is_yes-IsMark undefined = tt
is_yes-IsMark null = tt
is_yes-IsMark (num _) = tt
is_yes-IsMark (str _) = tt
is_yes-IsMark (arr _) = tt
is_yes-IsMark (obj _) = tt

observation-IsShown : (status : ProcessStatus) (d : Fields) → IsShown d (observation_of status d)
observation-IsShown status d = record {
  code = exit_code_of-IsCode (lookup_field "exitCode" d);
  signal = nonempty_text-IsWord (lookup_field "exitSignal" d);
  reason = nonempty_text-IsWord (lookup_field "exitReason" d);
  time_out = is_yes-IsMark (lookup_field "timedOut" d);
  no_output = is_yes-IsMark (lookup_field "noOutputTimedOut" d);
}

-- What a receipt must show before an end is concluded from it.
pub record IsReceipt (result : ToolResult) (session_id : String) (o : ProcessObservation)
    : Type 0 where
  pub fields : Fields
  pub given : result.structured ≡ some fields
  pub read : result.is_error ≡ false
  pub identity : is_text (lookup_field "sessionId" fields) session_id ≡ true
  pub status : ended_status (lookup_field "status" fields) ≡ some o.status
  pub complete : is_complete o ≡ true
  pub shown : IsShown fields o

terminal-injective : {a b : ProcessObservation} → terminal a ≡ terminal b → a ≡ b
terminal-injective e = cc

inspect_ended-terminal :
    (status : Option ProcessStatus) (d : Fields) (o : ProcessObservation)
    → inspect_ended status d ≡ terminal o
    → (status ≡ some o.status) × (is_complete o ≡ true) × IsShown d o
unfolding inspect_ended
inspect_ended-terminal none d o = λ e. absurd (cc e)
inspect_ended-terminal (some status) d o =
    if-cases
      (λ r. r ≡ terminal o → (some status ≡ some o.status) × (is_complete o ≡ true) × IsShown d o)
      (is_complete (observation_of status d)) _ _
      (λ h e.
        subst (λ x. (some status ≡ some x.status) × (is_complete x ≡ true) × IsShown d x)
          (terminal-injective e) (refl, h, observation-IsShown status d))
      λ _ e. absurd (cc e)

inspect_fields-terminal :
    (session_id : String) (structured : Option Fields) (o : ProcessObservation)
    → inspect_fields session_id structured ≡ terminal o
    → (d : Fields) × (structured ≡ some d)
      × (is_text (lookup_field "sessionId" d) session_id ≡ true)
      × (ended_status (lookup_field "status" d) ≡ some o.status)
      × (is_complete o ≡ true)
      × IsShown d o
unfolding inspect_fields
inspect_fields-terminal session_id none o = λ e. absurd (cc e)
inspect_fields-terminal session_id (some d) o = λ e.
    let (status, complete, shown) =
      inspect_ended-terminal (ended_status (lookup_field "status" d)) d o (ground arith) in
    (d, refl, ground arith, status, complete, shown)

-- The watcher concludes that a process ended only from a read that is no error, whose structured
-- content names the session that was asked for, whose status is `completed` or `failed` as in the
-- observation, and which shows an exit code, a signal, a reason or a time-out; every one of these
-- that the observation has stands in the read: the code as that safe integer, the signal and the
-- reason as those texts, which are not empty, a time-out as `true`.
pub terminal-IsReceipt :
    (result : ToolResult) (session_id : String) (o : ProcessObservation)
    → inspect_process_result result session_id ≡ terminal o
    → IsReceipt result session_id o
unfolding inspect_process_result
terminal-IsReceipt result session_id o e =
    let (d, given, identity, status, complete, shown) =
      inspect_fields-terminal session_id result.structured o (ground arith) in
    record {
      fields = d;
      given = given;
      read = ground arith;
      identity = identity;
      status = status;
      complete = complete;
      shown = shown;
    }

pow_pos : (n : ℕ) → 1 ≤ 2 ^ n
pow_pos zero = omega arith
pow_pos (suc n) = let h = pow_pos n in omega arith

-- After a read of a running process or one that told nothing, the next read is due at least 2 s
-- and at most 60 s later.
pub rechecked-bounds :
    (env : Env) (problem : Option String) (w : ProcessWait)
    → (env.now + 2000 ≤ (rechecked env problem w).next_check_at)
      × ((rechecked env problem w).next_check_at ≤ env.now + 60_000)
unfolding check_delay
rechecked-bounds env none w = (omega arith, omega arith)
rechecked-bounds env (some reason) w =
    let at_least = pow_pos (min (w.failures + 1) 5) in (ground arith, ground arith)

recheck_found-workflows :
    (env : Env) (id : String) (problem : Option String) (found : Option ProcessWait) (db : Db)
    → (recheck_found env id problem found db).workflows ≡ db.workflows
unfolding recheck_found
recheck_found-workflows env id problem none db = refl
recheck_found-workflows env id problem (some w) db = ground arith

note_inspection-IsFenced :
    (env : Env) (id : String) (i : Inspection) (db : Db)
    → IsFenced db.workflows
    → IsFenced (note_inspection env id i db).workflows
unfolding note_inspection recheck
note_inspection-IsFenced env id (terminal o) db h =
    record_process_observation-IsFenced env id o db h
note_inspection-IsFenced env id running db h = rw recheck_found-workflows h
note_inspection-IsFenced env id (unknown reason) db h = rw recheck_found-workflows h

module _ (driver : Driver)
    (others : (w : ProcessWait) (db : Db)
      → IsFenced db.workflows
      → IsFenced (driver.meanwhile w db).workflows) where
  after_read-IsFenced :
      (w : ProcessWait) (db : Db)
      → IsFenced db.workflows
      → IsFenced (after_read driver w db).workflows
  unfolding after_read
  after_read-IsFenced w db h =
      if-cases {A = Db} (λ d. IsFenced d.workflows) (is_watching w.state) _ _
        (λ _.
          note_inspection-IsFenced (driver.later w) w.id (driver.inspection w) _ (others w db h))
        λ _. h

  resume_if_terminal-IsFenced :
      (env : Env) (fresh : Fresh) (id : String) (found : Option ProcessWait) (db : Db)
      → IsFenced db.workflows
      → Ensures (λ d. IsFenced d.workflows) (resume_if_terminal env fresh id found db)
  unfolding resume_if_terminal
  resume_if_terminal-IsFenced env fresh id none db h = returns h
  resume_if_terminal-IsFenced env fresh id (some w) db h =
      Ensures-if (not (is_terminal w.state)) _ _ (λ _. returns h)
        λ _.
          Ensures-then (resume_process_wait env fresh id db) _
            (resume_process_wait-IsFenced env fresh id db h) λ r h'. returns h'

  tick_each-IsFenced :
      (ws : List ProcessWait) (db : Db)
      → IsFenced db.workflows
      → Ensures (λ d. IsFenced d.workflows) (tick_each driver ws db)
  unfolding tick_each tick_one
  tick_each-IsFenced [] db h = returns h
  tick_each-IsFenced (w ∷ ws) db h =
      Ensures-then (tick_one driver w db) _
        (resume_if_terminal-IsFenced _ _ w.id _ (after_read driver w db)
          (after_read-IsFenced w db h))
        λ db' h'. tick_each-IsFenced ws db' h'

  -- Where what other calls do during the reads keeps the workspace fence, a tick of the driver
  -- that returns keeps it, whatever the processes' receipts are.
  pub tick-IsFenced :
      (env : Env) (db db' : Db)
      → IsFenced db.workflows
      → tick env driver db ≡ ok db'
      → IsFenced db'.workflows
  unfolding tick
  tick-IsFenced env db db' h e = Ensures-inv (tick_each-IsFenced (due_waits env db) db h) e
