-- ===== src/ProcessWaits.antt =====
-- src/process-waits.ts: reading a process's receipt, arming a wait for it, and the driver's tick.
pub mod Checks
use chatgpt_web_agent.Base.{
  ℕ, suc, ◌+◌, ◌*◌, ◌^◌, min, String, Bool, true, false, not, ◌&&◌, ◌||◌, Option, none, some, List,
  [], ◌∷◌, ◌==◌, ltb, leb, opt_eq, is_some, truthy, if◌then◌else◌, Result, ok, err, ◌>>=◌,
}
use chatgpt_web_agent.Base.Table.{get, put, all, select, take}
use chatgpt_web_agent.Json.{Json, bool, num, str, Fields, lookup_field}
use chatgpt_web_agent.State.{Env, Db, ProcessObservation, ProcessStatus, ProcessWait, WaitState}
use chatgpt_web_agent.Workflows.Dispatch.{Fresh}
use chatgpt_web_agent.Workflows.Waits.{
  WaitInput, WaitResult, wait_process, is_watching, is_terminal, record_process_observation,
}
use chatgpt_web_agent.Workflows.Resuming.{resume_process_wait}

pub data Inspection : Type 0 where
  running : Inspection
  terminal : ProcessObservation → Inspection
  unknown : String → Inspection

-- The parts of a `CallToolResult` that are read: the fields of `structuredContent`, if there are any.
pub record ToolResult : Type 0 where
  pub is_error : Bool
  pub structured : Option Fields

abbrev pub is_text : Json → String → Bool
is_text (str s) t = s == t
is_text _ t = false

abbrev pub is_yes : Json → Bool
is_yes (bool b) = b
is_yes _ = false

-- `Number.isSafeInteger`; a number of the model is a natural number.
abbrev pub exit_code_of : Json → Option ℕ
exit_code_of (num n) = if leb n 9_007_199_254_740_991 then some n else none
exit_code_of _ = none

abbrev pub nonempty_text : Json → Option String
nonempty_text (str s) = if s == "" then none else some s
nonempty_text _ = none

-- `status` of a receipt that has ended.
abbrev pub ended_status : Json → Option ProcessStatus
ended_status j =
    if is_text j "completed"
    then some ProcessStatus.completed
    else if is_text j "failed"
    then some ProcessStatus.failed
    else none

abbrev pub observation_of : ProcessStatus → Fields → ProcessObservation
observation_of status d = record {
  status = status;
  exit_code = exit_code_of (lookup_field "exitCode" d);
  exit_signal = nonempty_text (lookup_field "exitSignal" d);
  exit_reason = nonempty_text (lookup_field "exitReason" d);
  timed_out = is_yes (lookup_field "timedOut" d);
  no_output_timed_out = is_yes (lookup_field "noOutputTimedOut" d);
}

-- Something says how the process ended.
abbrev pub is_complete : ProcessObservation → Bool
is_complete o =
    is_some o.exit_code
    || is_some o.exit_signal
    || is_some o.exit_reason
    || o.timed_out
    || o.no_output_timed_out

unfoldable pub inspect_ended : Option ProcessStatus → Fields → Inspection
inspect_ended none d = unknown "process_status_unconfirmed"
inspect_ended (some status) d =
    if is_complete (observation_of status d)
    then terminal (observation_of status d)
    else unknown "terminal_receipt_incomplete"

unfoldable pub inspect_fields : String → Option Fields → Inspection
inspect_fields session_id none = unknown "process_identity_unconfirmed"
inspect_fields session_id (some d) =
    if not (is_text (lookup_field "sessionId" d) session_id)
    then unknown "process_identity_unconfirmed"
    else if is_text (lookup_field "status" d) "running"
    then running
    else inspect_ended (ended_status (lookup_field "status" d)) d

unfoldable pub inspect_process_result : ToolResult → String → Inspection
inspect_process_result result session_id =
    if result.is_error
    then unknown "process_read_error"
    else inspect_fields session_id result.structured

-- `inspect`: a read that throws tells nothing.
unfoldable pub inspect : Option ToolResult → String → Inspection
inspect none session_id = unknown "process_runtime_unavailable"
inspect (some result) session_id = inspect_process_result result session_id

-- After the process was read.
unfoldable pub register_wait : Env → WaitInput → Inspection → Db → Result (WaitResult × Db)
register_wait env i (unknown reason) db = err reason
register_wait env i running db = wait_process env i db
register_wait env i (terminal o) db = do
  (r, db') ← wait_process env i db
  ok (r, record_process_observation env r.wait.id o db')

unfoldable pub insert_check : ProcessWait → List ProcessWait → List ProcessWait
insert_check w [] = w ∷ []
insert_check w (v ∷ vs) =
    if leb w.next_check_at v.next_check_at then w ∷ v ∷ vs else v ∷ insert_check w vs

unfoldable pub sort_checks : List ProcessWait → List ProcessWait
sort_checks [] = []
sort_checks (w ∷ ws) = insert_check w (sort_checks ws)

-- The sixteen waits that are due first.
unfoldable pub due_waits : Env → Db → List ProcessWait
due_waits env db = take 16 (
    sort_checks (
      select (λ w. (is_watching w.state || is_terminal w.state) && leb w.next_check_at env.now)
        (all db.process_waits)))

-- A read that told nothing counts as a failure, and the next one waits longer.
unfoldable pub check_delay : Option String → ℕ → ℕ
check_delay none failures = 2000
check_delay (some reason) failures = min 60_000 (2000 * 2 ^ min failures 5)

abbrev pub rechecked : Env → Option String → ProcessWait → ProcessWait
rechecked env none w = record w {
  last_observed_at = some env.now;
  failures = 0;
  last_error = none;
  next_check_at = env.now + check_delay none 0;
}
rechecked env (some reason) w = record w {
  last_observed_at = some env.now;
  failures = w.failures + 1;
  last_error = some reason;
  next_check_at = env.now + check_delay (some reason) (w.failures + 1);
}

unfoldable pub recheck_found : Env → String → Option String → Option ProcessWait → Db → Db
recheck_found env id problem none db = db
recheck_found env id problem (some w) db =
    if is_watching w.state
    then record db { process_waits = put w.id (rechecked env problem w) db.process_waits }
    else db

unfoldable pub recheck : Env → String → Option String → Db → Db
recheck env id problem db = recheck_found env id problem (get id db.process_waits) db

unfoldable pub note_inspection : Env → String → Inspection → Db → Db
note_inspection env id (terminal o) db = record_process_observation env id o db
note_inspection env id running db = recheck env id none db
note_inspection env id (unknown reason) db = recheck env id (some reason) db

-- What is outside: the process's receipts, the clock after each read, the random ids, and what
-- other calls do to the store during a read.
pub record Driver : Type 0 where
  pub inspection : ProcessWait → Inspection
  pub later : ProcessWait → Env
  pub fresh : ProcessWait → Fresh
  pub meanwhile : ProcessWait → Db → Db

unfoldable pub resume_if_terminal : Env → Fresh → String → Option ProcessWait → Db → Result Db
resume_if_terminal env fresh id none db = ok db
resume_if_terminal env fresh id (some w) db =
    if not (is_terminal w.state)
    then ok db
    else do (_, db') ← resume_process_wait env fresh id db; ok db'

unfoldable pub after_read : Driver → ProcessWait → Db → Db
after_read driver w db =
    if is_watching w.state
    then note_inspection (driver.later w) w.id (driver.inspection w) (driver.meanwhile w db)
    else db

unfoldable pub tick_one : Driver → ProcessWait → Db → Result Db
tick_one driver w db =
    let db' = after_read driver w db in
    resume_if_terminal (driver.later w) (driver.fresh w) w.id (get w.id db'.process_waits) db'

unfoldable pub tick_each : Driver → List ProcessWait → Db → Result Db
tick_each driver [] db = ok db
tick_each driver (w ∷ ws) db = do db' ← tick_one driver w db; tick_each driver ws db'

unfoldable pub tick : Env → Driver → Db → Result Db
tick env driver db = tick_each driver (due_waits env db) db
