-- ===== src/Workflows/Waits.antt =====
-- Waiting for a process (src/workflows.ts, `waitProcess`, `recordProcessObservation`).
use chatgpt_web_agent.Base.{
  String, ◌<>◌, js_length, is_blank, slice_to, Bool, true, false, ◌||◌, Option, none, some, Result,
  ok, err, raise_if, ◌>>=◌, ◌>>◌, ◌==◌, ltb, truthy, if◌then◌else◌,
}
use chatgpt_web_agent.Base.Table.{get, put}
use chatgpt_web_agent.State.{
  Env, Db, Workflow, WorkflowState, ProcessWait, ProcessObservation, WaitState,
}
use chatgpt_web_agent.Workflows.Tasks.{task_of, save, workspace_busy}
use chatgpt_web_agent.Workflows.Dispatch.{actor}
use chatgpt_web_agent.Workflows.Lease.{FinishInput, Outcome, finish}

pub record WaitInput : Type 0 where
  pub task : String
  pub session_id : String
  pub lease_token : Option String
  pub checkpoint : Option String
  pub summary : Option String

-- The new wait, or the one that the session already has.
pub record WaitResult : Type 0 where
  pub wait : ProcessWait
  pub duplicate : Bool

unfoldable pub wait_id : Env → String → String → String
wait_id env task session_id = "wait_" <> slice_to 32 (env.hash (task <> "\n" <> session_id))

abbrev pub new_wait : Env → WaitInput → String → Option String → ProcessWait
new_wait env i id source_run_id = record {
  id = id;
  task = i.task;
  session_id = i.session_id;
  state = WaitState.watching;
  created_at = env.now;
  next_check_at = env.now;
  failures = 0;
  last_error = none;
  last_observed_at = none;
  observation = none;
  dispatch_id = none;
  event_id = none;
  source_run_id = source_run_id;
}

abbrev pub is_idle : WorkflowState → Bool
is_idle WorkflowState.idle = true
is_idle _ = false

abbrev pub finish_input : WaitInput → String → FinishInput
finish_input i token = record {
  task = i.task;
  lease_token = token;
  outcome = Outcome.idle;
  checkpoint = i.checkpoint;
  summary = i.summary;
}

-- A running worker hands its lease over; its run ends. The result is the run's id.
unfoldable pub yield_run : Env → WaitInput → Option String → Db → Result (Option String × Db)
yield_run env i none db = err "run_lease_required"
yield_run env i (some token) db = if token == "" then err "run_lease_required" else do
  run ← actor env i.task token db
  (_, db') ← finish env (finish_input i token) db
  ok (some run.id, db')

unfoldable pub leave_task : Env → WaitInput → Workflow → Db → Result (Option String × Db)
leave_task env i task db =
    if truthy task.current_run
    then yield_run env i i.lease_token db
    else if truthy i.lease_token
    then err "invalid_run_lease"
    else if is_idle task.state
    then ok (none, db)
    else err "workflow_not_idle"

unfoldable pub start_wait : Env → WaitInput → String → Option String → Db → Result (WaitResult × Db)
start_wait env i id source_run_id db = do
  task ← task_of i.task db
  raise_if (workspace_busy task db) "workspace_busy"
  let wait = new_wait env i id source_run_id
  let db' = save env (record task { waiting_for = some id; state = WorkflowState.waiting }) db
  ok (
    record { wait = wait; duplicate = false },
    record db' { process_waits = put id wait db'.process_waits },
  )

-- A session that has a wait keeps it, whatever became of it.
unfoldable pub wait_unless :
    Env → WaitInput → String → Option ProcessWait → Db → Result (WaitResult × Db)
wait_unless env i id (some existing) db = ok (record { wait = existing; duplicate = true }, db)
wait_unless env i id none db = do
  task ← task_of i.task db
  raise_if (truthy task.waiting_for) "already_waiting_for_process"
  (source_run_id, db') ← leave_task env i task db
  start_wait env i id source_run_id db'

unfoldable pub wait_process : Env → WaitInput → Db → Result (WaitResult × Db)
wait_process env i db = do
  raise_if (is_blank i.session_id || ltb 200 (js_length i.session_id)) "invalid_process_session"
  let id = wait_id env i.task i.session_id
  wait_unless env i id (get id db.process_waits) db

abbrev pub is_watching : WaitState → Bool
is_watching WaitState.watching = true
is_watching _ = false

abbrev pub is_terminal : WaitState → Bool
is_terminal WaitState.terminal = true
is_terminal _ = false

abbrev pub observed : Env → ProcessObservation → ProcessWait → ProcessWait
observed env observation wait = record wait {
  observation = some observation;
  state = WaitState.terminal;
  last_observed_at = some env.now;
  next_check_at = env.now;
  last_error = none;
}

unfoldable pub observe_found : Env → String → ProcessObservation → Option ProcessWait → Db → Db
observe_found env id observation none db = db
observe_found env id observation (some wait) db =
    if is_watching wait.state
    then record db { process_waits = put id (observed env observation wait) db.process_waits }
    else db

unfoldable pub record_process_observation : Env → String → ProcessObservation → Db → Db
record_process_observation env id observation db =
    observe_found env id observation (get id db.process_waits) db
