-- ===== src/Workflows/Resuming.antt =====
-- Resuming a task after its process (src/workflows.ts, `resumeProcessWait`).
use chatgpt_web_agent.Base.{
  ℕ, ◌+◌, String, ◌<>◌, Bool, true, false, not, ◌||◌, Option, none, some, Result, ok, ◌>>=◌, ltb,
  truthy, opt_eq, if◌then◌else◌,
}
use chatgpt_web_agent.Base.Table.{get, put}
use chatgpt_web_agent.Json.{Json, undefined, str, num, bool, obj, field, end, stringify}
use chatgpt_web_agent.State.{
  Env, Db, Workflow, WorkflowState, ProcessWait, ProcessObservation, ProcessStatus, WaitState,
  DispatchResult,
}
use chatgpt_web_agent.Workflows.Tasks.{task_of, save}
use chatgpt_web_agent.Workflows.Dispatch.{Fresh, refusal_result, is_waiting_state}
use chatgpt_web_agent.Workflows.Callers.{ExternalInput, external}
use chatgpt_web_agent.Workflows.Waits.{is_terminal}

abbrev is_failed : ProcessStatus → Bool
is_failed ProcessStatus.failed = true
is_failed ProcessStatus.completed = false

abbrev nonzero : Option ℕ → Bool
nonzero none = false
nonzero (some n) = ltb 0 n

-- The event's reason: how the process ended.
unfoldable pub end_reason : ProcessObservation → String
end_reason o =
    if o.timed_out || o.no_output_timed_out
    then "process.timed_out"
    else if truthy o.exit_signal
    then "process.signalled"
    else if is_failed o.status || nonzero o.exit_code
    then "process.failed"
    else "process.completed"

abbrev status_name : ProcessStatus → String
status_name ProcessStatus.completed = "completed"
status_name ProcessStatus.failed = "failed"

abbrev optional_str : Option String → Json
optional_str none = undefined
optional_str (some s) = str s

abbrev optional_num : Option ℕ → Json
optional_num none = undefined
optional_num (some n) = num n

-- `JSON.stringify({session_id, ...observation})`
unfoldable pub observation_summary : String → ProcessObservation → String
observation_summary session_id o = stringify (
    obj (
      field "session_id" (str session_id) (
        field "status" (str (status_name o.status)) (
          field "exitCode" (optional_num o.exit_code) (
            field "exitSignal" (optional_str o.exit_signal) (
              field "exitReason" (optional_str o.exit_reason) (
                field "timedOut" (bool o.timed_out)
                  (field "noOutputTimedOut" (bool o.no_output_timed_out) end))))))))

abbrev pub resume_input : ProcessWait → Workflow → ProcessObservation → ExternalInput
resume_input wait task o = record {
  target = task.key;
  producer = "process:" <> wait.session_id;
  dedup_key = wait.id;
  reason = end_reason o;
  summary = some (observation_summary wait.session_id o);
  state_ref = some ("process:" <> wait.session_id);
}

abbrev pub dispatched_wait : DispatchResult → ProcessWait → ProcessWait
dispatched_wait r wait = record wait {
  state = WaitState.dispatched;
  dispatch_id = r.dispatch_id;
  event_id = r.event_id;
  last_error = none;
}

-- After the request for a continuation: the wait is dispatched, or the task waits on and the
-- request is tried again later.
unfoldable pub after_request :
    Env → String → ProcessWait → Workflow → DispatchResult × Db → DispatchResult × Db
after_request env id wait task (r, db) =
    if r.accepted
    then (r, record db { process_waits = put id (dispatched_wait r wait) db.process_waits })
    else (let db' =
          save env (record task { waiting_for = some id; state = WorkflowState.waiting }) db in
        (
          r,
          record db' {
            process_waits =
                put id (record wait { last_error = some r.reason; next_check_at = env.now + 5000 })
                  db'.process_waits;
          },
        ))

abbrev pub freed : Workflow → Workflow
freed task = record task { waiting_for = none; state = WorkflowState.idle }

unfoldable pub resume_task :
    Env
    → Fresh
    → String
    → ProcessWait
    → ProcessObservation
    → Workflow
    → Db
    → Result (DispatchResult × Db)
resume_task env fresh id wait o task db =
    if not (opt_eq task.waiting_for (some id)) || not (is_waiting_state task.state)
    then ok (refusal_result "wait_not_current", db)
    else do
      answered ← external env fresh (resume_input wait (freed task) o) (save env (freed task) db)
      ok (after_request env id wait (freed task) answered)

abbrev pub resume_observed :
    Env
    → Fresh
    → String
    → ProcessWait
    → Option ProcessObservation
    → Db
    → Result (DispatchResult × Db)
resume_observed env fresh id wait none db = ok (refusal_result "process_not_terminal", db)
resume_observed env fresh id wait (some o) db = do
  task ← task_of wait.task db
  resume_task env fresh id wait o task db

abbrev pub resume_found :
    Env → Fresh → String → Option ProcessWait → Db → Result (DispatchResult × Db)
resume_found env fresh id none db = ok (refusal_result "process_not_terminal", db)
resume_found env fresh id (some wait) db =
    if is_terminal wait.state
    then resume_observed env fresh id wait wait.observation db
    else ok (refusal_result "process_not_terminal", db)

unfoldable pub resume_process_wait : Env → Fresh → String → Db → Result (DispatchResult × Db)
resume_process_wait env fresh id db = resume_found env fresh id (get id db.process_waits) db
