-- ===== src/Workflows/Rearming.antt =====
-- Giving up a wait, and rearming a failed one (src/workflows.ts, `cancelProcessWait`, `setEnabled`).
use chatgpt_web_agent.Base.{
  String, Bool, true, false, ◌&&◌, Option, none, some, Result, ok, ◌>>=◌, is_some, if◌then◌else◌,
}
use chatgpt_web_agent.Base.Table.{put}
use chatgpt_web_agent.State.{Env, Db, Workflow, WorkflowState, ProcessWait, WaitState}
use chatgpt_web_agent.Workflows.Tasks.{task_of, save, deref}
use chatgpt_web_agent.Workflows.Sync.{synchronize}

abbrev pub cancelled_task : Workflow → Workflow
cancelled_task task = record task {
  state = WorkflowState.uncertain;
  summary = some "Process notification cancelled; verify the job before releasing its workspace.";
}

abbrev pub cancelled_wait : ProcessWait → ProcessWait
cancelled_wait wait = record wait { state = WaitState.cancelled }

unfoldable pub cancel_found : Env → Workflow → Option ProcessWait → Db → Bool × Db
cancel_found env task none db = (false, db)
cancel_found env task (some wait) db = (
  true,
  save env (cancelled_task task)
      (record db { process_waits = put wait.id (cancelled_wait wait) db.process_waits }),
)

-- Whether a notification was cancelled; the process itself is not stopped.
unfoldable pub cancel_process_wait : Env → String → Db → Result (Bool × Db)
cancel_process_wait env task_key db = do
  task ← task_of task_key db
  ok (cancel_found env task (deref task.waiting_for db.process_waits) db)

abbrev pub is_delivery_failed : WaitState → Bool
is_delivery_failed WaitState.delivery_failed = true
is_delivery_failed _ = false

-- Enabling a task whose notification was rejected makes its saved receipt due again.
abbrev pub rearmed_wait : Env → ProcessWait → ProcessWait
rearmed_wait env wait = record wait {
  state = WaitState.terminal;
  next_check_at = env.now;
  last_error = none;
}

unfoldable pub rearm : Env → Bool → Option ProcessWait → Db → Db
rearm env enabled none db = db
rearm env enabled (some wait) db =
    if enabled && is_delivery_failed wait.state && is_some wait.observation
    then record db { process_waits = put wait.id (rearmed_wait env wait) db.process_waits }
    else db

abbrev pub enable_task : Env → Bool → Workflow → Db → Workflow × Db
enable_task env enabled task db =
    let task' = record task { enabled = enabled } in
    (task', save env task' (rearm env enabled (deref task.waiting_for db.process_waits) db))

unfoldable pub set_enabled : Env → String → Bool → Db → Result (Workflow × Db)
set_enabled env key enabled db = do
  let db' = synchronize env db
  task ← task_of key db'
  ok (enable_task env enabled task db')
