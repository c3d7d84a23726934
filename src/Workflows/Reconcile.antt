-- ===== src/Workflows/Reconcile.antt =====
-- Releasing a task after the chat was seen idle (src/workflows.ts, `reconcile`).
use chatgpt_web_agent.Base.{
  String, ◌<>◌, is_blank, Bool, true, false, not, ◌&&◌, ◌||◌, Option, none, some, List, [], ◌∷◌,
  Result, ok, raise_if, ◌>>=◌, ◌>>◌, ◌==◌, truthy, if◌then◌else◌,
}
use chatgpt_web_agent.Base.Table.{put, all}
use chatgpt_web_agent.State.{
  Env, Db, Workflow, WorkflowRun, WorkflowState, RunState, ProcessWait, WaitState, OutboxDelivery,
  DeliveryState,
}
use chatgpt_web_agent.Workflows.Tasks.{task_of, save, deref}
use chatgpt_web_agent.Workflows.Sync.{is_dispatched}

pub record ReconcileInput : Type 0 where
  pub task : String
  pub observed_idle : Bool
  pub evidence : String

-- `pending` or `sending`
abbrev pub is_unsettled : DeliveryState → Bool
is_unsettled DeliveryState.pending = true
is_unsettled DeliveryState.sending = true
is_unsettled _ = false

unfoldable pub cancel_delivery : String → OutboxDelivery → Db → Db
cancel_delivery event_id d db =
    if d.event_id == event_id && is_unsettled d.state
    then record db {
      outbox =
          put d.key
            (record d { state = DeliveryState.cancelled; error = some "workflow_reconciled" })
            db.outbox;
    }
    else db

-- The loop over the outbox: the run's deliveries that have not ended are cancelled.
unfoldable pub cancel_deliveries : String → List OutboxDelivery → Db → Db
cancel_deliveries event_id [] db = db
cancel_deliveries event_id (d ∷ ds) db =
    cancel_deliveries event_id ds (cancel_delivery event_id d db)

abbrev pub reconciled_run : String → WorkflowRun → WorkflowRun
reconciled_run evidence run = record run {
  state = RunState.cancelled;
  outcome = some ("reconciled_idle: " <> evidence);
  lease_token = none;
}

unfoldable pub cancel_run : String → Option WorkflowRun → Db → Db
cancel_run evidence none db = db
cancel_run evidence (some run) db =
    let db' = record db { runs = put run.id (reconciled_run evidence run) db.runs } in
    cancel_deliveries run.event_id (all db'.outbox) db'

unfoldable pub cancel_wait : Option ProcessWait → Db → Db
cancel_wait none db = db
cancel_wait (some wait) db = if is_dispatched wait.state then db else record db {
  process_waits = put wait.id (record wait { state = WaitState.cancelled }) db.process_waits;
}

abbrev pub released : Workflow → Workflow
released task = record task {
  waiting_for = if truthy task.waiting_for then none else task.waiting_for;
  state = WorkflowState.idle;
  current_run = none;
}

unfoldable pub reconcile : Env → ReconcileInput → Db → Result (Workflow × Db)
reconcile env i db = do
  raise_if (not i.observed_idle || is_blank i.evidence) "idle_observation_required"
  task ← task_of i.task db
  let db1 = cancel_run i.evidence (deref task.current_run db.runs) db
  let db2 = cancel_wait (deref task.waiting_for db1.process_waits) db1
  ok (released task, save env (released task) db2)
