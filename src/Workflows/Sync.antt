-- ===== src/Workflows/Sync.antt =====
-- `synchronizeDeliveryOutcomes` of src/workflows.ts: a queued run whose deliveries all ended is
-- released if they were rejected, and fenced if one is ambiguous.
use chatgpt_web_agent.Base.{
  ℕ, String, ◌<>◌, join_commas, Bool, true, false, ◌&&◌, ◌||◌, Option, none, some, List, [], ◌∷◌,
  map, ◌==◌, truthy, opt_eq, ltb, get_or_else, if◌then◌else◌,
}
use chatgpt_web_agent.Base.Table.{put, remove, all, any, find_first}
use chatgpt_web_agent.Json.{decimal}
use chatgpt_web_agent.State.{
  Env, Db, Workflow, WorkflowRun, ProcessWait, WorkflowState, RunState, WaitState, OutboxDelivery,
  DeliveryState, idle, waiting, uncertain,
}
use chatgpt_web_agent.Events.{outbox_summary}
use chatgpt_web_agent.Workflows.Tasks.{save, deref}

abbrev pub is_queued_task : WorkflowState → Bool
is_queued_task WorkflowState.queued = true
is_queued_task _ = false

abbrev pub is_queued : RunState → Bool
is_queued RunState.queued = true
is_queued _ = false

abbrev pub is_dispatched : WaitState → Bool
is_dispatched WaitState.dispatched = true
is_dispatched _ = false

-- `accepted`, `sending` or `pending`: the delivery may still start a run, or did.
abbrev pub may_start : DeliveryState → Bool
may_start DeliveryState.accepted = true
may_start DeliveryState.sending = true
may_start DeliveryState.pending = true
may_start _ = false

abbrev pub is_ambiguous : OutboxDelivery → Bool
is_ambiguous d = ltb 0 (get_or_else d.ambiguous_attempts 0)

abbrev pub is_empty : List OutboxDelivery → Bool
is_empty [] = true
is_empty (_ ∷ _) = false

abbrev pub state_name : DeliveryState → String
state_name DeliveryState.pending = "pending"
state_name DeliveryState.sending = "sending"
state_name DeliveryState.accepted = "accepted"
state_name DeliveryState.failed = "failed"
state_name DeliveryState.cancelled = "cancelled"

-- `r.status ?? r.state`
unfoldable pub status_or_state : OutboxDelivery → String
status_or_state d = elim d.status [ some n ↦ decimal n | none ↦ state_name d.state ]

-- The key of the row in `visits` for a root, a task and its revision.
unfoldable pub visit_key : Env → String → String → ℕ → String
visit_key env root_id task revision = env.hash (root_id <> "\n" <> task <> "\n" <> decimal revision)

-- `if (run.requestKey) db.remove('requests', run.requestKey)`
abbrev forget_request : Option String → Db → Db
forget_request none db = db
forget_request (some k) db = if k == "" then db else record db { requests = remove k db.requests }

abbrev pub rejected_run : Env → WorkflowRun → WorkflowRun
rejected_run env run = record run {
  state = RunState.cancelled;
  outcome = some "delivery_rejected";
  finished_at = some env.now;
}

abbrev pub failed_wait : List OutboxDelivery → ProcessWait → ProcessWait
failed_wait rows wait = record wait {
  state = WaitState.delivery_failed;
  last_error = some ("delivery_rejected:" <> join_commas (map status_or_state rows));
}

abbrev pub waiting_again : ProcessWait → Workflow → Workflow
waiting_again wait task = record task {
  state = waiting;
  waiting_for = some wait.id;
  summary =
      some
        "Process ended, but its notification was rejected. Repair callback and resume to retry the saved receipt.";
}

-- The wait whose notification was the rejected delivery goes back to its task.
unfoldable pub return_wait : Env → Workflow → List OutboxDelivery → Option ProcessWait → Db → Db
return_wait env task rows none db = save env task db
return_wait env task rows (some wait) db =
    save env (waiting_again wait task)
      (record db { process_waits = put wait.id (failed_wait rows wait) db.process_waits })

abbrev pub freed_task : Workflow → Workflow
freed_task task = record task {
  current_run = none;
  state = idle;
  summary = some "Delivery rejected; no run claimed.";
}

abbrev pub withdraw_run : Env → Workflow → WorkflowRun → Db → Db
withdraw_run env task run db = forget_request run.request_key (record db {
  runs = put run.id (rejected_run env run) db.runs;
  visits = remove (visit_key env run.root_id task.key run.requested_revision) db.visits;
})

-- Every delivery was rejected for certain: the run is cancelled and its request forgotten.
unfoldable pub release_run : Env → Workflow → WorkflowRun → List OutboxDelivery → Db → Db
release_run env task run rows db =
    return_wait env (freed_task task) rows
      (find_first (λ w. opt_eq w.dispatch_id (some run.id) && is_dispatched w.state)
        (all db.process_waits))
      (withdraw_run env task run db)

unfoldable pub settle_run : Env → Workflow → WorkflowRun → List OutboxDelivery → Db → Db
settle_run env task run rows db =
    if is_empty rows || any (λ d. may_start d.state) rows
    then db
    else if any is_ambiguous rows
    then save env
        (record task {
          state = uncertain;
          summary = some "Delivery outcome uncertain; check actual Chat state before retry.";
        })
        db
    else release_run env task run rows db

unfoldable pub sync_found : Env → Workflow → Option WorkflowRun → Db → Db
sync_found env task none db = db
sync_found env task (some run) db =
    if is_queued run.state then settle_run env task run (outbox_summary run.event_id db) db else db

-- One round of the loop over the tasks.
unfoldable pub sync_task : Env → Workflow → Db → Db
sync_task env task db =
    if truthy task.current_run && is_queued_task task.state
    then sync_found env task (deref task.current_run db.runs) db
    else db

unfoldable pub sync_each : Env → List Workflow → Db → Db
sync_each env [] db = db
sync_each env (task ∷ tasks) db = sync_each env tasks (sync_task env task db)

-- `synchronizeDeliveryOutcomes`: the loop runs over the tasks as they were at its start.
unfoldable pub synchronize : Env → Db → Db
synchronize env db = sync_each env (all db.workflows) db
