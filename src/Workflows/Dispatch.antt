-- ===== src/Workflows/Dispatch.antt =====
-- Admitting a continuation (src/workflows.ts, `actor`, `enqueue`).
use chatgpt_web_agent.Base.{
  String, ◌<>◌, Bool, true, false, not, ◌&&◌, ◌||◌, Option, none, some, [], ◌∷◌, Result, ok, err,
  raise_if, ◌>>=◌, ◌>>◌, ◌==◌, nat_eq, ltb, truthy, is_some, get_or_else, if◌then◌else◌,
}
use chatgpt_web_agent.Base.Table.{get, put, select}
use chatgpt_web_agent.State.{
  Env, Db, Workflow, WorkflowRun, WorkflowState, RunState, DispatchResult, EventSubscription,
}
use chatgpt_web_agent.Events.{
  ContinueEventData, active_subscriptions, unless_wanted, enqueue_continue,
}
use chatgpt_web_agent.Workflows.Tasks.{
  owner, task_of, save, deref, workspace_busy, Chosen, only, refused, choose,
}
use chatgpt_web_agent.Workflows.Sync.{visit_key, synchronize}

abbrev pub is_running : RunState → Bool
is_running RunState.running = true
is_running _ = false

-- `!run.leaseToken || !equal(run.leaseToken, leaseToken)` fails
abbrev pub token_is : Option String → String → Bool
token_is none t = false
token_is (some s) t = not (s == "") && s == t

abbrev check_lease : Env → String → WorkflowRun → Result WorkflowRun
check_lease env lease_token run =
    if not (is_running run.state) || not (token_is run.lease_token lease_token)
    then err "invalid_run_lease"
    else if ltb (get_or_else run.lease_until 0) env.now
    then err "stale_run_lease_requires_reconciliation"
    else ok run

abbrev pub actor_of : Env → String → Option WorkflowRun → Result WorkflowRun
actor_of env lease_token none = err "invalid_run_lease"
actor_of env lease_token (some run) = check_lease env lease_token run

-- The run that a lease token speaks for.
unfoldable pub actor : Env → String → String → Db → Result WorkflowRun
actor env source_task lease_token db = do
  task ← task_of source_task db
  actor_of env lease_token (deref task.current_run db.runs)

pub record EnqueueInput : Type 0 where
  pub target : String
  pub dedup_key : String
  pub reason : String
  pub actor : String
  pub root_id : String
  pub source_task : Option String
  pub summary : Option String
  pub state_ref : Option String

-- The random ids of one call.
pub record Fresh : Type 0 where
  pub run : String
  pub event : String

abbrev pub refusal_result : String → DispatchResult
refusal_result reason = record {
  accepted = false;
  reason = reason;
  dispatch_id = none;
  event_id = none;
  root_id = none;
  warnings = [];
}

-- `completed`, `needs_input` or `uncertain`: the task takes no continuation.
abbrev pub stopped : WorkflowState → Option String
stopped WorkflowState.completed = some "completed"
stopped WorkflowState.needs_input = some "needs_input"
stopped WorkflowState.uncertain = some "uncertain"
stopped _ = none

abbrev pub is_busy_state : WorkflowState → Bool
is_busy_state WorkflowState.queued = true
is_busy_state WorkflowState.running = true
is_busy_state _ = false

abbrev pub is_waiting_state : WorkflowState → Bool
is_waiting_state WorkflowState.waiting = true
is_waiting_state _ = false

-- Why a task takes no continuation now; `none` where it does.
unfoldable pub refusal : Workflow → Db → Option String
refusal task db = if not task.enabled then some "paused" else elim (stopped task.state) [
  | some reason ↦ some reason
  | none ↦
      if truthy task.current_run || is_busy_state task.state
      then some "busy"
      else if truthy task.waiting_for || is_waiting_state task.state
      then some "waiting_process"
      else if workspace_busy task db
      then some "workspace_busy"
      else none
]

unfoldable pub request_key : Env → EnqueueInput → String
request_key env i = env.hash (i.actor <> "\n" <> i.target <> "\n" <> i.dedup_key)

abbrev pub run_id : Fresh → String
run_id fresh = "run_" <> fresh.run

abbrev pub event_id_of : Fresh → String
event_id_of fresh = "evt_" <> fresh.event

abbrev event_data : EnqueueInput → String → Workflow → ContinueEventData
event_data i id task = record {
  topic = task.topic;
  trigger_reason = i.reason;
  summary = i.summary;
  state_ref = i.state_ref;
  source = some (if truthy i.source_task then "workflow" else "external");
  sequence = none;
  dispatch_id = some id;
  root_id = some i.root_id;
  source_task = i.source_task;
  target_task = some task.key;
  progress_version = some task.revision;
}

abbrev pub new_run : Env → Fresh → EnqueueInput → String → Workflow → WorkflowRun
new_run env fresh i key task = record {
  id = run_id fresh;
  event_id = event_id_of fresh;
  task = task.key;
  root_id = i.root_id;
  source_task = i.source_task;
  request_key = some key;
  state = RunState.queued;
  requested_at = env.now;
  started_at = none;
  last_heartbeat = none;
  lease_until = none;
  lease_token = none;
  runner = none;
  requested_revision = task.revision;
  finished_at = none;
  outcome = none;
}

abbrev pub launch_result : Fresh → String → Bool → DispatchResult
launch_result fresh root_id revisit = record {
  accepted = true;
  reason = "queued";
  dispatch_id = some (run_id fresh);
  event_id = some (event_id_of fresh);
  root_id = some root_id;
  warnings = if revisit then "same_root_checkpoint_unchanged_advisory" ∷ [] else [];
}

-- The event, the task's new run, and the rows that make a repeated request find it.
unfoldable pub launch :
    Env
    → Fresh
    → EnqueueInput
    → String
    → Workflow
    → EventSubscription
    → Db
    → Result (DispatchResult × Db)
launch env fresh i key task sub db = do
  let visit = visit_key env i.root_id task.key task.revision
  let revisit = is_some (get visit db.visits)
  (event, db1) ←
      enqueue_continue env fresh.event (event_data i (run_id fresh) task)
        (record {
          event_id = some (event_id_of fresh);
          subscription_id = some sub.id;
          owner = some owner;
        })
        db
  raise_if (not (nat_eq event.1 1)) "subscription_changed"
  let db2 =
      save env
        (record task {
          subscription_id = some sub.id;
          current_run = some (run_id fresh);
          state = WorkflowState.queued;
        })
        db1
  let result = launch_result fresh i.root_id revisit
  ok (
    result,
    record db2 {
      runs = put (run_id fresh) (new_run env fresh i key task) db2.runs;
      visits = put visit (run_id fresh) db2.visits;
      requests = put key result db2.requests;
    },
  )

unfoldable pub launch_on :
    Env → Fresh → EnqueueInput → String → Workflow → Chosen → Db → Result (DispatchResult × Db)
launch_on env fresh i key task (refused reason) db = ok (refusal_result reason, db)
launch_on env fresh i key task (only sub) db = launch env fresh i key task sub db

-- The active subscriptions of the task's topic, or the bound one of them.
unfoldable pub chosen_for : Env → Workflow → Db → Chosen
chosen_for env task db = choose (
    select (λ s. unless_wanted task.subscription_id s.id)
      (active_subscriptions env task.topic owner db))

unfoldable pub admit :
    Env
    → Fresh
    → EnqueueInput
    → String
    → Workflow
    → Option String
    → Db
    → Result (DispatchResult × Db)
admit env fresh i key task (some reason) db = ok (refusal_result reason, db)
admit env fresh i key task none db = launch_on env fresh i key task (chosen_for env task db) db

-- A request that was accepted before is answered from its row.
unfoldable pub answer :
    Env → Fresh → EnqueueInput → String → Option DispatchResult → Db → Result (DispatchResult × Db)
answer env fresh i key (some prior) db = ok (record prior { reason = "duplicate_request" }, db)
answer env fresh i key none db = do
  task ← task_of i.target db
  admit env fresh i key task (refusal task db) db

-- `enqueue`, after its synchronisation
unfoldable pub request : Env → Fresh → EnqueueInput → Db → Result (DispatchResult × Db)
request env fresh i db =
    answer env fresh i (request_key env i) (get (request_key env i) db.requests) db

unfoldable pub enqueue : Env → Fresh → EnqueueInput → Db → Result (DispatchResult × Db)
enqueue env fresh i db = request env fresh i (synchronize env db)
