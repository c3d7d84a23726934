-- ===== src/Tests/Data.antt =====
-- The test data.
use chatgpt_web_agent.Base.{ℕ, true, false, none, some, [], ◌∷◌, Result, ok, err}
use chatgpt_web_agent.State.{
  Env, Db, empty, Workflow, WorkflowState, WorkflowRun, RunState, Role, EventSubscription,
  OutboxDelivery, DeliveryState,
}
use chatgpt_web_agent.Json.{obj, end}

abbrev pub env_at : ℕ → Env
env_at t = record { hash = λ s. s; iso = λ n. "t"; resolve = λ s. s; now = t }

abbrev pub env : Env
env = env_at 1000

abbrev pub task : Workflow
task = record {
  key = "a";
  topic = "t";
  role = Role.worker;
  workspace = some "/w";
  subscription_id = none;
  chat_ref = none;
  enabled = true;
  state = WorkflowState.idle;
  waiting_for = none;
  revision = 0;
  checkpoint = none;
  summary = none;
  current_run = none;
  updated_at = 1000;
}

abbrev pub queued_task : Workflow
queued_task = record task { state = WorkflowState.queued; current_run = some "r" }

abbrev pub run : WorkflowRun
run = record {
  id = "r";
  event_id = "e";
  task = "a";
  root_id = "root";
  source_task = none;
  request_key = none;
  state = RunState.queued;
  requested_at = 1;
  started_at = none;
  last_heartbeat = none;
  lease_until = none;
  lease_token = none;
  runner = none;
  requested_revision = 0;
  finished_at = none;
  outcome = none;
}

abbrev pub subscription : EventSubscription
subscription = record {
  id = "s";
  owner = "local-tunnel-user";
  name = "workflow.continue";
  topic = "t";
  url = "https://h";
  secret = "whsec_";
  created_at = 1;
  updated_at = 1;
  refresh_before = none;
  verified_at = none;
  previous_secret = none;
  previous_secret_until = none;
  disabled = false;
}

abbrev pub delivery : OutboxDelivery
delivery = record {
  key = "e:s";
  event_id = "e";
  subscription_id = "s";
  body = obj end;
  state = DeliveryState.pending;
  attempts = 0;
  next_attempt_at = 10;
  claim_until = none;
  claim_id = none;
  ambiguous_attempts = none;
  status = none;
  error = none;
}

-- A task with a queued run, whose event is in the outbox.
abbrev pub queued_db : Db
queued_db = record empty {
  workflows = ("a", queued_task) ∷ [];
  runs = ("r", run) ∷ [];
  subscriptions = ("s", subscription) ∷ [];
  outbox = ("e:s", delivery) ∷ [];
}

-- An idle task with a subscription.
abbrev pub idle_db : Db
idle_db = record empty { workflows = ("a", task) ∷ []; subscriptions = ("s", subscription) ∷ [] }

-- The store after an operation.
abbrev pub db_after : {A : Type 0} → Result (A × Db) → Db
db_after (ok (a, db)) = db
db_after (err e) = empty
