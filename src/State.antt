-- ===== src/State.antt =====
-- The records that the service keeps in its object store (the types of src/workflows.ts and
-- src/events.ts), one table for each bucket. Times are milliseconds since the epoch; a date that
-- the source keeps as ISO text is kept as its time.
-- A body of `db.atomic` is a function from the tables to a `Result` of its value and the new
-- tables: where it throws, the transaction that encloses it is rolled back (StateDb.antt).
use chatgpt_web_agent.Base.{ℕ, Bool, String, Option, List, []}
use chatgpt_web_agent.Base.Table.{Table}
use chatgpt_web_agent.Json.{Json}

pub data Role : Type 0 where
  supervisor worker : Role

pub data WorkflowState : Type 0 where
  idle queued running waiting completed needs_input uncertain : WorkflowState

-- `permissionProfile` has one value and is left out.
pub record Workflow : Type 0 where
  pub key : String
  pub topic : String
  pub role : Role
  pub workspace : Option String
  pub subscription_id : Option String
  pub chat_ref : Option String
  pub enabled : Bool
  pub state : WorkflowState
  pub waiting_for : Option String
  pub revision : ℕ
  pub checkpoint : Option String
  pub summary : Option String
  pub current_run : Option String
  pub updated_at : ℕ

pub data RunState : Type 0 where
  queued running finished cancelled : RunState

pub record WorkflowRun : Type 0 where
  pub id : String
  pub event_id : String
  pub task : String
  pub root_id : String
  pub source_task : Option String
  pub request_key : Option String
  pub state : RunState
  pub requested_at : ℕ
  pub started_at : Option ℕ
  pub last_heartbeat : Option ℕ
  pub lease_until : Option ℕ
  pub lease_token : Option String
  pub runner : Option String
  pub requested_revision : ℕ
  pub finished_at : Option ℕ
  pub outcome : Option String

pub record DispatchResult : Type 0 where
  pub accepted : Bool
  pub reason : String
  pub dispatch_id : Option String
  pub event_id : Option String
  pub root_id : Option String
  pub warnings : List String

pub data ProcessStatus : Type 0 where
  completed failed : ProcessStatus

pub record ProcessObservation : Type 0 where
  pub status : ProcessStatus
  pub exit_code : Option ℕ
  pub exit_signal : Option String
  pub exit_reason : Option String
  pub timed_out : Bool
  pub no_output_timed_out : Bool

pub data WaitState : Type 0 where
  watching terminal dispatched delivery_failed cancelled : WaitState

pub record ProcessWait : Type 0 where
  pub id : String
  pub task : String
  pub session_id : String
  pub state : WaitState
  pub created_at : ℕ
  pub next_check_at : ℕ
  pub failures : ℕ
  pub last_error : Option String
  pub last_observed_at : Option ℕ
  pub observation : Option ProcessObservation
  pub dispatch_id : Option String
  pub event_id : Option String
  pub source_run_id : Option String

-- `arguments` holds the topic and nothing else (`topicArgs`), `delivery` the webhook's address
-- and secret.
pub record EventSubscription : Type 0 where
  pub id : String
  pub owner : String
  pub name : String
  pub topic : String
  pub url : String
  pub secret : String
  pub created_at : ℕ
  pub updated_at : ℕ
  pub refresh_before : Option ℕ
  pub verified_at : Option ℕ
  pub previous_secret : Option String
  pub previous_secret_until : Option ℕ
  pub disabled : Bool

pub data DeliveryState : Type 0 where
  pending sending accepted failed cancelled : DeliveryState

-- The body is kept as the value whose JSON text the source keeps.
pub record OutboxDelivery : Type 0 where
  pub key : String
  pub event_id : String
  pub subscription_id : String
  pub body : Json
  pub state : DeliveryState
  pub attempts : ℕ
  pub next_attempt_at : ℕ
  pub claim_until : Option ℕ
  pub claim_id : Option String
  pub ambiguous_attempts : Option ℕ
  pub status : Option ℕ
  pub error : Option String

-- The buckets `workflows`, `runs`, `process_waits`, `requests`, `visits`, `subscriptions`,
-- `outbox` and `subscription-cancel-epochs`. A row of `visits` holds the id of its run.
pub record Db : Type 0 where
  pub workflows : Table Workflow
  pub runs : Table WorkflowRun
  pub process_waits : Table ProcessWait
  pub requests : Table DispatchResult
  pub visits : Table String
  pub subscriptions : Table EventSubscription
  pub outbox : Table OutboxDelivery
  pub cancel_epochs : Table ℕ

abbrev pub empty : Db
empty = record {
  workflows = [];
  runs = [];
  process_waits = [];
  requests = [];
  visits = [];
  subscriptions = [];
  outbox = [];
  cancel_epochs = [];
}

-- What the code takes from its platform: the SHA-256 digest in hexadecimal, `Date.toISOString`
-- of a time, `path.resolve`, and the clock. All readings of the clock in one call of an operation
-- are one instant, `now`.
pub record Env : Type 0 where
  pub hash : String → String
  pub iso : ℕ → String
  pub resolve : String → String
  pub now : ℕ
