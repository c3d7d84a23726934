-- ===== src/Workflows/Steps.antt =====
-- What happens to the store: each transaction that returns is one step, and one that throws leaves
-- the store as it was (StateDb.antt). The environment of each step is its own: the clock, the
-- random ids and the callers' inputs are arbitrary.
use chatgpt_web_agent.Base.{ℕ, String, Bool, Option, ok, ◌≡◌}
use chatgpt_web_agent.State.{
  Env, Db, EventSubscription, Workflow, WorkflowState, empty, DispatchResult, ProcessObservation,
}
use chatgpt_web_agent.Events.{ContinueEventData, EnqueueOptions, enqueue_continue}
use chatgpt_web_agent.Events.Subscribe.{commit_subscription, drop_subscription}
use chatgpt_web_agent.Events.Delivery.{CallbackResponse, claim_delivery, settle_delivery}
use chatgpt_web_agent.Workflows.Tasks.{RegisterInput, register, bind}
use chatgpt_web_agent.Workflows.Sync.{synchronize}
use chatgpt_web_agent.Workflows.Dispatch.{Fresh}
use chatgpt_web_agent.Workflows.Callers.{DispatchInput, dispatch, ExternalInput, external}
use chatgpt_web_agent.Workflows.Lease.{
  ClaimInput, ClaimResult, claim, heartbeat, FinishInput, finish,
}
use chatgpt_web_agent.Workflows.Waits.{
  WaitInput, WaitResult, wait_process, record_process_observation,
}
use chatgpt_web_agent.Workflows.Resuming.{resume_process_wait}
use chatgpt_web_agent.Workflows.Rearming.{cancel_process_wait, set_enabled}
use chatgpt_web_agent.Workflows.Reconcile.{ReconcileInput, reconcile}

pub data Step (db : Db) : Db → Type 0 where
  registered :
      (env : Env) (i : RegisterInput) {t : Workflow} {db' : Db}
      → register env i db ≡ ok (t, db')
      → Step db db'
  bound :
      (env : Env) (key : String) (subscription_id chat_ref : Option String) {t : Workflow}
      {db' : Db}
      → bind env key subscription_id chat_ref db ≡ ok (t, db')
      → Step db db'
  enabled :
      (env : Env) (key : String) (on : Bool) {t : Workflow} {db' : Db}
      → set_enabled env key on db ≡ ok (t, db')
      → Step db db'
  dispatched :
      (env : Env) (fresh : Fresh) (i : DispatchInput) {r : DispatchResult} {db' : Db}
      → dispatch env fresh i db ≡ ok (r, db')
      → Step db db'
  requested :
      (env : Env) (fresh : Fresh) (i : ExternalInput) {r : DispatchResult} {db' : Db}
      → external env fresh i db ≡ ok (r, db')
      → Step db db'
  claimed :
      (env : Env) (token : String) (i : ClaimInput) {r : ClaimResult} {db' : Db}
      → claim env token i db ≡ ok (r, db')
      → Step db db'
  beaten :
      (env : Env) (task token : String) (lease_ms : Option ℕ) {until : ℕ} {db' : Db}
      → heartbeat env task token lease_ms db ≡ ok (until, db')
      → Step db db'
  finished :
      (env : Env) (i : FinishInput) {s : WorkflowState × ℕ} {db' : Db}
      → finish env i db ≡ ok (s, db')
      → Step db db'
  waited :
      (env : Env) (i : WaitInput) {r : WaitResult} {db' : Db}
      → wait_process env i db ≡ ok (r, db')
      → Step db db'
  observed :
      (env : Env) (id : String) (o : ProcessObservation)
      → Step db (record_process_observation env id o db)
  resumed :
      (env : Env) (fresh : Fresh) (id : String) {r : DispatchResult} {db' : Db}
      → resume_process_wait env fresh id db ≡ ok (r, db')
      → Step db db'
  wait_cancelled :
      (env : Env) (key : String) {b : Bool} {db' : Db}
      → cancel_process_wait env key db ≡ ok (b, db')
      → Step db db'
  reconciled :
      (env : Env) (i : ReconcileInput) {t : Workflow} {db' : Db}
      → reconcile env i db ≡ ok (t, db')
      → Step db db'
  synchronized : (env : Env) → Step db (synchronize env db)
  published :
      (env : Env) (uuid : String) (d : ContinueEventData) (o : EnqueueOptions) {r : String × ℕ}
      {db' : Db}
      → enqueue_continue env uuid d o db ≡ ok (r, db')
      → Step db db'
  subscribed :
      (epoch : ℕ) (sub : EventSubscription) {db' : Db}
      → commit_subscription epoch sub db ≡ ok db'
      → Step db db'
  unsubscribed : (id : String) → Step db (drop_subscription id db)
  delivery_claimed : (env : Env) (uuid key : String) → Step db (claim_delivery env uuid key db).1
  delivery_settled :
      (env : Env) (key : String) (claim_id : Option String) (r : Option CallbackResponse)
      → Step db (settle_delivery env key claim_id r db)

-- The stores that the service can have, from an empty one on.
pub data Reachable : Db → Type 0 where
  start : Reachable empty
  next : {db db' : Db} → Reachable db → Step db db' → Reachable db'
