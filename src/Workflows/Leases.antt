-- ===== src/Workflows/Leases.antt =====
-- Leases (`claim`, `heartbeat`, `finish` of src/workflows.ts): a run is claimed once, and what ends
-- it spends its lease.
use chatgpt_web_agent.Base.{
  ℕ, String, Bool, true, false, not, ◌||◌, Option, none, some, ◌≡◌, refl, ◌∙◌, arith, opt_eq, ok,
  err, Ensures, returns, Ensures-bind, Ensures-inv, Ensures-if, ◌==◌,
}
use chatgpt_web_agent.Base.Table.{Table, get}
use chatgpt_web_agent.Base.Table.Laws.{get-put_self, get-put_at}
use chatgpt_web_agent.State.{Env, Db, Workflow, WorkflowRun, WorkflowState, RunState}
use chatgpt_web_agent.Workflows.Fence.{IsKeyed}
use chatgpt_web_agent.Workflows.Fence.Tasks.{with_checkpoint-same}
use chatgpt_web_agent.Workflows.Tasks.{task_of, deref, save}
use chatgpt_web_agent.Workflows.Sync.{is_queued}
use chatgpt_web_agent.Workflows.Dispatch.{actor}
use chatgpt_web_agent.Workflows.Lease.{
  ClaimInput, ClaimResult, refused, claimed, lease_duration, claimed_run, FinishInput, finish,
  finished_task, finished_run, claim_found, claim,
}

-- The run of a dispatch id is there and is no longer queued.
abbrev pub IsStarted : String → Db → Type 0
IsStarted id db = (run : WorkflowRun) × (get id db.runs ≡ some run) × (is_queued run.state ≡ false)

abbrev pub is_claimed : ClaimResult → Bool
is_claimed (claimed _ _ _ _) = true
is_claimed (refused _) = false

claim_found-IsStarted :
    (env : Env) (token : String) (i : ClaimInput) (task : Workflow) (found : Option WorkflowRun)
    (db : Db)
    → ((run : WorkflowRun) → found ≡ some run → run.id ≡ i.dispatch_id)
    → Ensures
        (λ r. is_claimed r.0 ≡ true → IsStarted i.dispatch_id r.1)
        (claim_found env token i task found db)
claim_found-IsStarted env token i task none db h = returns (λ e. ground arith)
claim_found-IsStarted env token i task (some run) db h =
    Ensures-if (not (run.task == task.key) || not (opt_eq task.current_run (some run.id))) _ _
      (λ _. returns (λ e. ground arith))
      λ _.
        Ensures-if (is_queued run.state) _ _
          (λ _. Ensures-bind (lease_duration i.lease_ms) _ λ ms _. returns (λ _.
            (claimed_run env token i.runner ms run, rw (h run refl) (get-put_self _ _ _), refl)))
          λ _. returns (λ e. ground arith)

claim-IsStarted :
    (env : Env) (token : String) (i : ClaimInput) (db : Db)
    → ((run : WorkflowRun) → get i.dispatch_id db.runs ≡ some run → run.id ≡ i.dispatch_id)
    → Ensures (λ r. is_claimed r.0 ≡ true → IsStarted i.dispatch_id r.1) (claim env token i db)
unfolding claim
claim-IsStarted env token i db h = Ensures-bind (task_of i.task db) _ λ task _.
    Ensures-if (not task.enabled) _ _ (λ _. returns (λ e. ground arith))
      λ _. claim_found-IsStarted env token i task _ db h

started-claim_found :
    (env : Env) (token : String) (i : ClaimInput) (task : Workflow) (run : WorkflowRun) (db : Db)
    → is_queued run.state ≡ false
    → Ensures (λ r. is_claimed r.0 ≡ false) (claim_found env token i task (some run) db)
started-claim_found env token i task run db h =
    Ensures-if (not (run.task == task.key) || not (opt_eq task.current_run (some run.id))) _ _
      (λ _. returns refl) λ _. rw h (returns refl)

IsStarted-claim :
    (env : Env) (token : String) (i : ClaimInput) (db : Db)
    → IsStarted i.dispatch_id db
    → Ensures (λ r. is_claimed r.0 ≡ false) (claim env token i db)
unfolding claim
IsStarted-claim env token i db (run, found, h) = Ensures-bind (task_of i.task db) _ λ task _.
    Ensures-if (not task.enabled) _ _ (λ _. returns refl)
      λ _. rw found (started-claim_found env token i task run db h)

-- Where the run of a dispatch id is stored under its own id: once a claim of the id succeeded, each
-- claim of the same id in the store that the first one leaves throws or is refused, whoever
-- makes it, at whatever time and for whatever task.
pub claim-once :
    (env env' : Env) (token token' : String) (i i' : ClaimInput) (db : Db) (r r' : ClaimResult)
    (db1 db2 : Db)
    → ((run : WorkflowRun) → get i.dispatch_id db.runs ≡ some run → run.id ≡ i.dispatch_id)
    → claim env token i db ≡ ok (r, db1)
    → is_claimed r ≡ true
    → i'.dispatch_id ≡ i.dispatch_id
    → claim env' token' i' db1 ≡ ok (r', db2)
    → is_claimed r' ≡ false
claim-once env env' token token' i i' db r r' db1 db2 h e won same e' =
    Ensures-inv
      (IsStarted-claim env' token' i' db1
        (rw same (Ensures-inv (claim-IsStarted env token i db h) e won)))
      e'

deref-none : {V : Type 0} (t : Table V) → deref none t ≡ none
unfolding deref
deref-none t = refl

-- After `finish` the task has no run, so that its lease token speaks for nothing.
no_run-actor :
    (env : Env) (key token : String) (task : Workflow) (db : Db)
    → get key db.workflows ≡ some task
    → task.current_run ≡ none
    → actor env key token db ≡ err "invalid_run_lease"
unfolding actor task_of
no_run-actor env key token task db e h = rw e (rw h (rw (deref-none db.runs) refl))

task_of-get :
    (key : String) (db : Db) (task : Workflow)
    → task_of key db ≡ ok task
    → get key db.workflows ≡ some task
unfolding task_of
task_of-get key db task e = ground arith

-- What `finish` leaves: the task has no run, its run has ended, and no event was written.
abbrev Ended : String → Db → Db → Type 0
Ended key db db' =
    ((task : Workflow) × (get key db'.workflows ≡ some task) × (task.current_run ≡ none))
    × (db'.outbox ≡ db.outbox)
    × ((run : WorkflowRun) × (get run.id db'.runs ≡ some run) × (run.state ≡ RunState.finished))

finish-Ended :
    (env : Env) (i : FinishInput) (db : Db)
    → IsKeyed db.workflows
    → Ensures (λ r. Ended i.task db r.1) (finish env i db)
unfolding finish save
finish-Ended env i db h = Ensures-bind (actor env i.task i.lease_token db) _ λ run _.
    Ensures-bind (task_of i.task db) _ λ task e.
      let key = (with_checkpoint-same i.checkpoint task).0 in
      let own = h.keyed i.task task (task_of-get i.task db task e) in
      returns (
        (
          record (finished_task i task) { updated_at = env.now },
          get-put_at _ i.task _ db.workflows (key ∙ own),
          refl,
        ),
        refl,
        (finished_run env i.outcome run, get-put_self run.id _ db.runs, refl),
      )

-- Where each task is stored under its own key: in the store that a `finish` of a task leaves,
-- `actor` rejects every lease token for this task, at whatever time; and the outbox is as before,
-- whatever the outcome.
pub finish-spends_lease :
    (env env' : Env) (i : FinishInput) (token : String) (db : Db) (s : WorkflowState × ℕ) (db' : Db)
    → IsKeyed db.workflows
    → finish env i db ≡ ok (s, db')
    → (actor env' i.task token db' ≡ err "invalid_run_lease") × (db'.outbox ≡ db.outbox)
finish-spends_lease env env' i token db s db' h e =
    let ((task, found, free), same, _) = Ensures-inv (finish-Ended env i db h) e in
    (no_run-actor env' i.task token task db' found free, same)
