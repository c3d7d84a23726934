-- ===== src/Workflows/Fence/Tasks.antt =====
-- The fence under `register`, `bind`, `claim`, `heartbeat`, `finish` and `reconcile`: none of them
-- gives a task a workspace.
use chatgpt_web_agent.Base.{
  ℕ, String, false, not, ◌&&◌, ◌||◌, Option, none, some, List, [], ◌∷◌, ◌≡◌, refl, ◌∙◌, arith,
  truthy, opt_eq, is_blank, Result, err, raise_if, Ensures, returns, throws, Ensures-bind,
  Ensures-if, Ensures-map,
}
use chatgpt_web_agent.Base.Table.{get}
use chatgpt_web_agent.State.{Env, Db, Workflow, WorkflowRun, ProcessWait, OutboxDelivery}
use chatgpt_web_agent.Workflows.Tasks.{
  occupied, save, RegisterInput, register, register_over, new_task, same_identity, bind_chosen,
  Chosen, only, refused, bind,
}
use chatgpt_web_agent.Workflows.Dispatch.{actor}
use chatgpt_web_agent.Workflows.Lease.{
  ClaimInput, lease_duration, claim, claim_found, claim_queued, heartbeat, FinishInput,
  with_checkpoint, finished_task, finish,
}
use chatgpt_web_agent.Workflows.Reconcile.{
  ReconcileInput, cancel_delivery, cancel_deliveries, cancel_run, cancel_wait, released, reconcile,
}
use chatgpt_web_agent.Workflows.Fence.{
  IsFenced, Shrinks-put_free, IsKeyed-put, IsFenced-Shrinks, Saved, untouched, wrote,
  Saved-IsFenced, Saved-save, Ensures-task,
}

-- The fence holds after the operation.
abbrev pub Fenced {ℓ} : {A : Type ℓ} → A × Db → Type 0
Fenced r = IsFenced r.1.workflows

-- The operation saves one task, which holds no workspace that it did not hold.
abbrev pub Saves {ℓ} : {A : Type ℓ} → Workflow → Db → A × Db → Type 0
Saves task db r = Saved task db.workflows r.1

pub Saves-Fenced {ℓ} :
    {A : Type ℓ} (task : Workflow) (db : Db) (r : Result (A × Db))
    → IsFenced db.workflows
    → get task.key db.workflows ≡ some task
    → Ensures (Saves task db) r
    → Ensures Fenced r
Saves-Fenced task db r h found =
    Ensures-map (λ (a, db'). Saved-IsFenced db.workflows db' task h found)

pub IsFenced-save_free :
    (env : Env) (t : Workflow) (db : Db)
    → occupied t ≡ false
    → IsFenced db.workflows
    → IsFenced (save env t db).workflows
unfolding save
IsFenced-save_free env t db free h =
    IsFenced-Shrinks db.workflows _ h
      (IsKeyed-put (record t { updated_at = env.now }) db.workflows h.is_keyed)
      (Shrinks-put_free (record t { updated_at = env.now }) db.workflows free)

register_over-IsFenced :
    (env : Env) (i : RegisterInput) (existing : Option Workflow) (db : Db)
    → IsFenced db.workflows
    → Ensures Fenced (register_over env i existing db)
unfolding register_over
register_over-IsFenced env i none db h = returns (IsFenced-save_free env (new_task env i) db refl h)
register_over-IsFenced env i (some old) db h =
    Ensures-if (same_identity env i old) _ (err "workflow_identity_conflict") (λ _. returns h)
      λ _. throws

pub register-IsFenced :
    (env : Env) (i : RegisterInput) (db : Db)
    → IsFenced db.workflows
    → Ensures Fenced (register env i db)
unfolding register
register-IsFenced env i db h = register_over-IsFenced env i _ db h

bind_chosen-Saves :
    (env : Env) (chat_ref : Option String) (task : Workflow) (chosen : Chosen) (db : Db)
    → Ensures (Saves task db) (bind_chosen env chat_ref task chosen db)
unfolding bind_chosen
bind_chosen-Saves env chat_ref task (refused reason) db = throws
bind_chosen-Saves env chat_ref task (only sub) db =
    Ensures-if
      (truthy task.current_run
        && truthy task.subscription_id
        && not (opt_eq task.subscription_id (some sub.id)))
      (err "cannot_rebind_active_workflow") _ (λ _. throws)
      λ _. returns (Saved-save env task _ db refl refl (λ o. o))

pub bind-IsFenced :
    (env : Env) (key : String) (subscription_id chat_ref : Option String) (db : Db)
    → IsFenced db.workflows
    → Ensures Fenced (bind env key subscription_id chat_ref db)
unfolding bind
bind-IsFenced env key subscription_id chat_ref db h =
    Ensures-task key db _ h.is_keyed
      λ task found. Saves-Fenced task db _ h found (bind_chosen-Saves env chat_ref task _ db)

claim_queued-Saves :
    (env : Env) (token : String) (i : ClaimInput) (task : Workflow) (run : WorkflowRun) (db : Db)
    → Ensures (Saves task db) (claim_queued env token i task run db)
unfolding save
claim_queued-Saves env token i task run db =
    Ensures-bind (lease_duration i.lease_ms) _ λ ms _. returns (wrote _ refl refl (λ o. o) refl)

claim_found-Saves :
    (env : Env) (token : String) (i : ClaimInput) (task : Workflow) (found : Option WorkflowRun)
    (db : Db)
    → Ensures (Saves task db) (claim_found env token i task found db)
claim_found-Saves env token i task none db = returns (untouched refl)
claim_found-Saves env token i task (some run) db =
    search (Ensures-if, returns, untouched, claim_queued-Saves)

pub claim-IsFenced :
    (env : Env) (token : String) (i : ClaimInput) (db : Db)
    → IsFenced db.workflows
    → Ensures Fenced (claim env token i db)
unfolding claim
claim-IsFenced env token i db h = Ensures-task i.task db _ h.is_keyed λ task found.
    Saves-Fenced task db _ h found (search (Ensures-if, returns, untouched, claim_found-Saves))

pub heartbeat-IsFenced :
    (env : Env) (task lease_token : String) (lease_ms : Option ℕ) (db : Db)
    → IsFenced db.workflows
    → Ensures Fenced (heartbeat env task lease_token lease_ms db)
unfolding heartbeat
heartbeat-IsFenced env task lease_token lease_ms db h =
    Ensures-bind (actor env task lease_token db) _
      λ run _. Ensures-bind (lease_duration lease_ms) _ λ ms _. returns h

pub with_checkpoint-same :
    (checkpoint : Option String) (task : Workflow)
    → ((with_checkpoint checkpoint task).key ≡ task.key)
      × ((with_checkpoint checkpoint task).workspace ≡ task.workspace)
      × ((with_checkpoint checkpoint task).waiting_for ≡ task.waiting_for)
unfolding with_checkpoint
with_checkpoint-same checkpoint task = ground arith

finished_task-Saved :
    (env : Env) (i : FinishInput) (task : Workflow) (db : Db)
    → Saved task db.workflows (save env (finished_task i task) db)
finished_task-Saved env i task db =
    let (key, space, wait) = with_checkpoint-same i.checkpoint task in
    Saved-save env task (finished_task i task) db key space λ o. ground arith

pub finish-IsFenced :
    (env : Env) (i : FinishInput) (db : Db)
    → IsFenced db.workflows
    → Ensures Fenced (finish env i db)
unfolding finish
finish-IsFenced env i db h = Ensures-bind (actor env i.task i.lease_token db) _ λ run _.
    Ensures-task i.task db _ h.is_keyed
      λ task found. Saves-Fenced task db _ h found (returns (finished_task-Saved env i task _))

cancel_delivery-workflows :
    (event_id : String) (d : OutboxDelivery) (db : Db)
    → (cancel_delivery event_id d db).workflows ≡ db.workflows
unfolding cancel_delivery
cancel_delivery-workflows event_id d db = ground arith

cancel_deliveries-workflows :
    (event_id : String) (ds : List OutboxDelivery) (db : Db)
    → (cancel_deliveries event_id ds db).workflows ≡ db.workflows
unfolding cancel_deliveries
cancel_deliveries-workflows event_id [] db = refl
cancel_deliveries-workflows event_id (d ∷ ds) db =
    cancel_deliveries-workflows event_id ds (cancel_delivery event_id d db)
    ∙ cancel_delivery-workflows event_id d db

cancel_run-workflows :
    (evidence : String) (run : Option WorkflowRun) (db : Db)
    → (cancel_run evidence run db).workflows ≡ db.workflows
unfolding cancel_run
cancel_run-workflows evidence none db = refl
cancel_run-workflows evidence (some run) db = cancel_deliveries-workflows run.event_id _ _

cancel_wait-workflows :
    (wait : Option ProcessWait) (db : Db) → (cancel_wait wait db).workflows ≡ db.workflows
unfolding cancel_wait
cancel_wait-workflows none db = refl
cancel_wait-workflows (some wait) db = ground arith

pub reconcile-IsFenced :
    (env : Env) (i : ReconcileInput) (db : Db)
    → IsFenced db.workflows
    → Ensures Fenced (reconcile env i db)
unfolding reconcile
reconcile-IsFenced env i db h =
    Ensures-bind (raise_if (not i.observed_idle || is_blank i.evidence) "idle_observation_required")
      _
      λ _ _. Ensures-task i.task db _ h.is_keyed λ task found. returns (
        IsFenced-save_free env (released task) _ (ground arith)
          (rw (cancel_wait-workflows, cancel_run-workflows) h))
