-- ===== src/Workflows/Fence/Steps.antt =====
-- The fence in every store that the service can have.
use chatgpt_web_agent.Base.{
  ℕ, String, true, Option, none, some, List, [], ◌∷◌, ◌≡◌, refl, ◌∙◌, arith, truthy, nat_eq, not,
  raise_if, Ensures, returns, Ensures-bind, Ensures-inv,
}
use chatgpt_web_agent.Base.Table.{get}
use chatgpt_web_agent.State.{Env, Db, Workflow, EventSubscription, OutboxDelivery, empty}
use chatgpt_web_agent.Events.Subscribe.{
  cancel_epoch, commit_subscription, cancel_one, cancel_open, drop_subscription,
}
use chatgpt_web_agent.Events.Delivery.{
  CallbackResponse, claim_for, claim_row, claim_delivery, settle_claimed, settle_row,
  settle_delivery,
}
use chatgpt_web_agent.Workflows.Tasks.{occupied}
use chatgpt_web_agent.Workflows.Sync.{synchronize}
use chatgpt_web_agent.Workflows.Steps.{
  Step, registered, bound, enabled, dispatched, requested, claimed, beaten, finished, waited,
  observed, resumed, wait_cancelled, reconciled, synchronized, published, subscribed, unsubscribed,
  delivery_claimed, delivery_settled, Reachable, start, next,
}
use chatgpt_web_agent.Workflows.Fence.{IsFenced, IsFenced-Shrinks}
use chatgpt_web_agent.Workflows.Fence.Sync.{synchronize-Shrinks}
use chatgpt_web_agent.Workflows.Fence.Enqueue.{enqueue_continue-OnlyOutbox}
use chatgpt_web_agent.Workflows.Fence.Tasks.{
  register-IsFenced, bind-IsFenced, claim-IsFenced, heartbeat-IsFenced, finish-IsFenced,
  reconcile-IsFenced,
}
use chatgpt_web_agent.Workflows.Fence.Waits.{
  wait_process-IsFenced, record_process_observation-IsFenced, resume_process_wait-IsFenced,
  cancel_process_wait-IsFenced, set_enabled-IsFenced, dispatch-IsFenced, external-IsFenced,
}

cancel_one-workflows :
    (id : String) (d : OutboxDelivery) (db : Db) → (cancel_one id d db).workflows ≡ db.workflows
unfolding cancel_one
cancel_one-workflows id d db = ground arith

cancel_open-workflows :
    (id : String) (ds : List OutboxDelivery) (db : Db)
    → (cancel_open id ds db).workflows ≡ db.workflows
unfolding cancel_open
cancel_open-workflows id [] db = refl
cancel_open-workflows id (d ∷ ds) db =
    cancel_open-workflows id ds (cancel_one id d db) ∙ cancel_one-workflows id d db

drop_subscription-workflows :
    (id : String) (db : Db) → (drop_subscription id db).workflows ≡ db.workflows
unfolding drop_subscription
drop_subscription-workflows id db = cancel_open-workflows id _ _

commit_subscription-workflows :
    (epoch : ℕ) (sub : EventSubscription) (db : Db)
    → Ensures (λ db'. db'.workflows ≡ db.workflows) (commit_subscription epoch sub db)
unfolding commit_subscription
commit_subscription-workflows epoch sub db =
    Ensures-bind
      (raise_if (not (nat_eq (cancel_epoch sub.id db) epoch))
        "subscription_cancelled_during_verification")
      _ λ _ _. returns refl

claim_for-workflows :
    (env : Env) (uuid : String) (d : OutboxDelivery) (sub : Option EventSubscription) (db : Db)
    → (claim_for env uuid d sub db).1.workflows ≡ db.workflows
unfolding claim_for
claim_for-workflows env uuid d none db = refl
claim_for-workflows env uuid d (some sub) db = ground arith

claim_row-workflows :
    (env : Env) (uuid : String) (row : Option OutboxDelivery) (db : Db)
    → (claim_row env uuid row db).1.workflows ≡ db.workflows
unfolding claim_row
claim_row-workflows env uuid none db = refl
claim_row-workflows env uuid (some d) db =
    ground (arith, claim_for-workflows env uuid d (get d.subscription_id db.subscriptions) db)

settle_claimed-workflows :
    (env : Env) (r : Option CallbackResponse) (d : OutboxDelivery) (db : Db)
    → (settle_claimed env r d db).workflows ≡ db.workflows
unfolding settle_claimed
settle_claimed-workflows env r d db = ground arith

settle_row-workflows :
    (env : Env) (claim_id : Option String) (r : Option CallbackResponse)
    (row : Option OutboxDelivery) (db : Db)
    → (settle_row env claim_id r row db).workflows ≡ db.workflows
unfolding settle_row
settle_row-workflows env claim_id r none db = refl
settle_row-workflows env claim_id r (some d) db =
    ground (arith, settle_claimed-workflows env r d db)

Step-IsFenced : (db db' : Db) → IsFenced db.workflows → Step db db' → IsFenced db'.workflows
unfolding claim_delivery settle_delivery
Step-IsFenced db db' h (registered env i e) = Ensures-inv (register-IsFenced env i db h) e
Step-IsFenced db db' h (bound env key sub chat e) =
    Ensures-inv (bind-IsFenced env key sub chat db h) e
Step-IsFenced db db' h (enabled env key on e) = Ensures-inv (set_enabled-IsFenced env key on db h) e
Step-IsFenced db db' h (dispatched env fresh i e) =
    Ensures-inv (dispatch-IsFenced env fresh i db h) e
Step-IsFenced db db' h (requested env fresh i e) =
    Ensures-inv (external-IsFenced env fresh i db h) e
Step-IsFenced db db' h (claimed env token i e) = Ensures-inv (claim-IsFenced env token i db h) e
Step-IsFenced db db' h (beaten env task token ms e) =
    Ensures-inv (heartbeat-IsFenced env task token ms db h) e
Step-IsFenced db db' h (finished env i e) = Ensures-inv (finish-IsFenced env i db h) e
Step-IsFenced db db' h (waited env i e) = Ensures-inv (wait_process-IsFenced env i db h) e
Step-IsFenced db _ h (observed env id o) = record_process_observation-IsFenced env id o db h
Step-IsFenced db db' h (resumed env fresh id e) =
    Ensures-inv (resume_process_wait-IsFenced env fresh id db h) e
Step-IsFenced db db' h (wait_cancelled env key e) =
    Ensures-inv (cancel_process_wait-IsFenced env key db h) e
Step-IsFenced db db' h (reconciled env i e) = Ensures-inv (reconcile-IsFenced env i db h) e
Step-IsFenced db _ h (synchronized env) =
    let (s, keyed) = synchronize-Shrinks env db h.is_keyed in
    IsFenced-Shrinks db.workflows (synchronize env db).workflows h keyed s
Step-IsFenced db db' h (published env uuid d o e) =
    let same = Ensures-inv (enqueue_continue-OnlyOutbox env uuid d o db) e in rw (same.workflows) h
Step-IsFenced db db' h (subscribed epoch sub e) =
    rw (Ensures-inv (commit_subscription-workflows epoch sub db) e) h
Step-IsFenced db _ h (unsubscribed id) = rw (drop_subscription-workflows id db) h
Step-IsFenced db _ h (delivery_claimed env uuid key) =
    rw (claim_row-workflows env uuid (get key db.outbox) db) h
Step-IsFenced db _ h (delivery_settled env key claim_id r) =
    rw (settle_row-workflows env claim_id r (get key db.outbox) db) h

empty-IsFenced : IsFenced empty.workflows
unfolding get
empty-IsFenced = record {
  is_keyed = record { nodup = tt; keyed = λ k t e. cc };
  fence = λ j k a b ea eb t s oa ob. cc;
}

Reachable-IsFenced : (db : Db) → Reachable db → IsFenced db.workflows
Reachable-IsFenced _ start = empty-IsFenced
Reachable-IsFenced db' (next {db} r s) = Step-IsFenced db db' (Reachable-IsFenced db r) s

-- In every store that the service reaches from an empty one by its transactions, two tasks that
-- name the same non-empty workspace and that both have a current run or wait for a process are
-- stored under the same key, so they are one task.
pub workspace-Reachable :
    (db : Db) (j k : String) (a b : Workflow)
    → Reachable db
    → get j db.workflows ≡ some a
    → get k db.workflows ≡ some b
    → truthy a.workspace ≡ true
    → a.workspace ≡ b.workspace
    → occupied a ≡ true
    → occupied b ≡ true
    → j ≡ k
workspace-Reachable db j k a b r = (Reachable-IsFenced db r).fence j k a b
