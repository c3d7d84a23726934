-- ===== src/Workflows/Fence/Enqueue.antt =====
-- The fence under `enqueue`: a run starts only in a workspace that no other task holds.
use chatgpt_web_agent.Base.{
  String, false, Option, none, some, List, [], ◌∷◌, ◌≡◌, refl, arith, ok, err, Ensures, returns,
  throws, Ensures-bind, Ensures-then, Ensures-map, Ensures-if, get_or_else, ◌<>◌, ltb, raise_if,
  not, nat_eq, ◌==◌,
}
use chatgpt_web_agent.Json.{Json, canonical_json, stringify}
use Prim.Native.String.{len}
use chatgpt_web_agent.State.{Env, Db, Workflow, EventSubscription, DispatchResult, OutboxDelivery}
use chatgpt_web_agent.Events.{
  ContinueEventData, EnqueueOptions, body_data, validate_data, event_body, enqueue_row, enqueue_for,
  enqueue_each, enqueue_continue,
}
use chatgpt_web_agent.Workflows.Tasks.{save, workspace_busy, Chosen, only, refused}
use chatgpt_web_agent.Workflows.Sync.{synchronize}
use chatgpt_web_agent.Workflows.Dispatch.{
  Fresh, EnqueueInput, refusal, launch, launch_on, admit, answer, request, enqueue,
}
use chatgpt_web_agent.Workflows.Fence.{
  IsFenced, IsKeyed, Shrinks, IsFenced-Shrinks, others_hold, IsFenced-put_over,
}
use chatgpt_web_agent.Workflows.Fence.Sync.{synchronize-Shrinks}

-- An event changes the outbox and nothing else.
pub record OnlyOutbox (db db' : Db) : Type 0 where
  pub workflows : db'.workflows ≡ db.workflows
  pub runs : db'.runs ≡ db.runs
  pub process_waits : db'.process_waits ≡ db.process_waits
  pub requests : db'.requests ≡ db.requests
  pub visits : db'.visits ≡ db.visits
  pub subscriptions : db'.subscriptions ≡ db.subscriptions
  pub cancel_epochs : db'.cancel_epochs ≡ db.cancel_epochs

OnlyOutbox-trans : (a b c : Db) → OnlyOutbox a b → OnlyOutbox b c → OnlyOutbox a c
OnlyOutbox-trans a b c p q = ground arith

enqueue_row-OnlyOutbox :
    (env : Env) (event_id : String) (body : Json) (sub : EventSubscription)
    (existing : Option OutboxDelivery) (db : Db)
    → Ensures (OnlyOutbox db) (enqueue_row env event_id body sub existing db)
unfolding enqueue_row
enqueue_row-OnlyOutbox env event_id body sub none db = returns (ground arith)
enqueue_row-OnlyOutbox env event_id body sub (some d) db =
    Ensures-if (canonical_json (body_data d.body) == canonical_json (body_data body)) (ok db)
      (err "event_id_conflict") (λ _. returns (ground arith)) (λ _. throws)

enqueue_each-OnlyOutbox :
    (env : Env) (event_id : String) (body : Json) (subs : List EventSubscription) (db : Db)
    → Ensures (OnlyOutbox db) (enqueue_each env event_id body subs db)
unfolding enqueue_each enqueue_for
enqueue_each-OnlyOutbox env event_id body [] db = returns (ground arith)
enqueue_each-OnlyOutbox env event_id body (sub ∷ subs) db =
    Ensures-then _ _ (enqueue_row-OnlyOutbox env event_id body sub _ db) λ db' h.
      Ensures-map (λ c. OnlyOutbox-trans db db' c h)
        (enqueue_each-OnlyOutbox env event_id body subs db')

pub enqueue_continue-OnlyOutbox :
    (env : Env) (uuid : String) (d : ContinueEventData) (o : EnqueueOptions) (db : Db)
    → Ensures (λ r. OnlyOutbox db r.1) (enqueue_continue env uuid d o db)
unfolding enqueue_continue
enqueue_continue-OnlyOutbox env uuid d o db =
    let event_id = get_or_else o.event_id ("evt_" <> uuid) in
    let body = event_body env event_id d in
    Ensures-bind (validate_data d) _ λ _ _.
      Ensures-bind (raise_if (ltb 262144 (len (stringify body))) "event_too_large") _
        λ _ _. Ensures-then _ _ (enqueue_each-OnlyOutbox env event_id body _ db) λ db' h. returns h

module _ (env : Env) (fresh : Fresh) (i : EnqueueInput) (key : String) where
  -- An accepted request leaves the fence whole; a refused one leaves the tasks as they were.
  abbrev Guarded : Db → DispatchResult × Db → Type 0
  Guarded db r = IsFenced r.1.workflows × (r.0.accepted ≡ false → r.1.workflows ≡ db.workflows)

  launch-Guarded :
      (task : Workflow) (sub : EventSubscription) (db : Db)
      → IsFenced db.workflows
      → others_hold task db.workflows ≡ false
      → Ensures (Guarded db) (launch env fresh i key task sub db)
  unfolding launch save
  launch-Guarded task sub db h free =
      Ensures-then _ _ (enqueue_continue-OnlyOutbox env _ _ _ db) λ (event, db1) same.
        Ensures-bind (raise_if (not (nat_eq event.1 1)) "subscription_changed") _ λ _ _.
          returns (
            IsFenced-put_over _ db.workflows db1.workflows same.workflows h free,
            λ e. ground arith,
          )

  refusal-others_hold :
      (task : Workflow) (db : Db) → refusal task db ≡ none → others_hold task db.workflows ≡ false
  unfolding refusal workspace_busy
  refusal-others_hold task db e = ground arith

  launch_on-Guarded :
      (task : Workflow) (chosen : Chosen) (db : Db)
      → IsFenced db.workflows
      → others_hold task db.workflows ≡ false
      → Ensures (Guarded db) (launch_on env fresh i key task chosen db)
  unfolding launch_on
  launch_on-Guarded task (only sub) db h free = launch-Guarded task sub db h free
  launch_on-Guarded task (refused reason) db h free = returns (h, λ _. refl)

  admit-Guarded :
      (task : Workflow) (reason : Option String) (db : Db)
      → IsFenced db.workflows
      → refusal task db ≡ reason
      → Ensures (Guarded db) (admit env fresh i key task reason db)
  unfolding admit
  admit-Guarded task none db h e = launch_on-Guarded task _ db h (refusal-others_hold task db e)
  admit-Guarded task (some reason) db h e = returns (h, λ _. refl)

  answer-Guarded :
      (prior : Option DispatchResult) (db : Db)
      → IsFenced db.workflows
      → Ensures (Guarded db) (answer env fresh i key prior db)
  unfolding answer
  answer-Guarded none db h = Ensures-bind _ _ λ task _. admit-Guarded task _ db h refl
  answer-Guarded (some prior) db h = returns (h, λ _. refl)

-- The fence holds after a request; one that starts no run gives no task a workspace.
pub enqueue-IsFenced :
    (env : Env) (fresh : Fresh) (i : EnqueueInput) (db : Db)
    → IsFenced db.workflows
    → Ensures
        (λ r.
          IsFenced r.1.workflows
          × (r.0.accepted ≡ false → Shrinks db.workflows r.1.workflows × IsKeyed r.1.workflows))
        (enqueue env fresh i db)
unfolding enqueue request
enqueue-IsFenced env fresh i db h =
    let (s, keyed) = synchronize-Shrinks env db h.is_keyed in
    let h' = IsFenced-Shrinks db.workflows _ h keyed s in
    Ensures-map (λ r (g, same). (g, λ e. rw (same e) (s, keyed)))
      (answer-Guarded env fresh i _ _ (synchronize env db) h')
