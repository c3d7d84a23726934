-- ===== src/Workflows/Requests.antt =====
-- Requests for a continuation (`enqueue` of src/workflows.ts): a refused one changes nothing, and
-- an accepted one is answered again from its row.
use chatgpt_web_agent.Base.{
  String, true, false, not, Option, none, some, ◌≡◌, refl, ap, ◌∙◌, arith, nat_eq, ok, raise_if,
  Ensures, returns, Ensures-bind, Ensures-map, Ensures-inv,
}
use chatgpt_web_agent.Base.Table.{get}
use chatgpt_web_agent.Base.Table.Laws.{get-put_self}
use chatgpt_web_agent.State.{Env, Db, Workflow, DispatchResult, EventSubscription}
use chatgpt_web_agent.Events.{enqueue_continue}
use chatgpt_web_agent.Workflows.Tasks.{task_of, Chosen, only, refused}
use chatgpt_web_agent.Workflows.Sync.{synchronize}
use chatgpt_web_agent.Workflows.Dispatch.{
  Fresh, EnqueueInput, request_key, launch, launch_on, admit, answer, request, enqueue,
}

module _ (env : Env) (fresh : Fresh) (i : EnqueueInput) (key : String) where
  -- Refused: the store is as before. Accepted: the result is stored under the request's key.
  abbrev Recorded : Db → DispatchResult × Db → Type 0
  Recorded db r =
      (r.0.accepted ≡ false → r.1 ≡ db) × (r.0.accepted ≡ true → get key r.1.requests ≡ some r.0)

  launch-Recorded :
      (task : Workflow) (sub : EventSubscription) (db : Db)
      → Ensures (Recorded db) (launch env fresh i key task sub db)
  unfolding launch
  launch-Recorded task sub db =
      Ensures-bind (enqueue_continue env fresh.event _ _ db) _ λ (event, db1) _.
        Ensures-bind (raise_if (not (nat_eq event.1 1)) "subscription_changed") _
          λ _ _. returns (λ e. ground arith, λ _. get-put_self key _ _)

  launch_on-Recorded :
      (task : Workflow) (chosen : Chosen) (db : Db)
      → Ensures (Recorded db) (launch_on env fresh i key task chosen db)
  unfolding launch_on
  launch_on-Recorded task (only sub) db = launch-Recorded task sub db
  launch_on-Recorded task (refused reason) db = returns (λ _. refl, λ e. ground arith)

  admit-Recorded :
      (task : Workflow) (reason : Option String) (db : Db)
      → Ensures (Recorded db) (admit env fresh i key task reason db)
  unfolding admit
  admit-Recorded task none db = launch_on-Recorded task _ db
  admit-Recorded task (some reason) db = returns (λ _. refl, λ e. ground arith)

  -- The row that a request leaves, or finds.
  abbrev Answered : Db → DispatchResult × Db → Type 0
  Answered db r =
      (r.0.accepted ≡ false → r.1 ≡ db)
      × (r.0.accepted ≡ true
          → (row : DispatchResult) × (get key r.1.requests ≡ some row)
            × (record row { reason = "duplicate_request" }
                ≡ record r.0 { reason = "duplicate_request" }))

  answer-Answered :
      (prior : Option DispatchResult) (db : Db)
      → get key db.requests ≡ prior
      → Ensures (Answered db) (answer env fresh i key prior db)
  unfolding answer
  answer-Answered none db e = Ensures-bind (task_of i.target db) _ λ task _.
      Ensures-map (λ r (same, row). (same, λ a. (r.0, row a, refl))) (admit-Recorded task _ db)
  answer-Answered (some prior) db e = returns (λ _. refl, λ _. (prior, e, refl))

-- A request that is not accepted changes nothing but what `synchronizeDeliveryOutcomes` changes
-- before it.
pub enqueue-refused :
    (env : Env) (fresh : Fresh) (i : EnqueueInput) (db : Db) (r : DispatchResult) (db' : Db)
    → enqueue env fresh i db ≡ ok (r, db')
    → r.accepted ≡ false
    → db' ≡ synchronize env db
unfolding enqueue request
enqueue-refused env fresh i db r db' e h =
    (Ensures-inv (answer-Answered env fresh i (request_key env i) _ (synchronize env db) refl) e).0
      h

-- An accepted request that comes again is answered by the first one's result, with the reason
-- `duplicate_request`, and changes nothing but what the synchronisation before it changes: in any
-- later store in which this synchronisation leaves the first request's row as it was (it forgets the
-- row where the run was rejected), for the same key, the digest of actor, target and dedup key, and
-- whatever the clock, the random ids and the other inputs are.
pub enqueue-twice :
    (env env' : Env) (fresh fresh' : Fresh) (i i' : EnqueueInput) (db db' later : Db)
    (r : DispatchResult)
    → enqueue env fresh i db ≡ ok (r, db')
    → r.accepted ≡ true
    → request_key env' i' ≡ request_key env i
    → get (request_key env i) (synchronize env' later).requests
      ≡ get (request_key env i) db'.requests
    → enqueue env' fresh' i' later
      ≡ ok (record r { reason = "duplicate_request" }, synchronize env' later)
unfolding enqueue request answer
enqueue-twice env env' fresh fresh' i i' db db' later r e accepted same stays =
    let (row, found, eq) =
      (Ensures-inv (answer-Answered env fresh i (request_key env i) _ (synchronize env db) refl)
          e).1
        accepted in
    rw same (rw (stays ∙ found) (ap (λ x. ok (x, synchronize env' later)) eq))
