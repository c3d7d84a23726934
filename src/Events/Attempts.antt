-- ===== src/Events/Attempts.antt =====
-- How often a delivery can be sent (src/events.ts, `flush`).
use chatgpt_web_agent.Base.{
  ℕ, suc, ◌+◌, ◌-◌, ◌≤◌, ◌<◌, String, Bool, true, false, ◌&&◌, Option, none, some, List, [], ◌∷◌,
  ltb, if◌then◌else◌, if-cases, ◌≡◌, inl, inr, refl, ap, ◌∙◌, arith, eq_refl, Bool-cases,
}
use chatgpt_web_agent.Base.Table.{get}
use chatgpt_web_agent.Base.Table.Laws.{get-put_at}
use chatgpt_web_agent.State.{Env, Db, EventSubscription, OutboxDelivery}
use chatgpt_web_agent.Events.{is_active}
use chatgpt_web_agent.Events.Delivery.{
  Claimed, CallbackResponse, claim_delivery, claim_row, claim_for, claimed_delivery,
  inactive_delivery, settle_delivery, settle_row, settle_claimed, settled_delivery, next_state,
  is_pending, is_sending, claimable, Network, send_claimed, flush_each, disable, has_status,
  max_attempts, is_ok, is_transient,
}

-- One pass of the delivery loop over a delivery: the times of its two transactions, the claim's id
-- and the answer of the callback. Where `is_lost`, the pass ends before its second transaction, as
-- when the process dies; its claim expires.
pub record Round : Type 0 where
  pub claim_env : Env
  pub uuid : String
  pub answer : Option CallbackResponse
  pub answer_env : Env
  pub is_lost : Bool

-- Whether the callback was called, and the store afterwards.
abbrev after_claim : Round → String → Option Claimed × Db → Bool × Db
after_claim r key (none, db) = (false, db)
after_claim r key (some (d, sub), db) =
    (true, if r.is_lost then db else settle_delivery r.answer_env key d.claim_id r.answer db)

unfoldable pub attempt : Round → String → Db → Bool × Db
attempt r key db = after_claim r key (claim_delivery r.claim_env r.uuid key db)

-- How often the callback is called in some rounds.
unfoldable pub sends : List Round → String → Db → ℕ
sends [] key db = 0
sends (r ∷ rs) key db = (if (attempt r key db).0 then 1 else 0) + sends rs key (attempt r key db).1

-- How many of the rounds are lost.
unfoldable pub lost : List Round → ℕ
lost [] = 0
lost (r ∷ rs) = (if r.is_lost then 1 else 0) + lost rs

-- A round that is not lost does what `flush` does with a delivery that is due, where nothing else
-- writes meanwhile.
abbrev network : Round → Network
network r = record {
  uuid = λ d. r.uuid;
  answer = λ d sub. r.answer;
  later = λ d. r.answer_env;
  meanwhile = λ d db. db;
}

attempt-flush_each :
    (r : Round) (c : OutboxDelivery) (db : Db)
    → r.is_lost ≡ false
    → (attempt r c.key db).1 ≡ flush_each r.claim_env (network r) (c ∷ []) db
unfolding attempt flush_each
attempt-flush_each r c db kept = same (claim_delivery r.claim_env r.uuid c.key db)
  where
    same :
        (claim : Option Claimed × Db)
        → (after_claim r c.key claim).1
          ≡ flush_each r.claim_env (network r) [] (send_claimed (network r) c claim)
    same (none, s) = refl
    same (some (d, sub), s) = rw kept refl

-- The delivery may be sent `n` more times at most, apart from lost rounds: it has so many attempts
-- left, or one that a lost round left open, or it has ended.
data Left (key : String) (n : ℕ) (db : Db) : Type 0 where
  alive :
      (d : OutboxDelivery)
      → get key db.outbox ≡ some d
      → d.key ≡ key
      → max_attempts ≤ d.attempts + n
      → 1 ≤ n
      → Left key n db
  over :
      (d : OutboxDelivery)
      → get key db.outbox ≡ some d
      → is_pending d.state ≡ false
      → is_sending d.state ≡ false
      → Left key n db

-- What one round does: nothing is sent and nothing lost, or one send is used up, or the round is lost.
abbrev Used : String → Bool → ℕ → Bool × Db → Type 0
Used key is_lost n (false, db) = Left key n db
Used key true n (true, db) = Left key n db
Used key false n (true, db) = (m : ℕ) × (n ≡ suc m) × Left key m db

settled-Left :
    (env : Env) (r : Option CallbackResponse) (key : String) (m : ℕ) (c : OutboxDelivery) (db : Db)
    → c.key ≡ key
    → max_attempts ≤ c.attempts + m
    → get key db.outbox ≡ some (settled_delivery env r c)
    → Left key m db
unfolding next_state
settled-Left env r key m c db same left found = elim (Bool-cases (is_ok r)) [
  | inl good ↦ over (settled_delivery env r c) found (ground (arith, good)) (ground (arith, good))
  | inr bad ↦ elim (Bool-cases (is_transient r && ltb c.attempts max_attempts)) [
    | inl again ↦ alive (settled_delivery env r c) found same left (ground (arith, again, left))
    | inr ends ↦
        over (settled_delivery env r c) found (ground (arith, bad, ends))
          (ground (arith, bad, ends))
  ]
]

disable-outbox : (sub : Option EventSubscription) (db : Db) → (disable sub db).outbox ≡ db.outbox
disable-outbox none db = refl
disable-outbox (some sub) db = refl

-- The answer to a claim finds the claim that it belongs to.
settle-found :
    (env env' : Env) (uuid key : String) (r : Option CallbackResponse) (d : OutboxDelivery)
    (db : Db)
    → get key db.outbox ≡ some (claimed_delivery env uuid d)
    → d.key ≡ key
    → get key (settle_delivery env' key (some uuid) r db).outbox
      ≡ some (settled_delivery env' r (claimed_delivery env uuid d))
unfolding settle_delivery settle_row settle_claimed
settle-found env env' uuid key r d db found same =
    rw (found, eq_refl uuid)
      (if-cases
        (λ (s : Db).
          get key s.outbox ≡ some (settled_delivery env' r (claimed_delivery env uuid d)))
        (has_status 410 r) _ _
        (λ _. ap (get key) (disable-outbox _ _) ∙ get-put_at d.key key _ db.outbox same)
        λ _. get-put_at d.key key _ db.outbox same)

claim-Used :
    (r : Round) (is_lost : Bool) (key : String) (n : ℕ) (d : OutboxDelivery)
    (sub : Option EventSubscription) (db : Db)
    → r.is_lost ≡ is_lost
    → d.key ≡ key
    → max_attempts ≤ d.attempts + n
    → 1 ≤ n
    → Used key is_lost n (after_claim r key (claim_for r.claim_env r.uuid d sub db))
unfolding claim_for
claim-Used r is_lost key n d none db e same left some_left =
    over (inactive_delivery d) (get-put_at d.key key _ db.outbox same) refl refl
claim-Used r true key n d (some sub) db e same left some_left =
    if-cases (λ c. Used key true n (after_claim r key c)) (is_active r.claim_env sub) _ _
      (λ _. rw e (
        alive (claimed_delivery r.claim_env r.uuid d) (get-put_at d.key key _ db.outbox same) same
          (omega (arith, left)) some_left))
      λ _. over (inactive_delivery d) (get-put_at d.key key _ db.outbox same) refl refl
claim-Used r false key n d (some sub) db e same left some_left =
    if-cases (λ c. Used key false n (after_claim r key c)) (is_active r.claim_env sub) _ _
      (λ _. rw e (
        n - 1,
        omega (arith, some_left),
        settled-Left r.answer_env r.answer key (n - 1) (claimed_delivery r.claim_env r.uuid d) _
            same (omega (arith, left, some_left))
            (settle-found r.claim_env r.answer_env r.uuid key r.answer d _
              (get-put_at d.key key _ db.outbox same) same),
      ))
      λ _. over (inactive_delivery d) (get-put_at d.key key _ db.outbox same) refl refl

attempt-Used :
    (r : Round) (is_lost : Bool) (key : String) (n : ℕ) (db : Db)
    → r.is_lost ≡ is_lost
    → Left key n db
    → Used key is_lost n (attempt r key db)
unfolding attempt claim_delivery claim_row
attempt-Used r is_lost key n db e (alive d found same left some_left) = rw found (
    if-cases (λ c. Used key is_lost n (after_claim r key c)) (claimable r.claim_env d) _ _
      (λ _.
        claim-Used r is_lost key n d (get d.subscription_id db.subscriptions) db e same left
          some_left)
      λ _. alive d found same left some_left)
attempt-Used r is_lost key n db e (over d found settled idle) =
    let never : claimable r.claim_env d ≡ false = ground (arith, settled, idle) in
    rw (found, never) (over d found settled idle)

sends-Left :
    (rs : List Round) (key : String) (n : ℕ) (db : Db)
    → Left key n db
    → sends rs key db ≤ n + lost rs
unfolding sends lost
sends-Left [] key n db h = omega arith
sends-Left (r ∷ rs) key n db h =
    counted r.is_lost (attempt r key db) (attempt-Used r r.is_lost key n db refl h)
      (sends-Left rs key)
  where
    counted :
        (is_lost : Bool) (a : Bool × Db)
        → Used key is_lost n a
        → ((m : ℕ) (s : Db) → Left key m s → sends rs key s ≤ m + lost rs)
        → (if a.0 then 1 else 0) + sends rs key a.1 ≤ n + ((if is_lost then 1 else 0) + lost rs)
    counted true (false, s) left ih = omega (arith, ih n s left)
    counted false (false, s) left ih = omega (arith, ih n s left)
    counted true (true, s) left ih = omega (arith, ih n s left)
    counted false (true, s) (m, e, left) ih = omega (arith, e, ih m s left)

-- Sending comes to an end. A delivery that is stored under its own key after fewer than six attempts
-- is sent at most as many more times as it lacks of six, and once more for each pass of the loop that
-- is lost before it settles what it claimed; in however many passes, whatever the callback answers
-- and whenever they run, where each pass begins after the one before it has ended and nothing else
-- writes to the outbox.
pub sends-bound :
    (rs : List Round) (key : String) (d : OutboxDelivery) (db : Db)
    → get key db.outbox ≡ some d
    → d.key ≡ key
    → d.attempts < max_attempts
    → d.attempts + sends rs key db ≤ max_attempts + lost rs
sends-bound rs key d db found same few = omega (
  arith,
  few,
  sends-Left rs key (max_attempts - d.attempts) db
      (alive d found same (omega (arith, few)) (omega (arith, few))),
)
