-- ===== src/Events/Outbox.antt =====
-- Ended deliveries and retries in the delivery loop of src/events.ts.
use chatgpt_web_agent.Base.{
  ◌+◌, ◌<◌, String, Bool, true, false, not, ◌&&◌, ◌||◌, Option, none, some, ◌≡◌, refl, arith,
  opt_eq, eq_iff, if-cases, get_or_else,
}
use chatgpt_web_agent.Base.Table.{Table, get, put}
use chatgpt_web_agent.Base.Table.Laws.{get-put}
use chatgpt_web_agent.Events.{is_active}
use chatgpt_web_agent.State.{Env, Db, EventSubscription, OutboxDelivery, DeliveryState}
use chatgpt_web_agent.Events.Delivery.{
  is_pending, is_sending, claimable, claimed_delivery, Claimed, claim_for, claim_row,
  claim_delivery, CallbackResponse, is_ambiguous_response, settled_delivery, settle_claimed,
  settle_row, settle_delivery, disable, has_status,
}

-- Each delivery is stored under its own key.
abbrev pub IsKeyed : Table OutboxDelivery → Type 0
IsKeyed t = (k : String) (d : OutboxDelivery) → get k t ≡ some d → d.key ≡ k

-- `accepted`, `failed` or `cancelled`
abbrev pub has_ended : DeliveryState → Bool
has_ended s = not (is_pending s) && not (is_sending s)

module _ (k : String) (e : OutboxDelivery) where
  -- The row of `k` is `e`.
  abbrev Stays : Db → Type 0
  Stays db = get k db.outbox ≡ some e

  -- A write of another row, or of a row that has not ended.
  put-Stays :
      (d d' : OutboxDelivery) (t : Table OutboxDelivery)
      → IsKeyed t
      → get k t ≡ some e
      → has_ended e.state ≡ true
      → (row : String) → get row t ≡ some d
      → has_ended d.state ≡ false
      → get k (put d.key d' t) ≡ some e
  put-Stays d d' t keyed found ended row at_row live =
      ground (arith, get-put d.key k d' t, eq_iff d.key k, keyed row d at_row)

  claim_for-Stays :
      (env : Env) (uuid : String) (d : OutboxDelivery) (sub : Option EventSubscription) (db : Db)
      → ((d' : OutboxDelivery) → get k (put d.key d' db.outbox) ≡ some e)
      → Stays (claim_for env uuid d sub db).1
  unfolding claim_for
  claim_for-Stays env uuid d none db h = h _
  claim_for-Stays env uuid d (some sub) db h =
      if-cases {A = Option Claimed × Db} (λ r. Stays r.1) (is_active env sub) _ _ (λ _. h _)
        λ _. h _

  claim_row-Stays :
      (env : Env) (uuid row : String) (found : Option OutboxDelivery) (db : Db)
      → get row db.outbox ≡ found
      → IsKeyed db.outbox
      → Stays db
      → has_ended e.state ≡ true
      → Stays (claim_row env uuid found db).1
  unfolding claim_row
  claim_row-Stays env uuid row none db at_row keyed stays ended = stays
  claim_row-Stays env uuid row (some d) db at_row keyed stays ended =
      if-cases {A = Option Claimed × Db} (λ r. Stays r.1) (claimable env d) _ _
        (λ c.
          claim_for-Stays env uuid d _ db
            λ d'. put-Stays d d' db.outbox keyed stays ended row at_row (ground arith))
        λ _. stays

  settle_claimed-Stays :
      (env : Env) (r : Option CallbackResponse) (d : OutboxDelivery) (db : Db)
      → get k (put d.key (settled_delivery env r d) db.outbox) ≡ some e
      → Stays (settle_claimed env r d db)
  unfolding settle_claimed
  settle_claimed-Stays env r d db h =
      if-cases Stays (has_status 410 r) _ _ (λ _. disabled (get d.subscription_id db.subscriptions))
        λ _. h
    where
      disabled :
          (sub : Option EventSubscription)
          → Stays
              (disable sub (record db { outbox = put d.key (settled_delivery env r d) db.outbox }))
      disabled none = h
      disabled (some sub) = h

  settle_row-Stays :
      (env : Env) (claim_id : Option String) (r : Option CallbackResponse) (row : String)
      (found : Option OutboxDelivery) (db : Db)
      → get row db.outbox ≡ found
      → IsKeyed db.outbox
      → Stays db
      → has_ended e.state ≡ true
      → Stays (settle_row env claim_id r found db)
  unfolding settle_row
  settle_row-Stays env claim_id r row none db at_row keyed stays ended = stays
  settle_row-Stays env claim_id r row (some d) db at_row keyed stays ended =
      if-cases Stays (is_sending d.state && opt_eq d.claim_id claim_id) _ _
        (λ c.
          settle_claimed-Stays env r d db
            (put-Stays d _ db.outbox keyed stays ended row at_row (ground arith)))
        λ _. stays

-- Where each delivery is stored under its own key: a delivery that is `accepted`, `failed` or
-- `cancelled` is left as it is by every claim and by every settlement, of its own row or another.
pub ended-stays :
    (env : Env) (uuid row : String) (claim_id : Option String) (r : Option CallbackResponse)
    (k : String) (e : OutboxDelivery) (db : Db)
    → IsKeyed db.outbox
    → get k db.outbox ≡ some e
    → has_ended e.state ≡ true
    → (get k (claim_delivery env uuid row db).1.outbox ≡ some e)
      × (get k (settle_delivery env row claim_id r db).outbox ≡ some e)
unfolding claim_delivery settle_delivery
ended-stays env uuid row claim_id r k e db keyed found ended = (
  claim_row-Stays k e env uuid row _ db refl keyed found ended,
  settle_row-Stays k e env claim_id r row _ db refl keyed found ended,
)

-- A claim and the settlement after it count one more attempt, and raise the count of ambiguous
-- attempts, where the delivery was being sent already, no answer came, or the answer was 408 or 5xx.
pub ambiguity-kept :
    (env env' : Env) (uuid : String) (r : Option CallbackResponse) (d : OutboxDelivery)
    → is_sending d.state || is_ambiguous_response r ≡ true
    → ((settled_delivery env' r (claimed_delivery env uuid d)).attempts ≡ d.attempts + 1)
      × (get_or_else d.ambiguous_attempts 0
          < get_or_else
              (settled_delivery env' r (claimed_delivery env uuid d)).ambiguous_attempts
              0)
ambiguity-kept env env' uuid r d h = ground arith
