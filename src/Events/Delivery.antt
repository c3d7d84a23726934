-- ===== src/Events/Delivery.antt =====
-- Sending the outbox (src/events.ts, `flush`): a delivery is claimed in one transaction, sent, and
-- settled in another.
use chatgpt_web_agent.Base.{
  ℕ, zero, suc, ◌+◌, ◌*◌, ◌^◌, max, min, String, Bool, true, false, not, ◌&&◌, ◌||◌, Option, none,
  some, List, [], ◌∷◌, ◌==◌, nat_eq, ltb, leb, opt_eq, get_or_else, if◌then◌else◌,
}
use chatgpt_web_agent.Base.Table.{get, put, values, select, take}
use chatgpt_web_agent.State.{Env, Db, EventSubscription, OutboxDelivery, DeliveryState}
use chatgpt_web_agent.Events.{is_active}

abbrev pub is_pending : DeliveryState → Bool
is_pending DeliveryState.pending = true
is_pending _ = false

abbrev pub is_sending : DeliveryState → Bool
is_sending DeliveryState.sending = true
is_sending _ = false

-- `json_extract(value,'$.claimUntil') < now`, false where there is no claim
abbrev claim_over : Env → Option ℕ → Bool
claim_over env none = false
claim_over env (some t) = ltb t env.now

abbrev for_event : Option String → OutboxDelivery → Bool
for_event none d = true
for_event (some e) d = d.event_id == e

abbrev is_due : Env → Option String → OutboxDelivery → Bool
is_due env event_id d =
    (is_pending d.state || is_sending d.state && claim_over env d.claim_until)
    && leb d.next_attempt_at env.now
    && for_event event_id d

unfoldable pub insert_due : OutboxDelivery → List OutboxDelivery → List OutboxDelivery
insert_due d [] = d ∷ []
insert_due d (e ∷ es) =
    if leb d.next_attempt_at e.next_attempt_at then d ∷ e ∷ es else e ∷ insert_due d es

unfoldable pub sort_due : List OutboxDelivery → List OutboxDelivery
sort_due [] = []
sort_due (d ∷ ds) = insert_due d (sort_due ds)

-- The query of `flush`. SQL leaves the order of equal times open; here the older row goes first.
unfoldable pub due_deliveries : Env → Option String → Db → List OutboxDelivery
due_deliveries env event_id db =
    take 32 (sort_due (select (is_due env event_id) (values db.outbox)))

-- The same test inside the claiming transaction.
abbrev pub claimable : Env → OutboxDelivery → Bool
claimable env d =
    (is_pending d.state || is_sending d.state && ltb (get_or_else d.claim_until 0) env.now)
    && not (ltb env.now d.next_attempt_at)

abbrev pub claimed_delivery : Env → String → OutboxDelivery → OutboxDelivery
claimed_delivery env uuid d = record d {
  state = DeliveryState.sending;
  attempts = d.attempts + 1;
  ambiguous_attempts =
      some (get_or_else d.ambiguous_attempts 0 + (if is_sending d.state then 1 else 0));
  claim_until = some (env.now + 30_000);
  claim_id = some uuid;
}

abbrev pub inactive_delivery : OutboxDelivery → OutboxDelivery
inactive_delivery d = record d {
  state = DeliveryState.cancelled;
  error = some "subscription_inactive";
}

-- The delivery as it was claimed, and its subscription.
abbrev pub Claimed : Type 0
Claimed = OutboxDelivery × EventSubscription

unfoldable pub claim_for :
    Env → String → OutboxDelivery → Option EventSubscription → Db → Option Claimed × Db
claim_for env uuid d none db =
    (none, record db { outbox = put d.key (inactive_delivery d) db.outbox })
claim_for env uuid d (some sub) db =
    if is_active env sub
    then (
      some (claimed_delivery env uuid d, sub),
      record db { outbox = put d.key (claimed_delivery env uuid d) db.outbox },
    )
    else (none, record db { outbox = put d.key (inactive_delivery d) db.outbox })

unfoldable pub claim_row : Env → String → Option OutboxDelivery → Db → Option Claimed × Db
claim_row env uuid none db = (none, db)
claim_row env uuid (some d) db =
    if claimable env d
    then claim_for env uuid d (get d.subscription_id db.subscriptions) db
    else (none, db)

unfoldable pub claim_delivery : Env → String → String → Db → Option Claimed × Db
claim_delivery env uuid key db = claim_row env uuid (get key db.outbox) db

pub record CallbackResponse : Type 0 where
  pub ok : Bool
  pub status : ℕ
  pub body : String
  pub retry_after_ms : Option ℕ

-- No answer, 408 and 5xx do not tell whether the callback ran.
abbrev pub is_ambiguous_response : Option CallbackResponse → Bool
is_ambiguous_response none = true
is_ambiguous_response (some r) = nat_eq r.status 408 || leb 500 r.status

abbrev pub has_status : ℕ → Option CallbackResponse → Bool
has_status n none = false
has_status n (some r) = nat_eq r.status n

abbrev pub is_transient : Option CallbackResponse → Bool
is_transient r = is_ambiguous_response r || has_status 429 r

abbrev pub is_ok : Option CallbackResponse → Bool
is_ok none = false
is_ok (some r) = r.ok

-- `1000 * 2 ** (attempts - 1)`; a delivery that was claimed has at least one attempt.
unfoldable pub backoff : ℕ → ℕ
backoff zero = 500
backoff (suc n) = 1000 * 2 ^ n

abbrev pub retry_after : Option CallbackResponse → ℕ
retry_after none = 0
retry_after (some r) = min (get_or_else r.retry_after_ms 0) 86_400_000

abbrev status_of : Option CallbackResponse → Option ℕ
status_of none = none
status_of (some r) = some r.status

abbrev error_of : Option CallbackResponse → Option String
error_of none = some "transport_error"
error_of (some r) = none

abbrev pub max_attempts : ℕ
max_attempts = 6

unfoldable pub next_state : Option CallbackResponse → ℕ → DeliveryState
next_state r attempts =
    if is_ok r
    then DeliveryState.accepted
    else if is_transient r && ltb attempts max_attempts
    then DeliveryState.pending
    else DeliveryState.failed

abbrev pub settled_delivery : Env → Option CallbackResponse → OutboxDelivery → OutboxDelivery
settled_delivery env r d = record d {
  state = next_state r d.attempts;
  status = status_of r;
  error = error_of r;
  ambiguous_attempts =
      some (get_or_else d.ambiguous_attempts 0 + (if is_ambiguous_response r then 1 else 0));
  next_attempt_at = env.now + max (retry_after r) (backoff d.attempts);
}

abbrev pub disable : Option EventSubscription → Db → Db
disable none db = db
disable (some sub) db = record db {
  subscriptions = put sub.id (record sub { disabled = true }) db.subscriptions;
}

unfoldable pub settle_claimed : Env → Option CallbackResponse → OutboxDelivery → Db → Db
settle_claimed env r d db =
    let db' = record db { outbox = put d.key (settled_delivery env r d) db.outbox } in
    if has_status 410 r then disable (get d.subscription_id db'.subscriptions) db' else db'

unfoldable pub settle_row :
    Env → Option String → Option CallbackResponse → Option OutboxDelivery → Db → Db
settle_row env claim_id r none db = db
settle_row env claim_id r (some d) db =
    if is_sending d.state && opt_eq d.claim_id claim_id then settle_claimed env r d db else db

-- The transaction after the answer; `none` where the sender threw. A claim that another has
-- replaced settles nothing.
unfoldable pub settle_delivery : Env → String → Option String → Option CallbackResponse → Db → Db
settle_delivery env key claim_id r db = settle_row env claim_id r (get key db.outbox) db

-- What is outside: the random claim ids, the callback's answers, the time of the answer, and what
-- other calls do to the store until then.
pub record Network : Type 0 where
  pub uuid : OutboxDelivery → String
  pub answer : OutboxDelivery → EventSubscription → Option CallbackResponse
  pub later : OutboxDelivery → Env
  pub meanwhile : OutboxDelivery → Db → Db

abbrev pub send_claimed : Network → OutboxDelivery → Option Claimed × Db → Db
send_claimed net c (none, db) = db
send_claimed net c (some (d, sub), db) =
    settle_delivery (net.later d) c.key d.claim_id (net.answer d sub) (net.meanwhile d db)

unfoldable pub flush_each : Env → Network → List OutboxDelivery → Db → Db
flush_each env net [] db = db
flush_each env net (c ∷ cs) db =
    flush_each env net cs (send_claimed net c (claim_delivery env (net.uuid c) c.key db))

unfoldable pub flush : Env → Network → Option String → Db → Db
flush env net event_id db = flush_each env net (due_deliveries env event_id db) db
