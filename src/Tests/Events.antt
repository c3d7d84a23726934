-- ===== src/Tests/Events.antt =====
-- Runs of the event service's operations.
use chatgpt_web_agent.Base.{
  ◌+◌, ◌≤◌, String, true, false, none, some, List, [], ◌∷◌, ◌≡◌, refl, arith, eq_iff, err,
}
use chatgpt_web_agent.Base.Table.{get}
use chatgpt_web_agent.State.{Env, Db, OutboxDelivery, DeliveryState}
use chatgpt_web_agent.Events.Delivery.{
  CallbackResponse, max_attempts, claim_delivery, claim_row, claim_for, settle_delivery,
}
use chatgpt_web_agent.Events.Subscribe.{cancel_epoch, commit_subscription, drop_subscription}
use chatgpt_web_agent.Events.Outbox.{IsKeyed, ended-stays}
use chatgpt_web_agent.Events.Claims.{at_once, claimed, settled, claim_delivery-exclusive}
use chatgpt_web_agent.Events.Attempts.{lost, Round, sends, sends-bound}
use chatgpt_web_agent.Events.Cancellation.{is_open_row, drop_subscription-ends, commit-drop}
use chatgpt_web_agent.Tests.Data.{env, env_at, delivery, subscription, queued_db}

abbrev outbox_key : String
outbox_key = "e:s"

own_key : IsKeyed queued_db.outbox
unfolding get
own_key k d e = ground (arith, eq_iff outbox_key k)

abbrev claimed_db : Db
claimed_db = (claim_delivery env "u" outbox_key queued_db).1

-- After another worker's claim, and the late answer to a claim that has expired.
abbrev raced_db : Db
raced_db =
    settle_delivery (env_at 2000) outbox_key (some "old") none
      (claim_delivery (env_at 1500) "w" outbox_key claimed_db).1

claim_delivery-exclusive_example :
    claim_delivery (env_at 30_000) "v" outbox_key raced_db ≡ (none, raced_db)
unfolding claim_delivery claim_row claim_for get
claim_delivery-exclusive_example =
    claim_delivery-exclusive env (env_at 30_000) "u" "v" outbox_key _ queued_db raced_db own_key
      refl
      (settled (env_at 2000) outbox_key (some "old") none refl
        (claimed (env_at 1500) "w" outbox_key (omega arith) at_once))
      (omega arith)

abbrev sent : OutboxDelivery
sent = record delivery { state = DeliveryState.accepted; attempts = 1; status = some 200 }

abbrev sent_db : Db
sent_db = record queued_db { outbox = (outbox_key, sent) ∷ [] }

sent_key : IsKeyed sent_db.outbox
unfolding get
sent_key k d e = ground (arith, eq_iff outbox_key k)

ended-stays_example :
    (get outbox_key (claim_delivery env "u" outbox_key sent_db).1.outbox ≡ some sent)
    × (get outbox_key (settle_delivery env outbox_key none none sent_db).outbox ≡ some sent)
unfolding get
ended-stays_example =
    ended-stays env "u" outbox_key none none outbox_key sent sent_db sent_key refl refl

abbrev busy : CallbackResponse
busy = record { ok = false; status = 503; body = ""; retry_after_ms = some 7000 }

abbrev tried : OutboxDelivery
tried = record delivery { attempts = 2 }

abbrev cancelled : OutboxDelivery
cancelled = record delivery { state = DeliveryState.cancelled }

drop_subscription-ends_example :
    (get "s" (drop_subscription "s" queued_db).subscriptions ≡ none)
    × (is_open_row "s" (get outbox_key (drop_subscription "s" queued_db).outbox) ≡ false)
drop_subscription-ends_example = drop_subscription-ends "s" outbox_key queued_db own_key

commit-drop_example :
    commit_subscription (cancel_epoch "s" queued_db) subscription (drop_subscription "s" queued_db)
    ≡ err "subscription_cancelled_during_verification"
commit-drop_example = commit-drop subscription queued_db

abbrev round_at : Env → String → Round
round_at start id = record {
  claim_env = start;
  uuid = id;
  answer = some busy;
  answer_env = start;
  is_lost = false;
}

-- The first pass is lost.
abbrev two_rounds : List Round
two_rounds = record (round_at env "u") { is_lost = true } ∷ round_at (env_at 60_000) "v" ∷ []

sends-bound_example :
    delivery.attempts + sends two_rounds outbox_key queued_db ≤ max_attempts + lost two_rounds
unfolding get
sends-bound_example = sends-bound two_rounds outbox_key delivery queued_db refl refl (omega arith)
