-- ===== src/Events/Subscribe.antt =====
-- Subscribing and unsubscribing (src/events.ts, `topicArgs`, `identity`, `subscribe`,
-- `unsubscribe`). `subscribe` waits for the network twice; what other calls do to the store
-- meanwhile is a function of it. A `CallbackEndpointError` is its reason.
use chatgpt_web_agent.Base.{
  ℕ, ◌+◌, max, String, ◌<>◌, slice_to, trim, Bool, true, false, not, ◌&&◌, Option, none, some, List,
  [], ◌∷◌, Result, ok, err, raise_if, ◌>>=◌, ◌>>◌, ◌==◌, nat_eq, ltb, truthy, get_or_else,
  if◌then◌else◌,
}
use chatgpt_web_agent.Base.Table.{get, put, remove, all}
use chatgpt_web_agent.Json.{str, arr, obj, nil, cons, Fields, end, field, canonical_json}
use chatgpt_web_agent.State.{Env, Db, EventSubscription, OutboxDelivery, DeliveryState}
use chatgpt_web_agent.Events.{continue_event_name, text_within}
use chatgpt_web_agent.Events.Secret.{validate_secret}

-- The parsed `{topic}`: trimmed, 1 to 200 characters, and no other key.
unfoldable pub topic_args : String → Fields → Result String
topic_args name (field k (str s) end) =
    if not (name == continue_event_name)
    then err "unsupported_event"
    else if k == "topic" && text_within 1 200 (trim s)
    then ok (trim s)
    else err "ZodError"
topic_args name args =
    if not (name == continue_event_name) then err "unsupported_event" else err "ZodError"

unfoldable pub identity : Env → String → String → String → String → String
identity env owner url name topic =
    "sub_"
    <> slice_to 32 (
        env.hash (
          canonical_json (
            arr (
              cons (str owner) (
                cons (str url)
                  (cons (str name) (cons (obj (field "topic" (str topic) end)) nil)))))))

-- `ttlMs` is left out, null, or a number of milliseconds.
pub data Ttl : Type 0 where
  unset forever : Ttl
  ms : ℕ → Ttl

pub record SubscribeRequest : Type 0 where
  pub name : String
  pub args : Fields
  pub mode : String
  pub url : String
  pub secret : String
  pub ttl : Ttl

unfoldable pub refresh_before : Env → Ttl → Option ℕ
refresh_before env forever = none
refresh_before env unset = some (env.now + 2_592_000_000)
refresh_before env (ms n) = some (env.now + max 60_000 n)

-- The earlier row of the same identity was verified within five minutes with the same secret.
unfoldable pub cache_hit : Env → String → Option EventSubscription → Bool
cache_hit env secret none = false
cache_hit env secret (some prior) =
    not prior.disabled
    && prior.secret == secret
    && ltb env.now (get_or_else prior.verified_at 0 + 300_000)

abbrev created : Env → Option EventSubscription → ℕ
created env none = env.now
created env (some prior) = prior.created_at

-- The secret that still signs beside the new one, and until when.
unfoldable pub previous : Env → String → Option EventSubscription → Option String × Option ℕ
previous env secret none = (none, none)
previous env secret (some prior) =
    if not (prior.secret == "") && not (prior.secret == secret)
    then (some prior.secret, some (env.now + 300_000))
    else if truthy prior.previous_secret && ltb env.now (get_or_else prior.previous_secret_until 0)
    then (prior.previous_secret, prior.previous_secret_until)
    else (none, none)

abbrev pub verified : Env → String → Option EventSubscription → Option ℕ
verified env secret none = some env.now
verified env secret (some prior) =
    if cache_hit env secret (some prior) then prior.verified_at else some env.now

unfoldable pub candidate :
    Env → String → String → String → SubscribeRequest → Option EventSubscription → EventSubscription
candidate env owner id topic r prior = record {
  id = id;
  owner = owner;
  name = r.name;
  topic = topic;
  url = r.url;
  secret = r.secret;
  created_at = created env prior;
  updated_at = env.now;
  refresh_before = refresh_before env r.ttl;
  verified_at = verified env r.secret prior;
  previous_secret = (previous env r.secret prior).0;
  previous_secret_until = (previous env r.secret prior).1;
  disabled = false;
}

-- What the callback's owner and the other calls do while `subscribe` waits: whether the address
-- passes `validateCallback`, the answer to the challenge, and the store after each wait.
pub data Answer : Type 0 where
  timed_out not_ok malformed : Answer
  echoed : String → Answer

pub record Exchange : Type 0 where
  pub valid_url : Bool
  pub after_check : Db → Db
  pub challenge : String
  pub answer : Answer
  pub after_challenge : Db → Db

unfoldable pub check_answer : String → Answer → Result (Unit {0})
check_answer challenge timed_out = err "timeout"
check_answer challenge not_ok = err "challenge_failed"
check_answer challenge malformed = err "challenge_failed"
check_answer challenge (echoed text) = raise_if (not (challenge == text)) "challenge_failed"

abbrev pub cancel_epoch : String → Db → ℕ
cancel_epoch id db = get_or_else (get id db.cancel_epochs) 0

unfoldable pub commit_subscription : ℕ → EventSubscription → Db → Result Db
commit_subscription epoch sub db = do
  raise_if (not (nat_eq (cancel_epoch sub.id db) epoch))
      "subscription_cancelled_during_verification"
  ok (record db { subscriptions = put sub.id sub db.subscriptions })

-- After the address was checked: the challenge, unless a recent one answers for it, and the write.
unfoldable pub verify_and_commit :
    Env
    → String
    → String
    → String
    → SubscribeRequest
    → Exchange
    → ℕ
    → Db
    → Result (EventSubscription × Db)
verify_and_commit env owner id topic r x epoch db1 =
    let prior = get id db1.subscriptions in
    let hit = cache_hit env r.secret prior in
    do
      if hit then ok tt else check_answer x.challenge x.answer
      let sub = candidate env owner id topic r prior
      db ← commit_subscription epoch sub (if hit then db1 else x.after_challenge db1)
      ok (sub, db)

unfoldable pub subscribe :
    Env → String → SubscribeRequest → Exchange → Db → Result (EventSubscription × Db)
subscribe env owner r x db = do
  topic ← topic_args r.name r.args
  raise_if (not (r.mode == "webhook")) "unsupported_delivery"
  validate_secret r.secret
  let id = identity env owner r.url r.name topic
  raise_if (not x.valid_url) "invalid_url"
  verify_and_commit env owner id topic r x (cancel_epoch id db) (x.after_check db)

abbrev pub is_open : DeliveryState → Bool
is_open DeliveryState.pending = true
is_open DeliveryState.sending = true
is_open _ = false

unfoldable pub cancel_one : String → OutboxDelivery → Db → Db
cancel_one id d db =
    if d.subscription_id == id && is_open d.state
    then record db { outbox = put d.key (record d { state = DeliveryState.cancelled }) db.outbox }
    else db

-- The loop over the outbox in `unsubscribe`.
unfoldable pub cancel_open : String → List OutboxDelivery → Db → Db
cancel_open id [] db = db
cancel_open id (d ∷ ds) db = cancel_open id ds (cancel_one id d db)

-- The transaction of `unsubscribe`.
unfoldable pub drop_subscription : String → Db → Db
drop_subscription id db =
    let db' = record db {
      cancel_epochs = put id (cancel_epoch id db + 1) db.cancel_epochs;
      subscriptions = remove id db.subscriptions;
    } in
    cancel_open id (all db'.outbox) db'

unfoldable pub unsubscribe : Env → String → String → Fields → String → String → Db → Result Db
unsubscribe env owner name args mode url db = do
  topic ← topic_args name args
  raise_if (not (mode == "webhook")) "unsupported_delivery"
  ok (drop_subscription (identity env owner url name topic) db)
