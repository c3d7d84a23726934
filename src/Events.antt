-- ===== src/Events.antt =====
-- src/events.ts: subscriptions, and the outbox of continuation events. This file has the reads and
-- `enqueueContinue`; the children have subscribing, the delivery loop and the proofs.
pub mod Secret
pub mod Subscribe
pub mod Delivery
pub mod Outbox
pub mod Claims
pub mod Attempts
pub mod Cancellation
use Prim.Native.String.{len}
use chatgpt_web_agent.Base.{
  ℕ, String, ◌<>◌, js_length, Bool, true, not, ◌&&◌, ◌||◌, Option, none, some, List, [], ◌∷◌,
  length, Result, ok, err, raise_if, ◌>>=◌, ◌>>◌, ltb, leb, ◌==◌, truthy, opt_eq, get_or_else,
  if◌then◌else◌,
}
use chatgpt_web_agent.Base.Table.{get, put, all, select, recent}
use chatgpt_web_agent.Json.{
  Json, undefined, null, num, str, obj, end, field, stringify, canonical_json, lookup_field,
}
use chatgpt_web_agent.State.{Env, Db, EventSubscription, OutboxDelivery, pending}

abbrev pub continue_event_name : String
continue_event_name = "workflow.continue"

pub record ContinueEventData : Type 0 where
  pub topic : String
  pub trigger_reason : String
  pub summary : Option String
  pub state_ref : Option String
  pub source : Option String
  pub sequence : Option ℕ
  pub dispatch_id : Option String
  pub root_id : Option String
  pub source_task : Option String
  pub target_task : Option String
  pub progress_version : Option ℕ

-- `z.string().min(lo).max(hi)` and its optional form
abbrev pub text_within : ℕ → ℕ → String → Bool
text_within lo hi s = leb lo (js_length s) && leb (js_length s) hi

abbrev pub optional_within : ℕ → Option String → Bool
optional_within hi none = true
optional_within hi (some s) = leb (js_length s) hi

-- `dataSchema`; the message stands for zod's error
unfoldable pub validate_data : ContinueEventData → Result (Unit {0})
validate_data d =
    raise_if
      (not (
        text_within 1 200 d.topic
        && text_within 1 2000 d.trigger_reason
        && optional_within 8000 d.summary
        && optional_within 2000 d.state_ref
        && optional_within 200 d.source))
      "ZodError"

abbrev str_or_undefined : Option String → Json
str_or_undefined none = undefined
str_or_undefined (some s) = str s

abbrev num_or_undefined : Option ℕ → Json
num_or_undefined none = undefined
num_or_undefined (some n) = num n

-- The parsed event data, in the order of the schema's keys.
unfoldable pub data_json : ContinueEventData → Json
data_json d = obj (
    field "topic" (str d.topic) (
      field "trigger_reason" (str d.trigger_reason) (
        field "summary" (str_or_undefined d.summary) (
          field "state_ref" (str_or_undefined d.state_ref) (
            field "source" (str_or_undefined d.source) (
              field "sequence" (num_or_undefined d.sequence) (
                field "dispatch_id" (str_or_undefined d.dispatch_id) (
                  field "root_id" (str_or_undefined d.root_id) (
                    field "source_task" (str_or_undefined d.source_task) (
                      field "target_task" (str_or_undefined d.target_task) (
                        field "progress_version" (num_or_undefined d.progress_version)
                          end)))))))))))

unfoldable pub event_body : Env → String → ContinueEventData → Json
event_body env event_id d = obj (
    field "eventId" (str event_id) (
      field "name" (str continue_event_name) (
        field "timestamp" (str (env.iso env.now))
          (field "data" (data_json d) (field "cursor" null end)))))

-- `JSON.parse(body).data`
unfoldable pub body_data : Json → Json
body_data (obj fs) = lookup_field "data" fs
body_data _ = undefined

abbrev pub unexpired : Env → Option ℕ → Bool
unexpired env none = true
unexpired env (some t) = ltb env.now t

-- `active`
abbrev pub is_active : Env → EventSubscription → Bool
is_active env sub = not sub.disabled && unexpired env sub.refresh_before

-- `activeSubscriptions`
unfoldable pub active_subscriptions : Env → String → String → Db → List EventSubscription
active_subscriptions env topic owner db =
    select (λ s. s.owner == owner && s.topic == topic && is_active env s) (all db.subscriptions)

pub record EnqueueOptions : Type 0 where
  pub event_id : Option String
  pub subscription_id : Option String
  pub owner : Option String

-- `!wanted || actual === wanted`
abbrev pub unless_wanted : Option String → String → Bool
unless_wanted wanted actual = not (truthy wanted) || opt_eq (some actual) wanted

abbrev matches : Env → ContinueEventData → EnqueueOptions → EventSubscription → Bool
matches env d o s =
    is_active env s
    && s.topic == d.topic
    && unless_wanted o.subscription_id s.id
    && unless_wanted o.owner s.owner

abbrev new_delivery : Env → String → String → String → Json → OutboxDelivery
new_delivery env key event_id subscription_id body = record {
  key = key;
  event_id = event_id;
  subscription_id = subscription_id;
  body = body;
  state = pending;
  attempts = 0;
  next_attempt_at = env.now;
  claim_until = none;
  claim_id = none;
  ambiguous_attempts = none;
  status = none;
  error = none;
}

-- A delivery that is there already must carry the same data.
unfoldable pub enqueue_row :
    Env → String → Json → EventSubscription → Option OutboxDelivery → Db → Result Db
enqueue_row env event_id body sub none db =
    let key = event_id <> ":" <> sub.id in
    ok (record db { outbox = put key (new_delivery env key event_id sub.id body) db.outbox })
enqueue_row env event_id body sub (some existing) db =
    if canonical_json (body_data existing.body) == canonical_json (body_data body)
    then ok db
    else err "event_id_conflict"

-- One round of the loop over the matching subscriptions.
unfoldable pub enqueue_for : Env → String → Json → EventSubscription → Db → Result Db
enqueue_for env event_id body sub db =
    enqueue_row env event_id body sub (get (event_id <> ":" <> sub.id) db.outbox) db

unfoldable pub enqueue_each : Env → String → Json → List EventSubscription → Db → Result Db
enqueue_each env event_id body [] db = ok db
enqueue_each env event_id body (sub ∷ subs) db = do
  db' ← enqueue_for env event_id body sub db
  enqueue_each env event_id body subs db'

-- `enqueueContinue`: the event's id and the number of subscriptions that match. `uuid` is the
-- random id for an event that is given none.
unfoldable pub enqueue_continue :
    Env → String → ContinueEventData → EnqueueOptions → Db → Result ((String × ℕ) × Db)
enqueue_continue env uuid d o db = do
  validate_data d
  let event_id = get_or_else o.event_id ("evt_" <> uuid)
  let body = event_body env event_id d
  raise_if (ltb 262144 (len (stringify body))) "event_too_large"
  let subs = select (matches env d o) (all db.subscriptions)
  db' ← enqueue_each env event_id body subs db
  ok ((event_id, length subs), db')

-- `outboxSummary(eventId)`, whose rows leave out the body and the claim's id
unfoldable pub outbox_summary : String → Db → List OutboxDelivery
outbox_summary event_id db = recent 100 (λ d. d.event_id == event_id) db.outbox
