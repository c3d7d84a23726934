-- ===== src/LocalChat/Inbox.antt =====
-- Putting an event into the inbox and taking it out again (src/local-chat-continuation.ts,
-- `enqueue`, `cancelPending`). The event is the one that `LocalChatEventSchema` has parsed.
use chatgpt_web_agent.Base.{
  String, ◌<>◌, Bool, true, false, not, Option, none, some, [], ◌==◌, if◌then◌else◌, Result, ok,
  err, raise_if, or_raise, ◌>>=◌, ◌>>◌,
}
use chatgpt_web_agent.Base.Table.{Table, get, put, any, values}
use chatgpt_web_agent.Json.{str, arr, cons, nil}
use chatgpt_web_agent.State.{Env}
use chatgpt_web_agent.LocalChat.{
  LocalChatRoute, LocalChatEvent, DeliveryState, LocalDelivery, Store, local_event_hash, route_hash,
  event_json, get_delivery, save_delivery, Paths, checked_state_ref,
}

abbrev pub new_row : Env → String → LocalChatRoute → LocalChatEvent → LocalDelivery
new_row env key route event = record {
  key = key;
  route_key = route.key;
  route_hash = route_hash env route;
  event_hash = local_event_hash env (event_json event);
  route = route;
  event = event;
  state = DeliveryState.pending;
  reason = "enqueued";
  attempts = 0;
  retry_at = 0;
  created_at = env.now;
  updated_at = env.now;
  request_id = "local-event-" <> key;
  receipt = none;
  prior_receipts = [];
}

-- The delivery, and whether it was there before.
unfoldable pub enqueue_found :
    Env
    → String
    → LocalChatRoute
    → LocalChatEvent
    → Option LocalDelivery
    → Store
    → Result ((Bool × LocalDelivery) × Store)
enqueue_found env key route event (some old) st =
    if not (old.event_hash == local_event_hash env (event_json event))
    then err "event_id_payload_conflict"
    else ok ((true, old), st)
enqueue_found env key route event none st =
    let row = new_row env key route event in
    ok ((false, row), record st { deliveries = put key row st.deliveries })

abbrev pub delivery_key : Env → LocalChatRoute → LocalChatEvent → String
delivery_key env route event =
    local_event_hash env (arr (cons (str route.key) (cons (str event.id) nil)))

-- `event.stateRef` is replaced by its real path.
unfoldable pub with_state_ref :
    Paths → LocalChatRoute → LocalChatEvent → Option String → Result LocalChatEvent
with_state_ref paths route event none = ok event
with_state_ref paths route event (some value) = if value == "" then ok event else do
  ref ← checked_state_ref paths value route.state_root
  ok (record event { state_ref = some ref })

unfoldable pub enqueue :
    Env
    → Paths
    → Table LocalChatRoute
    → LocalChatEvent
    → Store
    → Result ((Bool × LocalDelivery) × Store)
enqueue env paths routes input st = do
  route ← or_raise (get input.route routes) "route_not_enabled"
  raise_if (not route.enabled) "route_not_enabled"
  raise_if (not (input.topic == route.topic)) "topic_mismatch"
  event ← with_state_ref paths route input input.state_ref
  let key = delivery_key env route event
  enqueue_found env key route event (get key st.deliveries) st

abbrev pub is_pending : DeliveryState → Bool
is_pending DeliveryState.pending = true
is_pending _ = false

unfoldable pub cancel_pending : Env → String → Store → Result (LocalDelivery × Store)
cancel_pending env key st = do
  row ← get_delivery key st
  raise_if (not (is_pending row.state)) "only_pending_delivery_cancellable"
  raise_if (any (λ t. t.delivery_key == key) (values st.targets)) "delivery_still_locked"
  let row' = record row { state = DeliveryState.cancelled; reason = "operator_cancelled" }
  ok (record row' { updated_at = env.now }, save_delivery env row' st)
