-- ===== src/Tests/LocalChat.antt =====
-- Runs of the local chat's dispatch.
use chatgpt_web_agent.Base.{◌<◌, true, false, none, [], ◌∷◌, ◌≡◌, refl, Result, ok, err}
use chatgpt_web_agent.Base.Table.{get, put}
use chatgpt_web_agent.Json.{Fields, field, end, str, bool, lookup_field}
use chatgpt_web_agent.LocalChat.{
  LocalChatRoute, LocalChatEvent, DeliveryState, LocalDelivery, Phase, Target, Store, get_delivery,
  save_delivery, set_phase, Paths,
}
use chatgpt_web_agent.LocalChat.Dispatch.{Acquired, acquire, acquire_row, acquire_route, begin_send}
use chatgpt_web_agent.LocalChat.Sending.{Exchange, ending_of, is_not_started, is_committed}
use chatgpt_web_agent.LocalChat.Recover.{Reader, after_release, acquire_and_send, dispatch}
use chatgpt_web_agent.LocalChat.Safety.{
  NotTaken, begin_send-exclusive, ending-pending, settled-dispatch,
}
use chatgpt_web_agent.Tests.Data.{env, env_at}

abbrev route : LocalChatRoute
route = record {
  key = "r";
  topic = "t";
  thread_id = "th";
  model = "m";
  thinking = "high";
  prompt = "go";
  enabled = true;
  state_root = "/s";
}

abbrev event : LocalChatEvent
event = record { id = "e"; route = "r"; topic = "t"; source = "x"; reason = none; state_ref = none }

abbrev row : LocalDelivery
row = record {
  key = "k";
  route_key = "r";
  route_hash = "h";
  event_hash = "h";
  route = route;
  event = event;
  state = DeliveryState.checking;
  reason = "checking_target";
  attempts = 0;
  retry_at = 0;
  created_at = 1;
  updated_at = 1;
  request_id = "local-event-k";
  receipt = none;
  prior_receipts = [];
}

abbrev other : LocalDelivery
other = record row { key = "k2"; state = DeliveryState.pending }

abbrev lock : Target
lock = record { delivery_key = "k"; token = "tok"; phase = Phase.checking; acquired_at = 900 }

abbrev store : Store
store = record { deliveries = ("k", row) ∷ ("k2", other) ∷ []; targets = ("th", lock) ∷ [] }

abbrev store_after : Result Store → Store
store_after (ok st) = st
store_after (err e) = store

abbrev sending_store : Store
sending_store = store_after (begin_send env "k" "tok" "th" store)

abbrev refused : Acquired
refused = (
  (record other { reason = "route_paused"; updated_at = 900_000 }, false),
  record sending_store {
    deliveries =
        put "k2" (record other { reason = "route_paused"; updated_at = 900_000 })
          sending_store.deliveries;
  },
)

-- Long after, another delivery of the same chat asks for it.
begin_send-exclusive_example : NotTaken sending_store refused
unfolding begin_send get get_delivery save_delivery put set_phase acquire acquire_row acquire_route
begin_send-exclusive_example =
    begin_send-exclusive env (env_at 900_000) "k" "k2" "tok" "tok2" [] store sending_store other
      refused refl refl refl

abbrev not_started : Fields
not_started =
    field "operation_outcome" (str "not_started") (field "safe_to_resubmit" (bool true) end)

ending-pending_example :
    (receipt : Fields) × (ok not_started ≡ ok receipt)
    × (is_not_started receipt ≡ true)
    × (is_committed "th" receipt ≡ false)
    × (1 < 6)
unfolding ending_of lookup_field
ending-pending_example = ending-pending env "th" 1 (ok not_started) refl

abbrev held : LocalDelivery
held = record row { state = DeliveryState.held }

abbrev held_store : Store
held_store = record store { deliveries = ("k", held) ∷ [] }

abbrev paths : Paths
paths = record { is_absolute = λ p. true; canonical = λ p. ok p }

abbrev read : Reader
read = record { read = λ n tools. err "offline"; meanwhile = λ st. st }

abbrev exchange : Exchange
exchange = record {
  snapshot = err "offline";
  answer = err "offline";
  checked = env;
  sent = env;
  answered = env;
  before_check = λ st. st;
  before_send = λ st. st;
  before_answer = λ st. st;
}

settled-dispatch_example :
    (dispatch env paths [] read exchange "k" "tok" held_store ≡ ok (held, held_store))
    × (after_release env paths [] exchange "k" "tok" (none, held_store) ≡ ok (held, held_store))
    × (acquire_and_send env paths [] exchange "k" "tok" held_store ≡ ok (held, held_store))
unfolding get
settled-dispatch_example =
    settled-dispatch env paths [] read exchange "k" "tok" none held_store held refl refl
