-- ===== src/LocalChat/Sending.antt =====
-- Sending a delivery (src/local-chat-continuation.ts, `dispatch`): what the answer of the bridge
-- means, and the order of the transactions.
use chatgpt_web_agent.Base.{
  ℕ, ◌+◌, ◌*◌, ◌^◌, min, String, Bool, true, false, not, ◌&&◌, ◌||◌, Option, none, some, ◌==◌, leb,
  if◌then◌else◌, Result, ok, err, ◌>>=◌,
}
use chatgpt_web_agent.Json.{Json, Fields, field, end, str, bool, lookup_field}
use chatgpt_web_agent.State.{Env}
use chatgpt_web_agent.LocalChat.{
  DeliveryState, LocalDelivery, Store, get_delivery, same, inspect_local_chat, Paths,
  checked_state_ref,
}
use chatgpt_web_agent.LocalChat.Dispatch.{Acquired, Ending, begin_send, finish_locked}

abbrev is_id : Json → Bool
is_id (str s) = not (s == "")
is_id _ = false

abbrev pub is_committed : String → Fields → Bool
is_committed thread_id receipt =
    (same (lookup_field "operation_outcome" receipt) (str "committed")
      || same (lookup_field "operation_outcome" receipt) (str "committed_recovered"))
    && same (lookup_field "thread_id" receipt) (str thread_id)
    && is_id (lookup_field "message_id" receipt)

-- The bridge says for certain that nothing was sent.
abbrev pub is_not_started : Fields → Bool
is_not_started receipt =
    same (lookup_field "operation_outcome" receipt) (str "not_started")
    && same (lookup_field "safe_to_resubmit" receipt) (bool true)

abbrev text_of : Json → String
text_of (str s) = s
text_of _ = ""

abbrev pub error_receipt : String → Option Fields
error_receipt message = some (field "last_error" (str message) end)

-- What becomes of a delivery after the call of `bridge.send`: `inl` the text of what it threw.
-- `attempts` are those that are stored by then.
unfoldable pub ending_of : Env → String → ℕ → Result Fields → Ending
ending_of env thread_id attempts (err message) = record {
  state = DeliveryState.held;
  reason = "submit_result_unknown";
  receipt = error_receipt message;
  retry_at = 0;
  retain_lock = true;
}
ending_of env thread_id attempts (ok receipt) =
    if is_committed thread_id receipt
    then record {
      state = DeliveryState.submitted;
      reason = text_of (lookup_field "operation_outcome" receipt);
      receipt = some receipt;
      retry_at = 0;
      retain_lock = true;
    }
    else if is_not_started receipt
    then record {
      state = if leb 6 attempts then DeliveryState.held else DeliveryState.pending;
      reason = if leb 6 attempts then "not_started_retry_budget_exhausted" else "not_started";
      receipt = some receipt;
      retry_at = env.now + min 60_000 (1000 * 2 ^ attempts);
      retain_lock = false;
    }
    else record {
      state = DeliveryState.held;
      reason = "submit_result_unknown";
      receipt = some receipt;
      retry_at = 0;
      retain_lock = true;
    }

abbrev pub deferred_ending : String → Option Fields → ℕ → Ending
deferred_ending reason receipt retry_at = record {
  state = DeliveryState.pending;
  reason = reason;
  receipt = receipt;
  retry_at = retry_at;
  retain_lock = false;
}

unfoldable pub attempts_of : String → Store → Result ℕ
attempts_of key st = do row ← get_delivery key st; ok row.attempts

-- What is outside: the chat before sending and the answer of the send, `err` the text of what was
-- thrown; the clock at each of the three last transactions; and what other calls do in between.
pub record Exchange : Type 0 where
  pub snapshot : Result Fields
  pub answer : Result Fields
  pub checked : Env
  pub sent : Env
  pub answered : Env
  pub before_check : Store → Store
  pub before_send : Store → Store
  pub before_answer : Store → Store

unfoldable pub send :
    Exchange → String → String → LocalDelivery → Store → Result (LocalDelivery × Store)
send x key token row st = do
  st1 ← begin_send x.sent key token row.route.thread_id (x.before_send st)
  let st2 = x.before_answer st1
  attempts ← attempts_of key st2
  finish_locked x.answered key token (ending_of x.answered row.route.thread_id attempts x.answer)
      st2

abbrev state_ref_holds : Paths → LocalDelivery → Option String → Result (Unit {0})
state_ref_holds paths row none = ok tt
state_ref_holds paths row (some value) =
    if value == "" then ok tt else do _ ← checked_state_ref paths value row.route.state_root; ok tt

unfoldable pub check_state_ref :
    Exchange
    → Result (Unit {0})
    → String
    → String
    → LocalDelivery
    → Store
    → Result (LocalDelivery × Store)
check_state_ref x (ok _) key token row st = send x key token row st
check_state_ref x (err _) key token row st =
    finish_locked x.checked key token (deferred_ending "state_ref_changed" none 0) st

unfoldable pub check_target :
    Paths
    → Exchange
    → Result Fields
    → String
    → String
    → LocalDelivery
    → Store
    → Result (LocalDelivery × Store)
check_target paths x (err message) key token row st =
    finish_locked x.checked key token
      (deferred_ending "preflight_unavailable" (error_receipt message) (x.checked.now + 30_000)) st
check_target paths x (ok fresh) key token row st =
    let status = inspect_local_chat fresh row.route.thread_id in
    if not (status == "idle")
    then finish_locked x.checked key token (deferred_ending status none 0) st
    else check_state_ref x (state_ref_holds paths row row.event.state_ref) key token row st

-- `dispatch` from the transaction that takes the lock.
unfoldable pub dispatch_acquired :
    Paths → Exchange → String → String → Acquired → Result (LocalDelivery × Store)
dispatch_acquired paths x key token ((row, false), st) = ok (row, st)
dispatch_acquired paths x key token ((row, true), st) =
    check_target paths x x.snapshot key token row (x.before_check st)
