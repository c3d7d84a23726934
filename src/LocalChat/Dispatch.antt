-- ===== src/LocalChat/Dispatch.antt =====
-- The transactions of a dispatch (src/local-chat-continuation.ts, `dispatch`, `finishLocked`): taking
-- the lock of a chat, beginning to send, and ending.
use chatgpt_web_agent.Base.{
  ℕ, zero, suc, ◌+◌, String, Bool, true, false, not, ◌&&◌, Option, none, some, List, [], ◌∷◌, ◌++◌,
  length, ◌-◌, ◌==◌, ltb, if◌then◌else◌, Result, ok, raise_if, ◌>>=◌, ◌>>◌,
}
use chatgpt_web_agent.Base.Table.{Table, get, put, remove}
use chatgpt_web_agent.Json.{Fields}
use chatgpt_web_agent.State.{Env}
use chatgpt_web_agent.LocalChat.{
  LocalChatRoute, DeliveryState, LocalDelivery, Phase, Target, Store, route_hash, get_delivery,
  save_delivery, receipt_metadata, set_phase, delete_targets,
}

-- `submitted`, `cancelled`, `held` or `sending`: nothing is sent for it.
abbrev pub is_settled : DeliveryState → Bool
is_settled DeliveryState.pending = false
is_settled DeliveryState.checking = false
is_settled _ = true

abbrev pub is_checking : Phase → Bool
is_checking Phase.checking = true
is_checking _ = false

abbrev pub is_submitted : DeliveryState → Bool
is_submitted DeliveryState.submitted = true
is_submitted _ = false

abbrev pub Acquired : Type 0
Acquired = (LocalDelivery × Bool) × Store

-- The row with a reason, saved; the lock is not taken.
abbrev pub declined : Env → String → LocalDelivery → Store → Acquired
declined env reason row st = (
  (record row { reason = reason; updated_at = env.now }, false),
  save_delivery env (record row { reason = reason }) st,
)

abbrev checking_row : Env → LocalDelivery → LocalDelivery
checking_row env row = record row {
  state = DeliveryState.checking;
  reason = "checking_target";
  updated_at = env.now;
}

-- The lock of the thread, for `token`.
abbrev pub take_lock : Env → String → LocalDelivery → Store → Acquired
take_lock env token row st =
    let st' = save_delivery env (checking_row env row) st in
    (
      (checking_row env row, true),
      record st' {
        targets =
            put row.route.thread_id
              (record {
                delivery_key = row.key;
                token = token;
                phase = Phase.checking;
                acquired_at = env.now;
              })
              st'.targets;
      },
    )

-- Only a lock of the phase `checking` that is older than five minutes is taken over.
unfoldable pub acquire_over : Env → String → LocalDelivery → Option Target → Store → Acquired
acquire_over env token row none st = take_lock env token row st
acquire_over env token row (some lock) st =
    if is_checking lock.phase && ltb (lock.acquired_at + 300_000) env.now
    then take_lock env token row (record st { targets = remove row.route.thread_id st.targets })
    else declined env "target_locked" row st

unfoldable pub acquire_route :
    Env → String → LocalDelivery → Option LocalChatRoute → Store → Acquired
acquire_route env token row none st = declined env "route_paused" row st
acquire_route env token row (some route) st =
    if not route.enabled
    then declined env "route_paused" row st
    else if not (route_hash env route == row.route_hash)
    then declined env "route_changed" row st
    else if ltb env.now row.retry_at
    then ((row, false), st)
    else acquire_over env token row (get row.route.thread_id st.targets) st

unfoldable pub acquire_row : Env → Table LocalChatRoute → String → LocalDelivery → Store → Acquired
acquire_row env routes token row st =
    if is_settled row.state
    then ((row, false), st)
    else acquire_route env token row (get row.route_key routes) st

-- The first transaction of `dispatch`.
unfoldable pub acquire : Env → Table LocalChatRoute → String → String → Store → Result Acquired
acquire env routes token key st = do
  row ← get_delivery key st
  ok (acquire_row env routes token row st)

abbrev pub owns : String → String → Option Target → Bool
owns key token none = false
owns key token (some lock) = lock.token == token && lock.delivery_key == key

-- `finishLocked`'s arguments
pub record Ending : Type 0 where
  pub state : DeliveryState
  pub reason : String
  pub receipt : Option Fields
  pub retry_at : ℕ
  pub retain_lock : Bool

abbrev kept_receipt : Option Fields → Option Fields → Option Fields
kept_receipt none old = old
kept_receipt (some r) old = some (receipt_metadata r)

abbrev pub ended_row : Env → Ending → LocalDelivery → LocalDelivery
ended_row env e row = record row {
  state = e.state;
  reason = e.reason;
  retry_at = e.retry_at;
  receipt = kept_receipt e.receipt row.receipt;
  updated_at = env.now;
}

unfoldable pub end_lock : String → Ending → Table Target → Table Target
end_lock token e targets =
    if not e.retain_lock
    then delete_targets (λ t. t.token == token) targets
    else if is_submitted e.state
    then set_phase Phase.submitted (λ t. t.token == token) targets
    else targets

unfoldable pub finish_locked :
    Env → String → String → Ending → Store → Result (LocalDelivery × Store)
finish_locked env key token e st = do
  row ← get_delivery key st
  raise_if (not (owns key token (get row.route.thread_id st.targets))) "dispatch_lock_lost"
  let st' = save_delivery env (ended_row env e row) st
  ok (ended_row env e row, record st' { targets = end_lock token e st'.targets })

abbrev pub token_is : String → Option Target → Bool
token_is token none = false
token_is token (some lock) = lock.token == token

-- `list.slice(-6)`
abbrev last_six : List Fields → List Fields
last_six rs = drop (length rs - 6) rs
  where
    drop : ℕ → List Fields → List Fields
    drop n [] = []
    drop zero (x ∷ xs) = x ∷ xs
    drop (suc n) (x ∷ xs) = drop n xs

abbrev with_prior : Option Fields → List Fields → List Fields
with_prior none prior = prior
with_prior (some r) prior = last_six (prior ++ (r ∷ []))

abbrev pub sending_row : LocalDelivery → LocalDelivery
sending_row row = record row {
  state = DeliveryState.sending;
  reason = "awaiting_submit_receipt";
  prior_receipts = with_prior row.receipt row.prior_receipts;
  receipt = none;
  attempts = row.attempts + 1;
}

-- The boundary of the side effect, saved before the bridge is called.
unfoldable pub begin_send : Env → String → String → String → Store → Result Store
begin_send env key token thread_id st = do
  raise_if (not (token_is token (get thread_id st.targets))) "dispatch_lock_lost"
  actual ← get_delivery key st
  let st' = save_delivery env (sending_row actual) st
  ok (record st' { targets = set_phase Phase.sending (λ t. t.token == token) st'.targets })
