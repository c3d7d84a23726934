-- ===== src/LocalChat/Recover.antt =====
-- What is read back from a chat (src/local-chat-continuation.ts, `releaseCompletedTarget`,
-- `submissionSnapshot`, `recover`, `settle`), and `dispatch` as a whole.
use chatgpt_web_agent.Base.{
  ℕ, suc, String, Bool, true, false, not, ◌&&◌, Option, none, some, List, [], ◌∷◌, ◌==◌, ltb,
  if◌then◌else◌, Result, ok, err, raise_if, ◌>>=◌, ◌>>◌,
}
use chatgpt_web_agent.Base.Table.{Table, get, any}
use chatgpt_web_agent.Json.{Json, undefined, Fields, str, bool, lookup_field}
use chatgpt_web_agent.State.{Env}
use chatgpt_web_agent.LocalChat.{
  LocalChatRoute, DeliveryState, LocalDelivery, Phase, Target, Store, route_hash, get_delivery,
  save_delivery, same, messages_of, conversation_of, inspect_local_chat, receipt_metadata,
  set_phase, delete_targets, prompt, Paths,
}
use chatgpt_web_agent.LocalChat.Inbox.{is_pending}
use chatgpt_web_agent.LocalChat.Dispatch.{is_settled, is_submitted, acquire}
use chatgpt_web_agent.LocalChat.Sending.{Exchange, dispatch_acquired}

-- What is outside while a chat is read: `bridge.get` for the thread, by the number of messages and
-- whether tools are shown, `err` where it throws; and what other calls do to the store until the
-- reads have ended.
pub record Reader : Type 0 where
  pub read : ℕ → Bool → Result Fields
  pub meanwhile : Store → Store

abbrev pub is_sent_message : Json → Fields → Bool
is_sent_message id m = same (lookup_field "id" m) id && same (lookup_field "role" m) (str "user")

unfoldable pub snapshot_again : Reader → Json → Fields → Result Fields
snapshot_again reader id fresh =
    if same (lookup_field "truncated" fresh) (bool true)
      && not (any (is_sent_message id) (messages_of fresh))
    then reader.read 500 false
    else ok fresh

unfoldable pub submission_snapshot : Reader → Json → Result Fields
submission_snapshot reader id = do fresh ← reader.read 200 true; snapshot_again reader id fresh

-- `findIndex`; `none` stands for -1.
unfoldable pub find_index : (Fields → Bool) → List Fields → Option ℕ
find_index p [] = none
find_index p (m ∷ ms) =
    if p m then some 0 else elim (find_index p ms) [ none ↦ none | some n ↦ some (suc n) ]

abbrev pub comes_later : Option ℕ → Option ℕ → Bool
comes_later (some user) (some final) = ltb user final
comes_later _ _ = false

-- The message that was sent is there, and the conversation's last one comes after it.
abbrev pub is_answered : Json → Fields → Bool
is_answered id fresh = comes_later (find_index (is_sent_message id) (messages_of fresh)) (
    find_index
      (λ m. same (lookup_field "id" m) (lookup_field "current_node" (conversation_of fresh)))
      (messages_of fresh))

abbrev pub message_id : Option Fields → Json
message_id none = undefined
message_id (some receipt) = lookup_field "message_id" receipt

abbrev pub is_submitted_lock : Phase → Bool
is_submitted_lock Phase.submitted = true
is_submitted_lock _ = false

-- Why the lock is kept, or the store without it.
unfoldable pub release_on : String → Target → Json → Result Fields → Store → Option String × Store
release_on thread_id lock id (err _) st = (some "preflight_unavailable", st)
release_on thread_id lock id (ok fresh) st =
    let status = inspect_local_chat fresh thread_id in
    if not (status == "idle")
    then (some status, st)
    else if not (is_answered id fresh)
    then (some "submitted_turn_not_observed_complete", st)
    else (
      none,
      record st {
        targets =
            delete_targets (λ t. t.token == lock.token && is_submitted_lock t.phase) st.targets;
      },
    )

unfoldable pub release_lock :
    Reader → String → Option Target → Store → Result (Option String × Store)
release_lock reader thread_id none st = ok (none, st)
release_lock reader thread_id (some lock) st =
    if not (is_submitted_lock lock.phase) then ok (none, st) else do
      previous ← get_delivery lock.delivery_key st
      let id = message_id previous.receipt
      ok (release_on thread_id lock id (submission_snapshot reader id) (reader.meanwhile st))

-- `releaseCompletedTarget`
unfoldable pub release_completed_target :
    Reader → LocalDelivery → Store → Result (Option String × Store)
release_completed_target reader row st =
    release_lock reader row.route.thread_id (get row.route.thread_id st.targets) st

abbrev is_recoverable : DeliveryState → Bool
is_recoverable DeliveryState.held = true
is_recoverable DeliveryState.sending = true
is_recoverable _ = false

abbrev pub recovered_row : Fields → LocalDelivery → LocalDelivery
recovered_row evidence row = record row {
  state = DeliveryState.submitted;
  reason = "exact_message_recovered";
  receipt = some (receipt_metadata evidence);
}

-- The transaction of `recover`.
unfoldable pub commit_recovery : Env → String → Fields → Store → Result (LocalDelivery × Store)
commit_recovery env key evidence st = do
  current ← get_delivery key st
  if not (is_recoverable current.state)
      then ok (current, st)
      else (let st' = save_delivery env (recovered_row evidence current) st in
          ok (
            record (recovered_row evidence current) { updated_at = env.now },
            record st' {
              targets = set_phase Phase.submitted (λ t. t.delivery_key == key) st'.targets;
            },
          ))

-- The exact message: its id and its text.
abbrev pub is_exact : Json → LocalDelivery → Fields → Bool
is_exact id row m =
    same (lookup_field "role" m) (str "user")
    && same (lookup_field "id" m) id
    && same (lookup_field "text" m) (str (prompt row))

abbrev pub is_text_value : Json → Bool
is_text_value (str _) = true
is_text_value _ = false

unfoldable pub recover_with :
    Env → Reader → String → LocalDelivery → Fields → Store → Result (LocalDelivery × Store)
recover_with env reader key row evidence st = do
  fresh ← submission_snapshot reader (lookup_field "message_id" evidence)
  raise_if (not (same (lookup_field "id" (conversation_of fresh)) (str row.route.thread_id)))
      "recovery_target_mismatch"
  if any (is_exact (lookup_field "message_id" evidence) row) (messages_of fresh)
      then commit_recovery env key evidence (reader.meanwhile st)
      else ok (row, reader.meanwhile st)

-- The saved receipt, where it names a message; else the bridge's evidence for this thread.
unfoldable pub evidence_for : LocalDelivery → Option Fields → Option Fields
evidence_for row found =
    if is_text_value (message_id row.receipt) then row.receipt else elim found [
      | none ↦ none
      | some e ↦
          if same (lookup_field "thread_id" e) (str row.route.thread_id)
            && is_text_value (lookup_field "message_id" e)
          then some e
          else none
    ]

unfoldable pub recover_by :
    Env → Reader → String → LocalDelivery → Option Fields → Store → Result (LocalDelivery × Store)
recover_by env reader key row none st = ok (row, reader.meanwhile st)
recover_by env reader key row (some evidence) st = recover_with env reader key row evidence st

-- `found` is what `bridge.submissionEvidence` returns.
unfoldable pub recover :
    Env → Reader → Option Fields → String → Store → Result (LocalDelivery × Store)
recover env reader found key st = do
  row ← get_delivery key st
  if not (is_recoverable row.state)
      then ok (row, st)
      else recover_by env reader key row (evidence_for row found) st

abbrev owned_by : String → Option Target → Bool
owned_by key none = false
owned_by key (some lock) = lock.delivery_key == key

abbrev observation : Option String → String
observation none = "submitted_turn_observed_complete"
observation (some deferred) = deferred

unfoldable pub settle : Reader → String → Store → Result ((LocalDelivery × String) × Store)
settle reader key st = do
  row ← get_delivery key st
  if not (is_submitted row.state)
      then ok ((row, "not_submitted"), st)
      else if not (owned_by key (get row.route.thread_id st.targets))
      then ok ((row, "no_owned_target_lock"), st)
      else do
        (deferred, st') ← release_completed_target reader row st
        row' ← get_delivery key st'
        ok ((row', observation deferred), st')

abbrev route_unchanged : Env → LocalDelivery → Option LocalChatRoute → Bool
route_unchanged env row none = false
route_unchanged env row (some route) = route.enabled && route_hash env route == row.route_hash

unfoldable pub defer : Env → String → String → Store → Result (LocalDelivery × Store)
defer env key reason st = do
  actual ← get_delivery key st
  ok (
      if is_pending actual.state
      then (
        record actual { reason = reason; updated_at = env.now },
        save_delivery env (record actual { reason = reason }) st,
      )
      else (actual, st))

unfoldable pub acquire_and_send :
    Env
    → Paths
    → Table LocalChatRoute
    → Exchange
    → String
    → String
    → Store
    → Result (LocalDelivery × Store)
acquire_and_send env paths routes x key token st = do
  acquired ← acquire env routes token key st
  dispatch_acquired paths x key token acquired

unfoldable pub after_release :
    Env
    → Paths
    → Table LocalChatRoute
    → Exchange
    → String
    → String
    → Option String × Store
    → Result (LocalDelivery × Store)
after_release env paths routes x key token (some reason, st) = defer env key reason st
after_release env paths routes x key token (none, st) =
    acquire_and_send env paths routes x key token st

-- `token` is the random token of this call, `reader` the chat as `releaseCompletedTarget` sees it.
unfoldable pub dispatch :
    Env
    → Paths
    → Table LocalChatRoute
    → Reader
    → Exchange
    → String
    → String
    → Store
    → Result (LocalDelivery × Store)
dispatch env paths routes reader x key token st = do
  initial ← get_delivery key st
  if is_settled initial.state
      then ok (initial, st)
      else if route_unchanged env initial (get initial.route_key routes)
      then (do
        released ← release_completed_target reader initial st
        after_release env paths routes x key token released)
      else acquire_and_send env paths routes x key token st
