-- ===== src/LocalChat/Safety.antt =====
-- That an event is not sent twice (src/local-chat-continuation.ts): who holds a chat's lock, and
-- what may make a delivery due again.
use chatgpt_web_agent.Base.{
  ℕ, ◌+◌, ◌<◌, String, Bool, true, false, not, ◌&&◌, Option, none, some, [], ◌∷◌, ◌≡◌, refl, arith,
  if-cases, ◌==◌, ltb, leb, if◌then◌else◌, Result, ok, err, raise_if, Ensures, returns,
  Ensures-bind, Ensures-inv,
}
use chatgpt_web_agent.Base.Table.{Table, get}
use chatgpt_web_agent.Json.{Fields}
use chatgpt_web_agent.State.{Env}
use chatgpt_web_agent.LocalChat.{
  LocalChatRoute, DeliveryState, LocalDelivery, Phase, Target, Store, route_hash, get_delivery,
  save_delivery, set_phase, Paths,
}
use chatgpt_web_agent.LocalChat.Dispatch.{
  is_settled, is_checking, Acquired, declined, acquire_over, acquire_route, acquire_row, acquire,
  token_is, sending_row, begin_send, Ending,
}
use chatgpt_web_agent.LocalChat.Sending.{
  is_committed, is_not_started, ending_of, Exchange, dispatch_acquired,
}
use chatgpt_web_agent.LocalChat.Recover.{Reader, defer, after_release, acquire_and_send, dispatch}
use chatgpt_web_agent.LocalChat.Inbox.{is_pending}

save_delivery-targets :
    (env : Env) (row : LocalDelivery) (st : Store) → (save_delivery env row st).targets ≡ st.targets
unfolding save_delivery
save_delivery-targets env row st = ground arith

get-set_phase :
    (phase : Phase) (p : Target → Bool) (k : String) (lock : Target) (t : Table Target)
    → get k t ≡ some lock
    → p lock ≡ true
    → get k (set_phase phase p t) ≡ some (record lock { phase = phase })
unfolding get set_phase
get-set_phase phase p k lock [] e h = absurd (cc e)
get-set_phase phase p k lock ((j, v) ∷ t) e h = ground (arith, get-set_phase phase p k lock t)

-- The lock is not taken, and the locks are as before.
abbrev pub NotTaken : Store → Acquired → Type 0
NotTaken st r = (r.0.1 ≡ false) × (r.1.targets ≡ st.targets)

declined-NotTaken :
    (env : Env) (reason : String) (row : LocalDelivery) (st : Store)
    → NotTaken st (declined env reason row st)
declined-NotTaken env reason row st = (refl, save_delivery-targets env _ st)

module _ (env : Env) (token : String) (row : LocalDelivery) (lock : Target) (st : Store) where
  acquire_over-NotTaken :
      (found : Option Target)
      → found ≡ some lock
      → is_checking lock.phase ≡ false
      → NotTaken st (acquire_over env token row found st)
  unfolding acquire_over
  acquire_over-NotTaken none e h = absurd (cc e)
  acquire_over-NotTaken (some l) e h =
      if-cases (NotTaken st) (is_checking l.phase && ltb (l.acquired_at + 300_000) env.now) _ _
        (λ c. absurd (ground arith)) λ _. declined-NotTaken env "target_locked" row st

  acquire_route-NotTaken :
      (route : Option LocalChatRoute)
      → get row.route.thread_id st.targets ≡ some lock
      → is_checking lock.phase ≡ false
      → NotTaken st (acquire_route env token row route st)
  unfolding acquire_route
  acquire_route-NotTaken none e h = declined-NotTaken env "route_paused" row st
  acquire_route-NotTaken (some route) e h =
      if-cases (NotTaken st) (not route.enabled) _ _
        (λ _. declined-NotTaken env "route_paused" row st)
        λ _.
          if-cases (NotTaken st) (not (route_hash env route == row.route_hash)) _ _
            (λ _. declined-NotTaken env "route_changed" row st)
            λ _.
              if-cases (NotTaken st) (ltb env.now row.retry_at) _ _ (λ _. (refl, refl))
                λ _. acquire_over-NotTaken _ e h

  acquire_row-NotTaken :
      (routes : Table LocalChatRoute)
      → get row.route.thread_id st.targets ≡ some lock
      → is_checking lock.phase ≡ false
      → NotTaken st (acquire_row env routes token row st)
  unfolding acquire_row
  acquire_row-NotTaken routes e h =
      if-cases (NotTaken st) (is_settled row.state) _ _ (λ _. (refl, refl))
        λ _. acquire_route-NotTaken _ e h

get_delivery-get :
    (key : String) (st : Store) (row : LocalDelivery)
    → get key st.deliveries ≡ some row
    → get_delivery key st ≡ ok row
unfolding get_delivery
get_delivery-get key st row e = rw e refl

locked-acquire :
    (env : Env) (routes : Table LocalChatRoute) (token key : String) (row : LocalDelivery)
    (lock : Target) (st : Store)
    → get key st.deliveries ≡ some row
    → get row.route.thread_id st.targets ≡ some lock
    → is_checking lock.phase ≡ false
    → Ensures (NotTaken st) (acquire env routes token key st)
unfolding acquire
locked-acquire env routes token key row lock st e locked h =
    rw (get_delivery-get key st row e)
      (returns (acquire_row-NotTaken env token row lock st routes locked h))

-- The chat's lock is in the phase `sending`.
abbrev IsSending : String → Store → Type 0
IsSending thread_id st =
    (lock : Target) × (get thread_id st.targets ≡ some lock) × (lock.phase ≡ Phase.sending)

held-IsSending :
    (token thread_id : String) (found : Option Target) (t : Table Target)
    → get thread_id t ≡ found
    → token_is token found ≡ true
    → (lock : Target) × (get thread_id (set_phase Phase.sending (λ l. l.token == token) t)
        ≡ some lock)
      × (lock.phase ≡ Phase.sending)
held-IsSending token thread_id none t e h = absurd (cc h)
held-IsSending token thread_id (some lock) t e h = (
  record lock { phase = Phase.sending },
  get-set_phase Phase.sending _ thread_id lock t e h,
  refl,
)

begin_send-IsSending :
    (env : Env) (key token thread_id : String) (st : Store)
    → Ensures (IsSending thread_id) (begin_send env key token thread_id st)
unfolding begin_send
begin_send-IsSending env key token thread_id st =
    Ensures-bind (raise_if (not (token_is token (get thread_id st.targets))) "dispatch_lock_lost") _
      λ u e. Ensures-bind (get_delivery key st) _ λ actual _. returns (
        rw (save_delivery-targets env (sending_row actual) st)
          (held-IsSending token thread_id _ st.targets refl (ground arith)))

-- In the store that the transaction before a send leaves, no dispatch takes the lock of this chat,
-- for the same delivery or for another one, whatever its clock, token and routes are, and its
-- attempt changes no lock.
pub begin_send-exclusive :
    (env env' : Env) (key key' token token' : String) (routes : Table LocalChatRoute)
    (st st1 : Store) (row : LocalDelivery) (r : Acquired)
    → begin_send env key token row.route.thread_id st ≡ ok st1
    → get key' st1.deliveries ≡ some row
    → acquire env' routes token' key' st1 ≡ ok r
    → NotTaken st1 r
begin_send-exclusive env env' key key' token token' routes st st1 row r e found e' =
    let (lock, locked, sending) =
      Ensures-inv (begin_send-IsSending env key token row.route.thread_id st) e in
    Ensures-inv (locked-acquire env' routes token' key' row lock st1 found locked (rw sending refl))
      e'

under_six :
    (n : ℕ)
    → (if leb 6 n then DeliveryState.held else DeliveryState.pending) ≡ DeliveryState.pending
    → n < 6
under_six n e = ground arith

-- After a send a delivery becomes `pending` again only if the bridge answered, the answer is
-- `not_started` and safe to resubmit, it does not name a committed message of this chat, and fewer
-- than six attempts were made.
pub ending-pending :
    (env : Env) (thread_id : String) (attempts : ℕ) (answer : Result Fields)
    → (ending_of env thread_id attempts answer).state ≡ DeliveryState.pending
    → (receipt : Fields) × (answer ≡ ok receipt)
      × (is_not_started receipt ≡ true)
      × (is_committed thread_id receipt ≡ false)
      × (attempts < 6)
unfolding ending_of
ending-pending env thread_id attempts (err message) = λ e. absurd (cc e)
ending-pending env thread_id attempts (ok receipt) =
    if-cases DueAgain (is_committed thread_id receipt) _ _ (λ _ e. absurd (cc e))
      λ c.
        if-cases DueAgain (is_not_started receipt) _ _
          (λ n e. (receipt, refl, n, c, under_six attempts e)) λ _ e. absurd (cc e)
  where
    DueAgain : Ending → Type 0
    DueAgain e =
        e.state ≡ DeliveryState.pending
        → (r : Fields) × (ok receipt ≡ ok r)
          × (is_not_started r ≡ true)
          × (is_committed thread_id r ≡ false)
          × (attempts < 6)

module _ (env : Env) (paths : Paths) (routes : Table LocalChatRoute) (x : Exchange)
    (key token : String) (st : Store) (row : LocalDelivery)
    (found : get key st.deliveries ≡ some row) (settled : is_settled row.state ≡ true) where
  settled-defer : (reason : String) → defer env key reason st ≡ ok (row, st)
  unfolding defer
  settled-defer reason = rw (get_delivery-get key st row found) (
      if-cases {A = LocalDelivery × Store} (λ r. ok r ≡ ok (row, st)) (is_pending row.state) _ _
        (λ pending. absurd (ground (arith, pending, settled))) λ _. refl)

  settled-acquire : acquire_and_send env paths routes x key token st ≡ ok (row, st)
  unfolding acquire_and_send acquire acquire_row dispatch_acquired
  settled-acquire = rw (get_delivery-get key st row found) (rw settled refl)

  settled-after_release :
      (deferred : Option String)
      → after_release env paths routes x key token (deferred, st) ≡ ok (row, st)
  unfolding after_release
  settled-after_release none = settled-acquire
  settled-after_release (some reason) = settled-defer reason

-- A delivery that is `sending`, `held`, `submitted` or `cancelled` is returned as it is by
-- `dispatch`, and nothing is written or sent, whatever the chat, the bridge and the routes are: so it
-- is where the delivery is like that when `dispatch` is called, and also where it has become like
-- that when `dispatch` goes on after reading the chat, whether the chat's lock is kept (`deferred`
-- says why) or not.
pub settled-dispatch :
    (env : Env) (paths : Paths) (routes : Table LocalChatRoute) (reader : Reader) (x : Exchange)
    (key token : String) (deferred : Option String) (st : Store) (row : LocalDelivery)
    → get key st.deliveries ≡ some row
    → is_settled row.state ≡ true
    → (dispatch env paths routes reader x key token st ≡ ok (row, st))
      × (after_release env paths routes x key token (deferred, st) ≡ ok (row, st))
      × (acquire_and_send env paths routes x key token st ≡ ok (row, st))
unfolding dispatch
settled-dispatch env paths routes reader x key token deferred st row e h = (
  rw (get_delivery-get key st row e) (rw h refl),
  settled-after_release env paths routes x key token st row e h deferred,
  settled-acquire env paths routes x key token st row e h,
)
