-- ===== src/Events/Claims.antt =====
-- That the claim of a delivery (src/events.ts, `flush`) is exclusive until it is settled or expires.
use chatgpt_web_agent.Base.{
  ℕ, ◌+◌, ◌≤◌, String, true, false, ◌&&◌, Option, none, some, ◌≡◌, refl, arith, opt_eq, ◌==◌,
  Bool-cases, inl, inr, subst, sym, eq_iff, if-cases,
}
use chatgpt_web_agent.Base.Table.{Table, get, put}
use chatgpt_web_agent.Base.Table.Laws.{get-put_at, get-put}
use chatgpt_web_agent.Events.{is_active}
use chatgpt_web_agent.State.{Env, Db, EventSubscription, OutboxDelivery}
use chatgpt_web_agent.Events.Delivery.{
  is_sending, claimable, claimed_delivery, inactive_delivery, Claimed, claim_for, claim_row,
  claim_delivery, CallbackResponse, settled_delivery, settle_claimed, settle_row, settle_delivery,
  disable, has_status,
}
use chatgpt_web_agent.Events.Outbox.{IsKeyed}

-- The row of `key` is being sent under the claim `id`, until `until`.
abbrev IsSending : String → String → ℕ → Table OutboxDelivery → Type 0
IsSending key id until t =
    (d : OutboxDelivery) × (get key t ≡ some d)
    × (is_sending d.state ≡ true)
    × (d.claim_until ≡ some until)
    × (d.claim_id ≡ some id)

claim_row-IsSending :
    (env : Env) (uuid key : String) (row : Option OutboxDelivery) (c : Claimed) (db : Db)
    → ((d : OutboxDelivery) → row ≡ some d → d.key ≡ key)
    → (claim_row env uuid row db).0 ≡ some c
    → IsSending key uuid (env.now + 30_000) (claim_row env uuid row db).1.outbox
unfolding claim_row claim_for
claim_row-IsSending env uuid key none c db keyed = λ e. absurd (cc e)
claim_row-IsSending env uuid key (some d) c db keyed =
    if-cases {A = Option Claimed × Db}
      (λ r. r.0 ≡ some c → IsSending key uuid (env.now + 30_000) r.1.outbox) (claimable env d) _ _
      (λ _. sent (get d.subscription_id db.subscriptions)) λ _ e. absurd (cc e)
  where
    sent :
        (sub : Option EventSubscription)
        → (claim_for env uuid d sub db).0 ≡ some c
        → IsSending key uuid (env.now + 30_000) (claim_for env uuid d sub db).1.outbox
    sent none = λ e. absurd (cc e)
    sent (some sub) =
        if-cases {A = Option Claimed × Db}
          (λ r. r.0 ≡ some c → IsSending key uuid (env.now + 30_000) r.1.outbox) (is_active env sub)
          _ _
          (λ _ _. (
            claimed_delivery env uuid d,
            get-put_at d.key key _ db.outbox (keyed d refl),
            refl,
            refl,
            refl,
          ))
          λ _ e. absurd (cc e)

claim_over-now :
    (env : Env) (d : OutboxDelivery) (until : ℕ)
    → is_sending d.state ≡ true
    → d.claim_until ≡ some until
    → env.now ≤ until
    → claimable env d ≡ false
claim_over-now env d until s u h = ground arith

IsSending-claim :
    (env : Env) (uuid key id : String) (until : ℕ) (db : Db)
    → IsSending key id until db.outbox
    → env.now ≤ until
    → claim_delivery env uuid key db ≡ (none, db)
unfolding claim_delivery claim_row
IsSending-claim env uuid key id until db (d, found, s, u, c) h =
    rw found (rw (claim_over-now env d until s u h) refl)

-- What becomes of the store while a claim of `key` under the id `id` is neither settled nor expired:
-- claims of any row until then, settlements of other claims, and answers that came too late.
pub data Meanwhile (key id : String) (until : ℕ) (db : Db) : Db → Type 0 where
  at_once : Meanwhile key id until db db
  claimed :
      {s : Db} (env : Env) (uuid row : String)
      → env.now ≤ until
      → Meanwhile key id until db s
      → Meanwhile key id until db (claim_delivery env uuid row s).1
  settled :
      {s : Db} (env : Env) (row : String) (claim_id : Option String) (r : Option CallbackResponse)
      → (row == key && opt_eq (some id) claim_id) ≡ false
      → Meanwhile key id until db s
      → Meanwhile key id until db (settle_delivery env row claim_id r s)

-- Each delivery is stored under its own key, and `key` is claimed.
record Holds (key id : String) (until : ℕ) (db : Db) : Type 0 where
  keyed : IsKeyed db.outbox
  sending : IsSending key id until db.outbox

put-IsKeyed :
    (d' : OutboxDelivery) (t : Table OutboxDelivery) → IsKeyed t → IsKeyed (put d'.key d' t)
put-IsKeyed d' t keyed k d found = elim (Bool-cases (d'.key == k)) [
  | inl same ↦ ground (arith, get-put d'.key k d' t, eq_iff d'.key k, same)
  | inr other ↦ ground (arith, get-put d'.key k d' t, keyed k d, other)
]

put-IsSending :
    (key id row : String) (until : ℕ) (d' : OutboxDelivery) (t : Table OutboxDelivery)
    → d'.key ≡ row
    → (row == key) ≡ false
    → IsSending key id until t
    → IsSending key id until (put d'.key d' t)
put-IsSending key id row until d' t same other (d, found, s, u, c) =
    (d, ground (arith, get-put d'.key key d' t, same, other, found), s, u, c)

put-Holds :
    (key id row : String) (until : ℕ) (d' : OutboxDelivery) (db : Db)
    → d'.key ≡ row
    → (row == key) ≡ false
    → Holds key id until db
    → Holds key id until (record db { outbox = put d'.key d' db.outbox })
put-Holds key id row until d' db same other h = record {
  keyed = put-IsKeyed d' db.outbox h.keyed;
  sending = put-IsSending key id row until d' db.outbox same other h.sending;
}

module _ (key id : String) (until : ℕ) where
  claim_for-Holds :
      (env : Env) (uuid row : String) (d : OutboxDelivery) (sub : Option EventSubscription)
      (db : Db)
      → d.key ≡ row
      → (row == key) ≡ false
      → Holds key id until db
      → Holds key id until (claim_for env uuid d sub db).1
  unfolding claim_for
  claim_for-Holds env uuid row d none db same other h = put-Holds key id row until _ db same other h
  claim_for-Holds env uuid row d (some sub) db same other h =
      if-cases {A = Option Claimed × Db} (λ r. Holds key id until r.1) (is_active env sub) _ _
        (λ _. put-Holds key id row until _ db same other h)
        λ _. put-Holds key id row until _ db same other h

  claim_row-Holds :
      (env : Env) (uuid row : String) (found : Option OutboxDelivery) (db : Db)
      → get row db.outbox ≡ found
      → (row == key) ≡ false
      → Holds key id until db
      → Holds key id until (claim_row env uuid found db).1
  unfolding claim_row
  claim_row-Holds env uuid row none db at_row other h = h
  claim_row-Holds env uuid row (some d) db at_row other h =
      if-cases {A = Option Claimed × Db} (λ r. Holds key id until r.1) (claimable env d) _ _
        (λ _. claim_for-Holds env uuid row d _ db (h.keyed row d at_row) other h) λ _. h

  claim_delivery-Holds :
      (env : Env) (uuid row : String) (db : Db)
      → env.now ≤ until
      → Holds key id until db
      → Holds key id until (claim_delivery env uuid row db).1
  unfolding claim_delivery
  claim_delivery-Holds env uuid row db soon h = elim (Bool-cases (row == key)) [
    | inl same ↦
        let row_is : row ≡ key = ground (arith, eq_iff row key, same) in
        rw row_is (
          subst (λ (r : Option Claimed × Db). Holds key id until r.1)
            (sym (IsSending-claim env uuid key id until db h.sending soon)) h)
    | inr other ↦ claim_row-Holds env uuid row _ db refl other h
  ]

  settle_claimed-Holds :
      (env : Env) (r : Option CallbackResponse) (row : String) (d : OutboxDelivery) (db : Db)
      → d.key ≡ row
      → (row == key) ≡ false
      → Holds key id until db
      → Holds key id until (settle_claimed env r d db)
  unfolding settle_claimed
  settle_claimed-Holds env r row d db same other h =
      if-cases (Holds key id until) (has_status 410 r) _ _
        (λ _. disabled (get d.subscription_id db.subscriptions)) λ _. written
    where
      written :
          Holds key id until (record db { outbox = put d.key (settled_delivery env r d) db.outbox })
      written = put-Holds key id row until (settled_delivery env r d) db same other h

      disabled :
          (sub : Option EventSubscription)
          → Holds key id until
              (disable sub (record db { outbox = put d.key (settled_delivery env r d) db.outbox }))
      disabled none = written
      disabled (some sub) = record { keyed = written.keyed; sending = written.sending }

  settle_row-Holds :
      (env : Env) (row : String) (claim_id : Option String) (r : Option CallbackResponse)
      (found : Option OutboxDelivery) (db : Db)
      → get row db.outbox ≡ found
      → (row == key && opt_eq (some id) claim_id) ≡ false
      → Holds key id until db
      → Holds key id until (settle_row env claim_id r found db)
  unfolding settle_row
  settle_row-Holds env row claim_id r none db at_row other h = h
  settle_row-Holds env row claim_id r (some d) db at_row other h =
      if-cases (Holds key id until) (is_sending d.state && opt_eq d.claim_id claim_id) _ _
        (λ c. settle_claimed-Holds env r row d db (h.keyed row d at_row) (differs c h.sending) h)
        λ _. h
    where
      differs :
          (is_sending d.state && opt_eq d.claim_id claim_id) ≡ true
          → IsSending key id until db.outbox
          → (row == key) ≡ false
      differs c (e, found, s, u, claim) = elim (Bool-cases (row == key)) [
        | inr apart ↦ apart
        | inl here ↦
            let row_is : row ≡ key = ground (arith, eq_iff row key, here) in
            let at_key : get key db.outbox ≡ some d =
              subst (λ k. get k db.outbox ≡ some d) row_is at_row in
            let same : d.claim_id ≡ some id = cc (at_key, found, claim) in
            absurd (ground (arith, c, other, here, same))
      ]

  Meanwhile-Holds :
      {db s : Db} → Meanwhile key id until db s → Holds key id until db → Holds key id until s
  unfolding settle_delivery
  Meanwhile-Holds at_once h = h
  Meanwhile-Holds (claimed env uuid row soon m) h =
      claim_delivery-Holds env uuid row _ soon (Meanwhile-Holds m h)
  Meanwhile-Holds (settled env row claim_id r other m) h =
      settle_row-Holds env row claim_id r _ _ refl other (Meanwhile-Holds m h)

claim_row-IsKeyed :
    (env : Env) (uuid : String) (found : Option OutboxDelivery) (db : Db)
    → IsKeyed db.outbox
    → IsKeyed (claim_row env uuid found db).1.outbox
unfolding claim_row claim_for
claim_row-IsKeyed env uuid none db keyed = keyed
claim_row-IsKeyed env uuid (some d) db keyed =
    if-cases {A = Option Claimed × Db} (λ r. IsKeyed r.1.outbox) (claimable env d) _ _
      (λ _. claim_for-IsKeyed (get d.subscription_id db.subscriptions)) λ _. keyed
  where
    claim_for-IsKeyed :
        (sub : Option EventSubscription) → IsKeyed (claim_for env uuid d sub db).1.outbox
    claim_for-IsKeyed none = put-IsKeyed (inactive_delivery d) db.outbox keyed
    claim_for-IsKeyed (some sub) =
        if-cases {A = Option Claimed × Db} (λ r. IsKeyed r.1.outbox) (is_active env sub) _ _
          (λ _. put-IsKeyed (claimed_delivery env uuid d) db.outbox keyed)
          λ _. put-IsKeyed (inactive_delivery d) db.outbox keyed

claim_delivery-Holds_own :
    (env : Env) (uuid key : String) (c : Claimed) (db : Db)
    → IsKeyed db.outbox
    → (claim_delivery env uuid key db).0 ≡ some c
    → Holds key uuid (env.now + 30_000) (claim_delivery env uuid key db).1
unfolding claim_delivery
claim_delivery-Holds_own env uuid key c db keyed e = record {
  keyed = claim_row-IsKeyed env uuid (get key db.outbox) db keyed;
  sending = claim_row-IsSending env uuid key (get key db.outbox) c db (keyed key) e;
}

-- Where each delivery is stored under its own key: after a claim of a delivery succeeded, and until
-- this claim is settled, every other claim of it within 30 s of the first one gets nothing and
-- changes nothing, whatever deliveries are claimed in between and whatever other claims are settled.
pub claim_delivery-exclusive :
    (env env' : Env) (uuid uuid' key : String) (c : Claimed) (db later : Db)
    → IsKeyed db.outbox
    → (claim_delivery env uuid key db).0 ≡ some c
    → Meanwhile key uuid (env.now + 30_000) (claim_delivery env uuid key db).1 later
    → env'.now ≤ env.now + 30_000
    → claim_delivery env' uuid' key later ≡ (none, later)
claim_delivery-exclusive env env' uuid uuid' key c db later keyed e m soon =
    let h : Holds key uuid (env.now + 30_000) later =
      Meanwhile-Holds key uuid (env.now + 30_000) m
        (claim_delivery-Holds_own env uuid key c db keyed e) in
    IsSending-claim env' uuid' key uuid (env.now + 30_000) later h.sending soon
