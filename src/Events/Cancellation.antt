-- ===== src/Events/Cancellation.antt =====
-- `unsubscribe` of src/events.ts: what it ends, and the verification that it overtakes.
use chatgpt_web_agent.Base.{
  ℕ, ◌+◌, String, Bool, true, false, ◌&&◌, Option, Option-cases, none, some, List, [], ◌∷◌, ◌≡◌,
  refl, ◌∙◌, arith, Bool-cases, inl, inr, ◌==◌, eq_iff, eq_refl, nat_eq, err,
}
use chatgpt_web_agent.Base.Table.{get, all, any}
use chatgpt_web_agent.Base.Table.Laws.{get-put, get-put_self, get-remove, any-all}
use chatgpt_web_agent.State.{Db, EventSubscription, OutboxDelivery, DeliveryState}
use chatgpt_web_agent.Events.Outbox.{IsKeyed}
use chatgpt_web_agent.Events.Subscribe.{
  is_open, cancel_epoch, commit_subscription, cancel_one, cancel_open, drop_subscription,
}

-- A delivery of the subscription that is pending or being sent.
abbrev pub is_open_for : String → OutboxDelivery → Bool
is_open_for id d = d.subscription_id == id && is_open d.state

module _ (id k : String) (d : OutboxDelivery) where
  cancel_one-inv :
      (e : OutboxDelivery) (db : Db)
      → is_open_for id d ≡ true
      → get k (cancel_one id e db).outbox ≡ some d
      → (get k db.outbox ≡ some d) × (is_open_for id e && e.key == k ≡ false)
  unfolding cancel_one
  cancel_one-inv e db h found =
      ground (arith, get-put e.key k (record e { state = DeliveryState.cancelled }) db.outbox)

  cancel_open-inv :
      (ds : List OutboxDelivery) (db : Db)
      → is_open_for id d ≡ true
      → get k (cancel_open id ds db).outbox ≡ some d
      → (get k db.outbox ≡ some d) × (any (λ e. is_open_for id e && e.key == k) ds ≡ false)
  unfolding cancel_open any
  cancel_open-inv [] db h found = (found, refl)
  cancel_open-inv (e ∷ ds) db h found =
      let (found', none_later) = cancel_open-inv ds (cancel_one id e db) h found in
      let (before, not_this) = cancel_one-inv e db h found' in (before, ground arith)

cancel_one-rest :
    (id : String) (e : OutboxDelivery) (db : Db)
    → ((cancel_one id e db).subscriptions ≡ db.subscriptions)
      × ((cancel_one id e db).cancel_epochs ≡ db.cancel_epochs)
unfolding cancel_one
cancel_one-rest id e db = ground arith

cancel_open-rest :
    (id : String) (ds : List OutboxDelivery) (db : Db)
    → ((cancel_open id ds db).subscriptions ≡ db.subscriptions)
      × ((cancel_open id ds db).cancel_epochs ≡ db.cancel_epochs)
unfolding cancel_open
cancel_open-rest id [] db = (refl, refl)
cancel_open-rest id (e ∷ ds) db =
    let (s, c) = cancel_open-rest id ds (cancel_one id e db) in
    let (s', c') = cancel_one-rest id e db in (s ∙ s', c ∙ c')

cancel_open-subscriptions :
    (id : String) (ds : List OutboxDelivery) (db : Db)
    → (cancel_open id ds db).subscriptions ≡ db.subscriptions
cancel_open-subscriptions id ds db = (cancel_open-rest id ds db).0

cancel_open-cancel_epochs :
    (id : String) (ds : List OutboxDelivery) (db : Db)
    → (cancel_open id ds db).cancel_epochs ≡ db.cancel_epochs
cancel_open-cancel_epochs id ds db = (cancel_open-rest id ds db).1

-- A row of the outbox that may still be sent for the subscription.
abbrev pub is_open_row : String → Option OutboxDelivery → Bool
is_open_row id none = false
is_open_row id (some d) = is_open_for id d

ended-row :
    (id k : String) (d : OutboxDelivery) (db : Db)
    → IsKeyed db.outbox
    → get k (drop_subscription id db).outbox ≡ some d
    → is_open_for id d ≡ false
unfolding drop_subscription
ended-row id k d db keyed found = elim (Bool-cases (is_open_for id d)) [
  | inr e ↦ e
  | inl e ↦
      let (before, absent) = cancel_open-inv id k d (all db.outbox) _ e found in
      absurd (
        ground (
          arith,
          any-all (λ x. is_open_for id x && x.key == k) k d db.outbox before absent,
          eq_iff d.key k,
          keyed k d before,
        ))
]

-- Where each delivery is stored under its own key: after the transaction of `unsubscribe` the
-- subscription is not stored, and no row of the outbox, whatever its key, is a delivery for it that
-- is pending or being sent.
pub drop_subscription-ends :
    (id k : String) (db : Db)
    → IsKeyed db.outbox
    → (get id (drop_subscription id db).subscriptions ≡ none)
      × (is_open_row id (get k (drop_subscription id db).outbox) ≡ false)
unfolding drop_subscription
drop_subscription-ends id k db keyed = (
  rw cancel_open-subscriptions (ground (arith, get-remove id id db.subscriptions, eq_refl id)),
  elim (Option-cases (get k (drop_subscription id db).outbox)) [
    | inl none_there ↦ rw none_there refl
    | inr (d, found) ↦ rw found (ended-row id k d db keyed found)
  ],
)

-- With the cancel epoch that a verification read before the transaction of `unsubscribe` for the
-- same identity, its commit in the store that this transaction leaves throws.
pub commit-drop :
    (sub : EventSubscription) (db : Db)
    → commit_subscription (cancel_epoch sub.id db) sub (drop_subscription sub.id db)
      ≡ err "subscription_cancelled_during_verification"
unfolding commit_subscription drop_subscription
commit-drop sub db = rw cancel_open-cancel_epochs (
    rw (get-put_self sub.id (cancel_epoch sub.id db + 1) db.cancel_epochs)
      (rw (succ_differs (cancel_epoch sub.id db)) refl))
  where
    succ_differs : (n : ℕ) → nat_eq (n + 1) n ≡ false
    succ_differs n = ground arith
