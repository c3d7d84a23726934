-- ===== src/Base/Table/Laws.antt =====
-- The laws of tables: lookups after writes, unique keys, and what the listings hold.
use Prim.Native.Nat.{Ordering}
use Prim.Native.String.{String, compare}
use mathlib.Core.Path.{◌≡◌, refl}
use mathlib.Core.Logic.{◌≢◌, ◌⊎◌, inl, inr}
use mathlib.Core.Bool.{Bool, false, ◌||◌}
use mathlib.Core.Option.{none, some}
use mathlib.Core.List.{List, [], ◌∷◌}
use native.Mathlib.Omega.{arith}
use text.Mathlib.TextEquality.{eq_iff}
use chatgpt_web_agent.Base.Tests.{◌==◌, Bool-cases, if◌then◌else◌}
use chatgpt_web_agent.Base.Table.{
  Table, get, put, remove, values, insert_by_key, sort_by_key, all, any,
}

-- `P` of every element
abbrev pub All {ℓ κ} : {A : Type ℓ} → (A → Type κ) → List A → Type κ
All P [] = Unit
All P (x ∷ xs) = P x × All P xs

pub All-map {ℓ κ μ} :
    {A : Type ℓ} {P : A → Type κ} {Q : A → Type μ} (xs : List A)
    → ((x : A) → P x → Q x)
    → All P xs
    → All Q xs
All-map [] f h = tt
All-map (x ∷ xs) f (p, h) = (f x p, All-map xs f h)

module _ {ℓ} {V : Type ℓ} where
  pub get-nil : (k : String) → get {V = V} k [] ≡ none
  unfolding get
  get-nil k = refl

  pub get-cons :
      (j k : String) (v : V) (t : Table V)
      → get k ((j, v) ∷ t) ≡ (if j == k then some v else get k t)
  unfolding get
  get-cons j k v t = refl

  pub get-put :
      (j k : String) (v : V) (t : Table V)
      → get k (put j v t) ≡ (if j == k then some v else get k t)
  unfolding get put
  get-put j k v [] = refl
  get-put j k v ((i, w) ∷ t) = ground (arith, eq_iff j k, eq_iff i k, eq_iff i j, get-put j k v t)

  pub get-put_self : (k : String) (v : V) (t : Table V) → get k (put k v t) ≡ some v
  get-put_self k v t = ground (arith, get-put k k v t, eq_iff k k)

  pub get-put_at : (j k : String) (v : V) (t : Table V) → j ≡ k → get k (put j v t) ≡ some v
  get-put_at j k v t e = rw e (get-put_self k v t)

  pub get-remove :
      (j k : String) (t : Table V) → get k (remove j t) ≡ (if j == k then none else get k t)
  unfolding get remove
  get-remove j k [] = ground arith
  get-remove j k ((i, w) ∷ t) = ground (arith, eq_iff j k, eq_iff i k, eq_iff i j, get-remove j k t)

  -- What is found after a write is what was written, or was there before.
  pub get-put_inv :
      (j k : String) (v b : V) (t : Table V)
      → get k (put j v t) ≡ some b
      → ((j ≡ k) × (v ≡ b)) ⊎ ((j ≢ k) × (get k t ≡ some b))
  get-put_inv j k v b t e = elim (Bool-cases (j == k)) [
    | inl same ↦ inl ((eq_iff j k).0 same, ground (arith, get-put j k v t))
    | inr other ↦ inr (λ p. cc (other, (eq_iff j k).1 p), ground (arith, get-put j k v t))
  ]

  -- The primary key: no key twice.
  abbrev pub NodupKeys : Table V → Type ℓ
  NodupKeys [] = Unit
  NodupKeys ((k, v) ∷ t) = (get k t ≡ none) × NodupKeys t

  pub put-NodupKeys : (k : String) (v : V) (t : Table V) → NodupKeys t → NodupKeys (put k v t)
  unfolding put
  put-NodupKeys k v [] h = (get-nil k, tt)
  put-NodupKeys k v ((j, w) ∷ t) (fresh, h) =
      ground (arith, eq_iff j k, get-put k j v t, eq_iff k j, put-NodupKeys k v t h)

  pub remove-NodupKeys : (k : String) (t : Table V) → NodupKeys t → NodupKeys (remove k t)
  unfolding remove
  remove-NodupKeys k [] h = tt
  remove-NodupKeys k ((j, w) ∷ t) (fresh, h) =
      ground (arith, eq_iff j k, get-remove k j t, eq_iff k j, remove-NodupKeys k t h)

  any-insert_by_key :
      (p : V → Bool) (e : String × V) (t : Table V)
      → any p (values (insert_by_key e t)) ≡ (p e.1 || any p (values t))
  unfolding any values insert_by_key
  any-insert_by_key p e [] = refl
  any-insert_by_key p e (f ∷ t) = ground (arith, any-insert_by_key p e t)

  any-sort_by_key : (p : V → Bool) (t : Table V) → any p (values (sort_by_key t)) ≡ any p (values t)
  unfolding any values sort_by_key
  any-sort_by_key p [] = refl
  any-sort_by_key p (e ∷ t) =
      ground (arith, any-insert_by_key p e (sort_by_key t), any-sort_by_key p t)

  any-values :
      (p : V → Bool) (k : String) (v : V) (t : Table V)
      → get k t ≡ some v
      → any p (values t) ≡ false
      → p v ≡ false
  unfolding any values get
  any-values p k v [] e h = cc
  any-values p k v ((j, w) ∷ t) e h = ground (arith, any-values p k v t)

  -- A test that fails on the whole listing fails on every row.
  pub any-all :
      (p : V → Bool) (k : String) (v : V) (t : Table V)
      → get k t ≡ some v
      → any p (all t) ≡ false
      → p v ≡ false
  unfolding all
  any-all p k v t e h = any-values p k v t e (rw any-sort_by_key at h)

  All-insert_by_key {κ} :
      (P : String × V → Type κ) (e : String × V) (t : Table V)
      → P e
      → All P t
      → All P (insert_by_key e t)
  unfolding insert_by_key
  All-insert_by_key P e [] p h = (p, tt)
  All-insert_by_key P e (f ∷ t) p (q, h) =
      elim (compare e.0 f.0)
        as (λ o. All P (elim o [ Ordering.gt ↦ f ∷ insert_by_key e t | _ ↦ e ∷ f ∷ t ])) [
          | Ordering.gt ↦ (q, All-insert_by_key P e t p h)
          | Ordering.lt ↦ (p, (q, h))
          | Ordering.eq ↦ (p, (q, h))
        ]

  All-sort_by_key {κ} : (P : String × V → Type κ) (t : Table V) → All P t → All P (sort_by_key t)
  unfolding sort_by_key
  All-sort_by_key P [] h = tt
  All-sort_by_key P (e ∷ t) (p, h) = All-insert_by_key P e (sort_by_key t) p (All-sort_by_key P t h)

  All-values {κ} : (P : V → Type κ) (t : Table V) → All (λ e. P e.1) t → All P (values t)
  unfolding values
  All-values P [] h = tt
  All-values P ((k, v) ∷ t) (p, h) = (p, All-values P t h)

  get-rows : (t : Table V) → NodupKeys t → All (λ e. get e.0 t ≡ some e.1) t
  unfolding get
  get-rows [] h = tt
  get-rows ((k, v) ∷ t) (fresh, h) = (ground (arith, eq_iff k k), All-map t later (get-rows t h))
    where
      later : (e : String × V) → get e.0 t ≡ some e.1 → get e.0 ((k, v) ∷ t) ≡ some e.1
      later e found = ground (arith, eq_iff k e.0)

  -- Where each row is stored under its own key, a listing holds the rows that `get` returns.
  pub all-All-get :
      (key : V → String) (t : Table V)
      → NodupKeys t
      → ((k : String) (v : V) → get k t ≡ some v → key v ≡ k)
      → All (λ v. get (key v) t ≡ some v) (all t)
  unfolding all
  all-All-get key t h keyed =
      All-values _ (sort_by_key t) (All-sort_by_key _ t (All-map t own (get-rows t h)))
    where
      own : (e : String × V) → get e.0 t ≡ some e.1 → get (key e.1) t ≡ some e.1
      own e found = rw (keyed e.0 e.1 found) found
