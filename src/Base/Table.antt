-- ===== src/Base/Table.antt =====
-- The rows of one bucket of the object store (state-db.ts): keys and values in rowid order, a new
-- row last. An upsert keeps its row's place.
pub mod Laws
use Prim.Native.String.{compare}
use Prim.Native.Nat.{Ordering}
use mathlib.Core.List.{filter_map}
use chatgpt_web_agent.Base.Tests.{◌==◌, if◌then◌else◌}
use Prim.Native.Nat.{ℕ, zero, suc}
use Prim.Native.String.{String}
use mathlib.Core.Bool.{Bool, true, false, ◌||◌}
use mathlib.Core.Option.{Option, none, some}
use mathlib.Core.List.{List, [], ◌∷◌, reverse}

abbrev pub Table {ℓ} : Type ℓ → Type ℓ
Table V = List (String × V)

module _ {ℓ} {V : Type ℓ} where
  unfoldable pub get : String → Table V → Option V
  get k [] = none
  get k ((j, v) ∷ t) = if j == k then some v else get k t

  unfoldable pub put : String → V → Table V → Table V
  put k v [] = (k, v) ∷ []
  put k v ((j, w) ∷ t) = if j == k then (j, v) ∷ t else (j, w) ∷ put k v t

  unfoldable pub remove : String → Table V → Table V
  remove k [] = []
  remove k ((j, v) ∷ t) = let rest = remove k t in if j == k then rest else (j, v) ∷ rest

  unfoldable pub values : Table V → List V
  values [] = []
  values ((k, v) ∷ t) = v ∷ values t

  -- `ORDER BY key`: the order of the keys' bytes
  unfoldable pub insert_by_key : String × V → Table V → Table V
  insert_by_key e [] = e ∷ []
  insert_by_key e (f ∷ t) = elim (compare e.0 f.0) [
    | Ordering.gt ↦ f ∷ insert_by_key e t
    | _ ↦ e ∷ f ∷ t
  ]

  unfoldable pub sort_by_key : Table V → Table V
  unfolding insert_by_key
  sort_by_key [] = []
  sort_by_key (e ∷ t) = insert_by_key e (sort_by_key t)

  -- `all(bucket)`
  unfoldable pub all : Table V → List V
  unfolding sort_by_key values
  all t = values (sort_by_key t)

  -- `list.some(p)`
  unfoldable pub any : (V → Bool) → List V → Bool
  any p [] = false
  any p (v ∷ vs) = p v || any p vs

  -- `list.find(p)`
  unfoldable pub find_first : (V → Bool) → List V → Option V
  find_first p [] = none
  find_first p (v ∷ vs) = if p v then some v else find_first p vs

  -- `list.filter(p)`
  unfoldable pub select : (V → Bool) → List V → List V
  select p [] = []
  select p (v ∷ vs) = let rest = select p vs in if p v then v ∷ rest else rest

  abbrev pub take : ℕ → List V → List V
  take zero vs = []
  take (suc n) [] = []
  take (suc n) (v ∷ vs) = v ∷ take n vs

  -- `ORDER BY rowid DESC LIMIT n` of the rows that pass a test
  unfoldable pub recent : ℕ → (V → Bool) → Table V → List V
  unfolding values select
  recent n p t = take n (select p (reverse (values t)))
