-- ===== src/Base/Results.antt =====
-- Fallible code: a thrown `Error` is its message.
use Prim.Native.String.{String}
use mathlib.Core.Path.{◌≡◌, refl, subst}
use chatgpt_web_agent.Base.Tests.{if◌then◌else◌}
use mathlib.Core.Bool.{Bool, true, false}
use mathlib.Core.Option.{Option, none, some}

pub data Result {ℓ} (A : Type ℓ) : Type ℓ where
  ok : A → Result A
  err : String → Result A

-- `if (c) throw new Error(e);`
abbrev pub raise_if : Bool → String → Result (Unit {0})
raise_if true message = err message
raise_if false message = ok tt

-- `if (o === undefined) throw new Error(e);`
abbrev pub or_raise {ℓ} : {A : Type ℓ} → Option A → String → Result A
or_raise none message = err message
or_raise (some a) message = ok a

-- Going on with the value; a throw ends the whole.
infixl 5 ◌>>=◌
abbrev pub ◌>>=◌ {ℓ μ} : {X : Type ℓ} {Y : Type μ} → Result X → (X → Result Y) → Result Y
err message >>= next = err message
ok value >>= next = next value

infixl 5 ◌>>◌
abbrev pub ◌>>◌ {ℓ} : {Y : Type ℓ} → Result (Unit {0}) → Result Y → Result Y
check >> next = check >>= λ _. next

pub ok-injective {ℓ} : {A : Type ℓ} {a b : A} → ok a ≡ ok b → a ≡ b
ok-injective e = cc

-- What holds of the value that a computation returns; nothing is said of one that throws.
pub data Ensures {ℓ κ} {A : Type ℓ} (P : A → Type κ) : Result A → Type (ℓ ⊔ κ) where
  returns : {a : A} → P a → Ensures P (ok a)
  throws : {e : String} → Ensures P (err e)

module _ {ℓ κ} {A : Type ℓ} {P : A → Type κ} where
  pub Ensures-bind {μ} :
      {B : Type μ} (m : Result B) (f : B → Result A)
      → ((b : B) → m ≡ ok b → Ensures P (f b))
      → Ensures P (m >>= f)
  Ensures-bind (ok b) f h = h b refl
  Ensures-bind (err e) f h = throws

  pub Ensures-then {μ ν} :
      {B : Type μ} {Q : B → Type ν} (m : Result B) (f : B → Result A)
      → Ensures Q m
      → ((b : B) → Q b → Ensures P (f b))
      → Ensures P (m >>= f)
  Ensures-then m f (returns h) k = k _ h
  Ensures-then m f throws k = throws

  pub Ensures-if :
      (b : Bool) (x y : Result A)
      → (b ≡ true → Ensures P x)
      → (b ≡ false → Ensures P y)
      → Ensures P (if b then x else y)
  Ensures-if true x y p q = p refl
  Ensures-if false x y p q = q refl

  pub Ensures-inv : {r : Result A} {a : A} → Ensures P r → r ≡ ok a → P a
  Ensures-inv {a} (returns {a = b} h) e = subst P (ok-injective e) h
  Ensures-inv (throws) e = cc

pub Ensures-map {ℓ κ μ} :
    {A : Type ℓ} {P : A → Type κ} {Q : A → Type μ} {r : Result A}
    → ((a : A) → P a → Q a)
    → Ensures P r
    → Ensures Q r
Ensures-map f (returns h) = returns (f _ h)
Ensures-map f throws = throws
