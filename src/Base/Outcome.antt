-- ===== src/Base/Outcome.antt =====
-- A run of the program's code that goes on with a value, or ends by `ASKCOIN_EXIT(EXIT_FAILURE)`.
use mathlib.Core.Path.{◌≡◌, refl, subst}
use mathlib.Core.Bool.{Bool, true, false}
use mathlib.Core.Option.{Option, none, some}

pub data Run {ℓ} (A : Type ℓ) : Type ℓ where
  ok : A → Run A
  exit : Run A

infixl 5 ◌>>=◌ ◌>>◌
abbrev pub ◌>>=◌ {ℓ κ} : {A : Type ℓ} {B : Type κ} → Run A → (A → Run B) → Run B
ok a >>= f = f a
exit >>= f = exit

abbrev pub ◌>>◌ {ℓ} : {B : Type ℓ} → Run (Unit {0}) → Run B → Run B
m >> k = m >>= λ _. k

-- `if(!test) ASKCOIN_EXIT(EXIT_FAILURE)`.
abbrev pub guard : Bool → Run (Unit {0})
guard true = ok tt
guard false = exit

-- The value of an option that the code has tested.
abbrev pub require {ℓ} : {A : Type ℓ} → Option A → Run A
require none = exit
require (some a) = ok a

-- The property `P` of the value, if the run goes on.
abbrev pub Ensures {ℓ κ} : {A : Type ℓ} → (A → Type κ) → Run A → Type κ
Ensures P (ok a) = P a
Ensures P exit = Unit

module _ {ℓ κ} {A : Type ℓ} {B : Type κ} where
  -- To prove a property of a chain, assume that its first part goes on.
  pub bind-Ensures {ν} :
      (P : B → Type ν) (m : Run A) (f : A → Run B)
      → ((a : A) → m ≡ ok a → Ensures P (f a))
      → Ensures P (m >>= f)
  bind-Ensures P (ok a) f h = h a refl
  bind-Ensures P exit f h = tt

pub guard-Ensures {κ ν} :
    {B : Type κ} (P : B → Type ν) (b : Bool) (k : Run B)
    → (b ≡ true → Ensures P k)
    → Ensures P (guard b >> k)
guard-Ensures P true k h = h refl
guard-Ensures P false k h = tt

pub Ensures-map {ℓ κ ν} :
    {A : Type ℓ} (P : A → Type κ) (Q : A → Type ν) (r : Run A)
    → ((a : A) → P a → Q a)
    → Ensures P r
    → Ensures Q r
Ensures-map P Q (ok a) f h = f a h
Ensures-map P Q exit f h = tt

pub Ensures-of {ℓ κ} :
    {A : Type ℓ} (P : A → Type κ) (r : Run A) (a : A) → Ensures P r → r ≡ ok a → P a
Ensures-of P r a h e = subst (Ensures P) e h

pub require-ok {ℓ} : {A : Type ℓ} {a : A} (o : Option A) → require o ≡ ok a → o ≡ some a
require-ok none e = cc
require-ok (some b) e = cc
