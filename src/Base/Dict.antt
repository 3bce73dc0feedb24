-- ===== src/Base/Dict.antt =====
-- The standard containers: maps as association lists, sets as lists of keys, over a key type with
-- a decided equality.
use mathlib.Core.Path.{◌≡◌, refl, subst}
use mathlib.Core.Logic.{◌↔◌, inl, inr}
use mathlib.Core.Bool.{Bool, true, false}
use mathlib.Core.Option.{Option, none, some}
use mathlib.Core.List.{List, [], ◌∷◌}
use Prim.Native.Nat.{ℕ}
use askcoin_core.Base.Tests.{◌==◌, ==_iff, Bool-cases, some_inj, if◌then◌else◌}
use askcoin_core.Base.Text.{Str, str_eq, str_eq_iff}
use askcoin_core.Base.Lists.{All}

pub record Key {ℓ} (K : Type ℓ) : Type ℓ where
  pub beq : K → K → Bool
  pub beq_iff : (a b : K) → (beq a b ≡ true) ↔ (a ≡ b)

abbrev nat_beq : ℕ → ℕ → Bool
nat_beq a b = a == b

instance abbrev pub nat_key : Key ℕ
nat_key = record { beq = nat_beq; beq_iff = ==_iff }

instance abbrev pub str_key : Key Str
str_key = record { beq = str_eq; beq_iff = str_eq_iff }

module _ {ℓ} {K : Type ℓ} ⦃k : Key K⦄ where
  -- A key set: `find(x) != end()`, `insert`, `erase`.
  abbrev pub contains : K → List K → Bool
  contains x [] = false
  contains x (y ∷ ys) = if k.beq x y then true else contains x ys

  abbrev pub insert : K → List K → List K
  insert x ys = if contains x ys then ys else x ∷ ys

  abbrev pub erase : K → List K → List K
  erase x [] = []
  erase x (y ∷ ys) = if k.beq x y then ys else y ∷ erase x ys

  -- A new key, put in and taken out.
  pub erase-insert : (x : K) (ys : List K) → contains x ys ≡ false → erase x (insert x ys) ≡ ys
  erase-insert x ys e = rw e (rw ((k.beq_iff x x).1 refl) refl)

module _ {ℓ κ} {K : Type ℓ} {V : Type κ} ⦃k : Key K⦄ where
  -- A map: `find`, `insert` (which keeps an entry that is there), `erase` of the key.
  abbrev pub lookup : K → List (K × V) → Option V
  lookup x [] = none
  lookup x ((y, v) ∷ d) = if k.beq x y then some v else lookup x d

  abbrev pub has_key : K → List (K × V) → Bool
  has_key x d = elim (lookup x d) [ none ↦ false | some v ↦ true ]

  abbrev pub insert_entry : K → V → List (K × V) → List (K × V)
  insert_entry x v d = if has_key x d then d else (x, v) ∷ d

  abbrev pub erase_key : K → List (K × V) → List (K × V)
  erase_key x [] = []
  erase_key x ((y, v) ∷ d) = if k.beq x y then d else (y, v) ∷ erase_key x d

  -- A property of the value of every entry holds of the value found.
  pub All-lookup {ν} :
      (P : V → Type ν) (x : K) (v : V) (d : List (K × V))
      → All (λ e. P e.1) d
      → lookup x d ≡ some v
      → P v
  All-lookup P x v [] h e = cc
  All-lookup P x v ((y, w) ∷ d) h e = elim (Bool-cases (k.beq x y)) [
    | inl hit ↦ subst P (some_inj (rw hit at e)) h.0
    | inr miss ↦ All-lookup P x v d h.1 (rw miss at e)
  ]

  pub All-insert_entry {ν} :
      (P : K × V → Type ν) (x : K) (v : V) (d : List (K × V))
      → P (x, v)
      → All P d
      → All P (insert_entry x v d)
  All-insert_entry P x v d p h = elim (Bool-cases (has_key x d)) [
    | inl old ↦ rw old h
    | inr new ↦ rw new (p, h)
  ]

  -- A new entry, put in and taken out.
  pub erase_key-insert_entry :
      (x : K) (v : V) (d : List (K × V))
      → has_key x d ≡ false
      → erase_key x (insert_entry x v d) ≡ d
  erase_key-insert_entry x v d e = rw e (rw ((k.beq_iff x x).1 refl) refl)
