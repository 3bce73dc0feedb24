-- ===== src/Accum/Carry.antt =====
-- The carry of `add_pow`, limb by limb: the loop on a list is the loop on its tail.
use askcoin_core.Base.{
  u64_mod, ℕ, zero, suc, ◌+◌, ◌-◌, ◌*◌, ◌%◌, ◌≤◌, ◌<◌, ◌≡◌, refl, inl, inr, List, [], ◌∷◌, arith,
  length, set, leb, Bool-cases, leb→le,
}
use askcoin_core.Accum.{limb, max_u32, bump, carry}
use askcoin_core.Accum.Value.{val, IsNorm, weight, capacity}

-- What holds when the carry arrives: the limb `x` may be above 32 bits, the later ones are not.
abbrev pub IsPending : List ℕ → Type 0
IsPending [] = Unit
IsPending (x ∷ xs) = (x < 8589934592) × IsNorm xs

-- The loop leaves the limbs below its index alone.
pub carry-cons : (f : ℕ) (x : ℕ) (xs : List ℕ) (i : ℕ) → carry f (x ∷ xs) (suc i) ≡ x ∷ carry f xs i
unfolding carry bump
carry-cons zero x xs i = refl
carry-cons (suc f) x xs i =
    ground (arith, carry-cons f x (bump (set xs i (limb xs i - max_u32)) (i + 1) 1) (i + 1), step)
  where
    step : suc i + 1 ≡ suc (i + 1)
    step = omega arith

-- What a step of the loop does to the list: the head is reduced, and the next limb takes the carry.
abbrev pub bump_head : List ℕ → List ℕ
bump_head [] = []
bump_head (x ∷ xs) = ((x + 1) % u64_mod) ∷ xs

carry_step :
    (f x : ℕ) (xs : List ℕ)
    → 4294967296 ≤ x
    → carry (suc f) (x ∷ xs) 0 ≡ (x - 4294967296) ∷ carry f (bump_head xs) 0
unfolding carry bump
carry_step f x [] h = ground (arith, carry-cons f (x - 4294967296) [] 0)
carry_step f x (y ∷ ys) h = ground (arith, carry-cons f (x - 4294967296) (bump_head (y ∷ ys)) 0)

-- With room for the carry, the loop keeps the number and leaves every limb in range.
pub record Settles (xs ys : List ℕ) : Type 0 where
  pub same : val ys ≡ val xs
  pub norm : IsNorm ys
  pub size : length ys ≡ length xs

pub carry-Settles :
    (f : ℕ) (xs : List ℕ)
    → length xs ≤ f
    → IsPending xs
    → val xs < capacity xs
    → Settles xs (carry f xs 0)
unfolding carry
carry-Settles zero [] l p v = record { same = refl; norm = tt; size = refl }
carry-Settles zero (x ∷ xs) l p v = absurd (omega arith)
carry-Settles (suc f) [] l p v = ground arith
carry-Settles (suc f) (x ∷ []) l p v = ground arith
carry-Settles (suc f) (x ∷ y ∷ ys) l p v = elim (Bool-cases (leb 4294967296 x)) [
  | inl big ↦ rw (carry_step f x (y ∷ ys) (ground arith)) (
      cons_Settles x y ys (ground arith) p (
        carry-Settles f (bump_head (y ∷ ys)) (omega arith) (omega arith, p.1.1)
          (omega (arith, leb→le 4294967296 x big))))
  | inr small ↦ ground arith
]
  where
    cons_Settles :
        (x y : ℕ) (ys : List ℕ)
        → 4294967296 ≤ x
        → IsPending (x ∷ y ∷ ys)
        → Settles (bump_head (y ∷ ys)) (carry f (bump_head (y ∷ ys)) 0)
        → Settles (x ∷ y ∷ ys) ((x - 4294967296) ∷ carry f (bump_head (y ∷ ys)) 0)
    cons_Settles x y ys h p s = record {
      same = omega (arith, s.same);
      norm = (omega arith, s.norm);
      size = omega (arith, s.size);
    }

-- `add_pow` at limb `i`: the number grows by `v` times the limb's weight.
pub record Adds (xs : List ℕ) (n : ℕ) (ys : List ℕ) : Type 0 where
  pub sum : val ys ≡ val xs + n
  pub norm : IsNorm ys
  pub size : length ys ≡ length xs

pub bump-Adds :
    (f i v : ℕ) (xs : List ℕ)
    → length xs ≤ f
    → i < length xs
    → v ≤ 4294967296
    → IsNorm xs
    → val xs + v * weight i < capacity xs
    → Adds xs (v * weight i) (carry f (bump xs i v) i)
unfolding bump
bump-Adds f i v [] l b hv p c = absurd (omega arith)
bump-Adds f zero v (x ∷ xs) l b hv p c =
    let s : Settles (((x + v) % u64_mod) ∷ xs) (carry f (((x + v) % u64_mod) ∷ xs) 0) =
      carry-Settles f (((x + v) % u64_mod) ∷ xs) l (omega arith, p.1) (omega arith) in
    record { sum = omega (arith, s.same); norm = s.norm; size = s.size }
bump-Adds f (suc i) v (x ∷ xs) l b hv p c =
    rw (carry-cons f x (bump xs i v) i)
      (cons_Adds (bump-Adds f i v xs (omega arith) (omega arith) hv p.1 (fits xs i c)))
  where
    fits :
        (xs : List ℕ) (i : ℕ)
        → x + 4294967296 * val xs + v * (4294967296 * weight i) < 4294967296 * capacity xs
        → val xs + v * weight i < capacity xs
    fits xs i h = omega arith

    cons_Adds :
        {ys : List ℕ} → Adds xs (v * weight i) ys → Adds (x ∷ xs) (v * weight (suc i)) (x ∷ ys)
    cons_Adds a = record {
      sum = omega (arith, a.sum);
      norm = (p.0, a.norm);
      size = omega (arith, a.size);
    }
