-- ===== src/Accum/Laws.antt =====
-- The accumulated work as a number: `add_pow`, `sub_pow` and the comparisons on nine limbs.
use askcoin_core.Base.{
  ℕ, ◌+◌, ◌*◌, ◌/◌, ◌%◌, ◌^◌, ◌≤◌, ◌<◌, ◌≡◌, refl, subst, inl, inr, List, [], ◌∷◌, ◌↔◌, ◌⊎◌, Bool,
  true, false, Option, some, none, arith, length, ap, ◌∙◌,
}
use askcoin_core.Base.Powers.{pow_pos, pow_mono}
use askcoin_core.Accum.{AccumPow, add_pow, sub_pow, restore, gt, eq, limbs}
use askcoin_core.Accum.Value.{val, IsNorm, weight, weight_pow, capacity, val-injective}
use askcoin_core.Accum.Carry.{Adds, bump-Adds}
use askcoin_core.Accum.Borrow.{subtract, Subtracts, subtract-Subtracts}
use askcoin_core.Accum.Compare.{prefix_val, Decides, gt_from-Decides, prefix_val-val}

-- Nine limbs, each below 2 ^ 32.
pub record IsAccum (a : AccumPow) : Type 0 where
  pub nine : length a ≡ 9
  pub norm : IsNorm a

-- 2 ^ 288: one more than the largest number of nine limbs.
abbrev pub max_work : ℕ
max_work = 2 ^ 288

-- The work of a block that must begin with `zero_bits` zero bits.
abbrev pub work : ℕ → ℕ
work zero_bits = 2 ^ zero_bits

capacity_nine : (a : AccumPow) → length a ≡ 9 → capacity a ≡ max_work
capacity_nine (a ∷ b ∷ c ∷ d ∷ e ∷ f ∷ g ∷ h ∷ i ∷ []) n = refl
capacity_nine _ n = absurd (omega arith)

work_split : (z : ℕ) → 2 ^ (z % 32) * weight (z / 32) ≡ work z
work_split z = rw (split z) (rw (weight_pow (z / 32) (z % 32)) (omega arith))
  where
    split : (z : ℕ) → work z ≡ 2 ^ (32 * (z / 32) + z % 32)
    split z = ap (λ n. 2 ^ n) {y = 32 * (z / 32) + z % 32} (omega arith)

bit_small : (z : ℕ) → 2 ^ (z % 32) ≤ 4294967296
bit_small z = pow_mono (z % 32) 32 (omega arith)

-- On nine limbs of 32 bits, adding a block's work with `zero_bits` below 288 adds 2 ^ zero_bits and
-- leaves nine limbs of 32 bits, if the sum fits them.
pub add_pow_lem :
    (a : AccumPow) (zero_bits : ℕ)
    → IsAccum a
    → zero_bits < 288
    → val a + work zero_bits < max_work
    → IsAccum (add_pow a zero_bits) × (val (add_pow a zero_bits) ≡ val a + work zero_bits)
unfolding add_pow
add_pow_lem a z v b fits = (
  record { nine = omega (arith, s.size); norm = s.norm },
  s.sum ∙ ap (λ n. val a + n) (work_split z),
)
  where
    s : Adds a (2 ^ (z % 32) * weight (z / 32)) (add_pow a z)
    s =
        bump-Adds limbs (z / 32) (2 ^ (z % 32)) a (omega arith) (omega arith) (bit_small z) v.norm
          (rw (work_split z, capacity_nine a v.nine) fits)

restored :
    (a : AccumPow) (n : ℕ) (r : Option (List ℕ))
    → IsAccum a
    → Subtracts a n r
    → ((n ≤ val a)
        × ((restore a r).1 ≡ true)
        × IsAccum (restore a r).0
        × (val (restore a r).0 + n ≡ val a))
      ⊎ ((val a < n) × (restore a r ≡ (a, false)))
unfolding restore
restored a n none v s = inr (s, refl)
restored a n (some b) v s =
    inl (omega arith, refl, record { nine = omega (arith, v.nine); norm = s.1 }, s.0)

sub_pow-restore :
    (a : AccumPow) (z : ℕ)
    → sub_pow a z ≡ restore a (subtract limbs limbs a (z / 32) (2 ^ (z % 32)))
unfolding sub_pow subtract
sub_pow-restore a z = ground arith

-- On nine limbs of 32 bits and `zero_bits` below 288, `sub_pow` takes 2 ^ zero_bits off, leaves nine
-- limbs of 32 bits and returns true if there is so much, and otherwise returns false and leaves the
-- limbs as they were.
pub sub_pow_lem :
    (a : AccumPow) (zero_bits : ℕ)
    → IsAccum a
    → zero_bits < 288
    → ((work zero_bits ≤ val a)
        × ((sub_pow a zero_bits).1 ≡ true)
        × IsAccum (sub_pow a zero_bits).0
        × (val (sub_pow a zero_bits).0 + work zero_bits ≡ val a))
      ⊎ ((val a < work zero_bits) × (sub_pow a zero_bits ≡ (a, false)))
sub_pow_lem a z v b =
    rw (sub_pow-restore a z)
      (restored a (work z) (subtract limbs limbs a (z / 32) (2 ^ (z % 32))) v taken)
  where
    taken : Subtracts a (work z) (subtract limbs limbs a (z / 32) (2 ^ (z % 32)))
    taken =
        subst (λ n. Subtracts a (work z) (subtract limbs n a (z / 32) (2 ^ (z % 32)))) v.nine
          (subst (λ n. Subtracts a n (subtract limbs (length a) a (z / 32) (2 ^ (z % 32))))
            (work_split z)
            (subtract-Subtracts limbs (z / 32) (2 ^ (z % 32)) a (omega (arith, v.nine))
              (omega (arith, v.nine)) (pow_pos (z % 32)) (bit_small z) v.norm))

-- On nine limbs of 32 bits each `operator>` compares the numbers that they stand for.
pub gt_iff : (a b : AccumPow) → IsAccum a → IsAccum b → (gt a b ≡ true) ↔ (val b < val a)
unfolding gt
gt_iff a b va vb = decided (gt a b) (
    subst (Decides (gt a b) (val a)) (prefix_val-val b vb.nine) (
      subst (λ n. Decides (gt a b) n (prefix_val b 8)) (prefix_val-val a va.nine)
        (gt_from-Decides 8 a b va.norm vb.norm)))
  where
    decided : (t : Bool) → Decides t (val a) (val b) → (t ≡ true) ↔ (val b < val a)
    decided true d = (λ _. d, λ _. refl)
    decided false d = (λ e. cc, λ h. absurd (omega arith))

eq_iff_same : (xs ys : List ℕ) → (eq xs ys ≡ true) ↔ (xs ≡ ys)
unfolding eq
eq_iff_same [] [] = (λ _. refl, λ _. refl)
eq_iff_same [] (y ∷ ys) = (λ e. cc, λ e. cc)
eq_iff_same (x ∷ xs) [] = (λ e. cc, λ e. cc)
eq_iff_same (x ∷ xs) (y ∷ ys) = ground (arith, eq_iff_same xs ys)

-- On nine limbs of 32 bits each `operator==` holds exactly for limbs that stand for the same number.
pub eq_iff : (a b : AccumPow) → IsAccum a → IsAccum b → (eq a b ≡ true) ↔ (val a ≡ val b)
eq_iff a b va vb = (
  λ e. ap val ((eq_iff_same a b).0 e),
  λ e. (eq_iff_same a b).1 (val-injective a b (omega (arith, va.nine, vb.nine)) va.norm vb.norm e),
)

-- Taking the work of a block off again restores the nine limbs of 32 bits that it was added to, for
-- `zero_bits` below 288 and a sum that fits nine limbs.
pub sub_pow-add_pow :
    (a : AccumPow) (zero_bits : ℕ)
    → IsAccum a
    → zero_bits < 288
    → val a + work zero_bits < max_work
    → sub_pow (add_pow a zero_bits) zero_bits ≡ (a, true)
sub_pow-add_pow a z v b fits =
    undo (add_pow_lem a z v b fits) (sub_pow_lem (add_pow a z) z (add_pow_lem a z v b fits).0 b)
  where
    undo :
        {s : AccumPow}
        → IsAccum s × (val s ≡ val a + work z)
        → ((work z ≤ val s)
            × ((sub_pow s z).1 ≡ true)
            × IsAccum (sub_pow s z).0
            × (val (sub_pow s z).0 + work z ≡ val s))
          ⊎ ((val s < work z) × (sub_pow s z ≡ (s, false)))
        → sub_pow s z ≡ (a, true)
    undo p (inl (_, t, w, e)) = ground (
      arith,
      val-injective (sub_pow _ z).0 a (omega (arith, w.nine, v.nine)) w.norm v.norm (omega arith),
      t,
    )
    undo p (inr (h, _)) = absurd (omega arith)
