-- ===== src/Accum/Compare.antt =====
-- `operator>`: the ladder from the top limb down compares the numbers.
use askcoin_core.Base.{
  ℕ, zero, suc, ◌+◌, ◌*◌, ◌≤◌, ◌<◌, ◌≡◌, inl, inr, List, [], ◌∷◌, Bool, true, false, arith, length,
  ltb, Bool-cases, ltb→lt, ltb-false→le, if◌then◌else◌,
}
use askcoin_core.Accum.{limb, gt_from}
use askcoin_core.Accum.Value.{val, IsNorm, weight}

-- The number of the limbs 0 to `i`.
abbrev pub prefix_val : List ℕ → ℕ → ℕ
prefix_val a zero = limb a 0
prefix_val a (suc i) = prefix_val a i + limb a (suc i) * weight (suc i)

limb-lt : (a : List ℕ) (i : ℕ) → IsNorm a → limb a i < 4294967296
limb-lt [] i h = omega arith
limb-lt (x ∷ xs) zero h = h.0
limb-lt (x ∷ xs) (suc i) h = limb-lt xs i h.1

-- A product by a number that is at least `k` is at least `k` times.
times_mono : (a b w : ℕ) → a < b → a * w + w ≤ b * w
times_mono a b w h = grind arith

prefix_val-lt : (a : List ℕ) (i : ℕ) → IsNorm a → prefix_val a i < 4294967296 * weight i
prefix_val-lt a zero h = omega (arith, limb-lt a 0 h)
prefix_val-lt a (suc i) h = omega (
  arith,
  prefix_val-lt a i h,
  times_mono (limb a (suc i)) 4294967296 (weight (suc i)) (limb-lt a (suc i) h),
)

-- A test decides an order: true exactly if `y < x`.
abbrev pub Decides : Bool → ℕ → ℕ → Type 0
Decides true x y = y < x
Decides false x y = x ≤ y

-- One rung of the ladder: `la`, `lb` are the limbs of weight `w`, `pa`, `pb` the numbers below.
rung :
    (la lb pa pb w : ℕ) (below : Bool)
    → pa < w
    → pb < w
    → Decides below pa pb
    → Decides
        (if ltb lb la then true else if ltb la lb then false else below)
        (pa + la * w)
        (pb + lb * w)
rung la lb pa pb w below ha hb d = elim (Bool-cases (ltb lb la)) [
  | inl gt ↦ rw gt (omega (arith, times_mono lb la w (ltb→lt lb la gt)))
  | inr le ↦ elim (Bool-cases (ltb la lb)) [
    | inl lt ↦ rw (le, lt) (omega (arith, times_mono la lb w (ltb→lt la lb lt)))
    | inr ge ↦ rw (le, ge) (same below (ltb-false→le lb la le) (ltb-false→le la lb ge) d)
  ]
]
  where
    same : (b : Bool) → la ≤ lb → lb ≤ la → Decides b pa pb → Decides b (pa + la * w) (pb + lb * w)
    same true h k e = let p : la ≡ lb = omega arith in rw p (omega arith)
    same false h k e = let p : la ≡ lb = omega arith in rw p (omega arith)

pub gt_from-Decides :
    (i : ℕ) (a b : List ℕ)
    → IsNorm a
    → IsNorm b
    → Decides (gt_from i a b) (prefix_val a i) (prefix_val b i)
unfolding gt_from
gt_from-Decides zero a b ha hb = elim (Bool-cases (ltb (limb b 0) (limb a 0))) [
  | inl gt ↦ rw gt (ltb→lt (limb b 0) (limb a 0) gt)
  | inr le ↦ rw le (ltb-false→le (limb b 0) (limb a 0) le)
]
gt_from-Decides (suc i) a b ha hb =
    rung (limb a (suc i)) (limb b (suc i)) (prefix_val a i) (prefix_val b i) (weight (suc i)) _
      (prefix_val-lt a i ha) (prefix_val-lt b i hb) (gt_from-Decides i a b ha hb)

-- On nine limbs the ladder compares the whole numbers.
pub prefix_val-val : (a : List ℕ) → length a ≡ 9 → prefix_val a 8 ≡ val a
prefix_val-val (a ∷ b ∷ c ∷ d ∷ e ∷ f ∷ g ∷ h ∷ i ∷ []) n = omega arith
prefix_val-val _ n = absurd (omega arith)
