-- ===== src/Accum/Borrow.antt =====
-- The borrow of `sub_pow`, limb by limb: the loop on a list is the loop on its tail.
use askcoin_core.Base.{
  ℕ, zero, suc, ◌+◌, ◌-◌, ◌*◌, ◌≤◌, ◌<◌, ◌≡◌, refl, inl, inr, List, [], ◌∷◌, Option, none, some,
  true, false, arith, length, set, ltb, Bool-cases, ltb→lt, ltb-false→le, if◌then◌else◌,
}
use askcoin_core.Accum.{limb, max_u32, borrow}
use askcoin_core.Accum.Value.{val, IsNorm, weight}

-- `some (x ∷ xs)` for `some xs`.
abbrev pub cons_some : ℕ → Option (List ℕ) → Option (List ℕ)
cons_some x none = none
cons_some x (some xs) = some (x ∷ xs)

-- The loop leaves the limbs below its index alone.
pub borrow-cons :
    (f n x : ℕ) (xs : List ℕ) (i : ℕ)
    → borrow f (suc n) (x ∷ xs) (suc i) ≡ cons_some x (borrow f n xs i)
unfolding borrow
borrow-cons zero n x xs i = refl
borrow-cons (suc f) n x xs i =
    ground (arith, borrow-cons f n x (set xs i (max_u32 - 1)) (i + 1), step)
  where
    step : suc i + 1 ≡ suc (i + 1)
    step = omega arith

-- A borrow from limb 0 on takes 1 from the number, and fails exactly at 0.
abbrev pub Borrows : List ℕ → Option (List ℕ) → Type 0
Borrows xs none = val xs ≡ 0
Borrows xs (some ys) = (val ys + 1 ≡ val xs) × IsNorm ys × (length ys ≡ length xs)

cons_Borrows :
    (xs : List ℕ) (r : Option (List ℕ)) → Borrows xs r → Borrows (0 ∷ xs) (cons_some 4294967295 r)
cons_Borrows xs none h = omega arith
cons_Borrows xs (some ys) h = (omega arith, (omega arith, h.1), omega arith)

pub borrow-Borrows :
    (f : ℕ) (xs : List ℕ) → length xs ≤ f → IsNorm xs → Borrows xs (borrow f (length xs) xs 0)
unfolding borrow
borrow-Borrows zero [] l p = refl
borrow-Borrows zero (x ∷ xs) l p = absurd (omega arith)
borrow-Borrows (suc f) [] l p = refl
borrow-Borrows (suc f) (zero ∷ xs) l p =
    rw (unfold_zero xs) (cons_Borrows xs _ (borrow-Borrows f xs (omega arith) p.1))
  where
    unfold_zero :
        (xs : List ℕ)
        → borrow (suc f) (suc (length xs)) (0 ∷ xs) 0
          ≡ cons_some 4294967295 (borrow f (length xs) xs 0)
    unfold_zero xs = ground (arith, borrow-cons f (length xs) 4294967295 xs 0)
borrow-Borrows (suc f) (suc x ∷ xs) l p = rw (unfold_suc xs) (omega arith, (omega arith, p.1), refl)
  where
    unfold_suc : (xs : List ℕ) → borrow (suc f) (suc (length xs)) (suc x ∷ xs) 0 ≡ some (x ∷ xs)
    unfold_suc xs = ground arith

-- `sub_pow` at limb `i`, before the copy is restored.
unfoldable pub subtract : ℕ → ℕ → List ℕ → ℕ → ℕ → Option (List ℕ)
subtract f n a i v =
    if ltb (limb a i) v
    then borrow f n (set a i (limb a i + max_u32 - v)) (i + 1)
    else some (set a i (limb a i - v))

-- The number falls by `n`, or it is below `n`.
abbrev pub Subtracts : List ℕ → ℕ → Option (List ℕ) → Type 0
Subtracts xs n none = val xs < n
Subtracts xs n (some ys) = (val ys + n ≡ val xs) × IsNorm ys × (length ys ≡ length xs)

subtract-cons :
    (f n x : ℕ) (xs : List ℕ) (i v : ℕ)
    → subtract f (suc n) (x ∷ xs) (suc i) v ≡ cons_some x (subtract f n xs i v)
unfolding subtract
subtract-cons f n x xs i v =
    ground (arith, borrow-cons f n x (set xs i (limb xs i + max_u32 - v)) (i + 1), step)
  where
    step : suc i + 1 ≡ suc (i + 1)
    step = omega arith

head_Subtracts :
    (x v : ℕ) (xs : List ℕ) (r : Option (List ℕ))
    → x < v
    → v ≤ 4294967296
    → Borrows xs r
    → Subtracts (x ∷ xs) v (cons_some (x + max_u32 - v) r)
head_Subtracts x v xs none h k b = omega arith
head_Subtracts x v xs (some ys) h k b = (omega arith, (omega arith, b.1), omega arith)

cons_Subtracts :
    (x n : ℕ) (xs : List ℕ) (r : Option (List ℕ))
    → x < 4294967296
    → Subtracts xs n r
    → Subtracts (x ∷ xs) (4294967296 * n) (cons_some x r)
cons_Subtracts x n xs none h s = omega arith
cons_Subtracts x n xs (some ys) h s = (omega arith, (h, s.1), omega arith)

pub subtract-Subtracts :
    (f i v : ℕ) (xs : List ℕ)
    → length xs ≤ f
    → i < length xs
    → 1 ≤ v
    → v ≤ 4294967296
    → IsNorm xs
    → Subtracts xs (v * weight i) (subtract f (length xs) xs i v)
unfolding subtract
subtract-Subtracts f i v [] l b lo hi p = absurd (omega arith)
subtract-Subtracts f zero v (x ∷ xs) l b lo hi p = elim (Bool-cases (ltb x v)) [
  | inl less ↦
      rw (times_one v, at_less less)
        (head_Subtracts x v xs _ (ltb→lt x v less) hi (borrow-Borrows f xs (omega arith) p.1))
  | inr more ↦
      rw (times_one v, at_more more)
        (omega (arith, ltb-false→le x v more), (omega arith, p.1), refl)
]
  where
    times_one : (k : ℕ) → k * 1 ≡ k
    times_one k = omega arith

    at_less :
        ltb x v ≡ true
        → subtract f (suc (length xs)) (x ∷ xs) 0 v
          ≡ cons_some (x + max_u32 - v) (borrow f (length xs) xs 0)
    at_less e = ground (arith, borrow-cons f (length xs) (x + max_u32 - v) xs 0)

    at_more : ltb x v ≡ false → subtract f (suc (length xs)) (x ∷ xs) 0 v ≡ some ((x - v) ∷ xs)
    at_more e = ground arith
subtract-Subtracts f (suc i) v (x ∷ xs) l b lo hi p =
    rw (regroup v (weight i), subtract-cons f (length xs) x xs i v)
      (cons_Subtracts x (v * weight i) xs _ p.0
        (subtract-Subtracts f i v xs (omega arith) (omega arith) lo hi p.1))
  where
    regroup : (k w : ℕ) → k * (4294967296 * w) ≡ 4294967296 * (k * w)
    regroup k w = omega arith
