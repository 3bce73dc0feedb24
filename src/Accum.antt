-- ===== src/Accum.antt =====
-- accum_pow.cpp and accum_pow.hpp: the accumulated work of a chain, a number of nine 32-bit limbs,
-- least limb first, each held in a uint64 (`m_n32`).
pub mod Value
mod Carry
mod Borrow
mod Compare
mod Tests
pub mod Laws
use askcoin_core.Base.{
  u64_mod, ℕ, zero, suc, ◌+◌, ◌-◌, ◌/◌, ◌%◌, ◌^◌, Bool, true, false, Option, none, some, List, [],
  ◌∷◌, ltb, leb, ◌==◌, if◌then◌else◌, get_or, set,
}

-- `std::array<uint64, 9> m_n32`.
abbrev pub AccumPow : Type 0
AccumPow = List ℕ

-- The number of limbs.
abbrev pub limbs : ℕ
limbs = 9

-- `(uint64)1 << 32`.
abbrev pub max_u32 : ℕ
max_u32 = 4294967296

abbrev pub limb : AccumPow → ℕ → ℕ
limb a i = get_or a i 0

-- `Accum_Pow::Accum_Pow()`.
abbrev pub zero_pow : AccumPow
zero_pow = 0 ∷ 0 ∷ 0 ∷ 0 ∷ 0 ∷ 0 ∷ 0 ∷ 0 ∷ 0 ∷ []

-- `m_n32[i] += v`, in uint64 arithmetic.
pub bump : AccumPow → ℕ → ℕ → AccumPow
bump a i v = set a i ((limb a i + v) % u64_mod)

-- The `while` of `add_pow`; it visits a limb at most once, so nine rounds suffice.
pub carry : ℕ → AccumPow → ℕ → AccumPow
unfolding bump
carry zero a idx = a
carry (suc f) a idx =
    let rest = carry f (bump (set a idx (limb a idx - max_u32)) (idx + 1) 1) (idx + 1) in
    if leb max_u32 (limb a idx) then rest else a

unfoldable pub add_pow : AccumPow → ℕ → AccumPow
unfolding carry
add_pow a zero_bits = carry limbs (bump a (zero_bits / 32) (2 ^ (zero_bits % 32))) (zero_bits / 32)

-- The `while(++idx <= 8)` of `sub_pow`, from the limb `idx` on; `n` is the number of limbs.
-- `none`: every limb up to the last was 0.
pub borrow : ℕ → ℕ → AccumPow → ℕ → Option AccumPow
borrow zero n a idx = none
borrow (suc f) n a idx =
    let rest = borrow f n (set a idx (max_u32 - 1)) (idx + 1) in
    if ltb idx n
    then (if limb a idx == 0 then rest else some (set a idx (limb a idx - 1)))
    else none

-- What `sub_pow` leaves in `m_n32`, and what it returns: on a failed borrow the copy is restored.
pub restore : AccumPow → Option AccumPow → AccumPow × Bool
restore n32 none = (n32, false)
restore n32 (some a) = (a, true)

pub sub_pow : AccumPow → ℕ → AccumPow × Bool
unfolding borrow restore
sub_pow a zero_bits =
    let idx = zero_bits / 32 in
    let v = 2 ^ (zero_bits % 32) in
    if ltb (limb a idx) v
    then restore a (borrow limbs limbs (set a idx (limb a idx + max_u32 - v)) (idx + 1))
    else (set a idx (limb a idx - v), true)

-- `operator>`, whose ladder of tests goes from limb 8 down to limb 0.
pub gt_from : ℕ → AccumPow → AccumPow → Bool
gt_from zero a b = ltb (limb b 0) (limb a 0)
gt_from (suc i) a b =
    if ltb (limb b (suc i)) (limb a (suc i))
    then true
    else if ltb (limb a (suc i)) (limb b (suc i))
    then false
    else gt_from i a b

unfoldable pub gt : AccumPow → AccumPow → Bool
unfolding gt_from
gt = gt_from 8

-- `operator==`.
pub eq : AccumPow → AccumPow → Bool
eq [] [] = true
eq [] (y ∷ ys) = false
eq (x ∷ xs) [] = false
eq (x ∷ xs) (y ∷ ys) = if x == y then eq xs ys else false
