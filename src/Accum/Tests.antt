-- ===== src/Accum/Tests.antt =====
-- Runs of the arithmetic on nine limbs, and the laws at those inputs.
use askcoin_core.Base.{◌+◌, ◌<◌, ◌≤◌, ◌≡◌, refl, ◌↔◌, ◌⊎◌, true, false, [], ◌∷◌, arith}
use askcoin_core.Accum.{AccumPow, add_pow, sub_pow, gt, eq}
use askcoin_core.Accum.Value.{val}
use askcoin_core.Accum.Laws.{
  IsAccum, work, add_pow_lem, sub_pow_lem, gt_iff, eq_iff, sub_pow-add_pow,
}

-- 2 ^ 64 - 1: a carry runs through two limbs.
abbrev full : AccumPow
full = 4294967295 ∷ 4294967295 ∷ 0 ∷ 0 ∷ 0 ∷ 0 ∷ 0 ∷ 0 ∷ 0 ∷ []

-- 2 ^ 64: a borrow runs back through two limbs.
abbrev power : AccumPow
power = 0 ∷ 0 ∷ 1 ∷ 0 ∷ 0 ∷ 0 ∷ 0 ∷ 0 ∷ 0 ∷ []

full-IsAccum : IsAccum full
full-IsAccum = record { nine = refl; norm = omega arith }

power-IsAccum : IsAccum power
power-IsAccum = record { nine = refl; norm = omega arith }

add_run : add_pow full 0 ≡ power
unfolding add_pow
add_run = refl

sub_run : sub_pow power 0 ≡ (full, true)
unfolding sub_pow
sub_run = refl

sub_fails : sub_pow power 65 ≡ (power, false)
unfolding sub_pow
sub_fails = refl

gt_run : gt power full ≡ true
unfolding gt
gt_run = refl

add_pow_lem_example : IsAccum (add_pow full 40) × (val (add_pow full 40) ≡ val full + work 40)
add_pow_lem_example = add_pow_lem full 40 full-IsAccum (omega arith) (omega arith)

sub_pow_lem_example :
    ((work 63 ≤ val power)
      × ((sub_pow power 63).1 ≡ true)
      × IsAccum (sub_pow power 63).0
      × (val (sub_pow power 63).0 + work 63 ≡ val power))
    ⊎ ((val power < work 63) × (sub_pow power 63 ≡ (power, false)))
sub_pow_lem_example = sub_pow_lem power 63 power-IsAccum (omega arith)

gt_iff_example : (gt power full ≡ true) ↔ (val full < val power)
gt_iff_example = gt_iff power full power-IsAccum full-IsAccum

eq_iff_example : (eq power full ≡ true) ↔ (val power ≡ val full)
eq_iff_example = eq_iff power full power-IsAccum full-IsAccum

sub_pow-add_pow_example : sub_pow (add_pow full 70) 70 ≡ (full, true)
sub_pow-add_pow_example = sub_pow-add_pow full 70 full-IsAccum (omega arith) (omega arith)
