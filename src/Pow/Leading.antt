-- ===== src/Pow/Leading.antt =====
-- `hash_pow` tests that the hash, as a big-endian number, is below 2 ^ (bits - zero_bits).
use askcoin_core.Base.{
  ℕ, zero, suc, ◌+◌, ◌-◌, ◌*◌, ◌/◌, ◌%◌, ◌^◌, ◌≤◌, ◌<◌, ◌≡◌, refl, subst, inl, inr, ◌↔◌, Bool, true,
  false, List, [], ◌∷◌, arith, length, get_or, All, ltb, ◌==◌, if◌then◌else◌, Bool-cases, ltb→lt,
  ltb-false→le,
}
use askcoin_core.Base.Powers.{pow_add8, pow_pos, pow_mono, pow-add}
use askcoin_core.Pow.{zero_bytes, hash_pow}

-- The bytes as a big-endian number.
abbrev pub big_endian : List ℕ → ℕ
big_endian [] = 0
big_endian (b ∷ bs) = b * 2 ^ (8 * length bs) + big_endian bs

abbrev pub IsBytes : List ℕ → Type 0
IsBytes = All (λ b. b < 256)

pow_eight_suc : (n : ℕ) → 2 ^ (8 * suc n) ≡ 256 * 2 ^ (8 * n)
pow_eight_suc n = rw (regroup n) (pow_add8 (8 * n))
  where
    regroup : (k : ℕ) → 8 * suc k ≡ 8 * k + 8
    regroup k = omega arith

-- A product by a larger number is larger by the factor at least.
times_mono : (a b w : ℕ) → a < b → a * w + w ≤ b * w
times_mono a b w h = grind arith

big_endian-lt : (h : List ℕ) → IsBytes h → big_endian h < 2 ^ (8 * length h)
big_endian-lt [] p = pow_pos 0
big_endian-lt (b ∷ bs) p = omega (
  arith,
  pow_eight_suc (length bs),
  big_endian-lt bs p.1,
  times_mono b 256 (2 ^ (8 * length bs)) p.0,
)

-- `hash_pow` on the number of zero bytes and of further zero bits.
leading : ℕ → ℕ → List ℕ → Bool
leading n r h =
    if zero_bytes n 0 h then (if r == 0 then true else ltb (get_or h n 0) (2 ^ (8 - r))) else false

zero_bytes-cons : (n i b : ℕ) (h : List ℕ) → zero_bytes n (suc i) (b ∷ h) ≡ zero_bytes n i h
unfolding zero_bytes
zero_bytes-cons zero i b h = refl
zero_bytes-cons (suc n) i b h = ground (arith, zero_bytes-cons n (i + 1) b h, step)
  where
    step : suc i + 1 ≡ suc (i + 1)
    step = omega arith

leading-cons :
    (n r b : ℕ) (h : List ℕ) → leading (suc n) r (b ∷ h) ≡ (if b == 0 then leading n r h else false)
unfolding leading zero_bytes
leading-cons n r b h = ground (arith, zero_bytes-cons n 0 b h)

-- True says that `x` is below `y`, false that it is not.
abbrev Below : Bool → ℕ → ℕ → Type 0
Below true x y = x < y
Below false x y = y ≤ x

-- A first byte below 2 ^ (8 - r), with any bytes after it.
head_Below :
    (b k s rest : ℕ) → rest < 2 ^ k → Below (ltb b (2 ^ s)) (b * 2 ^ k + rest) (2 ^ (s + k))
head_Below b k s rest h = elim (Bool-cases (ltb b (2 ^ s))) [
  | inl lt ↦
      rw (lt, pow-add s k) (omega (arith, times_mono b (2 ^ s) (2 ^ k) (ltb→lt b (2 ^ s) lt)))
  | inr ge ↦ rw (ge, pow-add s k) (le_times (ltb-false→le b (2 ^ s) ge))
]
  where
    le_times : 2 ^ s ≤ b → 2 ^ s * 2 ^ k ≤ b * 2 ^ k + rest
    le_times p = grind arith

leading-head : (r b : ℕ) (h : List ℕ) → leading 0 (suc r) (b ∷ h) ≡ ltb b (2 ^ (8 - suc r))
unfolding leading zero_bytes
leading-head r b h = ground arith

suc_test : (c : ℕ) → (suc c == 0) ≡ false
suc_test c = ground arith

-- A first byte that is not 0 is too much.
nonzero_Below : (c k e rest : ℕ) → e ≤ k → 2 ^ e ≤ suc c * 2 ^ k + rest
nonzero_Below c k e rest h = step (2 ^ k) (pow_mono e k h)
  where
    step : (w : ℕ) → 2 ^ e ≤ w → 2 ^ e ≤ suc c * w + rest
    step w p = omega (arith, grows c w)
      where
        grows : (c w : ℕ) → w ≤ suc c * w
        grows c w = grind arith

leading-Below :
    (n r : ℕ) (h : List ℕ)
    → IsBytes h
    → r < 8
    → 8 * n + r ≤ 8 * length h
    → Below (leading n r h) (big_endian h) (2 ^ (8 * length h - (8 * n + r)))
unfolding leading zero_bytes
leading-Below zero zero h p r8 fits = rw (exponent h) (big_endian-lt h p)
  where
    exponent : (l : List ℕ) → 8 * length l - (8 * 0 + 0) ≡ 8 * length l
    exponent l = omega arith
leading-Below zero (suc r) [] p r8 fits = absurd (omega arith)
leading-Below zero (suc r) (b ∷ bs) p r8 fits =
    rw (leading-head r b bs, exponent bs)
      (head_Below b (8 * length bs) (8 - suc r) (big_endian bs) (big_endian-lt bs p.1))
  where
    exponent : (l : List ℕ) → 8 * suc (length l) - (8 * 0 + suc r) ≡ 8 - suc r + 8 * length l
    exponent l = omega arith
leading-Below (suc n) r [] p r8 fits = absurd (omega arith)
leading-Below (suc n) r (b ∷ bs) p r8 fits =
    rw (leading-cons n r b bs, exponent bs) (by_byte b (leading-Below n r bs p.1 r8 (omega arith)))
  where
    exponent : (l : List ℕ) → 8 * suc (length l) - (8 * suc n + r) ≡ 8 * length l - (8 * n + r)
    exponent l = omega arith

    no_head : (l : List ℕ) → 0 * 2 ^ (8 * length l) + big_endian l ≡ big_endian l
    no_head l = omega arith

    by_byte :
        (c : ℕ)
        → Below (leading n r bs) (big_endian bs) (2 ^ (8 * length bs - (8 * n + r)))
        → Below
            (if c == 0 then leading n r bs else false)
            (c * 2 ^ (8 * length bs) + big_endian bs)
            (2 ^ (8 * length bs - (8 * n + r)))
    by_byte zero d = rw (no_head bs) d
    by_byte (suc c) d = rw (suc_test c) (
        nonzero_Below c (8 * length bs) (8 * length bs - (8 * n + r)) (big_endian bs) (omega arith))

hash_pow-leading : (h : List ℕ) (z : ℕ) → hash_pow h z ≡ leading (z / 8) (z % 8) h
unfolding hash_pow leading
hash_pow-leading h z = refl

-- For `zero_bits` up to the number of bits of a list of bytes, `hash_pow` accepts the bytes exactly
-- if, read as a big-endian number, they are below 2 ^ (8 * bytes - zero_bits).
pub hash_pow_iff :
    (h : List ℕ) (zero_bits : ℕ)
    → IsBytes h
    → zero_bits ≤ 8 * length h
    → (hash_pow h zero_bits ≡ true) ↔ (big_endian h < 2 ^ (8 * length h - zero_bits))
hash_pow_iff h z p fits = decided (hash_pow h z) (
    rw (hash_pow-leading h z) (
      subst (λ n. Below (leading (z / 8) (z % 8) h) (big_endian h) (2 ^ (8 * length h - n)))
        (whole z) (leading-Below (z / 8) (z % 8) h p (omega arith) (omega arith))))
  where
    whole : (z : ℕ) → 8 * (z / 8) + z % 8 ≡ z
    whole z = omega arith

    decided : {x y : ℕ} (t : Bool) → Below t x y → (t ≡ true) ↔ (x < y)
    decided true d = (λ _. d, λ _. refl)
    decided false d = (λ e. cc, λ h. absurd (omega arith))
