-- ===== src/Timers/Order.antt =====
-- The set of timers stays in the order of the ticks, each timer once.
use askcoin_core.Base.{
  ℕ, ◌≤◌, ◌<◌, ◌≡◌, refl, sym, ap, subst, true, false, none, some, List, [], ◌∷◌, ltb, ◌==◌, arith,
  All, All-map, Bool-cases, inl, inr, ==_iff, ltb→lt, ltb-false→le,
}
use askcoin_core.Base.Dict.{contains, erase, nat_key}
use askcoin_core.Timers.{insert_timer, keep_first, erase_equal, erase_timer}

-- A timer is not in the set.
abbrev pub IsOut : ℕ → List ℕ → Type 0
IsOut i xs = contains i xs ≡ false

abbrev pub IsOrdered : (ℕ → ℕ) → List ℕ → Type 0
IsOrdered tick [] = Unit
IsOrdered tick (x ∷ xs) = All (λ y. tick x ≤ tick y) xs × IsOut x xs × IsOrdered tick xs

All-insert_timer :
    (P : ℕ → Type 0) (tick : ℕ → ℕ) (i : ℕ) (xs : List ℕ)
    → P i
    → All P xs
    → All P (insert_timer tick i xs)
unfolding insert_timer
All-insert_timer P tick i [] p h = (p, tt)
All-insert_timer P tick i (x ∷ xs) p h = elim (Bool-cases (ltb (tick i) (tick x))) [
  | inl e ↦ rw e (p, h)
  | inr e ↦ rw e (h.0, All-insert_timer P tick i xs p h.1)
]

pub insert_timer-IsOut :
    (tick : ℕ → ℕ) (i j : ℕ) (xs : List ℕ)
    → (j == i) ≡ false
    → IsOut j xs
    → IsOut j (insert_timer tick i xs)
unfolding insert_timer
insert_timer-IsOut tick i j [] d h = rw d refl
insert_timer-IsOut tick i j (x ∷ xs) d h = ground (arith, d, h, insert_timer-IsOut tick i j xs d)

pub All-contains : (P : ℕ → Type 0) (i : ℕ) (xs : List ℕ) → All P xs → contains i xs ≡ true → P i
All-contains P i [] h e = cc
All-contains P i (x ∷ xs) h e = elim (Bool-cases (i == x)) [
  | inl hit ↦ subst P (sym ((==_iff i x).0 hit)) h.0
  | inr miss ↦ All-contains P i xs h.1 (rw miss at e)
]

-- Another timer's test, the other way round.
pub apart : (i x : ℕ) → (i == x) ≡ false → (x == i) ≡ false
apart i x e = ground arith

pub insert_timer-IsOrdered :
    (tick : ℕ → ℕ) (i : ℕ) (xs : List ℕ)
    → IsOut i xs
    → IsOrdered tick xs
    → IsOrdered tick (insert_timer tick i xs)
unfolding insert_timer
insert_timer-IsOrdered tick i [] n h = (tt, refl, tt)
insert_timer-IsOrdered tick i (x ∷ xs) n h = elim (Bool-cases (i == x)) [
  | inl same ↦ absurd (cc (rw same at n))
  | inr other ↦ elim (Bool-cases (ltb (tick i) (tick x))) [
    | inl e ↦ rw e (
        let first : tick i < tick x = ltb→lt (tick i) (tick x) e in
        (
          (
            omega arith,
            All-map (λ y. tick x ≤ tick y) (λ y. tick i ≤ tick y) (λ y k. omega arith) xs h.0,
          ),
          n,
          h,
        ))
    | inr e ↦ rw e (
      All-insert_timer (λ y. tick x ≤ tick y) tick i xs (ltb-false→le (tick i) (tick x) e) h.0,
      insert_timer-IsOut tick i x xs (apart i x other) h.1,
      insert_timer-IsOrdered tick i xs (rw other at n) h.2,
    )
  ]
]

-- In an ordered set, the search among the equal ticks finds the timer.
erase_equal-some :
    (tick : ℕ → ℕ) (i : ℕ) (xs : List ℕ)
    → IsOrdered tick xs
    → contains i xs ≡ true
    → erase_equal tick i xs ≡ some (erase i xs)
unfolding erase_equal
erase_equal-some tick i [] h e = cc
erase_equal-some tick i (x ∷ xs) h e = elim (Bool-cases (ltb (tick i) (tick x))) [
  | inl less ↦
      let more : tick x ≤ tick i =
        All-contains (λ y. tick x ≤ tick y) i (x ∷ xs) (omega arith, h.0) e in
      absurd (omega (arith, more, ltb→lt (tick i) (tick x) less))
  | inr le ↦ elim (Bool-cases (i == x)) [
    | inl hit ↦ rw (le, hit) (ground (arith, hit))
    | inr miss ↦
        rw (le, miss, apart i x miss)
          (ap (keep_first x) (erase_equal-some tick i xs h.2 (rw miss at e)))
  ]
]

pub erase_timer-some :
    (tick : ℕ → ℕ) (i : ℕ) (xs : List ℕ)
    → IsOrdered tick xs
    → contains i xs ≡ true
    → erase_timer tick i xs ≡ some (erase i xs)
unfolding erase_timer
erase_timer-some tick i [] h e = cc
erase_timer-some tick i (x ∷ xs) h e = elim (Bool-cases (ltb (tick x) (tick i))) [
  | inr le ↦ rw le (erase_equal-some tick i (x ∷ xs) h e)
  | inl less ↦ elim (Bool-cases (i == x)) [
    | inl hit ↦ absurd (omega (arith, ltb→lt (tick x) (tick i) less, ap tick ((==_iff i x).0 hit)))
    | inr miss ↦ rw (less, miss) (ap (keep_first x) (erase_timer-some tick i xs h.2 (rw miss at e)))
  ]
]

All-erase : (P : ℕ → Type 0) (i : ℕ) (xs : List ℕ) → All P xs → All P (erase i xs)
All-erase P i [] h = tt
All-erase P i (x ∷ xs) h = elim (Bool-cases (i == x)) [
  | inl hit ↦ rw hit h.1
  | inr miss ↦ rw miss (h.0, All-erase P i xs h.1)
]

pub erase-IsOut : (i j : ℕ) (xs : List ℕ) → IsOut j xs → IsOut j (erase i xs)
erase-IsOut i j [] h = refl
erase-IsOut i j (x ∷ xs) h = ground (arith, h, erase-IsOut i j xs)

pub erase-IsOrdered :
    (tick : ℕ → ℕ) (i : ℕ) (xs : List ℕ) → IsOrdered tick xs → IsOrdered tick (erase i xs)
erase-IsOrdered tick i [] h = tt
erase-IsOrdered tick i (x ∷ xs) h = elim (Bool-cases (i == x)) [
  | inl hit ↦ rw hit h.2
  | inr miss ↦ rw miss (
    All-erase (λ y. tick x ≤ tick y) i xs h.0,
    erase-IsOut i x xs h.1,
    erase-IsOrdered tick i xs h.2,
  )
]

-- What was erased is out.
pub erased-IsOut : (tick : ℕ → ℕ) (i : ℕ) (xs : List ℕ) → IsOrdered tick xs → IsOut i (erase i xs)
erased-IsOut tick i [] h = refl
erased-IsOut tick i (x ∷ xs) h = elim (Bool-cases (i == x)) [
  | inl hit ↦ rw hit (subst (λ j. IsOut j xs) (sym ((==_iff i x).0 hit)) h.1)
  | inr miss ↦ rw (miss, miss) (erased-IsOut tick i xs h.2)
]

erase_equal-none : (tick : ℕ → ℕ) (i : ℕ) (xs : List ℕ) → IsOut i xs → erase_equal tick i xs ≡ none
unfolding erase_equal
erase_equal-none tick i [] n = refl
erase_equal-none tick i (x ∷ xs) n = elim (Bool-cases (i == x)) [
  | inl hit ↦ absurd (cc (rw hit at n))
  | inr miss ↦ elim (Bool-cases (ltb (tick i) (tick x))) [
    | inl less ↦ rw less refl
    | inr le ↦
        rw (le, apart i x miss) (ap (keep_first x) (erase_equal-none tick i xs (rw miss at n)))
  ]
]

pub erase_timer-none :
    (tick : ℕ → ℕ) (i : ℕ) (xs : List ℕ) → IsOut i xs → erase_timer tick i xs ≡ none
unfolding erase_timer
erase_timer-none tick i [] n = refl
erase_timer-none tick i (x ∷ xs) n = elim (Bool-cases (ltb (tick x) (tick i))) [
  | inr le ↦ rw le (erase_equal-none tick i (x ∷ xs) n)
  | inl less ↦ elim (Bool-cases (i == x)) [
    | inl hit ↦ absurd (cc (rw hit at n))
    | inr miss ↦ rw less (ap (keep_first x) (erase_timer-none tick i xs (rw miss at n)))
  ]
]
