-- ===== src/Ledger/Rich.antt =====
-- account.hpp and blockchain.cpp, `m_account_by_rich`: the set of accounts that is ordered by wealth.
use askcoin_core.Base.{
  ℕ, Bool, true, false, List, [], ◌∷◌, ◌==◌, if◌then◌else◌, ◌≡◌, ◌∙◌, refl, subst, ==_iff, ◌<◌, ◌⊎◌,
  ◌↔◌, arith, All, All-map, Bool-cases, inl, inr,
}
use askcoin_core.Account.{Account}
use askcoin_core.Ledger.{
  Ledger, find_account, update_account, put_balance, bal_in, balance_of, rich_comp, scan_equal,
  del_rich, add_rich, set_balance,
}

-- The order of the set: the richer account first, then the older.
abbrev pub Ahead : (ℕ → ℕ) → ℕ → ℕ → Type 0
Ahead bal a b = (bal b < bal a) ⊎ ((bal a ≡ bal b) × (a < b))

rich_comp_iff : (bal : ℕ → ℕ) (a b : ℕ) → (rich_comp bal a b ≡ true) ↔ Ahead bal a b
unfolding rich_comp
rich_comp_iff bal a b = ground arith

-- The list is strictly in that order, so without repetitions.
abbrev pub IsRanked : (ℕ → ℕ) → List ℕ → Type 0
IsRanked bal [] = Unit
IsRanked bal (x ∷ xs) = All (Ahead bal x) xs × IsRanked bal xs

abbrev pub listed : ℕ → List ℕ → Bool
listed a [] = false
listed a (x ∷ xs) = if x == a then true else listed a xs

abbrev Other : ℕ → ℕ → Type 0
Other a x = (x == a) ≡ false

Ahead-trans : (bal : ℕ → ℕ) (a b c : ℕ) → Ahead bal a b → Ahead bal b c → Ahead bal a c
Ahead-trans bal a b c h k = ground arith

Ahead-Other : (bal : ℕ → ℕ) (a : ℕ) (xs : List ℕ) → All (Ahead bal a) xs → All (Other a) xs
Ahead-Other bal a xs h = All-map (Ahead bal a) (Other a) (λ x p. ground arith) xs h

All-scan_equal :
    (P : ℕ → Type 0) (bal : ℕ → ℕ) (a : ℕ) (xs : List ℕ) → All P xs → All P (scan_equal bal a xs)
unfolding scan_equal
All-scan_equal P bal a [] h = tt
All-scan_equal P bal a (x ∷ xs) h = elim (Bool-cases (rich_comp bal a x)) [
  | inl e ↦ rw e h
  | inr e ↦ elim (Bool-cases (x == a)) [
    | inl f ↦ rw (e, f) h.1
    | inr f ↦ rw (e, f) (h.0, All-scan_equal P bal a xs h.1)
  ]
]

All-del_rich :
    (P : ℕ → Type 0) (bal : ℕ → ℕ) (a : ℕ) (xs : List ℕ) → All P xs → All P (del_rich bal a xs)
unfolding del_rich
All-del_rich P bal a [] h = tt
All-del_rich P bal a (x ∷ xs) h = elim (Bool-cases (rich_comp bal x a)) [
  | inl e ↦ rw e (h.0, All-del_rich P bal a xs h.1)
  | inr e ↦ rw e (All-scan_equal P bal a (x ∷ xs) h)
]

-- In order without the account `a`.
abbrev Without : (ℕ → ℕ) → ℕ → List ℕ → Type 0
Without bal a xs = IsRanked bal xs × All (Other a) xs

scan_equal-Without :
    (bal : ℕ → ℕ) (a x : ℕ) (xs : List ℕ)
    → rich_comp bal x a ≡ false
    → IsRanked bal (x ∷ xs)
    → Without bal a (scan_equal bal a (x ∷ xs))
unfolding scan_equal
scan_equal-Without bal a x xs back h = elim (Bool-cases (rich_comp bal a x)) [
  | inl e ↦ rw e (h, (ground (arith, (rich_comp_iff bal a x).0 e), after e))
  | inr e ↦ elim (Bool-cases (x == a)) [
    | inl f ↦
        rw (e, f)
          (h.1, Ahead-Other bal a xs (subst (λ n. All (Ahead bal n) xs) ((==_iff x a).0 f) h.0))
    | inr f ↦ absurd (ground (arith, rich_comp_iff bal a x, rich_comp_iff bal x a))
  ]
]
  where
    after : rich_comp bal a x ≡ true → All (Other a) xs
    after e = Ahead-Other bal a xs (
        All-map (Ahead bal x) (Ahead bal a)
          (λ y p. Ahead-trans bal a x y ((rich_comp_iff bal a x).0 e) p) xs h.0)

del_rich-Without :
    (bal : ℕ → ℕ) (a : ℕ) (xs : List ℕ) → IsRanked bal xs → Without bal a (del_rich bal a xs)
unfolding del_rich
del_rich-Without bal a [] h = (tt, tt)
del_rich-Without bal a (x ∷ xs) h = elim (Bool-cases (rich_comp bal x a)) [
  | inl e ↦
      let r : Without bal a (del_rich bal a xs) = del_rich-Without bal a xs h.1 in
      rw e (
        (All-del_rich (Ahead bal x) bal a xs h.0, r.0),
        (ground (arith, (rich_comp_iff bal x a).0 e), r.1),
      )
  | inr e ↦ rw e (scan_equal-Without bal a x xs e h)
]

-- The other accounts keep their balances, and so their order.
IsRanked-agree :
    (bal bal' : ℕ → ℕ) (a : ℕ)
    → ((j : ℕ) → Other a j → bal' j ≡ bal j)
    → (xs : List ℕ) → Without bal a xs
    → IsRanked bal' xs
IsRanked-agree bal bal' a same [] h = tt
IsRanked-agree bal bal' a same (x ∷ xs) h =
    (later xs h.0.0 h.1.1, IsRanked-agree bal bal' a same xs (h.0.1, h.1.1))
  where
    later : (ys : List ℕ) → All (Ahead bal x) ys → All (Other a) ys → All (Ahead bal' x) ys
    later [] p q = tt
    later (y ∷ ys) p q = (ground (arith, p.0, same x h.1.0, same y q.0), later ys p.1 q.1)

All-add_rich :
    (P : ℕ → Type 0) (bal : ℕ → ℕ) (a : ℕ) (xs : List ℕ)
    → P a
    → All P xs
    → All P (add_rich bal a xs)
unfolding add_rich
All-add_rich P bal a [] p h = (p, tt)
All-add_rich P bal a (x ∷ xs) p h = elim (Bool-cases (rich_comp bal a x)) [
  | inl e ↦ rw e (p, h)
  | inr e ↦ rw e (h.0, All-add_rich P bal a xs p h.1)
]

add_rich-IsRanked :
    (bal : ℕ → ℕ) (a : ℕ) (xs : List ℕ) → Without bal a xs → IsRanked bal (add_rich bal a xs)
unfolding add_rich
add_rich-IsRanked bal a [] h = (tt, tt)
add_rich-IsRanked bal a (x ∷ xs) h = elim (Bool-cases (rich_comp bal a x)) [
  | inl e ↦
      let first : Ahead bal a x = (rich_comp_iff bal a x).0 e in
      rw e (
        (
          first,
          All-map (Ahead bal x) (Ahead bal a) (λ y p. Ahead-trans bal a x y first p) xs h.0.0,
        ),
        h.0,
      )
  | inr e ↦ rw e (
    All-add_rich (Ahead bal x) bal a xs (ground (arith, rich_comp_iff bal a x, h.1.0)) h.0.0,
    add_rich-IsRanked bal a xs (h.0.1, h.1.1),
  )
]

listed-scan_equal :
    (bal : ℕ → ℕ) (a j : ℕ) (xs : List ℕ)
    → (j == a) ≡ false
    → listed j (scan_equal bal a xs) ≡ listed j xs
unfolding scan_equal
listed-scan_equal bal a j [] e = refl
listed-scan_equal bal a j (x ∷ xs) e = ground (arith, listed-scan_equal bal a j xs e)

listed-del_rich :
    (bal : ℕ → ℕ) (a j : ℕ) (xs : List ℕ)
    → (j == a) ≡ false
    → listed j (del_rich bal a xs) ≡ listed j xs
unfolding del_rich
listed-del_rich bal a j [] e = refl
listed-del_rich bal a j (x ∷ xs) e =
    ground (arith, listed-del_rich bal a j xs e, listed-scan_equal bal a j (x ∷ xs) e)

listed-add_rich :
    (bal : ℕ → ℕ) (a j : ℕ) (xs : List ℕ)
    → listed j (add_rich bal a xs) ≡ (if j == a then true else listed j xs)
unfolding add_rich
listed-add_rich bal a j [] = ground arith
listed-add_rich bal a j (x ∷ xs) = ground (arith, listed-add_rich bal a j xs)

balance_of-Other :
    (i j v : ℕ) (xs : List Account)
    → Other i j
    → balance_of j (update_account i (put_balance v) xs) ≡ balance_of j xs
unfolding update_account balance_of find_account
balance_of-Other i j v [] o = refl
balance_of-Other i j v (a ∷ xs) o = ground (arith, balance_of-Other i j v xs o)

-- If the set of accounts is in the order of wealth, it is so again after a change of one balance, and
-- lists that account and otherwise the same accounts as before.
pub set_balance-IsRanked :
    (i v : ℕ) (s : Ledger)
    → IsRanked (bal_in s.accounts) s.rich
    → IsRanked (bal_in (set_balance i v s).accounts) (set_balance i v s).rich
      × ((j : ℕ) → listed j (set_balance i v s).rich ≡ (if j == i then true else listed j s.rich))
unfolding set_balance
set_balance-IsRanked i v s h = (
  add_rich-IsRanked changed i left
      (IsRanked-agree (bal_in s.accounts) changed i same left kept, kept.1),
  λ j. elim (Bool-cases (j == i)) [
    | inl e ↦ listed-add_rich changed i j left ∙ rw e refl
    | inr e ↦
        listed-add_rich changed i j left ∙ rw e (listed-del_rich (bal_in s.accounts) i j s.rich e)
  ],
)
  where
    changed : ℕ → ℕ
    changed = bal_in (update_account i (put_balance v) s.accounts)

    left : List ℕ
    left = del_rich (bal_in s.accounts) i s.rich

    kept : Without (bal_in s.accounts) i left
    kept = del_rich-Without (bal_in s.accounts) i s.rich h

    same : (j : ℕ) → Other i j → changed j ≡ bal_in s.accounts j
    same j o = balance_of-Other i j v s.accounts o
