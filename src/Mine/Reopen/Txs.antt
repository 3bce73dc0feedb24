-- ===== src/Mine/Reopen/Txs.antt =====
-- The transactions that expire and are put back.
use askcoin_core.Base.{
  ℕ, ◌≡◌, refl, ap, sym, subst, ◌∙◌, Bool, true, false, ◌||◌, Option, none, some, List, [], ◌∷◌, ok,
  if◌then◌else◌, All, Bool-cases, inl, inr,
}
use askcoin_core.Base.Text.{Str, str_eq, str_eq_iff}
use askcoin_core.Base.Dict.{contains, lookup, has_key, insert_entry, erase_key, str_key}
use askcoin_core.Ledger.Expiry.{erase_txs, push_front_all}
use askcoin_core.Mine.Reopen.{reopen_txs}

-- A map has a key once.
abbrev pub AreUnique : List (Str × ℕ) → Type 0
AreUnique [] = Unit
AreUnique ((k, v) ∷ d) = (has_key k d ≡ false) × AreUnique d

has_key-lookup : (k : Str) (d : List (Str × ℕ)) → has_key k d ≡ false → lookup k d ≡ none
has_key-lookup k d h = of_option (lookup k d) h
  where
    of_option : (o : Option ℕ) → (elim o [ none ↦ false | some v ↦ true ]) ≡ false → o ≡ none
    of_option none e = refl
    of_option (some v) e = absurd (cc e)

-- A key is gone, and the others are as before.
lookup-erase_key :
    (k x : Str) (d : List (Str × ℕ))
    → AreUnique d
    → lookup k (erase_key x d) ≡ (if str_eq k x then none else lookup k d)
lookup-erase_key k x [] u = elim (Bool-cases (str_eq k x)) [ inl e ↦ rw e refl | inr e ↦ rw e refl ]
lookup-erase_key k x ((y, v) ∷ d) u = elim (Bool-cases (str_eq k x)) [
  | inl e ↦
      let same : k ≡ x = (str_eq_iff k x).0 e in
      elim (Bool-cases (str_eq x y)) [
        | inl hit ↦
            let this : k ≡ y = same ∙ (str_eq_iff x y).0 hit in
            rw (hit, e) (has_key-lookup k d (subst (λ z. has_key z d ≡ false) (sym this) u.0))
        | inr miss ↦
            let other : str_eq k y ≡ false = ap (λ z. str_eq z y) same ∙ miss in
            rw (miss, other, e) (lookup-erase_key k x d u.1 ∙ rw e refl)
      ]
  | inr e ↦ elim (Bool-cases (str_eq x y)) [
    | inl hit ↦
        let other : str_eq k y ≡ false = ap (str_eq k) (sym ((str_eq_iff x y).0 hit)) ∙ e in
        rw (hit, e, other) refl
    | inr miss ↦
        rw (miss, e)
          (elim (Bool-cases (str_eq k y)) [
            | inl here ↦ rw here refl
            | inr there ↦ rw there (lookup-erase_key k x d u.1 ∙ rw e refl)
          ])
  ]
]

AreUnique-erase_key : (x : Str) (d : List (Str × ℕ)) → AreUnique d → AreUnique (erase_key x d)
AreUnique-erase_key x [] u = tt
AreUnique-erase_key x ((y, v) ∷ d) u = elim (Bool-cases (str_eq x y)) [
  | inl hit ↦ rw hit u.1
  | inr miss ↦ rw miss (still, AreUnique-erase_key x d u.1)
]
  where
    still : has_key y (erase_key x d) ≡ false
    still = elim (Bool-cases (str_eq y x)) [
      | inl e ↦ rw (has_key, lookup-erase_key y x d u.1, e) refl
      | inr e ↦ rw (has_key, lookup-erase_key y x d u.1, e) u.0
    ]

-- What is left when transactions are erased.
erase_txs-lookup :
    (is : List Str) (m d : List (Str × ℕ)) (k : Str)
    → AreUnique m
    → erase_txs is m ≡ ok d
    → lookup k d ≡ (if contains k is then none else lookup k m)
unfolding erase_txs
erase_txs-lookup [] m d k u e = ap (lookup k) (sym (of_ok e))
  where
    of_ok : {a b : List (Str × ℕ)} → ok a ≡ ok b → a ≡ b
    of_ok f = cc f
erase_txs-lookup (i ∷ is) m d k u e = elim (Bool-cases (has_key i m)) [
  | inl h ↦
      erase_txs-lookup is (erase_key i m) d k (AreUnique-erase_key i m u) (rw h at e)
      ∙ ap (λ o. if contains k is then none else o) (lookup-erase_key k i m u)
      ∙ elim (Bool-cases (str_eq k i)) [
        | inl hit ↦
            rw hit (elim (Bool-cases (contains k is)) [ inl c ↦ rw c refl | inr c ↦ rw c refl ])
        | inr miss ↦ rw miss refl
      ]
  | inr h ↦ absurd (cc (rw h at e))
]

-- An entry that does not replace another.
abbrev pub or_else : Option ℕ → Bool → ℕ → Option ℕ
or_else (some w) b v = some w
or_else none b v = if b then some v else none

or_else_no : (o : Option ℕ) (v : ℕ) → or_else o false v ≡ o
or_else_no none v = refl
or_else_no (some w) v = refl

or_else_found :
    (k : Str) (d : List (Str × ℕ)) (b : Bool) (v : ℕ)
    → has_key k d ≡ true
    → or_else (lookup k d) b v ≡ lookup k d
or_else_found k d b v h = of_option (lookup k d) h
  where
    of_option :
        (o : Option ℕ) → (elim o [ none ↦ false | some w ↦ true ]) ≡ true → or_else o b v ≡ o
    of_option none e = absurd (cc e)
    of_option (some w) e = refl

lookup-insert_entry :
    (k x : Str) (v : ℕ) (d : List (Str × ℕ))
    → lookup k (insert_entry x v d) ≡ or_else (lookup k d) (str_eq k x) v
lookup-insert_entry k x v d = elim (Bool-cases (has_key x d)) [
  | inl old ↦ rw old (elim (Bool-cases (str_eq k x)) [
    | inl e ↦ sym (
        or_else_found k d (str_eq k x) v
          (subst (λ z. has_key z d ≡ true) (sym ((str_eq_iff k x).0 e)) old))
    | inr e ↦ rw e (sym (or_else_no (lookup k d) v))
  ])
  | inr new ↦ rw new (elim (Bool-cases (str_eq k x)) [
    | inl e ↦
        rw
          (
            e,
            has_key-lookup k d (subst (λ z. has_key z d ≡ false) (sym ((str_eq_iff k x).0 e)) new),
          )
          refl
    | inr e ↦ rw e (sym (or_else_no (lookup k d) v))
  ])
]

or_else_twice :
    (o : Option ℕ) (b c : Bool) (v : ℕ)
    → or_else (or_else o b v) c v ≡ or_else o (if b then true else c) v
or_else_twice (some w) b c v = refl
or_else_twice none true c v = refl
or_else_twice none false c v = refl

-- What is there when transactions are put back.
reopen_txs-lookup :
    (b : ℕ) (js : List Str) (m : List (Str × ℕ))
    → (d : List (Str × ℕ)) × (reopen_txs (some b) js m ≡ ok d)
      × ((k : Str) → lookup k d ≡ or_else (lookup k m) (contains k js) b)
unfolding reopen_txs
reopen_txs-lookup b [] m = (m, refl, λ k. sym (or_else_no (lookup k m) b))
reopen_txs-lookup b (j ∷ js) m =
    let (d, done, found) = reopen_txs-lookup b js (insert_entry j b m) in
    (
      d,
      done,
      λ k.
          found k
          ∙ ap (λ o. or_else o (contains k js) b) (lookup-insert_entry k j b m)
          ∙ or_else_twice (lookup k m) (str_eq k j) (contains k js) b,
    )

pub contains-push_front_all :
    (k : Str) (is acc : List Str)
    → contains k (push_front_all is acc) ≡ (contains k is || contains k acc)
contains-push_front_all k [] acc = refl
contains-push_front_all k (i ∷ is) acc =
    contains-push_front_all k is (i ∷ acc)
    ∙ elim (Bool-cases (str_eq k i)) [ inl e ↦ rw e (or_true (contains k is)) | inr e ↦ rw e refl ]
  where
    or_true : (b : Bool) → (b || true) ≡ true
    or_true true = refl
    or_true false = refl

listed_block :
    (b : ℕ) (k : Str) (is : List Str) (m : List (Str × ℕ))
    → All (λ i. lookup i m ≡ some b) is
    → contains k is ≡ true
    → lookup k m ≡ some b
listed_block b k [] m h c = absurd (cc c)
listed_block b k (i ∷ is) m h c = elim (Bool-cases (str_eq k i)) [
  | inl e ↦ subst (λ z. lookup z m ≡ some b) (sym ((str_eq_iff k i).0 e)) h.0
  | inr e ↦ listed_block b k is m h.1 (rw e at c)
]

-- The transactions of a block that were erased come back, in any order.
pub reopen_txs-erase_txs :
    (b : ℕ) (is js : List Str) (m d : List (Str × ℕ))
    → AreUnique m
    → All (λ i. lookup i m ≡ some b) js
    → ((k : Str) → contains k js ≡ contains k is)
    → erase_txs is m ≡ ok d
    → (e : List (Str × ℕ)) × (reopen_txs (some b) js d ≡ ok e)
      × ((k : Str) → lookup k e ≡ lookup k m)
reopen_txs-erase_txs b is js m d u h same ran =
    let (e, done, found) = reopen_txs-lookup b js d in
    (
      e,
      done,
      λ k.
          found k
          ∙ ap (λ o. or_else o (contains k js) b) (erase_txs-lookup is m d k u ran)
          ∙ ap (λ c. or_else (if contains k is then none else lookup k m) c b) (same k)
          ∙ elim (Bool-cases (contains k is)) [
            | inl c ↦ rw c (sym (listed_block b k js m h (same k ∙ c)))
            | inr c ↦ rw c (or_else_no (lookup k m) b)
          ],
    )
