-- ===== src/Mine/Reopen/Sweep.antt =====
-- The same change for each member of a topic: all leave it, and all join it again.
use mathlib.Core.List.Perm
use mathlib.Core.List.{Perm}
use askcoin_core.Base.{
  ℕ, ◌≡◌, refl, ap, subst, ◌∙◌, true, false, List, [], ◌∷◌, Bool-cases, inl, inr, ◌==◌, arith,
}
use askcoin_core.Base.Text.{Str, str_eq, str_eq_iff}
use askcoin_core.Account.{Account, erase_first, leave_topic, is_in, joined_topic}
use askcoin_core.Topic.{is_member}
use askcoin_core.Ledger.{Ledger, find_account, update_account, edit_account}
use askcoin_core.Ledger.Expiry.{leave_all}
use askcoin_core.Mine.Writes.{update_account_swap}
use askcoin_core.Mine.Restore.{Sees, Sees-update_account}
use askcoin_core.Mine.Reopen.{rejoin, rejoin_all}
use askcoin_core.Mine.Reopen.Like.{
  AreLike, AreLike-refl, AreLike-trans, Respects, update_account-AreLike, update_account-back,
}

abbrev pub sweep : (Account → Account) → List (Str × ℕ) → List Account → List Account
sweep f [] xs = xs
sweep f ((tx, a) ∷ ms) xs = sweep f ms (update_account a f xs)

pub leave_all-sweep :
    (key : Str) (ms : List (Str × ℕ)) (s : Ledger)
    → leave_all key ms s ≡ record s { accounts = sweep (leave_topic key) ms s.accounts }
unfolding leave_all edit_account
leave_all-sweep key [] s = refl
leave_all-sweep key ((tx, a) ∷ ms) s = leave_all-sweep key ms (edit_account a (leave_topic key) s)

pub rejoin_all-sweep :
    (key : Str) (ms : List (Str × ℕ)) (s : Ledger)
    → rejoin_all key ms s ≡ record s { accounts = sweep (rejoin key) ms s.accounts }
unfolding rejoin_all edit_account
rejoin_all-sweep key [] s = refl
rejoin_all-sweep key ((tx, a) ∷ ms) s = rejoin_all-sweep key ms (edit_account a (rejoin key) s)

-- Another change may come before or after.
pub sweep_swap :
    (f g : Account → Account) (i : ℕ) (ms : List (Str × ℕ)) (xs : List Account)
    → ((a : Account) → (f a).id ≡ a.id)
    → ((a : Account) → (g a).id ≡ a.id)
    → ((a : Account) → g (f a) ≡ f (g a))
    → update_account i g (sweep f ms xs) ≡ sweep f ms (update_account i g xs)
sweep_swap f g i [] xs p q c = refl
sweep_swap f g i ((tx, a) ∷ ms) xs p q c =
    sweep_swap f g i ms (update_account a f xs) p q c
    ∙ ap (sweep f ms) (update_account_swap i a g f xs q p c)

pub sweep-AreLike :
    (f : Account → Account) (ms : List (Str × ℕ)) (xs ys : List Account)
    → Respects f
    → AreLike xs ys
    → AreLike (sweep f ms xs) (sweep f ms ys)
sweep-AreLike f [] xs ys r h = h
sweep-AreLike f ((tx, a) ∷ ms) xs ys r h =
    sweep-AreLike f ms (update_account a f xs) (update_account a f ys) r
      (update_account-AreLike a f xs ys r h)

pub Sees-sweep :
    {A : Type 0} (g : Account → A) (i : ℕ) (v : A) (f : Account → Account) (ms : List (Str × ℕ))
    (xs : List Account)
    → ((a : Account) → (f a).id ≡ a.id)
    → ((a : Account) → g (f a) ≡ g a)
    → Sees g i v xs
    → Sees g i v (sweep f ms xs)
Sees-sweep g i v f [] xs p q h = h
Sees-sweep g i v f ((tx, a) ∷ ms) xs p q h =
    Sees-sweep g i v f ms (update_account a f xs) p q (Sees-update_account g i a v f xs p q h)

pub rejoin-Respects : (key : Str) → Respects (rejoin key)
rejoin-Respects key a b p = record {
  others = ap (rejoin key) p.others;
  joined = Perm.cons key p.joined;
}

-- The account is there, and has joined the topic.
abbrev pub HasJoined : Str → ℕ → List Account → Type 0
HasJoined key i xs = Sees (joined_topic key) i true xs

-- The members are different accounts, and have joined.
abbrev pub AreMembers : Str → List (Str × ℕ) → List Account → Type 0
AreMembers key [] xs = Unit
AreMembers key ((tx, a) ∷ ms) xs =
    HasJoined key a xs × (is_member a ms ≡ false) × AreMembers key ms xs

moved_front : (key : Str) (js : List Str) → is_in key js ≡ true → Perm js (key ∷ erase_first key js)
unfolding is_in erase_first
moved_front key [] h = absurd (cc h)
moved_front key (j ∷ js) h = elim (Bool-cases (str_eq j key)) [
  | inl hit ↦
      rw hit (subst (λ k. Perm (j ∷ js) (k ∷ js)) ((str_eq_iff j key).0 hit) (Perm.refl (j ∷ js)))
  | inr miss ↦ rw miss (
      Perm.trans (Perm.cons j (moved_front key js (rw miss at h)))
        (Perm.swap key j (erase_first key js)))
]

-- Who leaves a topic and joins it again.
rejoined :
    (key : Str) (i : ℕ) (xs : List Account)
    → HasJoined key i xs
    → AreLike xs (update_account i (rejoin key) (update_account i (leave_topic key) xs))
unfolding leave_topic joined_topic
rejoined key i xs (a, found, member) =
    update_account-back i (leave_topic key) (rejoin key) a xs found (λ b. refl)
      (record { others = refl; joined = moved_front key a.joined_topic_list member })

-- A change of another account.
find_account_elsewhere :
    (i j : ℕ) (f : Account → Account) (xs : List Account)
    → (j == i) ≡ false
    → ((a : Account) → (f a).id ≡ a.id)
    → find_account i (update_account j f xs) ≡ find_account i xs
unfolding find_account update_account
find_account_elsewhere i j f [] d k = refl
find_account_elsewhere i j f (a ∷ xs) d k = elim (Bool-cases (a.id == j)) [
  | inl hit ↦
      let other : (a.id == i) ≡ false = ground (arith, hit, d) in
      rw (hit, other, ap (λ n. n == i) (k a) ∙ other) refl
  | inr miss ↦ rw miss (elim (Bool-cases (a.id == i)) [
    | inl here ↦ rw here refl
    | inr there ↦ rw there (find_account_elsewhere i j f xs d k)
  ])
]

-- The others are still members when one has left.
still_members :
    (key : Str) (j : ℕ) (ms : List (Str × ℕ)) (xs : List Account)
    → is_member j ms ≡ false
    → AreMembers key ms xs
    → AreMembers key ms (update_account j (leave_topic key) xs)
unfolding is_member leave_topic
still_members key j [] xs d h = tt
still_members key j ((tx, a) ∷ ms) xs d ((b, found, member), once, rest) =
    let apart : (j == a) ≡ false = ground (arith, d) in
    let later : is_member j ms ≡ false = ground (arith, d) in
    (
      (b, find_account_elsewhere a j (leave_topic key) xs apart (λ c. refl) ∙ found, member),
      once,
      still_members key j ms xs later rest,
    )

-- All leave, and all join again.
pub all_rejoined :
    (key : Str) (ms : List (Str × ℕ)) (xs : List Account)
    → AreMembers key ms xs
    → AreLike xs (sweep (rejoin key) ms (sweep (leave_topic key) ms xs))
unfolding leave_topic
all_rejoined key [] xs h = AreLike-refl xs
all_rejoined key ((tx, a) ∷ ms) xs (here, once, rest) =
    let left : List Account = update_account a (leave_topic key) xs in
    subst (AreLike xs)
      (sweep_swap (rejoin key) (rejoin key) a ms (sweep (leave_topic key) ms left) (λ b. refl)
        (λ b. refl) (λ b. refl))
      (AreLike-trans xs (update_account a (rejoin key) left) _ (rejoined key a xs here) (
        update_account-AreLike a (rejoin key) left _ (rejoin-Respects key)
          (all_rejoined key ms left (still_members key a ms xs once rest))))

-- Leaving one topic is not leaving another.
pub joined_other :
    (key k : Str) (a : Account)
    → str_eq k key ≡ false
    → joined_topic key (leave_topic k a) ≡ joined_topic key a
unfolding joined_topic leave_topic is_in erase_first
joined_other key k a d = of_list a.joined_topic_list
  where
    of_list : (js : List Str) → is_in key (erase_first k js) ≡ is_in key js
    of_list [] = refl
    of_list (j ∷ js) = elim (Bool-cases (str_eq j k)) [
      | inl hit ↦ rw (hit, ap (λ z. str_eq z key) ((str_eq_iff j k).0 hit) ∙ d) refl
      | inr miss ↦ rw miss (elim (Bool-cases (str_eq j key)) [
        | inl here ↦ rw here refl
        | inr there ↦ rw there (of_list js)
      ])
    ]

-- A change that leaves the joined topics alone.
pub AreMembers-update :
    (key : Str) (i : ℕ) (f : Account → Account) (ms : List (Str × ℕ)) (xs : List Account)
    → ((a : Account) → (f a).id ≡ a.id)
    → ((a : Account) → joined_topic key (f a) ≡ joined_topic key a)
    → AreMembers key ms xs
    → AreMembers key ms (update_account i f xs)
AreMembers-update key i f [] xs p q h = tt
AreMembers-update key i f ((tx, a) ∷ ms) xs p q (here, once, rest) = (
  Sees-update_account (joined_topic key) a i true f xs p q here,
  once,
  AreMembers-update key i f ms xs p q rest,
)
