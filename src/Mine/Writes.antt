-- ===== src/Mine/Writes.antt =====
-- Writes to accounts that are taken back in the order in which they were made.
use askcoin_core.Base.{
  sym, some, some_inj, u64_mod, ℕ, ◌+◌, ◌-◌, ◌%◌, ◌≡◌, ◌<◌, refl, ap, ◌∙◌, Bool, true, false, List,
  [], ◌∷◌, arith, ◌==◌, All, Bool-cases, inl, inr,
}
use askcoin_core.Account.{Account}
use askcoin_core.Ledger.{
  Ledger, find_account, update_account, balance_of, put_balance, set_balance, add_balance,
  sub_balance,
}

-- A balance is a uint64.
abbrev pub Fits : Account → Type 0
Fits a = a.balance < u64_mod

-- `m_balance += v`.
abbrev pub shift : ℕ → Account → Account
shift v a = record a { balance = (a.balance + v) % u64_mod }

-- A write and what takes it back.
pub record Write : Type 0 where
  pub target : ℕ
  pub act : Account → Account
  pub back : Account → Account

pub record IsUndone (w : Write) : Type 0 where
  pub act_id : (a : Account) → (w.act a).id ≡ a.id
  pub act_referrer : (a : Account) → (w.act a).referrer ≡ a.referrer
  pub back_id : (a : Account) → (w.back a).id ≡ a.id
  pub act_fits : (a : Account) → Fits a → Fits (w.act a)
  pub undone : (a : Account) → Fits a → w.back (w.act a) ≡ a

-- Taking back the first write may wait until after the second.
abbrev pub Commutes : Write → Write → Type 0
Commutes w v = (a : Account) → w.back (v.act a) ≡ v.act (w.back a)

abbrev pub do_writes : List Write → List Account → List Account
do_writes [] xs = xs
do_writes (w ∷ ws) xs = do_writes ws (update_account w.target w.act xs)

abbrev pub undo_writes : List Write → List Account → List Account
undo_writes [] xs = xs
undo_writes (w ∷ ws) xs = undo_writes ws (update_account w.target w.back xs)

abbrev pub AreUndone : List Write → Type 0
AreUndone [] = Unit
AreUndone (w ∷ ws) = IsUndone w × All (Commutes w) ws × AreUndone ws

pub update_account-Fits :
    (i : ℕ) (f : Account → Account) (xs : List Account)
    → ((a : Account) → Fits a → Fits (f a))
    → All Fits xs
    → All Fits (update_account i f xs)
unfolding update_account
update_account-Fits i f [] k h = tt
update_account-Fits i f (a ∷ xs) k h = elim (Bool-cases (a.id == i)) [
  | inl e ↦ rw e (k a h.0, h.1)
  | inr e ↦ rw e (h.0, update_account-Fits i f xs k h.1)
]

update_account-hit :
    (i : ℕ) (f : Account → Account) (a : Account) (xs : List Account)
    → (a.id == i) ≡ true
    → update_account i f (a ∷ xs) ≡ f a ∷ xs
unfolding update_account
update_account-hit i f a xs e = rw e refl

update_account-miss :
    (i : ℕ) (f : Account → Account) (a : Account) (xs : List Account)
    → (a.id == i) ≡ false
    → update_account i f (a ∷ xs) ≡ a ∷ update_account i f xs
unfolding update_account
update_account-miss i f a xs e = rw e refl

-- A write leaves the test on the id as it was.
same_test :
    (i : ℕ) (f : Account → Account) (a : Account) {b : Bool}
    → (f a).id ≡ a.id
    → (a.id == i) ≡ b
    → ((f a).id == i) ≡ b
same_test i f a p e = ap (λ n. n == i) p ∙ e

pub update_account-undone :
    (w : Write) (xs : List Account)
    → IsUndone w
    → All Fits xs
    → update_account w.target w.back (update_account w.target w.act xs) ≡ xs
unfolding update_account
update_account-undone w [] u h = refl
update_account-undone w (a ∷ xs) u h = elim (Bool-cases (a.id == w.target)) [
  | inl e ↦
      ap (update_account w.target w.back) (update_account-hit w.target w.act a xs e)
      ∙ update_account-hit w.target w.back (w.act a) xs (same_test w.target w.act a (u.act_id a) e)
      ∙ ap (λ b. b ∷ xs) (u.undone a h.0)
  | inr e ↦
      ap (update_account w.target w.back) (update_account-miss w.target w.act a xs e)
      ∙ update_account-miss w.target w.back a (update_account w.target w.act xs) e
      ∙ ap (λ ys. a ∷ ys) (update_account-undone w xs u h.1)
]

pub update_account_swap :
    (i j : ℕ) (f g : Account → Account) (xs : List Account)
    → ((a : Account) → (f a).id ≡ a.id)
    → ((a : Account) → (g a).id ≡ a.id)
    → ((a : Account) → f (g a) ≡ g (f a))
    → update_account i f (update_account j g xs) ≡ update_account j g (update_account i f xs)
unfolding update_account
update_account_swap i j f g [] p q c = refl
update_account_swap i j f g (a ∷ xs) p q c = elim (Bool-cases (a.id == i)) [
  | inl e ↦ elim (Bool-cases (a.id == j)) [
    | inl d ↦ cc (
      update_account-hit j g a xs d,
      update_account-hit i f (g a) xs (same_test i g a (q a) e),
      update_account-hit i f a xs e,
      update_account-hit j g (f a) xs (same_test j f a (p a) d),
      c a,
    )
    | inr d ↦ cc (
      update_account-miss j g a xs d,
      update_account-hit i f a (update_account j g xs) e,
      update_account-hit i f a xs e,
      update_account-miss j g (f a) xs (same_test j f a (p a) d),
    )
  ]
  | inr e ↦ elim (Bool-cases (a.id == j)) [
    | inl d ↦ cc (
      update_account-hit j g a xs d,
      update_account-miss i f (g a) xs (same_test i g a (q a) e),
      update_account-miss i f a xs e,
      update_account-hit j g a (update_account i f xs) d,
    )
    | inr d ↦ cc (
      update_account-miss j g a xs d,
      update_account-miss i f a (update_account j g xs) e,
      update_account-miss i f a xs e,
      update_account-miss j g a (update_account i f xs) d,
      update_account_swap i j f g xs p q c,
    )
  ]
]

-- The first write is taken back before the others as well as after them.
undo_first :
    (w : Write) (ws : List Write) (xs : List Account)
    → IsUndone w
    → All (Commutes w) ws
    → AreUndone ws
    → update_account w.target w.back (do_writes ws xs)
      ≡ do_writes ws (update_account w.target w.back xs)
undo_first w [] xs u c us = refl
undo_first w (v ∷ vs) xs u c us =
    undo_first w vs (update_account v.target v.act xs) u c.1 us.2
    ∙ ap (do_writes vs)
        (update_account_swap w.target v.target w.back v.act xs u.back_id us.0.act_id c.0)

-- What is taken back in the order in which it was written leaves the accounts as they were.
pub undo_writes-do_writes :
    (ws : List Write) (xs : List Account)
    → AreUndone ws
    → All Fits xs
    → undo_writes ws (do_writes ws xs) ≡ xs
undo_writes-do_writes [] xs us h = refl
undo_writes-do_writes (w ∷ ws) xs us h =
    ap (undo_writes ws) (
      undo_first w ws (update_account w.target w.act xs) us.0 us.1 us.2
      ∙ ap (do_writes ws) (update_account-undone w xs us.0 h))
    ∙ undo_writes-do_writes ws xs us.2 h

balance_of-hit :
    (i : ℕ) (a : Account) (xs : List Account)
    → (a.id == i) ≡ true
    → balance_of i (a ∷ xs) ≡ a.balance
unfolding balance_of find_account
balance_of-hit i a xs e = rw e refl

balance_of-miss :
    (i : ℕ) (a : Account) (xs : List Account)
    → (a.id == i) ≡ false
    → balance_of i (a ∷ xs) ≡ balance_of i xs
unfolding balance_of find_account
balance_of-miss i a xs e = rw e refl

-- Writing a value that is computed from the balance.
update_account-balance :
    (g : ℕ → ℕ) (i : ℕ) (xs : List Account)
    → update_account i (put_balance (g (balance_of i xs))) xs
      ≡ update_account i (λ a. put_balance (g a.balance) a) xs
unfolding update_account
update_account-balance g i [] = refl
update_account-balance g i (a ∷ xs) = elim (Bool-cases (a.id == i)) [
  | inl e ↦ cc (
    balance_of-hit i a xs e,
    update_account-hit i (put_balance (g (balance_of i (a ∷ xs)))) a xs e,
    update_account-hit i (λ b. put_balance (g b.balance) b) a xs e,
  )
  | inr e ↦ cc (
    balance_of-miss i a xs e,
    update_account-miss i (put_balance (g (balance_of i (a ∷ xs)))) a xs e,
    update_account-miss i (λ b. put_balance (g b.balance) b) a xs e,
    update_account-balance g i xs,
  )
]

-- The balance changes of the ledger are such writes.
pub accounts-add_balance :
    (i v : ℕ) (s : Ledger) → (add_balance i v s).accounts ≡ update_account i (shift v) s.accounts
unfolding add_balance set_balance
accounts-add_balance i v s = update_account-balance (λ n. (n + v) % u64_mod) i s.accounts

-- `m_balance -= v`.
abbrev pub unshift : ℕ → Account → Account
unshift v a = record a { balance = (a.balance + u64_mod - v) % u64_mod }

pub accounts-sub_balance :
    (i v : ℕ) (s : Ledger) → (sub_balance i v s).accounts ≡ update_account i (unshift v) s.accounts
unfolding sub_balance set_balance
accounts-sub_balance i v s = update_account-balance (λ n. (n + u64_mod - v) % u64_mod) i s.accounts

-- Coins given, and coins taken.
abbrev pub give : ℕ → ℕ → Write
give i v = record { target = i; act = shift v; back = unshift v }

abbrev pub take : ℕ → ℕ → Write
take i v = record { target = i; act = unshift v; back = shift v }

pub give-IsUndone : (i v : ℕ) → v < u64_mod → IsUndone (give i v)
give-IsUndone i v h = record {
  act_id = λ a. refl;
  act_referrer = λ a. refl;
  back_id = λ a. refl;
  act_fits = λ a p. omega arith;
  undone = λ a p. ap (λ n. record a { balance = n }) (the_sum a.balance p);
}
  where
    the_sum : (b : ℕ) → b < u64_mod → ((b + v) % u64_mod + u64_mod - v) % u64_mod ≡ b
    the_sum b p = omega arith

pub take-IsUndone : (i v : ℕ) → v < u64_mod → IsUndone (take i v)
take-IsUndone i v h = record {
  act_id = λ a. refl;
  act_referrer = λ a. refl;
  back_id = λ a. refl;
  act_fits = λ a p. omega arith;
  undone = λ a p. ap (λ n. record a { balance = n }) (the_sum a.balance p);
}
  where
    the_sum : (b : ℕ) → b < u64_mod → ((b + u64_mod - v) % u64_mod + v) % u64_mod ≡ b
    the_sum b p = omega arith

-- Coins given and taken commute.
pub give-give : (i v j w : ℕ) → v < u64_mod → w < u64_mod → Commutes (give i v) (give j w)
give-give i v j w h k a = ap (λ n. record a { balance = n }) (the_sum a.balance)
  where
    the_sum :
        (b : ℕ)
        → ((b + w) % u64_mod + u64_mod - v) % u64_mod ≡ ((b + u64_mod - v) % u64_mod + w) % u64_mod
    the_sum b = omega arith

pub give-take : (i v j w : ℕ) → v < u64_mod → w < u64_mod → Commutes (give i v) (take j w)
give-take i v j w h k a = ap (λ n. record a { balance = n }) (the_sum a.balance)
  where
    the_sum :
        (b : ℕ)
        → ((b + u64_mod - w) % u64_mod + u64_mod - v) % u64_mod
          ≡ ((b + u64_mod - v) % u64_mod + u64_mod - w) % u64_mod
    the_sum b = omega arith

pub take-give : (i v j w : ℕ) → Commutes (take i v) (give j w)
take-give i v j w a = ap (λ n. record a { balance = n }) (the_sum a.balance)
  where
    the_sum : (b : ℕ) → ((b + w) % u64_mod + v) % u64_mod ≡ ((b + v) % u64_mod + w) % u64_mod
    the_sum b = omega arith

pub take-take : (i v j w : ℕ) → w < u64_mod → Commutes (take i v) (take j w)
take-take i v j w k a = ap (λ n. record a { balance = n }) (the_sum a.balance)
  where
    the_sum :
        (b : ℕ)
        → ((b + u64_mod - w) % u64_mod + v) % u64_mod ≡ ((b + v) % u64_mod + u64_mod - w) % u64_mod
    the_sum b = omega arith

-- A write to an account and what takes it back, there.
pub accounts_back :
    (i : ℕ) (act back : Account → Account) (a : Account) (xs : List Account)
    → find_account i xs ≡ some a
    → ((b : Account) → (act b).id ≡ b.id)
    → back (act a) ≡ a
    → update_account i back (update_account i act xs) ≡ xs
unfolding find_account update_account
accounts_back i act back a [] e k h = cc
accounts_back i act back a (b ∷ xs) e k h = elim (Bool-cases (b.id == i)) [
  | inl hit ↦
      let same : b ≡ a = some_inj (rw hit at e) in
      rw hit (
        again b xs (ap (λ n. n == i) (k b) ∙ hit)
        ∙ ap (λ c. c ∷ xs) (ap (λ c. back (act c)) same ∙ h ∙ sym same))
  | inr miss ↦
      rw miss (rw miss (ap (λ ys. b ∷ ys) (accounts_back i act back a xs (rw miss at e) k h)))
]
  where
    again :
        (b : Account) (xs : List Account)
        → ((act b).id == i) ≡ true
        → update_account i back (act b ∷ xs) ≡ back (act b) ∷ xs
    again b xs hit = rw hit refl
