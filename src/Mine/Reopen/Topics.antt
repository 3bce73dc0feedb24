-- ===== src/Mine/Reopen/Topics.antt =====
-- The topics that expire and are put back.
use askcoin_core.Base.{
  u64_mod, ℕ, ◌≡◌, ◌<◌, refl, ap, sym, subst, ◌∙◌, true, false, Option, none, some, List, [], ◌∷◌,
  ok, ◌>>=◌, ◌>>◌, require, guard, ltb, if◌then◌else◌, All, Bool-cases, inl, inr,
}
use askcoin_core.Base.Text.{Str, str_eq, str_eq_iff}
use askcoin_core.Base.Dict.{insert, erase, str_key}
use askcoin_core.Account.{Account, drop_first, leave_topic}
use askcoin_core.Topic.{Topic}
use askcoin_core.Ledger.{
  Ledger, find_account, update_account, add_balance, sub_balance, set_balance, edit_account,
  reserve,
}
use askcoin_core.Ledger.Expiry.{pop_topic, owns_first, reclaim, leave_all, expire_topic}
use askcoin_core.Mine.Writes.{
  Fits, shift, unshift, give, give-IsUndone, update_account-undone, accounts-add_balance,
  accounts-sub_balance, accounts_back,
}
use askcoin_core.Mine.Restore.{Sees, Sees-update_account}
use askcoin_core.Mine.Reopen.{relist_topic, rejoin, rejoin_all, withdraw, reopen_topic}
use askcoin_core.Mine.Reopen.Like.{AreLike}
use askcoin_core.Mine.Reopen.Sweep.{
  sweep, leave_all-sweep, rejoin_all-sweep, sweep_swap, AreMembers, all_rejoined,
}

-- The accounts after the coins of a topic came to the reserve fund, and after they left it.
abbrev pub gave : ℕ → List Account → List Account
gave v xs = if ltb 0 v then update_account reserve (shift v) xs else xs

abbrev pub took : ℕ → List Account → List Account
took v xs = if ltb 0 v then update_account reserve (unshift v) xs else xs

reclaim-gave :
    (v : ℕ) (s : Ledger)
    → reclaim v s ≡ record s { accounts = gave v s.accounts; rich = (reclaim v s).rich }
unfolding reclaim add_balance set_balance
reclaim-gave v s = elim (Bool-cases (ltb 0 v)) [
  | inl h ↦ rw h (
      ap (λ xs. record s { accounts = xs; rich = (add_balance reserve v s).rich })
        (accounts-add_balance reserve v s))
  | inr h ↦ rw h refl
]

withdraw-took :
    (v : ℕ) (s : Ledger)
    → withdraw v s ≡ record s { accounts = took v s.accounts; rich = (withdraw v s).rich }
unfolding withdraw sub_balance set_balance
withdraw-took v s = elim (Bool-cases (ltb 0 v)) [
  | inl h ↦ rw h (
      ap (λ xs. record s { accounts = xs; rich = (sub_balance reserve v s).rich })
        (accounts-sub_balance reserve v s))
  | inr h ↦ rw h refl
]

-- The accounts after a topic has expired, and after it was put back.
abbrev pub closed : Topic → List Account → List Account
closed t xs =
    sweep (leave_topic t.key) t.members (update_account t.owner pop_topic (gave t.balance xs))

abbrev pub opened : Topic → List Account → List Account
opened t xs =
    sweep (rejoin t.key) t.members (took t.balance (update_account t.owner (relist_topic t.key) xs))

abbrev pub IsThere : ℕ → List Account → Type 0
IsThere i xs = Sees (λ a. true) i true xs

abbrev pub close : Topic → List Topic → List ℕ → Ledger → Ledger
close t ts r s = record s {
  topics = erase t.key s.topics;
  topic_list = ts;
  accounts = closed t s.accounts;
  rich = r;
}

abbrev pub open_again : Topic → List ℕ → Ledger → Ledger
open_again t r s = record s {
  topics = insert t.key s.topics;
  topic_list = t ∷ s.topic_list;
  accounts = opened t s.accounts;
  rich = r;
}

-- What the ledger is after a topic has expired.
abbrev pub Closed : Topic → List Topic → Ledger → Ledger → Type 0
Closed t ts s u = Sees (owns_first t.key) t.owner true s.accounts × (u ≡ close t ts u.rich s)

abbrev with_accounts : (List Account → List Account) → Ledger → Ledger
with_accounts f s = record s { accounts = f s.accounts }

-- The statements of a round after the tests.
abbrev closing : Topic → List Topic → Ledger → Ledger
closing t ts s =
    let freed = reclaim t.balance (record s { topics = erase t.key s.topics; topic_list = ts }) in
    leave_all t.key t.members (edit_account t.owner pop_topic freed)

closing-close :
    (t : Topic) (ts : List Topic) (s : Ledger) → closing t ts s ≡ close t ts (closing t ts s).rich s
unfolding edit_account
closing-close t ts s = shape ∙ ap (λ r. close t ts r s) (sym (ap (λ z. z.rich) shape))
  where
    freed : Ledger
    freed = reclaim t.balance (record s { topics = erase t.key s.topics; topic_list = ts })

    shape : closing t ts s ≡ close t ts freed.rich s
    shape =
        leave_all-sweep t.key t.members (edit_account t.owner pop_topic freed)
        ∙ ap
            (with_accounts
              (λ xs. sweep (leave_topic t.key) t.members (update_account t.owner pop_topic xs)))
            (reclaim-gave t.balance (record s { topics = erase t.key s.topics; topic_list = ts }))

pub expire_topic-ok :
    (t : Topic) (ts : List Topic) (s u : Ledger) → expire_topic t ts s ≡ ok u → Closed t ts s u
unfolding expire_topic
expire_topic-ok t ts s u e = of_owner (find_account t.owner s.accounts) refl e
  where
    of_owner :
        (o : Option Account)
        → find_account t.owner s.accounts ≡ o
        → (require o >>= λ owner. guard (owns_first t.key owner) >> ok (closing t ts s)) ≡ ok u
        → Closed t ts s u
    of_owner none f h = absurd (cc h)
    of_owner (some a) f h = elim (Bool-cases (owns_first t.key a)) [
      | inl first ↦
          let same : closing t ts s ≡ u = cc (rw first at h) in
          ((a, f, first), subst (λ z. z ≡ close t ts z.rich s) same (closing-close t ts s))
      | inr other ↦ absurd (cc (rw other at h))
    ]

-- The statements of the other loop after the lookup.
abbrev opening : Topic → Ledger → Ledger
opening t s =
    let listed =
      edit_account t.owner (relist_topic t.key) (record s { topics = insert t.key s.topics }) in
    rejoin_all t.key t.members
      (withdraw t.balance (record listed { topic_list = t ∷ listed.topic_list }))

opening-open : (t : Topic) (s : Ledger) → opening t s ≡ open_again t (opening t s).rich s
unfolding edit_account
opening-open t s = shape ∙ ap (λ r. open_again t r s) (sym (ap (λ z. z.rich) shape))
  where
    listed : Ledger
    listed = edit_account t.owner (relist_topic t.key) (record s { topics = insert t.key s.topics })

    paid : Ledger
    paid = withdraw t.balance (record listed { topic_list = t ∷ listed.topic_list })

    shape : opening t s ≡ open_again t paid.rich s
    shape =
        rejoin_all-sweep t.key t.members paid
        ∙ ap (with_accounts (sweep (rejoin t.key) t.members))
            (withdraw-took t.balance (record listed { topic_list = t ∷ listed.topic_list }))

-- What the ledger is after a topic was put back.
pub reopen_topic-ok :
    (t : Topic) (s : Ledger)
    → IsThere t.owner s.accounts
    → (r : List ℕ) × (reopen_topic t s ≡ ok (open_again t r s))
unfolding reopen_topic
reopen_topic-ok t s (a, f, h) =
    ((opening t s).rich, rw (reopen_topic, f) (ap (λ z. ok z) (opening-open t s)))

-- The changes of a topic's expiry, in the order of the other loop.
gave-took : (v : ℕ) (xs : List Account) → v < u64_mod → All Fits xs → took v (gave v xs) ≡ xs
gave-took v xs h fit = elim (Bool-cases (ltb 0 v)) [
  | inl e ↦ rw e (update_account-undone (give reserve v) xs (give-IsUndone reserve v h) fit)
  | inr e ↦ rw e refl
]

took-sweep :
    (v : ℕ) (key : Str) (ms : List (Str × ℕ)) (xs : List Account)
    → took v (sweep (leave_topic key) ms xs) ≡ sweep (leave_topic key) ms (took v xs)
unfolding leave_topic
took-sweep v key ms xs = elim (Bool-cases (ltb 0 v)) [
  | inl e ↦
      rw e
        (sweep_swap (leave_topic key) (unshift v) reserve ms xs (λ a. refl) (λ a. refl) (λ a. refl))
  | inr e ↦ rw e refl
]

pub Sees-gave :
    {A : Type 0} (g : Account → A) (i v : ℕ) (x : A) (xs : List Account)
    → ((a : Account) → g (shift v a) ≡ g a)
    → Sees g i x xs
    → Sees g i x (gave v xs)
Sees-gave g i v x xs p h = elim (Bool-cases (ltb 0 v)) [
  | inl e ↦ rw e (Sees-update_account g i reserve x (shift v) xs (λ a. refl) p h)
  | inr e ↦ rw e h
]

-- The topic at the front of its owner's list goes there again.
relist_topic-pop_topic :
    (key : Str) (a : Account) → owns_first key a ≡ true → relist_topic key (pop_topic a) ≡ a
unfolding owns_first
relist_topic-pop_topic key a h = ap (λ ks. record a { topic_list = ks }) (of_list a.topic_list h)
  where
    of_list :
        (ks : List Str)
        → (elim ks [ [] ↦ false | k ∷ ks ↦ str_eq key k ]) ≡ true
        → key ∷ drop_first ks ≡ ks
    of_list [] e = absurd (cc e)
    of_list (k ∷ ks) e = ap (λ z. z ∷ ks) ((str_eq_iff key k).0 e)

owner_back :
    (key : Str) (i : ℕ) (xs : List Account)
    → Sees (owns_first key) i true xs
    → update_account i (relist_topic key) (update_account i pop_topic xs) ≡ xs
owner_back key i xs (a, found, first) =
    accounts_back i pop_topic (relist_topic key) a xs found (λ b. refl)
      (relist_topic-pop_topic key a first)

-- The accounts are as before, but for the order of the joined topics.
pub opened-closed :
    (t : Topic) (xs : List Account)
    → t.balance < u64_mod
    → All Fits xs
    → AreMembers t.key t.members xs
    → Sees (owns_first t.key) t.owner true xs
    → AreLike xs (opened t (closed t xs))
unfolding leave_topic owns_first
opened-closed t xs small fit ms first =
    subst (λ ys. AreLike xs (sweep (rejoin t.key) t.members ys)) (sym same)
      (all_rejoined t.key t.members xs ms)
  where
    given : List Account
    given = gave t.balance xs

    same :
        took t.balance (update_account t.owner (relist_topic t.key) (closed t xs))
        ≡ sweep (leave_topic t.key) t.members xs
    same =
        ap (took t.balance) (
          sweep_swap (leave_topic t.key) (relist_topic t.key) t.owner t.members
            (update_account t.owner pop_topic given) (λ a. refl) (λ a. refl) (λ a. refl)
          ∙ ap (sweep (leave_topic t.key) t.members) (
              owner_back t.key t.owner given
                (Sees-gave (owns_first t.key) t.owner t.balance true xs (λ a. refl) first)))
        ∙ took-sweep t.balance t.key t.members given
        ∙ ap (sweep (leave_topic t.key) t.members) (gave-took t.balance xs small fit)
