-- ===== src/Ledger/Balance.antt =====
-- The sums of coins, and what each change of a balance does to them.
use askcoin_core.Base.{
  u64_mod, ℕ, ◌+◌, ◌-◌, ◌%◌, ◌≤◌, ◌<◌, ◌≡◌, ◌↔◌, refl, Bool, true, false, some, List, [], ◌∷◌, ◌++◌,
  arith, ◌==◌, if◌then◌else◌, ==_iff,
}
use askcoin_core.Base.Text.{Str}
use askcoin_core.Account.{Account}
use askcoin_core.Topic.{Topic}
use askcoin_core.Ledger.{
  Ledger, find_account, update_account, balance_of, put_balance, add_balance, sub_balance,
  find_topic, update_topic, coins, check_balance, add_accounts, add_topics,
}

abbrev pub sum_accounts : List Account → ℕ
sum_accounts [] = 0
sum_accounts (a ∷ as') = a.balance + sum_accounts as'

abbrev pub sum_topics : List Topic → ℕ
sum_topics [] = 0
sum_topics (t ∷ ts) = t.balance + sum_topics ts

-- All coins: those of the accounts, the reserve fund among them, and those in live topics.
abbrev pub total : Ledger → ℕ
total s = sum_accounts s.accounts + sum_topics s.topic_list

-- Does a pointer to account `i` lead to an object?
abbrev pub has_account : ℕ → List Account → Bool
has_account i [] = false
has_account i (a ∷ as') = if a.id == i then true else has_account i as'

pub sum-put_balance :
    (i v : ℕ) (xs : List Account)
    → has_account i xs ≡ true
    → sum_accounts (update_account i (put_balance v) xs) + balance_of i xs ≡ sum_accounts xs + v
unfolding update_account balance_of find_account
sum-put_balance i v [] h = cc
sum-put_balance i v (a ∷ xs) h = ground (arith, sum-put_balance i v xs)

pub balance_of-le : (i : ℕ) (xs : List Account) → balance_of i xs ≤ sum_accounts xs
unfolding balance_of find_account
balance_of-le i [] = omega arith
balance_of-le i (a ∷ xs) = ground (arith, balance_of-le i xs)

pub balance_of-put_balance :
    (i j v : ℕ) (xs : List Account)
    → has_account i xs ≡ true
    → balance_of j (update_account i (put_balance v) xs) ≡ (if j == i then v else balance_of j xs)
unfolding update_account balance_of find_account
balance_of-put_balance i j v [] h = cc
balance_of-put_balance i j v (a ∷ xs) h = ground (arith, balance_of-put_balance i j v xs)

pub sum-update_account :
    (i : ℕ) (f : Account → Account) (xs : List Account)
    → ((a : Account) → (f a).balance ≡ a.balance)
    → sum_accounts (update_account i f xs) ≡ sum_accounts xs
unfolding update_account
sum-update_account i f [] h = refl
sum-update_account i f (a ∷ xs) h = ground (arith, sum-update_account i f xs h, h a)

pub has_account-update_account :
    (i j : ℕ) (f : Account → Account) (xs : List Account)
    → ((a : Account) → (f a).id ≡ a.id)
    → has_account j (update_account i f xs) ≡ has_account j xs
unfolding update_account
has_account-update_account i j f [] h = refl
has_account-update_account i j f (a ∷ xs) h =
    ground (arith, has_account-update_account i j f xs h, h a)

-- `add_balance` gives coins to an account that is there.
pub sum-add_balance :
    (i v : ℕ) (s : Ledger)
    → has_account i s.accounts ≡ true
    → sum_accounts s.accounts + v < u64_mod
    → sum_accounts (add_balance i v s).accounts ≡ sum_accounts s.accounts + v
unfolding add_balance
sum-add_balance i v s h b = omega (
  arith,
  sum-put_balance i ((balance_of i s.accounts + v) % u64_mod) s.accounts h,
  balance_of-le i s.accounts,
)

-- `sub_balance` takes coins from an account that has them.
pub sum-sub_balance :
    (i v : ℕ) (s : Ledger)
    → has_account i s.accounts ≡ true
    → sum_accounts s.accounts < u64_mod
    → v ≤ balance_of i s.accounts
    → sum_accounts (sub_balance i v s).accounts + v ≡ sum_accounts s.accounts
unfolding sub_balance
sum-sub_balance i v s h b k = omega (
  arith,
  sum-put_balance i ((balance_of i s.accounts + u64_mod - v) % u64_mod) s.accounts h,
  balance_of-le i s.accounts,
)

pub balance_of-add_balance :
    (i j v : ℕ) (s : Ledger)
    → has_account i s.accounts ≡ true
    → sum_accounts s.accounts + v < u64_mod
    → balance_of j (add_balance i v s).accounts
      ≡ (if j == i then balance_of j s.accounts + v else balance_of j s.accounts)
unfolding add_balance
balance_of-add_balance i j v s h b = ground (
  arith,
  balance_of-put_balance i j ((balance_of i s.accounts + v) % u64_mod) s.accounts h,
  balance_of-le i s.accounts,
)

pub balance_of-sub_balance :
    (i j v : ℕ) (s : Ledger)
    → has_account i s.accounts ≡ true
    → sum_accounts s.accounts < u64_mod
    → v ≤ balance_of i s.accounts
    → balance_of j (sub_balance i v s).accounts
      ≡ (if j == i then balance_of j s.accounts - v else balance_of j s.accounts)
unfolding sub_balance
balance_of-sub_balance i j v s h b k = ground (
  arith,
  balance_of-put_balance i j ((balance_of i s.accounts + u64_mod - v) % u64_mod) s.accounts h,
  balance_of-le i s.accounts,
)

pub sum-update_topic :
    (key : Str) (f : Topic → Topic) (ts : List Topic)
    → ((t : Topic) → (f t).balance ≡ t.balance)
    → sum_topics (update_topic key f ts) ≡ sum_topics ts
unfolding update_topic
sum-update_topic key f [] h = refl
sum-update_topic key f (t ∷ ts) h = ground (arith, sum-update_topic key f ts h, h t)

-- A write to a topic that is there changes the sum by the change of its balance.
pub sum-update_topic_found :
    (key : Str) (f : Topic → Topic) (t : Topic) (ts : List Topic)
    → find_topic key ts ≡ some t
    → sum_topics (update_topic key f ts) + t.balance ≡ sum_topics ts + (f t).balance
unfolding update_topic find_topic
sum-update_topic_found key f t [] h = cc
sum-update_topic_found key f t (u ∷ ts) h = ground (arith, sum-update_topic_found key f t ts)

pub find_topic-le :
    (key : Str) (t : Topic) (ts : List Topic)
    → find_topic key ts ≡ some t
    → t.balance ≤ sum_topics ts
unfolding find_topic
find_topic-le key t [] h = cc
find_topic-le key t (u ∷ ts) h = ground (arith, find_topic-le key t ts)

add_accounts_sum :
    (acc : ℕ) (xs : List Account)
    → acc + sum_accounts xs < u64_mod
    → add_accounts acc xs ≡ acc + sum_accounts xs
unfolding add_accounts
add_accounts_sum acc [] b = omega arith
add_accounts_sum acc (a ∷ xs) b = omega (arith, add_accounts_sum ((acc + a.balance) % u64_mod) xs)

add_topics_sum :
    (acc : ℕ) (ts : List Topic)
    → acc + sum_topics ts < u64_mod
    → add_topics acc ts ≡ acc + sum_topics ts
unfolding add_topics
add_topics_sum acc [] b = omega arith
add_topics_sum acc (t ∷ ts) b = omega (arith, add_topics_sum ((acc + t.balance) % u64_mod) ts)

-- While all coins fit a uint64, `check_balance` tests that there are as many as at genesis.
pub check_balance_iff :
    (s : Ledger) → total s < u64_mod → (check_balance s ≡ true) ↔ (total s ≡ coins)
unfolding check_balance
check_balance_iff s b =
    let accounts_sum : add_accounts 0 s.accounts ≡ sum_accounts s.accounts =
      omega (arith, add_accounts_sum 0 s.accounts) in
    let whole : add_topics (add_accounts 0 s.accounts) s.topic_list ≡ total s =
      rw accounts_sum (add_topics_sum (sum_accounts s.accounts) s.topic_list b) in
    rw whole (==_iff (total s) coins)

pub sum_topics-append : (ts us : List Topic) → sum_topics (ts ++ us) ≡ sum_topics ts + sum_topics us
sum_topics-append [] us = omega arith
sum_topics-append (t ∷ ts) us = omega (arith, sum_topics-append ts us)

pub sum_accounts-append :
    (xs ys : List Account) → sum_accounts (xs ++ ys) ≡ sum_accounts xs + sum_accounts ys
sum_accounts-append [] ys = omega arith
sum_accounts-append (a ∷ xs) ys = omega (arith, sum_accounts-append xs ys)

pub has_account-append :
    (i : ℕ) (xs ys : List Account) → has_account i xs ≡ true → has_account i (xs ++ ys) ≡ true
has_account-append i [] ys h = cc
has_account-append i (a ∷ xs) ys h = ground (arith, has_account-append i xs ys)

pub has_account-append_self :
    (a : Account) (xs : List Account) → has_account a.id (xs ++ a ∷ []) ≡ true
has_account-append_self a [] = ground arith
has_account-append_self a (b ∷ xs) = ground (arith, has_account-append_self a xs)
