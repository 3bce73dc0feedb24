-- ===== src/Ledger.antt =====
-- blockchain.hpp and blockchain.cpp: the state of the ledger, and the lookups in it. Accounts are
-- held in `accounts` (`m_account_by_id`) and named by their ids, live topics in `topic_list`
-- (`m_topic_list`) and named by their keys; id 0 is `m_reserve_fund_account`.
pub mod Tests
pub mod Balance
pub mod Links
pub mod Good
pub mod Tx
pub mod Rich
pub mod Expiry
pub mod Block
pub mod Ages
use askcoin_core.Base.{
  u64_mod, ℕ, zero, suc, ◌+◌, ◌-◌, ◌%◌, Bool, true, false, Option, none, some, List, [], ◌∷◌, ◌++◌,
  ltb, ◌==◌, if◌then◌else◌,
}
use askcoin_core.Base.Text.{Str, str_eq}
use askcoin_core.Base.Dict.{contains, lookup, has_key, str_key, nat_key}
use askcoin_core.Account.{Account}
use askcoin_core.Topic.{Topic}

pub record Ledger : Type 0 where
  pub accounts : List Account
  pub by_pubkey : List (Str × ℕ)
  pub names : List Str
  pub cur_account_id : ℕ
  pub rich : List ℕ
  pub topics : List Str
  pub topic_list : List Topic
  pub tx_map : List (Str × ℕ)
  pub rollback_topics : List (ℕ × List Topic)
  pub rollback_txs : List (ℕ × (Option ℕ × List Str))
  pub miner_pubkeys : List Str

-- The id of `m_reserve_fund_account`.
abbrev pub reserve : ℕ
reserve = 0

-- The object that a pointer to an account leads to.
unfoldable pub find_account : ℕ → List Account → Option Account
find_account i [] = none
find_account i (a ∷ as') = if a.id == i then some a else find_account i as'

-- A write through a pointer to an account.
unfoldable pub update_account : ℕ → (Account → Account) → List Account → List Account
update_account i f [] = []
update_account i f (a ∷ as') = if a.id == i then f a ∷ as' else a ∷ update_account i f as'

abbrev balance_or_zero : Option Account → ℕ
balance_or_zero none = 0
balance_or_zero (some a) = a.balance

-- `get_balance` through a pointer.
unfoldable pub balance_of : ℕ → List Account → ℕ
unfolding find_account
balance_of i as' = balance_or_zero (find_account i as')

-- `Blockchain::get_account`.
unfoldable pub get_account : Str → Ledger → Option ℕ
get_account pubkey s = lookup pubkey s.by_pubkey

-- `Blockchain::account_name_exist`.
unfoldable pub account_name_exist : Str → Ledger → Bool
account_name_exist name s = contains name s.names

-- The object that a pointer to a topic leads to.
unfoldable pub find_topic : Str → List Topic → Option Topic
find_topic key [] = none
find_topic key (t ∷ ts) = if str_eq t.key key then some t else find_topic key ts

unfoldable pub update_topic : Str → (Topic → Topic) → List Topic → List Topic
update_topic key f [] = []
update_topic key f (t ∷ ts) = if str_eq t.key key then f t ∷ ts else t ∷ update_topic key f ts

-- `Blockchain::get_topic`.
unfoldable pub get_topic : Str → Ledger → Option Topic
unfolding find_topic
get_topic key s = if contains key s.topics then find_topic key s.topic_list else none

-- The order `Account::Rich_Comp`: the richer first, then the older.
pub rich_comp : (ℕ → ℕ) → ℕ → ℕ → Bool
rich_comp bal a b =
    if ltb (bal b) (bal a) then true else if ltb (bal a) (bal b) then false else ltb a b

-- `del_account_rich`: from `lower_bound` on, until `upper_bound`, the pointer is looked for.
pub scan_equal : (ℕ → ℕ) → ℕ → List ℕ → List ℕ
unfolding rich_comp
scan_equal bal a [] = []
scan_equal bal a (x ∷ xs) =
    if rich_comp bal a x then x ∷ xs else if x == a then xs else x ∷ scan_equal bal a xs

pub del_rich : (ℕ → ℕ) → ℕ → List ℕ → List ℕ
unfolding scan_equal rich_comp
del_rich bal a [] = []
del_rich bal a (x ∷ xs) =
    if rich_comp bal x a then x ∷ del_rich bal a xs else scan_equal bal a (x ∷ xs)

-- `add_account_rich`: a multiset inserts at the upper bound.
pub add_rich : (ℕ → ℕ) → ℕ → List ℕ → List ℕ
unfolding rich_comp
add_rich bal a [] = a ∷ []
add_rich bal a (x ∷ xs) = if rich_comp bal a x then a ∷ x ∷ xs else x ∷ add_rich bal a xs

abbrev pub put_balance : ℕ → Account → Account
put_balance v a = record a { balance = v }

abbrev pub bal_in : List Account → ℕ → ℕ
bal_in as' i = balance_of i as'

-- `Account::set_balance`: the account leaves the sorted set, changes, and enters it again.
unfoldable pub set_balance : ℕ → ℕ → Ledger → Ledger
unfolding update_account del_rich add_rich balance_of
set_balance i v s =
    let changed = update_account i (put_balance v) s.accounts in
    record s {
      accounts = changed;
      rich = add_rich (bal_in changed) i (del_rich (bal_in s.accounts) i s.rich);
    }

-- `Account::add_balance` and `Account::sub_balance`, in uint64 arithmetic.
unfoldable pub add_balance : ℕ → ℕ → Ledger → Ledger
unfolding set_balance
add_balance i v s = set_balance i ((balance_of i s.accounts + v) % u64_mod) s

unfoldable pub sub_balance : ℕ → ℕ → Ledger → Ledger
unfolding set_balance
sub_balance i v s = set_balance i ((balance_of i s.accounts + u64_mod - v) % u64_mod) s

-- A change of an account that leaves its balance alone.
unfoldable pub edit_account : ℕ → (Account → Account) → Ledger → Ledger
unfolding update_account
edit_account i f s = record s { accounts = update_account i f s.accounts }

unfoldable pub edit_topic : Str → (Topic → Topic) → Ledger → Ledger
unfolding update_topic
edit_topic key f s = record s { topic_list = update_topic key f s.topic_list }

-- All coins of the genesis block.
abbrev pub coins : ℕ
coins = 1000000000000

-- The two loops of `check_balance`, in uint64 arithmetic.
pub add_accounts : ℕ → List Account → ℕ
add_accounts acc [] = acc
add_accounts acc (a ∷ as') = add_accounts ((acc + a.balance) % u64_mod) as'

pub add_topics : ℕ → List Topic → ℕ
add_topics acc [] = acc
add_topics acc (t ∷ ts) = add_topics ((acc + t.balance) % u64_mod) ts

pub check_balance : Ledger → Bool
unfolding add_accounts add_topics
check_balance s = add_topics (add_accounts 0 s.accounts) s.topic_list == coins
