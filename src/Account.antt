-- ===== src/Account.antt =====
-- account.cpp, account.hpp and history.hpp. A `shared_ptr` to an account is the account's id, and a
-- `shared_ptr` to a topic the topic's key. The balance changes through the ledger (Ledger/Balance),
-- which keeps the accounts sorted by it.
pub mod Histories
mod Tests
use askcoin_core.Base.{
  u64_mod, ℕ, zero, suc, ◌+◌, ◌*◌, ◌%◌, Bool, true, false, Option, none, some, List, [], ◌∷◌, ◌++◌,
  ltb, ◌==◌, if◌then◌else◌, length, ◌||◌, not,
}
use askcoin_core.Base.Text.{Str, str_eq}

-- `const uint32 TOPIC_LIFE_TIME` of blockchain.hpp.
abbrev pub topic_life_time : ℕ
topic_life_time = 4320

-- `enum HISTORY_TYPE`.
pub data HistoryType : Type 0 where
  untyped reg_fee referrer_reward new_topic_fee new_topic_reward reply_fee send_fee : HistoryType
  send_to send_from reward_fee reward_from miner_tx_reward miner_block_reward : HistoryType

pub record History : Type 0 where
  pub kind : HistoryType
  pub change : ℕ
  pub target_id : ℕ
  pub target_avatar : ℕ
  pub target_name : Str
  pub block_id : ℕ
  pub block_hash : Str
  pub memo : Str
  pub utc : ℕ
  pub tx_id : Str

-- `History::History(type)`.
abbrev pub new_history : HistoryType → History
new_history kind = record {
  kind = kind;
  change = 0;
  target_id = 0;
  target_avatar = 0;
  target_name = [];
  block_id = 0;
  block_hash = [];
  memo = [];
  utc = 0;
  tx_id = [];
}

pub record Account : Type 0 where
  pub id : ℕ
  pub name : Str
  pub pubkey : Str
  pub avatar : ℕ
  pub block_id : ℕ
  pub balance : ℕ
  pub referrer : Option ℕ
  pub topic_list : List Str
  pub joined_topic_list : List Str
  pub history : List History
  pub history_for_explorer : List History
  pub uv_spend : ℕ
  pub uv_topic : ℕ
  pub uv_join_topic : ℕ

-- `Account::Account`.
abbrev pub new_account : ℕ → Str → Str → ℕ → ℕ → Account
new_account id name pubkey avatar block_id = record {
  id = id;
  name = name;
  pubkey = pubkey;
  avatar = avatar;
  block_id = block_id;
  balance = 0;
  referrer = none;
  topic_list = [];
  joined_topic_list = [];
  history = [];
  history_for_explorer = [];
  uv_spend = 0;
  uv_topic = 0;
  uv_join_topic = 0;
}

-- The size limit on both histories.
abbrev pub max_history : ℕ
max_history = 200

abbrev pub drop_first {ℓ} : {A : Type ℓ} → List A → List A
drop_first [] = []
drop_first (x ∷ xs) = xs

-- `push_back`, then `pop_front` if there are more than 200.
pub push_history : List History → History → List History
push_history hs h =
    let longer = hs ++ h ∷ [] in
    if ltb max_history (length longer) then drop_first longer else longer

-- The rewards, which the explorer's list leaves out.
pub is_reward : HistoryType → Bool
is_reward HistoryType.referrer_reward = true
is_reward HistoryType.miner_tx_reward = true
is_reward HistoryType.miner_block_reward = true
is_reward _ = false

unfoldable pub add_history : History → Account → Account
unfolding push_history is_reward
add_history h a =
    if is_reward h.kind then record a { history = push_history a.history h } else record a {
      history = push_history a.history h;
      history_for_explorer = push_history a.history_for_explorer h;
    }

-- `pop_back`, on a list that may be empty.
pub drop_last {ℓ} : {A : Type ℓ} → List A → List A
drop_last [] = []
drop_last (x ∷ []) = []
drop_last (x ∷ y ∷ ys) = x ∷ drop_last (y ∷ ys)

pub pop_history : Account → Account
unfolding drop_last
pop_history a = record a { history = drop_last a.history }

pub pop_history_for_explorer : Account → Account
unfolding drop_last
pop_history_for_explorer a = record a { history_for_explorer = drop_last a.history_for_explorer }

-- The first `while` of `proc_history_expired`: drop what is more than 30 topic lifetimes old.
pub drop_expired : ℕ → List History → List History
drop_expired now [] = []
drop_expired now (h ∷ hs) =
    let rest = drop_expired now hs in
    if ltb ((h.block_id + topic_life_time * 30) % u64_mod) now then rest else h ∷ hs

-- The second `while`: `pop_front` until at most 200 are left. One round for each entry suffices.
pub trim_rounds : ℕ → List History → List History
trim_rounds zero hs = hs
trim_rounds (suc n) hs =
    let rest = trim_rounds n (drop_first hs) in if ltb max_history (length hs) then rest else hs

pub expire : ℕ → List History → List History
unfolding drop_expired trim_rounds
expire now hs = let kept = drop_expired now hs in trim_rounds (length kept) kept

pub proc_history_expired : ℕ → Account → Account
unfolding expire
proc_history_expired now a = record a {
  history = expire now a.history;
  history_for_explorer = expire now a.history_for_explorer;
}

-- The first `t` erased from a list of topics, if it is there.
unfoldable pub erase_first : Str → List Str → List Str
erase_first t [] = []
erase_first t (u ∷ us) = if str_eq u t then us else u ∷ erase_first t us

unfoldable pub leave_topic : Str → Account → Account
unfolding erase_first
leave_topic t a = record a { joined_topic_list = erase_first t a.joined_topic_list }

unfoldable pub is_in : Str → List Str → Bool
is_in t [] = false
is_in t (u ∷ us) = if str_eq u t then true else is_in t us

unfoldable pub joined_topic : Str → Account → Bool
unfolding is_in
joined_topic t a = is_in t a.joined_topic_list
