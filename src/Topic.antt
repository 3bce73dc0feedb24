-- ===== src/Topic.antt =====
-- topic.cpp and reply.cpp. A topic holds its replies; a reply is named by the key of its
-- transaction, an account by its id, and a block by its number.
use askcoin_core.Base.{
  u64_mod, ℕ, ◌+◌, ◌-◌, ◌%◌, Bool, true, false, Option, none, some, List, [], ◌∷◌, ◌++◌, ◌==◌,
  if◌then◌else◌,
}
use askcoin_core.Base.Text.{Str, str_eq}

pub record Reply : Type 0 where
  pub key : Str
  pub kind : ℕ
  pub text : Str
  pub balance : ℕ
  pub block_id : ℕ
  pub owner : ℕ
  pub to : Option Str

pub record Topic : Type 0 where
  pub key : Str
  pub text : Str
  pub balance : ℕ
  pub total : ℕ
  pub uv_reply : ℕ
  pub uv_reward : ℕ
  pub block_id : ℕ
  pub owner : ℕ
  pub reply_list : List Reply
  pub members : List (Str × ℕ)

-- `Topic::Topic` and `set_owner`.
abbrev pub new_topic : Str → Str → ℕ → ℕ → ℕ → Topic
new_topic key text block_id balance owner = record {
  key = key;
  text = text;
  balance = balance;
  total = balance;
  uv_reply = 0;
  uv_reward = 0;
  block_id = block_id;
  owner = owner;
  reply_list = [];
  members = [];
}

-- `Reply::Reply` and `set_owner`.
abbrev pub new_reply : Str → ℕ → ℕ → Str → ℕ → Reply
new_reply key kind block_id text owner = record {
  key = key;
  kind = kind;
  text = text;
  balance = 0;
  block_id = block_id;
  owner = owner;
  to = none;
}

-- `get_reply`: the first reply with the key.
unfoldable pub find_reply : Str → List Reply → Option Reply
find_reply key [] = none
find_reply key (r ∷ rs) = if str_eq r.key key then some r else find_reply key rs

unfoldable pub get_reply : Str → Topic → Option Reply
unfolding find_reply
get_reply key t = find_reply key t.reply_list

-- A write through the pointer that `get_reply` found.
unfoldable pub update_reply : Str → (Reply → Reply) → List Reply → List Reply
update_reply key f [] = []
update_reply key f (r ∷ rs) = if str_eq r.key key then f r ∷ rs else r ∷ update_reply key f rs

-- `Reply::add_balance` and `Reply::sub_balance`, in uint64 arithmetic.
abbrev pub reply_add_balance : ℕ → Reply → Reply
reply_add_balance v r = record r { balance = (r.balance + v) % u64_mod }

abbrev pub reply_sub_balance : ℕ → Reply → Reply
reply_sub_balance v r = record r { balance = (r.balance + u64_mod - v) % u64_mod }

-- `Topic::add_balance` and `Topic::sub_balance`, in uint64 arithmetic.
abbrev pub topic_add_balance : ℕ → Topic → Topic
topic_add_balance v t = record t { balance = (t.balance + v) % u64_mod }

abbrev pub topic_sub_balance : ℕ → Topic → Topic
topic_sub_balance v t = record t { balance = (t.balance + u64_mod - v) % u64_mod }

abbrev pub push_reply : Reply → Topic → Topic
push_reply r t = record t { reply_list = t.reply_list ++ r ∷ [] }

-- Is the account among the members?
unfoldable pub is_member : ℕ → List (Str × ℕ) → Bool
is_member account [] = false
is_member account ((tx, a) ∷ ms) = if a == account then true else is_member account ms

-- `add_member`: the new topic, and whether the account was added.
unfoldable pub add_member : Str → ℕ → Topic → Topic × Bool
unfolding is_member
add_member tx_id account t =
    if is_member account t.members
    then (t, false)
    else (record t { members = t.members ++ (tx_id, account) ∷ [] }, true)
