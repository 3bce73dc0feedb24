-- ===== src/Pool/Review.antt =====
-- `do_uv_tx`: the three passes over the pool. It ends with `mine_tx`, which is not part of it here.
use askcoin_core.Base.{
  u64_mod, ℕ, ◌+◌, ◌-◌, ◌%◌, not, ◌||◌, Bool, true, false, Option, none, some, List, [], ◌∷◌, ◌++◌,
  ltb, leb, if◌then◌else◌,
}
use askcoin_core.Base.Text.{Str, str_eq}
use askcoin_core.Base.Dict.{erase, has_key, str_key}
use askcoin_core.Account.{Account}
use askcoin_core.Topic.{Topic}
use askcoin_core.Ledger.{
  Ledger, get_account, account_name_exist, get_topic, edit_account, edit_topic,
}
use askcoin_core.Ledger.Tx.{in_window}
use askcoin_core.Ledger.Tx.Register.{is_none}
use askcoin_core.Pending.{Body, tx_reg, tx_send, tx_topic, tx_reply, tx_reward, tx_other, Tx}
use askcoin_core.Pool.{Pool, Decision, drop, wait, pass, drop_if, topic_over, cost_of, judge}

-- `block_id + 100 < cur_block_id + 1 || block_id > cur_block_id + 1 + 100`.
abbrev pub is_stale : ℕ → ℕ → Bool
is_stale cur_block_id block_id = not (in_window ((cur_block_id + 1) % u64_mod) block_id)

abbrev is_some {ℓ} : {A : Type ℓ} → Option A → Bool
is_some o = not (is_none o)

-- The tests of the first pass before those of `judge`.
unfoldable pub screen : ℕ → Tx → Ledger → Decision
unfolding judge
screen cur_block_id t s = drop_if (is_stale cur_block_id t.block_id) (
    drop_if (has_key t.id s.tx_map) (elim t.body [
      | tx_reg name referrer_pubkey avatar ↦
          drop_if (is_some (get_account t.pubkey s))
            (drop_if (account_name_exist name s) (judge cur_block_id t s))
      | tx_topic reward text ↦ drop_if (is_some (get_topic t.id s)) (judge cur_block_id t s)
      | _ ↦ judge cur_block_id t s
    ]))

-- What is taken by a registration besides its id.
abbrev pub name_of : Body → List Str
name_of (tx_reg name referrer_pubkey avatar) = name ∷ []
name_of _ = []

abbrev pub pubkey_of : Body → Str → List Str
pubkey_of (tx_reg name referrer_pubkey avatar) pubkey = pubkey ∷ []
pubkey_of _ pubkey = []

abbrev pub free_keys : List Str → List Str → List Str
free_keys [] ks = ks
free_keys (x ∷ xs) ks = erase x ks

-- The id, and for a registration the name and the key, are free again.
abbrev pub free_tx : Tx → Pool → Pool
free_tx t p = record p {
  uv_tx_ids = erase t.id p.uv_tx_ids;
  uv_account_names = free_keys (name_of t.body) p.uv_account_names;
  uv_account_pubkeys = free_keys (pubkey_of t.body t.pubkey) p.uv_account_pubkeys;
}

-- The first pass, over `m_uv_1_txs`; what `m_uv_1_txs` keeps is put together at the end.
unfoldable pub first_pass : ℕ → List Tx → Pool → Pool
unfolding screen
first_pass cur_block_id [] p = record p { uv_1_txs = [] }
first_pass cur_block_id (t ∷ ts) p = elim (screen cur_block_id t p.ledger) [
  | drop ↦ first_pass cur_block_id ts (free_tx t p)
  | wait ↦ let q = first_pass cur_block_id ts p in record q { uv_1_txs = t ∷ q.uv_1_txs }
  | pass u s ↦ first_pass cur_block_id ts (record p { uv_2_txs = p.uv_2_txs ++ u ∷ []; ledger = s })
]

-- `-=`, but not below zero.
abbrev pub less : ℕ → ℕ → ℕ
less v n = if leb v n then n - v else 0

abbrev pub unspend : ℕ → Account → Account
unspend v a = record a { uv_spend = less v a.uv_spend }

abbrev pub uncount_topic : Account → Account
uncount_topic a = record a { uv_topic = less 1 a.uv_topic }

abbrev pub uncount_join : Account → Account
uncount_join a = record a { uv_join_topic = less 1 a.uv_join_topic }

abbrev pub uncount_reply : Topic → Topic
uncount_reply t = record t { uv_reply = less 1 t.uv_reply }

abbrev pub uncount_reward : ℕ → Topic → Topic
uncount_reward v t = record t { uv_reward = less v t.uv_reward }

-- A change of the account with the key, if there is one.
abbrev pub with_account : Str → (Account → Account) → Ledger → Ledger
with_account pubkey f s = elim (get_account pubkey s) [ none ↦ s | some i ↦ edit_account i f s ]

abbrev pub with_topic : Str → (Topic → Topic) → Ledger → Ledger
with_topic key f s = elim (get_topic key s) [ none ↦ s | some t ↦ edit_topic key f s ]

abbrev pub uncount_joins : ℕ → Account → Account
uncount_joins j a = if ltb 0 j then uncount_join a else a

-- The callback of each `Scope_CB`, and the same statements where a topic is over: what `judge` counted is
-- taken off.
unfoldable pub release : Tx → Ledger → Ledger
release t s = elim t.body [
  | tx_reg name referrer_pubkey avatar ↦ with_account referrer_pubkey (unspend 2) s
  | tx_send receiver_pubkey amount ↦ with_account t.pubkey (unspend (cost_of amount)) s
  | tx_topic reward text ↦ with_account t.pubkey (λ a. uncount_topic (unspend (cost_of reward) a)) s
  | tx_reply key to text j ↦
      with_topic key uncount_reply (with_account t.pubkey (λ a. uncount_joins j (unspend 2 a)) s)
  | tx_reward key to amount ↦
      with_topic key (λ q. uncount_reward amount (uncount_reply q))
        (with_account t.pubkey (unspend 2) s)
  | tx_other n ↦ s
]

-- A transaction stays in `m_uv_2_txs`, or leaves it, for `m_uv_3_txs` or for good.
pub data Fate : Type 0 where
  stays : Fate
  mined : Fate
  gone : Fate

-- Is the topic there, and over?
abbrev pub is_over : ℕ → Str → Ledger → Bool
is_over cur_block_id key s = elim (get_topic key s) [
  | none ↦ false
  | some t ↦ topic_over cur_block_id t
]

abbrev pub topic_of : Body → Option Str
topic_of (tx_reply key to text j) = some key
topic_of (tx_reward key to amount) = some key
topic_of _ = none

-- The tests of a registration after the others.
abbrev pub review_name : Body → Str → Ledger → Fate
review_name (tx_reg name referrer_pubkey avatar) pubkey s =
    if is_some (get_account pubkey s) || account_name_exist name s then gone else stays
review_name _ pubkey s = stays

-- A type that is none of the five meets no branch.
abbrev pub is_other : Body → Bool
is_other (tx_other n) = true
is_other _ = false

unfoldable pub review : ℕ → Tx → Ledger → Fate
review cur_block_id t s =
    if is_other t.body
    then stays
    else if (elim (topic_of t.body) [ none ↦ false | some key ↦ is_over cur_block_id key s ])
    then gone
    else if is_stale cur_block_id t.block_id
    then gone
    else if has_key t.id s.tx_map
    then mined
    else review_name t.body t.pubkey s

-- A set: a transaction with the same id keeps its place.
abbrev pub insert_tx : Tx → List Tx → List Tx
insert_tx t [] = t ∷ []
insert_tx t (u ∷ us) = if str_eq u.id t.id then u ∷ us else u ∷ insert_tx t us

-- `m_broadcast_num++`, of a uint8.
abbrev pub broadcasts : Tx → Tx
broadcasts t = record t { broadcast_num = (t.broadcast_num + 1) % 256 }

unfoldable pub second_pass : ℕ → List Tx → Pool → Pool
unfolding review release
second_pass cur_block_id [] p = record p { uv_2_txs = [] }
second_pass cur_block_id (t ∷ ts) p = elim (review cur_block_id t p.ledger) [
  | stays ↦
      let q = second_pass cur_block_id ts p in record q { uv_2_txs = broadcasts t ∷ q.uv_2_txs }
  | mined ↦
      second_pass cur_block_id ts
        (record (free_tx t p) { uv_3_txs = insert_tx t p.uv_3_txs; ledger = release t p.ledger })
  | gone ↦ second_pass cur_block_id ts (record (free_tx t p) { ledger = release t p.ledger })
]

abbrev pub third_pass : ℕ → Ledger → List Tx → List Tx
third_pass cur_block_id s [] = []
third_pass cur_block_id s (t ∷ ts) =
    if is_stale cur_block_id t.block_id
    then third_pass cur_block_id s ts
    else (if has_key t.id s.tx_map then record t { broadcast_num = 0 } else broadcasts t)
      ∷ third_pass cur_block_id s ts

unfoldable pub do_uv_tx : ℕ → Pool → Pool
unfolding first_pass second_pass
do_uv_tx cur_block_id p =
    let first = first_pass cur_block_id p.uv_1_txs p in
    let second = second_pass cur_block_id first.uv_2_txs first in
    record second { uv_3_txs = third_pass cur_block_id second.ledger second.uv_3_txs }
