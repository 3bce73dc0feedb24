-- ===== src/Mine/Reopen.antt =====
-- blockchain.cpp, `mine_tx`: the end of the dry run, where the topics and the transactions that expired go back.
-- `rollback` has the same statements for each block that it takes off.
pub mod Like
pub mod Sweep
pub mod Topics
pub mod Back
pub mod Rounds
pub mod Txs
pub mod Chain
pub mod Whole
pub mod Tests
use askcoin_core.Base.{
  ℕ, ◌+◌, Option, none, some, List, [], ◌∷◌, Run, ok, ◌>>=◌, require, ltb, if◌then◌else◌,
}
use askcoin_core.Base.Text.{Str}
use askcoin_core.Base.Dict.{insert, lookup, insert_entry, erase_key, str_key, nat_key}
use askcoin_core.Account.{Account, topic_life_time}
use askcoin_core.Topic.{Topic}
use askcoin_core.Ledger.{Ledger, find_account, sub_balance, edit_account, reserve}
use askcoin_core.Ledger.Expiry.{expiring}

-- `push_front`, to the lists of an account.
abbrev pub relist_topic : Str → Account → Account
relist_topic key a = record a { topic_list = key ∷ a.topic_list }

abbrev pub rejoin : Str → Account → Account
rejoin key a = record a { joined_topic_list = key ∷ a.joined_topic_list }

-- `for(auto &p : topic->m_members)`.
unfoldable pub rejoin_all : Str → List (Str × ℕ) → Ledger → Ledger
rejoin_all key [] s = s
rejoin_all key ((tx, a) ∷ ms) s = rejoin_all key ms (edit_account a (rejoin key) s)

-- The balance of the topic leaves the reserve fund.
unfoldable pub withdraw : ℕ → Ledger → Ledger
withdraw balance s = if ltb 0 balance then sub_balance reserve balance s else s

unfoldable pub reopen_topic : Topic → Ledger → Run Ledger
unfolding rejoin_all withdraw
reopen_topic t s = do
  owner ← require (find_account t.owner s.accounts)
  let listed =
      edit_account t.owner (relist_topic t.key) (record s { topics = insert t.key s.topics })
  ok (
      rejoin_all t.key t.members
        (withdraw t.balance (record listed { topic_list = t ∷ listed.topic_list })))

-- The `for` over the topics, the last one to go comes first.
unfoldable pub reopen_topics : List Topic → Ledger → Run Ledger
unfolding reopen_topic
reopen_topics [] s = ok s
reopen_topics (t ∷ ts) s = reopen_topic t s >>= reopen_topics ts

-- The `for` over the transactions; there are none without a block.
unfoldable pub reopen_txs : Option ℕ → List Str → List (Str × ℕ) → Run (List (Str × ℕ))
reopen_txs block [] m = ok m
reopen_txs block (i ∷ is) m = require block >>= λ b. reopen_txs block is (insert_entry i b m)

-- `operator[]` of a map.
abbrev pub or_new {ℓ} : {A : Type ℓ} → A → Option A → A
or_new d none = d
or_new d (some a) = a

unfoldable pub reopen : ℕ → Ledger → Run Ledger
unfolding reopen_topics reopen_txs
reopen now s =
    if ltb (topic_life_time + 1) now
    then (reopen_topics (or_new [] (lookup (expiring now) s.rollback_topics)) s >>= λ u.
        let pair = or_new (none, []) (lookup (expiring now) u.rollback_txs) in
        reopen_txs pair.0 pair.1 u.tx_map >>= λ m. ok (record u {
          tx_map = m;
          rollback_topics = erase_key (expiring now) u.rollback_topics;
          rollback_txs = erase_key (expiring now) u.rollback_txs;
        }))
    else ok s
