-- ===== src/Ledger/Expiry.antt =====
-- blockchain.cpp, `proc_topic_expired` and `proc_tx_map`: what leaves the ledger when a block comes,
-- and what is kept of it for a rollback. `ok` with a ledger is the source's `true`, `exit` its `false`,
-- which makes every caller exit.
pub mod Coins
pub mod Freed
pub mod Ends
use askcoin_core.Base.{
  u64_mod, ℕ, ◌+◌, ◌-◌, ◌*◌, ◌%◌, Bool, true, false, not, Option, none, some, List, [], ◌∷◌, ◌++◌,
  Run, ok, exit, ◌>>=◌, ◌>>◌, guard, require, length, ltb, leb, ◌==◌, ◌&&◌, if◌then◌else◌, ◌≡◌,
  refl, ◌≤◌, ◌<◌, arith, Ensures, All, Bool-cases, inl, inr, require-ok,
}
use askcoin_core.Base.Text.{Str, str_eq}
use askcoin_core.Base.Dict.{lookup, erase, erase_key, has_key, insert_entry, str_key, nat_key}
use askcoin_core.External.{External}
use askcoin_core.Account.{Account, topic_life_time, drop_first, leave_topic}
use askcoin_core.Topic.{Topic}
use askcoin_core.Ledger.{Ledger, find_account, add_balance, edit_account, reserve, coins}
use askcoin_core.Ledger.Balance.{total, sum_topics}
use askcoin_core.Ledger.Links.{IsLinked, IsAccount, OwnersKnown}
use askcoin_core.Ledger.Good.{
  Good, Good-refl, Good-trans, give-Good, edit_account-Good, read-Good, guard-Good, bind-Good,
}

abbrev pub pop_topic : Account → Account
pop_topic a = record a { topic_list = drop_first a.topic_list }

-- The account's list of topics begins with this one.
unfoldable pub owns_first : Str → Account → Bool
owns_first key a = elim a.topic_list [ [] ↦ false | k ∷ ks ↦ str_eq key k ]

-- The balance of an expired topic goes to the reserve fund.
unfoldable pub reclaim : ℕ → Ledger → Ledger
reclaim balance s = if ltb 0 balance then add_balance reserve balance s else s

-- `for(auto &p : topic->m_members) p.second->leave_topic(topic)`.
unfoldable pub leave_all : Str → List (Str × ℕ) → Ledger → Ledger
leave_all key [] s = s
leave_all key ((tx, a) ∷ ms) s = leave_all key ms (edit_account a (leave_topic key) s)

-- One round of the `while`, for the first topic of the list; `ts` are the others.
unfoldable pub expire_topic : Topic → List Topic → Ledger → Run Ledger
unfolding owns_first reclaim leave_all
expire_topic t ts s = do
  owner ← require (find_account t.owner s.accounts)
  guard (owns_first t.key owner)
  let freed = reclaim t.balance (record s { topics = erase t.key s.topics; topic_list = ts })
  ok (leave_all t.key t.members (edit_account t.owner pop_topic freed))

-- The `while` over `m_topic_list`; the topics that went are collected in front.
unfoldable pub expire_topics : ℕ → List Topic → List Topic → Ledger → Run (List Topic × Ledger)
unfolding expire_topic
expire_topics now gone [] s = ok (gone, s)
expire_topics now gone (t ∷ ts) s =
    let rest = expire_topic t ts s >>= expire_topics now (t ∷ gone) ts in
    if ltb (t.block_id + topic_life_time) now then rest else ok (gone, s)

-- The block whose topics and transactions expire with block `now`.
abbrev pub expiring : ℕ → ℕ
expiring now = now - (topic_life_time + 1)

-- `erase` of what is one more lifetime old, then of the entry that is made anew.
pub renew {ℓ} : {V : Type ℓ} → ℕ → List (ℕ × V) → List (ℕ × V)
renew now d =
    let kept =
      if ltb (2 * topic_life_time + 1) now
      then erase_key (now - (2 * topic_life_time + 1)) d
      else d in
    erase_key (expiring now) kept

unfoldable pub proc_topic_expired : ℕ → Ledger → Run Ledger
unfolding expire_topics renew
proc_topic_expired now s =
    if ltb now (topic_life_time + 2)
    then ok s
    else (expire_topics now [] s.topic_list s >>= λ r.
        ok (record r.1 { rollback_topics = (expiring now, r.0) ∷ renew now s.rollback_topics }))

-- `m_tx_map.erase(tx_id) != 1`, one after the other.
unfoldable pub erase_txs : List Str → List (Str × ℕ) → Run (List (Str × ℕ))
erase_txs [] m = ok m
erase_txs (i ∷ is) m = guard (has_key i m) >> erase_txs is (erase_key i m)

abbrev pub push_front_all : List Str → List Str → List Str
push_front_all [] acc = acc
push_front_all (i ∷ is) acc = push_front_all is (i ∷ acc)

-- What `m_block_by_id`, the import of the merge point and the database give.
pub record Archive : Type 0 where
  pub block_hash : ℕ → Option Str
  pub import_block_id : ℕ
  pub import_tx_map : List (ℕ × List Str)

module _ (x : External) where
  open x use {Value, member, is_object, as_array, as_string, parse, db_get}

  pub read_strings : List Value → Run (List Str)
  read_strings [] = ok []
  read_strings (v ∷ vs) = do s ← require (as_string v); rest ← read_strings vs; ok (s ∷ rest)

  -- The transaction ids of a stored block.
  pub stored_tx_ids : Str → Run (List Str)
  unfolding read_strings
  stored_tx_ids hash = do
    stored ← db_get hash
    text ← require stored
    doc ← require (parse text)
    guard (is_object doc)
    d ← require (member "data" doc)
    v ← require (member "tx_ids" d)
    ids ← require (as_array v)
    guard (leb (length ids) 2000)
    read_strings ids

  -- `tx_pair` of the expiring block, and `m_tx_map` without its transactions.
  unfoldable pub expire_block_txs :
      Archive → ℕ → List (Str × ℕ) → Run ((Option ℕ × List Str) × List (Str × ℕ))
  unfolding erase_txs stored_tx_ids
  expire_block_txs h id m = elim (h.block_hash id) [
    | none ↦ ok ((none, []), m)
    | some hash ↦
        if ltb 0 h.import_block_id && leb id h.import_block_id
        then elim (lookup id h.import_tx_map) [
          | none ↦ ok ((some id, []), m)
          | some ids ↦ erase_txs ids m >>= λ m'. ok ((some id, ids), m')
        ]
        else stored_tx_ids hash >>= λ ids.
            erase_txs ids m >>= λ m'. ok ((some id, push_front_all ids []), m')
  ]

  unfoldable pub proc_tx_map : Archive → ℕ → Ledger → Run Ledger
  unfolding expire_block_txs renew
  proc_tx_map h now s =
      if ltb now (topic_life_time + 2)
      then ok s
      else (expire_block_txs h (expiring now) s.tx_map >>= λ r. ok (record s {
        tx_map = r.1;
        rollback_txs = (expiring now, r.0) ∷ renew now s.rollback_txs;
      }))
