-- ===== src/Pool/Submit.antt =====
-- net/p2p/node.cpp, the handler of `TX_BROADCAST`, after the tests on the form of the message: a transaction
-- enters the pool.
use askcoin_core.Base.{ℕ, not, ◌||◌, Bool, true, false, List, [], ◌∷◌, ◌++◌, if◌then◌else◌}
use askcoin_core.Base.Text.{Str}
use askcoin_core.Base.Dict.{contains, insert, has_key, str_key}
use askcoin_core.Ledger.{get_account, account_name_exist, get_topic}
use askcoin_core.Ledger.Tx.Register.{is_none}
use askcoin_core.Pending.{tx_reg, tx_topic, tx_other, Tx}
use askcoin_core.Pool.{Pool, drop, wait, pass, judge}
use askcoin_core.Pool.Review.{is_stale, name_of, pubkey_of}

-- What turns a transaction away before its id is noted.
unfoldable pub is_unwelcome : ℕ → Tx → Pool → Bool
is_unwelcome cur_block_id t p =
    has_key t.id p.ledger.tx_map
    || contains t.id p.uv_tx_ids
    || is_stale cur_block_id t.block_id
    || elim t.body [
      | tx_reg name referrer_pubkey avatar ↦
          not (is_none (get_account t.pubkey p.ledger))
          || contains t.pubkey p.uv_account_pubkeys
          || account_name_exist name p.ledger
          || contains name p.uv_account_names
      | tx_topic reward text ↦ not (is_none (get_topic t.id p.ledger))
      | tx_other n ↦ true
      | _ ↦ false
    ]

abbrev pub take_keys : List Str → List Str → List Str
take_keys [] ks = ks
take_keys (x ∷ xs) ks = insert x ks

-- The id, and for a registration the name and the key, are taken.
abbrev pub take_tx : Tx → Pool → Pool
take_tx t p = record p {
  uv_tx_ids = insert t.id p.uv_tx_ids;
  uv_account_names = take_keys (name_of t.body) p.uv_account_names;
  uv_account_pubkeys = take_keys (pubkey_of t.body t.pubkey) p.uv_account_pubkeys;
}

-- A transaction that is turned away later than that is in neither list, and its id stays noted.
unfoldable pub submit : ℕ → Tx → Pool → Pool
unfolding is_unwelcome judge
submit cur_block_id t p =
    if is_unwelcome cur_block_id t p
    then p
    else let q = take_tx t p in
      elim (judge cur_block_id t q.ledger) [
        | drop ↦ q
        | wait ↦ record q { uv_1_txs = q.uv_1_txs ++ t ∷ [] }
        | pass u s ↦ record q { uv_2_txs = q.uv_2_txs ++ u ∷ []; ledger = s }
      ]
