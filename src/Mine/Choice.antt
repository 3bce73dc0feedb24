-- ===== src/Mine/Choice.antt =====
-- blockchain.cpp, `mine_tx` as a whole: which transactions go into the next block, and the ledger afterwards.
pub mod Tests
use mathlib.Core.List.{Perm}
use askcoin_core.Base.{
  u64_mod, ℕ, ◌+◌, ◌*◌, ◌≡◌, ◌≤◌, ◌<◌, refl, Option, none, some, List, ◌++◌, Run, ok, exit, ◌>>=◌,
  length, All,
}
use askcoin_core.Base.Text.{Str}
use askcoin_core.Base.Dict.{lookup, str_key}
use askcoin_core.External.{External}
use askcoin_core.Ledger.{Ledger}
use askcoin_core.Ledger.Expiry.{
  expiring, proc_topic_expired, Archive, expire_block_txs, proc_tx_map,
}
use askcoin_core.Pending.{Tx}
use askcoin_core.Mine.Loop.{Miner, at_start, mine_loop}
use askcoin_core.Mine.Loop.Kept.{mine_loop-keeps}
use askcoin_core.Mine.Restore.Rounds.{AmountFits}
use askcoin_core.Mine.Whole.{Rounds, undo_all}
use askcoin_core.Mine.Reopen.{reopen}
use askcoin_core.Mine.Reopen.Whole.{CanReopen, IsBack, reopen-Rounds}
use askcoin_core.Mine.Sound.{IsSound}
use askcoin_core.Mine.Sound.Runs.{mine_loop-Rounds}

-- The transactions of the next block, and the ledger; `none` when the rounds do not suffice.
unfoldable pub mine_tx :
    External → Archive → ℕ → ℕ → List Tx → Ledger → Option (Run (List Tx × Ledger))
mine_tx x h cur_block_id fuel txs s =
    elim (proc_topic_expired cur_block_id s >>= proc_tx_map x h cur_block_id) [
      | exit ↦ some exit
      | ok v ↦ elim (mine_loop cur_block_id (length txs) fuel (at_start txs v)) [
        | none ↦ none
        | some exit ↦ some exit
        | some (ok m) ↦ some (
            undo_all m.mined_txs m.ledger >>= λ z.
            reopen cur_block_id z >>= λ w. ok (m.mined_txs, w))
      ]
    ]

-- Once the expiry and the loop of the dry run went through, `mine_tx` ends normally with the transactions that the
-- loop put in the block. These and those that are left are the ones of the queue, 2000 are in the block at most, and
-- in their order, from the ledger after the expiry, each of them passes the dry run. The ledger afterwards is what it
-- was, as sets and maps, with three exceptions: the order by wealth, of which nothing is said, the order of the
-- topics that an account joined, and the entries for a rollback that the expiry erases: an old one for the block that
-- expires, and the one for the block 4320 before it. This is if the ledger is sound, before and after the expiry, with
-- room for 2001 more accounts, the amounts are uint64, and the transactions of the expiring block are in `m_tx_map`
-- with that block.
pub mine_tx-IsBack :
    (x : External) (h : Archive) (now fuel : ℕ) (txs : List Tx) (s u v : Ledger) (m : Miner)
    → CanReopen s
    → ((r : (Option ℕ × List Str) × List (Str × ℕ))
        → expire_block_txs x h (expiring now) s.tx_map ≡ ok r
        → All (λ i. lookup i s.tx_map ≡ some (expiring now)) r.0.1)
    → All (λ t. AmountFits t.body) txs
    → proc_topic_expired now s ≡ ok u
    → proc_tx_map x h now u ≡ ok v
    → IsSound v.tx_map v
    → v.cur_account_id + 2001 < u64_mod
    → mine_loop now (length txs) fuel (at_start txs v) ≡ some (ok m)
    → (w : Ledger) × (mine_tx x h now fuel txs s ≡ some (ok (m.mined_txs, w)))
      × IsBack now s w
      × Rounds now v m.mined_txs m.ledger
      × Perm (m.mined_txs ++ m.uv_2_txs) txs
      × (length m.mined_txs ≤ 2000)
unfolding mine_tx
mine_tx-IsBack x h now fuel txs s u v m can noted fit topics chain sound room e =
    let (rounds, after) = mine_loop-Rounds now fuel txs v m sound room fit e in
    let (z, w, undone, opened, back) =
      reopen-Rounds x h now s u v m.ledger m.mined_txs can noted topics chain rounds in
    let (split, few) = mine_loop-keeps now fuel txs v m e in
    (w, rw (mine_tx, topics, chain, e, undone, opened) refl, back, rounds, split, few)
