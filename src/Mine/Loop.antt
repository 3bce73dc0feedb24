-- ===== src/Mine/Loop.antt =====
-- blockchain.cpp, `mine_tx`: the loop of the dry run, which goes over the queue at most three times. The
-- counters are counts of the queue's transactions.
pub mod Ends
pub mod Kept
use askcoin_core.Base.{
  ℕ, zero, suc, ◌+◌, ◌-◌, Bool, true, false, Option, none, some, List, [], ◌∷◌, ◌++◌, Run, ok, exit,
  ◌>>=◌, length, ltb, leb, ◌==◌, if◌then◌else◌,
}
use askcoin_core.Ledger.{Ledger}
use askcoin_core.Pending.{Tx}
use askcoin_core.Mine.{dry_tx}

-- The locals of `mine_tx`, and the ledger.
pub record Miner : Type 0 where
  pub uv_2_txs : List Tx
  pub mined_txs : List Tx
  pub cnt : ℕ
  pub remain_cnt : ℕ
  pub last_mined_cnt : ℕ
  pub loop_cnt : ℕ
  pub ledger : Ledger

abbrev pub at_start : List Tx → Ledger → Miner
at_start txs s = record {
  uv_2_txs = txs;
  mined_txs = [];
  cnt = 0;
  remain_cnt = length txs;
  last_mined_cnt = 0;
  loop_cnt = 0;
  ledger = s;
}

-- A round of the loop ends with another one, or with `break`.
pub data Verdict : Type 0 where
  more : Miner → Verdict
  over : Miner → Verdict

-- `++cnt > remain_cnt`: a new pass over the queue, unless it was the third or mined nothing.
unfoldable pub count_up : ℕ → Miner → Option Miner
count_up total_cnt m =
    if ltb m.remain_cnt (m.cnt + 1)
    then if leb 3 (m.loop_cnt + 1)
      then none
      else if length m.mined_txs == m.last_mined_cnt
      then none
      else some (record m {
        cnt = 1;
        loop_cnt = m.loop_cnt + 1;
        last_mined_cnt = length m.mined_txs;
        remain_cnt = total_cnt - length m.mined_txs;
      })
    else some (record m { cnt = m.cnt + 1 })

-- What the dry run of the transaction at the front makes of the two lists.
unfoldable pub sort_tx : Tx → List Tx → Miner → Ledger × Bool → Verdict
sort_tx t txs m (u, true) =
    let mined = record m { uv_2_txs = txs; mined_txs = m.mined_txs ++ t ∷ []; ledger = u } in
    if leb 2000 (length mined.mined_txs) then over mined else more mined
sort_tx t txs m (u, false) = more (record m { uv_2_txs = txs ++ t ∷ []; ledger = u })

unfoldable pub one_round : ℕ → ℕ → Miner → Run Verdict
unfolding count_up sort_tx
one_round cur_block_id total_cnt m = elim m.uv_2_txs [
  | [] ↦ ok (over m)
  | t ∷ txs ↦ elim (count_up total_cnt m) [
    | none ↦ ok (over m)
    | some u ↦ dry_tx cur_block_id t u.ledger >>= λ r. ok (sort_tx t txs u r)
  ]
]

-- The loop, for a number of rounds; `none` when they do not suffice.
unfoldable pub mine_loop : ℕ → ℕ → ℕ → Miner → Option (Run Miner)
unfolding one_round
mine_loop cur_block_id total_cnt zero m = none
mine_loop cur_block_id total_cnt (suc fuel) m = elim (one_round cur_block_id total_cnt m) [
  | exit ↦ some exit
  | ok (over u) ↦ some (ok u)
  | ok (more u) ↦ mine_loop cur_block_id total_cnt fuel u
]
