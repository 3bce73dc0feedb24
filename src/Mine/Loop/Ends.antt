-- ===== src/Mine/Loop/Ends.antt =====
-- The loop of the dry run ends.
use askcoin_core.Base.{
  ℕ, zero, suc, ◌+◌, ◌-◌, ◌*◌, ◌≡◌, ◌<◌, refl, Bool, true, false, Option, none, some, List, [], ◌∷◌,
  ◌++◌, Run, ok, exit, ◌>>=◌, length, ltb, leb, ◌==◌, arith, Bool-cases, inl, inr, Ensures,
  bind-Ensures,
}
use askcoin_core.Ledger.{Ledger}
use askcoin_core.Pending.{Tx}
use askcoin_core.Mine.{dry_tx}
use askcoin_core.Mine.Loop.{
  Miner, at_start, Verdict, more, over, count_up, sort_tx, one_round, mine_loop,
}

-- The rounds that are left at most: those of this pass, and of the passes that may follow.
abbrev rounds_left : ℕ → Miner → ℕ
rounds_left total_cnt m = (2 - m.loop_cnt) * (total_cnt + 1) + (m.remain_cnt - m.cnt)

-- A new pass is one of two, and as long as the queue at most.
new_pass :
    (k total_cnt n : ℕ)
    → k + 1 < 3
    → (2 - (k + 1)) * (total_cnt + 1) + (total_cnt - n - 1) < (2 - k) * (total_cnt + 1)
new_pass zero total_cnt n h = omega arith
new_pass (suc zero) total_cnt n h = omega arith
new_pass (suc (suc k)) total_cnt n h = omega arith

-- The same pass, one transaction later.
same_pass : (a r c : ℕ) → c < r → a + (r - (c + 1)) < a + (r - c)
same_pass a r c h = omega arith

more_left : {x y : ℕ} (z : ℕ) → x < y → x < y + z
more_left z h = omega arith

-- Fewer rounds are left after the counting.
abbrev FewerLeft : ℕ → Miner → Option Miner → Type 0
FewerLeft total_cnt m none = Unit
FewerLeft total_cnt m (some u) = rounds_left total_cnt u < rounds_left total_cnt m

count_up-FewerLeft : (total_cnt : ℕ) (m : Miner) → FewerLeft total_cnt m (count_up total_cnt m)
unfolding count_up
count_up-FewerLeft total_cnt m = elim (Bool-cases (ltb m.remain_cnt (m.cnt + 1))) [
  | inr h ↦ rw h (same_pass ((2 - m.loop_cnt) * (total_cnt + 1)) m.remain_cnt m.cnt (ground arith))
  | inl h ↦ elim (Bool-cases (leb 3 (m.loop_cnt + 1))) [
    | inl third ↦ rw (h, third) tt
    | inr k ↦ elim (Bool-cases (length m.mined_txs == m.last_mined_cnt)) [
      | inl idle ↦ rw (h, k, idle) tt
      | inr busy ↦
          rw (h, k, busy)
            (more_left (m.remain_cnt - m.cnt)
              (new_pass m.loop_cnt total_cnt (length m.mined_txs) (ground arith)))
    ]
  ]
]

-- Fewer than `k` rounds are left after a round that is not the last.
abbrev LeavesLess : ℕ → ℕ → Verdict → Type 0
LeavesLess total_cnt k (over u) = Unit
LeavesLess total_cnt k (more u) = rounds_left total_cnt u < k

sort_tx-LeavesLess :
    (total_cnt k : ℕ) (t : Tx) (txs : List Tx) (u : Miner) (r : Ledger × Bool)
    → rounds_left total_cnt u < k
    → LeavesLess total_cnt k (sort_tx t txs u r)
unfolding sort_tx
sort_tx-LeavesLess total_cnt k t txs u (s, true) h =
    elim (Bool-cases (leb 2000 (length (u.mined_txs ++ t ∷ [])))) [
      | inl full ↦ rw full tt
      | inr room ↦ rw room h
    ]
sort_tx-LeavesLess total_cnt k t txs u (s, false) h = h

one_round-LeavesLess :
    (cur_block_id total_cnt : ℕ) (m : Miner)
    → Ensures (LeavesLess total_cnt (rounds_left total_cnt m)) (one_round cur_block_id total_cnt m)
unfolding one_round
one_round-LeavesLess cur_block_id total_cnt m =
    of_queue m.uv_2_txs (count_up total_cnt m) (count_up-FewerLeft total_cnt m)
  where
    of_queue :
        (q : List Tx) (c : Option Miner)
        → FewerLeft total_cnt m c
        → Ensures (LeavesLess total_cnt (rounds_left total_cnt m)) (elim q [
          | [] ↦ ok (over m)
          | t ∷ txs ↦ elim c [
            | none ↦ ok (over m)
            | some u ↦ dry_tx cur_block_id t u.ledger >>= λ r. ok (sort_tx t txs u r)
          ]
        ])
    of_queue [] c h = tt
    of_queue (t ∷ txs) none h = tt
    of_queue (t ∷ txs) (some u) h =
        bind-Ensures (LeavesLess total_cnt (rounds_left total_cnt m))
          (dry_tx cur_block_id t u.ledger) _
          (λ r _. sort_tx-LeavesLess total_cnt (rounds_left total_cnt m) t txs u r h)

mine_loop-enough :
    (cur_block_id total_cnt fuel : ℕ) (m : Miner)
    → rounds_left total_cnt m < fuel
    → (r : Run Miner) × (mine_loop cur_block_id total_cnt fuel m ≡ some r)
unfolding mine_loop
mine_loop-enough cur_block_id total_cnt zero m h = absurd (omega arith)
mine_loop-enough cur_block_id total_cnt (suc fuel) m h =
    go (one_round cur_block_id total_cnt m) (one_round-LeavesLess cur_block_id total_cnt m)
      (λ u. mine_loop-enough cur_block_id total_cnt fuel u)
  where
    go :
        (v : Run Verdict)
        → Ensures (LeavesLess total_cnt (rounds_left total_cnt m)) v
        → ((u : Miner)
            → rounds_left total_cnt u < fuel
            → (r : Run Miner) × (mine_loop cur_block_id total_cnt fuel u ≡ some r))
        → (r : Run Miner) × (elim v [
          | exit ↦ some exit
          | ok (over u) ↦ some (ok u)
          | ok (more u) ↦ mine_loop cur_block_id total_cnt fuel u
        ]
            ≡ some r)
    go exit l rest = (exit, refl)
    go (ok (over u)) l rest = (ok u, refl)
    go (ok (more u)) l rest = rest u (omega arith)

-- The loop of `mine_tx`, on any queue, ends after at most three times the length of the queue, plus three, rounds.
pub mine_loop-ends :
    (cur_block_id : ℕ) (txs : List Tx) (s : Ledger)
    → (r : Run Miner) × (mine_loop cur_block_id (length txs) (3 * length txs + 3) (at_start txs s)
        ≡ some r)
mine_loop-ends cur_block_id txs s =
    mine_loop-enough cur_block_id (length txs) (3 * length txs + 3) (at_start txs s)
      (at_most (length txs))
  where
    at_most : (n : ℕ) → (2 - 0) * (n + 1) + (n - 0) < 3 * n + 3
    at_most n = omega arith
