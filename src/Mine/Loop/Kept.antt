-- ===== src/Mine/Loop/Kept.antt =====
-- What the loop of the dry run makes of the queue.
use mathlib.Core.List.Perm
use mathlib.Core.List.{Perm, append_assoc, perm_append_singleton}
use askcoin_core.Base.{
  ℕ, zero, suc, ◌≡◌, ◌≤◌, sym, subst, Bool, true, false, Option, none, some, List, [], ◌∷◌, ◌++◌,
  Run, ok, exit, ◌>>=◌, length, length-append, leb, arith, Bool-cases, inl, inr, Ensures,
  bind-Ensures,
}
use askcoin_core.Ledger.{Ledger}
use askcoin_core.Pending.{Tx}
use askcoin_core.Mine.{dry_tx}
use askcoin_core.Mine.Loop.{
  Miner, at_start, Verdict, more, over, count_up, sort_tx, one_round, mine_loop,
}

-- The transactions of both lists are those of the queue, and `k` at most are in the block.
abbrev pub IsSplit : ℕ → List Tx → Miner → Type 0
IsSplit k txs m = Perm (m.mined_txs ++ m.uv_2_txs) txs × (length m.mined_txs ≤ k)

abbrev SplitAfter : List Tx → Verdict → Type 0
SplitAfter txs (over u) = IsSplit 2000 txs u
SplitAfter txs (more u) = IsSplit 1999 txs u

sort_tx-SplitAfter :
    (all : List Tx) (t : Tx) (txs : List Tx) (u : Miner) (r : Ledger × Bool)
    → Perm (u.mined_txs ++ t ∷ txs) all
    → length u.mined_txs ≤ 1999
    → SplitAfter all (sort_tx t txs u r)
unfolding sort_tx
sort_tx-SplitAfter all t txs u (s, true) p h =
    elim (Bool-cases (leb 2000 (length (u.mined_txs ++ t ∷ [])))) [
      | inl full ↦ rw full (q, omega (arith, length-append u.mined_txs (t ∷ [])))
      | inr room ↦ rw room (q, ground arith)
    ]
  where
    q : Perm ((u.mined_txs ++ t ∷ []) ++ txs) all
    q = subst (λ l. Perm l all) (sym (append_assoc u.mined_txs (t ∷ []) txs)) p
sort_tx-SplitAfter all t txs u (s, false) p h =
    (Perm.trans (Perm.append_left u.mined_txs (perm_append_singleton t txs)) p, h)

-- The counting leaves the lists alone.
abbrev SameLists : Miner → Option Miner → Type 0
SameLists m none = Unit
SameLists m (some u) = u.mined_txs ≡ m.mined_txs

count_up-SameLists : (total_cnt : ℕ) (m : Miner) → SameLists m (count_up total_cnt m)
unfolding count_up
count_up-SameLists total_cnt m = ground arith

one_round-SplitAfter :
    (cur_block_id total_cnt : ℕ) (all : List Tx) (m : Miner)
    → IsSplit 1999 all m
    → Ensures (SplitAfter all) (one_round cur_block_id total_cnt m)
unfolding one_round
one_round-SplitAfter cur_block_id total_cnt all m (p, h) =
    of_queue m.uv_2_txs (count_up total_cnt m) (count_up-SameLists total_cnt m) p
  where
    of_queue :
        (q : List Tx) (c : Option Miner)
        → SameLists m c
        → Perm (m.mined_txs ++ q) all
        → Ensures (SplitAfter all) (elim q [
          | [] ↦ ok (over m)
          | t ∷ txs ↦ elim c [
            | none ↦ ok (over m)
            | some u ↦ dry_tx cur_block_id t u.ledger >>= λ r. ok (sort_tx t txs u r)
          ]
        ])
    of_queue [] c e k = (p, omega arith)
    of_queue (t ∷ txs) none e k = (p, omega arith)
    of_queue (t ∷ txs) (some u) e k =
        bind-Ensures (SplitAfter all) (dry_tx cur_block_id t u.ledger) _ (λ r _.
          sort_tx-SplitAfter all t txs u r (subst (λ l. Perm (l ++ t ∷ txs) all) (sym e) k)
            (subst (λ l. length l ≤ 1999) (sym e) h))

mine_loop-IsSplit :
    (cur_block_id total_cnt fuel : ℕ) (all : List Tx) (m u : Miner)
    → IsSplit 1999 all m
    → mine_loop cur_block_id total_cnt fuel m ≡ some (ok u)
    → IsSplit 2000 all u
unfolding mine_loop
mine_loop-IsSplit cur_block_id total_cnt zero all m u h e = cc
mine_loop-IsSplit cur_block_id total_cnt (suc fuel) all m u h e =
    go (one_round cur_block_id total_cnt m) (one_round-SplitAfter cur_block_id total_cnt all m h)
      (λ v. mine_loop-IsSplit cur_block_id total_cnt fuel all v u) e
  where
    go :
        (v : Run Verdict)
        → Ensures (SplitAfter all) v
        → ((w : Miner)
            → IsSplit 1999 all w
            → mine_loop cur_block_id total_cnt fuel w ≡ some (ok u)
            → IsSplit 2000 all u)
        → elim v [
          | exit ↦ some exit
          | ok (over w) ↦ some (ok w)
          | ok (more w) ↦ mine_loop cur_block_id total_cnt fuel w
        ]
          ≡ some (ok u)
        → IsSplit 2000 all u
    go exit l rest q = cc
    go (ok (over w)) l rest q = let same : w ≡ u = cc q in subst (IsSplit 2000 all) same l
    go (ok (more w)) l rest q = rest w l q

-- Whatever the queue, the loop of `mine_tx` puts 2000 transactions in the block at most, and those and the
-- ones that are left in the queue are the queue's, each as often as before.
pub mine_loop-keeps :
    (cur_block_id fuel : ℕ) (txs : List Tx) (s : Ledger) (u : Miner)
    → mine_loop cur_block_id (length txs) fuel (at_start txs s) ≡ some (ok u)
    → Perm (u.mined_txs ++ u.uv_2_txs) txs × (length u.mined_txs ≤ 2000)
mine_loop-keeps cur_block_id fuel txs s u e =
    mine_loop-IsSplit cur_block_id (length txs) fuel txs (at_start txs s) u
      (Perm.refl txs, omega arith) e
