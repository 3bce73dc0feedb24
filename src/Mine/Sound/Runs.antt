-- ===== src/Mine/Sound/Runs.antt =====
-- The loop of the dry run, from a sound ledger, is a run that the second loop takes back.
use askcoin_core.Base.{
  u64_mod, ℕ, zero, suc, ◌+◌, ◌≡◌, ◌≤◌, ◌<◌, sym, subst, Bool, true, false, Option, none, some,
  List, [], ◌∷◌, ◌++◌, Run, ok, exit, ◌>>=◌, Ensures, bind-Ensures, length, length-append, leb, All,
  All-append, Bool-cases, inl, inr, arith,
}
use askcoin_core.Ledger.{Ledger}
use askcoin_core.Pending.{Tx}
use askcoin_core.Mine.{dry_tx}
use askcoin_core.Mine.Loop.{
  Miner, at_start, Verdict, more, over, count_up, sort_tx, one_round, mine_loop,
}
use askcoin_core.Mine.Restore.{Restored, IsSane}
use askcoin_core.Mine.Restore.Rounds.{AmountFits, dry_tx-skipped}
use askcoin_core.Mine.Whole.{Rounds, stay, mined, skipped, undo_all, undo_all-Rounds}
use askcoin_core.Mine.Sound.{IsSound, IsSound-IsSane}
use askcoin_core.Mine.Sound.Rounds.{Grown, dry_tx-Grown, Restored-IsSound}

-- One more round at the end.
Rounds-mined :
    (n : ℕ) (s u w : Ledger) (ts : List Tx) (t : Tx)
    → Rounds n s ts u
    → IsSane u
    → AmountFits t.body
    → dry_tx n t u ≡ ok (w, true)
    → Rounds n s (ts ++ t ∷ []) w
Rounds-mined n s u w _ t stay sane f e = mined t sane f e stay
Rounds-mined n s u w _ t (mined q a b c rest) sane f e =
    mined q a b c (Rounds-mined n _ u w _ t rest sane f e)
Rounds-mined n s u w ts t (skipped q a b c rest) sane f e =
    skipped q a b c (Rounds-mined n _ u w ts t rest sane f e)

Rounds-skipped :
    (n : ℕ) (s u w : Ledger) (ts : List Tx) (t : Tx)
    → Rounds n s ts u
    → IsSane u
    → AmountFits t.body
    → dry_tx n t u ≡ ok (w, false)
    → Rounds n s ts w
Rounds-skipped n s u w _ t stay sane f e = skipped t sane f e stay
Rounds-skipped n s u w _ t (mined q a b c rest) sane f e =
    mined q a b c (Rounds-skipped n _ u w _ t rest sane f e)
Rounds-skipped n s u w ts t (skipped q a b c rest) sane f e =
    skipped q a b c (Rounds-skipped n _ u w ts t rest sane f e)

abbrev pub AllFit : List Tx → Type 0
AllFit ts = All (λ t. AmountFits t.body) ts

module _ (n : ℕ) (s : Ledger) (room : s.cur_account_id + 2001 < u64_mod) where
  -- What is known of a ledger after rounds with these transactions of the block, `k` at most.
  record Reached (k : ℕ) (ts : List Tx) (u : Ledger) : Type 0 where
    pub rounds : Rounds n s ts u
    pub sound : IsSound u.tx_map u
    pub last_id : u.cur_account_id ≤ s.cur_account_id + length ts
    pub few : length ts ≤ k

  abbrev IsRun : ℕ → Miner → Type 0
  IsRun k m = Reached k m.mined_txs m.ledger × AllFit m.uv_2_txs

  abbrev RunAfter : Verdict → Type 0
  RunAfter (more m) = IsRun 1999 m
  RunAfter (over m) = IsRun 2000 m

  Reached-more : (ts : List Tx) (u : Ledger) → Reached 1999 ts u → Reached 2000 ts u
  Reached-more ts u r = record {
    rounds = r.rounds;
    sound = r.sound;
    last_id = r.last_id;
    few = omega (arith, r.few);
  }

  Reached-IsSane : (ts : List Tx) (u : Ledger) → Reached 1999 ts u → IsSane u
  Reached-IsSane ts u r = IsSound-IsSane u r.sound (omega (arith, r.last_id, r.few, room))

  Reached-mined :
      (ts : List Tx) (u w : Ledger) (t : Tx)
      → Reached 1999 ts u
      → AmountFits t.body
      → dry_tx n t u ≡ ok (w, true)
      → Reached 2000 (ts ++ t ∷ []) w
  Reached-mined ts u w t r f e =
      let (sound, last_id) : Grown u (w, true) =
        dry_tx-Grown n t u w f r.sound (omega (arith, r.last_id, r.few, room)) e in
      record {
        rounds = Rounds-mined n s u w ts t r.rounds (Reached-IsSane ts u r) f e;
        sound = sound;
        last_id = omega (arith, last_id, r.last_id, length-append ts (t ∷ []));
        few = omega (arith, r.few, length-append ts (t ∷ []));
      }

  Reached-skipped :
      (ts : List Tx) (u w : Ledger) (t : Tx)
      → Reached 1999 ts u
      → AmountFits t.body
      → dry_tx n t u ≡ ok (w, false)
      → Reached 1999 ts w
  Reached-skipped ts u w t r f e =
      let back : Restored u w = dry_tx-skipped n t u w (Reached-IsSane ts u r) f e in
      record {
        rounds = Rounds-skipped n s u w ts t r.rounds (Reached-IsSane ts u r) f e;
        sound = Restored-IsSound u w back r.sound;
        last_id = omega (arith, r.last_id, back.cur_account_id);
        few = r.few;
      }

  sort_tx-RunAfter :
      (t : Tx) (txs : List Tx) (m : Miner) (w : Ledger) (b : Bool)
      → Reached 1999 m.mined_txs m.ledger
      → AllFit (t ∷ txs)
      → dry_tx n t m.ledger ≡ ok (w, b)
      → RunAfter (sort_tx t txs m (w, b))
  unfolding sort_tx
  sort_tx-RunAfter t txs m w true r f e =
      let after : Reached 2000 (m.mined_txs ++ t ∷ []) w =
        Reached-mined m.mined_txs m.ledger w t r f.0 e in
      elim (Bool-cases (leb 2000 (length (m.mined_txs ++ t ∷ [])))) [
        | inl full ↦ rw full (after, f.1)
        | inr free ↦ rw free (
          record {
            rounds = after.rounds;
            sound = after.sound;
            last_id = after.last_id;
            few = ground (arith, free);
          },
          f.1,
        )
      ]
  sort_tx-RunAfter t txs m w false r f e = (
    Reached-skipped m.mined_txs m.ledger w t r f.0 e,
    All-append (λ q. AmountFits q.body) txs (t ∷ []) f.1 (f.0, tt),
  )

  -- The counting leaves the ledger and the block alone.
  abbrev SameRun : Miner → Option Miner → Type 0
  SameRun m none = Unit
  SameRun m (some u) = (u.mined_txs ≡ m.mined_txs) × (u.ledger ≡ m.ledger)

  count_up-SameRun : (total_cnt : ℕ) (m : Miner) → SameRun m (count_up total_cnt m)
  unfolding count_up
  count_up-SameRun total_cnt m = ground arith

  one_round-RunAfter :
      (total_cnt : ℕ) (m : Miner) → IsRun 1999 m → Ensures RunAfter (one_round n total_cnt m)
  unfolding one_round
  one_round-RunAfter total_cnt m (r, f) =
      of_queue m.uv_2_txs (count_up total_cnt m) (count_up-SameRun total_cnt m) f
    where
      of_queue :
          (q : List Tx) (c : Option Miner)
          → SameRun m c
          → AllFit q
          → Ensures RunAfter (elim q [
            | [] ↦ ok (over m)
            | t ∷ txs ↦ elim c [
              | none ↦ ok (over m)
              | some u ↦ dry_tx n t u.ledger >>= λ r. ok (sort_tx t txs u r)
            ]
          ])
      of_queue [] c e k = (Reached-more m.mined_txs m.ledger r, f)
      of_queue (t ∷ txs) none e k = (Reached-more m.mined_txs m.ledger r, f)
      of_queue (t ∷ txs) (some u) (e, d) k =
          bind-Ensures RunAfter (dry_tx n t u.ledger) _ (λ (w, b) ran.
            sort_tx-RunAfter t txs u w b
              (subst (λ ts. Reached 1999 ts u.ledger) (sym e)
                (subst (Reached 1999 m.mined_txs) (sym d) r))
              k ran)

  mine_loop-IsRun :
      (total_cnt fuel : ℕ) (m u : Miner)
      → IsRun 1999 m
      → mine_loop n total_cnt fuel m ≡ some (ok u)
      → IsRun 2000 u
  unfolding mine_loop
  mine_loop-IsRun total_cnt zero m u h e = absurd (cc e)
  mine_loop-IsRun total_cnt (suc fuel) m u h e =
      go (one_round n total_cnt m) (one_round-RunAfter total_cnt m h)
        (λ v. mine_loop-IsRun total_cnt fuel v u) e
    where
      go :
          (v : Run Verdict)
          → Ensures RunAfter v
          → ((w : Miner) → IsRun 1999 w → mine_loop n total_cnt fuel w ≡ some (ok u) → IsRun 2000 u)
          → elim v [
            | exit ↦ some exit
            | ok (over w) ↦ some (ok w)
            | ok (more w) ↦ mine_loop n total_cnt fuel w
          ]
            ≡ some (ok u)
          → IsRun 2000 u
      go exit l rest q = absurd (cc q)
      go (ok (over w)) l rest q = let same : w ≡ u = cc q in subst (IsRun 2000) same l
      go (ok (more w)) l rest q = rest w l q

-- The loop as rounds, and the ledger after it.
pub mine_loop-Rounds :
    (cur_block_id fuel : ℕ) (txs : List Tx) (s : Ledger) (m : Miner)
    → IsSound s.tx_map s
    → s.cur_account_id + 2001 < u64_mod
    → AllFit txs
    → mine_loop cur_block_id (length txs) fuel (at_start txs s) ≡ some (ok m)
    → Rounds cur_block_id s m.mined_txs m.ledger × IsSound m.ledger.tx_map m.ledger
mine_loop-Rounds cur_block_id fuel txs s m sound room fit e =
    let (r, rest) : IsRun cur_block_id s room 2000 m =
      mine_loop-IsRun cur_block_id s room (length txs) fuel (at_start txs s) m
        (record { rounds = stay; sound = sound; last_id = omega arith; few = omega arith }, fit)
        e in
    (r.rounds, r.sound)

-- The loop of `mine_tx`, over any queue whose amounts are uint64 and from a sound ledger with room for 2001 more
-- accounts, keeps the ledger sound; and the second loop takes back all that it did: this ends normally, and all of
-- the ledger but the order by wealth is what it was.
pub undo_all-mine_loop :
    (cur_block_id fuel : ℕ) (txs : List Tx) (s : Ledger) (m : Miner)
    → IsSound s.tx_map s
    → s.cur_account_id + 2001 < u64_mod
    → All (λ t. AmountFits t.body) txs
    → mine_loop cur_block_id (length txs) fuel (at_start txs s) ≡ some (ok m)
    → IsSound m.ledger.tx_map m.ledger
      × (w : Ledger) × (undo_all m.mined_txs m.ledger ≡ ok w)
      × Restored s w
undo_all-mine_loop cur_block_id fuel txs s m sound room fit e =
    let (rounds, after) = mine_loop-Rounds cur_block_id fuel txs s m sound room fit e in
    let (w, done, back) = undo_all-Rounds cur_block_id s m.ledger m.mined_txs rounds in
    (after, w, done, back)
