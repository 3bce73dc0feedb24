-- ===== src/Ledger/Block.antt =====
-- blockchain.cpp, `mined_new_block`: a block's effect on the ledger.
use askcoin_core.Base.{
  u64_mod, ℕ, ◌+◌, Bool, true, false, List, [], Run, ok, ◌>>=◌, ◌>>◌, guard, length, ltb, leb, ◌==◌,
  if◌then◌else◌, ◌≡◌, refl, ◌≤◌, ◌<◌, arith, Ensures, Ensures-of, bind-Ensures, guard-Ensures, All,
  Bool-cases, inl, inr, leb→le,
}
use askcoin_core.Base.Text.{Str}
use askcoin_core.Base.Dict.{insert, str_key}
use askcoin_core.External.{External}
use askcoin_core.Account.{HistoryType, add_history}
use askcoin_core.Ledger.{Ledger, balance_of, add_balance, sub_balance, edit_account, reserve, coins}
use askcoin_core.Ledger.Balance.{total}
use askcoin_core.Ledger.Links.{IsLinked, IsAccount}
use askcoin_core.Ledger.Good.{
  Good, Good-refl, Good-trans, give-Good, sub_balance-Good, add_balance-Given, edit_account-Given,
  Given,
}
use askcoin_core.Ledger.Tx.{BlockInfo}
use askcoin_core.Ledger.Tx.Fee.{entry, history-Good, add_history-keeps, add_history-balance}
use askcoin_core.Ledger.Tx.Apply.{apply_txs, apply_txs-Good}
use askcoin_core.Ledger.Expiry.{Archive, proc_topic_expired, proc_tx_map}
use askcoin_core.Ledger.Expiry.Coins.{IsOrdered, IsLive, proc_topic_expired-Good, proc_tx_map-Good}

-- The reward of a block while the reserve fund lasts.
abbrev pub block_reward : ℕ
block_reward = 5000

-- The miner gets the coin that each transaction left.
unfoldable pub pay_tx_num : BlockInfo → ℕ → ℕ → Ledger → Ledger
pay_tx_num b miner tx_num s =
    if ltb 0 tx_num
    then edit_account miner (add_history (entry b [] HistoryType.miner_tx_reward tx_num))
        (add_balance miner tx_num s)
    else s

-- The block's reward, and `m_miner_reward`; `remain` is the balance of the reserve fund before the
-- miner was paid.
unfoldable pub pay_block_reward : BlockInfo → ℕ → ℕ → Ledger → Ledger × Bool
pay_block_reward b miner remain s =
    if leb block_reward remain
    then (
      edit_account miner (add_history (entry b [] HistoryType.miner_block_reward block_reward))
          (add_balance miner block_reward (sub_balance reserve block_reward s)),
      true,
    )
    else (s, false)

unfoldable pub reward_miner : BlockInfo → ℕ → ℕ → Ledger → Ledger × Bool
unfolding pay_tx_num pay_block_reward
reward_miner b miner tx_num s =
    pay_block_reward b miner (balance_of reserve s.accounts) (pay_tx_num b miner tx_num s)

abbrev pub add_miner : Str → Ledger → Ledger
add_miner pubkey s = record s { miner_pubkeys = insert pubkey s.miner_pubkeys }

module _ (x : External) where
  open x use {Value}

  -- From the expiry on to `m_miner_pubkeys.insert`; the Boolean is `m_miner_reward`.
  unfoldable pub apply_block :
      Archive → BlockInfo → Str → ℕ → List Str → List Value → Ledger → Run (Ledger × Bool)
  unfolding reward_miner
  apply_block h b miner_pubkey miner ids nodes s = do
    live ← proc_topic_expired b.block_id s
    fresh ← proc_tx_map x h b.block_id live
    guard (length ids == length nodes)
    done ← apply_txs x b ids nodes fresh
    let (paid, rewarded) = reward_miner b miner (length ids) done
    ok (add_miner miner_pubkey paid, rewarded)

pay_tx_num-Good :
    (b : BlockInfo) (miner tx_num : ℕ) (s u : Ledger)
    → IsAccount u.accounts miner
    → total s ≤ coins
    → Good s tx_num u
    → Good s 0 (pay_tx_num b miner tx_num u)
unfolding pay_tx_num
pay_tx_num-Good b miner n s u known small g = elim (Bool-cases (ltb 0 n)) [
  | inl e ↦ rw e (Good-trans refl paid (history-Good miner _ _ paid.linked))
  | inr e ↦ rw e (record { linked = g.linked; kept = ground (arith, g.kept); grows = g.grows })
]
  where
    paid : Good s 0 (add_balance miner n u)
    paid = give-Good miner n n 0 s u (omega arith) known (omega arith) g

-- The reserve fund is not poorer after the miner was paid.
pay_tx_num-reserve :
    (b : BlockInfo) (miner tx_num : ℕ) (u : Ledger)
    → IsLinked u
    → IsAccount u.accounts miner
    → total u + tx_num < u64_mod
    → balance_of reserve u.accounts ≤ balance_of reserve (pay_tx_num b miner tx_num u).accounts
unfolding pay_tx_num
pay_tx_num-reserve b miner n u l known small = elim (Bool-cases (ltb 0 n)) [
  | inl e ↦ rw e (given.richer reserve)
  | inr e ↦ rw e (omega arith)
]
  where
    given : Given u n (
        edit_account miner
          (add_history (entry b [] HistoryType.miner_tx_reward n))
          (add_balance miner n u))
    given =
        edit_account-Given miner n _ u (add_balance miner n u) (add_history-keeps _)
          (add_history-balance _) (add_balance-Given miner n u l known small)

pay_block_reward-Good :
    (b : BlockInfo) (miner remain : ℕ) (s : Ledger)
    → IsLinked s
    → IsAccount s.accounts miner
    → total s ≤ coins
    → remain ≤ balance_of reserve s.accounts
    → Good s 0 (pay_block_reward b miner remain s).0
unfolding pay_block_reward
pay_block_reward-Good b miner remain s l known small enough =
    elim (Bool-cases (leb block_reward remain)) [
      | inl e ↦ rw e (
          Good-trans refl (paid (leb→le block_reward remain e))
            (history-Good miner _ _ (paid (leb→le block_reward remain e)).linked))
      | inr e ↦ rw e (Good-refl s l)
    ]
  where
    paid :
        block_reward ≤ remain
        → Good s 0 (add_balance miner block_reward (sub_balance reserve block_reward s))
    paid h =
        let taken : Good s block_reward (sub_balance reserve block_reward s) =
          sub_balance-Good reserve block_reward s l l.reserve_known (omega arith) (omega arith) in
        give-Good miner block_reward block_reward 0 s _ (omega arith) (taken.grows miner known)
          (omega arith) taken

reward_miner-Good :
    (b : BlockInfo) (miner tx_num : ℕ) (s u : Ledger)
    → IsAccount s.accounts miner
    → total s ≤ coins
    → Good s tx_num u
    → Good s 0 (reward_miner b miner tx_num u).0
unfolding reward_miner
reward_miner-Good b miner n s u known small g = Good-trans refl paid (
    pay_block_reward-Good b miner (balance_of reserve u.accounts) (pay_tx_num b miner n u)
      paid.linked (paid.grows miner known) (omega (arith, paid.kept))
      (pay_tx_num-reserve b miner n u g.linked (g.grows miner known) (omega (arith, g.kept))))
  where
    paid : Good s 0 (pay_tx_num b miner n u)
    paid = pay_tx_num-Good b miner n s u (g.grows miner known) small g

add_miner-Good : (pubkey : Str) (s u : Ledger) → Good s 0 u → Good s 0 (add_miner pubkey u)
add_miner-Good pubkey s u g = record {
  linked = record {
    reserve_known = g.linked.reserve_known;
    pubkeys_known = g.linked.pubkeys_known;
    referrers_known = g.linked.referrers_known;
    owners_known = g.linked.owners_known;
  };
  kept = g.kept;
  grows = g.grows;
}

-- With the topics in block order, none older than block 1, all pointers good and the coins of the
-- genesis block, a block whose miner has an account and that goes through conserves every coin and
-- keeps the pointers good: what the transactions cost, what the expired topics held and what the
-- reserve fund pays out goes to other accounts.
pub apply_block-Good :
    (x : External) (h : Archive) (b : BlockInfo) (miner_pubkey : Str) (miner : ℕ) (ids : List Str)
    (nodes : List (x.Value)) (s : Ledger)
    → IsOrdered s.topic_list
    → All (λ t. 1 ≤ t.block_id) s.topic_list
    → IsLinked s
    → IsAccount s.accounts miner
    → total s ≡ coins
    → Ensures
        (λ r. IsLinked r.0 × (total r.0 ≡ coins))
        (apply_block x h b miner_pubkey miner ids nodes s)
unfolding apply_block
apply_block-Good x h b miner_pubkey miner ids nodes s o p l known whole =
    bind-Ensures Kept (proc_topic_expired b.block_id s) _ (λ live at_live.
      bind-Ensures Kept (proc_tx_map x h b.block_id live) _ (λ fresh at_fresh.
        guard-Ensures Kept (length ids == length nodes) _ (λ _.
          bind-Ensures Kept (apply_txs x b ids nodes fresh) _ (λ done at_done. kept _ (
            add_miner-Good miner_pubkey s _ (
              reward_miner-Good b miner (length ids) s done known (omega arith) (
                Good-trans (omega arith) (expired live fresh at_live at_fresh)
                  (ran fresh done (expired live fresh at_live at_fresh) at_done))))))))
  where
    Kept : Ledger × Bool → Type 0
    Kept r = IsLinked r.0 × (total r.0 ≡ coins)

    expired :
        (live fresh : Ledger)
        → proc_topic_expired b.block_id s ≡ ok live
        → proc_tx_map x h b.block_id live ≡ ok fresh
        → Good s 0 fresh
    expired live fresh at_live at_fresh =
        let g : Good s 0 live =
          (Ensures-of (λ u. Good s 0 u × All (IsLive b.block_id) u.topic_list)
            (proc_topic_expired b.block_id s) live
            (proc_topic_expired-Good b.block_id s o p l (omega arith)) at_live).0 in
        Good-trans refl g (
          Ensures-of (Good live 0) (proc_tx_map x h b.block_id live) fresh
            (proc_tx_map-Good x h b.block_id live g.linked) at_fresh)

    ran :
        (fresh done : Ledger)
        → Good s 0 fresh
        → apply_txs x b ids nodes fresh ≡ ok done
        → Good fresh (length ids) done
    ran fresh done g at_done =
        Ensures-of (Good fresh (length ids)) (apply_txs x b ids nodes fresh) done
          (apply_txs-Good x b ids nodes fresh g.linked (omega (arith, g.kept))) at_done

    kept : (u : Ledger) → Good s 0 u → IsLinked u × (total u ≡ coins)
    kept u g = (g.linked, omega (arith, g.kept))
