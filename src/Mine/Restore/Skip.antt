-- ===== src/Mine/Restore/Skip.antt =====
-- `failed_cb`: the fee goes back, and the ledger is as before.
use askcoin_core.Base.{
  u64_mod, ◌+◌, ◌-◌, ◌%◌, ℕ, ◌≡◌, refl, ap, ◌∙◌, Option, none, some, List, [], ◌∷◌, arith,
}
use askcoin_core.Account.{Account}
use askcoin_core.Ledger.{Ledger, update_account, add_balance, sub_balance, set_balance}
use askcoin_core.Mine.{give_back}
use askcoin_core.Mine.Writes.{undo_writes, give, take, shift, unshift, update_account_swap}
use askcoin_core.Mine.Restore.{
  Restored, IsSane, coin_of, fee_taken, fee-AreUndone, fee_accounts, then_give, then_take,
  back_again,
}

give_back-other :
    (a : ℕ) (ref : Option ℕ) (u : Ledger)
    → give_back a ref u ≡ sub_balance (coin_of ref) 1 (add_balance a 2 u)
unfolding give_back
give_back-other a none u = refl
give_back-other a (some r) u = refl

-- The two payments go back in either order.
back_swap :
    (c a : ℕ) (xs : List Account)
    → update_account c (unshift 1) (update_account a (shift 2) xs)
      ≡ undo_writes (give c 1 ∷ take a 2 ∷ []) xs
back_swap c a xs =
    update_account_swap c a (unshift 1) (shift 2) xs (λ b. refl) (λ b. refl)
      (λ b. ap (λ n. record b { balance = n }) (the_sum b.balance))
  where
    the_sum :
        (n : ℕ)
        → ((n + 2) % u64_mod + u64_mod - 1) % u64_mod ≡ ((n + u64_mod - 1) % u64_mod + 2) % u64_mod
    the_sum n = omega arith

pub skip-Restored :
    (a : ℕ) (ref : Option ℕ) (s : Ledger)
    → IsSane s
    → Restored s (give_back a ref (fee_taken a ref s))
unfolding give_back add_balance sub_balance set_balance
skip-Restored a ref s sane = record {
  accounts =
      ap (λ l. l.accounts) (give_back-other a ref (fee_taken a ref s))
      ∙ then_take (coin_of ref) 1 (add_balance a 2 (fee_taken a ref s)) _
          (then_give a 2 (fee_taken a ref s) _ refl)
      ∙ back_swap (coin_of ref) a (fee_taken a ref s).accounts
      ∙ back_again (give (coin_of ref) 1 ∷ take a 2 ∷ []) s (fee_taken a ref s)
          (record s {
            accounts =
                undo_writes (give (coin_of ref) 1 ∷ take a 2 ∷ []) (fee_taken a ref s).accounts;
          })
          (fee-AreUndone (coin_of ref) a) sane (fee_accounts a ref s) refl;
  by_pubkey = ap (λ l. l.by_pubkey) (give_back-other a ref (fee_taken a ref s));
  names = ap (λ l. l.names) (give_back-other a ref (fee_taken a ref s));
  cur_account_id = ap (λ l. l.cur_account_id) (give_back-other a ref (fee_taken a ref s));
  topics = ap (λ l. l.topics) (give_back-other a ref (fee_taken a ref s));
  topic_list = ap (λ l. l.topic_list) (give_back-other a ref (fee_taken a ref s));
  tx_map = ap (λ l. l.tx_map) (give_back-other a ref (fee_taken a ref s));
  rollback_topics = ap (λ l. l.rollback_topics) (give_back-other a ref (fee_taken a ref s));
  rollback_txs = ap (λ l. l.rollback_txs) (give_back-other a ref (fee_taken a ref s));
  miner_pubkeys = ap (λ l. l.miner_pubkeys) (give_back-other a ref (fee_taken a ref s));
}
