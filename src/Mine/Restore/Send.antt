-- ===== src/Mine/Restore/Send.antt =====
-- The dry run of a transfer of coins is undone.
use askcoin_core.Base.{
  u64_mod, ℕ, not, ◌≡◌, ◌<◌, refl, ◌∙◌, Option, some, List, [], ◌∷◌, ltb, arith,
}
use askcoin_core.Base.Text.{Str}
use askcoin_core.Base.Dict.{str_key}
use askcoin_core.Ledger.{Ledger, balance_of, get_account, set_balance, add_balance, sub_balance}
use askcoin_core.Pending.{tx_send}
use askcoin_core.Mine.{Gives, bind-Gives, need, want, want-done, dry_send}
use askcoin_core.Mine.Undo.{undo_body}
use askcoin_core.Mine.Writes.{
  Write, AreUndone, do_writes, undo_writes, give, take, give-IsUndone, take-IsUndone, give-give,
  give-take, take-give, take-take,
}
use askcoin_core.Mine.Restore.{
  IsSane, coin_of, fee_taken, Found, undo_paying-start, CanUndo, then_give, then_take, fee_accounts,
  refund_accounts, back_again, Found-after,
}

send-AreUndone :
    (r a q v : ℕ) → v < u64_mod → AreUndone (give r 1 ∷ take a 2 ∷ take a v ∷ give q v ∷ [])
send-AreUndone r a q v h = (
  give-IsUndone r 1 (omega arith),
  (
    give-take r 1 a 2 (omega arith) (omega arith),
    (give-take r 1 a v (omega arith) h, (give-give r 1 q v (omega arith) h, tt)),
  ),
  (
    take-IsUndone a 2 (omega arith),
    (take-take a 2 a v h, (take-give a 2 q v, tt)),
    (take-IsUndone a v h, (take-give a v q v, tt), (give-IsUndone q v h, tt, tt)),
  ),
)

pub send-CanUndo :
    (tx_id pubkey receiver_pubkey : Str) (v a : ℕ) (ref : Option ℕ) (s : Ledger)
    → IsSane s
    → get_account pubkey s ≡ some a
    → Found a ref s.accounts
    → v < u64_mod
    → Gives
        (CanUndo tx_id pubkey (tx_send receiver_pubkey v) s)
        (dry_send receiver_pubkey v a (fee_taken a ref s))
unfolding dry_send undo_body add_balance sub_balance set_balance get_account
send-CanUndo tx_id pubkey receiver_pubkey v a ref s sane e f h =
    bind-Gives _ (need (not (ltb (balance_of a (fee_taken a ref s).accounts) v))) _ (λ _ _.
      bind-Gives _ (want (get_account receiver_pubkey s)) _
        (λ q found. back q (want-done (get_account receiver_pubkey s) found)))
  where
    back :
        (q : ℕ)
        → get_account receiver_pubkey s ≡ some q
        → CanUndo tx_id pubkey
            (tx_send receiver_pubkey v)
            s
            (add_balance q v (sub_balance a v (fee_taken a ref s)))
    back q found = (
      refl,
      w,
      undo_paying-start tx_id pubkey (tx_send receiver_pubkey v) a ref u e found_after
          ∙ rw found refl,
      record {
        accounts = back_again ws s u w us sane forward backward;
        by_pubkey = refl;
        names = refl;
        cur_account_id = refl;
        topics = refl;
        topic_list = refl;
        tx_map = refl;
        rollback_topics = refl;
        rollback_txs = refl;
        miner_pubkeys = refl;
      },
    )
      where
        r : ℕ
        r = coin_of ref

        ws : List Write
        ws = give r 1 ∷ take a 2 ∷ take a v ∷ give q v ∷ []

        us : AreUndone ws
        us = send-AreUndone r a q v h

        u : Ledger
        u = add_balance q v (sub_balance a v (fee_taken a ref s))

        u0 : Ledger
        u0 = add_balance a 2 (sub_balance r 1 u)

        w : Ledger
        w = sub_balance q v (add_balance a v u0)

        forward : u.accounts ≡ do_writes ws s.accounts
        forward =
            then_give q v (sub_balance a v (fee_taken a ref s)) _
              (then_take a v (fee_taken a ref s) _ (fee_accounts a ref s))

        backward : w.accounts ≡ undo_writes ws u.accounts
        backward =
            then_take q v (add_balance a v u0) _ (then_give a v u0 _ (refund_accounts a ref u))

        found_after : Found a ref u.accounts
        found_after = Found-after a ref ws s u us forward f
