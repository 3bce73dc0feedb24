-- ===== src/Mine/Restore/Publish.antt =====
-- The dry run of a new topic is undone.
use askcoin_core.Base.{
  u64_mod, ℕ, not, ◌≡◌, ◌<◌, refl, ap, true, false, Option, some, List, [], ◌∷◌, ltb, length, arith,
  Bool-cases, inl, inr,
}
use askcoin_core.Base.Text.{Str}
use askcoin_core.Base.Dict.{contains, erase, erase-insert, str_key}
use askcoin_core.Topic.{Topic, new_topic}
use askcoin_core.Ledger.{
  Ledger, find_account, balance_of, get_account, get_topic, set_balance, add_balance, sub_balance,
  edit_account,
}
use askcoin_core.Ledger.Tx.Register.{is_none}
use askcoin_core.Ledger.Tx.Post.{push_topic, add_topic}
use askcoin_core.Pending.{tx_topic}
use askcoin_core.Mine.{Gives, bind-Gives, need, need-done, follow, dry_topic}
use askcoin_core.Mine.Undo.{pop_back, undo_body, pop_topic_back}
use askcoin_core.Mine.Writes.{
  Write, IsUndone, AreUndone, do_writes, undo_writes, give, take, give-IsUndone, take-IsUndone,
  give-take, take-take,
}
use askcoin_core.Mine.Topics.{pop_back-append}
use askcoin_core.Mine.Restore.{
  IsSane, coin_of, fee_taken, Found, undo_paying-start, CanUndo, then_give, then_take, then_edit,
  fee_accounts, refund_accounts, back_again, Found-after,
}

-- The topic goes to the end of its owner's list.
abbrev listing : ℕ → Str → Write
listing a tx_id = record { target = a; act = push_topic tx_id; back = pop_topic_back }

listing-IsUndone : (a : ℕ) (tx_id : Str) → IsUndone (listing a tx_id)
listing-IsUndone a tx_id = record {
  act_id = λ b. refl;
  act_referrer = λ b. refl;
  back_id = λ b. refl;
  act_fits = λ b p. p;
  undone = λ b p. ap (λ l. record b { topic_list = l }) (pop_back-append b.topic_list tx_id);
}

topic-AreUndone :
    (r a v : ℕ) (tx_id : Str)
    → v < u64_mod
    → AreUndone (give r 1 ∷ take a 2 ∷ take a v ∷ listing a tx_id ∷ [])
topic-AreUndone r a v tx_id h = (
  give-IsUndone r 1 (omega arith),
  (
    give-take r 1 a 2 (omega arith) (omega arith),
    (give-take r 1 a v (omega arith) h, ((λ b. refl), tt)),
  ),
  (
    take-IsUndone a 2 (omega arith),
    (take-take a 2 a v h, ((λ b. refl), tt)),
    (take-IsUndone a v h, ((λ b. refl), tt), (listing-IsUndone a tx_id, tt, tt)),
  ),
)

-- No topic with the key, so the key is not in the set.
not_there :
    (key : Str) (s : Ledger)
    → IsSane s
    → is_none (get_topic key s) ≡ true
    → contains key s.topics ≡ false
unfolding get_topic
not_there key s sane e = elim (Bool-cases (contains key s.topics)) [
  | inl h ↦ absurd (cc (sane.topics_found key h, rw h at e))
  | inr h ↦ h
]

pub topic-CanUndo :
    (cur_block_id : ℕ) (tx_id pubkey : Str) (v : ℕ) (text : Str) (a : ℕ) (ref : Option ℕ)
    (s : Ledger)
    → IsSane s
    → get_account pubkey s ≡ some a
    → Found a ref s.accounts
    → v < u64_mod
    → Gives
        (CanUndo tx_id pubkey (tx_topic v text) s)
        (dry_topic cur_block_id tx_id v text a (fee_taken a ref s))
unfolding dry_topic undo_body add_balance sub_balance set_balance edit_account get_account get_topic
    add_topic
topic-CanUndo cur_block_id tx_id pubkey v text a ref s sane e f h =
    bind-Gives _ (need (not (ltb (balance_of a (fee_taken a ref s).accounts) v))) _ (λ _ _.
      bind-Gives _ (need (is_none (get_topic tx_id s))) _ (λ _ fresh.
        bind-Gives _ (follow (find_account a (fee_taken a ref s).accounts)) _ (λ b _.
          bind-Gives _ (need (ltb (length b.topic_list) 100)) _
            (λ _ _. back (not_there tx_id s sane (need-done _ fresh))))))
  where
    r : ℕ
    r = coin_of ref

    t : Topic
    t = new_topic tx_id text cur_block_id v a

    ws : List Write
    ws = give r 1 ∷ take a 2 ∷ take a v ∷ listing a tx_id ∷ []

    us : AreUndone ws
    us = topic-AreUndone r a v tx_id h

    u : Ledger
    u = add_topic t (edit_account a (push_topic tx_id) (sub_balance a v (fee_taken a ref s)))

    u0 : Ledger
    u0 = add_balance a 2 (sub_balance r 1 u)

    u1 : Ledger
    u1 = edit_account a pop_topic_back (add_balance a v u0)

    w : Ledger
    w = record u1 { topic_list = pop_back u1.topic_list; topics = erase tx_id u1.topics }

    forward : u.accounts ≡ do_writes ws s.accounts
    forward =
        then_edit a (push_topic tx_id) (sub_balance a v (fee_taken a ref s)) _
          (then_take a v (fee_taken a ref s) _ (fee_accounts a ref s))

    backward : w.accounts ≡ undo_writes ws u.accounts
    backward =
        then_edit a pop_topic_back (add_balance a v u0) _
          (then_give a v u0 _ (refund_accounts a ref u))

    back : contains tx_id s.topics ≡ false → CanUndo tx_id pubkey (tx_topic v text) s u
    back new = (
      refl,
      w,
      undo_paying-start tx_id pubkey (tx_topic v text) a ref u e
          (Found-after a ref ws s u us forward f),
      record {
        accounts = back_again ws s u w us sane forward backward;
        by_pubkey = refl;
        names = refl;
        cur_account_id = refl;
        topics = erase-insert tx_id s.topics new;
        topic_list = pop_back-append s.topic_list t;
        tx_map = refl;
        rollback_topics = refl;
        rollback_txs = refl;
        miner_pubkeys = refl;
      },
    )
