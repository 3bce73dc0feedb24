-- ===== src/Mine/Restore/Gift.antt =====
-- The dry run of a reward is undone.
use askcoin_core.Base.{
  u64_mod, ℕ, ◌+◌, ◌-◌, ◌%◌, not, ◌≡◌, ◌<◌, refl, ap, subst, ◌∙◌, Option, some, List, [], ◌∷◌, ltb,
  length, ◌==◌, arith, All, Bool-cases, inl, inr, some_inj,
}
use askcoin_core.Base.Text.{Str, str_eq}
use askcoin_core.Base.Dict.{str_key}
use askcoin_core.Topic.{
  Topic, Reply, get_reply, find_reply, push_reply, topic_sub_balance, topic_add_balance,
}
use askcoin_core.Ledger.{
  Ledger, update_topic, get_account, get_topic, set_balance, add_balance, sub_balance, edit_topic,
}
use askcoin_core.Ledger.Links.{get_topic-found}
use askcoin_core.Ledger.Tx.Reward.{credit_reply}
use askcoin_core.Pending.{Body, tx_reward}
use askcoin_core.Mine.{
  Gives, bind-Gives, need, want, want-done, dry_reward_reply, dry_pay, dry_reward,
}
use askcoin_core.Mine.Undo.{undo_body, pop_reply, debit_reply, undo_pay}
use askcoin_core.Mine.Writes.{
  Write, AreUndone, do_writes, undo_writes, give, take, give-IsUndone, take-IsUndone, give-give,
  give-take, take-give,
}
use askcoin_core.Mine.Topics.{
  update_topic-update_topic, update_topic-same, All-find_topic, get_topic-after, reply_list_undone,
  find_reply-shifted, reply_shift,
}
use askcoin_core.Mine.Restore.{
  TopicFits, IsSane, coin_of, fee_taken, Found, undo_paying-start, CanUndo, then_give, then_take,
  fee_accounts, refund_accounts, back_again, Found-after,
}

gift-AreUndone : (r a q v : ℕ) → v < u64_mod → AreUndone (give r 1 ∷ take a 2 ∷ give q v ∷ [])
gift-AreUndone r a q v h = (
  give-IsUndone r 1 (omega arith),
  (give-take r 1 a 2 (omega arith) (omega arith), (give-give r 1 q v (omega arith) h, tt)),
  (take-IsUndone a 2 (omega arith), (take-give a 2 q v, tt), (give-IsUndone q v h, tt, tt)),
)

All-find_reply :
    (P : Reply → Type 0) (key : Str) (r : Reply) (rs : List Reply)
    → All P rs
    → find_reply key rs ≡ some r
    → P r
unfolding find_reply
All-find_reply P key r [] h e = cc
All-find_reply P key r (q ∷ rs) h e = elim (Bool-cases (str_eq q.key key)) [
  | inl hit ↦ subst P (some_inj (rw hit at e)) h.0
  | inr miss ↦ All-find_reply P key r rs h.1 (rw miss at e)
]

-- The balance of a topic, after the amount has left it and come back.
balance_back :
    (b v : ℕ) → b < u64_mod → v < u64_mod → ((b + u64_mod - v) % u64_mod + v) % u64_mod ≡ b
balance_back b v p h = omega arith

module _ (cur_block_id : ℕ) (tx_id pubkey topic_key key : Str) (v a : ℕ) (ref : Option ℕ)
    (s : Ledger) (sane : IsSane s) (e : get_account pubkey s ≡ some a) (f : Found a ref s.accounts)
    (h : v < u64_mod) where
  abbrev body : Body
  body = tx_reward topic_key key v

  -- The topic after the reward.
  abbrev written : Topic → Topic
  written t =
      push_reply (dry_reward_reply cur_block_id tx_id key a v)
        (credit_reply key v (topic_sub_balance v t))

  -- What the undoing makes of it.
  abbrev unwritten : Topic → Topic
  unwritten t = pop_reply (debit_reply key v (topic_add_balance v t))

  reward_back :
      (t : Topic) (r : Reply)
      → get_topic topic_key s ≡ some t
      → get_reply key t ≡ some r
      → unwritten (written t) ≡ t
  unfolding get_reply
  reward_back t r found answered =
      let fits : TopicFits t =
        All-find_topic TopicFits topic_key t s.topic_list sane.topics_fit
          (get_topic-found topic_key t s found) in
      ap (λ n. record (unwritten (written t)) { balance = n }) (balance_back t.balance v fits.0 h)
      ∙ ap (λ l. record t { reply_list = l })
          (reply_list_undone key v r (dry_reward_reply cur_block_id tx_id key a v) t.reply_list h
            answered (All-find_reply (λ q. q.balance < u64_mod) key r t.reply_list fits.1 answered))

  reward-CanUndo-paid :
      (t : Topic) (r : Reply)
      → get_topic topic_key s ≡ some t
      → get_reply key t ≡ some r
      → CanUndo tx_id pubkey body s
          (dry_pay cur_block_id tx_id topic_key key r a v (fee_taken a ref s))
  unfolding undo_body undo_pay dry_pay add_balance sub_balance set_balance edit_topic get_account
      get_reply
  reward-CanUndo-paid t r found answered = (
    refl,
    w,
    undo_paying-start tx_id pubkey body a ref u e (Found-after a ref ws s u us forward f)
        ∙ rw (get_topic-after topic_key written t s u0 found (λ q. refl) refl topics) (
            rw
              (find_reply-shifted key v r (dry_reward_reply cur_block_id tx_id key a v) t.reply_list
                answered)
              refl),
    record {
      accounts = back_again ws s u w us sane forward backward;
      by_pubkey = refl;
      names = refl;
      cur_account_id = refl;
      topics = refl;
      topic_list =
          ap
            (λ l. update_topic topic_key pop_reply (
              update_topic topic_key (debit_reply key v)
                (update_topic topic_key (topic_add_balance v) l)))
            topics
          ∙ ap
              (λ l. update_topic topic_key pop_reply (update_topic topic_key (debit_reply key v) l))
              (update_topic-update_topic topic_key (topic_add_balance v) written s.topic_list
                (λ q. refl))
          ∙ ap (update_topic topic_key pop_reply) (
              update_topic-update_topic topic_key (debit_reply key v)
                (λ q. topic_add_balance v (written q)) s.topic_list (λ q. refl))
          ∙ update_topic-update_topic topic_key pop_reply
              (λ q. debit_reply key v (topic_add_balance v (written q))) s.topic_list (λ q. refl)
          ∙ update_topic-same topic_key (λ q. unwritten (written q)) t s.topic_list
              (get_topic-found topic_key t s found) (reward_back t r found answered);
      tx_map = refl;
      rollback_topics = refl;
      rollback_txs = refl;
      miner_pubkeys = refl;
    },
  )
    where
      ws : List Write
      ws = give (coin_of ref) 1 ∷ take a 2 ∷ give r.owner v ∷ []

      us : AreUndone ws
      us = gift-AreUndone (coin_of ref) a r.owner v h

      u : Ledger
      u = dry_pay cur_block_id tx_id topic_key key r a v (fee_taken a ref s)

      debited : Ledger
      debited =
          edit_topic topic_key (credit_reply key v)
            (edit_topic topic_key (topic_sub_balance v) (fee_taken a ref s))

      u0 : Ledger
      u0 = add_balance a 2 (sub_balance (coin_of ref) 1 u)

      u1 : Ledger
      u1 = edit_topic topic_key (debit_reply key v) (edit_topic topic_key (topic_add_balance v) u0)

      w : Ledger
      w = undo_pay topic_key key (reply_shift v r) v u0

      topics : u.topic_list ≡ update_topic topic_key written s.topic_list
      topics =
          ap (update_topic topic_key (push_reply (dry_reward_reply cur_block_id tx_id key a v))) (
            update_topic-update_topic topic_key (credit_reply key v) (topic_sub_balance v)
              s.topic_list (λ q. refl))
          ∙ update_topic-update_topic topic_key
              (push_reply (dry_reward_reply cur_block_id tx_id key a v))
              (λ q. credit_reply key v (topic_sub_balance v q)) s.topic_list (λ q. refl)

      forward : u.accounts ≡ do_writes ws s.accounts
      forward = then_give r.owner v debited _ (fee_accounts a ref s)

      backward : w.accounts ≡ undo_writes ws u.accounts
      backward = then_take r.owner v u1 _ (refund_accounts a ref u)

  pub reward-CanUndo :
      Gives
        (CanUndo tx_id pubkey body s)
        (dry_reward cur_block_id tx_id topic_key key v a (fee_taken a ref s))
  unfolding dry_reward add_balance sub_balance set_balance get_topic
  reward-CanUndo = bind-Gives _ (want (get_topic topic_key s)) _ (λ t found.
      bind-Gives _ (need (t.owner == a)) _ (λ _ _.
        bind-Gives _ (need (ltb (length t.reply_list) 1000)) _ (λ _ _.
          bind-Gives _ (need (not (ltb t.balance v))) _ (λ _ _.
            bind-Gives _ (want (get_reply key t)) _ (λ r answered.
              bind-Gives _ (need (r.kind == 0)) _ (λ _ _.
                bind-Gives _ (need (not (r.owner == a))) _
                  (λ _ _. reward-CanUndo-paid t r (want-done _ found) (want-done _ answered))))))))
