-- ===== src/Mine/Restore/Answer.antt =====
-- The dry run of a reply is undone.
use askcoin_core.Base.{
  ℕ, ◌≡◌, refl, ap, ◌∙◌, true, false, Option, some, List, [], ◌∷◌, ◌++◌, ok, ltb, length, ◌==◌,
  arith, Bool-cases, inl, inr,
}
use askcoin_core.Base.Text.{Str}
use askcoin_core.Base.Dict.{has_key, str_key}
use askcoin_core.Account.{Account, joined_topic}
use askcoin_core.Topic.{Topic, Reply, new_reply, is_member, add_member, push_reply}
use askcoin_core.Ledger.{
  Ledger, find_account, update_topic, get_account, get_topic, find_topic, set_balance, add_balance,
  sub_balance, edit_account, edit_topic,
}
use askcoin_core.Ledger.Links.{get_topic-found}
use askcoin_core.Ledger.Tx.Post.{push_joined, join_member}
use askcoin_core.Pending.{Body, tx_reply}
use askcoin_core.Mine.{
  ◌>>>◌, done, Gives, bind-Gives, need, want, want-done, follow, follow-done, dry_reply_to,
  dry_join, dry_reply,
}
use askcoin_core.Mine.Undo.{
  pop_back, last_is, undo_body, pop_joined, pop_reply, pop_member, undo_join,
}
use askcoin_core.Mine.Writes.{Write, AreUndone, do_writes, give, take}
use askcoin_core.Mine.Topics.{
  pop_back-append, last_is-append, update_topic-update_topic, update_topic-same, All-find_topic,
  get_topic-after, find_topic-key,
}
use askcoin_core.Mine.Restore.{
  IsJoined, IsSane, coin_of, fee_taken, Found, undo_paying-start, CanUndo, then_edit, fee_accounts,
  refund_accounts, back_again, Found-after, fee-AreUndone,
}
use askcoin_core.Mine.Restore.Members.{joining, join-AreUndone, not_member, undo_join-old}

module _ (cur_block_id : ℕ) (tx_id pubkey key reply_to text : Str) (joins a : ℕ) (ref : Option ℕ)
    (s : Ledger) (sane : IsSane s) (e : get_account pubkey s ≡ some a) (f : Found a ref s.accounts)
    (new : has_key tx_id s.tx_map ≡ false) where
  abbrev body : Body
  body = tx_reply key reply_to text joins

  abbrev answer_to : Option Str → Reply
  answer_to to = record (new_reply tx_id 0 cur_block_id text a) { to = to }

  old-CanUndo :
      (t : Topic) (to : Option Str) (b : Account)
      → get_topic key s ≡ some t
      → CanUndo tx_id pubkey body s (edit_topic key (push_reply (answer_to to)) (fee_taken a ref s))
  unfolding undo_body add_balance sub_balance set_balance edit_topic get_account
  old-CanUndo t to b found = (
    refl,
    w,
    undo_paying-start tx_id pubkey body a ref u e (Found-after a ref ws s u us forward f)
        ∙ rw (get_topic-after key (push_reply (answer_to to)) t s u0 found (λ q. refl) refl refl) (
            ap ok (
              undo_join-old tx_id key a b t (push_reply (answer_to to) t) s w
                (All-find_topic (IsJoined s) key t s.topic_list sane.members_joined
                  (get_topic-found key t s found))
                new refl)),
    record {
      accounts = back_again ws s u w us sane forward (refund_accounts a ref u);
      by_pubkey = refl;
      names = refl;
      cur_account_id = refl;
      topics = refl;
      topic_list =
          update_topic-update_topic key pop_reply (push_reply (answer_to to)) s.topic_list
            (λ q. refl)
          ∙ update_topic-same key (λ q. pop_reply (push_reply (answer_to to) q)) t s.topic_list
              (get_topic-found key t s found)
              (ap (λ l. record t { reply_list = l }) (pop_back-append t.reply_list (answer_to to)));
      tx_map = refl;
      rollback_topics = refl;
      rollback_txs = refl;
      miner_pubkeys = refl;
    },
  )
    where
      ws : List Write
      ws = give (coin_of ref) 1 ∷ take a 2 ∷ []

      us : AreUndone ws
      us = fee-AreUndone (coin_of ref) a

      u : Ledger
      u = edit_topic key (push_reply (answer_to to)) (fee_taken a ref s)

      u0 : Ledger
      u0 = add_balance a 2 (sub_balance (coin_of ref) 1 u)

      w : Ledger
      w = edit_topic key pop_reply u0

      forward : u.accounts ≡ do_writes ws s.accounts
      forward = fee_accounts a ref s

  join_member-new :
      (t : Topic)
      → is_member a t.members ≡ false
      → join_member tx_id a t ≡ record t { members = t.members ++ (tx_id, a) ∷ [] }
  unfolding add_member
  join_member-new t m = rw (join_member, m) refl

  -- The topic after the reply of a new member, and back.
  joined_back :
      (t : Topic) (to : Option Str)
      → is_member a t.members ≡ false
      → pop_member (pop_reply (push_reply (answer_to to) (join_member tx_id a t))) ≡ t
  joined_back t to m =
      ap (λ q. pop_member (pop_reply (push_reply (answer_to to) q))) (join_member-new t m)
      ∙ ap (λ l. record t { reply_list = l; members = pop_back (t.members ++ (tx_id, a) ∷ []) })
          (pop_back-append t.reply_list (answer_to to))
      ∙ ap (λ l. record t { members = l }) (pop_back-append t.members (tx_id, a))

  join_member-key : (t : Topic) → (join_member tx_id a t).key ≡ t.key
  unfolding add_member
  join_member-key t = ground arith

  join_member-owner : (t : Topic) → (join_member tx_id a t).owner ≡ t.owner
  unfolding add_member
  join_member-owner t = ground arith

  joined_last :
      (t : Topic)
      → is_member a t.members ≡ false
      → last_is tx_id (join_member tx_id a t).members ≡ true
  joined_last t m =
      ap (λ q. last_is tx_id q.members) (join_member-new t m) ∙ last_is-append tx_id a t.members

  undo_join-new :
      (t : Topic) (to : Option Str) (u : Ledger)
      → (t.owner == a) ≡ false
      → is_member a t.members ≡ false
      → undo_join tx_id key a (push_reply (answer_to to) (join_member tx_id a t)) u
        ≡ edit_topic key pop_member (edit_account a pop_joined u)
  unfolding undo_join
  undo_join-new t to u other m = rw (join_member-owner t, other, joined_last t m) refl

  new-CanUndo :
      (t : Topic) (to : Option Str)
      → get_topic key s ≡ some t
      → (t.owner == a) ≡ false
      → is_member a t.members ≡ false
      → CanUndo tx_id pubkey body s (
          edit_topic key (push_reply (answer_to to)) (
            edit_topic t.key
              (join_member tx_id a)
              (edit_account a (push_joined t.key) (fee_taken a ref s))))
  unfolding undo_body add_balance sub_balance set_balance edit_topic edit_account get_account
  new-CanUndo t to found other m = (
    refl,
    w,
    undo_paying-start tx_id pubkey body a ref u e (Found-after a ref ws s u us forward f)
        ∙ rw (get_topic-after key written t s u0 found join_member-key refl topics)
            (ap ok (undo_join-new t to (edit_topic key pop_reply u0) other m)),
    record {
      accounts =
          back_again ws s u w us sane forward
            (then_edit a pop_joined u0 _ (refund_accounts a ref u));
      by_pubkey = refl;
      names = refl;
      cur_account_id = refl;
      topics = refl;
      topic_list =
          ap (update_topic key pop_member) (
            ap (update_topic key pop_reply) topics
            ∙ update_topic-update_topic key pop_reply written s.topic_list join_member-key)
          ∙ update_topic-update_topic key pop_member (λ q. pop_reply (written q)) s.topic_list
              join_member-key
          ∙ update_topic-same key (λ q. pop_member (pop_reply (written q))) t s.topic_list there
              (joined_back t to m);
      tx_map = refl;
      rollback_topics = refl;
      rollback_txs = refl;
      miner_pubkeys = refl;
    },
  )
    where
      there : find_topic key s.topic_list ≡ some t
      there = get_topic-found key t s found

      written : Topic → Topic
      written q = push_reply (answer_to to) (join_member tx_id a q)

      ws : List Write
      ws = give (coin_of ref) 1 ∷ take a 2 ∷ joining a t.key ∷ []

      us : AreUndone ws
      us = join-AreUndone (coin_of ref) a t.key

      j : Ledger
      j =
          edit_topic t.key (join_member tx_id a)
            (edit_account a (push_joined t.key) (fee_taken a ref s))

      u : Ledger
      u = edit_topic key (push_reply (answer_to to)) j

      u0 : Ledger
      u0 = add_balance a 2 (sub_balance (coin_of ref) 1 u)

      w : Ledger
      w = edit_topic key pop_member (edit_account a pop_joined (edit_topic key pop_reply u0))

      topics : u.topic_list ≡ update_topic key written s.topic_list
      topics =
          ap
            (λ k.
              update_topic key (push_reply (answer_to to))
                (update_topic k (join_member tx_id a) s.topic_list))
            (find_topic-key key t s.topic_list there)
          ∙ update_topic-update_topic key (push_reply (answer_to to)) (join_member tx_id a)
              s.topic_list join_member-key

      forward : u.accounts ≡ do_writes ws s.accounts
      forward = then_edit a (push_joined t.key) (fee_taken a ref s) _ (fee_accounts a ref s)

  pub reply-CanUndo :
      Gives
        (CanUndo tx_id pubkey body s)
        (dry_reply cur_block_id tx_id key reply_to text a (fee_taken a ref s))
  unfolding dry_reply dry_join add_balance sub_balance set_balance get_topic
  reply-CanUndo = bind-Gives _ (want (get_topic key s)) _ (λ t found.
      bind-Gives _ (need (ltb (length t.reply_list) 1000)) _ (λ _ _.
        bind-Gives _ (dry_reply_to reply_to t) _ (λ to _.
          bind-Gives _ (follow (find_account a (fee_taken a ref s).accounts)) _
            (λ b there. split t to b (want-done _ found) (follow-done _ there)))))
    where
      split :
          (t : Topic) (to : Option Str) (b : Account)
          → get_topic key s ≡ some t
          → find_account a (fee_taken a ref s).accounts ≡ some b
          → Gives (CanUndo tx_id pubkey body s) (
              dry_join tx_id a t b (fee_taken a ref s) >>> λ u.
              done (edit_topic key (push_reply (answer_to to)) u))
      split t to b found there = elim (Bool-cases (t.owner == a)) [
        | inl own ↦ rw own (old-CanUndo t to b found)
        | inr other ↦ elim (Bool-cases (joined_topic t.key b)) [
          | inl old ↦ rw (other, old) (old-CanUndo t to b found)
          | inr fresh ↦ elim (Bool-cases (ltb (length b.joined_topic_list) 100)) [
            | inl room ↦
                rw (other, fresh, room)
                  (new-CanUndo t to found other (
                    not_member a ref b t s
                      (All-find_topic (IsJoined s) key t s.topic_list sane.members_joined
                        (get_topic-found key t s found))
                      f there fresh))
            | inr full ↦ rw (other, fresh, full) tt
          ]
        ]
      ]
