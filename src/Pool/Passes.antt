-- ===== src/Pool/Passes.antt =====
-- What a transaction has shown that goes to `m_uv_2_txs`, and what is counted for it.
use askcoin_core.Base.{
  u64_mod, ℕ, ◌+◌, ◌%◌, not, ◌||◌, false, some, [], ◌∷◌, length, ltb, leb, ◌==◌, ◌≡◌, refl,
  Bool-cases, inl, inr,
}
use askcoin_core.Base.Text.{Str}
use askcoin_core.Account.{Account, joined_topic}
use askcoin_core.Topic.{Topic, get_reply}
use askcoin_core.Ledger.{Ledger, find_account, get_account, get_topic, edit_account, edit_topic}
use askcoin_core.Pending.{Body, tx_reg, tx_send, tx_topic, tx_reply, tx_reward, tx_other, Tx}
use askcoin_core.Pool.{
  Decision, pass, wait_if, look_account, spend, count_topic, count_join, count_reply, count_reward,
  too_poor, cost_of, topic_over, judge_reg, judge_send, judge_topic, judge_reply_to, mark_join,
  judge_join, judge_reply, judge_reward, judge, Allows, drop_if-Allows, wait_if-Allows, look-Allows,
}

-- The account `i`, with the key, is `a` and can pay the cost besides what it will spend.
pub record Pays (pubkey : Str) (cost i : ℕ) (a : Account) (s : Ledger) : Type 0 where
  pub known : get_account pubkey s ≡ some i
  pub there : find_account i s.accounts ≡ some a
  pub rich : too_poor cost a ≡ false

-- The topic is there and has room for a reply.
pub record HasRoom (key : Str) (q : Topic) (s : Ledger) : Type 0 where
  pub found : get_topic key s ≡ some q
  pub room : leb 1000 (length q.reply_list + q.uv_reply) ≡ false

pub data Passes (t : Tx) (s : Ledger) : Tx → Ledger → Type 0 where
  regs :
      (name referrer_pubkey : Str) (avatar i : ℕ) (a : Account)
      → t.body ≡ tx_reg name referrer_pubkey avatar
      → Pays referrer_pubkey 2 i a s
      → Passes t s t (edit_account i (spend 2) s)
  sends :
      (receiver_pubkey : Str) (amount i : ℕ) (a : Account)
      → t.body ≡ tx_send receiver_pubkey amount
      → Pays t.pubkey (cost_of amount) i a s
      → Passes t s t (edit_account i (spend (cost_of amount)) s)
  opens :
      (reward : ℕ) (text : Str) (i : ℕ) (a : Account)
      → t.body ≡ tx_topic reward text
      → Pays t.pubkey (cost_of reward) i a s
      → leb 100 (length a.topic_list + a.uv_topic) ≡ false
      → Passes t s t (edit_account i (λ b. count_topic (spend (cost_of reward) b)) s)
  replies :
      (key to text : Str) (j i : ℕ) (a : Account) (q : Topic)
      → t.body ≡ tx_reply key to text j
      → Pays t.pubkey 2 i a s
      → HasRoom key q s
      → Passes t s t (edit_topic key count_reply (edit_account i (spend 2) s))
  joins :
      (key to text : Str) (j i : ℕ) (a : Account) (q : Topic)
      → t.body ≡ tx_reply key to text j
      → Pays t.pubkey 2 i a s
      → HasRoom key q s
      → leb 100 (length a.joined_topic_list + a.uv_join_topic) ≡ false
      → Passes t s
          (mark_join t key to text)
          (edit_topic key count_reply (edit_account i (λ b. spend 2 (count_join b)) s))
  rewards :
      (key to : Str) (amount i : ℕ) (a : Account) (q : Topic)
      → t.body ≡ tx_reward key to amount
      → Pays t.pubkey (cost_of amount) i a s
      → HasRoom key q s
      → ltb q.balance ((amount + q.uv_reward) % u64_mod) ≡ false
      → Passes t s t
          (edit_topic key (λ p. count_reply (count_reward amount p)) (edit_account i (spend 2) s))
  others : (n : ℕ) → t.body ≡ tx_other n → Passes t s t s

-- The lookup of a payer.
payer-Allows :
    (P : Tx → Ledger → Type 0) (pubkey : Str) (cost : ℕ) (s : Ledger) (k : ℕ → Account → Decision)
    → ((i : ℕ) (a : Account) → Pays pubkey cost i a s → Allows P (k i a))
    → Allows P (look_account pubkey s (λ i a. wait_if (too_poor cost a) (k i a)))
payer-Allows P pubkey cost s k h = look-Allows P (get_account pubkey s) _ (λ i known.
    look-Allows P (find_account i s.accounts) _ (λ a there.
      wait_if-Allows P (too_poor cost a) _
        (λ rich. h i a (record { known = known; there = there; rich = rich }))))

judge_topic-Passes :
    (t : Tx) (reward : ℕ) (text : Str) (s : Ledger)
    → t.body ≡ tx_topic reward text
    → Allows (Passes t s) (judge_topic t reward s)
unfolding judge_topic
judge_topic-Passes t reward text s e =
    look-Allows (Passes t s) (get_account t.pubkey s) _ (λ i known.
      look-Allows (Passes t s) (find_account i s.accounts) _ (λ a there.
        drop_if-Allows (Passes t s) (leb 100 (length a.topic_list + a.uv_topic)) _ (λ room.
          wait_if-Allows (Passes t s) (too_poor (cost_of reward) a) _ (λ rich.
            opens reward text i a e (record { known = known; there = there; rich = rich }) room))))

judge_reply_to-Allows :
    (P : Tx → Ledger → Type 0) (to : Str) (q : Topic) (k : Decision)
    → Allows P k
    → Allows P (judge_reply_to to q k)
unfolding judge_reply_to
judge_reply_to-Allows P [] q k h = h
judge_reply_to-Allows P (c ∷ cs) q k h =
    look-Allows P (get_reply (c ∷ cs) q) _ (λ r _. drop_if-Allows P (not (r.kind == 0)) k (λ _. h))

judge_join-Passes :
    (t : Tx) (key to text : Str) (j i : ℕ) (a : Account) (q : Topic) (s : Ledger)
    → t.body ≡ tx_reply key to text j
    → Pays t.pubkey 2 i a s
    → HasRoom key q s
    → Allows (Passes t s) (judge_join t key to text i a q s)
unfolding judge_join
judge_join-Passes t key to text j i a q s e pays room =
    elim (Bool-cases (q.owner == i || joined_topic q.key a)) [
      | inl old ↦ rw old (replies key to text j i a q e pays room)
      | inr new ↦ rw new (
          drop_if-Allows (Passes t s) (leb 100 (length a.joined_topic_list + a.uv_join_topic)) _
            (λ free. joins key to text j i a q e pays room free))
    ]

judge_reply-Passes :
    (n : ℕ) (t : Tx) (key to text : Str) (j : ℕ) (s : Ledger)
    → t.body ≡ tx_reply key to text j
    → Allows (Passes t s) (judge_reply n t key to text s)
unfolding judge_reply
judge_reply-Passes n t key to text j s e = look-Allows (Passes t s) (get_topic key s) _ (λ q found.
    drop_if-Allows (Passes t s) (topic_over n q) _ (λ _. judge_reply_to-Allows (Passes t s) to q _ (
      drop_if-Allows (Passes t s) (leb 1000 (length q.reply_list + q.uv_reply)) _ (λ room.
        payer-Allows (Passes t s) t.pubkey 2 s _ (λ i a pays.
          judge_join-Passes t key to text j i a q s e pays
            (record { found = found; room = room }))))))

judge_reward-Passes :
    (n : ℕ) (t : Tx) (key to : Str) (amount : ℕ) (s : Ledger)
    → t.body ≡ tx_reward key to amount
    → Allows (Passes t s) (judge_reward n t key to amount s)
unfolding judge_reward
judge_reward-Passes n t key to amount s e =
    payer-Allows (Passes t s) t.pubkey (cost_of amount) s _ (λ i a pays.
      look-Allows (Passes t s) (get_topic key s) _ (λ q found.
        drop_if-Allows (Passes t s) (topic_over n q) _ (λ _.
          drop_if-Allows (Passes t s) (not (q.owner == i)) _ (λ _.
            drop_if-Allows (Passes t s) (leb 1000 (length q.reply_list + q.uv_reply)) _ (λ room.
              drop_if-Allows (Passes t s) (ltb q.balance ((amount + q.uv_reward) % u64_mod)) _
                (λ funded. look-Allows (Passes t s) (get_reply to q) _ (λ r _.
                  drop_if-Allows (Passes t s) (not (r.kind == 0)) _ (λ _.
                    drop_if-Allows (Passes t s) (r.owner == i) _ (λ _.
                      rewards key to amount i a q e pays (record { found = found; room = room })
                        funded)))))))))

pub judge-Passes : (n : ℕ) (t : Tx) (s : Ledger) → Allows (Passes t s) (judge n t s)
unfolding judge judge_reg judge_send
judge-Passes n t s = of_body t.body refl
  where
    of_body :
        (b : Body)
        → t.body ≡ b
        → Allows (Passes t s) (elim b [
          | tx_reg name referrer_pubkey avatar ↦ judge_reg t referrer_pubkey s
          | tx_send receiver_pubkey amount ↦ judge_send t receiver_pubkey amount s
          | tx_topic reward text ↦ judge_topic t reward s
          | tx_reply key to text j ↦ judge_reply n t key to text s
          | tx_reward key to amount ↦ judge_reward n t key to amount s
          | tx_other k ↦ pass t s
        ])
    of_body (tx_reg name r v) e =
        payer-Allows (Passes t s) r 2 s _ (λ i a pays. regs name r v i a e pays)
    of_body (tx_send q v) e =
        payer-Allows (Passes t s) t.pubkey (cost_of v) s _
          (λ i a pays. look-Allows (Passes t s) (get_account q s) _ (λ r _. sends q v i a e pays))
    of_body (tx_topic v x) e = judge_topic-Passes t v x s e
    of_body (tx_reply key to x j) e = judge_reply-Passes n t key to x j s e
    of_body (tx_reward key to v) e = judge_reward-Passes n t key to v s e
    of_body (tx_other k) e = others k e
