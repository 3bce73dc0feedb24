-- ===== src/Pool/Reserve.antt =====
-- The counters of a transaction that goes to `m_uv_2_txs`: what is taken off them later is what was put on.
use native.Mathlib.Nat.{mod-eq_of_lt}
use askcoin_core.Base.{
  u64_mod, ℕ, ◌+◌, ◌%◌, ◌≡◌, ◌<◌, ◌≤◌, refl, ap, subst, ◌∙◌, false, some, List, [], ◌∷◌, length,
  leb, ◌==◌, arith, All, Bool-cases, inl, inr, some_inj,
}
use askcoin_core.Base.Text.{Str}
use askcoin_core.Account.{Account}
use askcoin_core.Topic.{Topic}
use askcoin_core.Ledger.{
  Ledger, find_account, get_account, get_topic, update_topic, edit_account, edit_topic,
}
use askcoin_core.Ledger.Links.{get_topic-found}
use askcoin_core.Pow.{u32_mod}
use askcoin_core.Pending.{Body, tx_send, tx_topic, tx_reply, tx_reward, Tx}
use askcoin_core.Mine.Writes.{accounts_back}
use askcoin_core.Mine.Topics.{
  KeepsKey, update_topic-update_topic, update_topic-same, get_topic-after, All-find_topic,
}
use askcoin_core.Pool.{
  Decision, drop, wait, pass, spend, count_topic, count_join, count_reply, count_reward, cost_of,
  judge, Allows,
}
use askcoin_core.Pool.Review.{
  less, unspend, uncount_topic, uncount_join, uncount_reply, uncount_reward, with_account,
  with_topic, release,
}
use askcoin_core.Pool.Passes.{
  Passes, regs, sends, opens, replies, joins, rewards, others, Pays, HasRoom, judge-Passes,
}

-- Half of the range of a uint64.
abbrev pub half : ℕ
half = 9223372036854775808

-- The counters stay in the lower half of their range.
pub record IsModest (s : Ledger) : Type 0 where
  pub spends : All (λ a. a.uv_spend < half) s.accounts
  pub rewards_small : All (λ q. q.uv_reward < half) s.topic_list

-- A transaction that has not been counted, and whose amount, with the fee, is in the lower half.
abbrev pub IsNew : Body → Type 0
IsNew (tx_send receiver amount) = amount + 2 < half
IsNew (tx_topic reward text) = reward + 2 < half
IsNew (tx_reply key to text j) = j ≡ 0
IsNew (tx_reward key to amount) = amount + 2 < half
IsNew _ = Unit

pub All-find_account :
    (P : Account → Type 0) (i : ℕ) (a : Account) (xs : List Account)
    → All P xs
    → find_account i xs ≡ some a
    → P a
unfolding find_account
All-find_account P i a [] h e = cc
All-find_account P i a (b ∷ xs) h e = elim (Bool-cases (b.id == i)) [
  | inl hit ↦ subst P (some_inj (rw hit at e)) h.0
  | inr miss ↦ All-find_account P i a xs h.1 (rw miss at e)
]

less_sum : (n v : ℕ) → less v (n + v) ≡ n
less_sum n v = ground arith

less_back : (n v m : ℕ) → n + v < m → less v ((n + v) % m) ≡ n
less_back n v m h = ap (less v) (mod-eq_of_lt h) ∙ less_sum n v

unspend-spend : (v : ℕ) (a : Account) → a.uv_spend + v < u64_mod → unspend v (spend v a) ≡ a
unspend-spend v a h = ap (λ n. record a { uv_spend = n }) (less_back a.uv_spend v u64_mod h)

-- Both containers, taken back one after the other.
ledger_back :
    (s : Ledger) (xs : List Account) (ts : List Topic)
    → xs ≡ s.accounts
    → ts ≡ s.topic_list
    → record s { accounts = xs; topic_list = ts } ≡ s
ledger_back s xs ts p q =
    ap (λ ys. record s { accounts = ys; topic_list = ts }) p
    ∙ ap (λ us. record s { topic_list = us }) q

-- The cost of a transaction fits beside what its payer will spend.
cost_fits :
    (pubkey : Str) (cost i : ℕ) (a : Account) (s : Ledger)
    → IsModest s
    → Pays pubkey cost i a s
    → cost < half
    → a.uv_spend + cost < u64_mod
cost_fits pubkey cost i a s m p h =
    omega (arith, All-find_account (λ b. b.uv_spend < half) i a s.accounts m.spends p.there, h)

cost_small : (amount : ℕ) → amount + 2 < half → cost_of amount < half
cost_small amount h = omega arith

-- A small counter goes up and down again.
up_down : (n k m : ℕ) → leb m (k + n) ≡ false → m ≤ 1000 → less 1 ((n + 1) % u32_mod) ≡ n
up_down n k m h b = less_back n 1 u32_mod (ground arith)

topics_back :
    (key : Str) (act back : Topic → Topic) (q : Topic) (s : Ledger)
    → get_topic key s ≡ some q
    → KeepsKey act
    → back (act q) ≡ q
    → update_topic key back (update_topic key act s.topic_list) ≡ s.topic_list
topics_back key act back q s found k h =
    update_topic-update_topic key back act s.topic_list k
    ∙ update_topic-same key (λ p. back (act p)) q s.topic_list (get_topic-found key q s found) h

reply_uncounted :
    (key : Str) (q : Topic) (s : Ledger) → HasRoom key q s → uncount_reply (count_reply q) ≡ q
reply_uncounted key q s r =
    ap (λ n. record q { uv_reply = n })
      (up_down q.uv_reply (length q.reply_list) 1000 r.room (omega arith))

reward_uncounted :
    (key : Str) (amount : ℕ) (q : Topic) (s : Ledger)
    → HasRoom key q s
    → q.uv_reward + amount < u64_mod
    → uncount_reward amount (uncount_reply (count_reply (count_reward amount q))) ≡ q
reward_uncounted key amount q s r h =
    ap (λ n. record q { uv_reply = n; uv_reward = less amount ((q.uv_reward + amount) % u64_mod) })
      (up_down q.uv_reply (length q.reply_list) 1000 r.room (omega arith))
    ∙ ap (λ n. record q { uv_reward = n }) (less_back q.uv_reward amount u64_mod h)

topic_uncounted :
    (c : ℕ) (a : Account)
    → a.uv_spend + c < u64_mod
    → leb 100 (length a.topic_list + a.uv_topic) ≡ false
    → uncount_topic (unspend c (count_topic (spend c a))) ≡ a
topic_uncounted c a h r =
    ap (λ n. record a { uv_spend = less c ((a.uv_spend + c) % u64_mod); uv_topic = n })
      (up_down a.uv_topic (length a.topic_list) 100 r (omega arith))
    ∙ ap (λ n. record a { uv_spend = n }) (less_back a.uv_spend c u64_mod h)

join_uncounted :
    (a : Account)
    → a.uv_spend + 2 < u64_mod
    → leb 100 (length a.joined_topic_list + a.uv_join_topic) ≡ false
    → uncount_join (unspend 2 (spend 2 (count_join a))) ≡ a
join_uncounted a h r =
    ap (λ n. record a { uv_spend = less 2 ((a.uv_spend + 2) % u64_mod); uv_join_topic = n })
      (up_down a.uv_join_topic (length a.joined_topic_list) 100 r (omega arith))
    ∙ ap (λ n. record a { uv_spend = n }) (less_back a.uv_spend 2 u64_mod h)

with_account-some :
    (pubkey : Str) (f : Account → Account) (i : ℕ) (s : Ledger)
    → get_account pubkey s ≡ some i
    → with_account pubkey f s ≡ edit_account i f s
with_account-some pubkey f i s e = rw (with_account, e) refl

with_topic-some :
    (key : Str) (f : Topic → Topic) (q : Topic) (s : Ledger)
    → get_topic key s ≡ some q
    → with_topic key f s ≡ edit_topic key f s
with_topic-some key f q s e = rw (with_topic, e) refl

-- A write to an account is taken back.
account_released :
    (pubkey : Str) (act back : Account → Account) (i : ℕ) (a : Account) (s : Ledger)
    → get_account pubkey s ≡ some i
    → find_account i s.accounts ≡ some a
    → ((b : Account) → (act b).id ≡ b.id)
    → back (act a) ≡ a
    → with_account pubkey back (edit_account i act s) ≡ s
unfolding edit_account get_account
account_released pubkey act back i a s known there k h =
    with_account-some pubkey back i (edit_account i act s) known
    ∙ ledger_back s _ s.topic_list (accounts_back i act back a s.accounts there k h) refl

-- A write to an account and one to a topic are taken back.
both_released :
    (pubkey key : Str) (act back : Account → Account) (f g : Topic → Topic) (i : ℕ) (a : Account)
    (q : Topic) (s : Ledger)
    → get_account pubkey s ≡ some i
    → find_account i s.accounts ≡ some a
    → get_topic key s ≡ some q
    → ((b : Account) → (act b).id ≡ b.id)
    → KeepsKey f
    → back (act a) ≡ a
    → g (f q) ≡ q
    → with_topic key g (with_account pubkey back (edit_topic key f (edit_account i act s))) ≡ s
unfolding edit_account edit_topic get_account
both_released pubkey key act back f g i a q s known there found k l h r =
    ap (with_topic key g)
      (with_account-some pubkey back i (edit_topic key f (edit_account i act s)) known)
    ∙ with_topic-some key g (f q) _ (
        get_topic-after key f q s (edit_account i back (edit_topic key f (edit_account i act s)))
          found l refl refl)
    ∙ ledger_back s _ _ (accounts_back i act back a s.accounts there k h)
        (topics_back key f g q s found l r)

-- What the account of a payer is back to.
payer_repaid :
    (pubkey : Str) (cost i : ℕ) (a : Account) (s : Ledger)
    → IsModest s
    → Pays pubkey cost i a s
    → cost < half
    → with_account pubkey (unspend cost) (edit_account i (spend cost) s) ≡ s
payer_repaid pubkey cost i a s m p h =
    account_released pubkey (spend cost) (unspend cost) i a s p.known p.there (λ b. refl)
      (unspend-spend cost a (cost_fits pubkey cost i a s m p h))

released : (t u : Tx) (s v : Ledger) → Passes t s u v → IsModest s → IsNew t.body → release u v ≡ s
unfolding release
released t _ s _ (regs name r av i a e p) m h =
    rw (release, e) (payer_repaid r 2 i a s m p (omega arith))
released t _ s _ (sends q v i a e p) m h =
    rw (release, e) (payer_repaid t.pubkey (cost_of v) i a s m p (cost_small v (subst IsNew e h)))
released t _ s _ (opens v x i a e p r) m h =
    rw (release, e)
      (account_released t.pubkey (λ b. count_topic (spend (cost_of v) b))
        (λ b. uncount_topic (unspend (cost_of v) b)) i a s p.known p.there (λ b. refl)
        (topic_uncounted (cost_of v) a
          (cost_fits t.pubkey (cost_of v) i a s m p (cost_small v (subst IsNew e h))) r))
released t _ s _ (replies key to x j i a q e p r) m h =
    let none_joined : j ≡ 0 = subst IsNew e h in
    rw (release, e, none_joined)
      (both_released t.pubkey key (spend 2) (unspend 2) count_reply uncount_reply i a q s p.known
        p.there r.found (λ b. refl) (λ z. refl)
        (unspend-spend 2 a (cost_fits t.pubkey 2 i a s m p (omega arith)))
        (reply_uncounted key q s r))
released t _ s _ (joins key to x j i a q e p r f) m h =
    both_released t.pubkey key (λ b. spend 2 (count_join b)) (λ b. uncount_join (unspend 2 b))
      count_reply uncount_reply i a q s p.known p.there r.found (λ b. refl) (λ z. refl)
      (join_uncounted a (cost_fits t.pubkey 2 i a s m p (omega arith)) f)
      (reply_uncounted key q s r)
released t _ s _ (rewards key to v i a q e p r f) m h =
    rw (release, e)
      (both_released t.pubkey key (spend 2) (unspend 2) (λ z. count_reply (count_reward v z))
        (λ z. uncount_reward v (uncount_reply z)) i a q s p.known p.there r.found (λ b. refl)
        (λ z. refl)
        (unspend-spend 2 a (
          omega (arith, All-find_account (λ b. b.uv_spend < half) i a s.accounts m.spends p.there)))
        (reward_uncounted key v q s r (
          funded (subst IsNew e h) (
            All-find_topic (λ z. z.uv_reward < half) key q s.topic_list m.rewards_small
              (get_topic-found key q s r.found)))))
  where
    funded : v + 2 < half → q.uv_reward < half → q.uv_reward + v < u64_mod
    funded x y = omega arith
released t _ s _ (others n e) m h = rw (release, e) refl

pub Allows-map :
    (P Q : Tx → Ledger → Type 0) (d : Decision)
    → ((u : Tx) (v : Ledger) → P u v → Q u v)
    → Allows P d
    → Allows Q d
Allows-map P Q drop f h = tt
Allows-map P Q wait f h = tt
Allows-map P Q (pass u v) f h = f u v h

-- While the counters are below 2 ^ 63 and so are the amount and the fee, what `do_uv_tx` counts for a
-- transaction that goes to `m_uv_2_txs` is exactly what it takes off when the transaction leaves that list:
-- the ledger, with the counters, is as before.
pub release-judge :
    (cur_block_id : ℕ) (t : Tx) (s : Ledger)
    → IsModest s
    → IsNew t.body
    → Allows (λ u v. release u v ≡ s) (judge cur_block_id t s)
release-judge cur_block_id t s m h =
    Allows-map (Passes t s) (λ u v. release u v ≡ s) (judge cur_block_id t s)
      (λ u v p. released t u s v p m h) (judge-Passes cur_block_id t s)
