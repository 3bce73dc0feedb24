-- ===== src/Pool.antt =====
-- blockchain.cpp, `do_uv_tx`, and the handler of transactions in net/p2p/node.cpp: the pool of transactions
-- that wait for a block, and the counters `m_uv_...` of what those in `m_uv_2_txs` will spend. This file has
-- the tests that a transaction passes to get there; both functions make them in the same order.
pub mod Review
pub mod Submit
pub mod Passes
pub mod Reserve
pub mod Tidy
pub mod Clean
pub mod Afford
pub mod Tests
use askcoin_core.Base.{
  u64_mod, ℕ, ◌+◌, ◌%◌, ◌^◌, not, ◌||◌, Bool, true, false, Option, none, some, List, [], ◌∷◌,
  length, ltb, leb, ◌==◌, ◌≡◌, refl, if◌then◌else◌,
}
use askcoin_core.Base.Text.{Str}
use askcoin_core.Account.{Account, topic_life_time, joined_topic}
use askcoin_core.Topic.{Topic, Reply, get_reply}
use askcoin_core.Ledger.{Ledger, find_account, get_account, get_topic, edit_account, edit_topic}
use askcoin_core.Pow.{u32_mod}
use askcoin_core.Pending.{Body, tx_reg, tx_send, tx_topic, tx_reply, tx_reward, tx_other, Tx}

-- The lists `m_uv_1_txs` (not affordable yet) and `m_uv_2_txs` (can be mined), the set `m_uv_3_txs` (mined,
-- kept while they may be rolled back), and the sets of what is taken by transactions in the lists.
pub record Pool : Type 0 where
  pub uv_1_txs : List Tx
  pub uv_2_txs : List Tx
  pub uv_3_txs : List Tx
  pub uv_tx_ids : List Str
  pub uv_account_names : List Str
  pub uv_account_pubkeys : List Str
  pub ledger : Ledger

-- A transaction is erased, or stays in `m_uv_1_txs`, or goes to `m_uv_2_txs`.
pub data Decision : Type 0 where
  drop : Decision
  wait : Decision
  pass : Tx → Ledger → Decision

abbrev pub drop_if : Bool → Decision → Decision
drop_if true k = drop
drop_if false k = k

abbrev pub wait_if : Bool → Decision → Decision
wait_if true k = wait
wait_if false k = k

-- A lookup that may succeed later.
abbrev pub look {ℓ} : {A : Type ℓ} → Option A → (A → Decision) → Decision
look none k = wait
look (some a) k = k a

-- `get_account`, and what the pointer leads to.
abbrev pub look_account : Str → Ledger → (ℕ → Account → Decision) → Decision
look_account pubkey s k =
    look (get_account pubkey s) (λ i. look (find_account i s.accounts) (λ a. k i a))

-- The counters, `+=` in uint64 and uint32 arithmetic.
abbrev pub spend : ℕ → Account → Account
spend v a = record a { uv_spend = (a.uv_spend + v) % u64_mod }

abbrev pub count_topic : Account → Account
count_topic a = record a { uv_topic = (a.uv_topic + 1) % u32_mod }

abbrev pub count_join : Account → Account
count_join a = record a { uv_join_topic = (a.uv_join_topic + 1) % u32_mod }

abbrev pub count_reply : Topic → Topic
count_reply t = record t { uv_reply = (t.uv_reply + 1) % u32_mod }

abbrev pub count_reward : ℕ → Topic → Topic
count_reward v t = record t { uv_reward = (t.uv_reward + v) % u64_mod }

-- `balance < cost + m_uv_spend`.
abbrev pub too_poor : ℕ → Account → Bool
too_poor cost a = ltb a.balance ((cost + a.uv_spend) % u64_mod)

-- The cost of a transaction that carries an amount, in uint64 arithmetic.
abbrev pub cost_of : ℕ → ℕ
cost_of amount = (amount + 2) % u64_mod

-- `topic_block_id + TOPIC_LIFE_TIME < cur_block_id + 1`.
abbrev pub topic_over : ℕ → Topic → Bool
topic_over cur_block_id t =
    ltb ((t.block_id + topic_life_time) % u64_mod) ((cur_block_id + 1) % u64_mod)

unfoldable pub judge_reg : Tx → Str → Ledger → Decision
judge_reg t referrer_pubkey s =
    look_account referrer_pubkey s
      (λ i a. wait_if (too_poor 2 a) (pass t (edit_account i (spend 2) s)))

unfoldable pub judge_send : Tx → Str → ℕ → Ledger → Decision
judge_send t receiver_pubkey amount s = look_account t.pubkey s (λ i a.
    wait_if (too_poor (cost_of amount) a) (
      look (get_account receiver_pubkey s)
        (λ receiver. pass t (edit_account i (spend (cost_of amount)) s))))

unfoldable pub judge_topic : Tx → ℕ → Ledger → Decision
judge_topic t reward s = look_account t.pubkey s (λ i a.
    drop_if (leb 100 (length a.topic_list + a.uv_topic)) (
      wait_if (too_poor (cost_of reward) a)
        (pass t (edit_account i (λ b. count_topic (spend (cost_of reward) b)) s))))

-- The reply that is answered, if any, must be there, and a text.
unfoldable pub judge_reply_to : Str → Topic → Decision → Decision
judge_reply_to [] t k = k
judge_reply_to (c ∷ cs) t k = look (get_reply (c ∷ cs) t) (λ r. drop_if (not (r.kind == 0)) k)

-- `m_uv_join_topic = 1`, of the transaction.
abbrev pub mark_join : Tx → Str → Str → Str → Tx
mark_join t key to text = record t { body = tx_reply key to text 1 }

unfoldable pub judge_join : Tx → Str → Str → Str → ℕ → Account → Topic → Ledger → Decision
judge_join t key to text i a topic s =
    if topic.owner == i || joined_topic topic.key a
    then pass t (edit_topic key count_reply (edit_account i (spend 2) s))
    else drop_if (leb 100 (length a.joined_topic_list + a.uv_join_topic)) (
        pass (mark_join t key to text)
          (edit_topic key count_reply (edit_account i (λ b. spend 2 (count_join b)) s)))

unfoldable pub judge_reply : ℕ → Tx → Str → Str → Str → Ledger → Decision
unfolding judge_reply_to judge_join
judge_reply cur_block_id t key to text s = look (get_topic key s) (λ topic.
    drop_if (topic_over cur_block_id topic) (
      judge_reply_to to topic (
        drop_if (leb 1000 (length topic.reply_list + topic.uv_reply)) (
          look_account t.pubkey s
            (λ i a. wait_if (too_poor 2 a) (judge_join t key to text i a topic s))))))

unfoldable pub judge_reward : ℕ → Tx → Str → Str → ℕ → Ledger → Decision
judge_reward cur_block_id t key to amount s = look_account t.pubkey s (λ i a.
    wait_if (too_poor (cost_of amount) a) (
      look (get_topic key s) (λ topic. drop_if (topic_over cur_block_id topic) (
        drop_if (not (topic.owner == i)) (
          drop_if (leb 1000 (length topic.reply_list + topic.uv_reply)) (
            drop_if (ltb topic.balance ((amount + topic.uv_reward) % u64_mod)) (
              look (get_reply to topic) (λ r. drop_if (not (r.kind == 0)) (
                drop_if (r.owner == i) (
                  pass t (
                    edit_topic key (λ q. count_reply (count_reward amount q))
                      (edit_account i (spend 2) s))))))))))))

-- A transaction of another type meets no test; the handler lets none in.
unfoldable pub judge : ℕ → Tx → Ledger → Decision
unfolding judge_reg judge_send judge_topic judge_reply judge_reward
judge cur_block_id t s = elim t.body [
  | tx_reg name referrer_pubkey avatar ↦ judge_reg t referrer_pubkey s
  | tx_send receiver_pubkey amount ↦ judge_send t receiver_pubkey amount s
  | tx_topic reward text ↦ judge_topic t reward s
  | tx_reply key to text j ↦ judge_reply cur_block_id t key to text s
  | tx_reward key to amount ↦ judge_reward cur_block_id t key to amount s
  | tx_other n ↦ pass t s
]

-- What a decision to pass must satisfy.
abbrev pub Allows {ℓ} : (Tx → Ledger → Type ℓ) → Decision → Type ℓ
Allows P (pass t s) = P t s
Allows P drop = Unit
Allows P wait = Unit

pub drop_if-Allows {ℓ} :
    (P : Tx → Ledger → Type ℓ) (b : Bool) (k : Decision)
    → (b ≡ false → Allows P k)
    → Allows P (drop_if b k)
drop_if-Allows P true k h = tt
drop_if-Allows P false k h = h refl

pub wait_if-Allows {ℓ} :
    (P : Tx → Ledger → Type ℓ) (b : Bool) (k : Decision)
    → (b ≡ false → Allows P k)
    → Allows P (wait_if b k)
wait_if-Allows P true k h = tt
wait_if-Allows P false k h = h refl

pub look-Allows {ℓ κ} :
    {A : Type ℓ} (P : Tx → Ledger → Type κ) (o : Option A) (k : A → Decision)
    → ((a : A) → o ≡ some a → Allows P (k a))
    → Allows P (look o k)
look-Allows P none k h = tt
look-Allows P (some a) k h = h a refl
