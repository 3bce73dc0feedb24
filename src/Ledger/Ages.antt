-- ===== src/Ledger/Ages.antt =====
-- The order of `m_topic_list` by block, which the expiry relies on, through the changes of the ledger.
-- The children follow the transactions and the block.
pub mod Txs
pub mod Whole
use askcoin_core.Base.{
  ℕ, ◌+◌, List, [], ◌∷◌, ◌++◌, ok, require, ltb, ◌==◌, ◌≡◌, refl, subst, sym, ◌≤◌, arith, Ensures,
  bind-Ensures, Ensures-map, Ensures-of, guard-Ensures, All, All-map, All-append, Bool-cases, inl,
  inr,
}
use askcoin_core.Base.Text.{Str, str_eq}
use askcoin_core.External.{External}
use askcoin_core.Account.{Account, topic_life_time}
use askcoin_core.Topic.{Topic}
use askcoin_core.Ledger.{
  Ledger, find_account, update_topic, set_balance, add_balance, sub_balance, edit_account,
  edit_topic,
}
use askcoin_core.Ledger.Expiry.{
  Archive, pop_topic, owns_first, reclaim, leave_all, expire_topic, expire_topics, expire_block_txs,
  expiring, proc_topic_expired, proc_tx_map,
}
use askcoin_core.Ledger.Expiry.Coins.{IsOrdered, leave_all-topics, reclaim-topics}

-- A topic of one of the blocks 1 to `n`.
abbrev pub IsDated : ℕ → Topic → Type 0
IsDated n t = (1 ≤ t.block_id) × (t.block_id ≤ n)

-- Topics of the blocks 1 to `n`, in the order of the blocks.
abbrev pub InOrder : ℕ → List Topic → Type 0
InOrder n ts = IsOrdered ts × All (IsDated n) ts

-- The same of a ledger.
abbrev pub Timely : ℕ → Ledger → Type 0
Timely n s = InOrder n s.topic_list

pub InOrder-later : (m n : ℕ) (ts : List Topic) → m ≤ n → InOrder m ts → InOrder n ts
InOrder-later m n ts h o =
    (o.0, All-map (IsDated m) (IsDated n) (λ t d. (d.0, omega (arith, d.1))) ts o.1)

pub InOrder-tail : (n : ℕ) (t : Topic) (ts : List Topic) → InOrder n (t ∷ ts) → InOrder n ts
InOrder-tail n t ts o = (o.0.1, o.1.1)

All-update_topic :
    (P : Topic → Type 0) (key : Str) (f : Topic → Topic) (ts : List Topic)
    → ((t : Topic) → P t → P (f t))
    → All P ts
    → All P (update_topic key f ts)
unfolding update_topic
All-update_topic P key f [] k h = tt
All-update_topic P key f (t ∷ ts) k h = elim (Bool-cases (str_eq t.key key)) [
  | inl e ↦ rw e (k t h.0, h.1)
  | inr e ↦ rw e (h.0, All-update_topic P key f ts k h.1)
]

IsOrdered-update_topic :
    (key : Str) (f : Topic → Topic) (ts : List Topic)
    → ((t : Topic) → (f t).block_id ≡ t.block_id)
    → IsOrdered ts
    → IsOrdered (update_topic key f ts)
unfolding update_topic
IsOrdered-update_topic key f [] k h = tt
IsOrdered-update_topic key f (t ∷ ts) k h = elim (Bool-cases (str_eq t.key key)) [
  | inl e ↦ rw e (subst (λ n. All (λ u. n ≤ u.block_id) ts) (sym (k t)) h.0, h.1)
  | inr e ↦ rw e (
    All-update_topic (λ u. t.block_id ≤ u.block_id) key f ts (λ u d. omega (arith, d, k u)) h.0,
    IsOrdered-update_topic key f ts k h.1,
  )
]

-- A write to a topic leaves its block alone.
pub edit_topic-Timely :
    (n : ℕ) (key : Str) (f : Topic → Topic) (s : Ledger)
    → ((t : Topic) → (f t).block_id ≡ t.block_id)
    → Timely n s
    → Timely n (edit_topic key f s)
unfolding edit_topic
edit_topic-Timely n key f s k o = (
  IsOrdered-update_topic key f s.topic_list k o.0,
  All-update_topic (IsDated n) key f s.topic_list
      (λ t d. (omega (arith, d.0, k t), omega (arith, d.1, k t))) o.1,
)

pub edit_account-Timely :
    (n i : ℕ) (f : Account → Account) (s : Ledger) → Timely n s → Timely n (edit_account i f s)
unfolding edit_account
edit_account-Timely n i f s o = o

pub add_balance-Timely : (n i v : ℕ) (s : Ledger) → Timely n s → Timely n (add_balance i v s)
unfolding add_balance set_balance
add_balance-Timely n i v s o = o

pub sub_balance-Timely : (n i v : ℕ) (s : Ledger) → Timely n s → Timely n (sub_balance i v s)
unfolding sub_balance set_balance
sub_balance-Timely n i v s o = o

-- A topic of the newest block goes to the end.
pub InOrder-append :
    (t : Topic) (ts : List Topic)
    → 1 ≤ t.block_id
    → InOrder t.block_id ts
    → InOrder t.block_id (ts ++ t ∷ [])
InOrder-append t ts h o =
    (ordered ts o.0 o.1, All-append (IsDated t.block_id) ts (t ∷ []) o.1 ((h, omega arith), tt))
  where
    ordered :
        (us : List Topic) → IsOrdered us → All (IsDated t.block_id) us → IsOrdered (us ++ t ∷ [])
    ordered [] p d = (tt, tt)
    ordered (u ∷ us) p d =
        (All-append (λ v. u.block_id ≤ v.block_id) us (t ∷ []) p.0 (d.0.1, tt), ordered us p.1 d.1)

expire_topic-topics :
    (t : Topic) (ts : List Topic) (s : Ledger)
    → Ensures (λ u. u.topic_list ≡ ts) (expire_topic t ts s)
unfolding expire_topic
expire_topic-topics t ts s =
    bind-Ensures _ (require (find_account t.owner s.accounts)) _ (λ owner _.
      guard-Ensures _ (owns_first t.key owner) _
        (λ _. rw (leave_all-topics, edit_topics, reclaim-topics) refl))
  where
    edit_topics : (u : Ledger) → (edit_account t.owner pop_topic u).topic_list ≡ u.topic_list
    edit_topics u = unfold edit_account in refl

expire_topics-Timely :
    (n now : ℕ) (gone ts : List Topic) (s : Ledger)
    → s.topic_list ≡ ts
    → InOrder n ts
    → Ensures (λ r. Timely n r.1) (expire_topics now gone ts s)
unfolding expire_topics
expire_topics-Timely n now gone [] s e o = rw e o
expire_topics-Timely n now gone (t ∷ ts) s e o =
    elim (Bool-cases (ltb (t.block_id + topic_life_time) now)) [
      | inl old ↦ rw old (
          bind-Ensures (λ r. Timely n r.1) (expire_topic t ts s) (expire_topics now (t ∷ gone) ts)
            (λ u ran.
              expire_topics-Timely n now (t ∷ gone) ts u
                (Ensures-of (λ v. v.topic_list ≡ ts) (expire_topic t ts s) u
                  (expire_topic-topics t ts s) ran)
                (InOrder-tail n t ts o)))
      | inr live ↦ rw live (subst (InOrder n) (sym e) o)
    ]

pub proc_topic_expired-Timely :
    (n now : ℕ) (s : Ledger) → Timely n s → Ensures (Timely n) (proc_topic_expired now s)
unfolding proc_topic_expired
proc_topic_expired-Timely n now s o = elim (Bool-cases (ltb now (topic_life_time + 2))) [
  | inl early ↦ rw early o
  | inr late ↦ rw late (
      bind-Ensures (Timely n) (expire_topics now [] s.topic_list s) _ (λ r ran.
        Ensures-of (λ q. Timely n q.1) (expire_topics now [] s.topic_list s) r
          (expire_topics-Timely n now [] s.topic_list s refl o) ran))
]

pub proc_tx_map-Timely :
    (x : External) (h : Archive) (n now : ℕ) (s : Ledger)
    → Timely n s
    → Ensures (Timely n) (proc_tx_map x h now s)
unfolding proc_tx_map
proc_tx_map-Timely x h n now s o = elim (Bool-cases (ltb now (topic_life_time + 2))) [
  | inl early ↦ rw early o
  | inr late ↦
      rw late (bind-Ensures (Timely n) (expire_block_txs x h (expiring now) s.tx_map) _ (λ r _. o))
]
