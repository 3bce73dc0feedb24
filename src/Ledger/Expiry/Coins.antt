-- ===== src/Ledger/Expiry/Coins.antt =====
-- Expiry loses no coins, and leaves no topic behind that is too old.
use askcoin_core.Base.{
  ℕ, ◌+◌, Option, List, [], ◌∷◌, require, ltb, ◌≡◌, refl, subst, ◌≤◌, ◌<◌, arith, Ensures,
  bind-Ensures, Ensures-map, Ensures-of, guard-Ensures, All, Bool-cases, inl, inr, ltb→lt,
  ltb-false→le,
}
use askcoin_core.Base.Text.{Str}
use askcoin_core.Base.Dict.{erase, str_key}
use askcoin_core.External.{External}
use askcoin_core.Account.{Account, topic_life_time, leave_topic}
use askcoin_core.Topic.{Topic}
use askcoin_core.Ledger.{Ledger, find_account, add_balance, edit_account, reserve, coins}
use askcoin_core.Ledger.Balance.{total}
use askcoin_core.Ledger.Links.{IsLinked, OwnersKnown}
use askcoin_core.Ledger.Good.{Good, Good-refl, Good-trans, give-Good, edit_account-Good}
use askcoin_core.Ledger.Expiry.{
  pop_topic, owns_first, reclaim, leave_all, expire_topic, expire_topics, renew, proc_topic_expired,
  Archive, proc_tx_map, expire_block_txs, expiring,
}

leave_topic-fields :
    (key : Str) (a : Account)
    → ((leave_topic key a).id ≡ a.id)
      × ((leave_topic key a).referrer ≡ a.referrer)
      × ((leave_topic key a).balance ≡ a.balance)
unfolding leave_topic
leave_topic-fields key a = (refl, refl, refl)

leave_all-Good :
    (key : Str) (ms : List (Str × ℕ)) (s : Ledger) → IsLinked s → Good s 0 (leave_all key ms s)
unfolding leave_all
leave_all-Good key [] s l = Good-refl s l
leave_all-Good key ((tx, a) ∷ ms) s l = Good-trans refl left (leave_all-Good key ms _ left.linked)
  where
    left : Good s 0 (edit_account a (leave_topic key) s)
    left =
        edit_account-Good a (leave_topic key) s
          (λ b. ((leave_topic-fields key b).0, (leave_topic-fields key b).1))
          (λ b. (leave_topic-fields key b).2) l

reclaim-Good : (v : ℕ) (s u : Ledger) → total s ≤ coins → Good s v u → Good s 0 (reclaim v u)
unfolding reclaim
reclaim-Good v s u small g = elim (Bool-cases (ltb 0 v)) [
  | inl e ↦ rw e (give-Good reserve v v 0 s u (omega arith) g.linked.reserve_known (omega arith) g)
  | inr e ↦ rw e (record {
    linked = g.linked;
    kept = omega (arith, g.kept, ltb-false→le 0 v e);
    grows = g.grows;
  })
]

-- The first topic leaves the lists with its coins.
drop_topic-Good :
    (t : Topic) (ts : List Topic) (s : Ledger) (keys : List Str)
    → s.topic_list ≡ t ∷ ts
    → IsLinked s
    → Good s t.balance (record s { topics = keys; topic_list = ts })
drop_topic-Good t ts s keys e l = record {
  linked = record {
    reserve_known = l.reserve_known;
    pubkeys_known = l.pubkeys_known;
    referrers_known = l.referrers_known;
    owners_known = (subst (All (OwnersKnown s.accounts)) e l.owners_known).1;
  };
  kept = rw e (omega arith);
  grows = λ i p. p;
}

pub leave_all-topics :
    (key : Str) (ms : List (Str × ℕ)) (s : Ledger) → (leave_all key ms s).topic_list ≡ s.topic_list
unfolding leave_all edit_account
leave_all-topics key [] s = refl
leave_all-topics key ((tx, a) ∷ ms) s = leave_all-topics key ms _

pub reclaim-topics : (v : ℕ) (s : Ledger) → (reclaim v s).topic_list ≡ s.topic_list
unfolding reclaim add_balance
reclaim-topics v s = ground arith

-- What one round of the loop does.
abbrev pub Dropped : Ledger → List Topic → Ledger → Type 0
Dropped s ts u = Good s 0 u × (u.topic_list ≡ ts)

pub expire_topic-Dropped :
    (t : Topic) (ts : List Topic) (s : Ledger)
    → s.topic_list ≡ t ∷ ts
    → IsLinked s
    → total s ≤ coins
    → Ensures (Dropped s ts) (expire_topic t ts s)
unfolding expire_topic
expire_topic-Dropped t ts s e l small =
    bind-Ensures (Dropped s ts) (require (find_account t.owner s.accounts)) _ (λ owner _.
      guard-Ensures (Dropped s ts) (owns_first t.key owner) _
        (λ _. (Good-trans refl popped (leave_all-Good t.key t.members _ popped.linked), same)))
  where
    dropped : Good s t.balance (record s { topics = erase t.key s.topics; topic_list = ts })
    dropped = drop_topic-Good t ts s (erase t.key s.topics) e l

    freed :
        Good s 0 (reclaim t.balance (record s { topics = erase t.key s.topics; topic_list = ts }))
    freed = reclaim-Good t.balance s _ small dropped

    popped : Good s 0 (
        edit_account t.owner pop_topic
          (reclaim t.balance (record s { topics = erase t.key s.topics; topic_list = ts })))
    popped =
        Good-trans refl freed
          (edit_account-Good t.owner pop_topic _ (λ a. (refl, refl)) (λ a. refl) freed.linked)

    edit_topics : (u : Ledger) → (edit_account t.owner pop_topic u).topic_list ≡ u.topic_list
    edit_topics u = unfold edit_account in refl

    same :
        (leave_all t.key t.members (
          edit_account t.owner pop_topic (
            reclaim t.balance
              (record s { topics = erase t.key s.topics; topic_list = ts })))).topic_list
        ≡ ts
    same = rw (leave_all-topics, edit_topics, reclaim-topics) refl

-- Topics come in block order.
abbrev pub IsOrdered : List Topic → Type 0
IsOrdered [] = Unit
IsOrdered (t ∷ ts) = All (λ u. t.block_id ≤ u.block_id) ts × IsOrdered ts

-- A topic at most one lifetime old.
abbrev pub IsLive : ℕ → Topic → Type 0
IsLive now t = now ≤ t.block_id + 4320

pub IsLive-later :
    (now : ℕ) (t : Topic) (ts : List Topic)
    → IsLive now t
    → All (λ u. t.block_id ≤ u.block_id) ts
    → All (IsLive now) ts
IsLive-later now t [] h o = tt
IsLive-later now t (u ∷ ts) h o = (omega arith, IsLive-later now t ts h o.1)

-- What the whole loop does.
abbrev pub Expired : ℕ → Ledger → List Topic × Ledger → Type 0
Expired now s r = Good s 0 r.1 × All (IsLive now) r.1.topic_list

expire_topics-Expired :
    (now : ℕ) (gone ts : List Topic) (s : Ledger)
    → s.topic_list ≡ ts
    → IsOrdered ts
    → IsLinked s
    → total s ≤ coins
    → Ensures (Expired now s) (expire_topics now gone ts s)
unfolding expire_topics
expire_topics-Expired now gone [] s e o l small = (Good-refl s l, rw e tt)
expire_topics-Expired now gone (t ∷ ts) s e o l small =
    elim (Bool-cases (ltb (t.block_id + topic_life_time) now)) [
      | inl old ↦ rw old (
          bind-Ensures (Expired now s) (expire_topic t ts s) (expire_topics now (t ∷ gone) ts)
            (λ u ran.
              later u
                (Ensures-of (Dropped s ts) (expire_topic t ts s) u
                  (expire_topic-Dropped t ts s e l small) ran)
                (expire_topics-Expired now (t ∷ gone) ts u)))
      | inr live ↦ rw live (
        Good-refl s l,
        rw e (ltb-false→le _ _ live, IsLive-later now t ts (ltb-false→le _ _ live) o.0),
      )
    ]
  where
    later :
        (u : Ledger)
        → Dropped s ts u
        → (u.topic_list ≡ ts
            → IsOrdered ts
            → IsLinked u
            → total u ≤ coins
            → Ensures (Expired now u) (expire_topics now (t ∷ gone) ts u))
        → Ensures (Expired now s) (expire_topics now (t ∷ gone) ts u)
    later u d ih =
        Ensures-map (Expired now u) (Expired now s) _ (λ r h. (Good-trans refl d.0 h.0, h.1))
          (ih d.1 o.1 d.0.linked (omega (arith, d.0.kept)))

pub new-IsLive :
    (now : ℕ) (ts : List Topic) → now < 4322 → All (λ t. 1 ≤ t.block_id) ts → All (IsLive now) ts
new-IsLive now [] h p = tt
new-IsLive now (t ∷ ts) h p = (omega arith, new-IsLive now ts h p.1)

keep_expired-Good :
    (s u : Ledger) (d : List (ℕ × List Topic))
    → Good s 0 u
    → Good s 0 (record u { rollback_topics = d })
keep_expired-Good s u d g = record {
  linked = record {
    reserve_known = g.linked.reserve_known;
    pubkeys_known = g.linked.pubkeys_known;
    referrers_known = g.linked.referrers_known;
    owners_known = g.linked.owners_known;
  };
  kept = g.kept;
  grows = g.grows;
}

pub proc_topic_expired-Good :
    (now : ℕ) (s : Ledger)
    → IsOrdered s.topic_list
    → All (λ t. 1 ≤ t.block_id) s.topic_list
    → IsLinked s
    → total s ≤ coins
    → Ensures (λ u. Good s 0 u × All (IsLive now) u.topic_list) (proc_topic_expired now s)
unfolding proc_topic_expired
proc_topic_expired-Good now s o p l small = elim (Bool-cases (ltb now (topic_life_time + 2))) [
  | inl early ↦ rw early (Good-refl s l, new-IsLive now s.topic_list (ltb→lt now 4322 early) p)
  | inr late ↦ rw late (
      bind-Ensures _ (expire_topics now [] s.topic_list s) _ (λ r ran. kept r (
        Ensures-of (Expired now s) (expire_topics now [] s.topic_list s) r
          (expire_topics-Expired now [] s.topic_list s refl o l small) ran)))
]
  where
    kept :
        (r : List Topic × Ledger)
        → Expired now s r
        → Good s 0
            (record r.1 { rollback_topics = (expiring now, r.0) ∷ renew now s.rollback_topics })
          × All (IsLive now) r.1.topic_list
    kept r h = (keep_expired-Good s r.1 _ h.0, h.1)

forget_txs-Good :
    (s : Ledger) (m : List (Str × ℕ)) (d : List (ℕ × (Option ℕ × List Str)))
    → IsLinked s
    → Good s 0 (record s { tx_map = m; rollback_txs = d })
forget_txs-Good s m d l = record {
  linked = record {
    reserve_known = l.reserve_known;
    pubkeys_known = l.pubkeys_known;
    referrers_known = l.referrers_known;
    owners_known = l.owners_known;
  };
  kept = omega arith;
  grows = λ i p. p;
}

-- The expiry of transactions touches neither accounts nor topics.
pub proc_tx_map-Good :
    (x : External) (h : Archive) (now : ℕ) (s : Ledger)
    → IsLinked s
    → Ensures (Good s 0) (proc_tx_map x h now s)
unfolding proc_tx_map
proc_tx_map-Good x h now s l = elim (Bool-cases (ltb now (topic_life_time + 2))) [
  | inl early ↦ rw early (Good-refl s l)
  | inr late ↦ rw late (
      bind-Ensures (Good s 0) (expire_block_txs x h (expiring now) s.tx_map) _
        (λ r _. forget_txs-Good s r.1 _ l))
]
