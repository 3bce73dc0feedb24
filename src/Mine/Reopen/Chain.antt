-- ===== src/Mine/Reopen/Chain.antt =====
-- What the two loops leave of the chain, and the transactions of a block that expire and come back.
use askcoin_core.Base.{
  ℕ, ◌+◌, ◌≡◌, refl, sym, subst, ◌∙◌, Bool, true, false, ◌&&◌, ◌||◌, Option, none, some, List, [],
  ◌∷◌, Run, ok, exit, ◌>>=◌, ltb, leb, All, Bool-cases, inl, inr,
}
use askcoin_core.Base.Text.{Str}
use askcoin_core.Base.Dict.{contains, lookup, str_key, nat_key}
use askcoin_core.External.{External}
use askcoin_core.Account.{topic_life_time}
use askcoin_core.Topic.{Topic}
use askcoin_core.Ledger.{Ledger}
use askcoin_core.Ledger.Expiry.{
  expire_topic, expire_topics, Archive, erase_txs, push_front_all, stored_tx_ids, expire_block_txs,
}
use askcoin_core.Mine.Reopen.{reopen_topic, reopen_topics, reopen_txs}
use askcoin_core.Mine.Reopen.Topics.{expire_topic-ok, reopen_topic-ok}
use askcoin_core.Mine.Reopen.Back.{reopen_topic-IsThere}
use askcoin_core.Mine.Reopen.Rounds.{ok_inj}
use askcoin_core.Mine.Reopen.Txs.{AreUnique, contains-push_front_all, reopen_txs-erase_txs}

-- What the topics have no part in.
pub record SameChain (s w : Ledger) : Type 0 where
  pub tx_map : w.tx_map ≡ s.tx_map
  pub rollback_topics : w.rollback_topics ≡ s.rollback_topics
  pub rollback_txs : w.rollback_txs ≡ s.rollback_txs

SameChain-refl : (s : Ledger) → SameChain s s
SameChain-refl s = record { tx_map = refl; rollback_topics = refl; rollback_txs = refl }

SameChain-trans : (s u w : Ledger) → SameChain s u → SameChain u w → SameChain s w
SameChain-trans s u w p q = record {
  tx_map = q.tx_map ∙ p.tx_map;
  rollback_topics = q.rollback_topics ∙ p.rollback_topics;
  rollback_txs = q.rollback_txs ∙ p.rollback_txs;
}

pub expire_topics-SameChain :
    (now : ℕ) (gone ts : List Topic) (s u : Ledger) (all : List Topic)
    → expire_topics now gone ts s ≡ ok (all, u)
    → SameChain s u
unfolding expire_topics
expire_topics-SameChain now gone [] s u all e =
    subst (λ p. SameChain s p.1) (ok_inj e) (SameChain-refl s)
expire_topics-SameChain now gone (t ∷ ts) s u all e =
    elim (Bool-cases (ltb (t.block_id + topic_life_time) now)) [
      | inl old ↦
          of_topic (expire_topic t ts s) refl (rw old at e)
            (λ v. expire_topics-SameChain now (t ∷ gone) ts v u all)
      | inr live ↦ subst (λ p. SameChain s p.1) (ok_inj (rw live at e)) (SameChain-refl s)
    ]
  where
    of_topic :
        (m : Run Ledger)
        → expire_topic t ts s ≡ m
        → (m >>= expire_topics now (t ∷ gone) ts) ≡ ok (all, u)
        → ((v : Ledger) → expire_topics now (t ∷ gone) ts v ≡ ok (all, u) → SameChain v u)
        → SameChain s u
    of_topic exit f h rest = absurd (cc h)
    of_topic (ok v) f h rest =
        SameChain-trans s v u
          (subst (SameChain s) (sym (expire_topic-ok t ts s v f).1)
            (record { tx_map = refl; rollback_topics = refl; rollback_txs = refl }))
          (rest v h)

reopen_topic-SameChain : (t : Topic) (s w : Ledger) → reopen_topic t s ≡ ok w → SameChain s w
reopen_topic-SameChain t s w e =
    let (r, done) = reopen_topic-ok t s (reopen_topic-IsThere t s w e) in
    subst (SameChain s) (ok_inj (sym done ∙ e))
      (record { tx_map = refl; rollback_topics = refl; rollback_txs = refl })

pub reopen_topics-SameChain :
    (ts : List Topic) (s w : Ledger) → reopen_topics ts s ≡ ok w → SameChain s w
unfolding reopen_topics
reopen_topics-SameChain [] s w e = subst (SameChain s) (ok_inj e) (SameChain-refl s)
reopen_topics-SameChain (t ∷ ts) s w e =
    of_run (reopen_topic t s) refl e (λ z. reopen_topics-SameChain ts z w)
  where
    of_run :
        (m : Run Ledger)
        → reopen_topic t s ≡ m
        → (m >>= reopen_topics ts) ≡ ok w
        → ((z : Ledger) → reopen_topics ts z ≡ ok w → SameChain z w)
        → SameChain s w
    of_run exit f h rest = absurd (cc h)
    of_run (ok z) f h rest = SameChain-trans s z w (reopen_topic-SameChain t s z f) (rest z h)

-- What the expiry takes from the transactions of the chain comes back.
abbrev pub TxsBack : List (Str × ℕ) → (Option ℕ × List Str) × List (Str × ℕ) → Type 0
TxsBack m r =
    (e : List (Str × ℕ)) × (reopen_txs r.0.0 r.0.1 r.1 ≡ ok e)
    × ((k : Str) → lookup k e ≡ lookup k m)

none_back : (b : Option ℕ) (m : List (Str × ℕ)) → TxsBack m ((b, []), m)
unfolding reopen_txs
none_back b m = (m, refl, λ k. refl)

erased_back :
    (id : ℕ) (is js : List Str) (m : List (Str × ℕ)) (r : (Option ℕ × List Str) × List (Str × ℕ))
    → AreUnique m
    → ((k : Str) → contains k js ≡ contains k is)
    → (erase_txs is m >>= λ d. ok ((some id, js), d)) ≡ ok r
    → All (λ i. lookup i m ≡ some id) r.0.1
    → TxsBack m r
erased_back id is js m r u same ran noted = of_run (erase_txs is m) refl ran
  where
    of_run :
        (n : Run (List (Str × ℕ)))
        → erase_txs is m ≡ n
        → (n >>= λ d. ok ((some id, js), d)) ≡ ok r
        → TxsBack m r
    of_run exit f e = absurd (cc e)
    of_run (ok d) f e =
        let this : ((some id, js), d) ≡ r = ok_inj e in
        subst (TxsBack m) this (
          reopen_txs-erase_txs id is js m d u
            (subst (λ z. All (λ i. lookup i m ≡ some id) z.0.1) (sym this) noted) same f)

or_nothing : (b : Bool) → (b || false) ≡ b
or_nothing true = refl
or_nothing false = refl

pub expired_back :
    (x : External) (h : Archive) (id : ℕ) (m : List (Str × ℕ))
    (r : (Option ℕ × List Str) × List (Str × ℕ))
    → AreUnique m
    → expire_block_txs x h id m ≡ ok r
    → All (λ i. lookup i m ≡ some id) r.0.1
    → TxsBack m r
unfolding expire_block_txs
expired_back x h id m r u ran noted = of_hash (h.block_hash id) refl
  where
    of_stored :
        (n : Run (List Str))
        → (n >>= λ is. erase_txs is m >>= λ d. ok ((some id, push_front_all is []), d)) ≡ ok r
        → TxsBack m r
    of_stored exit e = absurd (cc e)
    of_stored (ok is) e =
        erased_back id is (push_front_all is []) m r u
          (λ k. contains-push_front_all k is [] ∙ or_nothing (contains k is)) e noted

    of_import :
        (o : Option (List Str))
        → elim o [
          | none ↦ ok ((some id, []), m)
          | some is ↦ erase_txs is m >>= λ d. ok ((some id, is), d)
        ]
          ≡ ok r
        → TxsBack m r
    of_import none e = subst (TxsBack m) (ok_inj e) (none_back (some id) m)
    of_import (some is) e = erased_back id is is m r u (λ k. refl) e noted

    of_hash : (o : Option Str) → h.block_hash id ≡ o → TxsBack m r
    of_hash none f = subst (TxsBack m) (ok_inj (rw (expire_block_txs, f) at ran)) (none_back none m)
    of_hash (some hash) f =
        elim (Bool-cases (ltb 0 h.import_block_id && leb id h.import_block_id)) [
          | inl imported ↦
              of_import (lookup id h.import_tx_map) (rw (expire_block_txs, f, imported) at ran)
          | inr stored ↦ of_stored (stored_tx_ids x hash) (rw (expire_block_txs, f, stored) at ran)
        ]
