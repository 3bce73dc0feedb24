-- ===== src/Ledger/Expiry/Ends.antt =====
-- `proc_topic_expired` does not end the program: the checks of the owner in its loop do not fail.
use askcoin_core.Base.{
  ℕ, ◌+◌, true, some, List, [], ◌∷◌, ok, ltb, ◌≡◌, refl, arith, Bool-cases, inl, inr, ◌==◌,
  if◌then◌else◌, ◌∙◌,
}
use askcoin_core.Base.Text.{Str, str_eq_iff}
use askcoin_core.Base.Dict.{erase, str_key}
use askcoin_core.Account.{Account, topic_life_time, leave_topic, drop_first}
use askcoin_core.Topic.{Topic}
use askcoin_core.Ledger.{
  Ledger, find_account, update_account, edit_account, add_balance, set_balance,
}
use askcoin_core.Ledger.Expiry.{
  pop_topic, owns_first, reclaim, leave_all, expire_topic, expire_topics, renew, proc_topic_expired,
  expiring,
}
use askcoin_core.Ledger.Expiry.Coins.{leave_all-topics, reclaim-topics}

-- The list of topics of account `i`.
abbrev pub topics_of : ℕ → List Account → List Str
topics_of i [] = []
topics_of i (a ∷ xs) = if a.id == i then a.topic_list else topics_of i xs

-- The keys of the topics that account `i` owns, in order.
abbrev pub owned : ℕ → List Topic → List Str
owned i [] = []
owned i (t ∷ ts) = if t.owner == i then t.key ∷ owned i ts else owned i ts

-- Each account's list holds the topics that it owns, in the order of `m_topic_list`.
abbrev pub OwnTopics : List Account → List Topic → Type 0
OwnTopics xs ts = (i : ℕ) → topics_of i xs ≡ owned i ts

topics_of-update_account :
    (i j : ℕ) (f : Account → Account) (xs : List Account)
    → ((a : Account) → (f a).id ≡ a.id)
    → ((a : Account) → (f a).topic_list ≡ a.topic_list)
    → topics_of j (update_account i f xs) ≡ topics_of j xs
unfolding update_account
topics_of-update_account i j f [] h k = refl
topics_of-update_account i j f (a ∷ xs) h k =
    ground (arith, topics_of-update_account i j f xs h k, h a, k a)

topics_of-pop_topic :
    (i j : ℕ) (xs : List Account)
    → topics_of j (update_account i pop_topic xs)
      ≡ (if j == i then drop_first (topics_of j xs) else topics_of j xs)
unfolding update_account
topics_of-pop_topic i j [] = ground arith
topics_of-pop_topic i j (a ∷ xs) = ground (arith, topics_of-pop_topic i j xs)

topics_of-leave_all :
    (key : Str) (ms : List (Str × ℕ)) (j : ℕ) (s : Ledger)
    → topics_of j (leave_all key ms s).accounts ≡ topics_of j s.accounts
unfolding leave_all leave_topic edit_account
topics_of-leave_all key [] j s = refl
topics_of-leave_all key ((tx, a) ∷ ms) j s =
    topics_of-leave_all key ms j _
    ∙ topics_of-update_account a j (leave_topic key) s.accounts (λ b. refl) (λ b. refl)

topics_of-reclaim :
    (v j : ℕ) (s : Ledger) → topics_of j (reclaim v s).accounts ≡ topics_of j s.accounts
unfolding reclaim add_balance set_balance
topics_of-reclaim v j s = elim (Bool-cases (ltb 0 v)) [
  | inl e ↦ rw e (topics_of-update_account _ j _ s.accounts (λ b. refl) (λ b. refl))
  | inr e ↦ rw e refl
]

-- An account with a topic is there.
topics_of-found :
    (i : ℕ) (k : Str) (ks : List Str) (xs : List Account)
    → topics_of i xs ≡ k ∷ ks
    → (a : Account) × (find_account i xs ≡ some a) × (a.topic_list ≡ k ∷ ks)
unfolding find_account
topics_of-found i k ks [] e = absurd (cc e)
topics_of-found i k ks (a ∷ xs) e = elim (Bool-cases (a.id == i)) [
  | inl hit ↦ (a, rw hit refl, rw hit at e)
  | inr miss ↦
      let (b, found, list) = topics_of-found i k ks xs (rw miss at e) in (b, rw miss found, list)
]

owns_first-head :
    (key : Str) (ks : List Str) (a : Account) → a.topic_list ≡ key ∷ ks → owns_first key a ≡ true
unfolding owns_first
owns_first-head key ks a e = rw e ((str_eq_iff key key).1 refl)

-- The ledger after a round.
abbrev after_topic : Topic → List Topic → Ledger → Ledger
after_topic t ts s = leave_all t.key t.members (
    edit_account t.owner pop_topic
      (reclaim t.balance (record s { topics = erase t.key s.topics; topic_list = ts })))

after_topic-topics :
    (t : Topic) (ts : List Topic) (s : Ledger) → (after_topic t ts s).topic_list ≡ ts
unfolding edit_account
after_topic-topics t ts s = leave_all-topics t.key t.members _ ∙ reclaim-topics t.balance _

after_topic-OwnTopics :
    (t : Topic) (ts : List Topic) (s : Ledger)
    → OwnTopics s.accounts (t ∷ ts)
    → OwnTopics (after_topic t ts s).accounts ts
unfolding edit_account
after_topic-OwnTopics t ts s own j =
    let gone = record s { topics = erase t.key s.topics; topic_list = ts } in
    let freed : topics_of j (reclaim t.balance gone).accounts ≡ topics_of j s.accounts =
      topics_of-reclaim t.balance j gone in
    topics_of-leave_all t.key t.members j _
    ∙ topics_of-pop_topic t.owner j (reclaim t.balance gone).accounts
    ∙ rw (freed, own j) (dropped j)
  where
    dropped :
        (j : ℕ)
        → (if j == t.owner then drop_first (owned j (t ∷ ts)) else owned j (t ∷ ts)) ≡ owned j ts
    dropped j = ground arith

expire_topic-goes :
    (t : Topic) (ts : List Topic) (s : Ledger)
    → OwnTopics s.accounts (t ∷ ts)
    → expire_topic t ts s ≡ ok (after_topic t ts s)
unfolding expire_topic
expire_topic-goes t ts s own =
    let first : topics_of t.owner s.accounts ≡ t.key ∷ owned t.owner ts =
      ground (arith, own t.owner) in
    let (a, found, list) = topics_of-found t.owner t.key (owned t.owner ts) s.accounts first in
    rw (expire_topic, found, owns_first-head t.key _ a list) refl

-- The loop goes through, and what is left of the lists still agrees.
abbrev Goes : ℕ → List Topic → List Topic → Ledger → Type 0
Goes now acc ts s =
    (r : List Topic × Ledger) × (expire_topics now acc ts s ≡ ok r)
    × OwnTopics r.1.accounts r.1.topic_list

expire_topics-Goes :
    (now : ℕ) (acc ts : List Topic) (s : Ledger)
    → s.topic_list ≡ ts
    → OwnTopics s.accounts ts
    → Goes now acc ts s
unfolding expire_topics
expire_topics-Goes now acc [] s e own = ((acc, s), refl, rw e own)
expire_topics-Goes now acc (t ∷ ts) s e own =
    elim (Bool-cases (ltb (t.block_id + topic_life_time) now)) [
      | inl old ↦
          let (r, ran, kept) : Goes now (t ∷ acc) ts (after_topic t ts s) =
            expire_topics-Goes now (t ∷ acc) ts (after_topic t ts s) (after_topic-topics t ts s)
              (after_topic-OwnTopics t ts s own) in
          (r, rw (expire_topics, old, expire_topic-goes t ts s own) ran, kept)
      | inr live ↦ ((acc, s), rw (expire_topics, live) refl, rw e own)
    ]

-- If each account's list holds the topics that it owns, in the order of `m_topic_list`, the expiry of topics goes
-- through with any block and does not end the program, and the lists agree again afterwards.
pub proc_topic_expired-goes_on :
    (now : ℕ) (s : Ledger)
    → OwnTopics s.accounts s.topic_list
    → (u : Ledger) × (proc_topic_expired now s ≡ ok u) × OwnTopics u.accounts u.topic_list
unfolding proc_topic_expired
proc_topic_expired-goes_on now s own = elim (Bool-cases (ltb now (topic_life_time + 2))) [
  | inl early ↦ (s, rw (proc_topic_expired, early) refl, own)
  | inr late ↦
      let (r, ran, kept) : Goes now [] s.topic_list s =
        expire_topics-Goes now [] s.topic_list s refl own in
      (
        record r.1 { rollback_topics = (expiring now, r.0) ∷ renew now s.rollback_topics },
        rw (proc_topic_expired, late, ran) refl,
        kept,
      )
]
