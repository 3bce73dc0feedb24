-- ===== src/Mine/Sound/Members.antt =====
-- An account joins a topic.
use askcoin_core.Base.{
  ℕ, ◌≡◌, ◌≤◌, refl, sym, subst, ◌∙◌, true, some, List, [], ◌∷◌, ◌++◌, All, Bool-cases, inl, inr,
  ◌⊎◌, ◌==◌, some_inj, arith,
}
use askcoin_core.Base.Text.{Str, str_eq, str_eq_iff}
use askcoin_core.Base.Dict.{has_key, str_key}
use askcoin_core.Account.{Account, is_in, joined_topic}
use askcoin_core.Topic.{Topic, is_member, add_member}
use askcoin_core.Ledger.{find_account, update_account, update_topic}
use askcoin_core.Ledger.Tx.Post.{push_joined, join_member}
use askcoin_core.Mine.Restore.{TopicFits}
use askcoin_core.Mine.Sound.{AreKnown, HaveJoined, Sound, IsMild, Sound-account, still_found}

is_in-append : (k j : Str) (js : List Str) → is_in k js ≡ true → is_in k (js ++ j ∷ []) ≡ true
unfolding is_in
is_in-append k j [] h = absurd (cc h)
is_in-append k j (i ∷ js) h = elim (Bool-cases (str_eq i k)) [
  | inl e ↦ rw e refl
  | inr e ↦ rw e (is_in-append k j js (rw e at h))
]

is_in_last : (k : Str) (js : List Str) → is_in k (js ++ k ∷ []) ≡ true
unfolding is_in
is_in_last k [] = rw ((str_eq_iff k k).1 refl) refl
is_in_last k (i ∷ js) = elim (Bool-cases (str_eq i k)) [
  | inl e ↦ rw e refl
  | inr e ↦ rw e (is_in_last k js)
]

push_joined-IsMild : (key : Str) → IsMild (push_joined key)
unfolding joined_topic
push_joined-IsMild key = record {
  same_id = λ a. refl;
  fits = λ a p. p;
  stays = λ a k h. is_in-append k key a.joined_topic_list h;
}

is_member-append :
    (i a : ℕ) (tx : Str) (ms : List (Str × ℕ))
    → is_member i (ms ++ (tx, a) ∷ []) ≡ true
    → (is_member i ms ≡ true) ⊎ (a ≡ i)
unfolding is_member
is_member-append i a tx [] h = elim (Bool-cases (a == i)) [
  | inl e ↦ inr (ground (arith, e))
  | inr e ↦ absurd (cc (rw e at h))
]
is_member-append i a tx ((t, b) ∷ ms) h = elim (Bool-cases (b == i)) [
  | inl e ↦ inl (rw e refl)
  | inr e ↦ rw e (is_member-append i a tx ms (rw e at h))
]

has_pushed :
    (i : ℕ) (key : Str) (c : Account) (xs : List Account)
    → find_account i (update_account i (push_joined key) xs) ≡ some c
    → joined_topic key c ≡ true
unfolding find_account update_account joined_topic
has_pushed i key c [] e = absurd (cc e)
has_pushed i key c (a ∷ xs) e = elim (Bool-cases (a.id == i)) [
  | inl hit ↦
      subst (λ z. is_in key z.joined_topic_list ≡ true) (some_inj (rw (hit, hit) at e))
        (is_in_last key a.joined_topic_list)
  | inr miss ↦ has_pushed i key c xs (rw (miss, miss) at e)
]

-- The account joins the topic.
member_joins :
    (tx_id : Str) (a : ℕ) (xs : List Account) (t : Topic)
    → HaveJoined (update_account a (push_joined t.key) xs) t
    → HaveJoined
        (update_account a (push_joined t.key) xs)
        (record t { members = t.members ++ (tx_id, a) ∷ [] })
member_joins tx_id a xs t h i b e q = elim (is_member-append i a tx_id t.members q) [
  | inl old ↦ h i b e old
  | inr new ↦
      has_pushed i t.key b xs
        (subst (λ n. find_account i (update_account n (push_joined t.key) xs) ≡ some b) new e)
]

-- A change of the topics with a key.
All-update_topic_at :
    (P : Topic → Type 0) (key : Str) (f : Topic → Topic) (ts : List Topic)
    → ((t : Topic) → t.key ≡ key → P t → P (f t))
    → All P ts
    → All P (update_topic key f ts)
unfolding update_topic
All-update_topic_at P key f [] k h = tt
All-update_topic_at P key f (t ∷ ts) k h = elim (Bool-cases (str_eq t.key key)) [
  | inl e ↦ rw e (k t ((str_eq_iff t.key key).0 e) h.0, h.1)
  | inr e ↦ rw e (h.0, All-update_topic_at P key f ts k h.1)
]

AreKnown-append :
    (tx_id : Str) (a c : ℕ) (d : List (Str × ℕ)) (ms : List (Str × ℕ))
    → has_key tx_id d ≡ true
    → a ≤ c
    → All (λ m. (has_key m.0 d ≡ true) × (m.1 ≤ c)) ms
    → All (λ m. (has_key m.0 d ≡ true) × (m.1 ≤ c)) (ms ++ (tx_id, a) ∷ [])
AreKnown-append tx_id a c d [] h b k = ((h, b), tt)
AreKnown-append tx_id a c d (m ∷ ms) h b k = (k.0, AreKnown-append tx_id a c d ms h b k.1)

-- The property of a topic before and after `add_member`.
join_member-cases :
    (P : Topic → Type 0) (tx_id : Str) (a : ℕ) (t : Topic)
    → P t
    → P (record t { members = t.members ++ (tx_id, a) ∷ [] })
    → P (join_member tx_id a t)
unfolding add_member
join_member-cases P tx_id a t p q = elim (Bool-cases (is_member a t.members)) [
  | inl old ↦ rw (join_member, old) p
  | inr new ↦ rw (join_member, new) q
]

pub Sound-join :
    (tx_id key : Str) (a : ℕ) (xs : List Account) (c : ℕ) (ks : List Str) (ts : List Topic)
    (d : List (Str × ℕ))
    → has_key tx_id d ≡ true
    → a ≤ c
    → Sound xs c ks ts d
    → Sound
        (update_account a (push_joined key) xs)
        c
        ks
        (update_topic key (join_member tx_id a) ts)
        d
Sound-join tx_id key a xs c ks ts d known below h =
    let before = Sound-account a (push_joined key) xs c ks ts d (push_joined-IsMild key) h in
    record {
      accounts_fit = before.accounts_fit;
      ids_below = before.ids_below;
      topics_fit =
          All-update_topic_at TopicFits key (join_member tx_id a) ts
            (λ t e p. join_member-cases TopicFits tx_id a t p p) before.topics_fit;
      topics_found = λ k p.
          still_found k key (join_member tx_id a) ts
            (λ t. join_member-cases (λ q. q.key ≡ t.key) tx_id a t refl refl)
          ∙ h.topics_found k p;
      members_known =
          All-update_topic_at (AreKnown d c) key (join_member tx_id a) ts
            (λ t e p.
              join_member-cases (AreKnown d c) tx_id a t p
                (AreKnown-append tx_id a c d t.members known below p))
            before.members_known;
      members_joined =
          All-update_topic_at (HaveJoined (update_account a (push_joined key) xs)) key
            (join_member tx_id a) ts
            (λ t e p.
              join_member-cases (HaveJoined (update_account a (push_joined key) xs)) tx_id a t p (
                subst
                  (λ k.
                    HaveJoined (update_account a (push_joined k) xs)
                      (record t { members = t.members ++ (tx_id, a) ∷ [] }))
                  e
                  (member_joins tx_id a xs t
                    (subst (λ k. HaveJoined (update_account a (push_joined k) xs) t) (sym e) p))))
            before.members_joined;
    }
