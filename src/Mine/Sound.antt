-- ===== src/Mine/Sound.antt =====
-- What the dry run assumes of the ledger, in a form that its steps keep.
pub mod Members
pub mod Growth
pub mod Steps
pub mod Rounds
pub mod Runs
pub mod Tests
use askcoin_core.Base.{
  u64_mod, ℕ, ◌+◌, ◌%◌, ◌≡◌, ◌≤◌, ◌<◌, refl, ap, sym, subst, ◌∙◌, Bool, true, false, ◌||◌, Option,
  none, some, List, [], ◌∷◌, ◌++◌, if◌then◌else◌, All, All-map, All-append, Bool-cases, inl, inr,
  ◌⊎◌, ◌==◌, some_inj, arith,
}
use askcoin_core.Base.Text.{Str, str_eq, str_eq_iff}
use askcoin_core.Base.Dict.{contains, insert, has_key, str_key}
use askcoin_core.Account.{Account, is_in, joined_topic}
use askcoin_core.Topic.{Topic, Reply, is_member, add_member}
use askcoin_core.Ledger.{Ledger, find_account, update_account, find_topic, update_topic}
use askcoin_core.Ledger.Balance.{has_account}
use askcoin_core.Ledger.Tx.Register.{is_none}
use askcoin_core.Ledger.Tx.Post.{push_joined, join_member}
use askcoin_core.Mine.Writes.{Fits, update_account-Fits}
use askcoin_core.Mine.Restore.{TopicFits, IsJoined, IsSane}

-- The members of a topic are accounts, each with a transaction of the map.
abbrev pub AreKnown : List (Str × ℕ) → ℕ → Topic → Type 0
AreKnown d c t = All (λ m. (has_key m.0 d ≡ true) × (m.1 ≤ c)) t.members

abbrev pub HaveJoined : List Account → Topic → Type 0
HaveJoined xs t =
    (i : ℕ) (a : Account)
    → find_account i xs ≡ some a
    → is_member i t.members ≡ true
    → joined_topic t.key a ≡ true

-- Of the accounts, the last id, the keys of `m_topics` and the topics; with the transactions of the chain.
pub record Sound (xs : List Account) (c : ℕ) (ks : List Str) (ts : List Topic) (d : List (Str × ℕ))
    : Type 0 where
  pub accounts_fit : All Fits xs
  pub ids_below : All (λ a. a.id ≤ c) xs
  pub topics_fit : All TopicFits ts
  pub topics_found : (key : Str) → contains key ks ≡ true → is_none (find_topic key ts) ≡ false
  pub members_known : All (AreKnown d c) ts
  pub members_joined : All (HaveJoined xs) ts

abbrev pub IsSound : List (Str × ℕ) → Ledger → Type 0
IsSound d s = Sound s.accounts s.cur_account_id s.topics s.topic_list d

no_account :
    (i c : ℕ) (xs : List Account) → c < i → All (λ a. a.id ≤ c) xs → has_account i xs ≡ false
no_account i c [] b h = refl
no_account i c (a ∷ xs) b h = elim (Bool-cases (a.id == i)) [
  | inl hit ↦ absurd (ground (arith, hit, h.0, b))
  | inr miss ↦ rw miss (no_account i c xs b h.1)
]

All-both :
    (P Q R : Topic → Type 0) (ts : List Topic)
    → ((t : Topic) → P t → Q t → R t)
    → All P ts
    → All Q ts
    → All R ts
All-both P Q R [] f p q = tt
All-both P Q R (t ∷ ts) f p q = (f t p.0 q.0, All-both P Q R ts f p.1 q.1)

All-members :
    (P Q : Str × ℕ → Type 0) (ms : List (Str × ℕ))
    → ((m : Str × ℕ) → P m → Q m)
    → All P ms
    → All Q ms
All-members P Q [] f p = tt
All-members P Q (m ∷ ms) f p = (f m p.0, All-members P Q ms f p.1)

-- Room for another registration makes such a ledger one that the dry run can be undone on.
pub IsSound-IsSane : (s : Ledger) → IsSound s.tx_map s → s.cur_account_id + 1 < u64_mod → IsSane s
IsSound-IsSane s h room = record {
  accounts_fit = h.accounts_fit;
  topics_fit = h.topics_fit;
  id_fits = omega arith;
  next_new =
      no_account ((s.cur_account_id + 1) % u64_mod) s.cur_account_id s.accounts (omega arith)
        h.ids_below;
  topics_found = h.topics_found;
  members_joined =
      All-both (AreKnown s.tx_map s.cur_account_id) (HaveJoined s.accounts) (IsJoined s)
        s.topic_list
        (λ t p q. record {
          known =
              All-members (λ m. (has_key m.0 s.tx_map ≡ true) × (m.1 ≤ s.cur_account_id))
                (λ m. has_key m.0 s.tx_map ≡ true) t.members (λ m k. k.0) p;
          joined = q;
        })
        h.members_known h.members_joined;
}

-- What an account is before a change.
pub find_account-before :
    (i j : ℕ) (f : Account → Account) (b : Account) (xs : List Account)
    → ((a : Account) → (f a).id ≡ a.id)
    → find_account i (update_account j f xs) ≡ some b
    → (a : Account) × (find_account i xs ≡ some a) × ((b ≡ a) ⊎ (b ≡ f a))
unfolding find_account update_account
find_account-before i j f b [] k e = absurd (cc e)
find_account-before i j f b (a ∷ xs) k e = elim (Bool-cases (a.id == j)) [
  | inl hit ↦ elim (Bool-cases (a.id == i)) [
    | inl here ↦
        rw here (a, refl, inr (sym (some_inj (rw (hit, ap (λ n. n == i) (k a) ∙ here) at e))))
    | inr there ↦ rw there (b, rw (hit, ap (λ n. n == i) (k a) ∙ there) at e, inl refl)
  ]
  | inr miss ↦ elim (Bool-cases (a.id == i)) [
    | inl here ↦ rw here (a, refl, inl (sym (some_inj (rw (miss, here) at e))))
    | inr there ↦ rw there (find_account-before i j f b xs k (rw (miss, there) at e))
  ]
]

All-update_account :
    (P : Account → Type 0) (i : ℕ) (f : Account → Account) (xs : List Account)
    → ((a : Account) → P a → P (f a))
    → All P xs
    → All P (update_account i f xs)
unfolding update_account
All-update_account P i f [] k h = tt
All-update_account P i f (a ∷ xs) k h = elim (Bool-cases (a.id == i)) [
  | inl e ↦ rw e (k a h.0, h.1)
  | inr e ↦ rw e (h.0, All-update_account P i f xs k h.1)
]

-- A change of an account that fits and loses no topic.
pub record IsMild (f : Account → Account) : Type 0 where
  pub same_id : (a : Account) → (f a).id ≡ a.id
  pub fits : (a : Account) → Fits a → Fits (f a)
  pub stays : (a : Account) (key : Str) → joined_topic key a ≡ true → joined_topic key (f a) ≡ true

pub Sound-account :
    (i : ℕ) (f : Account → Account) (xs : List Account) (c : ℕ) (ks : List Str) (ts : List Topic)
    (d : List (Str × ℕ))
    → IsMild f
    → Sound xs c ks ts d
    → Sound (update_account i f xs) c ks ts d
Sound-account i f xs c ks ts d m h = record {
  accounts_fit = update_account-Fits i f xs m.fits h.accounts_fit;
  ids_below =
      All-update_account (λ a. a.id ≤ c) i f xs (λ a p. subst (λ n. n ≤ c) (sym (m.same_id a)) p)
        h.ids_below;
  topics_fit = h.topics_fit;
  topics_found = h.topics_found;
  members_known = h.members_known;
  members_joined =
      All-map (HaveJoined xs) (HaveJoined (update_account i f xs))
        (λ t p j b e q.
          let (a, before, same) = find_account-before j i f b xs m.same_id e in
          elim same [
            | inl r ↦ subst (λ z. joined_topic t.key z ≡ true) (sym r) (p j a before q)
            | inr r ↦
                subst (λ z. joined_topic t.key z ≡ true) (sym r) (m.stays a t.key (p j a before q))
          ])
        ts h.members_joined;
}

-- A change of a topic that keeps its key and members.
pub record IsGentle (f : Topic → Topic) : Type 0 where
  pub same_key : (t : Topic) → (f t).key ≡ t.key
  pub same_members : (t : Topic) → (f t).members ≡ t.members
  pub fits : (t : Topic) → TopicFits t → TopicFits (f t)

All-update_topic :
    (P : Topic → Type 0) (key : Str) (f : Topic → Topic) (ts : List Topic)
    → ((t : Topic) → P t → P (f t))
    → All P ts
    → All P (update_topic key f ts)
unfolding update_topic
All-update_topic P key f [] k h = tt
All-update_topic P key f (t ∷ ts) k h = elim (Bool-cases (str_eq t.key key)) [
  | inl e ↦ rw e (k t h.0, h.1)
  | inr e ↦ rw e (h.0, All-update_topic P key f ts k h.1)
]

pub still_found :
    (k key : Str) (f : Topic → Topic) (ts : List Topic)
    → ((t : Topic) → (f t).key ≡ t.key)
    → is_none (find_topic k (update_topic key f ts)) ≡ is_none (find_topic k ts)
unfolding find_topic update_topic
still_found k key f [] s = refl
still_found k key f (t ∷ ts) s = elim (Bool-cases (str_eq t.key key)) [
  | inl hit ↦ elim (Bool-cases (str_eq t.key k)) [
    | inl here ↦ rw (hit, ap (λ z. str_eq z k) (s t) ∙ here, here) refl
    | inr there ↦ rw (hit, ap (λ z. str_eq z k) (s t) ∙ there, there) refl
  ]
  | inr miss ↦ elim (Bool-cases (str_eq t.key k)) [
    | inl here ↦ rw (miss, here) refl
    | inr there ↦ rw (miss, there) (still_found k key f ts s)
  ]
]

pub Sound-topic :
    (key : Str) (f : Topic → Topic) (xs : List Account) (c : ℕ) (ks : List Str) (ts : List Topic)
    (d : List (Str × ℕ))
    → IsGentle f
    → Sound xs c ks ts d
    → Sound xs c ks (update_topic key f ts) d
Sound-topic key f xs c ks ts d g h = record {
  accounts_fit = h.accounts_fit;
  ids_below = h.ids_below;
  topics_fit = All-update_topic TopicFits key f ts g.fits h.topics_fit;
  topics_found = λ k p. still_found k key f ts g.same_key ∙ h.topics_found k p;
  members_known =
      All-update_topic (AreKnown d c) key f ts
        (λ t p. subst (All (λ m. (has_key m.0 d ≡ true) × (m.1 ≤ c))) (sym (g.same_members t)) p)
        h.members_known;
  members_joined =
      All-update_topic (HaveJoined xs) key f ts
        (λ t p i a e q.
          ap (λ k. joined_topic k a) (g.same_key t)
          ∙ p i a e (ap (is_member i) (sym (g.same_members t)) ∙ q))
        h.members_joined;
}
