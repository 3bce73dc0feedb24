-- ===== src/Mine/Sound/Growth.antt =====
-- A new topic, a new account, and a new transaction.
use askcoin_core.Base.{
  ℕ, ◌≡◌, ◌≤◌, ◌<◌, refl, sym, ◌∙◌, true, false, some, List, [], ◌∷◌, ◌++◌, All, All-map,
  All-append, Bool-cases, inl, inr, ◌⊎◌, ◌==◌, arith,
}
use askcoin_core.Base.Text.{Str, str_eq, str_eq_iff}
use askcoin_core.Base.Dict.{insert, has_key, insert_entry, str_key}
use askcoin_core.Account.{Account}
use askcoin_core.Topic.{Topic, is_member}
use askcoin_core.Ledger.{find_account, find_topic}
use askcoin_core.Ledger.Tx.Register.{is_none}
use askcoin_core.Mine.Writes.{Fits}
use askcoin_core.Mine.Restore.{TopicFits}
use askcoin_core.Mine.Reopen.Back.{contains-insert}
use askcoin_core.Mine.Sound.{AreKnown, HaveJoined, Sound}

found_at_end :
    (k : Str) (t : Topic) (ts : List Topic)
    → (is_none (find_topic k ts) ≡ false) ⊎ (str_eq t.key k ≡ true)
    → is_none (find_topic k (ts ++ t ∷ [])) ≡ false
unfolding find_topic
found_at_end k t [] (inl h) = absurd (cc h)
found_at_end k t [] (inr h) = rw h refl
found_at_end k t (u ∷ ts) h = elim (Bool-cases (str_eq u.key k)) [
  | inl hit ↦ rw hit refl
  | inr miss ↦ rw miss (found_at_end k t ts (elim h [ inl p ↦ inl (rw miss at p) | inr q ↦ inr q ]))
]

pub Sound-open :
    (t : Topic) (xs : List Account) (c : ℕ) (ks : List Str) (ts : List Topic) (d : List (Str × ℕ))
    → TopicFits t
    → AreKnown d c t
    → HaveJoined xs t
    → Sound xs c ks ts d
    → Sound xs c (insert t.key ks) (ts ++ t ∷ []) d
Sound-open t xs c ks ts d fit known joined h = record {
  accounts_fit = h.accounts_fit;
  ids_below = h.ids_below;
  topics_fit = All-append TopicFits ts (t ∷ []) h.topics_fit (fit, tt);
  topics_found = λ k p. found_at_end k t ts (elim (Bool-cases (str_eq k t.key)) [
    | inl e ↦ inr ((str_eq_iff t.key k).1 (sym ((str_eq_iff k t.key).0 e)))
    | inr e ↦ inl (h.topics_found k (rw e at (sym (contains-insert k t.key ks) ∙ p)))
  ]);
  members_known = All-append (AreKnown d c) ts (t ∷ []) h.members_known (known, tt);
  members_joined = All-append (HaveJoined xs) ts (t ∷ []) h.members_joined (joined, tt);
}

not_yet_member :
    (i c : ℕ) (d ms : List (Str × ℕ))
    → c < i
    → All (λ m. (has_key m.0 d ≡ true) × (m.1 ≤ c)) ms
    → is_member i ms ≡ false
unfolding is_member
not_yet_member i c d [] b h = refl
not_yet_member i c d ((tx, a) ∷ ms) b h =
    let other : (a == i) ≡ false = ground (arith, h.0.1, b) in
    rw other (not_yet_member i c d ms b h.1)

find_account-append :
    (i : ℕ) (a b : Account) (xs : List Account)
    → find_account i (xs ++ b ∷ []) ≡ some a
    → (find_account i xs ≡ some a) ⊎ (b.id ≡ i)
unfolding find_account
find_account-append i a b [] e = elim (Bool-cases (b.id == i)) [
  | inl hit ↦ inr (ground (arith, hit))
  | inr miss ↦ absurd (cc (rw miss at e))
]
find_account-append i a b (x ∷ xs) e = elim (Bool-cases (x.id == i)) [
  | inl hit ↦ inl (rw hit (rw hit at e))
  | inr miss ↦ rw miss (find_account-append i a b xs (rw miss at e))
]

pub Sound-newcomer :
    (b : Account) (xs : List Account) (c : ℕ) (ks : List Str) (ts : List Topic) (d : List (Str × ℕ))
    → Fits b
    → c < b.id
    → Sound xs c ks ts d
    → Sound (xs ++ b ∷ []) b.id ks ts d
Sound-newcomer b xs c ks ts d fit new h = record {
  accounts_fit = All-append Fits xs (b ∷ []) h.accounts_fit (fit, tt);
  ids_below =
      All-append (λ a. a.id ≤ b.id) xs (b ∷ [])
        (All-map (λ a. a.id ≤ c) (λ a. a.id ≤ b.id) (λ a p. omega (arith, p, new)) xs h.ids_below)
        (omega arith, tt);
  topics_fit = h.topics_fit;
  topics_found = h.topics_found;
  members_known =
      All-map (AreKnown d c) (AreKnown d b.id)
        (λ t p.
          All-map (λ m. (has_key m.0 d ≡ true) × (m.1 ≤ c))
            (λ m. (has_key m.0 d ≡ true) × (m.1 ≤ b.id)) (λ m q. (q.0, omega (arith, q.1, new)))
            t.members p)
        ts h.members_known;
  members_joined = both ts h.members_known h.members_joined;
}
  where
    both :
        (us : List Topic)
        → All (AreKnown d c) us
        → All (HaveJoined xs) us
        → All (HaveJoined (xs ++ b ∷ [])) us
    both [] p q = tt
    both (t ∷ us) p q = (
      (λ i a e m. elim (find_account-append i a b xs e) [
        | inl old ↦ q.0 i a old m
        | inr last ↦ absurd (cc (not_yet_member i c d t.members (omega (arith, last, new)) p.0, m))
      ]),
      both us p.1 q.1,
    )

pub Sound-later :
    (xs : List Account) (c : ℕ) (ks : List Str) (ts : List Topic) (d e : List (Str × ℕ))
    → ((k : Str) → has_key k d ≡ true → has_key k e ≡ true)
    → Sound xs c ks ts d
    → Sound xs c ks ts e
Sound-later xs c ks ts d e f h = record {
  accounts_fit = h.accounts_fit;
  ids_below = h.ids_below;
  topics_fit = h.topics_fit;
  topics_found = h.topics_found;
  members_known =
      All-map (AreKnown d c) (AreKnown e c)
        (λ t p.
          All-map (λ m. (has_key m.0 d ≡ true) × (m.1 ≤ c))
            (λ m. (has_key m.0 e ≡ true) × (m.1 ≤ c)) (λ m q. (f m.0 q.0, q.1)) t.members p)
        ts h.members_known;
  members_joined = h.members_joined;
}

-- The transaction is known then, and all others still are.
pub has_key-insert_entry :
    (x : Str) (v : ℕ) (d : List (Str × ℕ)) → has_key x (insert_entry x v d) ≡ true
has_key-insert_entry x v d = elim (Bool-cases (has_key x d)) [
  | inl old ↦ rw (old, old) refl
  | inr new ↦ rw new (rw (has_key, (str_eq_iff x x).1 refl) refl)
]

pub has_key_still :
    (x k : Str) (v : ℕ) (d : List (Str × ℕ))
    → has_key k d ≡ true
    → has_key k (insert_entry x v d) ≡ true
has_key_still x k v d h = elim (Bool-cases (has_key x d)) [
  | inl old ↦ rw old h
  | inr new ↦
      rw new (elim (Bool-cases (str_eq k x)) [
        | inl e ↦ rw (has_key, e) refl
        | inr e ↦ rw (has_key, e) h
      ])
]
