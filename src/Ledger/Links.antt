-- ===== src/Ledger/Links.antt =====
-- The pointers between accounts and topics, which lead to objects that are there, through the
-- changes of the ledger.
use askcoin_core.Base.{
  ℕ, ◌≡◌, refl, sym, ◌∙◌, subst, true, Option, none, some, List, [], ◌∷◌, arith, ◌==◌, All, All-map,
  Bool-cases, some_inj, inl, inr,
}
use askcoin_core.Base.Text.{Str, str_eq}
use askcoin_core.Base.Dict.{All-lookup, str_key}
use askcoin_core.Account.{Account}
use askcoin_core.Topic.{Topic, Reply, find_reply, get_reply, update_reply}
use askcoin_core.Ledger.{
  Ledger, find_account, update_account, put_balance, set_balance, add_balance, sub_balance,
  edit_account, find_topic, update_topic, edit_topic, get_account, get_topic, reserve,
}
use askcoin_core.Ledger.Balance.{has_account, has_account-update_account}

-- The account `i` is there.
abbrev pub IsAccount : List Account → ℕ → Type 0
IsAccount xs i = has_account i xs ≡ true

-- A referrer, if any, is there.
abbrev pub IsReferrer : List Account → Option ℕ → Type 0
IsReferrer xs none = Unit
IsReferrer xs (some i) = IsAccount xs i

abbrev pub OwnersKnown : List Account → Topic → Type 0
OwnersKnown xs t = All (λ r. IsAccount xs r.owner) t.reply_list

pub record IsLinked (s : Ledger) : Type 0 where
  pub reserve_known : IsAccount s.accounts reserve
  pub pubkeys_known : All (λ e. IsAccount s.accounts e.1) s.by_pubkey
  pub referrers_known : All (λ a. IsReferrer s.accounts a.referrer) s.accounts
  pub owners_known : All (OwnersKnown s.accounts) s.topic_list

-- Every account of `xs` is one of `ys`.
abbrev pub Grows : List Account → List Account → Type 0
Grows xs ys = (i : ℕ) → IsAccount xs i → IsAccount ys i

pub IsReferrer-mono :
    (xs ys : List Account) (r : Option ℕ) → Grows xs ys → IsReferrer xs r → IsReferrer ys r
IsReferrer-mono xs ys none g h = tt
IsReferrer-mono xs ys (some i) g h = g i h

pub OwnersKnown-mono :
    (xs ys : List Account) (t : Topic) → Grows xs ys → OwnersKnown xs t → OwnersKnown ys t
OwnersKnown-mono xs ys t g h =
    All-map (λ r. IsAccount xs r.owner) (λ r. IsAccount ys r.owner) (λ r. g r.owner) t.reply_list h

-- A write to an account that leaves its id and its referrer alone.
abbrev pub KeepsLinks : (Account → Account) → Type 0
KeepsLinks f = (a : Account) → ((f a).id ≡ a.id) × ((f a).referrer ≡ a.referrer)

referrers-update_account :
    (ks : List Account) (i : ℕ) (f : Account → Account) (xs : List Account)
    → KeepsLinks f
    → All (λ a. IsReferrer ks a.referrer) xs
    → All (λ a. IsReferrer ks a.referrer) (update_account i f xs)
unfolding update_account
referrers-update_account ks i f [] k h = tt
referrers-update_account ks i f (a ∷ xs) k h =
    ground
      (arith, referrers-update_account ks i f xs k h.1, subst (IsReferrer ks) (sym (k a).1) h.0)

pub update_account-Grows :
    (i : ℕ) (f : Account → Account) (xs : List Account)
    → KeepsLinks f
    → Grows xs (update_account i f xs)
update_account-Grows i f xs k j h = has_account-update_account i j f xs (λ a. (k a).0) ∙ h

-- The links survive such a write.
pub update_account-IsLinked :
    (i : ℕ) (f : Account → Account) (s : Ledger) (rich : List ℕ)
    → KeepsLinks f
    → IsLinked s
    → IsLinked (record s { accounts = update_account i f s.accounts; rich = rich })
update_account-IsLinked i f s rich k l =
    let g : Grows s.accounts (update_account i f s.accounts) =
      update_account-Grows i f s.accounts k in
    record {
      reserve_known = g reserve l.reserve_known;
      pubkeys_known =
          All-map (λ e. IsAccount s.accounts e.1)
            (λ e. IsAccount (update_account i f s.accounts) e.1) (λ e. g e.1) s.by_pubkey
            l.pubkeys_known;
      referrers_known =
          All-map (λ a. IsReferrer s.accounts a.referrer)
            (λ a. IsReferrer (update_account i f s.accounts) a.referrer)
            (λ a. IsReferrer-mono s.accounts _ a.referrer g) _
            (referrers-update_account s.accounts i f s.accounts k l.referrers_known);
      owners_known =
          All-map (OwnersKnown s.accounts) (OwnersKnown (update_account i f s.accounts))
            (λ t. OwnersKnown-mono s.accounts _ t g) s.topic_list l.owners_known;
    }

put_balance-keeps : (v : ℕ) → KeepsLinks (put_balance v)
put_balance-keeps v a = (refl, refl)

pub set_balance-IsLinked : (i v : ℕ) (s : Ledger) → IsLinked s → IsLinked (set_balance i v s)
unfolding set_balance
set_balance-IsLinked i v s l = update_account-IsLinked i (put_balance v) s _ (put_balance-keeps v) l

pub add_balance-IsLinked : (i v : ℕ) (s : Ledger) → IsLinked s → IsLinked (add_balance i v s)
unfolding add_balance
add_balance-IsLinked i v s l = set_balance-IsLinked i _ s l

pub sub_balance-IsLinked : (i v : ℕ) (s : Ledger) → IsLinked s → IsLinked (sub_balance i v s)
unfolding sub_balance
sub_balance-IsLinked i v s l = set_balance-IsLinked i _ s l

pub edit_account-IsLinked :
    (i : ℕ) (f : Account → Account) (s : Ledger)
    → KeepsLinks f
    → IsLinked s
    → IsLinked (edit_account i f s)
unfolding edit_account
edit_account-IsLinked i f s k l = update_account-IsLinked i f s s.rich k l

pub set_balance-Grows : (i v : ℕ) (s : Ledger) → Grows s.accounts (set_balance i v s).accounts
unfolding set_balance
set_balance-Grows i v s = update_account-Grows i (put_balance v) s.accounts (put_balance-keeps v)

owners-update_topic :
    (ks : List Account) (key : Str) (f : Topic → Topic) (ts : List Topic)
    → ((t : Topic) → OwnersKnown ks t → OwnersKnown ks (f t))
    → All (OwnersKnown ks) ts
    → All (OwnersKnown ks) (update_topic key f ts)
unfolding update_topic
owners-update_topic ks key f [] k h = tt
owners-update_topic ks key f (t ∷ ts) k h = elim (Bool-cases (str_eq t.key key)) [
  | inl e ↦ rw e (k t h.0, h.1)
  | inr e ↦ rw e (h.0, owners-update_topic ks key f ts k h.1)
]

pub edit_topic-IsLinked :
    (key : Str) (f : Topic → Topic) (s : Ledger)
    → ((t : Topic) → OwnersKnown s.accounts t → OwnersKnown s.accounts (f t))
    → IsLinked s
    → IsLinked (edit_topic key f s)
unfolding edit_topic
edit_topic-IsLinked key f s k l = record {
  reserve_known = l.reserve_known;
  pubkeys_known = l.pubkeys_known;
  referrers_known = l.referrers_known;
  owners_known = owners-update_topic s.accounts key f s.topic_list k l.owners_known;
}

-- What a lookup finds is there.
pub get_account-known :
    (s : Ledger) (pubkey : Str) (i : ℕ)
    → IsLinked s
    → get_account pubkey s ≡ some i
    → IsAccount s.accounts i
unfolding get_account
get_account-known s pubkey i l e =
    All-lookup (IsAccount s.accounts) pubkey i s.by_pubkey l.pubkeys_known e

pub find_account-referrer :
    (ks : List Account) (i : ℕ) (a : Account) (xs : List Account)
    → All (λ a. IsReferrer ks a.referrer) xs
    → find_account i xs ≡ some a
    → IsReferrer ks a.referrer
unfolding find_account
find_account-referrer ks i a [] h e = cc
find_account-referrer ks i a (x ∷ xs) h e = elim (Bool-cases (x.id == i)) [
  | inl hit ↦ subst (λ b. IsReferrer ks b.referrer) (some_inj (rw hit at e)) h.0
  | inr miss ↦ find_account-referrer ks i a xs h.1 (rw miss at e)
]

pub find_topic-owners :
    (ks : List Account) (key : Str) (t : Topic) (ts : List Topic)
    → All (OwnersKnown ks) ts
    → find_topic key ts ≡ some t
    → OwnersKnown ks t
unfolding find_topic
find_topic-owners ks key t [] h e = cc
find_topic-owners ks key t (u ∷ ts) h e = elim (Bool-cases (str_eq u.key key)) [
  | inl hit ↦ subst (OwnersKnown ks) (some_inj (rw hit at e)) h.0
  | inr miss ↦ find_topic-owners ks key t ts h.1 (rw miss at e)
]

pub get_topic-found :
    (key : Str) (t : Topic) (s : Ledger)
    → get_topic key s ≡ some t
    → find_topic key s.topic_list ≡ some t
unfolding get_topic
get_topic-found key t s e = ground arith

find_reply-owner :
    (ks : List Account) (key : Str) (r : Reply) (rs : List Reply)
    → All (λ q. IsAccount ks q.owner) rs
    → find_reply key rs ≡ some r
    → IsAccount ks r.owner
unfolding find_reply
find_reply-owner ks key r [] h e = cc
find_reply-owner ks key r (q ∷ rs) h e = elim (Bool-cases (str_eq q.key key)) [
  | inl hit ↦ subst (λ p. IsAccount ks p.owner) (some_inj (rw hit at e)) h.0
  | inr miss ↦ find_reply-owner ks key r rs h.1 (rw miss at e)
]

-- The owner of a reply of a live topic is there.
pub get_reply-owner :
    (s : Ledger) (topic_key key : Str) (t : Topic) (r : Reply)
    → IsLinked s
    → get_topic topic_key s ≡ some t
    → get_reply key t ≡ some r
    → IsAccount s.accounts r.owner
unfolding get_reply
get_reply-owner s topic_key key t r l e f =
    find_reply-owner s.accounts key r t.reply_list
      (find_topic-owners s.accounts topic_key t s.topic_list l.owners_known
        (get_topic-found topic_key t s e))
      f

-- A write to a reply that leaves its owner alone.
pub update_reply-owners :
    (ks : List Account) (key : Str) (f : Reply → Reply) (rs : List Reply)
    → ((r : Reply) → (f r).owner ≡ r.owner)
    → All (λ q. IsAccount ks q.owner) rs
    → All (λ q. IsAccount ks q.owner) (update_reply key f rs)
unfolding update_reply
update_reply-owners ks key f [] k h = tt
update_reply-owners ks key f (q ∷ rs) k h =
    ground (arith, update_reply-owners ks key f rs k h.1, subst (IsAccount ks) (sym (k q)) h.0)

-- A pointer to an account that is there leads to an object.
pub find_account-found :
    (i : ℕ) (xs : List Account) → IsAccount xs i → (a : Account) × (find_account i xs ≡ some a)
unfolding find_account
find_account-found i [] h = cc
find_account-found i (a ∷ xs) h = elim (Bool-cases (a.id == i)) [
  | inl hit ↦ (a, rw hit refl)
  | inr miss ↦
      let r : (b : Account) × (find_account i xs ≡ some b) =
        find_account-found i xs (rw miss at h) in
      (r.0, rw miss r.1)
]
