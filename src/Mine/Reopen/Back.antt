-- ===== src/Mine/Reopen/Back.antt =====
-- The loop that puts the topics back undoes the loop in which they expired.
use askcoin_core.Base.{
  u64_mod, ℕ, ◌≡◌, ◌<◌, refl, ap, sym, subst, ◌∙◌, true, false, Option, none, some, List, [], ◌∷◌,
  Run, ok, exit, ltb, if◌then◌else◌, All, Bool-cases, inl, inr, ◌==◌,
}
use askcoin_core.Base.Text.{Str, str_eq, str_eq_iff}
use askcoin_core.Base.Dict.{contains, insert, erase, str_key}
use askcoin_core.Account.{Account, leave_topic}
use askcoin_core.Topic.{Topic}
use askcoin_core.Ledger.{Ledger, find_account, reserve}
use askcoin_core.Ledger.Expiry.{pop_topic, expire_topic}
use askcoin_core.Mine.Writes.{Fits, unshift}
use askcoin_core.Mine.Restore.{Sees-update_account}
use askcoin_core.Mine.Reopen.{relist_topic, rejoin, reopen_topic, reopen_topics}
use askcoin_core.Mine.Reopen.Like.{
  IsLike-id, AreLike, AreLike-refl, AreLike-trans, Respects, update_account-AreLike,
}
use askcoin_core.Mine.Reopen.Sweep.{sweep-AreLike, Sees-sweep, rejoin-Respects, AreMembers}
use askcoin_core.Mine.Reopen.Topics.{
  gave, took, closed, opened, close, open_again, IsThere, Closed, expire_topic-ok, reopen_topic-ok,
  Sees-gave, opened-closed,
}

-- The accounts and topics are what they were, up to the order of the topics that an account joined, of the set of
-- topics, and of the accounts by wealth.
pub record Reopened (s w : Ledger) : Type 0 where
  pub accounts : AreLike s.accounts w.accounts
  pub topics : (key : Str) → contains key w.topics ≡ contains key s.topics
  pub topic_list : w.topic_list ≡ s.topic_list
  pub by_pubkey : w.by_pubkey ≡ s.by_pubkey
  pub names : w.names ≡ s.names
  pub cur_account_id : w.cur_account_id ≡ s.cur_account_id
  pub miner_pubkeys : w.miner_pubkeys ≡ s.miner_pubkeys

pub Reopened-refl : (s : Ledger) → Reopened s s
Reopened-refl s = record {
  accounts = AreLike-refl s.accounts;
  topics = λ key. refl;
  topic_list = refl;
  by_pubkey = refl;
  names = refl;
  cur_account_id = refl;
  miner_pubkeys = refl;
}

pub Reopened-trans : (s u w : Ledger) → Reopened s u → Reopened u w → Reopened s w
Reopened-trans s u w p q = record {
  accounts = AreLike-trans s.accounts u.accounts w.accounts p.accounts q.accounts;
  topics = λ key. q.topics key ∙ p.topics key;
  topic_list = q.topic_list ∙ p.topic_list;
  by_pubkey = q.by_pubkey ∙ p.by_pubkey;
  names = q.names ∙ p.names;
  cur_account_id = q.cur_account_id ∙ p.cur_account_id;
  miner_pubkeys = q.miner_pubkeys ∙ p.miner_pubkeys;
}

-- A topic of the list that can go and come back.
pub record IsReady (s : Ledger) (t : Topic) : Type 0 where
  pub listed : contains t.key s.topics ≡ true
  pub small : t.balance < u64_mod
  pub members : AreMembers t.key t.members s.accounts

-- The topics have different keys.
abbrev pub AreApart : List Topic → Type 0
AreApart [] = Unit
AreApart (t ∷ ts) = All (λ u. str_eq t.key u.key ≡ false) ts × AreApart ts

pub contains-erase :
    (k x : Str) (ks : List Str) → str_eq k x ≡ false → contains k (erase x ks) ≡ contains k ks
contains-erase k x [] d = refl
contains-erase k x (y ∷ ks) d = elim (Bool-cases (str_eq x y)) [
  | inl hit ↦
      let other : str_eq k y ≡ false = ap (str_eq k) (sym ((str_eq_iff x y).0 hit)) ∙ d in
      rw (hit, other) refl
  | inr miss ↦ rw miss (elim (Bool-cases (str_eq k y)) [
    | inl e ↦ rw e refl
    | inr e ↦ rw e (contains-erase k x ks d)
  ])
]

pub contains-insert :
    (k x : Str) (ks : List Str)
    → contains k (insert x ks) ≡ (if str_eq k x then true else contains k ks)
contains-insert k x ks = elim (Bool-cases (contains x ks)) [
  | inl old ↦ rw old (elim (Bool-cases (str_eq k x)) [
    | inl e ↦ rw e (subst (λ z. contains z ks ≡ true) (sym ((str_eq_iff k x).0 e)) old)
    | inr e ↦ rw e refl
  ])
  | inr new ↦ rw new refl
]

-- A key that was in the set is there again.
again_in :
    (k x : Str) (ks : List Str)
    → contains x ks ≡ true
    → contains k (insert x (erase x ks)) ≡ contains k ks
again_in k x ks h = contains-insert k x (erase x ks) ∙ elim (Bool-cases (str_eq k x)) [
  | inl e ↦ rw e (sym (subst (λ z. contains z ks ≡ true) (sym ((str_eq_iff k x).0 e)) h))
  | inr e ↦ rw e (contains-erase k x ks e)
]

-- A topic that goes and comes back.
pub reopen_topic-expire_topic :
    (t : Topic) (ts : List Topic) (s u : Ledger)
    → s.topic_list ≡ t ∷ ts
    → All Fits s.accounts
    → IsReady s t
    → expire_topic t ts s ≡ ok u
    → (w : Ledger) × (reopen_topic t u ≡ ok w) × Reopened s w
unfolding leave_topic
reopen_topic-expire_topic t ts s u e fit r ran =
    let (first, same) : Closed t ts s u = expire_topic-ok t ts s u ran in
    let there : IsThere t.owner (closed t s.accounts) =
      Sees-sweep (λ a. true) t.owner true (leave_topic t.key) t.members _ (λ a. refl) (λ a. refl)
        (Sees-update_account (λ a. true) t.owner t.owner true pop_topic (gave t.balance s.accounts)
          (λ a. refl) (λ a. refl)
          (Sees-gave (λ a. true) t.owner t.balance true s.accounts (λ a. refl)
            (first.0, first.1, refl))) in
    let (rich, done) = reopen_topic-ok t (close t ts u.rich s) there in
    (
      open_again t rich (close t ts u.rich s),
      ap (reopen_topic t) same ∙ done,
      record {
        accounts = opened-closed t s.accounts r.small fit r.members first;
        topics = λ key. again_in key t.key s.topics r.listed;
        topic_list = sym e;
        by_pubkey = refl;
        names = refl;
        cur_account_id = refl;
        miner_pubkeys = refl;
      },
    )

-- The loop does not tell ledgers apart that differ in those orders.
relist_topic-Respects : (key : Str) → Respects (relist_topic key)
relist_topic-Respects key a b p = record {
  others = ap (relist_topic key) p.others;
  joined = p.joined;
}

unshift-Respects : (v : ℕ) → Respects (unshift v)
unshift-Respects v a b p = record { others = ap (unshift v) p.others; joined = p.joined }

opened-AreLike :
    (t : Topic) (xs ys : List Account) → AreLike xs ys → AreLike (opened t xs) (opened t ys)
opened-AreLike t xs ys h = sweep-AreLike (rejoin t.key) t.members _ _ (rejoin-Respects t.key) (
    paid _ _
      (update_account-AreLike t.owner (relist_topic t.key) xs ys (relist_topic-Respects t.key) h))
  where
    paid : (qs bs : List Account) → AreLike qs bs → AreLike (took t.balance qs) (took t.balance bs)
    paid qs bs k = elim (Bool-cases (ltb 0 t.balance)) [
      | inl e ↦
          rw e (
            update_account-AreLike reserve (unshift t.balance) qs bs (unshift-Respects t.balance) k)
      | inr e ↦ rw e k
    ]

IsThere-AreLike : (i : ℕ) (xs ys : List Account) → AreLike xs ys → IsThere i xs → IsThere i ys
unfolding find_account
IsThere-AreLike i [] [] h k = k
IsThere-AreLike i [] (b ∷ ys) h k = absurd h
IsThere-AreLike i (a ∷ xs) [] h k = absurd h
IsThere-AreLike i (a ∷ xs) (b ∷ ys) h (c, f, k) = elim (Bool-cases (a.id == i)) [
  | inl hit ↦ rw (ap (λ n. n == i) (IsLike-id a b h.0) ∙ hit) (b, refl, refl)
  | inr miss ↦
      rw (ap (λ n. n == i) (IsLike-id a b h.0) ∙ miss)
        (IsThere-AreLike i xs ys h.1 (c, rw miss at f, refl))
]

-- A topic comes back where its owner is there.
pub reopen_topic-IsThere :
    (t : Topic) (s w : Ledger) → reopen_topic t s ≡ ok w → IsThere t.owner s.accounts
unfolding reopen_topic
reopen_topic-IsThere t s w e = of_owner (find_account t.owner s.accounts) refl
  where
    of_owner :
        (o : Option Account) → find_account t.owner s.accounts ≡ o → IsThere t.owner s.accounts
    of_owner none f = absurd (cc (rw f at e))
    of_owner (some a) f = (a, f, refl)

opened-Reopened :
    (t : Topic) (s u : Ledger) (p q : List ℕ)
    → Reopened s u
    → Reopened (open_again t p s) (open_again t q u)
opened-Reopened t s u p q h = record {
  accounts = opened-AreLike t s.accounts u.accounts h.accounts;
  topics = λ key.
      contains-insert key t.key u.topics
      ∙ ap (λ b. if str_eq key t.key then true else b) (h.topics key)
      ∙ sym (contains-insert key t.key s.topics);
  topic_list = ap (λ ts. t ∷ ts) h.topic_list;
  by_pubkey = h.by_pubkey;
  names = h.names;
  cur_account_id = h.cur_account_id;
  miner_pubkeys = h.miner_pubkeys;
}

reopen_topic-Reopened :
    (t : Topic) (s u w : Ledger)
    → Reopened s u
    → reopen_topic t s ≡ ok w
    → (v : Ledger) × (reopen_topic t u ≡ ok v) × Reopened w v
reopen_topic-Reopened t s u w h e =
    let there = reopen_topic-IsThere t s w e in
    let (p, done) = reopen_topic-ok t s there in
    let (q, also) =
      reopen_topic-ok t u (IsThere-AreLike t.owner s.accounts u.accounts h.accounts there) in
    let same : open_again t p s ≡ w = cc (done, e) in
    (
      open_again t q u,
      also,
      subst (λ z. Reopened z (open_again t q u)) same (opened-Reopened t s u p q h),
    )

pub reopen_topics-Reopened :
    (ts : List Topic) (s u w : Ledger)
    → Reopened s u
    → reopen_topics ts s ≡ ok w
    → (v : Ledger) × (reopen_topics ts u ≡ ok v) × Reopened w v
unfolding reopen_topics
reopen_topics-Reopened [] s u w h e = (u, refl, subst (λ z. Reopened z u) (cc e) h)
reopen_topics-Reopened (t ∷ ts) s u w h e =
    of_run (reopen_topic t s) refl (reopen_topics-Reopened ts)
  where
    of_run :
        (m : Run Ledger)
        → reopen_topic t s ≡ m
        → ((x y z : Ledger)
            → Reopened x y
            → reopen_topics ts x ≡ ok z
            → (v : Ledger) × (reopen_topics ts y ≡ ok v) × Reopened z v)
        → (v : Ledger) × (reopen_topics (t ∷ ts) u ≡ ok v) × Reopened w v
    of_run exit f rest = absurd (cc (rw f at e))
    of_run (ok z) f rest =
        let (y, g, k) = reopen_topic-Reopened t s u z h f in
        let (v, done, back) = rest z y w k (rw f at e) in (v, (rw g done), back)
