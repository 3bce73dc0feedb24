-- ===== src/Mine/Reopen/Rounds.antt =====
-- Any number of topics that expire and are put back.
use askcoin_core.Base.{
  ℕ, ◌+◌, ◌≡◌, refl, ap, sym, subst, ◌∙◌, false, List, [], ◌∷◌, Run, ok, exit, ◌>>=◌, ltb, All,
  Bool-cases, inl, inr, arith,
}
use askcoin_core.Base.Text.{Str, str_eq, str_eq_iff}
use askcoin_core.Base.Dict.{str_key}
use askcoin_core.Account.{Account, topic_life_time, leave_topic, joined_topic}
use askcoin_core.Topic.{Topic}
use askcoin_core.Ledger.{Ledger, update_account, reserve}
use askcoin_core.Ledger.Expiry.{pop_topic, expire_topic, expire_topics}
use askcoin_core.Mine.Writes.{Fits, shift, update_account-Fits}
use askcoin_core.Mine.Reopen.{reopen_topics}
use askcoin_core.Mine.Reopen.Sweep.{sweep, AreMembers, joined_other, AreMembers-update}
use askcoin_core.Mine.Reopen.Topics.{gave, expire_topic-ok}
use askcoin_core.Mine.Reopen.Back.{
  Reopened, Reopened-refl, Reopened-trans, IsReady, AreApart, contains-erase,
  reopen_topic-expire_topic, reopen_topics-Reopened,
}

-- The expiry of a topic, and what is known of other topics.
AreMembers-sweep :
    (key k : Str) (js ms : List (Str × ℕ)) (xs : List Account)
    → str_eq k key ≡ false
    → AreMembers key ms xs
    → AreMembers key ms (sweep (leave_topic k) js xs)
AreMembers-sweep key k [] ms xs d h = h
AreMembers-sweep key k ((tx, a) ∷ js) ms xs d h =
    AreMembers-sweep key k js ms (update_account a (leave_topic k) xs) d (
      AreMembers-update key a (leave_topic k) ms xs (λ b. unfold leave_topic in refl)
        (λ b. joined_other key k b d) h)

AreMembers-gave :
    (key : Str) (v : ℕ) (ms : List (Str × ℕ)) (xs : List Account)
    → AreMembers key ms xs
    → AreMembers key ms (gave v xs)
unfolding joined_topic
AreMembers-gave key v ms xs h = elim (Bool-cases (ltb 0 v)) [
  | inl e ↦ rw e (AreMembers-update key reserve (shift v) ms xs (λ a. refl) (λ a. refl) h)
  | inr e ↦ rw e h
]

expire_topic-IsReady :
    (t q : Topic) (ts : List Topic) (s u : Ledger)
    → str_eq t.key q.key ≡ false
    → expire_topic t ts s ≡ ok u
    → IsReady s q
    → IsReady u q
unfolding joined_topic
expire_topic-IsReady t q ts s u d ran r =
    subst (λ z. IsReady z q) (sym (expire_topic-ok t ts s u ran).1)
      (record {
        listed = contains-erase q.key t.key s.topics (apart d) ∙ r.listed;
        small = r.small;
        members = AreMembers-sweep q.key t.key t.members q.members _ d (
            AreMembers-update q.key t.owner pop_topic q.members _ (λ a. refl) (λ a. refl)
              (AreMembers-gave q.key t.balance q.members s.accounts r.members));
      })
  where
    apart : str_eq t.key q.key ≡ false → str_eq q.key t.key ≡ false
    apart h = elim (Bool-cases (str_eq q.key t.key)) [
      | inl e ↦ absurd (cc (h, (str_eq_iff t.key q.key).1 (sym ((str_eq_iff q.key t.key).0 e))))
      | inr e ↦ e
    ]

sweep-Fits :
    (key : Str) (ms : List (Str × ℕ)) (xs : List Account)
    → All Fits xs
    → All Fits (sweep (leave_topic key) ms xs)
unfolding leave_topic
sweep-Fits key [] xs h = h
sweep-Fits key ((tx, a) ∷ ms) xs h =
    sweep-Fits key ms (update_account a (leave_topic key) xs)
      (update_account-Fits a (leave_topic key) xs (λ b f. f) h)

gave-Fits : (v : ℕ) (xs : List Account) → All Fits xs → All Fits (gave v xs)
gave-Fits v xs h = elim (Bool-cases (ltb 0 v)) [
  | inl e ↦ rw e (update_account-Fits reserve (shift v) xs (λ a f. omega arith) h)
  | inr e ↦ rw e h
]

-- All balances still fit.
expire_topic-Fits :
    (t : Topic) (ts : List Topic) (s u : Ledger)
    → All Fits s.accounts
    → expire_topic t ts s ≡ ok u
    → All Fits u.accounts
expire_topic-Fits t ts s u h ran =
    subst (λ z. All Fits z.accounts) (sym (expire_topic-ok t ts s u ran).1)
      (sweep-Fits t.key t.members _ (
        update_account-Fits t.owner pop_topic (gave t.balance s.accounts) (λ a f. f)
          (gave-Fits t.balance s.accounts h)))

All-IsReady :
    (t : Topic) (qs ts : List Topic) (s u : Ledger)
    → expire_topic t ts s ≡ ok u
    → All (λ q. str_eq t.key q.key ≡ false) qs
    → All (IsReady s) qs
    → All (IsReady u) qs
All-IsReady t [] ts s u ran d r = tt
All-IsReady t (q ∷ qs) ts s u ran d r =
    (expire_topic-IsReady t q ts s u d.0 ran r.0, All-IsReady t qs ts s u ran d.1 r.1)

expire_topic-topic_list :
    (t : Topic) (ts : List Topic) (s u : Ledger) → expire_topic t ts s ≡ ok u → u.topic_list ≡ ts
expire_topic-topic_list t ts s u ran = ap (λ z. z.topic_list) (expire_topic-ok t ts s u ran).1

pub ok_inj {ℓ} : {A : Type ℓ} {a b : A} → ok a ≡ ok b → a ≡ b
ok_inj e = cc e

-- What the loop of the expiry took from the lists, the other loop puts back.
pub reopen_topics-expire_topics :
    (now : ℕ) (gone ts : List Topic) (s u z : Ledger) (all : List Topic)
    → s.topic_list ≡ ts
    → All Fits s.accounts
    → All (IsReady s) ts
    → AreApart ts
    → expire_topics now gone ts s ≡ ok (all, u)
    → reopen_topics gone s ≡ ok z
    → (w : Ledger) × (reopen_topics all u ≡ ok w) × Reopened z w
unfolding expire_topics reopen_topics
reopen_topics-expire_topics now gone [] s u z all e fit r d ran back =
    (z, ap (λ p. reopen_topics p.0 p.1) (sym (ok_inj ran)) ∙ back, Reopened-refl z)
reopen_topics-expire_topics now gone (t ∷ ts) s u z all e fit r d ran back =
    elim (Bool-cases (ltb (t.block_id + topic_life_time) now)) [
      | inl old ↦
          of_topic (expire_topic t ts s) refl (rw old at ran)
            (λ v w. reopen_topics-expire_topics now (t ∷ gone) ts v u w all)
      | inr live ↦ (
        z,
        ap (λ p. reopen_topics p.0 p.1) (sym (ok_inj (rw live at ran))) ∙ back,
        Reopened-refl z,
      )
    ]
  where
    of_topic :
        (m : Run Ledger)
        → expire_topic t ts s ≡ m
        → (m >>= expire_topics now (t ∷ gone) ts) ≡ ok (all, u)
        → ((v y : Ledger)
            → v.topic_list ≡ ts
            → All Fits v.accounts
            → All (IsReady v) ts
            → AreApart ts
            → expire_topics now (t ∷ gone) ts v ≡ ok (all, u)
            → reopen_topics (t ∷ gone) v ≡ ok y
            → (w : Ledger) × (reopen_topics all u ≡ ok w) × Reopened y w)
        → (w : Ledger) × (reopen_topics all u ≡ ok w) × Reopened z w
    of_topic exit f h rest = absurd (cc h)
    of_topic (ok v) f h rest =
        let (x, g, like) = reopen_topic-expire_topic t ts s v e fit r.0 f in
        let (y, k, near) = reopen_topics-Reopened gone s x z like back in
        let (w, done, same) =
          rest v y (expire_topic-topic_list t ts s v f) (expire_topic-Fits t ts s v fit f)
            (All-IsReady t ts ts s v f d.0 r.1) d.1 h (rw g k) in
        (w, done, Reopened-trans z y w near same)
