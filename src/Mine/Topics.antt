-- ===== src/Mine/Topics.antt =====
-- Writes to a topic and to its replies, found by key, and taken back.
use askcoin_core.Base.{
  u64_mod, ℕ, ◌+◌, ◌-◌, ◌%◌, ◌≡◌, ◌<◌, refl, ap, sym, ◌∙◌, Bool, true, false, some, List, [], ◌∷◌,
  ◌++◌, arith, Bool-cases, inl, inr, some_inj, All, subst,
}
use askcoin_core.Base.Text.{Str, str_eq, str_eq_iff}
use askcoin_core.Topic.{Topic, Reply, find_reply, update_reply}
use askcoin_core.Base.Dict.{contains, str_key}
use askcoin_core.Ledger.{Ledger, find_topic, update_topic, get_topic}
use askcoin_core.Ledger.Links.{get_topic-found}
use askcoin_core.Mine.Undo.{pop_back, last_is}

pub pop_back-append {ℓ} : {A : Type ℓ} (xs : List A) (x : A) → pop_back (xs ++ x ∷ []) ≡ xs
pop_back-append [] x = refl
pop_back-append (y ∷ []) x = refl
pop_back-append (y ∷ z ∷ ys) x = ap (λ zs. y ∷ zs) (pop_back-append (z ∷ ys) x)

pub last_is-append : (k : Str) (a : ℕ) (ms : List (Str × ℕ)) → last_is k (ms ++ (k, a) ∷ []) ≡ true
last_is-append k a [] = (str_eq_iff k k).1 refl
last_is-append k a (m ∷ []) = (str_eq_iff k k).1 refl
last_is-append k a (m ∷ n ∷ ms) = last_is-append k a (n ∷ ms)

-- A write to topics that leaves their keys alone.
abbrev pub KeepsKey : (Topic → Topic) → Type 0
KeepsKey f = (t : Topic) → (f t).key ≡ t.key

update_topic-hit :
    (key : Str) (f : Topic → Topic) (t : Topic) (ts : List Topic)
    → str_eq t.key key ≡ true
    → update_topic key f (t ∷ ts) ≡ f t ∷ ts
unfolding update_topic
update_topic-hit key f t ts e = rw e refl

update_topic-miss :
    (key : Str) (f : Topic → Topic) (t : Topic) (ts : List Topic)
    → str_eq t.key key ≡ false
    → update_topic key f (t ∷ ts) ≡ t ∷ update_topic key f ts
unfolding update_topic
update_topic-miss key f t ts e = rw e refl

find_topic-hit :
    (key : Str) (t : Topic) (ts : List Topic)
    → str_eq t.key key ≡ true
    → find_topic key (t ∷ ts) ≡ some t
unfolding find_topic
find_topic-hit key t ts e = rw e refl

find_topic-miss :
    (key : Str) (t : Topic) (ts : List Topic)
    → str_eq t.key key ≡ false
    → find_topic key (t ∷ ts) ≡ find_topic key ts
unfolding find_topic
find_topic-miss key t ts e = rw e refl

same_key :
    (key : Str) (f : Topic → Topic) (t : Topic) {b : Bool}
    → KeepsKey f
    → str_eq t.key key ≡ b
    → str_eq (f t).key key ≡ b
same_key key f t k e = ap (λ n. str_eq n key) (k t) ∙ e

pub find_topic-update_topic :
    (key : Str) (f : Topic → Topic) (t : Topic) (ts : List Topic)
    → KeepsKey f
    → find_topic key ts ≡ some t
    → find_topic key (update_topic key f ts) ≡ some (f t)
unfolding find_topic update_topic
find_topic-update_topic key f t [] k e = cc
find_topic-update_topic key f t (u ∷ ts) k e = elim (Bool-cases (str_eq u.key key)) [
  | inl h ↦
      ap (find_topic key) (update_topic-hit key f u ts h)
      ∙ find_topic-hit key (f u) ts (same_key key f u k h)
      ∙ ap (λ v. some (f v)) (some_inj (sym (find_topic-hit key u ts h) ∙ e))
  | inr h ↦
      ap (find_topic key) (update_topic-miss key f u ts h)
      ∙ find_topic-miss key u (update_topic key f ts) h
      ∙ find_topic-update_topic key f t ts k (sym (find_topic-miss key u ts h) ∙ e)
]

pub update_topic-update_topic :
    (key : Str) (f g : Topic → Topic) (ts : List Topic)
    → KeepsKey g
    → update_topic key f (update_topic key g ts) ≡ update_topic key (λ t. f (g t)) ts
unfolding update_topic
update_topic-update_topic key f g [] k = refl
update_topic-update_topic key f g (t ∷ ts) k = elim (Bool-cases (str_eq t.key key)) [
  | inl h ↦
      ap (update_topic key f) (update_topic-hit key g t ts h)
      ∙ update_topic-hit key f (g t) ts (same_key key g t k h)
      ∙ sym (update_topic-hit key (λ u. f (g u)) t ts h)
  | inr h ↦
      ap (update_topic key f) (update_topic-miss key g t ts h)
      ∙ update_topic-miss key f t (update_topic key g ts) h
      ∙ ap (λ us. t ∷ us) (update_topic-update_topic key f g ts k)
      ∙ sym (update_topic-miss key (λ u. f (g u)) t ts h)
]

-- A write that leaves the topic with the key as it is.
pub update_topic-same :
    (key : Str) (f : Topic → Topic) (t : Topic) (ts : List Topic)
    → find_topic key ts ≡ some t
    → f t ≡ t
    → update_topic key f ts ≡ ts
unfolding find_topic update_topic
update_topic-same key f t [] e p = refl
update_topic-same key f t (u ∷ ts) e p = elim (Bool-cases (str_eq u.key key)) [
  | inl h ↦
      let same : u ≡ t = some_inj (sym (find_topic-hit key u ts h) ∙ e) in
      update_topic-hit key f u ts h ∙ ap (λ v. v ∷ ts) (ap f same ∙ p ∙ sym same)
  | inr h ↦
      update_topic-miss key f u ts h
      ∙ ap (λ us. u ∷ us) (update_topic-same key f t ts (sym (find_topic-miss key u ts h) ∙ e) p)
]

pub find_topic-key :
    (key : Str) (t : Topic) (ts : List Topic) → find_topic key ts ≡ some t → t.key ≡ key
unfolding find_topic
find_topic-key key t [] e = cc
find_topic-key key t (u ∷ ts) e = elim (Bool-cases (str_eq u.key key)) [
  | inl h ↦
      ap (λ v. v.key) (some_inj (sym e ∙ find_topic-hit key u ts h)) ∙ (str_eq_iff u.key key).0 h
  | inr h ↦ find_topic-key key t ts (sym (find_topic-miss key u ts h) ∙ e)
]

-- `m_balance += v` and `m_balance -= v` of a reply.
abbrev pub reply_shift : ℕ → Reply → Reply
reply_shift v r = record r { balance = (r.balance + v) % u64_mod }

abbrev pub reply_unshift : ℕ → Reply → Reply
reply_unshift v r = record r { balance = (r.balance + u64_mod - v) % u64_mod }

reply_undone :
    (v : ℕ) (r : Reply) → v < u64_mod → r.balance < u64_mod → reply_unshift v (reply_shift v r) ≡ r
reply_undone v r h p = ap (λ n. record r { balance = n }) (the_sum r.balance p)
  where
    the_sum : (b : ℕ) → b < u64_mod → ((b + v) % u64_mod + u64_mod - v) % u64_mod ≡ b
    the_sum b p = omega arith

shifted_back :
    (key : Str) (v : ℕ) (r new : Reply) (rs : List Reply)
    → v < u64_mod
    → find_reply key rs ≡ some r
    → r.balance < u64_mod
    → update_reply key (reply_unshift v) (update_reply key (reply_shift v) rs ++ new ∷ [])
      ≡ rs ++ new ∷ []
unfolding find_reply update_reply
shifted_back key v r new [] h e p = cc
shifted_back key v r new (q ∷ rs) h e p = elim (Bool-cases (str_eq q.key key)) [
  | inl hit ↦
      let same : q ≡ r = some_inj (rw hit at e) in
      rw (hit, hit)
        (ap (λ x. x ∷ rs ++ new ∷ [])
          (ap (λ x. reply_unshift v (reply_shift v x)) same ∙ reply_undone v r h p ∙ sym same))
  | inr miss ↦ rw (miss, miss) (ap (λ ys. q ∷ ys) (shifted_back key v r new rs h (rw miss at e) p))
]

-- A reply gets the amount and gives it back, with a younger reply behind it.
pub reply_list_undone :
    (key : Str) (v : ℕ) (r new : Reply) (rs : List Reply)
    → v < u64_mod
    → find_reply key rs ≡ some r
    → r.balance < u64_mod
    → pop_back
        (update_reply key (reply_unshift v) (update_reply key (reply_shift v) rs ++ new ∷ []))
      ≡ rs
reply_list_undone key v r new rs h e p =
    ap pop_back (shifted_back key v r new rs h e p) ∙ pop_back-append rs new

pub find_reply-shifted :
    (key : Str) (v : ℕ) (r new : Reply) (rs : List Reply)
    → find_reply key rs ≡ some r
    → find_reply key (update_reply key (reply_shift v) rs ++ new ∷ []) ≡ some (reply_shift v r)
unfolding find_reply update_reply
find_reply-shifted key v r new [] e = cc
find_reply-shifted key v r new (q ∷ rs) e = elim (Bool-cases (str_eq q.key key)) [
  | inl h ↦ rw (h, h) (ap (λ x. some (reply_shift v x)) (some_inj (rw h at e)))
  | inr h ↦ rw (h, h) (find_reply-shifted key v r new rs (rw h at e))
]

pub All-find_topic :
    (P : Topic → Type 0) (key : Str) (t : Topic) (ts : List Topic)
    → All P ts
    → find_topic key ts ≡ some t
    → P t
unfolding find_topic
All-find_topic P key t [] h e = cc
All-find_topic P key t (u ∷ ts) h e = elim (Bool-cases (str_eq u.key key)) [
  | inl hit ↦ subst P (some_inj (sym (find_topic-hit key u ts hit) ∙ e)) h.0
  | inr miss ↦ All-find_topic P key t ts h.1 (sym (find_topic-miss key u ts miss) ∙ e)
]

pub get_topic-contains :
    (key : Str) (t : Topic) (s : Ledger) → get_topic key s ≡ some t → contains key s.topics ≡ true
unfolding get_topic
get_topic-contains key t s e = elim (Bool-cases (contains key s.topics)) [
  | inl h ↦ h
  | inr h ↦ absurd (cc (rw h at e))
]

-- A topic is found after a write to it.
pub get_topic-after :
    (key : Str) (g : Topic → Topic) (t : Topic) (s u : Ledger)
    → get_topic key s ≡ some t
    → KeepsKey g
    → u.topics ≡ s.topics
    → u.topic_list ≡ update_topic key g s.topic_list
    → get_topic key u ≡ some (g t)
unfolding get_topic
get_topic-after key g t s u e k p q =
    rw (p, q, get_topic-contains key t s e)
      (find_topic-update_topic key g t s.topic_list k (get_topic-found key t s e))
