-- ===== src/Mine/Restore/Members.antt =====
-- The members of a topic, in the dry run of a reply and in its undoing.
use askcoin_core.Base.{
  ℕ, ◌≡◌, refl, ap, sym, subst, ◌∙◌, true, false, Option, some, List, [], ◌∷◌, ◌==◌, arith, All,
  Bool-cases, inl, inr, some_inj,
}
use askcoin_core.Base.Text.{Str, str_eq, str_eq_iff}
use askcoin_core.Base.Dict.{has_key, str_key}
use askcoin_core.Account.{Account, joined_topic}
use askcoin_core.Topic.{Topic, is_member}
use askcoin_core.Ledger.{Ledger, find_account}
use askcoin_core.Ledger.Tx.Post.{push_joined}
use askcoin_core.Mine.Undo.{last_is, pop_joined, undo_join}
use askcoin_core.Mine.Writes.{
  Write, IsUndone, AreUndone, give, take, give-IsUndone, take-IsUndone, give-take,
}
use askcoin_core.Mine.Topics.{pop_back-append}
use askcoin_core.Mine.Restore.{
  IsJoined, coin_of, fee_taken, Sees, Sees-update_account, Found, fee_accounts,
}

-- The topic goes to the end of the list of those that the account has joined.
abbrev pub joining : ℕ → Str → Write
joining a key = record { target = a; act = push_joined key; back = pop_joined }

joining-IsUndone : (a : ℕ) (key : Str) → IsUndone (joining a key)
joining-IsUndone a key = record {
  act_id = λ b. refl;
  act_referrer = λ b. refl;
  back_id = λ b. refl;
  act_fits = λ b p. p;
  undone =
      λ b p. ap (λ l. record b { joined_topic_list = l }) (pop_back-append b.joined_topic_list key);
}

pub join-AreUndone : (r a : ℕ) (key : Str) → AreUndone (give r 1 ∷ take a 2 ∷ joining a key ∷ [])
join-AreUndone r a key = (
  give-IsUndone r 1 (omega arith),
  (give-take r 1 a 2 (omega arith) (omega arith), ((λ b. refl), tt)),
  (take-IsUndone a 2 (omega arith), ((λ b. refl), tt), (joining-IsUndone a key, tt, tt)),
)

-- A key that the chain does not know is not that of the last member.
last_is-new :
    (k : Str) (d : List (Str × ℕ)) (ms : List (Str × ℕ))
    → All (λ m. has_key m.0 d ≡ true) ms
    → has_key k d ≡ false
    → last_is k ms ≡ false
last_is-new k d [] h e = refl
last_is-new k d (m ∷ []) h e = elim (Bool-cases (str_eq m.0 k)) [
  | inl same ↦ absurd (cc (h.0, e, (str_eq_iff m.0 k).0 same))
  | inr other ↦ other
]
last_is-new k d (m ∷ n ∷ ms) h e = last_is-new k d (n ∷ ms) h.1 e

-- The fee leaves the list of joined topics alone.
fee-joined :
    (a i : ℕ) (ref : Option ℕ) (b : Account) (s : Ledger)
    → find_account i s.accounts ≡ some b
    → Sees (λ c. c.joined_topic_list) i b.joined_topic_list (fee_taken a ref s).accounts
fee-joined a i ref b s e =
    subst (Sees (λ c. c.joined_topic_list) i b.joined_topic_list) (sym (fee_accounts a ref s)) (
      Sees-update_account (λ c. c.joined_topic_list) i a _ (take a 2).act _ (λ c. refl) (λ c. refl)
        (Sees-update_account (λ c. c.joined_topic_list) i (coin_of ref) _ (give (coin_of ref) 1).act
          _ (λ c. refl) (λ c. refl) (b, e, refl)))

-- Who has not joined is not a member.
pub not_member :
    (a : ℕ) (ref : Option ℕ) (b : Account) (t : Topic) (s : Ledger)
    → IsJoined s t
    → Found a ref s.accounts
    → find_account a (fee_taken a ref s).accounts ≡ some b
    → joined_topic t.key b ≡ false
    → is_member a t.members ≡ false
unfolding joined_topic
not_member a ref b t s j (c, e, r) f n = elim (Bool-cases (is_member a t.members)) [
  | inl h ↦
      let (d, g, k) = fee-joined a a ref c s e in
      absurd (cc (j.joined a c e h, some_inj (sym f ∙ g), k, n))
  | inr h ↦ h
]

-- The last writes of `undo_body`, on a topic that the account owns or has joined before.
pub undo_join-old :
    (tx_id key : Str) (a : ℕ) (b : Account) (t t' : Topic) (s u : Ledger)
    → IsJoined s t
    → has_key tx_id s.tx_map ≡ false
    → t'.members ≡ t.members
    → undo_join tx_id key a t' u ≡ u
unfolding undo_join
undo_join-old tx_id key a b t t' s u j new m = elim (Bool-cases (t'.owner == a)) [
  | inl own ↦ rw own refl
  | inr other ↦ rw (other, m, last_is-new tx_id s.tx_map t.members j.known new) refl
]
