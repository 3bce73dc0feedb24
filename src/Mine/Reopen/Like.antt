-- ===== src/Mine/Reopen/Like.antt =====
-- Accounts that differ at most in the order of the topics that they joined.
use mathlib.Core.List.Perm
use mathlib.Core.List.{Perm}
use askcoin_core.Base.{
  ℕ, ◌≡◌, refl, ap, sym, subst, ◌∙◌, some, List, [], ◌∷◌, Bool-cases, inl, inr, ◌==◌, some_inj,
}
use askcoin_core.Base.Text.{Str}
use askcoin_core.Account.{Account}
use askcoin_core.Ledger.{find_account, update_account}

abbrev with_joined : List Str → Account → Account
with_joined js a = record a { joined_topic_list = js }

pub record IsLike (a b : Account) : Type 0 where
  pub others : b ≡ record a { joined_topic_list = b.joined_topic_list }
  pub joined : Perm a.joined_topic_list b.joined_topic_list

pub IsLike-refl : (a : Account) → IsLike a a
IsLike-refl a = record { others = refl; joined = Perm.refl a.joined_topic_list }

IsLike-trans : (a b c : Account) → IsLike a b → IsLike b c → IsLike a c
IsLike-trans a b c p q = record {
  others = q.others ∙ ap (with_joined c.joined_topic_list) p.others;
  joined = Perm.trans p.joined q.joined;
}

pub IsLike-id : (a b : Account) → IsLike a b → b.id ≡ a.id
IsLike-id a b p = ap (λ z. z.id) p.others

abbrev pub AreLike : List Account → List Account → Type 0
AreLike [] [] = Unit
AreLike (a ∷ xs) (b ∷ ys) = IsLike a b × AreLike xs ys
AreLike [] (b ∷ ys) = ⊥
AreLike (a ∷ xs) [] = ⊥

pub AreLike-refl : (xs : List Account) → AreLike xs xs
AreLike-refl [] = tt
AreLike-refl (a ∷ xs) = (IsLike-refl a, AreLike-refl xs)

pub AreLike-trans : (xs ys zs : List Account) → AreLike xs ys → AreLike ys zs → AreLike xs zs
AreLike-trans [] [] [] p q = tt
AreLike-trans [] [] (c ∷ zs) p q = absurd q
AreLike-trans [] (b ∷ ys) zs p q = absurd p
AreLike-trans (a ∷ xs) [] zs p q = absurd p
AreLike-trans (a ∷ xs) (b ∷ ys) [] p q = absurd q
AreLike-trans (a ∷ xs) (b ∷ ys) (c ∷ zs) p q =
    (IsLike-trans a b c p.0 q.0, AreLike-trans xs ys zs p.1 q.1)

-- A change that does not tell such accounts apart.
abbrev pub Respects : (Account → Account) → Type 0
Respects f = (a b : Account) → IsLike a b → IsLike (f a) (f b)

pub update_account-AreLike :
    (i : ℕ) (f : Account → Account) (xs ys : List Account)
    → Respects f
    → AreLike xs ys
    → AreLike (update_account i f xs) (update_account i f ys)
unfolding update_account
update_account-AreLike i f [] [] r h = tt
update_account-AreLike i f [] (b ∷ ys) r h = absurd h
update_account-AreLike i f (a ∷ xs) [] r h = absurd h
update_account-AreLike i f (a ∷ xs) (b ∷ ys) r h = elim (Bool-cases (a.id == i)) [
  | inl hit ↦ rw (hit, ap (λ n. n == i) (IsLike-id a b h.0) ∙ hit) (r a b h.0, h.1)
  | inr miss ↦
      rw (miss, ap (λ n. n == i) (IsLike-id a b h.0) ∙ miss)
        (h.0, update_account-AreLike i f xs ys r h.1)
]

-- A change and what takes it back, up to that order.
pub update_account-back :
    (i : ℕ) (act back : Account → Account) (a : Account) (xs : List Account)
    → find_account i xs ≡ some a
    → ((b : Account) → (act b).id ≡ b.id)
    → IsLike a (back (act a))
    → AreLike xs (update_account i back (update_account i act xs))
unfolding find_account update_account
update_account-back i act back a [] e k h = cc
update_account-back i act back a (b ∷ xs) e k h = elim (Bool-cases (b.id == i)) [
  | inl hit ↦
      let same : a ≡ b = sym (some_inj (rw hit at e)) in
      rw (hit, ap (λ n. n == i) (k b) ∙ hit)
        (subst (λ c. IsLike c (back (act c))) same h, AreLike-refl xs)
  | inr miss ↦
      rw (miss, miss) (IsLike-refl b, update_account-back i act back a xs (rw miss at e) k h)
]
