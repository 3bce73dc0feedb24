-- ===== src/Account/Histories.antt =====
-- The two bounded histories of an account.
use askcoin_core.Base.{
  ℕ, zero, suc, ◌+◌, ◌-◌, ◌≤◌, ◌<◌, ◌≡◌, refl, ap, List, [], ◌∷◌, ◌++◌, arith, ltb, length,
  length-append, All, Bool-cases, inl, inr,
}
use askcoin_core.Account.{
  History, Account, push_history, add_history, drop_last, pop_history, drop_first, drop_expired,
  trim_rounds, expire, proc_history_expired,
}

-- Both histories hold 200 entries at most.
pub record IsBounded (a : Account) : Type 0 where
  pub history_size : length a.history ≤ 200
  pub explorer_size : length a.history_for_explorer ≤ 200

-- The entry is at most 30 topic lifetimes old.
abbrev pub IsRecent : ℕ → History → Type 0
IsRecent now h = now ≤ h.block_id + 129600

length-drop_first : (hs : List History) → length (drop_first hs) ≡ length hs - 1
length-drop_first [] = omega arith
length-drop_first (h ∷ hs) = omega arith

push_history-le :
    (hs : List History) (h : History) → length hs ≤ 200 → length (push_history hs h) ≤ 200
unfolding push_history
push_history-le hs h b = ground (arith, length-append hs (h ∷ []), length-drop_first (hs ++ h ∷ []))

-- Adding an entry keeps both histories within 200 entries.
pub add_history-IsBounded : (h : History) (a : Account) → IsBounded a → IsBounded (add_history h a)
unfolding add_history
add_history-IsBounded h a b = ground (
  arith,
  push_history-le a.history h b.history_size,
  push_history-le a.history_for_explorer h b.explorer_size,
)

length-drop_last : (hs : List History) → length (drop_last hs) ≤ length hs
unfolding drop_last
length-drop_last [] = omega arith
length-drop_last (h ∷ []) = omega arith
length-drop_last (h ∷ g ∷ gs) = omega (arith, length-drop_last (g ∷ gs))

drop_last-append : (hs : List History) (h : History) → drop_last (hs ++ h ∷ []) ≡ hs
unfolding drop_last
drop_last-append [] h = refl
drop_last-append (g ∷ []) h = refl
drop_last-append (g ∷ f ∷ fs) h = ap (◌∷◌ g) (drop_last-append (f ∷ fs) h)

push_history-short :
    (hs : List History) (h : History) → length hs < 200 → push_history hs h ≡ hs ++ h ∷ []
unfolding push_history
push_history-short hs h b = ground (arith, length-append hs (h ∷ []))

-- `pop_history` undoes `add_history` on the account's history while it holds fewer than 200 entries.
pub pop_history-add_history :
    (h : History) (a : Account)
    → length a.history < 200
    → (pop_history (add_history h a)).history ≡ a.history
unfolding pop_history add_history
pop_history-add_history h a b =
    ground (arith, push_history-short a.history h b, drop_last-append a.history h)

length-drop_expired : (now : ℕ) (hs : List History) → length (drop_expired now hs) ≤ length hs
unfolding drop_expired
length-drop_expired now [] = omega arith
length-drop_expired now (h ∷ hs) = ground (arith, length-drop_expired now hs)

-- Entries come in block order.
abbrev pub IsOrdered : List History → Type 0
IsOrdered [] = Unit
IsOrdered (h ∷ hs) = All (λ g. h.block_id ≤ g.block_id) hs × IsOrdered hs

-- Rounds enough: at most 200 entries are left.
pub trim_rounds-le : (n : ℕ) (hs : List History) → length hs ≤ n → length (trim_rounds n hs) ≤ 200
unfolding trim_rounds
trim_rounds-le zero hs b = omega arith
trim_rounds-le (suc n) hs b = ground (arith, trim_rounds-le n (drop_first hs), length-drop_first hs)

All-later :
    (now : ℕ) (h : History) (hs : List History)
    → IsRecent now h
    → All (λ g. h.block_id ≤ g.block_id) hs
    → All (IsRecent now) hs
All-later now h [] r b = tt
All-later now h (g ∷ gs) r b = (omega arith, All-later now h gs r b.1)

drop_expired-IsRecent :
    (now : ℕ) (hs : List History) → IsOrdered hs → All (IsRecent now) (drop_expired now hs)
unfolding drop_expired
drop_expired-IsRecent now [] o = tt
drop_expired-IsRecent now (h ∷ hs) o =
    ground (arith, drop_expired-IsRecent now hs o.1, All-later now h hs)

trim_rounds-All {κ} :
    (P : History → Type κ) (n : ℕ) (hs : List History) → All P hs → All P (trim_rounds n hs)
unfolding trim_rounds
trim_rounds-All P zero hs p = p
trim_rounds-All P (suc n) [] p = tt
trim_rounds-All P (suc n) (h ∷ hs) p = elim (Bool-cases (ltb 200 (suc (length hs)))) [
  | inl e ↦ rw e (trim_rounds-All P n hs p.1)
  | inr e ↦ rw e p
]

expire-le : (now : ℕ) (hs : List History) → length (expire now hs) ≤ 200
unfolding expire
expire-le now hs = trim_rounds-le (length (drop_expired now hs)) (drop_expired now hs) (omega arith)

-- After expiry both histories hold 200 entries at most, and if the entries stood in block order
-- none is more than 30 topic lifetimes (129600 blocks) old.
pub proc_history_expired_lem :
    (now : ℕ) (a : Account)
    → IsOrdered a.history
    → IsOrdered a.history_for_explorer
    → IsBounded (proc_history_expired now a)
      × All (IsRecent now) (proc_history_expired now a).history
      × All (IsRecent now) (proc_history_expired now a).history_for_explorer
unfolding proc_history_expired expire
proc_history_expired_lem now a o p = (
  record {
    history_size = expire-le now a.history;
    explorer_size = expire-le now a.history_for_explorer;
  },
  trim_rounds-All (IsRecent now) _ _ (drop_expired-IsRecent now a.history o),
  trim_rounds-All (IsRecent now) _ _ (drop_expired-IsRecent now a.history_for_explorer p),
)
