-- ===== src/Mine/Restore/Newcomer.antt =====
-- The dry run of a registration is undone.
use askcoin_core.Base.{
  u64_mod, ℕ, ◌+◌, ◌-◌, ◌%◌, ◌≡◌, ◌<◌, refl, ap, sym, subst, ◌∙◌, true, false, Option, none, some,
  List, [], ◌∷◌, ◌++◌, ok, ◌==◌, arith, Bool-cases, ==_iff, inl, inr,
}
use askcoin_core.Base.Text.{Str, str_eq, str_eq_iff}
use askcoin_core.Base.Dict.{
  insert_entry, erase-insert, erase_key-insert_entry, lookup, has_key, str_key,
}
use askcoin_core.Account.{Account, new_account}
use askcoin_core.Ledger.{
  Ledger, find_account, update_account, get_account, account_name_exist, set_balance, add_balance,
  sub_balance,
}
use askcoin_core.Ledger.Balance.{has_account}
use askcoin_core.Mine.{dry_account}
use askcoin_core.Mine.Undo.{undo_account, undo_reg, drop_account, refund}
use askcoin_core.Mine.Writes.{Write, AreUndone, undo_writes, give, take}
use askcoin_core.Mine.Restore.{
  Restored, IsSane, coin_of, fee_taken, Found, fee_accounts, refund_accounts, back_again,
  fee-AreUndone, Found-do_writes, refund-back,
}

find_account-append :
    (i : ℕ) (b : Account) (xs ys : List Account)
    → find_account i xs ≡ some b
    → find_account i (xs ++ ys) ≡ some b
unfolding find_account
find_account-append i b [] ys e = cc
find_account-append i b (a ∷ xs) ys e = elim (Bool-cases (a.id == i)) [
  | inl h ↦ rw h (rw h at e)
  | inr h ↦ rw h (find_account-append i b xs ys (rw h at e))
]

-- Accounts, with one more at the end whose id is `i`.
abbrev Extends : ℕ → List Account → List Account → Type 0
Extends i xs ys = (b : Account) × ((b.id == i) ≡ true) × (ys ≡ xs ++ b ∷ [])

Extends-cons :
    (i : ℕ) (a : Account) (xs ys : List Account) → Extends i xs ys → Extends i (a ∷ xs) (a ∷ ys)
Extends-cons i a xs ys (b, p, q) = (b, p, ap (λ l. a ∷ l) q)

Extends-update_account :
    (i j : ℕ) (f : Account → Account) (b : Account) (xs : List Account)
    → ((a : Account) → (f a).id ≡ a.id)
    → (b.id == i) ≡ true
    → Extends i (update_account j f xs) (update_account j f (xs ++ b ∷ []))
unfolding update_account
Extends-update_account i j f b [] k e = elim (Bool-cases (b.id == j)) [
  | inl h ↦ rw h (f b, ap (λ n. n == i) (k b) ∙ e, refl)
  | inr h ↦ rw h (b, e, refl)
]
Extends-update_account i j f b (a ∷ xs) k e = elim (Bool-cases (a.id == j)) [
  | inl h ↦ rw h (b, e, refl)
  | inr h ↦ rw h (Extends-cons i a _ _ (Extends-update_account i j f b xs k e))
]

Extends-undo_writes :
    (i : ℕ) (ws : List Write) (xs ys : List Account)
    → AreUndone ws
    → Extends i xs ys
    → Extends i (undo_writes ws xs) (undo_writes ws ys)
Extends-undo_writes i [] xs ys us h = h
Extends-undo_writes i (w ∷ ws) xs ys us (b, p, q) = Extends-undo_writes i ws _ _ us.2 (
    subst (λ l. Extends i (update_account w.target w.back xs) (update_account w.target w.back l))
      (sym q) (Extends-update_account i w.target w.back b xs us.0.back_id p))

drop_account-append :
    (i : ℕ) (b : Account) (xs : List Account)
    → has_account i xs ≡ false
    → (b.id == i) ≡ true
    → drop_account i (xs ++ b ∷ []) ≡ xs
unfolding drop_account
drop_account-append i b [] n e = rw e refl
drop_account-append i b (a ∷ xs) n e = elim (Bool-cases (a.id == i)) [
  | inl h ↦ absurd (cc (rw h at n))
  | inr h ↦ rw h (ap (λ l. a ∷ l) (drop_account-append i b xs (rw h at n) e))
]

drop_account-Extends :
    (i : ℕ) (xs ys : List Account)
    → has_account i xs ≡ false
    → Extends i xs ys
    → drop_account i ys ≡ xs
drop_account-Extends i xs ys n (b, p, q) = ap (drop_account i) q ∙ drop_account-append i b xs n p

-- The number of accounts goes up and down by one.
count_back : (c : ℕ) → c < u64_mod → ((c + 1) % u64_mod + u64_mod - 1) % u64_mod ≡ c
count_back c h = omega arith

-- A new entry does not hide the others.
lookup-insert_entry :
    (k j : Str) (v i : ℕ) (d : List (Str × ℕ))
    → lookup k d ≡ none
    → lookup j d ≡ some i
    → lookup j (insert_entry k v d) ≡ some i
lookup-insert_entry k j v i d n e =
    rw (has_key, n)
      (elim (Bool-cases (str_eq j k)) [
        | inl same ↦ absurd (cc (n, e, (str_eq_iff j k).0 same))
        | inr other ↦ rw other e
      ])

has_key-none : (k : Str) (d : List (Str × ℕ)) → lookup k d ≡ none → has_key k d ≡ false
has_key-none k d n = rw (has_key, n) refl

pub reg-CanUndo :
    (cur_block_id : ℕ) (name pubkey referrer_pubkey : Str) (avatar r : ℕ) (ref : Option ℕ)
    (s : Ledger)
    → IsSane s
    → get_account pubkey s ≡ none
    → account_name_exist name s ≡ false
    → get_account referrer_pubkey s ≡ some r
    → Found r ref s.accounts
    → (w : Ledger) × (undo_reg name referrer_pubkey pubkey
          (dry_account cur_block_id name pubkey avatar r (fee_taken r ref s))
        ≡ ok w)
      × Restored s w
unfolding dry_account undo_reg undo_account add_balance sub_balance set_balance get_account
    account_name_exist
reg-CanUndo cur_block_id name pubkey referrer_pubkey avatar r ref s sane free unnamed known f =
    let (b, there, same) : Found r ref u.accounts = found_after in
    (
      w,
      rw (lookup-insert_entry pubkey referrer_pubkey id r s.by_pubkey free known, there)
          (ap (λ q. ok (undo_account name pubkey (refund r q u))) same
            ∙ ap (λ l. ok (undo_account name pubkey l)) (refund-back r ref u)),
      record {
        accounts =
            ap (drop_account id) (refund_accounts r ref u)
            ∙ drop_account-Extends id (undo_writes ws paid) (undo_writes ws (paid ++ new ∷ []))
                (ap (has_account id) paid_back ∙ sane.next_new)
                (Extends-undo_writes id ws paid (paid ++ new ∷ []) us
                  (new, (==_iff id id).1 refl, refl))
            ∙ paid_back;
        by_pubkey =
            erase_key-insert_entry pubkey id s.by_pubkey (has_key-none pubkey s.by_pubkey free);
        names = erase-insert name s.names unnamed;
        cur_account_id = count_back s.cur_account_id sane.id_fits;
        topics = refl;
        topic_list = refl;
        tx_map = refl;
        rollback_topics = refl;
        rollback_txs = refl;
        miner_pubkeys = refl;
      },
    )
  where
    id : ℕ
    id = (s.cur_account_id + 1) % u64_mod

    new : Account
    new = record (new_account id name pubkey avatar cur_block_id) { referrer = some r }

    paid : List Account
    paid = (fee_taken r ref s).accounts

    u : Ledger
    u = dry_account cur_block_id name pubkey avatar r (fee_taken r ref s)

    u0 : Ledger
    u0 = add_balance r 2 (sub_balance (coin_of ref) 1 u)

    w : Ledger
    w = undo_account name pubkey u0

    ws : List Write
    ws = give (coin_of ref) 1 ∷ take r 2 ∷ []

    us : AreUndone ws
    us = fee-AreUndone (coin_of ref) r

    found_after : Found r ref u.accounts
    found_after =
        let (b, there, same) : Found r ref paid =
          subst (Found r ref) (sym (fee_accounts r ref s))
            (Found-do_writes r ref ws s.accounts us f) in
        (b, find_account-append r b paid (new ∷ []) there, same)

    paid_back : undo_writes ws paid ≡ s.accounts
    paid_back =
        back_again ws s (fee_taken r ref s) (record s { accounts = undo_writes ws paid }) us sane
          (fee_accounts r ref s) refl
