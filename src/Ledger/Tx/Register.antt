-- ===== src/Ledger/Tx/Register.antt =====
-- The branch `tx_type == 1`: register an account. The referrer signs, and pays the fee.
use askcoin_core.Base.{
  u64_mod, ℕ, ◌+◌, Bool, true, false, not, Option, none, some, List, [], ◌∷◌, ◌++◌, Run, ok, ◌>>=◌,
  ◌>>◌, guard, require, length, ltb, ◌==◌, ◌||◌, if◌then◌else◌, ◌%◌, ◌≡◌, refl, ◌≤◌, arith, Ensures,
  Ensures-of, require-ok, All, All-append, All-map, Bool-cases, inl, inr,
}
use askcoin_core.Base.Text.{Str, is_base64_char}
use askcoin_core.Base.Dict.{insert, insert_entry, All-insert_entry, str_key}
use askcoin_core.External.{External}
use askcoin_core.Account.{HistoryType, Account, new_account, add_history}
use askcoin_core.Ledger.{
  Ledger, find_account, balance_of, sub_balance, edit_account, get_account, account_name_exist,
  coins,
}
use askcoin_core.Ledger.Balance.{
  has_account, total, sum_accounts, sum_accounts-append, has_account-append,
  has_account-append_self,
}
use askcoin_core.Ledger.Links.{
  IsLinked, IsAccount, IsReferrer, Grows, OwnersKnown, IsReferrer-mono, OwnersKnown-mono,
  get_account-known, find_account-referrer,
}
use askcoin_core.Ledger.Good.{Good, Good-trans, Given, take-Good, read-Good, guard-Good}
use askcoin_core.Ledger.Tx.{
  BlockInfo, in_window, tx_fee, string_field, uint_field, uint64_field, base64_field, verify_sign,
}
use askcoin_core.Ledger.Tx.Fee.{entry, reward_referrer, reward_referrer-Given, history-Good}

-- What a registration declares.
pub record Registration : Type 0 where
  pub avatar : ℕ
  pub sign : Str
  pub sign_hash : Str
  pub name : Str
  pub referrer_pubkey : Str

-- `m_account_by_id.insert`: an account that is there stays.
abbrev pub insert_account : Account → List Account → List Account
insert_account a xs = if has_account a.id xs then xs else xs ++ a ∷ []

-- The new account, with the next id, and `set_referrer`.
unfoldable pub add_account : ℕ → Str → Str → ℕ → ℕ → Ledger → Ledger
add_account block_id name pubkey avatar referrer s =
    let id : ℕ = (s.cur_account_id + 1) % u64_mod in
    record s {
      cur_account_id = id;
      names = insert name s.names;
      by_pubkey = insert_entry pubkey id s.by_pubkey;
      accounts =
          insert_account
            (record (new_account id name pubkey avatar block_id) { referrer = some referrer })
            s.accounts;
    }

-- The referrer pays two coins; one goes to its own referrer, or to the reserve fund.
unfoldable pub enroll : BlockInfo → Str → Str → Registration → ℕ → Ledger → Run Ledger
unfolding add_account
enroll b tx_id pubkey r referrer s = do
  payer ← require (find_account referrer s.accounts)
  s' ← reward_referrer b tx_id payer s
  ok (
      edit_account referrer (add_history (entry b tx_id HistoryType.reg_fee 2))
        (add_account b.block_id r.name pubkey r.avatar referrer (sub_balance referrer 2 s')))

insert_account-Grows : (a : Account) (xs : List Account) → Grows xs (insert_account a xs)
insert_account-Grows a xs i h = elim (Bool-cases (has_account a.id xs)) [
  | inl old ↦ rw old h
  | inr new ↦ rw new (has_account-append i xs (a ∷ []) h)
]

insert_account-known : (a : Account) (xs : List Account) → IsAccount (insert_account a xs) a.id
insert_account-known a xs = elim (Bool-cases (has_account a.id xs)) [
  | inl old ↦ rw old old
  | inr new ↦ rw new (has_account-append_self a xs)
]

insert_account-sum :
    (a : Account) (xs : List Account)
    → a.balance ≡ 0
    → sum_accounts (insert_account a xs) ≡ sum_accounts xs
insert_account-sum a xs e = ground (arith, sum_accounts-append xs (a ∷ []))

insert_account-referrers :
    (ks : List Account) (a : Account) (xs : List Account)
    → IsReferrer ks a.referrer
    → All (λ b. IsReferrer ks b.referrer) xs
    → All (λ b. IsReferrer ks b.referrer) (insert_account a xs)
insert_account-referrers ks a xs k h = elim (Bool-cases (has_account a.id xs)) [
  | inl old ↦ rw old h
  | inr new ↦ rw new (All-append (λ b. IsReferrer ks b.referrer) xs (a ∷ []) h (k, tt))
]

-- A new account has no coins.
add_account-Good :
    (block_id : ℕ) (name pubkey : Str) (avatar referrer : ℕ) (s : Ledger)
    → IsLinked s
    → IsAccount s.accounts referrer
    → Good s 0 (add_account block_id name pubkey avatar referrer s)
unfolding add_account
add_account-Good block_id name pubkey avatar referrer s l known = record {
  linked = record {
    reserve_known = g _ l.reserve_known;
    pubkeys_known =
        All-insert_entry (λ e. IsAccount later e.1) pubkey ((s.cur_account_id + 1) % u64_mod)
          s.by_pubkey (insert_account-known new s.accounts)
          (All-map (λ e. IsAccount s.accounts e.1) (λ e. IsAccount later e.1) (λ e. g e.1)
            s.by_pubkey l.pubkeys_known);
    referrers_known = insert_account-referrers later new s.accounts (g referrer known) (
        All-map (λ a. IsReferrer s.accounts a.referrer) (λ a. IsReferrer later a.referrer)
          (λ a. IsReferrer-mono s.accounts later a.referrer g) s.accounts l.referrers_known);
    owners_known =
        All-map (OwnersKnown s.accounts) (OwnersKnown later)
          (λ t. OwnersKnown-mono s.accounts later t g) s.topic_list l.owners_known;
  };
  kept = omega (arith, insert_account-sum new s.accounts refl);
  grows = g;
}
  where
    new : Account
    new = record (new_account ((s.cur_account_id + 1) % u64_mod) name pubkey avatar block_id) {
      referrer = some referrer;
    }

    later : List Account
    later = insert_account new s.accounts

    g : Grows s.accounts later
    g = insert_account-Grows new s.accounts

enroll-Good :
    (b : BlockInfo) (tx_id pubkey : Str) (r : Registration) (referrer : ℕ) (s : Ledger)
    → IsLinked s
    → IsAccount s.accounts referrer
    → total s ≤ coins
    → 2 ≤ balance_of referrer s.accounts
    → Ensures (Good s 1) (enroll b tx_id pubkey r referrer s)
unfolding enroll
enroll-Good b tx_id pubkey r referrer s l known t enough =
    read-Good s 1 (require (find_account referrer s.accounts)) _ (λ payer found.
      read-Good s 1 (reward_referrer b tx_id payer s) _ (λ u paid. pay u (
        Ensures-of (Given s 1) (reward_referrer b tx_id payer s) u
          (reward_referrer-Given b tx_id payer s l t (
            find_account-referrer s.accounts referrer payer s.accounts l.referrers_known
              (require-ok _ found)))
          paid)))
  where
    pay :
        (u : Ledger)
        → Given s 1 u
        → Good s 1 (
            edit_account referrer
              (add_history (entry b tx_id HistoryType.reg_fee 2))
              (add_account b.block_id r.name pubkey r.avatar referrer (sub_balance referrer 2 u)))
    pay u g =
        let k : Good s 1 (sub_balance referrer 2 u) =
          take-Good referrer 2 1 1 s u refl (g.grows referrer known) (omega arith) enough g in
        let n : Good s 1
            (add_account b.block_id r.name pubkey r.avatar referrer (sub_balance referrer 2 u)) =
          Good-trans refl k (
            add_account-Good b.block_id r.name pubkey r.avatar referrer _ k.linked
              (k.grows referrer known)) in
        Good-trans refl n (history-Good referrer _ _ n.linked)

-- `get_account` found nothing.
abbrev pub is_none {ℓ} : {A : Type ℓ} → Option A → Bool
is_none none = true
is_none (some i) = false

module _ (x : External) where
  open x use {Value, member, is_object, write, coin_hash_b64, base64_decode, is_space}

  -- Is there no white space among the bytes?
  pub no_space : List ℕ → Bool
  no_space [] = true
  no_space (c ∷ cs) = if is_space c then false else no_space cs

  -- The name decodes to 1 to 15 bytes, none of them white space.
  pub valid_name : Str → Bool
  unfolding no_space
  valid_name name =
      let raw = base64_decode name 15 in
      if ltb 15 (length raw) || length raw == 0 then false else no_space raw

  pub read_registration : ℕ → Value → Run Registration
  read_registration cur_block_id d = do
    avatar ← uint_field x "avatar" d
    sign ← string_field x "sign" d
    guard (is_base64_char sign)
    signed ← require (member "sign_data" d)
    guard (is_object signed)
    block_id ← uint64_field x "block_id" signed
    name ← string_field x "name" signed
    referrer_pubkey ← base64_field x "referrer" 88 88 signed
    fee ← uint64_field x "fee" signed
    guard (not (block_id == 0))
    guard (in_window cur_block_id block_id)
    guard (fee == tx_fee)
    guard (is_base64_char name)
    guard (not (ltb 20 (length name) || ltb (length name) 4))
    guard (valid_name name)
    guard (not (ltb avatar 1 || ltb 100 avatar))
    ok (record {
      avatar = avatar;
      sign = sign;
      sign_hash = coin_hash_b64 (write signed);
      name = name;
      referrer_pubkey = referrer_pubkey;
    })

  unfoldable pub register : BlockInfo → Str → Str → Value → Ledger → Run Ledger
  unfolding read_registration enroll
  register b tx_id pubkey d s = do
    guard (is_none (get_account pubkey s))
    r ← read_registration b.block_id d
    referrer ← require (get_account r.referrer_pubkey s)
    guard (not (ltb (balance_of referrer s.accounts) 2))
    guard (verify_sign x r.referrer_pubkey r.sign_hash r.sign)
    guard (not (account_name_exist r.name s))
    enroll b tx_id pubkey r referrer s

  -- A registration leaves one coin for the miner.
  pub register-Good :
      (b : BlockInfo) (tx_id pubkey : Str) (d : Value) (s : Ledger)
      → IsLinked s
      → total s ≤ coins
      → Ensures (Good s 1) (register b tx_id pubkey d s)
  unfolding register
  register-Good b tx_id pubkey d s l small = guard-Good s 1 (is_none (get_account pubkey s)) _ (λ _.
      read-Good s 1 (read_registration b.block_id d) _ (λ r _.
        read-Good s 1 (require (get_account r.referrer_pubkey s)) _ (λ referrer found.
          guard-Good s 1 (not (ltb (balance_of referrer s.accounts) 2)) _ (λ enough.
            guard-Good s 1 (verify_sign x r.referrer_pubkey r.sign_hash r.sign) _ (λ _.
              guard-Good s 1 (not (account_name_exist r.name s)) _ (λ _.
                enroll-Good b tx_id pubkey r referrer s l
                  (get_account-known s r.referrer_pubkey referrer l (require-ok _ found)) small
                  (ground arith)))))))
