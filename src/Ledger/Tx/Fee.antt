-- ===== src/Ledger/Tx/Fee.antt =====
-- The fee of every transaction but a registration: two coins, of which one goes to the account's
-- referrer, or to the reserve fund, and one is left for the miner.
use askcoin_core.Base.{
  ℕ, ◌+◌, true, false, not, Option, none, some, Run, ok, ◌>>=◌, ◌>>◌, guard, require, ltb, ◌≡◌, ◌≢◌,
  refl, ◌∙◌, ◌-◌, subst, le→ltb-false, ◌≤◌, arith, Ensures, Ensures-of, bind-Ensures, guard-Ensures,
  require-ok, ◌==◌, if◌then◌else◌,
}
use askcoin_core.Base.Text.{Str}
use askcoin_core.External.{External}
use askcoin_core.Account.{History, HistoryType, new_history, Account, add_history}
use askcoin_core.Ledger.{
  Ledger, find_account, balance_of, add_balance, sub_balance, edit_account, reserve, coins,
}
use askcoin_core.Ledger.Balance.{total, balance_of-add_balance, balance_of-sub_balance}
use askcoin_core.Ledger.Links.{IsLinked, IsAccount, IsReferrer, KeepsLinks, find_account-referrer}
use askcoin_core.Ledger.Good.{
  Good, Given, Good-trans, edit_account-Good, edit_account-balance_of, add_balance-Given,
  edit_account-Given, take-Good, read-Good, guard-Good,
}
use askcoin_core.Ledger.Tx.{BlockInfo, in_window, tx_fee, uint64_field}

-- The fields that every entry of a history takes from its block and its transaction.
abbrev pub entry : BlockInfo → Str → HistoryType → ℕ → History
entry b tx_id kind change = record (new_history kind) {
  change = change;
  block_id = b.block_id;
  block_hash = b.block_hash;
  utc = b.utc;
  tx_id = tx_id;
}

-- `m_target_id`, `m_target_avatar` and `m_target_name`.
abbrev pub about : Account → History → History
about a h = record h { target_id = a.id; target_avatar = a.avatar; target_name = a.name }

-- One coin for the referrer of `payer`. Only the first account has no referrer; its coin goes to
-- the reserve fund.
unfoldable pub reward_referrer : BlockInfo → Str → Account → Ledger → Run Ledger
reward_referrer b tx_id payer s = elim payer.referrer [
  | none ↦ guard (not (ltb 1 payer.id)) >> ok (add_balance reserve 1 s)
  | some r ↦ ok (
      edit_account r (add_history (about payer (entry b tx_id HistoryType.referrer_reward 1)))
        (add_balance r 1 s))
]

module _ (x : External) where
  open x use {Value}

  -- The fee and the block number that the transaction declares.
  unfoldable pub read_fee : ℕ → Value → Run (Unit {0})
  read_fee cur_block_id d = do
    fee ← uint64_field x "fee" d
    block_id ← uint64_field x "block_id" d
    guard (not (block_id == 0))
    guard (in_window cur_block_id block_id)
    guard (fee == tx_fee)

-- The fee is taken; `kind` is the type that the branch of the transaction gives to the entry.
unfoldable pub charge_fee : BlockInfo → Str → HistoryType → ℕ → Ledger → Run Ledger
unfolding reward_referrer
charge_fee b tx_id kind account s = do
  guard (not (ltb (balance_of account s.accounts) 2))
  payer ← require (find_account account s.accounts)
  s' ← reward_referrer b tx_id payer s
  ok (edit_account account (add_history (entry b tx_id kind 2)) (sub_balance account 2 s'))

pub add_history-keeps : (h : History) → KeepsLinks (add_history h)
unfolding add_history
add_history-keeps h a = ground arith

pub add_history-balance : (h : History) (a : Account) → (add_history h a).balance ≡ a.balance
unfolding add_history
add_history-balance h a = ground arith

-- An entry in a history moves no coins.
pub history-Good :
    (i : ℕ) (h : History) (s : Ledger) → IsLinked s → Good s 0 (edit_account i (add_history h) s)
history-Good i h s l =
    edit_account-Good i (add_history h) s (add_history-keeps h) (add_history-balance h) l

-- The referrer's coin comes on top.
pub reward_referrer-Given :
    (b : BlockInfo) (tx_id : Str) (payer : Account) (s : Ledger)
    → IsLinked s
    → total s ≤ coins
    → IsReferrer s.accounts payer.referrer
    → Ensures (Given s 1) (reward_referrer b tx_id payer s)
unfolding reward_referrer
reward_referrer-Given b tx_id payer s l t known = by_referrer payer.referrer known
  where
    by_referrer :
        (r : Option ℕ)
        → IsReferrer s.accounts r
        → Ensures (Given s 1) (elim r [
          | none ↦ guard (not (ltb 1 payer.id)) >> ok (add_balance reserve 1 s)
          | some i ↦ ok (
              edit_account i
                (add_history (about payer (entry b tx_id HistoryType.referrer_reward 1)))
                (add_balance i 1 s))
        ])
    by_referrer none k =
        guard-Ensures (Given s 1) (not (ltb 1 payer.id)) _
          (λ _. add_balance-Given reserve 1 s l l.reserve_known (omega arith))
    by_referrer (some i) k =
        edit_account-Given i 1 _ s (add_balance i 1 s) (add_history-keeps _) (add_history-balance _)
          (add_balance-Given i 1 s l k (omega arith))

-- The fee leaves one coin for the miner.
pub charge_fee-Good :
    (b : BlockInfo) (tx_id : Str) (kind : HistoryType) (account : ℕ) (s : Ledger)
    → IsLinked s
    → IsAccount s.accounts account
    → total s ≤ coins
    → Ensures (Good s 1) (charge_fee b tx_id kind account s)
unfolding charge_fee
charge_fee-Good b tx_id kind account s l known t = guard-Good s 1 _ _ (λ enough.
    read-Good s 1 (require (find_account account s.accounts)) _ (λ payer found.
      bind-Ensures (Good s 1) (reward_referrer b tx_id payer s) _
        (λ u paid. pay payer found u paid enough)))
  where
    pay :
        (payer : Account)
        → require (find_account account s.accounts) ≡ ok payer
        → (u : Ledger) → reward_referrer b tx_id payer s ≡ ok u
        → not (ltb (balance_of account s.accounts) 2) ≡ true
        → Good s 1
            (edit_account account (add_history (entry b tx_id kind 2)) (sub_balance account 2 u))
    pay payer found u paid enough =
        let g : Given s 1 u =
          Ensures-of (Given s 1) (reward_referrer b tx_id payer s) u
            (reward_referrer-Given b tx_id payer s l t (
              find_account-referrer s.accounts account payer s.accounts l.referrers_known
                (require-ok _ found)))
            paid in
        let k : Good s 1 (sub_balance account 2 u) =
          take-Good account 2 1 1 s u refl (g.grows account known) (omega arith) (ground arith) g in
        Good-trans refl k (history-Good account _ _ k.linked)

pub history-balance_of :
    (i j : ℕ) (h : History) (s : Ledger)
    → balance_of j (edit_account i (add_history h) s).accounts ≡ balance_of j s.accounts
history-balance_of i j h s =
    edit_account-balance_of i j (add_history h) s (add_history-keeps h) (add_history-balance h)

rewarded :
    (b : BlockInfo) (tx_id : Str) (payer : Account) (r : ℕ) (s : Ledger)
    → payer.referrer ≡ some r
    → reward_referrer b tx_id payer s
      ≡ ok (
          edit_account r
            (add_history (about payer (entry b tx_id HistoryType.referrer_reward 1)))
            (add_balance r 1 s))
unfolding reward_referrer
rewarded b tx_id payer r s e = rw e refl

-- With good pointers and no more than the coins of the genesis block, charging the fee goes through
-- for an account with two coins and a referrer other than itself: it has two coins less then, and
-- the referrer one more.
pub charge_fee_lem :
    (b : BlockInfo) (tx_id : Str) (kind : HistoryType) (account r : ℕ) (payer : Account)
    (s : Ledger)
    → IsLinked s
    → IsAccount s.accounts account
    → find_account account s.accounts ≡ some payer
    → payer.referrer ≡ some r
    → r ≢ account
    → total s ≤ coins
    → 2 ≤ balance_of account s.accounts
    → (t : Ledger) × (charge_fee b tx_id kind account s ≡ ok t)
      × (balance_of account t.accounts + 2 ≡ balance_of account s.accounts)
      × (balance_of r t.accounts ≡ balance_of r s.accounts + 1)
unfolding charge_fee
charge_fee_lem b tx_id kind account r payer s l ka found ref apart small enough = (
  edit_account account (add_history (entry b tx_id kind 2)) (sub_balance account 2 paid),
  rw (rich_enough, found) (rw (rewarded b tx_id payer r s ref) refl),
  rw (history-balance_of account account _ (sub_balance account 2 paid), taken account)
      (ground (arith, given account)),
  rw (history-balance_of account r _ (sub_balance account 2 paid), taken r)
      (ground (arith, given r)),
)
  where
    paid : Ledger
    paid =
        edit_account r (add_history (about payer (entry b tx_id HistoryType.referrer_reward 1)))
          (add_balance r 1 s)

    kr : IsAccount s.accounts r
    kr =
        subst (IsReferrer s.accounts) ref
          (find_account-referrer s.accounts account payer s.accounts l.referrers_known found)

    g : Given s 1 paid
    g =
        edit_account-Given r 1 _ s (add_balance r 1 s) (add_history-keeps _) (add_history-balance _)
          (add_balance-Given r 1 s l kr (omega arith))

    rich_enough : ltb (balance_of account s.accounts) 2 ≡ false
    rich_enough = le→ltb-false (balance_of account s.accounts) 2 enough

    given :
        (j : ℕ)
        → balance_of j paid.accounts
          ≡ (if j == r then balance_of j s.accounts + 1 else balance_of j s.accounts)
    given j =
        history-balance_of r j _ (add_balance r 1 s)
        ∙ balance_of-add_balance r j 1 s kr (omega arith)

    taken :
        (j : ℕ)
        → balance_of j (sub_balance account 2 paid).accounts
          ≡ (if j == account then balance_of j paid.accounts - 2 else balance_of j paid.accounts)
    taken j =
        balance_of-sub_balance account j 2 paid (g.grows account ka) (omega (arith, g.more))
          (omega (arith, g.richer account))
