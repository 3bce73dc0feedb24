-- ===== src/Ledger/Tx/Send.antt =====
-- The branch `tx_type == 2`: send coins to an account.
use askcoin_core.Base.{
  ℕ, ◌+◌, not, none, some, [], Run, ok, ◌>>=◌, ◌>>◌, guard, require, length, ltb, ◌==◌, ◌||◌, ◌≡◌,
  refl, ◌∙◌, ◌-◌, if◌then◌else◌, ◌≢◌, ◌⊎◌, ◌≤◌, arith, Ensures, require-ok,
}
use askcoin_core.Base.Text.{Str, is_base64_char}
use askcoin_core.External.{External}
use askcoin_core.Account.{History, HistoryType, Account, add_history}
use askcoin_core.Ledger.{
  Ledger, find_account, balance_of, add_balance, sub_balance, edit_account, get_account, coins,
}
use askcoin_core.Ledger.Balance.{
  total, balance_of-add_balance, balance_of-sub_balance, sum-sub_balance,
}
use askcoin_core.Ledger.Links.{IsLinked, IsAccount, find_account-found, get_account-known}
use askcoin_core.Ledger.Good.{
  add_balance-Grows, sub_balance-Grows, Good, Good-trans, sub_balance-Good, give-Good, read-Good,
  guard-Good,
}
use askcoin_core.Ledger.Tx.{BlockInfo, uint64_field, base64_field}
use askcoin_core.Ledger.Tx.Fee.{entry, about, history-Good, history-balance_of}

abbrev pub with_memo : Str → History → History
with_memo memo h = record h { memo = memo }

-- The coins move. The entries name the receiver, and the sender, as they are after that.
unfoldable pub move_coins : BlockInfo → Str → Str → ℕ → ℕ → ℕ → Ledger → Run Ledger
move_coins b tx_id memo account receiver amount s = do
  let paid = add_balance receiver amount (sub_balance account amount s)
  to ← require (find_account receiver paid.accounts)
  from ← require (find_account account paid.accounts)
  let sent = with_memo memo (about to (entry b tx_id HistoryType.send_to amount))
  let got = with_memo memo (about from (entry b tx_id HistoryType.send_from amount))
  ok (edit_account receiver (add_history got) (edit_account account (add_history sent) paid))

-- Nothing is lost, also when the receiver is the sender.
move_coins-Good :
    (b : BlockInfo) (tx_id memo : Str) (account receiver amount : ℕ) (s : Ledger)
    → IsLinked s
    → IsAccount s.accounts account
    → IsAccount s.accounts receiver
    → total s ≤ coins
    → amount ≤ balance_of account s.accounts
    → Ensures (Good s 0) (move_coins b tx_id memo account receiver amount s)
unfolding move_coins
move_coins-Good b tx_id memo account receiver amount s l ka kr t enough =
    read-Good s 0 (require (find_account receiver paid.accounts)) _ (λ to _.
      read-Good s 0 (require (find_account account paid.accounts)) _ (λ from _.
        Good-trans refl (Good-trans refl moved (history-Good account _ paid moved.linked))
          (history-Good receiver _ _ (history-Good account _ paid moved.linked).linked)))
  where
    taken : Good s amount (sub_balance account amount s)
    taken = sub_balance-Good account amount s l ka (omega arith) enough

    paid : Ledger
    paid = add_balance receiver amount (sub_balance account amount s)

    moved : Good s 0 paid
    moved =
        give-Good receiver amount amount 0 s (sub_balance account amount s) (omega arith)
          (taken.grows receiver kr) (omega arith) taken

-- Between two different accounts that are there, with no more than the coins of the genesis block
-- and the amount in the sender's account, the transfer goes through: the sender has `amount` less,
-- the receiver as much more, and every other account what it had.
pub move_coins_lem :
    (b : BlockInfo) (tx_id memo : Str) (account receiver amount : ℕ) (s : Ledger)
    → IsAccount s.accounts account
    → IsAccount s.accounts receiver
    → account ≢ receiver
    → total s ≤ coins
    → amount ≤ balance_of account s.accounts
    → (t : Ledger) × (move_coins b tx_id memo account receiver amount s ≡ ok t)
      × (balance_of account t.accounts + amount ≡ balance_of account s.accounts)
      × (balance_of receiver t.accounts ≡ balance_of receiver s.accounts + amount)
      × ((j : ℕ)
          → (j ≡ account) ⊎ (j ≡ receiver) ⊎ (balance_of j t.accounts ≡ balance_of j s.accounts))
unfolding move_coins
move_coins_lem b tx_id memo account receiver amount s ka kr apart small enough = (
  after to.0 from.0,
  rw to.1 (rw from.1 refl),
  rw (balances to.0 from.0 account) (ground (arith, amounts account)),
  rw (balances to.0 from.0 receiver) (ground (arith, amounts receiver)),
  λ j. rw (balances to.0 from.0 j) (ground (arith, amounts j)),
)
  where
    less : Ledger
    less = sub_balance account amount s

    paid : Ledger
    paid = add_balance receiver amount less

    known : IsAccount less.accounts receiver
    known = sub_balance-Grows account amount s receiver kr

    to : (a : Account) × (find_account receiver paid.accounts ≡ some a)
    to =
        find_account-found receiver paid.accounts
          (add_balance-Grows receiver amount less receiver known)

    from : (a : Account) × (find_account account paid.accounts ≡ some a)
    from = find_account-found account paid.accounts (
        add_balance-Grows receiver amount less account
          (sub_balance-Grows account amount s account ka))

    after : Account → Account → Ledger
    after t f =
        edit_account receiver
          (add_history (with_memo memo (about f (entry b tx_id HistoryType.send_from amount))))
          (edit_account account
            (add_history (with_memo memo (about t (entry b tx_id HistoryType.send_to amount))))
            paid)

    balances :
        (t f : Account) (j : ℕ) → balance_of j (after t f).accounts ≡ balance_of j paid.accounts
    balances t f j = history-balance_of receiver j _ _ ∙ history-balance_of account j _ paid

    amounts :
        (j : ℕ)
        → balance_of j paid.accounts ≡ (
            if j == receiver
            then (if j == account
                then balance_of j s.accounts - amount
                else balance_of j s.accounts)
              + amount
            else if j == account
            then balance_of j s.accounts - amount
            else balance_of j s.accounts)
    amounts j = ground (
      arith,
      balance_of-add_balance receiver j amount less known
          (omega (arith, sum-sub_balance account amount s ka (omega arith) enough)),
      balance_of-sub_balance account j amount s ka (omega arith) enough,
    )

module _ (x : External) where
  open x use {Value, member, as_string}

  -- The memo may be missing; `m_memo` is then the empty string.
  pub read_memo : Value → Run Str
  read_memo d = elim (member "memo" d) [
    | none ↦ ok []
    | some m ↦ do
      memo ← require (as_string m)
      guard (is_base64_char memo)
      guard (not (ltb 80 (length memo) || ltb (length memo) 4))
      ok memo
  ]

  unfoldable pub send : BlockInfo → Str → Value → ℕ → Ledger → Run Ledger
  unfolding read_memo move_coins
  send b tx_id d account s = do
    memo ← read_memo d
    amount ← uint64_field x "amount" d
    guard (not (amount == 0))
    guard (not (ltb (balance_of account s.accounts) amount))
    receiver_pubkey ← base64_field x "receiver" 88 88 d
    receiver ← require (get_account receiver_pubkey s)
    move_coins b tx_id memo account receiver amount s

  -- Sending coins keeps the total.
  pub send-Good :
      (b : BlockInfo) (tx_id : Str) (d : Value) (account : ℕ) (s : Ledger)
      → IsLinked s
      → IsAccount s.accounts account
      → total s ≤ coins
      → Ensures (Good s 0) (send b tx_id d account s)
  unfolding send
  send-Good b tx_id d account s l k t = read-Good s 0 (read_memo d) _ (λ memo _.
      read-Good s 0 (uint64_field x "amount" d) _ (λ amount _. guard-Good s 0 _ _ (λ _.
        guard-Good s 0 (not (ltb (balance_of account s.accounts) amount)) _ (λ enough.
          read-Good s 0 (base64_field x "receiver" 88 88 d) _ (λ receiver_pubkey _.
            read-Good s 0 (require (get_account receiver_pubkey s)) _ (λ receiver found.
              move_coins-Good b tx_id memo account receiver amount s l k
                (get_account-known s receiver_pubkey receiver l (require-ok _ found)) t
                (ground arith)))))))
