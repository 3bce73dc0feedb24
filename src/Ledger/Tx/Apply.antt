-- ===== src/Ledger/Tx/Apply.antt =====
-- The loop of `mined_new_block` over the transactions of a block.
use askcoin_core.Base.{
  ℕ, suc, not, Option, none, some, List, [], ◌∷◌, Run, ok, exit, ◌>>=◌, ◌>>◌, guard, require,
  length, ◌==◌, if◌then◌else◌, refl, ◌≤◌, arith, Ensures, require-ok, Bool-cases, inl, inr,
}
use askcoin_core.Base.Text.{Str}
use askcoin_core.Base.Dict.{has_key, insert_entry, str_key}
use askcoin_core.External.{External}
use askcoin_core.Account.{HistoryType}
use askcoin_core.Ledger.{Ledger, get_account, coins}
use askcoin_core.Ledger.Balance.{total}
use askcoin_core.Ledger.Links.{IsLinked, IsAccount, get_account-known}
use askcoin_core.Ledger.Good.{Good, Good-refl, read-Good, guard-Good, bind-Good}
use askcoin_core.Ledger.Tx.{BlockInfo, string_field, uint_field}
use askcoin_core.Ledger.Tx.Fee.{read_fee, charge_fee, charge_fee-Good}
use askcoin_core.Ledger.Tx.Register.{register, register-Good}
use askcoin_core.Ledger.Tx.Send.{send, send-Good}
use askcoin_core.Ledger.Tx.Post.{publish, publish-Good, answer, answer-Good}
use askcoin_core.Ledger.Tx.Reward.{reward, reward-Good}

-- `m_tx_map.insert`.
unfoldable pub record_tx : BlockInfo → Str → Ledger → Ledger
record_tx b tx_id s = record s { tx_map = insert_entry tx_id b.block_id s.tx_map }

-- The kinds of transaction that pay the fee first.
pub data Paying : Type 0 where
  sends publishes answers rewards : Paying

-- The type that the branch gives to the entry of the fee.
abbrev pub fee_kind : Paying → HistoryType
fee_kind sends = HistoryType.send_fee
fee_kind publishes = HistoryType.new_topic_fee
fee_kind answers = HistoryType.reply_fee
fee_kind rewards = HistoryType.reward_fee

-- `tx_type` 2 to 5.
abbrev pub paying_type : ℕ → Option Paying
paying_type n =
    if n == 2
    then some sends
    else if n == 3
    then some publishes
    else if n == 4
    then some answers
    else if n == 5
    then some rewards
    else none

record_tx-Good :
    (b : BlockInfo) (tx_id : Str) (s : Ledger) → IsLinked s → Good s 0 (record_tx b tx_id s)
unfolding record_tx
record_tx-Good b tx_id s l = record {
  linked = record {
    reserve_known = l.reserve_known;
    pubkeys_known = l.pubkeys_known;
    referrers_known = l.referrers_known;
    owners_known = l.owners_known;
  };
  kept = omega arith;
  grows = λ i p. p;
}

module _ (x : External) where
  open x use {Value, member}

  unfoldable pub paying_body : Paying → BlockInfo → Str → Value → ℕ → Ledger → Run Ledger
  paying_body sends = send x
  paying_body publishes = publish x
  paying_body answers = answer x
  paying_body rewards = reward x

  unfoldable pub pay_and_run : Paying → BlockInfo → Str → Str → Value → Ledger → Run Ledger
  unfolding paying_body
  pay_and_run p b tx_id pubkey d s = do
    read_fee x b.block_id d
    account ← require (get_account pubkey s)
    s' ← charge_fee b tx_id (fee_kind p) account s
    paying_body p b tx_id d account s'

  -- A transaction of another type ends the program.
  unfoldable pub run_type : ℕ → BlockInfo → Str → Str → Value → Ledger → Run Ledger
  unfolding pay_and_run
  run_type tx_type b tx_id pubkey d s =
      if tx_type == 1
      then register x b tx_id pubkey d s
      else elim (paying_type tx_type) [ none ↦ exit | some p ↦ pay_and_run p b tx_id pubkey d s ]

  unfoldable pub apply_tx : BlockInfo → Str → Value → Ledger → Run Ledger
  unfolding run_type record_tx
  apply_tx b tx_id node s = do
    d ← require (member "data" node)
    pubkey ← string_field x "pubkey" d
    tx_type ← uint_field x "type" d
    guard (not (has_key tx_id s.tx_map))
    s' ← run_type tx_type b tx_id pubkey d s
    ok (record_tx b tx_id s')

  -- `for(uint32 i = 0; i < tx_num; ++i)`, over as many ids as transactions.
  unfoldable pub apply_txs : BlockInfo → List Str → List Value → Ledger → Run Ledger
  unfolding apply_tx
  apply_txs b [] [] s = ok s
  apply_txs b [] (v ∷ vs) s = exit
  apply_txs b (i ∷ is) [] s = exit
  apply_txs b (i ∷ is) (v ∷ vs) s = apply_tx b i v s >>= apply_txs b is vs

  paying_body-Good :
      (p : Paying) (b : BlockInfo) (tx_id : Str) (d : Value) (account : ℕ) (s : Ledger)
      → IsLinked s
      → IsAccount s.accounts account
      → total s ≤ coins
      → Ensures (Good s 0) (paying_body p b tx_id d account s)
  unfolding paying_body
  paying_body-Good sends b tx_id d account s l k t = send-Good x b tx_id d account s l k t
  paying_body-Good publishes b tx_id d account s l k t = publish-Good x b tx_id d account s l k t
  paying_body-Good answers b tx_id d account s l k t = answer-Good x b tx_id d account s l k
  paying_body-Good rewards b tx_id d account s l k t = reward-Good x b tx_id d account s l k t

  pay_and_run-Good :
      (p : Paying) (b : BlockInfo) (tx_id pubkey : Str) (d : Value) (s : Ledger)
      → IsLinked s
      → total s ≤ coins
      → Ensures (Good s 1) (pay_and_run p b tx_id pubkey d s)
  unfolding pay_and_run
  pay_and_run-Good p b tx_id pubkey d s l t = read-Good s 1 (read_fee x b.block_id d) _ (λ _ _.
      read-Good s 1 (require (get_account pubkey s)) _ (λ account found.
        let known : IsAccount s.accounts account =
          get_account-known s pubkey account l (require-ok _ found) in
        bind-Good s 1 0 1 (charge_fee b tx_id (fee_kind p) account s) _ refl
          (charge_fee-Good b tx_id (fee_kind p) account s l known t)
          (λ u g.
            paying_body-Good p b tx_id d account u g.linked (g.grows account known)
              (omega (arith, g.kept)))))

  run_type-Good :
      (tx_type : ℕ) (b : BlockInfo) (tx_id pubkey : Str) (d : Value) (s : Ledger)
      → IsLinked s
      → total s ≤ coins
      → Ensures (Good s 1) (run_type tx_type b tx_id pubkey d s)
  unfolding run_type
  run_type-Good tx_type b tx_id pubkey d s l t = elim (Bool-cases (tx_type == 1)) [
    | inl e ↦ rw e (register-Good x b tx_id pubkey d s l t)
    | inr e ↦ rw e (paying (paying_type tx_type))
  ]
    where
      paying :
          (o : Option Paying)
          → Ensures (Good s 1) (elim o [ none ↦ exit | some p ↦ pay_and_run p b tx_id pubkey d s ])
      paying none = tt
      paying (some p) = pay_and_run-Good p b tx_id pubkey d s l t

  -- Each transaction leaves one coin for the miner, and loses no other.
  pub apply_tx-Good :
      (b : BlockInfo) (tx_id : Str) (node : Value) (s : Ledger)
      → IsLinked s
      → total s ≤ coins
      → Ensures (Good s 1) (apply_tx b tx_id node s)
  unfolding apply_tx
  apply_tx-Good b tx_id node s l t = read-Good s 1 (require (member "data" node)) _ (λ d _.
      read-Good s 1 (string_field x "pubkey" d) _ (λ pubkey _.
        read-Good s 1 (uint_field x "type" d) _ (λ tx_type _.
          guard-Good s 1 (not (has_key tx_id s.tx_map)) _ (λ _.
            bind-Good s 1 0 1 (run_type tx_type b tx_id pubkey d s) _ refl
              (run_type-Good tx_type b tx_id pubkey d s l t)
              (λ u g. record_tx-Good b tx_id u g.linked)))))

  -- With good pointers and no more than the coins of the genesis block, a list of transactions that
  -- goes through keeps the pointers good and every account there, and takes exactly one coin each
  -- out of the accounts and topics, which is the miner's.
  pub apply_txs-Good :
      (b : BlockInfo) (ids : List Str) (nodes : List Value) (s : Ledger)
      → IsLinked s
      → total s ≤ coins
      → Ensures (Good s (length ids)) (apply_txs b ids nodes s)
  unfolding apply_txs
  apply_txs-Good b [] [] s l t = Good-refl s l
  apply_txs-Good b [] (v ∷ vs) s l t = tt
  apply_txs-Good b (i ∷ is) [] s l t = tt
  apply_txs-Good b (i ∷ is) (v ∷ vs) s l t =
      bind-Good s 1 (length is) (suc (length is)) (apply_tx b i v s) (apply_txs b is vs)
        (omega arith) (apply_tx-Good b i v s l t)
        (λ u g. apply_txs-Good b is vs u g.linked (omega (arith, g.kept)))
