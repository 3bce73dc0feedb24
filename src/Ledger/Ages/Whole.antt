-- ===== src/Ledger/Ages/Whole.antt =====
-- The order of `m_topic_list` through all transactions of a block, and through the block.
use askcoin_core.Base.{
  ℕ, Bool, not, Option, none, some, List, [], ◌∷◌, exit, require, length, ◌==◌, ◌≤◌, arith, Ensures,
  bind-Ensures, Ensures-of, guard-Ensures, Bool-cases, inl, inr,
}
use askcoin_core.Base.Text.{Str}
use askcoin_core.Base.Dict.{has_key, str_key}
use askcoin_core.External.{External}
use askcoin_core.Ledger.{Ledger, set_balance, add_balance, sub_balance, edit_account, get_account}
use askcoin_core.Ledger.Tx.{BlockInfo, string_field, uint_field}
use askcoin_core.Ledger.Tx.Fee.{read_fee, charge_fee}
use askcoin_core.Ledger.Tx.Apply.{
  Paying, fee_kind, paying_type, record_tx, paying_body, pay_and_run, run_type, apply_tx, apply_txs,
}
use Paying.{sends, publishes, answers, rewards}
use askcoin_core.Ledger.Expiry.{Archive, proc_topic_expired, proc_tx_map}
use askcoin_core.Ledger.Block.{pay_tx_num, pay_block_reward, reward_miner, apply_block}
use askcoin_core.Ledger.Ages.{Timely, proc_topic_expired-Timely, proc_tx_map-Timely}
use askcoin_core.Ledger.Ages.Txs.{
  charge_fee-Timely, register-Timely, send-Timely, publish-Timely, answer-Timely, reward-Timely,
}

module _ (x : External) (b : BlockInfo) (h : 1 ≤ b.block_id) where
  open x use {Value, member}

  abbrev T : Ledger → Type 0
  T = Timely b.block_id

  paying_body-Timely :
      (p : Paying) (tx_id : Str) (d : Value) (account : ℕ) (s : Ledger)
      → T s
      → Ensures T (paying_body x p b tx_id d account s)
  unfolding paying_body
  paying_body-Timely sends tx_id d account s o = send-Timely x b.block_id b tx_id d account s o
  paying_body-Timely publishes tx_id d account s o = publish-Timely x b tx_id d account s h o
  paying_body-Timely answers tx_id d account s o = answer-Timely x b.block_id b tx_id d account s o
  paying_body-Timely rewards tx_id d account s o = reward-Timely x b.block_id b tx_id d account s o

  pay_and_run-Timely :
      (p : Paying) (tx_id pubkey : Str) (d : Value) (s : Ledger)
      → T s
      → Ensures T (pay_and_run x p b tx_id pubkey d s)
  unfolding pay_and_run
  pay_and_run-Timely p tx_id pubkey d s o = bind-Ensures T (read_fee x b.block_id d) _ (λ _ _.
      bind-Ensures T (require (get_account pubkey s)) _ (λ account _.
        bind-Ensures T (charge_fee b tx_id (fee_kind p) account s) _ (λ u ran.
          paying_body-Timely p tx_id d account u (
            Ensures-of T (charge_fee b tx_id (fee_kind p) account s) u
              (charge_fee-Timely b.block_id b tx_id (fee_kind p) account s o) ran))))

  run_type-Timely :
      (tx_type : ℕ) (tx_id pubkey : Str) (d : Value) (s : Ledger)
      → T s
      → Ensures T (run_type x tx_type b tx_id pubkey d s)
  unfolding run_type
  run_type-Timely tx_type tx_id pubkey d s o = elim (Bool-cases (tx_type == 1)) [
    | inl e ↦ rw e (register-Timely x b.block_id b tx_id pubkey d s o)
    | inr e ↦ rw e (paying (paying_type tx_type))
  ]
    where
      paying :
          (p : Option Paying)
          → Ensures T (elim p [ none ↦ exit | some q ↦ pay_and_run x q b tx_id pubkey d s ])
      paying none = tt
      paying (some q) = pay_and_run-Timely q tx_id pubkey d s o

  apply_tx-Timely :
      (tx_id : Str) (node : Value) (s : Ledger) → T s → Ensures T (apply_tx x b tx_id node s)
  unfolding apply_tx record_tx
  apply_tx-Timely tx_id node s o = bind-Ensures T (require (member "data" node)) _ (λ d _.
      bind-Ensures T (string_field x "pubkey" d) _ (λ pubkey _.
        bind-Ensures T (uint_field x "type" d) _ (λ tx_type _.
          guard-Ensures T (not (has_key tx_id s.tx_map)) _ (λ _.
            bind-Ensures T (run_type x tx_type b tx_id pubkey d s) _ (λ u ran.
              Ensures-of T (run_type x tx_type b tx_id pubkey d s) u
                (run_type-Timely tx_type tx_id pubkey d s o) ran)))))

  apply_txs-Timely :
      (ids : List Str) (nodes : List Value) (s : Ledger)
      → T s
      → Ensures T (apply_txs x b ids nodes s)
  unfolding apply_txs
  apply_txs-Timely [] [] s o = o
  apply_txs-Timely [] (v ∷ vs) s o = tt
  apply_txs-Timely (i ∷ is) [] s o = tt
  apply_txs-Timely (i ∷ is) (v ∷ vs) s o =
      bind-Ensures T (apply_tx x b i v s) (apply_txs x b is vs) (λ u ran.
        apply_txs-Timely is vs u
          (Ensures-of T (apply_tx x b i v s) u (apply_tx-Timely i v s o) ran))

  reward_miner-Timely : (miner tx_num : ℕ) (s : Ledger) → T s → T (reward_miner b miner tx_num s).0
  unfolding reward_miner pay_tx_num pay_block_reward edit_account add_balance sub_balance
      set_balance
  reward_miner-Timely miner tx_num s o = ground (arith, o)

  -- A block keeps the topics in the order of their blocks.
  pub apply_block-Timely :
      (a : Archive) (miner_pubkey : Str) (miner : ℕ) (ids : List Str) (nodes : List Value)
      (s : Ledger)
      → T s
      → Ensures (λ r. T r.0) (apply_block x a b miner_pubkey miner ids nodes s)
  unfolding apply_block
  apply_block-Timely a miner_pubkey miner ids nodes s o =
      bind-Ensures P (proc_topic_expired b.block_id s) _ (λ live at_live.
        bind-Ensures P (proc_tx_map x a b.block_id live) _ (λ fresh at_fresh.
          guard-Ensures P (length ids == length nodes) _ (λ _.
            bind-Ensures P (apply_txs x b ids nodes fresh) _ (λ done at_done.
              reward_miner-Timely miner (length ids) done (
                Ensures-of T (apply_txs x b ids nodes fresh) done
                  (apply_txs-Timely ids nodes fresh (
                    Ensures-of T (proc_tx_map x a b.block_id live) fresh
                      (proc_tx_map-Timely x a b.block_id b.block_id live (
                        Ensures-of T (proc_topic_expired b.block_id s) live
                          (proc_topic_expired-Timely b.block_id b.block_id s o) at_live))
                      at_fresh))
                  at_done)))))
    where
      P : Ledger × Bool → Type 0
      P r = T r.0
