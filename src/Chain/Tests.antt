-- ===== src/Chain/Tests.antt =====
-- A block that is mined on a short chain, and the law at that input.
use askcoin_core.Base.{
  ℕ, ◌≡◌, refl, true, false, none, List, [], ◌∷◌, Run, ok, exit, Ensures, arith,
}
use askcoin_core.Base.Text.{Str, str_eq, is_base64_char}
use askcoin_core.Accum.{add_pow, gt}
use askcoin_core.Pow.{hash_pow, zero_bits_in_range, zero_bits_ok}
use askcoin_core.Account.{add_history, leave_topic}
use askcoin_core.Sample.{Doc, num, str, arr, obj, nil, cons, end, field, accepting, repeat}
use askcoin_core.Ledger.{
  balance_of, find_account, get_account, set_balance, add_balance, sub_balance, edit_account,
}
use askcoin_core.Ledger.Tests.{sample, sample-IsLinked, author_key, send_doc, tx_id}
use askcoin_core.Ledger.Tx.{
  in_window, verify_sign, string_field, uint_field, uint64_field, base64_field,
}
use askcoin_core.Ledger.Tx.Fee.{read_fee, charge_fee}
use askcoin_core.Ledger.Tx.Send.{send}
use askcoin_core.Ledger.Tx.Apply.{apply_txs}
use askcoin_core.Ledger.Expiry.{proc_topic_expired, proc_tx_map}
use askcoin_core.Ledger.Block.{apply_block}
use askcoin_core.Chain.Hash.{verify_hash}
use askcoin_core.Chain.{Block, Chain, version_compatible, mined_new_block}
use askcoin_core.Chain.Head.{IsSound, Extends, mined_new_block-Extends}
use askcoin_core.Chain.Growth.{Mines, Grown, Mines-Grown}

abbrev parent_hash : Str
parent_hash = repeat 44 b'P'

abbrev new_hash : Str
new_hash = repeat 44 b'N'

abbrev head : Block
head = record {
  id = 4999;
  utc = 1600000000;
  version = 2;
  zero_bits = 3;
  utc_diff = 5;
  hash = parent_hash;
  parent = none;
  miner_pubkey = author_key;
  accum_pow = 40000 ∷ 0 ∷ 0 ∷ 0 ∷ 0 ∷ 0 ∷ 0 ∷ 0 ∷ 0 ∷ [];
  miner_reward = true;
  in_main_chain = true;
  tx_num = 0;
}

abbrev chain : Chain
chain = record {
  ledger = sample;
  blocks = (parent_hash, head) ∷ [];
  block_by_id = (4999, parent_hash) ∷ [];
  cur_block = head;
  most_difficult_block = head;
  import_block_id = 0;
  import_tx_map = [];
  block_changed = false;
}

-- The head came after 5 seconds: the next target has one bit more.
abbrev block_doc : Doc
block_doc = obj (
    field "hash" (str new_hash) (
      field "sign" (str (repeat 96 b'g')) (
        field "tx" (arr (cons send_doc nil)) (
          field "data"
            (obj (
              field "id" (num 5000) (
                field "utc" (num 1600000020) (
                  field "version" (num 2) (
                    field "zero_bits" (num 4) (
                      field "pre_hash" (str parent_hash) (
                        field "miner" (str author_key) (
                          field "nonce"
                            (arr (cons (num 0) (cons (num 0) (cons (num 0) (cons (num 1) nil)))))
                            (field "tx_ids" (arr (cons (str tx_id) nil)) end)))))))))
            end))))

-- The number and the accumulated work of the head.
abbrev head_of : Run Chain → List ℕ
head_of exit = []
head_of (ok c) = c.cur_block.id ∷ c.cur_block.accum_pow

mine_run :
    head_of (mined_new_block (accepting new_hash parent_hash) 1600000030 block_doc chain)
    ≡ 5000 ∷ 40016 ∷ 0 ∷ 0 ∷ 0 ∷ 0 ∷ 0 ∷ 0 ∷ 0 ∷ 0 ∷ []
unfolding mined_new_block verify_hash hash_pow zero_bits_in_range zero_bits_ok add_pow gt
    apply_block balance_of proc_topic_expired proc_tx_map apply_txs read_fee charge_fee send
    in_window verify_sign string_field uint_field uint64_field base64_field add_history leave_topic
    str_eq is_base64_char get_account find_account set_balance add_balance sub_balance edit_account
    version_compatible
mine_run = refl

chain-IsSound : IsSound chain
chain-IsSound = record {
  linked = sample-IsLinked;
  whole = refl;
  timely = ((tt, tt), ((omega arith, omega arith), tt));
  accum = record { nine = refl; norm = omega arith };
  best_accum = record { nine = refl; norm = omega arith };
  best = omega arith;
  modest = omega arith;
}

mined_new_block-Extends_example :
    Ensures
      (Extends 1600000030 chain)
      (mined_new_block (accepting new_hash parent_hash) 1600000030 block_doc chain)
mined_new_block-Extends_example =
    mined_new_block-Extends (accepting new_hash parent_hash) 1600000030 block_doc chain
      chain-IsSound (omega arith)

went_on : (r : Run Chain) (n : ℕ) (ns : List ℕ) → head_of r ≡ n ∷ ns → (c : Chain) × (r ≡ ok c)
went_on exit n ns e = cc
went_on (ok c) n ns e = (c, refl)

-- The chain with the mined block.
mined :
    (c : Chain) × (mined_new_block (accepting new_hash parent_hash) 1600000030 block_doc chain
      ≡ ok c)
mined = went_on _ _ _ mine_run

Mines-Grown_example : Grown 1 chain mined.0
Mines-Grown_example =
    Mines-Grown (accepting new_hash parent_hash) 1 chain mined.0
      (Mines.next 1600000030 block_doc Mines.start mined.1) chain-IsSound (omega arith)
