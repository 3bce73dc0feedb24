-- ===== src/Ledger/Tests.antt =====
-- Runs of the ledger, and its laws at those inputs. The reserve fund (0), the author (1) and alice
-- (2), whom the author referred; alice has an open topic.
use askcoin_core.Base.{
  ℕ, ◌+◌, ◌≡◌, ◌↔◌, ◌⊎◌, inl, ◌==◌, if◌then◌else◌, refl, Bool, true, none, some, List, [], ◌∷◌, Run,
  ok, exit, Ensures, arith,
}
use askcoin_core.Base.Text.{Str, codes, str_eq, is_base64_char}
use askcoin_core.Account.{Account, new_account, HistoryType, add_history, leave_topic}
use askcoin_core.Topic.{Topic, new_topic}
use askcoin_core.Sample.{Doc, num, str, obj, end, field, lenient, repeat}
use askcoin_core.Ledger.{
  Ledger, balance_of, coins, check_balance, find_account, get_account, set_balance, add_balance,
  sub_balance, edit_account, bal_in,
}
use askcoin_core.Ledger.Balance.{total, check_balance_iff}
use askcoin_core.Ledger.Rich.{IsRanked, listed, set_balance-IsRanked}
use askcoin_core.Ledger.Links.{IsLinked}
use askcoin_core.Ledger.Good.{Good}
use askcoin_core.Ledger.Tx.{
  BlockInfo, in_window, string_field, uint_field, uint64_field, base64_field,
}
use askcoin_core.Ledger.Tx.Fee.{read_fee, charge_fee, charge_fee_lem}
use askcoin_core.Ledger.Tx.Send.{send, move_coins, move_coins_lem}
use askcoin_core.Ledger.Tx.Apply.{apply_txs, apply_txs-Good}
use askcoin_core.Ledger.Expiry.{Archive, proc_topic_expired, proc_tx_map}
use askcoin_core.Ledger.Expiry.Freed.{Freed, proc_topic_expired_lem}
use askcoin_core.Ledger.Expiry.Ends.{OwnTopics, proc_topic_expired-goes_on}
use askcoin_core.Ledger.Block.{apply_block, apply_block-Good}

abbrev pub author_key : Str
author_key = repeat 88 b'A'

abbrev pub alice_key : Str
alice_key = repeat 88 b'B'

abbrev pub old_topic : Str
old_topic = repeat 44 b'T'

abbrev pub alice : Account
alice = record (new_account 2 (codes "alice") alice_key 1 1) {
  balance = 100;
  referrer = some 1;
  topic_list = old_topic ∷ [];
}

abbrev pub sample : Ledger
sample = record {
  accounts =
      record (new_account 0 (codes "fund") [] 1 0) { balance = 500000000000 }
      ∷ record (new_account 1 (codes "author") author_key 1 0) { balance = 499999999890 }
      ∷ alice
      ∷ [];
  by_pubkey = (author_key, 1) ∷ (alice_key, 2) ∷ [];
  names = codes "fund" ∷ codes "author" ∷ codes "alice" ∷ [];
  cur_account_id = 2;
  rich = 0 ∷ 1 ∷ 2 ∷ [];
  topics = old_topic ∷ [];
  topic_list = new_topic old_topic (codes "text") 7 10 2 ∷ [];
  tx_map = [];
  rollback_topics = [];
  rollback_txs = [];
  miner_pubkeys = [];
}

pub sample-IsLinked : IsLinked sample
sample-IsLinked = record {
  reserve_known = refl;
  pubkeys_known = (refl, (refl, tt));
  referrers_known = (tt, (tt, (refl, tt)));
  owners_known = (tt, tt);
}

abbrev info : BlockInfo
info = record { block_id = 5000; block_hash = repeat 44 b'H'; utc = 1600000000 }

abbrev archive : Archive
archive = record { block_hash = λ i. none; import_block_id = 0; import_tx_map = [] }

-- Alice sends the author 30 coins.
abbrev pub send_doc : Doc
send_doc = obj (
    field "data"
      (obj (
        field "pubkey" (str alice_key) (
          field "type" (num 2) (
            field "fee" (num 2) (
              field "block_id" (num 4999)
                (field "amount" (num 30) (field "receiver" (str author_key) end)))))))
      end)

abbrev pub tx_id : Str
tx_id = repeat 44 b'S'

-- What a run leaves to the fund, the author and alice.
abbrev balances : Run (Ledger × Bool) → List ℕ
balances exit = []
balances (ok r) =
    balance_of 0 r.0.accounts ∷ balance_of 1 r.0.accounts ∷ balance_of 2 r.0.accounts ∷ []

-- The topic of block 7 expires with block 5000 and gives its 10 coins to the fund; the author mined
-- the block.
block_run :
    balances (apply_block lenient archive info author_key 1 (tx_id ∷ []) (send_doc ∷ []) sample)
    ≡ 499999995010 ∷ 500000004922 ∷ 68 ∷ []
unfolding apply_block balance_of proc_topic_expired proc_tx_map apply_txs read_fee charge_fee send
    in_window string_field uint_field uint64_field base64_field add_history leave_topic str_eq
    is_base64_char get_account find_account set_balance add_balance sub_balance edit_account
block_run = refl

check_run : check_balance sample ≡ true
unfolding check_balance
check_run = refl

check_balance_iff_example : (check_balance sample ≡ true) ↔ (total sample ≡ coins)
check_balance_iff_example = check_balance_iff sample (omega arith)

apply_block-Good_example :
    Ensures
      (λ r. IsLinked r.0 × (total r.0 ≡ coins))
      (apply_block lenient archive info author_key 1 (tx_id ∷ []) (send_doc ∷ []) sample)
apply_block-Good_example =
    apply_block-Good lenient archive info author_key 1 (tx_id ∷ []) (send_doc ∷ []) sample (tt, tt)
      (omega arith, tt) sample-IsLinked refl refl

apply_txs-Good_example :
    Ensures (Good sample 1) (apply_txs lenient info (tx_id ∷ []) (send_doc ∷ []) sample)
apply_txs-Good_example =
    apply_txs-Good lenient info (tx_id ∷ []) (send_doc ∷ []) sample sample-IsLinked (omega arith)

-- The ledger without alice's topic.
abbrev freed : Ledger
freed = record sample {
  accounts =
      record (new_account 0 (codes "fund") [] 1 0) { balance = 500000000010 }
      ∷ record (new_account 1 (codes "author") author_key 1 0) { balance = 499999999890 }
      ∷ record alice { topic_list = [] }
      ∷ [];
  topics = [];
  topic_list = [];
  rollback_topics = (679, new_topic old_topic (codes "text") 7 10 2 ∷ []) ∷ [];
}

expiry_run : proc_topic_expired 5000 sample ≡ ok freed
unfolding proc_topic_expired find_account add_balance set_balance balance_of edit_account str_eq
expiry_run = refl

proc_topic_expired_lem_example :
    ((gone : List Topic) × Freed 5000 sample gone freed) × Good sample 0 freed
proc_topic_expired_lem_example =
    proc_topic_expired_lem 5000 sample freed (tt, tt) (omega arith, tt) sample-IsLinked
      (omega arith) expiry_run

proc_topic_expired-goes_on_example :
    (u : Ledger) × (proc_topic_expired 5000 sample ≡ ok u) × OwnTopics u.accounts u.topic_list
proc_topic_expired-goes_on_example = proc_topic_expired-goes_on 5000 sample (λ i. ground arith)

move_coins_lem_example :
    (t : Ledger) × (move_coins info tx_id [] 2 1 30 sample ≡ ok t)
    × (balance_of 2 t.accounts + 30 ≡ balance_of 2 sample.accounts)
    × (balance_of 1 t.accounts ≡ balance_of 1 sample.accounts + 30)
    × ((j : ℕ) → (j ≡ 2) ⊎ (j ≡ 1) ⊎ (balance_of j t.accounts ≡ balance_of j sample.accounts))
unfolding balance_of
move_coins_lem_example =
    move_coins_lem info tx_id [] 2 1 30 sample refl refl (omega arith) (omega arith) (omega arith)

charge_fee_lem_example :
    (t : Ledger) × (charge_fee info tx_id HistoryType.send_fee 2 sample ≡ ok t)
    × (balance_of 2 t.accounts + 2 ≡ balance_of 2 sample.accounts)
    × (balance_of 1 t.accounts ≡ balance_of 1 sample.accounts + 1)
unfolding balance_of find_account
charge_fee_lem_example =
    charge_fee_lem info tx_id HistoryType.send_fee 2 1 alice sample sample-IsLinked refl refl refl
      (omega arith) (omega arith) (omega arith)

-- Alice grows richer than the author and moves up.
set_balance-IsRanked_example :
    IsRanked
      (bal_in (set_balance 2 499999999891 sample).accounts)
      (set_balance 2 499999999891 sample).rich
    × ((j : ℕ)
        → listed j (set_balance 2 499999999891 sample).rich
          ≡ (if j == 2 then true else listed j sample.rich))
unfolding balance_of find_account
set_balance-IsRanked_example =
    set_balance-IsRanked 2 499999999891 sample
      ((inl (omega arith), (inl (omega arith), tt)), ((inl (omega arith), tt), (tt, tt)))
