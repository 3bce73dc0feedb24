-- ===== src/Mine/Tests.antt =====
-- The dry run of a transfer, of a registration and of a queue, and the laws at these inputs.
use mathlib.Core.List.{Perm}
use askcoin_core.Base.{
  ◌≡◌, ◌≤◌, refl, sym, Bool, true, Option, none, some, List, [], ◌∷◌, ◌++◌, ◌+◌, ◌*◌, Run, ok, exit,
  arith, length,
}
use askcoin_core.Base.Text.{Str, codes, str_eq, str_eq_iff}
use askcoin_core.Base.Dict.{str_key}
use askcoin_core.Sample.{repeat}
use askcoin_core.Topic.{is_member}
use askcoin_core.Ledger.{
  Ledger, balance_of, find_topic, get_account, account_name_exist, add_balance, sub_balance,
}
use askcoin_core.Ledger.Tests.{sample, sample-IsLinked, author_key, alice_key, old_topic, tx_id}
use askcoin_core.Pending.{Body, tx_reg, tx_send, Tx}
use askcoin_core.Mine.{dry_tx}
use askcoin_core.Mine.Undo.{undo_tx}
use askcoin_core.Mine.Loop.{Miner, at_start, mine_loop}
use askcoin_core.Mine.Loop.Ends.{mine_loop-ends}
use askcoin_core.Mine.Loop.Kept.{mine_loop-keeps}
use askcoin_core.Mine.Total.{dry_tx-goes_on}
use askcoin_core.Mine.Restore.{Restored, IsSane}
use askcoin_core.Mine.Restore.Rounds.{undo_tx-dry_tx, dry_tx-skipped}

abbrev pending : Str → Body → Tx
pending key body = record {
  id = tx_id;
  block_id = 4999;
  pubkey = key;
  body = body;
  broadcast_num = 0;
}

-- Alice sends the author 30 coins; she has not 3000.
abbrev send_tx : Tx
send_tx = pending alice_key (tx_send author_key 30)

abbrev rash_tx : Tx
rash_tx = pending alice_key (tx_send author_key 3000)

abbrev value : Run (Ledger × Bool) → Ledger
value (ok (u, b)) = u
value exit = sample

abbrev verdict : Run (Ledger × Bool) → Option Bool
verdict (ok (u, b)) = some b
verdict exit = none

send_passes : verdict (dry_tx 5000 send_tx sample) ≡ some true
unfolding dry_tx get_account str_eq balance_of sub_balance add_balance
send_passes = refl

pub sample-IsSane : IsSane sample
unfolding find_topic is_member
sample-IsSane = record {
  accounts_fit = (omega arith, (omega arith, (omega arith, tt)));
  topics_fit = ((omega arith, tt), tt);
  id_fits = omega arith;
  next_new = refl;
  topics_found = λ key h.
      let same : str_eq key old_topic ≡ true = ground (arith, h) in
      rw ((str_eq_iff old_topic key).1 (sym ((str_eq_iff key old_topic).0 same))) refl;
  members_joined = (record { known = tt; joined = λ i a e h. absurd (cc h) }, tt);
}

undo_tx-dry_tx_example :
    (w : Ledger) × (undo_tx send_tx (value (dry_tx 5000 send_tx sample)) ≡ ok w) × Restored sample w
unfolding dry_tx get_account str_eq balance_of sub_balance add_balance
undo_tx-dry_tx_example =
    undo_tx-dry_tx 5000 send_tx sample (value (dry_tx 5000 send_tx sample)) sample-IsSane
      (omega arith) refl

dry_tx-skipped_example : Restored sample (value (dry_tx 5000 rash_tx sample))
unfolding dry_tx get_account str_eq balance_of sub_balance add_balance
dry_tx-skipped_example =
    dry_tx-skipped 5000 rash_tx sample (value (dry_tx 5000 rash_tx sample)) sample-IsSane
      (omega arith) refl

-- The coins for Bob come before his registration in the queue, and after it in the block.
abbrev bob_key : Str
bob_key = repeat 88 b'C'

abbrev pub queue : List Tx
queue =
    record send_tx { body = tx_send bob_key 30 }
    ∷ record (pending bob_key (tx_reg (codes "bob") alice_key 3)) { id = repeat 44 b'R' }
    ∷ rash_tx
    ∷ []

abbrev pub miner : Option (Run Miner) → Miner
miner (some (ok m)) = m
miner _ = at_start queue sample

abbrev ids : List Tx → List Str
ids [] = []
ids (t ∷ ts) = t.id ∷ ids ts

queue_run :
    ids (miner (mine_loop 5000 3 12 (at_start queue sample))).mined_txs
    ≡ repeat 44 b'R' ∷ tx_id ∷ []
unfolding mine_loop dry_tx get_account str_eq balance_of sub_balance add_balance account_name_exist
queue_run = refl

mine_loop-ends_example :
    (r : Run Miner) × (mine_loop 5000 (length queue) (3 * length queue + 3) (at_start queue sample)
      ≡ some r)
mine_loop-ends_example = mine_loop-ends 5000 queue sample

mine_loop-keeps_example :
    let m : Miner = miner (mine_loop 5000 3 12 (at_start queue sample)) in
    Perm (m.mined_txs ++ m.uv_2_txs) queue × (length m.mined_txs ≤ 2000)
unfolding mine_loop dry_tx get_account str_eq balance_of sub_balance add_balance account_name_exist
mine_loop-keeps_example =
    mine_loop-keeps 5000 12 queue sample (miner (mine_loop 5000 3 12 (at_start queue sample))) refl

dry_tx-goes_on_example : (r : Ledger × Bool) × (dry_tx 5000 send_tx sample ≡ ok r)
dry_tx-goes_on_example =
    dry_tx-goes_on 5000 send_tx sample sample-IsLinked
      ((λ e. omega arith), ((λ e. omega arith), ((λ e. absurd (cc e)), tt))) tt
