-- ===== src/Mine/Sound/Tests.antt =====
-- The queue of three transactions, from a sound ledger.
use askcoin_core.Base.{◌≡◌, refl, [], ok, arith}
use askcoin_core.Base.Text.{str_eq}
use askcoin_core.Topic.{is_member}
use askcoin_core.Ledger.{
  Ledger, get_account, balance_of, account_name_exist, add_balance, sub_balance,
}
use askcoin_core.Ledger.Tests.{sample}
use askcoin_core.Mine.{dry_tx}
use askcoin_core.Mine.Loop.{Miner, at_start, mine_loop}
use askcoin_core.Mine.Whole.{undo_all}
use askcoin_core.Mine.Restore.{Restored}
use askcoin_core.Mine.Tests.{queue, miner, sample-IsSane}
use askcoin_core.Mine.Sound.{IsSound}
use askcoin_core.Mine.Sound.Runs.{undo_all-mine_loop}

sample-IsSound : IsSound [] sample
unfolding is_member
sample-IsSound = record {
  accounts_fit = sample-IsSane.accounts_fit;
  ids_below = (omega arith, (omega arith, (omega arith, tt)));
  topics_fit = sample-IsSane.topics_fit;
  topics_found = sample-IsSane.topics_found;
  members_known = (tt, tt);
  members_joined = ((λ i a e h. absurd (cc h)), tt);
}

abbrev last : Miner
last = miner (mine_loop 5000 3 12 (at_start queue sample))

undo_all-mine_loop_example :
    IsSound last.ledger.tx_map last.ledger
    × (w : Ledger) × (undo_all last.mined_txs last.ledger ≡ ok w)
    × Restored sample w
unfolding mine_loop dry_tx get_account str_eq balance_of sub_balance add_balance account_name_exist
undo_all-mine_loop_example =
    undo_all-mine_loop 5000 12 queue sample last sample-IsSound (omega arith)
      (omega arith, (tt, (omega arith, tt))) refl
