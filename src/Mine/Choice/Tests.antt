-- ===== src/Mine/Choice/Tests.antt =====
-- A block of one transfer, while a topic and a transaction expire.
use mathlib.Core.List.{Perm}
use askcoin_core.Base.{◌≡◌, ◌≤◌, refl, some, [], ◌∷◌, ◌++◌, ok, arith, length}
use askcoin_core.Base.Text.{str_eq}
use askcoin_core.Sample.{lenient}
use askcoin_core.Account.{leave_topic}
use askcoin_core.Ledger.{
  Ledger, find_account, get_account, set_balance, add_balance, sub_balance, balance_of,
  edit_account,
}
use askcoin_core.Ledger.Expiry.{proc_topic_expired, proc_tx_map}
use askcoin_core.Mine.{dry_tx}
use askcoin_core.Mine.Loop.{Miner, at_start, mine_loop}
use askcoin_core.Mine.Tests.{miner}
use askcoin_core.Mine.Reopen.Tests.{
  joined_sample, imported, without_topic, start, coins_tx, can, noted, gone_topics, gone_txs,
  start-IsSane,
}
use askcoin_core.Mine.Whole.{Rounds}
use askcoin_core.Mine.Reopen.Whole.{IsBack}
use askcoin_core.Mine.Sound.{IsSound}
use askcoin_core.Mine.Choice.{mine_tx, mine_tx-IsBack}

start-IsSound : IsSound start.tx_map start
unfolding proc_topic_expired proc_tx_map leave_topic str_eq add_balance sub_balance set_balance
    edit_account find_account
start-IsSound = record {
  accounts_fit = start-IsSane.accounts_fit;
  ids_below = (omega arith, (omega arith, (omega arith, tt)));
  topics_fit = tt;
  topics_found = start-IsSane.topics_found;
  members_known = tt;
  members_joined = tt;
}

abbrev last : Miner
last = miner (mine_loop 5000 1 6 (at_start (coins_tx ∷ []) start))

mine_tx-IsBack_example :
    (w : Ledger) × (mine_tx lenient imported 5000 6 (coins_tx ∷ []) joined_sample
      ≡ some (ok (last.mined_txs, w)))
    × IsBack 5000 joined_sample w
    × Rounds 5000 start last.mined_txs last.ledger
    × Perm (last.mined_txs ++ last.uv_2_txs) (coins_tx ∷ [])
    × (length last.mined_txs ≤ 2000)
unfolding mine_loop dry_tx get_account str_eq balance_of sub_balance add_balance proc_topic_expired
    proc_tx_map leave_topic set_balance edit_account find_account
mine_tx-IsBack_example =
    mine_tx-IsBack lenient imported 5000 6 (coins_tx ∷ []) joined_sample without_topic start last
      can noted (omega arith, tt) gone_topics gone_txs start-IsSound (omega arith) refl
