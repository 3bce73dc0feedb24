-- ===== src/Account/Tests.antt =====
-- Runs of the histories, and their laws at those inputs.
use askcoin_core.Base.{◌≡◌, refl, [], ◌∷◌, All, arith}
use askcoin_core.Base.Text.{codes}
use askcoin_core.Account.{
  Account, History, HistoryType, new_account, new_history, add_history, pop_history,
  proc_history_expired,
}
use askcoin_core.Account.Histories.{
  IsBounded, IsRecent, add_history-IsBounded, pop_history-add_history, proc_history_expired_lem,
}

abbrev old_entry : History
old_entry = record (new_history HistoryType.send_fee) { block_id = 10 }

abbrev new_entry : History
new_entry = record (new_history HistoryType.miner_tx_reward) { block_id = 90000 }

abbrev account : Account
account = record (new_account 2 (codes "alice") [] 1 1) {
  history = old_entry ∷ new_entry ∷ [];
  history_for_explorer = old_entry ∷ [];
}

account-IsBounded : IsBounded account
account-IsBounded = record { history_size = omega arith; explorer_size = omega arith }

expire_run : (proc_history_expired 150000 account).history ≡ new_entry ∷ []
unfolding proc_history_expired
expire_run = refl

add_history-IsBounded_example : IsBounded (add_history new_entry account)
add_history-IsBounded_example = add_history-IsBounded new_entry account account-IsBounded

pop_history-add_history_example :
    (pop_history (add_history new_entry account)).history ≡ account.history
pop_history-add_history_example = pop_history-add_history new_entry account (omega arith)

proc_history_expired_lem_example :
    IsBounded (proc_history_expired 150000 account)
    × All (IsRecent 150000) (proc_history_expired 150000 account).history
    × All (IsRecent 150000) (proc_history_expired 150000 account).history_for_explorer
proc_history_expired_lem_example =
    proc_history_expired_lem 150000 account ((omega arith, tt), (tt, tt)) (tt, tt)
