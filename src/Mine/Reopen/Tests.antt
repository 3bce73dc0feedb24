-- ===== src/Mine/Reopen/Tests.antt =====
-- A topic that the author joined and a transaction expire with a block, alice's coins are sent in a dry run, and all
-- is taken back.
use askcoin_core.Base.{ℕ, ◌≡◌, refl, subst, Option, some, List, [], ◌∷◌, Run, ok, exit, arith, All}
use askcoin_core.Base.Text.{Str, codes, str_eq}
use askcoin_core.Base.Dict.{lookup, str_key}
use askcoin_core.Sample.{lenient, repeat}
use askcoin_core.Account.{Account, new_account, leave_topic, is_in, joined_topic}
use askcoin_core.Topic.{new_topic, is_member}
use askcoin_core.Ledger.{Ledger, find_account, set_balance, add_balance, sub_balance, edit_account}
use askcoin_core.Ledger.Expiry.{
  Archive, expiring, erase_txs, expire_block_txs, proc_topic_expired, proc_tx_map,
}
use askcoin_core.Ledger.Tests.{sample, alice, author_key, alice_key, old_topic}
use askcoin_core.Pending.{tx_send, Tx}
use askcoin_core.Mine.Restore.{IsSane}
use askcoin_core.Mine.Reopen.{reopen}
use askcoin_core.Mine.Reopen.Rounds.{ok_inj}
use askcoin_core.Mine.Reopen.Whole.{CanReopen}

abbrev old_tx : Str
old_tx = repeat 44 b'O'

abbrev new_topic_key : Str
new_topic_key = repeat 44 b'U'

-- The author joined the old topic before another, which is not in the list any more.
abbrev pub joined_sample : Ledger
joined_sample = record sample {
  accounts =
      record (new_account 0 (codes "fund") [] 1 0) { balance = 500000000000 }
      ∷ record (new_account 1 (codes "author") author_key 1 0) {
        balance = 499999999890;
        joined_topic_list = new_topic_key ∷ old_topic ∷ [];
      }
      ∷ alice
      ∷ [];
  topic_list =
      record (new_topic old_topic (codes "text") 7 10 2) { members = (repeat 44 b'J', 1) ∷ [] }
      ∷ [];
  tx_map = (old_tx, 679) ∷ [];
}

-- The chain was imported up to block 1000.
abbrev pub imported : Archive
imported = record {
  block_hash = λ i. some (repeat 44 b'H');
  import_block_id = 1000;
  import_tx_map = (679, old_tx ∷ []) ∷ [];
}

abbrev left : Run Ledger → Ledger
left (ok s) = s
left exit = sample

abbrev pub without_topic : Ledger
without_topic = left (proc_topic_expired 5000 joined_sample)

abbrev pub start : Ledger
start = left (proc_tx_map lenient imported 5000 without_topic)

abbrev pub coins_tx : Tx
coins_tx = record {
  id = repeat 44 b'S';
  block_id = 4999;
  pubkey = alice_key;
  body = tx_send author_key 30;
  broadcast_num = 0;
}

abbrev joined_lists : List Account → List (List Str)
joined_lists [] = []
joined_lists (a ∷ xs) = a.joined_topic_list ∷ joined_lists xs

-- The old topic comes to the front of the author's list.
reopen_run :
    joined_lists (left (reopen 5000 start)).accounts
    ≡ [] ∷ (old_topic ∷ new_topic_key ∷ []) ∷ [] ∷ []
unfolding reopen proc_topic_expired proc_tx_map leave_topic str_eq add_balance sub_balance
    set_balance edit_account find_account
reopen_run = refl

pub can : CanReopen joined_sample
unfolding find_account joined_topic is_in str_eq is_member
can = record {
  fits = (omega arith, (omega arith, (omega arith, tt)));
  ready =
      (record { listed = refl; small = omega arith; members = ((_, refl, refl), refl, tt) }, tt);
  apart = (tt, tt);
  unique = (refl, tt);
}

pub start-IsSane : IsSane start
unfolding proc_topic_expired proc_tx_map leave_topic str_eq add_balance sub_balance set_balance
    edit_account find_account
start-IsSane = record {
  accounts_fit = (omega arith, (omega arith, (omega arith, tt)));
  topics_fit = tt;
  id_fits = omega arith;
  next_new = refl;
  topics_found = λ key h. absurd (cc h);
  members_joined = tt;
}

pub gone_topics : proc_topic_expired 5000 joined_sample ≡ ok without_topic
unfolding proc_topic_expired leave_topic str_eq add_balance sub_balance set_balance edit_account
    find_account
gone_topics = refl

pub gone_txs : proc_tx_map lenient imported 5000 without_topic ≡ ok start
unfolding proc_topic_expired proc_tx_map leave_topic str_eq add_balance sub_balance set_balance
    edit_account find_account
gone_txs = refl

pub noted :
    (r : (Option ℕ × List Str) × List (Str × ℕ))
    → expire_block_txs lenient imported (expiring 5000) joined_sample.tx_map ≡ ok r
    → All (λ i. lookup i joined_sample.tx_map ≡ some (expiring 5000)) r.0.1
unfolding expire_block_txs erase_txs str_eq
noted r e =
    subst (λ q. All (λ i. lookup i joined_sample.tx_map ≡ some (expiring 5000)) q.0.1) (ok_inj e)
      (refl, tt)
