-- ===== src/Pool/Tests.antt =====
-- Runs of the pool: transactions that wait, pass and are mined, two that come to nothing, and the laws at these
-- inputs.
use askcoin_core.Base.{ℕ, ◌≡◌, refl, true, List, [], ◌∷◌, arith, All, u64_mod, ◌-◌}
use askcoin_core.Base.Text.{Str, str_eq, codes}
use askcoin_core.Base.Dict.{contains, str_key}
use askcoin_core.Sample.{repeat}
use askcoin_core.Account.{Account, joined_topic}
use askcoin_core.Ledger.Tx.{in_window}
use askcoin_core.Ledger.{Ledger, get_account, find_account, get_topic, edit_account, edit_topic}
use askcoin_core.Ledger.Tests.{sample, author_key, alice_key, old_topic, tx_id}
use askcoin_core.Pending.{Body, tx_send, tx_reply, Tx}
use askcoin_core.Pool.{Pool, Decision, pass, judge, Allows}
use askcoin_core.Pool.Review.{release, do_uv_tx}
use askcoin_core.Pool.Submit.{submit}
use askcoin_core.Pool.Reserve.{IsModest, release-judge}
use askcoin_core.Pool.Tidy.Passing.{IsTidy, submits, passes, at_first, and_then, Events-IsTidy}
use askcoin_core.Pool.Clean.{IsCurrent, do_uv_tx-IsCurrent}
use askcoin_core.Pool.Afford.{payer_of, IsCovered, judge-IsCovered}

abbrev made : Str → Body → Tx
made key body = record { id = tx_id; block_id = 100; pubkey = key; body = body; broadcast_num = 0 }

-- Alice sends the author 30 coins; the author answers Alice's topic.
abbrev gift : Tx
gift = made alice_key (tx_send author_key 30)

abbrev remark : Tx
remark = record (made author_key (tx_reply old_topic [] (codes "yes") 0)) { id = repeat 44 b'R' }

-- Alice has not so much.
abbrev dream : Tx
dream = record (made alice_key (tx_send author_key 3000)) { id = repeat 44 b'D' }

abbrev empty : Pool
empty = record {
  uv_1_txs = [];
  uv_2_txs = [];
  uv_3_txs = [];
  uv_tx_ids = [];
  uv_account_names = [];
  uv_account_pubkeys = [];
  ledger = sample;
}

abbrev waiting : Pool
waiting = record empty {
  uv_1_txs = gift ∷ remark ∷ dream ∷ [];
  uv_tx_ids = gift.id ∷ remark.id ∷ dream.id ∷ [];
}

abbrev after : Decision → Ledger
after (pass u s) = s
after _ = sample

abbrev spending : List Account → List ℕ
spending [] = []
spending (a ∷ xs) = a.uv_spend ∷ spending xs

abbrev ids_of : List Tx → List Str
ids_of [] = []
ids_of (t ∷ ts) = t.id ∷ ids_of ts

abbrev taken_up : Pool
taken_up = do_uv_tx 100 waiting

-- Two pass, and the third waits for Alice to have the coins.
passes_two : ids_of taken_up.uv_2_txs ≡ gift.id ∷ remark.id ∷ []
unfolding do_uv_tx get_account find_account get_topic edit_account edit_topic str_eq joined_topic
    in_window
passes_two = refl

waits_one : ids_of taken_up.uv_1_txs ≡ dream.id ∷ []
unfolding do_uv_tx get_account find_account get_topic edit_account edit_topic str_eq joined_topic
    in_window
waits_one = refl

counts_two : spending taken_up.ledger.accounts ≡ 0 ∷ 2 ∷ 32 ∷ []
unfolding do_uv_tx get_account find_account get_topic edit_account edit_topic str_eq joined_topic
    in_window
counts_two = refl

-- Twelve thousand blocks later both are gone, and so is what was counted.
clears : ids_of (do_uv_tx 12000 taken_up).uv_2_txs ≡ []
unfolding do_uv_tx get_account find_account get_topic edit_account edit_topic str_eq joined_topic
    in_window
clears = refl

counts_nothing : spending (do_uv_tx 12000 taken_up).ledger.accounts ≡ 0 ∷ 0 ∷ 0 ∷ []
unfolding do_uv_tx get_account find_account get_topic edit_account edit_topic str_eq joined_topic
    in_window
counts_nothing = refl

-- A transfer of all the coins that a uint64 can hold, by an account with 100: the cost, with the fee, is 1.
abbrev flood : Tx
flood = made alice_key (tx_send author_key (u64_mod - 1))

floods : spending (after (judge 100 flood sample)).accounts ≡ 0 ∷ 0 ∷ 1 ∷ []
unfolding judge get_account find_account edit_account str_eq
floods = refl

-- An answer to a topic that is over: its id stays noted, so that it is turned away ever after.
abbrev late : Pool
late = submit 5000 (record remark { block_id = 5000 }) empty

notes_late : contains remark.id late.uv_tx_ids ≡ true
unfolding submit judge get_account get_topic str_eq in_window
notes_late = refl

loses_late : (late.uv_1_txs ≡ []) × (late.uv_2_txs ≡ [])
unfolding submit judge get_account get_topic str_eq in_window
loses_late = (refl, refl)

sample-IsModest : IsModest sample
sample-IsModest = record {
  spends = (omega arith, (omega arith, (omega arith, tt)));
  rewards_small = (omega arith, tt);
}

release-judge_example : Allows (λ u v. release u v ≡ sample) (judge 100 gift sample)
release-judge_example = release-judge 100 gift sample sample-IsModest (omega arith)

judge-IsCovered_example :
    Allows (λ u v. IsCovered (payer_of gift.body gift.pubkey) v) (judge 100 gift sample)
judge-IsCovered_example = judge-IsCovered 100 gift sample sample-IsModest (omega arith) tt

do_uv_tx-IsCurrent_example :
    All (IsCurrent 100 []) taken_up.uv_1_txs
    × All (IsCurrent 100 []) taken_up.uv_2_txs
    × (taken_up.ledger.tx_map ≡ [])
do_uv_tx-IsCurrent_example = do_uv_tx-IsCurrent 100 waiting (tt, (tt, (tt, tt))) tt

empty-IsTidy : IsTidy empty
empty-IsTidy = record {
  by_id = λ k. omega arith;
  by_name = λ k. omega arith;
  by_pubkey = λ k. omega arith;
}

-- The gift is handed in twice, and the pass follows.
abbrev twice : Pool
twice = submit 100 gift (submit 100 gift empty)

Events-IsTidy_example : IsTidy (do_uv_tx 100 twice)
Events-IsTidy_example =
    Events-IsTidy empty (do_uv_tx 100 twice)
      (and_then (and_then (and_then at_first (submits 100 gift)) (submits 100 gift)) (passes 100))
      empty-IsTidy
