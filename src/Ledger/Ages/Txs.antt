-- ===== src/Ledger/Ages/Txs.antt =====
-- The order of `m_topic_list` through the transactions of a block, and through the block: only a new
-- topic adds to the list, at its end and with the block's number.
use askcoin_core.Base.{
  ℕ, not, none, some, Option, ok, ◌>>◌, guard, require, length, ltb, ◌==◌, ◌||◌, ◌≡◌, refl, ◌≤◌,
  arith, Ensures, bind-Ensures, Ensures-of, guard-Ensures, Bool-cases, inl, inr,
}
use askcoin_core.Base.Text.{Str}
use askcoin_core.Base.Dict.{contains, str_key}
use askcoin_core.External.{External}
use askcoin_core.Account.{HistoryType, Account, add_history, joined_topic}
use askcoin_core.Topic.{
  Topic, Reply, new_topic, new_reply, get_reply, push_reply, add_member, topic_sub_balance,
}
use askcoin_core.Ledger.{
  Ledger, find_account, balance_of, set_balance, add_balance, sub_balance, edit_account, edit_topic,
  get_account, account_name_exist, get_topic, reserve,
}
use askcoin_core.Ledger.Tx.{BlockInfo, verify_sign, uint64_field, base64_field}
use askcoin_core.Ledger.Tx.Fee.{entry, about, reward_referrer, charge_fee}
use askcoin_core.Ledger.Tx.Register.{
  Registration, read_registration, is_none, add_account, enroll, register,
}
use askcoin_core.Ledger.Tx.Send.{read_memo, move_coins, send}
use askcoin_core.Ledger.Tx.Post.{
  add_topic, open_topic, push_joined, join_member, join, publish, read_reply_to, answer,
}
use askcoin_core.Ledger.Tx.Reward.{credit_reply, reward_reply, pay_reply, reward}
use askcoin_core.Ledger.Ages.{Timely, InOrder-append, edit_topic-Timely}

reward_referrer-Timely :
    (n : ℕ) (b : BlockInfo) (tx_id : Str) (payer : Account) (s : Ledger)
    → Timely n s
    → Ensures (Timely n) (reward_referrer b tx_id payer s)
unfolding reward_referrer edit_account add_balance set_balance
reward_referrer-Timely n b tx_id payer s o = by_referrer payer.referrer
  where
    by_referrer :
        (r : Option ℕ)
        → Ensures (Timely n) (elim r [
          | none ↦ guard (not (ltb 1 payer.id)) >> ok (add_balance reserve 1 s)
          | some i ↦ ok (
              edit_account i
                (add_history (about payer (entry b tx_id HistoryType.referrer_reward 1)))
                (add_balance i 1 s))
        ])
    by_referrer none =
        guard-Ensures (Timely n) (not (ltb 1 payer.id)) (ok (add_balance reserve 1 s)) (λ _. o)
    by_referrer (some r) = o

pub charge_fee-Timely :
    (n : ℕ) (b : BlockInfo) (tx_id : Str) (kind : HistoryType) (account : ℕ) (s : Ledger)
    → Timely n s
    → Ensures (Timely n) (charge_fee b tx_id kind account s)
unfolding charge_fee edit_account sub_balance set_balance
charge_fee-Timely n b tx_id kind account s o =
    guard-Ensures (Timely n) (not (ltb (balance_of account s.accounts) 2)) _ (λ _.
      bind-Ensures (Timely n) (require (find_account account s.accounts)) _ (λ payer _.
        bind-Ensures (Timely n) (reward_referrer b tx_id payer s) _ (λ u ran.
          Ensures-of (Timely n) (reward_referrer b tx_id payer s) u
            (reward_referrer-Timely n b tx_id payer s o) ran)))

enroll-Timely :
    (n : ℕ) (b : BlockInfo) (tx_id pubkey : Str) (r : Registration) (referrer : ℕ) (s : Ledger)
    → Timely n s
    → Ensures (Timely n) (enroll b tx_id pubkey r referrer s)
unfolding enroll add_account edit_account sub_balance set_balance
enroll-Timely n b tx_id pubkey r referrer s o =
    bind-Ensures (Timely n) (require (find_account referrer s.accounts)) _ (λ payer _.
      bind-Ensures (Timely n) (reward_referrer b tx_id payer s) _ (λ u ran.
        Ensures-of (Timely n) (reward_referrer b tx_id payer s) u
          (reward_referrer-Timely n b tx_id payer s o) ran))

move_coins-Timely :
    (n : ℕ) (b : BlockInfo) (tx_id memo : Str) (account receiver amount : ℕ) (s : Ledger)
    → Timely n s
    → Ensures (Timely n) (move_coins b tx_id memo account receiver amount s)
unfolding move_coins edit_account add_balance sub_balance set_balance
move_coins-Timely n b tx_id memo account receiver amount s o =
    bind-Ensures (Timely n) (require (find_account receiver paid.accounts)) _ (λ to _.
      bind-Ensures (Timely n) (require (find_account account paid.accounts)) _ (λ from _. o))
  where
    paid : Ledger
    paid = add_balance receiver amount (sub_balance account amount s)

join_member-block :
    (tx_id : Str) (account : ℕ) (t : Topic) → (join_member tx_id account t).block_id ≡ t.block_id
unfolding add_member
join_member-block tx_id account t = ground arith

join-Timely :
    (n : ℕ) (tx_id : Str) (account : ℕ) (t : Topic) (s : Ledger)
    → Timely n s
    → Ensures (Timely n) (join tx_id account t s)
unfolding join edit_account
join-Timely n tx_id account t s o =
    bind-Ensures (Timely n) (require (find_account account s.accounts)) _ (λ a _.
      elim (Bool-cases (t.owner == account || joined_topic t.key a)) [
        | inl old ↦ rw old o
        | inr new ↦ rw new (
            guard-Ensures (Timely n) (ltb (length a.joined_topic_list) 100) _ (λ _.
              edit_topic-Timely n t.key (join_member tx_id account)
                (edit_account account (push_joined t.key) s) (join_member-block tx_id account) o))
      ])

-- The new topic is of this block.
open_topic-Timely :
    (b : BlockInfo) (tx_id text : Str) (reward account : ℕ) (s : Ledger)
    → 1 ≤ b.block_id
    → Timely b.block_id s
    → Timely b.block_id (open_topic b tx_id text reward account s)
unfolding open_topic add_topic edit_account sub_balance set_balance
open_topic-Timely b tx_id text reward account s h o =
    InOrder-append (new_topic tx_id text b.block_id reward account) s.topic_list h o

pay_reply-Timely :
    (n : ℕ) (b : BlockInfo) (tx_id topic_key key : Str) (r : Reply) (account amount : ℕ)
    (s : Ledger)
    → Timely n s
    → Ensures (Timely n) (pay_reply b tx_id topic_key key r account amount s)
unfolding pay_reply edit_account add_balance set_balance
pay_reply-Timely n b tx_id topic_key key r account amount s o =
    bind-Ensures (Timely n) (require (find_account account paid.accounts)) _ (λ a _.
      edit_topic-Timely n topic_key (push_reply (reward_reply b tx_id key account amount))
        (add_balance r.owner amount debited) (λ t. refl) credited)
  where
    debited : Ledger
    debited =
        edit_topic topic_key (credit_reply key amount)
          (edit_topic topic_key (topic_sub_balance amount) s)

    paid : Ledger
    paid =
        edit_topic topic_key (push_reply (reward_reply b tx_id key account amount))
          (add_balance r.owner amount debited)

    credited : Timely n debited
    credited =
        edit_topic-Timely n topic_key (credit_reply key amount)
          (edit_topic topic_key (topic_sub_balance amount) s) (λ t. refl)
          (edit_topic-Timely n topic_key (topic_sub_balance amount) s (λ t. refl) o)

-- The five kinds of transaction, in a block with the number `n`.
module _ (x : External) where
  open x use {Value, member, as_array}

  pub register-Timely :
      (n : ℕ) (b : BlockInfo) (tx_id pubkey : Str) (d : Value) (s : Ledger)
      → Timely n s
      → Ensures (Timely n) (register x b tx_id pubkey d s)
  unfolding register
  register-Timely n b tx_id pubkey d s o =
      guard-Ensures (Timely n) (is_none (get_account pubkey s)) _ (λ _.
        bind-Ensures (Timely n) (read_registration x b.block_id d) _ (λ r _.
          bind-Ensures (Timely n) (require (get_account r.referrer_pubkey s)) _ (λ referrer _.
            guard-Ensures (Timely n) (not (ltb (balance_of referrer s.accounts) 2)) _ (λ _.
              guard-Ensures (Timely n) (verify_sign x r.referrer_pubkey r.sign_hash r.sign) _ (λ _.
                guard-Ensures (Timely n) (not (account_name_exist r.name s)) _
                  (λ _. enroll-Timely n b tx_id pubkey r referrer s o))))))

  pub send-Timely :
      (n : ℕ) (b : BlockInfo) (tx_id : Str) (d : Value) (account : ℕ) (s : Ledger)
      → Timely n s
      → Ensures (Timely n) (send x b tx_id d account s)
  unfolding send
  send-Timely n b tx_id d account s o = bind-Ensures (Timely n) (read_memo x d) _ (λ memo _.
      bind-Ensures (Timely n) (uint64_field x "amount" d) _ (λ amount _.
        guard-Ensures (Timely n) (not (amount == 0)) _ (λ _.
          guard-Ensures (Timely n) (not (ltb (balance_of account s.accounts) amount)) _ (λ _.
            bind-Ensures (Timely n) (base64_field x "receiver" 88 88 d) _ (λ receiver_pubkey _.
              bind-Ensures (Timely n) (require (get_account receiver_pubkey s)) _
                (λ receiver _. move_coins-Timely n b tx_id memo account receiver amount s o))))))

  pub publish-Timely :
      (b : BlockInfo) (tx_id : Str) (d : Value) (account : ℕ) (s : Ledger)
      → 1 ≤ b.block_id
      → Timely b.block_id s
      → Ensures (Timely b.block_id) (publish x b tx_id d account s)
  unfolding publish
  publish-Timely b tx_id d account s h o = bind-Ensures T (uint64_field x "reward" d) _ (λ reward _.
      guard-Ensures T (not (reward == 0)) _ (λ _.
        guard-Ensures T (not (ltb (balance_of account s.accounts) reward)) _ (λ _.
          guard-Ensures T (not (contains tx_id s.topics)) _ (λ _.
            bind-Ensures T (base64_field x "topic" 4 1336 d) _ (λ text _.
              bind-Ensures T (require (find_account account s.accounts)) _ (λ a _.
                guard-Ensures T (ltb (length a.topic_list) 100) _
                  (λ _. open_topic-Timely b tx_id text reward account s h o)))))))
    where
      T : Ledger → Type 0
      T = Timely b.block_id

  pub answer-Timely :
      (n : ℕ) (b : BlockInfo) (tx_id : Str) (d : Value) (account : ℕ) (s : Ledger)
      → Timely n s
      → Ensures (Timely n) (answer x b tx_id d account s)
  unfolding answer
  answer-Timely n b tx_id d account s o =
      bind-Ensures (Timely n) (base64_field x "topic_key" 44 44 d) _ (λ topic_key _.
        bind-Ensures (Timely n) (require (get_topic topic_key s)) _ (λ t _.
          bind-Ensures (Timely n) (base64_field x "reply" 4 1336 d) _ (λ text _.
            guard-Ensures (Timely n) (ltb (length t.reply_list) 1000) _ (λ _.
              bind-Ensures (Timely n) (read_reply_to x t d) _ (λ to _.
                bind-Ensures (Timely n) (join tx_id account t s) _ (λ u ran.
                  edit_topic-Timely n topic_key
                    (push_reply (record (new_reply tx_id 0 b.block_id text account) { to = to })) u
                    (λ v. refl)
                    (Ensures-of (Timely n) (join tx_id account t s) u
                      (join-Timely n tx_id account t s o) ran)))))))

  pub reward-Timely :
      (n : ℕ) (b : BlockInfo) (tx_id : Str) (d : Value) (account : ℕ) (s : Ledger)
      → Timely n s
      → Ensures (Timely n) (reward x b tx_id d account s)
  unfolding reward
  reward-Timely n b tx_id d account s o =
      bind-Ensures (Timely n) (base64_field x "topic_key" 44 44 d) _ (λ topic_key _.
        bind-Ensures (Timely n) (require (get_topic topic_key s)) _ (λ t _.
          guard-Ensures (Timely n) (t.owner == account) _ (λ _.
            guard-Ensures (Timely n) (ltb (length t.reply_list) 1000) _ (λ _.
              bind-Ensures (Timely n) (uint64_field x "amount" d) _ (λ amount _.
                guard-Ensures (Timely n) (not (amount == 0)) _ (λ _.
                  guard-Ensures (Timely n) (not (ltb t.balance amount)) _ (λ _.
                    bind-Ensures (Timely n) (base64_field x "reply_to" 44 44 d) _ (λ key _.
                      bind-Ensures (Timely n) (require (get_reply key t)) _ (λ r _.
                        guard-Ensures (Timely n) (r.kind == 0) _ (λ _.
                          guard-Ensures (Timely n) (not (r.owner == account)) _ (λ _.
                            pay_reply-Timely n b tx_id topic_key key r account amount s o)))))))))))
