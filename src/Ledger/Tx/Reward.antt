-- ===== src/Ledger/Tx/Reward.antt =====
-- The branch `tx_type == 5`: the owner of a topic rewards the owner of a reply from the topic's coins.
use askcoin_core.Base.{
  ℕ, not, some, [], Run, ok, ◌>>=◌, ◌>>◌, guard, require, length, ltb, ◌==◌, ◌≡◌, refl, ◌≤◌, arith,
  Ensures, require-ok,
}
use askcoin_core.Base.Text.{Str}
use askcoin_core.External.{External}
use askcoin_core.Account.{HistoryType, add_history}
use askcoin_core.Topic.{
  Topic, Reply, new_reply, get_reply, push_reply, update_reply, reply_add_balance,
  topic_sub_balance,
}
use askcoin_core.Ledger.{
  Ledger, find_account, add_balance, edit_account, edit_topic, get_topic, find_topic, coins,
}
use askcoin_core.Ledger.Balance.{total}
use askcoin_core.Ledger.Links.{
  IsLinked, IsAccount, get_topic-found, get_reply-owner, update_reply-owners,
}
use askcoin_core.Ledger.Good.{
  Good, Good-trans, give-Good, read-Good, guard-Good, edit_topic-Good, push_reply-Good,
  topic_sub_balance-Good,
}
use askcoin_core.Ledger.Tx.{BlockInfo, uint64_field, base64_field}
use askcoin_core.Ledger.Tx.Fee.{entry, about, history-Good}

abbrev pub credit_reply : Str → ℕ → Topic → Topic
credit_reply key amount t = record t {
  reply_list = update_reply key (reply_add_balance amount) t.reply_list;
}

-- `reply`, of type 1, whose balance is the amount.
abbrev pub reward_reply : BlockInfo → Str → Str → ℕ → ℕ → Reply
reward_reply b tx_id key account amount = record (new_reply tx_id 1 b.block_id [] account) {
  to = some key;
  balance = amount;
}

unfoldable pub pay_reply : BlockInfo → Str → Str → Str → Reply → ℕ → ℕ → Ledger → Run Ledger
pay_reply b tx_id topic_key key r account amount s = do
  let debited =
      edit_topic topic_key (credit_reply key amount)
        (edit_topic topic_key (topic_sub_balance amount) s)
  let paid =
      edit_topic topic_key (push_reply (reward_reply b tx_id key account amount))
        (add_balance r.owner amount debited)
  a ← require (find_account account paid.accounts)
  ok (
      edit_account r.owner (add_history (about a (entry b tx_id HistoryType.reward_from amount)))
        paid)

credit_reply-Good :
    (topic_key key : Str) (amount : ℕ) (s : Ledger)
    → IsLinked s
    → Good s 0 (edit_topic topic_key (credit_reply key amount) s)
credit_reply-Good topic_key key amount s l =
    edit_topic-Good topic_key (credit_reply key amount) s
      (λ t h.
        update_reply-owners s.accounts key (reply_add_balance amount) t.reply_list (λ r. refl) h)
      (λ t. refl) l

pay_reply-Good :
    (b : BlockInfo) (tx_id topic_key key : Str) (t : Topic) (r : Reply) (account amount : ℕ)
    (s : Ledger)
    → IsLinked s
    → IsAccount s.accounts account
    → IsAccount s.accounts r.owner
    → total s ≤ coins
    → find_topic topic_key s.topic_list ≡ some t
    → amount ≤ t.balance
    → Ensures (Good s 0) (pay_reply b tx_id topic_key key r account amount s)
unfolding pay_reply
pay_reply-Good b tx_id topic_key key t r account amount s l ka kr small found enough =
    read-Good s 0 (require (find_account account paid.accounts)) _
      (λ a _. Good-trans refl pushed (history-Good r.owner _ paid pushed.linked))
  where
    debited : Good s amount (edit_topic topic_key (topic_sub_balance amount) s)
    debited = topic_sub_balance-Good topic_key amount t s l found (omega arith) enough

    credited : Good s amount (
        edit_topic topic_key
          (credit_reply key amount)
          (edit_topic topic_key (topic_sub_balance amount) s))
    credited =
        Good-trans (omega arith) debited (credit_reply-Good topic_key key amount _ debited.linked)

    given : Good s 0 (
        add_balance r.owner amount (
          edit_topic topic_key
            (credit_reply key amount)
            (edit_topic topic_key (topic_sub_balance amount) s)))
    given =
        give-Good r.owner amount amount 0 s _ (omega arith) (credited.grows r.owner kr)
          (omega arith) credited

    paid : Ledger
    paid = edit_topic topic_key (push_reply (reward_reply b tx_id key account amount)) (
        add_balance r.owner amount (
          edit_topic topic_key (credit_reply key amount)
            (edit_topic topic_key (topic_sub_balance amount) s)))

    pushed : Good s 0 paid
    pushed =
        Good-trans refl given (push_reply-Good topic_key _ _ (given.grows account ka) given.linked)

module _ (x : External) where
  open x use {Value}

  unfoldable pub reward : BlockInfo → Str → Value → ℕ → Ledger → Run Ledger
  unfolding pay_reply
  reward b tx_id d account s = do
    topic_key ← base64_field x "topic_key" 44 44 d
    t ← require (get_topic topic_key s)
    guard (t.owner == account)
    guard (ltb (length t.reply_list) 1000)
    amount ← uint64_field x "amount" d
    guard (not (amount == 0))
    guard (not (ltb t.balance amount))
    key ← base64_field x "reply_to" 44 44 d
    r ← require (get_reply key t)
    guard (r.kind == 0)
    guard (not (r.owner == account))
    pay_reply b tx_id topic_key key r account amount s

  -- A reward keeps the total.
  pub reward-Good :
      (b : BlockInfo) (tx_id : Str) (d : Value) (account : ℕ) (s : Ledger)
      → IsLinked s
      → IsAccount s.accounts account
      → total s ≤ coins
      → Ensures (Good s 0) (reward b tx_id d account s)
  unfolding reward
  reward-Good b tx_id d account s l k small =
      read-Good s 0 (base64_field x "topic_key" 44 44 d) _ (λ topic_key _.
        read-Good s 0 (require (get_topic topic_key s)) _ (λ t found.
          guard-Good s 0 (t.owner == account) _ (λ _.
            guard-Good s 0 (ltb (length t.reply_list) 1000) _ (λ _.
              read-Good s 0 (uint64_field x "amount" d) _ (λ amount _.
                guard-Good s 0 (not (amount == 0)) _ (λ _.
                  guard-Good s 0 (not (ltb t.balance amount)) _ (λ enough.
                    read-Good s 0 (base64_field x "reply_to" 44 44 d) _ (λ key _.
                      read-Good s 0 (require (get_reply key t)) _ (λ r answered.
                        guard-Good s 0 (r.kind == 0) _ (λ _.
                          guard-Good s 0 (not (r.owner == account)) _ (λ _.
                            pay_reply-Good b tx_id topic_key key t r account amount s l k
                              (get_reply-owner s topic_key key t r l (require-ok _ found)
                                (require-ok _ answered))
                              small (get_topic-found topic_key t s (require-ok _ found))
                              (ground arith))))))))))))
