-- ===== src/Mine/Undo.antt =====
-- blockchain.cpp, `mine_tx`: the second loop, which takes the dry run back, last transaction first.
use askcoin_core.Base.{
  u64_mod, ℕ, ◌+◌, ◌-◌, ◌%◌, Bool, false, Option, none, some, List, [], ◌∷◌, Run, ok, ◌>>=◌,
  require, ◌==◌, if◌then◌else◌,
}
use askcoin_core.Base.Text.{Str, str_eq}
use askcoin_core.Base.Dict.{erase, erase_key, str_key}
use askcoin_core.Account.{Account}
use askcoin_core.Topic.{Topic, Reply, get_reply, update_reply, reply_sub_balance, topic_add_balance}
use askcoin_core.Ledger.{
  Ledger, find_account, get_account, get_topic, add_balance, sub_balance, edit_account, edit_topic,
  reserve,
}
use askcoin_core.Pending.{Body, tx_reg, tx_send, tx_topic, tx_reply, tx_reward, tx_other, Tx}

-- `pop_back`.
abbrev pub pop_back {ℓ} : {A : Type ℓ} → List A → List A
pop_back [] = []
pop_back (x ∷ []) = []
pop_back (x ∷ y ∷ ys) = x ∷ pop_back (y ∷ ys)

-- The referrer's coin and the fee go back; in this order also where `failed_cb` has the other.
unfoldable pub refund : ℕ → Option ℕ → Ledger → Ledger
refund account none s = add_balance account 2 (sub_balance reserve 1 s)
refund account (some r) s = add_balance account 2 (sub_balance r 1 s)

-- The account that the last pointer led to is gone.
unfoldable pub drop_account : ℕ → List Account → List Account
drop_account i [] = []
drop_account i (a ∷ xs) = if a.id == i then xs else a ∷ drop_account i xs

unfoldable pub undo_account : Str → Str → Ledger → Ledger
unfolding drop_account
undo_account name pubkey s = record s {
  accounts = drop_account s.cur_account_id s.accounts;
  names = erase name s.names;
  by_pubkey = erase_key pubkey s.by_pubkey;
  cur_account_id = (s.cur_account_id + u64_mod - 1) % u64_mod;
}

unfoldable pub undo_reg : Str → Str → Str → Ledger → Run Ledger
unfolding refund undo_account
undo_reg name referrer_pubkey pubkey s = require (get_account referrer_pubkey s) >>= λ r.
    require (find_account r s.accounts) >>= λ payer.
    ok (undo_account name pubkey (refund r payer.referrer s))

abbrev pub pop_topic_back : Account → Account
pop_topic_back a = record a { topic_list = pop_back a.topic_list }

abbrev pub pop_joined : Account → Account
pop_joined a = record a { joined_topic_list = pop_back a.joined_topic_list }

abbrev pub pop_reply : Topic → Topic
pop_reply t = record t { reply_list = pop_back t.reply_list }

abbrev pub pop_member : Topic → Topic
pop_member t = record t { members = pop_back t.members }

-- `m_members.back().first == tx_id`.
abbrev pub last_is : Str → List (Str × ℕ) → Bool
last_is tx_id [] = false
last_is tx_id ((k, a) ∷ []) = str_eq k tx_id
last_is tx_id (m ∷ n ∷ ms) = last_is tx_id (n ∷ ms)

unfoldable pub undo_join : Str → Str → ℕ → Topic → Ledger → Ledger
undo_join tx_id topic_key account t s =
    if t.owner == account
    then s
    else if last_is tx_id t.members
    then edit_topic topic_key pop_member (edit_account account pop_joined s)
    else s

abbrev pub debit_reply : Str → ℕ → Topic → Topic
debit_reply key amount t = record t {
  reply_list = update_reply key (reply_sub_balance amount) t.reply_list;
}

unfoldable pub undo_pay : Str → Str → Reply → ℕ → Ledger → Ledger
undo_pay topic_key key r amount s = edit_topic topic_key pop_reply (
    sub_balance r.owner amount (
      edit_topic topic_key (debit_reply key amount)
        (edit_topic topic_key (topic_add_balance amount) s)))

-- The branches after the refund.
unfoldable pub undo_body : Str → Body → ℕ → Ledger → Run Ledger
unfolding undo_join undo_pay
undo_body tx_id (tx_reg n r v) account s = ok s
undo_body tx_id (tx_send receiver_pubkey amount) account s =
    require (get_account receiver_pubkey s) >>= λ receiver.
    ok (sub_balance receiver amount (add_balance account amount s))
undo_body tx_id (tx_topic reward text) account s =
    let back = edit_account account pop_topic_back (add_balance account reward s) in
    ok (record back { topic_list = pop_back back.topic_list; topics = erase tx_id back.topics })
undo_body tx_id (tx_reply topic_key to text j) account s = require (get_topic topic_key s) >>= λ t.
    ok (undo_join tx_id topic_key account t (edit_topic topic_key pop_reply s))
undo_body tx_id (tx_reward topic_key key amount) account s =
    require (get_topic topic_key s) >>= λ t.
    require (get_reply key t) >>= λ r. ok (undo_pay topic_key key r amount s)
undo_body tx_id (tx_other n) account s = ok s

unfoldable pub undo_paying : Str → Str → Body → Ledger → Run Ledger
unfolding refund undo_body
undo_paying tx_id pubkey body s = require (get_account pubkey s) >>= λ a.
    require (find_account a s.accounts) >>= λ payer.
    undo_body tx_id body a (refund a payer.referrer s)

abbrev pub forget_tx : Str → Ledger → Ledger
forget_tx tx_id s = record s { tx_map = erase_key tx_id s.tx_map }

-- One round of the loop; a pointer that leads to no object is followed nowhere.
unfoldable pub undo_tx : Tx → Ledger → Run Ledger
unfolding undo_reg undo_paying
undo_tx t s = elim t.body [
  | tx_reg name referrer avatar ↦ undo_reg name referrer t.pubkey (forget_tx t.id s)
  | _ ↦ undo_paying t.id t.pubkey t.body (forget_tx t.id s)
]
