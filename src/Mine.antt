-- ===== src/Mine.antt =====
-- blockchain.cpp, `mine_tx`: the dry run of the pending transactions, which finds those that the next
-- block can hold, and its undoing. A dry run writes no histories. Its new accounts are not in
-- `m_account_by_id`; here `accounts` holds every account that a pointer leads to, also these.
pub mod Undo
pub mod Writes
pub mod Topics
pub mod Restore
pub mod Loop
pub mod Total
pub mod Reopen
pub mod Sound
pub mod Choice
pub mod Whole
pub mod Tests
use askcoin_core.Base.{
  u64_mod, ℕ, ◌+◌, ◌%◌, not, ◌||◌, ◌&&◌, Bool, true, false, Option, none, some, List, [], ◌∷◌, ◌++◌,
  Run, ok, exit, ◌>>=◌, ◌>>◌, ◌≡◌, refl, guard, require, length, ltb, ◌==◌, if◌then◌else◌,
}
use askcoin_core.Base.Text.{Str}
use askcoin_core.Base.Dict.{contains, insert, has_key, insert_entry, str_key}
use askcoin_core.Account.{Account, new_account, joined_topic}
use askcoin_core.Topic.{
  Topic, Reply, new_topic, new_reply, get_reply, push_reply, topic_sub_balance,
}
use askcoin_core.Ledger.{
  Ledger, find_account, balance_of, get_account, account_name_exist, get_topic, add_balance,
  sub_balance, edit_account, edit_topic, reserve,
}
use askcoin_core.Ledger.Tx.Register.{is_none}
use askcoin_core.Ledger.Tx.Post.{push_topic, add_topic, push_joined, join_member}
use askcoin_core.Ledger.Tx.Reward.{credit_reply}
use askcoin_core.Pending.{Body, tx_reg, tx_send, tx_topic, tx_reply, tx_reward, tx_other, Tx}

-- A step of the dry run: it is done, or the transaction goes back to the queue, or the program exits.
pub data Try {ℓ} (A : Type ℓ) : Type ℓ where
  done : A → Try A
  skip : Try A
  stop : Try A

infixl 5 ◌>>>◌
abbrev pub ◌>>>◌ {ℓ κ} : {A : Type ℓ} {B : Type κ} → Try A → (A → Try B) → Try B
done a >>> f = f a
skip >>> f = skip
stop >>> f = stop

-- `if(!test) { ...; continue; }`.
abbrev pub need : Bool → Try (Unit {0})
need true = done tt
need false = skip

-- A lookup that fails sends the transaction back.
abbrev pub want {ℓ} : {A : Type ℓ} → Option A → Try A
want none = skip
want (some a) = done a

pub want-done {ℓ} : {A : Type ℓ} {a : A} (o : Option A) → want o ≡ done a → o ≡ some a
want-done none e = cc
want-done (some b) e = cc

pub need-done : {u : Unit {0}} (b : Bool) → need b ≡ done u → b ≡ true
need-done true e = refl
need-done false e = cc

-- A pointer that leads to no object.
abbrev pub follow {ℓ} : {A : Type ℓ} → Option A → Try A
follow none = stop
follow (some a) = done a

pub follow-done {ℓ} : {A : Type ℓ} {a : A} (o : Option A) → follow o ≡ done a → o ≡ some a
follow-done none e = cc
follow-done (some b) e = cc

-- The property `P` of what a step gives.
abbrev pub Gives {ℓ κ} : {A : Type ℓ} → (A → Type κ) → Try A → Type κ
Gives P (done a) = P a
Gives P skip = Unit
Gives P stop = Unit

pub bind-Gives {ℓ κ ν} :
    {A : Type ℓ} {B : Type κ} (P : B → Type ν) (m : Try A) (f : A → Try B)
    → ((a : A) → m ≡ done a → Gives P (f a))
    → Gives P (m >>> f)
bind-Gives P (done a) f h = h a refl
bind-Gives P skip f h = tt
bind-Gives P stop f h = tt

-- The referrer's coin and the fee of two coins.
unfoldable pub take_fee : ℕ → Option ℕ → ℕ → Ledger → Run Ledger
take_fee account none id s =
    guard (not (ltb 1 id)) >> ok (sub_balance account 2 (add_balance reserve 1 s))
take_fee account (some r) id s = ok (sub_balance account 2 (add_balance r 1 s))

-- `failed_cb`.
unfoldable pub give_back : ℕ → Option ℕ → Ledger → Ledger
give_back account none s = sub_balance reserve 1 (add_balance account 2 s)
give_back account (some r) s = sub_balance r 1 (add_balance account 2 s)

-- The account of a registration, in the branch `tx_type == 1`.
unfoldable pub dry_account : ℕ → Str → Str → ℕ → ℕ → Ledger → Ledger
dry_account cur_block_id name pubkey avatar referrer s =
    let id : ℕ = (s.cur_account_id + 1) % u64_mod in
    record s {
      cur_account_id = id;
      names = insert name s.names;
      by_pubkey = insert_entry pubkey id s.by_pubkey;
      accounts =
          s.accounts
          ++ record (new_account id name pubkey avatar cur_block_id) { referrer = some referrer }
            ∷ [];
    }

-- The branch `tx_type == 2`.
unfoldable pub dry_send : Str → ℕ → ℕ → Ledger → Try Ledger
dry_send receiver_pubkey amount account s =
    need (not (ltb (balance_of account s.accounts) amount)) >>> λ _.
    want (get_account receiver_pubkey s) >>> λ receiver.
    done (add_balance receiver amount (sub_balance account amount s))

-- The branch `tx_type == 3`.
unfoldable pub dry_topic : ℕ → Str → ℕ → Str → ℕ → Ledger → Try Ledger
dry_topic cur_block_id tx_id reward text account s =
    need (not (ltb (balance_of account s.accounts) reward)) >>> λ _.
    need (is_none (get_topic tx_id s)) >>> λ _. follow (find_account account s.accounts) >>> λ a.
    need (ltb (length a.topic_list) 100) >>> λ _. done (
      add_topic (new_topic tx_id text cur_block_id reward account)
        (edit_account account (push_topic tx_id) (sub_balance account reward s)))

-- `!m_reply_to.empty()`: the reply that is answered is there, and a text.
unfoldable pub dry_reply_to : Str → Topic → Try (Option Str)
dry_reply_to [] t = done none
dry_reply_to (c ∷ cs) t =
    want (get_reply (c ∷ cs) t) >>> λ r. need (r.kind == 0) >>> λ _. done (some (c ∷ cs))

unfoldable pub dry_join : Str → ℕ → Topic → Account → Ledger → Try Ledger
dry_join tx_id account t a s =
    if t.owner == account || joined_topic t.key a
    then done s
    else need (ltb (length a.joined_topic_list) 100) >>> λ _.
        done (
          edit_topic t.key (join_member tx_id account) (edit_account account (push_joined t.key) s))

-- The branch `tx_type == 4`.
unfoldable pub dry_reply : ℕ → Str → Str → Str → Str → ℕ → Ledger → Try Ledger
unfolding dry_reply_to dry_join
dry_reply cur_block_id tx_id topic_key reply_to text account s =
    want (get_topic topic_key s) >>> λ t. need (ltb (length t.reply_list) 1000) >>> λ _.
    dry_reply_to reply_to t >>> λ to. follow (find_account account s.accounts) >>> λ a.
    dry_join tx_id account t a s >>> λ u. done (
      edit_topic topic_key
        (push_reply (record (new_reply tx_id 0 cur_block_id text account) { to = to })) u)

-- The reply of type 1, whose balance is the amount.
abbrev pub dry_reward_reply : ℕ → Str → Str → ℕ → ℕ → Reply
dry_reward_reply cur_block_id tx_id key account amount =
    record (new_reply tx_id 1 cur_block_id [] account) { to = some key; balance = amount }

unfoldable pub dry_pay : ℕ → Str → Str → Str → Reply → ℕ → ℕ → Ledger → Ledger
dry_pay cur_block_id tx_id topic_key key r account amount s =
    edit_topic topic_key (push_reply (dry_reward_reply cur_block_id tx_id key account amount)) (
      add_balance r.owner amount (
        edit_topic topic_key (credit_reply key amount)
          (edit_topic topic_key (topic_sub_balance amount) s)))

-- The branch `tx_type == 5`.
unfoldable pub dry_reward : ℕ → Str → Str → Str → ℕ → ℕ → Ledger → Try Ledger
unfolding dry_pay
dry_reward cur_block_id tx_id topic_key key amount account s = want (get_topic topic_key s) >>> λ t.
    need (t.owner == account) >>> λ _. need (ltb (length t.reply_list) 1000) >>> λ _.
    need (not (ltb t.balance amount)) >>> λ _. want (get_reply key t) >>> λ r.
    need (r.kind == 0) >>> λ _. need (not (r.owner == account)) >>> λ _.
    done (dry_pay cur_block_id tx_id topic_key key r account amount s)

-- The branches after the fee; another type ends the program.
unfoldable pub dry_body : ℕ → Str → Body → ℕ → Ledger → Try Ledger
unfolding dry_send dry_topic dry_reply dry_reward
dry_body cur_block_id tx_id (tx_reg n r v) account s = stop
dry_body cur_block_id tx_id (tx_send receiver amount) account s = dry_send receiver amount account s
dry_body cur_block_id tx_id (tx_topic reward text) account s =
    dry_topic cur_block_id tx_id reward text account s
dry_body cur_block_id tx_id (tx_reply key to text j) account s =
    dry_reply cur_block_id tx_id key to text account s
dry_body cur_block_id tx_id (tx_reward key to amount) account s =
    dry_reward cur_block_id tx_id key to amount account s
dry_body cur_block_id tx_id (tx_other n) account s = stop

-- `m_tx_map.insert`; the block of the dry run has the number `cur_block_id`.
unfoldable pub dry_record : ℕ → Str → Ledger → Ledger
dry_record cur_block_id tx_id s = record s { tx_map = insert_entry tx_id cur_block_id s.tx_map }

-- What a dry run makes of the ledger, and whether the transaction is in the block.
unfoldable pub finish_dry : ℕ → Str → Ledger → Try Ledger → Run (Ledger × Bool)
unfolding dry_record
finish_dry cur_block_id tx_id back (done u) = ok (dry_record cur_block_id tx_id u, true)
finish_dry cur_block_id tx_id back skip = ok (back, false)
finish_dry cur_block_id tx_id back stop = exit

unfoldable pub dry_reg : ℕ → Str → Str → Str → Str → ℕ → Ledger → Run (Ledger × Bool)
unfolding take_fee dry_account dry_record
dry_reg cur_block_id tx_id pubkey name referrer_pubkey avatar s =
    if is_none (get_account pubkey s) && not (account_name_exist name s)
    then elim (get_account referrer_pubkey s) [
      | none ↦ ok (s, false)
      | some r ↦
          if ltb (balance_of r s.accounts) 2
          then ok (s, false)
          else require (find_account r s.accounts) >>= λ payer.
              take_fee r payer.referrer payer.id s >>= λ u. ok (
                dry_record cur_block_id tx_id (dry_account cur_block_id name pubkey avatar r u),
                true,
              )
    ]
    else ok (s, false)

-- The other types pay the fee first, and get it back if they fail.
unfoldable pub dry_paying : ℕ → Str → Str → Body → Ledger → Run (Ledger × Bool)
unfolding take_fee give_back dry_body finish_dry
dry_paying cur_block_id tx_id pubkey body s = elim (get_account pubkey s) [
  | none ↦ ok (s, false)
  | some a ↦
      if ltb (balance_of a s.accounts) 2
      then ok (s, false)
      else require (find_account a s.accounts) >>= λ payer.
          take_fee a payer.referrer payer.id s >>= λ u.
          finish_dry cur_block_id tx_id (give_back a payer.referrer u)
            (dry_body cur_block_id tx_id body a u)
]

-- One round of the loop, for the transaction at the front of the queue.
unfoldable pub dry_tx : ℕ → Tx → Ledger → Run (Ledger × Bool)
unfolding dry_reg dry_paying
dry_tx cur_block_id t s = if has_key t.id s.tx_map then ok (s, false) else elim t.body [
  | tx_reg name referrer avatar ↦ dry_reg cur_block_id t.id t.pubkey name referrer avatar s
  | _ ↦ dry_paying cur_block_id t.id t.pubkey t.body s
]
