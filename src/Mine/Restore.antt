-- ===== src/Mine/Restore.antt =====
-- The undoing of a dry run restores the ledger, up to the set of accounts that is ordered by wealth. The
-- children follow the types of transactions.
pub mod Send
pub mod Publish
pub mod Members
pub mod Answer
pub mod Gift
pub mod Newcomer
pub mod Skip
pub mod Rounds
use askcoin_core.Base.{
  u64_mod, ℕ, ◌+◌, ◌%◌, not, ◌≡◌, ◌<◌, refl, ap, sym, subst, ◌∙◌, Bool, true, false, Option, none,
  some, List, [], ◌∷◌, ◌++◌, Run, ok, exit, ◌>>=◌, ◌>>◌, require, guard, ltb, length, ◌==◌, ◌||◌,
  if◌then◌else◌, arith, All, Bool-cases, inl, inr, some_inj,
}
use askcoin_core.Base.Text.{Str, str_eq}
use askcoin_core.Base.Dict.{
  contains, insert, erase, has_key, lookup, insert_entry, erase_key, str_key,
}
use askcoin_core.Account.{Account, joined_topic}
use askcoin_core.Topic.{Topic, Reply, is_member}
use askcoin_core.Ledger.{
  Ledger, find_account, update_account, balance_of, get_account, get_topic, find_topic, set_balance,
  add_balance, sub_balance, edit_account, edit_topic, reserve,
}
use askcoin_core.Ledger.Balance.{has_account}
use askcoin_core.Ledger.Tx.Register.{is_none}
use askcoin_core.Pending.{Body, tx_reg, tx_send, tx_topic, tx_reply, tx_reward, tx_other, Tx}
use askcoin_core.Mine.{
  Try, done, skip, stop, Gives, bind-Gives, need, want, want-done, follow, take_fee, dry_send,
}
use askcoin_core.Mine.Undo.{refund, undo_body, undo_paying}
use askcoin_core.Mine.Writes.{
  Fits, Write, IsUndone, AreUndone, do_writes, undo_writes, undo_writes-do_writes, give, take,
  shift, unshift, give-IsUndone, take-IsUndone, give-give, give-take, take-give, take-take,
  accounts-add_balance, accounts-sub_balance,
}

-- All of the ledger but the set of accounts that is ordered by wealth is what it was.
pub record Restored (s w : Ledger) : Type 0 where
  pub accounts : w.accounts ≡ s.accounts
  pub by_pubkey : w.by_pubkey ≡ s.by_pubkey
  pub names : w.names ≡ s.names
  pub cur_account_id : w.cur_account_id ≡ s.cur_account_id
  pub topics : w.topics ≡ s.topics
  pub topic_list : w.topic_list ≡ s.topic_list
  pub tx_map : w.tx_map ≡ s.tx_map
  pub rollback_topics : w.rollback_topics ≡ s.rollback_topics
  pub rollback_txs : w.rollback_txs ≡ s.rollback_txs
  pub miner_pubkeys : w.miner_pubkeys ≡ s.miner_pubkeys

abbrev pub TopicFits : Topic → Type 0
TopicFits t = (t.balance < u64_mod) × All (λ r. r.balance < u64_mod) t.reply_list

-- The members of a topic have joined it, each with a transaction that the chain still knows.
pub record IsJoined (s : Ledger) (t : Topic) : Type 0 where
  pub known : All (λ m. has_key m.0 s.tx_map ≡ true) t.members
  pub joined :
      (i : ℕ) (a : Account)
      → find_account i s.accounts ≡ some a
      → is_member i t.members ≡ true
      → joined_topic t.key a ≡ true

-- What is assumed of a ledger: balances and ids are uint64, new ids are new, the keys of `m_topics` are
-- those of topics in the list, and members have joined.
pub record IsSane (s : Ledger) : Type 0 where
  pub accounts_fit : All Fits s.accounts
  pub topics_fit : All TopicFits s.topic_list
  pub id_fits : s.cur_account_id < u64_mod
  pub next_new : has_account ((s.cur_account_id + 1) % u64_mod) s.accounts ≡ false
  pub topics_found :
      (key : Str) → contains key s.topics ≡ true → is_none (find_topic key s.topic_list) ≡ false
  pub members_joined : All (IsJoined s) s.topic_list

-- Who gets the referrer's coin.
abbrev pub coin_of : Option ℕ → ℕ
coin_of none = reserve
coin_of (some r) = r

abbrev pub fee_taken : ℕ → Option ℕ → Ledger → Ledger
fee_taken a ref s = sub_balance a 2 (add_balance (coin_of ref) 1 s)

pub take_fee-ok :
    (a : ℕ) (ref : Option ℕ) (id : ℕ) (s u : Ledger)
    → take_fee a ref id s ≡ ok u
    → u ≡ fee_taken a ref s
unfolding take_fee
take_fee-ok a none id s u e = elim (Bool-cases (ltb 1 id)) [
  | inl h ↦ absurd (cc (rw h at e))
  | inr h ↦ cc (rw h at e)
]
take_fee-ok a (some r) id s u e = cc

pub refund-back :
    (a : ℕ) (ref : Option ℕ) (s : Ledger)
    → refund a ref s ≡ add_balance a 2 (sub_balance (coin_of ref) 1 s)
unfolding refund
refund-back a none s = refl
refund-back a (some r) s = refl

-- A pointer leads to an account with this value of a field.
abbrev pub Sees : {A : Type 0} → (Account → A) → ℕ → A → List Account → Type 0
Sees g i v xs = (b : Account) × (find_account i xs ≡ some b) × (g b ≡ v)

-- A pointer leads to an account with this referrer.
abbrev pub Found : ℕ → Option ℕ → List Account → Type 0
Found i ref xs = Sees (λ b. b.referrer) i ref xs

find_account-hit :
    (i : ℕ) (a : Account) (xs : List Account)
    → (a.id == i) ≡ true
    → find_account i (a ∷ xs) ≡ some a
unfolding find_account
find_account-hit i a xs e = rw e refl

find_account-miss :
    (i : ℕ) (a : Account) (xs : List Account)
    → (a.id == i) ≡ false
    → find_account i (a ∷ xs) ≡ find_account i xs
unfolding find_account
find_account-miss i a xs e = rw e refl

Sees-cons :
    {A : Type 0} (g : Account → A) (i : ℕ) (v : A) (a b : Account) (xs ys : List Account)
    → b.id ≡ a.id
    → g b ≡ g a
    → (Sees g i v xs → Sees g i v ys)
    → Sees g i v (a ∷ xs)
    → Sees g i v (b ∷ ys)
Sees-cons g i v a b xs ys p q tail (c, e, r) = elim (Bool-cases (a.id == i)) [
  | inl h ↦
      let same : a ≡ c = some_inj (sym (find_account-hit i a xs h) ∙ e) in
      (b, find_account-hit i b ys (ap (λ n. n == i) p ∙ h), q ∙ ap g same ∙ r)
  | inr h ↦
      let (d, f, k) : Sees g i v ys = tail (c, sym (find_account-miss i a xs h) ∙ e, r) in
      (d, find_account-miss i b ys (ap (λ n. n == i) p ∙ h) ∙ f, k)
]

pub Sees-update_account :
    {A : Type 0} (g : Account → A) (i j : ℕ) (v : A) (f : Account → Account) (xs : List Account)
    → ((a : Account) → (f a).id ≡ a.id)
    → ((a : Account) → g (f a) ≡ g a)
    → Sees g i v xs
    → Sees g i v (update_account j f xs)
unfolding find_account update_account
Sees-update_account g i j v f [] p q h = h
Sees-update_account g i j v f (a ∷ xs) p q h = elim (Bool-cases (a.id == j)) [
  | inl hit ↦ rw hit (Sees-cons g i v a (f a) xs xs (p a) (q a) (λ k. k) h)
  | inr miss ↦ rw miss (
      Sees-cons g i v a a xs (update_account j f xs) refl refl
        (Sees-update_account g i j v f xs p q) h)
]

pub Found-do_writes :
    (i : ℕ) (ref : Option ℕ) (ws : List Write) (xs : List Account)
    → AreUndone ws
    → Found i ref xs
    → Found i ref (do_writes ws xs)
Found-do_writes i ref [] xs us h = h
Found-do_writes i ref (w ∷ ws) xs us h =
    Found-do_writes i ref ws (update_account w.target w.act xs) us.2 (
      Sees-update_account (λ b. b.referrer) i w.target ref w.act xs us.0.act_id us.0.act_referrer h)

-- The undoing starts with the refund.
pub undo_paying-start :
    (tx_id pubkey : Str) (body : Body) (a : ℕ) (ref : Option ℕ) (u : Ledger)
    → get_account pubkey u ≡ some a
    → Found a ref u.accounts
    → undo_paying tx_id pubkey body u
      ≡ undo_body tx_id body a (add_balance a 2 (sub_balance (coin_of ref) 1 u))
unfolding undo_paying
undo_paying-start tx_id pubkey body a ref u e (b, f, r) =
    rw (e, f)
      (ap (λ q. undo_body tx_id body a (refund a q u)) r
        ∙ ap (undo_body tx_id body a) (refund-back a ref u))

-- A transaction can be taken back.
abbrev pub CanUndo : Str → Str → Body → Ledger → Ledger → Type 0
CanUndo tx_id pubkey body s u =
    (u.tx_map ≡ s.tx_map) × (w : Ledger) × (undo_paying tx_id pubkey body u ≡ ok w) × Restored s w

-- The fee can be given back.
pub fee-AreUndone : (r a : ℕ) → AreUndone (give r 1 ∷ take a 2 ∷ [])
fee-AreUndone r a = (
  give-IsUndone r 1 (omega arith),
  (give-take r 1 a 2 (omega arith) (omega arith), tt),
  (take-IsUndone a 2 (omega arith), tt, tt),
)

-- The accounts after a balance change, if they are known before.
pub then_give :
    (i v : ℕ) (s : Ledger) (xs : List Account)
    → s.accounts ≡ xs
    → (add_balance i v s).accounts ≡ update_account i (shift v) xs
then_give i v s xs e = accounts-add_balance i v s ∙ ap (update_account i (shift v)) e

pub then_take :
    (i v : ℕ) (s : Ledger) (xs : List Account)
    → s.accounts ≡ xs
    → (sub_balance i v s).accounts ≡ update_account i (unshift v) xs
then_take i v s xs e = accounts-sub_balance i v s ∙ ap (update_account i (unshift v)) e

pub fee_accounts :
    (a : ℕ) (ref : Option ℕ) (s : Ledger)
    → (fee_taken a ref s).accounts ≡ do_writes (give (coin_of ref) 1 ∷ take a 2 ∷ []) s.accounts
fee_accounts a ref s =
    then_take a 2 (add_balance (coin_of ref) 1 s) _ (then_give (coin_of ref) 1 s s.accounts refl)

pub refund_accounts :
    (a : ℕ) (ref : Option ℕ) (u : Ledger)
    → (add_balance a 2 (sub_balance (coin_of ref) 1 u)).accounts
      ≡ undo_writes (give (coin_of ref) 1 ∷ take a 2 ∷ []) u.accounts
refund_accounts a ref u =
    then_give a 2 (sub_balance (coin_of ref) 1 u) _ (then_take (coin_of ref) 1 u u.accounts refl)

pub then_edit :
    (i : ℕ) (f : Account → Account) (s : Ledger) (xs : List Account)
    → s.accounts ≡ xs
    → (edit_account i f s).accounts ≡ update_account i f xs
unfolding edit_account
then_edit i f s xs e = ap (update_account i f) e

-- What was written and taken back.
pub back_again :
    (ws : List Write) (s u w : Ledger)
    → AreUndone ws
    → IsSane s
    → u.accounts ≡ do_writes ws s.accounts
    → w.accounts ≡ undo_writes ws u.accounts
    → w.accounts ≡ s.accounts
back_again ws s u w us sane e f =
    f ∙ ap (undo_writes ws) e ∙ undo_writes-do_writes ws s.accounts us sane.accounts_fit

pub Found-after :
    (a : ℕ) (ref : Option ℕ) (ws : List Write) (s u : Ledger)
    → AreUndone ws
    → u.accounts ≡ do_writes ws s.accounts
    → Found a ref s.accounts
    → Found a ref u.accounts
Found-after a ref ws s u us e f =
    subst (Found a ref) (sym e) (Found-do_writes a ref ws s.accounts us f)
