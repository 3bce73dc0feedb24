-- ===== src/Mine/Restore/Rounds.antt =====
-- One round of the dry run, whatever the transaction, is undone by one round of the second loop.
use askcoin_core.Base.{
  u64_mod, ℕ, arith, ◌≡◌, ◌<◌, refl, ap, ◌∙◌, not, ◌&&◌, Bool, true, false, Option, none, some, Run,
  ok, require, require-ok, Ensures, Ensures-of, bind-Ensures, Bool-cases, Option-cases, inl, inr,
  ltb,
}
use askcoin_core.Base.Text.{Str}
use askcoin_core.Base.Dict.{erase_key-insert_entry, has_key, str_key}
use askcoin_core.Account.{Account}
use askcoin_core.Ledger.{
  Ledger, find_account, balance_of, add_balance, sub_balance, set_balance, get_account,
  account_name_exist,
}
use askcoin_core.Ledger.Tx.Register.{is_none}
use askcoin_core.Pending.{Body, tx_reg, tx_send, tx_topic, tx_reply, tx_reward, tx_other, Tx}
use askcoin_core.Mine.{
  Try, done, skip, stop, Gives, take_fee, give_back, dry_account, dry_body, dry_record, finish_dry,
  dry_reg, dry_paying, dry_tx,
}
use askcoin_core.Mine.Undo.{undo_reg, undo_paying, forget_tx, undo_tx}
use askcoin_core.Mine.Restore.{Restored, IsSane, Found, CanUndo, fee_taken, take_fee-ok}
use askcoin_core.Mine.Restore.Send.{send-CanUndo}
use askcoin_core.Mine.Restore.Publish.{topic-CanUndo}
use askcoin_core.Mine.Restore.Answer.{reply-CanUndo}
use askcoin_core.Mine.Restore.Gift.{reward-CanUndo}
use askcoin_core.Mine.Restore.Newcomer.{reg-CanUndo}
use askcoin_core.Mine.Restore.Skip.{skip-Restored}

-- The amount that a transaction carries is a uint64.
abbrev pub AmountFits : Body → Type 0
AmountFits (tx_send receiver v) = v < u64_mod
AmountFits (tx_topic v text) = v < u64_mod
AmountFits (tx_reward key to v) = v < u64_mod
AmountFits _ = Unit

-- The undoing `undo` of a round that left `u`: a transaction in the block is taken back, another has left
-- no trace.
abbrev pub Kept : (Ledger → Run Ledger) → Ledger → Ledger × Bool → Type 0
Kept undo s (u, true) = (w : Ledger) × (undo u ≡ ok w) × Restored s w
Kept undo s (u, false) = Restored s u

Restored-refl : (s : Ledger) → Restored s s
Restored-refl s = record {
  accounts = refl;
  by_pubkey = refl;
  names = refl;
  cur_account_id = refl;
  topics = refl;
  topic_list = refl;
  tx_map = refl;
  rollback_topics = refl;
  rollback_txs = refl;
  miner_pubkeys = refl;
}

-- A transaction that was not known is recorded and forgotten.
forgotten :
    (n : ℕ) (tx_id : Str) (s u : Ledger)
    → has_key tx_id s.tx_map ≡ false
    → u.tx_map ≡ s.tx_map
    → forget_tx tx_id (dry_record n tx_id u) ≡ u
unfolding dry_record
forgotten n tx_id s u new e =
    ap (λ m. record u { tx_map = m })
      (erase_key-insert_entry tx_id n u.tx_map (ap (has_key tx_id) e ∙ new))

body-CanUndo :
    (n : ℕ) (tx_id pubkey : Str) (body : Body) (a : ℕ) (ref : Option ℕ) (s : Ledger)
    → IsSane s
    → get_account pubkey s ≡ some a
    → Found a ref s.accounts
    → has_key tx_id s.tx_map ≡ false
    → AmountFits body
    → Gives (CanUndo tx_id pubkey body s) (dry_body n tx_id body a (fee_taken a ref s))
unfolding dry_body
body-CanUndo n tx_id pubkey (tx_reg name r v) a ref s sane e f new h = tt
body-CanUndo n tx_id pubkey (tx_send receiver v) a ref s sane e f new h =
    send-CanUndo tx_id pubkey receiver v a ref s sane e f h
body-CanUndo n tx_id pubkey (tx_topic v text) a ref s sane e f new h =
    topic-CanUndo n tx_id pubkey v text a ref s sane e f h
body-CanUndo n tx_id pubkey (tx_reply key to text j) a ref s sane e f new h =
    reply-CanUndo n tx_id pubkey key to text j a ref s sane e f new
body-CanUndo n tx_id pubkey (tx_reward key to v) a ref s sane e f new h =
    reward-CanUndo n tx_id pubkey key to v a ref s sane e f h
body-CanUndo n tx_id pubkey (tx_other k) a ref s sane e f new h = tt

-- What the end of a round makes of a step that can be taken back.
finish-Kept :
    (n : ℕ) (tx_id pubkey : Str) (body : Body) (s back : Ledger) (m : Try Ledger)
    → has_key tx_id s.tx_map ≡ false
    → Restored s back
    → Gives (CanUndo tx_id pubkey body s) m
    → Ensures
        (Kept (λ u. undo_paying tx_id pubkey body (forget_tx tx_id u)) s)
        (finish_dry n tx_id back m)
unfolding finish_dry
finish-Kept n tx_id pubkey body s back (done u) new k (same, w, e, r) =
    (w, ap (undo_paying tx_id pubkey body) (forgotten n tx_id s u new same) ∙ e, r)
finish-Kept n tx_id pubkey body s back skip new k g = k
finish-Kept n tx_id pubkey body s back stop new k g = tt

paying-Kept :
    (n : ℕ) (tx_id pubkey : Str) (body : Body) (s : Ledger)
    → IsSane s
    → has_key tx_id s.tx_map ≡ false
    → AmountFits body
    → Ensures
        (Kept (λ u. undo_paying tx_id pubkey body (forget_tx tx_id u)) s)
        (dry_paying n tx_id pubkey body s)
unfolding dry_paying get_account
paying-Kept n tx_id pubkey body s sane new h = elim (Option-cases (get_account pubkey s)) [
  | inl missing ↦ rw (dry_paying, missing) (Restored-refl s)
  | inr (a, e) ↦
      rw (dry_paying, e)
        (elim (Bool-cases (ltb (balance_of a s.accounts) 2)) [
          | inl poor ↦ rw poor (Restored-refl s)
          | inr rich ↦ rw rich (
              bind-Ensures _ (require (find_account a s.accounts)) _ (λ payer there.
                bind-Ensures _ (take_fee a payer.referrer payer.id s) _ (λ u taken.
                  paid a payer u e (require-ok _ there)
                    (take_fee-ok a payer.referrer payer.id s u taken))))
        ])
]
  where
    paid :
        (a : ℕ) (payer : Account) (u : Ledger)
        → get_account pubkey s ≡ some a
        → find_account a s.accounts ≡ some payer
        → u ≡ fee_taken a payer.referrer s
        → Ensures
            (Kept (λ v. undo_paying tx_id pubkey body (forget_tx tx_id v)) s)
            (finish_dry n tx_id (give_back a payer.referrer u) (dry_body n tx_id body a u))
    paid a payer u e there same = rw same (
        finish-Kept n tx_id pubkey body s _ _ new (skip-Restored a payer.referrer s sane)
          (body-CanUndo n tx_id pubkey body a payer.referrer s sane e (payer, there, refl) new h))

is_none-none {ℓ} : {A : Type ℓ} (o : Option A) → is_none o ≡ true → o ≡ none
is_none-none none e = refl
is_none-none (some a) e = cc

reg-Kept :
    (n : ℕ) (tx_id pubkey name referrer_pubkey : Str) (avatar : ℕ) (s : Ledger)
    → IsSane s
    → has_key tx_id s.tx_map ≡ false
    → Ensures
        (Kept (λ u. undo_reg name referrer_pubkey pubkey (forget_tx tx_id u)) s)
        (dry_reg n tx_id pubkey name referrer_pubkey avatar s)
unfolding dry_reg get_account dry_account add_balance sub_balance set_balance
reg-Kept n tx_id pubkey name referrer_pubkey avatar s sane new =
    elim (Bool-cases (is_none (get_account pubkey s) && not (account_name_exist name s))) [
      | inl free ↦ elim (Option-cases (get_account referrer_pubkey s)) [
        | inl missing ↦ rw (dry_reg, free, missing) (Restored-refl s)
        | inr (r, e) ↦ elim (Bool-cases (ltb (balance_of r s.accounts) 2)) [
          | inl poor ↦ rw (dry_reg, free, e, poor) (Restored-refl s)
          | inr rich ↦
              rw (dry_reg, free, e, rich)
                (bind-Ensures _ (require (find_account r s.accounts)) _ (λ payer there.
                  bind-Ensures _ (take_fee r payer.referrer payer.id s) _ (λ u taken.
                    joined r payer u (is_none-none _ (ground arith)) (ground arith) e
                      (require-ok _ there) (take_fee-ok r payer.referrer payer.id s u taken))))
        ]
      ]
      | inr used ↦ rw (dry_reg, used) (Restored-refl s)
    ]
  where
    joined :
        (r : ℕ) (payer : Account) (u : Ledger)
        → get_account pubkey s ≡ none
        → account_name_exist name s ≡ false
        → get_account referrer_pubkey s ≡ some r
        → find_account r s.accounts ≡ some payer
        → u ≡ fee_taken r payer.referrer s
        → Kept
            (λ v. undo_reg name referrer_pubkey pubkey (forget_tx tx_id v))
            s
            (dry_record n tx_id (dry_account n name pubkey avatar r u), true)
    joined r payer u free unnamed e there same =
        let (w, back, restored) =
          reg-CanUndo n name pubkey referrer_pubkey avatar r payer.referrer s sane free unnamed e
            (payer, there, refl) in
        (
          w,
          ap (undo_reg name referrer_pubkey pubkey) (
                forgotten n tx_id s (dry_account n name pubkey avatar r u) new
                  (ap (λ v. v.tx_map) same))
              ∙ ap
                  (λ v. undo_reg name referrer_pubkey pubkey (dry_account n name pubkey avatar r v))
                  same
              ∙ back,
          restored,
        )

-- A round, whatever its transaction.
round-body :
    (n : ℕ) (tx_id pubkey : Str) (block_id broadcast_num : ℕ) (b : Body) (s : Ledger)
    → IsSane s
    → has_key tx_id s.tx_map ≡ false
    → AmountFits b
    → let t : Tx = record {
      id = tx_id;
      block_id = block_id;
      pubkey = pubkey;
      body = b;
      broadcast_num = broadcast_num;
    } in
      Ensures (Kept (undo_tx t) s) (dry_tx n t s)
unfolding dry_tx undo_tx
round-body n tx_id pubkey i k (tx_reg name r v) s sane new h =
    rw (dry_tx, new) (reg-Kept n tx_id pubkey name r v s sane new)
round-body n tx_id pubkey i k (tx_send q v) s sane new h =
    rw (dry_tx, new) (paying-Kept n tx_id pubkey (tx_send q v) s sane new h)
round-body n tx_id pubkey i k (tx_topic v x) s sane new h =
    rw (dry_tx, new) (paying-Kept n tx_id pubkey (tx_topic v x) s sane new h)
round-body n tx_id pubkey i k (tx_reply q to x j) s sane new h =
    rw (dry_tx, new) (paying-Kept n tx_id pubkey (tx_reply q to x j) s sane new h)
round-body n tx_id pubkey i k (tx_reward q to v) s sane new h =
    rw (dry_tx, new) (paying-Kept n tx_id pubkey (tx_reward q to v) s sane new h)
round-body n tx_id pubkey i k (tx_other j) s sane new h =
    rw (dry_tx, new) (paying-Kept n tx_id pubkey (tx_other j) s sane new h)

round-Kept :
    (n : ℕ) (t : Tx) (s : Ledger)
    → IsSane s
    → AmountFits t.body
    → Ensures (Kept (undo_tx t) s) (dry_tx n t s)
unfolding dry_tx
round-Kept n t s sane h = elim (Bool-cases (has_key t.id s.tx_map)) [
  | inl old ↦ rw (dry_tx, old) (Restored-refl s)
  | inr new ↦ round-body n t.id t.pubkey t.block_id t.broadcast_num t.body s sane new h
]

-- On a sane ledger (balances and ids are uint64, new ids are new, the keys of `m_topics` are those of topics in the
-- list, and members have joined), a transaction that the dry run of `mine_tx` puts in the block, with an amount
-- that is a uint64, is taken back by the second loop: this ends normally, and all of the ledger but the order by
-- wealth is what it was.
pub undo_tx-dry_tx :
    (n : ℕ) (t : Tx) (s u : Ledger)
    → IsSane s
    → AmountFits t.body
    → dry_tx n t s ≡ ok (u, true)
    → (w : Ledger) × (undo_tx t u ≡ ok w) × Restored s w
undo_tx-dry_tx n t s u sane h e =
    Ensures-of (Kept (undo_tx t) s) (dry_tx n t s) (u, true) (round-Kept n t s sane h) e

-- On a ledger that is sane in the same way, a transaction that goes back to the queue, with an amount that is a uint64, leaves all of the
-- ledger but the order by wealth as it was, also after `failed_cb` where the fee was taken.
pub dry_tx-skipped :
    (n : ℕ) (t : Tx) (s u : Ledger)
    → IsSane s
    → AmountFits t.body
    → dry_tx n t s ≡ ok (u, false)
    → Restored s u
dry_tx-skipped n t s u sane h e =
    Ensures-of (Kept (undo_tx t) s) (dry_tx n t s) (u, false) (round-Kept n t s sane h) e
