-- ===== src/Mine/Whole.antt =====
-- A whole dry run, and the second loop of `mine_tx`.
use askcoin_core.Base.{
  ℕ, ◌≡◌, refl, sym, ap, ◌∙◌, subst, true, false, Option, none, some, List, [], ◌∷◌, Run, ok, exit,
  ◌>>=◌, require, Bool-cases, inl, inr, ◌==◌,
}
use askcoin_core.Base.Text.{Str}
use askcoin_core.Base.Dict.{str_key}
use askcoin_core.Topic.{Topic, get_reply}
use askcoin_core.Ledger.{
  Ledger, find_account, get_account, get_topic, set_balance, add_balance, sub_balance, edit_account,
  edit_topic,
}
use askcoin_core.Pending.{Body, tx_reg, tx_send, tx_topic, tx_reply, tx_reward, tx_other, Tx}
use askcoin_core.Mine.{dry_tx}
use askcoin_core.Mine.Undo.{
  refund, undo_account, undo_reg, last_is, undo_join, undo_pay, undo_body, undo_paying, forget_tx,
  undo_tx,
}
use askcoin_core.Mine.Restore.{Restored, IsSane}
use askcoin_core.Mine.Restore.Rounds.{AmountFits, undo_tx-dry_tx, dry_tx-skipped}

-- The order by wealth is the only difference.
rich_only : (s : Ledger) (r : List ℕ) → Restored s (record s { rich = r })
rich_only s r = record {
  accounts = refl;
  by_pubkey = refl;
  names = refl;
  cur_account_id = refl;
  topics = refl;
  topic_list = refl;
  tx_map = refl;
  rollback_topics = refl;
  rollback_txs = refl;
  miner_pubkeys = refl;
}

Restored-trans : (s u w : Ledger) → Restored s u → Restored u w → Restored s w
Restored-trans s u w p q = record {
  accounts = q.accounts ∙ p.accounts;
  by_pubkey = q.by_pubkey ∙ p.by_pubkey;
  names = q.names ∙ p.names;
  cur_account_id = q.cur_account_id ∙ p.cur_account_id;
  topics = q.topics ∙ p.topics;
  topic_list = q.topic_list ∙ p.topic_list;
  tx_map = q.tx_map ∙ p.tx_map;
  rollback_topics = q.rollback_topics ∙ p.rollback_topics;
  rollback_txs = q.rollback_txs ∙ p.rollback_txs;
  miner_pubkeys = q.miner_pubkeys ∙ p.miner_pubkeys;
}

Restored-rich : (s w : Ledger) → Restored s w → w ≡ record s { rich = w.rich }
Restored-rich s w h = cc (
  h.accounts, h.by_pubkey, h.names, h.cur_account_id, h.topics, h.topic_list, h.tx_map,
  h.rollback_topics, h.rollback_txs, h.miner_pubkeys,
)

-- Two runs go on alike.
abbrev Alike : Run Ledger → Run Ledger → Type 0
Alike (ok s) (ok u) = Restored s u
Alike exit exit = Unit
Alike (ok s) exit = ⊥
Alike exit (ok u) = ⊥

bind-Alike {ℓ} :
    {A : Type ℓ} (m : Run A) (f g : A → Run Ledger)
    → ((a : A) → Alike (f a) (g a))
    → Alike (m >>= f) (m >>= g)
bind-Alike (ok a) f g h = h a
bind-Alike exit f g h = tt

undo_join-rich :
    (tx_id key : Str) (a : ℕ) (t : Topic) (s : Ledger) (r : List ℕ)
    → Restored (undo_join tx_id key a t s) (undo_join tx_id key a t (record s { rich = r }))
unfolding undo_join edit_topic edit_account
undo_join-rich tx_id key a t s r = elim (Bool-cases (t.owner == a)) [
  | inl own ↦ rw own (rich_only _ _)
  | inr other ↦ elim (Bool-cases (last_is tx_id t.members)) [
    | inl new ↦ rw (other, new) (rich_only _ _)
    | inr old ↦ rw (other, old) (rich_only _ _)
  ]
]

undo_body-rich :
    (tx_id : Str) (body : Body) (a : ℕ) (s : Ledger) (r : List ℕ)
    → Alike (undo_body tx_id body a s) (undo_body tx_id body a (record s { rich = r }))
unfolding undo_body undo_pay edit_topic edit_account get_account get_topic add_balance sub_balance
    set_balance
undo_body-rich tx_id (tx_reg n p v) a s r = rich_only s r
undo_body-rich tx_id (tx_send q v) a s r =
    bind-Alike (require (get_account q s)) _ _ (λ i. rich_only _ _)
undo_body-rich tx_id (tx_topic v x) a s r = rich_only _ _
undo_body-rich tx_id (tx_reply key to x j) a s r =
    bind-Alike (require (get_topic key s)) _ _ (λ t. undo_join-rich tx_id key a t _ _)
undo_body-rich tx_id (tx_reward key to v) a s r =
    bind-Alike (require (get_topic key s)) _ _
      (λ t. bind-Alike (require (get_reply to t)) _ _ (λ q. rich_only _ _))
undo_body-rich tx_id (tx_other n) a s r = rich_only s r

undo_paying-rich :
    (tx_id pubkey : Str) (body : Body) (s : Ledger) (r : List ℕ)
    → Alike
        (undo_paying tx_id pubkey body s)
        (undo_paying tx_id pubkey body (record s { rich = r }))
unfolding undo_paying refund get_account add_balance sub_balance set_balance
undo_paying-rich tx_id pubkey body s r = bind-Alike (require (get_account pubkey s)) _ _ (λ a.
    bind-Alike (require (find_account a s.accounts)) _ _ (λ payer. of_referrer a payer.referrer))
  where
    of_referrer :
        (a : ℕ) (ref : Option ℕ)
        → Alike
            (undo_body tx_id body a (refund a ref s))
            (undo_body tx_id body a (refund a ref (record s { rich = r })))
    of_referrer a none = undo_body-rich tx_id body a (refund a none s) _
    of_referrer a (some k) = undo_body-rich tx_id body a (refund a (some k) s) _

undo_reg-rich :
    (name referrer_pubkey pubkey : Str) (s : Ledger) (r : List ℕ)
    → Alike
        (undo_reg name referrer_pubkey pubkey s)
        (undo_reg name referrer_pubkey pubkey (record s { rich = r }))
unfolding undo_reg undo_account refund get_account add_balance sub_balance set_balance
undo_reg-rich name referrer_pubkey pubkey s r =
    bind-Alike (require (get_account referrer_pubkey s)) _ _ (λ a.
      bind-Alike (require (find_account a s.accounts)) _ _ (λ payer. of_referrer a payer.referrer))
  where
    of_referrer :
        (a : ℕ) (ref : Option ℕ)
        → Restored
            (undo_account name pubkey (refund a ref s))
            (undo_account name pubkey (refund a ref (record s { rich = r })))
    of_referrer a none = rich_only _ _
    of_referrer a (some k) = rich_only _ _

undo_one-rich :
    (tx_id pubkey : Str) (block_id broadcast_num : ℕ) (b : Body) (s : Ledger) (r : List ℕ)
    → let t : Tx = record {
      id = tx_id;
      block_id = block_id;
      pubkey = pubkey;
      body = b;
      broadcast_num = broadcast_num;
    } in
      Alike (undo_tx t s) (undo_tx t (record s { rich = r }))
unfolding undo_tx
undo_one-rich tx_id pubkey i k (tx_reg n p v) s r = undo_reg-rich n p pubkey (forget_tx tx_id s) r
undo_one-rich tx_id pubkey i k (tx_send q v) s r =
    undo_paying-rich tx_id pubkey (tx_send q v) (forget_tx tx_id s) r
undo_one-rich tx_id pubkey i k (tx_topic v x) s r =
    undo_paying-rich tx_id pubkey (tx_topic v x) (forget_tx tx_id s) r
undo_one-rich tx_id pubkey i k (tx_reply q to x j) s r =
    undo_paying-rich tx_id pubkey (tx_reply q to x j) (forget_tx tx_id s) r
undo_one-rich tx_id pubkey i k (tx_reward q to v) s r =
    undo_paying-rich tx_id pubkey (tx_reward q to v) (forget_tx tx_id s) r
undo_one-rich tx_id pubkey i k (tx_other j) s r =
    undo_paying-rich tx_id pubkey (tx_other j) (forget_tx tx_id s) r

-- The undoing does not read the order by wealth.
undo_tx-Alike : (t : Tx) (s w : Ledger) → Restored s w → Alike (undo_tx t s) (undo_tx t w)
undo_tx-Alike t s w h =
    subst (λ v. Alike (undo_tx t s) (undo_tx t v)) (sym (Restored-rich s w h))
      (undo_one-rich t.id t.pubkey t.block_id t.broadcast_num t.body s w.rich)

-- The rounds of a dry run from one ledger to another, with the transactions that go into the block, in
-- order.
pub data Rounds (cur_block_id : ℕ) : Ledger → List Tx → Ledger → Type 0 where
  stay : {s : Ledger} → Rounds cur_block_id s [] s
  mined :
      {s u v : Ledger} {ts : List Tx} (t : Tx)
      → IsSane s
      → AmountFits t.body
      → dry_tx cur_block_id t s ≡ ok (u, true)
      → Rounds cur_block_id u ts v
      → Rounds cur_block_id s (t ∷ ts) v
  skipped :
      {s u v : Ledger} {ts : List Tx} (t : Tx)
      → IsSane s
      → AmountFits t.body
      → dry_tx cur_block_id t s ≡ ok (u, false)
      → Rounds cur_block_id u ts v
      → Rounds cur_block_id s ts v

-- The second loop, over the transactions of the block from the last to the first.
unfoldable pub undo_all : List Tx → Ledger → Run Ledger
undo_all [] s = ok s
undo_all (t ∷ ts) s = undo_all ts s >>= undo_tx t

continue :
    (t : Tx) (u v : Ledger)
    → (w : Ledger) × (undo_tx t u ≡ ok w) × Restored v w
    → (m : Run Ledger) → (z : Ledger) × (m ≡ ok z) × Restored u z
    → (w : Ledger) × ((m >>= undo_tx t) ≡ ok w) × Restored v w
continue t u v (w, e, r) m (z, f, q) =
    last (undo_tx t z) refl (subst (λ x. Alike x (undo_tx t z)) e (undo_tx-Alike t u z q))
  where
    last :
        (y : Run Ledger)
        → undo_tx t z ≡ y
        → Alike (ok w) y
        → (x : Ledger) × ((m >>= undo_tx t) ≡ ok x) × Restored v x
    last (ok x) g k = (x, ap (λ n. n >>= undo_tx t) f ∙ g, Restored-trans v w x r k)
    last exit g k = absurd k

-- The rounds of a dry run, each on a sane ledger and with an amount that fits, and their undoing.
pub undo_all-Rounds :
    (cur_block_id : ℕ) (s v : Ledger) (ts : List Tx)
    → Rounds cur_block_id s ts v
    → (w : Ledger) × (undo_all ts v ≡ ok w) × Restored s w
unfolding undo_all
undo_all-Rounds cur_block_id s _ _ stay = (s, refl, rich_only s s.rich)
undo_all-Rounds cur_block_id s v _ (mined {u = u} {ts = ts} t sane fits e rest) =
    continue t u s (undo_tx-dry_tx cur_block_id t s u sane fits e) (undo_all ts v)
      (undo_all-Rounds cur_block_id u v ts rest)
undo_all-Rounds cur_block_id s v ts (skipped {u = u} t sane fits e rest) =
    let (w, done, back) = undo_all-Rounds cur_block_id u v ts rest in
    (w, done, Restored-trans s u w (dry_tx-skipped cur_block_id t s u sane fits e) back)
