-- ===== src/Mine/Reopen/Whole.antt =====
-- `mine_tx` on the ledger, from the expiry of topics and transactions to their return.
use askcoin_core.Base.{
  ℕ, ◌+◌, ◌≡◌, refl, ap, sym, subst, ◌∙◌, true, false, Option, some, List, [], ◌∷◌, Run, ok, exit,
  ◌>>=◌, ltb, if◌then◌else◌, All, Bool-cases, inl, inr, ◌==◌, arith,
}
use askcoin_core.Base.Text.{Str}
use askcoin_core.Base.Dict.{contains, lookup, erase_key, str_key, nat_key}
use askcoin_core.External.{External}
use askcoin_core.Account.{topic_life_time}
use askcoin_core.Topic.{Topic}
use askcoin_core.Ledger.{Ledger}
use askcoin_core.Ledger.Expiry.{
  expire_topics, expiring, renew, proc_topic_expired, Archive, expire_block_txs, proc_tx_map,
}
use askcoin_core.Pending.{Tx}
use askcoin_core.Mine.Writes.{Fits}
use askcoin_core.Mine.Restore.{Restored}
use askcoin_core.Mine.Whole.{Rounds, undo_all, undo_all-Rounds}
use askcoin_core.Mine.Reopen.{reopen_topics, reopen_txs, reopen}
use askcoin_core.Mine.Reopen.Like.{AreLike, AreLike-refl}
use askcoin_core.Mine.Reopen.Back.{
  Reopened, Reopened-trans, IsReady, AreApart, reopen_topics-Reopened,
}
use askcoin_core.Mine.Reopen.Rounds.{ok_inj, reopen_topics-expire_topics}
use askcoin_core.Mine.Reopen.Txs.{AreUnique}
use askcoin_core.Mine.Reopen.Chain.{
  SameChain, expire_topics-SameChain, reopen_topics-SameChain, TxsBack, expired_back,
}

-- What is assumed of a ledger: balances are uint64, the topics of the list have different keys, are in `m_topics`
-- and have members that are different accounts and have joined, and a transaction is in `m_tx_map` once.
pub record CanReopen (s : Ledger) : Type 0 where
  pub fits : All Fits s.accounts
  pub ready : All (IsReady s) s.topic_list
  pub apart : AreApart s.topic_list
  pub unique : AreUnique s.tx_map

-- What `proc_topic_expired` and `proc_tx_map` leave of the older entries, for a rollback.
abbrev pub kept {ℓ} : {V : Type ℓ} → ℕ → List (ℕ × V) → List (ℕ × V)
kept now d = if ltb now (topic_life_time + 2) then d else renew now d

-- The ledger is what it was, as sets and maps, but for the entries that the expiry dropped and the order by
-- wealth, of which nothing is said.
pub record IsBack (now : ℕ) (s w : Ledger) : Type 0 where
  pub reopened : Reopened s w
  pub tx_map : (k : Str) → lookup k w.tx_map ≡ lookup k s.tx_map
  pub rollback_topics : w.rollback_topics ≡ kept now s.rollback_topics
  pub rollback_txs : w.rollback_txs ≡ kept now s.rollback_txs

Restored-Reopened : (s w : Ledger) → Restored s w → Reopened s w
Restored-Reopened s w h = record {
  accounts = subst (AreLike s.accounts) (sym h.accounts) (AreLike-refl s.accounts);
  topics = λ key. ap (contains key) h.topics;
  topic_list = h.topic_list;
  by_pubkey = h.by_pubkey;
  names = h.names;
  cur_account_id = h.cur_account_id;
  miner_pubkeys = h.miner_pubkeys;
}

reopen-late :
    (now : ℕ) (z y : Ledger) (ts : List Topic) (pair : Option ℕ × List Str) (m : List (Str × ℕ))
    → ltb (topic_life_time + 1) now ≡ true
    → lookup (expiring now) z.rollback_topics ≡ some ts
    → reopen_topics ts z ≡ ok y
    → lookup (expiring now) y.rollback_txs ≡ some pair
    → reopen_txs pair.0 pair.1 y.tx_map ≡ ok m
    → reopen now z
      ≡ ok (record y {
        tx_map = m;
        rollback_topics = erase_key (expiring now) y.rollback_topics;
        rollback_txs = erase_key (expiring now) y.rollback_txs;
      })
unfolding reopen
reopen-late now z y ts pair m late has ran also put = rw (reopen, late, has, ran, also, put) refl

lookup_first {ℓ} : {V : Type ℓ} (n : ℕ) (v : V) (d : List (ℕ × V)) → lookup n ((n, v) ∷ d) ≡ some v
lookup_first n v d = let same : (n == n) ≡ true = ground arith in rw same refl

erase_first_key {ℓ} : {V : Type ℓ} (n : ℕ) (v : V) (d : List (ℕ × V)) → erase_key n ((n, v) ∷ d) ≡ d
erase_first_key n v d = let same : (n == n) ≡ true = ground arith in rw same refl

-- The ledger between the expiry and the return.
abbrev between : ℕ → List Topic → (Option ℕ × List Str) × List (Str × ℕ) → Ledger → Ledger → Ledger
between now ts r s u = record u {
  tx_map = r.1;
  rollback_topics = (expiring now, ts) ∷ renew now s.rollback_topics;
  rollback_txs = (expiring now, r.0) ∷ renew now u.rollback_txs;
}

between-Reopened :
    (now : ℕ) (ts : List Topic) (r : (Option ℕ × List Str) × List (Str × ℕ)) (s u z : Ledger)
    → Restored (between now ts r s u) z
    → Reopened u z
between-Reopened now ts r s u z h =
    let q = Restored-Reopened (between now ts r s u) z h in
    record {
      accounts = q.accounts;
      topics = q.topics;
      topic_list = q.topic_list;
      by_pubkey = q.by_pubkey;
      names = q.names;
      cur_account_id = q.cur_account_id;
      miner_pubkeys = q.miner_pubkeys;
    }

Reopened-IsBack :
    (now : ℕ) (s y : Ledger) (m : List (Str × ℕ))
    → ltb now (topic_life_time + 2) ≡ false
    → Reopened s y
    → ((k : Str) → lookup k m ≡ lookup k s.tx_map)
    → erase_key (expiring now) y.rollback_topics ≡ renew now s.rollback_topics
    → erase_key (expiring now) y.rollback_txs ≡ renew now s.rollback_txs
    → IsBack now s (record y {
      tx_map = m;
      rollback_topics = erase_key (expiring now) y.rollback_topics;
      rollback_txs = erase_key (expiring now) y.rollback_txs;
    })
Reopened-IsBack now s y m late h found topics txs = record {
  reopened = record {
    accounts = h.accounts;
    topics = h.topics;
    topic_list = h.topic_list;
    by_pubkey = h.by_pubkey;
    names = h.names;
    cur_account_id = h.cur_account_id;
    miner_pubkeys = h.miner_pubkeys;
  };
  tx_map = found;
  rollback_topics = rw late topics;
  rollback_txs = rw late txs;
}

reopen-IsBack_late :
    (x : External) (h : Archive) (now : ℕ) (s u z : Ledger) (ts : List Topic)
    (r : (Option ℕ × List Str) × List (Str × ℕ))
    → ltb now (topic_life_time + 2) ≡ false
    → CanReopen s
    → All (λ i. lookup i s.tx_map ≡ some (expiring now)) r.0.1
    → expire_topics now [] s.topic_list s ≡ ok (ts, u)
    → expire_block_txs x h (expiring now) s.tx_map ≡ ok r
    → Restored (between now ts r s u) z
    → (w : Ledger) × (reopen now z ≡ ok w) × IsBack now s w
reopen-IsBack_late x h now s u z ts r late can noted ran erased back =
    let (v, opened, like) =
      reopen_topics-expire_topics now [] s.topic_list s u s ts refl can.fits can.ready can.apart ran
        (unfold reopen_topics in refl) in
    let (y, again, near) =
      reopen_topics-Reopened ts u z v (between-Reopened now ts r s u z back) opened in
    let (m, put, found) : TxsBack s.tx_map r =
      expired_back x h (expiring now) s.tx_map r can.unique erased noted in
    let before : SameChain s u = expire_topics-SameChain now [] s.topic_list s u ts ran in
    let after : SameChain z y = reopen_topics-SameChain ts z y again in
    let topics_there : y.rollback_topics ≡ (expiring now, ts) ∷ renew now s.rollback_topics =
      after.rollback_topics ∙ back.rollback_topics in
    let txs_there : y.rollback_txs ≡ (expiring now, r.0) ∷ renew now s.rollback_txs =
      after.rollback_txs
      ∙ back.rollback_txs
      ∙ ap (λ d. (expiring now, r.0) ∷ renew now d) before.rollback_txs in
    (
      _,
      reopen-late now z y ts r.0 m (ground (arith, late))
          (ap (lookup (expiring now)) back.rollback_topics ∙ lookup_first (expiring now) ts _) again
          (ap (lookup (expiring now)) txs_there ∙ lookup_first (expiring now) r.0 _)
          (ap (reopen_txs r.0.0 r.0.1) (after.tx_map ∙ back.tx_map) ∙ put),
      Reopened-IsBack now s y m late (Reopened-trans s v y like near) found
          (ap (erase_key (expiring now)) topics_there ∙ erase_first_key (expiring now) ts _)
          (ap (erase_key (expiring now)) txs_there ∙ erase_first_key (expiring now) r.0 _),
    )

reopen-IsBack_early :
    (now : ℕ) (s z : Ledger)
    → ltb now (topic_life_time + 2) ≡ true
    → Restored s z
    → (w : Ledger) × (reopen now z ≡ ok w) × IsBack now s w
unfolding reopen
reopen-IsBack_early now s z early back =
    let still : ltb (topic_life_time + 1) now ≡ false = ground (arith, early) in
    (
      z,
      rw (reopen, still) refl,
      record {
        reopened = Restored-Reopened s z back;
        tx_map = λ k. ap (lookup k) back.tx_map;
        rollback_topics = rw early back.rollback_topics;
        rollback_txs = rw early back.rollback_txs;
      },
    )

expired_topics :
    (now : ℕ) (s u : Ledger)
    → ltb now (topic_life_time + 2) ≡ false
    → proc_topic_expired now s ≡ ok u
    → (ts : List Topic) × (q : Ledger) × (expire_topics now [] s.topic_list s ≡ ok (ts, q))
      × (u ≡ record q { rollback_topics = (expiring now, ts) ∷ renew now s.rollback_topics })
unfolding proc_topic_expired
expired_topics now s u late e = of_run (expire_topics now [] s.topic_list s) refl (rw late at e)
  where
    of_run :
        (m : Run (List Topic × Ledger))
        → expire_topics now [] s.topic_list s ≡ m
        → (m >>= λ r.
            ok (record r.1 { rollback_topics = (expiring now, r.0) ∷ renew now s.rollback_topics }))
          ≡ ok u
        → (ts : List Topic) × (q : Ledger) × (expire_topics now [] s.topic_list s ≡ ok (ts, q))
          × (u ≡ record q { rollback_topics = (expiring now, ts) ∷ renew now s.rollback_topics })
    of_run exit f h = absurd (cc h)
    of_run (ok (ts, q)) f h = (ts, q, f, sym (ok_inj h))

abbrev without_txs : ℕ → (Option ℕ × List Str) × List (Str × ℕ) → Ledger → Ledger
without_txs now r s = record s {
  tx_map = r.1;
  rollback_txs = (expiring now, r.0) ∷ renew now s.rollback_txs;
}

expired_txs :
    (x : External) (h : Archive) (now : ℕ) (s u : Ledger)
    → ltb now (topic_life_time + 2) ≡ false
    → proc_tx_map x h now s ≡ ok u
    → (r : (Option ℕ × List Str) × List (Str × ℕ)) × (expire_block_txs x h (expiring now) s.tx_map
        ≡ ok r)
      × (u ≡ without_txs now r s)
unfolding proc_tx_map
expired_txs x h now s u late e =
    of_run (expire_block_txs x h (expiring now) s.tx_map) refl (rw late at e)
  where
    of_run :
        (m : Run ((Option ℕ × List Str) × List (Str × ℕ)))
        → expire_block_txs x h (expiring now) s.tx_map ≡ m
        → (m >>= λ r. ok (without_txs now r s)) ≡ ok u
        → (r : (Option ℕ × List Str) × List (Str × ℕ)) × (expire_block_txs x h
              (expiring now)
              s.tx_map
            ≡ ok r)
          × (u ≡ without_txs now r s)
    of_run exit f g = absurd (cc g)
    of_run (ok r) f g = (r, f, sym (ok_inj g))

-- The expiry, the rounds of a dry run, each on a sane ledger and with an amount that fits, their undoing and the
-- return of what expired.
pub reopen-Rounds :
    (x : External) (h : Archive) (now : ℕ) (s u v y : Ledger) (mined_txs : List Tx)
    → CanReopen s
    → ((r : (Option ℕ × List Str) × List (Str × ℕ))
        → expire_block_txs x h (expiring now) s.tx_map ≡ ok r
        → All (λ i. lookup i s.tx_map ≡ some (expiring now)) r.0.1)
    → proc_topic_expired now s ≡ ok u
    → proc_tx_map x h now u ≡ ok v
    → Rounds now v mined_txs y
    → (z w : Ledger) × (undo_all mined_txs y ≡ ok z) × (reopen now z ≡ ok w) × IsBack now s w
unfolding proc_topic_expired proc_tx_map
reopen-Rounds x h now s u v y mined_txs can noted gone_topics gone_txs rounds =
    let (z, done, back) = undo_all-Rounds now v y mined_txs rounds in
    let (w, ran, ends) : (w : Ledger) × (reopen now z ≡ ok w) × IsBack now s w =
      elim (Bool-cases (ltb now (topic_life_time + 2))) [
        | inl early ↦
            let same : s ≡ v = ok_inj (rw early at gone_topics) ∙ ok_inj (rw early at gone_txs) in
            reopen-IsBack_early now s z early (subst (λ q. Restored q z) (sym same) back)
        | inr late ↦
            let (ts, q, expired, shape) = expired_topics now s u late gone_topics in
            let (r, erased, chain) = expired_txs x h now u v late gone_txs in
            let same : u.tx_map ≡ s.tx_map =
              ap (λ l. l.tx_map) shape
              ∙ (expire_topics-SameChain now [] s.topic_list s q ts expired).tx_map in
            let taken : expire_block_txs x h (expiring now) s.tx_map ≡ ok r =
              ap (expire_block_txs x h (expiring now)) (sym same) ∙ erased in
            reopen-IsBack_late x h now s q z ts r late can (noted r taken) expired taken
              (subst (λ l. Restored l z) (chain ∙ ap (without_txs now r) shape) back)
      ] in
    (z, w, done, ran, ends)
