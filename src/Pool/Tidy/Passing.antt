-- ===== src/Pool/Tidy/Passing.antt =====
-- The passes of `do_uv_tx`, and a new transaction, keep the sets in step with the lists.
use askcoin_core.Base.{
  ℕ, ◌+◌, ◌≡◌, ◌≤◌, ap, sym, subst, not, false, List, [], ◌∷◌, ◌++◌, arith, Bool-cases, inl, inr,
}
use askcoin_core.Base.Text.{Str}
use askcoin_core.Base.Dict.{has_key, str_key}
use askcoin_core.Ledger.{Ledger, get_account, account_name_exist, get_topic}
use askcoin_core.Ledger.Tx.Register.{is_none}
use askcoin_core.Pending.{Body, tx_reg, tx_send, tx_topic, tx_reply, tx_reward, tx_other, Tx}
use askcoin_core.Pool.{Pool, Decision, drop, wait, pass, drop_if, judge, Allows, drop_if-Allows}
use askcoin_core.Pool.Review.{
  is_stale, screen, free_tx, first_pass, release, Fate, stays, mined, gone, review, insert_tx,
  broadcasts, second_pass, third_pass, do_uv_tx,
}
use askcoin_core.Pool.Submit.{is_unwelcome, take_tx, submit}
use askcoin_core.Pool.Passes.{Passes, judge-Passes}
use askcoin_core.Pool.Tidy.{
  occurs, noted, uses, uses-append, Sort, freed, taken, ids, names, pubkeys,
}

pub screen-Passes : (n : ℕ) (t : Tx) (s : Ledger) → Allows (Passes t s) (screen n t s)
unfolding screen
screen-Passes n t s =
    drop_if-Allows (Passes t s) (is_stale n t.block_id) _
      (λ _. drop_if-Allows (Passes t s) (has_key t.id s.tx_map) _ (λ _. of_body t.body))
  where
    of_body :
        (b : Body)
        → Allows (Passes t s) (elim b [
          | tx_reg name referrer_pubkey avatar ↦
              drop_if
                (not (is_none (get_account t.pubkey s)))
                (drop_if (account_name_exist name s) (judge n t s))
          | tx_topic reward text ↦ drop_if (not (is_none (get_topic t.id s))) (judge n t s)
          | _ ↦ judge n t s
        ])
    of_body (tx_reg name r v) =
        drop_if-Allows (Passes t s) (not (is_none (get_account t.pubkey s))) _
          (λ _. drop_if-Allows (Passes t s) (account_name_exist name s) _ (λ _. judge-Passes n t s))
    of_body (tx_send q v) = judge-Passes n t s
    of_body (tx_topic v x) =
        drop_if-Allows (Passes t s) (not (is_none (get_topic t.id s))) _ (λ _. judge-Passes n t s)
    of_body (tx_reply q to x j) = judge-Passes n t s
    of_body (tx_reward q to v) = judge-Passes n t s
    of_body (tx_other k) = judge-Passes n t s

module _ (o : Sort) (n : ℕ) (k : Str) where
  -- The key is in use in the lists, and `extra` times elsewhere, no more often than it is noted.
  abbrev Fits : ℕ → List Tx → List Tx → Pool → Type 0
  Fits extra xs ys p = uses o.keys k xs + uses o.keys k ys + extra ≤ noted k (o.set p)

  -- A list without its first, whose keys are freed.
  free-Fits :
      (extra : ℕ) (t : Tx) (ts ys : List Tx) (p : Pool)
      → Fits extra (t ∷ ts) ys p
      → Fits extra ts ys (free_tx t p)
  free-Fits extra t ts ys p h =
      subst (λ l. uses o.keys k ts + uses o.keys k ys + extra ≤ noted k l) (sym (o.set_free t p))
        (freed (o.keys t) k (uses o.keys k ts + uses o.keys k ys + extra) (o.set p) (o.short t)
          (omega (arith, h)))

  -- The lists and the ledger do not matter to the sets.
  lists-Fits :
      (extra : ℕ) (xs ys : List Tx) (p : Pool) (ls ms zs : List Tx) (s : Ledger)
      → Fits extra xs ys p
      → Fits extra xs ys (record p { uv_1_txs = ls; uv_2_txs = ms; uv_3_txs = zs; ledger = s })
  lists-Fits extra xs ys p ls ms zs s h =
      subst (λ l. uses o.keys k xs + uses o.keys k ys + extra ≤ noted k l)
        (sym (o.set_lists p ls ms zs s)) h

  first_pass-Fits :
      (extra : ℕ) (ts : List Tx) (p : Pool)
      → Fits extra ts p.uv_2_txs p
      → Fits extra (first_pass n ts p).uv_1_txs (first_pass n ts p).uv_2_txs (first_pass n ts p)
  unfolding first_pass
  first_pass-Fits extra [] p h =
      lists-Fits extra [] p.uv_2_txs p [] p.uv_2_txs p.uv_3_txs p.ledger h
  first_pass-Fits extra (t ∷ ts) p h =
      go (screen n t p.ledger) (screen-Passes n t p.ledger) (λ e q. first_pass-Fits e ts q)
    where
      go :
          (d : Decision)
          → Allows (Passes t p.ledger) d
          → ((e : ℕ) (q : Pool)
              → Fits e ts q.uv_2_txs q
              → Fits e
                  (first_pass n ts q).uv_1_txs
                  (first_pass n ts q).uv_2_txs
                  (first_pass n ts q))
          → let r : Pool = elim d [
            | drop ↦ first_pass n ts (free_tx t p)
            | wait ↦ let q = first_pass n ts p in record q { uv_1_txs = t ∷ q.uv_1_txs }
            | pass u s ↦ first_pass n ts (record p { uv_2_txs = p.uv_2_txs ++ u ∷ []; ledger = s })
          ] in
            Fits extra r.uv_1_txs r.uv_2_txs r
      go drop a rest = rest extra (free_tx t p) (free-Fits extra t ts p.uv_2_txs p h)
      go wait a rest =
          let q : Pool = first_pass n ts p in
          let kept : Fits (extra + occurs k (o.keys t)) q.uv_1_txs q.uv_2_txs q =
            rest (extra + occurs k (o.keys t)) p (omega (arith, h)) in
          lists-Fits extra (t ∷ q.uv_1_txs) q.uv_2_txs q (t ∷ q.uv_1_txs) q.uv_2_txs q.uv_3_txs
            q.ledger (omega (arith, kept))
      go (pass u s) a rest =
          rest extra (record p { uv_2_txs = p.uv_2_txs ++ u ∷ []; ledger = s })
            (lists-Fits extra ts (p.uv_2_txs ++ u ∷ []) p p.uv_1_txs (p.uv_2_txs ++ u ∷ [])
              p.uv_3_txs s
              (omega (
                arith,
                h,
                uses-append o.keys k p.uv_2_txs (u ∷ []),
                ap (occurs k) (o.keys_pass a),
              )))

  second_pass-Fits :
      (extra : ℕ) (ts : List Tx) (p : Pool)
      → Fits extra p.uv_1_txs ts p
      → Fits extra (second_pass n ts p).uv_1_txs (second_pass n ts p).uv_2_txs (second_pass n ts p)
  unfolding second_pass
  second_pass-Fits extra [] p h =
      lists-Fits extra p.uv_1_txs [] p p.uv_1_txs [] p.uv_3_txs p.ledger h
  second_pass-Fits extra (t ∷ ts) p h = go (review n t p.ledger) (λ e q. second_pass-Fits e ts q)
    where
      less : Fits extra p.uv_1_txs ts (free_tx t p)
      less =
          let m : Fits extra ts p.uv_1_txs (free_tx t p) =
            free-Fits extra t ts p.uv_1_txs p (omega (arith, h)) in
          omega (arith, m)

      go :
          (f : Fate)
          → ((e : ℕ) (q : Pool)
              → Fits e q.uv_1_txs ts q
              → Fits e
                  (second_pass n ts q).uv_1_txs
                  (second_pass n ts q).uv_2_txs
                  (second_pass n ts q))
          → let r : Pool = elim f [
            | stays ↦
                let q = second_pass n ts p in record q { uv_2_txs = broadcasts t ∷ q.uv_2_txs }
            | mined ↦ second_pass n ts (record (free_tx t p) {
              uv_3_txs = insert_tx t p.uv_3_txs;
              ledger = release t p.ledger;
            })
            | gone ↦ second_pass n ts (record (free_tx t p) { ledger = release t p.ledger })
          ] in
            Fits extra r.uv_1_txs r.uv_2_txs r
      go stays rest =
          let q : Pool = second_pass n ts p in
          let kept : Fits (extra + occurs k (o.keys t)) q.uv_1_txs q.uv_2_txs q =
            rest (extra + occurs k (o.keys t)) p (omega (arith, h)) in
          lists-Fits extra q.uv_1_txs (broadcasts t ∷ q.uv_2_txs) q q.uv_1_txs
            (broadcasts t ∷ q.uv_2_txs) q.uv_3_txs q.ledger
            (omega (arith, kept, ap (occurs k) (o.keys_broadcasts t)))
      go mined rest =
          rest extra
            (record (free_tx t p) {
              uv_3_txs = insert_tx t p.uv_3_txs;
              ledger = release t p.ledger;
            })
            (lists-Fits extra p.uv_1_txs ts (free_tx t p) p.uv_1_txs p.uv_2_txs
              (insert_tx t p.uv_3_txs) (release t p.ledger) less)
      go gone rest =
          rest extra (record (free_tx t p) { ledger = release t p.ledger })
            (lists-Fits extra p.uv_1_txs ts (free_tx t p) p.uv_1_txs p.uv_2_txs p.uv_3_txs
              (release t p.ledger) less)

  do_uv_tx-Fits :
      (p : Pool)
      → Fits 0 p.uv_1_txs p.uv_2_txs p
      → Fits 0 (do_uv_tx n p).uv_1_txs (do_uv_tx n p).uv_2_txs (do_uv_tx n p)
  unfolding do_uv_tx
  do_uv_tx-Fits p h =
      let first : Pool = first_pass n p.uv_1_txs p in
      let second : Pool = second_pass n first.uv_2_txs first in
      lists-Fits 0 second.uv_1_txs second.uv_2_txs second second.uv_1_txs second.uv_2_txs
        (third_pass n second.ledger second.uv_3_txs) second.ledger
        (second_pass-Fits 0 first.uv_2_txs first (first_pass-Fits 0 p.uv_1_txs p h))

  submit-Fits :
      (t : Tx) (p : Pool)
      → Fits 0 p.uv_1_txs p.uv_2_txs p
      → Fits 0 (submit n t p).uv_1_txs (submit n t p).uv_2_txs (submit n t p)
  unfolding submit
  submit-Fits t p h = elim (Bool-cases (is_unwelcome n t p)) [
    | inl away ↦ rw (submit, away) h
    | inr new ↦ rw (submit, new) (go (judge n t p.ledger) (judge-Passes n t p.ledger) (entered new))
  ]
    where
      entered :
          is_unwelcome n t p ≡ false
          → occurs k (o.keys t) + (uses o.keys k p.uv_1_txs + uses o.keys k p.uv_2_txs + 0)
            ≤ noted k (o.set (take_tx t p))
      entered new =
          subst
            (λ l.
              occurs k (o.keys t) + (uses o.keys k p.uv_1_txs + uses o.keys k p.uv_2_txs + 0)
              ≤ noted k l)
            (sym (o.set_take t p))
            (taken (o.keys t) k (uses o.keys k p.uv_1_txs + uses o.keys k p.uv_2_txs + 0) (o.set p)
              (o.short t) (o.fresh n t p new) h)

      go :
          (d : Decision)
          → Allows (Passes t p.ledger) d
          → occurs k (o.keys t) + (uses o.keys k p.uv_1_txs + uses o.keys k p.uv_2_txs + 0)
            ≤ noted k (o.set (take_tx t p))
          → let q : Pool = take_tx t p in
            let r : Pool = elim d [
              | drop ↦ q
              | wait ↦ record q { uv_1_txs = q.uv_1_txs ++ t ∷ [] }
              | pass u s ↦ record q { uv_2_txs = q.uv_2_txs ++ u ∷ []; ledger = s }
            ] in
            Fits 0 r.uv_1_txs r.uv_2_txs r
      go drop a e = omega (arith, e)
      go wait a e =
          lists-Fits 0 (p.uv_1_txs ++ t ∷ []) p.uv_2_txs (take_tx t p) (p.uv_1_txs ++ t ∷ [])
            p.uv_2_txs p.uv_3_txs p.ledger
            (omega (arith, e, uses-append o.keys k p.uv_1_txs (t ∷ [])))
      go (pass u s) a e =
          lists-Fits 0 p.uv_1_txs (p.uv_2_txs ++ u ∷ []) (take_tx t p) p.uv_1_txs
            (p.uv_2_txs ++ u ∷ []) p.uv_3_txs s
            (omega
              (arith, e, uses-append o.keys k p.uv_2_txs (u ∷ []), ap (occurs k) (o.keys_pass a)))

-- Of one sort, no key is in use by the lists more often than it is noted, that is once, and never if it is
-- not noted.
abbrev pub Covers : Sort → Pool → Type 0
Covers o p = (k : Str) → uses o.keys k p.uv_1_txs + uses o.keys k p.uv_2_txs ≤ noted k (o.set p)

pub record IsTidy (p : Pool) : Type 0 where
  pub by_id : Covers ids p
  pub by_name : Covers names p
  pub by_pubkey : Covers pubkeys p

-- What happens to the pool: a transaction is handed in, `do_uv_tx` runs, or the ledger is changed by
-- others.
pub data Event (p : Pool) : Pool → Type 0 where
  submits : (cur_block_id : ℕ) (t : Tx) → Event p (submit cur_block_id t p)
  passes : (cur_block_id : ℕ) → Event p (do_uv_tx cur_block_id p)
  changes : (s : Ledger) → Event p (record p { ledger = s })

pub data Events (p : Pool) : Pool → Type 0 where
  at_first : Events p p
  and_then : {q r : Pool} → Events p q → Event q r → Events p r

submit-Covers : (o : Sort) (n : ℕ) (t : Tx) (p : Pool) → Covers o p → Covers o (submit n t p)
submit-Covers o n t p h k = omega (arith, submit-Fits o n k t p (omega (arith, h k)))

do_uv_tx-Covers : (o : Sort) (n : ℕ) (p : Pool) → Covers o p → Covers o (do_uv_tx n p)
do_uv_tx-Covers o n p h k = omega (arith, do_uv_tx-Fits o n k p (omega (arith, h k)))

Event-IsTidy : (p q : Pool) → Event p q → IsTidy p → IsTidy q
Event-IsTidy p _ (submits n t) h = record {
  by_id = submit-Covers ids n t p h.by_id;
  by_name = submit-Covers names n t p h.by_name;
  by_pubkey = submit-Covers pubkeys n t p h.by_pubkey;
}
Event-IsTidy p _ (passes n) h = record {
  by_id = do_uv_tx-Covers ids n p h.by_id;
  by_name = do_uv_tx-Covers names n p h.by_name;
  by_pubkey = do_uv_tx-Covers pubkeys n p h.by_pubkey;
}
Event-IsTidy p _ (changes s) h = record {
  by_id = h.by_id;
  by_name = h.by_name;
  by_pubkey = h.by_pubkey;
}

-- In the pool, whatever transactions are handed in, however often `do_uv_tx` runs and however the ledger
-- changes in between, no two transactions of the lists `m_uv_1_txs` and `m_uv_2_txs` ever have the same id, nor
-- two registrations the same name or key, and each is noted in its set; that is, if it is so at the start.
pub Events-IsTidy : (p q : Pool) → Events p q → IsTidy p → IsTidy q
Events-IsTidy p _ at_first h = h
Events-IsTidy p r (and_then {q = q} es e) h = Event-IsTidy q r e (Events-IsTidy p q es h)
