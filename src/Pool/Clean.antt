-- ===== src/Pool/Clean.antt =====
-- After `do_uv_tx`, the two lists hold no transaction that is too old, too new or already in the chain.
use askcoin_core.Base.{
  ℕ, ◌≡◌, refl, sym, subst, ◌∙◌, Bool, true, false, Option, none, some, List, [], ◌∷◌, ◌++◌,
  if◌then◌else◌, All, Bool-cases, inl, inr,
}
use askcoin_core.Base.Text.{Str}
use askcoin_core.Base.Dict.{has_key, str_key}
use askcoin_core.Account.{Account}
use askcoin_core.Topic.{Topic}
use askcoin_core.Ledger.{Ledger, get_account, get_topic, edit_account, edit_topic}
use askcoin_core.Pending.{Body, tx_reg, tx_send, tx_topic, tx_reply, tx_reward, tx_other, Tx}
use askcoin_core.Mine.Total.{IsKnown}
use askcoin_core.Pool.{Pool, Decision, drop, wait, pass, drop_if, Allows}
use askcoin_core.Pool.Review.{
  is_stale, screen, free_tx, first_pass, release, Fate, stays, mined, gone, is_other, is_over,
  topic_of, review_name, review, insert_tx, broadcasts, second_pass, do_uv_tx, with_account,
  with_topic,
}
use askcoin_core.Pool.Passes.{Passes, regs, sends, opens, replies, joins, rewards, others}
use askcoin_core.Pool.Tidy.Passing.{screen-Passes}

-- The transaction can be in the next block, as far as its block and the given map tell.
abbrev pub IsCurrent : ℕ → List (Str × ℕ) → Tx → Type 0
IsCurrent n m t = (is_stale n t.block_id ≡ false) × (has_key t.id m ≡ false)

abbrev Known : Tx → Type 0
Known t = IsKnown t.body

-- A property of every transaction that is not dropped.
abbrev Spares : Type 0 → Decision → Type 0
Spares P drop = Unit
Spares P wait = P
Spares P (pass u s) = P

drop_if-Spares :
    (P : Type 0) (b : Bool) (k : Decision) → (b ≡ false → Spares P k) → Spares P (drop_if b k)
drop_if-Spares P true k h = tt
drop_if-Spares P false k h = h refl

sure : (P : Type 0) (d : Decision) → P → Spares P d
sure P drop h = tt
sure P wait h = h
sure P (pass u s) h = h

screen-IsCurrent : (n : ℕ) (t : Tx) (s : Ledger) → Spares (IsCurrent n s.tx_map t) (screen n t s)
unfolding screen
screen-IsCurrent n t s = drop_if-Spares (IsCurrent n s.tx_map t) (is_stale n t.block_id) _ (λ fresh.
    drop_if-Spares (IsCurrent n s.tx_map t) (has_key t.id s.tx_map) _
      (λ new. sure (IsCurrent n s.tx_map t) _ (fresh, new)))

-- The counting leaves the transactions of the chain alone.
Passes-tx_map : (t u : Tx) (s v : Ledger) → Passes t s u v → v.tx_map ≡ s.tx_map
unfolding edit_account edit_topic
Passes-tx_map t _ s _ (regs name r v i a e p) = refl
Passes-tx_map t _ s _ (sends q v i a e p) = refl
Passes-tx_map t _ s _ (opens v x i a e p r) = refl
Passes-tx_map t _ s _ (replies key to x j i a q e p r) = refl
Passes-tx_map t _ s _ (joins key to x j i a q e p r f) = refl
Passes-tx_map t _ s _ (rewards key to v i a q e p r f) = refl
Passes-tx_map t _ s _ (others n e) = refl

Passes-Known : (t u : Tx) (s v : Ledger) → Passes t s u v → Known t → Known u
Passes-Known t _ s _ (regs name r v i a e p) h = h
Passes-Known t _ s _ (sends q v i a e p) h = h
Passes-Known t _ s _ (opens v x i a e p r) h = h
Passes-Known t _ s _ (replies key to x j i a q e p r) h = h
Passes-Known t _ s _ (joins key to x j i a q e p r f) h = tt
Passes-Known t _ s _ (rewards key to v i a q e p r f) h = h
Passes-Known t _ s _ (others n e) h = h

All-last : (P : Tx → Type 0) (ts : List Tx) (u : Tx) → All P ts → P u → All P (ts ++ u ∷ [])
All-last P [] u h p = (p, tt)
All-last P (t ∷ ts) u h p = (h.0, All-last P ts u h.1 p)

with_account-tx_map :
    (pubkey : Str) (f : Account → Account) (s : Ledger)
    → (with_account pubkey f s).tx_map ≡ s.tx_map
unfolding edit_account
with_account-tx_map pubkey f s = of_option (get_account pubkey s)
  where
    of_option :
        (o : Option ℕ)
        → let r : Ledger = elim o [ none ↦ s | some i ↦ edit_account i f s ] in r.tx_map ≡ s.tx_map
    of_option none = refl
    of_option (some i) = refl

with_topic-tx_map :
    (key : Str) (f : Topic → Topic) (s : Ledger) → (with_topic key f s).tx_map ≡ s.tx_map
unfolding edit_topic
with_topic-tx_map key f s = of_option (get_topic key s)
  where
    of_option :
        (o : Option Topic)
        → let r : Ledger = elim o [ none ↦ s | some t ↦ edit_topic key f s ] in r.tx_map ≡ s.tx_map
    of_option none = refl
    of_option (some t) = refl

release-tx_map : (t : Tx) (s : Ledger) → (release t s).tx_map ≡ s.tx_map
unfolding release
release-tx_map t s = of_body t.body refl
  where
    of_body : (b : Body) → t.body ≡ b → (release t s).tx_map ≡ s.tx_map
    of_body (tx_reg name r v) e = rw (release, e) (with_account-tx_map r _ s)
    of_body (tx_send q v) e = rw (release, e) (with_account-tx_map t.pubkey _ s)
    of_body (tx_topic v x) e = rw (release, e) (with_account-tx_map t.pubkey _ s)
    of_body (tx_reply key to x j) e =
        rw (release, e)
          (with_topic-tx_map key _ (with_account t.pubkey _ s) ∙ with_account-tx_map t.pubkey _ s)
    of_body (tx_reward key to v) e =
        rw (release, e)
          (with_topic-tx_map key _ (with_account t.pubkey _ s) ∙ with_account-tx_map t.pubkey _ s)
    of_body (tx_other n) e = rw (release, e) refl

IsKnown-other : (b : Body) → IsKnown b → is_other b ≡ false
IsKnown-other (tx_reg name r v) h = refl
IsKnown-other (tx_send q v) h = refl
IsKnown-other (tx_topic v x) h = refl
IsKnown-other (tx_reply key to x j) h = refl
IsKnown-other (tx_reward key to v) h = refl
IsKnown-other (tx_other n) h = absurd h

-- What stays can still be mined.
review-stays :
    (n : ℕ) (t : Tx) (s : Ledger) → Known t → review n t s ≡ stays → IsCurrent n s.tx_map t
unfolding review
review-stays n t s k e =
    later (elim (topic_of t.body) [ none ↦ false | some key ↦ is_over n key s ])
      (rw (review, IsKnown-other t.body k) at e)
  where
    later :
        (b : Bool)
        → (if b
            then gone
            else if is_stale n t.block_id
            then gone
            else if has_key t.id s.tx_map
            then mined
            else review_name t.body t.pubkey s)
          ≡ stays
        → IsCurrent n s.tx_map t
    later true h = absurd (cc h)
    later false h = elim (Bool-cases (is_stale n t.block_id)) [
      | inl old ↦ absurd (cc (rw old at h))
      | inr fresh ↦ elim (Bool-cases (has_key t.id s.tx_map)) [
        | inl known ↦ absurd (cc (rw (fresh, known) at h))
        | inr new ↦ (fresh, new)
      ]
    ]

module _ (n : ℕ) (m : List (Str × ℕ)) where
  -- What the first pass is about to make of its two lists.
  record Screened (q : Pool) : Type 0 where
    pub same_map : q.ledger.tx_map ≡ m
    pub current : All (IsCurrent n m) q.uv_1_txs
    pub known : All Known q.uv_2_txs

  first_pass-Screened :
      (ts : List Tx) (p : Pool)
      → p.ledger.tx_map ≡ m
      → All Known ts
      → All Known p.uv_2_txs
      → Screened (first_pass n ts p)
  unfolding first_pass
  first_pass-Screened [] p e k h = record { same_map = e; current = tt; known = h }
  first_pass-Screened (t ∷ ts) p e k h =
      go (screen n t p.ledger) (screen-Passes n t p.ledger) (screen-IsCurrent n t p.ledger)
        (λ q d l. first_pass-Screened ts q d k.1 l)
    where
      go :
          (d : Decision)
          → Allows (Passes t p.ledger) d
          → Spares (IsCurrent n p.ledger.tx_map t) d
          → ((q : Pool) → q.ledger.tx_map ≡ m → All Known q.uv_2_txs → Screened (first_pass n ts q))
          → Screened (elim d [
            | drop ↦ first_pass n ts (free_tx t p)
            | wait ↦ let q = first_pass n ts p in record q { uv_1_txs = t ∷ q.uv_1_txs }
            | pass u s ↦ first_pass n ts (record p { uv_2_txs = p.uv_2_txs ++ u ∷ []; ledger = s })
          ])
      go drop a c rest = rest (free_tx t p) e h
      go wait a c rest =
          let q : Screened (first_pass n ts p) = rest p e h in
          record {
            same_map = q.same_map;
            current = (subst (λ l. IsCurrent n l t) e c, q.current);
            known = q.known;
          }
      go (pass u s) a c rest =
          rest (record p { uv_2_txs = p.uv_2_txs ++ u ∷ []; ledger = s })
            (Passes-tx_map t u p.ledger s a ∙ e)
            (All-last Known p.uv_2_txs u h (Passes-Known t u p.ledger s a k.0))

  record Reviewed (p q : Pool) : Type 0 where
    pub same_map : q.ledger.tx_map ≡ m
    pub first_list : q.uv_1_txs ≡ p.uv_1_txs
    pub current : All (IsCurrent n m) q.uv_2_txs

  second_pass-Reviewed :
      (ts : List Tx) (p : Pool)
      → p.ledger.tx_map ≡ m
      → All Known ts
      → Reviewed p (second_pass n ts p)
  unfolding second_pass
  second_pass-Reviewed [] p e k = record { same_map = e; first_list = refl; current = tt }
  second_pass-Reviewed (t ∷ ts) p e k =
      go (review n t p.ledger) (review-stays n t p.ledger k.0)
        (λ q d. second_pass-Reviewed ts q d k.1)
    where
      go :
          (f : Fate)
          → (f ≡ stays → IsCurrent n p.ledger.tx_map t)
          → ((q : Pool) → q.ledger.tx_map ≡ m → Reviewed q (second_pass n ts q))
          → Reviewed p (elim f [
            | stays ↦
                let q = second_pass n ts p in record q { uv_2_txs = broadcasts t ∷ q.uv_2_txs }
            | mined ↦ second_pass n ts (record (free_tx t p) {
              uv_3_txs = insert_tx t p.uv_3_txs;
              ledger = release t p.ledger;
            })
            | gone ↦ second_pass n ts (record (free_tx t p) { ledger = release t p.ledger })
          ])
      go stays c rest =
          let q : Reviewed p (second_pass n ts p) = rest p e in
          record {
            same_map = q.same_map;
            first_list = q.first_list;
            current = (subst (λ l. IsCurrent n l t) e (c refl), q.current);
          }
      go mined c rest =
          let q =
            rest
              (record (free_tx t p) {
                uv_3_txs = insert_tx t p.uv_3_txs;
                ledger = release t p.ledger;
              })
              (release-tx_map t p.ledger ∙ e) in
          record { same_map = q.same_map; first_list = q.first_list; current = q.current }
      go gone c rest =
          let q =
            rest (record (free_tx t p) { ledger = release t p.ledger })
              (release-tx_map t p.ledger ∙ e) in
          record { same_map = q.same_map; first_list = q.first_list; current = q.current }

-- After `do_uv_tx`, on lists of the five known types, every transaction of `m_uv_1_txs` and of `m_uv_2_txs`,
-- from which `mine_tx` then takes those of the next block, is within 100 blocks of the next one and is not
-- in the chain; and the transactions of the chain are as before.
pub do_uv_tx-IsCurrent :
    (n : ℕ) (p : Pool)
    → All (λ t. IsKnown t.body) p.uv_1_txs
    → All (λ t. IsKnown t.body) p.uv_2_txs
    → All (IsCurrent n p.ledger.tx_map) (do_uv_tx n p).uv_1_txs
      × All (IsCurrent n p.ledger.tx_map) (do_uv_tx n p).uv_2_txs
      × ((do_uv_tx n p).ledger.tx_map ≡ p.ledger.tx_map)
unfolding do_uv_tx
do_uv_tx-IsCurrent n p h k =
    let first : Pool = first_pass n p.uv_1_txs p in
    let a : Screened n p.ledger.tx_map first =
      first_pass-Screened n p.ledger.tx_map p.uv_1_txs p refl h k in
    let b : Reviewed n p.ledger.tx_map first (second_pass n first.uv_2_txs first) =
      second_pass-Reviewed n p.ledger.tx_map first.uv_2_txs first a.same_map a.known in
    (subst (All (IsCurrent n p.ledger.tx_map)) (sym b.first_list) a.current, b.current, b.same_map)
