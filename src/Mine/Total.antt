-- ===== src/Mine/Total.antt =====
-- The dry run never ends the program.
use askcoin_core.Base.{
  ℕ, ◌≡◌, ◌≤◌, refl, sym, subst, not, ◌&&◌, Bool, true, false, Option, none, some, List, [], ◌∷◌,
  Run, ok, ltb, length, ◌==◌, ◌||◌, arith, All, Bool-cases, Option-cases, inl, inr, ltb→lt,
}
use askcoin_core.Base.Text.{Str}
use askcoin_core.Base.Dict.{All-lookup, has_key, str_key}
use askcoin_core.Account.{Account, joined_topic}
use askcoin_core.Topic.{Topic, get_reply}
use askcoin_core.Ledger.{
  Ledger, find_account, balance_of, get_account, get_topic, account_name_exist,
}
use askcoin_core.Ledger.Balance.{has_account}
use askcoin_core.Ledger.Links.{IsLinked, IsAccount}
use askcoin_core.Ledger.Tx.Register.{is_none}
use askcoin_core.Pending.{Body, tx_reg, tx_send, tx_topic, tx_reply, tx_reward, tx_other, Tx}
use askcoin_core.Mine.{
  Try, ◌>>>◌, done, skip, stop, need, want, follow, take_fee, dry_send, dry_topic, dry_reply_to,
  dry_join, dry_reply, dry_reward, dry_body, finish_dry, dry_reg, dry_paying, dry_tx,
}
use askcoin_core.Mine.Writes.{give, take}
use askcoin_core.Mine.Restore.{
  coin_of, fee_taken, fee_accounts, Found, Found-do_writes, fee-AreUndone,
}

-- Only the fund and the author, with the ids 0 and 1, have no referrer.
abbrev pub IsRooted : Account → Type 0
IsRooted a = a.referrer ≡ none → a.id ≤ 1

-- A transaction of one of the five types.
abbrev pub IsKnown : Body → Type 0
IsKnown (tx_other n) = ⊥
IsKnown _ = Unit

-- A transaction that pays the fee itself.
abbrev IsPaying : Body → Type 0
IsPaying (tx_reg name r v) = ⊥
IsPaying (tx_other n) = ⊥
IsPaying _ = Unit

-- The step does not end the program.
abbrev Runs {ℓ} : {A : Type ℓ} → Try A → Type 0
Runs stop = ⊥
Runs _ = Unit

abbrev GoesOn {ℓ} : {A : Type ℓ} → Run A → Type ℓ
GoesOn {A = A} r = (a : A) × (r ≡ ok a)

bind-Runs {ℓ κ} :
    {A : Type ℓ} {B : Type κ} (m : Try A) (f : A → Try B)
    → Runs m
    → ((a : A) → Runs (f a))
    → Runs (m >>> f)
bind-Runs (done a) f h k = k a
bind-Runs skip f h k = tt
bind-Runs stop f h k = h

need-Runs : (b : Bool) → Runs (need b)
need-Runs true = tt
need-Runs false = tt

want-Runs {ℓ} : {A : Type ℓ} (o : Option A) → Runs (want o)
want-Runs none = tt
want-Runs (some a) = tt

there {ℓ} : {A : Type ℓ} (o : Option A) (a : A) → o ≡ some a → Runs (follow o)
there o a e = rw e tt

dry_reply_to-Runs : (to : Str) (t : Topic) → Runs (dry_reply_to to t)
unfolding dry_reply_to
dry_reply_to-Runs [] t = tt
dry_reply_to-Runs (c ∷ cs) t =
    bind-Runs (want (get_reply (c ∷ cs) t)) _ (want-Runs _)
      (λ r. bind-Runs (need (r.kind == 0)) _ (need-Runs _) (λ _. tt))

dry_join-Runs :
    (tx_id : Str) (i : ℕ) (t : Topic) (a : Account) (s : Ledger) → Runs (dry_join tx_id i t a s)
unfolding dry_join
dry_join-Runs tx_id i t a s = elim (Bool-cases (t.owner == i || joined_topic t.key a)) [
  | inl h ↦ rw h tt
  | inr h ↦ rw h (bind-Runs (need (ltb (length a.joined_topic_list) 100)) _ (need-Runs _) (λ _. tt))
]

-- The branches of a payer whose account is there.
dry_body-Runs :
    (n : ℕ) (tx_id : Str) (body : Body) (i : ℕ) (a : Account) (s : Ledger)
    → IsPaying body
    → find_account i s.accounts ≡ some a
    → Runs (dry_body n tx_id body i s)
unfolding dry_body dry_send dry_topic dry_reply dry_reward
dry_body-Runs n tx_id (tx_reg name r v) i a s k e = absurd k
dry_body-Runs n tx_id (tx_send q v) i a s k e =
    bind-Runs (need (not (ltb (balance_of i s.accounts) v))) _ (need-Runs _)
      (λ _. bind-Runs (want (get_account q s)) _ (want-Runs _) (λ r. tt))
dry_body-Runs n tx_id (tx_topic v text) i a s k e =
    bind-Runs (need (not (ltb (balance_of i s.accounts) v))) _ (need-Runs _) (λ _.
      bind-Runs (need (is_none (get_topic tx_id s))) _ (need-Runs _) (λ _.
        bind-Runs (follow (find_account i s.accounts)) _ (there _ a e)
          (λ b. bind-Runs (need (ltb (length b.topic_list) 100)) _ (need-Runs _) (λ _. tt))))
dry_body-Runs n tx_id (tx_reply key to text j) i a s k e =
    bind-Runs (want (get_topic key s)) _ (want-Runs _) (λ t.
      bind-Runs (need (ltb (length t.reply_list) 1000)) _ (need-Runs _) (λ _.
        bind-Runs (dry_reply_to to t) _ (dry_reply_to-Runs to t) (λ r.
          bind-Runs (follow (find_account i s.accounts)) _ (there _ a e)
            (λ b. bind-Runs (dry_join tx_id i t b s) _ (dry_join-Runs tx_id i t b s) (λ u. tt)))))
dry_body-Runs n tx_id (tx_reward key to v) i a s k e =
    bind-Runs (want (get_topic key s)) _ (want-Runs _) (λ t.
      bind-Runs (need (t.owner == i)) _ (need-Runs _) (λ _.
        bind-Runs (need (ltb (length t.reply_list) 1000)) _ (need-Runs _) (λ _.
          bind-Runs (need (not (ltb t.balance v))) _ (need-Runs _) (λ _.
            bind-Runs (want (get_reply to t)) _ (want-Runs _) (λ r.
              bind-Runs (need (r.kind == 0)) _ (need-Runs _)
                (λ _. bind-Runs (need (not (r.owner == i))) _ (need-Runs _) (λ _. tt)))))))
dry_body-Runs n tx_id (tx_other j) i a s k e = absurd k

finish-GoesOn :
    (n : ℕ) (tx_id : Str) (back : Ledger) (m : Try Ledger)
    → Runs m
    → GoesOn (finish_dry n tx_id back m)
unfolding finish_dry
finish-GoesOn n tx_id back (done u) h = (_, refl)
finish-GoesOn n tx_id back skip h = (_, refl)
finish-GoesOn n tx_id back stop h = absurd h

-- An account that is there is found, and has the property of all.
found :
    (P : Account → Type 0) (i : ℕ) (xs : List Account)
    → All P xs
    → has_account i xs ≡ true
    → (a : Account) × (find_account i xs ≡ some a) × P a
unfolding find_account
found P i [] h e = cc
found P i (a ∷ xs) h e = elim (Bool-cases (a.id == i)) [
  | inl hit ↦ rw hit (a, refl, h.0)
  | inr miss ↦ rw miss (found P i xs h.1 (rw miss at e))
]

take_fee-GoesOn :
    (i : ℕ) (ref : Option ℕ) (id : ℕ) (s : Ledger)
    → (ref ≡ none → id ≤ 1)
    → take_fee i ref id s ≡ ok (fee_taken i ref s)
unfolding take_fee
take_fee-GoesOn i none id s h = elim (Bool-cases (ltb 1 id)) [
  | inl far ↦ absurd (omega (arith, h refl, ltb→lt 1 id far))
  | inr near ↦ rw near refl
]
take_fee-GoesOn i (some r) id s h = refl

payer-there :
    (i : ℕ) (ref : Option ℕ) (s : Ledger)
    → Found i ref s.accounts
    → Found i ref (fee_taken i ref s).accounts
payer-there i ref s f = subst (Found i ref) (sym (fee_accounts i ref s)) (
    Found-do_writes i ref (give (coin_of ref) 1 ∷ take i 2 ∷ []) s.accounts
      (fee-AreUndone (coin_of ref) i) f)

-- A payer who is there pays.
fee_paid :
    (i : ℕ) (s : Ledger)
    → All IsRooted s.accounts
    → IsAccount s.accounts i
    → (a : Account) × (find_account i s.accounts ≡ some a)
      × (take_fee i a.referrer a.id s ≡ ok (fee_taken i a.referrer s))
fee_paid i s rooted k =
    let (a, e, r) = found IsRooted i s.accounts rooted k in
    (a, e, take_fee-GoesOn i a.referrer a.id s r)

dry_paying-GoesOn :
    (n : ℕ) (tx_id pubkey : Str) (body : Body) (s : Ledger)
    → IsLinked s
    → All IsRooted s.accounts
    → IsPaying body
    → GoesOn (dry_paying n tx_id pubkey body s)
unfolding dry_paying get_account
dry_paying-GoesOn n tx_id pubkey body s l rooted k = elim (Option-cases (get_account pubkey s)) [
  | inl missing ↦ rw (dry_paying, missing) (_, refl)
  | inr (i, known) ↦ elim (Bool-cases (ltb (balance_of i s.accounts) 2)) [
    | inl poor ↦ rw (dry_paying, known, poor) (_, refl)
    | inr rich ↦
        let (a, e, paid) =
          fee_paid i s rooted
            (All-lookup (IsAccount s.accounts) pubkey i s.by_pubkey l.pubkeys_known known) in
        let (b, there_still, same) : Found i a.referrer (fee_taken i a.referrer s).accounts =
          payer-there i a.referrer s (a, e, refl) in
        rw (dry_paying, known, rich, e, paid)
          (finish-GoesOn n tx_id _ _
            (dry_body-Runs n tx_id body i b (fee_taken i a.referrer s) k there_still))
  ]
]

dry_reg-GoesOn :
    (n : ℕ) (tx_id pubkey name referrer_pubkey : Str) (avatar : ℕ) (s : Ledger)
    → IsLinked s
    → All IsRooted s.accounts
    → GoesOn (dry_reg n tx_id pubkey name referrer_pubkey avatar s)
unfolding dry_reg get_account
dry_reg-GoesOn n tx_id pubkey name referrer_pubkey avatar s l rooted =
    elim (Bool-cases (is_none (get_account pubkey s) && not (account_name_exist name s))) [
      | inr used ↦ rw (dry_reg, used) (_, refl)
      | inl free ↦ elim (Option-cases (get_account referrer_pubkey s)) [
        | inl missing ↦ rw (dry_reg, free, missing) (_, refl)
        | inr (i, known) ↦ elim (Bool-cases (ltb (balance_of i s.accounts) 2)) [
          | inl poor ↦ rw (dry_reg, free, known, poor) (_, refl)
          | inr rich ↦
              let (a, e, paid) = fee_paid i s rooted (
                All-lookup (IsAccount s.accounts) referrer_pubkey i s.by_pubkey l.pubkeys_known
                  known) in
              rw (dry_reg, free, known, rich, e, paid) (_, refl)
        ]
      ]
    ]

round-GoesOn :
    (n : ℕ) (tx_id pubkey : Str) (block_id broadcast_num : ℕ) (b : Body) (s : Ledger)
    → IsLinked s
    → All IsRooted s.accounts
    → IsKnown b
    → has_key tx_id s.tx_map ≡ false
    → let t : Tx = record {
      id = tx_id;
      block_id = block_id;
      pubkey = pubkey;
      body = b;
      broadcast_num = broadcast_num;
    } in
      GoesOn (dry_tx n t s)
unfolding dry_tx
round-GoesOn n tx_id pubkey i k (tx_reg name r v) s l rooted h new =
    rw (dry_tx, new) (dry_reg-GoesOn n tx_id pubkey name r v s l rooted)
round-GoesOn n tx_id pubkey i k (tx_send q v) s l rooted h new =
    rw (dry_tx, new) (dry_paying-GoesOn n tx_id pubkey (tx_send q v) s l rooted tt)
round-GoesOn n tx_id pubkey i k (tx_topic v x) s l rooted h new =
    rw (dry_tx, new) (dry_paying-GoesOn n tx_id pubkey (tx_topic v x) s l rooted tt)
round-GoesOn n tx_id pubkey i k (tx_reply q to x j) s l rooted h new =
    rw (dry_tx, new) (dry_paying-GoesOn n tx_id pubkey (tx_reply q to x j) s l rooted tt)
round-GoesOn n tx_id pubkey i k (tx_reward q to v) s l rooted h new =
    rw (dry_tx, new) (dry_paying-GoesOn n tx_id pubkey (tx_reward q to v) s l rooted tt)
round-GoesOn n tx_id pubkey i k (tx_other j) s l rooted h new = absurd h

-- With good pointers, and with no account but the first two without a referrer, a round of the dry run of
-- `mine_tx` on a transaction of a known type never ends the program: whatever the transaction asks for, it
-- goes into the block or back to the queue.
pub dry_tx-goes_on :
    (n : ℕ) (t : Tx) (s : Ledger)
    → IsLinked s
    → All IsRooted s.accounts
    → IsKnown t.body
    → (r : Ledger × Bool) × (dry_tx n t s ≡ ok r)
unfolding dry_tx
dry_tx-goes_on n t s l rooted k = elim (Bool-cases (has_key t.id s.tx_map)) [
  | inl old ↦ rw (dry_tx, old) (_, refl)
  | inr new ↦ round-GoesOn n t.id t.pubkey t.block_id t.broadcast_num t.body s l rooted k new
]
