-- ===== src/Mine/Sound/Rounds.antt =====
-- A whole round of the dry run keeps the ledger sound.
use askcoin_core.Base.{
  u64_mod, ℕ, ◌+◌, ◌≡◌, ◌≤◌, ◌<◌, refl, sym, subst, not, ◌||◌, Bool, true, false, Option, some,
  List, [], ◌∷◌, All, Bool-cases, inl, inr, ◌==◌, arith, ltb, length,
}
use askcoin_core.Base.Text.{Str}
use askcoin_core.Base.Dict.{has_key, insert_entry, str_key}
use askcoin_core.Account.{Account, joined_topic}
use askcoin_core.Topic.{Topic, new_reply, get_reply, topic_sub_balance, push_reply}
use askcoin_core.Ledger.{
  Ledger, find_account, balance_of, get_account, get_topic, edit_account, edit_topic,
}
use askcoin_core.Ledger.Tx.Register.{is_none}
use askcoin_core.Ledger.Tx.Reward.{credit_reply}
use askcoin_core.Pending.{Body, tx_reg, tx_send, tx_topic, tx_reply, tx_reward, tx_other}
use askcoin_core.Mine.{
  Try, done, skip, stop, Gives, bind-Gives, need, want, follow, follow-done, dry_reply_to, dry_join,
  dry_reply, dry_reward_reply, dry_pay, dry_reward, dry_body,
}
use askcoin_core.Mine.Restore.{fee_taken}
use askcoin_core.Mine.Restore.Rounds.{AmountFits}
use askcoin_core.Mine.Sound.{Sound, IsSound}
use askcoin_core.Mine.Sound.Members.{Sound-join}
use askcoin_core.Mine.Sound.Growth.{
  Sound-newcomer, Sound-later, has_key-insert_entry, has_key_still,
}
use askcoin_core.Mine.Sound.Steps.{
  Keeps, Keeps-then, Keeps-refl, add_balance-Keeps, edit_topic-Keeps, fee_taken-Keeps,
  push_reply-IsGentle, topic_sub_balance-IsGentle, credit_reply-IsGentle, send-Keeps, topic-Keeps,
}
use askcoin_core.Base.{ok, require, Ensures, Ensures-of, bind-Ensures, Option-cases, ◌&&◌}
use askcoin_core.Ledger.{account_name_exist}
use askcoin_core.Pending.{Tx}
use askcoin_core.Mine.{take_fee, dry_account, dry_record, finish_dry, dry_reg, dry_paying, dry_tx}
use askcoin_core.Mine.Restore.{Restored, take_fee-ok}

id_below :
    (i c : ℕ) (b : Account) (xs : List Account)
    → All (λ a. a.id ≤ c) xs
    → find_account i xs ≡ some b
    → i ≤ c
unfolding find_account
id_below i c b [] h e = absurd (cc e)
id_below i c b (a ∷ xs) h e = elim (Bool-cases (a.id == i)) [
  | inl hit ↦ ground (arith, hit, h.0)
  | inr miss ↦ id_below i c b xs h.1 (rw miss at e)
]

join-Keeps :
    (d : List (Str × ℕ)) (tx_id : Str) (a : ℕ) (t : Topic) (b : Account) (s : Ledger)
    → has_key tx_id d ≡ true
    → find_account a s.accounts ≡ some b
    → IsSound d s
    → Gives (Keeps d s) (dry_join tx_id a t b s)
unfolding dry_join edit_account edit_topic
join-Keeps d tx_id a t b s known there h =
    elim (Bool-cases (t.owner == a || joined_topic t.key b)) [
      | inl old ↦ rw old (Keeps-refl d s h)
      | inr new ↦ rw new (
          bind-Gives _ (need (ltb (length b.joined_topic_list) 100)) _ (λ _ _. record {
            sound =
                Sound-join tx_id t.key a s.accounts s.cur_account_id s.topics s.topic_list d known
                  (id_below a s.cur_account_id b s.accounts h.ids_below there) h;
            last_id = refl;
            tx_map = refl;
          }))
    ]

reply-Keeps :
    (d : List (Str × ℕ)) (n : ℕ) (tx_id key to text : Str) (a : ℕ) (s : Ledger)
    → has_key tx_id d ≡ true
    → IsSound d s
    → Gives (Keeps d s) (dry_reply n tx_id key to text a s)
unfolding dry_reply
reply-Keeps d n tx_id key to text a s known h = bind-Gives _ (want (get_topic key s)) _ (λ t _.
    bind-Gives _ (need (ltb (length t.reply_list) 1000)) _ (λ _ _.
      bind-Gives _ (dry_reply_to to t) _ (λ o _.
        bind-Gives _ (follow (find_account a s.accounts)) _ (λ b there.
          bind-Gives _ (dry_join tx_id a t b s) _ (λ u joined.
            let kept : Keeps d s u =
              Gives-of (Keeps d s) (dry_join tx_id a t b s) u
                (join-Keeps d tx_id a t b s known (follow-done _ there) h) joined in
            Keeps-then kept (
              edit_topic-Keeps d key (push_reply (record (new_reply tx_id 0 n text a) { to = o })) u
                (push_reply-IsGentle _ (omega arith)) kept.sound))))))
  where
    Gives-of : (P : Ledger → Type 0) (m : Try Ledger) (u : Ledger) → Gives P m → m ≡ done u → P u
    Gives-of P m u g e = subst (Gives P) e g

reward-Keeps :
    (d : List (Str × ℕ)) (n : ℕ) (tx_id key to : Str) (v a : ℕ) (s : Ledger)
    → v < u64_mod
    → IsSound d s
    → Gives (Keeps d s) (dry_reward n tx_id key to v a s)
unfolding dry_reward dry_pay
reward-Keeps d n tx_id key to v a s small h = bind-Gives _ (want (get_topic key s)) _ (λ t _.
    bind-Gives _ (need (t.owner == a)) _ (λ _ _.
      bind-Gives _ (need (ltb (length t.reply_list) 1000)) _ (λ _ _.
        bind-Gives _ (need (not (ltb t.balance v))) _ (λ _ _.
          bind-Gives _ (want (get_reply to t)) _ (λ r _. bind-Gives _ (need (r.kind == 0)) _ (λ _ _.
            bind-Gives _ (need (not (r.owner == a))) _ (λ _ _.
              let debited =
                edit_topic-Keeps d key (topic_sub_balance v) s (topic_sub_balance-IsGentle v) h in
              let noted = Keeps-then debited (
                edit_topic-Keeps d key (credit_reply to v) _ (credit_reply-IsGentle to v)
                  debited.sound) in
              let paid = Keeps-then noted (add_balance-Keeps d r.owner v _ noted.sound) in
              Keeps-then paid (
                edit_topic-Keeps d key (push_reply (dry_reward_reply n tx_id to a v)) _
                  (push_reply-IsGentle _ small) paid.sound))))))))

body-Keeps :
    (d : List (Str × ℕ)) (n : ℕ) (tx_id : Str) (b : Body) (a : ℕ) (s : Ledger)
    → has_key tx_id d ≡ true
    → AmountFits b
    → IsSound d s
    → Gives (Keeps d s) (dry_body n tx_id b a s)
unfolding dry_body
body-Keeps d n tx_id (tx_reg name r v) a s known f h = tt
body-Keeps d n tx_id (tx_send q v) a s known f h = send-Keeps d q v a s h
body-Keeps d n tx_id (tx_topic v x) a s known f h = topic-Keeps d n tx_id v x a s f h
body-Keeps d n tx_id (tx_reply key to x j) a s known f h =
    reply-Keeps d n tx_id key to x a s known h
body-Keeps d n tx_id (tx_reward key to v) a s known f h = reward-Keeps d n tx_id key to v a s f h
body-Keeps d n tx_id (tx_other k) a s known f h = tt

-- The ledger after a transaction of the block: sound, with one more account at most.
abbrev pub Grown : Ledger → Ledger × Bool → Type 0
Grown s (u, true) = IsSound u.tx_map u × (u.cur_account_id ≤ s.cur_account_id + 1)
Grown s (u, false) = Unit

later :
    (n : ℕ) (tx_id : Str) (s : Ledger)
    → IsSound s.tx_map s
    → IsSound (insert_entry tx_id n s.tx_map) s
later n tx_id s h =
    Sound-later s.accounts s.cur_account_id s.topics s.topic_list s.tx_map
      (insert_entry tx_id n s.tx_map) (λ k p. has_key_still tx_id k n s.tx_map p) h

recorded :
    (n : ℕ) (tx_id : Str) (s u : Ledger)
    → Keeps (insert_entry tx_id n s.tx_map) s u
    → Grown s (dry_record n tx_id u, true)
unfolding dry_record
recorded n tx_id s u k = (
  subst (λ m. IsSound (insert_entry tx_id n m) u) (sym k.tx_map) k.sound,
  omega (arith, k.last_id),
)

paying-Grown :
    (n : ℕ) (tx_id pubkey : Str) (b : Body) (s : Ledger)
    → AmountFits b
    → IsSound s.tx_map s
    → Ensures (Grown s) (dry_paying n tx_id pubkey b s)
unfolding dry_paying
paying-Grown n tx_id pubkey b s f h = elim (Option-cases (get_account pubkey s)) [
  | inl missing ↦ rw (dry_paying, missing) tt
  | inr (a, e) ↦
      rw (dry_paying, e)
        (elim (Bool-cases (ltb (balance_of a s.accounts) 2)) [
          | inl poor ↦ rw poor tt
          | inr rich ↦ rw rich (
              bind-Ensures _ (require (find_account a s.accounts)) _ (λ payer _.
                bind-Ensures _ (take_fee a payer.referrer payer.id s) _ (λ u taken. finished _ _ (
                  subst (λ v. Gives (Keeps d s) (dry_body n tx_id b a v))
                    (sym (take_fee-ok a payer.referrer payer.id s u taken))
                    (body a payer.referrer)))))
        ])
]
  where
    d : List (Str × ℕ)
    d = insert_entry tx_id n s.tx_map

    after :
        {u : Ledger} → Keeps d s u → (m : Try Ledger) → Gives (Keeps d u) m → Gives (Keeps d s) m
    after k (done w) g = Keeps-then k g
    after k skip g = tt
    after k stop g = tt

    body : (a : ℕ) (ref : Option ℕ) → Gives (Keeps d s) (dry_body n tx_id b a (fee_taken a ref s))
    body a ref =
        let fee = fee_taken-Keeps d a ref s (later n tx_id s h) in
        after fee _ (body-Keeps d n tx_id b a _ (has_key-insert_entry tx_id n s.tx_map) f fee.sound)

    finished :
        (back : Ledger) (m : Try Ledger)
        → Gives (Keeps d s) m
        → Ensures (Grown s) (finish_dry n tx_id back m)
    finished back (done u) g = unfold finish_dry in recorded n tx_id s u g
    finished back skip g = unfold finish_dry in tt
    finished back stop g = unfold finish_dry in tt

newcomer :
    (n : ℕ) (tx_id pubkey name : Str) (avatar r : ℕ) (s u : Ledger)
    → s.cur_account_id + 1 < u64_mod
    → Keeps (insert_entry tx_id n s.tx_map) s u
    → Grown s (dry_record n tx_id (dry_account n name pubkey avatar r u), true)
unfolding dry_record dry_account
newcomer n tx_id pubkey name avatar r s u room k = (
  Sound-newcomer _ u.accounts u.cur_account_id u.topics u.topic_list (insert_entry tx_id n u.tx_map)
      (omega arith) (omega (arith, k.last_id))
      (subst (λ m. IsSound (insert_entry tx_id n m) u) (sym k.tx_map) k.sound),
  omega (arith, k.last_id),
)

reg-Grown :
    (n : ℕ) (tx_id pubkey name referrer_pubkey : Str) (avatar : ℕ) (s : Ledger)
    → IsSound s.tx_map s
    → s.cur_account_id + 1 < u64_mod
    → Ensures (Grown s) (dry_reg n tx_id pubkey name referrer_pubkey avatar s)
unfolding dry_reg
reg-Grown n tx_id pubkey name referrer_pubkey avatar s h room =
    elim (Bool-cases (is_none (get_account pubkey s) && not (account_name_exist name s))) [
      | inl free ↦ elim (Option-cases (get_account referrer_pubkey s)) [
        | inl missing ↦ rw (dry_reg, free, missing) tt
        | inr (r, e) ↦ elim (Bool-cases (ltb (balance_of r s.accounts) 2)) [
          | inl poor ↦ rw (dry_reg, free, e, poor) tt
          | inr rich ↦
              rw (dry_reg, free, e, rich)
                (bind-Ensures _ (require (find_account r s.accounts)) _ (λ payer _.
                  bind-Ensures _ (take_fee r payer.referrer payer.id s) _ (λ u taken.
                    subst
                      (λ v.
                        Grown s (dry_record n tx_id (dry_account n name pubkey avatar r v), true))
                      (sym (take_fee-ok r payer.referrer payer.id s u taken))
                      (joins r payer.referrer))))
        ]
      ]
      | inr used ↦ rw (dry_reg, used) tt
    ]
  where
    d : List (Str × ℕ)
    d = insert_entry tx_id n s.tx_map

    joins :
        (r : ℕ) (ref : Option ℕ)
        → Grown s
            (dry_record n tx_id (dry_account n name pubkey avatar r (fee_taken r ref s)), true)
    joins r ref =
        newcomer n tx_id pubkey name avatar r s (fee_taken r ref s) room
          (fee_taken-Keeps d r ref s (later n tx_id s h))

round-Grown :
    (n : ℕ) (tx_id pubkey : Str) (block_id broadcast_num : ℕ) (b : Body) (s : Ledger)
    → AmountFits b
    → IsSound s.tx_map s
    → s.cur_account_id + 1 < u64_mod
    → has_key tx_id s.tx_map ≡ false
    → let t : Tx = record {
      id = tx_id;
      block_id = block_id;
      pubkey = pubkey;
      body = b;
      broadcast_num = broadcast_num;
    } in
      Ensures (Grown s) (dry_tx n t s)
unfolding dry_tx
round-Grown n tx_id pubkey i k (tx_reg name r v) s f h room new =
    rw (dry_tx, new) (reg-Grown n tx_id pubkey name r v s h room)
round-Grown n tx_id pubkey i k (tx_send q v) s f h room new =
    rw (dry_tx, new) (paying-Grown n tx_id pubkey (tx_send q v) s f h)
round-Grown n tx_id pubkey i k (tx_topic v x) s f h room new =
    rw (dry_tx, new) (paying-Grown n tx_id pubkey (tx_topic v x) s f h)
round-Grown n tx_id pubkey i k (tx_reply q to x j) s f h room new =
    rw (dry_tx, new) (paying-Grown n tx_id pubkey (tx_reply q to x j) s f h)
round-Grown n tx_id pubkey i k (tx_reward q to v) s f h room new =
    rw (dry_tx, new) (paying-Grown n tx_id pubkey (tx_reward q to v) s f h)
round-Grown n tx_id pubkey i k (tx_other j) s f h room new =
    rw (dry_tx, new) (paying-Grown n tx_id pubkey (tx_other j) s f h)

-- A transaction of the block keeps the ledger sound.
pub dry_tx-Grown :
    (n : ℕ) (t : Tx) (s u : Ledger)
    → AmountFits t.body
    → IsSound s.tx_map s
    → s.cur_account_id + 1 < u64_mod
    → dry_tx n t s ≡ ok (u, true)
    → Grown s (u, true)
unfolding dry_tx
dry_tx-Grown n t s u f h room e = elim (Bool-cases (has_key t.id s.tx_map)) [
  | inl old ↦ absurd (cc (rw (dry_tx, old) at e))
  | inr new ↦
      Ensures-of (Grown s) (dry_tx n t s) (u, true)
        (round-Grown n t.id t.pubkey t.block_id t.broadcast_num t.body s f h room new) e
]

-- Sound, whatever the order by wealth.
pub Restored-IsSound : (s w : Ledger) → Restored s w → IsSound s.tx_map s → IsSound w.tx_map w
Restored-IsSound s w r h =
    subst (λ xs. Sound xs w.cur_account_id w.topics w.topic_list w.tx_map) (sym r.accounts)
      (subst (λ c. Sound s.accounts c w.topics w.topic_list w.tx_map) (sym r.cur_account_id)
        (subst (λ ks. Sound s.accounts s.cur_account_id ks w.topic_list w.tx_map) (sym r.topics)
          (subst (λ ts. Sound s.accounts s.cur_account_id s.topics ts w.tx_map) (sym r.topic_list)
            (subst (Sound s.accounts s.cur_account_id s.topics s.topic_list) (sym r.tx_map) h))))
