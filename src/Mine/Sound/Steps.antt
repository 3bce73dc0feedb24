-- ===== src/Mine/Sound/Steps.antt =====
-- The branches of the dry run keep the ledger sound.
use askcoin_core.Base.{
  u64_mod, ℕ, ◌≡◌, ◌<◌, refl, sym, subst, ◌∙◌, not, Option, List, [], ◌∷◌, All, All-append,
  Bool-cases, inl, inr, arith, ltb, length,
}
use askcoin_core.Base.Text.{Str, str_eq}
use askcoin_core.Base.Dict.{str_key}
use askcoin_core.Account.{Account, joined_topic}
use askcoin_core.Topic.{
  Topic, Reply, is_member, new_topic, update_reply, reply_add_balance, topic_sub_balance,
  push_reply,
}
use askcoin_core.Ledger.{
  Ledger, find_account, balance_of, get_account, get_topic, set_balance, add_balance, sub_balance,
  edit_account, edit_topic,
}
use askcoin_core.Ledger.Tx.Register.{is_none}
use askcoin_core.Ledger.Tx.Post.{push_topic, add_topic}
use askcoin_core.Ledger.Tx.Reward.{credit_reply}
use askcoin_core.Mine.{Gives, bind-Gives, need, want, follow, dry_send, dry_topic}
use askcoin_core.Mine.Writes.{shift, unshift, accounts-add_balance, accounts-sub_balance}
use askcoin_core.Mine.Restore.{coin_of, fee_taken}
use askcoin_core.Mine.Sound.{Sound, IsSound, IsMild, Sound-account, IsGentle, Sound-topic}
use askcoin_core.Mine.Sound.Growth.{Sound-open}

-- A step keeps the ledger sound, the last id and the transactions of the chain.
pub record Keeps (d : List (Str × ℕ)) (s u : Ledger) : Type 0 where
  pub sound : IsSound d u
  pub last_id : u.cur_account_id ≡ s.cur_account_id
  pub tx_map : u.tx_map ≡ s.tx_map

pub Keeps-then : {d : List (Str × ℕ)} {s u w : Ledger} → Keeps d s u → Keeps d u w → Keeps d s w
Keeps-then p q = record {
  sound = q.sound;
  last_id = q.last_id ∙ p.last_id;
  tx_map = q.tx_map ∙ p.tx_map;
}

pub Keeps-refl : (d : List (Str × ℕ)) (s : Ledger) → IsSound d s → Keeps d s s
Keeps-refl d s h = record { sound = h; last_id = refl; tx_map = refl }

shift-IsMild : (v : ℕ) → IsMild (shift v)
unfolding joined_topic
shift-IsMild v = record { same_id = λ a. refl; fits = λ a p. omega arith; stays = λ a k h. h }

unshift-IsMild : (v : ℕ) → IsMild (unshift v)
unfolding joined_topic
unshift-IsMild v = record { same_id = λ a. refl; fits = λ a p. omega arith; stays = λ a k h. h }

push_topic-IsMild : (key : Str) → IsMild (push_topic key)
unfolding joined_topic
push_topic-IsMild key = record { same_id = λ a. refl; fits = λ a p. p; stays = λ a k h. h }

pub add_balance-Keeps :
    (d : List (Str × ℕ)) (i v : ℕ) (s : Ledger) → IsSound d s → Keeps d s (add_balance i v s)
unfolding add_balance set_balance
add_balance-Keeps d i v s h = record {
  sound =
      subst (λ xs. Sound xs s.cur_account_id s.topics s.topic_list d)
        (sym (accounts-add_balance i v s))
        (Sound-account i (shift v) s.accounts s.cur_account_id s.topics s.topic_list d
          (shift-IsMild v) h);
  last_id = refl;
  tx_map = refl;
}

sub_balance-Keeps :
    (d : List (Str × ℕ)) (i v : ℕ) (s : Ledger) → IsSound d s → Keeps d s (sub_balance i v s)
unfolding sub_balance set_balance
sub_balance-Keeps d i v s h = record {
  sound =
      subst (λ xs. Sound xs s.cur_account_id s.topics s.topic_list d)
        (sym (accounts-sub_balance i v s))
        (Sound-account i (unshift v) s.accounts s.cur_account_id s.topics s.topic_list d
          (unshift-IsMild v) h);
  last_id = refl;
  tx_map = refl;
}

edit_account-Keeps :
    (d : List (Str × ℕ)) (i : ℕ) (f : Account → Account) (s : Ledger)
    → IsMild f
    → IsSound d s
    → Keeps d s (edit_account i f s)
unfolding edit_account
edit_account-Keeps d i f s m h = record {
  sound = Sound-account i f s.accounts s.cur_account_id s.topics s.topic_list d m h;
  last_id = refl;
  tx_map = refl;
}

pub edit_topic-Keeps :
    (d : List (Str × ℕ)) (key : Str) (f : Topic → Topic) (s : Ledger)
    → IsGentle f
    → IsSound d s
    → Keeps d s (edit_topic key f s)
unfolding edit_topic
edit_topic-Keeps d key f s g h = record {
  sound = Sound-topic key f s.accounts s.cur_account_id s.topics s.topic_list d g h;
  last_id = refl;
  tx_map = refl;
}

pub fee_taken-Keeps :
    (d : List (Str × ℕ)) (a : ℕ) (ref : Option ℕ) (s : Ledger)
    → IsSound d s
    → Keeps d s (fee_taken a ref s)
fee_taken-Keeps d a ref s h =
    let given : Keeps d s (add_balance (coin_of ref) 1 s) =
      add_balance-Keeps d (coin_of ref) 1 s h in
    Keeps-then given (sub_balance-Keeps d a 2 _ given.sound)

pub push_reply-IsGentle : (r : Reply) → r.balance < u64_mod → IsGentle (push_reply r)
push_reply-IsGentle r h = record {
  same_key = λ t. refl;
  same_members = λ t. refl;
  fits = λ t p. (p.0, All-append (λ q. q.balance < u64_mod) t.reply_list (r ∷ []) p.1 (h, tt));
}

pub topic_sub_balance-IsGentle : (v : ℕ) → IsGentle (topic_sub_balance v)
topic_sub_balance-IsGentle v = record {
  same_key = λ t. refl;
  same_members = λ t. refl;
  fits = λ t p. (omega arith, p.1);
}

credited :
    (key : Str) (v : ℕ) (rs : List Reply)
    → All (λ r. r.balance < u64_mod) rs
    → All (λ r. r.balance < u64_mod) (update_reply key (reply_add_balance v) rs)
unfolding update_reply
credited key v [] h = tt
credited key v (r ∷ rs) h = elim (Bool-cases (str_eq r.key key)) [
  | inl e ↦ rw e (omega arith, h.1)
  | inr e ↦ rw e (h.0, credited key v rs h.1)
]

pub credit_reply-IsGentle : (key : Str) (v : ℕ) → IsGentle (credit_reply key v)
credit_reply-IsGentle key v = record {
  same_key = λ t. refl;
  same_members = λ t. refl;
  fits = λ t p. (p.0, credited key v t.reply_list p.1);
}

pub send-Keeps :
    (d : List (Str × ℕ)) (receiver : Str) (v a : ℕ) (s : Ledger)
    → IsSound d s
    → Gives (Keeps d s) (dry_send receiver v a s)
unfolding dry_send
send-Keeps d receiver v a s h =
    bind-Gives _ (need (not (ltb (balance_of a s.accounts) v))) _ (λ _ _.
      bind-Gives _ (want (get_account receiver s)) _ (λ r _.
        let paid = sub_balance-Keeps d a v s h in
        Keeps-then paid (add_balance-Keeps d r v _ paid.sound)))

pub topic-Keeps :
    (d : List (Str × ℕ)) (n : ℕ) (tx_id : Str) (v : ℕ) (text : Str) (a : ℕ) (s : Ledger)
    → v < u64_mod
    → IsSound d s
    → Gives (Keeps d s) (dry_topic n tx_id v text a s)
unfolding dry_topic add_topic is_member
topic-Keeps d n tx_id v text a s small h =
    bind-Gives _ (need (not (ltb (balance_of a s.accounts) v))) _ (λ _ _.
      bind-Gives _ (need (is_none (get_topic tx_id s))) _ (λ _ _.
        bind-Gives _ (follow (find_account a s.accounts)) _ (λ b _.
          bind-Gives _ (need (ltb (length b.topic_list) 100)) _ (λ _ _.
            let paid = sub_balance-Keeps d a v s h in
            let listed =
              Keeps-then paid (
                edit_account-Keeps d a (push_topic tx_id) _ (push_topic-IsMild tx_id) paid.sound) in
            record {
              sound =
                  Sound-open (new_topic tx_id text n v a) _ _ _ _ d (small, tt) tt
                    (λ i c e m. absurd (cc m)) listed.sound;
              last_id = listed.last_id;
              tx_map = listed.tx_map;
            }))))
