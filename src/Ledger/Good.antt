-- ===== src/Ledger/Good.antt =====
-- What a step of a transaction keeps: the pointers lead to objects, and the coins are conserved but
-- for those that are left for the miner.
use askcoin_core.Base.{
  u64_mod, ℕ, ◌+◌, ◌≤◌, ◌<◌, ◌≡◌, refl, Bool, true, some, List, [], ◌∷◌, arith, All-append, Run, ok,
  exit, Ensures, bind-Ensures, Ensures-map, ◌>>=◌, ◌>>◌, guard, guard-Ensures,
}
use askcoin_core.Base.Text.{Str}
use askcoin_core.Account.{Account}
use askcoin_core.Topic.{Topic, Reply, topic_sub_balance, push_reply}
use askcoin_core.Ledger.{
  Ledger, balance_of, add_balance, sub_balance, edit_account, edit_topic, update_account,
  find_account, find_topic,
}
use askcoin_core.Ledger.Balance.{
  total, balance_of-add_balance, sum-add_balance, sum-sub_balance, sum-update_account,
  sum-update_topic, sum-update_topic_found, find_topic-le,
}
use askcoin_core.Ledger.Links.{
  IsLinked, IsAccount, Grows, KeepsLinks, OwnersKnown, add_balance-IsLinked, sub_balance-IsLinked,
  edit_account-IsLinked, edit_topic-IsLinked, set_balance-Grows, update_account-Grows,
}

-- From `s` to `s'`, `n` coins have left the accounts and the topics.
pub record Good (s : Ledger) (n : ℕ) (s' : Ledger) : Type 0 where
  pub linked : IsLinked s'
  pub kept : total s' + n ≡ total s
  pub grows : Grows s.accounts s'.accounts

pub Good-refl : (s : Ledger) → IsLinked s → Good s 0 s
Good-refl s l = record { linked = l; kept = omega arith; grows = λ i p. p }

pub Good-trans : {s t u : Ledger} {m n k : ℕ} → m + n ≡ k → Good s m t → Good t n u → Good s k u
Good-trans e g h = record {
  linked = h.linked;
  kept = omega (arith, g.kept, h.kept);
  grows = λ i p. h.grows i (g.grows i p);
}

add_balance-topics : (i v : ℕ) (s : Ledger) → (add_balance i v s).topic_list ≡ s.topic_list
unfolding add_balance
add_balance-topics i v s = refl

sub_balance-topics : (i v : ℕ) (s : Ledger) → (sub_balance i v s).topic_list ≡ s.topic_list
unfolding sub_balance
sub_balance-topics i v s = refl

pub add_balance-Grows : (i v : ℕ) (s : Ledger) → Grows s.accounts (add_balance i v s).accounts
unfolding add_balance
add_balance-Grows i v s = set_balance-Grows i _ s

pub sub_balance-Grows : (i v : ℕ) (s : Ledger) → Grows s.accounts (sub_balance i v s).accounts
unfolding sub_balance
sub_balance-Grows i v s = set_balance-Grows i _ s

-- Coins given: the total grows by `v`.
pub total-add_balance :
    (i v : ℕ) (s : Ledger)
    → IsAccount s.accounts i
    → total s + v < u64_mod
    → total (add_balance i v s) ≡ total s + v
total-add_balance i v s h b = rw (add_balance-topics i v s) (omega (arith, sum-add_balance i v s h))

pub total-sub_balance :
    (i v : ℕ) (s : Ledger)
    → IsAccount s.accounts i
    → total s < u64_mod
    → v ≤ balance_of i s.accounts
    → total (sub_balance i v s) + v ≡ total s
total-sub_balance i v s h b k =
    rw (sub_balance-topics i v s) (omega (arith, sum-sub_balance i v s h))

-- Coins taken from an account are left for somebody else.
pub sub_balance-Good :
    (i v : ℕ) (s : Ledger)
    → IsLinked s
    → IsAccount s.accounts i
    → total s < u64_mod
    → v ≤ balance_of i s.accounts
    → Good s v (sub_balance i v s)
sub_balance-Good i v s l h b k = record {
  linked = sub_balance-IsLinked i v s l;
  kept = total-sub_balance i v s h b k;
  grows = sub_balance-Grows i v s;
}

-- Coins that were left are given to an account.
pub give-Good :
    (i v n k : ℕ) (s t : Ledger)
    → k + v ≡ n
    → IsAccount t.accounts i
    → total s < u64_mod
    → Good s n t
    → Good s k (add_balance i v t)
give-Good i v n k s t e h b g = record {
  linked = add_balance-IsLinked i v t g.linked;
  kept = omega (arith, total-add_balance i v t h (omega (arith, g.kept)), g.kept);
  grows = λ j p. add_balance-Grows i v t j (g.grows j p);
}

-- A write to an account that leaves its balance, its id and its referrer alone.
pub edit_account-Good :
    (i : ℕ) (f : Account → Account) (s : Ledger)
    → KeepsLinks f
    → ((a : Account) → (f a).balance ≡ a.balance)
    → IsLinked s
    → Good s 0 (edit_account i f s)
unfolding edit_account
edit_account-Good i f s k b l = record {
  linked = unfold edit_account in edit_account-IsLinked i f s k l;
  kept = omega (arith, sum-update_account i f s.accounts b);
  grows = update_account-Grows i f s.accounts k;
}

-- A write to a topic that leaves its balance alone.
pub edit_topic-Good :
    (key : Str) (f : Topic → Topic) (s : Ledger)
    → ((t : Topic) → OwnersKnown s.accounts t → OwnersKnown s.accounts (f t))
    → ((t : Topic) → (f t).balance ≡ t.balance)
    → IsLinked s
    → Good s 0 (edit_topic key f s)
unfolding edit_topic
edit_topic-Good key f s k b l = record {
  linked = edit_topic-IsLinked key f s k l;
  kept = omega (arith, sum-update_topic key f s.topic_list b);
  grows = λ i p. p;
}

-- To prove the goodness of a chain of two parts.
pub bind-Good :
    (s : Ledger) (m n k : ℕ) (r : Run Ledger) (f : Ledger → Run Ledger)
    → m + n ≡ k
    → Ensures (Good s m) r
    → ((t : Ledger) → Good s m t → Ensures (Good t n) (f t))
    → Ensures (Good s k) (r >>= f)
bind-Good s m n k exit f e h next = tt
bind-Good s m n k (ok t) f e h next =
    Ensures-map (Good t n) (Good s k) (f t) (λ u g. Good-trans e h g) (next t h)

-- To prove it of a chain whose first part is read, or tested.
pub read-Good {ℓ} :
    {A : Type ℓ} (s : Ledger) (n : ℕ) (r : Run A) (f : A → Run Ledger)
    → ((a : A) → r ≡ ok a → Ensures (Good s n) (f a))
    → Ensures (Good s n) (r >>= f)
read-Good s n r f h = bind-Ensures (Good s n) r f h

pub guard-Good :
    (s : Ledger) (n : ℕ) (b : Bool) (k : Run Ledger)
    → (b ≡ true → Ensures (Good s n) k)
    → Ensures (Good s n) (guard b >> k)
guard-Good s n b k h = guard-Ensures (Good s n) b k h

-- Coins were given: from `s` to `t` the total grew by `v`, and no balance fell.
pub record Given (s : Ledger) (v : ℕ) (t : Ledger) : Type 0 where
  pub linked : IsLinked t
  pub more : total t ≡ total s + v
  pub grows : Grows s.accounts t.accounts
  pub richer : (j : ℕ) → balance_of j s.accounts ≤ balance_of j t.accounts

add_balance-richer :
    (i j v : ℕ) (s : Ledger)
    → IsAccount s.accounts i
    → total s + v < u64_mod
    → balance_of j s.accounts ≤ balance_of j (add_balance i v s).accounts
add_balance-richer i j v s h b = rw (balance_of-add_balance i j v s h (omega arith)) (ground arith)

pub add_balance-Given :
    (i v : ℕ) (s : Ledger)
    → IsLinked s
    → IsAccount s.accounts i
    → total s + v < u64_mod
    → Given s v (add_balance i v s)
add_balance-Given i v s l h b = record {
  linked = add_balance-IsLinked i v s l;
  more = total-add_balance i v s h b;
  grows = add_balance-Grows i v s;
  richer = λ j. add_balance-richer i j v s h b;
}

balance_of-edit_account :
    (i j : ℕ) (f : Account → Account) (xs : List Account)
    → KeepsLinks f
    → ((a : Account) → (f a).balance ≡ a.balance)
    → balance_of j (update_account i f xs) ≡ balance_of j xs
unfolding update_account balance_of find_account
balance_of-edit_account i j f [] k b = refl
balance_of-edit_account i j f (a ∷ xs) k b =
    ground (arith, balance_of-edit_account i j f xs k b, b a, (k a).0)

pub edit_account-balance_of :
    (i j : ℕ) (f : Account → Account) (s : Ledger)
    → KeepsLinks f
    → ((a : Account) → (f a).balance ≡ a.balance)
    → balance_of j (edit_account i f s).accounts ≡ balance_of j s.accounts
unfolding edit_account
edit_account-balance_of i j f s k b = balance_of-edit_account i j f s.accounts k b

-- An edit keeps what was given.
pub edit_account-Given :
    (i v : ℕ) (f : Account → Account) (s t : Ledger)
    → KeepsLinks f
    → ((a : Account) → (f a).balance ≡ a.balance)
    → Given s v t
    → Given s v (edit_account i f t)
edit_account-Given i v f s t k b g =
    let e : Good t 0 (edit_account i f t) = edit_account-Good i f t k b g.linked in
    record {
      linked = e.linked;
      more = omega (arith, e.kept, g.more);
      grows = λ j p. e.grows j (g.grows j p);
      richer = λ j. rw (edit_account-balance_of i j f t k b) (g.richer j);
    }

-- What was given is taken from an account that had it before.
pub take-Good :
    (i v w n : ℕ) (s t : Ledger)
    → w + n ≡ v
    → IsAccount t.accounts i
    → total s + w < u64_mod
    → v ≤ balance_of i s.accounts
    → Given s w t
    → Good s n (sub_balance i v t)
take-Good i v w n s t e h b k g =
    let r : Good t v (sub_balance i v t) =
      sub_balance-Good i v t g.linked h (omega (arith, g.more)) (omega (arith, g.richer i)) in
    record {
      linked = r.linked;
      kept = omega (arith, r.kept, g.more);
      grows = λ j p. r.grows j (g.grows j p);
    }

-- A topic pays out coins that it has.
pub topic_sub_balance-Good :
    (key : Str) (v : ℕ) (t : Topic) (s : Ledger)
    → IsLinked s
    → find_topic key s.topic_list ≡ some t
    → total s < u64_mod
    → v ≤ t.balance
    → Good s v (edit_topic key (topic_sub_balance v) s)
unfolding edit_topic
topic_sub_balance-Good key v t s l found small enough = record {
  linked = edit_topic-IsLinked key (topic_sub_balance v) s (λ u h. h) l;
  kept = omega (
    arith,
    sum-update_topic_found key (topic_sub_balance v) t s.topic_list found,
    find_topic-le key t s.topic_list found,
  );
  grows = λ i p. p;
}

-- A new reply is by an account that is there.
pub push_reply-Good :
    (key : Str) (r : Reply) (s : Ledger)
    → IsAccount s.accounts r.owner
    → IsLinked s
    → Good s 0 (edit_topic key (push_reply r) s)
push_reply-Good key r s k l =
    edit_topic-Good key (push_reply r) s
      (λ t h. All-append (λ r. IsAccount s.accounts r.owner) t.reply_list (r ∷ []) h (k, tt))
      (λ t. refl) l
