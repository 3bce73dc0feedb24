-- ===== src/Ledger/Expiry/Freed.antt =====
-- Where the coins of the topics go that `proc_topic_expired` takes off the list.
use askcoin_core.Base.{
  ℕ, ◌+◌, List, [], ◌∷◌, ◌++◌, require, ltb, ok, ◌≡◌, refl, ap, ◌≤◌, ◌<◌, arith, Ensures,
  bind-Ensures, Ensures-map, Ensures-of, guard-Ensures, All, Bool-cases, inl, inr, ltb→lt,
  ltb-false→le, ◌==◌, if◌then◌else◌, u64_mod, ◌∙◌, sym,
}
use askcoin_core.Base.Text.{Str}
use askcoin_core.Base.Dict.{erase, str_key}
use askcoin_core.Account.{topic_life_time, leave_topic}
use askcoin_core.Topic.{Topic}
use askcoin_core.Ledger.{Ledger, find_account, balance_of, edit_account, reserve, coins}
use askcoin_core.Ledger.Balance.{total, sum_accounts, sum_topics, balance_of-add_balance}
use askcoin_core.Ledger.Links.{IsLinked, IsAccount}
use askcoin_core.Ledger.Good.{Good, edit_account-balance_of}
use askcoin_core.Ledger.Expiry.{
  pop_topic, owns_first, reclaim, leave_all, expire_topic, expire_topics, renew, proc_topic_expired,
  expiring,
}
use askcoin_core.Ledger.Expiry.Coins.{
  Dropped, expire_topic-Dropped, IsOrdered, IsLive, IsLive-later, new-IsLive,
  proc_topic_expired-Good,
}

balance_of-leave_all :
    (key : Str) (ms : List (Str × ℕ)) (j : ℕ) (s : Ledger)
    → balance_of j (leave_all key ms s).accounts ≡ balance_of j s.accounts
unfolding leave_all leave_topic
balance_of-leave_all key [] j s = refl
balance_of-leave_all key ((tx, a) ∷ ms) j s =
    balance_of-leave_all key ms j _
    ∙ edit_account-balance_of a j (leave_topic key) s (λ b. (refl, refl)) (λ b. refl)

-- The reserve fund has `v` coins more, and every other account what it had.
abbrev pub Repaid : ℕ → Ledger → Ledger → Type 0
Repaid v s u =
    (j : ℕ)
    → balance_of j u.accounts
      ≡ (if j == reserve then balance_of j s.accounts + v else balance_of j s.accounts)

reclaim-Repaid :
    (v : ℕ) (s : Ledger)
    → IsAccount s.accounts reserve
    → sum_accounts s.accounts + v < u64_mod
    → Repaid v s (reclaim v s)
unfolding reclaim
reclaim-Repaid v s known small j = elim (Bool-cases (ltb 0 v)) [
  | inl e ↦ rw e (balance_of-add_balance reserve j v s known small)
  | inr e ↦ rw e (ground (arith, ltb-false→le 0 v e))
]

expire_topic-Repaid :
    (t : Topic) (ts : List Topic) (s : Ledger)
    → IsAccount s.accounts reserve
    → sum_accounts s.accounts + t.balance < u64_mod
    → Ensures (Repaid t.balance s) (expire_topic t ts s)
unfolding expire_topic
expire_topic-Repaid t ts s known small =
    bind-Ensures (Repaid t.balance s) (require (find_account t.owner s.accounts)) _ (λ owner _.
      guard-Ensures (Repaid t.balance s) (owns_first t.key owner) _ (λ _ j.
        balance_of-leave_all t.key t.members j _
        ∙ popped j _
        ∙ reclaim-Repaid t.balance (record s { topics = erase t.key s.topics; topic_list = ts })
            known small j))
  where
    popped :
        (j : ℕ) (u : Ledger)
        → balance_of j (edit_account t.owner pop_topic u).accounts ≡ balance_of j u.accounts
    popped j u = edit_account-balance_of t.owner j pop_topic u (λ b. (refl, refl)) (λ b. refl)

-- A topic more than one lifetime old.
abbrev pub IsOld : ℕ → Topic → Type 0
IsOld now t = t.block_id + 4320 < now

-- The topics `gone` leave the front of the list, all too old, and their coins go to the reserve fund.
pub record Freed (now : ℕ) (s : Ledger) (gone : List Topic) (u : Ledger) : Type 0 where
  pub split : s.topic_list ≡ gone ++ u.topic_list
  pub old : All (IsOld now) gone
  pub live : All (IsLive now) u.topic_list
  pub repaid : Repaid (sum_topics gone) s u

-- What the loop does.
abbrev Frees : ℕ → Ledger → List Topic × Ledger → Type 0
Frees now s r = (gone : List Topic) × Freed now s gone r.1

Freed-none : (now : ℕ) (s : Ledger) → All (IsLive now) s.topic_list → Freed now s [] s
Freed-none now s h = record { split = refl; old = tt; live = h; repaid = λ j. ground arith }

Freed-more :
    (now : ℕ) (t : Topic) (s u w : Ledger) (gone : List Topic)
    → IsOld now t
    → s.topic_list ≡ t ∷ u.topic_list
    → Repaid t.balance s u
    → Freed now u gone w
    → Freed now s (t ∷ gone) w
Freed-more now t s u w gone old e p h = record {
  split = e ∙ ap (λ ts. t ∷ ts) h.split;
  old = (old, h.old);
  live = h.live;
  repaid = λ j. ground (arith, p j, h.repaid j);
}

expire_topics-Freed :
    (now : ℕ) (acc ts : List Topic) (s : Ledger)
    → s.topic_list ≡ ts
    → IsOrdered ts
    → IsLinked s
    → total s ≤ coins
    → Ensures (Frees now s) (expire_topics now acc ts s)
unfolding expire_topics
expire_topics-Freed now acc [] s e o l small = ([], Freed-none now s (rw e tt))
expire_topics-Freed now acc (t ∷ ts) s e o l small =
    elim (Bool-cases (ltb (t.block_id + topic_life_time) now)) [
      | inl old ↦ rw old (
          bind-Ensures (Frees now s) (expire_topic t ts s) (expire_topics now (t ∷ acc) ts)
            (λ u ran.
              later u (ltb→lt _ _ old)
                (Ensures-of (Dropped s ts) _ u (expire_topic-Dropped t ts s e l small) ran)
                (Ensures-of (Repaid t.balance s) _ u
                  (expire_topic-Repaid t ts s l.reserve_known fits) ran)
                (expire_topics-Freed now (t ∷ acc) ts u)))
      | inr live ↦ rw live (
        [],
        Freed-none now s
            (rw e (ltb-false→le _ _ live, IsLive-later now t ts (ltb-false→le _ _ live) o.0)),
      )
    ]
  where
    fits : sum_accounts s.accounts + t.balance < u64_mod
    fits =
        let all : sum_topics s.topic_list ≡ t.balance + sum_topics ts = ap sum_topics e in
        omega arith

    later :
        (u : Ledger)
        → IsOld now t
        → Dropped s ts u
        → Repaid t.balance s u
        → (u.topic_list ≡ ts
            → IsOrdered ts
            → IsLinked u
            → total u ≤ coins
            → Ensures (Frees now u) (expire_topics now (t ∷ acc) ts u))
        → Ensures (Frees now s) (expire_topics now (t ∷ acc) ts u)
    later u old d p ih =
        Ensures-map (Frees now u) (Frees now s) _
          (λ r (gone, h).
            (t ∷ gone, Freed-more now t s u r.1 gone old (e ∙ ap (λ us. t ∷ us) (sym d.1)) p h))
          (ih d.1 o.1 d.0.linked (omega (arith, d.0.kept)))

proc_topic_expired-Freed :
    (now : ℕ) (s : Ledger)
    → IsOrdered s.topic_list
    → All (λ t. 1 ≤ t.block_id) s.topic_list
    → IsLinked s
    → total s ≤ coins
    → Ensures (λ u. (gone : List Topic) × Freed now s gone u) (proc_topic_expired now s)
unfolding proc_topic_expired
proc_topic_expired-Freed now s o p l small = elim (Bool-cases (ltb now (topic_life_time + 2))) [
  | inl early ↦
      rw early ([], Freed-none now s (new-IsLive now s.topic_list (ltb→lt now 4322 early) p))
  | inr late ↦ rw late (
      bind-Ensures _ (expire_topics now [] s.topic_list s) _ (λ r ran. kept r.0 r.1 (
        Ensures-of (Frees now s) (expire_topics now [] s.topic_list s) r
          (expire_topics-Freed now [] s.topic_list s refl o l small) ran)))
]
  where
    kept :
        (ts : List Topic) (u : Ledger)
        → (gone : List Topic) × Freed now s gone u
        → (gone : List Topic) × Freed now s gone
            (record u { rollback_topics = (expiring now, ts) ∷ renew now s.rollback_topics })
    kept ts u (gone, h) =
        (gone, record { split = h.split; old = h.old; live = h.live; repaid = h.repaid })

-- With the topics in block order, none older than block 1, all pointers good and no more than the
-- coins of the genesis block, an expiry of topics that goes through takes a first part of the list
-- off, all of it topics that are more than 4320 blocks old, and leaves none such. The sum of their
-- balances goes to the reserve fund, every other account has the balance that it had, the total of
-- the coins is the same, and the pointers stay good.
pub proc_topic_expired_lem :
    (now : ℕ) (s u : Ledger)
    → IsOrdered s.topic_list
    → All (λ t. 1 ≤ t.block_id) s.topic_list
    → IsLinked s
    → total s ≤ coins
    → proc_topic_expired now s ≡ ok u
    → ((gone : List Topic) × Freed now s gone u) × Good s 0 u
proc_topic_expired_lem now s u o p l small e = (
  Ensures-of _ (proc_topic_expired now s) u (proc_topic_expired-Freed now s o p l small) e,
  (Ensures-of _ (proc_topic_expired now s) u (proc_topic_expired-Good now s o p l small) e).0,
)
