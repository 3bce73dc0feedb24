-- ===== src/Pool/Afford.antt =====
-- What the transactions of `m_uv_2_txs` will spend.
use askcoin_core.Base.{
  u64_mod, ℕ, ◌+◌, ◌%◌, ◌≡◌, ◌<◌, ◌≤◌, refl, ap, subst, ◌∙◌, true, false, some, List, [], ◌∷◌, ◌==◌,
  arith, Bool-cases, inl, inr, some_inj,
}
use askcoin_core.Base.Text.{Str}
use askcoin_core.Base.Dict.{lookup, str_key}
use askcoin_core.Account.{Account}
use askcoin_core.Ledger.{
  Ledger, find_account, update_account, get_account, edit_account, edit_topic,
}
use askcoin_core.Pending.{Body, tx_reg, Tx}
use askcoin_core.Mine.Total.{IsKnown}
use askcoin_core.Pool.{spend, count_topic, count_join, cost_of, too_poor, judge, Allows}
use askcoin_core.Pool.Passes.{
  Passes, regs, sends, opens, replies, joins, rewards, others, Pays, judge-Passes,
}
use askcoin_core.Pool.Reserve.{half, IsModest, IsNew, All-find_account, Allows-map}

-- Whose coins a transaction costs.
abbrev pub payer_of : Body → Str → Str
payer_of (tx_reg name referrer_pubkey avatar) pubkey = referrer_pubkey
payer_of _ pubkey = pubkey

-- The account has the coins that its transactions will spend.
abbrev pub IsCovered : Str → Ledger → Type 0
IsCovered pubkey s =
    (i : ℕ) × (a : Account) × (get_account pubkey s ≡ some i)
    × (find_account i s.accounts ≡ some a)
    × (a.uv_spend ≤ a.balance)

find_account_changed :
    (i : ℕ) (f : Account → Account) (a : Account) (xs : List Account)
    → ((b : Account) → (f b).id ≡ b.id)
    → find_account i xs ≡ some a
    → find_account i (update_account i f xs) ≡ some (f a)
unfolding find_account update_account
find_account_changed i f a [] k e = cc
find_account_changed i f a (b ∷ xs) k e = elim (Bool-cases (b.id == i)) [
  | inl hit ↦
      rw hit
        (found b xs (ap (λ n. n == i) (k b) ∙ hit) ∙ ap (λ c. some (f c)) (some_inj (rw hit at e)))
  | inr miss ↦ rw miss (rw miss (find_account_changed i f a xs k (rw miss at e)))
]
  where
    found :
        (b : Account) (xs : List Account)
        → ((f b).id == i) ≡ true
        → find_account i (f b ∷ xs) ≡ some (f b)
    found b xs hit = rw hit refl

-- The account of a payer after the counting.
covered :
    (pubkey : Str) (cost i : ℕ) (a : Account) (s v : Ledger) (f : Account → Account)
    → Pays pubkey cost i a s
    → ((b : Account) → (f b).id ≡ b.id)
    → v.by_pubkey ≡ s.by_pubkey
    → v.accounts ≡ update_account i f s.accounts
    → (f a).uv_spend ≤ (f a).balance
    → IsCovered pubkey v
unfolding get_account
covered pubkey cost i a s v f p k e d h = (
  i,
  f a,
  ap (lookup pubkey) e ∙ p.known,
  ap (find_account i) d ∙ find_account_changed i f a s.accounts k p.there,
  h,
)

paid : (c : ℕ) (a : Account) → too_poor c a ≡ false → (a.uv_spend + c) % u64_mod ≤ a.balance
paid c a h = ground (arith, h)

paid_fee :
    (v : ℕ) (a : Account)
    → too_poor (cost_of v) a ≡ false
    → v + 2 < half
    → a.uv_spend < half
    → (a.uv_spend + 2) % u64_mod ≤ a.balance
paid_fee v a h x y = ground (arith, h, x, y)

passed :
    (t u : Tx) (s v : Ledger)
    → Passes t s u v
    → IsModest s
    → IsNew t.body
    → IsKnown t.body
    → IsCovered (payer_of t.body t.pubkey) v
unfolding edit_account edit_topic
passed t _ s _ (regs name r v i a e p) m h k =
    rw e (covered r 2 i a s _ (spend 2) p (λ b. refl) refl refl (paid 2 a p.rich))
passed t _ s _ (sends q v i a e p) m h k = rw e (
    covered t.pubkey (cost_of v) i a s _ (spend (cost_of v)) p (λ b. refl) refl refl
      (paid (cost_of v) a p.rich))
passed t _ s _ (opens v x i a e p r) m h k = rw e (
    covered t.pubkey (cost_of v) i a s _ (λ b. count_topic (spend (cost_of v) b)) p (λ b. refl) refl
      refl (paid (cost_of v) a p.rich))
passed t _ s _ (replies key to x j i a q e p r) m h k =
    rw e (covered t.pubkey 2 i a s _ (spend 2) p (λ b. refl) refl refl (paid 2 a p.rich))
passed t _ s _ (joins key to x j i a q e p r f) m h k = rw e (
    covered t.pubkey 2 i a s _ (λ b. spend 2 (count_join b)) p (λ b. refl) refl refl
      (paid 2 a p.rich))
passed t _ s _ (rewards key to v i a q e p r f) m h k = rw e (
    covered t.pubkey (cost_of v) i a s _ (spend 2) p (λ b. refl) refl refl
      (paid_fee v a p.rich (subst IsNew e h)
        (All-find_account (λ b. b.uv_spend < half) i a s.accounts m.spends p.there)))
passed t _ s _ (others n e) m h k = absurd (subst IsKnown e k)

-- While the counters are below 2 ^ 63 and so are the amount and the fee: who pays for a transaction that goes
-- to `m_uv_2_txs` has the coins for all that is counted in `m_uv_spend` then, that transaction included.
pub judge-IsCovered :
    (cur_block_id : ℕ) (t : Tx) (s : Ledger)
    → IsModest s
    → IsNew t.body
    → IsKnown t.body
    → Allows (λ u v. IsCovered (payer_of t.body t.pubkey) v) (judge cur_block_id t s)
judge-IsCovered cur_block_id t s m h k =
    Allows-map (Passes t s) (λ u v. IsCovered (payer_of t.body t.pubkey) v) (judge cur_block_id t s)
      (λ u v p. passed t u s v p m h k) (judge-Passes cur_block_id t s)
