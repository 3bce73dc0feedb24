-- ===== src/Pool/Tidy.antt =====
-- The sets of the pool against its lists: each id, name and key in use is noted, and is in use once.
pub mod Passing
use askcoin_core.Base.{
  ℕ, ◌+◌, ◌≡◌, ◌≤◌, refl, ap, sym, subst, ◌∙◌, Bool, true, false, List, [], ◌∷◌, ◌++◌,
  if◌then◌else◌, arith, Bool-cases, inl, inr,
}
use askcoin_core.Base.Text.{Str, str_eq, str_eq_iff}
use askcoin_core.Base.Dict.{contains, insert, erase, str_key}
use askcoin_core.Pending.{Body, tx_reg, tx_send, tx_topic, tx_reply, tx_reward, tx_other, Tx}
use askcoin_core.Ledger.{Ledger}
use askcoin_core.Pool.{Pool}
use askcoin_core.Pool.Passes.{Passes, regs, sends, opens, replies, joins, rewards, others}
use askcoin_core.Pool.Review.{name_of, pubkey_of, free_keys, free_tx, broadcasts}
use askcoin_core.Pool.Submit.{is_unwelcome, take_keys, take_tx}

abbrev pub occurs : Str → List Str → ℕ
occurs k [] = 0
occurs k (x ∷ xs) = (if str_eq k x then 1 else 0) + occurs k xs

-- 1 for a key of the set.
abbrev pub noted : Str → List Str → ℕ
noted k ks = if contains k ks then 1 else 0

-- How often the transactions of a list use a key.
abbrev pub uses : (Tx → List Str) → Str → List Tx → ℕ
uses keys k [] = 0
uses keys k (t ∷ ts) = occurs k (keys t) + uses keys k ts

pub uses-append :
    (keys : Tx → List Str) (k : Str) (ts us : List Tx)
    → uses keys k (ts ++ us) ≡ uses keys k ts + uses keys k us
uses-append keys k [] us = omega arith
uses-append keys k (t ∷ ts) us = omega (arith, uses-append keys k ts us)

-- The keys of a transaction: at most one of each sort.
abbrev pub id_key : Tx → List Str
id_key t = t.id ∷ []

abbrev pub name_key : Tx → List Str
name_key t = name_of t.body

abbrev pub pubkey_key : Tx → List Str
pubkey_key t = pubkey_of t.body t.pubkey

-- A key that is new, or none.
abbrev pub AreNew : List Str → List Str → Type 0
AreNew [] ks = Unit
AreNew (x ∷ xs) ks = contains x ks ≡ false

abbrev pub IsShort : List Str → Type 0
IsShort [] = Unit
IsShort (x ∷ []) = Unit
IsShort (x ∷ y ∷ xs) = ⊥

-- One sort of keys, and the set that notes them.
pub record Sort : Type 0 where
  pub keys : Tx → List Str
  pub set : Pool → List Str
  pub short : (t : Tx) → IsShort (keys t)
  pub set_free : (t : Tx) (p : Pool) → set (free_tx t p) ≡ free_keys (keys t) (set p)
  pub set_lists :
      (p : Pool) (xs ys zs : List Tx) (s : Ledger)
      → set (record p { uv_1_txs = xs; uv_2_txs = ys; uv_3_txs = zs; ledger = s }) ≡ set p
  pub keys_pass : {t u : Tx} {s v : Ledger} → Passes t s u v → keys u ≡ keys t
  pub fresh : (n : ℕ) (t : Tx) (p : Pool) → is_unwelcome n t p ≡ false → AreNew (keys t) (set p)
  pub keys_broadcasts : (t : Tx) → keys (broadcasts t) ≡ keys t
  pub set_take : (t : Tx) (p : Pool) → set (take_tx t p) ≡ take_keys (keys t) (set p)

noted-erase : (k x : Str) (ks : List Str) → str_eq k x ≡ false → noted k (erase x ks) ≡ noted k ks
noted-erase k x [] d = refl
noted-erase k x (y ∷ ks) d = elim (Bool-cases (str_eq x y)) [
  | inl hit ↦ rw (hit, subst (λ z. str_eq k z ≡ false) ((str_eq_iff x y).0 hit) d) refl
  | inr miss ↦
      rw miss
        (elim (Bool-cases (str_eq k y)) [ inl e ↦ rw e refl | inr e ↦ rw e (noted-erase k x ks d) ])
]

noted-insert : (k x : Str) (ks : List Str) → noted k ks ≤ noted k (insert x ks)
noted-insert k x ks = ground arith

noted_new : (x : Str) (ks : List Str) → noted x (insert x ks) ≡ 1
noted_new x ks = ground (arith, (str_eq_iff x x).1 refl)

taken_one :
    (x : Str) (n : ℕ) (ks : List Str)
    → contains x ks ≡ false
    → n ≤ noted x ks
    → 1 + 0 + n ≤ noted x (insert x ks)
taken_one x n ks a h =
    let none : noted x ks ≡ 0 = rw a refl in omega (arith, h, none, noted_new x ks)

-- What is left in use when a key is freed is still noted.
pub freed :
    (xs : List Str) (k : Str) (n : ℕ) (ks : List Str)
    → IsShort xs
    → occurs k xs + n ≤ noted k ks
    → n ≤ noted k (free_keys xs ks)
freed [] k n ks s h = omega (arith, h)
freed (x ∷ []) k n ks s h = elim (Bool-cases (str_eq k x)) [
  | inl e ↦ ground (arith, h)
  | inr e ↦ subst (λ m. n ≤ m) (sym (noted-erase k x ks e)) (ground (arith, h))
]
freed (x ∷ y ∷ xs) k n ks s h = absurd s

-- What is in use with a new key is noted when it is taken.
pub taken :
    (xs : List Str) (k : Str) (n : ℕ) (ks : List Str)
    → IsShort xs
    → AreNew xs ks
    → n ≤ noted k ks
    → occurs k xs + n ≤ noted k (take_keys xs ks)
taken [] k n ks s a h = omega (arith, h)
taken (x ∷ []) k n ks s a h = elim (Bool-cases (str_eq k x)) [
  | inl e ↦
      let same : x ≡ k = sym ((str_eq_iff k x).0 e) in
      rw e (
        subst (λ z. 1 + 0 + n ≤ noted z (insert x ks)) same
          (taken_one x n ks a (subst (λ z. n ≤ noted z ks) (sym same) h)))
  | inr e ↦ rw e (omega (arith, h, noted-insert k x ks))
]
taken (x ∷ y ∷ xs) k n ks s a h = absurd s

pub name_of-IsShort : (b : Body) → IsShort (name_of b)
name_of-IsShort (tx_reg name r v) = tt
name_of-IsShort (tx_send q v) = tt
name_of-IsShort (tx_topic v x) = tt
name_of-IsShort (tx_reply q to x j) = tt
name_of-IsShort (tx_reward q to v) = tt
name_of-IsShort (tx_other n) = tt

pub pubkey_of-IsShort : (b : Body) (k : Str) → IsShort (pubkey_of b k)
pubkey_of-IsShort (tx_reg name r v) k = tt
pubkey_of-IsShort (tx_send q v) k = tt
pubkey_of-IsShort (tx_topic v x) k = tt
pubkey_of-IsShort (tx_reply q to x j) k = tt
pubkey_of-IsShort (tx_reward q to v) k = tt
pubkey_of-IsShort (tx_other n) k = tt

-- A transaction that is not turned away has new keys.
pub ids_fresh :
    (n : ℕ) (t : Tx) (p : Pool) → is_unwelcome n t p ≡ false → contains t.id p.uv_tx_ids ≡ false
unfolding is_unwelcome
ids_fresh n t p h = ground (arith, h)

reg_fresh :
    (n : ℕ) (t : Tx) (p : Pool) (name r : Str) (v : ℕ)
    → t.body ≡ tx_reg name r v
    → is_unwelcome n t p ≡ false
    → (contains name p.uv_account_names ≡ false) × (contains t.pubkey p.uv_account_pubkeys ≡ false)
unfolding is_unwelcome
reg_fresh n t p name r v e h =
    let f = rw (is_unwelcome, e) at h in (ground (arith, f), ground (arith, f))

pub names_fresh :
    (n : ℕ) (t : Tx) (p : Pool)
    → is_unwelcome n t p ≡ false
    → AreNew (name_key t) p.uv_account_names
names_fresh n t p h = of_body t.body refl
  where
    of_body : (b : Body) → t.body ≡ b → AreNew (name_of b) p.uv_account_names
    of_body (tx_reg name r v) e = (reg_fresh n t p name r v e h).0
    of_body (tx_send q v) e = tt
    of_body (tx_topic v x) e = tt
    of_body (tx_reply q to x j) e = tt
    of_body (tx_reward q to v) e = tt
    of_body (tx_other k) e = tt

pub pubkeys_fresh :
    (n : ℕ) (t : Tx) (p : Pool)
    → is_unwelcome n t p ≡ false
    → AreNew (pubkey_key t) p.uv_account_pubkeys
pubkeys_fresh n t p h = of_body t.body refl
  where
    of_body : (b : Body) → t.body ≡ b → AreNew (pubkey_of b t.pubkey) p.uv_account_pubkeys
    of_body (tx_reg name r v) e = (reg_fresh n t p name r v e h).1
    of_body (tx_send q v) e = tt
    of_body (tx_topic v x) e = tt
    of_body (tx_reply q to x j) e = tt
    of_body (tx_reward q to v) e = tt
    of_body (tx_other k) e = tt

-- A transaction that passes keeps its keys.
pub id_pass : {t u : Tx} {s v : Ledger} → Passes t s u v → id_key u ≡ id_key t
id_pass (regs name r v i a e p) = refl
id_pass (sends q v i a e p) = refl
id_pass (opens v x i a e p r) = refl
id_pass (replies key to x j i a q e p r) = refl
id_pass (joins key to x j i a q e p r f) = refl
id_pass (rewards key to v i a q e p r f) = refl
id_pass (others n e) = refl

pub name_pass : {t u : Tx} {s v : Ledger} → Passes t s u v → name_key u ≡ name_key t
name_pass (regs name r v i a e p) = refl
name_pass (sends q v i a e p) = refl
name_pass (opens v x i a e p r) = refl
name_pass (replies key to x j i a q e p r) = refl
name_pass (joins key to x j i a q e p r f) = ap name_of (sym e)
name_pass (rewards key to v i a q e p r f) = refl
name_pass (others n e) = refl

pub pubkey_pass : {t u : Tx} {s v : Ledger} → Passes t s u v → pubkey_key u ≡ pubkey_key t
pubkey_pass (regs name r v i a e p) = refl
pubkey_pass (sends q v i a e p) = refl
pubkey_pass (opens v x i a e p r) = refl
pubkey_pass (replies key to x j i a q e p r) = refl
pubkey_pass {t = t} (joins key to x j i a q e p r f) = ap (λ b. pubkey_of b t.pubkey) (sym e)
pubkey_pass (rewards key to v i a q e p r f) = refl
pubkey_pass (others n e) = refl

-- The three sorts.
abbrev pub ids : Sort
ids = record {
  keys = id_key;
  set = λ p. p.uv_tx_ids;
  short = λ t. tt;
  set_free = λ t p. refl;
  set_lists = λ p xs ys zs s. refl;
  keys_pass = id_pass;
  fresh = ids_fresh;
  keys_broadcasts = λ t. refl;
  set_take = λ t p. refl;
}

abbrev pub names : Sort
names = record {
  keys = name_key;
  set = λ p. p.uv_account_names;
  short = λ t. name_of-IsShort t.body;
  set_free = λ t p. refl;
  set_lists = λ p xs ys zs s. refl;
  keys_pass = name_pass;
  fresh = names_fresh;
  keys_broadcasts = λ t. refl;
  set_take = λ t p. refl;
}

abbrev pub pubkeys : Sort
pubkeys = record {
  keys = pubkey_key;
  set = λ p. p.uv_account_pubkeys;
  short = λ t. pubkey_of-IsShort t.body t.pubkey;
  set_free = λ t p. refl;
  set_lists = λ p xs ys zs s. refl;
  keys_pass = pubkey_pass;
  fresh = pubkeys_fresh;
  keys_broadcasts = λ t. refl;
  set_take = λ t p. refl;
}
