-- ===== src/Chain/Growth.antt =====
-- Any number of mined blocks, one after the other, and what the chain keeps through them.
use askcoin_core.Base.{ℕ, suc, ◌+◌, ◌*◌, ◌≡◌, ◌≤◌, ok, arith, Ensures-of}
use askcoin_core.Base.Powers.{pow_mono, pow_pos}
use askcoin_core.Accum.Value.{val}
use askcoin_core.Accum.Laws.{work}
use askcoin_core.External.{External}
use askcoin_core.Chain.{Chain, mined_new_block}
use askcoin_core.Chain.Head.{IsSound, Extends, mined_new_block-Extends}

-- `Mines n c d`: from `c`, `n` calls of `mined_new_block` that go on lead to `d`.
pub data Mines (x : External) : ℕ → Chain → Chain → Type 0 where
  start : {c : Chain} → Mines x 0 c c
  next :
      {n : ℕ} {c d e : Chain} (now : ℕ) (doc : x.Value)
      → Mines x n c d
      → mined_new_block x now doc d ≡ ok e
      → Mines x (suc n) c e

-- What extends a sound chain is a sound chain.
Extends-IsSound : (now : ℕ) (c d : Chain) → IsSound c → Extends now c d → IsSound d
Extends-IsSound now c d s e = record {
  linked = e.linked;
  whole = e.whole;
  timely = e.timely;
  accum = e.accum;
  best_accum = e.best_accum;
  best = e.best;
  modest = modest (pow_mono d.cur_block.zero_bits 255 (omega (arith, e.target_bound)));
}
  where
    modest :
        work d.cur_block.zero_bits ≤ work 255
        → val d.cur_block.accum_pow ≤ d.cur_block.id * work 255
    modest p = omega (arith, s.modest, e.worked, e.next_id, p)

-- What `n` blocks make of the chain.
pub record Grown (n : ℕ) (c d : Chain) : Type 0 where
  pub sound : IsSound d
  pub number : d.cur_block.id ≡ c.cur_block.id + n
  pub work_grows : val c.cur_block.accum_pow + n ≤ val d.cur_block.accum_pow
  pub best_grows : val c.most_difficult_block.accum_pow ≤ val d.most_difficult_block.accum_pow

Grown-next : (now n : ℕ) (c d e : Chain) → Grown n c d → Extends now d e → Grown (suc n) c e
Grown-next now n c d e g x = record {
  sound = Extends-IsSound now d e g.sound x;
  number = omega (arith, g.number, x.next_id);
  work_grows = omega (arith, g.work_grows, x.worked, pow_pos e.cur_block.zero_bits);
  best_grows = omega (arith, g.best_grows, x.no_worse);
}

-- From a sound chain, any number of mined blocks that are accepted, up to block 2 ^ 32, lead to a
-- sound chain: no coin is lost or made and every pointer is good, the head is as many blocks on,
-- its accumulated work has grown with each block, and the most difficult block is no less difficult
-- than it was, nor than the head.
pub Mines-Grown :
    (x : External) (n : ℕ) (c d : Chain)
    → Mines x n c d
    → IsSound c
    → c.cur_block.id + n ≤ 4294967296
    → Grown n c d
Mines-Grown x _ c _ start s b = record {
  sound = s;
  number = omega arith;
  work_grows = omega arith;
  best_grows = omega arith;
}
Mines-Grown x _ c _ (next {n} {d = d} {e = e} now doc m ran) s b =
    let g : Grown n c d = Mines-Grown x n c d m s (omega arith) in
    Grown-next now n c d e g (
      Ensures-of (Extends now d) (mined_new_block x now doc d) e
        (mined_new_block-Extends x now doc d g.sound (omega (arith, g.number))) ran)
