-- ===== src/Chain/Head.antt =====
-- What the head of the chain is after a block was mined.
use askcoin_core.Base.{
  u64_mod, ℕ, ◌+◌, ◌*◌, ◌%◌, Bool, true, false, not, some, List, ok, require, length, leb, ◌==◌,
  if◌then◌else◌, ◌≡◌, refl, ◌≤◌, ◌<◌, arith, Ensures, Ensures-of, bind-Ensures, guard-Ensures,
  All-map, Bool-cases, inl, inr, require-ok,
}
use askcoin_core.Base.Powers.{pow_mono}
use askcoin_core.Base.Text.{is_base64_char}
use askcoin_core.Base.Dict.{has_key, str_key}
use askcoin_core.Accum.{add_pow, gt}
use askcoin_core.Accum.Value.{val}
use askcoin_core.Accum.Laws.{IsAccum, work, max_work, add_pow_lem, gt_iff}
use askcoin_core.Pow.{next_zero_bits, zero_bits_in_range}
use askcoin_core.Pow.Target.{zero_bits_ok-next_zero_bits}
use askcoin_core.External.{External}
use askcoin_core.Ledger.{Ledger, get_account, coins}
use askcoin_core.Ledger.Balance.{total}
use askcoin_core.Ledger.Links.{IsLinked, IsAccount, get_account-known}
use askcoin_core.Ledger.Ages.{IsDated, Timely, InOrder-later}
use askcoin_core.Ledger.Ages.Whole.{apply_block-Timely}
use askcoin_core.Ledger.Tx.{verify_sign, string_field, uint_field, uint64_field, base64_field}
use askcoin_core.Ledger.Block.{apply_block, apply_block-Good}
use askcoin_core.Chain.Hash.{verify_hash}
use askcoin_core.Chain.{
  Block, Chain, Header, follows, make_block, set_head, difficult_than_me, read_header, check_stored,
  mined_new_block, archive_of, info_of, version_compatible, askcoin_version, all_uint64,
  read_tx_ids,
}

-- The chain between two blocks.
pub record IsSound (c : Chain) : Type 0 where
  pub linked : IsLinked c.ledger
  pub whole : total c.ledger ≡ coins
  pub timely : Timely c.cur_block.id c.ledger
  pub accum : IsAccum c.cur_block.accum_pow
  pub best_accum : IsAccum c.most_difficult_block.accum_pow
  pub best : val c.cur_block.accum_pow ≤ val c.most_difficult_block.accum_pow
  pub modest : val c.cur_block.accum_pow ≤ c.cur_block.id * work 255

-- What a block mined at the time `now` makes of the chain.
pub record Extends (now : ℕ) (c d : Chain) : Type 0 where
  pub linked : IsLinked d.ledger
  pub whole : total d.ledger ≡ coins
  pub next_id : d.cur_block.id ≡ c.cur_block.id + 1
  pub parent : d.cur_block.parent ≡ some c.cur_block.hash
  pub timely : Timely d.cur_block.id d.ledger
  pub target : d.cur_block.zero_bits ≡ next_zero_bits c.cur_block.utc_diff c.cur_block.zero_bits
  pub target_bound : d.cur_block.zero_bits < 256
  pub not_before : c.cur_block.utc ≤ d.cur_block.utc
  pub not_after : d.cur_block.utc ≤ now
  pub accum : IsAccum d.cur_block.accum_pow
  pub worked : val d.cur_block.accum_pow ≡ val c.cur_block.accum_pow + work d.cur_block.zero_bits
  pub best_accum : IsAccum d.most_difficult_block.accum_pow
  pub best : val d.cur_block.accum_pow ≤ val d.most_difficult_block.accum_pow
  pub no_worse : val c.most_difficult_block.accum_pow ≤ val d.most_difficult_block.accum_pow

-- What the checks of a header have shown.
pub record Follows (now : ℕ) (cur : Block) (h : Header) : Type 0 where
  pub next_id : h.id ≡ (cur.id + 1) % u64_mod
  pub target : h.zero_bits ≡ next_zero_bits cur.utc_diff cur.zero_bits
  pub not_before : cur.utc ≤ h.utc
  pub not_after : h.utc ≤ now

follows-Follows :
    (now : ℕ) (cur : Block) (h : Header) → follows now cur h ≡ true → Follows now cur h
unfolding follows
follows-Follows now cur h e =
    ground (arith, zero_bits_ok-next_zero_bits cur.utc_diff cur.zero_bits h.zero_bits)

-- `zero_bits` of a header that was read.
abbrev Small : Header → Type 0
Small h = h.zero_bits < 256

read_header-Small : (x : External) (doc : x.Value) → Ensures Small (read_header x doc)
unfolding read_header zero_bits_in_range
read_header-Small x doc = bind-Ensures Small (string_field x "sign" doc) _ (λ sign _.
    bind-Ensures Small (base64_field x "hash" 44 44 doc) _ (λ hash _.
      guard-Ensures Small (is_base64_char sign) _ (λ _.
        bind-Ensures Small (require (x.member "data" doc)) _ (λ d _.
          guard-Ensures Small (x.is_object d) _ (λ _.
            bind-Ensures Small (uint64_field x "id" d) _ (λ id _.
              guard-Ensures Small (not (id == 0)) _ (λ _.
                bind-Ensures Small (uint64_field x "utc" d) _ (λ utc _.
                  bind-Ensures Small (uint_field x "version" d) _ (λ version _.
                    guard-Ensures Small (version_compatible version askcoin_version) _ (λ _.
                      bind-Ensures Small (uint_field x "zero_bits" d) _ (λ zero_bits _.
                        guard-Ensures Small (zero_bits_in_range zero_bits) _ (λ small.
                          bind-Ensures Small (base64_field x "pre_hash" 44 44 d) _ (λ pre_hash _.
                            bind-Ensures Small (base64_field x "miner" 88 88 d) _ (λ miner _.
                              bind-Ensures Small (require (x.member "nonce" d)) _ (λ n _.
                                bind-Ensures Small (require (x.as_array n)) _ (λ nonce _.
                                  guard-Ensures Small (length nonce == 4) _ (λ _.
                                    guard-Ensures Small (all_uint64 x nonce) _ (λ _.
                                      bind-Ensures Small (require (x.member "tx_ids" d)) _ (λ t _.
                                        bind-Ensures Small (require (x.as_array t)) _ (λ ids _.
                                          guard-Ensures Small (leb (length ids) 2000) _ (λ _.
                                            bind-Ensures Small (read_tx_ids x ids) _
                                              (λ tx_ids _. ground arith))))))))))))))))))))))

-- The better of the two blocks is kept.
best_of :
    (a b : Block)
    → IsAccum a.accum_pow
    → IsAccum b.accum_pow
    → let best = if difficult_than_me a b then b else a in
      IsAccum best.accum_pow
      × (val a.accum_pow ≤ val best.accum_pow)
      × (val b.accum_pow ≤ val best.accum_pow)
unfolding difficult_than_me
best_of a b ha hb = elim (Bool-cases (gt b.accum_pow a.accum_pow)) [
  | inl more ↦
      rw more (hb, omega (arith, (gt_iff b.accum_pow a.accum_pow hb ha).0 more), omega arith)
  | inr less ↦ rw less (ha, omega arith, not_more less)
]
  where
    not_more : gt b.accum_pow a.accum_pow ≡ false → val b.accum_pow ≤ val a.accum_pow
    not_more e = ground (arith, (gt_iff b.accum_pow a.accum_pow hb ha).1)

head-IsAccum :
    (h : Header) (c : Chain)
    → IsSound c
    → c.cur_block.id < 4294967296
    → h.zero_bits < 256
    → IsAccum (add_pow c.cur_block.accum_pow h.zero_bits)
      × (val (add_pow c.cur_block.accum_pow h.zero_bits)
          ≡ val c.cur_block.accum_pow + work h.zero_bits)
head-IsAccum h c s early small =
    add_pow_lem c.cur_block.accum_pow h.zero_bits s.accum (omega arith)
      (fits (pow_mono h.zero_bits 255 (omega arith)))
  where
    fits : work h.zero_bits ≤ work 255 → val c.cur_block.accum_pow + work h.zero_bits < max_work
    fits p = omega (arith, s.modest, early)

-- A new head, on top of a ledger that lost nothing.
set_head-Extends :
    (now : ℕ) (h : Header) (rewarded : Bool) (l : Ledger) (c : Chain)
    → IsSound c
    → c.cur_block.id < 4294967296
    → h.zero_bits < 256
    → Follows now c.cur_block h
    → IsLinked l × (total l ≡ coins)
    → Timely h.id l
    → Extends now c (set_head (record (make_block c.cur_block h) { miner_reward = rewarded }) l c)
unfolding set_head make_block
set_head-Extends now h rewarded l c s early small f kept timely =
    let a : IsAccum (add_pow c.cur_block.accum_pow h.zero_bits)
        × (val (add_pow c.cur_block.accum_pow h.zero_bits)
            ≡ val c.cur_block.accum_pow + work h.zero_bits) =
      head-IsAccum h c s early small in
    record {
      linked = kept.0;
      whole = kept.1;
      next_id = omega (arith, f.next_id, early);
      timely = timely;
      parent = refl;
      target = f.target;
      target_bound = small;
      not_before = f.not_before;
      not_after = f.not_after;
      accum = a.0;
      worked = a.1;
      best_accum = (best_of c.most_difficult_block _ s.best_accum a.0).0;
      best = (best_of c.most_difficult_block _ s.best_accum a.0).2;
      no_worse = (best_of c.most_difficult_block _ s.best_accum a.0).1;
    }

-- On a sound chain whose head is below block 2 ^ 32, a mined block that is accepted becomes the head:
-- it follows the old head in number, hash, time and target, its accumulated work is that of the old
-- head and its own, the most difficult block is at least as difficult as before and as the new head,
-- no coin is lost or made, every pointer of the ledger stays good, and the topics stay in the order
-- of their blocks.
pub mined_new_block-Extends :
    (x : External) (now : ℕ) (doc : x.Value) (c : Chain)
    → IsSound c
    → c.cur_block.id < 4294967296
    → Ensures (Extends now c) (mined_new_block x now doc c)
unfolding mined_new_block
mined_new_block-Extends x now doc c s early = bind-Ensures P (read_header x doc) _ (λ h at_h.
    guard-Ensures P (not (has_key h.hash c.blocks)) _ (λ _.
      guard-Ensures P (verify_sign x h.miner_pubkey h.hash h.sign) _ (λ _.
        guard-Ensures P (verify_hash x h.hash h.text h.zero_bits) _ (λ _.
          bind-Ensures P (require (get_account h.miner_pubkey c.ledger)) _ (λ miner found.
            guard-Ensures P (follows now c.cur_block h) _ (λ fits.
              bind-Ensures P (require (x.member "tx" doc)) _ (λ t _.
                bind-Ensures P (require (x.as_array t)) _ (λ nodes _.
                  bind-Ensures P
                    (apply_block x (archive_of c) (info_of h) h.miner_pubkey miner h.tx_ids nodes
                      c.ledger)
                    _
                    (λ r at_r. bind-Ensures P (check_stored x h) _ (λ _ _.
                      set_head-Extends now h r.1 r.0 c s early
                        (Ensures-of Small (read_header x doc) h (read_header-Small x doc) at_h)
                        (follows-Follows now c.cur_block h fits)
                        (applied h miner nodes
                          (get_account-known c.ledger h.miner_pubkey miner s.linked
                            (require-ok _ found))
                          r at_r)
                        (aged h miner nodes (follows-Follows now c.cur_block h fits) r
                          at_r)))))))))))
  where
    P : Chain → Type 0
    P d = Extends now c d

    applied :
        (h : Header) (miner : ℕ) (nodes : List (x.Value))
        → IsAccount c.ledger.accounts miner
        → (r : Ledger × Bool)
        → apply_block x (archive_of c) (info_of h) h.miner_pubkey miner h.tx_ids nodes c.ledger
          ≡ ok r
        → IsLinked r.0 × (total r.0 ≡ coins)
    applied h miner nodes known r e =
        Ensures-of (λ (q : Ledger × Bool). IsLinked q.0 × (total q.0 ≡ coins))
          (apply_block x (archive_of c) (info_of h) h.miner_pubkey miner h.tx_ids nodes c.ledger) r
          (apply_block-Good x (archive_of c) (info_of h) h.miner_pubkey miner h.tx_ids nodes
            c.ledger s.timely.0
            (All-map (IsDated c.cur_block.id) (λ t. 1 ≤ t.block_id) (λ t d. d.0) c.ledger.topic_list
              s.timely.1)
            s.linked known s.whole)
          e

    aged :
        (h : Header) (miner : ℕ) (nodes : List (x.Value))
        → Follows now c.cur_block h
        → (r : Ledger × Bool)
        → apply_block x (archive_of c) (info_of h) h.miner_pubkey miner h.tx_ids nodes c.ledger
          ≡ ok r
        → Timely h.id r.0
    aged h miner nodes f r e =
        Ensures-of (λ (q : Ledger × Bool). Timely h.id q.0)
          (apply_block x (archive_of c) (info_of h) h.miner_pubkey miner h.tx_ids nodes c.ledger) r
          (apply_block-Timely x (info_of h) (omega (arith, f.next_id, early)) (archive_of c)
            h.miner_pubkey miner h.tx_ids nodes c.ledger
            (InOrder-later c.cur_block.id h.id c.ledger.topic_list (omega (arith, f.next_id, early))
              s.timely))
          e
