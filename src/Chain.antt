-- ===== src/Chain.antt =====
-- blockchain.cpp, `mined_new_block`, with block.cpp and version.hpp: a block that this node mined is
-- checked against the chain's head, applied, and made the new head. The batch that is written to the
-- database, the history of notifications and the broadcast are output and leave the state alone.
mod Tests
pub mod Hash
pub mod Head
pub mod Growth
use Prim.Native.String.{String}
use askcoin_core.Base.{
  ℕ, ◌+◌, ◌-◌, ◌/◌, ◌%◌, Bool, true, false, not, ◌||◌, Option, none, some, List, [], ◌∷◌, Run, ok,
  exit, ◌>>=◌, ◌>>◌, guard, require, length, ltb, leb, ◌==◌, if◌then◌else◌, u64_mod,
}
use askcoin_core.Base.Text.{Str, codes, str_eq, is_base64_char}
use askcoin_core.Base.Dict.{has_key, insert_entry, lookup, str_key, nat_key}
use askcoin_core.Accum.{AccumPow, add_pow, gt}
use askcoin_core.Pow.{zero_bits_in_range, zero_bits_ok}
use askcoin_core.External.{External}
use askcoin_core.Ledger.{Ledger, get_account}
use askcoin_core.Ledger.Tx.{
  BlockInfo, verify_sign, string_field, uint_field, uint64_field, base64_field,
}
use askcoin_core.Ledger.Expiry.{Archive}
use askcoin_core.Ledger.Block.{apply_block}
use Hash.{verify_hash}

-- block.hpp; a `shared_ptr` to the parent is the parent's hash.
pub record Block : Type 0 where
  pub id : ℕ
  pub utc : ℕ
  pub version : ℕ
  pub zero_bits : ℕ
  pub utc_diff : ℕ
  pub hash : Str
  pub parent : Option Str
  pub miner_pubkey : Str
  pub accum_pow : AccumPow
  pub miner_reward : Bool
  pub in_main_chain : Bool
  pub tx_num : ℕ

-- `Block::difficult_than_me`: is the other block's chain the more difficult one?
pub difficult_than_me : Block → Block → Bool
difficult_than_me b other = gt other.accum_pow b.accum_pow

-- `ASKCOIN_VERSION`.
abbrev pub askcoin_version : ℕ
askcoin_version = 2

-- `version_compatible`: the same major and minor version.
pub version_compatible : ℕ → ℕ → Bool
version_compatible a b =
    if a / 10000000 == b / 10000000 then (a % 10000000) / 10000 == (b % 10000000) / 10000 else false

pub record Chain : Type 0 where
  pub ledger : Ledger
  pub blocks : List (Str × Block)
  pub block_by_id : List (ℕ × Str)
  pub cur_block : Block
  pub most_difficult_block : Block
  pub import_block_id : ℕ
  pub import_tx_map : List (ℕ × List Str)
  pub block_changed : Bool

-- The fields of a block document that have passed the checks on their form.
pub record Header : Type 0 where
  pub hash : Str
  pub sign : Str
  pub text : Str
  pub id : ℕ
  pub utc : ℕ
  pub version : ℕ
  pub zero_bits : ℕ
  pub pre_hash : Str
  pub miner_pubkey : Str
  pub tx_ids : List Str

-- The checks of a header against the head of the chain and the clock.
pub follows : ℕ → Block → Header → Bool
follows now cur h =
    if h.id == (cur.id + 1) % u64_mod
    then (if str_eq h.pre_hash cur.hash
        then (if zero_bits_ok cur.utc_diff cur.zero_bits h.zero_bits
            then not (ltb h.utc cur.utc || ltb now h.utc)
            else false)
        else false)
    else false

-- The new block: `Block::Block`, `set_parent`, `set_miner_pubkey` and `add_difficulty_from`.
unfoldable pub make_block : Block → Header → Block
make_block cur h = record {
  id = h.id;
  utc = h.utc;
  version = h.version;
  zero_bits = h.zero_bits;
  utc_diff = (h.utc + u64_mod - cur.utc) % u64_mod;
  hash = h.hash;
  parent = some cur.hash;
  miner_pubkey = h.miner_pubkey;
  accum_pow = add_pow cur.accum_pow h.zero_bits;
  miner_reward = true;
  in_main_chain = false;
  tx_num = length h.tx_ids;
}

-- The block becomes the head, and the most difficult block if it is more difficult than that.
unfoldable pub set_head : Block → Ledger → Chain → Chain
unfolding difficult_than_me
set_head b ledger c =
    let head = record b { in_main_chain = true } in
    record c {
      ledger = ledger;
      blocks = insert_entry b.hash head c.blocks;
      block_by_id = insert_entry b.id b.hash c.block_by_id;
      cur_block = head;
      most_difficult_block =
          if difficult_than_me c.most_difficult_block head then head else c.most_difficult_block;
      block_changed = true;
    }

abbrev pub info_of : Header → BlockInfo
info_of h = record { block_id = h.id; block_hash = h.hash; utc = h.utc }

abbrev pub archive_of : Chain → Archive
archive_of c = record {
  block_hash = λ i. lookup i c.block_by_id;
  import_block_id = c.import_block_id;
  import_tx_map = c.import_tx_map;
}

module _ (x : External) where
  open x use {Value, member, is_object, as_array, as_string, as_uint64, parse, write, db_get}

  -- `nonce[i].IsUint64()` for each `i`.
  pub all_uint64 : List Value → Bool
  all_uint64 [] = true
  all_uint64 (v ∷ vs) = elim (as_uint64 v) [ none ↦ false | some n ↦ all_uint64 vs ]

  pub read_tx_ids : List Value → Run (List Str)
  read_tx_ids [] = ok []
  read_tx_ids (v ∷ vs) = do
    s ← require (as_string v)
    guard (is_base64_char s)
    guard (length s == 44)
    rest ← read_tx_ids vs
    ok (s ∷ rest)

  pub read_header : Value → Run Header
  unfolding all_uint64 read_tx_ids
  read_header doc = do
    sign ← string_field x "sign" doc
    hash ← base64_field x "hash" 44 44 doc
    guard (is_base64_char sign)
    d ← require (member "data" doc)
    guard (is_object d)
    id ← uint64_field x "id" d
    guard (not (id == 0))
    utc ← uint64_field x "utc" d
    version ← uint_field x "version" d
    guard (version_compatible version askcoin_version)
    zero_bits ← uint_field x "zero_bits" d
    guard (zero_bits_in_range zero_bits)
    pre_hash ← base64_field x "pre_hash" 44 44 d
    miner_pubkey ← base64_field x "miner" 88 88 d
    n ← require (member "nonce" d)
    nonce ← require (as_array n)
    guard (length nonce == 4)
    guard (all_uint64 nonce)
    t ← require (member "tx_ids" d)
    ids ← require (as_array t)
    guard (leb (length ids) 2000)
    tx_ids ← read_tx_ids ids
    ok (record {
      hash = hash;
      sign = sign;
      text = write d;
      id = id;
      utc = utc;
      version = version;
      zero_bits = zero_bits;
      pre_hash = pre_hash;
      miner_pubkey = miner_pubkey;
      tx_ids = tx_ids;
    })

  -- Is the hash among the children of the stored parent?
  pub is_child : Str → List Value → Bool
  is_child hash [] = false
  is_child hash (v ∷ vs) = elim (as_string v) [
    | none ↦ is_child hash vs
    | some s ↦ if str_eq hash s then true else is_child hash vs
  ]

  -- The parent is stored, under "0" for the genesis block, and neither knows the block yet.
  pub check_stored : Header → Run (Unit {0})
  unfolding is_child
  check_stored h = do
    stored ← db_get (if h.id == 1 then codes "0" else h.pre_hash)
    text ← require stored
    doc ← require (parse text)
    guard (is_object doc)
    c ← require (member "children" doc)
    children ← require (as_array c)
    guard (not (is_child h.hash children))
    own ← db_get h.hash
    elim own [ none ↦ ok tt | some t ↦ exit ]

  -- `mined_new_block` at the time `now`.
  pub mined_new_block : ℕ → Value → Chain → Run Chain
  unfolding read_header follows make_block set_head check_stored
  mined_new_block now doc c = do
    h ← read_header doc
    guard (not (has_key h.hash c.blocks))
    guard (verify_sign x h.miner_pubkey h.hash h.sign)
    guard (verify_hash x h.hash h.text h.zero_bits)
    miner ← require (get_account h.miner_pubkey c.ledger)
    guard (follows now c.cur_block h)
    t ← require (member "tx" doc)
    nodes ← require (as_array t)
    let b = make_block c.cur_block h
    r ← apply_block x (archive_of c) (info_of h) h.miner_pubkey miner h.tx_ids nodes c.ledger
    check_stored h
    ok (set_head (record b { miner_reward = r.1 }) r.0 c)
