-- ===== src/Sample.antt =====
-- A small document type and stand-ins for the external functions, for concrete runs.
use Prim.Native.String.{String}
use text.Mathlib.Text.{◌==◌ as name_eq}
use askcoin_core.Base.{ℕ, Bool, true, false, Option, none, some, List, [], ◌∷◌, ok, if◌then◌else◌}
use askcoin_core.Base.Text.{Str, codes, str_eq}
use askcoin_core.External.{External}

mutual
  pub data Doc : Type 0 where
    num : ℕ → Doc
    str : Str → Doc
    arr : Docs → Doc
    obj : Fields → Doc

  pub data Docs : Type 0 where
    nil : Docs
    cons : Doc → Docs → Docs

  pub data Fields : Type 0 where
    end : Fields
    field : String → Doc → Fields → Fields

abbrev pub find_field : String → Fields → Option Doc
find_field name end = none
find_field name (field n d fs) = if name_eq n name then some d else find_field name fs

abbrev pub doc_member : String → Doc → Option Doc
doc_member name (obj fs) = find_field name fs
doc_member name _ = none

abbrev pub doc_is_object : Doc → Bool
doc_is_object (obj fs) = true
doc_is_object _ = false

abbrev pub doc_text : Doc → Option Str
doc_text (str s) = some s
doc_text _ = none

abbrev pub doc_num : Doc → Option ℕ
doc_num (num n) = some n
doc_num _ = none

abbrev pub docs_list : Docs → List Doc
docs_list nil = []
docs_list (cons d ds) = d ∷ docs_list ds

abbrev pub doc_array : Doc → Option (List Doc)
doc_array (arr ds) = some (docs_list ds)
doc_array _ = none

-- Every signature passes and every hash is empty: only the ledger's own rules are exercised.
abbrev pub lenient : External
lenient = record {
  Value = Doc;
  member = doc_member;
  is_object = doc_is_object;
  as_string = doc_text;
  as_uint = doc_num;
  as_uint64 = doc_num;
  as_array = doc_array;
  write = λ d. [];
  parse = λ s. none;
  base64_decode = λ s n. [];
  base64_encode = λ bs. [];
  coin_hash = λ s. [];
  coin_hash_b64 = λ s. [];
  ecdsa_verify = λ k h s. true;
  asic_data = λ i. 0;
  is_space = λ c. false;
  db_get = λ k. ok none;
}

abbrev pub zeros : ℕ → List ℕ
zeros Prim.Native.Nat.zero = []
zeros (Prim.Native.Nat.suc n) = 0 ∷ zeros n

-- The parent of every block is stored with no children, and every hash is `hash`.
abbrev pub accepting : Str → Str → External
accepting hash parent = record lenient {
  parse = λ s. some (obj (field "children" (arr nil) end));
  base64_decode = λ s n. zeros n;
  coin_hash_b64 = λ s. hash;
  db_get = λ k. ok (if str_eq k parent then some (codes "{}") else none);
}

abbrev pub repeat : ℕ → ℕ → Str
repeat Prim.Native.Nat.zero c = []
repeat (Prim.Native.Nat.suc n) c = c ∷ repeat n c
