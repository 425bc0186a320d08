-- ===== src/Compare/Outcomes.antt =====
-- compare.go: `result`, an outcome without pointers, and hex.Decode and hex.EncodeToString.
use Prim.Native.Char.{Char, code}
use Prim.Native.String.{◌++◌ as text_append}
use percona_load_generator_m.Prelude.{
  ℕ, zero, suc, ◌+◌, ◌-◌, ◌*◌, ◌/◌, ◌%◌, String, Bool, true, false, not, ◌&&◌, Option, none, some,
  List, [], ◌∷◌, leb, ◌==◌, length, if◌then◌else◌,
}
use percona_load_generator_m.Prelude.Int.{ℤ, pos, negsuc, int32, eqb_ℤ}
use percona_load_generator_m.Prelude.Keys.{◌=?◌, int_eq, string_eq}
use percona_load_generator_m.Recording.Format.{Outcome}
pub mod Roundtrip

abbrev pub char_at : String → ℕ → Option Char
char_at String.[] n = none
char_at (String.◌∷◌ c s) zero = some c
char_at (String.◌∷◌ c s) (suc n) = char_at s n

abbrev pub string_length : String → ℕ
string_length String.[] = 0
string_length (String.◌∷◌ c s) = suc (string_length s)

-- The value of a hex digit.
unfoldable pub nibble : Char → Option ℕ
nibble c =
    let n = code c in
    if leb b'0' n && leb n b'9'
    then some (n - b'0')
    else if leb b'a' n && leb n b'f'
    then some (n - b'a' + 10)
    else if leb b'A' n && leb n b'F'
    then some (n - b'A' + 10)
    else none

abbrev pub byte_of : Option ℕ → Option ℕ → Option (List ℕ) → Option (List ℕ)
byte_of (some h) (some l) (some rest) = some ((h * 16 + l) ∷ rest)
byte_of none _ _ = none
byte_of (some h) none _ = none
byte_of (some h) (some l) none = none

-- `hex.Decode`
unfoldable pub decode_hex : String → Option (List ℕ)
unfolding nibble
decode_hex String.[] = some []
decode_hex (String.◌∷◌ c String.[]) = none
decode_hex (String.◌∷◌ c (String.◌∷◌ d s)) =
    let rest = decode_hex s in byte_of (nibble c) (nibble d) rest

abbrev pub digit : ℕ → String → String
digit n s = elim (char_at "0123456789abcdef" n) [ none ↦ s | some c ↦ String.◌∷◌ c s ]

-- `hex.EncodeToString`
unfoldable pub encode_hex : List ℕ → String
encode_hex [] = ""
encode_hex (b ∷ bs) = digit (b / 16) (digit (b % 16) (encode_hex bs))

pub data SumState : Type 0 where
  sum_none sum_ok sum_unavailable : SumState

abbrev pub is_sum_ok : SumState → Bool
is_sum_ok sum_ok = true
is_sum_ok _ = false

-- A count with its bit of `has`.
pub record Count : Type 0 where
  pub has : Bool
  pub count : ℤ

pub record Counts : Type 0 where
  pub returned : Count
  pub inserted : Count
  pub matched : Count
  pub modified : Count
  pub upserted : Count
  pub deleted : Count

-- The name of a shape.
pub record ShapeName : Type 0 where
  pub ns : String
  pub op : String
  pub key : String

pub record OpResult : Type 0 where
  pub shape : ShapeName
  pub worker : ℤ
  pub iteration : ℤ
  pub worker_seq : ℕ
  pub seq : ℕ
  pub latency_us : ℤ
  pub err_code : ℤ
  pub err_name : String
  pub is_ok : Bool
  pub counts : Counts
  pub sum_state : SumState
  pub sum : List ℕ
  pub txn : String

abbrev pub count_of : Option ℤ → Count
count_of none = record { has = false; count = pos 0 }
count_of (some n) = record { has = true; count = n }

abbrev pub pointer_of : Count → Option ℤ
pointer_of c = if c.has then some c.count else none

-- The checksum's state and bytes; the bytes of an unavailable one are not read.
unfoldable pub sum_of : String → SumState × List ℕ
unfolding decode_hex
sum_of s =
    if s =? ""
    then (sum_none, [])
    else if string_length s == 64
    then elim (decode_hex s) [ none ↦ (sum_unavailable, []) | some bs ↦ (sum_ok, bs) ]
    else (sum_unavailable, [])

-- `toResult`, with the operation's place and shape.
unfoldable pub to_result : Outcome → ShapeName → ℤ → ℤ → ℕ → ℕ → OpResult
unfolding sum_of
to_result o shape worker iteration worker_seq seq = record {
  shape = shape;
  worker = worker;
  iteration = iteration;
  worker_seq = worker_seq;
  seq = seq;
  latency_us = o.latency_us;
  err_code = int32 o.error_code;
  err_name = o.error_name;
  is_ok = o.is_ok;
  counts = record {
    returned = count_of o.returned;
    inserted = count_of o.inserted;
    matched = count_of o.matched;
    modified = count_of o.modified;
    upserted = count_of o.upserted;
    deleted = count_of o.deleted;
  };
  sum_state = (sum_of o.checksum).0;
  sum = (sum_of o.checksum).1;
  txn = o.transaction;
}

abbrev pub checksum_of : SumState → List ℕ → String
checksum_of sum_none bs = ""
checksum_of sum_ok bs = encode_hex bs
checksum_of sum_unavailable bs = "unavailable"

-- `result.outcome`
unfoldable pub outcome : OpResult → Outcome
unfolding encode_hex
outcome r = record {
  latency_us = r.latency_us;
  is_ok = r.is_ok;
  error_code = r.err_code;
  error_name = r.err_name;
  returned = pointer_of r.counts.returned;
  checksum = checksum_of r.sum_state r.sum;
  inserted = pointer_of r.counts.inserted;
  matched = pointer_of r.counts.matched;
  modified = pointer_of r.counts.modified;
  upserted = pointer_of r.counts.upserted;
  deleted = pointer_of r.counts.deleted;
  transaction = r.txn;
}

-- The decimal digits of `n`, in front of a text; ten are enough for an `int32`.
unfoldable pub digits : ℕ → ℕ → String → String
digits zero n s = s
digits (suc fuel) n s =
    let more = digits fuel (n / 10) (digit (n % 10) s) in if leb n 9 then digit n s else more

-- `fmt.Sprint` of an `int32`.
unfoldable pub decimal : ℤ → String
decimal (pos n) = digits 10 n ""
decimal (negsuc n) = text_append "-" (digits 10 (n + 1) "")

-- `errorLabel`
unfoldable pub error_label : OpResult → String
error_label r =
    if not (r.err_code =? pos 0) && not (r.err_name =? "")
    then text_append (decimal r.err_code) (text_append " " r.err_name)
    else if not (r.err_code =? pos 0)
    then decimal r.err_code
    else if not (r.err_name =? "")
    then r.err_name
    else "unknown_error"
