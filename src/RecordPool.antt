-- ===== src/RecordPool.antt =====
-- internal/mongo/recordpool.go: the documents known to exist, per namespace. A document is its
-- fields; a nil map is `none`. Floats, object ids, other values and the "%v" form of a value are
-- taken from outside. An access-pattern selector is its `Index`, and a random source its `Intn`.
use percona_load_generator_m.Prelude.{
  ℕ, ◌-◌, String, Bool, true, false, not, ◌&&◌, Option, none, some, List, [], ◌∷◌, ◌++◌, ltb,
  length, drop, get_elem?, if◌then◌else◌,
}
use percona_load_generator_m.Prelude.Int.{ℤ, pos, pos_part, ltb_ℤ, leb_ℤ}
use percona_load_generator_m.Prelude.Keys.{◌=?◌, lookup, insert, nat_eq, int_eq, string_eq}
use Prim.Native.Char.{code}
pub mod Newest
mod Examples

-- What a value is made of, and the functions on it that are not the source's.
pub record Values : Type 1 where
  pub Float : Type 0
  pub ObjectId : Type 0
  pub Other : Type 0
  pub to_float : ℤ → Float
  pub float_eq : Float → Float → Bool
  pub id_eq : ObjectId → ObjectId → Bool
  pub hex : ObjectId → String

module _ (v : Values) where
  open v use {Float, ObjectId, Other}

  pub data Value : Type 0 where
    int int32 int64 : ℤ → Value
    float64 : Float → Value
    str : String → Value
    bool : Bool → Value
    object_id : ObjectId → Value
    other : Other → Value

  abbrev pub Doc : Type 0
  Doc = List (String × Value)

  abbrev pub int_of : Value → Option ℤ
  int_of (int n) = some n
  int_of (int32 n) = some n
  int_of (int64 n) = some n
  int_of _ = none

  abbrev pub bool_eq : Bool → Bool → Bool
  bool_eq true b = b
  bool_eq false b = not b

  -- An integer of any width against a value; `printed` compares the "%v" forms.
  unfoldable pub int_equal : ℤ → Value → Bool → Bool
  int_equal n (int m) printed = n =? m
  int_equal n (int32 m) printed = n =? m
  int_equal n (int64 m) printed = n =? m
  int_equal n (float64 x) printed = v.float_eq (v.to_float n) x
  int_equal n (str s) printed = printed
  int_equal n (bool b) printed = printed
  int_equal n (object_id i) printed = printed
  int_equal n (other o) printed = printed

  unfoldable pub float_equal : Float → Value → Bool → Bool
  float_equal x (int m) printed = v.float_eq x (v.to_float m)
  float_equal x (int32 m) printed = v.float_eq x (v.to_float m)
  float_equal x (int64 m) printed = v.float_eq x (v.to_float m)
  float_equal x (float64 y) printed = v.float_eq x y
  float_equal x (str s) printed = printed
  float_equal x (bool b) printed = printed
  float_equal x (object_id i) printed = printed
  float_equal x (other o) printed = printed

  abbrev pub str_equal : String → Value → Bool → Bool
  str_equal s (str t) printed = s =? t
  str_equal s _ printed = printed

  abbrev pub bool_equal : Bool → Value → Bool → Bool
  bool_equal a (bool b) printed = bool_eq a b
  bool_equal a _ printed = printed

  abbrev pub id_equal : ObjectId → Value → Bool → Bool
  id_equal i (object_id j) printed = v.id_eq i j
  id_equal i (str s) printed = v.hex i =? s
  id_equal i _ printed = printed

  unfoldable pub values_equal : (Value → String) → Value → Value → Bool
  unfolding int_equal float_equal
  values_equal sprint a b =
      let printed = sprint a =? sprint b in
      elim a [
        | int n ↦ int_equal n b printed
        | int32 n ↦ int_equal n b printed
        | int64 n ↦ int_equal n b printed
        | float64 x ↦ float_equal x b printed
        | str s ↦ str_equal s b printed
        | bool t ↦ bool_equal t b printed
        | object_id i ↦ id_equal i b printed
        | other o ↦ printed
      ]

  -- `strings.HasPrefix(k, "$")`
  abbrev pub is_operator : String → Bool
  is_operator String.[] = false
  is_operator (String.◌∷◌ c s) = code c =? b'$'

  unfoldable pub record_matches_filter : (Value → String) → Doc → Doc → Bool
  unfolding values_equal
  record_matches_filter sprint doc [] = true
  record_matches_filter sprint doc ((k, expected) ∷ filter) =
      let rest = record_matches_filter sprint doc filter in
      if is_operator k then rest else elim (lookup k doc) [
        | none ↦ false
        | some actual ↦ values_equal sprint actual expected && rest
      ]

  pub record RecordPool : Type 0 where
    pub max_size : ℕ
    pub pools : List (String × List Doc)

  unfoldable pub new_record_pool : ℤ → RecordPool
  new_record_pool max_size = record {
    max_size = if leb_ℤ max_size (pos 0) then 10000 else pos_part max_size;
    pools = [];
  }

  unfoldable pub records_of : String → RecordPool → List Doc
  records_of ns p = elim (lookup ns p.pools) [ none ↦ [] | some docs ↦ docs ]

  unfoldable pub add : String → Option Doc → RecordPool → RecordPool
  unfolding records_of
  add ns none p = p
  add ns (some doc) p =
      if ns =? ""
      then p
      else (let docs = records_of ns p ++ doc ∷ [] in
          let kept =
            if ltb p.max_size (length docs) then drop (length docs - p.max_size) docs else docs in
          record p { pools = insert ns kept p.pools })

  -- The index that `Random` takes among `n` documents.
  unfoldable pub choose : Option (ℕ → ℤ) → (ℕ → ℕ) → ℕ → ℕ
  choose none intn n = intn n
  choose (some index) intn n =
      let i = index n in
      if ltb_ℤ i (pos 0) then intn n else if leb_ℤ (pos n) i then intn n else pos_part i

  unfoldable pub random : String → Option (ℕ → ℤ) → (ℕ → ℕ) → RecordPool → Option Doc
  unfolding records_of choose
  random ns selector intn p =
      if ns =? ""
      then none
      else (let docs = records_of ns p in
          if length docs =? 0 then none else get_elem? docs (choose selector intn (length docs)))

  unfoldable pub len : String → RecordPool → ℕ
  unfolding records_of
  len ns p = length (records_of ns p)

  unfoldable pub remaining : (Value → String) → Doc → List Doc → List Doc
  unfolding record_matches_filter
  remaining sprint filter [] = []
  remaining sprint filter (doc ∷ docs) =
      let rest = remaining sprint filter docs in
      if record_matches_filter sprint doc filter then rest else doc ∷ rest

  unfoldable pub remove_matching : (Value → String) → String → Doc → RecordPool → RecordPool
  unfolding records_of remaining
  remove_matching sprint ns filter p =
      if ns =? ""
      then p
      else if length filter =? 0
      then p
      else (let docs = records_of ns p in
          if length docs =? 0
          then p
          else record p { pools = insert ns (remaining sprint filter docs) p.pools })
