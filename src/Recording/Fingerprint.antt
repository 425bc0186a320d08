-- ===== src/Recording/Fingerprint.antt =====
-- fingerprint.go: a target's starting data against what was recorded. Messages are named by what they
-- say.
use Prim.Native.String.{compare}
use Prim.Native.Nat.{Ordering}
use percona_load_generator_m.Prelude.{
  String, Bool, true, false, not, ◌&&◌, Option, none, some, List, [], ◌∷◌, ◌++◌, if◌then◌else◌,
}
use percona_load_generator_m.Prelude.Int.{ℤ}
use percona_load_generator_m.Prelude.Keys.{◌=?◌, lookup, insert, int_eq, string_eq}
pub mod Matches
mod Examples

abbrev pub fingerprint_dbhash : String
fingerprint_dbhash = "dbhash"

pub record IndexFingerprint : Type 0 where
  pub name : String
  pub spec : String

pub record CollectionFingerprint : Type 0 where
  pub ns : String
  pub count : ℤ
  pub indexes : List IndexFingerprint
  pub dbhash : String
  pub dbhash_error : String

pub record DataFingerprint : Type 0 where
  pub mode : String
  pub collections : List CollectionFingerprint

pub record IndexDifference : Type 0 where
  pub missing : List String
  pub extra : List String
  pub changed : List String

pub data Difference : Type 0 where
  not_checked : String → Difference
  count_differs : String → ℤ → ℤ → Difference
  indexes_differ : String → IndexDifference → Difference
  dbhash_differs : String → Difference

pub data Note : Type 0 where
  no_hash_recorded no_hash_on_target : String → String → Note

pub record FingerprintCheck : Type 0 where
  pub mode : String
  pub is_match : Bool
  pub differences : List Difference
  pub notes : List Note

-- The map of the index specs by name; a later index of a name replaces an earlier one.
unfoldable pub index_map : List IndexFingerprint → List (String × String) → List (String × String)
index_map [] m = m
index_map (i ∷ is) m = index_map is (insert i.name i.spec m)

unfoldable pub by_ns :
    List CollectionFingerprint
    → List (String × CollectionFingerprint)
    → List (String × CollectionFingerprint)
by_ns [] m = m
by_ns (c ∷ cs) m = by_ns cs (insert c.ns c m)

-- The names of the first map that are not in the second.
unfoldable pub missing_from : List (String × String) → List (String × String) → List String
missing_from [] g = []
missing_from ((n, s) ∷ w) g =
    let rest = missing_from w g in elim (lookup n g) [ none ↦ n ∷ rest | some t ↦ rest ]

-- The names of both with another spec.
unfoldable pub changed_in : List (String × String) → List (String × String) → List String
changed_in [] g = []
changed_in ((n, s) ∷ w) g =
    let rest = changed_in w g in
    elim (lookup n g) [ none ↦ rest | some t ↦ if t =? s then rest else n ∷ rest ]

abbrev pub insert_name : String → List String → List String
insert_name n [] = n ∷ []
insert_name n (m ∷ ms) =
    let rest = insert_name n ms in elim (compare n m) [ Ordering.gt ↦ m ∷ rest | _ ↦ n ∷ m ∷ ms ]

-- `sort.Strings`
unfoldable pub sort_names : List String → List String
sort_names [] = []
sort_names (n ∷ ns) = insert_name n (sort_names ns)

unfoldable pub index_difference : List IndexFingerprint → List IndexFingerprint → IndexDifference
unfolding index_map missing_from changed_in sort_names
index_difference want got =
    let w = index_map want [] in
    let g = index_map got [] in
    record {
      missing = sort_names (missing_from w g);
      extra = sort_names (missing_from g w);
      changed = sort_names (changed_in w g);
    }

abbrev pub is_empty : List String → Bool
is_empty [] = true
is_empty (n ∷ ns) = false

-- `indexDifference(…) == ""`
abbrev pub no_difference : IndexDifference → Bool
no_difference d = is_empty d.missing && is_empty d.extra && is_empty d.changed

unfoldable pub compare_hashes :
    String → CollectionFingerprint → CollectionFingerprint → List Difference × List Note
compare_hashes mode w g =
    if not (mode =? fingerprint_dbhash)
    then ([], [])
    else if not (w.dbhash_error =? "")
    then ([], no_hash_recorded w.ns w.dbhash_error ∷ [])
    else if not (g.dbhash_error =? "")
    then ([], no_hash_on_target w.ns g.dbhash_error ∷ [])
    else if w.dbhash =? g.dbhash
    then ([], [])
    else (dbhash_differs w.ns ∷ [], [])

unfoldable pub compare_collection :
    String → CollectionFingerprint → CollectionFingerprint → List Difference × List Note
unfolding compare_hashes index_difference
compare_collection mode w g =
    let counts = if w.count =? g.count then [] else count_differs w.ns w.count g.count ∷ [] in
    let d = index_difference w.indexes g.indexes in
    let indexes = if no_difference d then [] else indexes_differ w.ns d ∷ [] in
    let hashes = compare_hashes mode w g in (counts ++ (indexes ++ hashes.0), hashes.1)

-- The loop over the recorded collections.
unfoldable pub compare_collections :
    String
    → List (String × CollectionFingerprint)
    → List CollectionFingerprint
    → List Difference × List Note
unfolding compare_collection
compare_collections mode got [] = ([], [])
compare_collections mode got (w ∷ ws) =
    let rest = compare_collections mode got ws in
    elim (lookup w.ns got) [
      | none ↦ (not_checked w.ns ∷ rest.0, rest.1)
      | some g ↦ let r = compare_collection mode w g in (r.0 ++ rest.0, r.1 ++ rest.1)
    ]

abbrev pub collections_of : Option DataFingerprint → List CollectionFingerprint
collections_of none = []
collections_of (some f) = f.collections

abbrev pub none_found : List Difference → Bool
none_found [] = true
none_found (d ∷ ds) = false

unfoldable pub compare_data_fingerprints :
    DataFingerprint → Option DataFingerprint → FingerprintCheck
unfolding by_ns compare_collections
compare_data_fingerprints want got =
    let r = compare_collections want.mode (by_ns (collections_of got) []) want.collections in
    record { mode = want.mode; is_match = none_found r.0; differences = r.0; notes = r.1 }
