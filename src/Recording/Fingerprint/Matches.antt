-- ===== src/Recording/Fingerprint/Matches.antt =====
-- What a match of fingerprints means.
use percona_load_generator_m.Prelude.{
  ◌≡◌, refl, sym, ap, ◌∙◌, String, Bool, true, false, ◌&&◌, Option, none, some, List, [], ◌∷◌, ◌++◌,
  arith, All, Option-cases, Bool-cases, inl, inr, if◌then◌else◌,
}
use percona_load_generator_m.Prelude.Keys.{◌=?◌, Eq, lookup, int_eq, string_eq}
use percona_load_generator_m.Recording.Fingerprint.{
  CollectionFingerprint, DataFingerprint, Difference, not_checked, count_differs, indexes_differ,
  index_map, by_ns, missing_from, changed_in, insert_name, sort_names, index_difference, is_empty,
  no_difference, compare_hashes, compare_collection, compare_collections, collections_of,
  none_found, compare_data_fingerprints, fingerprint_dbhash,
}

-- The same names with the same specs.
abbrev pub SameIndexes : CollectionFingerprint → CollectionFingerprint → Type 0
SameIndexes w g =
    (n : String) → lookup n (index_map w.indexes []) ≡ lookup n (index_map g.indexes [])

pub record Agrees (mode : String) (w g : CollectionFingerprint) : Type 0 where
  pub count : w.count ≡ g.count
  pub indexes : SameIndexes w g
  pub hash :
      mode ≡ fingerprint_dbhash → w.dbhash_error ≡ "" → g.dbhash_error ≡ "" → w.dbhash ≡ g.dbhash

insert_name_lem : (n : String) (ns : List String) → is_empty (insert_name n ns) ≡ false
insert_name_lem n [] = refl
insert_name_lem n (m ∷ ms) = ground arith

sort_names_lem : (ns : List String) → is_empty (sort_names ns) ≡ true → ns ≡ []
unfolding sort_names
sort_names_lem [] h = refl
sort_names_lem (n ∷ ns) h = let e = insert_name_lem n (sort_names ns) in cc

missing_from_lem :
    (w g : List (String × String)) (n : String)
    → missing_from w g ≡ []
    → lookup n g ≡ none
    → lookup n w ≡ none
unfolding missing_from lookup
missing_from_lem [] g n h k = refl
missing_from_lem ((m, s) ∷ w) g n h k = elim (Option-cases (lookup m g)) [
  | inl e ↦ let h' : m ∷ missing_from w g ≡ [] = rw (e, missing_from) at h in cc
  | inr (t, e) ↦
      let h' : missing_from w g ≡ [] = rw (e, missing_from) at h in
      elim (Bool-cases (m =? n)) [
        | inl b ↦ let q : m ≡ n = (string_eq.beq_iff m n).0 b in cc
        | inr b ↦ rw b (missing_from_lem w g n h' k)
      ]
]

changed_head :
    (m u : String) (w g : List (String × String)) (s t : String)
    → changed_in ((m, u) ∷ w) g ≡ []
    → some u ≡ some s
    → lookup m g ≡ some t
    → s ≡ t
unfolding changed_in
changed_head m u w g s t h p q = elim (Bool-cases (t =? u)) [
  | inl b ↦ let e : t ≡ u = (string_eq.beq_iff t u).0 b in cc
  | inr b ↦ let h' : m ∷ changed_in w g ≡ [] = rw (q, b, changed_in) at h in cc
]

changed_tail :
    (m u : String) (w g : List (String × String))
    → changed_in ((m, u) ∷ w) g ≡ []
    → changed_in w g ≡ []
unfolding changed_in
changed_tail m u w g h = ground arith

changed_in_lem :
    (w g : List (String × String)) (n s t : String)
    → changed_in w g ≡ []
    → lookup n w ≡ some s
    → lookup n g ≡ some t
    → s ≡ t
unfolding changed_in lookup
changed_in_lem [] g n s t h p q = cc
changed_in_lem ((m, u) ∷ w) g n s t h p q =
    let rest = changed_in_lem w g n s t in
    elim (Bool-cases (m =? n)) [
      | inl b ↦
          let same : m ≡ n = (string_eq.beq_iff m n).0 b in
          let p' : some u ≡ some s = rw b at p in
          let q' : lookup m g ≡ some t = rw same q in changed_head m u w g s t h p' q'
      | inr b ↦ let p' : lookup n w ≡ some s = rw b at p in rest (changed_tail m u w g h) p' q
    ]

all_empty :
    (xs ys zs : List String)
    → (is_empty xs && is_empty ys && is_empty zs) ≡ true
    → (is_empty xs ≡ true) × (is_empty ys ≡ true) × (is_empty zs ≡ true)
all_empty xs ys zs h = ground arith

none_found-append :
    (xs ys : List Difference)
    → none_found (xs ++ ys) ≡ true
    → (none_found xs ≡ true) × (none_found ys ≡ true)
none_found-append [] ys h = (refl, h)
none_found-append (x ∷ xs) ys h = cc

no_difference_lem :
    (w g : CollectionFingerprint)
    → no_difference (index_difference w.indexes g.indexes) ≡ true
    → SameIndexes w g
unfolding index_difference
no_difference_lem w g h n =
    let a = index_map w.indexes [] in
    let b = index_map g.indexes [] in
    let (m, e, d) =
      all_empty (sort_names (missing_from a b)) (sort_names (missing_from b a))
        (sort_names (changed_in a b)) h in
    let m' = sort_names_lem (missing_from a b) m in
    let e' = sort_names_lem (missing_from b a) e in
    let d' = sort_names_lem (changed_in a b) d in
    elim (Option-cases (lookup n a)) [
      | inl p ↦ p ∙ sym (missing_from_lem b a n e' p)
      | inr (s, p) ↦ elim (Option-cases (lookup n b)) [
        | inl q ↦ let z : lookup n a ≡ none = missing_from_lem a b n m' q in cc
        | inr (t, q) ↦ p ∙ (ap some (changed_in_lem a b n s t d' p q) ∙ sym q)
      ]
    ]

none_if : (b : Bool) (d : Difference) → none_found (if b then [] else d ∷ []) ≡ true → b ≡ true
none_if true d h = refl
none_if false d h = cc

compare_hashes_lem :
    (mode : String) (w g : CollectionFingerprint)
    → none_found (compare_hashes mode w g).0 ≡ true
    → mode ≡ fingerprint_dbhash
    → w.dbhash_error ≡ ""
    → g.dbhash_error ≡ ""
    → w.dbhash ≡ g.dbhash
unfolding compare_hashes
compare_hashes_lem mode w g h m e f =
    let s : Eq String = string_eq in
    let m' = (s.beq_iff mode fingerprint_dbhash).1 m in
    let e' = (s.beq_iff w.dbhash_error "").1 e in
    let f' = (s.beq_iff g.dbhash_error "").1 f in ground (arith, s.beq_iff w.dbhash g.dbhash)

compare_collection_lem :
    (mode : String) (w g : CollectionFingerprint)
    → none_found (compare_collection mode w g).0 ≡ true
    → Agrees mode w g
unfolding compare_collection
compare_collection_lem mode w g h =
    let d = index_difference w.indexes g.indexes in
    let (a, rest) =
      none_found-append (if w.count =? g.count then [] else count_differs w.ns w.count g.count ∷ [])
        ((if no_difference d then [] else indexes_differ w.ns d ∷ [])
          ++ (compare_hashes mode w g).0)
        h in
    let (b, e) =
      none_found-append (if no_difference d then [] else indexes_differ w.ns d ∷ [])
        (compare_hashes mode w g).0 rest in
    record {
      count =
          (int_eq.beq_iff w.count g.count).0
            (none_if (w.count =? g.count) (count_differs w.ns w.count g.count) a);
      indexes = no_difference_lem w g (none_if (no_difference d) (indexes_differ w.ns d) b);
      hash = compare_hashes_lem mode w g e;
    }

compare_collections_lem :
    (mode : String) (got : List (String × CollectionFingerprint)) (ws : List CollectionFingerprint)
    → none_found (compare_collections mode got ws).0 ≡ true
    → All (λ w. (g : CollectionFingerprint) × (lookup w.ns got ≡ some g) × Agrees mode w g) ws
unfolding compare_collections
compare_collections_lem mode got [] h = tt
compare_collections_lem mode got (w ∷ ws) h = elim (Option-cases (lookup w.ns got)) [
  | inl e ↦
      let h' : none_found (not_checked w.ns ∷ (compare_collections mode got ws).0) ≡ true =
        rw (e, compare_collections) at h in
      cc
  | inr (g, e) ↦
      let h' : none_found ((compare_collection mode w g).0 ++ (compare_collections mode got ws).0)
          ≡ true =
        rw (e, compare_collections) at h in
      let (a, b) =
        none_found-append (compare_collection mode w g).0 (compare_collections mode got ws).0 h' in
      ((g, e, compare_collection_lem mode w g a), compare_collections_lem mode got ws b)
]

-- When `CompareDataFingerprints` reports a match, every recorded collection has one of its namespace
-- among the target's, with the same count, the same specs under the same index names, and, in dbhash
-- mode where both hashes could be computed, the same hash.
pub compare_data_fingerprints_lem :
    (want : DataFingerprint) (got : Option DataFingerprint)
    → (compare_data_fingerprints want got).is_match ≡ true
    → All
        (λ w.
          (g : CollectionFingerprint) × (lookup w.ns (by_ns (collections_of got) []) ≡ some g)
          × Agrees want.mode w g)
        want.collections
unfolding compare_data_fingerprints
compare_data_fingerprints_lem want got h =
    compare_collections_lem want.mode (by_ns (collections_of got) []) want.collections h
