-- ===== src/Recording/Fingerprint/Examples.antt =====
-- Two fingerprints of the same data.
use percona_load_generator_m.Prelude.{◌≡◌, refl, some, List, [], ◌∷◌, All}
use percona_load_generator_m.Prelude.Int.{pos}
use percona_load_generator_m.Prelude.Keys.{lookup, insert, string_eq}
use percona_load_generator_m.Recording.Fingerprint.{
  IndexFingerprint, CollectionFingerprint, DataFingerprint, by_ns, compare_data_fingerprints,
  collections_of,
}
use percona_load_generator_m.Recording.Fingerprint.Matches.{Agrees, compare_data_fingerprints_lem}

abbrev by_id : IndexFingerprint
by_id = record { name = "_id_"; spec = "{_id: 1}" }

abbrev by_user : IndexFingerprint
by_user = record { name = "user_1"; spec = "{user: 1}" }

abbrev orders : List IndexFingerprint → CollectionFingerprint
orders indexes = record {
  ns = "shop.orders";
  count = pos 3;
  indexes = indexes;
  dbhash = "aa";
  dbhash_error = "";
}

abbrev recorded : DataFingerprint
recorded = record { mode = "dbhash"; collections = orders (by_id ∷ by_user ∷ []) ∷ [] }

abbrev found : DataFingerprint
found = record { mode = "dbhash"; collections = orders (by_user ∷ by_id ∷ []) ∷ [] }

compare_data_fingerprints_lem_example :
    All
      (λ w.
        (g : CollectionFingerprint) × (lookup w.ns (by_ns (collections_of (some found)) [])
          ≡ some g)
        × Agrees recorded.mode w g)
      recorded.collections
unfolding compare_data_fingerprints lookup insert
compare_data_fingerprints_lem_example = compare_data_fingerprints_lem recorded (some found) refl
