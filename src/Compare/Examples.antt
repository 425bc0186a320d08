-- ===== src/Compare/Examples.antt =====
-- Two files of a few operations.
use percona_load_generator_m.Prelude.{
  ℕ, ◌+◌, String, refl, true, false, none, some, List, [], ◌∷◌, ◌⊎◌, inl, inr, arith, ◌≡◌, length,
  ◌≤◌, take,
}
use percona_load_generator_m.Prelude.Int.{ℤ, pos, int32, ◌≤ℤ◌, ◌<ℤ◌}
use percona_load_generator_m.Prelude.Keys.{string_eq, nat_eq, int_eq, lookup, insert, contains}
use percona_load_generator_m.Recording.Format.{u64, Outcome}
use percona_load_generator_m.Compare.Outcomes.{
  ShapeName, encode_hex, sum_of, to_result, outcome, error_label, decimal, digits,
}
use percona_load_generator_m.Compare.Outcomes.Roundtrip.{outcome-to_result}
use percona_load_generator_m.Compare.Operations.{
  Line, key_eq, name_eq, key_less, line_key, line_result, acc_of, update, insert_diff, sort_diffs,
  trim_diffs, add_diff, push_diff, pair_counts, pair_checksums, pair_kinds, conclude, pair,
  bytes_eq,
}
use percona_load_generator_m.Compare.Feed.{
  delete, take_a, feed_a, move_a, match_b, extra_b, take_b, feed_b, all_a, all_b, rest_of_a,
  compare_ops,
}
use percona_load_generator_m.Compare.Books.{totals}
use percona_load_generator_m.Compare.Conserved.{compare_ops-totals}
use percona_load_generator_m.Compare.Itself.{compare_ops_itself}
use percona_load_generator_m.Compare.Overall.{overall}
use percona_load_generator_m.Compare.Overall.Sums.{overall-compare_ops}
use percona_load_generator_m.Compare.Prefix.{compare_ops-take}
use percona_load_generator_m.Compare.Identity.{
  SideFile, reported, Report, compare, compare_read, check_identity, report_of, identity,
}
use percona_load_generator_m.Compare.Refused.{compared, Verdict, compare-Verdict, compare-length}

abbrev bytes : List ℕ
bytes =
    222 ∷ 173 ∷ 190 ∷ 239 ∷ 0 ∷ 1 ∷ 2 ∷ 3 ∷ 4 ∷ 5 ∷ 6 ∷ 7 ∷ 8 ∷ 9 ∷ 10 ∷ 11 ∷ 12 ∷ 13 ∷ 14 ∷ 15 ∷ 16
    ∷ 17 ∷ 18 ∷ 19 ∷ 20 ∷ 21 ∷ 22 ∷ 23 ∷ 24 ∷ 25 ∷ 26 ∷ 255 ∷ []

abbrev found : ℤ → String → Outcome
found n sum = record {
  latency_us = pos 850;
  is_ok = true;
  error_code = pos 0;
  error_name = "";
  returned = some n;
  checksum = sum;
  inserted = none;
  matched = none;
  modified = none;
  upserted = none;
  deleted = none;
  transaction = "";
}

abbrev orders : ShapeName
orders = record { ns = "shop.orders"; op = "find"; key = "_id" }

outcome-to_result_example :
    outcome (to_result (found (pos 3) (encode_hex bytes)) orders (pos 1) (pos 1) 1 1)
    ≡ found (pos 3) (encode_hex bytes)
outcome-to_result_example =
    outcome-to_result (found (pos 3) (encode_hex bytes)) orders (pos 1) (pos 1) 1 1
      (inr (inr (bytes, refl, omega arith, refl))) (omega arith)

abbrev failed_with : ℤ → Outcome
failed_with n = record (found (pos 0) "") {
  is_ok = false;
  error_code = n;
  error_name = "DuplicateKey";
  returned = none;
}

abbrev line : ℕ → Outcome → Line
line n o = record {
  seq = n;
  iteration = pos 1;
  worker = pos 1;
  worker_seq = n;
  shape = orders;
  summary = "";
  outcome = some o;
}

abbrev file_a : List Line
file_a = line 1 (found (pos 1) "") ∷ line 2 (found (pos 5) "") ∷ line 3 (found (pos 1) "") ∷ []

abbrev file_b : List Line
file_b =
    line 2 (found (pos 4) "") ∷ line 3 (failed_with (pos 11000)) ∷ line 4 (found (pos 1) "") ∷ []

compare_ops-totals_example :
    let t = totals orders (compare_ops true false 20 file_a file_b) in
    (t.ops_a ≡ u64 (t.matched + t.missing_in_b)) × (t.ops_b ≡ u64 (t.matched + t.missing_in_a))
compare_ops-totals_example = compare_ops-totals true false 20 file_a file_b orders

compare_ops-take_example :
    let c = compare_ops true false 2 file_a file_b in
    let c' = compare_ops true false 20 file_a file_b in
    (c.shapes ≡ c'.shapes) × (c.diffs ≡ take 2 c'.diffs)
compare_ops-take_example = compare_ops-take true false 2 20 file_a file_b (omega arith)

compare_ops_itself_example : (compare_ops true true 20 file_b file_b).diffs ≡ []
compare_ops_itself_example = compare_ops_itself true true 20 file_b

overall-compare_ops_example :
    let t = overall (compare_ops true false 20 file_a file_b) in
    (t.ops_a ≡ u64 (t.matched + t.missing_in_b)) × (t.ops_b ≡ u64 (t.matched + t.missing_in_a))
overall-compare_ops_example = overall-compare_ops true false 20 file_a file_b

abbrev side : String → List Line → SideFile String
side hash ops = record {
  is_recording = false;
  seq_keyed = true;
  recording_header_hash = hash;
  traffic_fingerprint = "";
  each = inr ops;
}

compare-Verdict_example :
    Verdict false
      (side "aa" file_a)
      (side "bb" file_b)
      (compared (pos 5) (side "aa" file_a) (side "bb" file_b) file_a file_b)
      (compare (pos 5) false (side "aa" file_a) (side "bb" file_b))
compare-Verdict_example =
    compare-Verdict (pos 5) false (side "aa" file_a) (side "bb" file_b) file_a file_b refl refl

abbrev five : Report
five =
    report_of true (inl (identity (side "aa" file_a)))
      (compared (pos 5) (side "aa" file_a) (side "aa" file_b) file_a file_b)

five_reported : compare (pos 5) false (side "aa" file_a) (side "aa" file_b) ≡ reported five
unfolding compare compare_read check_identity
five_reported = refl

compare-length_example :
    (length five.comparer.diffs ≤ 1000)
    × ((pos (length five.comparer.diffs) ≤ℤ pos 5)
        ⊎ ((pos 5 <ℤ pos 1) × (length five.comparer.diffs ≤ 20)))
compare-length_example =
    compare-length (pos 5) false (side "aa" file_a) (side "aa" file_b) five five_reported

-- The listed operations have the keys 1 to 4: missing in B, another count, an error in B, missing in A.
run_lists : length (compare_ops true false 20 file_a file_b).diffs ≡ 4
unfolding compare_ops all_a all_b rest_of_a feed_a feed_b take_a take_b match_b extra_b move_a
    delete pair conclude pair_kinds pair_counts pair_checksums add_diff push_diff trim_diffs
    sort_diffs insert_diff key_less update acc_of line_result line_key key_eq name_eq to_result
    sum_of lookup insert contains error_label decimal digits outcome int32 bytes_eq
run_lists = refl
