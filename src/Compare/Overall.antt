-- ===== src/Compare/Overall.antt =====
-- compare.go: the totals of all shapes together.
use percona_load_generator_m.Prelude.{
  ℕ, ◌+◌, String, Option, none, some, List, [], ◌∷◌, ◌≡◌, refl, foldl,
}
use percona_load_generator_m.Prelude.Keys.{lookup, insert, string_eq}
use percona_load_generator_m.Recording.Format.{u64}
use percona_load_generator_m.Compare.Outcomes.{ShapeName}
use percona_load_generator_m.Compare.Operations.{Totals, ShapeAcc, new_shape_acc, Comparer}
pub mod Sums

-- `mergeTotals` on a map of errors.
unfoldable pub merge_counts : List (String × ℕ) → List (String × ℕ) → List (String × ℕ)
merge_counts dst [] = dst
merge_counts dst ((k, v) ∷ src) =
    merge_counts (insert k (u64 (elim (lookup k dst) [ none ↦ 0 | some n ↦ n ] + v)) dst) src

unfoldable pub merge_totals : Totals → Totals → Totals
merge_totals dst src = record {
  ops_a = u64 (dst.ops_a + src.ops_a);
  ops_b = u64 (dst.ops_b + src.ops_b);
  matched = u64 (dst.matched + src.matched);
  differing_ops = u64 (dst.differing_ops + src.differing_ops);
  count_mismatches = u64 (dst.count_mismatches + src.count_mismatches);
  checksum_mismatches = u64 (dst.checksum_mismatches + src.checksum_mismatches);
  checksums_compared = u64 (dst.checksums_compared + src.checksums_compared);
  errors_only_a = merge_counts dst.errors_only_a src.errors_only_a;
  errors_only_b = merge_counts dst.errors_only_b src.errors_only_b;
  error_code_differences = u64 (dst.error_code_differences + src.error_code_differences);
  missing_in_a = u64 (dst.missing_in_a + src.missing_in_a);
  missing_in_b = u64 (dst.missing_in_b + src.missing_in_b);
}

-- The loop over the shapes.
unfoldable pub merge_all : Totals → List (ShapeName × ShapeAcc) → Totals
merge_all t [] = t
merge_all t ((s, acc) ∷ shapes) = merge_all (merge_totals t acc.t) shapes

abbrev pub overall : Comparer → Totals
overall c = merge_all new_shape_acc.t c.shapes
