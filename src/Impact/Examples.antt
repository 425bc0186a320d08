-- ===== src/Impact/Examples.antt =====
-- A run over a few operations.
use percona_load_generator_m.Prelude.{refl, String, true, [], ◌∷◌, List, arith}
use percona_load_generator_m.Prelude.Int.{ℤ, pos, ◌+ℤ◌}
use percona_load_generator_m.Impact.{Completed, key_eq, empty, record_completed}
use percona_load_generator_m.Prelude.Keys.{lookup, insert}
use percona_load_generator_m.Impact.View.{Floats, build_impact_view}
use percona_load_generator_m.Impact.Accounted.{Accounted, build_impact_view-Accounted}
use percona_load_generator_m.Impact.Conserved.{Conserved, grouped, record_all, record_all-Conserved}

abbrev find_on : String → Completed
find_on collection = record {
  key = record { op = "find"; database = "shop"; collection = collection; shape = "_id" };
  shape_summary = "by _id";
  query_label = "";
  duration = pos 1500;
  success = true;
}

abbrev operations : List Completed
operations = find_on "orders" ∷ find_on "items" ∷ find_on "orders" ∷ []

empty-Conserved : Conserved 1 empty
unfolding grouped
empty-Conserved = record { total = refl; limit = omega arith }

record_all-Conserved_example : Conserved 1 (record_all operations 1 empty)
record_all-Conserved_example = record_all-Conserved operations 1 empty empty-Conserved

-- Times as numbers of nanoseconds; no fractions are kept.
abbrev whole_ns : Floats
whole_ns = record {
  Float = ℤ;
  zero = pos 0;
  ns_to_ms = λ n. n;
  round2 = λ x. x;
  plus = λ x y. x +ℤ y;
  per_count = λ x n. x;
  ratio = λ x y. x;
}

build_impact_view-Accounted_example :
    Accounted whole_ns
      (λ s. s)
      (record_all operations 1 empty)
      (build_impact_view whole_ns (λ s. s) (record_all operations 1 empty) 2 1 3)
unfolding record_all record_completed lookup insert key_eq
build_impact_view-Accounted_example =
    build_impact_view-Accounted whole_ns (λ s. s) operations 2 1 3 refl
