-- ===== src/Compare/Feed.antt =====
-- compare.go: the two passes of `Compare` over the operations of the files, and what is left of A.
use percona_load_generator_m.Prelude.{ℕ, ◌+◌, Bool, none, some, List, [], ◌∷◌, if◌then◌else◌}
use percona_load_generator_m.Prelude.Keys.{◌=?◌, contains, lookup, insert, string_eq}
use percona_load_generator_m.Recording.Format.{u64}
use percona_load_generator_m.Compare.Outcomes.{ShapeName, OpResult}
use percona_load_generator_m.Compare.Operations.{
  OpKey, op_key_eq, shape_name_eq, Totals, ShapeAcc, missing_a, missing_b, Line, line_key,
  line_result, Comparer, update, trim_diffs, add_diff, inc, pair,
}

-- `aOps`, `seenB` and the counters of `Compare`.
pub record Run : Type 0 where
  pub c : Comparer
  pub a_ops : List (OpKey × OpResult)
  pub seen_b : List OpKey
  pub dup_a : ℕ
  pub dup_b : ℕ
  pub no_outcome : ℕ

abbrev pub start : ℕ → Run
start top_n = record {
  c = record { top_n = top_n; shapes = []; summaries = []; diffs = [] };
  a_ops = [];
  seen_b = [];
  dup_a = 0;
  dup_b = 0;
  no_outcome = 0;
}

abbrev pub in_totals : (Totals → Totals) → ShapeAcc → ShapeAcc
in_totals f acc = record acc { t = f acc.t }

abbrev pub dec : ℕ → ℕ
dec n = u64 (n + 18446744073709551615)

abbrev pub count_a : Totals → Totals
count_a t = record t { ops_a = inc t.ops_a }

abbrev pub uncount_a : Totals → Totals
uncount_a t = record t { ops_a = dec t.ops_a }

abbrev pub count_b : Totals → Totals
count_b t = record t { ops_b = inc t.ops_b }

abbrev pub count_missing_a : Totals → Totals
count_missing_a t = record t {
  missing_in_a = inc t.missing_in_a;
  differing_ops = inc t.differing_ops;
}

abbrev pub count_missing_b : Totals → Totals
count_missing_b t = record t {
  missing_in_b = inc t.missing_in_b;
  differing_ops = inc t.differing_ops;
}

abbrev pub same : ShapeAcc → ShapeAcc
same acc = acc

-- `delete`
unfoldable pub delete : OpKey → List (OpKey × OpResult) → List (OpKey × OpResult)
delete k [] = []
delete k ((j, r) ∷ m) = if j =? k then m else (j, r) ∷ delete k m

abbrev pub note_summary : Line → Run → Run
note_summary l run = if l.summary =? "" then run else record run {
  c = record run.c { summaries = insert l.shape.key l.summary run.c.summaries };
}

-- An operation of A with an outcome.
unfoldable pub take_a : OpKey → OpResult → Run → Run
take_a k r run = elim (lookup k run.a_ops) [
  | some old ↦ record run { dup_a = run.dup_a + 1 }
  | none ↦ record run { c = update r.shape (in_totals count_a) run.c; a_ops = insert k r run.a_ops }
]

unfoldable pub feed_a : Bool → Line → Run → Run
feed_a by_seq l run₀ =
    let run = note_summary l run₀ in
    elim l.outcome [
      | none ↦ record run { no_outcome = run.no_outcome + 1 }
      | some o ↦ take_a (line_key by_seq l) (line_result l o l.shape) run
    ]

-- The move of a matched operation of A to the shape that it is counted under.
unfoldable pub move_a : ShapeName → OpResult → Comparer → Comparer
move_a shape a c =
    if shape =? a.shape
    then c
    else update shape (in_totals count_a) (update a.shape (in_totals uncount_a) c)

-- An operation of B that A has, and one that A has not.
unfoldable pub match_b : Bool → OpKey → OpResult → OpResult → Run → Run
match_b prefer_b k a b₀ run =
    let shape = if prefer_b then b₀.shape else a.shape in
    let c = update shape (in_totals count_b) (update b₀.shape same run.c) in
    record run {
      c = pair k (record a { shape = shape }) (record b₀ { shape = shape }) (move_a shape a c);
      a_ops = delete k run.a_ops;
    }

unfoldable pub extra_b : OpKey → OpResult → Run → Run
extra_b k b run = record run {
  c = add_diff k b none (some b) (missing_a ∷ []) (
      update b.shape (in_totals count_missing_a)
        (update b.shape (in_totals count_b) (update b.shape same run.c)));
}

unfoldable pub take_b : Bool → OpKey → OpResult → Run → Run
take_b prefer_b k b run₀ =
    if contains k run₀.seen_b
    then record run₀ { dup_b = run₀.dup_b + 1 }
    else (let run : Run = record run₀ { seen_b = k ∷ run₀.seen_b } in
        elim (lookup k run₀.a_ops) [ none ↦ extra_b k b run | some a ↦ match_b prefer_b k a b run ])

unfoldable pub feed_b : Bool → Bool → Line → Run → Run
feed_b by_seq prefer_b l run₀ =
    let run = note_summary l run₀ in
    elim l.outcome [
      | none ↦ record run { no_outcome = run.no_outcome + 1 }
      | some o ↦ take_b prefer_b (line_key by_seq l) (line_result l o l.shape) run
    ]

unfoldable pub all_a : Bool → List Line → Run → Run
all_a by_seq [] run = run
all_a by_seq (l ∷ ls) run = all_a by_seq ls (feed_a by_seq l run)

unfoldable pub all_b : Bool → Bool → List Line → Run → Run
all_b by_seq prefer_b [] run = run
all_b by_seq prefer_b (l ∷ ls) run = all_b by_seq prefer_b ls (feed_b by_seq prefer_b l run)

-- The operations of A that B has not.
unfoldable pub rest_of_a : List (OpKey × OpResult) → Comparer → Comparer
rest_of_a [] c = c
rest_of_a ((k, a) ∷ m) c =
    rest_of_a m
      (add_diff k a (some a) none (missing_b ∷ []) (update a.shape (in_totals count_missing_b) c))

unfoldable pub compare_ops : Bool → Bool → ℕ → List Line → List Line → Comparer
compare_ops by_seq prefer_b top_n ops_a ops_b =
    let run = all_b by_seq prefer_b ops_b (all_a by_seq ops_a (start top_n)) in
    trim_diffs (rest_of_a run.a_ops run.c)
