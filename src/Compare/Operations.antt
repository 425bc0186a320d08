-- ===== src/Compare/Operations.antt =====
-- compare.go: the comparer. Its diffs and their keys, two slices of one length, are one list of
-- pairs, and `shapes` holds the accumulators by name in the order of their first use. A diff's summary and
-- command are added by later code.
use percona_load_generator_m.Prelude.{
  ℕ, ◌+◌, ◌*◌, String, Bool, true, false, not, ◌&&◌, ◌||◌, Option, none, some, List, [], ◌∷◌, ◌++◌,
  ltb, leb, ◌==◌, length, take, arith, ◌≡◌, ◌↔◌, if◌then◌else◌,
}
use percona_load_generator_m.Prelude.Int.{ℤ, pos, int32, ltb_ℤ}
use percona_load_generator_m.Prelude.Keys.{Eq, ◌=?◌, lookup, insert, nat_eq, int_eq, string_eq}
use percona_load_generator_m.Recording.Format.{u64, Outcome, OpLine, path_fast_insert_batch}
use percona_load_generator_m.Compare.Outcomes.{
  is_sum_ok, Count, Counts, ShapeName, OpResult, outcome, error_label, to_result,
}
mod Types
unfoldable pub use Types.*

unfoldable pub recording_shape_key : {B : Type 0} → OpLine B → (String → String → String) → String
recording_shape_key o joined = elim o.shape [
  | some s ↦ s.key
  | none ↦
      if o.path =? path_fast_insert_batch
      then "insert|fast_batch"
      else if o.op =? "transaction"
      then "transaction|batch"
      else if not (o.path =? "")
      then joined o.op o.path
      else o.op
]

unfoldable pub line_key : Bool → Line → OpKey
line_key by_seq l =
    if by_seq
    then record { seq = l.seq; iteration = pos 0; worker = pos 0; worker_seq = 0 }
    else record {
      seq = 0;
      iteration = int32 (if ltb_ℤ l.iteration (pos 1) then pos 1 else l.iteration);
      worker = int32 l.worker;
      worker_seq = l.worker_seq;
    }

unfoldable pub line_result : Line → Outcome → ShapeName → OpResult
line_result l o shape = to_result o shape (int32 l.worker) (int32 l.iteration) l.worker_seq l.seq

pub record Comparer : Type 0 where
  pub top_n : ℕ
  pub shapes : List (ShapeName × ShapeAcc)
  pub summaries : List (String × String)
  pub diffs : List (OpKey × OpDiff)

-- The accumulator of a shape, a new one at its first use.
unfoldable pub acc_of : ShapeName → Comparer → ShapeAcc
acc_of s c = elim (lookup s c.shapes) [ none ↦ new_shape_acc | some a ↦ a ]

unfoldable pub update : ShapeName → (ShapeAcc → ShapeAcc) → Comparer → Comparer
update s f c = record c { shapes = insert s (f (acc_of s c)) c.shapes }

-- `sort.Slice` by the keys, which differ.
unfoldable pub insert_diff : {A : Type 0} → OpKey × A → List (OpKey × A) → List (OpKey × A)
insert_diff d [] = d ∷ []
insert_diff d (e ∷ es) =
    let rest = insert_diff d es in if key_less d.0 e.0 then d ∷ e ∷ es else e ∷ rest

unfoldable pub sort_diffs : {A : Type 0} → List (OpKey × A) → List (OpKey × A) → List (OpKey × A)
sort_diffs sorted [] = sorted
sort_diffs sorted (d ∷ ds) = sort_diffs (insert_diff d sorted) ds

unfoldable pub trim_diffs : Comparer → Comparer
trim_diffs c = record c { diffs = take c.top_n (sort_diffs [] c.diffs) }

abbrev pub outcome_of : Option OpResult → Option Outcome
outcome_of none = none
outcome_of (some r) = some (outcome r)

-- `addDiff`: the two appends and the trim, and the whole; `id` is the result of A if there is one.
unfoldable pub push_diff : OpKey × OpDiff → Comparer → Comparer
push_diff d c =
    let c' : Comparer = record c { diffs = c.diffs ++ d ∷ [] } in
    if leb (4 * c.top_n + 64) (length c'.diffs) then trim_diffs c' else c'

unfoldable pub add_diff :
    OpKey → OpResult → Option OpResult → Option OpResult → List DiffKind → Comparer → Comparer
add_diff k id a b kinds c =
    let d : OpDiff = record {
      seq = id.seq;
      iteration = id.iteration;
      worker = id.worker;
      worker_seq = id.worker_seq;
      shape = id.shape;
      kinds = kinds;
      a = outcome_of a;
      b = outcome_of b;
    } in
    push_diff (k, d) c

abbrev pub inc : ℕ → ℕ
inc n = u64 (n + 1)

abbrev pub add_count : String → List (String × ℕ) → List (String × ℕ)
add_count k m = insert k (inc (elim (lookup k m) [ none ↦ 0 | some n ↦ n ])) m

abbrev pub count_eq : Count → Count → Bool
count_eq a b = (if a.has then b.has else not b.has) && a.count =? b.count

abbrev pub counts_eq : Counts → Counts → Bool
counts_eq a b =
    count_eq a.returned b.returned
    && count_eq a.inserted b.inserted
    && count_eq a.matched b.matched
    && count_eq a.modified b.modified
    && count_eq a.upserted b.upserted
    && count_eq a.deleted b.deleted

unfoldable pub bytes_eq : List ℕ → List ℕ → Bool
bytes_eq [] [] = true
bytes_eq [] (y ∷ ys) = false
bytes_eq (x ∷ xs) [] = false
bytes_eq (x ∷ xs) (y ∷ ys) = x =? y && bytes_eq xs ys

-- What `pair` adds for an operation that succeeded on both sides, first for the counts, then for the
-- checksums.
unfoldable pub pair_counts : OpResult → OpResult → ShapeAcc → List DiffKind × ShapeAcc
pair_counts a b acc =
    let timed : ShapeAcc = record acc {
      lat_a = acc.lat_a ++ a.latency_us ∷ [];
      lat_b = acc.lat_b ++ b.latency_us ∷ [];
    } in
    if not (counts_eq a.counts b.counts) || not (a.txn =? b.txn)
    then (
      result_count ∷ [],
      record timed { t = record acc.t { count_mismatches = inc acc.t.count_mismatches } },
    )
    else ([], timed)

unfoldable pub pair_checksums : OpResult → OpResult → ShapeAcc → List DiffKind × ShapeAcc
pair_checksums a b acc =
    if is_sum_ok a.sum_state && is_sum_ok b.sum_state
    then (if not (bytes_eq a.sum b.sum)
        then (
          checksum ∷ [],
          record acc {
            t = record acc.t {
              checksums_compared = inc acc.t.checksums_compared;
              checksum_mismatches = inc acc.t.checksum_mismatches;
            };
          },
        )
        else (
          [],
          record acc { t = record acc.t { checksums_compared = inc acc.t.checksums_compared } },
        ))
    else ([], acc)

-- The switch of `pair`: the kinds of difference, and the accumulator.
unfoldable pub pair_kinds : OpResult → OpResult → ShapeAcc → List DiffKind × ShapeAcc
pair_kinds a b acc =
    if a.is_ok && not b.is_ok
    then (
      error_only_b ∷ [],
      record acc {
        t = record acc.t { errors_only_b = add_count (error_label b) acc.t.errors_only_b };
      },
    )
    else if not a.is_ok && b.is_ok
    then (
      error_only_a ∷ [],
      record acc {
        t = record acc.t { errors_only_a = add_count (error_label a) acc.t.errors_only_a };
      },
    )
    else if not a.is_ok && not b.is_ok
    then (if not (a.err_code =? b.err_code) || not (a.err_name =? b.err_name)
        then (
          error_code ∷ [],
          record acc {
            t = record acc.t { error_code_differences = inc acc.t.error_code_differences };
          },
        )
        else ([], acc))
    else (let counted = pair_counts a b acc in
        let summed = pair_checksums a b counted.1 in (counted.0 ++ summed.0, summed.1))

abbrev pub count_matched : ShapeAcc → ShapeAcc
count_matched acc = record acc { t = record acc.t { matched = inc acc.t.matched } }

abbrev pub count_differing : ShapeAcc → ShapeAcc
count_differing acc = record acc { t = record acc.t { differing_ops = inc acc.t.differing_ops } }

-- The end of `pair`: an operation that differs is counted and listed.
unfoldable pub conclude :
    OpKey → OpResult → OpResult → List DiffKind → ShapeAcc → Comparer → Comparer
conclude k a b [] acc c = update a.shape (λ old. acc) c
conclude k a b (d ∷ ds) acc c =
    add_diff k a (some a) (some b) (d ∷ ds) (update a.shape (λ old. count_differing acc) c)

-- `pair`
unfoldable pub pair : OpKey → OpResult → OpResult → Comparer → Comparer
pair k a b c = let r = pair_kinds a b (count_matched (acc_of a.shape c)) in conclude k a b r.0 r.1 c
