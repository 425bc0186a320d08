-- ===== src/Compare/Kept.antt =====
-- compare.go: what holds of the comparer whenever its accumulators change one at a time.
use percona_load_generator_m.Prelude.{
  ℕ, ◌+◌, ◌*◌, String, Bool, Option, none, some, List, [], ◌∷◌, ◌++◌, Option-cases, Bool-cases, inl,
  inr, if_split, length, leb, if◌then◌else◌,
}
use percona_load_generator_m.Prelude.Keys.{◌=?◌, string_eq, contains, lookup}
use percona_load_generator_m.Compare.Outcomes.{ShapeName, OpResult}
use percona_load_generator_m.Compare.Operations.{
  OpKey, op_key_eq, shape_name_eq, ShapeAcc, DiffKind, OpDiff, missing_a, missing_b, Line, Comparer,
  update, trim_diffs, add_diff, push_diff, conclude, pair, count_differing,
}
use percona_load_generator_m.Compare.Feed.{
  Run, start, in_totals, count_a, uncount_a, count_b, count_missing_a, count_missing_b, same,
  note_summary, take_a, feed_a, move_a, match_b, extra_b, take_b, feed_b, all_a, all_b, rest_of_a,
  compare_ops,
}

module _ (P : Comparer → Type 0)
    (kept : (s : ShapeName) (f : ShapeAcc → ShapeAcc) (c : Comparer) → P c → P (update s f c))
    (loose : (c : Comparer) (ds : List (OpKey × OpDiff)) (texts : List (String × String))
      → P c
      → P (record c { diffs = ds; summaries = texts })) where
  push_diff_kept : (d : OpKey × OpDiff) (c : Comparer) → P c → P (push_diff d c)
  unfolding push_diff trim_diffs
  push_diff_kept d c p =
      let grown : Comparer = record c { diffs = c.diffs ++ d ∷ [] } in
      if_split P (leb (4 * c.top_n + 64) (length grown.diffs)) {x = trim_diffs grown} {y = grown}
        (λ h. loose c _ c.summaries p) (λ h. loose c _ c.summaries p)

  add_diff_kept :
      (k : OpKey) (id : OpResult) (a b : Option OpResult) (kinds : List DiffKind) (c : Comparer)
      → P c
      → P (add_diff k id a b kinds c)
  unfolding add_diff
  add_diff_kept k id a b kinds c p = push_diff_kept _ c p

  conclude_kept :
      (k : OpKey) (a b : OpResult) (kinds : List DiffKind) (acc : ShapeAcc) (c : Comparer)
      → P c
      → P (conclude k a b kinds acc c)
  unfolding conclude
  conclude_kept k a b [] acc c p = kept a.shape (λ old. acc) c p
  conclude_kept k a b (d ∷ ds) acc c p =
      add_diff_kept k a (some a) (some b) (d ∷ ds) _ (kept a.shape (λ old. count_differing acc) c p)

  pair_kept : (k : OpKey) (a b : OpResult) (c : Comparer) → P c → P (pair k a b c)
  unfolding pair
  pair_kept k a b c p = conclude_kept k a b _ _ c p

  move_a_kept : (s : ShapeName) (a : OpResult) (c : Comparer) → P c → P (move_a s a c)
  unfolding move_a
  move_a_kept s a c p =
      if_split P (s =? a.shape) (λ h. p)
        (λ h. kept s (in_totals count_a) _ (kept a.shape (in_totals uncount_a) c p))

  take_a_kept : (k : OpKey) (r : OpResult) (run : Run) → P run.c → P (take_a k r run).c
  unfolding take_a
  take_a_kept k r run p = elim (Option-cases (lookup k run.a_ops)) [
    | inl h ↦ rw (h, take_a) (kept r.shape (in_totals count_a) run.c p)
    | inr (old, h) ↦ rw (h, take_a) p
  ]

  take_b_kept :
      (prefer_b : Bool) (k : OpKey) (b : OpResult) (run : Run)
      → P run.c
      → P (take_b prefer_b k b run).c
  unfolding take_b extra_b match_b
  take_b_kept prefer_b k b run p = elim (Bool-cases (contains k run.seen_b)) [
    | inl g ↦ rw (g, take_b) p
    | inr g ↦ elim (Option-cases (lookup k run.a_ops)) [
      | inl h ↦
          rw (g, h, take_b)
            (add_diff_kept k b none (some b) (missing_a ∷ []) _ (
              kept b.shape (in_totals count_missing_a) _
                (kept b.shape (in_totals count_b) _ (kept b.shape same run.c p))))
      | inr (a, h) ↦
          let s = if prefer_b then b.shape else a.shape in
          rw (g, h, take_b)
            (pair_kept k _ _ _
              (move_a_kept s a _ (kept s (in_totals count_b) _ (kept b.shape same run.c p))))
    ]
  ]

  note_summary_kept : (l : Line) (run : Run) → P run.c → P (note_summary l run).c
  note_summary_kept l run p = elim (Bool-cases (l.summary =? "")) [
    | inl h ↦ rw (h, note_summary) p
    | inr h ↦ rw (h, note_summary) (loose run.c run.c.diffs _ p)
  ]

  feed_a_kept : (by_seq : Bool) (l : Line) (run : Run) → P run.c → P (feed_a by_seq l run).c
  unfolding feed_a
  feed_a_kept by_seq l run p = elim (Option-cases l.outcome) [
    | inl h ↦ rw (h, feed_a) (note_summary_kept l run p)
    | inr (o, h) ↦ rw (h, feed_a) (take_a_kept _ _ _ (note_summary_kept l run p))
  ]

  feed_b_kept :
      (by_seq prefer_b : Bool) (l : Line) (run : Run) → P run.c → P (feed_b by_seq prefer_b l run).c
  unfolding feed_b
  feed_b_kept by_seq prefer_b l run p = elim (Option-cases l.outcome) [
    | inl h ↦ rw (h, feed_b) (note_summary_kept l run p)
    | inr (o, h) ↦ rw (h, feed_b) (take_b_kept prefer_b _ _ _ (note_summary_kept l run p))
  ]

  all_a_kept : (by_seq : Bool) (ls : List Line) (run : Run) → P run.c → P (all_a by_seq ls run).c
  unfolding all_a
  all_a_kept by_seq [] run p = p
  all_a_kept by_seq (l ∷ ls) run p = all_a_kept by_seq ls _ (feed_a_kept by_seq l run p)

  all_b_kept :
      (by_seq prefer_b : Bool) (ls : List Line) (run : Run)
      → P run.c
      → P (all_b by_seq prefer_b ls run).c
  unfolding all_b
  all_b_kept by_seq prefer_b [] run p = p
  all_b_kept by_seq prefer_b (l ∷ ls) run p =
      all_b_kept by_seq prefer_b ls _ (feed_b_kept by_seq prefer_b l run p)

  rest_of_a_kept : (m : List (OpKey × OpResult)) (c : Comparer) → P c → P (rest_of_a m c)
  unfolding rest_of_a
  rest_of_a_kept [] c p = p
  rest_of_a_kept ((k, a) ∷ m) c p = rest_of_a_kept m _ (
      add_diff_kept k a (some a) none (missing_b ∷ []) _
        (kept a.shape (in_totals count_missing_b) c p))

  pub compare_ops_kept :
      (by_seq prefer_b : Bool) (top_n : ℕ) (ops_a ops_b : List Line)
      → P (start top_n).c
      → P (compare_ops by_seq prefer_b top_n ops_a ops_b)
  unfolding compare_ops trim_diffs
  compare_ops_kept by_seq prefer_b top_n ops_a ops_b p =
      let c =
        rest_of_a_kept _ _
          (all_b_kept by_seq prefer_b ops_b _ (all_a_kept by_seq ops_a (start top_n) p)) in
      loose _ _ _ c
