-- ===== src/Compare/Prefix.antt =====
-- compare.go: two comparisons that list different numbers of operations.
use percona_load_generator_m.Prelude.{
  ℕ, ◌+◌, ◌*◌, ◌≤◌, ◌≡◌, refl, sym, ap, ◌∙◌, Bool, true, false, Option, none, some, List, [], ◌∷◌,
  ◌++◌, arith, Option-cases, Bool-cases, inl, inr, subst, length, length-take, take, take-take,
  append_assoc, append-nil, leb, if◌then◌else◌,
}
use percona_load_generator_m.Prelude.Keys.{◌=?◌, string_eq, contains, lookup, insert}
use percona_load_generator_m.Compare.Outcomes.{ShapeName, OpResult}
use percona_load_generator_m.Compare.Operations.{
  OpKey, op_key_eq, shape_name_eq, ShapeAcc, new_shape_acc, DiffKind, OpDiff, Line, Comparer,
  acc_of, update, sort_diffs, trim_diffs, add_diff, conclude, pair, pair_kinds, count_matched,
  count_differing, missing_a, missing_b, outcome_of,
}
use percona_load_generator_m.Compare.Feed.{
  Run, start, in_totals, count_a, uncount_a, count_b, count_missing_a, count_missing_b, same,
  note_summary, take_a, feed_a, move_a, match_b, extra_b, take_b, feed_b, all_a, all_b, rest_of_a,
  compare_ops,
}
use percona_load_generator_m.Compare.Listed.{take-sort_diffs_trimmed}
use percona_load_generator_m.Compare.Prefix.Comparers.{
  Alike, update-Alike, add_diff-Alike, pair-Alike, move_a-Alike, rest_of_a-Alike, trim_diffs-take,
}
pub mod Comparers

module _ (n m : ℕ) (n≤m : n ≤ m) where
  -- Runs that differ in that and in what has been listed.
  record Abreast (r r' : Run) : Type 0 where
    pub alike : Alike n m n≤m r.c r'.c
    pub same_ops : r' ≡ record r { c = r'.c }

  -- It is enough that a step keeps runs abreast that differ in the comparer.
  step-Abreast :
      (f : Run → Run)
      → ((r : Run) (c' : Comparer) → Alike n m n≤m r.c c' → Abreast (f r) (f (record r { c = c' })))
      → (r r' : Run) → Abreast r r'
      → Abreast (f r) (f r')
  step-Abreast f h r r' p = subst (λ x. Abreast (f r) (f x)) (sym p.same_ops) (h r r'.c p.alike)

  take_a-Abreast :
      (k : OpKey) (a : OpResult) (r : Run) (c' : Comparer)
      → Alike n m n≤m r.c c'
      → Abreast (take_a k a r) (take_a k a (record r { c = c' }))
  unfolding take_a
  take_a-Abreast k a r c' p = elim (Option-cases (lookup k r.a_ops)) [
    | inr (old, h) ↦ rw (h, take_a) (record { alike = p; same_ops = refl })
    | inl h ↦
        rw (h, take_a)
          (record {
            alike = update-Alike n m n≤m a.shape (in_totals count_a) r.c c' p;
            same_ops = refl;
          })
  ]

  extra_b-Abreast :
      (k : OpKey) (b : OpResult) (r : Run) (c' : Comparer)
      → Alike n m n≤m r.c c'
      → Abreast (extra_b k b r) (extra_b k b (record r { c = c' }))
  unfolding extra_b
  extra_b-Abreast k b r c' p = record {
    alike = add_diff-Alike n m n≤m k b none (some b) (missing_a ∷ []) _ _ (
        update-Alike n m n≤m b.shape (in_totals count_missing_a) _ _ (
          update-Alike n m n≤m b.shape (in_totals count_b) _ _
            (update-Alike n m n≤m b.shape same r.c c' p)));
    same_ops = refl;
  }

  match_b-Abreast :
      (prefer_b : Bool) (k : OpKey) (a b : OpResult) (r : Run) (c' : Comparer)
      → Alike n m n≤m r.c c'
      → Abreast (match_b prefer_b k a b r) (match_b prefer_b k a b (record r { c = c' }))
  unfolding match_b
  match_b-Abreast prefer_b k a b r c' p =
      let s = if prefer_b then b.shape else a.shape in
      record {
        alike = pair-Alike n m n≤m k _ _ _ _ (
            move_a-Alike n m n≤m s a _ _ (
              update-Alike n m n≤m s (in_totals count_b) _ _
                (update-Alike n m n≤m b.shape same r.c c' p)));
        same_ops = refl;
      }

  take_b-Abreast :
      (prefer_b : Bool) (k : OpKey) (b : OpResult) (r : Run) (c' : Comparer)
      → Alike n m n≤m r.c c'
      → Abreast (take_b prefer_b k b r) (take_b prefer_b k b (record r { c = c' }))
  unfolding take_b
  take_b-Abreast prefer_b k b r c' p = elim (Bool-cases (contains k r.seen_b)) [
    | inl g ↦ rw (g, take_b) (record { alike = p; same_ops = refl })
    | inr g ↦ elim (Option-cases (lookup k r.a_ops)) [
      | inl h ↦ rw (g, h, take_b) (extra_b-Abreast k b _ c' p)
      | inr (a, h) ↦ rw (g, h, take_b) (match_b-Abreast prefer_b k a b _ c' p)
    ]
  ]

  note_summary-Abreast :
      (l : Line) (r : Run) (c' : Comparer)
      → Alike n m n≤m r.c c'
      → Abreast (note_summary l r) (note_summary l (record r { c = c' }))
  note_summary-Abreast l r c' p = elim (Bool-cases (l.summary =? "")) [
    | inl h ↦ rw (h, note_summary) (record { alike = p; same_ops = refl })
    | inr h ↦
        rw (h, note_summary)
          (record {
            alike = record {
              lists = p.lists;
              lists' = p.lists';
              same_shapes = p.same_shapes;
              same_lowest = p.same_lowest;
            };
            same_ops = refl;
          })
  ]

  no_outcome-Abreast :
      (r : Run) (c' : Comparer)
      → Alike n m n≤m r.c c'
      → Abreast
          (record r { no_outcome = r.no_outcome + 1 })
          (record r { c = c'; no_outcome = r.no_outcome + 1 })
  no_outcome-Abreast r c' p = record { alike = p; same_ops = refl }

  feed_a-Abreast :
      (by_seq : Bool) (l : Line) (r r' : Run)
      → Abreast r r'
      → Abreast (feed_a by_seq l r) (feed_a by_seq l r')
  unfolding feed_a
  feed_a-Abreast by_seq l r r' p =
      let q = step-Abreast (note_summary l) (note_summary-Abreast l) r r' p in
      elim (Option-cases l.outcome) [
        | inl h ↦
            rw (h, feed_a)
              (step-Abreast (λ x. record x { no_outcome = x.no_outcome + 1 }) no_outcome-Abreast _ _
                q)
        | inr (o, h) ↦ rw (h, feed_a) (step-Abreast (take_a _ _) (take_a-Abreast _ _) _ _ q)
      ]

  feed_b-Abreast :
      (by_seq prefer_b : Bool) (l : Line) (r r' : Run)
      → Abreast r r'
      → Abreast (feed_b by_seq prefer_b l r) (feed_b by_seq prefer_b l r')
  unfolding feed_b
  feed_b-Abreast by_seq prefer_b l r r' p =
      let q = step-Abreast (note_summary l) (note_summary-Abreast l) r r' p in
      elim (Option-cases l.outcome) [
        | inl h ↦
            rw (h, feed_b)
              (step-Abreast (λ x. record x { no_outcome = x.no_outcome + 1 }) no_outcome-Abreast _ _
                q)
        | inr (o, h) ↦
            rw (h, feed_b) (step-Abreast (take_b prefer_b _ _) (take_b-Abreast prefer_b _ _) _ _ q)
      ]

  all_a-Abreast :
      (by_seq : Bool) (ls : List Line) (r r' : Run)
      → Abreast r r'
      → Abreast (all_a by_seq ls r) (all_a by_seq ls r')
  unfolding all_a
  all_a-Abreast by_seq [] r r' p = p
  all_a-Abreast by_seq (l ∷ ls) r r' p =
      all_a-Abreast by_seq ls _ _ (feed_a-Abreast by_seq l r r' p)

  all_b-Abreast :
      (by_seq prefer_b : Bool) (ls : List Line) (r r' : Run)
      → Abreast r r'
      → Abreast (all_b by_seq prefer_b ls r) (all_b by_seq prefer_b ls r')
  unfolding all_b
  all_b-Abreast by_seq prefer_b [] r r' p = p
  all_b-Abreast by_seq prefer_b (l ∷ ls) r r' p =
      all_b-Abreast by_seq prefer_b ls _ _ (feed_b-Abreast by_seq prefer_b l r r' p)

  rest_of_a-Abreast :
      (r r' : Run) → Abreast r r' → Alike n m n≤m (rest_of_a r.a_ops r.c) (rest_of_a r'.a_ops r'.c)
  rest_of_a-Abreast r r' p =
      subst (λ l. Alike n m n≤m (rest_of_a r.a_ops r.c) (rest_of_a l r'.c))
        (sym (ap (λ x. x.a_ops) p.same_ops)) (rest_of_a-Alike n m n≤m r.a_ops r.c r'.c p.alike)

  start-Abreast : Abreast (start n) (start m)
  start-Abreast = record {
    alike = record { lists = refl; lists' = refl; same_shapes = refl; same_lowest = λ es. refl };
    same_ops = refl;
  }

-- A comparison that lists fewer operations has the same accumulators and lists the first of the
-- operations that one that lists more does.
pub compare_ops-take :
    (by_seq prefer_b : Bool) (n m : ℕ) (ops_a ops_b : List Line)
    → n ≤ m
    → let c = compare_ops by_seq prefer_b n ops_a ops_b in
      let c' = compare_ops by_seq prefer_b m ops_a ops_b in
      (c.shapes ≡ c'.shapes) × (c.diffs ≡ take n c'.diffs)
unfolding compare_ops
compare_ops-take by_seq prefer_b n m ops_a ops_b h = trim_diffs-take n m h _ _ (
    rest_of_a-Abreast n m h _ _ (
      all_b-Abreast n m h by_seq prefer_b ops_b _ _
        (all_a-Abreast n m h by_seq ops_a _ _ (start-Abreast n m h))))

pub compare_ops-length :
    (by_seq prefer_b : Bool) (n : ℕ) (ops_a ops_b : List Line)
    → length (compare_ops by_seq prefer_b n ops_a ops_b).diffs ≤ n
unfolding compare_ops trim_diffs
compare_ops-length by_seq prefer_b n ops_a ops_b =
    let h : n ≤ n = omega arith in
    let run = all_b by_seq prefer_b ops_b (all_a by_seq ops_a (start n)) in
    let p = rest_of_a-Abreast n n h run run (
      all_b-Abreast n n h by_seq prefer_b ops_b _ _
        (all_a-Abreast n n h by_seq ops_a _ _ (start-Abreast n n h))) in
    omega (
      arith,
      p.lists,
      length-take (rest_of_a run.a_ops run.c).top_n
          (sort_diffs [] (rest_of_a run.a_ops run.c).diffs),
    )
