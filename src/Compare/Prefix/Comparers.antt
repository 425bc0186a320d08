-- ===== src/Compare/Prefix/Comparers.antt =====
-- compare.go: two comparers that list different numbers of operations.
use percona_load_generator_m.Prelude.{
  ℕ, ◌+◌, ◌*◌, ◌≤◌, ◌≡◌, sym, ap, ◌∙◌, Bool, true, false, Option, none, some, List, [], ◌∷◌, ◌++◌,
  arith, Bool-cases, inl, inr, subst, length, take, take-take, append_assoc, append-nil, leb,
  if◌then◌else◌,
}
use percona_load_generator_m.Prelude.Keys.{◌=?◌, string_eq, lookup, insert}
use percona_load_generator_m.Compare.Outcomes.{ShapeName, OpResult}
use percona_load_generator_m.Compare.Operations.{
  OpKey, op_key_eq, shape_name_eq, ShapeAcc, new_shape_acc, DiffKind, OpDiff, Comparer, acc_of,
  update, sort_diffs, trim_diffs, add_diff, push_diff, conclude, pair, pair_kinds, count_matched,
  count_differing, missing_b,
}
use percona_load_generator_m.Compare.Feed.{
  in_totals, count_a, uncount_a, count_missing_b, move_a, rest_of_a,
}
use percona_load_generator_m.Compare.Listed.{take-sort_diffs_trimmed}

module _ (n m : ℕ) (n≤m : n ≤ m) where
  -- Comparers that differ in the number of operations that they list, `n` and `m`.
  pub record Alike (c c' : Comparer) : Type 0 where
    pub lists : c.top_n ≡ n
    pub lists' : c'.top_n ≡ m
    pub same_shapes : c.shapes ≡ c'.shapes
    pub same_lowest :
        (es : List (OpKey × OpDiff))
        → take n (sort_diffs [] (c.diffs ++ es)) ≡ take n (sort_diffs [] (c'.diffs ++ es))

  trim_diffs-Alike : (c c' : Comparer) → Alike c c' → Alike (trim_diffs c) c'
  unfolding trim_diffs
  trim_diffs-Alike c c' p = record {
    lists = p.lists;
    lists' = p.lists';
    same_shapes = p.same_shapes;
    same_lowest =
        λ es. rw p.lists (take-sort_diffs_trimmed n n c.diffs es (omega arith) ∙ p.same_lowest es);
  }

  trim_diffs-Alike' : (c c' : Comparer) → Alike c c' → Alike c (trim_diffs c')
  unfolding trim_diffs
  trim_diffs-Alike' c c' p = record {
    lists = p.lists;
    lists' = p.lists';
    same_shapes = p.same_shapes;
    same_lowest =
        λ es. rw p.lists' (p.same_lowest es ∙ sym (take-sort_diffs_trimmed n m c'.diffs es n≤m));
  }

  cut-Alike :
      (b b' : Bool) (c c' : Comparer)
      → Alike c c'
      → Alike (if b then trim_diffs c else c) (if b' then trim_diffs c' else c')
  cut-Alike true true c c' p = trim_diffs-Alike c (trim_diffs c') (trim_diffs-Alike' c c' p)
  cut-Alike true false c c' p = trim_diffs-Alike c c' p
  cut-Alike false true c c' p = trim_diffs-Alike' c c' p
  cut-Alike false false c c' p = p

  push_diff-Alike :
      (d : OpKey × OpDiff) (c c' : Comparer) → Alike c c' → Alike (push_diff d c) (push_diff d c')
  unfolding push_diff
  push_diff-Alike d c c' p =
      let grown : Comparer = record c { diffs = c.diffs ++ d ∷ [] } in
      let grown' : Comparer = record c' { diffs = c'.diffs ++ d ∷ [] } in
      let q : Alike grown grown' = record {
        lists = p.lists;
        lists' = p.lists';
        same_shapes = p.same_shapes;
        same_lowest = λ es.
            rw (append_assoc c.diffs (d ∷ []) es, append_assoc c'.diffs (d ∷ []) es)
              (p.same_lowest (d ∷ es));
      } in
      cut-Alike (leb (4 * c.top_n + 64) (length grown.diffs))
        (leb (4 * c'.top_n + 64) (length grown'.diffs)) grown grown' q

  pub add_diff-Alike :
      (k : OpKey) (id : OpResult) (a b : Option OpResult) (kinds : List DiffKind) (c c' : Comparer)
      → Alike c c'
      → Alike (add_diff k id a b kinds c) (add_diff k id a b kinds c')
  unfolding add_diff
  add_diff-Alike k id a b kinds c c' p = push_diff-Alike _ c c' p

  pub update-Alike :
      (s : ShapeName) (f : ShapeAcc → ShapeAcc) (c c' : Comparer)
      → Alike c c'
      → Alike (update s f c) (update s f c')
  unfolding update acc_of
  update-Alike s f c c' p = record {
    lists = p.lists;
    lists' = p.lists';
    same_shapes =
        ap (λ m. insert s (f (elim (lookup s m) [ none ↦ new_shape_acc | some a ↦ a ])) m)
          p.same_shapes;
    same_lowest = p.same_lowest;
  }

  acc_of-Alike : (s : ShapeName) (c c' : Comparer) → Alike c c' → acc_of s c ≡ acc_of s c'
  unfolding acc_of
  acc_of-Alike s c c' p =
      ap (λ m. elim (lookup s m) [ none ↦ new_shape_acc | some a ↦ a ]) p.same_shapes

  conclude-Alike :
      (k : OpKey) (a b : OpResult) (kinds : List DiffKind) (acc : ShapeAcc) (c c' : Comparer)
      → Alike c c'
      → Alike (conclude k a b kinds acc c) (conclude k a b kinds acc c')
  unfolding conclude
  conclude-Alike k a b [] acc c c' p = update-Alike a.shape (λ old. acc) c c' p
  conclude-Alike k a b (d ∷ ds) acc c c' p =
      add_diff-Alike k a (some a) (some b) (d ∷ ds) _ _
        (update-Alike a.shape (λ old. count_differing acc) c c' p)

  pub pair-Alike :
      (k : OpKey) (a b : OpResult) (c c' : Comparer)
      → Alike c c'
      → Alike (pair k a b c) (pair k a b c')
  unfolding pair
  pair-Alike k a b c c' p =
      let r = λ (x : ShapeAcc). pair_kinds a b (count_matched x) in
      subst (λ x. Alike (pair k a b c) (conclude k a b (r x).0 (r x).1 c'))
        (acc_of-Alike a.shape c c' p) (conclude-Alike k a b _ _ c c' p)

  pub move_a-Alike :
      (s : ShapeName) (a : OpResult) (c c' : Comparer)
      → Alike c c'
      → Alike (move_a s a c) (move_a s a c')
  unfolding move_a
  move_a-Alike s a c c' p = elim (Bool-cases (s =? a.shape)) [
    | inl h ↦ rw (h, move_a) p
    | inr h ↦
        rw (h, move_a)
          (update-Alike s (in_totals count_a) _ _
            (update-Alike a.shape (in_totals uncount_a) c c' p))
  ]

  pub rest_of_a-Alike :
      (l : List (OpKey × OpResult)) (c c' : Comparer)
      → Alike c c'
      → Alike (rest_of_a l c) (rest_of_a l c')
  unfolding rest_of_a
  rest_of_a-Alike [] c c' p = p
  rest_of_a-Alike ((k, a) ∷ l) c c' p = rest_of_a-Alike l _ _ (
      add_diff-Alike k a (some a) none (missing_b ∷ []) _ _
        (update-Alike a.shape (in_totals count_missing_b) c c' p))

  pub trim_diffs-take :
      (c c' : Comparer)
      → Alike c c'
      → ((trim_diffs c).shapes ≡ (trim_diffs c').shapes)
        × ((trim_diffs c).diffs ≡ take n (trim_diffs c').diffs)
  unfolding trim_diffs
  trim_diffs-take c c' p = (
    p.same_shapes,
    rw (p.lists, p.lists')
        (subst (λ x. take n (sort_diffs [] x) ≡ take n (take m (sort_diffs [] c'.diffs)))
          (append-nil c.diffs)
          (p.same_lowest []
            ∙ ap (λ x. take n (sort_diffs [] x)) (append-nil c'.diffs)
            ∙ sym (take-take n m (sort_diffs [] c'.diffs) n≤m))),
  )
