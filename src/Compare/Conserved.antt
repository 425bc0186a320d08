-- ===== src/Compare/Conserved.antt =====
-- compare.go: the totals of a whole comparison.
use percona_load_generator_m.Prelude.{
  ℕ, ◌+◌, ◌≡◌, refl, sym, ap, ◌∙◌, Bool, true, false, none, some, List, [], ◌∷◌, arith,
  Option-cases, inl, inr, subst, if_split, if◌then◌else◌,
}
use percona_load_generator_m.Prelude.Keys.{◌=?◌, string_eq, contains, lookup, insert}
use percona_load_generator_m.Recording.Format.{u64}
use percona_load_generator_m.Compare.Outcomes.{ShapeName, OpResult}
use percona_load_generator_m.Compare.Operations.{
  OpKey, op_key_eq, shape_name_eq, Totals, Line, Comparer, acc_of, update, trim_diffs, pair,
  missing_a, missing_b,
}
use percona_load_generator_m.Compare.Feed.{
  Run, start, in_totals, count_a, count_b, count_missing_a, count_missing_b, same, delete,
  note_summary, take_a, feed_a, move_a, match_b, extra_b, take_b, feed_b, all_a, all_b, rest_of_a,
  compare_ops,
}
use percona_load_generator_m.Compare.Books.{
  waiting, waiting-insert, waiting-delete, Books, totals, totals-update, totals-update-same,
  totals-add_diff, pair-Paired, Paired, totals-move_a, moved, Books-match,
}

-- The books of every shape.
abbrev Balanced : Run → Type 0
Balanced run = (s : ShapeName) → Books (waiting s run.a_ops) (totals s run.c)

-- One more operation of A that waits.
Books-take_a :
    (here : Bool) (n : ℕ) (t : Totals)
    → Books n t
    → Books ((if here then 1 else 0) + n) (if here then count_a t else t)
Books-take_a true n t b = record { of_a = omega (arith, b.of_a); of_b = b.of_b }
Books-take_a false n t b = record { of_a = omega (arith, b.of_a); of_b = b.of_b }

-- An operation that B alone has.
Books-extra_b :
    (here : Bool) (n : ℕ) (t : Totals)
    → Books n t
    → Books n (
        if here
        then count_missing_a (if here then count_b t else t)
        else if here
        then count_b t
        else t)
Books-extra_b true n t b = record { of_a = b.of_a; of_b = omega (arith, b.of_b) }
Books-extra_b false n t b = b

-- An operation of A that is left.
Books-rest :
    (here : Bool) (n : ℕ) (t : Totals)
    → Books ((if here then 1 else 0) + n) t
    → Books n (if here then count_missing_b t else t)
Books-rest true n t b = record { of_a = omega (arith, b.of_a); of_b = b.of_b }
Books-rest false n t b = record { of_a = omega (arith, b.of_a); of_b = b.of_b }

take_a-Balanced : (k : OpKey) (r : OpResult) (run : Run) → Balanced run → Balanced (take_a k r run)
unfolding take_a
take_a-Balanced k r run b s = elim (Option-cases (lookup k run.a_ops)) [
  | inr (old, h) ↦ rw (h, take_a) (b s)
  | inl h ↦
      rw (h, take_a)
        (subst (λ n. Books n (totals s (update r.shape (in_totals count_a) run.c)))
          (sym (waiting-insert s k r run.a_ops h))
          (subst (Books ((if r.shape =? s then 1 else 0) + waiting s run.a_ops))
            (sym (totals-update r.shape s count_a run.c))
            (Books-take_a (r.shape =? s) (waiting s run.a_ops) (totals s run.c) (b s))))
]

match_b-Balanced :
    (prefer_b : Bool) (k : OpKey) (a b₀ : OpResult) (run : Run)
    → lookup k run.a_ops ≡ some a
    → Balanced run
    → Balanced (match_b prefer_b k a b₀ run)
unfolding match_b
match_b-Balanced prefer_b k a b₀ run h b s =
    let shape = if prefer_b then b₀.shape else a.shape in
    let c₁ = update b₀.shape same run.c in
    let c = update shape (in_totals count_b) c₁ in
    let e : totals s c ≡ (if shape =? s then count_b (totals s run.c) else totals s run.c) =
      totals-update shape s count_b c₁
      ∙ ap (λ t. if shape =? s then count_b t else t) (totals-update-same b₀.shape s run.c) in
    let m = totals-move_a shape s a c ∙ ap (moved (shape =? s) (a.shape =? s)) e in
    Books-match (shape =? s) (a.shape =? s) (waiting s run.a_ops) (waiting s (delete k run.a_ops))
      (totals s run.c) _ (waiting-delete s k a run.a_ops h)
      (subst
        (λ t.
          Paired (shape =? s)
            (totals s (
              pair k (record a { shape = shape }) (record b₀ { shape = shape }) (move_a shape a c)))
            t)
        m
        (pair-Paired s k (record a { shape = shape }) (record b₀ { shape = shape })
          (move_a shape a c)))
      (b s)

extra_b-Balanced :
    (k : OpKey) (r : OpResult) (run : Run) → Balanced run → Balanced (extra_b k r run)
unfolding extra_b
extra_b-Balanced k r run b s =
    let c₁ = update r.shape same run.c in
    let c₂ = update r.shape (in_totals count_b) c₁ in
    let t = totals s run.c in
    let e : totals s c₂ ≡ (if r.shape =? s then count_b t else t) =
      totals-update r.shape s count_b c₁
      ∙ ap (λ t. if r.shape =? s then count_b t else t) (totals-update-same r.shape s run.c) in
    let m =
      totals-add_diff s k r none (some r) (missing_a ∷ [])
        (update r.shape (in_totals count_missing_a) c₂)
      ∙ totals-update r.shape s count_missing_a c₂
      ∙ ap (λ t. if r.shape =? s then count_missing_a t else t) e in
    subst (Books (waiting s run.a_ops)) (sym m)
      (Books-extra_b (r.shape =? s) (waiting s run.a_ops) t (b s))

take_b-Balanced :
    (prefer_b : Bool) (k : OpKey) (r : OpResult) (run : Run)
    → Balanced run
    → Balanced (take_b prefer_b k r run)
unfolding take_b
take_b-Balanced prefer_b k r run b =
    if_split Balanced (contains k run.seen_b) (λ h. b)
      (λ h. elim (Option-cases (lookup k run.a_ops)) [
        | inl e ↦ rw (e, take_b) (extra_b-Balanced k r _ b)
        | inr (a, e) ↦ rw (e, take_b) (match_b-Balanced prefer_b k a r _ e b)
      ])

note_summary-Balanced : (l : Line) (run : Run) → Balanced run → Balanced (note_summary l run)
unfolding acc_of
note_summary-Balanced l run b =
    let named : Run = record run {
      c = record run.c { summaries = insert l.shape.key l.summary run.c.summaries };
    } in
    if_split Balanced (l.summary =? "") {y = named} (λ h. b) (λ h. b)

feed_a-Balanced :
    (by_seq : Bool) (l : Line) (run : Run) → Balanced run → Balanced (feed_a by_seq l run)
unfolding feed_a
feed_a-Balanced by_seq l run b = elim (Option-cases l.outcome) [
  | inl e ↦ rw (e, feed_a) (note_summary-Balanced l run b)
  | inr (o, e) ↦ rw (e, feed_a) (take_a-Balanced _ _ _ (note_summary-Balanced l run b))
]

feed_b-Balanced :
    (by_seq prefer_b : Bool) (l : Line) (run : Run)
    → Balanced run
    → Balanced (feed_b by_seq prefer_b l run)
unfolding feed_b
feed_b-Balanced by_seq prefer_b l run b = elim (Option-cases l.outcome) [
  | inl e ↦ rw (e, feed_b) (note_summary-Balanced l run b)
  | inr (o, e) ↦ rw (e, feed_b) (take_b-Balanced prefer_b _ _ _ (note_summary-Balanced l run b))
]

all_a-Balanced :
    (by_seq : Bool) (ls : List Line) (run : Run) → Balanced run → Balanced (all_a by_seq ls run)
unfolding all_a
all_a-Balanced by_seq [] run b = b
all_a-Balanced by_seq (l ∷ ls) run b =
    all_a-Balanced by_seq ls (feed_a by_seq l run) (feed_a-Balanced by_seq l run b)

all_b-Balanced :
    (by_seq prefer_b : Bool) (ls : List Line) (run : Run)
    → Balanced run
    → Balanced (all_b by_seq prefer_b ls run)
unfolding all_b
all_b-Balanced by_seq prefer_b [] run b = b
all_b-Balanced by_seq prefer_b (l ∷ ls) run b =
    all_b-Balanced by_seq prefer_b ls (feed_b by_seq prefer_b l run)
      (feed_b-Balanced by_seq prefer_b l run b)

rest_of_a-Books :
    (s : ShapeName) (m : List (OpKey × OpResult)) (c : Comparer)
    → Books (waiting s m) (totals s c)
    → Books 0 (totals s (rest_of_a m c))
unfolding rest_of_a waiting
rest_of_a-Books s [] c b = b
rest_of_a-Books s ((k, a) ∷ m) c b =
    let e =
      totals-add_diff s k a (some a) none (missing_b ∷ [])
        (update a.shape (in_totals count_missing_b) c)
      ∙ totals-update a.shape s count_missing_b c in
    rest_of_a-Books s m _
      (subst (Books (waiting s m)) (sym e) (Books-rest (a.shape =? s) (waiting s m) (totals s c) b))

started : (top_n : ℕ) → Balanced (start top_n)
unfolding acc_of lookup waiting
started top_n s = record { of_a = refl; of_b = refl }

-- For every shape, once both files are read: the operations counted for A are those matched and those
-- missing in B, and the operations counted for B are those matched and those missing in A, each
-- modulo 2^64.
pub compare_ops-totals :
    (by_seq prefer_b : Bool) (top_n : ℕ) (ops_a ops_b : List Line) (s : ShapeName)
    → let t = totals s (compare_ops by_seq prefer_b top_n ops_a ops_b) in
      (t.ops_a ≡ u64 (t.matched + t.missing_in_b)) × (t.ops_b ≡ u64 (t.matched + t.missing_in_a))
unfolding compare_ops trim_diffs acc_of
compare_ops-totals by_seq prefer_b top_n ops_a ops_b s =
    let run = all_a by_seq ops_a (start top_n) in
    let b = rest_of_a-Books s _ _ (
      all_b-Balanced by_seq prefer_b ops_b run
        (all_a-Balanced by_seq ops_a (start top_n) (started top_n)) s) in
    (omega (arith, b.of_a), b.of_b)
