-- ===== src/Compare/Itself.antt =====
-- compare.go: a comparison of a file with itself.
use percona_load_generator_m.Prelude.{
  ℕ, ◌+◌, ◌*◌, String, ◌≡◌, refl, sym, ap, ◌∙◌, subst, Bool, true, false, not, ◌&&◌, ◌||◌, Option,
  none, some, List, [], ◌∷◌, ◌++◌, arith, Option-cases, Bool-cases, inl, inr, if_split, take, zero,
  suc, if◌then◌else◌,
}
use percona_load_generator_m.Prelude.Int.{ℤ, pos}
use percona_load_generator_m.Prelude.Keys.{
  ◌=?◌, beq_refl, string_eq, int_eq, nat_eq, contains, lookup, insert, lookup-insert,
}
use percona_load_generator_m.Recording.Format.{Outcome}
use percona_load_generator_m.Compare.Outcomes.{ShapeName, OpResult, SumState, is_sum_ok}
use percona_load_generator_m.Compare.Operations.{
  OpKey, op_key_eq, shape_name_eq, ShapeAcc, DiffKind, OpDiff, Line, line_key, line_result,
  Comparer, update, acc_of, sort_diffs, trim_diffs, conclude, pair, pair_kinds, pair_counts,
  pair_checksums, bytes_eq, counts_eq, count_matched,
}
use percona_load_generator_m.Compare.Feed.{
  Run, start, in_totals, count_a, uncount_a, count_b, same, delete, note_summary, take_a, feed_a,
  move_a, match_b, take_b, feed_b, all_a, all_b, rest_of_a, compare_ops,
}
use percona_load_generator_m.Compare.Itself.Matched.{match_b_itself}
use percona_load_generator_m.Compare.Itself.FirstPass.{
  Distinct, lookup-delete, delete-Distinct, note_summary_quiet, or_first, entry, first, Held,
  all_a-Held,
}
pub mod Matched
pub mod FirstPass

-- The pass over B of the same lines: A still holds the first result of each key that is not seen.
record Mirrored (by_seq : Bool) (ls : List Line) (run : Run) : Type 0 where
  pub left :
      (j : OpKey) → lookup j run.a_ops ≡ (if contains j run.seen_b then none else first by_seq j ls)
  pub distinct : Distinct run.a_ops
  pub no_diffs : run.c.diffs ≡ []

-- A key that is seen is passed over.
seen_again :
    (k j : OpKey) (seen : List OpKey) (x y : Option OpResult)
    → contains k seen ≡ true
    → (if contains j seen then none else or_first (if k =? j then x else none) y)
      ≡ (if contains j seen then none else y)
seen_again k j seen x y h = elim (Bool-cases (k =? j)) [
  | inl e ↦
      let g : contains j seen ≡ true =
        subst (λ z. contains z seen ≡ true) ((op_key_eq.beq_iff k j).0 e) h in
      rw g refl
  | inr e ↦ rw e refl
]

now_seen :
    (b c : Bool) (x y : Option OpResult)
    → (if b then none else if c then none else or_first (if b then x else none) y)
      ≡ (if if b then true else c then none else y)
now_seen true c x y = refl
now_seen false true x y = refl
now_seen false false x y = refl

match_b-Mirrored :
    (by_seq prefer_b : Bool) (k : OpKey) (r : OpResult) (ls : List Line) (run : Run)
    → ((j : OpKey)
        → lookup j run.a_ops ≡ (
            if contains j run.seen_b
            then none
            else or_first (if k =? j then some r else none) (first by_seq j ls)))
    → Distinct run.a_ops
    → run.c.diffs ≡ []
    → Mirrored by_seq ls (match_b prefer_b k r r (record run { seen_b = k ∷ run.seen_b }))
unfolding match_b contains
match_b-Mirrored by_seq prefer_b k r ls run left d e = record {
  left = λ j.
      lookup-delete k j run.a_ops d
      ∙ ap (λ x. if k =? j then none else x) (left j)
      ∙ now_seen (k =? j) (contains j run.seen_b) (some r) (first by_seq j ls);
  distinct = delete-Distinct k run.a_ops d;
  no_diffs = match_b_itself prefer_b k r (record run { seen_b = k ∷ run.seen_b }) ∙ e;
}

take_b-Mirrored :
    (by_seq prefer_b : Bool) (k : OpKey) (r : OpResult) (ls : List Line) (run : Run)
    → ((j : OpKey)
        → lookup j run.a_ops ≡ (
            if contains j run.seen_b
            then none
            else or_first (if k =? j then some r else none) (first by_seq j ls)))
    → Distinct run.a_ops
    → run.c.diffs ≡ []
    → Mirrored by_seq ls (take_b prefer_b k r run)
unfolding take_b
take_b-Mirrored by_seq prefer_b k r ls run left d e = elim (Bool-cases (contains k run.seen_b)) [
  | inl g ↦
      rw (g, take_b)
        (record {
          left = λ j. left j ∙ seen_again k j run.seen_b (some r) (first by_seq j ls) g;
          distinct = d;
          no_diffs = e;
        })
  | inr g ↦
      let h : lookup k run.a_ops ≡ some r = left k ∙ rw (g, beq_refl k) refl in
      rw (g, h, take_b) (match_b-Mirrored by_seq prefer_b k r ls run left d e)
]

entry_some :
    (by_seq : Bool) (j : OpKey) (l : Line) (o : Outcome)
    → l.outcome ≡ some o
    → entry by_seq j l ≡ (if line_key by_seq l =? j then some (line_result l o l.shape) else none)
unfolding entry
entry_some by_seq j l o h =
    ap
      (λ x. elim x [
        | none ↦ none
        | some o ↦ if line_key by_seq l =? j then some (line_result l o l.shape) else none
      ])
      h

feed_b-Mirrored :
    (by_seq prefer_b : Bool) (l : Line) (ls : List Line) (run : Run)
    → Mirrored by_seq (l ∷ ls) run
    → Mirrored by_seq ls (feed_b by_seq prefer_b l run)
unfolding feed_b first entry
feed_b-Mirrored by_seq prefer_b l ls run p =
    let q = note_summary_quiet l run in
    let left : (j : OpKey)
        → lookup j (note_summary l run).a_ops
          ≡ (if contains j (note_summary l run).seen_b then none else first by_seq j (l ∷ ls)) =
      λ j.
        ap (lookup j) q.0
        ∙ p.left j
        ∙ sym (ap (λ x. if contains j x then none else first by_seq j (l ∷ ls)) q.1) in
    let d : Distinct (note_summary l run).a_ops = subst Distinct (sym q.0) p.distinct in
    let e : (note_summary l run).c.diffs ≡ [] = q.2 ∙ p.no_diffs in
    elim (Option-cases l.outcome) [
      | inl h ↦
          rw (h, feed_b)
            (record { left = λ j. left j ∙ rw (h, first, entry) refl; distinct = d; no_diffs = e })
      | inr (o, h) ↦
          rw (h, feed_b)
            (take_b-Mirrored by_seq prefer_b (line_key by_seq l) (line_result l o l.shape) ls
              (note_summary l run)
              (λ j.
                left j
                ∙ ap
                    (λ x.
                      if contains j (note_summary l run).seen_b
                      then none
                      else or_first x (first by_seq j ls))
                    (entry_some by_seq j l o h))
              d e)
    ]

all_b-Mirrored :
    (by_seq prefer_b : Bool) (ls : List Line) (run : Run)
    → Mirrored by_seq ls run
    → Mirrored by_seq [] (all_b by_seq prefer_b ls run)
unfolding all_b
all_b-Mirrored by_seq prefer_b [] run p = p
all_b-Mirrored by_seq prefer_b (l ∷ ls) run p =
    all_b-Mirrored by_seq prefer_b ls (feed_b by_seq prefer_b l run)
      (feed_b-Mirrored by_seq prefer_b l ls run p)

take_nil : (n : ℕ) → ◌≡◌ {A = List (OpKey × OpDiff)} (take n []) []
take_nil zero = refl
take_nil (suc n) = refl

nothing_left : (m : List (OpKey × OpResult)) → ((j : OpKey) → lookup j m ≡ none) → m ≡ []
unfolding lookup
nothing_left [] h = refl
nothing_left ((k, r) ∷ m) h = cc (h k, beq_refl k)

started :
    (by_seq : Bool) (top_n : ℕ) (ops : List Line)
    → Mirrored by_seq ops (all_a by_seq ops (start top_n))
unfolding lookup contains
started by_seq top_n ops =
    let a = all_a-Held by_seq ops (start top_n) tt in
    record {
      left = λ j.
          a.held j ∙ sym (ap (λ x. if contains j x then none else first by_seq j ops) a.unseen);
      distinct = a.distinct;
      no_diffs = a.no_diffs;
    }

unseen_empty : (b : Bool) → ◌≡◌ {A = Option OpResult} (if b then none else none) none
unseen_empty true = refl
unseen_empty false = refl

finished :
    (by_seq : Bool) (run : Run)
    → Mirrored by_seq [] run
    → (trim_diffs (rest_of_a run.a_ops run.c)).diffs ≡ []
unfolding rest_of_a trim_diffs sort_diffs first
finished by_seq run p =
    let e : run.a_ops ≡ [] =
      nothing_left run.a_ops (λ j. p.left j ∙ unseen_empty (contains j run.seen_b)) in
    subst (λ m. (trim_diffs (rest_of_a m run.c)).diffs ≡ []) (sym e)
      (subst (λ ds. take run.c.top_n (sort_diffs [] ds) ≡ []) (sym p.no_diffs)
        (take_nil run.c.top_n))

-- A file compared with itself has no differing operation, however it is matched.
pub compare_ops_itself :
    (by_seq prefer_b : Bool) (top_n : ℕ) (ops : List Line)
    → (compare_ops by_seq prefer_b top_n ops ops).diffs ≡ []
unfolding compare_ops
compare_ops_itself by_seq prefer_b top_n ops =
    finished by_seq _ (all_b-Mirrored by_seq prefer_b ops _ (started by_seq top_n ops))
