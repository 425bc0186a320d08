-- ===== src/Compare/Itself/FirstPass.antt =====
-- compare.go: what the pass over A leaves.
use percona_load_generator_m.Prelude.{
  ◌≡◌, refl, sym, ap, ◌∙◌, subst, Bool, Option, none, some, List, [], ◌∷◌, arith, Option-cases,
  Bool-cases, inl, inr, if_split, if◌then◌else◌,
}
use percona_load_generator_m.Prelude.Keys.{
  ◌=?◌, string_eq, int_eq, nat_eq, lookup, insert, lookup-insert,
}
use percona_load_generator_m.Compare.Outcomes.{OpResult}
use percona_load_generator_m.Compare.Operations.{
  OpKey, op_key_eq, shape_name_eq, Line, line_key, line_result, update,
}
use percona_load_generator_m.Compare.Feed.{Run, delete, note_summary, take_a, feed_a, all_a}

-- No key twice.
abbrev pub Distinct : List (OpKey × OpResult) → Type 0
Distinct [] = Unit
Distinct ((k, r) ∷ m) = (lookup k m ≡ none) × Distinct m

insert-Distinct :
    (k : OpKey) (r : OpResult) (m : List (OpKey × OpResult))
    → lookup k m ≡ none
    → Distinct m
    → Distinct (insert k r m)
unfolding insert lookup
insert-Distinct k r [] h d = (refl, tt)
insert-Distinct k r ((j, q) ∷ m) h d = ground (
  arith,
  insert-Distinct k r m,
  lookup-insert k j r m,
  op_key_eq.beq_iff j k,
  op_key_eq.beq_iff k j,
)

pub lookup-delete :
    (k j : OpKey) (m : List (OpKey × OpResult))
    → Distinct m
    → lookup j (delete k m) ≡ (if k =? j then none else lookup j m)
unfolding lookup delete
lookup-delete k j [] d = ground arith
lookup-delete k j ((i, q) ∷ m) d = ground (
  arith,
  lookup-delete k j m d.1,
  op_key_eq.beq_iff i k,
  op_key_eq.beq_iff k j,
  op_key_eq.beq_iff i j,
)

pub delete-Distinct : (k : OpKey) (m : List (OpKey × OpResult)) → Distinct m → Distinct (delete k m)
unfolding delete
delete-Distinct k [] d = tt
delete-Distinct k ((i, q) ∷ m) d =
    if_split Distinct (i =? k) (λ h. d.1)
      (λ h. (
        lookup-delete k i m d.1 ∙ if_split (λ x. x ≡ none) (k =? i) (λ g. refl) (λ g. d.0),
        delete-Distinct k m d.1,
      ))

abbrev pub or_first : Option OpResult → Option OpResult → Option OpResult
or_first none y = y
or_first (some r) y = some r

or_first_assoc : (x y z : Option OpResult) → or_first (or_first x y) z ≡ or_first x (or_first y z)
or_first_assoc none y z = refl
or_first_assoc (some r) y z = refl

-- The result of a line for a key, and that of the first such line.
unfoldable pub entry : Bool → OpKey → Line → Option OpResult
entry by_seq k l = elim l.outcome [
  | none ↦ none
  | some o ↦ if line_key by_seq l =? k then some (line_result l o l.shape) else none
]

unfoldable pub first : Bool → OpKey → List Line → Option OpResult
first by_seq k [] = none
first by_seq k (l ∷ ls) = or_first (entry by_seq k l) (first by_seq k ls)

lookup-take_a :
    (k j : OpKey) (r : OpResult) (run : Run)
    → lookup j (take_a k r run).a_ops
      ≡ or_first (lookup j run.a_ops) (if k =? j then some r else none)
unfolding take_a
lookup-take_a k j r run = elim (Option-cases (lookup k run.a_ops)) [
  | inr (old, h) ↦ rw (h, take_a) (ground (arith, h, op_key_eq.beq_iff k j))
  | inl h ↦
      rw (h, take_a) (lookup-insert k j r run.a_ops ∙ ground (arith, h, op_key_eq.beq_iff k j))
]

take_a-Distinct :
    (k : OpKey) (r : OpResult) (run : Run) → Distinct run.a_ops → Distinct (take_a k r run).a_ops
unfolding take_a
take_a-Distinct k r run d = elim (Option-cases (lookup k run.a_ops)) [
  | inr (old, h) ↦ rw (h, take_a) d
  | inl h ↦ rw (h, take_a) (insert-Distinct k r run.a_ops h d)
]

take_a_quiet :
    (k : OpKey) (r : OpResult) (run : Run)
    → ((take_a k r run).c.diffs ≡ run.c.diffs) × ((take_a k r run).seen_b ≡ run.seen_b)
unfolding take_a update
take_a_quiet k r run = elim (Option-cases (lookup k run.a_ops)) [
  | inr (old, h) ↦ rw (h, take_a) (refl, refl)
  | inl h ↦ rw (h, take_a) (refl, refl)
]

pub note_summary_quiet :
    (l : Line) (run : Run)
    → let run' = note_summary l run in
      (run'.a_ops ≡ run.a_ops) × (run'.seen_b ≡ run.seen_b) × (run'.c.diffs ≡ run.c.diffs)
note_summary_quiet l run = elim (Bool-cases (l.summary =? "")) [
  | inl h ↦ rw (h, note_summary) (refl, refl, refl)
  | inr h ↦ rw (h, note_summary) (refl, refl, refl)
]

-- What the pass over A leaves: the first result of each key, no key twice, and no differences.
pub record Held (by_seq : Bool) (ls : List Line) (run₀ run : Run) : Type 0 where
  pub held : (j : OpKey) → lookup j run.a_ops ≡ or_first (lookup j run₀.a_ops) (first by_seq j ls)
  pub distinct : Distinct run.a_ops
  pub unseen : run.seen_b ≡ run₀.seen_b
  pub no_diffs : run.c.diffs ≡ run₀.c.diffs

pub or_first_blank : (x : Option OpResult) → x ≡ or_first x none
or_first_blank none = refl
or_first_blank (some r) = refl

feed_a-Held :
    (by_seq : Bool) (l : Line) (run : Run)
    → Distinct run.a_ops
    → Held by_seq (l ∷ []) run (feed_a by_seq l run)
unfolding feed_a first entry
feed_a-Held by_seq l run d =
    let q = note_summary_quiet l run in
    elim (Option-cases l.outcome) [
      | inl h ↦ record {
        held = λ j. rw (h, feed_a, entry) (ap (lookup j) q.0 ∙ or_first_blank (lookup j run.a_ops));
        distinct = rw (h, feed_a) (subst Distinct (sym q.0) d);
        unseen = rw (h, feed_a) q.1;
        no_diffs = rw (h, feed_a) q.2;
      }
      | inr (o, h) ↦
          let k = line_key by_seq l in
          let r = line_result l o l.shape in
          let run' = note_summary l run in
          let t = take_a_quiet k r run' in
          record {
            held = λ j.
                rw (h, feed_a, entry)
                  (lookup-take_a k j r run'
                    ∙ ap (λ m. or_first (lookup j m) (if k =? j then some r else none)) q.0
                    ∙ ap (or_first (lookup j run.a_ops))
                        (or_first_blank (if k =? j then some r else none)));
            distinct = rw (h, feed_a) (take_a-Distinct k r run' (subst Distinct (sym q.0) d));
            unseen = rw (h, feed_a) (t.1 ∙ q.1);
            no_diffs = rw (h, feed_a) (t.0 ∙ q.2);
          }
    ]

pub all_a-Held :
    (by_seq : Bool) (ls : List Line) (run : Run)
    → Distinct run.a_ops
    → Held by_seq ls run (all_a by_seq ls run)
unfolding all_a first
all_a-Held by_seq [] run d = record {
  held = λ j. or_first_blank (lookup j run.a_ops);
  distinct = d;
  unseen = refl;
  no_diffs = refl;
}
all_a-Held by_seq (l ∷ ls) run d =
    let p = feed_a-Held by_seq l run d in
    let q = all_a-Held by_seq ls (feed_a by_seq l run) p.distinct in
    record {
      held = λ j.
          q.held j
          ∙ ap (λ x. or_first x (first by_seq j ls))
              (p.held j
                ∙ ap (or_first (lookup j run.a_ops)) (sym (or_first_blank (entry by_seq j l))))
          ∙ or_first_assoc (lookup j run.a_ops) (entry by_seq j l) (first by_seq j ls);
      distinct = q.distinct;
      unseen = q.unseen ∙ p.unseen;
      no_diffs = q.no_diffs ∙ p.no_diffs;
    }
