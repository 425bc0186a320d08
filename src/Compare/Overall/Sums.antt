-- ===== src/Compare/Overall/Sums.antt =====
-- compare.go: the totals of all shapes add up.
use percona_load_generator_m.Prelude.{
  ℕ, ◌+◌, Bool-cases, inl, inr, Bool, Option, none, some, List, [], ◌∷◌, ◌≡◌, refl, subst, All,
  arith, if◌then◌else◌,
}
use percona_load_generator_m.Prelude.Keys.{◌=?◌, lookup, insert, lookup-insert, beq_refl}
use percona_load_generator_m.Recording.Format.{u64}
use percona_load_generator_m.Compare.Outcomes.{ShapeName}
use percona_load_generator_m.Compare.Operations.{
  shape_name_eq, Totals, ShapeAcc, new_shape_acc, Line, update, acc_of,
}
use percona_load_generator_m.Compare.Feed.{compare_ops}
use percona_load_generator_m.Compare.Conserved.{compare_ops-totals}
use percona_load_generator_m.Compare.Kept.{compare_ops_kept}
use percona_load_generator_m.Compare.Overall.{merge_totals, merge_all, overall}

-- No shape twice.
abbrev Distinct : List (ShapeName × ShapeAcc) → Type 0
Distinct [] = Unit
Distinct ((s, acc) ∷ m) = (lookup s m ≡ none) × Distinct m

insert-Distinct :
    (s : ShapeName) (acc : ShapeAcc) (m : List (ShapeName × ShapeAcc))
    → Distinct m
    → Distinct (insert s acc m)
unfolding insert lookup
insert-Distinct s acc [] d = (refl, tt)
insert-Distinct s acc ((j, q) ∷ m) d = ground (
  arith,
  insert-Distinct s acc m,
  lookup-insert s j acc m,
  shape_name_eq.beq_iff j s,
  shape_name_eq.beq_iff s j,
)

-- The totals that add up.
abbrev Sound : Totals → Type 0
Sound t =
    (t.ops_a ≡ u64 (t.matched + t.missing_in_b)) × (t.ops_b ≡ u64 (t.matched + t.missing_in_a))

abbrev or_new : Option ShapeAcc → ShapeAcc
or_new none = new_shape_acc
or_new (some acc) = acc

All-Sound :
    (m : List (ShapeName × ShapeAcc))
    → Distinct m
    → ((s : ShapeName) → Sound (or_new (lookup s m)).t)
    → All (λ e. Sound e.1.t) m
unfolding lookup
All-Sound [] d h = tt
All-Sound ((s, acc) ∷ m) d h = (
  subst (λ b. Sound (or_new (if b then some acc else lookup s m)).t) (beq_refl s) (h s),
  All-Sound m d.1 (λ j. elim (Bool-cases (s =? j)) [
    | inl e ↦
        let q : lookup j m ≡ none =
          subst (λ z. lookup z m ≡ none) ((shape_name_eq.beq_iff s j).0 e) d.0 in
        rw q (refl, refl)
    | inr e ↦ subst (λ b. Sound (or_new (if b then some acc else lookup j m)).t) e (h j)
  ]),
)

merge_totals-Sound : (t u : Totals) → Sound t → Sound u → Sound (merge_totals t u)
unfolding merge_totals
merge_totals-Sound t u p q = (omega (arith, p.0, q.0), omega (arith, p.1, q.1))

merge_all-Sound :
    (t : Totals) (m : List (ShapeName × ShapeAcc))
    → Sound t
    → All (λ e. Sound e.1.t) m
    → Sound (merge_all t m)
unfolding merge_all
merge_all-Sound t [] p h = p
merge_all-Sound t ((s, acc) ∷ m) p h =
    merge_all-Sound (merge_totals t acc.t) m (merge_totals-Sound t acc.t p h.0) h.1

shapes-Distinct :
    (by_seq prefer_b : Bool) (top_n : ℕ) (ops_a ops_b : List Line)
    → Distinct (compare_ops by_seq prefer_b top_n ops_a ops_b).shapes
unfolding update
shapes-Distinct by_seq prefer_b top_n ops_a ops_b =
    compare_ops_kept (λ c. Distinct c.shapes)
      (λ s f c d. insert-Distinct s (f (acc_of s c)) c.shapes d) (λ c ds texts d. d) by_seq prefer_b
      top_n ops_a ops_b tt

-- In the totals of all shapes, the operations of A are those matched and those missing in B, and the
-- operations of B are those matched and those missing in A, each modulo 2^64.
pub overall-compare_ops :
    (by_seq prefer_b : Bool) (top_n : ℕ) (ops_a ops_b : List Line)
    → let t = overall (compare_ops by_seq prefer_b top_n ops_a ops_b) in
      (t.ops_a ≡ u64 (t.matched + t.missing_in_b)) × (t.ops_b ≡ u64 (t.matched + t.missing_in_a))
unfolding acc_of
overall-compare_ops by_seq prefer_b top_n ops_a ops_b =
    let c = compare_ops by_seq prefer_b top_n ops_a ops_b in
    merge_all-Sound new_shape_acc.t c.shapes (refl, refl)
      (All-Sound c.shapes (shapes-Distinct by_seq prefer_b top_n ops_a ops_b)
        (compare_ops-totals by_seq prefer_b top_n ops_a ops_b))
