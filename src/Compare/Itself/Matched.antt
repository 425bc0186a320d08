-- ===== src/Compare/Itself/Matched.antt =====
-- compare.go: an operation that is matched with itself.
use percona_load_generator_m.Prelude.{
  ℕ, ◌≡◌, refl, sym, ◌∙◌, subst, Bool, true, List, [], ◌∷◌, arith, if_split, if◌then◌else◌,
}
use percona_load_generator_m.Prelude.Keys.{◌=?◌, beq_refl, string_eq, int_eq, nat_eq}
use percona_load_generator_m.Compare.Outcomes.{ShapeName, OpResult}
use percona_load_generator_m.Compare.Operations.{
  OpKey, op_key_eq, shape_name_eq, ShapeAcc, Comparer, update, acc_of, conclude, pair, pair_kinds,
  pair_counts, pair_checksums, bytes_eq, count_matched,
}
use percona_load_generator_m.Compare.Feed.{Run, move_a, match_b}

bytes_eq_refl : (xs : List ℕ) → bytes_eq xs xs ≡ true
unfolding bytes_eq
bytes_eq_refl [] = refl
bytes_eq_refl (x ∷ xs) = ground (arith, bytes_eq_refl xs)

-- An operation does not differ from itself.
pair_kinds_itself : (r : OpResult) (acc : ShapeAcc) → (pair_kinds r r acc).0 ≡ []
unfolding pair_kinds pair_counts pair_checksums
pair_kinds_itself r acc = ground (
  arith,
  bytes_eq_refl r.sum,
  beq_refl r.txn,
  beq_refl r.err_name,
  beq_refl r.err_code,
  beq_refl r.counts.returned.count,
  beq_refl r.counts.inserted.count,
  beq_refl r.counts.matched.count,
  beq_refl r.counts.modified.count,
  beq_refl r.counts.upserted.count,
  beq_refl r.counts.deleted.count,
)

pair_itself : (k : OpKey) (r : OpResult) (c : Comparer) → (pair k r r c).diffs ≡ c.diffs
unfolding pair conclude update
pair_itself k r c =
    let q = pair_kinds r r (count_matched (acc_of r.shape c)) in
    subst (λ ds. (conclude k r r ds q.1 c).diffs ≡ c.diffs)
      (sym (pair_kinds_itself r (count_matched (acc_of r.shape c)))) refl

move_a-diffs : (s : ShapeName) (a : OpResult) (c : Comparer) → (move_a s a c).diffs ≡ c.diffs
unfolding move_a update
move_a-diffs s a c =
    if_split (λ (x : Comparer). x.diffs ≡ c.diffs) (s =? a.shape) (λ h. refl) (λ h. refl)

pub match_b_itself :
    (prefer_b : Bool) (k : OpKey) (r : OpResult) (run : Run)
    → (match_b prefer_b k r r run).c.diffs ≡ run.c.diffs
unfolding match_b update
match_b_itself prefer_b k r run =
    let s = if prefer_b then r.shape else r.shape in
    pair_itself k (record r { shape = s }) _ ∙ move_a-diffs s r _
