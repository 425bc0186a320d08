-- ===== src/Compare/Books.antt =====
-- compare.go: what each step of the comparer does to the totals of one shape.
use percona_load_generator_m.Prelude.{
  ℕ, ◌+◌, ◌≡◌, refl, sym, ap, Bool, true, false, Option, none, some, List, [], ◌∷◌, arith, subst,
  if_split, if◌then◌else◌,
}
use percona_load_generator_m.Prelude.Keys.{◌=?◌, lookup, insert, lookup-insert}
use percona_load_generator_m.Recording.Format.{u64}
use percona_load_generator_m.Compare.Outcomes.{ShapeName, OpResult}
use percona_load_generator_m.Compare.Operations.{
  OpKey, op_key_eq, shape_name_eq, Totals, ShapeAcc, DiffKind, Comparer, acc_of, update, trim_diffs,
  add_diff, push_diff, inc, conclude, pair, pair_kinds, pair_counts, pair_checksums, count_matched,
  count_differing,
}
use percona_load_generator_m.Compare.Feed.{
  in_totals, count_a, uncount_a, count_b, same, delete, move_a,
}

pub acc_of-update :
    (r s : ShapeName) (f : ShapeAcc → ShapeAcc) (c : Comparer)
    → acc_of s (update r f c) ≡ (if r =? s then f (acc_of r c) else acc_of s c)
unfolding acc_of update
acc_of-update r s f c = let q = lookup-insert r s (f (acc_of r c)) c.shapes in ground (arith, q)

pub acc_of-add_diff :
    (s : ShapeName) (k : OpKey) (id : OpResult) (a b : Option OpResult) (kinds : List DiffKind)
    (c : Comparer)
    → acc_of s (add_diff k id a b kinds c) ≡ acc_of s c
unfolding add_diff push_diff trim_diffs acc_of
acc_of-add_diff s k id a b kinds c =
    if_split (λ (x : Comparer). acc_of s x ≡ acc_of s c) _ (λ h. refl) (λ h. refl)

-- The operations of A of a shape that wait for a match.
unfoldable pub waiting : ShapeName → List (OpKey × OpResult) → ℕ
waiting s [] = 0
waiting s ((k, r) ∷ m) = (if r.shape =? s then 1 else 0) + waiting s m

pub waiting-insert :
    (s : ShapeName) (k : OpKey) (r : OpResult) (m : List (OpKey × OpResult))
    → lookup k m ≡ none
    → waiting s (insert k r m) ≡ (if r.shape =? s then 1 else 0) + waiting s m
unfolding waiting lookup insert
waiting-insert s k r [] h = refl
waiting-insert s k r ((j, q) ∷ m) h = ground (arith, waiting-insert s k r m)

pub waiting-delete :
    (s : ShapeName) (k : OpKey) (a : OpResult) (m : List (OpKey × OpResult))
    → lookup k m ≡ some a
    → (if a.shape =? s then 1 else 0) + waiting s (delete k m) ≡ waiting s m
unfolding waiting lookup delete
waiting-delete s k a [] h = cc
waiting-delete s k a ((j, q) ∷ m) h = ground (arith, waiting-delete s k a m)

-- The books of a shape, with `n` operations of A waiting.
pub record Books (n : ℕ) (t : Totals) : Type 0 where
  pub of_a : t.ops_a ≡ u64 (t.matched + t.missing_in_b + n)
  pub of_b : t.ops_b ≡ u64 (t.matched + t.missing_in_a)

pair_kinds-same :
    (a b : OpResult) (acc : ShapeAcc)
    → let t = (pair_kinds a b acc).1.t in
      (t.ops_a ≡ acc.t.ops_a)
      × (t.ops_b ≡ acc.t.ops_b)
      × (t.matched ≡ acc.t.matched)
      × (t.missing_in_a ≡ acc.t.missing_in_a)
      × (t.missing_in_b ≡ acc.t.missing_in_b)
unfolding pair_kinds pair_counts pair_checksums
pair_kinds-same a b acc = ground arith

-- The totals of a shape.
abbrev pub totals : ShapeName → Comparer → Totals
totals s c = (acc_of s c).t

update_split :
    (b : Bool) (P : ShapeAcc → Bool → Type 0) (x y : ShapeAcc)
    → (b ≡ true → P x true)
    → P y false
    → P (if b then x else y) b
update_split true P x y p q = p refl
update_split false P x y p q = q

-- What holds of the accumulator of a shape after the update of a shape.
pub acc_of-update_split :
    (P : ShapeAcc → Bool → Type 0) (r s : ShapeName) (f : ShapeAcc → ShapeAcc) (c : Comparer)
    → (r ≡ s → P (f (acc_of r c)) true)
    → P (acc_of s c) false
    → P (acc_of s (update r f c)) (r =? s)
acc_of-update_split P r s f c p q =
    subst (λ x. P x (r =? s)) (sym (acc_of-update r s f c))
      (update_split (r =? s) P (f (acc_of r c)) (acc_of s c)
        (λ h. p ((shape_name_eq.beq_iff r s).0 h)) q)

pub totals-update :
    (r s : ShapeName) (g : Totals → Totals) (c : Comparer)
    → totals s (update r (in_totals g) c) ≡ (if r =? s then g (totals s c) else totals s c)
totals-update r s g c =
    acc_of-update_split (λ x b. x.t ≡ (if b then g (totals s c) else totals s c)) r s (in_totals g)
      c (ap (λ z. g (totals z c))) refl

pub totals-update-same : (r s : ShapeName) (c : Comparer) → totals s (update r same c) ≡ totals s c
totals-update-same r s c =
    acc_of-update_split (λ x b. x.t ≡ totals s c) r s same c (ap (λ z. totals z c)) refl

pub totals-add_diff :
    (s : ShapeName) (k : OpKey) (id : OpResult) (a b : Option OpResult) (kinds : List DiffKind)
    (c : Comparer)
    → totals s (add_diff k id a b kinds c) ≡ totals s c
totals-add_diff s k id a b kinds c = ap (λ x. x.t) (acc_of-add_diff s k id a b kinds c)

-- What `pair` does to the books.
pub record Paired (hit : Bool) (t' t : Totals) : Type 0 where
  pub a_kept : t'.ops_a ≡ t.ops_a
  pub b_kept : t'.ops_b ≡ t.ops_b
  pub a_missing : t'.missing_in_a ≡ t.missing_in_a
  pub b_missing : t'.missing_in_b ≡ t.missing_in_b
  pub now_matched : t'.matched ≡ (if hit then inc t.matched else t.matched)

Paired-update :
    (r s : ShapeName) (x : ShapeAcc) (c : Comparer)
    → Paired true x.t (totals r c)
    → Paired (r =? s) (totals s (update r (λ acc. x) c)) (totals s c)
Paired-update r s x c p =
    acc_of-update_split (λ y b. Paired b y.t (totals s c)) r s (λ acc. x) c
      (λ e. subst (λ z. Paired true x.t (totals z c)) e p)
      (record {
        a_kept = refl;
        b_kept = refl;
        a_missing = refl;
        b_missing = refl;
        now_matched = refl;
      })

conclude-Paired :
    (s : ShapeName) (k : OpKey) (a b : OpResult) (kinds : List DiffKind) (acc : ShapeAcc)
    (c : Comparer)
    → Paired true acc.t (totals a.shape c)
    → Paired (a.shape =? s) (totals s (conclude k a b kinds acc c)) (totals s c)
unfolding conclude
conclude-Paired s k a b [] acc c p = Paired-update a.shape s acc c p
conclude-Paired s k a b (d ∷ ds) acc c p =
    rw
      (totals-add_diff s k a (some a) (some b) (d ∷ ds)
        (update a.shape (λ old. count_differing acc) c))
      (Paired-update a.shape s (count_differing acc) c (record {
        a_kept = p.a_kept;
        b_kept = p.b_kept;
        a_missing = p.a_missing;
        b_missing = p.b_missing;
        now_matched = p.now_matched;
      }))

pub pair-Paired :
    (s : ShapeName) (k : OpKey) (a b : OpResult) (c : Comparer)
    → Paired (a.shape =? s) (totals s (pair k a b c)) (totals s c)
unfolding pair
pair-Paired s k a b c =
    let acc = count_matched (acc_of a.shape c) in
    let q = pair_kinds-same a b acc in
    conclude-Paired s k a b (pair_kinds a b acc).0 (pair_kinds a b acc).1 c
      (record { a_kept = q.0; b_kept = q.1; a_missing = q.3; b_missing = q.4; now_matched = q.2 })

-- The totals of a shape after the step to the shape of a matched operation, by whether the new
-- shape and the old one are this one.
abbrev pub moved : Bool → Bool → Totals → Totals
moved true true t = t
moved true false t = count_a t
moved false true t = uncount_a t
moved false false t = t

moved-same : (b : Bool) (t : Totals) → t ≡ moved b b t
moved-same true t = refl
moved-same false t = refl

moved-apart :
    (shape s : ShapeName) (a : OpResult) (c : Comparer)
    → (shape =? a.shape) ≡ false
    → totals s (update shape (in_totals count_a) (update a.shape (in_totals uncount_a) c))
      ≡ moved (shape =? s) (a.shape =? s) (totals s c)
moved-apart shape s a c h =
    acc_of-update_split (λ x b. x.t ≡ moved b (a.shape =? s) (totals s c)) shape s
      (in_totals count_a) (update a.shape (in_totals uncount_a) c)
      (λ e.
        subst
          (λ z.
            (in_totals count_a (acc_of shape (update a.shape (in_totals uncount_a) c))).t
            ≡ moved true (a.shape =? z) (totals z c))
          e
          (acc_of-update_split (λ x b. (in_totals count_a x).t ≡ moved true b (totals shape c))
            a.shape shape (in_totals uncount_a) c
            (λ e'. cc ((shape_name_eq.beq_iff shape a.shape).1 (sym e'))) refl))
      (acc_of-update_split (λ x b. x.t ≡ moved false b (totals s c)) a.shape s (in_totals uncount_a)
        c (ap (λ z. uncount_a (totals z c))) refl)

pub totals-move_a :
    (shape s : ShapeName) (a : OpResult) (c : Comparer)
    → totals s (move_a shape a c) ≡ moved (shape =? s) (a.shape =? s) (totals s c)
unfolding move_a
totals-move_a shape s a c =
    if_split (λ (x : Comparer). totals s x ≡ moved (shape =? s) (a.shape =? s) (totals s c))
      (shape =? a.shape)
      (λ h.
        subst (λ z. totals s c ≡ moved (shape =? s) (z =? s) (totals s c))
          ((shape_name_eq.beq_iff shape a.shape).0 h) (moved-same (shape =? s) (totals s c)))
      (moved-apart shape s a c)

-- The books of a shape through a match.
pub Books-match :
    (here was : Bool) (n n' : ℕ) (t t' : Totals)
    → (if was then 1 else 0) + n' ≡ n
    → Paired here t' (moved here was (if here then count_b t else t))
    → Books n t
    → Books n' t'
Books-match true true n n' t t' e p b = record {
  of_a = omega (arith, p.a_kept, p.b_kept, p.a_missing, p.b_missing, p.now_matched, b.of_a, b.of_b);
  of_b = omega (arith, p.a_kept, p.b_kept, p.a_missing, p.b_missing, p.now_matched, b.of_a, b.of_b);
}
Books-match true false n n' t t' e p b = record {
  of_a = omega (arith, p.a_kept, p.b_kept, p.a_missing, p.b_missing, p.now_matched, b.of_a, b.of_b);
  of_b = omega (arith, p.a_kept, p.b_kept, p.a_missing, p.b_missing, p.now_matched, b.of_a, b.of_b);
}
Books-match false true n n' t t' e p b = record {
  of_a = omega (arith, p.a_kept, p.b_kept, p.a_missing, p.b_missing, p.now_matched, b.of_a, b.of_b);
  of_b = omega (arith, p.a_kept, p.b_kept, p.a_missing, p.b_missing, p.now_matched, b.of_a, b.of_b);
}
Books-match false false n n' t t' e p b = record {
  of_a = omega (arith, p.a_kept, p.b_kept, p.a_missing, p.b_missing, p.now_matched, b.of_a, b.of_b);
  of_b = omega (arith, p.a_kept, p.b_kept, p.a_missing, p.b_missing, p.now_matched, b.of_a, b.of_b);
}
