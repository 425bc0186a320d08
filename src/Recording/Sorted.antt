-- ===== src/Recording/Sorted.antt =====
-- The pairs that `CombineHashes` sorts by worker: their order depends only on what each worker has.
use percona_load_generator_m.Prelude.{
  ℕ, ◌≡◌, refl, ap, ◌∙◌, inl, inr, String, true, false, Option, none, some, subst, List, [], ◌∷◌,
  All, arith, Bool-cases, if_split, if◌then◌else◌,
}
use percona_load_generator_m.Prelude.Int.{ℤ, pos, ◌<ℤ◌, leb_ℤ, eqb_ℤ_iff}
use percona_load_generator_m.Prelude.Keys.{◌=?◌, lookup, lookup-insert, insert, int_eq}
use percona_load_generator_m.Recording.Writer.Close.{insert_pair, sort_pairs}
use percona_load_generator_m.Recording.Sums.{
  enumerate, IsBelow, Ascending, IsWithin, enumerate-ext, IsBelow-trans, enumerate-lookup,
  enumerate-Ascending,
}

insert_pair-All :
    (P : ℤ × String → Type 0) (p : ℤ × String) (ps : List (ℤ × String))
    → P p
    → All P ps
    → All P (insert_pair p ps)
unfolding insert_pair
insert_pair-All P p [] h a = (h, tt)
insert_pair-All P p (q ∷ ps) h a =
    if_split {A = List (ℤ × String)} (All P) (leb_ℤ p.0 q.0) (λ x. (h, a))
      (λ x. (a.0, insert_pair-All P p ps h a.1))

pub sort_pairs-All :
    (P : ℤ × String → Type 0) (ps : List (ℤ × String)) → All P ps → All P (sort_pairs ps)
unfolding sort_pairs
sort_pairs-All P [] a = tt
sort_pairs-All P (p ∷ ps) a = insert_pair-All P p (sort_pairs ps) a.0 (sort_pairs-All P ps a.1)

absent :
    (x y : ℤ) (v : String) (ps : List (ℤ × String))
    → lookup y ((x, v) ∷ ps) ≡ none
    → ((x =? y) ≡ false) × (lookup y ps ≡ none)
unfolding lookup
absent x y v ps h = elim (Bool-cases (x =? y)) [
  | inl e ↦ let h' : some v ≡ none = rw e at h in absurd cc
  | inr e ↦ (e, rw e at h)
]

insert_pair-Ascending :
    (p : ℤ × String) (ps : List (ℤ × String))
    → lookup p.0 ps ≡ none
    → Ascending ps
    → Ascending (insert_pair p ps)
unfolding insert_pair Ascending lookup
insert_pair-Ascending p [] n a = (tt, tt)
insert_pair-Ascending p (q ∷ ps) n a =
    let (d, m) = absent q.0 p.0 q.1 ps n in
    if_split {A = List (ℤ × String)} Ascending (leb_ℤ p.0 q.0)
      (λ x. let l : p.0 <ℤ q.0 = ground (arith, x, d) in ((l, IsBelow-trans p.0 q.0 ps l a.0), a))
      (λ x.
        let l : q.0 <ℤ p.0 = ground (arith, x) in
        (insert_pair-All (IsBelow q.0) p ps l a.0, insert_pair-Ascending p ps m a.1))

lookup-insert_pair :
    (w : ℤ) (p : ℤ × String) (ps : List (ℤ × String))
    → lookup w (insert_pair p ps) ≡ (if p.0 =? w then some p.1 else lookup w ps)
unfolding insert_pair lookup
lookup-insert_pair w p [] = refl
lookup-insert_pair w p (q ∷ ps) =
    if_split {A = List (ℤ × String)}
      (λ l. lookup w l ≡ (if p.0 =? w then some p.1 else lookup w (q ∷ ps))) (leb_ℤ p.0 q.0)
      (λ x. refl) (λ x. let h = lookup-insert_pair w p ps in ground (arith, h, x))

pub lookup-sort_pairs : (w : ℤ) (ps : List (ℤ × String)) → lookup w (sort_pairs ps) ≡ lookup w ps
unfolding sort_pairs lookup
lookup-sort_pairs w [] = refl
lookup-sort_pairs w (p ∷ ps) =
    lookup-insert_pair w p (sort_pairs ps)
    ∙ ap (λ r. if p.0 =? w then some p.1 else r) (lookup-sort_pairs w ps)

-- No worker has two pairs.
unfoldable pub NoDup : List (ℤ × String) → Type 0
NoDup [] = Unit
NoDup (p ∷ ps) = (lookup p.0 ps ≡ none) × NoDup ps

pub sort_pairs-Ascending : (ps : List (ℤ × String)) → NoDup ps → Ascending (sort_pairs ps)
unfolding sort_pairs NoDup Ascending
sort_pairs-Ascending [] n = tt
sort_pairs-Ascending (p ∷ ps) n =
    insert_pair-Ascending p (sort_pairs ps) (lookup-sort_pairs p.0 ps ∙ n.0)
      (sort_pairs-Ascending ps n.1)

-- The sorted pairs are what each worker has, in the order of the workers.
pub sort_pairs-enumerate :
    (k i : ℕ) (ps : List (ℤ × String))
    → NoDup ps
    → All (λ p. IsWithin i k p.0) ps
    → sort_pairs ps ≡ enumerate i k (λ w. lookup w ps)
sort_pairs-enumerate k i ps n a =
    enumerate-lookup k i (sort_pairs ps) (sort_pairs-Ascending ps n)
      (sort_pairs-All (λ p. IsWithin i k p.0) ps a)
    ∙ enumerate-ext k i (λ w. lookup w (sort_pairs ps)) (λ w. lookup w ps)
        (λ j b c. lookup-sort_pairs (pos j) ps)

pub insert-NoDup : (k : ℤ) (v : String) (m : List (ℤ × String)) → NoDup m → NoDup (insert k v m)
unfolding insert NoDup lookup
insert-NoDup k v [] n = (refl, tt)
insert-NoDup k v ((j, w) ∷ m) n = elim (Bool-cases (j =? k)) [
  | inl e ↦ rw e (subst (λ x. lookup x m ≡ none) ((eqb_ℤ_iff j k).0 e) n.0, n.1)
  | inr e ↦
      let d : (k =? j) ≡ false = ground (arith, e) in
      rw e (lookup-insert k j v m ∙ rw d n.0, insert-NoDup k v m n.1)
]

pub insert-All :
    (P : ℤ → Type 0) (k : ℤ) (v : String) (m : List (ℤ × String))
    → P k
    → All (λ p. P p.0) m
    → All (λ p. P p.0) (insert k v m)
unfolding insert
insert-All P k v [] h a = (h, tt)
insert-All P k v ((j, w) ∷ m) h a =
    if_split {A = List (ℤ × String)} (All (λ p. P p.0)) (j =? k) (λ x. (h, a.1))
      (λ x. (a.0, insert-All P k v m h a.1))

-- An ascending list is sorted already.
sort_pairs-Ascending_id : (ps : List (ℤ × String)) → Ascending ps → sort_pairs ps ≡ ps
unfolding sort_pairs insert_pair Ascending
sort_pairs-Ascending_id [] a = refl
sort_pairs-Ascending_id (p ∷ []) a = refl
sort_pairs-Ascending_id (p ∷ q ∷ ps) a =
    let l : leb_ℤ p.0 q.0 ≡ true = (let b = a.0.0 in ground (arith, b)) in
    ap (insert_pair p) (sort_pairs-Ascending_id (q ∷ ps) a.1) ∙ rw l refl

pub sort_pairs-id :
    (k i : ℕ) (f : ℤ → Option String) → sort_pairs (enumerate i k f) ≡ enumerate i k f
sort_pairs-id k i f = sort_pairs-Ascending_id (enumerate i k f) (enumerate-Ascending k i f)
