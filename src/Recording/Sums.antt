-- ===== src/Recording/Sums.antt =====
-- Ascending lists of pairs of a worker and its sum, as the enumeration of what each worker has.
use percona_load_generator_m.Prelude.{
  ℕ, zero, suc, ◌+◌, ◌≤◌, ◌<◌, ◌≡◌, refl, sym, ap, ◌∙◌, inl, inr, String, true, false, Option, none,
  some, subst, ap₂, Option-cases, List, [], ◌∷◌, All, arith, Bool-cases, ◌==◌, ==_iff,
}
use percona_load_generator_m.Prelude.Int.{ℤ, pos, ◌<ℤ◌, eqb_ℤ_iff}
use percona_load_generator_m.Prelude.Keys.{◌=?◌, lookup, int_eq}

-- The pairs of the workers i, i + 1, … that have one, up to `k` of them.
unfoldable pub enumerate : ℕ → ℕ → (ℤ → Option String) → List (ℤ × String)
enumerate i zero f = []
enumerate i (suc k) f =
    let rest = enumerate (suc i) k f in
    elim (f (pos i)) [ none ↦ rest | some v ↦ (pos i, v) ∷ rest ]

abbrev pub IsBelow : ℤ → ℤ × String → Type 0
IsBelow x p = x <ℤ p.0

unfoldable pub Ascending : List (ℤ × String) → Type 0
Ascending [] = Unit
Ascending (p ∷ ps) = All (IsBelow p.0) ps × Ascending ps

-- A worker from `i` on, of `k`.
abbrev pub IsWithin : ℕ → ℕ → ℤ → Type 0
IsWithin i k x = (j : ℕ) × (x ≡ pos j) × (i ≤ j) × (j < i + k)

enumerate-none :
    (i k : ℕ) (f : ℤ → Option String)
    → f (pos i) ≡ none
    → enumerate i (suc k) f ≡ enumerate (suc i) k f
unfolding enumerate
enumerate-none i k f h = rw (enumerate, h) refl

enumerate-some :
    (i k : ℕ) (f : ℤ → Option String) (v : String)
    → f (pos i) ≡ some v
    → enumerate i (suc k) f ≡ (pos i, v) ∷ enumerate (suc i) k f
unfolding enumerate
enumerate-some i k f v h = rw (enumerate, h) refl

pub enumerate-ext :
    (k i : ℕ) (f g : ℤ → Option String)
    → ((j : ℕ) → i ≤ j → j < i + k → f (pos j) ≡ g (pos j))
    → enumerate i k f ≡ enumerate i k g
unfolding enumerate
enumerate-ext zero i f g h = refl
enumerate-ext (suc k) i f g h =
    let rest = enumerate-ext k (suc i) f g (λ j a b. h j (omega (arith, a)) (omega (arith, b))) in
    let same = h i (omega arith) (omega arith) in
    elim (Option-cases (g (pos i))) [
      | inl e ↦ enumerate-none i k f (same ∙ e) ∙ (rest ∙ sym (enumerate-none i k g e))
      | inr (v, e) ↦
          enumerate-some i k f v (same ∙ e)
          ∙ (ap (λ ps. (pos i, v) ∷ ps) rest ∙ sym (enumerate-some i k g v e))
    ]

IsBelow-absent : (x : ℤ) (ps : List (ℤ × String)) → All (IsBelow x) ps → lookup x ps ≡ none
unfolding lookup
IsBelow-absent x [] h = refl
IsBelow-absent x ((y, v) ∷ ps) h =
    let d : (y =? x) ≡ false = (let b = h.0 in ground (arith, b)) in rw d (IsBelow-absent x ps h.1)

IsWithin-next :
    (i k : ℕ) (ps : List (ℤ × String))
    → All (λ p. IsWithin i (suc k) p.0) ps
    → All (IsBelow (pos i)) ps
    → All (λ p. IsWithin (suc i) k p.0) ps
IsWithin-next i k [] w b = tt
IsWithin-next i k (p ∷ ps) w b =
    let (j, e, l, u) = w.0 in
    let x : pos i <ℤ pos j = subst (λ y. pos i <ℤ y) e b.0 in
    ((j, e, omega (arith, x), omega (arith, u)), IsWithin-next i k ps w.1 b.1)

pub IsBelow-trans :
    (x y : ℤ) (ps : List (ℤ × String)) → x <ℤ y → All (IsBelow y) ps → All (IsBelow x) ps
IsBelow-trans x y [] h b = tt
IsBelow-trans x y (p ∷ ps) h b = let l = b.0 in (omega (arith, h, l), IsBelow-trans x y ps h b.1)

here : (x y : ℤ) (v : String) (ps : List (ℤ × String)) → x ≡ y → lookup y ((x, v) ∷ ps) ≡ some v
unfolding lookup
here x y v ps e = let t : (x =? y) ≡ true = (eqb_ℤ_iff x y).1 e in rw t refl

there :
    (x y : ℤ) (v : String) (ps : List (ℤ × String)) → x <ℤ y → lookup y ps ≡ lookup y ((x, v) ∷ ps)
unfolding lookup
there x y v ps l = let t : (x =? y) ≡ false = ground (arith, l) in rw t refl

-- An ascending list of pairs is the enumeration of what it has for each worker.
pub enumerate-lookup :
    (k i : ℕ) (ps : List (ℤ × String))
    → Ascending ps
    → All (λ p. IsWithin i k p.0) ps
    → ps ≡ enumerate i k (λ w. lookup w ps)
unfolding enumerate Ascending lookup
enumerate-lookup zero i [] a w = refl
enumerate-lookup zero i (p ∷ ps) a w = let (j, e, l, u) = w.0 in absurd (omega (arith, l, u))
enumerate-lookup (suc k) i [] a w = enumerate-lookup k (suc i) [] tt tt
enumerate-lookup (suc k) i ((x, v) ∷ ps) a w =
    let (j, e, l, u) = w.0 in
    let f : ℤ → Option String = λ y. lookup y ((x, v) ∷ ps) in
    elim (Bool-cases (j == i)) [
      | inl q ↦
          let h : x ≡ pos i = e ∙ ap pos ((==_iff j i).0 q) in
          let above = subst (λ y. All (IsBelow y) ps) h a.0 in
          let rest = enumerate-lookup k (suc i) ps a.1 (IsWithin-next i k ps w.1 above) in
          ap₂ (λ y qs. (y, v) ∷ qs) h
            (rest
              ∙ enumerate-ext k (suc i) (λ y. lookup y ps) f
                  (λ n b c.
                    there x (pos n) v ps (subst (λ y. y <ℤ pos n) (sym h) (omega (arith, b)))))
          ∙ sym (enumerate-some i k f v (here x (pos i) v ps h))
      | inr q ↦
          let less : i < j = ground (arith, l, q) in
          let first : pos i <ℤ x = subst (λ y. pos i <ℤ y) (sym e) (omega (arith, less)) in
          let above : All (IsBelow (pos i)) ((x, v) ∷ ps) =
            (first, IsBelow-trans (pos i) x ps first a.0) in
          enumerate-lookup k (suc i) ((x, v) ∷ ps) a (IsWithin-next i k ((x, v) ∷ ps) w above)
          ∙ sym (enumerate-none i k f (IsBelow-absent (pos i) ((x, v) ∷ ps) above))
    ]

enumerate-Below :
    (k i j : ℕ) (f : ℤ → Option String) → j < i → All (IsBelow (pos j)) (enumerate i k f)
unfolding enumerate
enumerate-Below zero i j f h = tt
enumerate-Below (suc k) i j f h =
    let rest = enumerate-Below k (suc i) j f (omega (arith, h)) in
    elim (Option-cases (f (pos i))) [
      | inl e ↦ subst (All (IsBelow (pos j))) (sym (enumerate-none i k f e)) rest
      | inr (v, e) ↦
          subst (All (IsBelow (pos j))) (sym (enumerate-some i k f v e)) (omega (arith, h), rest)
    ]

pub enumerate-Ascending : (k i : ℕ) (f : ℤ → Option String) → Ascending (enumerate i k f)
unfolding enumerate Ascending
enumerate-Ascending zero i f = tt
enumerate-Ascending (suc k) i f =
    let rest = enumerate-Ascending k (suc i) f in
    elim (Option-cases (f (pos i))) [
      | inl e ↦ subst Ascending (sym (enumerate-none i k f e)) rest
      | inr (v, e) ↦
          subst Ascending (sym (enumerate-some i k f v e))
            (enumerate-Below k (suc i) i f (omega arith), rest)
    ]
