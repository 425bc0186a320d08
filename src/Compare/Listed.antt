-- ===== src/Compare/Listed.antt =====
-- compare.go: the lowest entries of a list that is sorted and cut now and then.
use percona_load_generator_m.Prelude.{
  ℕ, zero, suc, take-take, append_assoc, append-nil, All-split, All-take, ◌≤◌, ◌≡◌, refl, sym, ap,
  ◌∙◌, true, false, List, [], ◌∷◌, ◌++◌, arith, Bool-cases, inl, inr, subst, if_split, take, All,
}
use percona_load_generator_m.Prelude.Keys.{int_eq, nat_eq}
use percona_load_generator_m.Compare.Operations.{OpKey, key_less, insert_diff, sort_diffs}

key_less_trans : (a b c : OpKey) → key_less a b ≡ true → key_less b c ≡ true → key_less a c ≡ true
unfolding key_less
key_less_trans a b c h k = ground arith

key_less_asym : (a b : OpKey) → key_less a b ≡ true → key_less b a ≡ false
unfolding key_less
key_less_asym a b h = ground arith

later-not : (a b c : OpKey) → key_less a b ≡ true → key_less c b ≡ false → key_less c a ≡ false
later-not a b c h k = elim (Bool-cases (key_less c a)) [
  | inl e ↦ cc (key_less_trans c a b e h, k)
  | inr e ↦ e
]

module _ {A : Type 0} where
  -- No later entry has a lower key.
  unfoldable pub Ordered : List (OpKey × A) → Type 0
  Ordered [] = Unit
  Ordered (e ∷ es) = All (λ x. key_less x.0 e.0 ≡ false) es × Ordered es

  take_cons :
      (n : ℕ) (e : OpKey × A) (es : List (OpKey × A)) → take n (e ∷ take n es) ≡ take n (e ∷ es)
  take_cons zero e es = refl
  take_cons (suc n) e es = ap (λ x. e ∷ x) (take-take n (suc n) es (omega arith))

  take-insert_diff :
      (n : ℕ) (d : OpKey × A) (l : List (OpKey × A))
      → take n (insert_diff d l) ≡ take n (insert_diff d (take n l))
  unfolding insert_diff
  take-insert_diff zero d l = refl
  take-insert_diff (suc n) d [] = refl
  take-insert_diff (suc n) d (e ∷ es) = elim (Bool-cases (key_less d.0 e.0)) [
    | inl h ↦ rw h (ap (λ x. d ∷ x) (sym (take_cons n e es)))
    | inr h ↦ rw h (ap (λ x. e ∷ x) (take-insert_diff n d es))
  ]

  -- The lowest entries after more are sorted in, from the lowest before.
  take-sort_diffs :
      (n : ℕ) (l l' ds : List (OpKey × A))
      → take n l ≡ take n l'
      → take n (sort_diffs l ds) ≡ take n (sort_diffs l' ds)
  unfolding sort_diffs
  take-sort_diffs n l l' [] h = h
  take-sort_diffs n l l' (d ∷ ds) h = take-sort_diffs n (insert_diff d l) (insert_diff d l') ds (
      take-insert_diff n d l ∙ ap (λ x. take n (insert_diff d x)) h ∙ sym (take-insert_diff n d l'))

  sort_diffs-append :
      (l ds es : List (OpKey × A)) → sort_diffs l (ds ++ es) ≡ sort_diffs (sort_diffs l ds) es
  unfolding sort_diffs
  sort_diffs-append l [] es = refl
  sort_diffs-append l (d ∷ ds) es = sort_diffs-append (insert_diff d l) ds es

  insert_diff-All :
      (P : OpKey × A → Type 0) (d : OpKey × A) (l : List (OpKey × A))
      → P d
      → All P l
      → All P (insert_diff d l)
  unfolding insert_diff
  insert_diff-All P d [] p q = (p, q)
  insert_diff-All P d (e ∷ es) p q =
      if_split (All P) (key_less d.0 e.0) (λ h. (p, q)) (λ h. (q.0, insert_diff-All P d es p q.1))

  All-later :
      (a b : OpKey)
      → key_less a b ≡ true
      → (l : List (OpKey × A)) → All (λ x. key_less x.0 b ≡ false) l
      → All (λ x. key_less x.0 a ≡ false) l
  All-later a b h [] p = tt
  All-later a b h (x ∷ l) p = (later-not a b x.0 h p.0, All-later a b h l p.1)

  insert_diff-Ordered :
      (d : OpKey × A) (l : List (OpKey × A)) → Ordered l → Ordered (insert_diff d l)
  unfolding insert_diff Ordered
  insert_diff-Ordered d [] o = (tt, tt)
  insert_diff-Ordered d (e ∷ es) o =
      if_split Ordered (key_less d.0 e.0)
        (λ h. ((key_less_asym d.0 e.0 h, All-later d.0 e.0 h es o.0), o))
        (λ h. (
          insert_diff-All (λ x. key_less x.0 e.0 ≡ false) d es h o.0,
          insert_diff-Ordered d es o.1,
        ))

  sort_diffs-Ordered : (l ds : List (OpKey × A)) → Ordered l → Ordered (sort_diffs l ds)
  unfolding sort_diffs
  sort_diffs-Ordered l [] o = o
  sort_diffs-Ordered l (d ∷ ds) o =
      sort_diffs-Ordered (insert_diff d l) ds (insert_diff-Ordered d l o)

  insert_diff_last :
      (d : OpKey × A) (l : List (OpKey × A))
      → All (λ x. key_less d.0 x.0 ≡ false) l
      → insert_diff d l ≡ l ++ d ∷ []
  unfolding insert_diff
  insert_diff_last d [] h = refl
  insert_diff_last d (e ∷ es) h = rw h.0 (ap (λ x. e ∷ x) (insert_diff_last d es h.1))

  Ordered-middle :
      (e : OpKey × A) (l es : List (OpKey × A))
      → Ordered (l ++ e ∷ es)
      → All (λ x. key_less e.0 x.0 ≡ false) l
  unfolding Ordered
  Ordered-middle e [] es o = tt
  Ordered-middle e (x ∷ l) es o =
      ((All-split (λ z. key_less z.0 x.0 ≡ false) l (e ∷ es) o.0).1.0, Ordered-middle e l es o.1)

  Ordered-take : (n : ℕ) (l : List (OpKey × A)) → Ordered l → Ordered (take n l)
  unfolding Ordered
  Ordered-take zero l o = tt
  Ordered-take (suc n) [] o = tt
  Ordered-take (suc n) (x ∷ l) o = (All-take _ n l o.0, Ordered-take n l o.1)

  sort_diffs_sorted : (l es : List (OpKey × A)) → Ordered (l ++ es) → sort_diffs l es ≡ l ++ es
  unfolding sort_diffs
  sort_diffs_sorted l [] o = sym (append-nil l)
  sort_diffs_sorted l (e ∷ es) o =
      ap (λ x. sort_diffs x es) (insert_diff_last e l (Ordered-middle e l es o))
      ∙ sort_diffs_sorted (l ++ e ∷ []) es (subst Ordered (sym (append_assoc l (e ∷ []) es)) o)
      ∙ append_assoc l (e ∷ []) es

  -- The lowest entries of a list and of more, after all but the lowest of the list are dropped.
  pub take-sort_diffs_trimmed :
      (n m : ℕ) (l es : List (OpKey × A))
      → n ≤ m
      → take n (sort_diffs [] (take m (sort_diffs [] l) ++ es)) ≡ take n (sort_diffs [] (l ++ es))
  unfolding Ordered
  take-sort_diffs_trimmed n m l es h =
      let s = sort_diffs [] l in
      ap (take n) (sort_diffs-append [] (take m s) es)
      ∙ take-sort_diffs n (sort_diffs [] (take m s)) s es (
          ap (take n)
            (sort_diffs_sorted [] (take m s) (Ordered-take m s (sort_diffs-Ordered [] l tt)))
          ∙ take-take n m s h)
      ∙ sym (ap (take n) (sort_diffs-append [] l es))
