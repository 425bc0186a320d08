-- ===== src/Recording/Hashes.antt =====
-- What the commands hash of a recording covers: the commands of each worker, in their order.
use percona_load_generator_m.Prelude.{
  ℕ, ◌≡◌, refl, sym, ap, ◌∙◌, inl, inr, String, Option, none, some, subst, List, [], ◌∷◌, ◌++◌,
  append_assoc, All, Bool-cases, if◌then◌else◌,
}
use percona_load_generator_m.Prelude.Int.{ℤ, pos, eqb_ℤ_iff}
use percona_load_generator_m.Prelude.Keys.{◌=?◌, lookup, insert, lookup-insert, int_eq}
use percona_load_generator_m.Recording.Codec.{Codec}
use percona_load_generator_m.Recording.Sums.{enumerate, IsWithin, enumerate-ext}
use percona_load_generator_m.Recording.Sorted.{
  NoDup, sort_pairs-enumerate, insert-NoDup, insert-All,
}
use percona_load_generator_m.Recording.Writer.State.{Queued}
use percona_load_generator_m.Recording.Writer.Steps.{commands_of}
use percona_load_generator_m.Recording.Writer.Close.{combine_hashes, sums_of}
use percona_load_generator_m.Recording.Writer.Run.{hashes_after}

module _ (c : Codec) where
  open c use {Bytes}

  -- The sum of a worker's hash, which it has from its first operation on.
  unfoldable pub sum_of_sent : List Bytes → Option String
  sum_of_sent [] = none
  sum_of_sent (b ∷ bs) = some (c.stream_sum (b ∷ bs))

  -- A worker's commands in a recording.
  unfoldable pub commands_in : ℤ → List (Queued c) → List Bytes
  commands_in w [] = []
  commands_in w (q ∷ qs) =
      let rest = commands_in w qs in if q.entry.worker =? w then q.cmd ∷ rest else rest

  -- What a worker's hash was given, and then these commands.
  unfoldable joined : Option (List Bytes) → List Bytes → Option (List Bytes)
  joined o [] = o
  joined none (b ∷ bs) = some (b ∷ bs)
  joined (some xs) (b ∷ bs) = some (xs ++ b ∷ bs)

  abbrev given : Option (List Bytes) → List Bytes
  given o = elim o [ none ↦ [] | some bs ↦ bs ]

  joined-some :
      (xs : List Bytes) (b : Bytes) (bs : List Bytes)
      → joined (some (xs ++ b ∷ [])) bs ≡ some (xs ++ b ∷ bs)
  unfolding joined
  joined-some xs b [] = refl
  joined-some xs b (x ∷ bs) = ap some (append_assoc xs (b ∷ []) (x ∷ bs))

  joined_step :
      (o : Option (List Bytes)) (b : Bytes) (bs : List Bytes)
      → joined (some (given o ++ b ∷ [])) bs ≡ joined o (b ∷ bs)
  unfolding joined
  joined_step none b bs = joined-some [] b bs
  joined_step (some xs) b bs = joined-some xs b bs

  lookup-hashes_after :
      (w : ℤ) (hs : List (ℤ × List Bytes)) (qs : List (Queued c))
      → lookup w (hashes_after c hs qs) ≡ joined (lookup w hs) (commands_in w qs)
  unfolding hashes_after commands_in joined
  lookup-hashes_after w hs [] = refl
  lookup-hashes_after w hs (q ∷ qs) =
      let v = q.entry.worker in
      let hs' = insert v (commands_of c v hs ++ q.cmd ∷ []) hs in
      let rest = lookup-hashes_after w hs' qs in
      let now = lookup-insert v w (commands_of c v hs ++ q.cmd ∷ []) hs in
      let then_rest = rest ∙ ap (λ o. joined o (commands_in w qs)) now in
      elim (Bool-cases (v =? w)) [
        | inl e ↦
            let own : lookup v hs ≡ lookup w hs = ap (λ x. lookup x hs) ((eqb_ℤ_iff v w).0 e) in
            then_rest
            ∙ rw e (
                joined_step (lookup v hs) q.cmd (commands_in w qs)
                ∙ ap (λ o. joined o (q.cmd ∷ commands_in w qs)) own)
        | inr e ↦ then_rest ∙ rw e refl
      ]

  abbrev commands_sum : Option (List Bytes) → Option String
  commands_sum none = none
  commands_sum (some bs) = some (c.stream_sum bs)

  lookup-sums_of :
      (w : ℤ) (m : List (ℤ × List Bytes)) → lookup w (sums_of c m) ≡ commands_sum (lookup w m)
  unfolding sums_of lookup
  lookup-sums_of w [] = refl
  lookup-sums_of w ((v, bs) ∷ m) = elim (Bool-cases (v =? w)) [
    | inl e ↦ rw e refl
    | inr e ↦ rw e (lookup-sums_of w m)
  ]

  sums_of-insert :
      (w : ℤ) (bs : List Bytes) (m : List (ℤ × List Bytes))
      → sums_of c (insert w bs m) ≡ insert w (c.stream_sum bs) (sums_of c m)
  unfolding sums_of insert
  sums_of-insert w bs [] = refl
  sums_of-insert w bs ((v, xs) ∷ m) = elim (Bool-cases (v =? w)) [
    | inl e ↦ rw e refl
    | inr e ↦ rw e (ap (λ ps. (v, c.stream_sum xs) ∷ ps) (sums_of-insert w bs m))
  ]

  commands_sum-joined : (bs : List Bytes) → commands_sum (joined none bs) ≡ sum_of_sent bs
  unfolding joined sum_of_sent
  commands_sum-joined [] = refl
  commands_sum-joined (b ∷ bs) = refl

  sum_of_given :
      (w : ℤ) (qs : List (Queued c))
      → lookup w (sums_of c (hashes_after c [] qs)) ≡ sum_of_sent (commands_in w qs)
  unfolding joined sum_of_sent lookup
  sum_of_given w qs =
      lookup-sums_of w (hashes_after c [] qs)
      ∙ (ap commands_sum (lookup-hashes_after w [] qs) ∙ commands_sum-joined (commands_in w qs))

  -- The recording's workers are 1 to k.
  abbrev pub AreWorkers : ℕ → List (Queued c) → Type 0
  AreWorkers k qs = All (λ q. IsWithin 1 k q.entry.worker) qs

  sums_of-NoDup :
      (hs : List (ℤ × List Bytes)) (qs : List (Queued c))
      → NoDup (sums_of c hs)
      → NoDup (sums_of c (hashes_after c hs qs))
  unfolding hashes_after
  sums_of-NoDup hs [] n = n
  sums_of-NoDup hs (q ∷ qs) n =
      let v = q.entry.worker in
      let bs = commands_of c v hs ++ q.cmd ∷ [] in
      sums_of-NoDup (insert v bs hs) qs (
        subst NoDup (sym (sums_of-insert v bs hs))
          (insert-NoDup v (c.stream_sum bs) (sums_of c hs) n))

  sums_of-All :
      (k : ℕ) (hs : List (ℤ × List Bytes)) (qs : List (Queued c))
      → All (λ p. IsWithin 1 k p.0) (sums_of c hs)
      → AreWorkers k qs
      → All (λ p. IsWithin 1 k p.0) (sums_of c (hashes_after c hs qs))
  unfolding hashes_after
  sums_of-All k hs [] n a = n
  sums_of-All k hs (q ∷ qs) n a =
      let v = q.entry.worker in
      let bs = commands_of c v hs ++ q.cmd ∷ [] in
      sums_of-All k (insert v bs hs) qs
        (subst (All (λ p. IsWithin 1 k p.0)) (sym (sums_of-insert v bs hs))
          (insert-All (IsWithin 1 k) v (c.stream_sum bs) (sums_of c hs) a.0 n))
        a.1

  -- The hash of a recording, from the commands of its workers 1, 2, …
  pub hash_of_done :
      (k : ℕ) (qs : List (Queued c))
      → AreWorkers k qs
      → combine_hashes c (sums_of c (hashes_after c [] qs))
        ≡ c.pairs_sum (enumerate 1 k (λ w. sum_of_sent (commands_in w qs)))
  unfolding combine_hashes sums_of NoDup
  hash_of_done k qs a = ap c.pairs_sum (
      sort_pairs-enumerate k 1 (sums_of c (hashes_after c [] qs)) (sums_of-NoDup [] qs tt)
        (sums_of-All k [] qs tt a)
      ∙ enumerate-ext k 1 (λ w. lookup w (sums_of c (hashes_after c [] qs)))
          (λ w. sum_of_sent (commands_in w qs)) (λ j b l. sum_of_given (pos j) qs))
