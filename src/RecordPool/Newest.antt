-- ===== src/RecordPool/Newest.antt =====
-- The pool of a namespace keeps the newest documents, and only answers with them.
use percona_load_generator_m.Prelude.{
  ℕ, suc, ◌-◌, ◌<◌, ◌≤◌, ◌≡◌, refl, sym, ap, ◌∙◌, ◌⊎◌, inl, inr, String, false, Option, none, some,
  List, [], ◌∷◌, ◌++◌, ltb, length, length-append, length-drop, append-nil, append_assoc, drop_nil,
  drop_snoc, drop_one, get_elem_lem, List-cases, drop, get_elem?, arith, Bool-cases, if_split,
  if◌then◌else◌,
}
use percona_load_generator_m.Prelude.Int.{ℤ}
use percona_load_generator_m.Prelude.Keys.{
  ◌=?◌, beq_refl, lookup, insert, lookup-insert, nat_eq, string_eq,
}
use percona_load_generator_m.RecordPool.{
  Values, Doc, RecordPool, new_record_pool, records_of, add, choose, random,
}

module _ (v : Values) where
  -- The last `n` of a list.
  unfoldable pub newest : ℕ → List (Doc v) → List (Doc v)
  newest n docs = drop (length docs - n) docs

  -- The documents handed to `Add` in turn.
  unfoldable pub add_all : String → List (Doc v) → RecordPool v → RecordPool v
  unfolding add
  add_all ns [] p = p
  add_all ns (d ∷ docs) p = add_all ns docs (add v ns (some d) p)

  records_of-insert :
      (ns : String) (docs : List (Doc v)) (p : RecordPool v)
      → records_of v ns (record p { pools = insert ns docs p.pools }) ≡ docs
  unfolding records_of
  records_of-insert ns docs p =
      let q = lookup-insert {K = String} ns ns docs p.pools in
      let r = beq_refl {A = String} ns in ground (arith, q, r)

  -- What `Add` keeps of a namespace.
  abbrev kept : ℕ → List (Doc v) → List (Doc v)
  kept n docs = if ltb n (length docs) then drop (length docs - n) docs else docs

  kept-newest : (n : ℕ) (docs : List (Doc v)) → kept n docs ≡ newest n docs
  unfolding newest
  kept-newest n docs =
      if_split (λ (x : List (Doc v)). x ≡ drop (length docs - n) docs) (ltb n (length docs))
        (λ h. refl) (λ h. let z : length docs - n ≡ 0 = ground arith in rw z)

  add_ok :
      (ns : String) (d : Doc v) (p : RecordPool v)
      → (ns =? "") ≡ false
      → add v ns (some d) p
        ≡ (record p { pools = insert ns (kept p.max_size (records_of v ns p ++ d ∷ [])) p.pools })
  unfolding add
  add_ok ns d p h = rw h

  records_of-add :
      (ns : String) (d : Doc v) (p : RecordPool v)
      → (ns =? "") ≡ false
      → records_of v ns (add v ns (some d) p) ≡ newest p.max_size (records_of v ns p ++ d ∷ [])
  records_of-add ns d p h =
      ap (records_of v ns) (add_ok ns d p h)
      ∙ (records_of-insert ns (kept p.max_size (records_of v ns p ++ d ∷ [])) p
          ∙ kept-newest p.max_size (records_of v ns p ++ d ∷ []))

  max_size-add :
      (ns : String) (d : Option (Doc v)) (p : RecordPool v) → (add v ns d p).max_size ≡ p.max_size
  unfolding add
  max_size-add ns none p = refl
  max_size-add ns (some d) p =
      if_split (λ (x : RecordPool v). x.max_size ≡ p.max_size) (ns =? "") (λ h. refl) (λ h. refl)

  -- Keeping the newest as documents come is keeping the newest at the end.
  newest-newest :
      (n : ℕ) (docs : List (Doc v)) (d : Doc v)
      → newest n (newest n docs ++ d ∷ []) ≡ newest n (docs ++ d ∷ [])
  unfolding newest
  newest-newest n docs d =
      let k = length docs - n in
      let all = docs ++ d ∷ [] in
      let size = length-append docs (d ∷ []) in
      elim (Bool-cases (ltb (length docs) n)) [
        | inl h ↦ let z : k ≡ 0 = ground arith in rw z
        | inr h ↦
            let inner = length-append (drop k docs) (d ∷ []) in
            let part = length-drop k docs in
            let a : length (drop k docs ++ d ∷ []) - n ≡ 1 = ground arith in
            let b : length all - n ≡ suc k = ground arith in
            let fits : k ≤ length docs = omega arith in
            ap (λ m. drop m (drop k docs ++ d ∷ [])) a
            ∙ (ap (drop 1) (sym (drop_snoc k docs d fits))
                ∙ (drop_one k all ∙ ap (λ m. drop m all) (sym b)))
      ]

  records_of-add_all :
      (ns : String) (docs old : List (Doc v)) (p : RecordPool v)
      → (ns =? "") ≡ false
      → records_of v ns p ≡ newest p.max_size old
      → records_of v ns (add_all ns docs p) ≡ newest p.max_size (old ++ docs)
  unfolding add_all
  records_of-add_all ns [] old p h e = e ∙ ap (newest p.max_size) (sym (append-nil old))
  records_of-add_all ns (d ∷ docs) old p h e =
      let m = max_size-add ns (some d) p in
      let step =
        records_of-add ns d p h
        ∙ (ap (λ x. newest p.max_size (x ++ d ∷ [])) e ∙ newest-newest p.max_size old d) in
      records_of-add_all ns docs (old ++ d ∷ []) (add v ns (some d) p) h
        (step ∙ ap (λ n. newest n (old ++ d ∷ [])) (sym m))
      ∙ (ap (λ n. newest n ((old ++ d ∷ []) ++ docs)) m
          ∙ ap (newest p.max_size) (append_assoc old (d ∷ []) docs))

  -- After any documents are added to a namespace of a new pool, the namespace holds exactly the newest
  -- `maxSize` of them, in order (10000 where the size given is not positive).
  pub newest-add_all :
      (ns : String) (docs : List (Doc v)) (max_size : ℤ)
      → (ns =? "") ≡ false
      → records_of v ns (add_all ns docs (new_record_pool v max_size))
        ≡ newest (new_record_pool v max_size).max_size docs
  unfolding new_record_pool records_of lookup newest
  newest-add_all ns docs max_size h =
      records_of-add_all ns docs [] (new_record_pool v max_size) h
        (sym (drop_nil (0 - (new_record_pool v max_size).max_size)))

  choose_lem :
      (selector : Option (ℕ → ℤ)) (intn : ℕ → ℕ) (n : ℕ) → intn n < n → choose v selector intn n < n
  unfolding choose
  choose_lem none intn n h = h
  choose_lem (some index) intn n h = ground arith

  random_full :
      (ns : String) (selector : Option (ℕ → ℤ)) (intn : ℕ → ℕ) (p : RecordPool v)
      → (ns =? "") ≡ false
      → (length (records_of v ns p) =? 0) ≡ false
      → random v ns selector intn p
        ≡ get_elem? (records_of v ns p) (choose v selector intn (length (records_of v ns p)))
  unfolding random
  random_full ns selector intn p h k = rw (h, k)

  -- For a namespace that is not empty and a source of random numbers below their bound: `Random`
  -- answers nothing exactly when the namespace has no document, and otherwise with one of its documents,
  -- whatever the selector's index.
  pub random_lem :
      (ns : String) (selector : Option (ℕ → ℤ)) (intn : ℕ → ℕ) (p : RecordPool v)
      → (ns =? "") ≡ false
      → ((n : ℕ) → 0 < n → intn n < n)
      → (records_of v ns p ≡ []) × (random v ns selector intn p ≡ none)
        ⊎ (i : ℕ) × (d : Doc v) × (get_elem? (records_of v ns p) i ≡ some d)
          × (random v ns selector intn p ≡ some d)
  unfolding random
  random_lem ns selector intn p h law = elim (List-cases (records_of v ns p)) [
    | inl e ↦ inl (e, rw (h, e))
    | inr (x, xs, e) ↦
        let docs = records_of v ns p in
        let full : 0 < length docs = rw e (omega arith) in
        let (d, g) =
          get_elem_lem docs (choose v selector intn (length docs))
            (choose_lem selector intn (length docs) (law (length docs) full)) in
        let k : (length docs =? 0) ≡ false = ground arith in
        inr (choose v selector intn (length docs), d, g, random_full ns selector intn p h k ∙ g)
  ]
