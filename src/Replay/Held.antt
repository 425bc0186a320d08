-- ===== src/Replay/Held.antt =====
-- What the workers of a replay hold, the counter of pending operations, and how a step changes them.
use percona_load_generator_m.Prelude.{
  ℕ, zero, suc, ◌+◌, ◌<◌, ◌≤◌, ◌≡◌, refl, sym, ap, ◌∙◌, ◌⊎◌, inl, inr, false, subst, List, [], ◌∷◌,
  ◌++◌, append_assoc, arith, length, length-append, All, All-append, Bool-cases, List-cases, ◌==◌,
}
use percona_load_generator_m.Prelude.Int.{ℤ, pos, negsuc, pos_part, ltb_ℤ, eqb_ℤ_iff}
use percona_load_generator_m.Prelude.Keys.{◌=?◌, beq_refl, int_eq}
use percona_load_generator_m.Recording.Format.{OpLine, op_iteration}
use percona_load_generator_m.Replay.{Replay, State, must_wait, enqueue_op, update}
use percona_load_generator_m.Replay.Totals.{total, total-at, total-zero, le-total}
use percona_load_generator_m.Replay.Moves.{flight}

module _ {B : Type 0} (replay : Replay B) where
  -- The goroutines that the replay starts.
  abbrev pub workers : ℕ
  workers = pos_part replay.workers

  abbrev pub InRange : ℤ → Type 0
  InRange w = (i : ℕ) × (w ≡ pos (suc i)) × (i < workers)

  -- What a worker was handed and has not ended.
  abbrev pub held : State B → ℤ → List (OpLine B)
  held s w = flight replay (s.running w) ++ s.queues w

  -- `parseOp` refuses the other operations.
  abbrev pub IsKnown : OpLine B → Type 0
  IsKnown o = ltb_ℤ o.worker (pos 1) ≡ false

  abbrev pub IsOf : ℤ → OpLine B → Type 0
  IsOf it o = op_iteration o ≡ it

  -- The counter is the number of the operations that were handed to the workers and have not ended,
  -- and all of these are of the current iteration.
  pub record Barrier (s : State B) : Type 0 where
    pub known : All IsKnown s.todo
    pub handed : s.pending ≡ total workers (λ w. length (held s w))
    pub range : (w : ℤ) → InRange w ⊎ (held s w ≡ [])
    pub current : (w : ℤ) → All (IsOf s.iteration) (held s w)

  pub in_range : (w : ℤ) → ltb_ℤ w (pos 1) ≡ false → ltb_ℤ replay.workers w ≡ false → InRange w
  in_range (pos zero) k h = ground arith
  in_range (pos (suc i)) k h = (i, refl, ground arith)
  in_range (negsuc n) k h = ground arith

  pos_differ : (i k : ℕ) → (i == k) ≡ false → (pos (suc i) =? pos (suc k)) ≡ false
  pos_differ i k h = ground arith

  -- Sums that differ at one worker.
  pub total-differ :
      (v : ℤ) (f g : ℤ → ℕ)
      → InRange v
      → ((w : ℤ) → (v =? w) ≡ false → f w ≡ g w)
      → total workers f + g v ≡ total workers g + f v
  total-differ v f g (i, e, l) h =
      let one = total-at workers i f g l (λ k b. h (pos (suc k)) (rw e (pos_differ i k b))) in
      rw e one

  pub nonempty-InRange :
      (v : ℤ) (s : State B) (o : OpLine B) (os : List (OpLine B))
      → Barrier s
      → held s v ≡ o ∷ os
      → InRange v
  nonempty-InRange v s o os b e = elim (b.range v) [
    | inl r ↦ r
    | inr x ↦ let n : length (o ∷ os) ≡ 0 = ap length (sym e ∙ x) in absurd (omega (arith, n))
  ]

  -- The operations of one worker change.
  pub changes_at :
      (v : ℤ) (s s' : State B)
      → Barrier s
      → InRange v
      → All IsKnown s'.todo
      → ((w : ℤ) → (v =? w) ≡ false → held s' w ≡ held s w)
      → ((w : ℤ) → (v =? w) ≡ false → All (IsOf s'.iteration) (held s w))
      → All (IsOf s'.iteration) (held s' v)
      → s'.pending + length (held s v) ≡ s.pending + length (held s' v)
      → Barrier s'
  changes_at v s s' b r t off its now count = record {
    known = t;
    handed =
        let d =
          total-differ v (λ w. length (held s' w)) (λ w. length (held s w)) r
            (λ w k. ap length (off w k)) in
        let h = b.handed in omega (arith, d, h, count);
    range = λ w. elim (Bool-cases (v =? w)) [
      | inl k ↦ inl (subst InRange ((eqb_ℤ_iff v w).0 k) r)
      | inr k ↦ elim (b.range w) [ inl x ↦ inl x | inr x ↦ inr (off w k ∙ x) ]
    ];
    current = λ w. elim (Bool-cases (v =? w)) [
      | inl k ↦ subst (λ x. All (IsOf s'.iteration) (held s' x)) ((eqb_ℤ_iff v w).0 k) now
      | inr k ↦ subst (All (IsOf s'.iteration)) (sym (off w k)) (its w k)
    ];
  }

  -- The counter covers a worker's operations.
  pub covered : (v : ℤ) (s : State B) → Barrier s → InRange v → length (held s v) ≤ s.pending
  covered v s b (i, e, l) =
      let h = le-total workers i (λ w. length (held s w)) l in
      let p = b.handed in rw e (omega (arith, h, p))

  -- The operations of the worker `v`, and of the others, after an update.
  pub at_key : {A : Type 0} (f : ℤ → A) (v : ℤ) (a : A) → update f v a v ≡ a
  at_key f v a = rw (beq_refl v) refl

  pub off_key : {A : Type 0} (f : ℤ → A) (v w : ℤ) (a : A) → (v =? w) ≡ false → update f v a w ≡ f w
  off_key f v w a k = rw k refl

  pub zeros : (n : ℕ) → total n (λ w. 0) ≡ 0
  zeros zero = refl
  zeros (suc n) = let h = zeros n in omega (arith, h)

  -- Nothing is pending.
  pub nothing : (s : State B) → Barrier s → s.pending ≡ 0 → (w : ℤ) → held s w ≡ []
  nothing s b p w = elim (b.range w) [
    | inr x ↦ x
    | inl (i, e, l) ↦
        let h = b.handed in
        let z = total-zero workers i (λ x. length (held s x)) l (omega (arith, h, p)) in
        elim (List-cases (held s (pos (suc i)))) [
          | inl x ↦ rw e x
          | inr (o, os, x) ↦
              let n : length (held s (pos (suc i))) ≡ suc (length os) = ap length x in
              absurd (omega (arith, n, z))
        ]
  ]

  -- The callback hands over an operation only at the end of its predecessors' iteration.
  pub ready :
      (s : State B) (o : OpLine B)
      → Barrier s
      → must_wait replay o s ≡ false
      → (w : ℤ) → All (IsOf (op_iteration o)) (held s w)
  ready s o b m w = elim (Bool-cases (op_iteration o =? s.iteration)) [
    | inl e ↦
        let it : op_iteration o ≡ s.iteration = (eqb_ℤ_iff (op_iteration o) s.iteration).0 e in
        subst (λ x. All (IsOf x) (held s w)) (sym it) (b.current w)
    | inr e ↦
        let p : s.pending ≡ 0 = ground (arith, e, m) in
        subst (All (IsOf (op_iteration o))) (sym (nothing s b p w)) tt
  ]

  pub grown :
      (s : State B) (o : OpLine B) (os : List (OpLine B))
      → held (enqueue_op replay o os s) o.worker ≡ held s o.worker ++ o ∷ []
  grown s o os =
      ap (λ q. flight replay (s.running o.worker) ++ q)
        (at_key s.queues o.worker (s.queues o.worker ++ o ∷ []))
      ∙ sym (append_assoc (flight replay (s.running o.worker)) (s.queues o.worker) (o ∷ []))

  pub handed-Barrier :
      (s : State B) (o : OpLine B) (os : List (OpLine B))
      → Barrier s
      → s.todo ≡ o ∷ os
      → must_wait replay o s ≡ false
      → ltb_ℤ replay.workers o.worker ≡ false
      → Barrier (enqueue_op replay o os s)
  handed-Barrier s o os b t m r =
      let known : All IsKnown (o ∷ os) = subst (All IsKnown) t b.known in
      let s' = enqueue_op replay o os s in
      let v = o.worker in
      changes_at v s s' b (in_range v known.0 r) known.1
        (λ w k. ap (λ q. flight replay (s.running w) ++ q) (off_key s.queues v w _ k))
        (λ w k. ready s o b m w)
        (subst (All (IsOf (op_iteration o))) (sym (grown s o os))
          (All-append (IsOf (op_iteration o)) (held s v) (o ∷ []) (ready s o b m v) (refl, tt)))
        (let n : length (held s' v) ≡ length (held s v) + 1 =
            ap length (grown s o os) ∙ length-append (held s v) (o ∷ []) in
          omega (arith, n))
