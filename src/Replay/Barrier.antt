-- ===== src/Replay/Barrier.antt =====
-- The counter of pending operations, and the barrier between iterations.
use percona_load_generator_m.Prelude.{
  ℕ, suc, ◌+◌, ◌≡◌, refl, sym, ap, ◌∙◌, inl, inr, some, subst, List, [], ◌∷◌, arith, length, All,
  Option-cases,
}
use percona_load_generator_m.Prelude.Int.{ℤ, pos}
use percona_load_generator_m.Prelude.Keys.{int_eq}
use percona_load_generator_m.Recording.Format.{OpLine}
use percona_load_generator_m.Replay.{Replay, State, start, Event, step, run}
use percona_load_generator_m.Replay.Totals.{total-same}
use percona_load_generator_m.Replay.Changes.{
  Change, is_cancelled, closes, is_skipped, is_handed, begins, counts_down, finishes, cost_of,
  step-Change,
}
use percona_load_generator_m.Replay.Held.{
  workers, held, IsKnown, IsOf, Barrier, nonempty-InRange, changes_at, covered, zeros,
  handed-Barrier,
}
use percona_load_generator_m.Replay.Turns.{
  Turn, held_is, begins-Turn, counts_down-Turn, finishes-Turn,
}

module _ {B : Type 0} (replay : Replay B) where
  Turn-Barrier :
      (v : ℤ) (s s' : State B) → Turn replay v s s' → Barrier replay s → Barrier replay s'
  Turn-Barrier v s s' u b =
      let r = nonempty-InRange replay v s u.first u.others b u.before in
      let all : All (IsOf replay s.iteration) (u.first ∷ u.others) =
        subst (All (IsOf replay s.iteration)) u.before (b.current v) in
      let c = covered replay v s b r in
      let n : length (held replay s v) ≡ length u.others + 1 = ap length u.before ∙ omega arith in
      changes_at replay v s s' b r (subst (All (IsKnown replay)) (sym u.todo) b.known)
        (λ w k.
          held_is replay w s' (s.queues w) (s.running w) (u.off_queues w k) (u.off_running w k))
        (λ w k. subst (λ x. All (IsOf replay x) (held replay s w)) (sym u.iteration) (b.current w))
        (subst (λ x. All (IsOf replay x) (held replay s' v)) (sym u.iteration)
          (elim u.after [
            | inl (e, x, y) ↦ subst (All (IsOf replay s.iteration)) (sym e) all
            | inr (e, x, y) ↦ subst (All (IsOf replay s.iteration)) (sym e) all.1
          ]))
        (elim u.after [
          | inl (e, x, y) ↦ let m = ap length e in omega (arith, m, n, x)
          | inr (e, x, y) ↦ let m = ap length e in omega (arith, m, n, x, c)
        ])

  Same-Barrier :
      (s s' : State B)
      → Barrier replay s
      → All (IsKnown replay) s'.todo
      → s'.queues ≡ s.queues
      → s'.running ≡ s.running
      → s'.pending ≡ s.pending
      → s'.iteration ≡ s.iteration
      → Barrier replay s'
  Same-Barrier s s' b t q r p i =
      let same : (w : ℤ) → held replay s' w ≡ held replay s w =
        λ w. held_is replay w s' (s.queues w) (s.running w) (ap (λ f. f w) q) (ap (λ f. f w) r) in
      record {
        known = t;
        handed =
            let h = b.handed in
            let z =
              total-same (workers replay) (λ w. length (held replay s' w))
                (λ w. length (held replay s w)) (λ k l. ap length (same (pos (suc k)))) in
            omega (arith, h, z, p);
        range = λ w. elim (b.range w) [ inl x ↦ inl x | inr x ↦ inr (same w ∙ x) ];
        current = λ w.
            subst (All (IsOf replay s'.iteration)) (sym (same w))
              (subst (λ x. All (IsOf replay x) (held replay s w)) (sym i) (b.current w));
      }

  pub Change-Barrier :
      (n : ℕ) (s s' : State B) → Change replay n s s' → Barrier replay s → Barrier replay s'
  Change-Barrier n s s' (is_cancelled c (q, r, p, i) t x) b =
      Same-Barrier s s' b (subst (All (IsKnown replay)) (sym t) b.known) q r p i
  Change-Barrier n s s' (closes c (q, r, p, i) t x y) b =
      Same-Barrier s s' b (subst (All (IsKnown replay)) (sym t) b.known) q r p i
  Change-Barrier n s s' (is_skipped o c (q, r, p, i) t x) b =
      Same-Barrier s s' b (subst (All (IsKnown replay)) t b.known).1 q r p i
  Change-Barrier n s s' (is_handed o os c t m r e) b = rw e (handed-Barrier replay s o os b t m r)
  Change-Barrier n s s' (begins v o os c r q q' r' p off) b =
      Turn-Barrier v s s' (begins-Turn replay v s s' o os r q q' r' p off) b
  Change-Barrier n s s' (counts_down v o os c r q q' r' p off) b =
      Turn-Barrier v s s' (counts_down-Turn replay v s s' o os r q q' r' p off) b
  Change-Barrier n s s' (finishes v o c r q' r' p off) b =
      Turn-Barrier v s s' (finishes-Turn replay v s s' o r q' r' p off) b

  pub start-Barrier :
      (all : List (OpLine B)) → All (IsKnown replay) all → Barrier replay (start all)
  start-Barrier all k = record {
    known = k;
    handed = sym (
        total-same (workers replay) (λ w. 0) (λ w. 0) (λ i l. refl)
        ∙ zeros replay (workers replay));
    range = λ w. inr refl;
    current = λ w. tt;
  }

  pub run_Barrier :
      (evs : List (Event B)) (s s' : State B)
      → Barrier replay s
      → run replay evs s ≡ some s'
      → Barrier replay s'
  unfolding run
  run_Barrier [] s s' b h = let x : s ≡ s' = ground arith in subst (Barrier replay) x b
  run_Barrier (ev ∷ evs) s s' b h = elim (Option-cases (step replay ev s)) [
    | inl e ↦ ground arith
    | inr (t, e) ↦
        run_Barrier evs t s'
          (Change-Barrier (cost_of replay ev) s t (step-Change replay ev s t e) b) (ground arith)
  ]

  -- At any moment of a replay of operations with a worker of at least 1, the counter of pending
  -- operations is the number of those that were handed to a worker and have not ended, and these are
  -- all of one iteration: an iteration begins only after every operation of the one before has ended.
  pub run-Barrier :
      (evs : List (Event B)) (all : List (OpLine B)) (s : State B)
      → All (IsKnown replay) all
      → run replay evs (start all) ≡ some s
      → Barrier replay s
  run-Barrier evs all s k h = run_Barrier evs (start all) s (start-Barrier all k) h
