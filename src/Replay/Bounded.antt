-- ===== src/Replay/Bounded.antt =====
-- The steps of a replay are bounded.
use percona_load_generator_m.Prelude.{
  ℕ, suc, ◌+◌, ◌*◌, ◌≤◌, ◌≡◌, refl, ap, ◌∙◌, inl, inr, false, some, subst, List, [], ◌∷◌, ◌++◌,
  arith, length, length-append, All, Option-cases, if◌then◌else◌,
}
use percona_load_generator_m.Prelude.Int.{ℤ, pos, ltb_ℤ}
use percona_load_generator_m.Prelude.Keys.{int_eq}
use percona_load_generator_m.Recording.Format.{OpLine}
use percona_load_generator_m.Replay.{Replay, State, start, Event, enqueue_op, step, run}
use percona_load_generator_m.Replay.Totals.{total, total-same}
use percona_load_generator_m.Replay.Changes.{
  Change, is_cancelled, closes, is_skipped, is_handed, begins, counts_down, finishes, cost_of,
  step-Change,
}
use percona_load_generator_m.Replay.Held.{
  workers, held, IsKnown, Barrier, in_range, total-differ, nonempty-InRange, at_key, off_key, grown,
  zeros,
}
use percona_load_generator_m.Replay.Turns.{
  Turn, held_is, begins-Turn, counts_down-Turn, finishes-Turn,
}
use percona_load_generator_m.Replay.Barrier.{Change-Barrier, start-Barrier}

module _ {B : Type 0} (replay : Replay B) where
  -- The steps that a worker's operations still take: two where it is queued, one where it runs.
  abbrev steps_of : State B → ℤ → ℕ
  steps_of s w = length (held replay s w) + length (s.queues w)

  -- The steps that are left: three for an operation to be read, and the end of reading.
  unfoldable pub effort : State B → ℕ
  effort s = 3 * length s.todo + (if s.reading then 1 else 0) + total (workers replay) (steps_of s)

  Same-total :
      (s s' : State B)
      → s'.queues ≡ s.queues
      → s'.running ≡ s.running
      → total (workers replay) (steps_of s') ≡ total (workers replay) (steps_of s)
  Same-total s s' q r = total-same (workers replay) (steps_of s') (steps_of s) (λ k l.
      let w = pos (suc k) in
      let h =
        ap length
          (held_is replay w s' (s.queues w) (s.running w) (ap (λ f. f w) q) (ap (λ f. f w) r)) in
      let n = ap (λ f. length (f w)) q in omega (arith, h, n))

  Turn-effort :
      (v : ℤ) (s s' : State B) → Turn replay v s s' → Barrier replay s → effort s' + 1 ≤ effort s
  unfolding effort
  Turn-effort v s s' u b =
      let r = nonempty-InRange replay v s u.first u.others b u.before in
      let d = total-differ replay v (steps_of s') (steps_of s) r (λ w k.
        let h =
          ap length (
            held_is replay w s' (s.queues w) (s.running w) (u.off_queues w k)
              (u.off_running w k)) in
        let n = ap length (u.off_queues w k) in omega (arith, h, n)) in
      let n : length (held replay s v) ≡ length u.others + 1 = ap length u.before ∙ omega arith in
      rw (u.todo, u.reading)
        (elim u.after [
          | inl (e, x, y) ↦ let m = ap length e in omega (arith, d, n, m, y)
          | inr (e, x, y) ↦ let m = ap length e in omega (arith, d, n, m, y)
        ])

  handed-effort :
      (s : State B) (o : OpLine B) (os : List (OpLine B))
      → Barrier replay s
      → s.todo ≡ o ∷ os
      → ltb_ℤ replay.workers o.worker ≡ false
      → effort (enqueue_op replay o os s) + 1 ≤ effort s
  unfolding effort
  handed-effort s o os b t r =
      let known : All (IsKnown replay) (o ∷ os) = subst (All (IsKnown replay)) t b.known in
      let s' = enqueue_op replay o os s in
      let v = o.worker in
      let d = total-differ replay v (steps_of s') (steps_of s) (in_range replay v known.0 r) (λ w k.
        let e = off_key replay s.queues v w (s.queues v ++ o ∷ []) k in
        let h = ap length (held_is replay w s' (s.queues w) (s.running w) e refl) in
        let n = ap length e in omega (arith, h, n)) in
      let h = ap length (grown replay s o os) ∙ length-append (held replay s v) (o ∷ []) in
      let q =
        ap length (at_key replay s.queues v (s.queues v ++ o ∷ []))
        ∙ length-append (s.queues v) (o ∷ []) in
      let n : length s.todo ≡ length os + 1 = ap length t ∙ omega arith in omega (arith, d, h, q, n)

  Change-effort :
      (n : ℕ) (s s' : State B) → Change replay n s s' → Barrier replay s → effort s' + n ≤ effort s
  unfolding effort
  Change-effort n s s' (is_cancelled c (q, r, p, i) t x) b =
      let h = Same-total s s' q r in rw (t, x, h, c) (omega arith)
  Change-effort n s s' (closes c (q, r, p, i) t x y) b =
      let h = Same-total s s' q r in rw (t, x, y, h, c) (omega arith)
  Change-effort n s s' (is_skipped o c (q, r, p, i) t x) b =
      let h = Same-total s s' q r in
      let m : length s.todo ≡ length s'.todo + 1 = ap length t ∙ omega arith in
      rw (x, h, c) (omega (arith, m))
  Change-effort n s s' (is_handed o os c t m r e) b = rw (e, c) (handed-effort s o os b t r)
  Change-effort n s s' (begins v o os c r q q' r' p off) b =
      rw c (Turn-effort v s s' (begins-Turn replay v s s' o os r q q' r' p off) b)
  Change-effort n s s' (counts_down v o os c r q q' r' p off) b =
      rw c (Turn-effort v s s' (counts_down-Turn replay v s s' o os r q q' r' p off) b)
  Change-effort n s s' (finishes v o c r q' r' p off) b =
      rw c (Turn-effort v s s' (finishes-Turn replay v s s' o r q' r' p off) b)

  -- The events of a run that are not cancellations.
  unfoldable pub steps_in : List (Event B) → ℕ
  steps_in [] = 0
  steps_in (ev ∷ evs) = cost_of replay ev + steps_in evs

  run-effort :
      (evs : List (Event B)) (s s' : State B)
      → Barrier replay s
      → run replay evs s ≡ some s'
      → effort s' + steps_in evs ≤ effort s
  unfolding run steps_in
  run-effort [] s s' b h = let x : s ≡ s' = ground arith in rw x (omega arith)
  run-effort (ev ∷ evs) s s' b h = elim (Option-cases (step replay ev s)) [
    | inl e ↦ ground arith
    | inr (t, e) ↦
        let c = step-Change replay ev s t e in
        let one = Change-effort (cost_of replay ev) s t c b in
        let b' = Change-Barrier replay (cost_of replay ev) s t c b in
        let rest = run-effort evs t s' b' (ground arith) in omega (arith, one, rest)
  ]

  -- A replay of operations with a worker of at least 1 takes, in any order, at most three steps for
  -- each operation and one more, besides cancellations.
  pub run-Bounded :
      (evs : List (Event B)) (all : List (OpLine B)) (s : State B)
      → All (IsKnown replay) all
      → run replay evs (start all) ≡ some s
      → steps_in evs ≤ 3 * length all + 1
  unfolding effort
  run-Bounded evs all s k h =
      let e = run-effort evs (start all) s (start-Barrier replay all k) h in
      let z = total-same (workers replay) (steps_of (start all)) (λ w. 0) (λ i l. refl) in
      let z' = zeros replay (workers replay) in omega (arith, e, z, z')
