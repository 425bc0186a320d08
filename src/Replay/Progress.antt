-- ===== src/Replay/Progress.antt =====
-- A replay never blocks before its end.
use percona_load_generator_m.Prelude.{
  ℕ, suc, ◌+◌, ◌≡◌, refl, ap, ◌∙◌, ◌⊎◌, inl, inr, true, false, none, some, List, [], ◌∷◌, ◌++◌,
  arith, length, length-append, All, Option-cases, List-cases, Bool-cases,
}
use percona_load_generator_m.Prelude.Int.{ℤ, ltb_ℤ}
use percona_load_generator_m.Prelude.Keys.{int_eq}
use percona_load_generator_m.Recording.Format.{OpLine, u64}
use percona_load_generator_m.Replay.{
  Replay, State, start, Event, reads, ends_reading, starts, returns, executed, must_wait, skips,
  feed, enqueue_op, read_op, end_reading, start_op, return_op, step, run,
}
use percona_load_generator_m.Replay.Totals.{total-cases}
use percona_load_generator_m.Replay.Moves.{flight}
use percona_load_generator_m.Replay.Changes.{cost_of}
use percona_load_generator_m.Replay.Held.{workers, held, IsKnown, nothing}
use percona_load_generator_m.Replay.Turns.{held_is}
use percona_load_generator_m.Replay.Barrier.{run-Barrier}

module _ {B : Type 0} (replay : Replay B) where
  -- Nothing is read any more, and no worker has anything.
  abbrev pub IsOver : State B → Type 0
  IsOver s = (s.reading ≡ false) × ((w : ℤ) → held replay s w ≡ [])

  -- An event other than a cancellation can happen.
  abbrev pub CanStep : State B → Type 0
  CanStep s =
      (ev : Event B) × (s' : State B) × (cost_of replay ev ≡ 1) × (step replay ev s ≡ some s')

  can_return : (w : ℤ) (s : State B) (o : OpLine B) → s.running w ≡ some o → CanStep s
  unfolding step return_op
  can_return w s o r = elim (Option-cases (return_op replay w (executed true o.cmd) s)) [
    | inl e ↦ ground arith
    | inr (s', e) ↦ (returns w (executed true o.cmd), s', refl, e)
  ]

  can_start :
      (w : ℤ) (s : State B) (o : OpLine B) (os : List (OpLine B))
      → s.running w ≡ none
      → s.queues w ≡ o ∷ os
      → CanStep s
  unfolding step start_op
  can_start w s o os r q = elim (Option-cases (start_op replay w s)) [
    | inl e ↦ ground arith
    | inr (s', e) ↦ (starts w, s', refl, e)
  ]

  can_feed :
      (s : State B) (o : OpLine B) (os : List (OpLine B))
      → s.pending ≡ 0
      → s.queues o.worker ≡ []
      → (s' : State B) × (feed replay o os s ≡ some s')
  can_feed s o os p q = elim (Bool-cases (ltb_ℤ replay.workers o.worker)) [
    | inl r ↦ (record s { reading = false; stream_error = some "worker out of range" }, rw r refl)
    | inr r ↦ elim (Bool-cases (skips replay o)) [
      | inl k ↦ (record s { todo = os; skipped = u64 (s.skipped + 1) }, rw (r, k) refl)
      | inr k ↦
          let m : must_wait replay o s ≡ false = ground (arith, p) in
          (enqueue_op replay o os s, rw (r, k, m, q) refl)
    ]
  ]

  no_queue : (xs ys : List (OpLine B)) → xs ++ ys ≡ [] → ys ≡ []
  no_queue xs ys h = elim (List-cases ys) [
    | inl e ↦ e
    | inr (o, os, e) ↦
        let n = length-append xs ys in
        let m = ap length h in let k = ap length e in absurd (omega (arith, n, m, k))
  ]

  read_feed :
      (s : State B) (o : OpLine B) (os : List (OpLine B))
      → s.todo ≡ o ∷ os
      → s.reading ≡ true
      → read_op replay s ≡ feed replay o os s
  unfolding read_op
  read_feed s o os t r = ground arith

  can_read :
      (s : State B)
      → s.reading ≡ true
      → s.pending ≡ 0
      → ((w : ℤ) → held replay s w ≡ [])
      → CanStep s
  unfolding step read_op end_reading
  can_read s r p h = elim (List-cases s.todo) [
    | inl t ↦ (
      ends_reading,
      record s { reading = false; stream_error = replay.stream_end },
      refl,
      rw (t, r) refl,
    )
    | inr (o, os, t) ↦
        let (s', f) =
          can_feed s o os p
            (no_queue (flight replay (s.running o.worker)) (s.queues o.worker) (h o.worker)) in
        (reads, s', refl, read_feed s o os t r ∙ f)
  ]

  can_go : (w : ℤ) (s : State B) (m : ℕ) → length (held replay s w) ≡ suc m → CanStep s
  can_go w s m e = elim (Option-cases (s.running w)) [
    | inr (o, r) ↦ can_return w s o r
    | inl r ↦ elim (List-cases (s.queues w)) [
      | inr (o, os, q) ↦ can_start w s o os r q
      | inl q ↦
          let n : length (held replay s w) ≡ 0 = ap length (held_is replay w s [] none q r) in
          absurd (omega (arith, n, e))
    ]
  ]

  -- At any moment of a replay of operations with a worker of at least 1, either nothing is read any
  -- more and no worker has an operation, or some event other than a cancellation can happen: the
  -- barrier between iterations never blocks the replay for good.
  pub run-CanStep :
      (evs : List (Event B)) (all : List (OpLine B)) (s : State B)
      → All (IsKnown replay) all
      → run replay evs (start all) ≡ some s
      → IsOver s ⊎ CanStep s
  run-CanStep evs all s k h =
      let b = run-Barrier replay evs all s k h in
      elim (total-cases (workers replay) (λ w. length (held replay s w))) [
        | inr (w, m, e) ↦ inr (can_go w s m e)
        | inl z ↦
            let p : s.pending ≡ 0 = b.handed ∙ z in
            let empty = nothing replay s b p in
            elim (Bool-cases s.reading) [
              | inl r ↦ inr (can_read s r p empty)
              | inr r ↦ inl (r, empty)
            ]
      ]
