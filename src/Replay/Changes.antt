-- ===== src/Replay/Changes.antt =====
-- What a step of a replay does to its queues, its workers and the counter of pending operations.
use percona_load_generator_m.Prelude.{
  ℕ, ◌+◌, ◌-◌, ◌≡◌, refl, ◌⊎◌, inl, inr, String, true, false, none, some, List, ◌∷◌, arith,
  List-cases, Option-cases,
}
use percona_load_generator_m.Prelude.Int.{ℤ, ltb_ℤ}
use percona_load_generator_m.Prelude.Keys.{int_eq}
use percona_load_generator_m.Recording.Format.{OpLine, u64}
use percona_load_generator_m.Replay.{
  Replay, Answer, executed, exec_failed, State, Event, reads, ends_reading, cancels, gives_up,
  starts, withdraws, returns, panics, update, must_wait, feed, enqueue_op, read_op, end_reading,
  give_up_reading, start_op, first_of, end_op, count_op, return_op, withdraw_op, panic_op, step,
}
use percona_load_generator_m.Replay.Moves.{start_cases}

module _ {B : Type 0} (replay : Replay B) where
  -- What a step leaves.
  abbrev pub Same : State B → State B → Type 0
  Same s s' =
      (s'.queues ≡ s.queues)
      × (s'.running ≡ s.running)
      × (s'.pending ≡ s.pending)
      × (s'.iteration ≡ s.iteration)

  abbrev pub Off : State B → State B → Type 0
  Off s s' = (s'.todo ≡ s.todo) × (s'.reading ≡ s.reading) × (s'.iteration ≡ s.iteration)

  pub data Change (cost : ℕ) (s s' : State B) : Type 0 where
    is_cancelled :
        cost ≡ 0 → Same s s' → s'.todo ≡ s.todo → s'.reading ≡ s.reading → Change cost s s'
    closes :
        cost ≡ 1
        → Same s s'
        → s'.todo ≡ s.todo
        → s.reading ≡ true
        → s'.reading ≡ false
        → Change cost s s'
    is_skipped :
        (o : OpLine B)
        → cost ≡ 1
        → Same s s'
        → s.todo ≡ o ∷ s'.todo
        → s'.reading ≡ s.reading
        → Change cost s s'
    is_handed :
        (o : OpLine B) (os : List (OpLine B))
        → cost ≡ 1
        → s.todo ≡ o ∷ os
        → must_wait replay o s ≡ false
        → ltb_ℤ replay.workers o.worker ≡ false
        → s' ≡ enqueue_op replay o os s
        → Change cost s s'
    begins :
        (v : ℤ) (o : OpLine B) (os : List (OpLine B))
        → cost ≡ 1
        → s.running v ≡ none
        → s.queues v ≡ o ∷ os
        → s'.queues ≡ update s.queues v os
        → s'.running ≡ update s.running v (some o)
        → s'.pending ≡ s.pending
        → Off s s'
        → Change cost s s'
    counts_down :
        (v : ℤ) (o : OpLine B) (os : List (OpLine B))
        → cost ≡ 1
        → s.running v ≡ none
        → s.queues v ≡ o ∷ os
        → s'.queues ≡ update s.queues v os
        → s'.running ≡ s.running
        → s'.pending ≡ s.pending - 1
        → Off s s'
        → Change cost s s'
    finishes :
        (v : ℤ) (o : OpLine B)
        → cost ≡ 1
        → s.running v ≡ some o
        → s'.queues ≡ s.queues
        → s'.running ≡ update s.running v none
        → s'.pending ≡ s.pending - 1
        → Off s s'
        → Change cost s s'

  fed :
      (s s' : State B) (o : OpLine B) (os : List (OpLine B))
      → feed replay o os s ≡ some s'
      → (s' ≡ record s { reading = false; stream_error = some "worker out of range" })
        ⊎ (s' ≡ record s { todo = os; skipped = u64 (s.skipped + 1) })
        ⊎ ((must_wait replay o s ≡ false)
            × (ltb_ℤ replay.workers o.worker ≡ false)
            × (s' ≡ enqueue_op replay o os s))
  fed s s' o os h = ground arith

  read-Change : (s s' : State B) → read_op replay s ≡ some s' → Change 1 s s'
  unfolding read_op
  read-Change s s' h = elim (List-cases s.todo) [
    | inl t ↦ ground arith
    | inr (o, os, t) ↦
        let f : feed replay o os s ≡ some s' = ground arith in
        let on : s.reading ≡ true = ground arith in
        elim (fed s s' o os f) [
          | inl e ↦ rw e (closes refl (refl, refl, refl, refl) refl on refl)
          | inr (inl e) ↦ rw e (is_skipped o refl (refl, refl, refl, refl) t refl)
          | inr (inr (m, w, e)) ↦ is_handed o os refl t m w e
        ]
  ]

  start-Change : (v : ℤ) (s s' : State B) → start_op replay v s ≡ some s' → Change 1 s s'
  start-Change v s s' h =
      let (o, os, r, q, e) = start_cases replay v s s' h in
      elim e [
        | inl (b, x) ↦ rw x (counts_down v o os refl r q refl refl refl (refl, refl, refl))
        | inr (b, x) ↦ rw x (begins v o os refl r q refl refl refl (refl, refl, refl))
      ]

  return-Change :
      (v : ℤ) (a : Answer B) (s s' : State B) → return_op replay v a s ≡ some s' → Change 1 s s'
  unfolding return_op
  return-Change v a s s' h = elim (Option-cases (s.running v)) [
    | inl r ↦ ground arith
    | inr (o, r) ↦
        let x : s' ≡ count_op replay v o a (end_op replay v s) = ground arith in
        rw x (counted o a r)
  ]
    where
      counted :
          (o : OpLine B) (a : Answer B)
          → s.running v ≡ some o
          → Change 1 s (count_op replay v o a (end_op replay v s))
      counted o (executed is_ok cmd) r = finishes v o refl r refl refl refl (refl, refl, refl)
      counted o (exec_failed e) r = finishes v o refl r refl refl refl (refl, refl, refl)

  withdraw-Change : (v : ℤ) (s s' : State B) → withdraw_op replay v s ≡ some s' → Change 1 s s'
  unfolding withdraw_op
  withdraw-Change v s s' h = elim (Option-cases (s.running v)) [
    | inl r ↦ ground arith
    | inr (o, r) ↦
        let x : s' ≡ end_op replay v s = ground arith in
        rw x (finishes v o refl r refl refl refl (refl, refl, refl))
  ]

  panic-Change :
      (v : ℤ) (text : String) (s s' : State B) → panic_op replay v text s ≡ some s' → Change 1 s s'
  unfolding panic_op
  panic-Change v text s s' h = elim (Option-cases (s.running v)) [
    | inl r ↦ ground arith
    | inr (o, r) ↦
        let x : s' ≡ record (end_op replay v s) {
          panic_error = first_of s.panic_error text;
          stopped = true;
        } =
          ground arith in
        rw x (finishes v o refl r refl refl refl (refl, refl, refl))
  ]

  -- A cancellation costs nothing.
  abbrev pub cost_of : Event B → ℕ
  cost_of cancels = 0
  cost_of _ = 1

  pub step-Change :
      (ev : Event B) (s s' : State B) → step replay ev s ≡ some s' → Change (cost_of ev) s s'
  unfolding step end_reading give_up_reading
  step-Change reads s s' h = read-Change s s' h
  step-Change ends_reading s s' h =
      let x : (s.reading ≡ true)
          × (s' ≡ record s { reading = false; stream_error = replay.stream_end }) =
        ground arith in
      rw x.1 (closes refl (refl, refl, refl, refl) refl x.0 refl)
  step-Change cancels s s' h =
      let x : s' ≡ record s { stopped = true; cancelled = true } = ground arith in
      rw x (is_cancelled refl (refl, refl, refl, refl) refl refl)
  step-Change (gives_up e) s s' h =
      let x : (s.reading ≡ true) × (s' ≡ record s { reading = false; stream_error = some e }) =
        ground arith in
      rw x.1 (closes refl (refl, refl, refl, refl) refl x.0 refl)
  step-Change (starts v) s s' h = start-Change v s s' h
  step-Change (withdraws v) s s' h = withdraw-Change v s s' h
  step-Change (returns v a) s s' h = return-Change v a s s' h
  step-Change (panics v text) s s' h = panic-Change v text s s' h
