-- ===== src/Replay/Complete.antt =====
-- A replay that ends as complete has executed every operation that it does not skip.
use percona_load_generator_m.Prelude.{
  ◌≡◌, refl, ap, ◌∙◌, ◌⊎◌, inl, inr, String, true, false, Option, none, some, subst, List, [], ◌∷◌,
  ◌++◌, append-nil, arith, List-cases, Option-cases, Bool-cases,
}
use percona_load_generator_m.Prelude.Int.{ℤ}
use percona_load_generator_m.Recording.Format.{OpLine, status_complete, status_failed}
use percona_load_generator_m.Prelude.Keys.{◌=?◌, string_eq}
use percona_load_generator_m.Replay.{
  Replay, replay_status_cancelled, Answer, executed, exec_failed, State, start, Event, reads,
  ends_reading, cancels, gives_up, starts, withdraws, returns, panics, feed, read_op, end_reading,
  give_up_reading, start_op, first_of, end_op, count_op, return_op, withdraw_op, panic_op, step,
  run, is_set, final_status,
}
use percona_load_generator_m.Replay.Moves.{share, ops_of, feed_cases, start_cases}
use percona_load_generator_m.Replay.Order.{run-InOrder}

module _ {B : Type 0} (replay : Replay B) where
  -- Why the inner context is done, and why nothing is read any more.
  pub record Told (s : State B) : Type 0 where
    pub stop :
        (s.stopped ≡ false)
        ⊎ (s.cancelled ≡ true)
        ⊎ (is_set replay s.exec_error ≡ true)
        ⊎ (is_set replay s.panic_error ≡ true)
    pub end : (s.reading ≡ true) ⊎ (is_set replay s.stream_error ≡ true) ⊎ (s.todo ≡ [])

  read-Told : (s s' : State B) → Told s → read_op replay s ≡ some s' → Told s'
  unfolding read_op
  read-Told s s' t h = elim (List-cases s.todo) [
    | inl e ↦ ground arith
    | inr (o, os, e) ↦
        let f : feed replay o os s ≡ some s' = ground arith in
        let on : s.reading ≡ true = ground arith in
        elim (feed_cases replay s s' o os f) [
          | inl x ↦ rw x (record { stop = t.stop; end = inr (inl refl) })
          | inr (inl (k, x)) ↦ rw x (record { stop = t.stop; end = inl on })
          | inr (inr (k, x)) ↦ rw x (record { stop = t.stop; end = inl on })
        ]
  ]

  end-Told : (s s' : State B) → Told s → end_reading replay s ≡ some s' → Told s'
  unfolding end_reading
  end-Told s s' t h =
      let x : s' ≡ record s { reading = false; stream_error = replay.stream_end } = ground arith in
      let e : s.todo ≡ [] = ground arith in rw x (record { stop = t.stop; end = inr (inr e) })

  give_up_reading-Told :
      (text : String) (s s' : State B) → Told s → give_up_reading replay text s ≡ some s' → Told s'
  unfolding give_up_reading
  give_up_reading-Told text s s' t h =
      let x : s' ≡ record s { reading = false; stream_error = some text } = ground arith in
      rw x (record { stop = t.stop; end = inr (inl refl) })

  start-Told : (v : ℤ) (s s' : State B) → Told s → start_op replay v s ≡ some s' → Told s'
  start-Told v s s' t h =
      let (o, os, r, q, e) = start_cases replay v s s' h in
      elim e [
        | inl (b, x) ↦ rw x (record { stop = t.stop; end = t.end })
        | inr (b, x) ↦ rw x (record { stop = t.stop; end = t.end })
      ]

  first_set : (x : Option String) (e : String) → is_set replay (first_of x e) ≡ true
  first_set none e = refl
  first_set (some x) e = refl

  return-Told :
      (v : ℤ) (a : Answer B) (s s' : State B) → Told s → return_op replay v a s ≡ some s' → Told s'
  unfolding return_op
  return-Told v (executed is_ok cmd) s s' t h = elim (Option-cases (s.running v)) [
    | inl r ↦ ground arith
    | inr (o, r) ↦
        let x : s' ≡ count_op replay v o (executed is_ok cmd) (end_op replay v s) = ground arith in
        rw x (record { stop = t.stop; end = t.end })
  ]
  return-Told v (exec_failed e) s s' t h = elim (Option-cases (s.running v)) [
    | inl r ↦ ground arith
    | inr (o, r) ↦
        let x : s' ≡ count_op replay v o (exec_failed e) (end_op replay v s) = ground arith in
        rw x (record { stop = inr (inr (inl (first_set s.exec_error e))); end = t.end })
  ]

  withdraw-Told : (v : ℤ) (s s' : State B) → Told s → withdraw_op replay v s ≡ some s' → Told s'
  unfolding withdraw_op
  withdraw-Told v s s' t h =
      let x : s' ≡ end_op replay v s = ground arith in rw x (record { stop = t.stop; end = t.end })

  panic-Told :
      (v : ℤ) (text : String) (s s' : State B)
      → Told s
      → panic_op replay v text s ≡ some s'
      → Told s'
  unfolding panic_op
  panic-Told v text s s' t h =
      let x : s' ≡ record (end_op replay v s) {
        panic_error = first_of s.panic_error text;
        stopped = true;
      } =
        ground arith in
      rw x (record { stop = inr (inr (inr (first_set s.panic_error text))); end = t.end })

  step-Told : (ev : Event B) (s s' : State B) → Told s → step replay ev s ≡ some s' → Told s'
  unfolding step
  step-Told reads s s' t h = read-Told s s' t h
  step-Told ends_reading s s' t h = end-Told s s' t h
  step-Told cancels s s' t h =
      let x : s' ≡ record s { stopped = true; cancelled = true } = ground arith in
      rw x (record { stop = inr (inl refl); end = t.end })
  step-Told (gives_up e) s s' t h = give_up_reading-Told e s s' t h
  step-Told (starts v) s s' t h = start-Told v s s' t h
  step-Told (withdraws v) s s' t h = withdraw-Told v s s' t h
  step-Told (returns v a) s s' t h = return-Told v a s s' t h
  step-Told (panics v text) s s' t h = panic-Told v text s s' t h

  run-Told : (evs : List (Event B)) (s s' : State B) → Told s → run replay evs s ≡ some s' → Told s'
  unfolding run
  run-Told [] s s' t h = let x : s ≡ s' = ground arith in subst Told x t
  run-Told (ev ∷ evs) s s' t h = elim (Option-cases (step replay ev s)) [
    | inl e ↦ ground arith
    | inr (r, e) ↦ run-Told evs r s' (step-Told ev s r t e) (ground arith)
  ]

  start-Told_empty : (all : List (OpLine B)) → Told (start all)
  start-Told_empty all = record { stop = inl refl; end = inl refl }

  not_failed : status_failed ≡ status_complete → ⊥
  not_failed h =
      let x : (status_failed =? status_failed) ≡ (status_failed =? status_complete) =
        ap (λ t. status_failed =? t) h in
      cc

  not_cancelled : replay_status_cancelled ≡ status_complete → ⊥
  not_cancelled h =
      let x : (replay_status_cancelled =? replay_status_cancelled)
          ≡ (replay_status_cancelled =? status_complete) =
        ap (λ t. replay_status_cancelled =? t) h in
      cc

  -- Where the status is complete, no error was kept.
  complete-NoError :
      (s : State B)
      → final_status replay s ≡ status_complete
      → (is_set replay s.panic_error ≡ false)
        × (is_set replay s.exec_error ≡ false)
        × (is_set replay s.stream_error ≡ false)
  unfolding final_status
  complete-NoError s h = elim (Bool-cases (is_set replay s.panic_error)) [
    | inl p ↦ absurd (not_failed (ground (arith, p, h)))
    | inr p ↦ elim (Bool-cases (is_set replay s.exec_error)) [
      | inl e ↦ absurd (not_failed (ground (arith, p, e, h)))
      | inr e ↦ elim (Bool-cases (is_set replay s.stream_error)) [
        | inl r ↦ elim (Bool-cases s.cancelled) [
          | inl c ↦ absurd (not_cancelled (ground (arith, p, e, r, c, h)))
          | inr c ↦ absurd (not_failed (ground (arith, p, e, r, c, h)))
        ]
        | inr r ↦ (p, e, r)
      ]
    ]
  ]

  nothing :
      (w : ℤ) (s : State B)
      → s.queues w ≡ []
      → s.todo ≡ []
      → s.queues w ++ share replay w s.todo ≡ []
  unfolding share
  nothing w s q t = rw (q, t) refl

  -- A replay that was not cancelled, that has ended (nothing is read any more, and the worker has
  -- nothing queued and nothing running) and whose status is complete has executed all the worker's
  -- operations of the recording but those it skips, each once, in the recording's order.
  pub final_status-InOrder :
      (evs : List (Event B)) (all : List (OpLine B)) (w : ℤ) (s : State B)
      → run replay evs (start all) ≡ some s
      → s.cancelled ≡ false
      → s.reading ≡ false
      → s.queues w ≡ []
      → s.running w ≡ none
      → final_status replay s ≡ status_complete
      → share replay w all ≡ ops_of replay (s.sent w)
  final_status-InOrder evs all w s h c r q n f =
      let i = run-InOrder replay evs all w s h in
      let t = run-Told evs (start all) s (start-Told_empty all) h in
      let e = complete-NoError s f in
      let on : s.stopped ≡ false = elim t.stop [
        | inl x ↦ x
        | inr (inl x) ↦ absurd cc
        | inr (inr (inl x)) ↦ absurd cc
        | inr (inr (inr x)) ↦ absurd cc
      ] in
      let read : s.todo ≡ [] = elim t.end [
        | inl x ↦ absurd cc
        | inr (inl x) ↦ absurd cc
        | inr (inr x) ↦ x
      ] in
      let rest : i.rest ≡ [] = elim i.coming [
        | inl x ↦ x ∙ nothing w s q read
        | inr x ↦ absurd cc
      ] in
      i.order
      ∙ rw (n, rest, append-nil (ops_of replay (s.sent w))) (append-nil (ops_of replay (s.sent w)))
