-- ===== src/Replay/Skipped.antt =====
-- A replay of every operation skips none.
use percona_load_generator_m.Prelude.{
  ◌≡◌, refl, ◌∙◌, inl, inr, false, some, List, [], ◌∷◌, arith, List-cases, Option-cases,
}
use percona_load_generator_m.Replay.{
  Replay, executed, exec_failed, State, Event, reads, ends_reading, cancels, gives_up, starts,
  withdraws, returns, panics, feed, read_op, end_reading, give_up_reading, count_op, end_op,
  return_op, withdraw_op, panic_op, step, run,
}
use percona_load_generator_m.Replay.Moves.{start_cases, feed_cases}

module _ {B : Type 0} (replay : Replay B) where
  step_skipped :
      (ev : Event B) (s s' : State B)
      → replay.reads_only ≡ false
      → step replay ev s ≡ some s'
      → s'.skipped ≡ s.skipped
  unfolding step read_op end_reading give_up_reading return_op withdraw_op panic_op
  step_skipped reads s s' k h = elim (List-cases s.todo) [
    | inl e ↦ ground arith
    | inr (o, os, e) ↦
        let f : feed replay o os s ≡ some s' = ground arith in
        elim (feed_cases replay s s' o os f) [
          | inl x ↦ rw x refl
          | inr (inl (b, x)) ↦ absurd cc
          | inr (inr (b, x)) ↦ rw x refl
        ]
  ]
  step_skipped ends_reading s s' k h = ground arith
  step_skipped cancels s s' k h = ground arith
  step_skipped (gives_up e) s s' k h = ground arith
  step_skipped (starts v) s s' k h =
      let (o, os, r, q, e) = start_cases replay v s s' h in
      elim e [ inl (b, x) ↦ rw x refl | inr (b, x) ↦ rw x refl ]
  step_skipped (withdraws v) s s' k h = ground arith
  step_skipped (returns v (executed is_ok cmd)) s s' k h = elim (Option-cases (s.running v)) [
    | inl r ↦ ground arith
    | inr (o, r) ↦
        let x : s' ≡ count_op replay v o (executed is_ok cmd) (end_op replay v s) = ground arith in
        rw x refl
  ]
  step_skipped (returns v (exec_failed e)) s s' k h = elim (Option-cases (s.running v)) [
    | inl r ↦ ground arith
    | inr (o, r) ↦
        let x : s' ≡ count_op replay v o (exec_failed e) (end_op replay v s) = ground arith in
        rw x refl
  ]
  step_skipped (panics v text) s s' k h = ground arith

  pub run_skipped :
      (evs : List (Event B)) (s s' : State B)
      → replay.reads_only ≡ false
      → run replay evs s ≡ some s'
      → s'.skipped ≡ s.skipped
  unfolding run
  run_skipped [] s s' k h = let x : s ≡ s' = ground arith in rw x refl
  run_skipped (ev ∷ evs) s s' k h = elim (Option-cases (step replay ev s)) [
    | inl e ↦ ground arith
    | inr (r, e) ↦ run_skipped evs r s' k (ground arith) ∙ step_skipped ev s r k e
  ]
