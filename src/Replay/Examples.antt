-- ===== src/Replay/Examples.antt =====
-- A replay of three operations on two workers; commands are numbers.
use percona_load_generator_m.Prelude.{
  ℕ, ◌+◌, ◌*◌, ◌≤◌, ◌⊎◌, length, ◌≡◌, refl, true, false, none, some, List, [], ◌∷◌,
}
use percona_load_generator_m.Prelude.Int.{pos}
use percona_load_generator_m.Recording.Format.{OpLine, op_iteration}
use percona_load_generator_m.Replay.{
  Replay, State, start, Event, reads, ends_reading, starts, returns, executed, read_op, end_reading,
  start_op, return_op, step, run, final_status,
}
use percona_load_generator_m.Replay.Moves.{share, ops_of}
use percona_load_generator_m.Replay.Order.{InOrder, run-InOrder}
use percona_load_generator_m.Replay.Held.{Barrier}
use percona_load_generator_m.Replay.Barrier.{run-Barrier}
use percona_load_generator_m.Replay.Bounded.{steps_in, run-Bounded}
use percona_load_generator_m.Replay.Progress.{IsOver, CanStep, run-CanStep}
use percona_load_generator_m.Replay.Complete.{final_status-InOrder}

abbrev op_of : ℕ → ℕ → ℕ → OpLine ℕ
op_of w n i = record {
  kind = "op";
  seq = n;
  worker = pos w;
  worker_seq = n;
  offset_us = pos 0;
  iteration = pos i;
  ns = "shop.orders";
  op = "find";
  path = "";
  is_ok = true;
  existing = true;
  query = none;
  shape = none;
  cmd = n;
  outcome = none;
  flags = [];
}

abbrev two_workers : Replay ℕ
two_workers = record {
  workers = pos 2;
  reads_only = true;
  is_write = λ o. false;
  ops_total = 3;
  stream_end = none;
}

abbrev ops : List (OpLine ℕ)
ops = op_of 1 1 1 ∷ op_of 2 2 1 ∷ op_of 1 3 2 ∷ []

-- The third operation is of the next iteration.
abbrev events : List (Event ℕ)
events =
    reads
    ∷ reads
    ∷ starts (pos 2)
    ∷ starts (pos 1)
    ∷ returns (pos 2) (executed true 2)
    ∷ returns (pos 1) (executed false 1)
    ∷ reads
    ∷ ends_reading
    ∷ starts (pos 1)
    ∷ returns (pos 1) (executed true 3)
    ∷ []

abbrev or_start : (r : List (Event ℕ)) → State ℕ
or_start evs = elim (run two_workers evs (start ops)) [ none ↦ start ops | some s ↦ s ]

run-InOrder_example : InOrder two_workers ops (pos 1) (or_start events)
unfolding run step read_op op_iteration start_op return_op end_reading
run-InOrder_example = run-InOrder two_workers events ops (pos 1) (or_start events) refl

final_status-InOrder_example :
    share two_workers (pos 1) ops ≡ ops_of two_workers ((or_start events).sent (pos 1))
unfolding run step read_op op_iteration start_op return_op end_reading final_status
final_status-InOrder_example =
    final_status-InOrder two_workers events ops (pos 1) (or_start events) refl refl refl refl refl
      refl

-- The callback waits at the third operation while one of the first iteration runs.
reads_waits : run two_workers (reads ∷ reads ∷ reads ∷ []) (start ops) ≡ none
unfolding run step read_op op_iteration
reads_waits = refl

run-Barrier_example : Barrier two_workers (or_start events)
unfolding run step read_op op_iteration start_op return_op end_reading
run-Barrier_example =
    run-Barrier two_workers events ops (or_start events) (refl, (refl, (refl, tt))) refl

run-Bounded_example : steps_in two_workers events ≤ 3 * length ops + 1
unfolding run step read_op op_iteration start_op return_op end_reading
run-Bounded_example =
    run-Bounded two_workers events ops (or_start events) (refl, (refl, (refl, tt))) refl

run-CanStep_example : IsOver two_workers (or_start events) ⊎ CanStep two_workers (or_start events)
unfolding run step read_op op_iteration start_op return_op end_reading
run-CanStep_example =
    run-CanStep two_workers events ops (or_start events) (refl, (refl, (refl, tt))) refl
