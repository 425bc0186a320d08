-- ===== src/Replay.antt =====
-- internal/mongo/workload_replay.go: the workers of runWorkloadReplay, the callback that feeds them,
-- and the status of a replay. A run is a list of events of the callback and the workers; `step` is
-- none where an event has to wait or cannot happen. A worker that panicked only counts down what it
-- receives, as every worker does once the context is done. The callback counts an operation as
-- pending in the step that sends it: while the send is blocked, the source's counter is one higher.
-- `isReplayWrite` and what an operation returns, with the texts of errors, are arguments;
-- connections, timers, lags, warnings and reports are left out.
pub mod Totals
pub mod Moves
pub mod Changes
pub mod Held
pub mod Turns
pub mod Barrier
pub mod Bounded
pub mod Progress
pub mod Skipped
pub mod Hash
pub mod Order
pub mod Complete
mod Examples
mod HashExamples
use percona_load_generator_m.Prelude.{
  ℕ, ◌+◌, ◌-◌, String, Bool, true, false, not, ◌&&◌, Option, none, some, List, [], ◌∷◌, ◌++◌, ltb,
  ◌==◌, length, if◌then◌else◌,
}
use percona_load_generator_m.Prelude.Int.{ℤ, pos, ltb_ℤ}
use percona_load_generator_m.Prelude.Keys.{◌=?◌, int_eq}
use percona_load_generator_m.Recording.Format.{
  u64, OpLine, op_iteration, status_complete, status_failed,
}

abbrev pub replay_queue_size : ℕ
replay_queue_size = 1024

abbrev pub replay_status_cancelled : String
replay_status_cancelled = "cancelled"

-- What a replay is given: `stream_end` is the error that Stream ends with after the last operation.
pub record Replay (B : Type 0) : Type 0 where
  pub workers : ℤ
  pub reads_only : Bool
  pub is_write : OpLine B → Bool
  pub ops_total : ℕ
  pub stream_end : Option String

-- What `replayExecFn` returns: whether the operation succeeded and the command sent, or an error.
pub data Answer (B : Type 0) : Type 0 where
  executed : Bool → B → Answer B
  exec_failed : String → Answer B

-- `todo` are the operations that Stream still delivers, `sent` those of a worker that were executed,
-- with the commands that its hash covers. `stopped` is the inner context, `cancelled` the outer one.
pub record State (B : Type 0) : Type 0 where
  pub todo : List (OpLine B)
  pub reading : Bool
  pub stream_error : Option String
  pub iteration : ℤ
  pub pending : ℕ
  pub queues : ℤ → List (OpLine B)
  pub running : ℤ → Option (OpLine B)
  pub sent : ℤ → List (OpLine B × B)
  pub replayed : ℕ
  pub failed : ℕ
  pub skipped : ℕ
  pub exec_error : Option String
  pub panic_error : Option String
  pub stopped : Bool
  pub cancelled : Bool

abbrev pub start : {B : Type 0} → List (OpLine B) → State B
start ops = record {
  todo = ops;
  reading = true;
  stream_error = none;
  iteration = pos 0;
  pending = 0;
  queues = λ w. [];
  running = λ w. none;
  sent = λ w. [];
  replayed = 0;
  failed = 0;
  skipped = 0;
  exec_error = none;
  panic_error = none;
  stopped = false;
  cancelled = false;
}

pub data Event (B : Type 0) : Type 0 where
  reads ends_reading cancels : Event B
  gives_up : String → Event B
  starts withdraws : ℤ → Event B
  returns : ℤ → Answer B → Event B
  panics : ℤ → String → Event B

-- One worker's entry.
abbrev pub update : {A : Type 0} → (ℤ → A) → ℤ → A → ℤ → A
update f w a v = if w =? v then a else f v

-- `if err == nil { err = … }`
abbrev pub first_of : Option String → String → Option String
first_of none e = some e
first_of (some x) e = some x

module _ {B : Type 0} (replay : Replay B) where
  -- The operations that a reads_only replay leaves out.
  abbrev pub skips : OpLine B → Bool
  skips o = replay.reads_only && replay.is_write o

  -- The callback waits for the operations of the previous iteration.
  abbrev pub must_wait : OpLine B → State B → Bool
  must_wait o s = not (op_iteration o =? s.iteration) && not (s.pending == 0)

  abbrev pub enqueue_op : OpLine B → List (OpLine B) → State B → State B
  enqueue_op o os s = record s {
    todo = os;
    iteration = op_iteration o;
    pending = s.pending + 1;
    queues = update s.queues o.worker (s.queues o.worker ++ o ∷ []);
  }

  -- The callback on one operation.
  abbrev pub feed : OpLine B → List (OpLine B) → State B → Option (State B)
  feed o os s =
      if ltb_ℤ replay.workers o.worker
      then some (record s { reading = false; stream_error = some "worker out of range" })
      else if skips o
      then some (record s { todo = os; skipped = u64 (s.skipped + 1) })
      else if must_wait o s
      then none
      else if ltb (length (s.queues o.worker)) replay_queue_size
      then some (enqueue_op o os s)
      else none

  unfoldable pub read_op : State B → Option (State B)
  read_op s = if s.reading then elim s.todo [ [] ↦ none | o ∷ os ↦ feed o os s ] else none

  -- Stream after the last operation.
  unfoldable pub end_reading : State B → Option (State B)
  end_reading s = elim s.todo [
    | [] ↦
        if s.reading
        then some (record s { reading = false; stream_error = replay.stream_end })
        else none
    | o ∷ os ↦ none
  ]

  -- The callback, or Stream before it, finds the context done.
  unfoldable pub give_up_reading : String → State B → Option (State B)
  give_up_reading e s =
      if s.reading && s.stopped
      then some (record s { reading = false; stream_error = some e })
      else none

  -- An idle worker receives an operation; once the context is done it only counts it down.
  unfoldable pub start_op : ℤ → State B → Option (State B)
  start_op w s = elim (s.running w) [
    | some x ↦ none
    | none ↦ elim (s.queues w) [
      | [] ↦ none
      | o ∷ os ↦
          if s.stopped
          then some (record s { queues = update s.queues w os; pending = s.pending - 1 })
          else some
              (record s { queues = update s.queues w os; running = update s.running w (some o) })
    ]
  ]

  abbrev pub end_op : ℤ → State B → State B
  end_op w s = record s { running = update s.running w none; pending = s.pending - 1 }

  abbrev pub count_op : ℤ → OpLine B → Answer B → State B → State B
  count_op w o (executed is_ok cmd) s = record s {
    sent = update s.sent w (s.sent w ++ (o, cmd) ∷ []);
    replayed = u64 (s.replayed + 1);
    failed = if is_ok then s.failed else u64 (s.failed + 1);
  }
  count_op w o (exec_failed e) s = record s {
    exec_error = first_of s.exec_error e;
    failed = u64 (s.failed + 1);
    stopped = true;
  }

  -- The end of `replayOne`.
  unfoldable pub return_op : ℤ → Answer B → State B → Option (State B)
  return_op w a s = elim (s.running w) [ none ↦ none | some o ↦ some (count_op w o a (end_op w s)) ]

  -- A timed operation whose context is done before its time.
  unfoldable pub withdraw_op : ℤ → State B → Option (State B)
  withdraw_op w s = elim (s.running w) [
    | none ↦ none
    | some o ↦ if s.stopped then some (end_op w s) else none
  ]

  unfoldable pub panic_op : ℤ → String → State B → Option (State B)
  panic_op w text s = elim (s.running w) [
    | none ↦ none
    | some o ↦
        some (record (end_op w s) { panic_error = first_of s.panic_error text; stopped = true })
  ]

  unfoldable pub step : Event B → State B → Option (State B)
  step reads s = read_op s
  step ends_reading s = end_reading s
  step cancels s = some (record s { stopped = true; cancelled = true })
  step (gives_up e) s = give_up_reading e s
  step (starts w) s = start_op w s
  step (withdraws w) s = withdraw_op w s
  step (returns w a) s = return_op w a s
  step (panics w text) s = panic_op w text s

  unfoldable pub run : List (Event B) → State B → Option (State B)
  run [] s = some s
  run (ev ∷ evs) s = elim (step ev s) [ none ↦ none | some s' ↦ run evs s' ]

  abbrev pub is_set : Option String → Bool
  is_set none = false
  is_set (some e) = true

  -- The status that a replay ends with.
  unfoldable pub final_status : State B → String
  final_status s =
      if is_set s.panic_error
      then status_failed
      else if is_set s.exec_error
      then status_failed
      else if is_set s.stream_error
      then (if s.cancelled then replay_status_cancelled else status_failed)
      else if s.cancelled && ltb (u64 (s.replayed + s.skipped)) replay.ops_total
      then replay_status_cancelled
      else status_complete
