-- ===== src/OutcomeFile/Writer.antt =====
-- outcome.go: the OutcomeWriter while outcomes are written. A call of `Write` and a round of its
-- goroutine are one step each. The answers of the disk are arguments: none, or the text of an error.
use Prim.Native.String.{◌++◌ as text_append}
use percona_load_generator_m.Prelude.{
  ℕ, ◌+◌, String, Bool, true, false, Option, none, some, List, [], ◌∷◌, ◌++◌, Result, ok, err,
  ◌>>=◌, ◌>>◌, ltb, leb, length, if◌then◌else◌,
}
use percona_load_generator_m.Prelude.Keys.{◌=?◌, string_eq}
use percona_load_generator_m.Recording.Format.{u64, status_recording, status_failed}
use percona_load_generator_m.Recording.Codec.{Codec}
use percona_load_generator_m.OutcomeFile.Lines.{
  OutcomeHeader, OutcomeLine, OutcomeCodec, outcome_format_version, line_outcome_header,
  line_outcome,
}

-- `DefaultQueueSize`
abbrev pub default_queue_size : ℕ
default_queue_size = 65536

pub record OutcomeResult : Type 0 where
  pub path : String
  pub status : String
  pub reason : String
  pub ops : ℕ
  pub bytes : ℕ
  pub waits : ℕ
  pub wait_total : ℕ
  pub wait_max : ℕ

-- The answers to `NewOutcomeWriter`: of the overwrite check, the opening, the permissions, the write
-- of the header and its flush.
pub record OpenIo : Type 0 where
  pub overwrite : Option String
  pub open_file : Option String
  pub chmod : Option String
  pub header_write : Option String
  pub flush : Option String

-- `if err != nil { return fmt.Errorf(…) }`
abbrev pub step_of : String → Option String → Result String Unit
step_of what none = ok tt
step_of what (some e) = err (text_append what e)

-- `OutcomeLine` with its type set.
abbrev pub stamp : OutcomeLine → OutcomeLine
stamp l = record l { kind = line_outcome }

unfoldable pub complete_header : String → OutcomeHeader → OutcomeHeader
complete_header now h = record h {
  kind = line_outcome_header;
  format = outcome_format_version;
  created_at = if h.created_at =? "" then now else h.created_at;
}

module _ (c : Codec) where
  open c use {Bytes}

  -- `written` is the lines that the buffered writer was given, `file` those that a flush of the
  -- header or of Close has brought to the file for certain. Durations are in nanoseconds. `result` is set by `Close`.
  pub record OutcomeWriter : Type 0 where
    pub path : String
    pub queue : List OutcomeLine
    pub capacity : ℕ
    pub ops : ℕ
    pub bytes : ℕ
    pub failed : Bool
    pub waits : ℕ
    pub wait_total : ℕ
    pub wait_max : ℕ
    pub reason : String
    pub written : List Bytes
    pub file : List Bytes
    pub result : Option OutcomeResult

  -- `writeLine`, with what the encoder gave for the line.
  unfoldable pub write_line :
      Result String Bytes → Option String → OutcomeWriter → Result String OutcomeWriter
  write_line encoded io w = do
    b ← encoded
    elim io [
      | some e ↦ err e
      | none ↦ ok (record w { bytes = w.bytes + c.size b; written = w.written ++ b ∷ [] })
    ]

  abbrev pub start_writer : String → OutcomeWriter
  start_writer path = record {
    path = path;
    queue = [];
    capacity = default_queue_size;
    ops = 0;
    bytes = 0;
    failed = false;
    waits = 0;
    wait_total = 0;
    wait_max = 0;
    reason = "";
    written = [];
    file = [];
    result = none;
  }

  -- A flush of the buffered writer that works.
  abbrev pub flush_file : OutcomeWriter → OutcomeWriter
  flush_file w = record w { file = w.written }

  -- `NewOutcomeWriter`
  unfoldable pub new_outcome_writer :
      OutcomeCodec c → String → String → OutcomeHeader → OpenIo → Result String OutcomeWriter
  unfolding complete_header write_line
  new_outcome_writer j now path h io = do
    step_of "" io.overwrite
    step_of "open workload outcome file: " io.open_file
    step_of "set workload outcome file permissions: " io.chmod
    let written =
        write_line (j.encode_header (complete_header now h)) io.header_write (start_writer path)
    elim written [
      | err e ↦ err (text_append "write workload outcome header: " e)
      | ok w ↦ (do step_of "write workload outcome header: " io.flush; ok (flush_file w))
    ]

  -- `fail`: only the first reason is kept.
  unfoldable pub fail_write : String → OutcomeWriter → OutcomeWriter
  fail_write why w = if w.failed then w else record w { failed = true; reason = why }

  -- A round of `run`: one outcome is received, and written unless a write failed before.
  unfoldable pub take_outcome : OutcomeCodec c → Option String → OutcomeWriter → OutcomeWriter
  unfolding write_line fail_write
  take_outcome j io w = elim w.queue [
    | [] ↦ w
    | l ∷ ls ↦
        let w' = record w { queue = ls } in
        if w.failed then w' else elim (write_line (j.encode_line l) io w') [
          | err e ↦ fail_write (text_append "write_error: " e) w'
          | ok w'' ↦ record w'' { ops = u64 (w''.ops + 1) }
        ]
  ]

  -- The counts of a blocked `Write`, whose loop leaves the longest wait.
  unfoldable pub count_wait : ℕ → OutcomeWriter → OutcomeWriter
  count_wait d w = record w {
    waits = u64 (w.waits + 1);
    wait_total = w.wait_total + d;
    wait_max = if leb d w.wait_max then w.wait_max else d;
  }

  unfoldable pub put_outcome : OutcomeLine → OutcomeWriter → OutcomeWriter
  put_outcome l w = record w { queue = w.queue ++ l ∷ [] }

  -- `Write`; a call that finds the queue full waits `d` for a round, to which the disk answers `io`.
  unfoldable pub write_outcome :
      OutcomeCodec c → OutcomeLine → ℕ → Option String → OutcomeWriter → OutcomeWriter
  unfolding put_outcome take_outcome count_wait
  write_outcome j l d io w =
      if ltb (length w.queue) w.capacity
      then put_outcome (stamp l) w
      else count_wait d (put_outcome (stamp l) (take_outcome j io w))

  unfoldable pub base_result : OutcomeWriter → OutcomeResult
  base_result w = record {
    path = w.path;
    status = "";
    reason = "";
    ops = w.ops;
    bytes = w.bytes;
    waits = w.waits;
    wait_total = w.wait_total;
    wait_max = w.wait_max;
  }

  -- `Snapshot`
  unfoldable pub snapshot : OutcomeWriter → OutcomeResult
  unfolding base_result
  snapshot w =
      if w.failed
      then record (base_result w) { status = status_failed; reason = w.reason }
      else record (base_result w) { status = status_recording }

  -- Runs: the calls of the workers and the rounds of the goroutine, in any order.
  pub data Event : Type 0 where
    writes : OutcomeLine → ℕ → Option String → Event
    takes : Option String → Event

  unfoldable pub step : OutcomeCodec c → Event → OutcomeWriter → OutcomeWriter
  step j (writes l d io) w = write_outcome j l d io w
  step j (takes io) w = take_outcome j io w

  unfoldable pub run : OutcomeCodec c → List Event → OutcomeWriter → OutcomeWriter
  unfolding step
  run j [] w = w
  run j (ev ∷ evs) w = run j evs (step j ev w)

  -- The outcomes that a run hands to `Write`.
  unfoldable pub offered : List Event → List OutcomeLine
  offered [] = []
  offered (writes l d io ∷ evs) = stamp l ∷ offered evs
  offered (takes io ∷ evs) = offered evs
