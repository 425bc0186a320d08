-- ===== src/Recording/Writer/State.antt =====
-- writer.go: the state of the Recorder, and what goes in and out of it.
use percona_load_generator_m.Prelude.{ℕ, String, Bool, true, false, Option, List, if◌then◌else◌}
use percona_load_generator_m.Prelude.Int.{ℤ}
use percona_load_generator_m.Prelude.Keys.{◌=?◌, int_eq, string_eq}
use percona_load_generator_m.Recording.Format.{
  QueryRef, ShapeRef, Outcome, status_recording, status_truncated, status_failed,
  backpressure_block,
}
use percona_load_generator_m.Recording.Codec.{Codec}

pub data State : Type 0 where
  recording truncated failed : State

abbrev pub is_recording : State → Bool
is_recording recording = true
is_recording _ = false

abbrev pub reason_queue_full : String
reason_queue_full = "writer_queue_full: the writer could not keep up with the workload"

abbrev pub reason_max_bytes : String
reason_max_bytes = "max_bytes_reached: the file reached workload_record_max_bytes"

pub record Options : Type 0 where
  pub max_bytes : ℤ
  pub queue_size : ℤ
  pub backpressure : String
  pub compression : String

pub data OpenError : Type 0 where
  unknown_backpressure unknown_compression : String → OpenError
  overwrite_refused not_opened no_permissions no_compressor header_failed : String → OpenError
  max_bytes_below_header : ℤ → OpenError

-- The answers of the file system to `NewRecorder`, in the order of its calls.
pub record OpenIo : Type 0 where
  pub overwrite : Option String
  pub open_file : Option String
  pub chmod : Option String
  pub compressor : Option String
  pub header_write : Option String
  pub flush : Option String

-- The answers to `Close`: the write, the flush, the compressor, the sync and the close.
pub record CloseIo : Type 0 where
  pub rounds : ℕ → Option String
  pub write : Option String
  pub flush : Option String
  pub compressor : Option String
  pub sync : Option String
  pub close : Option String

-- `policy` texts are named by their backpressure.
abbrev pub policy : String → String
policy b = if b =? backpressure_block then "block_on_backpressure" else "fail_on_backpressure"

abbrev pub status_text : State → String
status_text recording = status_recording
status_text truncated = status_truncated
status_text failed = status_failed

pub record Closed : Type 0 where
  pub status : String
  pub reason : String
  pub ops : ℕ
  pub bytes : ℕ
  pub commands_hash : String
  pub backpressure : String
  pub iterations : ℤ
  pub waits : ℕ
  pub wait_total : ℕ
  pub wait_max : ℕ
  pub outcomes : Bool
  pub result_checksums : Bool

module _ (c : Codec) where
  open c use {Bytes, Command}

  pub record Entry : Type 0 where
    pub worker : ℤ
    pub offset : ℕ
    pub ns : String
    pub op : String
    pub path : String
    pub is_ok : Bool
    pub existing : Bool
    pub query : Option QueryRef
    pub shape : Option ShapeRef
    pub command : Command
    pub outcome : Option Outcome
    pub flags : List String

  -- An entry in the channel: its encoded command and its iteration.
  pub record Queued : Type 0 where
    pub entry : Entry
    pub cmd : Bytes
    pub iteration : ℤ

  -- `written` is the lines that the buffered writer was given, `file` those that a flush of the
  -- header or of Close has brought to the file for certain: in between, the file holds any first part
  -- of the bytes written; `hashes` keeps what each worker's hash was given.
  pub record Recorder : Type 0 where
    pub max_bytes : ℕ
    pub reserve : ℤ
    pub block : Bool
    pub multi : Bool
    pub outcomes : Bool
    pub checksums : Bool
    pub capacity : ℕ
    pub queue : List Queued
    pub state : State
    pub reason : String
    pub ops : ℕ
    pub bytes : ℕ
    pub iteration : ℤ
    pub waits : ℕ
    pub wait_total : ℕ
    pub wait_max : ℕ
    pub last_iter_seen : ℤ
    pub seq : ℕ
    pub worker_seq : List (ℤ × ℕ)
    pub hashes : List (ℤ × List Bytes)
    pub iter_ops : List (ℤ × ℕ)
    pub written : List Bytes
    pub file : List Bytes
