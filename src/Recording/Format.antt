-- ===== src/Recording/Format.antt =====
-- The lines of a recording: format.go, and the outcome of one operation of outcome.go.
use percona_load_generator_m.Prelude.{ℕ, ◌%◌, String, Bool, Option, List, if◌then◌else◌}
use percona_load_generator_m.Prelude.Int.{ℤ, pos, ltb_ℤ}

-- A `uint64`.
abbrev pub u64 : ℕ → ℕ
u64 n = n % 18446744073709551616

abbrev pub format_version : String
format_version = "plgm-workload-record/1"

abbrev pub line_header : String
line_header = "header"

abbrev pub line_op : String
line_op = "op"

abbrev pub line_trailer : String
line_trailer = "trailer"

abbrev pub status_recording : String
status_recording = "recording"

abbrev pub status_complete : String
status_complete = "complete"

abbrev pub status_truncated : String
status_truncated = "truncated"

abbrev pub status_failed : String
status_failed = "failed"

abbrev pub status_incomplete : String
status_incomplete = "incomplete"

abbrev pub path_fast_insert_batch : String
path_fast_insert_batch = "fast_insert_batch"

abbrev pub path_fast_find : String
path_fast_find = "fast_find"

abbrev pub backpressure_fail : String
backpressure_fail = "fail"

abbrev pub backpressure_block : String
backpressure_block = "block"

abbrev pub compression_none : String
compression_none = "none"

abbrev pub compression_zstd : String
compression_zstd = "zstd"

abbrev pub compression_gzip : String
compression_gzip = "gzip"

-- A header holds, besides what the code below reads or sets, the description of the run (versions,
-- hashes, namespaces, configuration, data fingerprint, import counts), which it only passes on.
pub record Header : Type 0 where
  pub kind : String
  pub format : String
  pub created_at : String
  pub workers : ℤ
  pub failure_policy : String
  pub max_bytes : ℤ
  pub backpressure : String
  pub iterations : ℤ
  pub interval_delay : String
  pub outcomes : Bool
  pub result_checksums : Bool
  pub collections_hash : String
  pub queries_hash : String
  pub namespaces : List String
  pub imported : Bool

pub record QueryRef : Type 0 where
  pub name : String
  pub index : ℤ
  pub label : String
  pub source : String
  pub workload : String
  pub file : String
  pub id : String

pub record ShapeRef : Type 0 where
  pub key : String
  pub summary : String
  pub fields : List String
  pub query_summary : String
  pub pipeline_summary : String

pub record Outcome : Type 0 where
  pub latency_us : ℤ
  pub is_ok : Bool
  pub error_code : ℤ
  pub error_name : String
  pub returned : Option ℤ
  pub checksum : String
  pub inserted : Option ℤ
  pub matched : Option ℤ
  pub modified : Option ℤ
  pub upserted : Option ℤ
  pub deleted : Option ℤ
  pub transaction : String

-- `B` is the type of byte strings.
pub record OpLine (B : Type 0) : Type 0 where
  pub kind : String
  pub seq : ℕ
  pub worker : ℤ
  pub worker_seq : ℕ
  pub offset_us : ℤ
  pub iteration : ℤ
  pub ns : String
  pub op : String
  pub path : String
  pub is_ok : Bool
  pub existing : Bool
  pub query : Option QueryRef
  pub shape : Option ShapeRef
  pub cmd : B
  pub outcome : Option Outcome
  pub flags : List String

pub record Trailer : Type 0 where
  pub kind : String
  pub status : String
  pub reason : String
  pub ops : ℕ
  pub bytes : ℕ
  pub worker_ops : List (ℤ × ℕ)
  pub worker_hashes : List (ℤ × String)
  pub commands_hash : String
  pub iteration_ops : List (ℤ × ℕ)
  pub waits : ℕ
  pub wait_total_us : ℕ
  pub wait_max_us : ℕ

-- The 1-based iteration of an operation.
unfoldable pub op_iteration : {B : Type 0} → OpLine B → ℤ
op_iteration o = if ltb_ℤ o.iteration (pos 1) then pos 1 else o.iteration
