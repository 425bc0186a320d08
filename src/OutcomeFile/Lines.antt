-- ===== src/OutcomeFile/Lines.antt =====
-- outcome.go: the lines of an outcome file, and the JSON codec of encoding/json for them. `Laws`
-- states what the code relies on: decoding a line that was encoded gives it back, an encoded line
-- begins with its type field, and it is not blank.
use percona_load_generator_m.Prelude.{ℕ, String, Bool, true, false, ◌≡◌, Result, ok}
use percona_load_generator_m.Prelude.Int.{ℤ}
use percona_load_generator_m.Recording.Format.{Outcome}
use percona_load_generator_m.Recording.Codec.{Codec}

abbrev pub outcome_format_version : String
outcome_format_version = "plgm-workload-outcomes/1"

abbrev pub line_outcome_header : String
line_outcome_header = "outcome_header"

abbrev pub line_outcome : String
line_outcome = "outcome"

abbrev pub line_outcome_trailer : String
line_outcome_trailer = "outcome_trailer"

pub record OutcomeHeader : Type 0 where
  pub kind : String
  pub format : String
  pub source : String
  pub plgm_version : String
  pub created_at : String
  pub server_version : String
  pub topology : String
  pub workers : ℤ
  pub result_checksums : Bool
  pub recording_file : String
  pub recording_header_hash : String
  pub collections_hash : String
  pub queries_hash : String
  pub random_seed : ℤ
  pub operations_per_worker : ℤ
  pub ops_filter : String
  pub target : String

pub record OutcomeLine : Type 0 where
  pub kind : String
  pub seq : ℕ
  pub worker : ℤ
  pub worker_seq : ℕ
  pub iteration : ℤ
  pub ns : String
  pub op : String
  pub shape : String
  pub outcome : Outcome

pub record OutcomeTrailer : Type 0 where
  pub kind : String
  pub status : String
  pub reason : String
  pub ops : ℕ
  pub commands_hash : String
  pub traffic_fingerprint : String
  pub traffic_status : String
  pub waits : ℕ
  pub wait_total_us : ℕ
  pub wait_max_us : ℕ

-- `json.Encoder.Encode`, the newline included, and `json.Unmarshal`, with the texts of their errors.
pub record OutcomeCodec (c : Codec) : Type 0 where
  pub encode_header : OutcomeHeader → Result String c.Bytes
  pub encode_line : OutcomeLine → Result String c.Bytes
  pub encode_trailer : OutcomeTrailer → Result String c.Bytes
  pub decode_header : c.Bytes → Result String OutcomeHeader
  pub decode_line : c.Bytes → Result String OutcomeLine
  pub decode_trailer : c.Bytes → Result String OutcomeTrailer

pub record Laws (c : Codec) (j : OutcomeCodec c) : Type 0 where
  pub header_back :
      (h : OutcomeHeader) (b : c.Bytes)
      → j.encode_header h ≡ ok b
      → j.decode_header (c.trim_right b) ≡ ok h
  pub header_type :
      (h : OutcomeHeader) (b : c.Bytes)
      → h.kind ≡ line_outcome_header
      → j.encode_header h ≡ ok b
      → (c.has_type (c.trim_right b) line_outcome_header ≡ true)
        × (c.is_blank (c.trim_right b) ≡ false)
  pub line_back :
      (l : OutcomeLine) (b : c.Bytes)
      → j.encode_line l ≡ ok b
      → j.decode_line (c.trim_right b) ≡ ok l
  pub line_kind :
      (l : OutcomeLine) (b : c.Bytes)
      → l.kind ≡ line_outcome
      → j.encode_line l ≡ ok b
      → (c.has_type (c.trim_right b) line_outcome ≡ true) × (c.is_blank (c.trim_right b) ≡ false)
  pub trailer_back :
      (t : OutcomeTrailer) (b : c.Bytes)
      → j.encode_trailer t ≡ ok b
      → j.decode_trailer (c.trim_right b) ≡ ok t
  pub trailer_type :
      (t : OutcomeTrailer) (b : c.Bytes)
      → t.kind ≡ line_outcome_trailer
      → j.encode_trailer t ≡ ok b
      → (c.has_type (c.trim_right b) line_outcome ≡ false)
        × (c.has_type (c.trim_right b) line_outcome_trailer ≡ true)
        × (c.is_blank (c.trim_right b) ≡ false)
