-- ===== src/Recording/Examples.antt =====
-- A codec whose byte strings are the lines themselves, and runs of a Recorder on it.
use percona_load_generator_m.Prelude.{
  ℕ, ◌≡◌, refl, sym, String, Bool, true, false, none, List, [], ◌∷◌, ◌++◌, map, All, Result, ok,
  err, arith, if◌then◌else◌,
}
use percona_load_generator_m.Prelude.Int.{pos}
use percona_load_generator_m.Prelude.Keys.{◌=?◌, contains, nat_eq, string_eq}
use percona_load_generator_m.Recording.Format.{Header, OpLine, Trailer}
use percona_load_generator_m.Recording.Codec.{Codec, Laws}
use percona_load_generator_m.Recording.Reader.{clean, stream}
use percona_load_generator_m.Recording.Reading.{deliver}
use percona_load_generator_m.Recording.Roundtrip.{Accepted, scan-close, stream-close}
use percona_load_generator_m.Recording.Writer.Stopped.{SameReport, run-SameReport}
use percona_load_generator_m.Recording.Writer.State.{
  failed, reason_queue_full, Options, OpenIo, CloseIo, Entry, Queued, Recorder,
}
use percona_load_generator_m.Recording.Writer.Open.{
  default_options, complete_header, start_recorder, new_recorder,
}
use percona_load_generator_m.Recording.Writer.Steps.{line_of, write, drain, send, record_op}
use percona_load_generator_m.Recording.Writer.Close.{close}
use percona_load_generator_m.Recording.Writer.Run.{
  Event, records, drains, step, run, offered, offer_of, lines_from,
}
use percona_load_generator_m.Recording.Writer.Lines.{IsSent}

data Line : Type 0 where
  command_line : ℕ → Line
  op_line : OpLine ℕ → Line
  header_line : Header → Line
  trailer_line : Trailer → Line

-- A line with another command.
abbrev with_cmd : {A B : Type 0} → B → OpLine A → OpLine B
with_cmd b l = record {
  kind = l.kind;
  seq = l.seq;
  worker = l.worker;
  worker_seq = l.worker_seq;
  offset_us = l.offset_us;
  iteration = l.iteration;
  ns = l.ns;
  op = l.op;
  path = l.path;
  is_ok = l.is_ok;
  existing = l.existing;
  query = l.query;
  shape = l.shape;
  cmd = b;
  outcome = l.outcome;
  flags = l.flags;
}

abbrev encode_line : OpLine Line → Result String Line
encode_line l = elim l.cmd [
  | command_line n ↦ ok (op_line (with_cmd n l))
  | op_line o ↦ err "not a command"
  | header_line h ↦ err "not a command"
  | trailer_line t ↦ err "not a command"
]

abbrev decode_line : Line → Result String (OpLine Line)
decode_line (op_line l) = ok (with_cmd (command_line l.cmd) l)
decode_line (command_line n) = err "not an operation"
decode_line (header_line h) = err "not an operation"
decode_line (trailer_line t) = err "not an operation"

abbrev decode_head : Line → Result String Header
decode_head (header_line h) = ok h
decode_head (op_line l) = err "not a header"
decode_head (command_line n) = err "not a header"
decode_head (trailer_line t) = err "not a header"

abbrev decode_end : Line → Result String Trailer
decode_end (trailer_line t) = ok t
decode_end (header_line h) = err "not a trailer"
decode_end (op_line l) = err "not a trailer"
decode_end (command_line n) = err "not a trailer"

abbrev kind_of : Line → String
kind_of (trailer_line t) = t.kind
kind_of (header_line h) = h.kind
kind_of (op_line l) = l.kind
kind_of (command_line n) = ""

abbrev is_command : Line → Bool
is_command (command_line n) = true
is_command (trailer_line t) = false
is_command (header_line h) = false
is_command (op_line l) = false

abbrev plain : Codec
plain = record {
  Bytes = Line;
  Command = ℕ;
  encode_command = λ n. if n =? 0 then err "no command" else ok (command_line n);
  encode_op = encode_line;
  encode_header = λ h. ok (header_line h);
  encode_trailer = λ t. ok (trailer_line t);
  decode_op = decode_line;
  decode_header = decode_head;
  decode_trailer = decode_end;
  decode_type = λ b. ok (kind_of b);
  valid = λ b. true;
  size = λ b. 100;
  trim_right = λ b. b;
  is_blank = λ b. false;
  has_type = λ b t. kind_of b =? t;
  is_object = is_command;
  hash = λ b. "hash";
  stream_sum = λ bs. "sum";
  pairs_sum = λ ps. "all";
}

encode_line_lem :
    (l : OpLine Line) (b : Line)
    → encode_line l ≡ ok b
    → (kind_of b ≡ l.kind) × (decode_line b ≡ ok l)
encode_line_lem l b e = ground arith

plain_Laws : Laws plain
plain_Laws = record {
  op_back = λ l m b s e. (encode_line_lem l b e).1;
  op_type = λ l b k e. rw ((encode_line_lem l b e).0, k) refl;
  op_not_blank = λ l b e. refl;
  command_object = λ m b e. ground arith;
  header_back = λ h b e. ground arith;
  header_type = λ h b k e. let p : header_line h ≡ b = cc in rw (sym p, k) (refl, refl, refl);
  trailer_back = λ t b e. ground arith;
  trailer_type =
      λ t b k e. let p : trailer_line t ≡ b = cc in rw (sym p, k) (refl, refl, refl, refl);
}

abbrev header : Header
header = record {
  kind = "";
  format = "";
  created_at = "";
  workers = pos 2;
  failure_policy = "";
  max_bytes = pos 0;
  backpressure = "";
  iterations = pos 0;
  interval_delay = "";
  outcomes = false;
  result_checksums = false;
  collections_hash = "";
  queries_hash = "";
  namespaces = "shop.orders" ∷ [];
  imported = false;
}

abbrev options : Options
options = record { max_bytes = pos 0; queue_size = pos 1; backpressure = ""; compression = "" }

abbrev disk : OpenIo
disk = record {
  overwrite = none;
  open_file = none;
  chmod = none;
  compressor = none;
  header_write = none;
  flush = none;
}

abbrev closing : CloseIo
closing = record {
  rounds = λ n. none;
  write = none;
  flush = none;
  compressor = none;
  sync = none;
  close = none;
}

abbrev entry : ℕ → ℕ → Entry plain
entry w cmd = record {
  worker = pos w;
  offset = 5000;
  ns = "shop.orders";
  op = "find";
  path = "";
  is_ok = true;
  existing = true;
  query = none;
  shape = none;
  command = cmd;
  outcome = none;
  flags = [];
}

-- Two workers and the writer; the queue holds one operation.
abbrev events : List (Event plain)
events =
    records (entry 1 7) 0 none
    ∷ drains none
    ∷ records (entry 2 8) 0 none
    ∷ drains none
    ∷ records (entry 1 9) 0 none
    ∷ []

abbrev stamp_line : ℕ → ℕ → ℕ → ℕ → OpLine Line
stamp_line w cmd seq k =
    line_of plain (record { entry = entry w cmd; cmd = command_line cmd; iteration = pos 0 }) seq k

abbrev started : Recorder plain
started =
    start_recorder plain (default_options plain options)
      (complete_header plain (default_options plain options) "now" header)
      (header_line (complete_header plain (default_options plain options) "now" header))

-- A callback that keeps the lines.
abbrev keep : List (OpLine Line) → OpLine Line → Result String (List (OpLine Line))
keep ls l = ok (ls ++ l ∷ [])

stream-close_example :
    (done : List (Queued plain)) × (map (offer_of plain) done ≡ offered plain events started)
    × (All (IsSent plain) done)
    × (stream plain keep [] (close plain closing (run plain events started)).0.file clean
        ≡ deliver plain keep [] (lines_from plain 0 [] done))
unfolding new_recorder close run offered step record_op send drain write contains
stream-close_example =
    stream-close plain plain_Laws options "now" header disk started events closing keep [] refl refl
      ((refl, refl, refl, refl), ((refl, refl, refl, refl), ((refl, refl, refl, refl), tt)))
      (omega arith, (omega arith, (omega arith, (omega arith, (omega arith, tt)))))

scan-close_example :
    Accepted plain
      (offered plain events started)
      (close plain closing (run plain events started)).0.file
unfolding new_recorder close run offered step record_op send drain write contains complete_header
scan-close_example =
    scan-close plain plain_Laws options "now" header disk started events closing refl refl
      ((refl, refl, refl, refl), ((refl, refl, refl, refl), ((refl, refl, refl, refl), tt)))
      (refl, refl, (refl, refl, (refl, refl, tt)))
      (omega arith, (omega arith, (omega arith, (omega arith, (omega arith, tt)))))

abbrev full : Recorder plain
full = record started { state = failed; reason = reason_queue_full }

run-SameReport_example : SameReport plain (run plain events full) full
run-SameReport_example = run-SameReport plain events full refl

offered_runs :
    offered plain events started ≡ (entry 1 7, pos 0) ∷ (entry 2 8, pos 0) ∷ (entry 1 9, pos 0) ∷ []
unfolding offered step record_op send drain write start_recorder complete_header default_options
offered_runs = refl
