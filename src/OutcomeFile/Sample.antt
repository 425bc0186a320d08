-- ===== src/OutcomeFile/Sample.antt =====
-- A codec whose byte strings are the lines themselves, and what a run of an OutcomeWriter is given.
use percona_load_generator_m.Prelude.{
  ℕ, ◌≡◌, ◌⊎◌, ap, ◌∙◌, inl, inr, Bool, refl, sym, String, true, false, none, some, List, [], ◌∷◌,
  ◌++◌, Result, ok, err, arith,
}
use percona_load_generator_m.Prelude.Int.{pos}
use percona_load_generator_m.Prelude.Keys.{◌=?◌, string_eq}
use percona_load_generator_m.Recording.Format.{Outcome}
use percona_load_generator_m.Recording.Codec.{Codec}
use percona_load_generator_m.OutcomeFile.Lines.{
  OutcomeHeader, OutcomeLine, OutcomeTrailer, OutcomeCodec, Laws,
}
use percona_load_generator_m.OutcomeFile.Writer.{
  OpenIo, OutcomeWriter, Event, writes, takes, start_writer, complete_header,
}
use percona_load_generator_m.OutcomeFile.Closing.{CloseIo}
use percona_load_generator_m.OutcomeFile.Undisturbed.{Undisturbed}
use percona_load_generator_m.OutcomeFile.Cutting.{Cuts}

pub data Line : Type 0 where
  header_line : OutcomeHeader → Line
  outcome_line : OutcomeLine → Line
  trailer_line : OutcomeTrailer → Line
  -- The first bytes of a line.
  torn_line : Line

abbrev pub kind_of : Line → String
kind_of (header_line h) = h.kind
kind_of (outcome_line l) = l.kind
kind_of (trailer_line t) = t.kind
kind_of torn_line = ""

abbrev pub is_whole : Line → Bool
is_whole torn_line = false
is_whole _ = true

abbrev pub plain : Codec
plain = record {
  Bytes = Line;
  Command = ℕ;
  encode_command = λ n. err "not used";
  encode_op = λ l. err "not used";
  encode_header = λ h. err "not used";
  encode_trailer = λ t. err "not used";
  decode_op = λ b. err "not used";
  decode_header = λ b. err "not used";
  decode_trailer = λ b. err "not used";
  decode_type = λ b. ok (kind_of b);
  valid = is_whole;
  size = λ b. 100;
  trim_right = λ b. b;
  is_blank = λ b. false;
  has_type = λ b t. kind_of b =? t;
  is_object = λ b. false;
  hash = λ b. "hash";
  stream_sum = λ bs. "sum";
  pairs_sum = λ ps. "all";
}

abbrev pub decode_head : Line → Result String OutcomeHeader
decode_head (header_line h) = ok h
decode_head (outcome_line l) = err "not a header"
decode_head (trailer_line t) = err "not a header"
decode_head torn_line = err "not a header"

abbrev pub decode_outcome : Line → Result String OutcomeLine
decode_outcome (outcome_line l) = ok l
decode_outcome (header_line h) = err "not an outcome"
decode_outcome (trailer_line t) = err "not an outcome"
decode_outcome torn_line = err "not an outcome"

abbrev pub decode_end : Line → Result String OutcomeTrailer
decode_end (trailer_line t) = ok t
decode_end (header_line h) = err "not a trailer"
decode_end (outcome_line l) = err "not a trailer"
decode_end torn_line = err "not a trailer"

abbrev pub json : OutcomeCodec plain
json = record {
  encode_header = λ h. ok (header_line h);
  encode_line = λ l. ok (outcome_line l);
  encode_trailer = λ t. ok (trailer_line t);
  decode_header = decode_head;
  decode_line = decode_outcome;
  decode_trailer = decode_end;
}

pub json_Laws : Laws plain json
json_Laws = record {
  header_back = λ h b e. let p : header_line h ≡ b = cc in rw (sym p) refl;
  header_type = λ h b k e. let p : header_line h ≡ b = cc in rw (sym p, k) (refl, refl);
  line_back = λ l b e. let p : outcome_line l ≡ b = cc in rw (sym p) refl;
  line_kind = λ l b k e. let p : outcome_line l ≡ b = cc in rw (sym p, k) (refl, refl);
  trailer_back = λ t b e. let p : trailer_line t ≡ b = cc in rw (sym p) refl;
  trailer_type = λ t b k e. let p : trailer_line t ≡ b = cc in rw (sym p, k) (refl, refl, refl);
}

abbrev pub header : OutcomeHeader
header = record {
  kind = "";
  format = "";
  source = "replay";
  plgm_version = "1.0";
  created_at = "";
  server_version = "8.0";
  topology = "replica_set";
  workers = pos 2;
  result_checksums = false;
  recording_file = "a.jsonl";
  recording_header_hash = "h";
  collections_hash = "";
  queries_hash = "";
  random_seed = pos 0;
  operations_per_worker = pos 0;
  ops_filter = "";
  target = "";
}

abbrev pub found : Outcome
found = record {
  latency_us = pos 250;
  is_ok = true;
  error_code = pos 0;
  error_name = "";
  returned = some (pos 3);
  checksum = "";
  inserted = none;
  matched = none;
  modified = none;
  upserted = none;
  deleted = none;
  transaction = "";
}

abbrev pub outcome_of : ℕ → ℕ → OutcomeLine
outcome_of w n = record {
  kind = "";
  seq = n;
  worker = pos w;
  worker_seq = n;
  iteration = pos 1;
  ns = "shop.orders";
  op = "find";
  shape = "";
  outcome = found;
}

abbrev pub trailer : OutcomeTrailer
trailer = record {
  kind = "";
  status = "";
  reason = "";
  ops = 0;
  commands_hash = "sum";
  traffic_fingerprint = "";
  traffic_status = "";
  waits = 0;
  wait_total_us = 0;
  wait_max_us = 0;
}

abbrev pub disk : OpenIo
disk = record {
  overwrite = none;
  open_file = none;
  chmod = none;
  header_write = none;
  flush = none;
}

abbrev pub closing : CloseIo
closing = record { rounds = λ n. none; write = none; flush = none; sync = none; close = none }

abbrev pub events : List (Event plain)
events =
    writes (outcome_of 1 1) 0 none
    ∷ takes none
    ∷ writes (outcome_of 2 2) 0 none
    ∷ writes (outcome_of 1 3) 0 none
    ∷ []

abbrev pub started : OutcomeWriter plain
started = record (start_writer plain "b.jsonl") {
  bytes = 100;
  written = header_line (complete_header "now" header) ∷ [];
  file = header_line (complete_header "now" header) ∷ [];
}

-- A callback that keeps the outcomes.
abbrev pub keep : List OutcomeLine → OutcomeLine → Result String (List OutcomeLine)
keep ls l = ok (ls ++ l ∷ [])

abbrev pub calm : Undisturbed plain json closing
calm = record {
  rounds = λ n. refl;
  write = refl;
  flush = refl;
  sync = refl;
  close = refl;
  lines = λ l. (outcome_line l, refl);
  trailers = λ t. (trailer_line t, refl);
}

-- A line can be cut anywhere: what is left is no document, or only the newline is missing.
abbrev pub knife : Cuts plain json
knife = record {
  IsCut = λ b' b. (b' ≡ torn_line) ⊎ (b' ≡ b);
  cut_size = λ b' b h. omega arith;
  cut_line = λ l b' b e h. elim h [
    | inl t ↦ inl (ap is_whole t)
    | inr t ↦ let p : outcome_line l ≡ b = cc in inr (ap is_whole t ∙ ap is_whole (sym p), t)
  ];
}
