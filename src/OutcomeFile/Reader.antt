-- ===== src/OutcomeFile/Reader.antt =====
-- outcome.go: `ReadOutcomeHeader` and `StreamOutcomes`, on the lines of a file and what follows them;
-- the errors are the recording reader's. What `StreamOutcomes` returns beside an error is left out,
-- and its check of the context is a refusal of the callback.
use percona_load_generator_m.Prelude.{
  ℕ, String, not, Option, none, some, List, Result, ok, err, ◌>>=◌, ◌>>◌, refuse, if◌then◌else◌,
}
use percona_load_generator_m.Prelude.Keys.{◌=?◌, string_eq}
use percona_load_generator_m.Recording.Codec.{Codec}
use percona_load_generator_m.Recording.Reader.{
  Error, empty_file, no_header_line, header_error, unsupported_format, op_error, trailer_error,
  unexpected_line, after_trailer, stopped, Tail, first_line, each_line,
}
use percona_load_generator_m.OutcomeFile.Lines.{
  OutcomeHeader, OutcomeLine, OutcomeTrailer, OutcomeCodec, outcome_format_version,
  line_outcome_header, line_outcome, line_outcome_trailer,
}

module _ (c : Codec) (j : OutcomeCodec c) where
  open c use {Bytes}

  -- `readOutcomeHeader`, with the number of its line and what follows.
  unfoldable pub read_outcome_header :
      List Bytes → Tail c → Result Error (OutcomeHeader × ℕ × List Bytes × Tail c)
  read_outcome_header bs tail = do
    first ← first_line c 0 bs tail
    elim first [
      | none ↦ err empty_file
      | some (b, n, rest, tail') ↦ (do
        refuse (not (c.has_type b line_outcome_header)) no_header_line
        elim (j.decode_header b) [
          | err e ↦ err (header_error e)
          | ok h ↦ (do
            refuse (not (h.format =? outcome_format_version)) (unsupported_format h.format)
            ok (h, n, rest, tail'))
        ])
    ]

  module _ {A : Type 0} (fn : A → OutcomeLine → Result String A) where
    -- A round of the loop: the trailer, once it was read, and the callback's state.
    unfoldable pub outcome_step :
        Option OutcomeTrailer × A → ℕ → Bytes → Result Error (Option OutcomeTrailer × A)
    outcome_step (some t, z) n b = err (after_trailer n)
    outcome_step (none, z) n b =
        if c.has_type b line_outcome
        then elim (j.decode_line b) [
          | err e ↦ err (op_error n e)
          | ok l ↦ elim (fn z l) [ err e ↦ err (stopped e) | ok z' ↦ ok (none, z') ]
        ]
        else if c.has_type b line_outcome_trailer
        then elim (j.decode_trailer b) [ err e ↦ err (trailer_error n e) | ok t ↦ ok (some t, z) ]
        else err (unexpected_line n "")

    -- `StreamOutcomes`
    unfoldable pub stream_outcomes :
        A → List Bytes → Tail c → Result Error (OutcomeHeader × Option OutcomeTrailer × A)
    unfolding read_outcome_header outcome_step
    stream_outcomes z bs tail = do
      head ← read_outcome_header bs tail
      let (h, n, rest, tail') = head
      out ← each_line c outcome_step (none, z) n rest tail'
      ok (h, out.0, out.1)
