-- ===== src/OutcomeFile/Examples.antt =====
-- Runs of an OutcomeWriter.
use percona_load_generator_m.Prelude.{
  ◌≡◌, ◌⊎◌, inl, ◌+◌, ◌≤◌, refl, true, none, some, List, [], ◌∷◌, ◌++◌, ok, ◌>>=◌, arith, length,
}
use percona_load_generator_m.Prelude.Keys.{string_eq}
use percona_load_generator_m.Recording.Format.{u64}
use percona_load_generator_m.Recording.Reader.{clean, partial}
use percona_load_generator_m.OutcomeFile.Lines.{OutcomeLine, OutcomeTrailer}
use percona_load_generator_m.OutcomeFile.Writer.{
  Event, writes, takes, complete_header, new_outcome_writer, take_outcome, write_outcome, step, run,
  offered, stamp,
}
use percona_load_generator_m.OutcomeFile.Closing.{close_outcomes}
use percona_load_generator_m.OutcomeFile.Reader.{stream_outcomes}
use percona_load_generator_m.OutcomeFile.Ended.{Finished, IsFailed, close_outcomes-Finished}
use percona_load_generator_m.OutcomeFile.Readback.{deliver}
use percona_load_generator_m.OutcomeFile.Roundtrip.{stream_outcomes-close_outcomes}
use percona_load_generator_m.OutcomeFile.Undisturbed.{IsQuiet, close_outcomes-Undisturbed}
use percona_load_generator_m.OutcomeFile.Torn.{stream_outcomes-OnDisk}
use percona_load_generator_m.OutcomeFile.Sample.{
  Line, header_line, outcome_line, torn_line, plain, json, header, outcome_of, trailer, disk,
  closing, events, started, keep, calm, json_Laws, knife,
}

close_outcomes-Finished_example :
    (head : Line) × (json.encode_header (complete_header "now" header) ≡ ok head)
    × (Finished plain json
          (offered plain events)
          head
          "complete"
          ""
          (close_outcomes plain json closing trailer "complete" ""
            (run plain json events started)).0.file
          (close_outcomes plain json closing trailer "complete" ""
            (run plain json events started)).1
        ⊎ IsFailed plain json
            (close_outcomes plain json closing trailer "complete" ""
              (run plain json events started)).1)
unfolding new_outcome_writer
close_outcomes-Finished_example =
    close_outcomes-Finished plain json "now" "b.jsonl" header disk started events closing trailer
      "complete" "" refl refl

close_outcomes-Undisturbed_example :
    ((close_outcomes plain json closing trailer "complete" ""
        (run plain json events started)).1.status
      ≡ "complete")
    × ((close_outcomes plain json closing trailer "complete" ""
          (run plain json events started)).1.reason
        ≡ "")
unfolding new_outcome_writer IsQuiet
close_outcomes-Undisturbed_example =
    close_outcomes-Undisturbed plain json closing calm "now" "b.jsonl" header disk started events
      trailer "complete" "" refl (refl, (refl, (refl, (refl, tt))))

stream_outcomes-close_outcomes_example :
    (last : OutcomeTrailer) × (last.status ≡ "complete")
    × (last.reason ≡ "")
    × (last.ops ≡ u64 (length (offered plain events)))
    × (stream_outcomes plain json keep []
          (close_outcomes plain json closing trailer "complete" ""
            (run plain json events started)).0.file
          clean
        ≡ (deliver keep [] (offered plain events) >>= λ z'.
            ok (complete_header "now" header, some last, z')))
unfolding new_outcome_writer close_outcomes run step write_outcome
stream_outcomes-close_outcomes_example =
    stream_outcomes-close_outcomes plain json json_Laws keep "now" "b.jsonl" header disk started
      events closing trailer "complete" "" [] refl refl refl
      (omega arith, (omega arith, (omega arith, (omega arith, (omega arith, tt)))))

-- Two outcomes were written; of the second, the file holds the first bytes.
abbrev two : List (Event plain)
two = writes (outcome_of 1 1) 0 none ∷ takes none ∷ writes (outcome_of 2 2) 0 none ∷ takes none ∷ []

abbrev cut_file : List Line
cut_file = header_line (complete_header "now" header) ∷ outcome_line (stamp (outcome_of 1 1)) ∷ []

stream_outcomes-OnDisk_example :
    (done unread lost : List OutcomeLine) × (offered plain two
      ≡ (done ++ unread) ++ lost ++ (run plain json two started).queue)
    × (length cut_file ≤ length done + 1)
    × ((run plain json two started).ops ≡ u64 (length (done ++ unread)))
    × ((lost ≡ []) ⊎ ((run plain json two started).failed ≡ true))
    × (stream_outcomes plain json keep [] cut_file (partial torn_line)
        ≡ (deliver keep [] done >>= λ z'. ok (complete_header "now" header, none, z')))
unfolding new_outcome_writer run step write_outcome take_outcome
stream_outcomes-OnDisk_example =
    stream_outcomes-OnDisk plain json knife json_Laws keep "now" "b.jsonl" header disk started two
      cut_file (partial torn_line) [] refl
      (
        outcome_line (stamp (outcome_of 1 1)) ∷ [],
        outcome_line (stamp (outcome_of 2 2)) ∷ [],
        refl,
        refl,
        inl refl,
      )
      (omega arith, (omega arith, (omega arith, tt)))

offered_runs :
    offered plain events
    ≡ stamp (outcome_of 1 1) ∷ stamp (outcome_of 2 2) ∷ stamp (outcome_of 1 3) ∷ []
unfolding offered
offered_runs = refl
