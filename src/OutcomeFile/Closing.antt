-- ===== src/OutcomeFile/Closing.antt =====
-- outcome.go: `Close`.
use Prim.Native.String.{◌++◌ as text_append}
use percona_load_generator_m.Prelude.{
  ℕ, ◌+◌, ◌/◌, String, not, ◌&&◌, Option, none, some, List, [], ◌∷◌, ok, err, if◌then◌else◌,
}
use percona_load_generator_m.Prelude.Keys.{◌=?◌, string_eq}
use percona_load_generator_m.Recording.Format.{status_failed}
use percona_load_generator_m.Recording.Codec.{Codec}
use percona_load_generator_m.Recording.Writer.Close.{first_error, is_some, error_text}
use percona_load_generator_m.OutcomeFile.Lines.{
  OutcomeLine, OutcomeTrailer, OutcomeCodec, line_outcome_trailer,
}
use percona_load_generator_m.OutcomeFile.Writer.{
  OutcomeResult, OutcomeWriter, write_line, flush_file, take_outcome, base_result,
}

-- The answers to `Close`: to the rounds that it waits for, the write of the trailer, the flush, the
-- sync and the close.
pub record CloseIo : Type 0 where
  pub rounds : ℕ → Option String
  pub write : Option String
  pub flush : Option String
  pub sync : Option String
  pub close : Option String

module _ (c : Codec) (j : OutcomeCodec c) where
  -- The rounds until the closed queue is empty, one for each outcome of the list.
  unfoldable pub take_all :
      List OutcomeLine → (ℕ → Option String) → ℕ → OutcomeWriter c → OutcomeWriter c
  unfolding take_outcome
  take_all [] answers n w = w
  take_all (l ∷ ls) answers n w = take_all ls answers (n + 1) (take_outcome c j (answers n) w)

  -- The status and the reason that the trailer gets.
  unfoldable pub end_of : String → String → OutcomeWriter c → String × String
  end_of status reason w = if w.failed then (status_failed, w.reason) else (status, reason)

  unfoldable pub fill_trailer : OutcomeTrailer → String × String → OutcomeResult → OutcomeTrailer
  fill_trailer t (status, reason) res = record t {
    kind = line_outcome_trailer;
    status = status;
    reason = reason;
    ops = res.ops;
    waits = res.waits;
    wait_total_us = res.wait_total / 1000;
    wait_max_us = res.wait_max / 1000;
  }

  abbrev pub write_end :
      OutcomeTrailer → Option String → OutcomeWriter c → OutcomeWriter c × Option String
  write_end t io w = elim (write_line c (j.encode_trailer t) io w) [
    | err e ↦ (w, some e)
    | ok w' ↦ (w', none)
  ]

  -- The flush of `Close`, after the trailer's write.
  abbrev pub flush_end : Option String → Option String → OutcomeWriter c → OutcomeWriter c
  flush_end none none w = flush_file c w
  flush_end none (some e) w = w
  flush_end (some e) flush w = w

  -- What `Close` does once it knows the status and the reason.
  unfoldable pub end_with :
      CloseIo → OutcomeTrailer → String × String → OutcomeWriter c → OutcomeWriter c × OutcomeResult
  unfolding fill_trailer base_result write_line
  end_with io t end w =
      let res = base_result c w in
      let (w', wrote) = write_end (fill_trailer t end res) io.write w in
      let failure = first_error (wrote ∷ io.flush ∷ io.sync ∷ io.close ∷ []) in
      let late = is_some failure && not (end.0 =? status_failed) in
      let r = record res {
        status = if late then status_failed else end.0;
        reason = if late then text_append "write_error: " (error_text failure) else end.1;
        bytes = w'.bytes;
      } in
      (record (flush_end wrote io.flush w') { result = some r }, r)

  -- `Close`: the first call drains the queue and ends the file; every call returns its result.
  unfoldable pub close_outcomes :
      CloseIo → OutcomeTrailer → String → String → OutcomeWriter c → OutcomeWriter c × OutcomeResult
  unfolding take_all end_of end_with
  close_outcomes io t status reason w = elim w.result [
    | some r ↦ (w, r)
    | none ↦ let w' = take_all w.queue io.rounds 0 w in end_with io t (end_of status reason w') w'
  ]
