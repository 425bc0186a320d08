-- ===== src/OutcomeFile/Undisturbed.antt =====
-- An OutcomeWriter that the disk and the encoder never fail.
use percona_load_generator_m.Prelude.{
  ℕ, ◌+◌, ◌≡◌, refl, inl, inr, String, false, Option, none, List, [], ◌∷◌, ok, arith, length, All,
  List-cases, Bool-cases, ltb,
}
use percona_load_generator_m.Prelude.Keys.{string_eq}
use percona_load_generator_m.Recording.Codec.{Codec}
use percona_load_generator_m.OutcomeFile.Lines.{
  OutcomeHeader, OutcomeLine, OutcomeTrailer, OutcomeCodec,
}
use percona_load_generator_m.OutcomeFile.Writer.{
  OutcomeWriter, OpenIo, write_line, take_outcome, put_outcome, count_wait, write_outcome,
  base_result, Event, writes, takes, step, run, new_outcome_writer,
}
use percona_load_generator_m.OutcomeFile.Closing.{
  CloseIo, take_all, end_of, fill_trailer, end_with, close_outcomes,
}
use percona_load_generator_m.OutcomeFile.Ended.{close_first}
use percona_load_generator_m.OutcomeFile.Runs.{opened, run-Kept, new_outcome_writer-Kept}

module _ (c : Codec) (j : OutcomeCodec c) where
  open c use {Bytes}

  -- The disk answers none of the calls with an error.
  unfoldable pub IsQuiet : Event c → Type 0
  IsQuiet (writes l d io) = io ≡ none
  IsQuiet (takes io) = io ≡ none

  pub record Undisturbed (io : CloseIo) : Type 0 where
    pub rounds : (n : ℕ) → io.rounds n ≡ none
    pub write : io.write ≡ none
    pub flush : io.flush ≡ none
    pub sync : io.sync ≡ none
    pub close : io.close ≡ none
    pub lines : (l : OutcomeLine) → (b : Bytes) × (j.encode_line l ≡ ok b)
    pub trailers : (t : OutcomeTrailer) → (b : Bytes) × (j.encode_trailer t ≡ ok b)

  module _ (cio : CloseIo) (calm : Undisturbed cio) where
    take_calm :
        (io : Option String) (w : OutcomeWriter c)
        → io ≡ none
        → w.failed ≡ false
        → (take_outcome c j io w).failed ≡ false
    unfolding take_outcome write_line
    take_calm io w n f = elim (List-cases w.queue) [
      | inl q ↦ ground arith
      | inr (l, ls, q) ↦ let (b, h) = calm.lines l in ground arith
    ]

    write_calm :
        (l : OutcomeLine) (d : ℕ) (io : Option String) (w : OutcomeWriter c)
        → io ≡ none
        → w.failed ≡ false
        → (write_outcome c j l d io w).failed ≡ false
    unfolding write_outcome put_outcome count_wait
    write_calm l d io w n f = elim (Bool-cases (ltb (length w.queue) w.capacity)) [
      | inl h ↦ rw h f
      | inr h ↦ rw h (take_calm io w n f)
    ]

    run_calm :
        (evs : List (Event c)) (w : OutcomeWriter c)
        → All IsQuiet evs
        → w.failed ≡ false
        → (run c j evs w).failed ≡ false
    unfolding run step IsQuiet
    run_calm [] w q f = f
    run_calm (writes l d io ∷ evs) w q f =
        run_calm evs (write_outcome c j l d io w) q.1 (write_calm l d io w q.0 f)
    run_calm (takes io ∷ evs) w q f =
        run_calm evs (take_outcome c j io w) q.1 (take_calm io w q.0 f)

    take_all_calm :
        (ls : List OutcomeLine) (n : ℕ) (w : OutcomeWriter c)
        → w.failed ≡ false
        → (take_all c j ls cio.rounds n w).failed ≡ false
    unfolding take_all
    take_all_calm [] n w f = f
    take_all_calm (l ∷ ls) n w f =
        take_all_calm ls (n + 1) (take_outcome c j (cio.rounds n) w)
          (take_calm (cio.rounds n) w (calm.rounds n) f)

    end_calm :
        (t : OutcomeTrailer) (status reason : String) (w : OutcomeWriter c)
        → w.failed ≡ false
        → ((end_with c j cio t (end_of c j status reason w) w).1.status ≡ status)
          × ((end_with c j cio t (end_of c j status reason w) w).1.reason ≡ reason)
    unfolding end_with end_of write_line
    end_calm t status reason w f =
        let (b, h) = calm.trailers (fill_trailer c j t (status, reason) (base_result c w)) in
        let x1 = calm.write in
        let x2 = calm.flush in let x3 = calm.sync in let x4 = calm.close in ground arith

    -- If no call of the disk fails and every line can be encoded, then an OutcomeWriter made by
    -- NewOutcomeWriter, run over any events and closed, has the status and the reason that Close was
    -- called with.
    pub close_outcomes-Undisturbed :
        (now path : String) (h : OutcomeHeader) (opening : OpenIo) (w : OutcomeWriter c)
        (evs : List (Event c)) (t : OutcomeTrailer) (status reason : String)
        → new_outcome_writer c j now path h opening ≡ ok w
        → All IsQuiet evs
        → ((close_outcomes c j cio t status reason (run c j evs w)).1.status ≡ status)
          × ((close_outcomes c j cio t status reason (run c j evs w)).1.reason ≡ reason)
    close_outcomes-Undisturbed now path h opening w evs t status reason e q =
        let k = run-Kept c j evs (new_outcome_writer-Kept c j now path h opening w e).2 in
        let f = run_calm evs w q (rw (opened c j now path h opening w e).2 refl) in
        rw (close_first c j cio t status reason (run c j evs w) k.started) (
          end_calm t status reason (take_all c j (run c j evs w).queue cio.rounds 0 (run c j evs w))
            (take_all_calm (run c j evs w).queue 0 (run c j evs w) f))
