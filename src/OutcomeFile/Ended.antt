-- ===== src/OutcomeFile/Ended.antt =====
-- `Close` of an OutcomeWriter: the file that it ends, or the failure that it reports.
use percona_load_generator_m.Prelude.{
  ℕ, ◌+◌, ◌≡◌, refl, sym, ap, ◌∙◌, ◌⊎◌, inl, inr, String, true, false, Option, none, List, [], ◌∷◌,
  ◌++◌, append-nil, ok, arith, length, Option-cases, Result-cases,
}
use percona_load_generator_m.Prelude.Keys.{◌=?◌, string_eq}
use percona_load_generator_m.Recording.Format.{u64, status_failed}
use percona_load_generator_m.Recording.Codec.{Codec}
use percona_load_generator_m.Recording.Writer.Close.{first_error}
use percona_load_generator_m.OutcomeFile.Lines.{
  OutcomeHeader, OutcomeLine, OutcomeTrailer, OutcomeCodec, line_outcome_trailer,
}
use percona_load_generator_m.OutcomeFile.Writer.{
  OutcomeWriter, OutcomeResult, OpenIo, take_outcome, write_line, base_result, Event, run, offered,
  complete_header, new_outcome_writer,
}
use percona_load_generator_m.OutcomeFile.Closing.{
  CloseIo, take_all, end_of, fill_trailer, end_with, close_outcomes,
}
use percona_load_generator_m.OutcomeFile.Kept.{
  Encoded, IsWriteError, Kept, take_cases, take-Kept, nothing_lost, reason-IsWriteError,
}
use percona_load_generator_m.OutcomeFile.Runs.{run-Kept, new_outcome_writer-Kept}

module _ (c : Codec) (j : OutcomeCodec c) where
  open c use {Bytes}

  -- A file with the outcomes `os` between its header and its trailer, and a result that says so.
  pub record Finished (os : List OutcomeLine) (head : Bytes) (status reason : String)
      (file : List Bytes) (r : OutcomeResult) : Type 0 where
    pub lines : List Bytes
    pub trailer : OutcomeTrailer
    pub last : Bytes
    pub contents : file ≡ head ∷ (lines ++ last ∷ [])
    pub encoded : Encoded c j os lines
    pub ended : j.encode_trailer trailer ≡ ok last
    pub kind : trailer.kind ≡ line_outcome_trailer
    pub told :
        (trailer.status ≡ status) × (trailer.reason ≡ reason) × (trailer.ops ≡ u64 (length os))
    pub result : (r.status ≡ status) × (r.reason ≡ reason) × (r.ops ≡ u64 (length os))

  -- A result that reports a failed write.
  abbrev pub IsFailed : OutcomeResult → Type 0
  IsFailed r = (r.status ≡ status_failed) × IsWriteError c j r.reason

  take_all-Kept :
      (ls : List OutcomeLine) (answers : ℕ → Option String) (n : ℕ) {os : List OutcomeLine}
      {head : Bytes} {w : OutcomeWriter c}
      → Kept c j os head w
      → Kept c j os head (take_all c j ls answers n w)
  unfolding take_all
  take_all-Kept [] answers n k = k
  take_all-Kept (l ∷ ls) answers n k =
      take_all-Kept ls answers (n + 1) (take-Kept c j (answers n) k)

  take_all_empty :
      (ls : List OutcomeLine) (answers : ℕ → Option String) (n : ℕ) (w : OutcomeWriter c)
      → w.queue ≡ ls
      → (take_all c j ls answers n w).queue ≡ []
  unfolding take_all
  take_all_empty [] answers n w q = q
  take_all_empty (l ∷ ls) answers n w q =
      take_all_empty ls answers (n + 1) (take_outcome c j (answers n) w)
        (elim (take_cases c j (answers n) w l ls q) [
          | inl (f, t) ↦ rw t refl
          | inr (inl (e, t)) ↦ rw t refl
          | inr (inr (b, f, e, t)) ↦ rw t refl
        ])

  -- The end of a file that no write failed on: a failure now, or one more line.
  end_cases :
      (io : CloseIo) (t : OutcomeTrailer) (status reason : String) (w : OutcomeWriter c)
      → (status =? status_failed) ≡ false
      → IsFailed (end_with c j io t (status, reason) w).1
        ⊎ ((b : Bytes) × (j.encode_trailer (fill_trailer c j t (status, reason) (base_result c w))
              ≡ ok b)
            × ((end_with c j io t (status, reason) w).0.file ≡ w.written ++ b ∷ [])
            × ((end_with c j io t (status, reason) w).1.status ≡ status)
            × ((end_with c j io t (status, reason) w).1.reason ≡ reason)
            × ((end_with c j io t (status, reason) w).1.ops ≡ w.ops))
  unfolding end_with write_line base_result
  end_cases io t status reason w s =
      elim (Result-cases
        (j.encode_trailer (fill_trailer c j t (status, reason) (base_result c w)))) [
          | inl (e, h) ↦ inl (ground arith, (e, ground arith))
          | inr (b, h) ↦
              elim (Option-cases (first_error (io.write ∷ io.flush ∷ io.sync ∷ io.close ∷ []))) [
                | inl n ↦ inr (b, h, ground arith, ground arith, ground arith, ground arith)
                | inr (e, n) ↦ inl (ground arith, (e, ground arith))
              ]
        ]

  end_failed :
      (io : CloseIo) (t : OutcomeTrailer) (why : String) (w : OutcomeWriter c)
      → ((end_with c j io t (status_failed, why) w).1.status ≡ status_failed)
        × ((end_with c j io t (status_failed, why) w).1.reason ≡ why)
  unfolding end_with
  end_failed io t why w = ground arith

  end_of_cases :
      (status reason : String) (w : OutcomeWriter c)
      → ((w.failed ≡ true) × (end_of c j status reason w ≡ (status_failed, w.reason)))
        ⊎ ((w.failed ≡ false) × (end_of c j status reason w ≡ (status, reason)))
  unfolding end_of
  end_of_cases status reason w = ground arith

  fill_told :
      (t : OutcomeTrailer) (status reason : String) (w : OutcomeWriter c)
      → ((fill_trailer c j t (status, reason) (base_result c w)).kind ≡ line_outcome_trailer)
        × ((fill_trailer c j t (status, reason) (base_result c w)).status ≡ status)
        × ((fill_trailer c j t (status, reason) (base_result c w)).reason ≡ reason)
        × ((fill_trailer c j t (status, reason) (base_result c w)).ops ≡ w.ops)
  unfolding fill_trailer base_result
  fill_told t status reason w = (refl, refl, refl, refl)

  -- The end of a drained queue.
  end_with-Finished :
      (io : CloseIo) (t : OutcomeTrailer) (status reason : String) {os : List OutcomeLine}
      {head : Bytes} {w : OutcomeWriter c}
      → Kept c j os head w
      → w.queue ≡ []
      → (status =? status_failed) ≡ false
      → Finished os head status reason
          (end_with c j io t (end_of c j status reason w) w).0.file
          (end_with c j io t (end_of c j status reason w) w).1
        ⊎ IsFailed (end_with c j io t (end_of c j status reason w) w).1
  end_with-Finished io t status reason {os} {w = w} k q s = elim (end_of_cases status reason w) [
    | inl (f, e) ↦ rw e (
        let (x, y) = end_failed io t w.reason w in
        let (text, z) = reason-IsWriteError c j k f in inr (x, (text, y ∙ z)))
    | inr (f, e) ↦ rw e (elim (end_cases io t status reason w s) [
      | inl h ↦ inr h
      | inr (b, enc, file, stat, why, ops) ↦
          let done : os ≡ k.done =
            k.all ∙ rw (nothing_lost c j k f, q, append-nil k.done) (append-nil k.done) in
          let count : w.ops ≡ u64 (length os) = k.ops ∙ ap (λ xs. u64 (length xs)) (sym done) in
          let told = fill_told t status reason w in
          inl (record {
            lines = k.lines;
            trailer = fill_trailer c j t (status, reason) (base_result c w);
            last = b;
            contents = file ∙ ap (λ bs. bs ++ b ∷ []) k.written;
            encoded = rw done k.encoded;
            ended = enc;
            kind = told.0;
            told = (told.1, told.2, told.3 ∙ count);
            result = (stat, why, ops ∙ count);
          })
    ])
  ]

  pub close_first :
      (io : CloseIo) (t : OutcomeTrailer) (status reason : String) (w : OutcomeWriter c)
      → w.result ≡ none
      → close_outcomes c j io t status reason w
        ≡ end_with c j io t
            (end_of c j status reason (take_all c j w.queue io.rounds 0 w))
            (take_all c j w.queue io.rounds 0 w)
  unfolding close_outcomes
  close_first io t status reason w r = ground arith

  pub close_outcomes-Kept :
      (io : CloseIo) (t : OutcomeTrailer) (status reason : String) {os : List OutcomeLine}
      {head : Bytes} {w : OutcomeWriter c}
      → Kept c j os head w
      → (status =? status_failed) ≡ false
      → Finished os head status reason
          (close_outcomes c j io t status reason w).0.file
          (close_outcomes c j io t status reason w).1
        ⊎ IsFailed (close_outcomes c j io t status reason w).1
  close_outcomes-Kept io t status reason {w = w} k s =
      rw (close_first io t status reason w k.started) (
        end_with-Finished io t status reason (take_all-Kept w.queue io.rounds 0 k)
          (take_all_empty w.queue io.rounds 0 w refl) s)

  -- The file of an OutcomeWriter that NewOutcomeWriter made and that ran over any events, closed with
  -- a status other than failed: either it is the encoded header, the encoded outcomes handed to
  -- `Write`, each once and in order, and a trailer with the status, the reason and the number of
  -- outcomes modulo 2^64, and the result says the same; or the result is failed, with a reason that
  -- begins with "write_error: ".
  pub close_outcomes-Finished :
      (now path : String) (h : OutcomeHeader) (opening : OpenIo) (w : OutcomeWriter c)
      (evs : List (Event c)) (io : CloseIo) (t : OutcomeTrailer) (status reason : String)
      → new_outcome_writer c j now path h opening ≡ ok w
      → (status =? status_failed) ≡ false
      → (head : Bytes) × (j.encode_header (complete_header now h) ≡ ok head)
        × (Finished
              (offered c evs)
              head
              status
              reason
              (close_outcomes c j io t status reason (run c j evs w)).0.file
              (close_outcomes c j io t status reason (run c j evs w)).1
            ⊎ IsFailed (close_outcomes c j io t status reason (run c j evs w)).1)
  close_outcomes-Finished now path h opening w evs io t status reason e s =
      let (b, enc, k) = new_outcome_writer-Kept c j now path h opening w e in
      (b, enc, close_outcomes-Kept io t status reason (run-Kept c j evs k) s)
