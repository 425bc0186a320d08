-- ===== src/OutcomeFile/Roundtrip.antt =====
-- From NewOutcomeWriter over a run and Close to StreamOutcomes on the file.
use percona_load_generator_m.Prelude.{
  ◌+◌, ◌≡◌, refl, sym, ◌∙◌, inl, inr, String, true, false, some, List, [], ◌∷◌, ◌++◌, Result, ok,
  ◌>>=◌, subst, All, All-split, length, Result-cases,
}
use percona_load_generator_m.Prelude.Keys.{◌=?◌, beq_refl, string_eq}
use percona_load_generator_m.Recording.Format.{u64, status_failed}
use percona_load_generator_m.Recording.Codec.{Codec}
use percona_load_generator_m.Recording.Reader.{Tail, clean}
use percona_load_generator_m.Recording.Reading.{IsShort}
use percona_load_generator_m.OutcomeFile.Lines.{
  OutcomeHeader, OutcomeLine, OutcomeTrailer, OutcomeCodec, Laws,
}
use percona_load_generator_m.OutcomeFile.Writer.{
  OutcomeWriter, OutcomeResult, OpenIo, Event, run, offered, complete_header, new_outcome_writer,
}
use percona_load_generator_m.OutcomeFile.Closing.{CloseIo, close_outcomes}
use percona_load_generator_m.OutcomeFile.Reader.{read_outcome_header, stream_outcomes}
use percona_load_generator_m.OutcomeFile.Ended.{Finished, close_outcomes-Finished}
use percona_load_generator_m.OutcomeFile.Readback.{
  deliver, IsStamped, offered-IsStamped, read_outcome_header-encode, each_line-outcomes,
  each_line-trailer,
}

module _ (c : Codec) (j : OutcomeCodec c) (laws : Laws c j) where
  open c use {Bytes}

  pub complete_head :
      (now : String) (h : OutcomeHeader) (head : Bytes) (bs : List Bytes) (tail : Tail c)
      → j.encode_header (complete_header now h) ≡ ok head
      → IsShort c head
      → read_outcome_header c j (head ∷ bs) tail ≡ ok (complete_header now h, 1, bs, tail)
  unfolding complete_header
  complete_head now h head bs tail e s =
      read_outcome_header-encode c j laws (complete_header now h) head bs tail refl refl e s

  module _ {A : Type 0} (fn : A → OutcomeLine → Result String A) where
    stream-Finished :
        (now : String) (h : OutcomeHeader) (head : Bytes) (os : List OutcomeLine)
        (status reason : String) (file : List Bytes) {r : OutcomeResult} (z : A)
        (f : Finished c j os head status reason file r)
        → j.encode_header (complete_header now h) ≡ ok head
        → All IsStamped os
        → All (IsShort c) file
        → stream_outcomes c j fn z file clean
          ≡ (deliver fn z os >>= λ z'. ok (complete_header now h, some f.trailer, z'))
    unfolding stream_outcomes
    stream-Finished now h head os status reason file z f e st short =
        let whole : All (IsShort c) (head ∷ (f.lines ++ f.last ∷ [])) =
          subst (All (IsShort c)) f.contents short in
        let parts = All-split (IsShort c) f.lines (f.last ∷ []) whole.1 in
        rw
          (
            f.contents,
            complete_head now h head (f.lines ++ f.last ∷ []) clean e whole.0,
            each_line-outcomes c j laws fn os f.lines (f.last ∷ []) clean z 1 st f.encoded parts.0,
          )
          (elim (Result-cases (deliver fn z os)) [
            | inl (x, d) ↦ rw d refl
            | inr (z', d) ↦
                rw
                  (
                    d,
                    each_line-trailer c j laws fn f.trailer f.last z' (1 + length f.lines) f.kind
                        f.ended parts.1.0,
                  )
                  refl
          ])

    -- An OutcomeWriter made by NewOutcomeWriter, run over any events and closed with a status other
    -- than failed, where the result has that status: if no line of the file is longer than the
    -- reader's limit, StreamOutcomes on the file calls back with exactly the outcomes handed to
    -- `Write`, in order, until the callback refuses one, and returns the header and a trailer with
    -- the status, the reason and the number of outcomes modulo 2^64.
    pub stream_outcomes-close_outcomes :
        (now path : String) (h : OutcomeHeader) (opening : OpenIo) (w : OutcomeWriter c)
        (evs : List (Event c)) (io : CloseIo) (t : OutcomeTrailer) (status reason : String) (z : A)
        → new_outcome_writer c j now path h opening ≡ ok w
        → (status =? status_failed) ≡ false
        → (close_outcomes c j io t status reason (run c j evs w)).1.status ≡ status
        → All (IsShort c) (close_outcomes c j io t status reason (run c j evs w)).0.file
        → (last : OutcomeTrailer) × (last.status ≡ status)
          × (last.reason ≡ reason)
          × (last.ops ≡ u64 (length (offered c evs)))
          × (stream_outcomes c j fn z
                (close_outcomes c j io t status reason (run c j evs w)).0.file
                clean
              ≡ (deliver fn z (offered c evs) >>= λ z'. ok (complete_header now h, some last, z')))
    stream_outcomes-close_outcomes now path h opening w evs io t status reason z e s r short =
        let (head, enc, end) =
          close_outcomes-Finished c j now path h opening w evs io t status reason e s in
        elim end [
          | inl f ↦ (
            f.trailer,
            f.told.0,
            f.told.1,
            f.told.2,
            stream-Finished now h head (offered c evs) status reason
                (close_outcomes c j io t status reason (run c j evs w)).0.file z f enc
                (offered-IsStamped c evs) short,
          )
          | inr (x, y) ↦
              (let same : (status =? status_failed) ≡ true =
                  rw (sym r ∙ x) (beq_refl status_failed) in
                absurd cc)
        ]
