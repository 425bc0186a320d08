-- ===== src/OutcomeFile/Torn.antt =====
-- What StreamOutcomes makes of the file of an OutcomeWriter before Close.
use percona_load_generator_m.Prelude.{
  ◌+◌, ◌≤◌, ◌≡◌, refl, sym, ap, ◌∙◌, ◌⊎◌, inl, inr, String, true, none, List, [], ◌∷◌, ◌++◌, Result,
  ok, ◌>>=◌, subst, All, All-split, arith, length, Result-cases,
}
use percona_load_generator_m.Recording.Format.{u64}
use percona_load_generator_m.Recording.Codec.{Codec}
use percona_load_generator_m.Recording.Reader.{Tail, each_line}
use percona_load_generator_m.Recording.Reading.{IsShort}
use percona_load_generator_m.OutcomeFile.Lines.{OutcomeHeader, OutcomeLine, OutcomeCodec, Laws}
use percona_load_generator_m.OutcomeFile.Writer.{
  OutcomeWriter, OpenIo, Event, run, offered, complete_header, new_outcome_writer,
}
use percona_load_generator_m.OutcomeFile.Reader.{outcome_step, stream_outcomes}
use percona_load_generator_m.OutcomeFile.Kept.{Encoded}
use percona_load_generator_m.OutcomeFile.Runs.{run-Kept, new_outcome_writer-Kept}
use percona_load_generator_m.OutcomeFile.Readback.{deliver, IsStamped, offered-IsStamped}
use percona_load_generator_m.OutcomeFile.Roundtrip.{complete_head}
use percona_load_generator_m.OutcomeFile.Cutting.{Cuts, OnDisk, Encoded-split, lines-Read}

module _ (c : Codec) (j : OutcomeCodec c) (cuts : Cuts c j) where
  open c use {Bytes}

  tail_of : {b : Bytes} {xs ys : List Bytes} → b ∷ xs ≡ b ∷ ys → xs ≡ ys
  tail_of h = cc

  module _ (laws : Laws c j) {A : Type 0} (fn : A → OutcomeLine → Result String A) where
    stream_read :
        (now : String) (h : OutcomeHeader) (head : Bytes) (done : List OutcomeLine)
        (more : List Bytes) (tail : Tail c) (z : A)
        → j.encode_header (complete_header now h) ≡ ok head
        → IsShort c head
        → each_line c (outcome_step c j fn) (none, z) 1 more tail
          ≡ (deliver fn z done >>= λ z'. ok (none, z'))
        → stream_outcomes c j fn z (head ∷ more) tail
          ≡ (deliver fn z done >>= λ z'. ok (complete_header now h, none, z'))
    unfolding stream_outcomes
    stream_read now h head done more tail z enc s read =
        rw (complete_head c j laws now h head more tail enc s, read)
          (elim (Result-cases (deliver fn z done)) [
            | inl (x, d) ↦ rw d refl
            | inr (z', d) ↦ rw d refl
          ])

    -- An OutcomeWriter made by NewOutcomeWriter, after any events and without Close, and a file that
    -- holds what was flushed and any first part of the bytes that went to the buffered writer, where no
    -- line is longer than the reader's limit and the first bytes of a line are no JSON unless only the
    -- newline is missing: StreamOutcomes calls back with the first of the outcomes handed to `Write`,
    -- in order, at least those whose lines the file holds in full, until the callback refuses one, and
    -- returns the header and no trailer. These and the unread ones are the outcomes counted, modulo
    -- 2^64, and all but those waiting in the queue where no write failed.
    pub stream_outcomes-OnDisk :
        (now path : String) (h : OutcomeHeader) (opening : OpenIo) (w : OutcomeWriter c)
        (evs : List (Event c)) (file : List Bytes) (tail : Tail c) (z : A)
        → new_outcome_writer c j now path h opening ≡ ok w
        → OnDisk c j cuts (run c j evs w) file tail
        → All (IsShort c) (run c j evs w).written
        → (done unread lost : List OutcomeLine) × (offered c evs
            ≡ (done ++ unread) ++ lost ++ (run c j evs w).queue)
          × (length file ≤ length done + 1)
          × ((run c j evs w).ops ≡ u64 (length (done ++ unread)))
          × ((lost ≡ []) ⊎ ((run c j evs w).failed ≡ true))
          × (stream_outcomes c j fn z file tail
              ≡ (deliver fn z done >>= λ z'. ok (complete_header now h, none, z')))
    stream_outcomes-OnDisk now path h opening w evs file tail z e (more, rest, first, parts, cut)
          short =
        let (head, enc, k0) = new_outcome_writer-Kept c j now path h opening w e in
        let k = run-Kept c j evs k0 in
        let held : file ≡ head ∷ more = first ∙ ap (λ xs. xs ++ more) k.file in
        let all_lines : head ∷ k.lines ≡ head ∷ (more ++ rest) =
          sym k.written ∙ (parts ∙ ap (λ xs. xs ++ rest) held) in
        let lines : k.lines ≡ more ++ rest = tail_of all_lines in
        let whole : All (IsShort c) (head ∷ (more ++ rest)) =
          subst (All (IsShort c)) (k.written ∙ all_lines) short in
        let shorts = All-split (IsShort c) more rest whole.1 in
        let stamped : All IsStamped (k.done ++ k.lost ++ (run c j evs w).queue) =
          subst (All IsStamped) k.all (offered-IsStamped c evs) in
        let st = (All-split IsStamped (k.done ++ k.lost) (run c j evs w).queue stamped).0 in
        let (us, vs, split, eu, ev) =
          Encoded-split c j cuts k.done more rest (subst (Encoded c j k.done) lines k.encoded) in
        let su =
          All-split IsStamped us vs
            (subst (All IsStamped) split (All-split IsStamped k.done k.lost st).0) in
        let (done, unread, both, n, read) =
          lines-Read c j cuts laws fn us vs more rest tail z 1 su.0 su.1 eu ev shorts.0 shorts.1
            cut in
        let same : k.done ≡ done ++ unread = split ∙ both in
        (
          done,
          unread,
          k.lost,
          k.all ∙ ap (λ xs. xs ++ k.lost ++ (run c j evs w).queue) same,
          (let l = ap length held in omega (arith, l, n)),
          k.ops ∙ ap (λ xs. u64 (length xs)) same,
          (elim k.whole [ inl (x, y) ↦ inl y | inr (x, y) ↦ inr x ]),
          ap (λ xs. stream_outcomes c j fn z xs tail) held
              ∙ stream_read now h head done more tail z enc whole.0 read,
        )
