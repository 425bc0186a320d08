-- ===== src/Recording/Roundtrip.antt =====
-- From `NewRecorder` over a run and `Close` to the readers.
use percona_load_generator_m.Prelude.{
  ◌+◌, suc, length, sym, ap, ◌∙◌, some, ◌≡◌, refl, String, List, [], ◌∷◌, ◌++◌, map, Result, ok,
  subst, All, All-split, arith,
}
use percona_load_generator_m.Prelude.Int.{ℤ, pos}
use percona_load_generator_m.Recording.Format.{
  u64, Trailer, Header, OpLine, status_complete, format_version, line_header,
}
use percona_load_generator_m.Recording.Codec.{Codec, Laws}
use percona_load_generator_m.Recording.Reader.{clean, stream, scan, scan_end, start_info, FileInfo}
use percona_load_generator_m.Recording.Accepted.{
  IsOrdered, Scanned, each_line-scan_line, seq_after_lem,
}
use percona_load_generator_m.Recording.Reading.{
  IsShort, IsReplayable, deliver, read_header-encode, each_line-stream_line,
}
use percona_load_generator_m.Recording.Writer.State.{
  Options, OpenIo, CloseIo, Entry, Queued, Recorder,
}
use percona_load_generator_m.Recording.Writer.Open.{
  default_options, complete_header, start_recorder, new_recorder,
}
use percona_load_generator_m.Recording.Writer.Close.{close}
use percona_load_generator_m.Recording.Writer.Run.{
  Event, run, offered, offer_of, lines_from, seq_after,
}
use percona_load_generator_m.Recording.Writer.Lines.{IsSent}
use percona_load_generator_m.Recording.Writer.Faithful.{Tells}
use percona_load_generator_m.Recording.Writer.Offers.{run-Tells, start-Tells}
use percona_load_generator_m.Recording.Writer.Finished.{Finished, close-Finished}

module _ (c : Codec) where
  open c use {Bytes}

  new_recorder_ok :
      (o : Options) (now : String) (h : Header) (io : OpenIo) (r : Recorder c)
      → new_recorder c o now h io ≡ ok r
      → (b : Bytes) × (c.encode_header (complete_header c (default_options c o) now h) ≡ ok b)
        × (r
            ≡ start_recorder c
                (default_options c o)
                (complete_header c (default_options c o) now h)
                b)
  unfolding new_recorder
  new_recorder_ok o now h io r e = ground arith

  -- The operations handed to `Record` are ones that the replayer knows.
  abbrev pub AllReplayable : List (Entry c × ℤ) → Type 0
  AllReplayable os = All (λ o. IsReplayable c o.0) os

  entries_of :
      (qs : List (Queued c))
      → AllReplayable (map (offer_of c) qs)
      → All (λ q. IsReplayable c q.entry) qs
  entries_of [] h = tt
  entries_of (q ∷ qs) h = (h.0, entries_of qs h.1)

  -- A finished file is read back whole.
  stream-Finished :
      (laws : Laws c) (h : Header) (head : Bytes) (os : List (Entry c × ℤ)) (file : List Bytes)
      {A : Type 0} (fn : A → OpLine Bytes → Result String A) (z : A) (f : Finished c os head file)
      → h.kind ≡ line_header
      → h.format ≡ format_version
      → c.encode_header h ≡ ok head
      → AllReplayable os
      → All (IsShort c) file
      → stream c fn z file clean ≡ deliver c fn z (lines_from c 0 [] f.done)
  unfolding stream
  stream-Finished laws h head os file fn z f k v e fine short =
      let whole : All (IsShort c) (head ∷ (f.lines ++ f.last ∷ [])) =
        subst (All (IsShort c)) f.contents short in
      let parts = All-split (IsShort c) f.lines (f.last ∷ []) whole.1 in
      let known : AllReplayable (map (offer_of c) f.done) = rw f.all fine in
      rw (f.contents, read_header-encode c laws h head (f.lines ++ f.last ∷ []) k v e whole.0)
        (each_line-stream_line c laws fn z 1 0 [] f.done f.lines f.trailer f.last f.sent
          (entries_of f.done known) f.encoded parts.0 f.kind f.ended parts.1.0)

  pub new_recorder-Tells :
      (o : Options) (now : String) (h : Header) (io : OpenIo) (r : Recorder c)
      (evs : List (Event c))
      → new_recorder c o now h io ≡ ok r
      → (b : Bytes) × (c.encode_header (complete_header c (default_options c o) now h) ≡ ok b)
        × Tells c (offered c evs r) b (run c evs r)
  new_recorder-Tells o now h io r evs e =
      let (b, enc, start) = new_recorder_ok o now h io r e in
      let o' = default_options c o in
      let h' = complete_header c o' now h in
      (b, enc, run-Tells c evs [] r (rw start (start-Tells c o' h' b)))

  -- A Recorder made by `NewRecorder`, run over any events and closed with the result "complete":
  -- if the operations handed to `Record` are ones that `parseOp` knows and no line of the file is
  -- longer than the reader's limit, then `Stream` on the file calls back with exactly these
  -- operations, in the order of `Record`, numbered in the file and for each worker, until the
  -- callback refuses one.
  pub stream-close :
      (laws : Laws c) (o : Options) (now : String) (h : Header) (io : OpenIo) (r : Recorder c)
      (evs : List (Event c)) (cio : CloseIo) {A : Type 0} (fn : A → OpLine Bytes → Result String A)
      (z : A)
      → new_recorder c o now h io ≡ ok r
      → (close c cio (run c evs r)).1.status ≡ status_complete
      → AllReplayable (offered c evs r)
      → All (IsShort c) (close c cio (run c evs r)).0.file
      → (done : List (Queued c)) × (map (offer_of c) done ≡ offered c evs r)
        × (All (IsSent c) done)
        × (stream c fn z (close c cio (run c evs r)).0.file clean
            ≡ deliver c fn z (lines_from c 0 [] done))
  unfolding complete_header
  stream-close laws o now h io r evs cio fn z e s fine short =
      let (b, enc, t) = new_recorder-Tells o now h io r evs e in
      let h' = complete_header c (default_options c o) now h in
      let f = close-Finished c cio (run c evs r) t s in
      (
        f.done,
        f.all,
        f.sent,
        stream-Finished laws h' b (offered c evs r) (close c cio (run c evs r)).0.file fn z f refl
            refl enc fine short,
      )

  iterations_of :
      (qs : List (Queued c)) → map (λ o. o.1) (map (offer_of c) qs) ≡ map (λ q. q.iteration) qs
  iterations_of [] = refl
  iterations_of (q ∷ qs) = ap (λ its. q.iteration ∷ its) (iterations_of qs)

  length_of : (qs : List (Queued c)) → length (map (offer_of c) qs) ≡ length qs
  length_of [] = refl
  length_of (q ∷ qs) = ap suc (length_of qs)

  scan_end_ok :
      (info : FileInfo) (t : Trailer)
      → info.trailer ≡ some t
      → t.ops ≡ info.ops
      → scan_end info ≡ ok (record info { status = t.status })
  unfolding scan_end
  scan_end_ok info t h e = ground arith

  -- What `Scan` makes of a file that `os` were recorded in.
  abbrev pub Accepted : List (Entry c × ℤ) → List Bytes → Type 0
  Accepted os file =
      (info : FileInfo) × (scan c file clean ≡ ok info)
      × (info.status ≡ status_complete)
      × (info.ops ≡ u64 (length os))

  scan-Finished :
      (laws : Laws c) (h : Header) (head : Bytes) (os : List (Entry c × ℤ)) (file : List Bytes)
      (f : Finished c os head file)
      → h.kind ≡ line_header
      → h.format ≡ format_version
      → c.encode_header h ≡ ok head
      → AllReplayable os
      → IsOrdered (pos 0) h.iterations (map (λ o. o.1) os)
      → All (IsShort c) file
      → Accepted os file
  unfolding scan
  scan-Finished laws h head os file f k v e fine ord short =
      let whole : All (IsShort c) (head ∷ (f.lines ++ f.last ∷ [])) =
        subst (All (IsShort c)) f.contents short in
      let parts = All-split (IsShort c) f.lines (f.last ∷ []) whole.1 in
      let known : AllReplayable (map (offer_of c) f.done) = rw f.all fine in
      let its : map (λ o. o.1) os ≡ map (λ q. q.iteration) f.done =
        ap (map (λ o. o.1)) (sym f.all) ∙ iterations_of f.done in
      let start : Scanned c 0 [] (pos 0) h (start_info c h (c.hash (c.trim_right head))) = record {
        ops = refl;
        workers = refl;
        iterations = refl;
        header = refl;
        open_end = refl;
      } in
      let (info, lines, ops, workers) =
        each_line-scan_line c laws 1 0 [] (pos 0) h (start_info c h (c.hash (c.trim_right head)))
          f.done f.lines f.trailer f.last start (subst (IsOrdered (pos 0) h.iterations) its ord)
          f.sent (entries_of f.done known) f.encoded parts.0 f.kind f.ended parts.1.0 in
      let zero : 0 + length f.done ≡ length f.done = omega arith in
      let total : seq_after c 0 f.done ≡ u64 (length f.done) =
        seq_after_lem c 0 f.done refl ∙ ap u64 zero in
      let info' : FileInfo = record info { trailer = some f.trailer } in
      let closed = scan_end_ok info' f.trailer refl (f.count ∙ (sym total ∙ sym ops)) in
      let size = length_of f.done in
      (
        record info' { status = f.trailer.status },
        rw
            (
              f.contents,
              read_header-encode c laws h head (f.lines ++ f.last ∷ []) k v e whole.0,
              lines,
            )
            closed,
        f.status,
        ops ∙ (total ∙ ap u64 (sym size ∙ ap length f.all)),
      )

  -- A Recorder made by `NewRecorder`, run over any events and closed with the result "complete":
  -- if the operations handed to `Record` are ones that `parseOp` knows, their iterations do not go
  -- back and stay within the header's, and no line of the file is longer than the reader's limit,
  -- then `Scan` accepts the file, with the status complete and the number of these operations, modulo
  -- 2^64.
  pub scan-close :
      (laws : Laws c) (o : Options) (now : String) (h : Header) (io : OpenIo) (r : Recorder c)
      (evs : List (Event c)) (cio : CloseIo)
      → new_recorder c o now h io ≡ ok r
      → (close c cio (run c evs r)).1.status ≡ status_complete
      → AllReplayable (offered c evs r)
      → IsOrdered
          (pos 0)
          (complete_header c (default_options c o) now h).iterations
          (map (λ x. x.1) (offered c evs r))
      → All (IsShort c) (close c cio (run c evs r)).0.file
      → Accepted (offered c evs r) (close c cio (run c evs r)).0.file
  unfolding complete_header
  scan-close laws o now h io r evs cio e s fine ord short =
      let (b, enc, t) = new_recorder-Tells o now h io r evs e in
      let h' = complete_header c (default_options c o) now h in
      let f = close-Finished c cio (run c evs r) t s in
      scan-Finished laws h' b (offered c evs r) (close c cio (run c evs r)).0.file f refl refl enc
        fine ord short
