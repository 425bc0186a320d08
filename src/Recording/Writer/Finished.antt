-- ===== src/Recording/Writer/Finished.antt =====
-- A closed recording: what `Close` leaves in the file when it reports "complete".
use percona_load_generator_m.Prelude.{
  ℕ, ◌+◌, ◌≡◌, refl, sym, ap, ◌∙◌, ◌&&◌, String, true, Option, none, some, List, [], ◌∷◌, ◌++◌, map,
  append-nil, ok, arith, All, length, if◌then◌else◌, if_split,
}
use percona_load_generator_m.Prelude.Int.{ℤ}
use percona_load_generator_m.Prelude.Keys.{int_eq}
use percona_load_generator_m.Recording.Format.{u64, Trailer, status_complete}
use percona_load_generator_m.Recording.Codec.{Codec}
use percona_load_generator_m.Recording.Writer.State.{
  State, recording, truncated, failed, is_recording, status_text, CloseIo, Entry, Queued, Recorder,
}
use percona_load_generator_m.Recording.Writer.Steps.{
  write, drain, count_line, number_line, unnumber_line, stop,
}
use percona_load_generator_m.Recording.Writer.Close.{
  drain_all, trailer_of, write_trailer, flush_file, close, first_error, is_some, combine_hashes,
  sums_of,
}
use percona_load_generator_m.Recording.Writer.Run.{offer_of, lines_from, hashes_after}
use percona_load_generator_m.Recording.Writer.Lines.{Encoded, IsSent}
use percona_load_generator_m.Recording.Writer.Faithful.{Tells, drain-next, drain-Tells}

module _ (c : Codec) where
  open c use {Bytes}

  write_queue :
      (q : Queued c) (io : Option String) (r : Recorder c) → (write c q io r).queue ≡ r.queue
  unfolding write count_line number_line unnumber_line stop
  write_queue q io r = ground arith

  drain_queue :
      (io : Option String) (r : Recorder c) (q : Queued c) (qs : List (Queued c))
      → r.queue ≡ q ∷ qs
      → (drain c io r).queue ≡ qs
  drain_queue io r q qs e = rw (drain-next c io r q qs e) (
      if_split {A = Recorder c} (λ r'. r'.queue ≡ qs) (is_recording r.state)
        (λ s. write_queue q io (record r { queue = qs })) (λ s. refl))

  -- The final drain leaves no operation behind.
  drain_all_queue :
      (qs : List (Queued c)) (answers : ℕ → Option String) (n : ℕ) (r : Recorder c)
      → r.queue ≡ qs
      → (drain_all c qs answers n r).queue ≡ []
  unfolding drain_all
  drain_all_queue [] answers n r e = e
  drain_all_queue (q ∷ qs) answers n r e =
      drain_all_queue qs answers (n + 1) (drain c (answers n) r) (drain_queue (answers n) r q qs e)

  drain_all-Tells :
      {os : List (Entry c × ℤ)} {head : Bytes} (qs : List (Queued c)) (answers : ℕ → Option String)
      (n : ℕ) (r : Recorder c)
      → Tells c os head r
      → Tells c os head (drain_all c qs answers n r)
  unfolding drain_all
  drain_all-Tells [] answers n r t = t
  drain_all-Tells (q ∷ qs) answers n r t =
      drain_all-Tells qs answers (n + 1) (drain c (answers n) r) (drain-Tells c (answers n) t)

  -- A finished file: every operation offered, in order, and the trailer that counts them.
  pub record Finished (os : List (Entry c × ℤ)) (head : Bytes) (file : List Bytes) : Type 0 where
    pub done : List (Queued c)
    pub lines : List Bytes
    pub trailer : Trailer
    pub last : Bytes
    pub all : map (offer_of c) done ≡ os
    pub sent : All (IsSent c) done
    pub encoded : Encoded c (lines_from c 0 [] done) lines
    pub contents : file ≡ head ∷ (lines ++ last ∷ [])
    pub ended : c.encode_trailer trailer ≡ ok last
    pub kind : trailer.kind ≡ "trailer"
    pub status : trailer.status ≡ status_complete
    pub count : trailer.ops ≡ u64 (length done)
    pub hash : trailer.commands_hash ≡ combine_hashes c (sums_of c (hashes_after c [] done))

  write_trailer_ok :
      (t : Trailer) (io : Option String) (r : Recorder c)
      → (write_trailer c t io r).0 ≡ none
      → (b : Bytes) × (c.encode_trailer t ≡ ok b)
        × ((write_trailer c t io r).1.written ≡ r.written ++ b ∷ [])
  unfolding write_trailer
  write_trailer_ok t io r h = ground arith

  -- The status of `Close` is "complete" only if the recording was never stopped and every step worked.
  complete_only :
      (s : State) (failure : Option String)
      → (if is_some failure && is_recording s
          then "failed"
          else (if is_recording s then status_complete else status_text s))
        ≡ status_complete
      → (is_recording s ≡ true) × (failure ≡ none)
  complete_only recording none h = (refl, refl)
  complete_only recording (some e) h = cc
  complete_only truncated none h = cc
  complete_only truncated (some e) h = cc
  complete_only failed none h = cc
  complete_only failed (some e) h = cc

  first_error-none :
      (o : Option String) (es : List (Option String)) → first_error (o ∷ es) ≡ none → o ≡ none
  first_error-none none es h = refl
  first_error-none (some e) es h = cc

  flush_works :
      (o p : Option String) (es : List (Option String))
      → first_error (o ∷ p ∷ es) ≡ none
      → (o ≡ none) × (p ≡ none)
  flush_works none none es h = (refl, refl)
  flush_works none (some e) es h = cc
  flush_works (some e) p es h = cc

  flushed :
      (o p : Option String) (r : Recorder c)
      → (o ≡ none) × (p ≡ none)
      → (flush_file c o p r).file ≡ r.written
  unfolding flush_file
  flushed o p r (e, f) = rw (e, f) refl

  -- The recorder after the final drain.
  abbrev drained : CloseIo → Recorder c → Recorder c
  drained io r = drain_all c r.queue io.rounds 0 r

  pub close-Finished :
      {os : List (Entry c × ℤ)} {head : Bytes} (io : CloseIo) (r : Recorder c)
      → Tells c os head r
      → (close c io r).1.status ≡ status_complete
      → Finished os head (close c io r).0.file
  unfolding close trailer_of
  close-Finished {os} {head} io r t h =
      let t' = drain_all-Tells r.queue io.rounds 0 r t in
      let good = complete_only (drained io r).state _ h in
      let l = t'.live good.0 in
      let w =
        write_trailer_ok (trailer_of c _ _ (drained io r)) io.write (drained io r)
          (first_error-none _ _ good.1) in
      let whole =
        ap (λ x. t'.done ++ x) (l.queued ∙ drain_all_queue r.queue io.rounds 0 r refl)
        ∙ append-nil t'.done in
      record {
        done = t'.done;
        lines = t'.lines;
        trailer = trailer_of c _ _ (drained io r);
        last = w.0;
        all = sym (
            t'.all
            ∙ (ap (λ x. map (offer_of c) (t'.done ++ t'.pending) ++ x) l.accepted
                ∙ (append-nil (map (offer_of c) (t'.done ++ t'.pending))
                    ∙ ap (map (offer_of c)) whole)));
        sent = rw whole at t'.sent;
        encoded = t'.encoded;
        contents =
            flushed _ io.flush _ (flush_works _ _ _ good.1)
            ∙ (w.2 ∙ ap (λ x. x ++ w.0 ∷ []) t'.written);
        ended = w.1;
        kind = refl;
        status = rw good.0 refl;
        count = t'.ops;
        hash = ap (λ m. combine_hashes c (sums_of c m)) l.hashed;
      }
