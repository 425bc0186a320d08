-- ===== src/OutcomeFile/Runs.antt =====
-- Runs of an OutcomeWriter, from `NewOutcomeWriter` on, keep what is known of its file.
use percona_load_generator_m.Prelude.{
  ◌+◌, ◌<◌, ◌≡◌, refl, sym, ap, ◌∙◌, inl, inr, String, ℕ, Option, List, [], ◌∷◌, ◌++◌, append_assoc,
  append-nil, ok, arith, length, length-append, Bool-cases, ltb, ltb→lt,
}
use percona_load_generator_m.Recording.Codec.{Codec}
use percona_load_generator_m.OutcomeFile.Lines.{OutcomeHeader, OutcomeLine, OutcomeCodec}
use percona_load_generator_m.OutcomeFile.Writer.{
  OutcomeWriter, OpenIo, start_writer, stamp, complete_header, write_line, new_outcome_writer,
  count_wait, put_outcome, write_outcome, Event, writes, takes, step, run, offered,
}
use percona_load_generator_m.OutcomeFile.Kept.{Kept, take-Kept, take_room}

module _ (c : Codec) (j : OutcomeCodec c) where
  open c use {Bytes}

  put-Kept :
      {os : List OutcomeLine} {head : Bytes} {w : OutcomeWriter c} (l : OutcomeLine)
      → Kept c j os head w
      → length w.queue < w.capacity
      → Kept c j (os ++ l ∷ []) head (put_outcome c l w)
  unfolding put_outcome
  put-Kept {w = w} l k room = record {
    done = k.done;
    lost = k.lost;
    lines = k.lines;
    all = ap (λ xs. xs ++ l ∷ []) k.all ∙ append_assoc (k.done ++ k.lost) w.queue (l ∷ []);
    written = k.written;
    file = k.file;
    encoded = k.encoded;
    ops = k.ops;
    whole = k.whole;
    capacity = k.capacity;
    fits = let n = length-append w.queue (l ∷ []) in omega (arith, n, room);
    started = k.started;
  }

  count-Kept :
      {os : List OutcomeLine} {head : Bytes} {w : OutcomeWriter c} (d : ℕ)
      → Kept c j os head w
      → Kept c j os head (count_wait c d w)
  unfolding count_wait
  count-Kept d k = record {
    done = k.done;
    lost = k.lost;
    lines = k.lines;
    all = k.all;
    written = k.written;
    file = k.file;
    encoded = k.encoded;
    ops = k.ops;
    whole = k.whole;
    capacity = k.capacity;
    fits = k.fits;
    started = k.started;
  }

  write-Kept :
      {os : List OutcomeLine} {head : Bytes} {w : OutcomeWriter c} (l : OutcomeLine) (d : ℕ)
      (io : Option String)
      → Kept c j os head w
      → Kept c j (os ++ stamp l ∷ []) head (write_outcome c j l d io w)
  unfolding write_outcome
  write-Kept {w = w} l d io k = elim (Bool-cases (ltb (length w.queue) w.capacity)) [
    | inl h ↦ rw h (put-Kept (stamp l) k (ltb→lt (length w.queue) w.capacity h))
    | inr h ↦ rw h (
        count-Kept d (
          put-Kept (stamp l) (take-Kept c j io k)
            (take_room c j io w (let p = k.capacity in omega (arith, p)) k.fits)))
  ]

  pub run-Kept :
      (evs : List (Event c)) {os : List OutcomeLine} {head : Bytes} {w : OutcomeWriter c}
      → Kept c j os head w
      → Kept c j (os ++ offered c evs) head (run c j evs w)
  unfolding run step offered
  run-Kept [] {os} k = rw (append-nil os) k
  run-Kept (writes l d io ∷ evs) {os} k =
      rw (sym (append_assoc os (stamp l ∷ []) (offered c evs))) (run-Kept evs (write-Kept l d io k))
  run-Kept (takes io ∷ evs) k = run-Kept evs (take-Kept c j io k)

  -- The writer that `NewOutcomeWriter` returns: it has written the header.
  pub opened :
      (now path : String) (h : OutcomeHeader) (io : OpenIo) (w : OutcomeWriter c)
      → new_outcome_writer c j now path h io ≡ ok w
      → (b : Bytes) × (j.encode_header (complete_header now h) ≡ ok b)
        × (w ≡ record (start_writer c path) {
          bytes = 0 + c.size b;
          written = b ∷ [];
          file = b ∷ [];
        })
  unfolding new_outcome_writer write_line
  opened now path h io w e = ground arith

  pub new_outcome_writer-Kept :
      (now path : String) (h : OutcomeHeader) (io : OpenIo) (w : OutcomeWriter c)
      → new_outcome_writer c j now path h io ≡ ok w
      → (b : Bytes) × (j.encode_header (complete_header now h) ≡ ok b) × Kept c j [] b w
  new_outcome_writer-Kept now path h io w e =
      let (b, enc, start) = opened now path h io w e in
      (
        b,
        enc,
        rw start (record {
          done = [];
          lost = [];
          lines = [];
          all = refl;
          written = refl;
          file = refl;
          encoded = tt;
          ops = refl;
          whole = inl (refl, refl);
          capacity = refl;
          fits = omega arith;
          started = refl;
        }),
      )
