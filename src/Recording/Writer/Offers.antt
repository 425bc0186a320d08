-- ===== src/Recording/Writer/Offers.antt =====
-- A run of a Recorder keeps what its file is known to hold: every step of a worker or of the writer.
use Prim.Native.String.{◌++◌ as text_append}
use percona_load_generator_m.Prelude.{
  ℕ, ◌≡◌, refl, sym, ap, inl, inr, String, false, Option, List, [], ◌∷◌, ◌++◌, map, append-nil,
  append_assoc, map-append, All-append, length, Bool-cases, Result-cases, if_split, ltb, leb,
}
use percona_load_generator_m.Prelude.Int.{ℤ}
use percona_load_generator_m.Prelude.Keys.{int_eq}
use percona_load_generator_m.Recording.Format.{Header}
use percona_load_generator_m.Recording.Codec.{Codec}
use percona_load_generator_m.Recording.Writer.Open.{start_recorder}
use percona_load_generator_m.Recording.Writer.State.{
  State, Options, is_recording, failed, reason_queue_full, Entry, Queued, Recorder,
}
use percona_load_generator_m.Recording.Writer.Steps.{
  stop, fail, set_iteration, add_wait, enqueue, drain, send, record_op,
}
use percona_load_generator_m.Recording.Writer.Run.{
  Event, records, drains, fails, iterates, step, run, offers, offered, offer_of, stamp, lines_from,
  seqs_after, seq_after, hashes_after,
}
use percona_load_generator_m.Recording.Writer.Lines.{IsSent}
use percona_load_generator_m.Recording.Writer.Faithful.{
  Tells, stopped-Tells, refused-Tells, same-Tells, drain-Tells,
}

module _ (c : Codec) where
  open c use {Bytes}

  enqueue-Tells :
      {os : List (Entry c × ℤ)} {head : Bytes} {r : Recorder c} (q : Queued c)
      → IsSent c q
      → Tells c os head r
      → Tells c (os ++ offer_of c q ∷ []) head (enqueue c q r)
  unfolding enqueue
  enqueue-Tells {os} {head} {r} q i t = elim (Bool-cases (is_recording r.state)) [
    | inr s ↦ refused-Tells c (offer_of c q) (enqueue c q r) t s refl refl
    | inl s ↦
        let l = t.live s in
        let regroup : t.done ++ (t.pending ++ q ∷ []) ≡ (t.done ++ t.pending) ++ q ∷ [] =
          sym (append_assoc t.done t.pending (q ∷ [])) in
        record {
          done = t.done;
          pending = t.pending ++ q ∷ [];
          refused = [];
          lines = t.lines;
          all = rw (
            regroup,
            map-append (offer_of c) (t.done ++ t.pending) (q ∷ []),
            append-nil (map (offer_of c) (t.done ++ t.pending) ++ offer_of c q ∷ []),
            t.all,
            l.accepted,
            append-nil (map (offer_of c) (t.done ++ t.pending)),
          );
          sent = rw regroup (All-append (IsSent c) (t.done ++ t.pending) (q ∷ []) t.sent (i, tt));
          written = t.written;
          encoded = t.encoded;
          ops = t.ops;
          live = λ h. record {
            queued = ap (λ x. x ++ q ∷ []) l.queued;
            accepted = refl;
            numbered = l.numbered;
            counted = l.counted;
            hashed = l.hashed;
          };
        }
  ]

  -- A stopped recorder: what is offered then is refused.
  stop-Tells :
      {os : List (Entry c × ℤ)} {head : Bytes} {r : Recorder c} (o : Entry c × ℤ) (why : String)
      (s : State)
      → is_recording s ≡ false
      → Tells c os head r
      → Tells c (os ++ o ∷ []) head (stop c s why r)
  unfolding stop
  stop-Tells {os} {head} {r} o why s h t =
      if_split (Tells c (os ++ o ∷ []) head) (is_recording r.state)
        (λ live. refused-Tells c o (record r { state = s; reason = why }) t h refl refl)
        (λ dead. refused-Tells c o r t dead refl refl)

  fail-Tells :
      {os : List (Entry c × ℤ)} {head : Bytes} {r : Recorder c} (why : String)
      → Tells c os head r
      → Tells c os head (fail c why r)
  unfolding fail stop
  fail-Tells {os} {head} {r} why t =
      if_split (Tells c os head) (is_recording r.state)
        (λ live. stopped-Tells c (record r { state = failed; reason = why }) t refl refl refl)
        (λ dead. t)

  send-Tells :
      {os : List (Entry c × ℤ)} {head : Bytes} {r : Recorder c} (q : Queued c) (d : ℕ)
      (io : Option String)
      → IsSent c q
      → Tells c os head r
      → Tells c (os ++ offer_of c q ∷ []) head (send c q d io r)
  unfolding send add_wait
  send-Tells {os} {head} {r} q d io i t =
      let T = Tells c (os ++ offer_of c q ∷ []) head in
      if_split T (ltb (length r.queue) r.capacity) (λ h. enqueue-Tells q i t)
        (λ h.
          if_split T r.block
            (λ b.
              same-Tells c (add_wait c d (enqueue c q (drain c io r)))
                (enqueue-Tells q i (drain-Tells c io t)) refl refl refl refl refl refl refl)
            (λ b. stop-Tells (offer_of c q) reason_queue_full failed refl t))

  record_op-Tells :
      {os : List (Entry c × ℤ)} {head : Bytes} {r : Recorder c} (e : Entry c) (d : ℕ)
      (io : Option String)
      → Tells c os head r
      → Tells c (os ++ (e, stamp c r) ∷ []) head (record_op c e d io r)
  unfolding record_op
  record_op-Tells {os} {head} {r} e d io t = elim (Bool-cases (is_recording r.state)) [
    | inr s ↦ rw s (refused-Tells c (e, stamp c r) r t s refl refl)
    | inl s ↦ elim (Result-cases (c.encode_command e.command)) [
      | inl (x, h) ↦
          rw (s, h) (stop-Tells (e, stamp c r) (text_append "encode_error: " x) failed refl t)
      | inr (b, h) ↦
          let q : Queued c = record { entry = e; cmd = b; iteration = stamp c r } in
          rw (s, h) (send-Tells q d io h t)
    ]
  ]

  pub step-Tells :
      {os : List (Entry c × ℤ)} {head : Bytes} {r : Recorder c} (ev : Event c)
      → Tells c os head r
      → Tells c (os ++ offers c ev r) head (step c ev r)
  unfolding step offers set_iteration
  step-Tells (records e d io) t = record_op-Tells e d io t
  step-Tells {os} (drains io) t = rw (append-nil os) (drain-Tells c io t)
  step-Tells {os} (fails why) t = rw (append-nil os) (fail-Tells why t)
  step-Tells {os} {head} {r} (iterates n) t = rw (append-nil os) (
      if_split (Tells c os head) (leb 1 n)
        (λ h. same-Tells c _ t refl refl refl refl refl refl refl) (λ h. t))

  pub run-Tells :
      {head : Bytes} (evs : List (Event c)) (os : List (Entry c × ℤ)) (r : Recorder c)
      → Tells c os head r
      → Tells c (os ++ offered c evs r) head (run c evs r)
  unfolding run offered
  run-Tells [] os r t = rw (append-nil os) t
  run-Tells (ev ∷ evs) os r t =
      rw (sym (append_assoc os (offers c ev r) (offered c evs (step c ev r))))
        (run-Tells evs (os ++ offers c ev r) (step c ev r) (step-Tells ev t))

  pub start-Tells : (o : Options) (h : Header) (b : Bytes) → Tells c [] b (start_recorder c o h b)
  unfolding start_recorder lines_from seq_after seqs_after hashes_after
  start-Tells o h b = record {
    done = [];
    pending = [];
    refused = [];
    lines = [];
    all = refl;
    sent = tt;
    written = refl;
    encoded = tt;
    ops = refl;
    live = λ s. record {
      queued = refl;
      accepted = refl;
      numbered = refl;
      counted = refl;
      hashed = refl;
    };
  }
