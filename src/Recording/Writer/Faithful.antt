-- ===== src/Recording/Writer/Faithful.antt =====
-- What a Recorder gave its buffered writer: the operations handed to `Record`, in order, up to some point,
-- and all of them while nothing stopped the recording. The writer's rounds keep that.
use percona_load_generator_m.Prelude.{
  ◌+◌, ◌≡◌, refl, sym, ap, ◌∙◌, ap₂, ◌⊎◌, inl, inr, String, true, false, Option, List, [], ◌∷◌,
  ◌++◌, map, append_assoc, ok, arith, All, length, length-append, Bool-cases, List-cases,
  if◌then◌else◌,
}
use percona_load_generator_m.Prelude.Int.{ℤ}
use percona_load_generator_m.Prelude.Keys.{int_eq}
use percona_load_generator_m.Recording.Format.{u64, OpLine}
use percona_load_generator_m.Recording.Codec.{Codec}
use percona_load_generator_m.Recording.Reader.{count_of, count_of-insert_self}
use percona_load_generator_m.Recording.Writer.State.{is_recording, Entry, Queued, Recorder}
use percona_load_generator_m.Recording.Writer.Steps.{number_line, count_line, write, drain, line_of}
use percona_load_generator_m.Recording.Writer.Run.{
  offer_of, lines_from, seqs_after, seq_after, hashes_after,
}
use percona_load_generator_m.Recording.Writer.Lines.{
  Encoded, IsSent, Encoded-snoc, lines_from-snoc, seqs_after-snoc, seq_after-snoc,
  hashes_after-snoc,
}

module _ (c : Codec) where
  open c use {Bytes}

  -- What is known while the recording goes on.
  pub record Live (done pending : List (Queued c)) (refused : List (Entry c × ℤ)) (r : Recorder c)
      : Type 0 where
    pub queued : pending ≡ r.queue
    pub accepted : refused ≡ []
    pub numbered : r.seq ≡ seq_after c 0 done
    pub counted : r.worker_seq ≡ seqs_after c [] done
    pub hashed : r.hashes ≡ hashes_after c [] done

  -- `sent` went into the queue, of it `done` was written, and `refused` never went in.
  pub record Tells (os : List (Entry c × ℤ)) (head : Bytes) (r : Recorder c) : Type 0 where
    pub done : List (Queued c)
    pub pending : List (Queued c)
    pub refused : List (Entry c × ℤ)
    pub lines : List Bytes
    pub all : os ≡ map (offer_of c) (done ++ pending) ++ refused
    pub sent : All (IsSent c) (done ++ pending)
    pub written : r.written ≡ head ∷ lines
    pub encoded : Encoded c (lines_from c 0 [] done) lines
    pub ops : r.ops ≡ u64 (length done)
    pub live : is_recording r.state ≡ true → Live done pending refused r

  abbrev pub next_line : Queued c → Recorder c → OpLine Bytes
  next_line q r =
      let r' = number_line c q.entry.worker r in
      line_of c q r'.seq (count_of q.entry.worker r'.worker_seq)

  -- A write stops the recording and writes nothing, or writes one line.
  pub write_cases :
      (q : Queued c) (io : Option String) (r : Recorder c)
      → is_recording r.state ≡ true
      → ((is_recording (write c q io r).state ≡ false)
          × ((write c q io r).written ≡ r.written)
          × ((write c q io r).ops ≡ r.ops))
        ⊎ ((b : Bytes) × (c.encode_op (next_line q r) ≡ ok b)
            × (write c q io r ≡ count_line c q b (number_line c q.entry.worker r)))
  unfolding write
  write_cases q io r live = ground (arith)

  -- A recorder that no longer records writes nothing.
  pub stopped-Tells :
      {os : List (Entry c × ℤ)} {head : Bytes} {r : Recorder c} (r' : Recorder c)
      → Tells os head r
      → is_recording r'.state ≡ false
      → r'.written ≡ r.written
      → r'.ops ≡ r.ops
      → Tells os head r'
  stopped-Tells r' t s f o = record {
    done = t.done;
    pending = t.pending;
    refused = t.refused;
    lines = t.lines;
    all = t.all;
    sent = t.sent;
    written = f ∙ t.written;
    encoded = t.encoded;
    ops = o ∙ t.ops;
    live = λ h. cc;
  }

  -- The same, with one more operation that is not recorded.
  pub refused-Tells :
      {os : List (Entry c × ℤ)} {head : Bytes} {r : Recorder c} (o : Entry c × ℤ) (r' : Recorder c)
      → Tells os head r
      → is_recording r'.state ≡ false
      → r'.written ≡ r.written
      → r'.ops ≡ r.ops
      → Tells (os ++ o ∷ []) head r'
  refused-Tells o r' t s f n = record {
    done = t.done;
    pending = t.pending;
    refused = t.refused ++ o ∷ [];
    lines = t.lines;
    all = ap (λ xs. xs ++ o ∷ []) t.all ∙ append_assoc _ t.refused (o ∷ []);
    sent = t.sent;
    written = f ∙ t.written;
    encoded = t.encoded;
    ops = n ∙ t.ops;
    live = λ h. cc;
  }

  pub written-Tells :
      {os : List (Entry c × ℤ)} {head : Bytes} {r : Recorder c} (q : Queued c)
      (qs : List (Queued c)) (b : Bytes)
      → Tells os head r
      → is_recording r.state ≡ true
      → r.queue ≡ q ∷ qs
      → c.encode_op (next_line q (record r { queue = qs })) ≡ ok b
      → Tells os head (count_line c q b (number_line c q.entry.worker (record r { queue = qs })))
  unfolding count_line number_line
  written-Tells {os} {head} {r} q qs b t s e p =
      let l = t.live s in
      let pend : t.pending ≡ q ∷ qs = l.queued ∙ e in
      let regroup : t.done ++ t.pending ≡ (t.done ++ q ∷ []) ++ qs =
        ap (λ x. t.done ++ x) pend ∙ sym (append_assoc t.done (q ∷ []) qs) in
      let w = q.entry.worker in
      let line = ap₂ (line_of c q) (ap (λ n. u64 (n + 1)) l.numbered) (
        count_of-insert_self w (u64 (count_of w r.worker_seq + 1)) r.worker_seq
        ∙ ap (λ m. u64 (count_of w m + 1)) l.counted) in
      record {
        done = t.done ++ q ∷ [];
        pending = qs;
        refused = t.refused;
        lines = t.lines ++ b ∷ [];
        all = rw regroup at t.all;
        sent = rw regroup at t.sent;
        written = ap (λ x. x ++ b ∷ []) t.written;
        encoded =
            rw (lines_from-snoc c 0 [] t.done q)
              (Encoded-snoc c _ t.lines _ b t.encoded (rw line at p));
        ops = omega (arith, t.ops, length-append {0} t.done (q ∷ []));
        live = λ _. record {
          queued = refl;
          accepted = l.accepted;
          numbered = rw (seq_after-snoc c 0 t.done q, sym l.numbered);
          counted = rw (seqs_after-snoc c [] t.done q, sym l.counted);
          hashed = rw (hashes_after-snoc c [] t.done q, sym l.hashed);
        };
      }

  -- A recorder with the same lines, queue, numbers and state.
  pub same-Tells :
      {os : List (Entry c × ℤ)} {head : Bytes} {r : Recorder c} (r' : Recorder c)
      → Tells os head r
      → r'.state ≡ r.state
      → r'.written ≡ r.written
      → r'.ops ≡ r.ops
      → r'.queue ≡ r.queue
      → r'.seq ≡ r.seq
      → r'.worker_seq ≡ r.worker_seq
      → r'.hashes ≡ r.hashes
      → Tells os head r'
  same-Tells r' t s f o q n w m = record {
    done = t.done;
    pending = t.pending;
    refused = t.refused;
    lines = t.lines;
    all = t.all;
    sent = t.sent;
    written = f ∙ t.written;
    encoded = t.encoded;
    ops = o ∙ t.ops;
    live = λ h.
        let l = t.live (sym (ap is_recording s) ∙ h) in
        record {
          queued = l.queued ∙ sym q;
          accepted = l.accepted;
          numbered = n ∙ l.numbered;
          counted = w ∙ l.counted;
          hashed = m ∙ l.hashed;
        };
  }

  pub drain-next :
      (io : Option String) (r : Recorder c) (q : Queued c) (qs : List (Queued c))
      → r.queue ≡ q ∷ qs
      → drain c io r ≡ (
          if is_recording r.state
          then write c q io (record r { queue = qs })
          else (record r { queue = qs }))
  unfolding drain
  drain-next io r q qs e = rw e

  pub drain-empty : (io : Option String) (r : Recorder c) → r.queue ≡ [] → drain c io r ≡ r
  unfolding drain
  drain-empty io r e = rw e

  pub drain-Tells :
      {os : List (Entry c × ℤ)} {head : Bytes} {r : Recorder c} (io : Option String)
      → Tells os head r
      → Tells os head (drain c io r)
  unfolding drain
  drain-Tells {os} {head} {r} io t = elim (List-cases r.queue) [
    | inl e ↦ rw (drain-empty io r e) t
    | inr (q, qs, e) ↦ elim (Bool-cases (is_recording r.state)) [
      | inr s ↦
          rw (drain-next io r q qs e, s) (stopped-Tells (record r { queue = qs }) t s refl refl)
      | inl s ↦
          rw (drain-next io r q qs e, s)
            (elim (write_cases q io (record r { queue = qs }) s) [
              | inl (s', f, o) ↦ stopped-Tells (write c q io (record r { queue = qs })) t s' f o
              | inr (b, p, d) ↦ rw d (written-Tells q qs b t s e p)
            ])
    ]
  ]
