-- ===== src/OutcomeFile/Kept.antt =====
-- What an OutcomeWriter gave its buffered writer at any moment of a run, the header being flushed: the
-- outcomes handed to `Write`, in
-- order, up to the first write that failed.
use Prim.Native.String.{◌++◌ as text_append}
use percona_load_generator_m.Prelude.{
  ◌+◌, ◌≤◌, ◌≡◌, refl, sym, ap, ◌∙◌, ◌⊎◌, inl, inr, String, true, false, Option, none, List, [],
  ◌∷◌, ◌++◌, append_assoc, append-nil, ok, arith, length, length-append, List-cases, Bool-cases,
  Option-cases, Result-cases, ◌<◌,
}
use percona_load_generator_m.Recording.Format.{u64}
use percona_load_generator_m.Recording.Codec.{Codec}
use percona_load_generator_m.OutcomeFile.Lines.{OutcomeLine, OutcomeCodec}
use percona_load_generator_m.OutcomeFile.Writer.{
  OutcomeWriter, default_queue_size, write_line, fail_write, take_outcome,
}

module _ (c : Codec) (j : OutcomeCodec c) where
  open c use {Bytes}

  -- The byte lines are the encodings of the outcomes.
  abbrev pub Encoded : List OutcomeLine → List Bytes → Type 0
  Encoded [] [] = Unit
  Encoded [] (b ∷ bs) = ⊥
  Encoded (l ∷ ls) [] = ⊥
  Encoded (l ∷ ls) (b ∷ bs) = (j.encode_line l ≡ ok b) × Encoded ls bs

  pub Encoded-snoc :
      (ls : List OutcomeLine) (bs : List Bytes) (l : OutcomeLine) (b : Bytes)
      → Encoded ls bs
      → j.encode_line l ≡ ok b
      → Encoded (ls ++ l ∷ []) (bs ++ b ∷ [])
  Encoded-snoc [] [] l b h e = (e, tt)
  Encoded-snoc [] (x ∷ bs) l b h e = absurd h
  Encoded-snoc (l' ∷ ls) [] l b h e = absurd h
  Encoded-snoc (l' ∷ ls) (x ∷ bs) l b h e = (h.0, Encoded-snoc ls bs l b h.1 e)

  -- The reason that a failed write leaves.
  abbrev pub IsWriteError : String → Type 0
  IsWriteError why = (e : String) × (why ≡ text_append "write_error: " e)

  -- `done` was written, `lost` was received after a failure.
  pub record Kept (os : List OutcomeLine) (head : Bytes) (w : OutcomeWriter c) : Type 0 where
    pub done : List OutcomeLine
    pub lost : List OutcomeLine
    pub lines : List Bytes
    pub all : os ≡ done ++ lost ++ w.queue
    pub written : w.written ≡ head ∷ lines
    pub file : w.file ≡ head ∷ []
    pub encoded : Encoded done lines
    pub ops : w.ops ≡ u64 (length done)
    pub whole : ((w.failed ≡ false) × (lost ≡ [])) ⊎ ((w.failed ≡ true) × IsWriteError w.reason)
    pub capacity : w.capacity ≡ default_queue_size
    pub fits : length w.queue ≤ w.capacity
    pub started : w.result ≡ none

  -- A round writes the outcome that it receives, or writes nothing and has failed.
  pub take_cases :
      (io : Option String) (w : OutcomeWriter c) (l : OutcomeLine) (ls : List OutcomeLine)
      → w.queue ≡ l ∷ ls
      → ((w.failed ≡ true) × (take_outcome c j io w ≡ record w { queue = ls }))
        ⊎ ((e : String) × (take_outcome c j io w
              ≡ record w { queue = ls; failed = true; reason = text_append "write_error: " e }))
        ⊎ ((b : Bytes) × (w.failed ≡ false)
            × (j.encode_line l ≡ ok b)
            × (take_outcome c j io w ≡ record w {
              queue = ls;
              bytes = w.bytes + c.size b;
              written = w.written ++ b ∷ [];
              ops = u64 (w.ops + 1);
            }))
  unfolding take_outcome write_line fail_write
  take_cases io w l ls q = elim (Bool-cases w.failed) [
    | inl f ↦ inl (f, ground arith)
    | inr f ↦ elim (Result-cases (j.encode_line l)) [
      | inl (e, h) ↦ inr (inl (e, ground arith))
      | inr (b, h) ↦ elim (Option-cases io) [
        | inl n ↦ inr (inr (b, f, h, ground arith))
        | inr (e, n) ↦ inr (inl (e, ground arith))
      ]
    ]
  ]

  take_nothing :
      (io : Option String) (w : OutcomeWriter c) → w.queue ≡ [] → take_outcome c j io w ≡ w
  unfolding take_outcome
  take_nothing io w q = ground arith

  pub nothing_lost :
      {os : List OutcomeLine} {head : Bytes} {w : OutcomeWriter c} (k : Kept os head w)
      → w.failed ≡ false
      → k.lost ≡ []
  nothing_lost k f = elim k.whole [ inl (x, e) ↦ e | inr t ↦ cc ]

  length_of :
      (w : OutcomeWriter c) (l : OutcomeLine) (ls : List OutcomeLine)
      → w.queue ≡ l ∷ ls
      → length w.queue ≡ length ls + 1
  length_of w l ls h = ap length h ∙ omega arith

  grown :
      (done lost : List OutcomeLine) (l : OutcomeLine) (ls : List OutcomeLine)
      {os queue queue' : List OutcomeLine}
      → os ≡ done ++ lost ++ queue
      → queue ≡ l ∷ ls
      → queue' ≡ ls
      → os ≡ done ++ (lost ++ l ∷ []) ++ queue'
  grown done lost l ls {queue' = queue'} e h t =
      e
      ∙ (ap (λ q. done ++ lost ++ q) h
          ∙ (sym (append_assoc (done ++ lost) (l ∷ []) ls)
              ∙ (ap (λ xs. xs ++ ls) (append_assoc done lost (l ∷ []))
                  ∙ ap (λ q. done ++ (lost ++ l ∷ []) ++ q) (sym t))))

  -- A round that writes nothing: the outcome is lost, and the writer has failed.
  lost-Kept :
      {os : List OutcomeLine} {head : Bytes} (w w' : OutcomeWriter c) (l : OutcomeLine)
      (k : Kept os head w)
      → w.queue ≡ l ∷ w'.queue
      → w'.written ≡ w.written
      → w'.file ≡ w.file
      → w'.ops ≡ w.ops
      → w'.capacity ≡ w.capacity
      → w'.result ≡ w.result
      → w'.failed ≡ true
      → IsWriteError w'.reason
      → Kept os head w'
  lost-Kept w w' l k q x f n s r b why = record {
    done = k.done;
    lost = k.lost ++ l ∷ [];
    lines = k.lines;
    all = grown k.done k.lost l w'.queue k.all q refl;
    written = x ∙ k.written;
    file = f ∙ k.file;
    encoded = k.encoded;
    ops = n ∙ k.ops;
    whole = inr (b, why);
    capacity = s ∙ k.capacity;
    fits = let m = length_of w l w'.queue q in omega (arith, m, s, k.fits);
    started = r ∙ k.started;
  }

  pub reason-IsWriteError :
      {os : List OutcomeLine} {head : Bytes} {w : OutcomeWriter c} (k : Kept os head w)
      → w.failed ≡ true
      → IsWriteError w.reason
  reason-IsWriteError k f = elim k.whole [ inl (x, y) ↦ absurd cc | inr (x, y) ↦ y ]

  pub take-Kept :
      {os : List OutcomeLine} {head : Bytes} {w : OutcomeWriter c} (io : Option String)
      → Kept os head w
      → Kept os head (take_outcome c j io w)
  take-Kept {w = w} io k = elim (List-cases w.queue) [
    | inl h ↦ rw (take_nothing io w h) k
    | inr (l, ls, h) ↦ elim (take_cases io w l ls h) [
      | inl (f, t) ↦ rw t (
          lost-Kept w (record w { queue = ls }) l k h refl refl refl refl refl f
            (reason-IsWriteError k f))
      | inr (inl (e, t)) ↦ rw t (
          lost-Kept w
            (record w { queue = ls; failed = true; reason = text_append "write_error: " e }) l k h
            refl refl refl refl refl refl (e, refl))
      | inr (inr (b, f, e, t)) ↦ rw t (record {
        done = k.done ++ l ∷ [];
        lost = [];
        lines = k.lines ++ b ∷ [];
        all =
            k.all
            ∙ rw (nothing_lost k f, h, append-nil k.done, append-nil (k.done ++ l ∷ []))
                (sym (append_assoc k.done (l ∷ []) ls));
        written = ap (λ bs. bs ++ b ∷ []) k.written;
        file = k.file;
        encoded = Encoded-snoc k.done k.lines l b k.encoded e;
        ops = let n = length-append k.done (l ∷ []) in omega (arith, n, k.ops);
        whole = inl (f, refl);
        capacity = k.capacity;
        fits = let n = length_of w l ls h in omega (arith, n, k.fits);
        started = k.started;
      })
    ]
  ]

  -- After a round a full queue has room.
  pub take_room :
      (io : Option String) (w : OutcomeWriter c)
      → 0 < w.capacity
      → length w.queue ≤ w.capacity
      → length (take_outcome c j io w).queue < (take_outcome c j io w).capacity
  take_room io w p h = elim (List-cases w.queue) [
    | inl e ↦ rw (take_nothing io w e, e) (omega (arith, p))
    | inr (l, ls, e) ↦
        let n = length_of w l ls e in
        elim (take_cases io w l ls e) [
          | inl (f, t) ↦ rw t (omega (arith, n, h))
          | inr (inl (x, t)) ↦ rw t (omega (arith, n, h))
          | inr (inr (b, f, x, t)) ↦ rw t (omega (arith, n, h))
        ]
  ]
