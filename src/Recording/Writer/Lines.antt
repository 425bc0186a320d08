-- ===== src/Recording/Writer/Lines.antt =====
-- The lines of a recording as encoded bytes, and one more operation at their end.
use percona_load_generator_m.Prelude.{ℕ, ◌+◌, ◌≡◌, refl, ap, List, [], ◌∷◌, ◌++◌, ok}
use percona_load_generator_m.Prelude.Int.{ℤ}
use percona_load_generator_m.Prelude.Keys.{insert, int_eq}
use percona_load_generator_m.Recording.Format.{u64, OpLine}
use percona_load_generator_m.Recording.Codec.{Codec}
use percona_load_generator_m.Recording.Reader.{count_of}
use percona_load_generator_m.Recording.Writer.State.{Queued}
use percona_load_generator_m.Recording.Writer.Steps.{line_of, commands_of}
use percona_load_generator_m.Recording.Writer.Run.{lines_from, seqs_after, seq_after, hashes_after}

module _ (c : Codec) where
  open c use {Bytes}

  -- The byte lines are the encodings of the lines.
  abbrev pub Encoded : List (OpLine Bytes) → List Bytes → Type 0
  Encoded [] [] = Unit
  Encoded [] (b ∷ bs) = ⊥
  Encoded (l ∷ ls) [] = ⊥
  Encoded (l ∷ ls) (b ∷ bs) = (c.encode_op l ≡ ok b) × Encoded ls bs

  abbrev pub IsSent : Queued c → Type 0
  IsSent q = c.encode_command q.entry.command ≡ ok q.cmd

  pub Encoded-snoc :
      (ls : List (OpLine Bytes)) (bs : List Bytes) (l : OpLine Bytes) (b : Bytes)
      → Encoded ls bs
      → c.encode_op l ≡ ok b
      → Encoded (ls ++ l ∷ []) (bs ++ b ∷ [])
  Encoded-snoc [] [] l b h e = (e, tt)
  Encoded-snoc [] (x ∷ bs) l b h e = absurd h
  Encoded-snoc (l' ∷ ls) [] l b h e = absurd h
  Encoded-snoc (l' ∷ ls) (x ∷ bs) l b h e = (h.0, Encoded-snoc ls bs l b h.1 e)

  pub lines_from-snoc :
      (n : ℕ) (seqs : List (ℤ × ℕ)) (qs : List (Queued c)) (q : Queued c)
      → lines_from c n seqs (qs ++ q ∷ [])
        ≡ lines_from c n seqs qs
          ++ line_of c q
              (u64 (seq_after c n qs + 1))
              (u64 (count_of q.entry.worker (seqs_after c seqs qs) + 1))
            ∷ []
  unfolding lines_from seq_after seqs_after
  lines_from-snoc n seqs [] q = refl
  lines_from-snoc n seqs (p ∷ qs) q =
      let k = u64 (count_of p.entry.worker seqs + 1) in
      ap (λ ls. line_of c p (u64 (n + 1)) k ∷ ls)
        (lines_from-snoc (u64 (n + 1)) (insert p.entry.worker k seqs) qs q)

  pub seqs_after-snoc :
      (seqs : List (ℤ × ℕ)) (qs : List (Queued c)) (q : Queued c)
      → seqs_after c seqs (qs ++ q ∷ [])
        ≡ insert q.entry.worker
            (u64 (count_of q.entry.worker (seqs_after c seqs qs) + 1))
            (seqs_after c seqs qs)
  unfolding seqs_after
  seqs_after-snoc seqs [] q = refl
  seqs_after-snoc seqs (p ∷ qs) q =
      seqs_after-snoc (insert p.entry.worker (u64 (count_of p.entry.worker seqs + 1)) seqs) qs q

  pub hashes_after-snoc :
      (hs : List (ℤ × List Bytes)) (qs : List (Queued c)) (q : Queued c)
      → hashes_after c hs (qs ++ q ∷ [])
        ≡ insert q.entry.worker
            (commands_of c q.entry.worker (hashes_after c hs qs) ++ q.cmd ∷ [])
            (hashes_after c hs qs)
  unfolding hashes_after
  hashes_after-snoc hs [] q = refl
  hashes_after-snoc hs (p ∷ qs) q =
      let w = p.entry.worker in
      hashes_after-snoc (insert w (commands_of c w hs ++ p.cmd ∷ []) hs) qs q

  pub seq_after-snoc :
      (n : ℕ) (qs : List (Queued c)) (q : Queued c)
      → seq_after c n (qs ++ q ∷ []) ≡ u64 (seq_after c n qs + 1)
  unfolding seq_after
  seq_after-snoc n [] q = refl
  seq_after-snoc n (p ∷ qs) q = seq_after-snoc (u64 (n + 1)) qs q
