-- ===== src/Recording/Writer/Run.antt =====
-- Runs of the Recorder: the calls of its workers and the rounds of its writer, in any order.
use percona_load_generator_m.Prelude.{ℕ, ◌+◌, String, Option, List, [], ◌∷◌, ◌++◌, if◌then◌else◌}
use percona_load_generator_m.Prelude.Int.{ℤ, pos}
use percona_load_generator_m.Prelude.Keys.{insert, int_eq}
use percona_load_generator_m.Recording.Format.{u64, OpLine}
use percona_load_generator_m.Recording.Codec.{Codec}
use percona_load_generator_m.Recording.Reader.{count_of}
use percona_load_generator_m.Recording.Writer.State.{Entry, Queued, Recorder}
use percona_load_generator_m.Recording.Writer.Steps.{
  record_op, drain, fail, set_iteration, line_of, commands_of,
}

module _ (c : Codec) where
  pub data Event : Type 0 where
    records : Entry c → ℕ → Option String → Event
    drains : Option String → Event
    fails : String → Event
    iterates : ℕ → Event

  unfoldable pub step : Event → Recorder c → Recorder c
  step (records e d io) r = record_op c e d io r
  step (drains io) r = drain c io r
  step (fails why) r = fail c why r
  step (iterates n) r = set_iteration c n r

  unfoldable pub run : List Event → Recorder c → Recorder c
  unfolding step
  run [] r = r
  run (ev ∷ evs) r = run evs (step ev r)

  -- The iteration that an operation recorded now carries.
  abbrev pub stamp : Recorder c → ℤ
  stamp r = if r.multi then r.iteration else pos 0

  -- The operations that a run hands to `Record`, each with its iteration.
  unfoldable pub offers : Event → Recorder c → List (Entry c × ℤ)
  offers (records e d io) r = (e, stamp r) ∷ []
  offers (drains io) r = []
  offers (fails why) r = []
  offers (iterates n) r = []

  unfoldable pub offered : List Event → Recorder c → List (Entry c × ℤ)
  unfolding offers
  offered [] r = []
  offered (ev ∷ evs) r = offers ev r ++ offered evs (step ev r)

  -- An operation as it was handed over.
  abbrev pub offer_of : Queued c → Entry c × ℤ
  offer_of q = (q.entry, q.iteration)

  -- The lines of a recording of these operations: numbered 1, 2, 3, … in the file and for each worker.
  unfoldable pub lines_from : ℕ → List (ℤ × ℕ) → List (Queued c) → List (OpLine c.Bytes)
  lines_from n seqs [] = []
  lines_from n seqs (q ∷ qs) =
      let k = u64 (count_of q.entry.worker seqs + 1) in
      line_of c q (u64 (n + 1)) k ∷ lines_from (u64 (n + 1)) (insert q.entry.worker k seqs) qs

  unfoldable pub seqs_after : List (ℤ × ℕ) → List (Queued c) → List (ℤ × ℕ)
  seqs_after seqs [] = seqs
  seqs_after seqs (q ∷ qs) =
      seqs_after (insert q.entry.worker (u64 (count_of q.entry.worker seqs + 1)) seqs) qs

  -- What each worker's hash was given.
  unfoldable pub hashes_after : List (ℤ × List c.Bytes) → List (Queued c) → List (ℤ × List c.Bytes)
  hashes_after hs [] = hs
  hashes_after hs (q ∷ qs) =
      let w = q.entry.worker in hashes_after (insert w (commands_of c w hs ++ q.cmd ∷ []) hs) qs

  unfoldable pub seq_after : ℕ → List (Queued c) → ℕ
  seq_after n [] = n
  seq_after n (q ∷ qs) = seq_after (u64 (n + 1)) qs
