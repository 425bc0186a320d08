-- ===== src/Recording/Writer/Close.antt =====
-- writer.go: `Close`; format.go: `CombineHashes`.
use Prim.Native.String.{◌++◌ as text_append}
use percona_load_generator_m.Prelude.{
  ℕ, ◌+◌, ◌/◌, String, Bool, true, false, ◌&&◌, Option, none, some, List, [], ◌∷◌, ◌++◌, ok, err,
  if◌then◌else◌,
}
use percona_load_generator_m.Prelude.Int.{ℤ, pos, leb_ℤ}
use percona_load_generator_m.Prelude.Keys.{int_eq, string_eq}
use percona_load_generator_m.Recording.Format.{
  Trailer, line_trailer, status_complete, status_failed, backpressure_fail, backpressure_block,
}
use percona_load_generator_m.Recording.Codec.{Codec}
use percona_load_generator_m.Recording.Reader.{count_of}
use percona_load_generator_m.Recording.Writer.State.{
  is_recording, CloseIo, status_text, Closed, Queued, Recorder,
}
use percona_load_generator_m.Recording.Writer.Steps.{drain}

-- `sort.Ints` of the keys.
unfoldable pub insert_pair : ℤ × String → List (ℤ × String) → List (ℤ × String)
insert_pair p [] = p ∷ []
insert_pair p (q ∷ qs) = if leb_ℤ p.0 q.0 then p ∷ q ∷ qs else q ∷ insert_pair p qs

unfoldable pub sort_pairs : List (ℤ × String) → List (ℤ × String)
unfolding insert_pair
sort_pairs [] = []
sort_pairs (p ∷ ps) = insert_pair p (sort_pairs ps)

-- `CombineHashes`
unfoldable pub combine_hashes : Codec → List (ℤ × String) → String
unfolding sort_pairs
combine_hashes c m = c.pairs_sum (sort_pairs m)

-- `if err == nil { err = … }` over the steps in turn.
abbrev pub first_error : List (Option String) → Option String
first_error [] = none
first_error (none ∷ es) = first_error es
first_error (some e ∷ es) = some e

abbrev pub is_some : Option String → Bool
is_some none = false
is_some (some e) = true

abbrev pub error_text : Option String → String
error_text none = ""
error_text (some e) = e

module _ (c : Codec) where
  open c use {Bytes, Command}

  -- The writer's rounds until the queue is empty, one for each entry of the list; `answers` are the
  -- disk's, from the `n`-th on.
  unfoldable pub drain_all : List (Queued c) → (ℕ → Option String) → ℕ → Recorder c → Recorder c
  unfolding drain
  drain_all [] answers n r = r
  drain_all (q ∷ qs) answers n r = drain_all qs answers (n + 1) (drain c (answers n) r)

  unfoldable pub sums_of : List (ℤ × List Bytes) → List (ℤ × String)
  sums_of [] = []
  sums_of ((w, cmds) ∷ m) = (w, c.stream_sum cmds) ∷ sums_of m

  unfoldable pub counts_of : List (ℤ × List Bytes) → List (ℤ × ℕ) → List (ℤ × ℕ)
  counts_of [] seqs = []
  counts_of ((w, cmds) ∷ m) seqs = (w, count_of w seqs) ∷ counts_of m seqs

  unfoldable pub trailer_of : String → String → Recorder c → Trailer
  unfolding sums_of counts_of combine_hashes
  trailer_of status reason r = record {
    kind = line_trailer;
    status = status;
    reason = reason;
    ops = r.ops;
    bytes = r.bytes;
    worker_ops = counts_of r.hashes r.worker_seq;
    worker_hashes = sums_of r.hashes;
    commands_hash = combine_hashes c (sums_of r.hashes);
    iteration_ops = if r.multi then r.iter_ops else [];
    waits = if r.block then r.waits else 0;
    wait_total_us = if r.block then r.wait_total / 1000 else 0;
    wait_max_us = if r.block then r.wait_max / 1000 else 0;
  }

  -- `writeLine` of the trailer: the error, and the recorder after it.
  unfoldable pub write_trailer : Trailer → Option String → Recorder c → Option String × Recorder c
  write_trailer t io r = elim (c.encode_trailer t) [
    | err e ↦ (some e, r)
    | ok b ↦ elim io [
      | some e ↦ (some e, r)
      | none ↦ (none, record r { bytes = r.bytes + c.size b; written = r.written ++ b ∷ [] })
    ]
  ]

  -- The flush of `Close`, after the trailer's write: only without an error is all in the file.
  unfoldable pub flush_file : Option String → Option String → Recorder c → Recorder c
  flush_file none none r = record r { file = r.written }
  flush_file none (some e) r = r
  flush_file (some e) flush r = r

  -- `Close`: the recorder with its finished file, and the result.
  unfoldable pub close : CloseIo → Recorder c → Recorder c × Closed
  unfolding drain_all trailer_of write_trailer flush_file
  close io r₀ =
      let r = drain_all r₀.queue io.rounds 0 r₀ in
      let status = if is_recording r.state then status_complete else status_text r.state in
      let reason = if is_recording r.state then "" else r.reason in
      let t = trailer_of status reason r in
      let (werr, r') = write_trailer t io.write r in
      let failure = first_error (werr ∷ io.flush ∷ io.compressor ∷ io.sync ∷ io.close ∷ []) in
      let late = is_some failure && is_recording r.state in
      (
        flush_file werr io.flush r',
        record {
          status = if late then status_failed else status;
          reason = if late then text_append "write_error: " (error_text failure) else reason;
          ops = t.ops;
          bytes = r'.bytes;
          commands_hash = t.commands_hash;
          backpressure = if r.block then backpressure_block else backpressure_fail;
          iterations = if r.multi then r.last_iter_seen else pos 0;
          waits = if r.block then r.waits else 0;
          wait_total = if r.block then r.wait_total else 0;
          wait_max = if r.block then r.wait_max else 0;
          outcomes = r.outcomes;
          result_checksums = r.checksums;
        },
      )
