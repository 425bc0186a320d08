-- ===== src/Recording/Writer/Steps.antt =====
-- writer.go: what a worker does (`Record`, `Fail`, `SetIteration`) and a round of the writer.
use Prim.Native.String.{◌++◌ as text_append}
use percona_load_generator_m.Prelude.{
  ℕ, ◌+◌, ◌/◌, ◌%◌, String, Bool, ◌&&◌, Option, none, some, List, [], ◌∷◌, ◌++◌, ok, err, ltb, leb,
  length, if◌then◌else◌,
}
use percona_load_generator_m.Prelude.Int.{ℤ, pos, sub_ℕ, ◌+ℤ◌, int64, ltb_ℤ}
use percona_load_generator_m.Prelude.Keys.{lookup, insert, int_eq, string_eq}
use percona_load_generator_m.Recording.Format.{u64, OpLine, line_op}
use percona_load_generator_m.Recording.Codec.{Codec}
use percona_load_generator_m.Recording.Reader.{count_of}
use percona_load_generator_m.Recording.Writer.State.{
  State, truncated, failed, is_recording, reason_queue_full, reason_max_bytes, Entry, Queued,
  Recorder,
}

module _ (c : Codec) where
  open c use {Bytes, Command}

  -- `stop`: only the first call counts.
  unfoldable pub stop : State → String → Recorder c → Recorder c
  stop s why r = if is_recording r.state then record r { state = s; reason = why } else r

  -- `Fail`
  unfoldable pub fail : String → Recorder c → Recorder c
  unfolding stop
  fail why r = stop failed why r

  -- `SetIteration`; the number is stored in 32 bits.
  unfoldable pub set_iteration : ℕ → Recorder c → Recorder c
  set_iteration n r =
      if leb 1 n
      then record r {
        iteration =
            (let m = n % 4294967296 in if ltb m 2147483648 then pos m else sub_ℕ m 4294967296);
      }
      else r

  unfoldable pub add_wait : ℕ → Recorder c → Recorder c
  add_wait d r = record r {
    waits = u64 (r.waits + 1);
    wait_total = r.wait_total + d;
    wait_max = if leb d r.wait_max then r.wait_max else d;
  }

  -- The line that `write` encodes.
  unfoldable pub line_of : Queued c → ℕ → ℕ → OpLine Bytes
  line_of q seq worker_seq = record {
    kind = line_op;
    seq = seq;
    worker = e.worker;
    worker_seq = worker_seq;
    offset_us = pos (e.offset / 1000);
    iteration = q.iteration;
    ns = e.ns;
    op = e.op;
    path = e.path;
    is_ok = e.is_ok;
    existing = e.existing;
    query = e.query;
    shape = e.shape;
    cmd = q.cmd;
    outcome = e.outcome;
    flags = e.flags;
  }
    where
      e : Entry c
      e = q.entry

  -- `r.seq++` and `r.workerSeq[w]++`, and their undoing.
  unfoldable pub number_line : ℤ → Recorder c → Recorder c
  number_line w r = record r {
    seq = u64 (r.seq + 1);
    worker_seq = insert w (u64 (count_of w r.worker_seq + 1)) r.worker_seq;
  }

  unfoldable pub unnumber_line : ℤ → Recorder c → Recorder c
  unnumber_line w r = record r {
    seq = u64 (r.seq + 18446744073709551615);
    worker_seq = insert w (u64 (count_of w r.worker_seq + 18446744073709551615)) r.worker_seq;
  }

  abbrev pub commands_of : ℤ → List (ℤ × List Bytes) → List Bytes
  commands_of w m = elim (lookup w m) [ none ↦ [] | some bs ↦ bs ]

  -- The end of `write`, after the line reached the buffer.
  unfoldable pub count_line : Queued c → Bytes → Recorder c → Recorder c
  count_line q b r = record r {
    bytes = r.bytes + c.size b;
    ops = u64 (r.ops + 1);
    iter_ops =
        if r.multi
        then insert q.iteration (u64 (count_of q.iteration r.iter_ops + 1)) r.iter_ops
        else r.iter_ops;
    last_iter_seen =
        if r.multi && ltb_ℤ r.last_iter_seen q.iteration then q.iteration else r.last_iter_seen;
    hashes = insert q.entry.worker (commands_of q.entry.worker r.hashes ++ q.cmd ∷ []) r.hashes;
    written = r.written ++ b ∷ [];
  }

  -- The size test of `write`.
  unfoldable pub too_big : Bytes → Recorder c → Bool
  too_big b r =
      ltb 0 r.max_bytes
      && ltb_ℤ (pos r.max_bytes) (int64 (int64 (pos r.bytes +ℤ pos (c.size b)) +ℤ r.reserve))

  unfoldable pub write : Queued c → Option String → Recorder c → Recorder c
  unfolding number_line unnumber_line line_of too_big count_line stop
  write q io r =
      let w = q.entry.worker in
      let r' = number_line w r in
      elim (c.encode_op (line_of q r'.seq (count_of w r'.worker_seq))) [
        | err e ↦ stop failed (text_append "encode_error: " e) (unnumber_line w r')
        | ok b ↦
            if too_big b r' then stop truncated reason_max_bytes (unnumber_line w r') else elim io [
              | some e ↦ stop failed (text_append "write_error: " e) r'
              | none ↦ count_line q b r'
            ]
      ]

  -- A round of `run`: one entry is received, and written while the recording goes on.
  unfoldable pub drain : Option String → Recorder c → Recorder c
  unfolding write
  drain io r = elim r.queue [
    | [] ↦ r
    | q ∷ qs ↦
        let r' = record r { queue = qs } in if is_recording r.state then write q io r' else r'
  ]

  unfoldable pub enqueue : Queued c → Recorder c → Recorder c
  enqueue q r = record r { queue = r.queue ++ q ∷ [] }

  -- The send of `Record`; `d` is how long a blocked send waited, `io` the disk's answer to the round
  -- that it waited for.
  unfoldable pub send : Queued c → ℕ → Option String → Recorder c → Recorder c
  unfolding enqueue stop drain add_wait
  send q d io r =
      if ltb (length r.queue) r.capacity
      then enqueue q r
      else if r.block
      then add_wait d (enqueue q (drain io r))
      else stop failed reason_queue_full r

  -- `Record`
  unfoldable pub record_op : Entry c → ℕ → Option String → Recorder c → Recorder c
  unfolding send stop
  record_op e d io r =
      if is_recording r.state
      then elim (c.encode_command e.command) [
        | err x ↦ stop failed (text_append "encode_error: " x) r
        | ok b ↦
            send (record { entry = e; cmd = b; iteration = if r.multi then r.iteration else pos 0 })
              d io r
      ]
      else r
