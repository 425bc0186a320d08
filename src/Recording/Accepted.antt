-- ===== src/Recording/Accepted.antt =====
-- `Scan` on the file of a complete recording.
use percona_load_generator_m.Prelude.{
  ℕ, ◌+◌, ◌≡◌, refl, true, false, ◌&&◌, none, some, List, [], ◌∷◌, ◌++◌, map, ok, arith, All,
  length, if◌then◌else◌,
}
use percona_load_generator_m.Prelude.Int.{ℤ, pos, ltb_ℤ}
use percona_load_generator_m.Prelude.Keys.{insert, int_eq, string_eq}
use percona_load_generator_m.Recording.Format.{
  u64, Header, OpLine, Trailer, op_iteration, line_op, line_trailer,
}
use percona_load_generator_m.Recording.Codec.{Codec, Laws}
use percona_load_generator_m.Recording.Reader.{
  clean, each_line, line_type, parse_op, FileInfo, scan_op, scan_line, count_of,
}
use percona_load_generator_m.Recording.Reading.{
  IsShort, IsReplayable, each_line_short, each_line_end, parse_op-line_of,
}
use percona_load_generator_m.Recording.Writer.State.{Queued}
use percona_load_generator_m.Recording.Writer.Steps.{line_of}
use percona_load_generator_m.Recording.Writer.Run.{lines_from, seqs_after, seq_after}
use percona_load_generator_m.Recording.Writer.Lines.{Encoded, IsSent}

-- The 1-based iteration of a recorded operation.
abbrev pub shown : ℤ → ℤ
shown it = if ltb_ℤ it (pos 1) then pos 1 else it

-- Iterations from `low` on do not go back, and stay within the header's, if it counts them.
abbrev pub IsOrdered : ℤ → ℤ → List ℤ → Type 0
IsOrdered low limit [] = Unit
IsOrdered low limit (it ∷ its) =
    (ltb_ℤ (shown it) low ≡ false)
    × ((ltb_ℤ (pos 0) limit && ltb_ℤ limit (shown it)) ≡ false)
    × IsOrdered (shown it) limit its

-- What `Scan` counts of an operation.
abbrev counted : {B : Type 0} → FileInfo → OpLine B → FileInfo
counted info o = record info {
  iterations = op_iteration o;
  iteration_ops =
      insert (op_iteration o) (u64 (count_of (op_iteration o) info.iteration_ops + 1))
        info.iteration_ops;
  worker_ops = insert o.worker o.worker_seq info.worker_ops;
  ops = u64 (info.ops + 1);
  workers = if ltb_ℤ info.workers o.worker then o.worker else info.workers;
}

scan_op_ok :
    {B : Type 0} (info : FileInfo) (m : ℕ) (o : OpLine B)
    → o.worker_seq ≡ u64 (count_of o.worker info.worker_ops + 1)
    → ltb_ℤ (op_iteration o) info.iterations ≡ false
    → (ltb_ℤ (pos 0) info.header.iterations && ltb_ℤ info.header.iterations (op_iteration o))
      ≡ false
    → scan_op info m o ≡ ok (counted info o)
unfolding scan_op
scan_op_ok info m o h a b = ground arith

module _ (c : Codec) where
  open c use {Bytes}

  -- What `Scan` knows after the operations of a file.
  pub record Scanned (n : ℕ) (seqs : List (ℤ × ℕ)) (low : ℤ) (h : Header) (info : FileInfo)
      : Type 0 where
    pub ops : info.ops ≡ n
    pub workers : info.worker_ops ≡ seqs
    pub iterations : info.iterations ≡ low
    pub header : info.header ≡ h
    pub open_end : info.trailer ≡ none

  scan_op-line_of :
      (info : FileInfo) (h : Header) (m n : ℕ) (seqs : List (ℤ × ℕ)) (low : ℤ) (q : Queued c)
      → Scanned n seqs low h info
      → ltb_ℤ (shown q.iteration) low ≡ false
      → (ltb_ℤ (pos 0) h.iterations && ltb_ℤ h.iterations (shown q.iteration)) ≡ false
      → (info' : FileInfo) × (scan_op info m
            (line_of c q (u64 (n + 1)) (u64 (count_of q.entry.worker seqs + 1)))
          ≡ ok info')
        × Scanned
            (u64 (n + 1))
            (insert q.entry.worker (u64 (count_of q.entry.worker seqs + 1)) seqs)
            (shown q.iteration)
            h
            info'
  unfolding line_of op_iteration
  scan_op-line_of info h m n seqs low q s a b =
      let l = line_of c q (u64 (n + 1)) (u64 (count_of q.entry.worker seqs + 1)) in
      (
        counted info l,
        scan_op_ok info m l (rw s.workers refl) (rw s.iterations a) (rw s.header b),
        record {
          ops = rw s.ops refl;
          workers = rw s.workers refl;
          iterations = refl;
          header = s.header;
          open_end = s.open_end;
        },
      )

  kind_line_of : (q : Queued c) (n k : ℕ) → (line_of c q n k).kind ≡ line_op
  unfolding line_of
  kind_line_of q n k = refl

  scan_line_parsed :
      (info info' : FileInfo) (m : ℕ) (b : Bytes) (o : OpLine Bytes)
      → info.trailer ≡ none
      → c.has_type b line_op ≡ true
      → parse_op c b m ≡ ok o
      → scan_op info m o ≡ ok info'
      → scan_line c info m b ≡ ok info'
  unfolding scan_line line_type
  scan_line_parsed info info' m b o n t p s = ground arith

  scan_line_trailer :
      (laws : Laws c) (info : FileInfo) (m : ℕ) (b : Bytes) (t : Trailer)
      → info.trailer ≡ none
      → t.kind ≡ line_trailer
      → c.encode_trailer t ≡ ok b
      → scan_line c info m (c.trim_right b) ≡ ok (record info { trailer = some t })
  unfolding scan_line line_type
  scan_line_trailer laws info m b t n k e =
      let y = laws.trailer_type t b k e in let d = laws.trailer_back t b e in ground arith

  pub each_line-scan_line :
      (laws : Laws c) (m n : ℕ) (seqs : List (ℤ × ℕ)) (low : ℤ) (h : Header) (info : FileInfo)
      (qs : List (Queued c)) (bs : List Bytes) (t : Trailer) (last : Bytes)
      → Scanned n seqs low h info
      → IsOrdered low h.iterations (map (λ q. q.iteration) qs)
      → All (IsSent c) qs
      → All (λ q. IsReplayable c q.entry) qs
      → Encoded c (lines_from c n seqs qs) bs
      → All (IsShort c) bs
      → t.kind ≡ line_trailer
      → c.encode_trailer t ≡ ok last
      → IsShort c last
      → (info' : FileInfo) × (each_line c (scan_line c) info m (bs ++ last ∷ []) clean
          ≡ ok (record info' { trailer = some t }))
        × (info'.ops ≡ seq_after c n qs)
        × (info'.worker_ops ≡ seqs_after c seqs qs)
  unfolding lines_from seq_after seqs_after
  each_line-scan_line laws m n seqs low h info [] [] t last s ord sent fine enc short k e l =
      let y = laws.trailer_type t last k e in
      (
        info,
        rw
            (
              each_line_short c (scan_line c) info m last [] clean l y.3,
              scan_line_trailer laws info (m + 1) last t s.open_end k e,
            )
            (each_line_end c (scan_line c) (record info { trailer = some t }) (m + 1)),
        s.ops,
        s.workers,
      )
  each_line-scan_line laws m n seqs low h info [] (b ∷ bs) t last s ord sent fine enc short k e l =
      absurd enc
  each_line-scan_line laws m n seqs low h info (q ∷ qs) [] t last s ord sent fine enc short k e l =
      absurd enc
  each_line-scan_line laws m n seqs low h info (q ∷ qs) (b ∷ bs) t last s ord sent fine enc short k
        e l =
      let w = u64 (count_of q.entry.worker seqs + 1) in
      let o = line_of c q (u64 (n + 1)) w in
      let (next, step, s') = scan_op-line_of info h (m + 1) n seqs low q s ord.0 ord.1 in
      let parsed = parse_op-line_of c laws q (u64 (n + 1)) w (m + 1) b sent.0 fine.0 enc.0 in
      let typed = laws.op_type o b (kind_line_of q (u64 (n + 1)) w) enc.0 in
      let line =
        scan_line_parsed info next (m + 1) (c.trim_right b) o s.open_end typed parsed step in
      let (info', rest, ops, workers) =
        each_line-scan_line laws (m + 1) (u64 (n + 1)) (insert q.entry.worker w seqs)
          (shown q.iteration) h next qs bs t last s' ord.2 sent.1 fine.1 enc.1 short.1 k e l in
      (
        info',
        rw
            (
              each_line_short c (scan_line c) info m b (bs ++ last ∷ []) clean short.0
                  (laws.op_not_blank o b enc.0),
              line,
            )
            rest,
        ops,
        workers,
      )

  pub seq_after_lem :
      (n : ℕ) (qs : List (Queued c)) → n ≡ u64 n → seq_after c n qs ≡ u64 (n + length qs)
  unfolding seq_after
  seq_after_lem n [] h = omega (arith, h)
  seq_after_lem n (q ∷ qs) h = omega (arith, h, seq_after_lem (u64 (n + 1)) qs (omega arith))
