-- ===== src/Recording/Reading.antt =====
-- What the readers make of a line that the Recorder encoded.
use percona_load_generator_m.Prelude.{
  ℕ, ◌+◌, ◌≤◌, ◌≡◌, refl, String, true, false, not, ◌&&◌, some, List, [], ◌∷◌, ◌++◌, Result, ok,
  err, Result-cases, inl, inr, ◌>>=◌, arith, All,
}
use percona_load_generator_m.Prelude.Int.{ℤ, pos, ltb_ℤ}
use percona_load_generator_m.Prelude.Keys.{◌=?◌, beq_refl, contains, insert, int_eq, string_eq}
use percona_load_generator_m.Recording.Format.{
  u64, Header, OpLine, Trailer, format_version, line_header, line_trailer, path_fast_insert_batch,
  path_fast_find,
}
use percona_load_generator_m.Recording.Codec.{Codec, Laws}
use percona_load_generator_m.Recording.Reader.{
  max_line_bytes, known_ops, Error, stopped, Tail, clean, take_line, first_line, each_line,
  line_type, read_header, parse_op, stream_line, count_of,
}
use percona_load_generator_m.Recording.Writer.State.{Entry, Queued}
use percona_load_generator_m.Recording.Writer.Steps.{line_of}
use percona_load_generator_m.Recording.Writer.Run.{lines_from}
use percona_load_generator_m.Recording.Writer.Lines.{Encoded, IsSent}

module _ (c : Codec) where
  open c use {Bytes}

  -- The readers take lines of this size.
  abbrev pub IsShort : Bytes → Type 0
  IsShort b = c.size b ≤ max_line_bytes

  -- An operation that the replayer knows: `parseOp` refuses the others.
  abbrev pub IsReplayable : Entry c → Type 0
  IsReplayable e =
      (ltb_ℤ e.worker (pos 1) ≡ false)
      × (contains e.op known_ops ≡ true)
      × ((e.ns =? "") ≡ false)
      × ((not (e.path =? "")
            && not (e.path =? path_fast_insert_batch)
            && not (e.path =? path_fast_find))
          ≡ false)

  -- The callback on the lines in turn, until it refuses one.
  unfoldable pub deliver :
      {A : Type 0} → (A → OpLine Bytes → Result String A) → A → List (OpLine Bytes) → Result Error A
  deliver fn z [] = ok z
  deliver fn z (l ∷ ls) = elim (fn z l) [ err e ↦ err (stopped e) | ok z' ↦ deliver fn z' ls ]

  pub take_line_short :
      (n : ℕ) (b : Bytes)
      → IsShort b
      → c.is_blank (c.trim_right b) ≡ false
      → take_line c n b ≡ ok (some (c.trim_right b))
  unfolding take_line
  take_line_short n b s h = ground arith

  pub each_line_short :
      {A : Type 0} (step : A → ℕ → Bytes → Result Error A) (z : A) (n : ℕ) (b : Bytes)
      (bs : List Bytes) (tail : Tail c)
      → IsShort b
      → c.is_blank (c.trim_right b) ≡ false
      → each_line c step z n (b ∷ bs) tail
        ≡ (step z (n + 1) (c.trim_right b) >>= λ z'. each_line c step z' (n + 1) bs tail)
  unfolding each_line
  each_line_short step z n b bs tail s h = rw (take_line_short (n + 1) b s h)

  pub each_line_end :
      {A : Type 0} (step : A → ℕ → Bytes → Result Error A) (z : A) (n : ℕ)
      → each_line c step z n [] clean ≡ ok z
  unfolding each_line
  each_line_end step z n = refl

  module _ (laws : Laws c) where
    pub parse_op-line_of :
        (q : Queued c) (n k m : ℕ) (b : Bytes)
        → IsSent c q
        → IsReplayable q.entry
        → c.encode_op (line_of c q n k) ≡ ok b
        → parse_op c (c.trim_right b) m ≡ ok (line_of c q n k)
    unfolding parse_op line_of
    parse_op-line_of q n k m b sent fine e =
        let back = laws.op_back (line_of c q n k) q.entry.command b sent e in
        let object = laws.command_object q.entry.command q.cmd sent in ground arith

    pub stream_line-line_of :
        {A : Type 0} (fn : A → OpLine Bytes → Result String A) (z : A) (q : Queued c) (n k m : ℕ)
        (b : Bytes)
        → IsSent c q
        → IsReplayable q.entry
        → c.encode_op (line_of c q n k) ≡ ok b
        → stream_line c fn z m (c.trim_right b)
          ≡ elim (fn z (line_of c q n k)) [ err e ↦ err (stopped e) | ok z' ↦ ok z' ]
    unfolding stream_line line_type line_of
    stream_line-line_of fn z q n k m b sent fine e =
        let y = laws.op_type (line_of c q n k) b refl e in
        let p = parse_op-line_of q n k m b sent fine e in ground arith

    pub stream_line-trailer :
        {A : Type 0} (fn : A → OpLine Bytes → Result String A) (z : A) (t : Trailer) (m : ℕ)
        (b : Bytes)
        → t.kind ≡ line_trailer
        → c.encode_trailer t ≡ ok b
        → stream_line c fn z m (c.trim_right b) ≡ ok z
    unfolding stream_line line_type
    stream_line-trailer fn z t m b k e = let y = laws.trailer_type t b k e in ground arith

    pub read_header-encode :
        (h : Header) (b : Bytes) (bs : List Bytes)
        → h.kind ≡ line_header
        → h.format ≡ format_version
        → c.encode_header h ≡ ok b
        → IsShort b
        → read_header c (b ∷ bs) clean ≡ ok (h, c.hash (c.trim_right b), 1, bs, clean)
    unfolding read_header line_type first_line
    read_header-encode h b bs k f e s =
        let y = laws.header_type h b k e in
        let p = take_line_short 1 b s y.2 in
        let d = laws.header_back h b e in
        let v : (h.format =? format_version) ≡ true = rw f (beq_refl format_version) in ground arith

    pub each_line-stream_line :
        {A : Type 0} (fn : A → OpLine Bytes → Result String A) (z : A) (m n : ℕ)
        (seqs : List (ℤ × ℕ)) (qs : List (Queued c)) (bs : List Bytes) (t : Trailer) (last : Bytes)
        → All (IsSent c) qs
        → All (λ q. IsReplayable q.entry) qs
        → Encoded c (lines_from c n seqs qs) bs
        → All IsShort bs
        → t.kind ≡ line_trailer
        → c.encode_trailer t ≡ ok last
        → IsShort last
        → each_line c (stream_line c fn) z m (bs ++ last ∷ []) clean
          ≡ deliver fn z (lines_from c n seqs qs)
    unfolding lines_from deliver
    each_line-stream_line fn z m n seqs [] [] t last sent fine enc short k e s =
        let y = laws.trailer_type t last k e in
        rw
          (
            each_line_short (stream_line c fn) z m last [] clean s y.3,
            stream_line-trailer fn z t (m + 1) last k e,
          )
          (each_line_end (stream_line c fn) z (m + 1))
    each_line-stream_line fn z m n seqs [] (b ∷ bs) t last sent fine enc short k e s = absurd enc
    each_line-stream_line fn z m n seqs (q ∷ qs) [] t last sent fine enc short k e s = absurd enc
    each_line-stream_line fn z m n seqs (q ∷ qs) (b ∷ bs) t last sent fine enc short k e s =
        let w = u64 (count_of q.entry.worker seqs + 1) in
        let l = line_of c q (u64 (n + 1)) w in
        rw
          (
            each_line_short (stream_line c fn) z m b (bs ++ last ∷ []) clean short.0
                (laws.op_not_blank l b enc.0),
            stream_line-line_of fn z q (u64 (n + 1)) w (m + 1) b sent.0 fine.0 enc.0,
          )
          (elim (Result-cases (fn z l)) [
            | inl (x, h) ↦ rw h
            | inr (z', h) ↦ rw h (
                each_line-stream_line fn z' (m + 1) (u64 (n + 1)) (insert q.entry.worker w seqs) qs
                  bs t last sent.1 fine.1 enc.1 short.1 k e s)
          ])
