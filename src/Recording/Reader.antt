-- ===== src/Recording/Reader.antt =====
-- reader.go: the line reader, `parseOp`, `Scan` and `Stream`. A file is its terminated lines and
-- what follows them; decompression, opening and closing are left out, and `Stream`'s check of its
-- context is a refusal of its callback.
use percona_load_generator_m.Prelude.{
  ℕ, ◌+◌, ◌≡◌, arith, String, not, ◌&&◌, Option, none, some, List, [], ◌∷◌, Result, ok, err, ◌>>=◌,
  ◌>>◌, refuse, ltb, ◌==◌, if◌then◌else◌,
}
use percona_load_generator_m.Prelude.Int.{ℤ, pos, ltb_ℤ}
use percona_load_generator_m.Prelude.Keys.{
  ◌=?◌, beq_refl, lookup-insert, contains, lookup, insert, int_eq, string_eq,
}
use percona_load_generator_m.Recording.Format.{
  u64, Header, OpLine, Trailer, op_iteration, format_version, line_header, line_op, line_trailer,
  status_incomplete, path_fast_insert_batch, path_fast_find,
}
use percona_load_generator_m.Recording.Codec.{Codec}

abbrev pub max_line_bytes : ℕ
max_line_bytes = 67108864

abbrev pub known_ops : List String
known_ops =
    "find" ∷ "aggregate" ∷ "updateOne" ∷ "updateMany" ∷ "deleteOne" ∷ "deleteMany" ∷ "insert"
    ∷ "insertMany" ∷ "transaction" ∷ []

-- The errors, with the line that their messages print.
pub data Error : Type 0 where
  too_long : ℕ → Error
  read_error json_error : String → Error
  empty_file no_header_line : Error
  header_error unsupported_format : String → Error
  op_error trailer_error line_error : ℕ → String → Error
  bad_worker no_namespace no_command after_trailer : ℕ → Error
  unknown_op unknown_path unexpected_line : ℕ → String → Error
  out_of_order : ℕ → ℤ → ℕ → ℕ → Error
  iteration_back iteration_high : ℕ → ℤ → ℤ → Error
  trailer_count : ℕ → ℕ → Error
  stopped : String → Error

-- A map's value, 0 where the key is missing.
abbrev pub count_of : ℤ → List (ℤ × ℕ) → ℕ
count_of k m = elim (lookup k m) [ none ↦ 0 | some n ↦ n ]

pub count_of-insert :
    (j w : ℤ) (k : ℕ) (m : List (ℤ × ℕ))
    → count_of j (insert w k m) ≡ (if w =? j then k else count_of j m)
count_of-insert j w k m = let h = lookup-insert {K = ℤ} w j k m in ground (arith, h)

pub count_of-insert_self : (w : ℤ) (k : ℕ) (m : List (ℤ × ℕ)) → count_of w (insert w k m) ≡ k
count_of-insert_self w k m = rw (count_of-insert w w k m, beq_refl w)

module _ (c : Codec) where
  open c use {Bytes}

  -- What follows the last newline: nothing, a line without newline, or a read error.
  pub data Tail : Type 0 where
    clean : Tail
    partial : Bytes → Tail
    broken : String → Tail

  -- One buffer of `next`: the error for a long one, none for a blank line, or the line.
  unfoldable pub take_line : ℕ → Bytes → Result Error (Option Bytes)
  take_line n b = do
    refuse (ltb max_line_bytes (c.size b)) (too_long n)
    let line = c.trim_right b
    ok (if c.is_blank line then none else some line)

  -- The first line of `next`, with its number and what is left.
  unfoldable pub first_line :
      ℕ → List Bytes → Tail → Result Error (Option (Bytes × ℕ × List Bytes × Tail))
  unfolding take_line
  first_line n [] clean = ok none
  first_line n [] (broken e) = err (read_error e)
  first_line n [] (partial b) = do
    refuse (ltb max_line_bytes (c.size b)) (too_long (n + 1))
    if c.valid b
        then (do
          line ← take_line (n + 1) b
          ok (elim line [ none ↦ none | some l ↦ some (l, n + 1, [], clean) ]))
        else ok none
  first_line n (b ∷ bs) tail = do
    line ← take_line (n + 1) b
    elim line [ none ↦ first_line (n + 1) bs tail | some l ↦ ok (some (l, n + 1, bs, tail)) ]

  -- The loop over `next`: `step` handles a line with its number.
  unfoldable pub each_line :
      {A : Type 0} → (A → ℕ → Bytes → Result Error A) → A → ℕ → List Bytes → Tail → Result Error A
  unfolding take_line
  each_line step z n [] clean = ok z
  each_line step z n [] (broken e) = err (read_error e)
  each_line step z n [] (partial b) = do
    refuse (ltb max_line_bytes (c.size b)) (too_long (n + 1))
    if c.valid b
        then (do line ← take_line (n + 1) b; elim line [ none ↦ ok z | some l ↦ step z (n + 1) l ])
        else ok z
  each_line step z n (b ∷ bs) tail = do
    line ← take_line (n + 1) b
    z' ← elim line [ none ↦ ok z | some l ↦ step z (n + 1) l ]
    each_line step z' (n + 1) bs tail

  unfoldable pub line_type : Bytes → Result String String
  line_type b =
      if c.has_type b line_op
      then ok line_op
      else if c.has_type b line_header
      then ok line_header
      else if c.has_type b line_trailer
      then ok line_trailer
      else c.decode_type b

  -- `readHeader`, with the number of its line and what follows.
  unfoldable pub read_header :
      List Bytes → Tail → Result Error (Header × String × ℕ × List Bytes × Tail)
  read_header bs tail = do
    first ← first_line 0 bs tail
    elim first [
      | none ↦ err empty_file
      | some (b, n, rest, tail') ↦ elim (line_type b) [
        | err e ↦ err no_header_line
        | ok t ↦ (do
          refuse (not (t =? line_header)) no_header_line
          elim (c.decode_header b) [
            | err e ↦ err (header_error e)
            | ok h ↦ (do
              refuse (not (h.format =? format_version)) (unsupported_format h.format)
              ok (h, c.hash b, n, rest, tail'))
          ])
      ]
    ]

  unfoldable pub parse_op : Bytes → ℕ → Result Error (OpLine Bytes)
  unfolding contains
  parse_op b n = elim (c.decode_op b) [
    | err e ↦ err (op_error n e)
    | ok o ↦ (do
      refuse (ltb_ℤ o.worker (pos 1)) (bad_worker n)
      refuse (not (contains o.op known_ops)) (unknown_op n o.op)
      refuse (o.ns =? "") (no_namespace n)
      refuse (not (c.is_object o.cmd)) (no_command n)
      refuse
          (not (o.path =? "")
            && not (o.path =? path_fast_insert_batch)
            && not (o.path =? path_fast_find))
          (unknown_path n o.path)
      ok o)
  ]

pub record FileInfo : Type 0 where
  pub header : Header
  pub header_hash : String
  pub trailer : Option Trailer
  pub status : String
  pub ops : ℕ
  pub worker_ops : List (ℤ × ℕ)
  pub workers : ℤ
  pub iterations : ℤ
  pub iteration_ops : List (ℤ × ℕ)

-- The checks of `Scan` on an operation, and what it counts.
unfoldable pub scan_op : {B : Type 0} → FileInfo → ℕ → OpLine B → Result Error FileInfo
unfolding op_iteration
scan_op info n o = do
  let want = u64 (count_of o.worker info.worker_ops + 1)
  refuse (not (o.worker_seq == want)) (out_of_order n o.worker o.worker_seq want)
  let it = op_iteration o
  refuse (ltb_ℤ it info.iterations) (iteration_back n it info.iterations)
  refuse (ltb_ℤ (pos 0) info.header.iterations && ltb_ℤ info.header.iterations it)
      (iteration_high n it info.header.iterations)
  ok (record info {
    iterations = it;
    iteration_ops = insert it (u64 (count_of it info.iteration_ops + 1)) info.iteration_ops;
    worker_ops = insert o.worker o.worker_seq info.worker_ops;
    ops = u64 (info.ops + 1);
    workers = if ltb_ℤ info.workers o.worker then o.worker else info.workers;
  })

-- The end of `Scan`: the status, and the trailer's count.
unfoldable pub scan_end : FileInfo → Result Error FileInfo
scan_end info = elim info.trailer [
  | none ↦ ok (record info { status = status_incomplete })
  | some tr ↦ (do
    refuse (not (tr.ops == info.ops)) (trailer_count tr.ops info.ops)
    ok (record info { status = tr.status }))
]

module _ (c : Codec) where
  open c use {Bytes}

  unfoldable pub scan_line : FileInfo → ℕ → Bytes → Result Error FileInfo
  unfolding line_type
  scan_line info n b = elim info.trailer [
    | some tr ↦ err (after_trailer n)
    | none ↦ elim (line_type c b) [
      | err e ↦ err (line_error n e)
      | ok t ↦
          if t =? line_op
          then parse_op c b n >>= scan_op info n
          else if t =? line_trailer
          then elim (c.decode_trailer b) [
            | err e ↦ err (trailer_error n e)
            | ok tr ↦ ok (record info { trailer = some tr })
          ]
          else err (unexpected_line n t)
    ]
  ]

  abbrev pub start_info : Header → String → FileInfo
  start_info h hash = record {
    header = h;
    header_hash = hash;
    trailer = none;
    status = "";
    ops = 0;
    worker_ops = [];
    workers = h.workers;
    iterations = pos 0;
    iteration_ops = [];
  }

  unfoldable pub scan : List Bytes → Tail c → Result Error FileInfo
  scan bs tail = do
    head ← read_header c bs tail
    let (h, hash, n, rest, tail') = head
    info ← each_line c scan_line (start_info h hash) n rest tail'
    scan_end info

  unfoldable pub stream_line :
      {A : Type 0} → (A → OpLine Bytes → Result String A) → A → ℕ → Bytes → Result Error A
  unfolding line_type
  stream_line fn z n b = elim (line_type c b) [
    | err e ↦ err (line_error n e)
    | ok t ↦
        if t =? line_op
        then (do o ← parse_op c b n; elim (fn z o) [ err e ↦ err (stopped e) | ok z' ↦ ok z' ])
        else ok z
  ]

  -- `Stream`: the callback's state is passed along.
  unfoldable pub stream :
      {A : Type 0} → (A → OpLine Bytes → Result String A) → A → List Bytes → Tail c → Result Error A
  stream fn z bs tail = do
    head ← read_header c bs tail
    let (h, hash, n, rest, tail') = head
    each_line c (stream_line fn) z n rest tail'
