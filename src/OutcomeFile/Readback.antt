-- ===== src/OutcomeFile/Readback.antt =====
-- What StreamOutcomes makes of the lines that an OutcomeWriter encoded.
use percona_load_generator_m.Prelude.{
  ℕ, ◌+◌, ◌≡◌, refl, String, true, none, some, List, [], ◌∷◌, ◌++◌, Result, ok, err, Result-cases,
  inl, inr, ◌>>=◌, arith, All, length,
}
use percona_load_generator_m.Prelude.Keys.{◌=?◌, beq_refl, string_eq}
use percona_load_generator_m.Recording.Codec.{Codec}
use percona_load_generator_m.Recording.Reader.{Error, stopped, Tail, clean, first_line, each_line}
use percona_load_generator_m.Recording.Reading.{
  IsShort, take_line_short, each_line_short, each_line_end,
}
use percona_load_generator_m.OutcomeFile.Lines.{
  OutcomeHeader, OutcomeLine, OutcomeTrailer, OutcomeCodec, Laws, outcome_format_version,
  line_outcome_header, line_outcome, line_outcome_trailer,
}
use percona_load_generator_m.OutcomeFile.Reader.{read_outcome_header, outcome_step}
use percona_load_generator_m.OutcomeFile.Writer.{Event, writes, takes, offered}
use percona_load_generator_m.OutcomeFile.Kept.{Encoded}

-- The callback on the outcomes in turn, until it refuses one.
unfoldable pub deliver :
    {A : Type 0} → (A → OutcomeLine → Result String A) → A → List OutcomeLine → Result Error A
deliver fn z [] = ok z
deliver fn z (l ∷ ls) = elim (fn z l) [ err e ↦ err (stopped e) | ok z' ↦ deliver fn z' ls ]

abbrev pub IsStamped : OutcomeLine → Type 0
IsStamped l = l.kind ≡ line_outcome

pub offered-IsStamped : (c : Codec) (evs : List (Event c)) → All IsStamped (offered c evs)
unfolding offered
offered-IsStamped c [] = tt
offered-IsStamped c (writes l d io ∷ evs) = (refl, offered-IsStamped c evs)
offered-IsStamped c (takes io ∷ evs) = offered-IsStamped c evs

module _ (c : Codec) (j : OutcomeCodec c) (laws : Laws c j) where
  open c use {Bytes}

  pub read_outcome_header-encode :
      (h : OutcomeHeader) (b : Bytes) (bs : List Bytes) (tail : Tail c)
      → h.kind ≡ line_outcome_header
      → h.format ≡ outcome_format_version
      → j.encode_header h ≡ ok b
      → IsShort c b
      → read_outcome_header c j (b ∷ bs) tail ≡ ok (h, 1, bs, tail)
  unfolding read_outcome_header first_line
  read_outcome_header-encode h b bs tail k f e s =
      let y = laws.header_type h b k e in
      let p = take_line_short c 1 b s y.1 in
      let d = laws.header_back h b e in
      let v : (h.format =? outcome_format_version) ≡ true =
        rw f (beq_refl outcome_format_version) in
      ground arith

  module _ {A : Type 0} (fn : A → OutcomeLine → Result String A) where
    pub line_step :
        (l : OutcomeLine) (b : Bytes) (z : A) (n : ℕ)
        → IsStamped l
        → j.encode_line l ≡ ok b
        → outcome_step c j fn (none, z) n (c.trim_right b)
          ≡ elim (fn z l) [ err e ↦ err (stopped e) | ok z' ↦ ok (none, z') ]
    unfolding outcome_step
    line_step l b z n k e =
        let y = laws.line_kind l b k e in let d = laws.line_back l b e in ground arith

    trailer_step :
        (t : OutcomeTrailer) (b : Bytes) (z : A) (n : ℕ)
        → t.kind ≡ line_outcome_trailer
        → j.encode_trailer t ≡ ok b
        → outcome_step c j fn (none, z) n (c.trim_right b) ≡ ok (some t, z)
    unfolding outcome_step
    trailer_step t b z n k e =
        let y = laws.trailer_type t b k e in let d = laws.trailer_back t b e in ground arith

    -- The loop over the outcomes, and then over the lines after them.
    pub each_line-outcomes :
        (ls : List OutcomeLine) (bs rest : List Bytes) (tail : Tail c) (z : A) (m : ℕ)
        → All IsStamped ls
        → Encoded c j ls bs
        → All (IsShort c) bs
        → each_line c (outcome_step c j fn) (none, z) m (bs ++ rest) tail ≡ (
            deliver fn z ls >>= λ z'.
            each_line c (outcome_step c j fn) (none, z') (m + length bs) rest tail)
    unfolding deliver
    each_line-outcomes [] [] rest tail z m k e s =
        let zero : m + 0 ≡ m = omega arith in rw zero refl
    each_line-outcomes [] (b ∷ bs) rest tail z m k e s = absurd e
    each_line-outcomes (l ∷ ls) [] rest tail z m k e s = absurd e
    each_line-outcomes (l ∷ ls) (b ∷ bs) rest tail z m k e s =
        let more : m + length (b ∷ bs) ≡ m + 1 + length bs = omega arith in
        let y = laws.line_kind l b k.0 e.0 in
        rw
          (
            more,
            each_line_short c (outcome_step c j fn) (none, z) m b (bs ++ rest) tail s.0 y.1,
            line_step l b z (m + 1) k.0 e.0,
          )
          (elim (Result-cases (fn z l)) [
            | inl (x, h) ↦ rw (deliver, h) refl
            | inr (z', h) ↦
                rw (deliver, h) (each_line-outcomes ls bs rest tail z' (m + 1) k.1 e.1 s.1)
          ])

    pub each_line-trailer :
        (t : OutcomeTrailer) (b : Bytes) (z : A) (n : ℕ)
        → t.kind ≡ line_outcome_trailer
        → j.encode_trailer t ≡ ok b
        → IsShort c b
        → each_line c (outcome_step c j fn) (none, z) n (b ∷ []) clean ≡ ok (some t, z)
    each_line-trailer t b z n k e s =
        let y = laws.trailer_type t b k e in
        rw
          (
            each_line_short c (outcome_step c j fn) (none, z) n b [] clean s y.2,
            trailer_step t b z (n + 1) k e,
          )
          (each_line_end c (outcome_step c j fn) (some t, z) (n + 1))
