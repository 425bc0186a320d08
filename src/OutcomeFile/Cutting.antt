-- ===== src/OutcomeFile/Cutting.antt =====
-- Files whose writer was not closed: the lines are in a buffer of 1 MiB that is written out when it is
-- full, so the file holds a first part of the bytes written and its last line may be cut off. Bytes and
-- how they are cut are a parameter.
use percona_load_generator_m.Prelude.{
  ℕ, ◌+◌, ◌≤◌, ◌≡◌, refl, sym, ap, ◌∙◌, ◌⊎◌, inl, inr, String, true, false, none, List, [], ◌∷◌,
  ◌++◌, Result, ok, ◌>>=◌, All, arith, length, length-append, append-nil, append_assoc,
  Result-cases,
}
use percona_load_generator_m.Recording.Codec.{Codec}
use percona_load_generator_m.Recording.Reader.{
  Error, Tail, clean, partial, broken, take_line, each_line,
}
use percona_load_generator_m.Recording.Reading.{IsShort}
use percona_load_generator_m.OutcomeFile.Lines.{OutcomeLine, OutcomeCodec, Laws}
use percona_load_generator_m.OutcomeFile.Writer.{OutcomeWriter}
use percona_load_generator_m.OutcomeFile.Reader.{outcome_step}
use percona_load_generator_m.OutcomeFile.Kept.{Encoded}
use percona_load_generator_m.OutcomeFile.Readback.{
  deliver, IsStamped, each_line-outcomes, line_step,
}

-- The first bytes of an encoded line, at least one and not all: they are no JSON document, unless only
-- the newline is missing.
pub record Cuts (c : Codec) (j : OutcomeCodec c) : Type 1 where
  pub IsCut : c.Bytes → c.Bytes → Type 0
  pub cut_size : (b' b : c.Bytes) → IsCut b' b → c.size b' ≤ c.size b
  pub cut_line :
      (l : OutcomeLine) (b' b : c.Bytes)
      → j.encode_line l ≡ ok b
      → IsCut b' b
      → (c.valid b' ≡ false) ⊎ ((c.valid b' ≡ true) × (c.trim_right b' ≡ c.trim_right b))

module _ (c : Codec) (j : OutcomeCodec c) (cuts : Cuts c j) where
  open c use {Bytes}

  -- What follows the whole lines of a file, of the lines that the file does not hold in full.
  abbrev pub IsTail : Tail c → List Bytes → Type 0
  IsTail clean rest = Unit
  IsTail (partial b') [] = ⊥
  IsTail (partial b') (b ∷ rest) = cuts.IsCut b' b
  IsTail (broken e) rest = ⊥

  -- The file holds what was flushed, and a first part of what the buffered writer was given.
  abbrev pub OnDisk : OutcomeWriter c → List Bytes → Tail c → Type 0
  OnDisk w file tail =
      (more rest : List Bytes) × (file ≡ w.file ++ more)
      × (w.written ≡ file ++ rest)
      × IsTail tail rest

  pub Encoded-split :
      (ls : List OutcomeLine) (more rest : List Bytes)
      → Encoded c j ls (more ++ rest)
      → (us vs : List OutcomeLine) × (ls ≡ us ++ vs) × Encoded c j us more × Encoded c j vs rest
  Encoded-split ls [] rest e = ([], ls, refl, tt, e)
  Encoded-split [] (b ∷ more) rest e = absurd e
  Encoded-split (l ∷ ls) (b ∷ more) rest e =
      let (us, vs, s, x, y) = Encoded-split ls more rest e.1 in
      (l ∷ us, vs, ap (λ xs. l ∷ xs) s, (e.0, x), y)

  each_line_invalid :
      {A : Type 0} (step : A → ℕ → Bytes → Result Error A) (z : A) (n : ℕ) (b : Bytes)
      → IsShort c b
      → c.valid b ≡ false
      → each_line c step z n [] (partial b) ≡ ok z
  unfolding each_line
  each_line_invalid step z n b s v = ground arith

  each_line_cut :
      {A : Type 0} (step : A → ℕ → Bytes → Result Error A) (z : A) (n : ℕ) (b : Bytes)
      → IsShort c b
      → c.valid b ≡ true
      → c.is_blank (c.trim_right b) ≡ false
      → each_line c step z n [] (partial b) ≡ step z (n + 1) (c.trim_right b)
  unfolding each_line take_line
  each_line_cut step z n b s v k = ground arith

  module _ (laws : Laws c j) {A : Type 0} (fn : A → OutcomeLine → Result String A) where
    deliver-snoc :
        (ls : List OutcomeLine) (l : OutcomeLine) (z : A)
        → deliver fn z (ls ++ l ∷ []) ≡ (deliver fn z ls >>= λ z'. deliver fn z' (l ∷ []))
    unfolding deliver
    deliver-snoc [] l z = refl
    deliver-snoc (x ∷ ls) l z = elim (Result-cases (fn z x)) [
      | inl (e, h) ↦ rw (deliver, h) refl
      | inr (z', h) ↦ rw (deliver, h) (deliver-snoc ls l z')
    ]

    -- What is read of the outcomes of whole lines, and of those that the file does not hold in full.
    abbrev pub Read : List OutcomeLine → List Bytes → Tail c → A → ℕ → Type 0
    Read ls more tail z m =
        (done unread : List OutcomeLine) × (ls ≡ done ++ unread)
        × (length more ≤ length done)
        × (each_line c (outcome_step c j fn) (none, z) m more tail
            ≡ (deliver fn z done >>= λ z'. ok (none, z')))

    lines_then :
        (us : List OutcomeLine) (more : List Bytes) (tail : Tail c) (z : A) (m : ℕ)
        → All IsStamped us
        → Encoded c j us more
        → All (IsShort c) more
        → each_line c (outcome_step c j fn) (none, z) m more tail ≡ (
            deliver fn z us >>= λ z'.
            each_line c (outcome_step c j fn) (none, z') (m + length more) [] tail)
    lines_then us more tail z m k e s =
        ap (λ xs. each_line c (outcome_step c j fn) (none, z) m xs tail) (sym (append-nil more))
        ∙ each_line-outcomes c j laws fn us more [] tail z m k e s

    length-Encoded :
        (us : List OutcomeLine) (more : List Bytes) → Encoded c j us more → length more ≤ length us
    length-Encoded [] [] e = omega arith
    length-Encoded [] (b ∷ more) e = absurd e
    length-Encoded (u ∷ us) [] e = absurd e
    length-Encoded (u ∷ us) (b ∷ more) e = let r = length-Encoded us more e.1 in omega (arith, r)

    -- Nothing more is read than the whole lines.
    only_lines :
        (us vs : List OutcomeLine) (more : List Bytes) (tail : Tail c) (z : A) (m : ℕ)
        → All IsStamped us
        → Encoded c j us more
        → All (IsShort c) more
        → ((z' : A)
            → each_line c (outcome_step c j fn) (none, z') (m + length more) [] tail
              ≡ ok (none, z'))
        → Read (us ++ vs) more tail z m
    only_lines us vs more tail z m k e s end = (
      us,
      vs,
      refl,
      length-Encoded us more e,
      lines_then us more tail z m k e s ∙ elim (Result-cases (deliver fn z us)) [
        | inl (x, d) ↦ rw d refl
        | inr (z', d) ↦ rw d (end z')
      ],
    )

    -- The cut line is read too: only its newline is missing.
    one_more :
        (us vs : List OutcomeLine) (v : OutcomeLine) (b' b : Bytes) (more : List Bytes) (z : A)
        (m : ℕ)
        → All IsStamped us
        → IsStamped v
        → Encoded c j us more
        → j.encode_line v ≡ ok b
        → All (IsShort c) more
        → IsShort c b'
        → c.valid b' ≡ true
        → c.trim_right b' ≡ c.trim_right b
        → Read (us ++ v ∷ vs) more (partial b') z m
    unfolding deliver
    one_more us vs v b' b more z m k kv e ev s s' ok_json same =
        let y = (laws.line_kind v b kv ev).1 in
        let end : (z' : A)
            → each_line c (outcome_step c j fn) (none, z') (m + length more) [] (partial b')
              ≡ (deliver fn z' (v ∷ []) >>= λ x. ok (none, x)) =
          λ z'.
            each_line_cut (outcome_step c j fn) (none, z') (m + length more) b' s' ok_json
              (rw same y)
            ∙ (ap (outcome_step c j fn (none, z') (m + length more + 1)) same
                ∙ (line_step c j laws fn v b z' (m + length more + 1) kv ev
                    ∙ elim (Result-cases (fn z' v)) [
                      | inl (x, d) ↦ rw (deliver, d) refl
                      | inr (x, d) ↦ rw (deliver, d) refl
                    ])) in
        (
          us ++ v ∷ [],
          vs,
          sym (append_assoc us (v ∷ []) vs),
          (let n = length-Encoded us more e in
              let p = length-append us (v ∷ []) in omega (arith, n, p)),
          lines_then us more (partial b') z m k e s ∙ (elim (Result-cases (deliver fn z us)) [
            | inl (x, d) ↦ rw (deliver-snoc us v z, d) refl
            | inr (z', d) ↦ rw (deliver-snoc us v z, d) (end z')
          ]),
        )

    pub lines-Read :
        (us vs : List OutcomeLine) (more rest : List Bytes) (tail : Tail c) (z : A) (m : ℕ)
        → All IsStamped us
        → All IsStamped vs
        → Encoded c j us more
        → Encoded c j vs rest
        → All (IsShort c) more
        → All (IsShort c) rest
        → IsTail tail rest
        → Read (us ++ vs) more tail z m
    unfolding each_line
    lines-Read us vs more rest clean z m ku kv eu ev su sv t =
        only_lines us vs more clean z m ku eu su (λ z'. refl)
    lines-Read us vs more rest (broken e) z m ku kv eu ev su sv t = absurd t
    lines-Read us vs more [] (partial b') z m ku kv eu ev su sv t = absurd t
    lines-Read us [] more (b ∷ rest) (partial b') z m ku kv eu ev su sv t = absurd ev
    lines-Read us (v ∷ vs) more (b ∷ rest) (partial b') z m ku kv eu ev su sv t =
        let size = cuts.cut_size b' b t in
        let short : IsShort c b' = (let x = sv.0 in omega (arith, size, x)) in
        elim (cuts.cut_line v b' b ev.0 t) [
          | inl bad ↦ only_lines us (v ∷ vs) more (partial b') z m ku eu su (λ z'.
              each_line_invalid (outcome_step c j fn) (none, z') (m + length more) b' short bad)
          | inr (good, same) ↦ one_more us vs v b' b more z m ku kv.0 eu ev.0 su short good same
        ]
