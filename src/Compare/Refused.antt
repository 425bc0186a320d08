-- ===== src/Compare/Refused.antt =====
-- compare.go: when a comparison is refused.
use percona_load_generator_m.Prelude.{
  ℕ, String, subst, ◌≤◌, Bool, true, false, not, ◌&&◌, ◌||◌, Option, none, some, List, ◌⊎◌, inl,
  inr, ◌≡◌, refl, ◌∙◌, ap₂, Bool-cases, arith, length, if◌then◌else◌, sym,
}
use percona_load_generator_m.Prelude.Int.{ℤ, pos, ◌≤ℤ◌, ◌<ℤ◌}
use percona_load_generator_m.Compare.Operations.{Line, Comparer}
use percona_load_generator_m.Compare.Feed.{compare_ops}
use percona_load_generator_m.Compare.Prefix.{compare_ops-length}
use percona_load_generator_m.Compare.Identity.{
  SideFile, IdentityKind, identity, Mismatch, check_identity, Report, Result, failed, refused,
  reported, top_n_of, report_of, refusal, or_else, compare_read, read_both, compare, SameOperations,
  check_identity-same, check_identity-inl, sum_cases,
}

or_else_twice :
    {E : Type 0} (o : Option (Result E)) (r : Result E) → or_else o (or_else o r) ≡ or_else o r
or_else_twice none r = refl
or_else_twice (some x) r = refl

-- The two places where `compare` may refuse.
gates :
    {E : Type 0} (x y : Bool) (o : Option (Result E)) (r : Result E)
    → or_else
        (if x && y || (if x then not y else y) then o else none)
        (or_else (if x && y then none else o) r)
      ≡ or_else o r
gates true true o r = refl
gates true false o r = or_else_twice o r
gates false true o r = or_else_twice o r
gates false false o r = refl

module _ {E : Type 0} (top_n : ℤ) (sa sb : SideFile E) (ops_a ops_b : List Line) where
  -- What two files that are read compare to.
  abbrev pub compared : Comparer
  compared =
      compare_ops (sa.seq_keyed && sb.seq_keyed) (sa.is_recording && not sb.is_recording)
        (top_n_of top_n) ops_a ops_b

  compare_once :
      (allow : Bool)
      → sa.each ≡ inr ops_a
      → sb.each ≡ inr ops_b
      → compare top_n allow sa sb
        ≡ or_else
            (refusal allow (check_identity sa sb))
            (reported (report_of (sa.seq_keyed && sb.seq_keyed) (check_identity sa sb) compared))
  unfolding compare compare_read
  compare_once allow ha hb =
      let by_seq = sa.seq_keyed && sb.seq_keyed in
      let o : Option (Result E) = refusal allow (check_identity sa sb) in
      ap₂
        (λ x y.
          or_else
            (if by_seq || (if sa.seq_keyed then not sb.seq_keyed else sb.seq_keyed)
              then o
              else none)
            (read_both x y (λ l l'. or_else (if by_seq then none else o) (
              reported (
                report_of by_seq (check_identity sa sb) (
                  compare_ops by_seq (sa.is_recording && not sb.is_recording) (top_n_of top_n) l
                    l'))))))
        ha hb
      ∙ gates sa.seq_keyed sb.seq_keyed o
          (reported (report_of by_seq (check_identity sa sb) compared))

-- What a comparison of two files that are read ends in; `c` is the comparer.
pub data Verdict {E : Type 0} (allow : Bool) (sa sb : SideFile E) (c : Comparer)
    : Result E → Type 0 where
  same_operations :
      SameOperations sa sb
      → Verdict allow sa sb c
          (reported (report_of (sa.seq_keyed && sb.seq_keyed) (inl (identity sa)) c))
  mismatch_refused :
      (m : Mismatch) → ¬ SameOperations sa sb → allow ≡ false → Verdict allow sa sb c (refused m)
  mismatch_allowed :
      (m : Mismatch)
      → ¬ SameOperations sa sb
      → allow ≡ true
      → Verdict allow sa sb c (reported (report_of (sa.seq_keyed && sb.seq_keyed) (inr m) c))

refusal-Verdict :
    {E : Type 0} (allow : Bool) (sa sb : SideFile E) (c : Comparer)
    → Verdict allow sa sb c (
        or_else
          (refusal allow (check_identity sa sb))
          (reported (report_of (sa.seq_keyed && sb.seq_keyed) (check_identity sa sb) c)))
refusal-Verdict allow sa sb c = elim (sum_cases (check_identity sa sb)) [
  | inl (i, e) ↦
      let s = check_identity-inl sa sb i e in rw (check_identity-same sa sb s) (same_operations s)
  | inr (m, e) ↦
      let different : ¬ SameOperations sa sb = λ s. cc (check_identity-same sa sb s, e) in
      elim (Bool-cases allow) [
        | inl h ↦ rw (e, h) (mismatch_allowed m different refl)
        | inr h ↦ rw (e, h) (mismatch_refused m different refl)
      ]
]

-- Two files that can be read. If they are of the same operations, the comparison reports what they
-- ran, and no mismatch. If not, it is refused unless a mismatch is allowed, and then it is reported
-- with one mismatch and nothing that both ran.
pub compare-Verdict :
    {E : Type 0} (top_n : ℤ) (allow : Bool) (sa sb : SideFile E) (ops_a ops_b : List Line)
    → sa.each ≡ inr ops_a
    → sb.each ≡ inr ops_b
    → Verdict allow sa sb (compared top_n sa sb ops_a ops_b) (compare top_n allow sa sb)
compare-Verdict top_n allow sa sb ops_a ops_b ha hb =
    let c = compared top_n sa sb ops_a ops_b in
    subst (Verdict allow sa sb c) (sym (compare_once top_n sa sb ops_a ops_b allow ha hb))
      (refusal-Verdict allow sa sb c)

-- A report lists at most `n` operations.
abbrev Within : {E : Type 0} → ℕ → Result E → Type 0
Within n (failed e) = Unit
Within n (refused m) = Unit
Within n (reported r) = length r.comparer.diffs ≤ n

report_of-Within :
    (E : Type 0) (n : ℕ) (b : Bool) (x : (IdentityKind × String) ⊎ Mismatch) (c : Comparer)
    → length c.diffs ≤ n
    → let r : Result E = reported (report_of b x c) in Within n r
report_of-Within E n b (inl i) c h = h
report_of-Within E n b (inr m) c h = h

refusal-Within :
    {E : Type 0} (n : ℕ) (b allow : Bool) (x : (IdentityKind × String) ⊎ Mismatch) (r : Result E)
    → Within n r
    → Within n (or_else (if b then refusal allow x else none) r)
refusal-Within n false allow x r h = h
refusal-Within n true allow (inl i) r h = h
refusal-Within n true true (inr m) r h = h
refusal-Within n true false (inr m) r h = tt

refusal_not-Within :
    {E : Type 0} (n : ℕ) (b allow : Bool) (x : (IdentityKind × String) ⊎ Mismatch) (r : Result E)
    → Within n r
    → Within n (or_else (if b then none else refusal allow x) r)
refusal_not-Within n true allow x r h = h
refusal_not-Within n false allow x r h = refusal-Within n true allow x r h

top_n_of-bound :
    (n : ℤ) → (top_n_of n ≤ 1000) × ((pos (top_n_of n) ≤ℤ n) ⊎ ((n <ℤ pos 1) × (top_n_of n ≤ 20)))
unfolding top_n_of
top_n_of-bound n = ground arith

read_both-Within :
    {E : Type 0} (n : ℕ) (x y : E ⊎ List Line) (k : List Line → List Line → Result E)
    → ((l l' : List Line) → Within n (k l l'))
    → Within n (read_both x y k)
read_both-Within n (inl e) y k h = tt
read_both-Within n (inr l) (inl e) k h = tt
read_both-Within n (inr l) (inr l') k h = h l l'

compare-Within :
    {E : Type 0} (top_n : ℤ) (allow : Bool) (sa sb : SideFile E)
    → Within (top_n_of top_n) (compare top_n allow sa sb)
unfolding compare compare_read
compare-Within {E} top_n allow sa sb =
    let n = top_n_of top_n in
    let by_seq = sa.seq_keyed && sb.seq_keyed in
    refusal-Within n (by_seq || (if sa.seq_keyed then not sb.seq_keyed else sb.seq_keyed)) allow
      (check_identity sa sb) _
      (read_both-Within n sa.each sb.each _ (λ l l'.
        refusal_not-Within n by_seq allow (check_identity sa sb) _ (
          report_of-Within E n by_seq (check_identity sa sb) _
            (compare_ops-length by_seq (sa.is_recording && not sb.is_recording) n l l'))))

below :
    (l m : ℕ) (n : ℤ)
    → l ≤ m
    → (pos m ≤ℤ n) ⊎ ((n <ℤ pos 1) × (m ≤ 20))
    → (pos l ≤ℤ n) ⊎ ((n <ℤ pos 1) × (l ≤ 20))
below l m n h (inl p) = inl (omega (arith, h, p))
below l m n h (inr p) = inr (p.0, omega (arith, h, p.1))

-- Every report of `Compare` lists at most 1000 operations, and at most TopN, or 20 where TopN is not
-- positive, whatever the files.
pub compare-length :
    {E : Type 0} (top_n : ℤ) (allow : Bool) (sa sb : SideFile E) (r : Report)
    → compare top_n allow sa sb ≡ reported r
    → (length r.comparer.diffs ≤ 1000)
      × ((pos (length r.comparer.diffs) ≤ℤ top_n)
          ⊎ ((top_n <ℤ pos 1) × (length r.comparer.diffs ≤ 20)))
compare-length top_n allow sa sb r h =
    let w : length r.comparer.diffs ≤ top_n_of top_n =
      subst (Within (top_n_of top_n)) h (compare-Within top_n allow sa sb) in
    let b = top_n_of-bound top_n in (omega (arith, w, b.0), below _ _ top_n w b.1)
