-- ===== src/Compare/Identity.antt =====
-- compare.go: `Compare` over two opened files: are they executions of the same operations? What
-- `openSide` and `each` give, with the fingerprint that `each` finds in the trailer, is a `SideFile`.
-- The report's texts, its latencies and what it copies from the files are left out.
use percona_load_generator_m.Prelude.{
  ℕ, String, Bool, true, false, not, ◌&&◌, ◌||◌, Option, none, some, List, [], ◌∷◌, ◌⊎◌, inl, inr,
  ◌≡◌, ◌≢◌, refl, ap, arith, if◌then◌else◌,
}
use percona_load_generator_m.Prelude.Int.{ℤ, pos, ltb_ℤ, pos_part}
use percona_load_generator_m.Prelude.Keys.{◌=?◌, string_eq}
use percona_load_generator_m.Compare.Operations.{Line, Comparer}
use percona_load_generator_m.Compare.Feed.{compare_ops}

-- `E` is the type of the errors of reading a file.
pub record SideFile (E : Type 0) : Type 0 where
  pub is_recording : Bool
  pub seq_keyed : Bool
  pub recording_header_hash : String
  pub traffic_fingerprint : String
  pub each : E ⊎ List Line

pub data IdentityKind : Type 0 where
  identity_recording identity_traffic : IdentityKind

pub data Missing : Type 0 where
  missing_on_both missing_on_a missing_on_b : Missing

pub data Mismatch : Type 0 where
  kinds_differ : Mismatch
  identity_missing : Missing → Mismatch
  identity_differs : String → String → Mismatch

abbrev pub identity : {E : Type 0} → SideFile E → IdentityKind × String
identity f =
    if f.seq_keyed
    then (identity_recording, f.recording_header_hash)
    else (identity_traffic, f.traffic_fingerprint)

abbrev pub same_kind : IdentityKind → IdentityKind → Bool
same_kind identity_recording identity_recording = true
same_kind identity_recording identity_traffic = false
same_kind identity_traffic identity_recording = false
same_kind identity_traffic identity_traffic = true

abbrev pub missing_side : String → String → Missing
missing_side a b =
    if a =? "" && b =? "" then missing_on_both else if a =? "" then missing_on_a else missing_on_b

-- `checkIdentity`: what both files ran, or how they differ.
unfoldable pub check_identity :
    {E : Type 0} → SideFile E → SideFile E → (IdentityKind × String) ⊎ Mismatch
check_identity sa sb =
    let (ka, ia) = identity sa in
    let (kb, ib) = identity sb in
    if not (same_kind ka kb)
    then inr kinds_differ
    else if ia =? "" || ib =? ""
    then inr (identity_missing (missing_side ia ib))
    else if not (ia =? ib)
    then inr (identity_differs ia ib)
    else inl (ka, ia)

pub record Report : Type 0 where
  pub matched_by_seq : Bool
  pub identity : Option (IdentityKind × String)
  pub mismatches : List Mismatch
  pub comparer : Comparer

pub data Result (E : Type 0) : Type 0 where
  failed : E → Result E
  refused : Mismatch → Result E
  reported : Report → Result E

-- The bounds of TopN.
unfoldable pub top_n_of : ℤ → ℕ
top_n_of n =
    let m = if ltb_ℤ n (pos 1) then pos 20 else n in
    pos_part (if ltb_ℤ (pos 1000) m then pos 1000 else m)

abbrev pub report_of : Bool → (IdentityKind × String) ⊎ Mismatch → Comparer → Report
report_of by_seq (inl i) c = record {
  matched_by_seq = by_seq;
  identity = some i;
  mismatches = [];
  comparer = c;
}
report_of by_seq (inr m) c = record {
  matched_by_seq = by_seq;
  identity = none;
  mismatches = m ∷ [];
  comparer = c;
}

-- Whether a result of `checkIdentity` ends the comparison.
abbrev pub refusal : {E : Type 0} → Bool → (IdentityKind × String) ⊎ Mismatch → Option (Result E)
refusal allow (inl i) = none
refusal allow (inr m) = if allow then none else some (refused m)

abbrev pub or_else : {E : Type 0} → Option (Result E) → Result E → Result E
or_else none r = r
or_else (some r) rest = r

-- The two calls of `each`.
abbrev pub read_both :
    {E : Type 0} → E ⊎ List Line → E ⊎ List Line → (List Line → List Line → Result E) → Result E
read_both (inl e) y k = failed e
read_both (inr ops_a) (inl e) k = failed e
read_both (inr ops_a) (inr ops_b) k = k ops_a ops_b

-- Both files are read; a comparison by worker checks them now.
unfoldable pub compare_read : {E : Type 0} → Bool → ℕ → SideFile E → SideFile E → Result E
compare_read allow top_n sa sb =
    let by_seq = sa.seq_keyed && sb.seq_keyed in
    let checked = check_identity sa sb in
    read_both sa.each sb.each (λ ops_a ops_b.
      or_else (if by_seq then none else refusal allow checked) (
        reported (
          report_of by_seq checked
            (compare_ops by_seq (sa.is_recording && not sb.is_recording) top_n ops_a ops_b))))

-- `Compare`
unfoldable pub compare : {E : Type 0} → ℤ → Bool → SideFile E → SideFile E → Result E
compare top_n allow sa sb =
    let by_seq = sa.seq_keyed && sb.seq_keyed in
    let mixed = if sa.seq_keyed then not sb.seq_keyed else sb.seq_keyed in
    or_else (if by_seq || mixed then refusal allow (check_identity sa sb) else none)
      (compare_read allow (top_n_of top_n) sa sb)

-- Two files of the same operations: both are keyed alike, and their identity is known and the same.
abbrev pub SameOperations : {E : Type 0} → SideFile E → SideFile E → Type 0
SameOperations sa sb =
    (sa.seq_keyed ≡ sb.seq_keyed) × (identity sa ≡ identity sb) × ((identity sa).1 ≢ "")

pub check_identity-same :
    {E : Type 0} (sa sb : SideFile E)
    → SameOperations sa sb
    → check_identity sa sb ≡ inl (identity sa)
unfolding check_identity
check_identity-same sa sb (p, q, r) = ground (
  arith,
  string_eq.beq_iff (identity sa).1 "",
  string_eq.beq_iff (identity sb).1 "",
  string_eq.beq_iff (identity sa).1 (identity sb).1,
  ap (λ x. x.1) q,
)

pub check_identity-inl :
    {E : Type 0} (sa sb : SideFile E) (i : IdentityKind × String)
    → check_identity sa sb ≡ inl i
    → SameOperations sa sb
unfolding check_identity
check_identity-inl sa sb i h = ground (
  arith,
  string_eq.beq_iff (identity sa).1 "",
  string_eq.beq_iff (identity sb).1 "",
  string_eq.beq_iff (identity sa).1 (identity sb).1,
)

pub sum_cases : {A B : Type 0} (x : A ⊎ B) → ((a : A) × (x ≡ inl a)) ⊎ ((b : B) × (x ≡ inr b))
sum_cases (inl a) = inl (a, refl)
sum_cases (inr b) = inr (b, refl)
