-- ===== src/MultiTarget/Compared/Exits.antt =====
-- When a multi-target run succeeds.
use percona_load_generator_m.Prelude.{
  ℕ, ◌≡◌, ◌≢◌, ◌↔◌, refl, ap, String, Bool, true, false, not, ◌||◌, Option, none, some, List, [],
  ◌∷◌, All, All-imp, Result, ok, err, arith, if◌then◌else◌,
}
use percona_load_generator_m.Prelude.Keys.{◌=?◌, string_eq}
use percona_load_generator_m.MultiTarget.{complete}
use percona_load_generator_m.MultiTarget.Compared.{
  Report, View, no_outcome_file, Comparison, compared_of, unless_missing, compare_one, compare_all,
  match_from, compare, code_of_states, code_of, code_of_comparisons, exit_code,
}

abbrev pub IsReported : Result String Report → Type 0
IsReported (ok rep) = Unit
IsReported (err e) = ⊥

abbrev pub IsSaved : Bool → Option String → Type 0
IsSaved false answer = Unit
IsSaved true none = Unit
IsSaved true (some e) = ⊥

-- A target that is compared with the reference, and its reports written if they are to be.
abbrev pub IsCompared : Bool → View → View → Type 0
IsCompared write ref t =
    (ref.has_outcomes ≡ true)
    × (t.has_outcomes ≡ true)
    × IsReported t.compared
    × IsSaved write t.written

some_inj : {a b : Bool} → some a ≡ some b → a ≡ b
some_inj h = cc

code_zero_states :
    (code : ℕ) (ts : List View)
    → (code_of_states code ts ≡ 0) ↔ ((code ≡ 0) × All (λ t. t.status ≡ complete) ts)
unfolding code_of_states
code_zero_states code [] = ((λ h. (h, tt)), (λ h. h.0))
code_zero_states code (t ∷ ts) = ground (
  arith,
  code_zero_states (if t.status =? complete then code else 1) ts,
  string_eq.beq_iff t.status complete,
)

code_zero_comparisons :
    (code : ℕ) (cs : List Comparison)
    → (code_of_comparisons code cs ≡ 0) ↔ ((code ≡ 0) × All (λ c. c.error ≡ none) cs)
unfolding code_of_comparisons
code_zero_comparisons code [] = ((λ h. (h, tt)), (λ h. h.0))
code_zero_comparisons code (c ∷ cs) =
    ground (arith, code_zero_comparisons (code_of c.error code) cs)

match_from_iff :
    (match : Bool) (first : String) (ts : List View)
    → (match_from match first ts ≡ true)
      ↔ ((match ≡ true) × All (λ t. (first ≢ "") × (t.traffic_fingerprint ≡ first)) ts)
unfolding match_from
match_from_iff match first [] = ((λ h. (h, tt)), (λ h. h.0))
match_from_iff match first (t ∷ ts) = ground (
  arith,
  match_from_iff (if (first =? "") || not (t.traffic_fingerprint =? first) then false else match)
      first ts,
  string_eq.beq_iff first "",
  string_eq.beq_iff t.traffic_fingerprint first,
)

compared_iff :
    (write has has' : Bool) (label status label' status' : String) (r : Result String Report)
    (answer : Option String)
    → ((unless_missing (if has then none else some (no_outcome_file label status)) (
          unless_missing
            (if has' then none else some (no_outcome_file label' status'))
            (compared_of write r answer))).1
        ≡ none)
      ↔ ((has ≡ true) × (has' ≡ true) × IsReported r × IsSaved write answer)
compared_iff write false has' label status label' status' r answer = ground arith
compared_iff write true false label status label' status' r answer = ground arith
compared_iff write true true label status label' status' (err e) answer = ground arith
compared_iff false true true label status label' status' (ok rep) answer = ground arith
compared_iff true true true label status label' status' (ok rep) none = ground arith
compared_iff true true true label status label' status' (ok rep) (some e) = ground arith

compare_one_iff :
    (write : Bool) (ref t : View)
    → ((compare_one write ref t).error ≡ none) ↔ IsCompared write ref t
unfolding compare_one
compare_one_iff write ref t =
    compared_iff write ref.has_outcomes t.has_outcomes ref.label ref.status t.label t.status
      t.compared t.written

compare_all_iff :
    (write : Bool) (ref : View) (ts : List View)
    → All (λ c. c.error ≡ none) (compare_all write ref ts) ↔ All (IsCompared write ref) ts
unfolding compare_all
compare_all_iff write ref [] = ((λ h. tt), (λ h. tt))
compare_all_iff write ref (t ∷ ts) =
    let p = compare_one_iff write ref t in
    let q = compare_all_iff write ref ts in ((λ h. (p.0 h.0, q.0 h.1)), (λ h. (p.1 h.0, q.1 h.1)))

-- A multi-target run exits with 0 exactly when every target is complete and every target after the
-- first is compared with the first, both with an outcome file, and its reports are written.
pub exit_code-compare :
    (deterministic : Bool) (ref : View) (ts : List View)
    → (exit_code (compare deterministic true ref ts) ≡ 0)
      ↔ (All (λ t. t.status ≡ complete) (ref ∷ ts) × All (IsCompared true ref) ts)
unfolding exit_code compare
exit_code-compare deterministic ref ts =
    let c = code_zero_comparisons (code_of_states 0 (ref ∷ ts)) (compare_all true ref ts) in
    let s = code_zero_states 0 (ref ∷ ts) in
    let q = compare_all_iff true ref ts in
    ((λ h. let r = c.0 h in ((s.0 r.0).1, q.0 r.1)), (λ h. c.1 (s.1 (refl, h.0), q.1 h.1)))

-- A deterministic run of several targets reports matching fingerprints exactly when every target,
-- complete or not, has the first one's, and that is not blank.
pub fingerprints_match-compare :
    (write : Bool) (ref t : View) (ts : List View)
    → ((compare true write ref (t ∷ ts)).fingerprints_match ≡ some true) ↔ (
        (ref.traffic_fingerprint ≢ "")
        × All (λ u. u.traffic_fingerprint ≡ ref.traffic_fingerprint) (t ∷ ts))
unfolding compare
fingerprints_match-compare write ref t ts =
    let p = match_from_iff true ref.traffic_fingerprint (t ∷ ts) in
    (
      (λ h. let q = (p.0 (some_inj h)).1 in (q.0.0, All-imp (λ u r. r.1) (t ∷ ts) q)),
      (λ h. ap some (p.1 (refl, All-imp (λ u e. (h.0, e)) (t ∷ ts) h.1))),
    )
