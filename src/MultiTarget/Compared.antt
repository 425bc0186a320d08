-- ===== src/MultiTarget/Compared.antt =====
-- internal/multitarget/multitarget.go: `compare`, `compareOne` and `Plan.Run` once the targets have
-- ended, and cmd/plgm/multitarget.go: the exit code. Texts, file names and lags are left out. What
-- `os.Stat`, `Deps.Compare` and `WriteFiles` answer is part of a target's `View`.
use percona_load_generator_m.Prelude.{
  ℕ, ◌≡◌, ◌≢◌, ◌↔◌, refl, sym, ap, ◌∙◌, String, Bool, true, false, not, ◌&&◌, ◌||◌, Option, none,
  some, List, [], ◌∷◌, All, All-imp, Result, ok, err, arith, Bool-cases, inl, inr, if_split,
  if◌then◌else◌,
}
use percona_load_generator_m.Prelude.Keys.{◌=?◌, string_eq}
use percona_load_generator_m.MultiTarget.{complete}
pub mod Exits

-- What is read of a report of `replaycompare.Compare`.
pub record Report : Type 0 where
  pub differing_ops : ℕ
  pub verdict : String

-- A target that has ended, and the answers of its comparison with the reference.
pub record View : Type 0 where
  pub label : String
  pub status : String
  pub traffic_fingerprint : String
  pub has_outcomes : Bool
  pub compared : Result String Report
  pub written : Option String

pub data Failure : Type 0 where
  no_outcome_file : String → String → Failure
  not_compared not_written : String → Failure

pub record Comparison : Type 0 where
  pub reference : String
  pub target : String
  pub report : Option Report
  pub error : Option Failure

abbrev pub file_of : View → Option Failure
file_of v = if v.has_outcomes then none else some (no_outcome_file v.label v.status)

-- The reports are written.
abbrev pub write_of : Bool → Report → Option String → Option Report × Option Failure
write_of false rep answer = (some rep, none)
write_of true rep none = (some rep, none)
write_of true rep (some e) = (some rep, some (not_written e))

abbrev pub compared_of :
    Bool → Result String Report → Option String → Option Report × Option Failure
compared_of write (err e) answer = (none, some (not_compared e))
compared_of write (ok rep) answer = write_of write rep answer

abbrev pub unless_missing :
    Option Failure → Option Report × Option Failure → Option Report × Option Failure
unless_missing (some f) r = (none, some f)
unless_missing none r = r

unfoldable pub compare_one : Bool → View → View → Comparison
compare_one write ref t =
    let r =
      unless_missing (file_of ref)
        (unless_missing (file_of t) (compared_of write t.compared t.written)) in
    record { reference = ref.label; target = t.label; report = r.0; error = r.1 }

unfoldable pub compare_all : Bool → View → List View → List Comparison
compare_all write ref [] = []
compare_all write ref (t ∷ ts) = compare_one write ref t ∷ compare_all write ref ts

-- The loop over the fingerprints of the other targets.
unfoldable pub match_from : Bool → String → List View → Bool
match_from match first [] = match
match_from match first (t ∷ ts) =
    match_from (if (first =? "") || not (t.traffic_fingerprint =? first) then false else match)
      first ts

pub record Summary : Type 0 where
  pub states : List View
  pub comparisons : List Comparison
  pub fingerprints_match : Option Bool

-- `compare`, of a plan whose first target is given.
unfoldable pub compare : Bool → Bool → View → List View → Summary
unfolding compare_all match_from
compare deterministic write ref ts = record {
  states = ref ∷ ts;
  comparisons = compare_all write ref ts;
  fingerprints_match =
      if deterministic then some (match_from true ref.traffic_fingerprint ts) else none;
}

unfoldable pub code_of_states : ℕ → List View → ℕ
code_of_states code [] = code
code_of_states code (t ∷ ts) = code_of_states (if t.status =? complete then code else 1) ts

abbrev pub code_of : Option Failure → ℕ → ℕ
code_of none code = code
code_of (some f) code = 1

unfoldable pub code_of_comparisons : ℕ → List Comparison → ℕ
code_of_comparisons code [] = code
code_of_comparisons code (c ∷ cs) = code_of_comparisons (code_of c.error code) cs

-- The exit code of `runMultiTarget`.
unfoldable pub exit_code : Summary → ℕ
unfolding code_of_states code_of_comparisons
exit_code s = code_of_comparisons (code_of_states 0 s.states) s.comparisons

-- `Plan.Run`: what the first call makes is what later calls give back, and `none` while it runs.
pub record Plan : Type 0 where
  pub ran : Bool
  pub result : Option Summary

unfoldable pub run_plan : Summary → Plan → Plan × Option Summary
run_plan made p =
    if p.ran then (p, p.result) else (record { ran = true; result = some made }, some made)
