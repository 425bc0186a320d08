-- ===== src/MultiTarget/Examples.antt =====
-- A concurrent run of two targets.
use Prim.Native.String.{◌++◌ as text_append}
use percona_load_generator_m.Prelude.{
  ◌≤◌, ◌≡◌, ◌≢◌, ◌↔◌, ◌⊎◌, refl, String, true, false, none, some, List, [], ◌∷◌, All, ok, length,
}
use percona_load_generator_m.MultiTarget.{
  RunEnd, run_error, run_panic, run_returns, TargetEnv, Job, prepare, begin, finish, prepare_all,
  starts, ends, later, Steps, here, next, complete, run_sequential, is_end,
}
use percona_load_generator_m.MultiTarget.Schedule.{CanStep}
use percona_load_generator_m.MultiTarget.Finished.{new_job}
use percona_load_generator_m.MultiTarget.Ends.{
  IsFresh, Ended, EndedAs, SomePanic, envs_of, Steps-EndsBy, run_sequential-EndsBy,
}
use percona_load_generator_m.MultiTarget.Plans.{jobs_of, Steps-run_sequential}
use percona_load_generator_m.MultiTarget.Compared.{View, compare, exit_code}
use percona_load_generator_m.MultiTarget.Compared.Exits.{
  IsCompared, exit_code-compare, fingerprints_match-compare,
}
use percona_load_generator_m.MultiTarget.NewPlan.{NewPlan, new_plan, configs, new_plan-Apart}
use percona_load_generator_m.WorkloadTargets.{validate_workload_targets, concurrent_targets}
use percona_load_generator_m.WorkloadTargets.Accepted.{Apart}
use percona_load_generator_m.WorkloadTargets.Examples.{two_targets}
use percona_load_generator_m.OperationMode.{data_fingerprint_mode}
use percona_load_generator_m.Prelude.Keys.{contains}
use percona_load_generator_m.Prelude.Text.{normalize, equal_fold}

abbrev connecting : String → String
connecting e = text_append "connect: " e

abbrev panicked : String → String
panicked e = text_append "panic: " e

abbrev answers : RunEnd → TargetEnv
answers run = record {
  done_before = none;
  connect = none;
  prepare = none;
  run = run;
  failed_at = 5;
  running_at = 10;
  ended_at = 20;
}

abbrev well : TargetEnv
well = answers (run_returns (some complete) none false)

abbrev ill : TargetEnv
ill = answers (run_error (record { text = "no primary"; is_canceled = false }))

abbrev two_jobs : List (TargetEnv × Job)
two_jobs = (ill, new_job 1 "m7") ∷ (well, new_job 2 "m8") ∷ []

-- The second target starts, then the first one starts and fails.
abbrev after_three : List (TargetEnv × Job)
after_three =
    (ill, finish panicked ill (begin ill (prepare connecting ill (new_job 1 "m7"))))
    ∷ (well, begin well (prepare connecting well (new_job 2 "m8")))
    ∷ []

start_start_end : Steps panicked 3 (prepare_all connecting two_jobs) after_three
unfolding prepare_all prepare begin
start_start_end =
    next (later _ (starts well _ [] refl))
      (next (starts ill _ _ refl) (next (ends ill _ _ refl) here))

-- They reach the end, where the workload of a third target panics.
abbrev breaks : TargetEnv
breaks = answers (run_panic "index out of range")

abbrev three_jobs : List (TargetEnv × Job)
three_jobs = (breaks, new_job 1 "m6") ∷ two_jobs

three_jobs-IsFresh : All IsFresh three_jobs
unfolding is_end
three_jobs-IsFresh = ((1, "m6", refl, tt), ((1, "m7", refl, tt), ((2, "m8", refl, refl), tt)))

abbrev ran : TargetEnv → Job → TargetEnv × Job
ran env j = (env, finish panicked env (begin env (prepare connecting env j)))

abbrev after_six : List (TargetEnv × Job)
after_six = ran breaks (new_job 1 "m6") ∷ ran ill (new_job 1 "m7") ∷ ran well (new_job 2 "m8") ∷ []

six_steps : Steps panicked 6 (prepare_all connecting three_jobs) after_six
unfolding prepare_all prepare begin
six_steps = next (starts breaks _ _ refl) (
    next (later _ (starts ill _ _ refl)) (
      next (ends breaks _ _ refl) (
        next (later _ (later _ (starts well _ [] refl))) (
          next (later _ (later _ (ends well _ [] refl)))
            (next (later _ (ends ill _ _ refl)) here)))))

Steps-EndsBy_example :
    CanStep panicked after_six ⊎ ((envs_of after_six ≡ envs_of three_jobs) × All Ended after_six)
Steps-EndsBy_example =
    Steps-EndsBy connecting panicked 6 three_jobs after_six three_jobs-IsFresh six_steps

run_sequential-EndsBy_example :
    ((ks : List Job) × (run_sequential connecting panicked three_jobs ≡ some ks)
      × EndedAs three_jobs ks
      × ¬ SomePanic three_jobs)
    ⊎ ((run_sequential connecting panicked three_jobs ≡ none) × SomePanic three_jobs)
run_sequential-EndsBy_example =
    run_sequential-EndsBy connecting panicked three_jobs three_jobs-IsFresh

Steps-run_sequential_example :
    CanStep panicked after_three
    ⊎ (run_sequential connecting panicked two_jobs ≡ some (jobs_of connecting panicked after_three))
Steps-run_sequential_example =
    Steps-run_sequential connecting panicked 3 two_jobs after_three (refl, (refl, tt))
      start_start_end

abbrev view : String → String → View
view label status = record {
  label = label;
  status = status;
  traffic_fingerprint = "5f1c";
  has_outcomes = true;
  compared = ok (record { differing_ops = 3; verdict = "slower" });
  written = none;
}

exit_code-compare_example :
    (exit_code (compare false true (view "m7" complete) (view "m8" "failed" ∷ [])) ≡ 0) ↔ (
      All (λ t. t.status ≡ complete) (view "m7" complete ∷ view "m8" "failed" ∷ [])
      × All (IsCompared true (view "m7" complete)) (view "m8" "failed" ∷ []))
exit_code-compare_example = exit_code-compare false (view "m7" complete) (view "m8" "failed" ∷ [])

fingerprints_match-compare_example :
    ((compare true false (view "m7" complete) (view "m8" complete ∷ [])).fingerprints_match
      ≡ some true)
    ↔ ((◌≢◌ {A = String} "5f1c" "")
        × All (λ u. u.traffic_fingerprint ≡ "5f1c") (view "m8" complete ∷ []))
fingerprints_match-compare_example =
    fingerprints_match-compare false (view "m7" complete) (view "m8" complete) []

abbrev made : NewPlan
made = record {
  deterministic = false;
  concurrent = true;
  targets = configs two_targets 0 two_targets.replay_targets;
}

made_by_new_plan : new_plan two_targets ≡ ok made
unfolding new_plan validate_workload_targets data_fingerprint_mode contains normalize
    concurrent_targets equal_fold
made_by_new_plan = refl

new_plan-Apart_example :
    (2 ≤ length made.targets)
    × (length made.targets ≤ 8)
    × Apart (λ c. c.outcomes_path) made.targets
new_plan-Apart_example = new_plan-Apart two_targets made made_by_new_plan
