-- ===== src/WorkloadTargets/Examples.antt =====
-- Settings with two targets.
use percona_load_generator_m.Prelude.{◌≡◌, ◌≢◌, refl, true, false, [], ◌∷◌, ok, arith, List}
use percona_load_generator_m.Prelude.Text.{Text, codes, is_space}
use percona_load_generator_m.Prelude.Keys.{contains}
use percona_load_generator_m.OperationMode.{AppConfig, data_fingerprint_mode}
use percona_load_generator_m.WorkloadTargets.{validate_workload_targets, target_path}
use percona_load_generator_m.WorkloadTargets.Accepted.{
  CanRun, Apart, validate_workload_targets-CanRun,
}
use percona_load_generator_m.WorkloadTargets.Paths.{outcome_path, CanRun-outcome_path}
use percona_load_generator_m.WorkloadTargets.Parsed.{
  parse_replay_targets, print_targets, parse_replay_targets-print_targets,
}

abbrev pub two_targets : AppConfig
two_targets = record {
  default_workload = false;
  record_enabled = false;
  replay_enabled = true;
  raw_enabled = false;
  deterministic = false;
  replay_targets = (" M7", "mongodb://host7/?tls=true") ∷ ("m8", "mongodb+srv://host8") ∷ [];
  replay_targets_mode = "Concurrent";
  replay_ops = "";
  data_fingerprint = "counts";
  replay_outcomes_path = "out/run.ndjson";
  deterministic_outcomes_path = "";
  record_outcomes = true;
  record_result_checksums = false;
}

two_targets_accepted : validate_workload_targets two_targets ≡ ok tt
unfolding validate_workload_targets data_fingerprint_mode contains
two_targets_accepted = refl

two_targets_listed : two_targets.replay_targets ≢ []
two_targets_listed h = cc

validate_workload_targets-CanRun_example : CanRun two_targets
validate_workload_targets-CanRun_example =
    validate_workload_targets-CanRun two_targets two_targets_listed two_targets_accepted

CanRun-outcome_path_example : Apart (outcome_path two_targets) two_targets.replay_targets
CanRun-outcome_path_example =
    CanRun-outcome_path two_targets
      (validate_workload_targets-CanRun two_targets two_targets_listed two_targets_accepted)

target_path_runs : target_path (codes "out.d/run.ndjson") (codes "m8") ≡ codes "out.d/run.m8.ndjson"
unfolding target_path
target_path_runs = refl

abbrev two_entries : List (Text × Text)
two_entries = (codes "m7", codes "mongodb://a/?x=1&y=2") ∷ (codes "", codes "b") ∷ []

parse_replay_targets-print_targets_example :
    parse_replay_targets (print_targets two_entries) ≡ two_entries
unfolding is_space
parse_replay_targets-print_targets_example =
    parse_replay_targets-print_targets two_entries (ground arith)
