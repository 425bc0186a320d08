-- ===== src/OperationMode/Examples.antt =====
-- Modes applied to a configuration.
use percona_load_generator_m.Prelude.{◌≡◌, refl, true, false, [], ◌∷◌}
use percona_load_generator_m.Prelude.Text.{codes, normalize, text_eq}
use percona_load_generator_m.OperationMode.{
  AppConfig, Mode, mode_name, apply_operation_mode, clear_targets, clear_replay_ops,
  clear_fingerprint,
}
use percona_load_generator_m.OperationMode.Exclusive.{Usable, apply_operation_mode-Usable}

abbrev config : AppConfig
config = record {
  default_workload = true;
  record_enabled = true;
  replay_enabled = false;
  raw_enabled = true;
  deterministic = true;
  replay_targets = ("a", "mongodb://a/") ∷ [];
  replay_targets_mode = "";
  replay_ops = "reads_only";
  data_fingerprint = "counts";
  replay_outcomes_path = "";
  deterministic_outcomes_path = "out.jsonl";
  record_outcomes = true;
  record_result_checksums = false;
}

abbrev replaying : AppConfig
replaying = record config {
  record_enabled = false;
  replay_enabled = true;
  raw_enabled = false;
  deterministic = false;
  deterministic_outcomes_path = "";
}

apply_operation_mode-Usable_example :
    (m : Mode) × (normalize " Replay" ≡ codes (mode_name m)) × Usable m replaying
unfolding apply_operation_mode clear_targets clear_replay_ops clear_fingerprint normalize text_eq
apply_operation_mode-Usable_example =
    apply_operation_mode-Usable config replaying " Replay" refl refl
