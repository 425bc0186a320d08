-- ===== src/OperationMode.antt =====
-- internal/webui/operation_mode.go: how the chosen mode of a run forces and clears settings, with
-- what it reads of internal/config/workload_targets.go. `AppConfig` has the settings read or set
-- there; a target is its label and its URI.
use percona_load_generator_m.Prelude.{
  String, Bool, true, false, not, ◌&&◌, ◌||◌, List, [], Result, ok, err, if◌then◌else◌,
}
use percona_load_generator_m.Prelude.Keys.{◌=?◌}
use percona_load_generator_m.Prelude.Text.{
  Text, codes, text_eq, text_eq_instance, normalize, equal_fold,
}
pub mod Exclusive
mod Examples

pub record AppConfig : Type 0 where
  pub default_workload : Bool
  pub record_enabled : Bool
  pub replay_enabled : Bool
  pub raw_enabled : Bool
  pub deterministic : Bool
  pub replay_targets : List (String × String)
  pub replay_targets_mode : String
  pub replay_ops : String
  pub data_fingerprint : String
  pub replay_outcomes_path : String
  pub deterministic_outcomes_path : String
  pub record_outcomes : Bool
  pub record_result_checksums : Bool

pub data Mode : Type 0 where
  generic custom record_mode replay raw : Mode

unfoldable pub mode_name : Mode → String
mode_name generic = "generic"
mode_name custom = "custom"
mode_name record_mode = "record"
mode_name replay = "replay"
mode_name raw = "raw"

pub data Error : Type 0 where
  unknown_mode : Error

-- `config.DataFingerprintMode`
unfoldable pub data_fingerprint_mode : AppConfig → Text
unfolding normalize
data_fingerprint_mode cfg =
    let m = normalize cfg.data_fingerprint in if m =? [] || m =? codes "off" then codes "off" else m

unfoldable pub clear_incompatible_outcomes : AppConfig → AppConfig
clear_incompatible_outcomes cfg =
    let keep = cfg.record_enabled || cfg.replay_enabled || cfg.deterministic in
    record cfg {
      replay_outcomes_path = if cfg.replay_enabled then cfg.replay_outcomes_path else "";
      deterministic_outcomes_path =
          if cfg.deterministic then cfg.deterministic_outcomes_path else "";
      record_outcomes = keep && cfg.record_outcomes;
      record_result_checksums = keep && cfg.record_result_checksums;
    }

-- The flags that define a mode.
unfoldable pub set_flags : Mode → AppConfig → AppConfig
set_flags generic cfg = record cfg {
  default_workload = true;
  record_enabled = false;
  replay_enabled = false;
  raw_enabled = false;
}
set_flags custom cfg = record cfg {
  default_workload = false;
  record_enabled = false;
  replay_enabled = false;
  raw_enabled = false;
}
set_flags record_mode cfg = record cfg {
  record_enabled = true;
  replay_enabled = false;
  raw_enabled = false;
}
set_flags replay cfg = record cfg {
  replay_enabled = true;
  record_enabled = false;
  deterministic = false;
  raw_enabled = false;
}
set_flags raw cfg = record cfg {
  raw_enabled = true;
  record_enabled = false;
  replay_enabled = false;
  deterministic = false;
}

abbrev pub is_replay : Mode → Bool
is_replay replay = true
is_replay _ = false

abbrev pub is_raw : Mode → Bool
is_raw raw = true
is_raw _ = false

unfoldable pub clear_targets : Mode → AppConfig → AppConfig
clear_targets m cfg =
    if (not (is_replay m) && not cfg.deterministic) || is_raw m
    then record cfg { replay_targets = [] }
    else cfg

unfoldable pub clear_replay_ops : AppConfig → AppConfig
clear_replay_ops cfg =
    if not cfg.replay_enabled && equal_fold cfg.replay_ops "reads_only"
    then record cfg { replay_ops = "all" }
    else cfg

unfoldable pub clear_fingerprint : AppConfig → AppConfig
clear_fingerprint cfg =
    if not cfg.record_enabled
      && not cfg.replay_enabled
      && not (data_fingerprint_mode cfg =? codes "off")
    then record cfg { data_fingerprint = "off" }
    else cfg

unfoldable pub apply_mode : Mode → AppConfig → AppConfig
unfolding set_flags clear_targets clear_replay_ops clear_fingerprint clear_incompatible_outcomes
apply_mode m cfg =
    clear_incompatible_outcomes
      (clear_fingerprint (clear_replay_ops (clear_targets m (set_flags m cfg))))

-- The switch on the normalized text.
unfoldable pub mode_of : Text → Result Error Mode
mode_of t =
    if t =? codes "generic"
    then ok generic
    else if t =? codes "custom"
    then ok custom
    else if t =? codes "record"
    then ok record_mode
    else if t =? codes "replay"
    then ok replay
    else if t =? codes "raw"
    then ok raw
    else err unknown_mode

unfoldable pub apply_operation_mode : AppConfig → String → Result Error AppConfig
unfolding normalize mode_of apply_mode
apply_operation_mode cfg mode =
    let t = normalize mode in
    if t =? [] then ok cfg else elim (mode_of t) [ err e ↦ err e | ok m ↦ ok (apply_mode m cfg) ]

unfoldable pub infer_dashboard_mode : AppConfig → Mode
infer_dashboard_mode cfg =
    if cfg.raw_enabled
    then raw
    else if cfg.replay_enabled
    then replay
    else if cfg.record_enabled
    then record_mode
    else if cfg.default_workload
    then generic
    else custom
