-- ===== src/WorkloadTargets.antt =====
-- internal/config/workload_targets.go: the instances of a multi-target run, and the checks of their
-- settings. An error is named by what it says. Cloning definitions has no effect on values and is
-- left out.
use percona_load_generator_m.Prelude.{
  ℕ, suc, ◌+◌, String, Bool, true, false, not, ◌&&◌, ◌||◌, List, [], ◌∷◌, ◌++◌, Result, ok, err,
  ◌>>=◌, ◌>>◌, refuse, ltb, leb, ◌==◌, length, if◌then◌else◌,
}
use percona_load_generator_m.Prelude.Keys.{◌=?◌, contains}
use percona_load_generator_m.Prelude.Text.{
  Text, codes, text_eq, text_eq_instance, trim_space, to_lower, normalize, equal_fold, is_blank,
}
use percona_load_generator_m.OperationMode.{AppConfig, data_fingerprint_mode}
pub mod Accepted
pub mod Paths
pub mod Parsed
pub mod Examples

abbrev pub min_replay_targets : ℕ
min_replay_targets = 2

abbrev pub max_replay_targets : ℕ
max_replay_targets = 8

unfoldable pub is_alphanumeric : ℕ → Bool
is_alphanumeric c =
    (leb b'A' c && leb c b'Z') || (leb b'a' c && leb c b'z') || (leb b'0' c && leb c b'9')

unfoldable pub is_label_rest : Text → Bool
unfolding is_alphanumeric
is_label_rest [] = true
is_label_rest (c ∷ cs) =
    (is_alphanumeric c || (c == b'.') || (c == b'_') || (c == b'-')) && is_label_rest cs

-- `replayTargetLabelPattern`
unfoldable pub is_label : Text → Bool
unfolding is_alphanumeric is_label_rest
is_label [] = false
is_label (c ∷ cs) = is_alphanumeric c && is_label_rest cs && leb (length cs) 31

-- `strings.HasPrefix`
unfoldable pub has_prefix : Text → Text → Bool
has_prefix s [] = true
has_prefix [] (d ∷ t) = false
has_prefix (c ∷ s) (d ∷ t) = (c == d) && has_prefix s t

unfoldable pub has_line_break : Text → Bool
has_line_break [] = false
has_line_break (c ∷ cs) = (c == 0) || (c == 13) || (c == 10) || has_line_break cs

unfoldable pub is_mongodb_uri : Text → Bool
unfolding has_prefix
is_mongodb_uri uri = has_prefix uri (codes "mongodb://") || has_prefix uri (codes "mongodb+srv://")

pub data Error : Type 0 where
  bad_mode bad_ops reads_only_without_replay : Error
  bad_fingerprint fingerprint_without_file : Error
  bad_number_of_targets : ℕ → Error
  nothing_to_run targets_with_recording no_outcome_path : Error
  bad_label : ℕ → Text → Error
  label_used_twice uri_without_scheme uri_not_valid uri_listed_twice : Text → Error

unfoldable pub check_mode : AppConfig → Result Error Unit
unfolding normalize
check_mode cfg =
    let m = normalize cfg.replay_targets_mode in
    refuse (not ((m =? []) || (m =? codes "sequential") || (m =? codes "concurrent"))) bad_mode

unfoldable pub check_ops : AppConfig → Result Error Unit
unfolding normalize
check_ops cfg =
    let m = normalize cfg.replay_ops in
    if (m =? []) || (m =? codes "all")
    then ok tt
    else if m =? codes "reads_only"
    then refuse (not cfg.replay_enabled) reads_only_without_replay
    else err bad_ops

unfoldable pub check_fingerprint : AppConfig → Result Error Unit
unfolding data_fingerprint_mode
check_fingerprint cfg =
    let m = data_fingerprint_mode cfg in
    if m =? codes "off"
    then ok tt
    else if (m =? codes "counts") || (m =? codes "dbhash")
    then refuse (not cfg.record_enabled && not cfg.replay_enabled) fingerprint_without_file
    else err bad_fingerprint

-- The loop over the targets, with the labels in lower case and the URIs before the `i`th.
unfoldable pub check_targets :
    ℕ → List (String × String) → List Text → List Text → Result Error Unit
unfolding trim_space to_lower is_label is_mongodb_uri has_line_break
check_targets i [] labels uris = ok tt
check_targets i (t ∷ ts) labels uris = do
  let label = trim_space (codes t.0)
  let uri = trim_space (codes t.1)
  refuse (not (is_label label)) (bad_label (i + 1) label)
  refuse (contains (to_lower label) labels) (label_used_twice label)
  refuse (not (is_mongodb_uri uri)) (uri_without_scheme label)
  refuse (has_line_break uri) (uri_not_valid label)
  refuse (contains uri uris) (uri_listed_twice label)
  check_targets (i + 1) ts (to_lower label ∷ labels) (uri ∷ uris)

unfoldable pub check_outcomes : AppConfig → Result Error Unit
unfolding is_blank
check_outcomes cfg =
    let path =
      if cfg.replay_enabled then cfg.replay_outcomes_path else cfg.deterministic_outcomes_path in
    refuse (not cfg.record_outcomes || is_blank path) no_outcome_path

-- `ValidateWorkloadTargets`, first what is checked of any targets.
unfoldable pub check_some_targets : AppConfig → Result Error Unit
unfolding check_targets check_outcomes
check_some_targets cfg = do
  let n = length cfg.replay_targets
  refuse (ltb n min_replay_targets || ltb max_replay_targets n) (bad_number_of_targets n)
  refuse (not cfg.replay_enabled && not cfg.deterministic) nothing_to_run
  refuse cfg.record_enabled targets_with_recording
  check_targets 0 cfg.replay_targets [] []
  check_outcomes cfg

unfoldable pub validate_workload_targets : AppConfig → Result Error Unit
unfolding check_mode check_ops check_fingerprint check_some_targets
validate_workload_targets cfg = do
  check_mode cfg
  check_ops cfg
  check_fingerprint cfg
  if length cfg.replay_targets == 0 then ok tt else check_some_targets cfg

-- `filepath.Ext`: the last dot after the last slash, and what follows it; `found` is the text from
-- the last dot seen.
unfoldable pub ext_from : Text → Text → Text
ext_from found [] = found
ext_from found (c ∷ cs) =
    ext_from (if c == b'/' then [] else if c == b'.' then c ∷ cs else found) cs

unfoldable pub ext : Text → Text
unfolding ext_from
ext path = ext_from [] path

-- `strings.TrimSuffix` of the extension, which is a suffix.
unfoldable pub stem_of : ℕ → Text → Text
stem_of n [] = []
stem_of n (c ∷ cs) = let rest = stem_of n cs in if leb (suc (length cs)) n then [] else c ∷ rest

unfoldable pub target_path : Text → Text → Text
unfolding ext stem_of
target_path [] label = []
target_path (c ∷ cs) label =
    let e = ext (c ∷ cs) in stem_of (length e) (c ∷ cs) ++ b'.' ∷ label ++ e

-- `ConcurrentTargets`
unfoldable pub concurrent_targets : AppConfig → Bool
unfolding equal_fold
concurrent_targets cfg = equal_fold cfg.replay_targets_mode "concurrent"
