-- ===== src/OperationMode/Exclusive.antt =====
-- What a run has after its mode is applied.
use percona_load_generator_m.Prelude.{
  ◌≡◌, refl, String, Bool, true, false, not, ◌&&◌, [], ok, arith, sym, ◌∙◌, if_split, subst,
}
use percona_load_generator_m.Prelude.Keys.{◌=?◌}
use percona_load_generator_m.Prelude.Text.{
  Text, codes, text_eq, text_eq_iff, text_eq_instance, normalize, equal_fold,
}
use percona_load_generator_m.OperationMode.{
  AppConfig, Mode, generic, custom, record_mode, replay, raw, set_flags, clear_targets,
  clear_replay_ops, clear_fingerprint, clear_incompatible_outcomes, data_fingerprint_mode,
  apply_mode, mode_name, mode_of, apply_operation_mode, infer_dashboard_mode,
}

-- The flags that the mode of a run is read from, and the deterministic one.
abbrev SameFlags : AppConfig → AppConfig → Type 0
SameFlags a b =
    (a.raw_enabled ≡ b.raw_enabled)
    × (a.replay_enabled ≡ b.replay_enabled)
    × (a.record_enabled ≡ b.record_enabled)
    × (a.default_workload ≡ b.default_workload)
    × (a.deterministic ≡ b.deterministic)

clear_targets-SameFlags : (m : Mode) (cfg : AppConfig) → SameFlags (clear_targets m cfg) cfg
unfolding clear_targets
clear_targets-SameFlags m cfg =
    if_split (λ (x : AppConfig). SameFlags x cfg) _ (λ h. (refl, refl, refl, refl, refl))
      (λ h. (refl, refl, refl, refl, refl))

clear_replay_ops-SameFlags : (cfg : AppConfig) → SameFlags (clear_replay_ops cfg) cfg
unfolding clear_replay_ops
clear_replay_ops-SameFlags cfg =
    if_split (λ (x : AppConfig). SameFlags x cfg) _ (λ h. (refl, refl, refl, refl, refl))
      (λ h. (refl, refl, refl, refl, refl))

clear_fingerprint-SameFlags : (cfg : AppConfig) → SameFlags (clear_fingerprint cfg) cfg
unfolding clear_fingerprint
clear_fingerprint-SameFlags cfg =
    if_split (λ (x : AppConfig). SameFlags x cfg) _ (λ h. (refl, refl, refl, refl, refl))
      (λ h. (refl, refl, refl, refl, refl))

infer-SameFlags :
    (a b : AppConfig) → SameFlags a b → infer_dashboard_mode a ≡ infer_dashboard_mode b
unfolding infer_dashboard_mode
infer-SameFlags a b h = rw (h.0, h.1, h.2, h.3)

infer-set_flags : (m : Mode) (cfg : AppConfig) → infer_dashboard_mode (set_flags m cfg) ≡ m
unfolding infer_dashboard_mode set_flags
infer-set_flags generic cfg = refl
infer-set_flags custom cfg = refl
infer-set_flags record_mode cfg = refl
infer-set_flags replay cfg = refl
infer-set_flags raw cfg = refl

-- The configuration before the last clear.
abbrev before : Mode → AppConfig → AppConfig
before m cfg = clear_fingerprint (clear_replay_ops (clear_targets m (set_flags m cfg)))

infer-before : (m : Mode) (cfg : AppConfig) → infer_dashboard_mode (before m cfg) ≡ m
infer-before m cfg =
    let a = set_flags m cfg in
    let b = clear_targets m a in
    let d = clear_replay_ops b in
    infer-SameFlags (clear_fingerprint d) d (clear_fingerprint-SameFlags d)
    ∙ (infer-SameFlags d b (clear_replay_ops-SameFlags b)
        ∙ (infer-SameFlags b a (clear_targets-SameFlags m a) ∙ infer-set_flags m cfg))

-- A configuration whose flags are those of the mode, without settings that it cannot use.
pub record Usable (m : Mode) (cfg : AppConfig) : Type 0 where
  pub one_mode : infer_dashboard_mode cfg ≡ m
  pub replay_outcomes : cfg.replay_enabled ≡ false → cfg.replay_outcomes_path ≡ ""
  pub deterministic_outcomes : cfg.deterministic ≡ false → cfg.deterministic_outcomes_path ≡ ""
  pub no_reads_only : cfg.replay_enabled ≡ false → equal_fold cfg.replay_ops "reads_only" ≡ false
  pub no_fingerprint :
      cfg.record_enabled ≡ false
      → cfg.replay_enabled ≡ false
      → data_fingerprint_mode cfg ≡ codes "off"
  pub no_outcomes :
      cfg.record_enabled ≡ false
      → cfg.replay_enabled ≡ false
      → cfg.deterministic ≡ false
      → (cfg.record_outcomes ≡ false) × (cfg.record_result_checksums ≡ false)

clear_replay_ops_lem :
    (cfg : AppConfig)
    → cfg.replay_enabled ≡ false
    → equal_fold (clear_replay_ops cfg).replay_ops "reads_only" ≡ false
unfolding clear_replay_ops equal_fold
clear_replay_ops_lem cfg h = rw h (
    if_split (λ (x : AppConfig). equal_fold x.replay_ops "reads_only" ≡ false)
      (equal_fold cfg.replay_ops "reads_only") (λ k. refl) (λ k. k))

last_false : (a b x : Bool) → a ≡ false → b ≡ false → (not a && not b && not x) ≡ false → x ≡ true
last_false a b x h k c = ground arith

off_lem :
    (cfg : AppConfig)
    → data_fingerprint_mode (record cfg { data_fingerprint = "off" }) ≡ codes "off"
unfolding data_fingerprint_mode text_eq
off_lem cfg = refl

clear_fingerprint_lem :
    (cfg : AppConfig)
    → cfg.record_enabled ≡ false
    → cfg.replay_enabled ≡ false
    → data_fingerprint_mode (clear_fingerprint cfg) ≡ codes "off"
unfolding clear_fingerprint
clear_fingerprint_lem cfg h k =
    if_split (λ (x : AppConfig). data_fingerprint_mode x ≡ codes "off") _ (λ c. off_lem cfg)
      (λ c.
        (text_eq_iff (data_fingerprint_mode cfg) (codes "off")).0
          (last_false cfg.record_enabled cfg.replay_enabled _ h k c))

clear_fingerprint_ops : (cfg : AppConfig) → (clear_fingerprint cfg).replay_ops ≡ cfg.replay_ops
unfolding clear_fingerprint
clear_fingerprint_ops cfg =
    if_split (λ (x : AppConfig). x.replay_ops ≡ cfg.replay_ops) _ (λ h. refl) (λ h. refl)

clear_outcomes_lem :
    (cfg : AppConfig)
    → cfg.record_enabled ≡ false
    → cfg.replay_enabled ≡ false
    → cfg.deterministic ≡ false
    → ((clear_incompatible_outcomes cfg).record_outcomes ≡ false)
      × ((clear_incompatible_outcomes cfg).record_result_checksums ≡ false)
unfolding clear_incompatible_outcomes
clear_outcomes_lem cfg h k d = rw (h, k, d) (refl, refl)

clear_incompatible_outcomes-SameFlags :
    (cfg : AppConfig) → SameFlags (clear_incompatible_outcomes cfg) cfg
unfolding clear_incompatible_outcomes
clear_incompatible_outcomes-SameFlags cfg = (refl, refl, refl, refl, refl)

clear_incompatible_outcomes_fingerprint :
    (cfg : AppConfig)
    → data_fingerprint_mode (clear_incompatible_outcomes cfg) ≡ data_fingerprint_mode cfg
unfolding clear_incompatible_outcomes data_fingerprint_mode
clear_incompatible_outcomes_fingerprint cfg = refl

apply_mode-Usable : (m : Mode) (cfg : AppConfig) → Usable m (apply_mode m cfg)
unfolding apply_mode
apply_mode-Usable m cfg =
    let b = clear_replay_ops (clear_targets m (set_flags m cfg)) in
    let f = clear_fingerprint-SameFlags b in
    let o = clear_replay_ops-SameFlags (clear_targets m (set_flags m cfg)) in
    record {
      one_mode =
          infer-SameFlags (clear_incompatible_outcomes (before m cfg)) (before m cfg)
            (clear_incompatible_outcomes-SameFlags (before m cfg))
          ∙ infer-before m cfg;
      replay_outcomes = λ h. rw h refl;
      deterministic_outcomes = λ h. rw h refl;
      no_reads_only = λ h.
          rw (clear_fingerprint_ops b)
            (clear_replay_ops_lem (clear_targets m (set_flags m cfg)) (sym o.1 ∙ (sym f.1 ∙ h)));
      no_fingerprint = λ h k.
          clear_incompatible_outcomes_fingerprint (before m cfg)
          ∙ clear_fingerprint_lem b (sym f.2 ∙ h) (sym f.1 ∙ k);
      no_outcomes = λ h k d. clear_outcomes_lem (before m cfg) h k d;
    }

mode_of_lem : (t : Text) (m : Mode) → mode_of t ≡ ok m → t ≡ codes (mode_name m)
unfolding mode_of mode_name
mode_of_lem t generic e = ground (arith, text_eq_iff t (codes "generic"))
mode_of_lem t custom e = ground (arith, text_eq_iff t (codes "custom"))
mode_of_lem t record_mode e = ground (arith, text_eq_iff t (codes "record"))
mode_of_lem t replay e = ground (arith, text_eq_iff t (codes "replay"))
mode_of_lem t raw e = ground (arith, text_eq_iff t (codes "raw"))

apply_operation_mode_ok :
    (cfg cfg' : AppConfig) (mode : String)
    → (normalize mode =? []) ≡ false
    → apply_operation_mode cfg mode ≡ ok cfg'
    → (m : Mode) × (mode_of (normalize mode) ≡ ok m) × (apply_mode m cfg ≡ cfg')
unfolding apply_operation_mode
apply_operation_mode_ok cfg cfg' mode h e = ground arith

-- After `applyOperationMode` accepts a mode that is not blank, the mode is one of the five names, and
-- the configuration is one that `inferDashboardMode` reads as that mode, without an outcome path that
-- the run cannot write, without reads_only outside a replay, without a data fingerprint outside
-- record and replay, and without outcome flags where nothing writes outcomes.
pub apply_operation_mode-Usable :
    (cfg cfg' : AppConfig) (mode : String)
    → (normalize mode =? []) ≡ false
    → apply_operation_mode cfg mode ≡ ok cfg'
    → (m : Mode) × (normalize mode ≡ codes (mode_name m)) × Usable m cfg'
apply_operation_mode-Usable cfg cfg' mode h e =
    let (m, p, q) = apply_operation_mode_ok cfg cfg' mode h e in
    (m, mode_of_lem (normalize mode) m p, subst (Usable m) q (apply_mode-Usable m cfg))
