-- ===== src/MultiTarget/NewPlan.antt =====
-- internal/multitarget/multitarget.go: `NewPlan`. Of a target's configuration, its instance and its
-- outcome file are modelled.
use percona_load_generator_m.Prelude.{
  ℕ, suc, ◌+◌, ◌≤◌, ◌≡◌, ◌≢◌, refl, ap, subst, String, Bool, not, List, [], ◌∷◌, All, Result, ok,
  err, ◌>>◌, refuse, refuse_ok, arith, length, ◌==◌, if◌then◌else◌,
}
use percona_load_generator_m.Prelude.Text.{Text, codes}
use percona_load_generator_m.OperationMode.{AppConfig}
use percona_load_generator_m.WorkloadTargets.{
  validate_workload_targets, target_path, concurrent_targets,
}
use percona_load_generator_m.WorkloadTargets.Accepted.{Apart, validate_workload_targets-CanRun}
use percona_load_generator_m.WorkloadTargets.Paths.{outcome_path, CanRun-outcome_path}
use percona_load_generator_m.WorkloadTargets as Targets

pub data PlanError : Type 0 where
  invalid : Targets.Error → PlanError
  no_replay_targets : PlanError

pub record TargetConfig : Type 0 where
  pub index : ℕ
  pub label : String
  pub uri : String
  pub outcomes_path : Text

pub record NewPlan : Type 0 where
  pub deterministic : Bool
  pub concurrent : Bool
  pub targets : List TargetConfig

-- The loop over the targets, the first of which has the number `i + 1`.
unfoldable pub configs : AppConfig → ℕ → List (String × String) → List TargetConfig
configs cfg i [] = []
configs cfg i (t ∷ ts) =
    record {
      index = i + 1;
      label = t.0;
      uri = t.1;
      outcomes_path =
          target_path
            (codes (
              if cfg.replay_enabled
              then cfg.replay_outcomes_path
              else cfg.deterministic_outcomes_path))
            (codes t.0);
    }
    ∷ configs cfg (i + 1) ts

abbrev pub as_invalid : Result Targets.Error Unit → Result PlanError Unit
as_invalid (ok u) = ok u
as_invalid (err e) = err (invalid e)

unfoldable pub new_plan : AppConfig → Result PlanError NewPlan
new_plan cfg = do
  as_invalid (validate_workload_targets cfg)
  refuse (length cfg.replay_targets == 0) no_replay_targets
  ok (record {
    deterministic = not cfg.replay_enabled;
    concurrent = concurrent_targets cfg;
    targets = configs cfg 0 cfg.replay_targets;
  })

length-configs :
    (cfg : AppConfig) (i : ℕ) (ts : List (String × String)) → length (configs cfg i ts) ≡ length ts
unfolding configs
length-configs cfg i [] = refl
length-configs cfg i (t ∷ ts) = ap suc (length-configs cfg (i + 1) ts)

configs-All :
    (cfg : AppConfig) (i : ℕ) (path : Text) (ts : List (String × String))
    → All (λ t. outcome_path cfg t ≢ path) ts
    → All (λ c. c.outcomes_path ≢ path) (configs cfg i ts)
unfolding configs
configs-All cfg i path [] h = tt
configs-All cfg i path (t ∷ ts) h = (h.0, configs-All cfg (i + 1) path ts h.1)

configs-Apart :
    (cfg : AppConfig) (i : ℕ) (ts : List (String × String))
    → Apart (outcome_path cfg) ts
    → Apart (λ c. c.outcomes_path) (configs cfg i ts)
unfolding configs
configs-Apart cfg i [] h = tt
configs-Apart cfg i (t ∷ ts) h =
    (configs-All cfg (i + 1) (outcome_path cfg t) ts h.0, configs-Apart cfg (i + 1) ts h.1)

valid :
    (r : Result Targets.Error Unit) (k : Result PlanError NewPlan) {p : NewPlan}
    → (as_invalid r >> k) ≡ ok p
    → (r ≡ ok tt) × (k ≡ ok p)
valid (ok u) k h = (refl, h)
valid (err e) k h = cc

targets_of : Result PlanError NewPlan → List TargetConfig
targets_of (ok p) = p.targets
targets_of (err e) = []

-- A plan that NewPlan makes has 2 to 8 targets, each with an outcome file of its own.
pub new_plan-Apart :
    (cfg : AppConfig) (p : NewPlan)
    → new_plan cfg ≡ ok p
    → (2 ≤ length p.targets) × (length p.targets ≤ 8) × Apart (λ c. c.outcomes_path) p.targets
unfolding new_plan targets_of
new_plan-Apart cfg p h =
    let (v, h₁) = valid (validate_workload_targets cfg) _ h in
    let (n, h₂) = refuse_ok (length cfg.replay_targets == 0) no_replay_targets _ h₁ in
    let some_listed : cfg.replay_targets ≢ [] = λ e. cc (ap (λ ts. length ts == 0) e, n) in
    let c = validate_workload_targets-CanRun cfg some_listed v in
    let l = length-configs cfg 0 cfg.replay_targets in
    let e : configs cfg 0 cfg.replay_targets ≡ p.targets = ap targets_of h₂ in
    subst (λ ts. (2 ≤ length ts) × (length ts ≤ 8) × Apart (λ c. c.outcomes_path) ts) e
      (
        omega (arith, l, c.some_targets),
        omega (arith, l, c.few_targets),
        configs-Apart cfg 0 cfg.replay_targets (CanRun-outcome_path cfg c),
      )
