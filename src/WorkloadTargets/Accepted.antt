-- ===== src/WorkloadTargets/Accepted.antt =====
-- What holds of the settings of a multi-target run that pass the checks.
use percona_load_generator_m.Prelude.{
  ℕ, ◌+◌, ◌≤◌, ◌≡◌, ◌≢◌, refl, sym, String, Bool, true, false, not, ◌&&◌, ◌||◌, List, [], ◌∷◌, All,
  All-imp, Result, ok, refuse, refuse_ok, bind_ok, arith, length, ltb, ◌==◌, Bool-cases, inl, inr,
  if◌then◌else◌,
}
use percona_load_generator_m.Prelude.Keys.{◌=?◌, contains}
use percona_load_generator_m.Prelude.Text.{
  Text, codes, text_eq_iff, text_eq_instance, trim_space, to_lower, is_blank,
}
use percona_load_generator_m.OperationMode.{AppConfig}
use percona_load_generator_m.WorkloadTargets.{
  Error, bad_number_of_targets, is_label, is_mongodb_uri, has_line_break, check_mode, check_ops,
  check_fingerprint, check_targets, check_outcomes, check_some_targets, validate_workload_targets,
  min_replay_targets, max_replay_targets,
}

-- A target's label and URI without the spaces around them, and the label in lower case.
abbrev pub label_of : String × String → Text
label_of t = trim_space (codes t.0)

abbrev pub uri_of : String × String → Text
uri_of t = trim_space (codes t.1)

abbrev pub label_key : String × String → Text
label_key t = to_lower (label_of t)

-- No two elements have the same key.
abbrev pub Apart {ℓ} : {A : Type ℓ} → (A → Text) → List A → Type ℓ
Apart key [] = Unit
Apart key (t ∷ ts) = All (λ u. key u ≢ key t) ts × Apart key ts

pub record IsTarget (t : String × String) : Type 0 where
  pub well_labelled : is_label (label_of t) ≡ true
  pub mongodb : is_mongodb_uri (uri_of t) ≡ true
  pub one_line : has_line_break (uri_of t) ≡ false

true_of_not : (b : Bool) → not b ≡ false → b ≡ true
true_of_not true h = refl
true_of_not false h = sym h

contains_none :
    (k j : Text) (js : List Text) → contains k (j ∷ js) ≡ false → (k ≢ j) × (contains k js ≡ false)
unfolding contains
contains_none k j js h = elim (Bool-cases (j =? k)) [
  | inl e ↦ cc
  | inr e ↦ (λ q. cc ((text_eq_iff j k).1 (sym q)), rw e at h)
]

-- A target that is checked against labels and URIs seen before.
record Fresh (labels uris : List Text) (t : String × String) : Type 0 where
  pub target : IsTarget t
  pub new_label : contains (label_key t) labels ≡ false
  pub new_uri : contains (uri_of t) uris ≡ false

check_first :
    (i : ℕ) (t : String × String) (ts : List (String × String)) (labels uris : List Text)
    → check_targets i (t ∷ ts) labels uris ≡ ok tt
    → Fresh labels uris t
      × (check_targets (i + 1) ts (label_key t ∷ labels) (uri_of t ∷ uris) ≡ ok tt)
unfolding check_targets
check_first i t ts labels uris h =
    let (l, h₁) = refuse_ok _ _ _ h in
    let (n, h₂) = refuse_ok _ _ _ h₁ in
    let (m, h₃) = refuse_ok _ _ _ h₂ in
    let (o, h₄) = refuse_ok _ _ _ h₃ in
    let (u, h₅) = refuse_ok _ _ _ h₄ in
    (
      record {
        target = record {
          well_labelled = true_of_not _ l;
          mongodb = true_of_not _ m;
          one_line = o;
        };
        new_label = n;
        new_uri = u;
      },
      h₅,
    )

check_targets-All :
    (i : ℕ) (ts : List (String × String)) (labels uris : List Text)
    → check_targets i ts labels uris ≡ ok tt
    → All (Fresh labels uris) ts × Apart label_key ts × Apart uri_of ts
check_targets-All i [] labels uris h = (tt, tt, tt)
check_targets-All i (t ∷ ts) labels uris h =
    let (f, r) = check_first i t ts labels uris h in
    let (all, apart, apart') =
      check_targets-All (i + 1) ts (label_key t ∷ labels) (uri_of t ∷ uris) r in
    (
      (
        f,
        All-imp
            (λ u p. record {
              target = p.target;
              new_label = (contains_none (label_key u) (label_key t) labels p.new_label).1;
              new_uri = (contains_none (uri_of u) (uri_of t) uris p.new_uri).1;
            })
            ts all,
      ),
      (
        All-imp (λ u p. (contains_none (label_key u) (label_key t) labels p.new_label).0) ts all,
        apart,
      ),
      (All-imp (λ u p. (contains_none (uri_of u) (uri_of t) uris p.new_uri).0) ts all, apart'),
    )

-- Settings that list targets and can run.
pub record CanRun (cfg : AppConfig) : Type 0 where
  pub some_targets : 2 ≤ length cfg.replay_targets
  pub few_targets : length cfg.replay_targets ≤ 8
  pub workload : (cfg.replay_enabled || cfg.deterministic) ≡ true
  pub no_recording : cfg.record_enabled ≡ false
  pub outcomes_on : cfg.record_outcomes ≡ true
  pub outcomes_path :
      is_blank
        (if cfg.replay_enabled then cfg.replay_outcomes_path else cfg.deterministic_outcomes_path)
      ≡ false
  pub targets : All IsTarget cfg.replay_targets
  pub labels_apart : Apart label_key cfg.replay_targets
  pub uris_apart : Apart uri_of cfg.replay_targets

either : (a b : Bool) → (not a && not b) ≡ false → (a || b) ≡ true
either true b h = refl
either false b h = true_of_not b h

neither : (a b : Bool) → (not a || b) ≡ false → (a ≡ true) × (b ≡ false)
neither true b h = (refl, h)
neither false b h = cc

not_refused : (b : Bool) (e : Error) → refuse b e ≡ ok tt → b ≡ false
not_refused true e h = cc
not_refused false e h = refl

listed :
    (ts : List (String × String)) (r : Result Error Unit)
    → ts ≢ []
    → (if length ts == 0 then ok tt else r) ≡ ok tt
    → r ≡ ok tt
listed [] r n h = absurd (n refl)
listed (t ∷ ts) r n h = ground (arith, h)

check_some-CanRun : (cfg : AppConfig) → check_some_targets cfg ≡ ok tt → CanRun cfg
unfolding check_some_targets check_outcomes
check_some-CanRun cfg h =
    let n = length cfg.replay_targets in
    let (number, h₁) =
      refuse_ok (ltb n min_replay_targets || ltb max_replay_targets n) (bad_number_of_targets n) _
        h in
    let (runs, h₂) = refuse_ok _ _ _ h₁ in
    let (no_recording, h₃) = refuse_ok _ _ _ h₂ in
    let (u, checked, h₄) = bind_ok (check_targets 0 cfg.replay_targets [] []) _ h₃ in
    let (all, labels_apart, uris_apart) = check_targets-All 0 cfg.replay_targets [] [] checked in
    let (on, path) = neither cfg.record_outcomes _ (not_refused _ _ h₄) in
    record {
      some_targets = ground (arith, number);
      few_targets = ground (arith, number);
      workload = either cfg.replay_enabled cfg.deterministic runs;
      no_recording = no_recording;
      outcomes_on = on;
      outcomes_path = path;
      targets = All-imp (λ t f. f.target) cfg.replay_targets all;
      labels_apart = labels_apart;
      uris_apart = uris_apart;
    }

-- If ValidateWorkloadTargets accepts settings that list targets: there are 2 to 8, all with a
-- well-formed label, different in more than case, and a MongoDB URI on one line, all different; there
-- is a replay or a deterministic run, no recording, and an outcome file to write.
pub validate_workload_targets-CanRun :
    (cfg : AppConfig) → cfg.replay_targets ≢ [] → validate_workload_targets cfg ≡ ok tt → CanRun cfg
unfolding validate_workload_targets
validate_workload_targets-CanRun cfg n h =
    let (u, m, h₁) = bind_ok (check_mode cfg) _ h in
    let (v, o, h₂) = bind_ok (check_ops cfg) _ h₁ in
    let (w, f, h₃) = bind_ok (check_fingerprint cfg) _ h₂ in
    check_some-CanRun cfg (listed cfg.replay_targets (check_some_targets cfg) n h₃)
