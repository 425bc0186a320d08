-- ===== src/WorkloadTargets/Paths.antt =====
-- The files of the targets.
use percona_load_generator_m.Prelude.{
  ◌≡◌, ◌≢◌, refl, ap, String, false, List, [], ◌∷◌, ◌++◌, All-imp, arith, length, length-append,
  if◌then◌else◌, subst,
}
use percona_load_generator_m.Prelude.Text.{
  Text, codes, is_blank, text_eq, trim_left, to_lower, trim_space,
}
use percona_load_generator_m.OperationMode.{AppConfig}
use percona_load_generator_m.WorkloadTargets.{target_path, ext, stem_of}
use percona_load_generator_m.WorkloadTargets.Accepted.{label_key, Apart, CanRun}

append_left : (p s t : Text) → p ++ s ≡ p ++ t → s ≡ t
append_left [] s t h = h
append_left (c ∷ p) s t h = append_left p s t (cc h)

append_right : (s t e : Text) → s ++ e ≡ t ++ e → s ≡ t
append_right [] [] e h = refl
append_right [] (d ∷ t) e h = absurd (omega (arith, ap length h, length-append t e))
append_right (c ∷ s) [] e h = absurd (omega (arith, ap length h, length-append s e))
append_right (c ∷ s) (d ∷ t) e h = let q = append_right s t e (cc h) in cc

-- Targets of one path with different labels have different paths.
pub target_path_inj :
    (path s t : Text) → path ≢ [] → target_path path s ≡ target_path path t → s ≡ t
unfolding target_path
target_path_inj [] s t n h = absurd (n refl)
target_path_inj (c ∷ cs) s t n h =
    let e = ext (c ∷ cs) in
    let stem = stem_of (length e) (c ∷ cs) in
    cc (
      append_left stem (b'.' ∷ s) (b'.' ∷ t)
        (append_right (stem ++ b'.' ∷ s) (stem ++ b'.' ∷ t) e h))

-- The path that the targets' outcome files are named after.
abbrev pub base_path : AppConfig → Text
base_path cfg =
    codes (if cfg.replay_enabled then cfg.replay_outcomes_path else cfg.deterministic_outcomes_path)

abbrev pub outcome_path : AppConfig → String × String → Text
outcome_path cfg t = target_path (base_path cfg) (codes t.0)

Apart-imp :
    (key key' : String × String → Text)
    → ((t u : String × String) → key' t ≡ key' u → key t ≡ key u)
    → (ts : List (String × String)) → Apart key ts
    → Apart key' ts
Apart-imp key key' f [] h = tt
Apart-imp key key' f (t ∷ ts) h =
    (All-imp (λ u n q. n (f u t q)) ts h.0, Apart-imp key key' f ts h.1)

-- No two targets write the same outcome file.
pub CanRun-outcome_path :
    (cfg : AppConfig) → CanRun cfg → Apart (outcome_path cfg) cfg.replay_targets
unfolding is_blank trim_space trim_left text_eq
CanRun-outcome_path cfg c =
    let named : base_path cfg ≢ [] =
      λ q. cc (subst (λ p. text_eq (trim_space p) [] ≡ false) q c.outcomes_path) in
    Apart-imp label_key (outcome_path cfg)
      (λ t u q.
        ap (λ l. to_lower (trim_space l))
          (target_path_inj (base_path cfg) (codes t.0) (codes u.0) named q))
      cfg.replay_targets c.labels_apart
