-- ===== src/Sweep/Examples.antt =====
-- Worker lists, and a sweep over a few levels.
use percona_load_generator_m.Prelude.{◌≤◌, ◌≡◌, refl, true, false, none, List, [], ◌∷◌, length, All}
use percona_load_generator_m.Prelude.Int.{ℤ, pos}
use percona_load_generator_m.Prelude.Keys.{contains}
use percona_load_generator_m.Sweep.{
  parse_sweep_workers, LevelEnv, SweepRun, running, level_runs, run_sweep,
}
use percona_load_generator_m.Sweep.Workers.{Distinct, IsWorkerCount, parse_sweep_workers_lem}
use percona_load_generator_m.Sweep.Levels.{Followed, run_sweep-Followed}

abbrev counts : List ℤ
counts = pos 4 ∷ pos 8 ∷ pos 16 ∷ []

parse_sweep_workers_lem_example :
    Distinct counts × All IsWorkerCount counts × (2 ≤ length counts) × (length counts ≤ 8)
unfolding parse_sweep_workers contains
parse_sweep_workers_lem_example = parse_sweep_workers_lem "4, 8;16" counts refl

abbrev good : LevelEnv
good = record {
  stopped_in_pause = false;
  cancelled_before = false;
  form_error = none;
  start_error = none;
  dashboard = "run-1";
  cancelled_after = false;
  phase_failed = false;
  last_error = "";
  lifecycle_message = "";
}

abbrev levels : List (ℤ × LevelEnv)
levels = (pos 4, good) ∷ (pos 8, record good { cancelled_after = true }) ∷ (pos 16, good) ∷ []

abbrev sweep : SweepRun
sweep = record {
  id = "sweep-1";
  label = "Sweep";
  workers = counts;
  level = 1;
  state = running;
  message = level_runs 1 3 (pos 4);
  pause = pos 0;
  last_dash = "";
}

run_sweep-Followed_example :
    Followed 0 (pos 0) levels (run_sweep 3 0 levels sweep).0.state (run_sweep 3 0 levels sweep).1
run_sweep-Followed_example = run_sweep-Followed 3 0 levels sweep

second_level_is_last : (run_sweep 3 0 levels sweep).1 ≡ pos 4 ∷ pos 8 ∷ []
unfolding run_sweep
second_level_is_last = refl
