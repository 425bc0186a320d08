-- ===== src/LoadProfile/Examples.antt =====
-- Runs of the load profiles, and the theorems at them.
use percona_load_generator_m.Prelude.{
  ◌≡◌, refl, none, some, List, [], ◌∷◌, ok, arith, ◌&&◌, if◌then◌else◌,
}
use percona_load_generator_m.Prelude.Int.{ℤ, pos, ◌≤ℤ◌, leb_ℤ, ltb_ℤ, ◌+ℤ◌, int64}
use percona_load_generator_m.Prelude.Keys.{◌=?◌}
use percona_load_generator_m.Prelude.Text.{codes, text_eq, text_eq_instance}
use percona_load_generator_m.LoadProfile.{
  Config, Runtime, Schedule, Boundary, fixed, step, spike, target_at, workers_at, last_workers,
  compile, compile_fixed, compile_step, step_schedule, compile_spike, step_loop,
  parse_positive_duration, parse_non_negative_duration, normalized_kind,
}
use percona_load_generator_m.LoadProfile.Bounds.{compile_bounds}
use percona_load_generator_m.LoadProfile.Stages.{plan, total, stage_of, step_follows_plan}
use percona_load_generator_m.LoadProfile.Spike.{spike_window}

abbrev runtime : Runtime
runtime = record {
  parse_duration = λ s.
      if s =? codes "10s"
      then some (pos 10000000000)
      else if s =? codes "30s"
      then some (pos 30000000000)
      else none;
  ramp_value = λ a b t over. a;
  sine_value = λ a b t per. a;
}

abbrev blank : Config
blank = record {
  kind = "";
  workers = pos 0;
  start_workers = pos 0;
  end_workers = pos 0;
  ramp_over = "";
  steps = [];
  base_workers = pos 0;
  peak_workers = pos 0;
  spike_at = "";
  spike_for = "";
  min_workers = pos 0;
  max_workers = pos 0;
  period = "";
}

abbrev two_stages : Config
two_stages = record blank {
  kind = " Step";
  steps =
      record { workers = pos 2; duration = "10s" }
      ∷ record { workers = pos 8; duration = " 30s" }
      ∷ record { workers = pos 4; duration = "30s" }
      ∷ [];
}

abbrev spiking : Config
spiking = record blank {
  kind = "spike";
  base_workers = pos 1;
  peak_workers = pos 9;
  spike_at = "10s";
  spike_for = "30s";
}

compile-default :
    compile runtime blank (pos 4)
    ≡ ok (record { kind = some fixed; peak = pos 4; target_fn = some (λ _. pos 4) })
unfolding compile compile_fixed normalized_kind
compile-default = refl

abbrev stepped : Schedule
stepped = record {
  kind = some step;
  peak = pos 8;
  target_fn = some (workers_at ends (last_workers ends));
}
  where
    ends : List Boundary
    ends =
        record { until = pos 10000000000; workers = pos 2 }
        ∷ record { until = pos 40000000000; workers = pos 8 }
        ∷ record { until = pos 70000000000; workers = pos 4 }
        ∷ []

compile-two_stages : compile runtime two_stages (pos 1) ≡ ok stepped
unfolding compile compile_step step_loop step_schedule parse_positive_duration normalized_kind int64
    ◌+ℤ◌
compile-two_stages = refl

compile_bounds_example :
    (pos 1 ≤ℤ pos 8)
    × ((elapsed : ℤ) → (pos 0 ≤ℤ target_at stepped elapsed) × (target_at stepped elapsed ≤ℤ pos 8))
compile_bounds_example = compile_bounds runtime two_stages (pos 1) stepped compile-two_stages

step_follows_plan_example : target_at stepped (pos 15000000000) ≡ pos 8
unfolding plan total stage_of normalized_kind text_eq
step_follows_plan_example =
    step_follows_plan runtime two_stages (pos 1) stepped 15000000000 refl (omega arith)
      compile-two_stages

abbrev spiked : Schedule
spiked = record {
  kind = some spike;
  peak = pos 9;
  target_fn = some (λ elapsed.
      if leb_ℤ (pos 10000000000) elapsed && ltb_ℤ elapsed (pos 40000000000) then pos 9 else pos 1);
}

compile-spiking : compile runtime spiking (pos 1) ≡ ok spiked
unfolding compile compile_spike parse_positive_duration parse_non_negative_duration normalized_kind
    int64 ◌+ℤ◌
compile-spiking = refl

spike_window_example : target_at spiked (pos 39999999999) ≡ pos 9
unfolding parse_positive_duration parse_non_negative_duration normalized_kind text_eq
spike_window_example =
    spike_window runtime spiking 10000000000 30000000000 (pos 1) spiked 39999999999 refl refl refl
      (omega arith) compile-spiking
