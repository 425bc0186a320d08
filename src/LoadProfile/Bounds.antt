-- ===== src/LoadProfile/Bounds.antt =====
-- Every compiled schedule of loadprofile.go asks for at least one worker at its peak, and at no
-- time for more than its peak.
use percona_load_generator_m.Prelude.{◌≡◌, List, ok, arith, if◌then◌else◌}
use percona_load_generator_m.Prelude.Int.{ℤ, pos, ltb_ℤ, ◌≤ℤ◌}
use percona_load_generator_m.LoadProfile.{
  Config, Runtime, Schedule, Boundary, clamp, target_at, compile, compile_fixed, compile_ramp,
  compile_step, compile_spike, compile_sine, step_schedule,
}

clamp_bounds : (peak t : ℤ) → pos 0 ≤ℤ peak → (pos 0 ≤ℤ clamp peak t) × (clamp peak t ≤ℤ peak)
unfolding clamp
clamp_bounds peak t h = ground arith

pub clamp_id : (peak t : ℤ) → pos 0 ≤ℤ t → t ≤ℤ peak → clamp peak t ≡ t
unfolding clamp
clamp_id peak t h k = ground arith

target_bounds :
    (s : Schedule) (t : ℤ) → pos 1 ≤ℤ s.peak → (pos 0 ≤ℤ target_at s t) × (target_at s t ≤ℤ s.peak)
unfolding target_at
target_bounds s t h = ground arith

step_schedule_peak :
    (r : List Boundary × ℤ) (s : Schedule) → step_schedule r ≡ ok s → pos 1 ≤ℤ s.peak
unfolding step_schedule
step_schedule_peak r s h = ground arith

module _ (rt : Runtime) (c : Config) where
  fixed_peak : (fb : ℤ) (s : Schedule) → compile_fixed c fb ≡ ok s → pos 1 ≤ℤ s.peak
  unfolding compile_fixed
  fixed_peak fb s h = ground arith

  ramp_peak : (s : Schedule) → compile_ramp rt c ≡ ok s → pos 1 ≤ℤ s.peak
  unfolding compile_ramp
  ramp_peak s h = ground arith

  step_peak : (s : Schedule) → compile_step rt c ≡ ok s → pos 1 ≤ℤ s.peak
  unfolding compile_step
  step_peak s h = ground arith

  spike_peak : (s : Schedule) → compile_spike rt c ≡ ok s → pos 1 ≤ℤ s.peak
  unfolding compile_spike
  spike_peak s h = ground arith

  sine_peak : (s : Schedule) → compile_sine rt c ≡ ok s → pos 1 ≤ℤ s.peak
  unfolding compile_sine
  sine_peak s h = ground arith

  compile_peak : (fb : ℤ) (s : Schedule) → compile rt c fb ≡ ok s → pos 1 ≤ℤ s.peak
  unfolding compile
  compile_peak fb s h = ground (
    arith,
    fixed_peak (if ltb_ℤ fb (pos 1) then pos 1 else fb) s,
    ramp_peak s,
    step_peak s,
    spike_peak s,
    sine_peak s,
  )

  -- A configuration that compiles, of any of the five kinds, gives a schedule whose peak is at least
  -- one worker and whose target lies in [0, peak] at every elapsed time, negative ones included,
  -- whatever the float formulas of the ramp and the sine return.
  pub compile_bounds :
      (fallback : ℤ) (s : Schedule)
      → compile rt c fallback ≡ ok s
      → (pos 1 ≤ℤ s.peak)
        × ((elapsed : ℤ) → (pos 0 ≤ℤ target_at s elapsed) × (target_at s elapsed ≤ℤ s.peak))
  compile_bounds fallback s h =
      let p = compile_peak fallback s h in (p, λ elapsed. target_bounds s elapsed p)
