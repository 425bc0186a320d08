-- ===== src/LoadProfile/Spike.antt =====
-- The spike profile of loadprofile.go: a window of the peak over the base.
use percona_load_generator_m.Prelude.{ℕ, ◌+◌, ◌<◌, ◌≡◌, ◌&&◌, ok, arith, ltb, leb, if◌then◌else◌}
use percona_load_generator_m.Prelude.Int.{ℤ, pos, ◌+ℤ◌, int64, int64_pos}
use percona_load_generator_m.Prelude.Text.{codes}
use percona_load_generator_m.LoadProfile.{
  Config, Runtime, Schedule, spike_at, spike_for, target_at, normalized_kind, compile,
  compile_spike, parse_positive_duration, parse_non_negative_duration,
}

module _ (rt : Runtime) (c : Config) (a d : ℕ) where
  spike_target :
      (s : Schedule) (t : ℕ)
      → parse_non_negative_duration rt spike_at c.spike_at ≡ ok (pos a)
      → parse_positive_duration rt spike_for c.spike_for ≡ ok (pos d)
      → int64 (pos a +ℤ pos d) ≡ pos (a + d)
      → compile_spike rt c ≡ ok s
      → target_at s (pos t) ≡ (if leb a t && ltb t (a + d) then c.peak_workers else c.base_workers)
  unfolding compile_spike target_at
  spike_target s t p q e h = ground arith

  -- A spike configuration whose window starts at `a` and lasts `d`, both parsed from it, with an end
  -- below 2^63 nanoseconds, and that compiles: at every elapsed time t the schedule asks for the
  -- peak workers if a ≤ t < a + d, and for the base workers otherwise.
  pub spike_window :
      (fallback : ℤ) (s : Schedule) (t : ℕ)
      → normalized_kind c ≡ codes "spike"
      → parse_non_negative_duration rt spike_at c.spike_at ≡ ok (pos a)
      → parse_positive_duration rt spike_for c.spike_for ≡ ok (pos d)
      → a + d < 9223372036854775808
      → compile rt c fallback ≡ ok s
      → target_at s (pos t) ≡ (if leb a t && ltb t (a + d) then c.peak_workers else c.base_workers)
  unfolding compile
  spike_window fallback s t k p q b h =
      spike_target s t p q (unfold ◌+ℤ◌ in ground (arith, int64_pos (a + d))) (rw (k, compile) at h)
