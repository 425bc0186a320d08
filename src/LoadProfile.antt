-- ===== src/LoadProfile.antt =====
-- internal/loadprofile/loadprofile.go: a Config is compiled into a Schedule, which the runner
-- samples by `target_at`. Worker counts and durations are signed, as in the source; a sum of
-- durations wraps at 64 bits. `Runtime` stands for `time.ParseDuration` and for the two float
-- formulas (the ramp and the sine), which the source rounds to an int. The summary texts are left
-- out, and an error is its kind with the values that its message prints.
pub mod Bounds
pub mod Stages
pub mod Spike
mod Examples
use percona_load_generator_m.Prelude.{
  ℕ, suc, ◌+◌, String, Bool, true, false, ◌&&◌, ◌||◌, Option, none, some, List, [], ◌∷◌, Result, ok,
  err, ◌>>=◌, ◌>>◌, refuse, if◌then◌else◌,
}
use percona_load_generator_m.Prelude.Int.{ℤ, pos, ◌+ℤ◌, int64, ltb_ℤ, leb_ℤ, eqb_ℤ, max_ℤ}
use percona_load_generator_m.Prelude.Text.{Text, codes, text_eq, trim_space, normalize, is_blank}

pub data Kind : Type 0 where
  fixed ramp step spike sine : Kind

pub record Stage : Type 0 where
  pub workers : ℤ
  pub duration : String

pub record Config : Type 0 where
  pub kind : String
  pub workers : ℤ
  pub start_workers : ℤ
  pub end_workers : ℤ
  pub ramp_over : String
  pub steps : List Stage
  pub base_workers : ℤ
  pub peak_workers : ℤ
  pub spike_at : String
  pub spike_for : String
  pub min_workers : ℤ
  pub max_workers : ℤ
  pub period : String

pub data Field : Type 0 where
  ramp_over spike_at spike_for period : Field
  step_duration : ℕ → Field

pub data Error : Type 0 where
  unknown_kind : String → Error
  fixed_without_workers : ℤ → Error
  ramp_negative sine_negative spike_negative sine_min_above_max : ℤ → ℤ → Error
  ramp_all_zero step_empty step_all_zero : Error
  step_negative : ℕ → ℤ → Error
  spike_without_peak sine_without_max : ℤ → Error
  duration_required : Field → Error
  duration_invalid : Field → Text → Error
  duration_not_positive duration_negative : Field → String → Error

-- `parse_duration` is `time.ParseDuration` in nanoseconds; `ramp_value start end elapsed over` and
-- `sine_value min max elapsed period` are the rounded float formulas.
pub record Runtime : Type 0 where
  pub parse_duration : Text → Option ℤ
  pub ramp_value : ℤ → ℤ → ℤ → ℤ → ℤ
  pub sine_value : ℤ → ℤ → ℤ → ℤ → ℤ

-- `target_fn` is `none` for the nil function of a zero Schedule.
pub record Schedule : Type 0 where
  pub kind : Option Kind
  pub peak : ℤ
  pub target_fn : Option (ℤ → ℤ)

abbrev pub Compiled : Type 0 → Type 0
Compiled A = Result Error A

unfoldable pub normalized_kind : Config → Text
unfolding text_eq normalize
normalized_kind c = let k = normalize c.kind in if text_eq k [] then codes "fixed" else k

unfoldable pub schedule_kind : Schedule → Kind
schedule_kind s = elim s.kind [ none ↦ fixed | some k ↦ k ]

unfoldable pub is_zero : Schedule → Bool
is_zero s = elim s.target_fn [ none ↦ eqb_ℤ s.peak (pos 0) | some f ↦ false ]

-- The clamp of `TargetAt`, to [0, peak].
unfoldable pub clamp : ℤ → ℤ → ℤ
clamp peak t = let t' = if ltb_ℤ t (pos 0) then pos 0 else t in if ltb_ℤ peak t' then peak else t'

unfoldable pub target_at : Schedule → ℤ → ℤ
unfolding clamp
target_at s elapsed = elim s.target_fn [
  | none ↦ s.peak
  | some f ↦ clamp s.peak (f (if ltb_ℤ elapsed (pos 0) then pos 0 else elapsed))
]

module _ (rt : Runtime) where
  unfoldable pub parse_duration_field : Field → String → Compiled ℤ
  unfolding text_eq trim_space
  parse_duration_field field raw =
      let trimmed = trim_space (codes raw) in
      if text_eq trimmed []
      then err (duration_required field)
      else elim (rt.parse_duration trimmed) [
        | none ↦ err (duration_invalid field trimmed)
        | some d ↦ ok d
      ]

  unfoldable pub parse_positive_duration : Field → String → Compiled ℤ
  unfolding parse_duration_field
  parse_positive_duration field raw = do
    d ← parse_duration_field field raw
    refuse (leb_ℤ d (pos 0)) (duration_not_positive field raw)
    ok d

  unfoldable pub parse_non_negative_duration : Field → String → Compiled ℤ
  unfolding parse_duration_field is_blank
  parse_non_negative_duration field raw = if is_blank raw then ok (pos 0) else do
    d ← parse_duration_field field raw
    refuse (ltb_ℤ d (pos 0)) (duration_negative field raw)
    ok d

unfoldable pub compile_fixed : Config → ℤ → Compiled Schedule
compile_fixed c fallback = do
  let w = if eqb_ℤ c.workers (pos 0) then fallback else c.workers
  refuse (ltb_ℤ w (pos 1)) (fixed_without_workers w)
  ok (record { kind = some fixed; peak = w; target_fn = some (λ _. w) })

unfoldable pub compile_ramp : Runtime → Config → Compiled Schedule
compile_ramp rt c = do
  refuse (ltb_ℤ c.start_workers (pos 0) || ltb_ℤ c.end_workers (pos 0))
      (ramp_negative c.start_workers c.end_workers)
  refuse (eqb_ℤ c.start_workers (pos 0) && eqb_ℤ c.end_workers (pos 0)) ramp_all_zero
  over ← parse_positive_duration rt ramp_over c.ramp_over
  ok (record {
    kind = some ramp;
    peak = max_ℤ c.start_workers c.end_workers;
    target_fn = some (λ elapsed.
        if leb_ℤ over elapsed
        then c.end_workers
        else rt.ramp_value c.start_workers c.end_workers elapsed over);
  })

pub record Boundary : Type 0 where
  pub until : ℤ
  pub workers : ℤ

-- The loop of `compileStep`, from stage `i` on, with the duration so far and the peak so far.
unfoldable pub step_loop : Runtime → ℕ → ℤ → ℤ → List Stage → Compiled (List Boundary × ℤ)
step_loop rt i cumulative peak [] = ok ([], peak)
step_loop rt i cumulative peak (st ∷ steps) = do
  refuse (ltb_ℤ st.workers (pos 0)) (step_negative (i + 1) st.workers)
  d ← parse_positive_duration rt (step_duration (i + 1)) st.duration
  let until = int64 (cumulative +ℤ d)
  rest ← step_loop rt (i + 1) until (max_ℤ peak st.workers) steps
  ok (record { until = until; workers = st.workers } ∷ rest.0, rest.1)

-- `boundaries[len(boundaries)-1].workers`; there is at least one.
unfoldable pub last_workers : List Boundary → ℤ
last_workers [] = pos 0
last_workers (b ∷ []) = b.workers
last_workers (b ∷ b' ∷ bs) = last_workers (b' ∷ bs)

-- The search of the step profile's target function.
unfoldable pub workers_at : List Boundary → ℤ → ℤ → ℤ
workers_at [] last elapsed = last
workers_at (b ∷ bs) last elapsed =
    if ltb_ℤ elapsed b.until then b.workers else workers_at bs last elapsed

unfoldable pub step_schedule : List Boundary × ℤ → Compiled Schedule
step_schedule (bs, peak) = do
  refuse (ltb_ℤ peak (pos 1)) step_all_zero
  ok (record { kind = some step; peak = peak; target_fn = some (workers_at bs (last_workers bs)) })

unfoldable pub compile_step : Runtime → Config → Compiled Schedule
unfolding step_schedule
compile_step rt c = elim c.steps [
  | [] ↦ err step_empty
  | st ∷ sts ↦ step_loop rt 0 (pos 0) (pos 0) (st ∷ sts) >>= step_schedule
]

unfoldable pub compile_spike : Runtime → Config → Compiled Schedule
compile_spike rt c = do
  refuse (ltb_ℤ c.base_workers (pos 0) || ltb_ℤ c.peak_workers (pos 0))
      (spike_negative c.base_workers c.peak_workers)
  refuse (ltb_ℤ c.peak_workers (pos 1)) (spike_without_peak c.peak_workers)
  at ← parse_non_negative_duration rt spike_at c.spike_at
  dur ← parse_positive_duration rt spike_for c.spike_for
  let spike_end = int64 (at +ℤ dur)
  ok (record {
    kind = some spike;
    peak = max_ℤ c.base_workers c.peak_workers;
    target_fn = some (λ elapsed.
        if leb_ℤ at elapsed && ltb_ℤ elapsed spike_end then c.peak_workers else c.base_workers);
  })

unfoldable pub compile_sine : Runtime → Config → Compiled Schedule
compile_sine rt c = do
  refuse (ltb_ℤ c.min_workers (pos 0) || ltb_ℤ c.max_workers (pos 0))
      (sine_negative c.min_workers c.max_workers)
  refuse (ltb_ℤ c.max_workers (pos 1)) (sine_without_max c.max_workers)
  refuse (ltb_ℤ c.max_workers c.min_workers) (sine_min_above_max c.min_workers c.max_workers)
  per ← parse_positive_duration rt period c.period
  ok (record {
    kind = some sine;
    peak = c.max_workers;
    target_fn = some (λ elapsed. rt.sine_value c.min_workers c.max_workers elapsed per);
  })

unfoldable pub compile : Runtime → Config → ℤ → Compiled Schedule
unfolding text_eq
compile rt c fallback_workers =
    let fallback = if ltb_ℤ fallback_workers (pos 1) then pos 1 else fallback_workers in
    let k = normalized_kind c in
    if text_eq k (codes "fixed")
    then compile_fixed c fallback
    else if text_eq k (codes "ramp")
    then compile_ramp rt c
    else if text_eq k (codes "step")
    then compile_step rt c
    else if text_eq k (codes "spike")
    then compile_spike rt c
    else if text_eq k (codes "sine")
    then compile_sine rt c
    else err (unknown_kind c.kind)
