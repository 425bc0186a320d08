-- ===== src/Sweep.antt =====
-- internal/webui/sweep.go: the worker counts of a concurrency sweep, and how its levels follow each
-- other. Messages are named by what they say. The start form, the HTTP writers and the labels are
-- left out. What a level's run and the user do is a `LevelEnv`.
use percona_load_generator_m.Prelude.{
  ℕ, ◌+◌, ◌-◌, ◌*◌, String, Bool, true, false, ◌&&◌, ◌||◌, Option, none, some, List, [], ◌∷◌, ◌++◌,
  Result, ok, err, ◌>>=◌, ◌>>◌, refuse, ltb, leb, ◌==◌, length, get_elem?, if◌then◌else◌,
}
use percona_load_generator_m.Prelude.Int.{ℤ, pos, negsuc, sub_ℕ, ltb_ℤ}
use percona_load_generator_m.Prelude.Keys.{◌=?◌, contains, int_eq, string_eq}
use percona_load_generator_m.Prelude.Text.{Text, codes}
use percona_load_generator_m.Prelude.Fields.{fields_func}
pub mod Workers
pub mod Levels
mod Examples

abbrev pub sweep_min_levels : ℕ
sweep_min_levels = 2

abbrev pub sweep_max_levels : ℕ
sweep_max_levels = 8

abbrev pub sweep_max_workers : ℤ
sweep_max_workers = pos 10000

abbrev pub is_separator : ℕ → Bool
is_separator c = (c == b',') || (c == b';') || (c == 32) || (c == 9) || (c == 10)

unfoldable pub digits : ℕ → Text → Option ℕ
digits n [] = some n
digits n (c ∷ cs) =
    let rest = digits (n * 10 + (c - b'0')) cs in if leb b'0' c && leb c b'9' then rest else none

-- At least one digit.
unfoldable pub number : Text → Option ℕ
unfolding digits
number [] = none
number (c ∷ cs) = digits 0 (c ∷ cs)

abbrev pub in_range : ℕ → ℤ → Option ℕ → Option ℤ
in_range limit sign none = none
in_range limit sign (some n) =
    if ltb limit n then none else some (if ltb_ℤ sign (pos 0) then sub_ℕ 0 n else pos n)

-- `strconv.Atoi`
unfoldable pub atoi : Text → Option ℤ
unfolding number
atoi [] = none
atoi (c ∷ cs) =
    if c == b'-'
    then in_range 9223372036854775808 (negsuc 0) (number cs)
    else if c == b'+'
    then in_range 9223372036854775807 (pos 1) (number cs)
    else in_range 9223372036854775807 (pos 1) (number (c ∷ cs))

pub data SweepError : Type 0 where
  too_few too_many : SweepError
  not_a_worker_count : Text → SweepError
  listed_twice : ℤ → SweepError

-- The loop over the fields; `out` is also the set `seen`.
unfoldable pub read_counts : List Text → List ℤ → Result SweepError (List ℤ)
unfolding atoi
read_counts [] out = ok out
read_counts (f ∷ fs) out = elim (atoi f) [
  | none ↦ err (not_a_worker_count f)
  | some n ↦ (do
    refuse (ltb_ℤ n (pos 1) || ltb_ℤ sweep_max_workers n) (not_a_worker_count f)
    refuse (contains n out) (listed_twice n)
    read_counts fs (out ++ n ∷ []))
]

unfoldable pub parse_sweep_workers : String → Result SweepError (List ℤ)
unfolding fields_func read_counts
parse_sweep_workers raw = do
  let fields = fields_func is_separator (codes raw)
  refuse (ltb (length fields) sweep_min_levels) too_few
  refuse (ltb sweep_max_levels (length fields)) too_many
  read_counts fields []

pub data SweepState : Type 0 where
  running waiting done stopped failed : SweepState

pub data Message : Type 0 where
  level_runs level_next : ℕ → ℕ → ℤ → Message
  stopped_by_user : Message
  form_failed : String → Message
  did_not_start level_failed : ℕ → ℤ → String → Message
  complete : ℕ → Message

pub record SweepRun : Type 0 where
  pub id : String
  pub label : String
  pub workers : List ℤ
  pub level : ℕ
  pub state : SweepState
  pub message : Message
  pub pause : ℤ
  pub last_dash : String

abbrev pub is_active_state : SweepState → Bool
is_active_state running = true
is_active_state waiting = true
is_active_state _ = false

unfoldable pub is_active : Option SweepRun → Bool
is_active none = false
is_active (some sw) = is_active_state sw.state

pub record SweepTag : Type 0 where
  pub id : String
  pub label : String
  pub level : ℕ
  pub levels : ℕ
  pub workers : ℤ

unfoldable pub tag : Option SweepRun → Option SweepTag
tag none = none
tag (some sw) = if not_tagged then none else elim (get_elem? sw.workers (sw.level - 1)) [
  | none ↦ none
  | some w ↦ some (record {
    id = sw.id;
    label = sw.label;
    level = sw.level;
    levels = length sw.workers;
    workers = w;
  })
]
  where
    not_tagged : Bool
    not_tagged =
        (if is_active_state sw.state then false else true)
        || ltb sw.level 1
        || ltb (length sw.workers) sw.level

-- What the user and the run of a level do, in the order that `runSweep` asks.
pub record LevelEnv : Type 0 where
  pub stopped_in_pause : Bool
  pub cancelled_before : Bool
  pub form_error : Option String
  pub start_error : Option String
  pub dashboard : String
  pub cancelled_after : Bool
  pub phase_failed : Bool
  pub last_error : String
  pub lifecycle_message : String

unfoldable pub end_sweep : SweepState → Message → SweepRun → SweepRun
end_sweep s m sw = record sw { state = s; message = m }

-- The start of a level after the first: the ended sweep, or the sweep with the level running.
unfoldable pub start_level : ℕ → ℕ → ℤ → LevelEnv → SweepRun → Result SweepRun SweepRun
unfolding end_sweep
start_level total i w env sw₀ = do
  let sw : SweepRun = record sw₀ { state = waiting; message = level_next (i + 1) total w }
  refuse (ltb_ℤ (pos 0) sw.pause && env.stopped_in_pause) (end_sweep stopped stopped_by_user sw)
  refuse env.cancelled_before (end_sweep stopped stopped_by_user sw)
  let sw' : SweepRun = record sw {
    level = i + 1;
    state = running;
    message = level_runs (i + 1) total w;
  }
  elim env.form_error [
    | some e ↦ err (end_sweep failed (form_failed e) sw')
    | none ↦ elim env.start_error [
      | some body ↦ err (end_sweep failed (did_not_start (i + 1) w body) sw')
      | none ↦ ok sw'
    ]
  ]

-- After the run of a level.
unfoldable pub finish_level : ℕ → ℤ → LevelEnv → SweepRun → Result SweepRun SweepRun
unfolding end_sweep
finish_level i w env sw₀ = do
  let sw : SweepRun = record sw₀ { last_dash = env.dashboard }
  let has_error = if env.last_error =? "" then false else true
  let reason = if env.last_error =? "" then env.lifecycle_message else env.last_error
  refuse env.cancelled_after (end_sweep stopped stopped_by_user sw)
  refuse (env.phase_failed || has_error) (end_sweep failed (level_failed (i + 1) w reason) sw)
  ok sw

-- `runSweep` from level `i` on: the sweep it ends with, and the worker counts whose runs ended.
unfoldable pub run_sweep : ℕ → ℕ → List (ℤ × LevelEnv) → SweepRun → SweepRun × List ℤ
unfolding start_level finish_level end_sweep
run_sweep total i [] sw = (end_sweep done (complete total) sw, [])
run_sweep total i ((w, env) ∷ levels) sw =
    elim (if i == 0 then ok sw else start_level total i w env sw) [
      | err sw' ↦ (sw', [])
      | ok sw₁ ↦ elim (finish_level i w env sw₁) [
        | err sw' ↦ (sw', w ∷ [])
        | ok sw₂ ↦ let r = run_sweep total (i + 1) levels sw₂ in (r.0, w ∷ r.1)
      ]
    ]
