-- ===== src/MultiTarget.antt =====
-- internal/multitarget/multitarget.go: one run against each of several instances. Connecting,
-- preparing and running a target (`Deps`), its collector, the context and the clock are a `TargetEnv`,
-- what they answer in the order in which they are asked. Texts are left out, but for an error's.
use percona_load_generator_m.Prelude.{
  ℕ, zero, suc, ◌+◌, ◌≡◌, String, Bool, true, false, not, ◌&&◌, Option, none, some, List, [], ◌∷◌,
  if◌then◌else◌,
}
use percona_load_generator_m.Prelude.Keys.{◌=?◌, string_eq}
pub mod Schedule
pub mod Statuses
pub mod Finished
pub mod NewPlan
pub mod Plans
pub mod Ends
pub mod Compared
mod Examples

-- An error, and whether `errors.Is` finds `context.Canceled` in it.
pub record Error : Type 0 where
  pub text : String
  pub is_canceled : Bool

abbrev pub pending : String
pending = "pending"

abbrev pub preparing : String
preparing = "preparing"

abbrev pub running : String
running = "running"

abbrev pub complete : String
complete = "complete"

abbrev pub failed : String
failed = "failed"

abbrev pub cancelled : String
cancelled = "cancelled"

abbrev pub incomplete : String
incomplete = "incomplete"

-- The times are set or not.
pub record Target : Type 0 where
  pub index : ℕ
  pub label : String
  pub status : String
  pub err : String
  pub started : Option ℕ
  pub finished : Option ℕ

unfoldable pub is_end : String → Bool
is_end s =
    if s =? complete
    then true
    else if s =? failed
    then true
    else if s =? cancelled
    then true
    else s =? incomplete

abbrev pub first_time : ℕ → Option ℕ → Option ℕ → Option ℕ
first_time now none finished = finished
first_time now (some t) none = some now
first_time now (some t) (some u) = some u

-- `setStatus`, at a time.
unfoldable pub set_status : String → String → ℕ → Target → Target
set_status status err now t =
    let t' : Target = record t { status = status; err = err } in
    if status =? running
    then record t' { started = some now }
    else if is_end status
    then record t' { finished = first_time now t.started t.finished }
    else t'

-- How the workload of a target ends: with an error, a panic, or what its collector then reports, and
-- whether the context is cancelled.
pub data RunEnd : Type 0 where
  run_error : Error → RunEnd
  run_panic : String → RunEnd
  run_returns : Option String → Option String → Bool → RunEnd

pub record TargetEnv : Type 0 where
  pub done_before : Option Error
  pub connect : Option Error
  pub prepare : Option Error
  pub run : RunEnd
  pub failed_at : ℕ
  pub running_at : ℕ
  pub ended_at : ℕ

-- The program counter of the code that works on a target: before `prepare`, between it and `run`,
-- between the two calls of setStatus in `run`, and after it.
pub data Phase : Type 0 where
  waiting ready working over : Phase

-- A target with the clients opened for it and the calls that close them.
pub record Job : Type 0 where
  pub target : Target
  pub phase : Phase
  pub opened : ℕ
  pub closed : ℕ

unfoldable pub fail : Error → ℕ → Target → Target
fail e now t = set_status (if e.is_canceled then cancelled else failed) e.text now t

abbrev pub close : Job → Job
close j = record j { closed = j.closed + 1 }

-- `fmt.Errorf("connect: %w", err)`; the text in front is given.
abbrev pub wrap : (String → String) → Error → Error
wrap connecting e = record e { text = connecting e.text }

abbrev pub give_up : Error → ℕ → Job → Job
give_up e now j = record j { target = fail e now j.target; phase = over }

-- `prepare`, first over what is answered.
abbrev pub prepare_by :
    Option Error → Option Error → Option Error → (String → String) → ℕ → Job → Job
prepare_by (some e) connect prep connecting now j = give_up e now j
prepare_by none (some e) prep connecting now j =
    give_up (wrap connecting e) now (record j { target = set_status preparing "" now j.target })
prepare_by none none (some e) connecting now j =
    give_up e now
      (close (record j { target = set_status preparing "" now j.target; opened = j.opened + 1 }))
prepare_by none none none connecting now j = record j {
  target = set_status preparing "" now j.target;
  opened = j.opened + 1;
  phase = ready;
}

unfoldable pub prepare : (String → String) → TargetEnv → Job → Job
prepare connecting env j =
    prepare_by env.done_before env.connect env.prepare connecting env.failed_at j

-- The beginning of `run`.
unfoldable pub begin : TargetEnv → Job → Job
begin env j = record j { target = set_status running "" env.running_at j.target; phase = working }

-- The status of a run without an error: of what the replay reports, of that and what the traffic
-- generator reports, and of these and the context.
abbrev pub replay_status : Option String → String
replay_status none = complete
replay_status (some s) = if s =? complete then complete else s

abbrev pub traffic_status : Option String → String → String
traffic_status none status = status
traffic_status (some s) status = if s =? complete then status else incomplete

unfoldable pub end_status : Option String → Option String → Bool → String
end_status replay traffic is_done =
    let s = traffic_status traffic (replay_status replay) in
    if is_done && s =? complete then cancelled else s

-- The end of `run`, with its deferred close. A panic is recovered by the goroutine of a concurrent
-- run, which closes the client again.
abbrev pub end_run : RunEnd → ℕ → (String → String) → Job → Job
end_run (run_error e) now panicked j = give_up e now (close j)
end_run (run_panic text) now panicked j =
    give_up (record { text = panicked text; is_canceled = false }) now (close (close j))
end_run (run_returns replay traffic is_done) now panicked j =
    let j' = close j in
    record j' {
      target = set_status (end_status replay traffic is_done) "" now j.target;
      phase = over;
    }

unfoldable pub finish : (String → String) → TargetEnv → Job → Job
finish panicked env j = end_run env.run env.ended_at panicked j

abbrev pub panics : RunEnd → Bool
panics (run_error e) = false
panics (run_panic text) = true
panics (run_returns replay traffic is_done) = false

abbrev pub is_ready : Phase → Bool
is_ready ready = true
is_ready _ = false

abbrev pub and_then : Job → Option (List Job) → Option (List Job)
and_then j none = none
and_then j (some js) = some (j ∷ js)

-- The loop of a sequential run; `none` when a panic, which nothing recovers there, ends the program.
unfoldable pub run_sequential :
    (String → String) → (String → String) → List (TargetEnv × Job) → Option (List Job)
run_sequential connecting panicked [] = some []
run_sequential connecting panicked ((env, j) ∷ js) =
    let rest = run_sequential connecting panicked js in
    let p = prepare connecting env j in
    if not (is_ready p.phase)
    then and_then p rest
    else if panics env.run
    then none
    else and_then (finish panicked env (begin env p)) rest

-- The first loop of a concurrent run.
unfoldable pub prepare_all : (String → String) → List (TargetEnv × Job) → List (TargetEnv × Job)
prepare_all connecting [] = []
prepare_all connecting ((env, j) ∷ js) = (env, prepare connecting env j) ∷ prepare_all connecting js

-- A step of one of the goroutines of a concurrent run: up to the setStatus that begins `run`, or from
-- there to the goroutine's end. In between, a goroutine works on its own target only.
pub data Step (panicked : String → String)
    : List (TargetEnv × Job) → List (TargetEnv × Job) → Type 0 where
  starts :
      (env : TargetEnv) (j : Job) (js : List (TargetEnv × Job))
      → j.phase ≡ ready
      → Step panicked ((env, j) ∷ js) ((env, begin env j) ∷ js)
  ends :
      (env : TargetEnv) (j : Job) (js : List (TargetEnv × Job))
      → j.phase ≡ working
      → Step panicked ((env, j) ∷ js) ((env, finish panicked env j) ∷ js)
  later :
      (e : TargetEnv × Job) {js ks : List (TargetEnv × Job)}
      → Step panicked js ks
      → Step panicked (e ∷ js) (e ∷ ks)

-- What a number of steps reaches.
pub data Steps (panicked : String → String)
    : ℕ → List (TargetEnv × Job) → List (TargetEnv × Job) → Type 0 where
  here : {js : List (TargetEnv × Job)} → Steps panicked zero js js
  next :
      {n : ℕ} {js ks ls : List (TargetEnv × Job)}
      → Step panicked js ks
      → Steps panicked n ks ls
      → Steps panicked (suc n) js ls
