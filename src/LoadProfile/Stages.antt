-- ===== src/LoadProfile/Stages.antt =====
-- The step profile of loadprofile.go against the plan that it is written as: one stage after
-- another, each for its duration, and the last one for ever.
use native.Mathlib.Nat.{zero-add}
use percona_load_generator_m.Prelude.{
  ℕ, ◌+◌, ◌-◌, ◌<◌, ◌≡◌, Bool, false, Bool-cases, inl, inr, ◌≤◌, List, [], ◌∷◌, Option, none, some,
  ok, err, arith, ltb, ◌>>=◌, ◌>>◌, refuse, if◌then◌else◌, All, bind_ok, refuse_ok, ◌∙◌, refuse_ok,
}
use percona_load_generator_m.Prelude.Int.{
  ℤ, pos, pos_part, ◌≤ℤ◌, ◌+ℤ◌, int64, int64_pos, max_ℤ, ltb_ℤ,
}
use percona_load_generator_m.LoadProfile.{
  Config, Runtime, Stage, Schedule, Boundary, Field, Compiled, step_duration, step_negative, Error,
  step, step_all_zero, step_empty, target_at, compile, normalized_kind, compile_step, step_schedule,
  step_loop, last_workers, workers_at, parse_positive_duration,
}
use percona_load_generator_m.Prelude.Text.{codes, trim_space}
use percona_load_generator_m.LoadProfile.Bounds.{clamp_id}

-- How long each stage lasts, and its workers.
abbrev pub Plan : Type 0
Plan = List (ℕ × ℤ)

abbrev nanoseconds : Option ℤ → ℕ
nanoseconds none = 0
nanoseconds (some d) = pos_part d

unfoldable pub plan : Runtime → List Stage → Plan
plan rt [] = []
plan rt (st ∷ sts) =
    (nanoseconds (rt.parse_duration (trim_space (codes st.duration))), st.workers) ∷ plan rt sts

unfoldable pub total : Plan → ℕ
total [] = 0
total ((d, w) ∷ p) = d + total p

-- The workers of the stage that time `t` falls in.
unfoldable pub stage_of : Plan → ℕ → ℤ
stage_of [] t = pos 0
stage_of ((d, w) ∷ []) t = w
stage_of ((d, w) ∷ x ∷ p) t = if ltb t d then w else stage_of (x ∷ p) (t - d)

positive_duration :
    (rt : Runtime) (f : Field) (raw : _) (d : ℤ)
    → parse_positive_duration rt f raw ≡ ok d
    → (d ≡ pos (nanoseconds (rt.parse_duration (trim_space (codes raw))))) × (pos 1 ≤ℤ d)
unfolding parse_positive_duration
positive_duration rt f raw d h = ground arith

abbrev InRange : ℤ → ℤ → Type 0
InRange pk w = (pos 0 ≤ℤ w) × (w ≤ℤ pk)

abbrev Within : ℤ → Boundary → Type 0
Within pk b = InRange pk b.workers

-- A guard, a step, a step that depends on it, and a result from the two.
round_ok :
    {A B C : Type 0} (b : Bool) (e : Error) (m : Compiled A) (k : A → Compiled B) (f : A → B → C)
    {r : C}
    → (refuse b e >> (m >>= λ a. k a >>= λ c. ok (f a c))) ≡ ok r
    → (a : A) × (c : B) × (b ≡ false) × (m ≡ ok a) × (k a ≡ ok c) × (r ≡ f a c)
round_ok b e m k f h =
    let (u, p, h1) = bind_ok (refuse b e) (λ _. m >>= λ a. k a >>= λ c. ok (f a c)) h in
    let (a, q, h2) = bind_ok m (λ a. k a >>= λ c. ok (f a c)) h1 in
    let (c, l, h3) = bind_ok (k a) (λ c. ok (f a c)) h2 in (a, c, ground arith, q, l, ground arith)

-- One boundary in front of others is one stage in front of a plan.
stage_step :
    (cum n t : ℕ) (w : ℤ) (b : Boundary) (bs : List Boundary) (x : ℕ × ℤ) (p : Plan)
    → (n ≤ t
        → workers_at (b ∷ bs) (last_workers (b ∷ bs)) (pos (cum + t)) ≡ stage_of (x ∷ p) (t - n))
    → let bs' = record { until = pos (cum + n); workers = w } ∷ b ∷ bs in
      workers_at bs' (last_workers bs') (pos (cum + t)) ≡ stage_of ((n, w) ∷ x ∷ p) t
unfolding stage_of workers_at last_workers
stage_step cum n t w b bs x p ih = elim (Bool-cases (ltb t n)) [
  | inl early ↦ ground arith
  | inr late ↦ let le : n ≤ t = ground arith in ground (arith, ih le)
]

module _ (rt : Runtime) where
  -- What a successful round of the loop did.
  step_loop_cons :
      (i : ℕ) (cum pk : ℤ) (st : Stage) (sts : List Stage) (r : List Boundary × ℤ)
      → step_loop rt i cum pk (st ∷ sts) ≡ ok r
      → (d : ℤ) × (rest : List Boundary × ℤ) × (ltb_ℤ st.workers (pos 0) ≡ false)
        × (parse_positive_duration rt (step_duration (i + 1)) st.duration ≡ ok d)
        × (step_loop rt (i + 1) (int64 (cum +ℤ d)) (max_ℤ pk st.workers) sts ≡ ok rest)
        × (r ≡ (record { until = int64 (cum +ℤ d); workers = st.workers } ∷ rest.0, rest.1))
  unfolding step_loop
  step_loop_cons i cum pk st sts r h =
      round_ok (ltb_ℤ st.workers (pos 0)) (step_negative (i + 1) st.workers)
        (parse_positive_duration rt (step_duration (i + 1)) st.duration)
        (λ d. step_loop rt (i + 1) (int64 (cum +ℤ d)) (max_ℤ pk st.workers) sts)
        (λ d rest. (record { until = int64 (cum +ℤ d); workers = st.workers } ∷ rest.0, rest.1)) h

  -- The end of a stage, where the sum does not overflow.
  until_pos :
      (i cum : ℕ) (st : Stage) (d : ℤ)
      → parse_positive_duration rt (step_duration (i + 1)) st.duration ≡ ok d
      → cum + nanoseconds (rt.parse_duration (trim_space (codes st.duration))) < 9223372036854775808
      → (d ≡ pos (nanoseconds (rt.parse_duration (trim_space (codes st.duration)))))
        × (int64 (pos cum +ℤ d)
            ≡ pos (cum + nanoseconds (rt.parse_duration (trim_space (codes st.duration)))))
  unfolding ◌+ℤ◌
  until_pos i cum st d p k =
      let (e, g) = positive_duration rt (step_duration (i + 1)) st.duration d p in
      (
        e,
        rw e (
            ground (
              arith,
              int64_pos (cum + nanoseconds (rt.parse_duration (trim_space (codes st.duration)))),
            )),
      )

  loop-Within :
      (i : ℕ) (cum pk : ℤ) (sts : List Stage) (r : List Boundary × ℤ)
      → step_loop rt i cum pk sts ≡ ok r
      → (pk ≤ℤ r.1) × All (Within r.1) r.0
  loop-Within i cum pk [] r h = unfold step_loop in ground arith
  loop-Within i cum pk (st ∷ sts) r h =
      let (d, rest, w, p, l, e) = step_loop_cons i cum pk st sts r h in
      rw e (ground (arith, loop-Within (i + 1) (int64 (cum +ℤ d)) (max_ℤ pk st.workers) sts rest l))

  -- The boundaries after the time so far pick the stage that the plan names.
  loop_stages :
      (i cum : ℕ) (pk : ℤ) (sts : List Stage) (r : List Boundary × ℤ) (t : ℕ)
      → step_loop rt i (pos cum) pk sts ≡ ok r
      → cum + total (plan rt sts) < 9223372036854775808
      → workers_at r.0 (last_workers r.0) (pos (cum + t)) ≡ stage_of (plan rt sts) t
  unfolding plan total
  loop_stages i cum pk [] r t h k =
      unfold step_loop workers_at last_workers plan stage_of in ground arith
  loop_stages i cum pk (st ∷ []) r t h k =
      let (d, rest, w, p, l, e) = step_loop_cons i (pos cum) pk st [] r h in
      rw e (unfold step_loop workers_at last_workers plan stage_of in ground arith)
  loop_stages i cum pk (st ∷ st' ∷ sts) r t h k =
      let (d, rest, w, p, l, e) = step_loop_cons i (pos cum) pk st (st' ∷ sts) r h in
      let (q, u) = until_pos i cum st d p (unfold plan total in omega arith) in
      let l' = rw u at l in
      let (d', rest', w', p', l'', e') =
        step_loop_cons (i + 1)
          (pos (cum + nanoseconds (rt.parse_duration (trim_space (codes st.duration)))))
          (max_ℤ pk st.workers) st' sts rest l' in
      let n = nanoseconds (rt.parse_duration (trim_space (codes st.duration))) in
      let b : Boundary = record { until = int64 (pos (cum + n) +ℤ d'); workers = st'.workers } in
      rw (e, u, e')
        (stage_step cum n t st.workers b rest'.0
          (nanoseconds (rt.parse_duration (trim_space (codes st'.duration))), st'.workers)
          (plan rt sts)
          (λ le.
            let time : cum + n + (t - n) ≡ cum + t = omega arith in
            rw (time, e') at
              (loop_stages (i + 1) (cum + n) (max_ℤ pk st.workers) (st' ∷ sts) rest (t - n) l'
                (omega arith))))

last-Within :
    (pk : ℤ) (bs : List Boundary) → pos 0 ≤ℤ pk → All (Within pk) bs → InRange pk (last_workers bs)
unfolding last_workers
last-Within pk [] g h = omega arith
last-Within pk (b ∷ []) g h = h.0
last-Within pk (b ∷ b' ∷ bs) g h = last-Within pk (b' ∷ bs) g h.1

workers_at-Within :
    (pk last : ℤ) (bs : List Boundary) (t : ℤ)
    → InRange pk last
    → All (Within pk) bs
    → InRange pk (workers_at bs last t)
unfolding workers_at
workers_at-Within pk last [] t l h = l
workers_at-Within pk last (b ∷ bs) t l h = ground (arith, workers_at-Within pk last bs t l h.1)

schedule_ok :
    (bs : List Boundary) (peak : ℤ) (s : Schedule)
    → step_schedule (bs, peak) ≡ ok s
    → (pos 1 ≤ℤ peak)
      × (s ≡ record {
        kind = some step;
        peak = peak;
        target_fn = some (workers_at bs (last_workers bs));
      })
unfolding step_schedule
schedule_ok bs peak s g =
    let (p, e) =
      refuse_ok (ltb_ℤ peak (pos 1)) step_all_zero
        (ok (record {
          kind = some step;
          peak = peak;
          target_fn = some (workers_at bs (last_workers bs));
        }))
        g in
    (ground arith, cc)

not_negative : (t : ℕ) → ltb_ℤ (pos t) (pos 0) ≡ false
not_negative t = ground arith

module _ (rt : Runtime) where
  loop_schedule :
      (sts : List Stage) (r : List Boundary × ℤ) (s : Schedule) (t : ℕ)
      → step_loop rt 0 (pos 0) (pos 0) sts ≡ ok r
      → step_schedule r ≡ ok s
      → target_at s (pos t) ≡ workers_at r.0 (last_workers r.0) (pos t)
  loop_schedule sts (bs, peak) s t l g =
      let (p, e) = schedule_ok bs peak s g in
      let (_, a) = loop-Within rt 0 (pos 0) (pos 0) sts (bs, peak) l in
      let (lo, hi) =
        workers_at-Within peak (last_workers bs) bs (pos t) (last-Within peak bs (omega arith) a)
          a in
      rw e (unfold target_at in rw (not_negative t) (clamp_id peak _ lo hi))

  step_target :
      (c : Config) (s : Schedule) (t : ℕ)
      → total (plan rt c.steps) < 9223372036854775808
      → compile_step rt c ≡ ok s
      → target_at s (pos t) ≡ stage_of (plan rt c.steps) t
  unfolding compile_step
  step_target c s t h e = go c.steps h e
    where
      go :
          (sts : List Stage)
          → total (plan rt sts) < 9223372036854775808
          → elim sts [
            | [] ↦ err step_empty
            | st ∷ sts' ↦ step_loop rt 0 (pos 0) (pos 0) (st ∷ sts') >>= step_schedule
          ]
            ≡ ok s
          → target_at s (pos t) ≡ stage_of (plan rt sts) t
      go [] h e = cc
      go (st ∷ sts) h e =
          let (r, l, g) = bind_ok (step_loop rt 0 (pos 0) (pos 0) (st ∷ sts)) step_schedule e in
          loop_schedule (st ∷ sts) r s t l g
          ∙ (rw zero-add at (loop_stages rt 0 0 (pos 0) (st ∷ sts) r t l (omega arith)))

  -- A step configuration whose stages last less than 2^63 nanoseconds together and that compiles:
  -- at every elapsed time t the schedule asks for exactly the workers of the stage of the plan that
  -- t falls in, and after the last stage for those of the last stage.
  pub step_follows_plan :
      (c : Config) (fallback : ℤ) (s : Schedule) (t : ℕ)
      → normalized_kind c ≡ codes "step"
      → total (plan rt c.steps) < 9223372036854775808
      → compile rt c fallback ≡ ok s
      → target_at s (pos t) ≡ stage_of (plan rt c.steps) t
  unfolding compile
  step_follows_plan c fallback s t k h e = step_target c s t h (rw (k, compile) at e)
