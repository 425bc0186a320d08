-- ===== src/Sweep/Levels.antt =====
-- How the levels of a sweep follow each other.
use percona_load_generator_m.Prelude.{
  ℕ, ◌+◌, ◌≡◌, refl, ap, ◌∙◌, ◌⊎◌, inl, inr, true, false, ◌&&◌, none, List, [], ◌∷◌, ◌++◌, map,
  length, ok, err, ◌==◌, arith, Option-cases, Bool-cases, if◌then◌else◌, subst,
}
use percona_load_generator_m.Prelude.Int.{ℤ, pos, ltb_ℤ}
use percona_load_generator_m.Prelude.Keys.{◌=?◌, string_eq}
use percona_load_generator_m.Sweep.{
  SweepState, running, done, stopped, failed, stopped_by_user, form_failed, did_not_start,
  level_runs, level_failed, SweepRun, LevelEnv, end_sweep, start_level, finish_level, run_sweep,
}

-- Level `i` starts at once if it is the first; after it, the user does not stop the sweep in the pause
-- or before the level, and its form and its start work.
abbrev pub IsOpen : ℤ → LevelEnv → Type 0
IsOpen pause env =
    ((ltb_ℤ (pos 0) pause && env.stopped_in_pause) ≡ false) × (env.cancelled_before ≡ false)

abbrev pub HasStart : LevelEnv → Type 0
HasStart env = (env.form_error ≡ none) × (env.start_error ≡ none)

abbrev pub Starts : ℕ → ℤ → LevelEnv → Type 0
Starts i pause env = (i ≡ 0) ⊎ (IsOpen pause env × HasStart env)

abbrev pub RanWell : LevelEnv → Type 0
RanWell env = (env.cancelled_after ≡ false) × (env.phase_failed ≡ false) × (env.last_error ≡ "")

-- Every one of these levels, from level `i` on, starts and runs well.
abbrev pub GoOn : ℕ → ℤ → List (ℤ × LevelEnv) → Type 0
GoOn i pause [] = Unit
GoOn i pause (l ∷ ls) = Starts i pause l.1 × RanWell l.1 × GoOn (i + 1) pause ls

-- Why a sweep ends at a level, in which state, and whether the level's run was made.
pub data Halts (i : ℕ) (pause : ℤ) (w : ℤ) (env : LevelEnv) : SweepState → List ℤ → Type 0 where
  user_before : ¬ (i ≡ 0) → ¬ IsOpen pause env → Halts i pause w env stopped []
  not_started : ¬ (i ≡ 0) → IsOpen pause env → ¬ HasStart env → Halts i pause w env failed []
  user_after :
      Starts i pause env → env.cancelled_after ≡ true → Halts i pause w env stopped (w ∷ [])
  run_failed :
      Starts i pause env
      → env.cancelled_after ≡ false
      → ¬ ((env.phase_failed ≡ false) × (env.last_error ≡ ""))
      → Halts i pause w env failed (w ∷ [])

abbrev pub counts_of : List (ℤ × LevelEnv) → List ℤ
counts_of ls = map (λ l. l.0) ls

-- A sweep is done after all its levels, or it ends at the first one that does not go well.
pub data Followed (i : ℕ) (pause : ℤ) (levels : List (ℤ × LevelEnv))
    : SweepState → List ℤ → Type 0 where
  all_ran : GoOn i pause levels → Followed i pause levels done (counts_of levels)
  halts_at :
      (before after : List (ℤ × LevelEnv)) (w : ℤ) (env : LevelEnv) (s : SweepState) (ran : List ℤ)
      → levels ≡ before ++ (w, env) ∷ after
      → GoOn i pause before
      → Halts (i + length before) pause w env s ran
      → Followed i pause levels s (counts_of before ++ ran)

-- The start of a level, by what the user and the start do.
abbrev StartCase : ℕ → ℕ → ℤ → LevelEnv → SweepRun → Type 0
StartCase total i w env sw =
    ((sw' : SweepRun) × ((if i == 0 then ok sw else start_level total i w env sw) ≡ ok sw')
      × Starts i sw.pause env
      × (sw'.pause ≡ sw.pause))
    ⊎ ((sw' : SweepRun) × ((if i == 0 then ok sw else start_level total i w env sw) ≡ err sw')
        × Halts i sw.pause w env sw'.state [])

later_start :
    (total i : ℕ) (w : ℤ) (env : LevelEnv) (sw : SweepRun)
    → ¬ (i ≡ 0)
    → ((sw' : SweepRun) × (start_level total i w env sw ≡ ok sw')
        × Starts i sw.pause env
        × (sw'.pause ≡ sw.pause))
      ⊎ ((sw' : SweepRun) × (start_level total i w env sw ≡ err sw')
          × Halts i sw.pause w env sw'.state [])
unfolding start_level end_sweep
later_start total i w env sw n =
    elim (Bool-cases (ltb_ℤ (pos 0) sw.pause && env.stopped_in_pause)) [
      | inl a ↦ inr (
        record sw { state = stopped; message = stopped_by_user },
        rw a refl,
        user_before n (λ o. cc),
      )
      | inr a ↦ elim (Bool-cases env.cancelled_before) [
        | inl b ↦ inr (
          record sw { state = stopped; message = stopped_by_user },
          rw (a, b) refl,
          user_before n (λ o. cc),
        )
        | inr b ↦ elim (Option-cases env.form_error) [
          | inr (e, f) ↦ inr (
            record sw { level = i + 1; state = failed; message = form_failed e },
            rw (a, b, f) refl,
            not_started n (a, b) (λ o. cc),
          )
          | inl f ↦ elim (Option-cases env.start_error) [
            | inr (e, g) ↦ inr (
              record sw { level = i + 1; state = failed; message = did_not_start (i + 1) w e },
              rw (a, b, f, g) refl,
              not_started n (a, b) (λ o. cc),
            )
            | inl g ↦ inl (
              record sw { level = i + 1; state = running; message = level_runs (i + 1) total w },
              rw (a, b, f, g) refl,
              inr ((a, b), (f, g)),
              refl,
            )
          ]
        ]
      ]
    ]

start_case : (total i : ℕ) (w : ℤ) (env : LevelEnv) (sw : SweepRun) → StartCase total i w env sw
start_case total i w env sw = elim (Bool-cases (i == 0)) [
  | inl h ↦ inl (sw, rw h refl, inl (ground (arith, h)), refl)
  | inr h ↦ rw h (later_start total i w env sw (λ z. ground (arith, h, z)))
]

-- The end of a level's run.
finish_case :
    (i : ℕ) (pause : ℤ) (w : ℤ) (env : LevelEnv) (sw : SweepRun)
    → Starts i pause env
    → ((sw' : SweepRun) × (finish_level i w env sw ≡ ok sw') × RanWell env × (sw'.pause ≡ sw.pause))
      ⊎ ((sw' : SweepRun) × (finish_level i w env sw ≡ err sw')
          × Halts i pause w env sw'.state (w ∷ []))
unfolding finish_level end_sweep
finish_case i pause w env sw s = elim (Bool-cases env.cancelled_after) [
  | inl a ↦ inr (
    record sw { last_dash = env.dashboard; state = stopped; message = stopped_by_user },
    rw a refl,
    user_after s a,
  )
  | inr a ↦ elim (Bool-cases env.phase_failed) [
    | inl b ↦ inr (
      record sw {
        last_dash = env.dashboard;
        state = failed;
        message =
            level_failed (i + 1) w
              (if env.last_error =? "" then env.lifecycle_message else env.last_error);
      },
      rw (a, b) refl,
      run_failed s a (λ o. cc),
    )
    | inr b ↦ elim (Bool-cases (env.last_error =? "")) [
      | inl e ↦ inl (
        record sw { last_dash = env.dashboard },
        rw (a, b, e) refl,
        (a, b, (string_eq.beq_iff env.last_error "").0 e),
        refl,
      )
      | inr e ↦ inr (
        record sw {
          last_dash = env.dashboard;
          state = failed;
          message = level_failed (i + 1) w env.last_error;
        },
        rw (a, b, e) refl,
        run_failed s a (λ o. let x = (string_eq.beq_iff env.last_error "").1 o.1 in cc),
      )
    ]
  ]
]

Followed-next :
    (i : ℕ) (pause : ℤ) (w : ℤ) (env : LevelEnv) (levels : List (ℤ × LevelEnv)) (s : SweepState)
    (ran : List ℤ)
    → Starts i pause env
    → RanWell env
    → Followed (i + 1) pause levels s ran
    → Followed i pause ((w, env) ∷ levels) s (w ∷ ran)
Followed-next i pause w env levels s ran a b (all_ran g) = all_ran (a, b, g)
Followed-next i pause w env levels s ran a b (halts_at before after v e s' r split g h) =
    let n : i + 1 + length before ≡ i + length ((w, env) ∷ before) = omega arith in
    halts_at ((w, env) ∷ before) after v e s' r (ap (λ ls. (w, env) ∷ ls) split) (a, b, g)
      (subst (λ k. Halts k pause v e s' r) n h)

Followed-first :
    (i : ℕ) (pause : ℤ) (w : ℤ) (env : LevelEnv) (levels : List (ℤ × LevelEnv)) (s : SweepState)
    (ran : List ℤ)
    → Halts i pause w env s ran
    → Followed i pause ((w, env) ∷ levels) s ran
Followed-first i pause w env levels s ran h =
    let n : i ≡ i + 0 = omega arith in
    halts_at [] levels w env s ran refl tt (subst (λ k. Halts k pause w env s ran) n h)

-- `runSweep` from any level on always ends: it is done, with all the worker counts run in order,
-- exactly if every level starts and runs well; otherwise it ends at the first level that does not:
-- stopped where the user stopped it in the pause, before the level or during its run, failed where
-- the level did not start or its run failed, and the worker counts run are those of the levels
-- before, and this one's if it started.
pub run_sweep-Followed :
    (total i : ℕ) (levels : List (ℤ × LevelEnv)) (sw : SweepRun)
    → Followed i sw.pause levels
        (run_sweep total i levels sw).0.state
        (run_sweep total i levels sw).1
unfolding run_sweep end_sweep
run_sweep-Followed total i [] sw = all_ran tt
run_sweep-Followed total i ((w, env) ∷ levels) sw = elim (start_case total i w env sw) [
  | inr (sw', e, h) ↦ rw (run_sweep, e) (Followed-first i sw.pause w env levels sw'.state [] h)
  | inl (sw₁, e, s, p) ↦ elim (finish_case i sw.pause w env sw₁ s) [
    | inr (sw', f, h) ↦
        rw (run_sweep, e, f) (Followed-first i sw.pause w env levels sw'.state (w ∷ []) h)
    | inl (sw₂, f, g, q) ↦
        rw (run_sweep, e, f)
          (Followed-next i sw.pause w env levels _ _ s g (
            subst
              (λ x.
                Followed (i + 1) x levels (run_sweep total (i + 1) levels sw₂).0.state
                  (run_sweep total (i + 1) levels sw₂).1)
              (q ∙ p) (run_sweep-Followed total (i + 1) levels sw₂)))
  ]
]
