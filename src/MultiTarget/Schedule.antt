-- ===== src/MultiTarget/Schedule.antt =====
-- The goroutines of a concurrent run: however their steps follow each other, they end, and each
-- target ends as it does alone.
use percona_load_generator_m.Prelude.{
  ℕ, suc, ◌+◌, ◌*◌, ◌≤◌, ◌≡◌, refl, sym, ap, ◌∙◌, String, List, [], ◌∷◌, arith, length, map, ◌⊎◌,
  inl, inr,
}
use percona_load_generator_m.MultiTarget.{
  TargetEnv, Phase, waiting, ready, working, over, Job, begin, finish, Step, starts, ends, later,
  Steps, here, next,
}

-- The steps that a target has left.
abbrev steps_of : Phase → ℕ
steps_of waiting = 0
steps_of ready = 2
steps_of working = 1
steps_of over = 0

unfoldable pub left : List (TargetEnv × Job) → ℕ
left [] = 0
left ((env, j) ∷ js) = steps_of j.phase + left js

left-le : (js : List (TargetEnv × Job)) → left js ≤ 2 * length js
unfolding left
left-le [] = omega arith
left-le ((env, j) ∷ js) = omega (arith, left-le js, few j.phase)
  where
    few : (p : Phase) → steps_of p ≤ 2
    few waiting = omega arith
    few ready = omega arith
    few working = omega arith
    few over = omega arith

module _ (panicked : String → String) where
  -- The end of a target in a phase, and that of a target.
  abbrev pub rest_of : Phase → TargetEnv → Job → Job
  rest_of waiting env j = j
  rest_of ready env j = finish panicked env (begin env j)
  rest_of working env j = finish panicked env j
  rest_of over env j = j

  unfoldable pub alone : TargetEnv × Job → TargetEnv × Job
  alone (env, j) = (env, rest_of j.phase env j)

  pub finish_over : (env : TargetEnv) (j : Job) → (finish panicked env j).phase ≡ over
  unfolding finish
  finish_over env j = ground arith

  Step-left : {js ks : List (TargetEnv × Job)} → Step panicked js ks → left js ≡ suc (left ks)
  unfolding left begin
  Step-left (starts env j js h) = omega (arith, ap steps_of h)
  Step-left (ends env j js h) = omega (arith, ap steps_of h, ap steps_of (finish_over env j))
  Step-left (later (env, j) {js} {ks} st) = omega (arith, Step-left st)

  Step-alone : {js ks : List (TargetEnv × Job)} → Step panicked js ks → map alone js ≡ map alone ks
  unfolding alone begin
  Step-alone (starts env j js h) = ap (λ p. (env, rest_of p env j) ∷ map alone js) h
  Step-alone (ends env j js h) =
      ap (λ p. (env, rest_of p env j) ∷ map alone js) h
      ∙ ap (λ p. (env, rest_of p env (finish panicked env j)) ∷ map alone js)
          (sym (finish_over env j))
  Step-alone (later e st) = ap (λ l. alone e ∷ l) (Step-alone st)

  Steps-left :
      {n : ℕ} {js ks : List (TargetEnv × Job)} → Steps panicked n js ks → left js ≡ n + left ks
  Steps-left here = omega arith
  Steps-left (next st sts) = omega (arith, Step-left st, Steps-left sts)

  Steps-alone :
      {n : ℕ} {js ks : List (TargetEnv × Job)}
      → Steps panicked n js ks
      → map alone js ≡ map alone ks
  Steps-alone here = refl
  Steps-alone (next st sts) = Step-alone st ∙ Steps-alone sts

  -- A goroutine can go on, or every target is as it ends.
  abbrev pub CanStep : List (TargetEnv × Job) → Type 0
  CanStep js = (ks : List (TargetEnv × Job)) × Step panicked js ks

  progress_first :
      (p : Phase) (env : TargetEnv) (j : Job) (js : List (TargetEnv × Job))
      → j.phase ≡ p
      → CanStep js ⊎ (js ≡ map alone js)
      → CanStep ((env, j) ∷ js) ⊎ ((env, j) ∷ js ≡ map alone ((env, j) ∷ js))
  unfolding alone
  progress_first p env j js h (inl (ks, st)) = inl ((env, j) ∷ ks, later (env, j) st)
  progress_first ready env j js h (inr e) = inl ((env, begin env j) ∷ js, starts env j js h)
  progress_first working env j js h (inr e) =
      inl ((env, finish panicked env j) ∷ js, ends env j js h)
  progress_first waiting env j js h (inr e) =
      inr (ap (λ l. (env, j) ∷ l) e ∙ ap (λ p. (env, rest_of p env j) ∷ map alone js) (sym h))
  progress_first over env j js h (inr e) =
      inr (ap (λ l. (env, j) ∷ l) e ∙ ap (λ p. (env, rest_of p env j) ∷ map alone js) (sym h))

  progress : (js : List (TargetEnv × Job)) → CanStep js ⊎ (js ≡ map alone js)
  progress [] = inr refl
  progress ((env, j) ∷ js) = progress_first j.phase env j js refl (progress js)

  -- Whatever steps the goroutines have made after the targets are prepared: they are at most two for
  -- each target, and either another step can be made, or every target is as it ends alone.
  pub Steps-alone_or_step :
      (n : ℕ) (js ks : List (TargetEnv × Job))
      → Steps panicked n js ks
      → (n ≤ 2 * length js) × (CanStep ks ⊎ (ks ≡ map alone js))
  Steps-alone_or_step n js ks sts = (
    omega (arith, Steps-left sts, left-le js),
    elim (progress ks) [ inl c ↦ inl c | inr e ↦ inr (e ∙ sym (Steps-alone sts)) ],
  )
