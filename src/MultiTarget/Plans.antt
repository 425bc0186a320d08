-- ===== src/MultiTarget/Plans.antt =====
-- The runs of all targets, one after another and at once.
use percona_load_generator_m.Prelude.{
  ℕ, ◌*◌, ◌≤◌, ◌≡◌, refl, sym, ap, ◌∙◌, String, Bool, false, not, if◌then◌else◌, Option, none, some,
  List, [], ◌∷◌, length, All, map, ◌⊎◌, inl, inr, arith,
}
use percona_load_generator_m.MultiTarget.{
  Error, TargetEnv, Phase, ready, over, Job, prepare, prepare_by, prepare_all, begin, finish, Steps,
  panics, run_sequential, and_then, is_ready,
}
use percona_load_generator_m.MultiTarget.Schedule.{rest_of, alone, CanStep, Steps-alone_or_step}
use percona_load_generator_m.MultiTarget.Finished.{run_alone}

prepare_by_phase :
    (stop connect prep : Option Error) (connecting : String → String) (now : ℕ) (j : Job)
    → ((prepare_by stop connect prep connecting now j).phase ≡ ready)
      ⊎ ((prepare_by stop connect prep connecting now j).phase ≡ over)
prepare_by_phase (some e) connect prep connecting now j = inr refl
prepare_by_phase none (some e) prep connecting now j = inr refl
prepare_by_phase none none (some e) connecting now j = inr refl
prepare_by_phase none none none connecting now j = inl refl

-- A round of the sequential loop, after its `prepare` in a phase.
abbrev step_of : Phase → Job → Job → Bool → Option (List Job) → Option (List Job)
step_of q p f b rest =
    if not (is_ready q) then and_then p rest else if b then none else and_then f rest

module _ (connecting panicked : String → String) where
  abbrev pub ends_of : List (TargetEnv × Job) → List Job
  ends_of [] = []
  ends_of ((env, j) ∷ js) = run_alone connecting panicked env j ∷ ends_of js

  abbrev pub jobs_of : List (TargetEnv × Job) → List Job
  jobs_of js = map (λ e. e.1) js

  length-prepare_all :
      (js : List (TargetEnv × Job)) → length (prepare_all connecting js) ≡ length js
  unfolding prepare_all
  length-prepare_all [] = refl
  length-prepare_all ((env, j) ∷ js) = omega (arith, length-prepare_all js)

  alone-prepare_all :
      (js : List (TargetEnv × Job))
      → jobs_of (map (alone panicked) (prepare_all connecting js)) ≡ ends_of js
  unfolding prepare_all alone run_alone
  alone-prepare_all [] = refl
  alone-prepare_all ((env, j) ∷ js) =
      ap (λ l. run_alone connecting panicked env j ∷ l) (alone-prepare_all js)

  -- The goroutines can make a step as long as not every target is as its run alone leaves it.
  Steps-prepare_all :
      (n : ℕ) (js ks : List (TargetEnv × Job))
      → Steps panicked n (prepare_all connecting js) ks
      → (n ≤ 2 * length js) × (CanStep panicked ks ⊎ (jobs_of ks ≡ ends_of js))
  Steps-prepare_all n js ks sts =
      let p = Steps-alone_or_step panicked n (prepare_all connecting js) ks sts in
      (
        omega (arith, p.0, length-prepare_all js),
        elim p.1 [ inl c ↦ inl c | inr e ↦ inr (ap jobs_of e ∙ alone-prepare_all js) ],
      )

  -- One after another, the targets end as each does alone.
  run_sequential-alone :
      (js : List (TargetEnv × Job))
      → All (λ e. panics e.0.run ≡ false) js
      → run_sequential connecting panicked js ≡ some (ends_of js)
  unfolding run_sequential run_alone prepare
  run_sequential-alone [] h = refl
  run_sequential-alone ((env, j) ∷ js) h =
      let ih = run_sequential-alone js h.1 in
      let p = prepare connecting env j in
      let f = finish panicked env (begin env p) in
      let rest = run_sequential connecting panicked js in
      let step = λ (q : Phase). step_of q p f (panics env.run) rest in
      elim (prepare_by_phase env.done_before env.connect env.prepare connecting env.failed_at j) [
        | inl r ↦
            ap step r
            ∙ ap (λ b. step_of ready p f b rest) h.0
            ∙ ap (and_then f) ih
            ∙ ap (λ q. some (rest_of panicked q env p ∷ ends_of js)) (sym r)
        | inr o ↦
            ap step o
            ∙ ap (and_then p) ih
            ∙ ap (λ q. some (rest_of panicked q env p ∷ ends_of js)) (sym o)
      ]

  -- Where no workload panics, the targets of a concurrent run that has ended are as a sequential run
  -- with the same answers leaves them, whatever the order of the goroutines' steps.
  pub Steps-run_sequential :
      (n : ℕ) (js ks : List (TargetEnv × Job))
      → All (λ e. panics e.0.run ≡ false) js
      → Steps panicked n (prepare_all connecting js) ks
      → CanStep panicked ks ⊎ (run_sequential connecting panicked js ≡ some (jobs_of ks))
  Steps-run_sequential n js ks calm sts = elim (Steps-prepare_all n js ks sts).1 [
    | inl c ↦ inl c
    | inr e ↦ inr (run_sequential-alone js calm ∙ ap some (sym e))
  ]
