-- ===== src/MultiTarget/Ends.antt =====
-- How the targets of a plan end, in a concurrent and in a sequential run.
use percona_load_generator_m.Prelude.{
  ℕ, ◌≡◌, refl, sym, ap, ◌∙◌, ◌⊎◌, inl, inr, subst, String, Bool, true, not, Option, none, some,
  List, [], ◌∷◌, All, map, if◌then◌else◌, Bool-cases,
}
use percona_load_generator_m.MultiTarget.{
  Error, TargetEnv, Phase, ready, over, Job, prepare, prepare_by, prepare_all, begin, finish, Steps,
  panics, run_sequential, and_then, is_ready,
}
use percona_load_generator_m.MultiTarget.Schedule.{rest_of, alone, CanStep, Steps-alone_or_step}
use percona_load_generator_m.MultiTarget.Statuses.{ReportsEnd}
use percona_load_generator_m.MultiTarget.Finished.{run_alone, new_job, EndsBy, run_alone-EndsBy}

-- A target of the plan before its run, whose replay reports one of the states that a run ends in.
abbrev pub IsFresh : TargetEnv × Job → Type 0
IsFresh (env, j) = (index : ℕ) × (label : String) × (j ≡ new_job index label) × ReportsEnd env.run

-- A target has ended, as what is answered for it says.
abbrev pub Ended : TargetEnv × Job → Type 0
Ended (env, j) =
    EndsBy env.done_before env.connect env.prepare env.run env.running_at env.ended_at j

abbrev pub envs_of : List (TargetEnv × Job) → List TargetEnv
envs_of js = map (λ e. e.0) js

-- The workload of a target runs.
abbrev pub Runs : TargetEnv → Type 0
Runs env = (env.done_before ≡ none) × (env.connect ≡ none) × (env.prepare ≡ none)

-- Some target's workload runs and panics.
unfoldable pub SomePanic : List (TargetEnv × Job) → Type 0
SomePanic [] = ⊥
SomePanic ((env, j) ∷ js) = (Runs env × (panics env.run ≡ true)) ⊎ SomePanic js

-- The jobs are those of the targets, ended.
unfoldable pub EndedAs : List (TargetEnv × Job) → List Job → Type 0
EndedAs [] [] = Unit
EndedAs [] (k ∷ ks) = ⊥
EndedAs (e ∷ js) [] = ⊥
EndedAs ((env, j) ∷ js) (k ∷ ks) = Ended (env, k) × EndedAs js ks

module _ (connecting panicked : String → String) where
  alone-Ended :
      (env : TargetEnv) (j : Job)
      → IsFresh (env, j)
      → Ended (env, run_alone connecting panicked env j)
  alone-Ended env j (index, label, e, r) =
      subst (λ x. Ended (env, run_alone connecting panicked env x)) (sym e)
        (run_alone-EndsBy connecting panicked env index label r)

  all_alone :
      (js : List (TargetEnv × Job))
      → All IsFresh js
      → All Ended (map (alone panicked) (prepare_all connecting js))
  unfolding prepare_all alone run_alone
  all_alone [] h = tt
  all_alone ((env, j) ∷ js) h = (alone-Ended env j h.0, all_alone js h.1)

  same_envs :
      (js : List (TargetEnv × Job))
      → envs_of (map (alone panicked) (prepare_all connecting js)) ≡ envs_of js
  unfolding prepare_all alone
  same_envs [] = refl
  same_envs ((env, j) ∷ js) = ap (λ l. env ∷ l) (same_envs js)

  -- A concurrent run of new targets, after they were prepared and whatever steps their goroutines
  -- made, in any order: some goroutine can go on, or every target has ended as what was answered for
  -- it says: in one of the four end states, complete exactly when nothing failed, its workload and
  -- its reports are complete and the context is not done, with its client closed once, or twice after
  -- a panic of its workload, and with both times or none.
  pub Steps-EndsBy :
      (n : ℕ) (js ks : List (TargetEnv × Job))
      → All IsFresh js
      → Steps panicked n (prepare_all connecting js) ks
      → CanStep panicked ks ⊎ ((envs_of ks ≡ envs_of js) × All Ended ks)
  Steps-EndsBy n js ks h sts =
      elim (Steps-alone_or_step panicked n (prepare_all connecting js) ks sts).1 [
        | inl c ↦ inl c
        | inr e ↦ inr (ap envs_of e ∙ same_envs js, subst (All Ended) (sym e) (all_alone js h))
      ]

  ready_cases :
      (stop connect prep : Option Error) (now : ℕ) (j : Job)
      → (((prepare_by stop connect prep connecting now j).phase ≡ ready)
          × (stop ≡ none)
          × (connect ≡ none)
          × (prep ≡ none))
        ⊎ (((prepare_by stop connect prep connecting now j).phase ≡ over)
            × ¬ ((stop ≡ none) × (connect ≡ none) × (prep ≡ none)))
  ready_cases (some e) connect prep now j = inr (refl, λ h. cc)
  ready_cases none (some e) prep now j = inr (refl, λ h. cc)
  ready_cases none none (some e) now j = inr (refl, λ h. cc)
  ready_cases none none none now j = inl (refl, refl, refl, refl)

  -- What a sequential run comes to.
  abbrev Outcome : List (TargetEnv × Job) → Option (List Job) → Type 0
  Outcome js o =
      ((ks : List Job) × (o ≡ some ks) × EndedAs js ks × ¬ SomePanic js)
      ⊎ ((o ≡ none) × SomePanic js)

  goes_on :
      (env : TargetEnv) (j k : Job) (js : List (TargetEnv × Job)) (o : Option (List Job))
      → Ended (env, k)
      → ¬ (Runs env × (panics env.run ≡ true))
      → Outcome js o
      → Outcome ((env, j) ∷ js) (and_then k o)
  unfolding SomePanic EndedAs
  goes_on env j k js o e n (inr (h, p)) = inr (ap (and_then k) h, inr p)
  goes_on env j k js o e n (inl (ks, h, ends, calm)) =
      inl (k ∷ ks, ap (and_then k) h, (e, ends), (λ p. elim p [ inl x ↦ n x | inr x ↦ calm x ]))

  -- A round of the loop, after its `prepare` in a phase.
  abbrev round : Phase → Job → Job → Bool → Option (List Job) → Option (List Job)
  round q p f b rest =
      if not (is_ready q) then and_then p rest else if b then none else and_then f rest

  -- A sequential run of new targets: either no workload that runs panics, and every target has ended
  -- as what was answered for it says; or one does, which nothing recovers there, and the run does
  -- not return.
  pub run_sequential-EndsBy :
      (js : List (TargetEnv × Job))
      → All IsFresh js
      → ((ks : List Job) × (run_sequential connecting panicked js ≡ some ks)
          × EndedAs js ks
          × ¬ SomePanic js)
        ⊎ ((run_sequential connecting panicked js ≡ none) × SomePanic js)
  unfolding run_sequential run_alone prepare SomePanic EndedAs
  run_sequential-EndsBy [] h = inl ([], refl, tt, λ p. p)
  run_sequential-EndsBy ((env, j) ∷ js) h =
      let ih = run_sequential-EndsBy js h.1 in
      let rest = run_sequential connecting panicked js in
      let p = prepare connecting env j in
      let f = finish panicked env (begin env p) in
      let end : Ended (env, rest_of panicked p.phase env p) = alone-Ended env j h.0 in
      let step = λ (q : Phase). round q p f (panics env.run) rest in
      elim (ready_cases env.done_before env.connect env.prepare env.failed_at j) [
        | inr (o, n) ↦ subst (Outcome ((env, j) ∷ js)) (sym (ap step o)) (
            goes_on env j p js rest (subst (λ q. Ended (env, rest_of panicked q env p)) o end)
              (λ x. n x.0) ih)
        | inl (r, a, b, d) ↦ elim (Bool-cases (panics env.run)) [
          | inl y ↦ inr (ap step r ∙ ap (λ x. round ready p f x rest) y, inl ((a, b, d), y))
          | inr y ↦
              subst (Outcome ((env, j) ∷ js)) (sym (ap step r ∙ ap (λ x. round ready p f x rest) y))
                (goes_on env j f js rest (subst (λ q. Ended (env, rest_of panicked q env p)) r end)
                  (λ x. let z = x.1 in cc) ih)
        ]
      ]
