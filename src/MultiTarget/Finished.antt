-- ===== src/MultiTarget/Finished.antt =====
-- How a target ends.
use percona_load_generator_m.Prelude.{
  ℕ, ◌≤◌, ◌≡◌, ◌≢◌, ◌↔◌, ◌⊎◌, inl, inr, refl, sym, ap, ap₂, ◌∙◌, subst, String, true, false, Option,
  none, some, arith, Bool-cases,
}
use percona_load_generator_m.Prelude.Keys.{◌=?◌, string_eq}
use percona_load_generator_m.MultiTarget.{
  Error, Target, TargetEnv, RunEnd, run_error, run_panic, run_returns, waiting, over, Job, pending,
  running, complete, failed, cancelled, is_end, set_status, fail, prepare, first_time, wrap, begin,
  finish, end_status, panics,
}
use percona_load_generator_m.MultiTarget.Schedule.{rest_of}
use percona_load_generator_m.MultiTarget.Statuses.{
  ReportsEnd, end_status-end, RanWell, complete_apart, end_status-RanWell, end_status-complete,
}

-- A target of a plan, before anything is done with it.
abbrev pub new_job : ℕ → String → Job
new_job index label = record {
  target = record {
    index = index;
    label = label;
    status = pending;
    err = "";
    started = none;
    finished = none;
  };
  phase = waiting;
  opened = 0;
  closed = 0;
}

-- What is done for a target, alone, in a concurrent run: its goroutine recovers a panic.
unfoldable pub run_alone : (String → String) → (String → String) → TargetEnv → Job → Job
run_alone connecting panicked env j =
    let p = prepare connecting env j in rest_of panicked p.phase env p

set_status_status : (s e : String) (now : ℕ) (t : Target) → (set_status s e now t).status ≡ s
unfolding set_status
set_status_status s e now t = ground arith

-- How a target is left, by what is answered: it is in one of the four end states, and complete
-- exactly when nothing failed, its workload and its reports are complete, and the context is not
-- done; its client is closed once, or twice after a panic; it has both times or none.
pub record EndsBy (stop connect prep : Option Error) (run : RunEnd) (running_at ended_at : ℕ)
    (j : Job) : Type 0 where
  pub done : j.phase ≡ over
  pub end_state : is_end j.target.status ≡ true
  pub complete_iff :
      (j.target.status ≡ complete)
      ↔ ((stop ≡ none) × (connect ≡ none) × (prep ≡ none) × RanWell run)
  pub one_client : j.opened ≤ 1
  pub all_closed : (j.closed ≡ j.opened) ⊎ ((panics run ≡ true) × (j.opened ≡ 1) × (j.closed ≡ 2))
  pub times :
      ((j.target.started ≡ none) × (j.target.finished ≡ none))
      ⊎ ((j.target.started ≡ some running_at) × (j.target.finished ≡ some ended_at))

fail_status :
    (e : Error) (now : ℕ) (t : Target)
    → (is_end (fail e now t).status ≡ true) × ((fail e now t).status ≢ complete)
unfolding fail set_status is_end
fail_status e now t = elim (Bool-cases e.is_canceled) [
  | inl h ↦ rw (h, fail) (refl, complete_apart cancelled refl)
  | inr h ↦ rw (h, fail) (refl, complete_apart failed refl)
]

fail_times :
    (e : Error) (now : ℕ) (t : Target)
    → ((fail e now t).started ≡ t.started)
      × ((fail e now t).finished ≡ first_time now t.started t.finished)
unfolding fail set_status is_end
fail_times e now t = elim (Bool-cases e.is_canceled) [
  | inl h ↦ rw (h, fail) (refl, refl)
  | inr h ↦ rw (h, fail) (refl, refl)
]

given_up :
    (stop connect prep : Option Error) (run : RunEnd) (running_at now : ℕ) (e : Error) (t : Target)
    (opened closed ended_at : ℕ)
    → ¬ ((stop ≡ none) × (connect ≡ none) × (prep ≡ none) × RanWell run)
    → opened ≤ 1
    → (closed ≡ opened) ⊎ ((panics run ≡ true) × (opened ≡ 1) × (closed ≡ 2))
    → ((t.started ≡ none) × (t.finished ≡ none))
      ⊎ ((t.started ≡ some running_at) × (t.finished ≡ none) × (now ≡ ended_at))
    → EndsBy stop connect prep run running_at ended_at
        (record { target = fail e now t; phase = over; opened = opened; closed = closed })
given_up stop connect prep run running_at now e t opened closed ended_at ill one balance times =
    let (end, not_complete) = fail_status e now t in
    let (started, finished) = fail_times e now t in
    record {
      done = refl;
      end_state = end;
      complete_iff = ((λ c. absurd (not_complete c)), (λ w. absurd (ill w)));
      one_client = one;
      all_closed = balance;
      times = elim times [
        | inl (s, f) ↦ inl (started ∙ s, finished ∙ ap (λ x. first_time now x t.finished) s ∙ f)
        | inr (s, f, n) ↦ inr (started ∙ s, finished ∙ ap₂ (first_time now) s f ∙ ap some n)
      ];
    }

end_not_running : (s : String) → is_end s ≡ true → (s =? running) ≡ false
unfolding is_end
end_not_running s h = elim (Bool-cases (s =? running)) [
  | inl e ↦ cc (subst (λ x. is_end x ≡ true) ((string_eq.beq_iff s running).0 e) h)
  | inr e ↦ e
]

set_status_end :
    (s e : String) (now : ℕ) (t : Target)
    → is_end s ≡ true
    → (is_end (set_status s e now t).status ≡ true)
      × ((set_status s e now t).started ≡ t.started)
      × ((set_status s e now t).finished ≡ first_time now t.started t.finished)
unfolding set_status
set_status_end s e now t h =
    rw (end_not_running s h, set_status) (rw (h, set_status) (h, refl, refl))

module _ (connecting panicked : String → String) (running_at failed_at ended_at index : ℕ)
    (label : String) where
  -- The run of a new target over what is answered.
  abbrev by_answers : Option Error → Option Error → Option Error → RunEnd → Job
  by_answers stop connect prep run =
      run_alone connecting panicked
        (record {
          done_before = stop;
          connect = connect;
          prepare = prep;
          run = run;
          failed_at = failed_at;
          running_at = running_at;
          ended_at = ended_at;
        })
        (new_job index label)

  by_answers-EndsBy :
      (stop connect prep : Option Error) (run : RunEnd)
      → ReportsEnd run
      → EndsBy stop connect prep run running_at ended_at (by_answers stop connect prep run)
  unfolding run_alone prepare begin finish set_status is_end
  by_answers-EndsBy (some e) connect prep run h =
      given_up (some e) connect prep run running_at failed_at e _ 0 0 ended_at (λ w. cc)
        (omega arith) (inl refl) (inl (refl, refl))
  by_answers-EndsBy none (some e) prep run h =
      given_up none (some e) prep run running_at failed_at (wrap connecting e) _ 0 0 ended_at
        (λ w. cc) (omega arith) (inl refl) (inl (refl, refl))
  by_answers-EndsBy none none (some e) run h =
      given_up none none (some e) run running_at failed_at e _ 1 1 ended_at (λ w. cc) (omega arith)
        (inl refl) (inl (refl, refl))
  by_answers-EndsBy none none none (run_error e) h =
      given_up none none none (run_error e) running_at ended_at e _ 1 1 ended_at (λ w. w.3)
        (omega arith) (inl refl) (inr (refl, refl, refl))
  by_answers-EndsBy none none none (run_panic text) h =
      given_up none none none (run_panic text) running_at ended_at _ _ 1 2 ended_at (λ w. w.3)
        (omega arith) (inr (refl, refl, refl)) (inr (refl, refl, refl))
  by_answers-EndsBy none none none (run_returns r g d) h =
      let s = end_status r g d in
      let t : Target = record {
        index = index;
        label = label;
        status = running;
        err = "";
        started = some running_at;
        finished = none;
      } in
      let q = set_status_end s "" ended_at t (end_status-end r g d h) in
      record {
        done = refl;
        end_state = q.0;
        complete_iff = (
          (λ c. (
            refl,
            refl,
            refl,
            end_status-RanWell r g d (sym (set_status_status s "" ended_at t) ∙ c),
          )),
          (λ w.
              set_status_status s "" ended_at t
              ∙ ap (end_status r g) w.3.2
              ∙ end_status-complete r g w.3.0 w.3.1),
        );
        one_client = omega arith;
        all_closed = inl refl;
        times = inr (q.1, q.2);
      }

-- How a target ends whose panic is recovered.
pub run_alone-EndsBy :
    (connecting panicked : String → String) (env : TargetEnv) (index : ℕ) (label : String)
    → ReportsEnd env.run
    → EndsBy env.done_before env.connect env.prepare env.run env.running_at env.ended_at
        (run_alone connecting panicked env (new_job index label))
run_alone-EndsBy connecting panicked env index label h =
    by_answers-EndsBy connecting panicked env.running_at env.failed_at env.ended_at index label
      env.done_before env.connect env.prepare env.run h
