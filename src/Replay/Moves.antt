-- ===== src/Replay/Moves.antt =====
-- What a step of a replay means for one worker: it receives, executes or loses an operation, or has
-- the same operations before it as before.
use percona_load_generator_m.Prelude.{
  ◌+◌, ◌-◌, ◌≡◌, refl, sym, ap, ◌∙◌, ◌⊎◌, inl, inr, String, true, false, Option, none, some, List,
  [], ◌∷◌, ◌++◌, map, map-append, append_assoc, arith, Bool-cases, List-cases, Option-cases,
  if◌then◌else◌,
}
use percona_load_generator_m.Prelude.Int.{ℤ, eqb_ℤ_iff}
use percona_load_generator_m.Prelude.Keys.{◌=?◌, int_eq}
use percona_load_generator_m.Recording.Format.{u64, OpLine}
use percona_load_generator_m.Replay.{
  Replay, Answer, executed, exec_failed, State, Event, reads, ends_reading, cancels, gives_up,
  starts, withdraws, returns, panics, update, skips, feed, enqueue_op, read_op, end_reading,
  give_up_reading, start_op, first_of, end_op, count_op, return_op, withdraw_op, panic_op, step,
}

module _ {B : Type 0} (replay : Replay B) where
  -- The operations of a worker that the replay does not skip.
  unfoldable pub share : ℤ → List (OpLine B) → List (OpLine B)
  share w [] = []
  share w (o ∷ os) =
      if skips replay o then share w os else if o.worker =? w then o ∷ share w os else share w os

  abbrev pub flight : Option (OpLine B) → List (OpLine B)
  flight none = []
  flight (some o) = o ∷ []

  abbrev pub ops_of : List (OpLine B × B) → List (OpLine B)
  ops_of ps = map (λ p. p.0) ps

  -- What one worker did, does, has queued, and will be handed.
  pub data Move (w : ℤ) (s s' : State B) : Type 0 where
    stays :
        s'.sent w ≡ s.sent w
        → s'.running w ≡ s.running w
        → s'.queues w ++ share w s'.todo ≡ s.queues w ++ share w s.todo
        → (s'.stopped ≡ s.stopped) ⊎ (s'.stopped ≡ true)
        → Move w s s'
    takes :
        (o : OpLine B)
        → s'.sent w ≡ s.sent w
        → s.running w ≡ none
        → s'.running w ≡ some o
        → s.queues w ++ share w s.todo ≡ o ∷ (s'.queues w ++ share w s'.todo)
        → s.stopped ≡ false
        → s'.stopped ≡ false
        → Move w s s'
    does :
        (o : OpLine B)
        → ops_of (s'.sent w) ≡ ops_of (s.sent w) ++ o ∷ []
        → s.running w ≡ some o
        → s'.running w ≡ none
        → s'.queues w ++ share w s'.todo ≡ s.queues w ++ share w s.todo
        → s'.stopped ≡ s.stopped
        → Move w s s'
    drops : s'.sent w ≡ s.sent w → s'.running w ≡ none → s'.stopped ≡ true → Move w s s'

  -- The view of one worker on each step.
  same_key : (v w : ℤ) → (v =? w) ≡ true → v ≡ w
  same_key v w h = (eqb_ℤ_iff v w).0 h

  share_skip :
      (w : ℤ) (o : OpLine B) (os : List (OpLine B))
      → skips replay o ≡ true
      → share w (o ∷ os) ≡ share w os
  unfolding share
  share_skip w o os h = rw h refl

  share_own :
      (w : ℤ) (o : OpLine B) (os : List (OpLine B))
      → skips replay o ≡ false
      → (o.worker =? w) ≡ true
      → share w (o ∷ os) ≡ o ∷ share w os
  unfolding share
  share_own w o os h k = rw (h, k) refl

  share_other :
      (w : ℤ) (o : OpLine B) (os : List (OpLine B))
      → skips replay o ≡ false
      → (o.worker =? w) ≡ false
      → share w (o ∷ os) ≡ share w os
  unfolding share
  share_other w o os h k = rw (h, k) refl

  enqueue_op-Move :
      (w : ℤ) (s : State B) (o : OpLine B) (os : List (OpLine B))
      → s.todo ≡ o ∷ os
      → skips replay o ≡ false
      → Move w s (enqueue_op replay o os s)
  enqueue_op-Move w s o os t k = elim (Bool-cases (o.worker =? w)) [
    | inl e ↦
        let own = same_key o.worker w e in
        stays refl refl
          (rw (e, t, share_own w o os k e)
            (ap (λ x. s.queues x ++ o ∷ [] ++ share w os) own
              ∙ append_assoc (s.queues w) (o ∷ []) (share w os)))
          (inl refl)
    | inr e ↦ stays refl refl (rw (e, t, share_other w o os k e) refl) (inl refl)
  ]

  pub feed_cases :
      (s s' : State B) (o : OpLine B) (os : List (OpLine B))
      → feed replay o os s ≡ some s'
      → (s' ≡ record s { reading = false; stream_error = some "worker out of range" })
        ⊎ ((skips replay o ≡ true) × (s' ≡ record s { todo = os; skipped = u64 (s.skipped + 1) }))
        ⊎ ((skips replay o ≡ false) × (s' ≡ enqueue_op replay o os s))
  feed_cases s s' o os h = ground arith

  read-Move : (w : ℤ) (s s' : State B) → read_op replay s ≡ some s' → Move w s s'
  unfolding read_op
  read-Move w s s' h = elim (List-cases s.todo) [
    | inl t ↦ ground arith
    | inr (o, os, t) ↦
        let f : feed replay o os s ≡ some s' = ground arith in
        elim (feed_cases s s' o os f) [
          | inl e ↦ rw e (stays refl refl refl (inl refl))
          | inr (inl (k, e)) ↦ rw e (stays refl refl (rw (t, share_skip w o os k) refl) (inl refl))
          | inr (inr (k, e)) ↦ rw e (enqueue_op-Move w s o os t k)
        ]
  ]

  pub start_cases :
      (v : ℤ) (s s' : State B)
      → start_op replay v s ≡ some s'
      → (o : OpLine B) × (os : List (OpLine B)) × (s.running v ≡ none)
        × (s.queues v ≡ o ∷ os)
        × (((s.stopped ≡ true)
              × (s' ≡ record s { queues = update s.queues v os; pending = s.pending - 1 }))
            ⊎ ((s.stopped ≡ false)
                × (s' ≡ record s {
                  queues = update s.queues v os;
                  running = update s.running v (some o);
                })))
  unfolding start_op
  start_cases v s s' h = elim (Option-cases (s.running v)) [
    | inr (x, r) ↦ ground arith
    | inl r ↦ elim (List-cases (s.queues v)) [
      | inl q ↦ ground arith
      | inr (o, os, q) ↦ (o, os, r, q, ground arith)
    ]
  ]

  start-Move : (v w : ℤ) (s s' : State B) → start_op replay v s ≡ some s' → Move w s s'
  start-Move v w s s' h =
      let (o, os, r, q, e) = start_cases v s s' h in
      elim (Bool-cases (v =? w)) [
        | inl k ↦
            let own = same_key v w k in
            elim e [
              | inl (b, x) ↦ rw x (drops refl (ap s.running (sym own) ∙ r) b)
              | inr (b, x) ↦ rw x (
                  takes o refl (ap s.running (sym own) ∙ r) (rw k refl)
                    (rw k (ap (λ x. x ++ share w s.todo) (ap s.queues (sym own) ∙ q))) b b)
            ]
        | inr k ↦ elim e [
          | inl (b, x) ↦ rw x (stays refl refl (rw k refl) (inl refl))
          | inr (b, x) ↦ rw x (stays refl (rw k refl) (rw k refl) (inl refl))
        ]
      ]

  end-Move : (w : ℤ) (s s' : State B) → end_reading replay s ≡ some s' → Move w s s'
  unfolding end_reading
  end-Move w s s' h =
      let x : s' ≡ record s { reading = false; stream_error = replay.stream_end } = ground arith in
      rw x (stays refl refl refl (inl refl))

  give_up_reading-Move :
      (text : String) (w : ℤ) (s s' : State B)
      → give_up_reading replay text s ≡ some s'
      → Move w s s'
  unfolding give_up_reading
  give_up_reading-Move text w s s' h =
      let x : s' ≡ record s { reading = false; stream_error = some text } = ground arith in
      rw x (stays refl refl refl (inl refl))

  -- An operation that ends without having been executed: the context is done.
  lost-Move :
      (v w : ℤ) (s s' : State B)
      → s'.sent ≡ s.sent
      → s'.running ≡ update s.running v none
      → s'.queues ≡ s.queues
      → s'.todo ≡ s.todo
      → s'.stopped ≡ true
      → Move w s s'
  lost-Move v w s s' a r q t b = elim (Bool-cases (v =? w)) [
    | inl k ↦ drops (ap (λ f. f w) a) (ap (λ f. f w) r ∙ rw k refl) b
    | inr k ↦ stays (ap (λ f. f w) a) (ap (λ f. f w) r ∙ rw k refl) (rw (q, t) refl) (inr b)
  ]

  return-Move :
      (v : ℤ) (a : Answer B) (w : ℤ) (s s' : State B)
      → return_op replay v a s ≡ some s'
      → Move w s s'
  unfolding return_op
  return-Move v (exec_failed e) w s s' h = elim (Option-cases (s.running v)) [
    | inl r ↦ ground arith
    | inr (o, r) ↦
        let x : s' ≡ count_op replay v o (exec_failed e) (end_op replay v s) = ground arith in
        rw x (
          lost-Move v w s (count_op replay v o (exec_failed e) (end_op replay v s)) refl refl refl
            refl refl)
  ]
  return-Move v (executed is_ok cmd) w s s' h = elim (Option-cases (s.running v)) [
    | inl r ↦ ground arith
    | inr (o, r) ↦
        let x : s' ≡ count_op replay v o (executed is_ok cmd) (end_op replay v s) = ground arith in
        rw x (elim (Bool-cases (v =? w)) [
          | inl k ↦
              let own = same_key v w k in
              does o
                (rw k
                  (ap (λ x. ops_of (s.sent x ++ (o, cmd) ∷ [])) own ∙ map-append _ (s.sent w) _))
                (ap s.running (sym own) ∙ r) (rw k refl) refl refl
          | inr k ↦ stays (rw k refl) (rw k refl) refl (inl refl)
        ])
  ]

  withdraw-Move : (v w : ℤ) (s s' : State B) → withdraw_op replay v s ≡ some s' → Move w s s'
  unfolding withdraw_op
  withdraw-Move v w s s' h =
      let (x, b) : (s' ≡ end_op replay v s) × (s.stopped ≡ true) = ground arith in
      rw x (lost-Move v w s (end_op replay v s) refl refl refl refl b)

  panic-Move :
      (v : ℤ) (text : String) (w : ℤ) (s s' : State B)
      → panic_op replay v text s ≡ some s'
      → Move w s s'
  unfolding panic_op
  panic-Move v text w s s' h =
      let x : s' ≡ record (end_op replay v s) {
        panic_error = first_of s.panic_error text;
        stopped = true;
      } =
        ground arith in
      rw x (
        lost-Move v w s
          (record (end_op replay v s) { panic_error = first_of s.panic_error text; stopped = true })
          refl refl refl refl refl)

  pub step-Move : (ev : Event B) (w : ℤ) (s s' : State B) → step replay ev s ≡ some s' → Move w s s'
  unfolding step
  step-Move reads w s s' h = read-Move w s s' h
  step-Move ends_reading w s s' h = end-Move w s s' h
  step-Move cancels w s s' h =
      let x : s' ≡ record s { stopped = true; cancelled = true } = ground arith in
      rw x (stays refl refl refl (inr refl))
  step-Move (gives_up e) w s s' h = give_up_reading-Move e w s s' h
  step-Move (starts v) w s s' h = start-Move v w s s' h
  step-Move (withdraws v) w s s' h = withdraw-Move v w s s' h
  step-Move (returns v a) w s s' h = return-Move v a w s s' h
  step-Move (panics v text) w s s' h = panic-Move v text w s s' h
