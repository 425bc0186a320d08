-- ===== src/Replay/Turns.antt =====
-- A step of one worker of a replay: it begins its first operation, or has ended it.
use percona_load_generator_m.Prelude.{
  ◌+◌, ◌-◌, ◌≤◌, ◌≡◌, refl, ap, ◌∙◌, ◌⊎◌, inl, inr, false, Option, none, some, List, ◌∷◌, ◌++◌,
  arith, length,
}
use percona_load_generator_m.Prelude.Int.{ℤ}
use percona_load_generator_m.Prelude.Keys.{◌=?◌, int_eq}
use percona_load_generator_m.Recording.Format.{OpLine}
use percona_load_generator_m.Replay.{Replay, State, update}
use percona_load_generator_m.Replay.Moves.{flight}
use percona_load_generator_m.Replay.Held.{held, at_key, off_key}

module _ {B : Type 0} (replay : Replay B) where
  -- A step of the worker `v`, which holds `o` and then `os`: it begins `o`, or has ended it.
  pub record Turn (v : ℤ) (s s' : State B) : Type 0 where
    pub first : OpLine B
    pub others : List (OpLine B)
    pub before : held replay s v ≡ first ∷ others
    pub todo : s'.todo ≡ s.todo
    pub reading : s'.reading ≡ s.reading
    pub iteration : s'.iteration ≡ s.iteration
    pub off_queues : (w : ℤ) → (v =? w) ≡ false → s'.queues w ≡ s.queues w
    pub off_running : (w : ℤ) → (v =? w) ≡ false → s'.running w ≡ s.running w
    pub after :
        ((held replay s' v ≡ first ∷ others)
          × (s'.pending ≡ s.pending)
          × (length (s'.queues v) + 1 ≤ length (s.queues v)))
        ⊎ ((held replay s' v ≡ others)
            × (s'.pending ≡ s.pending - 1)
            × (length (s'.queues v) ≤ length (s.queues v)))

  pub held_is :
      (w : ℤ) (s : State B) (q : List (OpLine B)) (r : Option (OpLine B))
      → s.queues w ≡ q
      → s.running w ≡ r
      → held replay s w ≡ flight replay r ++ q
  held_is w s q r x y = ap (λ z. flight replay z ++ s.queues w) y ∙ ap (λ z. flight replay r ++ z) x

  shorter : (q os : List (OpLine B)) (o : OpLine B) → q ≡ o ∷ os → length os + 1 ≤ length q
  shorter q os o e = let n : length q ≡ length (o ∷ os) = ap length e in omega (arith, n)

  pub begins-Turn :
      (v : ℤ) (s s' : State B) (o : OpLine B) (os : List (OpLine B))
      → s.running v ≡ none
      → s.queues v ≡ o ∷ os
      → s'.queues ≡ update s.queues v os
      → s'.running ≡ update s.running v (some o)
      → s'.pending ≡ s.pending
      → (s'.todo ≡ s.todo) × (s'.reading ≡ s.reading) × (s'.iteration ≡ s.iteration)
      → Turn v s s'
  begins-Turn v s s' o os r q q' r' p (t, x, i) =
      let queue = ap (λ f. f v) q' ∙ at_key replay s.queues v os in
      record {
        first = o;
        others = os;
        before = held_is v s (o ∷ os) none q r;
        todo = t;
        reading = x;
        iteration = i;
        off_queues = λ w k. ap (λ f. f w) q' ∙ off_key replay s.queues v w os k;
        off_running = λ w k. ap (λ f. f w) r' ∙ off_key replay s.running v w (some o) k;
        after = inl (
          held_is v s' os (some o) queue (ap (λ f. f v) r' ∙ at_key replay s.running v (some o)),
          p,
          rw queue (shorter (s.queues v) os o q),
        );
      }

  pub counts_down-Turn :
      (v : ℤ) (s s' : State B) (o : OpLine B) (os : List (OpLine B))
      → s.running v ≡ none
      → s.queues v ≡ o ∷ os
      → s'.queues ≡ update s.queues v os
      → s'.running ≡ s.running
      → s'.pending ≡ s.pending - 1
      → (s'.todo ≡ s.todo) × (s'.reading ≡ s.reading) × (s'.iteration ≡ s.iteration)
      → Turn v s s'
  counts_down-Turn v s s' o os r q q' r' p (t, x, i) =
      let queue = ap (λ f. f v) q' ∙ at_key replay s.queues v os in
      let less = shorter (s.queues v) os o q in
      record {
        first = o;
        others = os;
        before = held_is v s (o ∷ os) none q r;
        todo = t;
        reading = x;
        iteration = i;
        off_queues = λ w k. ap (λ f. f w) q' ∙ off_key replay s.queues v w os k;
        off_running = λ w k. ap (λ f. f w) r';
        after =
            inr (
              held_is v s' os none queue (ap (λ f. f v) r' ∙ r),
              p,
              rw queue (omega (arith, less)),
            );
      }

  pub finishes-Turn :
      (v : ℤ) (s s' : State B) (o : OpLine B)
      → s.running v ≡ some o
      → s'.queues ≡ s.queues
      → s'.running ≡ update s.running v none
      → s'.pending ≡ s.pending - 1
      → (s'.todo ≡ s.todo) × (s'.reading ≡ s.reading) × (s'.iteration ≡ s.iteration)
      → Turn v s s'
  finishes-Turn v s s' o r q' r' p (t, x, i) =
      let queue = ap (λ f. f v) q' in
      let n : length (s'.queues v) ≡ length (s.queues v) = ap length queue in
      record {
        first = o;
        others = s.queues v;
        before = held_is v s (s.queues v) (some o) refl r;
        todo = t;
        reading = x;
        iteration = i;
        off_queues = λ w k. ap (λ f. f w) q';
        off_running = λ w k. ap (λ f. f w) r' ∙ off_key replay s.running v w none k;
        after = inr (
          held_is v s' (s.queues v) none queue (ap (λ f. f v) r' ∙ at_key replay s.running v none),
          p,
          omega (arith, n),
        );
      }
