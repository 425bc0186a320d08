-- ===== src/Replay/Order.antt =====
-- Each worker executes its operations of the recording, in the recording's order.
use percona_load_generator_m.Prelude.{
  ◌≡◌, refl, sym, ap, ◌∙◌, ◌⊎◌, inl, inr, true, some, subst, List, [], ◌∷◌, ◌++◌, append-nil,
  append_assoc, arith, Option-cases,
}
use percona_load_generator_m.Prelude.Int.{ℤ}
use percona_load_generator_m.Prelude.Keys.{int_eq}
use percona_load_generator_m.Recording.Format.{OpLine}
use percona_load_generator_m.Replay.{Replay, State, start, Event, step, run}
use percona_load_generator_m.Replay.Moves.{
  Move, stays, takes, does, drops, share, flight, ops_of, step-Move,
}

module _ {B : Type 0} (replay : Replay B) where
  -- `all` are the recording's operations.
  pub record InOrder (all : List (OpLine B)) (w : ℤ) (s : State B) : Type 0 where
    pub rest : List (OpLine B)
    pub order : share replay w all ≡ ops_of replay (s.sent w) ++ flight replay (s.running w) ++ rest
    pub coming : (rest ≡ s.queues w ++ share replay w s.todo) ⊎ (s.stopped ≡ true)

  Move-InOrder :
      {all : List (OpLine B)} (w : ℤ) (s s' : State B)
      → Move replay w s s'
      → InOrder all w s
      → InOrder all w s'
  Move-InOrder w s s' (stays a r q b) i = record {
    rest = i.rest;
    order = rw (a, r) i.order;
    coming = elim i.coming [
      | inr y ↦ inr (elim b [ inl e ↦ e ∙ y | inr e ↦ e ])
      | inl x ↦ inl (x ∙ sym q)
    ];
  }
  Move-InOrder w s s' (takes o a n r q f f') i = elim i.coming [
    | inl x ↦ record {
      rest = s'.queues w ++ share replay w s'.todo;
      order =
          i.order
          ∙ (ap (λ z. ops_of replay (s.sent w) ++ flight replay z ++ i.rest) n
              ∙ rw (a, r, append-nil (ops_of replay (s.sent w)), x, q)
                  (sym (
                    append_assoc (ops_of replay (s.sent w)) (o ∷ [])
                      (s'.queues w ++ share replay w s'.todo))));
      coming = inl refl;
    }
    | inr y ↦ absurd cc
  ]
  Move-InOrder w s s' (does o a r n q b) i = record {
    rest = i.rest;
    order =
        i.order
        ∙ (ap (λ z. ops_of replay (s.sent w) ++ flight replay z ++ i.rest) r
            ∙ rw (n, a, append-nil (ops_of replay (s.sent w) ++ o ∷ [])) refl);
    coming = elim i.coming [ inl x ↦ inl (x ∙ sym q) | inr y ↦ inr (b ∙ y) ];
  }
  Move-InOrder w s s' (drops a n b) i = record {
    rest = flight replay (s.running w) ++ i.rest;
    order =
        i.order
        ∙ rw (n, a, append-nil (ops_of replay (s.sent w)))
            (append_assoc (ops_of replay (s.sent w)) (flight replay (s.running w)) i.rest);
    coming = inr b;
  }

  start-InOrder : (all : List (OpLine B)) (w : ℤ) → InOrder all w (start all)
  start-InOrder all w = record { rest = share replay w all; order = refl; coming = inl refl }

  run-Kept :
      (evs : List (Event B)) (all : List (OpLine B)) (w : ℤ) (s s' : State B)
      → InOrder all w s
      → run replay evs s ≡ some s'
      → InOrder all w s'
  unfolding run
  run-Kept [] all w s s' i h = let x : s ≡ s' = ground arith in subst (InOrder all w) x i
  run-Kept (ev ∷ evs) all w s s' i h = elim (Option-cases (step replay ev s)) [
    | inl e ↦ ground arith
    | inr (t, e) ↦
        run-Kept evs all w t s' (Move-InOrder w s t (step-Move replay ev w s t e) i) (ground arith)
  ]

  -- At any moment of a replay, whatever the order in which the callback and the workers go on, what
  -- a worker has executed is the beginning of its operations of the recording, in the recording's
  -- order, without those that are skipped; its running operation comes next; and unless the context
  -- was stopped, those in its queue and those still to be read follow.
  pub run-InOrder :
      (evs : List (Event B)) (all : List (OpLine B)) (w : ℤ) (s : State B)
      → run replay evs (start all) ≡ some s
      → InOrder all w s
  run-InOrder evs all w s h = run-Kept evs all w (start all) s (start-InOrder all w) h
