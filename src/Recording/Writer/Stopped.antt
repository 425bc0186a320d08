-- ===== src/Recording/Writer/Stopped.antt =====
-- A Recorder that stopped: nothing changes what it reports or its file.
use percona_load_generator_m.Prelude.{
  ◌≡◌, refl, ◌∙◌, String, false, Option, List, [], ◌∷◌, if_split, leb, List-cases, inl, inr,
}
use percona_load_generator_m.Recording.Codec.{Codec}
use percona_load_generator_m.Recording.Writer.State.{is_recording, Recorder}
use percona_load_generator_m.Recording.Writer.Steps.{stop, fail, set_iteration, drain, record_op}
use percona_load_generator_m.Recording.Writer.Run.{
  Event, records, drains, fails, iterates, step, run,
}
use percona_load_generator_m.Recording.Writer.Faithful.{drain-next, drain-empty}

module _ (c : Codec) where
  -- The same state, reason, counts, lines written and file.
  abbrev pub SameReport : Recorder c → Recorder c → Type 0
  SameReport r' r =
      (r'.state ≡ r.state)
      × (r'.reason ≡ r.reason)
      × (r'.ops ≡ r.ops)
      × (r'.bytes ≡ r.bytes)
      × (r'.written ≡ r.written)
      × (r'.file ≡ r.file)

  drain-SameReport :
      (io : Option String) (r : Recorder c)
      → is_recording r.state ≡ false
      → SameReport (drain c io r) r
  drain-SameReport io r h = elim (List-cases r.queue) [
    | inl e ↦ rw (drain-empty c io r e) (refl, refl, refl, refl, refl, refl)
    | inr (q, qs, e) ↦ rw (drain-next c io r q qs e, h) (refl, refl, refl, refl, refl, refl)
  ]

  step-SameReport :
      (ev : Event c) (r : Recorder c) → is_recording r.state ≡ false → SameReport (step c ev r) r
  unfolding step record_op fail stop set_iteration
  step-SameReport (records e d io) r h = rw h (refl, refl, refl, refl, refl, refl)
  step-SameReport (drains io) r h = drain-SameReport io r h
  step-SameReport (fails why) r h = rw h (refl, refl, refl, refl, refl, refl)
  step-SameReport (iterates n) r h =
      if_split (λ (x : Recorder c). SameReport x r) (leb 1 n)
        (λ k. (refl, refl, refl, refl, refl, refl)) (λ k. (refl, refl, refl, refl, refl, refl))

  -- Once a Recorder is truncated or failed, no further call of its workers and no round of its writer
  -- changes the state, the reason of the first stop, the counts of operations and bytes, the lines written, or the
  -- file.
  pub run-SameReport :
      (evs : List (Event c)) (r : Recorder c)
      → is_recording r.state ≡ false
      → SameReport (run c evs r) r
  unfolding run
  run-SameReport [] r h = (refl, refl, refl, refl, refl, refl)
  run-SameReport (ev ∷ evs) r h =
      let a = step-SameReport ev r h in
      let b = run-SameReport evs (step c ev r) (rw a.0 h) in
      (b.0 ∙ a.0, b.1 ∙ a.1, b.2 ∙ a.2, b.3 ∙ a.3, b.4 ∙ a.4, b.5 ∙ a.5)
