-- ===== src/Replay/Hash.antt =====
-- The commands hash of a replay (runWorkloadReplay), and the one that the recorder put into the
-- trailer of the recording.
use percona_load_generator_m.Prelude.{
  ℕ, ◌+◌, ◌≡◌, refl, sym, ap, ◌∙◌, inl, inr, String, Bool, true, false, Option, none, some, List,
  [], ◌∷◌, map, All, ltb, Bool-cases, Option-cases, if◌then◌else◌, ap₂,
}
use percona_load_generator_m.Prelude.Int.{ℤ, pos, pos_part}
use percona_load_generator_m.Prelude.Keys.{◌=?◌, beq_refl, insert, int_eq, string_eq}
use percona_load_generator_m.Recording.Format.{u64, OpLine, Trailer, status_complete}
use percona_load_generator_m.Recording.Codec.{Codec}
use percona_load_generator_m.Recording.Reader.{count_of}
use percona_load_generator_m.Recording.Sums.{enumerate, enumerate-ext}
use percona_load_generator_m.Recording.Sorted.{sort_pairs-id}
use percona_load_generator_m.Recording.Hashes.{sum_of_sent, commands_in, AreWorkers, hash_of_done}
use percona_load_generator_m.Recording.Writer.State.{Entry, Queued}
use percona_load_generator_m.Recording.Writer.Steps.{line_of}
use percona_load_generator_m.Recording.Writer.Close.{combine_hashes}
use percona_load_generator_m.Recording.Writer.Run.{lines_from}
use percona_load_generator_m.Recording.Writer.Finished.{Finished}
use percona_load_generator_m.Replay.{Replay, State, start, Event, run, final_status}
use percona_load_generator_m.Replay.Moves.{share, ops_of}
use percona_load_generator_m.Replay.Held.{held}
use percona_load_generator_m.Replay.Skipped.{run_skipped}
use percona_load_generator_m.Replay.Progress.{IsOver}
use percona_load_generator_m.Replay.Complete.{final_status-InOrder}

module _ (c : Codec) where
  open c use {Bytes}

  abbrev pub sent_commands : List (OpLine Bytes × Bytes) → List Bytes
  sent_commands ps = map (λ p. p.1) ps

  -- The sums of the workers 1, 2, … that sent something, combined.
  unfoldable pub replay_hash : Replay Bytes → State Bytes → String
  replay_hash replay s =
      combine_hashes c
        (enumerate 1 (pos_part replay.workers) (λ w. sum_of_sent c (sent_commands (s.sent w))))

  -- `CommandsHashMatch`
  unfoldable pub hash_match : Replay Bytes → Option Trailer → State Bytes → Option Bool
  hash_match replay trailer s = if ltb 0 s.skipped then none else elim trailer [
    | none ↦ none
    | some t ↦
        if t.commands_hash =? "" then none else some (replay_hash replay s =? t.commands_hash)
  ]

  -- A replay that skips nothing hands a worker its commands of the recording.
  share-commands_in :
      (replay : Replay Bytes) (w : ℤ) (n : ℕ) (seqs : List (ℤ × ℕ)) (qs : List (Queued c))
      → replay.reads_only ≡ false
      → map (λ o. o.cmd) (share replay w (lines_from c n seqs qs)) ≡ commands_in c w qs
  unfolding share lines_from commands_in line_of
  share-commands_in replay w n seqs [] k = refl
  share-commands_in replay w n seqs (q ∷ qs) k =
      let i = u64 (count_of q.entry.worker seqs + 1) in
      let rest = share-commands_in replay w (u64 (n + 1)) (insert q.entry.worker i seqs) qs k in
      elim (Bool-cases (q.entry.worker =? w)) [
        | inl e ↦ rw (k, e) (ap (λ bs. q.cmd ∷ bs) rest)
        | inr e ↦ rw (k, e) rest
      ]

  -- What was sent is what the recording holds, as `replayExecFn` sends an operation's own command.
  abbrev pub SendsOwn : List (OpLine Bytes × Bytes) → Type 0
  SendsOwn ps = All (λ p. p.1 ≡ p.0.cmd) ps

  own_commands :
      (replay : Replay Bytes) (ps : List (OpLine Bytes × Bytes))
      → SendsOwn ps
      → sent_commands ps ≡ map (λ o. o.cmd) (ops_of replay ps)
  own_commands replay [] a = refl
  own_commands replay (p ∷ ps) a = ap₂ (λ b bs. b ∷ bs) a.0 (own_commands replay ps a.1)

  idle :
      (replay : Replay Bytes) (w : ℤ) (s : State Bytes)
      → held replay s w ≡ []
      → (s.queues w ≡ []) × (s.running w ≡ none)
  idle replay w s h = elim (Option-cases (s.running w)) [
    | inl e ↦ (rw e at h, e)
    | inr (o, e) ↦ let h' : o ∷ s.queues w ≡ [] = rw e at h in absurd cc
  ]

  -- A replay of a finished recording with as many workers, which leaves out no operation, was not
  -- cancelled, has ended as complete and sent for each operation the recording's own command has
  -- the commands hash of the recording's trailer, and so reports that they match (and nothing where
  -- the trailer has no hash), in whatever order its workers worked.
  pub hash_match-Finished :
      {os : List (Entry c × ℤ)} {head : Bytes} {file : List Bytes} (replay : Replay Bytes)
      (f : Finished c os head file) (evs : List (Event Bytes)) (s : State Bytes)
      → replay.reads_only ≡ false
      → AreWorkers c (pos_part replay.workers) f.done
      → run replay evs (start (lines_from c 0 [] f.done)) ≡ some s
      → s.cancelled ≡ false
      → IsOver replay s
      → final_status replay s ≡ status_complete
      → ((w : ℤ) → SendsOwn (s.sent w))
      → (replay_hash replay s ≡ f.trailer.commands_hash)
        × (hash_match replay (some f.trailer) s
            ≡ (if f.trailer.commands_hash =? "" then none else some true))
  unfolding replay_hash hash_match combine_hashes
  hash_match-Finished replay f evs s k a h n over done own =
      let all = lines_from c 0 [] f.done in
      let same : (w : ℤ) → sent_commands (s.sent w) ≡ commands_in c w f.done = λ w.
        let (q, r) = idle replay w s (over.1 w) in
        own_commands replay (s.sent w) (own w)
        ∙ (ap (map (λ o. o.cmd)) (sym (final_status-InOrder replay evs all w s h n over.0 q r done))
            ∙ share-commands_in replay w 0 [] f.done k) in
      let sums : ℤ → Option String = λ w. sum_of_sent c (sent_commands (s.sent w)) in
      let hash : replay_hash replay s ≡ f.trailer.commands_hash =
        ap c.pairs_sum (
          sort_pairs-id (pos_part replay.workers) 1 sums
          ∙ enumerate-ext (pos_part replay.workers) 1 sums
              (λ w. sum_of_sent c (commands_in c w f.done))
              (λ j b l. ap (sum_of_sent c) (same (pos j))))
        ∙ (sym (hash_of_done c (pos_part replay.workers) f.done a) ∙ sym f.hash) in
      let skipped : s.skipped ≡ 0 = run_skipped replay evs (start all) s k h in
      let agree : (replay_hash replay s =? f.trailer.commands_hash) ≡ true =
        rw hash (beq_refl f.trailer.commands_hash) in
      (hash, rw (skipped, agree) refl)
