-- ===== src/Replay/HashExamples.antt =====
-- A recording of three operations of two workers, and a replay in another order.
use Prim.Native.String.{◌++◌ as text_append}
use percona_load_generator_m.Prelude.{
  ℕ, ◌≡◌, refl, subst, String, true, false, none, some, List, [], ◌∷◌, map, ok, err, arith, inl,
  inr, Bool-cases, ◌==◌, if◌then◌else◌,
}
use percona_load_generator_m.Prelude.Int.{ℤ, pos, eqb_ℤ_iff}
use percona_load_generator_m.Prelude.Keys.{◌=?◌, int_eq, string_eq, insert, lookup}
use percona_load_generator_m.Recording.Format.{Trailer, status_complete, op_iteration}
use percona_load_generator_m.Recording.Codec.{Codec}
use percona_load_generator_m.Recording.Writer.State.{Queued}
use percona_load_generator_m.Recording.Writer.Steps.{line_of}
use percona_load_generator_m.Recording.Writer.Close.{
  combine_hashes, sums_of, sort_pairs, insert_pair,
}
use percona_load_generator_m.Recording.Writer.Run.{lines_from, offer_of, hashes_after}
use percona_load_generator_m.Recording.Writer.Lines.{Encoded}
use percona_load_generator_m.Recording.Writer.Finished.{Finished}
use percona_load_generator_m.Replay.{
  Replay, State, start, Event, reads, ends_reading, starts, returns, executed, read_op, end_reading,
  start_op, return_op, step, run, final_status,
}
use percona_load_generator_m.Replay.Held.{held}
use percona_load_generator_m.Replay.Hash.{SendsOwn, replay_hash, hash_match, hash_match-Finished}

-- Byte strings are numbers, and a hash spells what it covers.
abbrev letter : ℕ → String
letter n = if n == 1 then "a" else if n == 2 then "b" else "c"

abbrev spell : List ℕ → String
spell [] = ""
spell (n ∷ ns) = text_append (letter n) (spell ns)

abbrev spell_pairs : List (ℤ × String) → String
spell_pairs [] = ""
spell_pairs ((w, t) ∷ ps) = text_append t (text_append ";" (spell_pairs ps))

abbrev spelled : Codec
spelled = record {
  Bytes = ℕ;
  Command = ℕ;
  encode_command = λ n. ok n;
  encode_op = λ l. ok l.seq;
  encode_header = λ h. ok 0;
  encode_trailer = λ t. ok 9;
  decode_op = λ b. err "not decoded";
  decode_header = λ b. err "not decoded";
  decode_trailer = λ b. err "not decoded";
  decode_type = λ b. err "not decoded";
  valid = λ b. true;
  size = λ b. 1;
  trim_right = λ b. b;
  is_blank = λ b. false;
  has_type = λ b t. false;
  is_object = λ b. true;
  hash = λ b. letter b;
  stream_sum = spell;
  pairs_sum = spell_pairs;
}

abbrev queued : ℕ → ℕ → ℕ → Queued spelled
queued w cmd i = record {
  entry = record {
    worker = pos w;
    offset = 0;
    ns = "shop.orders";
    op = "find";
    path = "";
    is_ok = true;
    existing = true;
    query = none;
    shape = none;
    command = cmd;
    outcome = none;
    flags = [];
  };
  cmd = cmd;
  iteration = pos i;
}

abbrev recorded : List (Queued spelled)
recorded = queued 1 1 1 ∷ queued 2 2 1 ∷ queued 1 3 2 ∷ []

abbrev last_line : Trailer
last_line = record {
  kind = "trailer";
  status = status_complete;
  reason = "";
  ops = 3;
  bytes = 4;
  worker_ops = [];
  worker_hashes = [];
  commands_hash = "ac;b;";
  iteration_ops = [];
  waits = 0;
  wait_total_us = 0;
  wait_max_us = 0;
}

recorded_lines : Encoded spelled (lines_from spelled 0 [] recorded) (1 ∷ 2 ∷ 3 ∷ [])
unfolding lines_from line_of insert lookup
recorded_lines = (refl, (refl, (refl, tt)))

recorded_hash :
    last_line.commands_hash
    ≡ combine_hashes spelled (sums_of spelled (hashes_after spelled [] recorded))
unfolding hashes_after insert lookup combine_hashes sums_of sort_pairs insert_pair
recorded_hash = refl

abbrev finished : Finished spelled (map (offer_of spelled) recorded) 0 (0 ∷ 1 ∷ 2 ∷ 3 ∷ 9 ∷ [])
finished = record {
  done = recorded;
  lines = 1 ∷ 2 ∷ 3 ∷ [];
  trailer = last_line;
  last = 9;
  all = refl;
  sent = (refl, (refl, (refl, tt)));
  encoded = recorded_lines;
  contents = refl;
  ended = refl;
  kind = refl;
  status = refl;
  count = refl;
  hash = recorded_hash;
}

abbrev replay : Replay ℕ
replay = record {
  workers = pos 2;
  reads_only = false;
  is_write = λ o. false;
  ops_total = 3;
  stream_end = none;
}

abbrev events : List (Event ℕ)
events =
    reads
    ∷ reads
    ∷ starts (pos 1)
    ∷ starts (pos 2)
    ∷ returns (pos 1) (executed false 1)
    ∷ returns (pos 2) (executed true 2)
    ∷ reads
    ∷ ends_reading
    ∷ starts (pos 1)
    ∷ returns (pos 1) (executed true 3)
    ∷ []

abbrev ended : State ℕ
ended = elim (run replay events (start (lines_from spelled 0 [] recorded))) [
  | none ↦ start []
  | some s ↦ s
]

by_worker :
    (P : ℤ → Type 0)
    → P (pos 1)
    → P (pos 2)
    → ((w : ℤ) → (pos 1 =? w) ≡ false → (pos 2 =? w) ≡ false → P w)
    → (w : ℤ) → P w
by_worker P a b others w = elim (Bool-cases (pos 1 =? w)) [
  | inl e ↦ subst P ((eqb_ℤ_iff (pos 1) w).0 e) a
  | inr e ↦ elim (Bool-cases (pos 2 =? w)) [
    | inl d ↦ subst P ((eqb_ℤ_iff (pos 2) w).0 d) b
    | inr d ↦ others w e d
  ]
]

hash_match-Finished_example :
    (replay_hash spelled replay ended ≡ "ac;b;")
    × (hash_match spelled replay (some last_line) ended ≡ some true)
unfolding run step read_op op_iteration start_op return_op end_reading final_status lines_from
    line_of insert lookup
hash_match-Finished_example =
    hash_match-Finished spelled replay finished events ended refl
      (
        (1, refl, omega arith, omega arith),
        ((2, refl, omega arith, omega arith), ((1, refl, omega arith, omega arith), tt)),
      )
      refl refl
      (refl, by_worker (λ w. held replay ended w ≡ []) refl refl (λ w a b. rw (a, b) refl)) refl
      (by_worker (λ w. SendsOwn spelled (ended.sent w)) (refl, (refl, tt)) (refl, tt)
        (λ w a b. rw (a, b) tt))
