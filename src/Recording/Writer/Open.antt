-- ===== src/Recording/Writer/Open.antt =====
-- writer.go: `NewRecorder`.
use percona_load_generator_m.Prelude.{
  ℕ, ◌*◌, String, Bool, not, ◌&&◌, ◌||◌, Option, none, some, [], ◌∷◌, Result, ok, err, ◌>>◌, refuse,
  if◌then◌else◌,
}
use percona_load_generator_m.Prelude.Int.{
  ℤ, pos, pos_part, neg_part, sub_ℕ, ◌+ℤ◌, int64, ltb_ℤ, leb_ℤ,
}
use percona_load_generator_m.Prelude.Keys.{◌=?◌, int_eq, string_eq}
use percona_load_generator_m.Recording.Format.{
  Header, format_version, line_header, backpressure_fail, backpressure_block, compression_none,
  compression_zstd, compression_gzip,
}
use percona_load_generator_m.Recording.Codec.{Codec}
use percona_load_generator_m.Recording.Writer.State.{
  recording, Options, OpenError, unknown_backpressure, unknown_compression, overwrite_refused,
  not_opened, no_permissions, no_compressor, header_failed, max_bytes_below_header, OpenIo, policy,
  Recorder,
}

-- `ValidCompression`
abbrev pub valid_compression : String → Bool
valid_compression s = s =? compression_none || s =? compression_zstd || s =? compression_gzip

abbrev pub io_step : Option String → (String → OpenError) → Result OpenError Unit
io_step none e = ok tt
io_step (some s) e = err (e s)

-- k * a in 64 bits, for a constant k.
abbrev pub scale : ℕ → ℤ → ℤ
scale k a = int64 (sub_ℕ (k * pos_part a) (k * neg_part a))

-- The bytes kept free for the trailer.
unfoldable pub reserve_for : Header → ℤ
reserve_for h =
    int64 (int64 (pos 1024 +ℤ scale 200 (int64 (h.workers +ℤ pos 1))) +ℤ scale 64 h.iterations)

module _ (c : Codec) where
  open c use {Bytes, Command}

  -- The header as `NewRecorder` completes it; `now` is the time in its format.
  unfoldable pub complete_header : Options → String → Header → Header
  complete_header o now h = record h {
    kind = line_header;
    format = format_version;
    failure_policy = policy o.backpressure;
    max_bytes = o.max_bytes;
    backpressure = if o.backpressure =? backpressure_block then backpressure_block else "";
    iterations = if leb_ℤ h.iterations (pos 1) then pos 0 else h.iterations;
    interval_delay = if leb_ℤ h.iterations (pos 1) then "" else h.interval_delay;
    created_at = if h.created_at =? "" then now else h.created_at;
  }

  -- The defaults of `NewRecorder`.
  unfoldable pub default_options : Options → Options
  default_options o = record {
    queue_size = if leb_ℤ o.queue_size (pos 0) then pos 65536 else o.queue_size;
    max_bytes = if ltb_ℤ o.max_bytes (pos 0) then pos 0 else o.max_bytes;
    backpressure = if o.backpressure =? "" then backpressure_fail else o.backpressure;
    compression = if o.compression =? "" then compression_none else o.compression;
  }

  unfoldable pub start_recorder : Options → Header → Bytes → Recorder c
  start_recorder o h b = record {
    max_bytes = pos_part o.max_bytes;
    reserve = reserve_for h;
    block = o.backpressure =? backpressure_block;
    multi = ltb_ℤ (pos 1) h.iterations;
    outcomes = h.outcomes;
    checksums = h.result_checksums;
    capacity = pos_part o.queue_size;
    queue = [];
    state = recording;
    reason = "";
    ops = 0;
    bytes = c.size b;
    iteration = pos 1;
    waits = 0;
    wait_total = 0;
    wait_max = 0;
    last_iter_seen = pos 0;
    seq = 0;
    worker_seq = [];
    hashes = [];
    iter_ops = [];
    written = b ∷ [];
    file = b ∷ [];
  }

  unfoldable pub new_recorder : Options → String → Header → OpenIo → Result OpenError (Recorder c)
  unfolding default_options complete_header start_recorder
  new_recorder opts now h₀ io = do
    let o = default_options opts
    refuse (not (o.backpressure =? backpressure_fail) && not (o.backpressure =? backpressure_block))
        (unknown_backpressure o.backpressure)
    refuse (not (valid_compression o.compression)) (unknown_compression o.compression)
    io_step io.overwrite overwrite_refused
    io_step io.open_file not_opened
    io_step io.chmod no_permissions
    io_step io.compressor no_compressor
    let h = complete_header o now h₀
    elim (c.encode_header h) [
      | err e ↦ err (header_failed e)
      | ok b ↦ (do
        io_step io.header_write header_failed
        refuse (ltb_ℤ (pos 0) o.max_bytes && ltb_ℤ o.max_bytes (pos (c.size b)))
            (max_bytes_below_header o.max_bytes)
        io_step io.flush header_failed
        ok (start_recorder o h b))
    ]
