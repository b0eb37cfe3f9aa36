-- ===== src/Miniz/Streams.antt =====
-- lminiz.cpp, streams that are compressed and decompressed piece by piece.
use evo_runtime.Common.{
  ℕ, zero, suc, Bool, true, false, not, Option, none, some, [], ◌∷◌, ◌++◌, if◌then◌else◌, ◌==◌,
  length,
}
use evo_runtime.Common.Bytes.{Bytes}
use evo_runtime.Common.Int.{ℤ}
use evo_runtime.Miniz.Values.{Message, LuaValue, Returned, pushed_string}
use evo_runtime.Miniz.Codec.{Status, Miniz, lmz_check_compression_level}

-- What one call of `mz_inflate` or `mz_deflate` does: its status, the bytes that it adds to the
-- output and to `total_out`, and the stream afterwards. `avail_out` is what the bytes leave of the
-- buffer.
pub record Round (S : Type 0) : Type 0 where
  pub status : Status
  pub added : Bytes
  pub after : S

-- miniz's streams, over its own state of one. `feed` sets `avail_in` and `next_in`; a call of the
-- other two is given the flush mode, as its place in `flush_types`. `buffer_size` is
-- `LUAL_BUFFERSIZE`.
pub record Engine (S : Type 0) : Type 0 where
  pub buffer_size : ℕ
  pub deflate_init : ℤ → Status × S
  pub inflate_init : Status × S
  pub deflate_end : S → S
  pub inflate_end : S → S
  pub feed : Bytes → S → S
  pub inflate : S → ℕ → Round S
  pub deflate : S → ℕ → Round S

-- `lmz_stream_t`
pub record LmzStream (S : Type 0) : Type 0 where
  pub mode : ℕ
  pub stream : S

module _ (miniz : Miniz) {S : Type 0} (engine : Engine S) where
  -- The test of the status, and the mode that is set behind it.
  abbrev pub initialised : ℕ → Status → S → Returned × Option (LmzStream S)
  initialised mode Status.ok s =
      (Returned.values (LuaValue.userdata ∷ []), some (record { mode = mode; stream = s }))
  initialised mode status s = (Returned.raised (Message.no_stream (miniz.error status)), none)

  unfoldable pub lmz_deflator_init : Option ℤ → Returned × Option (LmzStream S)
  unfolding lmz_check_compression_level
  lmz_deflator_init level = elim (lmz_check_compression_level miniz level) [
    | none ↦ (Returned.raised Message.level_out_of_range, none)
    | some l ↦ let (status, s) = engine.deflate_init l in initialised 0 status s
  ]

  unfoldable pub lmz_inflator_init : Returned × Option (LmzStream S)
  lmz_inflator_init = let (status, s) = engine.inflate_init in initialised 1 status s

  unfoldable pub lmz_deflator_gc : LmzStream S → LmzStream S
  lmz_deflator_gc stream = record stream { stream = engine.deflate_end stream.stream }

  unfoldable pub lmz_inflator_gc : LmzStream S → LmzStream S
  lmz_inflator_gc stream = record stream { stream = engine.inflate_end stream.stream }

  -- One round of the loop: `mz_inflate` where the mode is not zero.
  unfoldable pub process : LmzStream S → ℕ → Round S
  process stream flush =
      if not (stream.mode == 0)
      then engine.inflate stream.stream flush
      else engine.deflate stream.stream flush

  -- The `switch`: what the buffer holds afterwards, and whether the function returns here.
  abbrev pub collected : Status → Bytes → Bytes → Bytes × Bool
  collected Status.ok buf added = (buf ++ added, false)
  collected Status.stream_end buf added = (buf ++ added, false)
  collected Status.buf_error buf added = (buf, false)
  collected (Status.other n) buf added = (buf, true)

  -- The loop, with at most `fuel` rounds.
  unfoldable pub process_loop :
      (fuel : ℕ) → LmzStream S → ℕ → Bytes → Option (Returned × LmzStream S)
  unfolding process
  process_loop zero stream flush buf = none
  process_loop (suc fuel) stream flush buf =
      let round = process stream flush in
      let next = record stream { stream = round.after } in
      let (kept, failed) = collected round.status buf round.added in
      let rest = process_loop fuel next flush kept in
      if failed
      then some (
        Returned.values
            (LuaValue.nil ∷ pushed_string (miniz.error round.status) ∷ LuaValue.text kept ∷ []),
        next,
      )
      else if length round.added == engine.buffer_size
      then rest
      else some (Returned.values (LuaValue.text kept ∷ []), next)

  unfoldable pub lmz_inflator_deflator_impl :
      (fuel : ℕ) → LmzStream S → Bytes → ℕ → Option (Returned × LmzStream S)
  unfolding process_loop
  lmz_inflator_deflator_impl fuel stream text flush =
      process_loop fuel (record stream { stream = engine.feed text stream.stream }) flush []
