-- ===== src/Miniz/Codec.antt =====
-- lminiz.cpp, whole texts compressed and decompressed, and the two checksums.
use evo_runtime.Common.{
  ℕ, zero, suc, ◌*◌, Bool, true, false, not, ◌&&◌, ◌||◌, Option, none, some, [], ◌∷◌, if◌then◌else◌,
  ltb, length,
}
use evo_runtime.Common.Bytes.{Bytes, ◌>>=◌}
use evo_runtime.Common.Int.{ℤ, pos, less, to_unsigned, to_int}
use evo_runtime.Miniz.Values.{Message, LuaValue, Returned, pushed_string, optional}

pub data Status : Type 0 where
  ok stream_end buf_error : Status
  other : ℤ → Status

abbrev pub is_buf_error : Status → Bool
is_buf_error Status.buf_error = true
is_buf_error _ = false

-- miniz's functions on whole texts. `compress2` and `uncompress` are given the size of the buffer,
-- and return what they wrote into it where the status is `ok`. `error` is `mz_error`.
pub record Miniz : Type 0 where
  pub default_compression : ℤ
  pub best_compression : ℤ
  pub error : Status → Option Bytes
  pub compress_bound : ℕ → ℕ
  pub compress2 : ℕ → Bytes → ℤ → Status × Bytes
  pub uncompress : ℕ → Bytes → Status × Bytes
  pub decompress_mem_to_heap : Bytes → ℤ → Option Bytes × ℕ
  pub compress_mem_to_heap : Bytes → ℤ → Option Bytes × ℕ
  pub adler32 : ℕ → Option Bytes → ℕ
  pub crc32 : ℕ → Option Bytes → ℕ

-- `INT_MAX`
abbrev pub int_max : ℕ
int_max = 2147483647

module _ (miniz : Miniz) where
  -- The level, or `none` where the check raises an error.
  unfoldable pub lmz_check_compression_level : Option ℤ → Option ℤ
  lmz_check_compression_level given =
      let level = to_int (optional given miniz.default_compression) in
      if less level miniz.default_compression || less miniz.best_compression level
      then none
      else some level

  -- The two branches of the `switch` on what miniz returned.
  abbrev pub finished : Status → Bytes → Returned
  finished Status.ok out = Returned.values (LuaValue.text out ∷ [])
  finished ret out = Returned.values (LuaValue.nil ∷ pushed_string (miniz.error ret) ∷ [])

  unfoldable pub lmz_compress : Bytes → Option ℤ → Returned
  unfolding lmz_check_compression_level
  lmz_compress inb level = elim (lmz_check_compression_level level) [
    | none ↦ Returned.raised Message.level_out_of_range
    | some l ↦
        let (ret, outb) = miniz.compress2 (miniz.compress_bound (length inb)) inb l in
        finished ret outb
  ]

  -- The loop, with at most `fuel` rounds; `size` is `outb.size()`, which `out_len` is equal to.
  unfoldable pub uncompress_loop : (fuel : ℕ) → Bytes → (size : ℕ) → Option (Status × Bytes)
  uncompress_loop zero inb size = none
  uncompress_loop (suc fuel) inb size =
      let out_len = size * 2 in
      let rest = uncompress_loop fuel inb out_len in
      let (ret, outb) = miniz.uncompress size inb in
      if not (is_buf_error ret)
      then some (ret, outb)
      else if ltb 1 out_len && ltb out_len int_max
      then rest
      else some (ret, outb)

  -- The rounds of the loop are counted down from 31.
  unfoldable pub lmz_uncompress : Bytes → Option ℤ → Option Returned
  unfolding uncompress_loop
  lmz_uncompress inb given =
      let out_len = to_unsigned 64 (optional given (pos (length inb * 2))) in
      if ltb out_len 1 || ltb int_max out_len
      then some (Returned.raised Message.size_out_of_range)
      else uncompress_loop 31 inb out_len >>= λ (ret, outb). some (finished ret outb)

  -- `tinfl_decompress_mem_to_heap` or `tdefl_compress_mem_to_heap`, whose pointer is not tested.
  abbrev pub heap_text : Option Bytes × ℕ → Returned
  heap_text (none, out_len) = Returned.values (LuaValue.text_of_null out_len ∷ [])
  heap_text (some out_buf, out_len) = Returned.values (LuaValue.text out_buf ∷ [])

  unfoldable pub ltinfl : Bytes → Option ℤ → Returned
  ltinfl in_buf flags =
      heap_text (miniz.decompress_mem_to_heap in_buf (to_int (optional flags (pos 0))))

  unfoldable pub ltdefl : Bytes → Option ℤ → Returned
  ltdefl in_buf flags =
      heap_text (miniz.compress_mem_to_heap in_buf (to_int (optional flags (pos 0))))

  unfoldable pub lmz_adler32 : Option Bytes → Option ℤ → Returned
  lmz_adler32 buf adler =
      Returned.values
        (LuaValue.integer (miniz.adler32 (to_unsigned 64 (optional adler (pos 1))) buf) ∷ [])

  unfoldable pub lmz_crc32 : Option Bytes → Option ℤ → Returned
  lmz_crc32 buf crc32 =
      Returned.values
        (LuaValue.integer (miniz.crc32 (to_unsigned 64 (optional crc32 (pos 0))) buf) ∷ [])
