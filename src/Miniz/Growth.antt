-- ===== src/Miniz/Growth.antt =====
-- `lmz_uncompress`: the buffer that grows until the text fits.
use evo_runtime.Common.{
  ℕ, zero, suc, ◌*◌, ◌%◌, ◌^◌, ◌≤◌, ◌<◌, ◌≡◌, refl, ap, ◌∙◌, true, false, ◌||◌, Option, some, [],
  ◌∷◌, if◌then◌else◌, ltb, leb, length, arith, Bool-cases, Option-cases, inl, inr, lt→ltb, ltb→lt,
  leb→le,
}
use evo_runtime.Common.Bytes.{Bytes, ◌>>=◌}
use evo_runtime.Common.Int.{ℤ, pos, to_unsigned}
use evo_runtime.Miniz.Values.{Message, LuaValue, Returned, optional}
use evo_runtime.Miniz.Codec.{
  Status, is_buf_error, Miniz, int_max, lmz_check_compression_level, lmz_compress, finished,
  uncompress_loop, lmz_uncompress,
}

double : (a k : ℕ) → a * 2 * 2 ^ k ≡ a * 2 ^ suc k
double a k = grind arith

module _ (miniz : Miniz) (inb : Bytes) (fuel size : ℕ) where
  -- What a round of the loop does, by what miniz returns and by what the doubled size is.
  round_ends :
      is_buf_error (miniz.uncompress size inb).0 ≡ false
      → uncompress_loop miniz (suc fuel) inb size ≡ some (miniz.uncompress size inb)
  unfolding uncompress_loop
  round_ends e = rw e refl

  round_stops :
      int_max ≤ size * 2
      → uncompress_loop miniz (suc fuel) inb size ≡ some (miniz.uncompress size inb)
  unfolding uncompress_loop
  round_stops h = ground (arith, h)

  round_doubles :
      is_buf_error (miniz.uncompress size inb).0 ≡ true
      → 1 ≤ size
      → size * 2 < int_max
      → uncompress_loop miniz (suc fuel) inb size ≡ uncompress_loop miniz fuel inb (size * 2)
  unfolding uncompress_loop
  round_doubles e h k =
      rw (e, lt→ltb 1 (size * 2) (omega (arith, h)), lt→ltb (size * 2) int_max k) refl

module _ (miniz : Miniz) (inb : Bytes) where
  -- With as many rounds as it takes to double the size past INT_MAX, the loop ends.
  pub uncompress_loop_ends :
      (fuel size : ℕ)
      → 1 ≤ size
      → int_max ≤ size * 2 * 2 ^ fuel
      → (answer : Status × Bytes) × (uncompress_loop miniz (suc fuel) inb size ≡ some answer)
  uncompress_loop_ends zero size h k =
      (miniz.uncompress size inb, round_stops miniz inb zero size (omega (arith, k)))
  uncompress_loop_ends (suc fuel) size h k =
      elim (Bool-cases (is_buf_error (miniz.uncompress size inb).0)) [
        | inr e ↦ (miniz.uncompress size inb, round_ends miniz inb (suc fuel) size e)
        | inl e ↦ elim (Bool-cases (ltb (size * 2) int_max)) [
          | inr f ↦
              (miniz.uncompress size inb, round_stops miniz inb (suc fuel) size (ground (arith, f)))
          | inl f ↦
              let (answer, g) =
                uncompress_loop_ends fuel (size * 2) (omega (arith, h))
                  (omega (arith, k, double (size * 2) fuel)) in
              (
                answer,
                round_doubles miniz inb (suc fuel) size e h (ltb→lt (size * 2) int_max f) ∙ g,
              )
        ]
      ]

  -- The text is found once the buffer is large enough, if it is no longer than a gigabyte.
  pub uncompress_loop_finds :
      (fuel size : ℕ) (text : Bytes)
      → ((c : ℕ) → length text ≤ c → miniz.uncompress c inb ≡ (Status.ok, text))
      → ((c : ℕ) → c < length text → is_buf_error (miniz.uncompress c inb).0 ≡ true)
      → 1 ≤ size
      → length text ≤ 2 ^ 30
      → length text ≤ size * 2 ^ fuel
      → uncompress_loop miniz (suc fuel) inb size ≡ some (Status.ok, text)
  uncompress_loop_finds zero size text fits fails h small k =
      round_ends miniz inb zero size (rw (fits size (omega (arith, k))) refl)
      ∙ ap some (fits size (omega (arith, k)))
  uncompress_loop_finds (suc fuel) size text fits fails h small k =
      elim (Bool-cases (leb (length text) size)) [
        | inl e ↦
            let found : miniz.uncompress size inb ≡ (Status.ok, text) =
              fits size (leb→le (length text) size e) in
            round_ends miniz inb (suc fuel) size (rw found refl) ∙ ap some found
        | inr e ↦
            let short : size < length text = ground (arith, e) in
            round_doubles miniz inb (suc fuel) size (fails size short) h
              (omega (arith, short, small))
            ∙ uncompress_loop_finds fuel (size * 2) text fits fails (omega (arith, h)) small
                (omega (arith, k, double size fuel))
      ]

-- The size that a caller may ask for.
size_in_range :
    (out_len : ℕ) → 1 ≤ out_len → out_len ≤ int_max → (ltb out_len 1 || ltb int_max out_len) ≡ false
size_in_range out_len h k = ground (arith, h, k)

-- Whatever miniz answers, and whatever is given as text and as size of the buffer, the loop ends
-- within 31 rounds, since it goes on only while the doubled size is below INT_MAX.
pub lmz_uncompress_ends :
    (miniz : Miniz) (inb : Bytes) (given : Option ℤ)
    → (result : Returned) × (lmz_uncompress miniz inb given ≡ some result)
unfolding lmz_uncompress
lmz_uncompress_ends miniz inb given = ends (to_unsigned 64 (optional given (pos (length inb * 2))))
  where
    ends :
        (out_len : ℕ)
        → (result : Returned) × ((if ltb out_len 1 || ltb int_max out_len
              then some (Returned.raised Message.size_out_of_range)
              else uncompress_loop miniz 31 inb out_len >>= λ (ret, outb).
                  some (finished miniz ret outb))
            ≡ some result)
    ends out_len = elim (Bool-cases (ltb out_len 1 || ltb int_max out_len)) [
      | inl e ↦ (Returned.raised Message.size_out_of_range, rw e refl)
      | inr e ↦
          let ((ret, outb), f) =
            uncompress_loop_ends miniz inb 30 out_len (ground (arith, e)) (ground (arith, e)) in
          (finished miniz ret outb, rw (e, f) refl)
    ]

finished_text :
    (miniz : Miniz) (ret : Status) (out z : Bytes)
    → finished miniz ret out ≡ Returned.values (LuaValue.text z ∷ [])
    → (ret ≡ Status.ok) × (out ≡ z)
finished_text miniz Status.ok out z h = ground (arith, h)
finished_text miniz Status.stream_end out z h = cc
finished_text miniz Status.buf_error out z h = cc
finished_text miniz (Status.other n) out z h = cc

-- A text that `lmz_compress` returns was made by miniz, at some level.
compressed_by :
    (miniz : Miniz) (text z : Bytes) (level : Option ℤ)
    → lmz_compress miniz text level ≡ Returned.values (LuaValue.text z ∷ [])
    → (l : ℤ) × (miniz.compress2 (miniz.compress_bound (length text)) text l ≡ (Status.ok, z))
unfolding lmz_compress
compressed_by miniz text z level h = elim (Option-cases (lmz_check_compression_level miniz level)) [
  | inl e ↦ absurd (ground (arith, h, e))
  | inr (l, e) ↦
      let made = miniz.compress2 (miniz.compress_bound (length text)) text l in
      let (ok, same) = finished_text miniz made.0 made.1 z (rw (e, lmz_compress) at h) in
      (l, rw (← ok, ← same) refl)
]

-- What `lmz_compress` returned for a text of at most a gigabyte, `lmz_uncompress` turns into the
-- text again, whatever size from 1 to INT_MAX it starts with, if miniz decompresses what it
-- compressed with room for the text, and answers MZ_BUF_ERROR with less.
pub lmz_uncompress-lmz_compress :
    (miniz : Miniz) (text z : Bytes) (level : Option ℤ) (size : ℕ)
    → lmz_compress miniz text level ≡ Returned.values (LuaValue.text z ∷ [])
    → ((l : ℤ) (y : Bytes) (c : ℕ)
        → miniz.compress2 (miniz.compress_bound (length text)) text l ≡ (Status.ok, y)
        → length text ≤ c
        → miniz.uncompress c y ≡ (Status.ok, text))
    → ((l : ℤ) (y : Bytes) (c : ℕ)
        → miniz.compress2 (miniz.compress_bound (length text)) text l ≡ (Status.ok, y)
        → c < length text
        → is_buf_error (miniz.uncompress c y).0 ≡ true)
    → length text ≤ 2 ^ 30
    → 1 ≤ size
    → size ≤ int_max
    → lmz_uncompress miniz z (some (pos size)) ≡ some (Returned.values (LuaValue.text text ∷ []))
unfolding lmz_uncompress
lmz_uncompress-lmz_compress miniz text z level size compressed fits fails small h k =
    let same : size % 2 ^ 64 ≡ size = omega (arith, k) in
    let (l, made) = compressed_by miniz text z level compressed in
    rw
      (
        same,
        size_in_range size h k,
        uncompress_loop_finds miniz z 30 size text (λ c. fits l z c made) (λ c. fails l z c made) h
            small (omega (arith, h, small)),
      )
      refl
