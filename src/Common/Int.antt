-- ===== src/Common/Int.antt =====
-- Signed integers over the native numbers: what a C `int` argument may be.
use evo_runtime.Common.{ℕ, suc, ◌-◌, ◌%◌, ◌^◌, Bool, true, false, ltb, if◌then◌else◌}

-- `negsuc n` is -(n + 1).
pub data ℤ : Type 0 where
  pos : ℕ → ℤ
  negsuc : ℕ → ℤ

abbrev pub is_negative : ℤ → Bool
is_negative (pos n) = false
is_negative (negsuc n) = true

-- `a > n`
abbrev pub exceeds : ℤ → ℕ → Bool
exceeds (pos a) n = ltb n a
exceeds (negsuc a) n = false

-- `a < b`
abbrev pub less : ℤ → ℤ → Bool
less (pos a) (pos b) = ltb a b
less (pos a) (negsuc b) = false
less (negsuc a) (pos b) = true
less (negsuc a) (negsuc b) = ltb b a

-- The conversion to an unsigned type of w bits.
abbrev pub to_unsigned : ℕ → ℤ → ℕ
to_unsigned w (pos n) = n % 2 ^ w
to_unsigned w (negsuc n) = (2 ^ w - suc n % 2 ^ w) % 2 ^ w

-- The conversion to `int`.
abbrev pub to_int : ℤ → ℤ
to_int a = let u = to_unsigned 32 a in if ltb u (2 ^ 31) then pos u else negsuc (2 ^ 32 - 1 - u)
