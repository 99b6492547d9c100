-- ===== src/Prelude/Int.antt =====
-- Signed integers, as the expiry times and the result codes are.
use Prim.Native.Nat.{ℕ, ◌+◌, ◌-◌, ◌*◌, ◌^◌}
use mathlib.Core.Bool.{Bool}
use mini_kv_db_server.Prelude.Tests.{leb, ltb, if◌then◌else◌}

-- `negsuc n` is -(n + 1).
pub data ℤ : Type 0 where
  pos : ℕ → ℤ
  negsuc : ℕ → ℤ

-- a - b, as an integer.
abbrev pub sub_ℕ : ℕ → ℕ → ℤ
sub_ℕ a b = if leb b a then pos (a - b) else negsuc (b - a - 1)

-- a + b for a natural number a.
abbrev pub add_ℕ : ℕ → ℤ → ℤ
add_ℕ a (pos n) = pos (a + n)
add_ℕ a (negsuc n) = sub_ℕ a (n + 1)

-- a * b for a natural number b that is not 0.
abbrev pub scale : ℤ → ℕ → ℤ
scale (pos n) b = pos (n * b)
scale (negsuc n) b = negsuc ((n + 1) * b - 1)

-- Whether a number is one of `int64_t`.
abbrev pub fits_int64 : ℤ → Bool
fits_int64 (pos n) = ltb n (2 ^ 63)
fits_int64 (negsuc n) = ltb n (2 ^ 63)
