-- ===== src/Prelude/Int.antt =====
-- Signed integers over the native numbers: `negsuc n` is -(n + 1).
use Prim.Native.Nat.{ℕ, ◌-◌, ◌%◌, ◌^◌}
use crossfault.Prelude.Words.{u64}

pub data ℤ : Type 0 where
  pos : ℕ → ℤ
  negsuc : ℕ → ℤ

-- The 64 bits of an int64.
abbrev pub bits64 : ℤ → ℕ
bits64 (pos n) = u64 n
bits64 (negsuc n) = u64 (2 ^ 64 - 1 - n % 2 ^ 64)
