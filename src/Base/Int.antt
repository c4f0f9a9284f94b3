-- ===== src/Base/Int.antt =====
-- Signed integers over the native numbers: the i64 arguments and results of system calls, and the
-- casts between machine integers. A w-bit value is its bit pattern, a number below 2 ^ w.
use Prim.Native.Nat.{ℕ, ◌-◌, ◌%◌, ◌^◌}
use mathlib.Core.Bool.{Bool, true, false}
use mathlib.Core.Option.{Option, none, some}
use edge_libos.Base.Tests.{ltb, ◌==◌, if◌then◌else◌}

-- `negsuc n` is -(n + 1).
pub data ℤ : Type 0 where
  pos : ℕ → ℤ
  negsuc : ℕ → ℤ

-- `x < 0`.
abbrev pub is_neg : ℤ → Bool
is_neg (pos n) = false
is_neg (negsuc n) = true

-- `x == 0`.
abbrev pub is_zero : ℤ → Bool
is_zero (pos n) = n == 0
is_zero (negsuc n) = false

-- `usize::try_from` and `u64::try_from` of an i64.
abbrev pub try_usize : ℤ → Option ℕ
try_usize (pos n) = some n
try_usize (negsuc n) = none

-- `u32::try_from` of an i64.
abbrev pub try_u32 : ℤ → Option ℕ
try_u32 (pos n) = if ltb n (2 ^ 32) then some n else none
try_u32 (negsuc n) = none

-- `x as i32` and `x as u32`: the low 32 bits of the two's complement pattern.
abbrev pub as_u32 : ℤ → ℕ
as_u32 (pos n) = n % 2 ^ 32
as_u32 (negsuc n) = 2 ^ 32 - 1 - n % 2 ^ 32

-- `x as u64`.
abbrev pub as_u64 : ℤ → ℕ
as_u64 (pos n) = n % 2 ^ 64
as_u64 (negsuc n) = 2 ^ 64 - 1 - n % 2 ^ 64

-- The i32 and the i64 that a bit pattern stands for: `x as i64`.
abbrev pub signed32 : ℕ → ℤ
signed32 w = if ltb w (2 ^ 31) then pos w else negsuc (2 ^ 32 - w - 1)

abbrev pub signed64 : ℕ → ℤ
signed64 w = if ltb w (2 ^ 63) then pos w else negsuc (2 ^ 64 - w - 1)

abbrev pub eq_ℤ : ℤ → ℤ → Bool
eq_ℤ (pos m) (pos n) = m == n
eq_ℤ (pos m) (negsuc n) = false
eq_ℤ (negsuc m) (pos n) = false
eq_ℤ (negsuc m) (negsuc n) = m == n

-- `x as usize` of an i64 that is not negative; 0 of one that is.
abbrev pub as_usize : ℤ → ℕ
as_usize (pos n) = n
as_usize (negsuc n) = 0
