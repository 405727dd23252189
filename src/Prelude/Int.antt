-- ===== src/Prelude/Int.antt =====
-- Integers over the native numbers, and two's complement.
use Prim.Native.Nat.{ℕ, ◌-◌, ◌*◌, ◌<◌}
use mathlib.Core.Path.{◌≡◌}
use native.Mathlib.Omega.{arith}
use rfid.Prelude.Tests.{ltb, if◌then◌else◌}

-- `negsuc n` is -(n + 1).
pub data ℤ : Type 0 where
  pos : ℕ → ℤ
  negsuc : ℕ → ℤ

-- The integer that a word of the range 0 … 2 * half - 1 stands for.
abbrev pub signed : ℕ → ℕ → ℤ
signed half n = if ltb n half then pos n else negsuc (2 * half - n - 1)

-- The word of an integer.
abbrev pub word : ℕ → ℤ → ℕ
word half (pos n) = n
word half (negsuc n) = 2 * half - n - 1

-- The integers from -half to half - 1.
abbrev pub Fits : ℕ → ℤ → Type 0
Fits half (pos n) = n < half
Fits half (negsuc n) = n < half

pub signed-word : (half : ℕ) (z : ℤ) → Fits half z → signed half (word half z) ≡ z
signed-word half (pos n) h = ground arith
signed-word half (negsuc n) h = ground arith

pub word-lt : (half : ℕ) (z : ℤ) → Fits half z → word half z < 2 * half
word-lt half (pos n) h = omega arith
word-lt half (negsuc n) h = omega arith
