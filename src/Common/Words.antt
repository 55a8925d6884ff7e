-- ===== src/Common/Words.antt =====
-- 64-bit words: `-` stops at 0, so the wrap is written out. Flags are tested bit by bit.
use Prim.Native.Nat.{ℕ, ◌+◌, ◌-◌, ◌/◌, ◌%◌, ◌^◌}
use mathlib.Core.Bool.{Bool}
use narc_os.Common.Tests.{◌==◌}

abbrev pub add64 : ℕ → ℕ → ℕ
add64 a b = (a + b) % 2 ^ 64

abbrev pub sub64 : ℕ → ℕ → ℕ
sub64 a b = (a + 2 ^ 64 - b) % 2 ^ 64

-- `x & (1u << k)`.
abbrev pub bit : ℕ → ℕ → Bool
bit x k = (x / 2 ^ k) % 2 == 1
