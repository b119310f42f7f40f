-- ===== src/Prelude/Words.antt =====
-- 32-bit machine words: an `int` of the source is its two's-complement bit pattern, below 2 ^ 32.
-- Arithmetic wraps, as the compiled code's does.
use Prim.Native.Nat.{ℕ, ◌+◌, ◌-◌, ◌*◌, ◌/◌, ◌%◌, ◌^◌, ◌<◌, bit_or}
use mathlib.Core.Bool.{Bool}
use native.Mathlib.Omega.{arith}
use computer_science_project.Prelude.Tests.{ltb, if◌then◌else◌}
use computer_science_project.Prelude.Bits.{bit_or-lt}

abbrev pub IsWord : ℕ → Type 0
IsWord w = w < 2 ^ 32

unfoldable pub add_w : ℕ → ℕ → ℕ
add_w a b = (a + b) % 2 ^ 32

unfoldable pub sub_w : ℕ → ℕ → ℕ
sub_w a b = (a + 2 ^ 32 - b) % 2 ^ 32

unfoldable pub neg_w : ℕ → ℕ
neg_w a = (2 ^ 32 - a) % 2 ^ 32

-- ~(a | b)
unfoldable pub nor_w : ℕ → ℕ → ℕ
nor_w a b = 2 ^ 32 - 1 - bit_or a b

unfoldable pub shl_w : ℕ → ℕ → ℕ
shl_w a k = a * 2 ^ k % 2 ^ 32

-- a >> 22, which copies the sign bit
unfoldable pub sar22 : ℕ → ℕ
sar22 a = if ltb a (2 ^ 31) then a / 2 ^ 22 else a / 2 ^ 22 + (2 ^ 32 - 2 ^ 10)

unfoldable pub sar19 : ℕ → ℕ
sar19 a = if ltb a (2 ^ 31) then a / 2 ^ 19 else a / 2 ^ 19 + (2 ^ 32 - 2 ^ 13)

unfoldable pub sar16 : ℕ → ℕ
sar16 a = if ltb a (2 ^ 31) then a / 2 ^ 16 else a / 2 ^ 16 + (2 ^ 32 - 2 ^ 16)

-- a < b as signed integers
unfoldable pub slt : ℕ → ℕ → Bool
slt a b = ltb ((a + 2 ^ 31) % 2 ^ 32) ((b + 2 ^ 31) % 2 ^ 32)

pub add_w-IsWord : (a b : ℕ) → IsWord (add_w a b)
unfolding add_w
add_w-IsWord a b = omega arith

pub sub_w-IsWord : (a b : ℕ) → IsWord (sub_w a b)
unfolding sub_w
sub_w-IsWord a b = omega arith

pub nor_w-IsWord : (a b : ℕ) → IsWord (nor_w a b)
unfolding nor_w
nor_w-IsWord a b = omega arith

pub shl_w-IsWord : (a k : ℕ) → IsWord (shl_w a k)
unfolding shl_w
shl_w-IsWord a k = omega arith

pub bit_or-IsWord : (a b : ℕ) → IsWord a → IsWord b → IsWord (bit_or a b)
bit_or-IsWord a b p q = bit_or-lt 32 a b p q
