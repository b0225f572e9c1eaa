-- ===== src/Common/Words.antt =====
-- Machine words: `uint32_t` arithmetic with its wrap-around, single-bit tests and updates, and
-- rounding up to a multiple of eight.
use Prim.Native.Nat.{ℕ, ◌+◌, ◌-◌, ◌*◌, ◌/◌, ◌%◌, ◌^◌}
use mathlib.Core.Bool.{Bool}
use fastrpc.Common.Tests.{ltb, leb, ◌==◌, if◌then◌else◌}

abbrev pub u32_mod : ℕ
u32_mod = 2 ^ 32

abbrev pub u64_mod : ℕ
u64_mod = 2 ^ 64

-- `uint32_t` subtraction.
abbrev pub sub_u32 : ℕ → ℕ → ℕ
sub_u32 a b = (a + u32_mod - b % u32_mod) % u32_mod

abbrev pub add_u32 : ℕ → ℕ → ℕ
add_u32 a b = (a + b) % u32_mod

-- `(x + 7) & ~7` on `uint32_t`.
abbrev pub align8 : ℕ → ℕ
align8 x = (x + 7) % u32_mod / 8 * 8

-- `x & m`, `x | m` and `x & ~m` for a mask `m` with one bit set.
abbrev pub has_bit : ℕ → ℕ → Bool
has_bit x m = x / m % 2 == 1

abbrev pub set_bit : ℕ → ℕ → ℕ
set_bit x m = if has_bit x m then x else x + m

abbrev pub clear_bit : ℕ → ℕ → ℕ
clear_bit x m = if has_bit x m then x - m else x

-- An `int`, as its 32 bits, widened to a word of 64 bits.
abbrev pub sext32 : ℕ → ℕ
sext32 n = if ltb (n % u32_mod) (2 ^ 31) then n % u32_mod else n % u32_mod + (u64_mod - u32_mod)

-- `a <= b` and the lesser one on `int`s given by their 32 bits.
abbrev pub leb_i32 : ℕ → ℕ → Bool
leb_i32 a b = leb ((a + 2 ^ 31) % u32_mod) ((b + 2 ^ 31) % u32_mod)

abbrev pub min_i32 : ℕ → ℕ → ℕ
min_i32 a b = if leb_i32 a b then a else b
