-- ===== src/Common/Memory.antt =====
-- Byte memory as a function of the address, `memcpy` into it, and little-endian words.
use Prim.Native.Nat.{ℕ, zero, suc, ◌+◌, ◌-◌, ◌*◌, ◌/◌, ◌%◌, ◌^◌, ◌≤◌, ◌<◌}
use mathlib.Core.Path.{◌≡◌, refl, ap}
use mathlib.Core.Logic.{◌⊎◌}
use mathlib.Core.Bool.{◌&&◌}
use native.Mathlib.Omega.{arith}
use native.Mathlib.Nat.{pow-suc, pow-zero}
use fastrpc.Common.Tests.{ltb, leb, if◌then◌else◌}

abbrev pub Bytes : Type 0
Bytes = ℕ → ℕ

-- `memcpy(mem + pos, src, n)`.
unfoldable pub copy : Bytes → ℕ → Bytes → ℕ → Bytes
copy mem pos src n i = if leb pos i && ltb i (pos + n) then src (i - pos) else mem i

-- `src + pos` as a pointer to bytes.
abbrev pub at : Bytes → ℕ → Bytes
at mem pos i = mem (pos + i)

pub copy-inside :
    (mem : Bytes) (pos : ℕ) (src : Bytes) (n i : ℕ) → i < n → copy mem pos src n (pos + i) ≡ src i
unfolding copy
copy-inside mem pos src n i h = let e : pos + i - pos ≡ i = omega arith in ground (arith, ap src e)

pub copy-outside :
    (mem : Bytes) (pos : ℕ) (src : Bytes) (n i : ℕ)
    → (i < pos) ⊎ (pos + n ≤ i)
    → copy mem pos src n i ≡ mem i
unfolding copy
copy-outside mem pos src n i h = ground arith

-- The bytes of a number, least significant first.
unfoldable pub le_byte : ℕ → Bytes
le_byte x zero = x % 256
le_byte x (suc k) = le_byte (x / 256) k

-- The number that `n` bytes stand for.
unfoldable pub from_le : ℕ → Bytes → ℕ
from_le zero b = 0
from_le (suc n) b = b 0 % 256 + 256 * from_le n (λ i. b (suc i))

-- Equal bytes give equal words.
pub from_le-congr :
    (n : ℕ) (a b : Bytes) → ((i : ℕ) → i < n → a i ≡ b i) → from_le n a ≡ from_le n b
unfolding from_le
from_le-congr zero a b h = refl
from_le-congr (suc n) a b h = omega (
  arith,
  h 0 (omega arith),
  from_le-congr n (λ i. a (suc i)) (λ i. b (suc i)) (λ i p. h (suc i) (omega arith)),
)

pub from_le-le_byte : (n x : ℕ) → x < 256 ^ n → from_le n (le_byte x) ≡ x
unfolding from_le le_byte
from_le-le_byte zero x h = omega (arith, pow-zero 256)
from_le-le_byte (suc n) x h =
    omega (arith, from_le-le_byte n (x / 256) (omega (arith, pow-suc 256 n)), pow-suc 256 n)

pub from_le-lt : (n : ℕ) (b : Bytes) → from_le n b < 256 ^ n
unfolding from_le
from_le-lt zero b = omega (arith, pow-zero 256)
from_le-lt (suc n) b = omega (arith, from_le-lt n (λ i. b (suc i)), pow-suc 256 n)
