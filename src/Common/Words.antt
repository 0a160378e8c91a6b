-- ===== src/Common/Words.antt =====
-- The machine integers of the program: `unsigned` by its value below 2^32, `int` and `int64_t` as
-- integers.
use mqss_client.Common.Tests.{ltb, if◌then◌else◌}
use Prim.Native.Nat.{ℕ, suc, ◌+◌, ◌-◌, ◌*◌, ◌/◌, ◌^◌, ◌%◌, ◌<◌}
use mathlib.Core.Path.{◌≡◌}
use native.Mathlib.Omega.{arith}

-- `negsuc n` is -(n + 1).
pub data ℤ : Type 0 where
  pos : ℕ → ℤ
  negsuc : ℕ → ℤ

-- `static_cast<int>(n)` of an `unsigned` or `size_t` value: the low 32 bits, in two's complement.
unfoldable pub to_int : ℕ → ℤ
to_int n = let low = n % 2 ^ 32 in if ltb low (2 ^ 31) then pos low else negsuc (2 ^ 32 - 1 - low)

-- `static_cast<unsigned>(i)` of an `int` value.
unfoldable pub to_unsigned : ℤ → ℕ
to_unsigned (pos n) = n % 2 ^ 32
to_unsigned (negsuc n) = (2 ^ 32 - 1 - n % 2 ^ 32) % 2 ^ 32

-- A 64-bit word of an integer, and the `int64_t` with that word.
unfoldable pub to_unsigned64 : ℤ → ℕ
to_unsigned64 (pos n) = n % 2 ^ 64
to_unsigned64 (negsuc n) = 2 ^ 64 - 1 - n % 2 ^ 64

unfoldable pub to_signed64 : ℤ → ℤ
unfolding to_unsigned64
to_signed64 i =
    let word = to_unsigned64 i in if ltb word (2 ^ 63) then pos word else negsuc (2 ^ 64 - 1 - word)

infixl 6 ◌+ℤ◌
unfoldable pub ◌+ℤ◌ : ℤ → ℤ → ℤ
pos m +ℤ pos n = pos (m + n)
pos m +ℤ negsuc n = if ltb n m then pos (m - suc n) else negsuc (n - m)
negsuc m +ℤ pos n = if ltb m n then pos (n - suc m) else negsuc (m - n)
negsuc m +ℤ negsuc n = negsuc (suc (m + n))

-- A multiple, for a factor that is not 0.
unfoldable pub scale : ℕ → ℤ → ℤ
scale k (pos n) = pos (k * n)
scale k (negsuc n) = negsuc (k * suc n - 1)

-- The quotient, rounded to 0.
unfoldable pub quotient : ℤ → ℕ → ℤ
quotient (pos n) k = pos (n / k)
quotient (negsuc n) k = let q = suc n / k in if ltb 0 q then negsuc (q - 1) else pos 0

pub to_signed64-pos : (n : ℕ) → n < 2 ^ 63 → to_signed64 (pos n) ≡ pos n
unfolding to_signed64
to_signed64-pos n h = ground arith
