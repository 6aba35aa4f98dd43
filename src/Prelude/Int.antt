-- ===== src/Prelude/Int.antt =====
-- Signed integers over the native numbers, and Go's `int64` with its wrap-around.
use Prim.Native.Nat.{ℕ, suc, ◌+◌, ◌-◌, ◌%◌, ◌^◌, ◌<◌}
use mathlib.Core.Path.{◌≡◌}
use mathlib.Core.Bool.{Bool}
use native.Mathlib.Omega.{arith}
use vortexkv.Prelude.Tests.{ltb, leb, if◌then◌else◌}

-- `negsuc n` is -(n + 1).
pub data ℤ : Type 0 where
  pos : ℕ → ℤ
  negsuc : ℕ → ℤ

abbrev pub pos_part : ℤ → ℕ
pos_part (pos n) = n
pos_part (negsuc n) = 0

abbrev pub neg_part : ℤ → ℕ
neg_part (pos n) = 0
neg_part (negsuc n) = suc n

-- a - b, as an integer.
abbrev pub sub_ℕ : ℕ → ℕ → ℤ
sub_ℕ a b = if leb b a then pos (a - b) else negsuc (b - a - 1)

abbrev pub lt_ℤ : ℤ → ℤ → Bool
lt_ℤ a b = ltb (pos_part a + neg_part b) (pos_part b + neg_part a)

abbrev pub le_ℤ : ℤ → ℤ → Bool
le_ℤ a b = leb (pos_part a + neg_part b) (pos_part b + neg_part a)

-- The bit pattern of an integer in 64 bits, and the `int64` of a bit pattern.
abbrev pub to_word : ℤ → ℕ
to_word (pos n) = n % 2 ^ 64
to_word (negsuc n) = 2 ^ 64 - 1 - n % 2 ^ 64

abbrev pub of_word : ℕ → ℤ
of_word w = if ltb w (2 ^ 63) then pos w else negsuc (2 ^ 64 - 1 - w)

-- `int64` sums, differences: the exact result, brought back to 64 bits.
unfoldable pub add64 : ℤ → ℤ → ℤ
add64 a b = of_word ((to_word a + to_word b) % 2 ^ 64)

unfoldable pub sub64 : ℤ → ℤ → ℤ
sub64 a b = of_word ((to_word a + 2 ^ 64 - to_word b) % 2 ^ 64)

-- The values of the type.
abbrev pub IsInt64 : ℤ → Type 0
IsInt64 (pos n) = n < 2 ^ 63
IsInt64 (negsuc n) = n < 2 ^ 63

pub of_word-IsInt64 : (w : ℕ) → w < 2 ^ 64 → IsInt64 (of_word w)
of_word-IsInt64 w h = ground arith

pub add64-IsInt64 : (a b : ℤ) → IsInt64 (add64 a b)
unfolding add64
add64-IsInt64 a b = of_word-IsInt64 ((to_word a + to_word b) % 2 ^ 64) (omega arith)

pub of_word-to_word : (a : ℤ) → IsInt64 a → of_word (to_word a) ≡ a
of_word-to_word (pos n) h = ground arith
of_word-to_word (negsuc n) h = ground arith
