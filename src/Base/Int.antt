-- ===== src/Base/Int.antt =====
-- Go's signed integers that the code keeps within range, as integers: `negsuc n` is -(n + 1).
use Prim.Native.Nat.{ℕ, zero, suc, ◌+◌, ◌-◌, ◌/◌, ◌%◌, ◌^◌, ◌≤◌, compare, Ordering}
use mathlib.Core.Path.{◌≡◌}
use mathlib.Core.Bool.{Bool, true, false}
use native.Mathlib.Omega.{arith}

pub data ℤ : Type 0 where
  pos : ℕ → ℤ
  negsuc : ℕ → ℤ

abbrev pub pos_part : ℤ → ℕ
pos_part (pos n) = n
pos_part (negsuc n) = 0

abbrev pub neg_part : ℤ → ℕ
neg_part (pos n) = 0
neg_part (negsuc n) = suc n

-- a - b, as an integer.
abbrev pub sub_ℕ : ℕ → ℕ → ℤ
sub_ℕ a b = elim (compare a b) [ Ordering.lt ↦ negsuc (b - a - 1) | _ ↦ pos (a - b) ]

infixl 65 ◌+ℤ◌
infix 50 ◌≤ℤ◌
unfoldable pub ◌+ℤ◌ : ℤ → ℤ → ℤ
a +ℤ b = sub_ℕ (pos_part a + pos_part b) (neg_part a + neg_part b)

abbrev pub ◌≤ℤ◌ : ℤ → ℤ → Type 0
a ≤ℤ b = pos_part a + neg_part b ≤ pos_part b + neg_part a

-- a <= b and a < b, as tests.
abbrev pub lebℤ : ℤ → ℤ → Bool
lebℤ a b = elim (compare (pos_part a + neg_part b) (pos_part b + neg_part a)) [
  | Ordering.gt ↦ false
  | _ ↦ true
]

abbrev pub ltbℤ : ℤ → ℤ → Bool
ltbℤ a b = elim (compare (pos_part a + neg_part b) (pos_part b + neg_part a)) [
  | Ordering.lt ↦ true
  | _ ↦ false
]

pub lebℤ→≤ℤ : (a b : ℤ) → lebℤ a b ≡ true → a ≤ℤ b
lebℤ→≤ℤ a b h = ground arith

-- int64: the integer that a 64-bit pattern stands for, and the pattern of an integer.
abbrev pub int64_of : ℕ → ℤ
int64_of v = elim (compare v (2 ^ 63)) [ Ordering.lt ↦ pos v | _ ↦ negsuc (2 ^ 64 - 1 - v) ]

abbrev pub to_u64 : ℤ → ℕ
to_u64 (pos n) = n % 2 ^ 64
to_u64 (negsuc n) = 2 ^ 64 - 1 - n % 2 ^ 64

-- `a + b` on int64, which wraps
unfoldable pub add64 : ℤ → ℤ → ℤ
add64 a b = int64_of ((to_u64 a + to_u64 b) % 2 ^ 64)

-- `x >> 1` on int64, which rounds down
abbrev pub shr_one : ℤ → ℤ
shr_one (pos n) = pos (n / 2)
shr_one (negsuc n) = negsuc (n / 2)

-- `-x` on int64, for x above the least value
abbrev pub neg_int : ℤ → ℤ
neg_int (pos zero) = pos zero
neg_int (pos (suc n)) = negsuc n
neg_int (negsuc n) = pos (suc n)

-- For numbers of at most 62 bits and a sign, `+` on int64 is addition.
pub add64_lem :
    (a b : ℤ)
    → negsuc (2 ^ 62 - 1) ≤ℤ a
    → a ≤ℤ pos (2 ^ 62 - 1)
    → negsuc (2 ^ 62 - 1) ≤ℤ b
    → b ≤ℤ pos (2 ^ 62 - 1)
    → add64 a b ≡ a +ℤ b
unfolding add64 ◌+ℤ◌
add64_lem a b h k u v = ground arith
