-- ===== src/Prelude/Int64.antt =====
-- Go's `int64` (and `int`, which has 64 bits on the supported platforms): integers whose sums,
-- differences and products wrap around, and whose division truncates towards 0.
use de_mars_dmc.Prelude.{ℕ, suc, ◌+◌, ◌-◌, ◌*◌, ◌/◌, ◌%◌, ◌≤◌, ◌≡◌, refl, arith, ltb, if◌then◌else◌}
use de_mars_dmc.Prelude.Int.{ℤ, pos, negsuc, pos_part, neg_part, ◌+ℤ◌, ◌-ℤ◌, ◌*ℤ◌}

-- `math.MaxInt64` and `math.MinInt64`.
abbrev pub max_int64 : ℕ
max_int64 = 9223372036854775807

abbrev pub max_i64 : ℤ
max_i64 = pos 9223372036854775807

abbrev pub min_i64 : ℤ
min_i64 = negsuc 9223372036854775807

abbrev pub two_64 : ℕ
two_64 = 18446744073709551616

-- The representative of an integer modulo 2^64 in the range of `int64`.
unfoldable pub wrap64 : ℤ → ℤ
wrap64 (pos n) = let m = n % two_64 in if ltb max_int64 m then negsuc (two_64 - 1 - m) else pos m
wrap64 (negsuc n) = let m = n % two_64 in if ltb max_int64 m then pos (two_64 - 1 - m) else negsuc m

unfoldable pub add64 : ℤ → ℤ → ℤ
unfolding wrap64 ◌+ℤ◌
add64 a b = wrap64 (a +ℤ b)

unfoldable pub sub64 : ℤ → ℤ → ℤ
unfolding wrap64 ◌-ℤ◌
sub64 a b = wrap64 (a -ℤ b)

unfoldable pub mul64 : ℤ → ℤ → ℤ
unfolding wrap64 ◌*ℤ◌
mul64 a b = wrap64 (a *ℤ b)

-- `a / n` for a positive constant `n`.
unfoldable pub div64 : ℤ → ℕ → ℤ
unfolding ◌-ℤ◌
div64 (pos a) n = pos (a / n)
div64 (negsuc a) n = pos 0 -ℤ pos (suc a / n)

-- `a / b`: the quotient of the absolute values, with the sign; a zero divisor panics in Go, and no
-- caller divides by 0.
unfoldable pub quot64 : ℤ → ℤ → ℤ
unfolding wrap64 ◌-ℤ◌ div64
quot64 a (pos n) = div64 a n
quot64 a (negsuc n) = wrap64 (pos 0 -ℤ div64 a (suc n))

abbrev pub IsInt64 : ℤ → Type 0
IsInt64 a = (pos_part a ≤ max_int64) × (neg_part a ≤ suc max_int64)

pub wrap64_id : (a : ℤ) → IsInt64 a → wrap64 a ≡ a
unfolding wrap64
wrap64_id (pos n) h = ground arith
wrap64_id (negsuc n) h = ground arith

-- In the range nothing wraps.
pub add64_nonneg : (a b : ℕ) → a + b ≤ max_int64 → add64 (pos a) (pos b) ≡ pos (a + b)
unfolding add64 wrap64 ◌+ℤ◌
add64_nonneg a b h = ground arith

pub mul64_nonneg : (a b : ℕ) → a * b ≤ max_int64 → mul64 (pos a) (pos b) ≡ pos (a * b)
unfolding mul64 wrap64 ◌*ℤ◌
mul64_nonneg a b h = ground arith

pub sub64_nonneg : (a b : ℕ) → b ≤ a → a ≤ max_int64 → sub64 (pos a) (pos b) ≡ pos (a - b)
unfolding sub64 wrap64 ◌-ℤ◌
sub64_nonneg a b h k = ground arith

pub div64_nonneg : (a n : ℕ) → div64 (pos a) n ≡ pos (a / n)
unfolding div64
div64_nonneg a n = refl
