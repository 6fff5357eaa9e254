-- ===== src/Types/SafeArith.antt =====
-- types/validator_set.go: sums, differences and products that stop at the ends of int64.
use de_mars_dmc.Prelude.{◌≡◌, Bool, true, false, ◌&&◌, ◌||◌, not, arith, if◌then◌else◌}
use de_mars_dmc.Prelude.Int.{ℤ, pos, negsuc, ltb_ℤ, eqb_ℤ, ◌+ℤ◌, ◌-ℤ◌}
use de_mars_dmc.Prelude.Int64.{max_i64, min_i64, IsInt64, add64, sub64, mul64, quot64}

-- Each returns the result, and whether it overflowed.
unfoldable pub safe_mul : ℤ → ℤ → ℤ × Bool
safe_mul a b =
    if eqb_ℤ a (pos 0) || eqb_ℤ b (pos 0)
    then (pos 0, false)
    else if eqb_ℤ a (pos 1)
    then (b, false)
    else if eqb_ℤ b (pos 1)
    then (a, false)
    else if eqb_ℤ a min_i64 || eqb_ℤ b min_i64
    then (negsuc 0, true)
    else (let c = mul64 a b in (c, not (eqb_ℤ (quot64 c b) a)))

unfoldable pub safe_add : ℤ → ℤ → ℤ × Bool
safe_add a b =
    if ltb_ℤ (pos 0) b && ltb_ℤ (sub64 max_i64 b) a
    then (negsuc 0, true)
    else if ltb_ℤ b (pos 0) && ltb_ℤ a (sub64 min_i64 b)
    then (negsuc 0, true)
    else (add64 a b, false)

unfoldable pub safe_sub : ℤ → ℤ → ℤ × Bool
safe_sub a b =
    if ltb_ℤ (pos 0) b && ltb_ℤ a (add64 min_i64 b)
    then (negsuc 0, true)
    else if ltb_ℤ b (pos 0) && ltb_ℤ (add64 max_i64 b) a
    then (negsuc 0, true)
    else (sub64 a b, false)

unfoldable pub safe_mul_clip : ℤ → ℤ → ℤ
safe_mul_clip a b =
    let (c, overflow) = safe_mul a b in
    if overflow
    then if (ltb_ℤ a (pos 0) || ltb_ℤ b (pos 0)) && not (ltb_ℤ a (pos 0) && ltb_ℤ b (pos 0))
      then min_i64
      else max_i64
    else c

unfoldable pub safe_add_clip : ℤ → ℤ → ℤ
unfolding safe_add
safe_add_clip a b =
    let (c, overflow) = safe_add a b in
    if overflow then if ltb_ℤ b (pos 0) then min_i64 else max_i64 else c

unfoldable pub safe_sub_clip : ℤ → ℤ → ℤ
unfolding safe_sub
safe_sub_clip a b =
    let (c, overflow) = safe_sub a b in
    if overflow then if ltb_ℤ (pos 0) b then min_i64 else max_i64 else c

-- The integer of int64 nearest to an integer.
abbrev pub clamp : ℤ → ℤ
clamp a = if ltb_ℤ max_i64 a then max_i64 else if ltb_ℤ a min_i64 then min_i64 else a

-- For all int64 operands the clipped sum is the integer of int64 nearest to the true sum.
pub safe_add_clip-eq-clamp : (a b : ℤ) → IsInt64 a → IsInt64 b → safe_add_clip a b ≡ clamp (a +ℤ b)
unfolding safe_add_clip add64 sub64
safe_add_clip-eq-clamp (pos a) (pos b) h k = ground arith
safe_add_clip-eq-clamp (pos a) (negsuc b) h k = ground arith
safe_add_clip-eq-clamp (negsuc a) (pos b) h k = ground arith
safe_add_clip-eq-clamp (negsuc a) (negsuc b) h k = ground arith

-- For all int64 operands the clipped difference is the integer of int64 nearest to the true one.
pub safe_sub_clip-eq-clamp : (a b : ℤ) → IsInt64 a → IsInt64 b → safe_sub_clip a b ≡ clamp (a -ℤ b)
unfolding safe_sub_clip add64 sub64
safe_sub_clip-eq-clamp (pos a) (pos b) h k = ground arith
safe_sub_clip-eq-clamp (pos a) (negsuc b) h k = ground arith
safe_sub_clip-eq-clamp (negsuc a) (pos b) h k = ground arith
safe_sub_clip-eq-clamp (negsuc a) (negsuc b) h k = ground arith
