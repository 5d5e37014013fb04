-- ===== src/Cpu/Word64.antt =====
-- 64-bit patterns as executor.cpp computes with them: signed views, division, shifts.
use hvmsys.Base.{
  ℕ, ◌+◌, ◌-◌, ◌*◌, ◌/◌, ◌%◌, ◌^◌, Bool, true, false, ◌&&◌, ◌||◌, not, if◌then◌else◌, ltb, leb,
  ◌==◌,
}
use hvmsys.Base.{bit_and, Option, none, some}
use hvmsys.Base.Words.{u64, ◌<<<◌, ◌>>>◌}

-- `static_cast<uint64_t>(-1)`.
abbrev pub all_ones : ℕ
all_ones = 2 ^ 64 - 1

-- `static_cast<int64_t>(v) < 0`.
abbrev pub is_negative : ℕ → Bool
is_negative v = leb (2 ^ 63) v

-- The absolute value of the signed view.
abbrev pub magnitude : ℕ → ℕ
magnitude v = if is_negative v then 2 ^ 64 - v else v

-- The pattern of n or of -n.
abbrev pub with_sign : Bool → ℕ → ℕ
with_sign negative n = if negative then u64 (2 ^ 64 - n) else n

-- `static_cast<int64_t>(a) < static_cast<int64_t>(b)`: the sign bit is flipped.
unfoldable pub signed_lt : ℕ → ℕ → Bool
signed_lt a b = ltb (u64 (a + 2 ^ 63)) (u64 (b + 2 ^ 63))

unfoldable pub signed_le : ℕ → ℕ → Bool
signed_le a b = leb (u64 (a + 2 ^ 63)) (u64 (b + 2 ^ 63))

abbrev pub differ : Bool → Bool → Bool
differ true true = false
differ true false = true
differ false b = b

-- `v * 4` on int64_t; `none` where it overflows, which is undefined.
unfoldable pub times_four : ℕ → Option ℕ
times_four v = if ltb v (2 ^ 61) || leb (2 ^ 64 - 2 ^ 61) v then some (u64 (v * 4)) else none

-- The sum on int64_t; `none` where it overflows: both parts have a sign that it has not.
unfoldable pub signed_add : ℕ → ℕ → Option ℕ
signed_add a b =
    let sum = u64 (a + b) in
    if differ (is_negative a) (is_negative b) || not (differ (is_negative a) (is_negative sum))
    then some sum
    else none

-- The quotient of int64_t, cut towards zero; `none` where it overflows, which is undefined.
unfoldable pub signed_div : ℕ → ℕ → Option ℕ
signed_div a b =
    if (a == 2 ^ 63) && (b == all_ones)
    then none
    else some (with_sign (differ (is_negative a) (is_negative b)) (magnitude a / magnitude b))

-- The remainder, with the sign of the dividend; undefined where the quotient is.
unfoldable pub signed_rem : ℕ → ℕ → Option ℕ
signed_rem a b =
    if (a == 2 ^ 63) && (b == all_ones)
    then none
    else some (with_sign (is_negative a) (magnitude a % magnitude b))

unfoldable pub shift_left : ℕ → ℕ → ℕ
shift_left a b = u64 (a <<< bit_and b 63)

unfoldable pub shift_right : ℕ → ℕ → ℕ
shift_right a b = a >>> bit_and b 63

-- The shift of int64_t: copies of the sign come in from above.
unfoldable pub shift_right_signed : ℕ → ℕ → ℕ
shift_right_signed a b =
    if is_negative a then all_ones - ((all_ones - a) >>> bit_and b 63) else a >>> bit_and b 63

-- An unsigned value of `w` bits as int64_t, in 64 bits.
unfoldable pub sign_extend : ℕ → ℕ → ℕ
sign_extend w v = if ltb v (2 ^ (w - 1)) then v else v + (2 ^ 64 - 2 ^ w)

abbrev pub flag : Bool → ℕ
flag true = 1
flag false = 0
