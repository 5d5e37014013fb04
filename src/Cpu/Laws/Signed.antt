-- ===== src/Cpu/Laws/Signed.antt =====
-- The signed comparisons and divisions of the executor against the integers.
use hvmsys.Base.{
  ℕ, ◌+◌, ◌-◌, ◌*◌, ◌/◌, ◌%◌, ◌^◌, ◌≤◌, ◌<◌, ◌≡◌, ◌≢◌, refl, arith, Bool, true, false,
  if◌then◌else◌, ltb, some, zero, suc, ◌⊎◌, inl, inr,
}
use hvmsys.Base.Int.{ℤ, pos, negsuc, sub_ℕ, ltb_ℤ, leb_ℤ, ◌+ℤ◌, ◌*ℤ◌}
use native.Mathlib.Nat.{div-mul-le_self, div-le_self, mod-lt, div-add-mod}
use hvmsys.Cpu.Word64.{
  all_ones, signed_lt, signed_le, signed_div, signed_rem, is_negative, magnitude, with_sign, differ,
}

-- The integer that a 64-bit pattern stands for.
abbrev pub signed : ℕ → ℤ
signed v = if ltb v (2 ^ 63) then pos v else negsuc (2 ^ 64 - v - 1)

-- For 64-bit patterns, the signed comparisons < and <= are those of the integers that they stand for.
pub signed_lt-signed :
    (a b : ℕ)
    → a < 2 ^ 64
    → b < 2 ^ 64
    → (signed_lt a b ≡ ltb_ℤ (signed a) (signed b)) × (signed_le a b ≡ leb_ℤ (signed a) (signed b))
unfolding signed_lt signed_le
signed_lt-signed a b ha hb = (ground arith, ground arith)

-- n or -n.
abbrev of_sign : Bool → ℕ → ℤ
of_sign negative n = if negative then sub_ℕ 0 n else pos n

signed_parts : (a : ℕ) → a < 2 ^ 64 → signed a ≡ of_sign (is_negative a) (magnitude a)
signed_parts a h = ground arith

signed-with_sign :
    (s : Bool) (n : ℕ)
    → n ≤ 2 ^ 63
    → (s ≡ false → n < 2 ^ 63)
    → signed (with_sign s n) ≡ of_sign s n
signed-with_sign true n h k = ground arith
signed-with_sign false n h k = ground (arith, k refl)

-- The division identity for every pair of signs.
division_signs :
    (sa sb : Bool) (x y q r : ℕ)
    → x ≡ q * y + r
    → of_sign (differ sa sb) q *ℤ of_sign sb y +ℤ of_sign sa r ≡ of_sign sa x
division_signs true true x y q r e = ground arith
division_signs true false x y q r e = ground arith
division_signs false true x y q r e = ground arith
division_signs false false x y q r e = ground arith

div-le-half : (x y : ℕ) → 2 ≤ y → x / y * 2 ≤ x
div-le-half x y h = grind (arith, div-mul-le_self x y)

magnitude_pos : (b : ℕ) → b < 2 ^ 64 → b ≢ 0 → 0 < magnitude b
magnitude_pos b h nz = ground arith

-- The quotient fits but where -2^63 is divided by -1.
quotient_fits :
    (a b : ℕ)
    → a < 2 ^ 64
    → b < 2 ^ 64
    → b ≢ 0
    → ¬ ((a ≡ 2 ^ 63) × (b ≡ all_ones))
    → differ (is_negative a) (is_negative b) ≡ false
    → magnitude a / magnitude b < 2 ^ 63
quotient_fits a b ha hb nz fits s = ground (
  arith,
  magnitude_pos b hb nz,
  div-mul-le_self (magnitude a) (magnitude b),
  div-le-half (magnitude a) (magnitude b),
  fits,
)

magnitude-with_sign : (s : Bool) (n y : ℕ) → y ≤ 2 ^ 63 → n < y → magnitude (with_sign s n) < y
magnitude-with_sign true n y h k = ground arith
magnitude-with_sign false n y h k = ground arith

-- A remainder has the sign of the dividend, or is 0.
remainder_sign :
    (s : Bool) (n : ℕ) → n < 2 ^ 63 → (with_sign s n ≡ 0) ⊎ (is_negative (with_sign s n) ≡ s)
remainder_sign s zero h = inl (ground arith)
remainder_sign s (suc n) h = inr (ground arith)

-- What a division leaves: quotient and remainder patterns whose integers satisfy the division
-- identity, the remainder being the smaller in absolute value, and of the sign of the dividend or 0.
pub record Divides (a b : ℕ) : Type 0 where
  pub quotient : ℕ
  pub remainder : ℕ
  pub identity : signed quotient *ℤ signed b +ℤ signed remainder ≡ signed a
  pub smaller : magnitude remainder < magnitude b
  pub sign : (remainder ≡ 0) ⊎ (is_negative remainder ≡ is_negative a)

-- For 64-bit patterns with b not 0, but for -2^63 by -1, the two operators return such patterns.
pub signed_div-Divides :
    (a b : ℕ)
    → a < 2 ^ 64
    → b < 2 ^ 64
    → b ≢ 0
    → ¬ ((a ≡ 2 ^ 63) × (b ≡ all_ones))
    → (d : Divides a b) × (signed_div a b ≡ some d.quotient) × (signed_rem a b ≡ some d.remainder)
signed_div-Divides a b ha hb nz fits =
    let x : ℕ = magnitude a in
    let y : ℕ = magnitude b in
    let pos : 0 < y = magnitude_pos b hb nz in
    let sa : Bool = is_negative a in
    let s : Bool = differ sa (is_negative b) in
    let small : x ≤ 2 ^ 63 = ground arith in
    let q_small : x / y ≤ 2 ^ 63 = omega (arith, div-le_self x y) in
    let r_small : x % y < y = mod-lt x pos in
    let b_small : y ≤ 2 ^ 63 = ground arith in
    let e : x ≡ x / y * y + x % y = omega (arith, div-add-mod x y) in
    (
      record {
        quotient = with_sign s (x / y);
        remainder = with_sign sa (x % y);
        identity =
            rw
              (
                signed-with_sign s (x / y) q_small (quotient_fits a b ha hb nz fits),
                signed-with_sign sa (x % y) (omega arith) (λ _. omega arith),
                signed_parts a ha,
                signed_parts b hb,
              )
              (division_signs sa (is_negative b) x y (x / y) (x % y) e);
        smaller = magnitude-with_sign sa (x % y) y b_small r_small;
        sign = remainder_sign sa (x % y) (omega arith);
      },
      unfold signed_div in ground (arith, fits),
      unfold signed_rem in ground (arith, fits),
    )
