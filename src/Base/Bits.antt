-- ===== src/Base/Bits.antt =====
-- The bit operations of the native numbers where fields meet: `|` of numbers with no common digit is a
-- sum, and `&` with a mask of ones is a remainder.
use Prim.Native.Nat.{
  ℕ, zero, suc, ◌+◌, ◌-◌, ◌*◌, ◌/◌, ◌%◌, ◌^◌, ◌≤◌, ◌<◌, min, max, bit_and, bit_or, digits,
  bit_and-bitwise, bit_or-bitwise,
}
use mathlib.Core.Path.{◌≡◌, refl, ap, ◌∙◌}
use native.Mathlib.Nat.{pow-suc, one-le-pow}
use native.Mathlib.Omega.{arith}

-- `digits` counts down a number of digits to go; a count above the first operand changes nothing.
module _ (ended : ℕ → ℕ) (digit : ℕ → ℕ → ℕ) where
  spare_digit :
      (count x y : ℕ)
      → x ≤ count
      → digits ended digit (suc count) x y ≡ digits ended digit count x y
  spare_digit zero zero y enough = refl
  spare_digit zero (suc x) y enough = absurd (omega arith)
  spare_digit (suc count) zero y enough = refl
  spare_digit (suc count) (suc x) y enough =
      ap (λ (higher : ℕ). higher * 2 + digit (suc x % 2) (y % 2))
        (spare_digit count (suc x / 2) (y / 2) (omega arith))

  spare_digits :
      (spare count x y : ℕ)
      → x ≤ count
      → digits ended digit (spare + count) x y ≡ digits ended digit count x y
  spare_digits zero count x y enough =
      let same : 0 + count ≡ count = omega arith in ap (λ (c : ℕ). digits ended digit c x y) same
  spare_digits (suc spare) count x y enough =
      let next : suc spare + count ≡ suc (spare + count) = omega arith in
      ap (λ (c : ℕ). digits ended digit c x y) next
      ∙ spare_digit (spare + count) x y (omega arith)
      ∙ spare_digits spare count x y enough

  -- The operation on a number that is not 0, from the one on the halves.
  halve :
      (x y : ℕ)
      → digits ended digit (suc x) (suc x) y
        ≡ digits ended digit (suc x / 2) (suc x / 2) (y / 2) * 2 + digit (suc x % 2) (y % 2)
  halve x y =
      let half : ℕ = suc x / 2 in
      let split : x ≡ (x - half) + half = omega arith in
      ap (λ (higher : ℕ). higher * 2 + digit (suc x % 2) (y % 2))
        (ap (λ (count : ℕ). digits ended digit count half (y / 2)) split
          ∙ spare_digits (x - half) half half (y / 2) (omega arith))

pub bit_and_step : (x y : ℕ) → bit_and x y ≡ bit_and (x / 2) (y / 2) * 2 + min (x % 2) (y % 2)
bit_and_step zero y = simp bit_and-bitwise (omega arith)
bit_and_step (suc x) y = simp bit_and-bitwise (halve (λ rest. 0) min x y)

bit_or_step : (x y : ℕ) → bit_or x y ≡ bit_or (x / 2) (y / 2) * 2 + max (x % 2) (y % 2)
bit_or_step zero y = simp bit_or-bitwise (omega arith)
bit_or_step (suc x) y = simp bit_or-bitwise (halve (λ rest. rest) max x y)

-- 0 from the right, by halving as long as a number below 2 ^ n allows.
right_zero : (n x : ℕ) → x < 2 ^ n → (bit_or x 0 ≡ x) × (bit_and x 0 ≡ 0)
right_zero zero x low = (rw (the_zero x low) refl, rw (the_zero x low) refl)
  where
    the_zero : (x : ℕ) → x < 2 ^ 0 → x ≡ 0
    the_zero x low = omega arith
right_zero (suc n) x low =
    let (or_half, and_half) = right_zero n (x / 2) (omega (arith, pow-suc 2 n)) in
    (omega (arith, bit_or_step x 0, or_half), omega (arith, bit_and_step x 0, and_half))

below_power : (x : ℕ) → x < 2 ^ x
below_power zero = omega arith
below_power (suc x) = omega (arith, pow-suc 2 x, below_power x)

left_zero : (y : ℕ) → bit_or 0 y ≡ y
left_zero y = simp bit_or-bitwise (omega arith)

double_field : (n x : ℕ) → x * 2 ^ suc n ≡ 2 * (x * 2 ^ n)
double_field n x = grind (arith, pow-suc 2 n)

-- A field above bit n and a number below it, in either order.
fields :
    (n x y : ℕ)
    → y < 2 ^ n
    → (bit_or (x * 2 ^ n) y ≡ x * 2 ^ n + y)
      × (bit_or y (x * 2 ^ n) ≡ y + x * 2 ^ n)
      × (bit_and (x * 2 ^ n + y) (2 ^ n - 1) ≡ y)
fields zero x y low = (
  ground (arith, (right_zero x x (below_power x)).0),
  ground (arith, left_zero x),
  ground (arith, (right_zero x x (below_power x)).1),
)
fields (suc n) x y low =
    let (above, beneath, masked) = fields n x (y / 2) (omega (arith, pow-suc 2 n)) in
    (
      ground (arith, double_field n x, bit_or_step (x * 2 ^ suc n) y, above),
      ground (arith, double_field n x, bit_or_step y (x * 2 ^ suc n), beneath),
      ground (
        arith,
        double_field n x,
        pow-suc 2 n,
        one-le-pow n 2,
        bit_and_step (x * 2 ^ suc n + y) (2 ^ suc n - 1),
        masked,
      ),
    )

pub bit_or_high : (n x y : ℕ) → y < 2 ^ n → bit_or (x * 2 ^ n) y ≡ x * 2 ^ n + y
bit_or_high n x y low = (fields n x y low).0

pub bit_or_low : (n x y : ℕ) → y < 2 ^ n → bit_or y (x * 2 ^ n) ≡ y + x * 2 ^ n
bit_or_low n x y low = (fields n x y low).1

-- A mask of n ones takes the remainder by 2 ^ n.
pub bit_and_mask : (n x : ℕ) → bit_and x (2 ^ n - 1) ≡ x % 2 ^ n
bit_and_mask n x =
    grind
      (arith, one-le-pow n 2, (fields n (x / 2 ^ n) (x % 2 ^ n) (omega (arith, one-le-pow n 2))).2)
