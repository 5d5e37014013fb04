-- ===== src/Mem/Endian/Spec.antt =====
-- What a little-endian access means: the number that `n` bytes from an index on stand for, and the
-- vector after `n` bytes of a number are laid down.
use hvmsys.Base.{ℕ, zero, suc, ◌+◌, ◌*◌, ◌/◌, ◌%◌, ◌^◌, ◌≤◌, ◌<◌, ◌≡◌, refl, ◌∙◌}
use hvmsys.Base.{◌⊎◌, List, arith, length, get_or, set, length-set, All, All-set}
use hvmsys.Base.{get_or-set_self, get_or-set_ne, All-get_or}
use hvmsys.Base.Words.{IsByte}
use native.Mathlib.Nat.{pow-suc}

abbrev pub byte : List ℕ → ℕ → ℕ
byte bytes i = get_or bytes i 0

unfoldable pub value_at : ℕ → List ℕ → ℕ → ℕ
value_at zero bytes i = 0
value_at (suc n) bytes i = byte bytes i + 256 * value_at n bytes (i + 1)

unfoldable pub lay : ℕ → List ℕ → ℕ → ℕ → List ℕ
lay zero bytes i v = bytes
lay (suc n) bytes i v = lay n (set bytes i (v % 256)) (i + 1) (v / 256)

pub length-lay : (n : ℕ) (bytes : List ℕ) (i v : ℕ) → length (lay n bytes i v) ≡ length bytes
unfolding lay
length-lay zero bytes i v = refl
length-lay (suc n) bytes i v =
    length-lay n (set bytes i (v % 256)) (i + 1) (v / 256) ∙ length-set bytes i (v % 256)

pub lay-IsByte :
    (n : ℕ) (bytes : List ℕ) (i v : ℕ) → All IsByte bytes → All IsByte (lay n bytes i v)
unfolding lay
lay-IsByte zero bytes i v h = h
lay-IsByte (suc n) bytes i v h =
    lay-IsByte n _ (i + 1) (v / 256) (All-set IsByte bytes i (v % 256) (omega arith) h)

-- Bytes before and behind the range stay.
pub byte-lay_outside :
    (n : ℕ) (bytes : List ℕ) (i v j : ℕ)
    → (j < i) ⊎ (i + n ≤ j)
    → byte (lay n bytes i v) j ≡ byte bytes j
unfolding lay
byte-lay_outside zero bytes i v j h = refl
byte-lay_outside (suc n) bytes i v j h =
    byte-lay_outside n (set bytes i (v % 256)) (i + 1) (v / 256) j (omega arith)
    ∙ get_or-set_ne bytes i j (v % 256) 0 (omega arith)

pub value_at-lay_outside :
    (m n : ℕ) (bytes : List ℕ) (i v j : ℕ)
    → (j + m ≤ i) ⊎ (i + n ≤ j)
    → value_at m (lay n bytes i v) j ≡ value_at m bytes j
unfolding value_at
value_at-lay_outside zero n bytes i v j h = refl
value_at-lay_outside (suc m) n bytes i v j h = omega (
  arith,
  byte-lay_outside n bytes i v j (omega arith),
  value_at-lay_outside m n bytes i v (j + 1) (omega arith),
)

-- What is laid down is read back, up to the bytes that fit.
pub value_at-lay :
    (n : ℕ) (bytes : List ℕ) (i v : ℕ)
    → i + n ≤ length bytes
    → v < 256 ^ n
    → value_at n (lay n bytes i v) i ≡ v
unfolding value_at lay
value_at-lay zero bytes i v fits small = omega arith
value_at-lay (suc n) bytes i v fits small =
    let rest = set bytes i (v % 256) in
    omega (
      arith,
      pow-suc 256 n,
      byte-lay_outside n rest (i + 1) (v / 256) i (omega arith),
      get_or-set_self bytes i (v % 256) 0 (omega arith),
      value_at-lay n rest (i + 1) (v / 256) (omega (arith, length-set bytes i (v % 256)))
          (omega (arith, pow-suc 256 n)),
    )

pub value_at-lt : (n : ℕ) (bytes : List ℕ) (i : ℕ) → All IsByte bytes → value_at n bytes i < 256 ^ n
unfolding value_at
value_at-lt zero bytes i h = omega arith
value_at-lt (suc n) bytes i h = omega (
  arith,
  pow-suc 256 n,
  value_at-lt n bytes (i + 1) h,
  All-get_or IsByte bytes i 0 (omega arith) h,
)
