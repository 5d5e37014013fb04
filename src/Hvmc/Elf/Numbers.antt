-- ===== src/Hvmc/Elf/Numbers.antt =====
-- The little-endian numbers of the ELF writer.
use hvmsys.Base.{ℕ, ◌+◌, ◌*◌, ◌/◌, ◌%◌, ◌^◌, ◌<◌, ◌≡◌, arith, bit_and, List, [], ◌∷◌, ◌++◌}
use hvmsys.Base.Bits.{bit_and_mask}
use hvmsys.Hvmc.Elf.{w8, w16le, w32le, w64le}

-- The number whose base-256 digits these are, the lowest first.
abbrev pub le_value : List ℕ → ℕ
le_value [] = 0
le_value (c ∷ cs) = c + 2 ^ 8 * le_value cs

w16le_value :
    (v : ℕ) (rest : List ℕ) → v < 2 ^ 16 → le_value (w16le v ++ rest) ≡ v + 2 ^ 16 * le_value rest
unfolding w16le w8
w16le_value v rest h = omega (arith, bit_and_mask 8 v, bit_and_mask 8 (v / 2 ^ 8))

w32le_value :
    (v : ℕ) (rest : List ℕ) → v < 2 ^ 32 → le_value (w32le v ++ rest) ≡ v + 2 ^ 32 * le_value rest
unfolding w32le
w32le_value v rest h =
    let low : bit_and v 0xffff ≡ v % 2 ^ 16 = bit_and_mask 16 v in
    let high : bit_and (v / 2 ^ 16) 0xffff ≡ v / 2 ^ 16 % 2 ^ 16 = bit_and_mask 16 (v / 2 ^ 16) in
    rw (low, high)
      (omega (
        arith,
        w16le_value (v % 2 ^ 16) (w16le (v / 2 ^ 16 % 2 ^ 16) ++ rest) (omega arith),
        w16le_value (v / 2 ^ 16 % 2 ^ 16) rest (omega arith),
      ))

-- The eight bytes that the ELF writer emits for a value below 2^64 are its little-endian digits,
-- whatever follows them.
pub w64le_value :
    (v : ℕ) (rest : List ℕ) → v < 2 ^ 64 → le_value (w64le v ++ rest) ≡ v + 2 ^ 64 * le_value rest
unfolding w64le
w64le_value v rest h =
    let low : bit_and v 0xffff_ffff ≡ v % 2 ^ 32 = bit_and_mask 32 v in
    let high : bit_and (v / 2 ^ 32) 0xffff_ffff ≡ v / 2 ^ 32 % 2 ^ 32 =
      bit_and_mask 32 (v / 2 ^ 32) in
    rw (low, high)
      (omega (
        arith,
        w32le_value (v % 2 ^ 32) (w32le (v / 2 ^ 32 % 2 ^ 32) ++ rest) (omega arith),
        w32le_value (v / 2 ^ 32 % 2 ^ 32) rest (omega arith),
      ))
