-- ===== src/Hvmc/Encoder/Fields.antt =====
-- The bit fields of an encoded instruction word.
use hvmsys.Base.{ℕ, ◌+◌, ◌*◌, ◌/◌, ◌%◌, ◌^◌, ◌<◌, ◌≡◌, refl, arith, bit_or}
use hvmsys.Base.Words.{u8, u16, u32, ◌<<<◌}
use hvmsys.Base.Bits.{bit_or_high, bit_and_mask}
use hvmsys.Hvmc.Types.{InstFormat, Operands, r, i, ri, b, j}
use hvmsys.Hvmc.Encoder.{encode_r32, encode_i32, encode_b32, encode_j32, payload}

-- `|` with a field below the lowest bit in use.
bit_or_field : (k x v : ℕ) → 2 ^ k * (x / 2 ^ k) ≡ x → v < 2 ^ k → bit_or x v ≡ x + v
bit_or_field k x v e h = grind (arith, bit_or_high k (x / 2 ^ k) v h)

pub encode_r32_sum :
    (op rd rs1 rs2 func : ℕ)
    → rd < 32
    → rs1 < 32
    → rs2 < 32
    → encode_r32 op rd rs1 rs2 func
      ≡ (op % 128) * 2 ^ 25 + rd * 2 ^ 20 + rs1 * 2 ^ 15 + rs2 * 2 ^ 10 + func % 2 ^ 10
unfolding encode_r32
encode_r32_sum op rd rs1 rs2 func h1 h2 h3 =
    let e0 : u32 (op <<< 25) ≡ (op % 128) * 2 ^ 25 = omega arith in
    rw
      (
        e0,
        bit_or_field 25 ((op % 128) * 2 ^ 25) (rd * 2 ^ 20) (omega arith) (omega arith),
        bit_or_field 20 ((op % 128) * 2 ^ 25 + rd * 2 ^ 20) (rs1 * 2 ^ 15) (omega arith)
            (omega arith),
        bit_or_field 15 ((op % 128) * 2 ^ 25 + rd * 2 ^ 20 + rs1 * 2 ^ 15) (rs2 * 2 ^ 10)
            (omega arith) (omega arith),
        bit_and_mask 10 func,
      )
      (bit_or_field 10 ((op % 128) * 2 ^ 25 + rd * 2 ^ 20 + rs1 * 2 ^ 15 + rs2 * 2 ^ 10)
        (func % 2 ^ 10) (omega arith) (omega arith))

pub encode_i32_sum :
    (op rd rs1 imm : ℕ)
    → rd < 32
    → rs1 < 32
    → encode_i32 op rd rs1 imm ≡ (op % 128) * 2 ^ 25 + rd * 2 ^ 20 + rs1 * 2 ^ 15 + imm % 2 ^ 15
unfolding encode_i32
encode_i32_sum op rd rs1 imm h1 h2 =
    let e0 : u32 (op <<< 25) ≡ (op % 128) * 2 ^ 25 = omega arith in
    rw
      (
        e0,
        bit_or_field 25 ((op % 128) * 2 ^ 25) (rd * 2 ^ 20) (omega arith) (omega arith),
        bit_or_field 20 ((op % 128) * 2 ^ 25 + rd * 2 ^ 20) (rs1 * 2 ^ 15) (omega arith)
            (omega arith),
        bit_and_mask 15 imm,
      )
      (bit_or_field 15 ((op % 128) * 2 ^ 25 + rd * 2 ^ 20 + rs1 * 2 ^ 15) (imm % 2 ^ 15)
        (omega arith) (omega arith))

-- The B format is the I format with the other two registers.
encode_b32_sum :
    (op rs1 rs2 imm : ℕ)
    → rs1 < 32
    → rs2 < 32
    → encode_b32 op rs1 rs2 imm ≡ (op % 128) * 2 ^ 25 + rs1 * 2 ^ 20 + rs2 * 2 ^ 15 + imm % 2 ^ 15
unfolding encode_i32 encode_b32
encode_b32_sum op rs1 rs2 imm h1 h2 = encode_i32_sum op rs1 rs2 imm h1 h2

encode_j32_sum :
    (op rd imm : ℕ)
    → rd < 32
    → encode_j32 op rd imm ≡ (op % 128) * 2 ^ 25 + rd * 2 ^ 20 + imm % 2 ^ 20
unfolding encode_j32
encode_j32_sum op rd imm h1 =
    let e0 : u32 (op <<< 25) ≡ (op % 128) * 2 ^ 25 = omega arith in
    rw
      (
        e0,
        bit_or_field 25 ((op % 128) * 2 ^ 25) (rd * 2 ^ 20) (omega arith) (omega arith),
        bit_and_mask 20 imm,
      )
      (bit_or_field 20 ((op % 128) * 2 ^ 25 + rd * 2 ^ 20) (imm % 2 ^ 20) (omega arith)
        (omega arith))

-- The registers are in range.
pub record InRange (o : Operands) : Type 0 where
  pub rd_fits : o.rd < 32
  pub rs1_fits : o.rs1 < 32
  pub rs2_fits : o.rs2 < 32

-- What a decoder finds in the fields of a word `w`.
abbrev pub HasFields : InstFormat → ℕ → Operands → ℕ → Type 0
HasFields r op o w =
    (w / 2 ^ 25 ≡ op)
    × (w / 2 ^ 20 % 32 ≡ o.rd)
    × (w / 2 ^ 15 % 32 ≡ o.rs1)
    × (w / 2 ^ 10 % 32 ≡ o.rs2)
    × (w % 2 ^ 10 ≡ o.func % 2 ^ 10)
HasFields i op o w =
    (w / 2 ^ 25 ≡ op)
    × (w / 2 ^ 20 % 32 ≡ o.rd)
    × (w / 2 ^ 15 % 32 ≡ o.rs1)
    × (w % 2 ^ 15 ≡ o.imm % 2 ^ 15)
HasFields ri op o w =
    (w / 2 ^ 25 ≡ op)
    × (w / 2 ^ 20 % 32 ≡ o.rd)
    × (w / 2 ^ 15 % 32 ≡ o.rs1)
    × (w / 2 ^ 10 % 32 ≡ o.rs2)
    × (w % 2 ^ 10 ≡ o.imm % 2 ^ 10)
HasFields b op o w =
    (w / 2 ^ 25 ≡ op)
    × (w / 2 ^ 20 % 32 ≡ o.rs1)
    × (w / 2 ^ 15 % 32 ≡ o.rs2)
    × (w % 2 ^ 15 ≡ o.imm % 2 ^ 15)
HasFields j op o w = (w / 2 ^ 25 ≡ op) × (w / 2 ^ 20 % 32 ≡ o.rd) × (w % 2 ^ 20 ≡ o.imm % 2 ^ 20)

r_fields :
    (op d s t f w : ℕ)
    → d < 32
    → s < 32
    → t < 32
    → w ≡ (op % 128) * 2 ^ 25 + d * 2 ^ 20 + s * 2 ^ 15 + t * 2 ^ 10 + f % 2 ^ 10
    → (w / 2 ^ 25 ≡ op % 128)
      × (w / 2 ^ 20 % 32 ≡ d)
      × (w / 2 ^ 15 % 32 ≡ s)
      × (w / 2 ^ 10 % 32 ≡ t)
      × (w % 2 ^ 10 ≡ f % 2 ^ 10)
r_fields op d s t f w h1 h2 h3 e = (omega arith, omega arith, omega arith, omega arith, omega arith)

i_fields :
    (op d s f w : ℕ)
    → d < 32
    → s < 32
    → w ≡ (op % 128) * 2 ^ 25 + d * 2 ^ 20 + s * 2 ^ 15 + f % 2 ^ 15
    → (w / 2 ^ 25 ≡ op % 128)
      × (w / 2 ^ 20 % 32 ≡ d)
      × (w / 2 ^ 15 % 32 ≡ s)
      × (w % 2 ^ 15 ≡ f % 2 ^ 15)
i_fields op d s f w h1 h2 e = (omega arith, omega arith, omega arith, omega arith)

-- For registers below 32, each field of the payload that encode_instruction builds holds its operand,
-- the immediate or function code cut to the width of its field; the top field has opcode % 128.
pub payload-HasFields :
    (f : InstFormat) (op : ℕ) (o : Operands) → InRange o → HasFields f (op % 128) o (payload f op o)
unfolding payload
payload-HasFields r op o v =
    let e1 : u8 o.rd ≡ o.rd = omega (arith, v.rd_fits) in
    let e2 : u8 o.rs1 ≡ o.rs1 = omega (arith, v.rs1_fits) in
    let e3 : u8 o.rs2 ≡ o.rs2 = omega (arith, v.rs2_fits) in
    r_fields op o.rd o.rs1 o.rs2 o.func _ v.rd_fits v.rs1_fits v.rs2_fits (
      rw
        (
          e1,
          e2,
          e3,
          encode_r32_sum op o.rd o.rs1 o.rs2 (u16 o.func) v.rd_fits v.rs1_fits v.rs2_fits,
        )
        (omega arith))
payload-HasFields ri op o v =
    let e1 : u8 o.rd ≡ o.rd = omega (arith, v.rd_fits) in
    let e2 : u8 o.rs1 ≡ o.rs1 = omega (arith, v.rs1_fits) in
    let e3 : u8 o.rs2 ≡ o.rs2 = omega (arith, v.rs2_fits) in
    r_fields op o.rd o.rs1 o.rs2 o.imm _ v.rd_fits v.rs1_fits v.rs2_fits (
      rw
        (e1, e2, e3, encode_r32_sum op o.rd o.rs1 o.rs2 (u16 o.imm) v.rd_fits v.rs1_fits v.rs2_fits)
        (omega arith))
payload-HasFields i op o v =
    let e1 : u8 o.rd ≡ o.rd = omega (arith, v.rd_fits) in
    let e2 : u8 o.rs1 ≡ o.rs1 = omega (arith, v.rs1_fits) in
    i_fields op o.rd o.rs1 o.imm _ v.rd_fits v.rs1_fits
      (rw (e1, e2, encode_i32_sum op o.rd o.rs1 (u16 o.imm) v.rd_fits v.rs1_fits) (omega arith))
payload-HasFields b op o v =
    let e2 : u8 o.rs1 ≡ o.rs1 = omega (arith, v.rs1_fits) in
    let e3 : u8 o.rs2 ≡ o.rs2 = omega (arith, v.rs2_fits) in
    i_fields op o.rs1 o.rs2 o.imm _ v.rs1_fits v.rs2_fits
      (rw (e2, e3, encode_b32_sum op o.rs1 o.rs2 (u16 o.imm) v.rs1_fits v.rs2_fits) (omega arith))
payload-HasFields j op o v =
    let e1 : u8 o.rd ≡ o.rd = omega (arith, v.rd_fits) in
    let e : payload j op o ≡ (op % 128) * 2 ^ 25 + o.rd * 2 ^ 20 + o.imm % 2 ^ 20 =
      rw (e1, encode_j32_sum op o.rd o.imm v.rd_fits) refl in
    (omega (arith, v.rd_fits), omega (arith, v.rd_fits), omega (arith, v.rd_fits))
