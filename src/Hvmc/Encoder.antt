-- ===== src/Hvmc/Encoder.antt =====
-- src/tools/hvmc/src/encoder.cpp: instructions as bytes.
pub mod Fields
pub mod Lengths
pub mod Words
use hvmsys.Base.{
  ℕ, zero, suc, ◌+◌, ◌-◌, ◌*◌, ◌/◌, ◌%◌, ◌^◌, bit_and, bit_or, Bool, true, false, if◌then◌else◌,
  ltb, Option, none, some,
}
use hvmsys.Base.{List, [], ◌∷◌, ◌++◌, length, replicate}
use hvmsys.Base.Words.{u8, u16, u32, ◌<<<◌, ◌>>>◌}
use Prim.Native.Nat.{Ordering}
use Prim.Native.String.{String, compare}
use hvmsys.Hvmc.Types.{
  InstFormat, EncodingType, Operands, Instruction, EncodedInst, OpcodeEntry, r, i, ri, b, j, base32,
  escape32,
}
use hvmsys.Hvmc.Opcodes.{opcode_table}

-- The register fields come in as bytes, `func` and `imm` as 16-bit patterns.
unfoldable pub encode_r32 : ℕ → ℕ → ℕ → ℕ → ℕ → ℕ
encode_r32 opcode rd rs1 rs2 func =
    bit_or (bit_or (bit_or (bit_or (u32 (opcode <<< 25)) (rd <<< 20)) (rs1 <<< 15)) (rs2 <<< 10))
      (bit_and func 0x3ff)

unfoldable pub encode_i32 : ℕ → ℕ → ℕ → ℕ → ℕ
encode_i32 opcode rd rs1 imm =
    bit_or (bit_or (bit_or (u32 (opcode <<< 25)) (rd <<< 20)) (rs1 <<< 15)) (bit_and imm 0x7fff)

unfoldable pub encode_b32 : ℕ → ℕ → ℕ → ℕ → ℕ
encode_b32 opcode rs1 rs2 imm =
    bit_or (bit_or (bit_or (u32 (opcode <<< 25)) (rs1 <<< 20)) (rs2 <<< 15)) (bit_and imm 0x7fff)

-- `imm` is a 32-bit pattern.
unfoldable pub encode_j32 : ℕ → ℕ → ℕ → ℕ
encode_j32 opcode rd imm = bit_or (bit_or (u32 (opcode <<< 25)) (rd <<< 20)) (bit_and imm 0xfffff)

-- The loop of encode_uleb128, on fuel.
unfoldable pub uleb128_bytes : ℕ → ℕ → List ℕ
uleb128_bytes zero val = u8 val ∷ []
uleb128_bytes (suc fuel) val =
    let rest = uleb128_bytes fuel (val >>> 7) in
    if ltb val 0x80 then u8 val ∷ [] else u8 (bit_or (bit_and val 0x7f) 0x80) ∷ rest

-- The bytes that encode_uleb128 appends; a u32 takes four rounds at most.
unfoldable pub encode_uleb128 : ℕ → List ℕ
unfolding uleb128_bytes
encode_uleb128 val = uleb128_bytes 4 val

-- Four pushes, the lowest byte first.
abbrev pub word_bytes : ℕ → List ℕ
word_bytes w = u8 w ∷ u8 (w >>> 8) ∷ u8 (w >>> 16) ∷ u8 (w >>> 24) ∷ []

-- `while (buf.size() < 4) buf.push_back(0)`.
abbrev pub pad_to_four : List ℕ → List ℕ
pad_to_four buf = buf ++ replicate (4 - length buf) 0

unfoldable pub emit_escape32 : List ℕ → ℕ → ℕ → List ℕ
unfolding encode_uleb128
emit_escape32 buf opcode payload =
    pad_to_four (buf ++ 0xfe ∷ encode_uleb128 opcode) ++ word_bytes payload

unfoldable pub emit_escape_r : List ℕ → ℕ → ℕ → ℕ → ℕ → ℕ → List ℕ
unfolding emit_escape32 encode_r32
emit_escape_r buf opcode rd rs1 rs2 func = emit_escape32 buf opcode (encode_r32 0 rd rs1 rs2 func)

unfoldable pub emit_escape_i : List ℕ → ℕ → ℕ → ℕ → ℕ → List ℕ
unfolding emit_escape32 encode_i32
emit_escape_i buf opcode rd rs1 imm = emit_escape32 buf opcode (encode_i32 0 rd rs1 imm)

unfoldable pub emit_escape_b : List ℕ → ℕ → ℕ → ℕ → ℕ → List ℕ
unfolding emit_escape32 encode_b32
emit_escape_b buf opcode rs1 rs2 imm = emit_escape32 buf opcode (encode_b32 0 rs1 rs2 imm)

unfoldable pub emit_escape_j : List ℕ → ℕ → ℕ → ℕ → List ℕ
unfolding emit_escape32 encode_j32
emit_escape_j buf opcode rd imm = emit_escape32 buf opcode (encode_j32 0 rd imm)

-- The switch of encode_instruction; the operands are cut to the parameters' widths.
unfoldable pub payload : InstFormat → ℕ → Operands → ℕ
unfolding encode_r32 encode_i32 encode_b32 encode_j32
payload r op o = encode_r32 op (u8 o.rd) (u8 o.rs1) (u8 o.rs2) (u16 o.func)
payload i op o = encode_i32 op (u8 o.rd) (u8 o.rs1) (u16 o.imm)
payload ri op o = encode_r32 op (u8 o.rd) (u8 o.rs1) (u8 o.rs2) (u16 o.imm)
payload b op o = encode_b32 op (u8 o.rs1) (u8 o.rs2) (u16 o.imm)
payload j op o = encode_j32 op (u8 o.rd) o.imm

-- What follows the switch.
unfoldable pub wrap : EncodingType → ℕ → ℕ → EncodedInst
unfolding emit_escape32
wrap escape32 opcode w = record { bytes = emit_escape32 [] opcode w; is_escape32 = true }
wrap base32 opcode w = record { bytes = word_bytes w; is_escape32 = false }

unfoldable pub encode_instruction : Instruction → EncodedInst
unfolding payload wrap
encode_instruction inst =
    wrap inst.encoding inst.opcode (payload inst.format inst.opcode inst.operands)

abbrev pub same_text : String → String → Bool
same_text a c = elim (compare a c) [ Ordering.eq ↦ true | _ ↦ false ]

abbrev with_func : Option ℕ → Operands → Operands
with_func none ops = ops
with_func (some f) ops = record ops { func = f }

abbrev instruction : OpcodeEntry → Operands → Instruction
instruction e ops = record {
  mnemonic = e.mnemonic;
  opcode = e.opcode;
  encoding = e.encoding;
  format = e.format;
  operands = with_func e.func ops;
}

-- The search of `encode`; no bytes for a mnemonic that the table lacks.
unfoldable pub encode_with : List OpcodeEntry → String → Operands → EncodedInst
unfolding encode_instruction
encode_with [] mnemonic ops = record { bytes = []; is_escape32 = false }
encode_with (e ∷ table) mnemonic ops =
    let rest = encode_with table mnemonic ops in
    if same_text mnemonic e.mnemonic then encode_instruction (instruction e ops) else rest

unfoldable pub encode : String → Operands → EncodedInst
unfolding encode_with opcode_table
encode mnemonic ops = encode_with opcode_table mnemonic ops
