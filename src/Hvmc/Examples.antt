-- ===== src/Hvmc/Examples.antt =====
-- The encoder on concrete instructions.
use hvmsys.Base.{true, ℕ, List, ◌≡◌, refl, arith, some, [], ◌∷◌, length, drop}
use hvmsys.Hvmc.Types.{Instruction, Operands, j, escape32}
use hvmsys.Hvmc.Opcodes.{opcode_table}
use hvmsys.Hvmc.Encoder.{
  encode, encode_with, encode_instruction, payload, wrap, encode_r32, encode_i32, encode_uleb128,
  uleb128_bytes, emit_escape32,
}
use hvmsys.Hvmc.Encoder.Fields.{HasFields}
use hvmsys.Hvmc.Encoder.Lengths.{
  uleb128_value, encode_uleb128_value, entry_size, find_entry, encode-length,
}
use hvmsys.Hvmc.Elf.{
  ElfSec, assign_offsets, skipped, align_up, w8, w16le, w32le, w64le, elf_header_size,
}
use hvmsys.Hvmc.Elf.Image.{
  IsSpread, section_addresses, section_addresses-IsSpread, elf_header, symbol_entry,
}
use hvmsys.Hvmc.Encoder.Words.{le_word, encode_instruction-HasFields}

abbrev some_operands : Operands
some_operands = record { rd = 3; rs1 = 1; rs2 = 2; imm = 100; func = 0 }

-- SUB r3, r1, r2.
sub_bytes : (encode "SUB" some_operands).bytes ≡ 0x01 ∷ 0x88 ∷ 0x30 ∷ 0x20 ∷ []
unfolding encode encode_with encode_instruction payload wrap encode_r32 opcode_table
sub_bytes = refl

-- ADJSP, an escape: the prefix, the opcode in ULEB128, a zero byte, the payload.
adjsp_bytes :
    (encode "ADJSP" some_operands).bytes
    ≡ 0xfe ∷ 0x82 ∷ 0x01 ∷ 0x00 ∷ 0x64 ∷ 0x80 ∷ 0x30 ∷ 0x04 ∷ []
unfolding encode encode_with encode_instruction payload wrap encode_i32 emit_escape32 encode_uleb128
    uleb128_bytes opcode_table
adjsp_bytes = refl

encode_uleb128_value_example : uleb128_value (encode_uleb128 0xc6) ≡ 0xc6
encode_uleb128_value_example = encode_uleb128_value 0xc6 (omega arith)

encode-length_example :
    length (encode "ADJSP" some_operands).bytes ≡ entry_size (find_entry opcode_table "ADJSP")
encode-length_example = encode-length "ADJSP" some_operands

abbrev call_inst : Instruction
call_inst = record {
  mnemonic = "CALL";
  opcode = 0xb4;
  encoding = escape32;
  format = j;
  operands = some_operands;
}

encode_instruction-HasFields_example :
    (w : ℕ) × (le_word (drop 4 (encode_instruction call_inst).bytes) ≡ some w)
    × HasFields j 0x34 some_operands w
encode_instruction-HasFields_example =
    encode_instruction-HasFields call_inst (omega arith)
      (record { rd_fits = omega arith; rs1_fits = omega arith; rs2_fits = omega arith })

abbrev null_section : ElfSec
null_section = record {
  name_off = 0;
  kind = 0;
  flags = 0;
  addr = 0;
  offset = 0;
  size = 0;
  link = 0;
  info = 0;
  align = 0;
  entsize = 0;
  contents = [];
}

abbrev text_section : ElfSec
text_section = record null_section { kind = 1; align = 8; contents = 1 ∷ 2 ∷ 3 ∷ [] }

abbrev three_sections : List ElfSec
three_sections = null_section ∷ text_section ∷ text_section ∷ []

-- From offset 3: the texts at 8 and at 16.
three_placed :
    (assign_offsets 3 three_sections).0
    ≡ null_section ∷ record text_section { offset = 8 } ∷ record text_section { offset = 16 } ∷ []
unfolding assign_offsets skipped align_up
three_placed = refl

section_addresses-IsSpread_example : IsSpread 13 5 8 (section_addresses true 13 5 8)
section_addresses-IsSpread_example =
    section_addresses-IsSpread true 13 5 8 (omega arith) (omega arith) (omega arith)

-- The ELF header fills the 64 bytes that the layout gives it, a symbol 24.
header_sizes :
    (length (elf_header true 0x100000 0x200 9 8) ≡ elf_header_size)
    × (length (
          symbol_entry (record {
            st_name = 0;
            st_info = 3;
            st_other = 0;
            st_shndx = 1;
            st_value = 0;
            st_size = 0;
          }))
        ≡ 24)
unfolding elf_header symbol_entry w8 w16le w32le w64le
header_sizes = (refl, refl)
