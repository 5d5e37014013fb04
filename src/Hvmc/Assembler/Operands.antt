-- ===== src/Hvmc/Assembler/Operands.antt =====
-- The operands of an instruction, in assemble of src/tools/hvmc/src/assembler.cpp.
use hvmsys.Base.{
  ℕ, zero, suc, ◌+◌, ◌-◌, ◌%◌, ◌^◌, Bool, true, false, ◌&&◌, if◌then◌else◌, ltb, ◌==◌, List, [],
  ◌∷◌, ◌++◌, length, Option, none, some,
}
use hvmsys.Base.Text.{Bytes, text, same_text}
use hvmsys.Hvmc.Types.{InstFormat, b, j, Operands, Instruction, OpcodeEntry}
use hvmsys.Hvmc.Opcodes.{opcode_table}
use hvmsys.Hvmc.Encoder.{encode_instruction}
use hvmsys.Hvmc.AsmLexer.{AsmKind, ident, number, plus, minus, newline, end, AsmToken}
use hvmsys.Hvmc.AsmLexer.Registers.{parse_reg}
use hvmsys.Hvmc.Assembler.State.{
  Asm, ◌>>=◌, give, either, undefined_step, no_fuel, read, Pass, find_label,
}

-- The variables of the operand loop: the registers so far, and the immediate as the pattern of an i64.
pub record OperandState : Type 0 where
  pub regs : List ℕ
  pub imm_val : ℕ
  pub has_imm : Bool

abbrev pub no_operands : OperandState
no_operands = record { regs = []; imm_val = 0; has_imm = false }

abbrev pub set_imm : OperandState → ℕ → OperandState
set_imm s v = record s { imm_val = v; has_imm = true }

-- The pattern of -v, for a v other than the least i64.
abbrev pub negated : ℕ → ℕ
negated v = (2 ^ 64 - v) % 2 ^ 64

abbrev pub or_else : Option ℕ → ℕ → ℕ
or_else (some v) w = v
or_else none w = w

abbrev pub negated_label : OperandState → Option ℕ → OperandState
negated_label s (some v) = set_imm s (negated v)
negated_label s none = record s { has_imm = true }

-- The token behind a minus. `-nt.intval` overflows for the least i64, which is undefined; a label, the
-- size of a vector, is never that number.
abbrev pub minus_operand : Pass → OperandState → AsmToken → AsmKind → Asm OperandState
minus_operand p s t number =
    either (t.intval == 2 ^ 63) undefined_step (give (set_imm s (negated t.intval)))
minus_operand p s t ident = give (negated_label s (find_label t.text p.labels))
minus_operand p s t _ = give s

abbrev pub plus_operand : OperandState → AsmToken → AsmKind → OperandState
plus_operand s t number = set_imm s t.intval
plus_operand s t _ = s

abbrev pub is_branch : InstFormat → Bool
is_branch b = true
is_branch j = true
is_branch _ = false

-- A label as an operand: a branch has its distance from the instruction.
abbrev pub label_operand : Pass → OpcodeEntry → OperandState → Option ℕ → OperandState
label_operand p entry s none = record s { has_imm = true }
label_operand p entry s (some at) = set_imm s (
    if p.second && is_branch entry.format
    then (at + (2 ^ 64 - length p.current_data)) % 2 ^ 64
    else at)

-- A name as an operand: one of the first three registers, or a label.
abbrev pub name_operand : Pass → OpcodeEntry → OperandState → Bytes → Option ℕ → OperandState
name_operand p entry s name none = label_operand p entry s (find_label name p.labels)
name_operand p entry s name (some reg) =
    if ltb (length s.regs) 3
    then record s { regs = s.regs ++ (reg ∷ []) }
    else label_operand p entry s (find_label name p.labels)

-- A round of the operand loop; `again` is the loop.
unfoldable pub operand_round :
    (OperandState → Asm OperandState)
    → Pass
    → OpcodeEntry
    → OperandState
    → AsmToken
    → AsmKind
    → Asm OperandState
operand_round again p entry s t newline = give s
operand_round again p entry s t end = give s
operand_round again p entry s t minus = read >>= λ nt. minus_operand p s nt nt.kind >>= again
operand_round again p entry s t plus = read >>= λ nt. again (plus_operand s nt nt.kind)
operand_round again p entry s t number = again (set_imm s t.intval)
operand_round again p entry s t ident = again (name_operand p entry s t.text (parse_reg t.text))
operand_round again p entry s t _ = again s

unfoldable pub operand_loop : ℕ → Pass → OpcodeEntry → OperandState → Asm OperandState
operand_loop zero p entry s = no_fuel
operand_loop (suc fuel) p entry s = do
  t ← read
  operand_round (operand_loop fuel p entry) p entry s t t.kind

-- The register at the index, or 0.
abbrev pub reg_at : List ℕ → ℕ → ℕ
reg_at [] i = 0
reg_at (r ∷ rs) zero = r
reg_at (r ∷ rs) (suc i) = reg_at rs i

unfoldable pub operands_of : OpcodeEntry → OperandState → Operands
operands_of entry s = record {
  rd = reg_at s.regs 0;
  rs1 = reg_at s.regs 1;
  rs2 = reg_at s.regs 2;
  imm = if s.has_imm then s.imm_val % 2 ^ 32 else 0;
  func = or_else entry.func 0;
}

-- The bytes of the instruction behind the current data.
unfoldable pub add_instruction : Pass → OpcodeEntry → OperandState → Pass
add_instruction p entry s =
    let inst : Instruction = record {
      mnemonic = entry.mnemonic;
      opcode = entry.opcode;
      encoding = entry.encoding;
      format = entry.format;
      operands = operands_of entry s;
    } in
    record p { current_data = p.current_data ++ (encode_instruction inst).bytes }

-- The first entry of the table with the mnemonic.
unfoldable pub entry_in : Bytes → List OpcodeEntry → Option OpcodeEntry
entry_in id [] = none
entry_in id (entry ∷ entries) =
    let later = entry_in id entries in
    if same_text id (text entry.mnemonic) then some entry else later

unfoldable pub find_entry : Bytes → Option OpcodeEntry
find_entry id = entry_in id opcode_table
