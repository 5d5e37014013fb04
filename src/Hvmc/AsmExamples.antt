-- ===== src/Hvmc/AsmExamples.antt =====
-- Tokens of assembly text and names of registers.
use hvmsys.Base.{◌≡◌, refl, length, [], ◌∷◌, some, none}
use hvmsys.Base.Text.{Bytes, text}
use hvmsys.Except.{ok, thrown, out_of_range}
use hvmsys.Hvmc.Lexer.Read.{strtoull, digits_value}
use hvmsys.Hvmc.AsmLexer.{
  ident, number, end, asm_token, AsmLexer, skip_blanks, span, asm_string, stoll, number_value,
  word_token, asm_next_at, asm_next,
}
use hvmsys.Hvmc.Lexer.Read.{unescape}
use hvmsys.Hvmc.AsmLexer.{AsmToken, skip_line}
use hvmsys.Hvmc.AsmLexer.Registers.{parse_reg, find_name, atoi}
use hvmsys.Hvmc.Assembler.State.{
  Run, ran, ◌>>=◌, give, no_fuel, undefined_step, read, commit, add_label, find_label, skip_rest,
}
use hvmsys.Hvmc.Assembler.Operands.{
  operand_round, operand_loop, operands_of, add_instruction, entry_in, find_entry,
}
use hvmsys.Hvmc.Assembler.Directives.{
  low_bytes, zeros, with_argument, other_directive, named_directive, directive,
}
use hvmsys.Hvmc.Assembler.{
  assemble_text, upper_text, instruction, named_line, pass_round, pass_loop, run_pass, assemble,
}
use hvmsys.Hvmc.Assembler.{first_pass, second_pass}
use hvmsys.Hvmc.Assembler.Runs.{no_weight, Good}
use hvmsys.Hvmc.Assembler.Ends.{assemble-ends}
use hvmsys.Hvmc.Assembler.Steps.{SameEnd, Together}
use hvmsys.Hvmc.Assembler.Positions.{AtSamePlace}
use hvmsys.Hvmc.Assembler.Alike.{SomePlace, SameRound, pass_round-Together, run_pass-SameEnd}
use hvmsys.Hvmc.Encoder.{
  encode_instruction, payload, wrap, encode_r32, encode_i32, encode_b32, encode_j32, encode_uleb128,
  uleb128_bytes, emit_escape32, emit_escape_r, emit_escape_i, emit_escape_b, emit_escape_j,
}
use hvmsys.Hvmc.Opcodes.{opcode_table}

abbrev lexer_of : Bytes → AsmLexer
lexer_of source = record { rest = source; line = 1 }

next_ld_d :
    asm_next (lexer_of (text "  LD.D r1")) ≡ ok (asm_token ident (text "LD.D") 0 (text " r1") 1)
unfolding asm_next asm_next_at skip_blanks span word_token asm_string
next_ld_d = refl

next_hex : asm_next (lexer_of (text "0x1F,")) ≡ ok (asm_token number (text "0x1F") 31 (text ",") 1)
unfolding asm_next asm_next_at skip_blanks span word_token asm_string number_value stoll strtoull
    digits_value
next_hex = refl

-- A bracket ends the text for the assembler.
next_bracket : asm_next (lexer_of (text "[r1]")) ≡ ok (asm_token end [] 0 (text "[r1]") 1)
unfolding asm_next asm_next_at skip_blanks span word_token asm_string
next_bracket = refl

next_too_large : asm_next (lexer_of (text "9223372036854775808")) ≡ thrown out_of_range
unfolding asm_next asm_next_at skip_blanks span word_token asm_string number_value stoll
    digits_value
next_too_large = refl

register_names :
    (parse_reg (text "sp") ≡ some 31)
    × (parse_reg (text "r17") ≡ some 17)
    × (parse_reg (text "r32") ≡ none)
unfolding parse_reg find_name atoi
register_names = (refl, refl, refl)

-- The bytes that were assembled.
abbrev bytes_of : Run Bytes → Bytes
bytes_of (ran bytes l) = bytes
bytes_of _ = []

-- The first register of an instruction is lost: these are the bytes of `add r2, r3, r0`.
assemble_add : bytes_of (assemble_text (text "add r1, r2, r3\n")) ≡ 0 ∷ 128 ∷ 33 ∷ 32 ∷ []
unfolding assemble_text ◌>>=◌ give no_fuel undefined_step read commit add_label find_label skip_rest
    operand_round operand_loop operands_of add_instruction entry_in find_entry low_bytes zeros
    with_argument other_directive named_directive directive upper_text instruction named_line
    pass_round pass_loop run_pass assemble skip_blanks skip_line span asm_string stoll number_value
    word_token asm_next_at asm_next find_name atoi parse_reg encode_instruction payload wrap
    encode_r32 encode_i32 encode_b32 encode_j32 encode_uleb128 uleb128_bytes emit_escape32
    emit_escape_r emit_escape_i emit_escape_b emit_escape_j opcode_table strtoull digits_value
    unescape
assemble_add = refl

assemble-ends_example :
    Good no_weight
      (length (text "x: add r1, r2, r3\n .byte 7"))
      (assemble (text "x: add r1, r2, r3\n .byte 7"))
assemble-ends_example = assemble-ends (text "x: add r1, r2, r3\n .byte 7")

passes-AtSamePlace : AtSamePlace [] first_pass (second_pass first_pass)
passes-AtSamePlace = record { first = refl; second = refl; position = refl; known = refl }

run_pass-SameEnd_example :
    SameEnd SomePlace
      (run_pass (text "x: add r1, r2, r3\n .byte 7") first_pass)
      (run_pass (text "x: add r1, r2, r3\n .byte 7") (second_pass first_pass))
run_pass-SameEnd_example =
    run_pass-SameEnd (text "x: add r1, r2, r3\n .byte 7") first_pass (second_pass first_pass)
      ([], passes-AtSamePlace)

abbrev name_token : AsmToken
name_token = record { kind = ident; text = text "x"; intval = 0; line = 1 }

pass_round-Together_example :
    Together
      (SameRound [] (text "x") 0)
      (pass_round 5 first_pass name_token ident)
      (pass_round 5 (second_pass first_pass) name_token ident)
pass_round-Together_example =
    pass_round-Together 5 first_pass (second_pass first_pass) name_token ident passes-AtSamePlace
