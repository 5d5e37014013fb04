-- ===== src/Hvmc/Assembler.antt =====
-- The function assemble of src/tools/hvmc/src/assembler.cpp.
pub mod State
pub mod Operands
pub mod Directives
pub mod Runs
pub mod LineEnds
pub mod Ends
pub mod Steps
pub mod OperandsAlike
pub mod Positions
pub mod Alike
pub mod Object
use hvmsys.Base.{
  ℕ, zero, suc, ◌+◌, Bool, true, false, if◌then◌else◌, List, [], ◌∷◌, ◌++◌, length, Option, none,
  some,
}
use hvmsys.Base.Text.{Bytes, text, to_upper}
use hvmsys.Hvmc.Types.{OpcodeEntry, EncodedInst}
use hvmsys.Hvmc.AsmLexer.{AsmKind, ident, colon, newline, end, dot, AsmToken, AsmLexer}
use hvmsys.Hvmc.Assembler.State.{
  Run, ran, and_then, Asm, ◌>>=◌, give, no_fuel, read, Pass, text_section, SectionName, commit,
  add_label, ends_line, skip_rest,
}
use hvmsys.Hvmc.Assembler.Operands.{operand_loop, no_operands, find_entry, add_instruction}
use hvmsys.Hvmc.Assembler.Directives.{directive}

-- The text of a mnemonic in capitals.
unfoldable pub upper_text : Bytes → Bytes
upper_text [] = []
upper_text (c ∷ cs) = to_upper c ∷ upper_text cs

-- An instruction, whose mnemonic `id` and the token behind it have been read.
unfoldable pub instruction : ℕ → Pass → AsmToken → Option OpcodeEntry → Asm (AsmToken × Pass)
instruction fuel p tok none = do t ← skip_rest fuel tok; give (t, p)
instruction fuel p tok (some entry) = do
  ops ← operand_loop fuel p entry no_operands
  t ← read
  give (t, add_instruction p entry ops)

-- A name that begins a line, and the token behind it.
unfoldable pub named_line : ℕ → Pass → AsmToken → AsmToken → AsmKind → Asm (AsmToken × Pass)
named_line fuel p tok following colon = do t ← read; give (t, add_label p tok.text)
named_line fuel p tok following _ = instruction fuel p tok (find_entry (upper_text tok.text))

-- A round of the loop of a pass, from the token `tok` on.
unfoldable pub pass_round : ℕ → Pass → AsmToken → AsmKind → Asm (AsmToken × Pass)
pass_round fuel p tok dot = do dir ← read; directive fuel p tok dir dir.kind
pass_round fuel p tok ident = do following ← read; named_line fuel p tok following following.kind
pass_round fuel p tok _ = do t ← read; give (t, p)

abbrev pub until_end : Asm Pass → Asm Pass → AsmKind → Asm Pass
until_end stop more end = stop
until_end stop more _ = more

unfoldable pub pass_loop : ℕ → AsmToken × Pass → Asm Pass
pass_loop zero (tok, p) = no_fuel
pass_loop (suc fuel) (tok, p) =
    until_end (give p) (pass_round (suc fuel) p tok tok.kind >>= pass_loop fuel) tok.kind

-- A pass over the source.
unfoldable pub run_pass : Bytes → Pass → Run Pass
run_pass source p =
    (read >>= λ tok. pass_loop (suc (length source)) (tok, p)) (record { rest = source; line = 1 })

abbrev pub first_pass : Pass
first_pass = record {
  second = false;
  current = text_section;
  text_data = [];
  data_data = [];
  rodata_data = [];
  current_data = [];
  labels = [];
  symbols = [];
}

-- The second pass keeps the labels and the current section of the first.
abbrev pub second_pass : Pass → Pass
second_pass p = record p { second = true; current_data = [] }

-- `assemble`: the last state, whose sections are those of the object file.
unfoldable pub assemble : Bytes → Run Pass
assemble source =
    and_then (run_pass source first_pass)
      (λ p l. and_then (run_pass source (second_pass p)) (λ q k. ran (commit q) k))

-- `assemble_text`: the data of the text section.
unfoldable pub assemble_text : Bytes → Run Bytes
assemble_text source = and_then (assemble source) (λ p l. ran p.text_data l)
