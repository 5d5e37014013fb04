-- ===== src/Hvmc/Assembler/Object.antt =====
-- The object file that assemble in src/tools/hvmc/src/assembler.cpp returns.
use hvmsys.Base.{ℕ, true, false, bit_or, List, [], ◌∷◌}
use hvmsys.Base.Int.{pos}
use hvmsys.Base.Text.{Bytes, text}
use hvmsys.Hvmc.Elf.Object.{Symbol, Section, ObjectFile}
use hvmsys.Hvmc.Elf.Sections.{shf_write, shf_alloc, shf_execinstr}
use hvmsys.Hvmc.Assembler.State.{GlobalSymbol, Pass}
use hvmsys.Hvmc.Assembler.Operands.{or_else}

-- `junk` is what a member holds that is never set: the size of a symbol, the value of one without label.
unfoldable pub symbols_of : ℕ → List GlobalSymbol → List Symbol
symbols_of junk [] = []
symbols_of junk (s ∷ syms) =
    record {
      name = s.name;
      value = or_else s.value junk;
      size = junk;
      is_global = true;
      is_function = true;
      section_idx = pos 1;
    }
    ∷ symbols_of junk syms

-- No relocation is made.
abbrev pub section_named : ℕ → Bytes → ℕ → Bytes → Section
section_named junk name flags xs = record {
  name = name;
  contents = xs;
  addr = junk;
  flags = flags;
  idx = pos junk;
  relocs = [];
  symbols = [];
}

-- The object file from the last state of assemble.
unfoldable pub object_of : ℕ → Pass → ObjectFile
unfolding symbols_of
object_of junk p = record {
  sections =
      section_named junk (text ".text") (bit_or shf_alloc shf_execinstr) p.text_data
      ∷ section_named junk (text ".rodata") shf_alloc p.rodata_data
      ∷ section_named junk (text ".data") (bit_or shf_alloc shf_write) p.data_data
      ∷ [];
  global_symbols = symbols_of junk p.symbols;
  entry_point = [];
  is_executable = false;
}
