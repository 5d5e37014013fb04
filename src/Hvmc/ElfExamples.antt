-- ===== src/Hvmc/ElfExamples.antt =====
-- Object files and what write_elf makes of them.
use hvmsys.Base.{◌+◌, ◌^◌, ◌<◌, ◌≡◌, refl, arith, true, [], ◌∷◌, ◌++◌, length, All}
use hvmsys.Base.Int.{pos}
use hvmsys.Base.Text.{Bytes, text}
use hvmsys.Hvmc.Elf.Layout.{needed}
use hvmsys.Hvmc.Elf.Image.{symbol_table, section_addresses, next_aligned}
use hvmsys.Hvmc.Elf.Object.{Symbol, Section, ObjectFile, collect, collect_all, collected, add_str}
use hvmsys.Hvmc.Elf.Symbols.{symbol_of, global_syms}
use hvmsys.Hvmc.Elf.Sections.{sections_of, alloc_tables, symbol_tables, rela_tables, names_table}
use hvmsys.Hvmc.Elf.Write.{contents_offset, placed_sections, write_elf}
use hvmsys.Hvmc.Elf.Names.{read_names, names_of, NoZero, global_syms-names}
use hvmsys.Hvmc.Elf.Whole.{IsElf, write_elf-IsElf}
use hvmsys.Hvmc.Elf.Placed.{IsMapped}
use hvmsys.Hvmc.Elf.Mapped.{write_elf-IsMapped}

abbrev main_symbol : Symbol
main_symbol = record {
  name = text "main";
  value = 0;
  size = 3;
  is_global = true;
  is_function = true;
  section_idx = pos 1;
}

abbrev section : Bytes → Bytes → Section
section name xs = record {
  name = name;
  contents = xs;
  addr = 0;
  flags = 0;
  idx = pos 0;
  relocs = [];
  symbols = [];
}

abbrev program : ObjectFile
program = record {
  sections = section (text ".text") (1 ∷ 2 ∷ 3 ∷ []) ∷ section (text ".data") (4 ∷ []) ∷ [];
  global_symbols = main_symbol ∷ [];
  entry_point = [];
  is_executable = true;
}

program_fits : contents_offset true + needed (sections_of program) + 8 < 2 ^ 64
unfolding sections_of names_table rela_tables symbol_tables alloc_tables section_addresses
    next_aligned collected collect_all collect symbol_table global_syms symbol_of add_str
program_fits = omega arith

write_elf-IsElf_example : IsElf program (write_elf program)
write_elf-IsElf_example = write_elf-IsElf program program_fits

text_fits : length (collected program).text_data < 2 ^ 60
unfolding collected collect_all collect
text_fits = omega arith

rodata_fits : length (collected program).rodata_data < 2 ^ 60
unfolding collected collect_all collect
rodata_fits = omega arith

contents_fit : length (collected program).data_data < 2 ^ 60
unfolding collected collect_all collect
contents_fit = omega arith

write_elf-IsMapped_example : All IsMapped (placed_sections program)
write_elf-IsMapped_example = write_elf-IsMapped program refl text_fits rodata_fits contents_fit

main-NoZero : NoZero main_symbol
main-NoZero = (
  λ e. absurd (omega (arith, e)),
  (
    λ e. absurd (omega (arith, e)),
    (λ e. absurd (omega (arith, e)), (λ e. absurd (omega (arith, e)), tt)),
  ),
)

-- The bytes of the string table: the first name stands at offset 0.
names_table_bytes : (global_syms true [] [] (main_symbol ∷ [])).1 ≡ text "main" ++ (0 ∷ [])
unfolding global_syms add_str
names_table_bytes = refl

names_fit :
    length (global_syms true (0 ∷ 0x100000 ∷ []) [] (main_symbol ∷ main_symbol ∷ [])).1 < 2 ^ 32
unfolding global_syms add_str
names_fit = omega arith

global_syms-names_example :
    read_names
      (global_syms true (0 ∷ 0x100000 ∷ []) [] (main_symbol ∷ main_symbol ∷ [])).1
      (global_syms true (0 ∷ 0x100000 ∷ []) [] (main_symbol ∷ main_symbol ∷ [])).0
    ≡ names_of (main_symbol ∷ main_symbol ∷ [])
global_syms-names_example =
    global_syms-names true (0 ∷ 0x100000 ∷ []) [] (main_symbol ∷ main_symbol ∷ [])
      (main-NoZero, (main-NoZero, tt)) names_fit
