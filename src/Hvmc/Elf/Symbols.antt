-- ===== src/Hvmc/Elf/Symbols.antt =====
-- The symbol table that write_elf in src/tools/hvmc/src/elf.cpp makes.
use hvmsys.Base.{ℕ, ◌%◌, ◌^◌, bit_or, Bool, ◌&&◌, if◌then◌else◌, List, [], ◌∷◌, length, get_or}
use hvmsys.Base.Int.{ℤ, pos, pos_part, leb_ℤ, ltb_ℤ}
use hvmsys.Base.Text.{Bytes}
use hvmsys.Base.Words.{add64, ◌<<<◌}
use hvmsys.Hvmc.Elf.Image.{ElfSym}
use hvmsys.Hvmc.Elf.Object.{Symbol, add_str}

-- `section_idx > 0 ? section_idx : 1`.
abbrev pub section_or_text : ℤ → ℤ
section_or_text i = if ltb_ℤ (pos 0) i then i else pos 1

-- The address of the section of an index, among the addresses of the sections so far, or 0.
unfoldable pub address_at : List ℕ → ℤ → ℕ
address_at addrs i =
    if leb_ℤ (pos 1) i && ltb_ℤ i (pos (length addrs)) then get_or addrs (pos_part i) 0 else 0

-- The value in the file: an address in an executable, an offset in an object.
abbrev pub value_in : Bool → ℕ → ℕ → ℕ
value_in is_exec sec_addr value = if is_exec then add64 sec_addr value else value

abbrev pub null_sym : ElfSym
null_sym = record {
  st_name = 0;
  st_info = 0;
  st_other = 0;
  st_shndx = 0;
  st_value = 0;
  st_size = 0;
}

-- The symbols of the sections 1 to 4, local ones of type STT_SECTION.
abbrev pub section_sym : ℕ → ElfSym
section_sym i = record null_sym { st_info = bit_or (0 <<< 4) 3; st_shndx = i }

abbrev pub section_syms : List ElfSym
section_syms = section_sym 1 ∷ section_sym 2 ∷ section_sym 3 ∷ section_sym 4 ∷ []

-- A positive index fits; its low 16 bits are kept.
unfoldable pub symbol_of : Bool → List ℕ → Symbol → ℕ → ElfSym
unfolding address_at
symbol_of is_exec addrs s name = record {
  st_name = name;
  st_info = bit_or ((if s.is_global then 1 else 0) <<< 4) (if s.is_function then 2 else 1);
  st_other = 0;
  st_shndx = pos_part (section_or_text s.section_idx) % 2 ^ 16;
  st_value = value_in is_exec (address_at addrs s.section_idx) s.value;
  st_size = s.size;
}

-- The loop over the global symbols, from the string table so far: their entries and the string table.
unfoldable pub global_syms : Bool → List ℕ → Bytes → List Symbol → List ElfSym × Bytes
unfolding symbol_of add_str
global_syms is_exec addrs strtab [] = ([], strtab)
global_syms is_exec addrs strtab (s ∷ syms) =
    let added = add_str strtab s.name in
    let rest = global_syms is_exec addrs added.1 syms in
    (symbol_of is_exec addrs s added.0 ∷ rest.0, rest.1)
