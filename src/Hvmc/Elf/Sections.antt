-- ===== src/Hvmc/Elf/Sections.antt =====
-- The sections of the file that write_elf in src/tools/hvmc/src/elf.cpp makes, in front of their layout.
use hvmsys.Base.{ℕ, suc, bit_or, List, [], ◌∷◌, ◌++◌, length}
use hvmsys.Base.Text.{Bytes, text}
use hvmsys.Hvmc.Elf.{ElfSec, sht_null, sht_nobits}
use hvmsys.Hvmc.Elf.Image.{
  Addresses, section_addresses, ElfSym, symbol_table, Relocation, rela_table,
}
use hvmsys.Hvmc.Elf.Object.{ObjectFile, Collected, collected, add_str}
use hvmsys.Hvmc.Elf.Symbols.{null_sym, section_syms, global_syms}

abbrev pub sht_progbits : ℕ
sht_progbits = 1

abbrev pub sht_symtab : ℕ
sht_symtab = 2

abbrev pub sht_strtab : ℕ
sht_strtab = 3

abbrev pub sht_rela : ℕ
sht_rela = 4

abbrev pub shf_write : ℕ
shf_write = 0x1

abbrev pub shf_alloc : ℕ
shf_alloc = 0x2

abbrev pub shf_execinstr : ℕ
shf_execinstr = 0x4

-- A section without address, offset, link and entries.
abbrev pub plain : ℕ → ℕ → Bytes → ElfSec
plain name_off kind contents = record {
  name_off = name_off;
  kind = kind;
  flags = 0;
  addr = 0;
  offset = 0;
  size = length contents;
  link = 0;
  info = 0;
  align = 1;
  entsize = 0;
  contents = contents;
}

-- `secs` and `shstrtab`. An index in sec_idx_map is the position in `secs`.
pub record Tables : Type 0 where
  pub secs : List ElfSec
  pub shstrtab : Bytes

-- `add_str` of the name, and a section with its offset.
abbrev pub push_section : Tables → Bytes → (ℕ → ElfSec) → Tables
push_section t name sec = record {
  secs = t.secs ++ (sec (add_str t.shstrtab name).0 ∷ []);
  shstrtab = (add_str t.shstrtab name).1;
}

abbrev pub null_sec : ElfSec
null_sec = record (plain 0 sht_null []) { align = 0 }

abbrev pub null_tables : Tables
null_tables = record { secs = null_sec ∷ []; shstrtab = (add_str [] []).1 }

abbrev pub alloc_section : ℕ → ℕ → ℕ → Bytes → ℕ → ElfSec
alloc_section flags addr align contents name = record (plain name sht_progbits contents) {
  flags = flags;
  addr = addr;
  align = align;
}

-- .text, .rodata, .data and .bss.
unfoldable pub alloc_tables : Addresses → Collected → Tables
unfolding add_str
alloc_tables a c =
    let text_flags : ℕ = bit_or shf_alloc shf_execinstr in
    let write : ℕ = bit_or shf_alloc shf_write in
    let t1 =
      push_section null_tables (text ".text")
        (alloc_section text_flags a.text_addr 4 c.text_data) in
    let t2 =
      push_section t1 (text ".rodata") (alloc_section shf_alloc a.rodata_addr 8 c.rodata_data) in
    let t3 = push_section t2 (text ".data") (alloc_section write a.data_addr 8 c.data_data) in
    push_section t3 (text ".bss")
      (λ n. record (plain n sht_nobits []) { flags = write; addr = a.bss_addr; align = 8 })

-- .symtab with the index of .strtab as its link, and .strtab.
unfoldable pub symbol_tables : Tables → List ElfSym → Bytes → Tables
unfolding add_str symbol_table
symbol_tables t syms strtab =
    let t1 = push_section t (text ".symtab") (λ n. record (plain n sht_symtab (symbol_table syms)) {
      link = suc (length t.secs);
      info = 1;
      align = 8;
      entsize = 24;
    }) in
    push_section t1 (text ".strtab") (λ n. plain n sht_strtab strtab)

-- .rela.text, which links .symtab, at 5, and .text, at 1, unless there is no relocation.
unfoldable pub rela_tables : Tables → List Relocation → Tables
unfolding add_str rela_table
rela_tables t [] = t
rela_tables t (r ∷ relocs) = push_section t (text ".rela.text") (λ n.
    record (plain n sht_rela (rela_table (r ∷ relocs))) {
      link = 5;
      info = 1;
      align = 8;
      entsize = 24;
    })

-- .shstrtab, which holds its own name.
unfoldable pub names_table : Tables → List ElfSec
unfolding add_str
names_table t =
    let added = add_str t.shstrtab (text ".shstrtab") in
    t.secs ++ (plain added.0 sht_strtab added.1 ∷ [])

abbrev pub addrs_of : List ElfSec → List ℕ
addrs_of [] = []
addrs_of (s ∷ secs) = s.addr ∷ addrs_of secs

abbrev pub addresses_of : ObjectFile → Collected → Addresses
addresses_of obj c =
    section_addresses obj.is_executable (length c.text_data) (length c.rodata_data)
      (length c.data_data)

-- The entries of the global symbols and .strtab, behind the tables of the allocated sections.
abbrev pub globals_of : ObjectFile → Tables → List ElfSym × Bytes
globals_of obj t = global_syms obj.is_executable (addrs_of t.secs) [] obj.global_symbols

-- All sections of the file.
unfoldable pub sections_of : ObjectFile → List ElfSec
unfolding alloc_tables symbol_tables rela_tables names_table global_syms section_addresses collected
sections_of obj =
    let c = collected obj in
    let t = alloc_tables (addresses_of obj c) c in
    let globals = globals_of obj t in
    let t1 = symbol_tables t (null_sym ∷ (section_syms ++ globals.0)) globals.1 in
    names_table (rela_tables t1 c.text_relocs)
