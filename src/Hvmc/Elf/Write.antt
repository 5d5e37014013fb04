-- ===== src/Hvmc/Elf/Write.antt =====
-- write_elf and write_executable of src/tools/hvmc/src/elf.cpp.
use hvmsys.Base.{ℕ, ◌+◌, ◌-◌, Bool, true, ◌||◌, if◌then◌else◌, List, [], ◌∷◌, ◌++◌, length}
use hvmsys.Base.Text.{Bytes, text, same_text}
use hvmsys.Hvmc.Elf.{
  ElfSec, elf_header_size, assign_offsets, write_sections, pad_to, section_headers, header_offset,
}
use hvmsys.Hvmc.Elf.Image.{elf_header, program_header}
use hvmsys.Hvmc.Elf.Object.{Symbol, ObjectFile}
use hvmsys.Hvmc.Elf.Symbols.{address_at, section_or_text, value_in}
use hvmsys.Hvmc.Elf.Sections.{sections_of, addrs_of}

-- The names of an entry point.
abbrev pub is_entry : Bytes → Bool
is_entry name =
    same_text name (text "_start")
    || (same_text name (text "main") || same_text name (text "kernel_main"))

-- The loop that looks for the entry point, from the entry so far.
unfoldable pub find_entry : Bool → List ℕ → ℕ → List Symbol → ℕ
unfolding address_at
find_entry is_exec addrs entry [] = entry
find_entry is_exec addrs entry (s ∷ syms) =
    let found = value_in is_exec (address_at addrs (section_or_text s.section_idx)) s.value in
    find_entry is_exec addrs (if is_entry s.name then found else entry) syms

-- The offset behind the headers in front.
abbrev pub contents_offset : Bool → ℕ
contents_offset is_exec = elf_header_size + (if is_exec then 56 else 0)

-- `shoff`.
abbrev pub headers_offset : ObjectFile → ℕ
headers_offset obj =
    header_offset (assign_offsets (contents_offset obj.is_executable) (sections_of obj)).1

abbrev pub placed_sections : ObjectFile → List ElfSec
placed_sections obj = (assign_offsets (contents_offset obj.is_executable) (sections_of obj)).0

-- The ELF header. .shstrtab is the last section.
unfoldable pub file_header : ObjectFile → Bytes
unfolding find_entry elf_header sections_of assign_offsets header_offset
file_header obj =
    let secs = placed_sections obj in
    let entry = find_entry obj.is_executable (addrs_of secs) 0 obj.global_symbols in
    elf_header obj.is_executable entry (headers_offset obj) (length secs) (length secs - 1)

-- What stands in front of the contents of the sections.
unfoldable pub front_headers : ObjectFile → Bytes
unfolding file_header program_header
front_headers obj =
    file_header obj ++ (if obj.is_executable then program_header (placed_sections obj) else [])

unfoldable pub write_elf : ObjectFile → Bytes
unfolding front_headers write_sections pad_to section_headers sections_of assign_offsets
    header_offset
write_elf obj =
    pad_to (headers_offset obj) (write_sections (placed_sections obj) (front_headers obj))
    ++ section_headers (placed_sections obj)

unfoldable pub write_executable : ObjectFile → Bytes
unfolding write_elf
write_executable obj = write_elf (record obj { is_executable = true })
