-- ===== src/Hvmc/Elf/Whole.antt =====
-- The whole file that write_elf makes, as a reader finds it.
use hvmsys.Base.{
  ℕ, zero, suc, ◌+◌, ◌-◌, ◌*◌, ◌%◌, ◌^◌, ◌≤◌, ◌<◌, ◌≡◌, refl, sym, ap, ◌∙◌, arith, bit_and, Bool,
  true, false, if◌then◌else◌, List, [], ◌∷◌, ◌++◌, length, replicate, take, drop, All, All-append,
  length-append, drop-append, take-append,
}
use mathlib.Core.List.{append_assoc}
use hvmsys.Base.Bits.{bit_and_mask}
use hvmsys.Base.Text.{Bytes}
use hvmsys.Hvmc.Elf.{
  ElfSec, w8, w16le, w32le, w64le, w_phdr, assign_offsets, write_sections, pad_to, section_headers,
  header_offset,
}
use hvmsys.Hvmc.Elf.Layout.{
  IsQuiet, needed, IsAt, IsLaidOut, assign-write, assign_offsets-needed, length-pad_to,
}
use hvmsys.Hvmc.Elf.Numbers.{le_value, w64le_value}
use hvmsys.Hvmc.Elf.Image.{elf_header, program_header, Relocation}
use hvmsys.Hvmc.Elf.Object.{ObjectFile, collected}
use hvmsys.Hvmc.Elf.Sections.{
  Tables, sections_of, alloc_tables, symbol_tables, rela_tables, names_table, addresses_of,
  globals_of, addrs_of,
}
use hvmsys.Hvmc.Elf.Symbols.{null_sym, section_syms}
use hvmsys.Hvmc.Elf.Write.{
  contents_offset, headers_offset, placed_sections, front_headers, file_header, find_entry,
  write_elf,
}

-- A reader of the file: e_shoff is bytes 40 to 47, there the section headers stand, and a header gives the
-- offset of the contents of its section.
pub record IsRead (front : Bytes) (shoff : ℕ) (secs : List ElfSec) (file : Bytes) : Type 0 where
  pub starts : take (length front) file ≡ front
  pub shoff_at : le_value (take 8 (drop 40 file)) ≡ shoff
  pub headers_at : drop shoff file ≡ section_headers secs
  pub contents_at : All (IsAt file) secs
  pub aligned : shoff % 8 ≡ 0

-- The file of the object.
abbrev pub IsElf : ObjectFile → Bytes → Type 0
IsElf obj file = IsRead (front_headers obj) (headers_offset obj) (placed_sections obj) file

length-elf_header :
    (is_exec : Bool) (entry shoff n k : ℕ) → length (elf_header is_exec entry shoff n k) ≡ 64
unfolding elf_header w8 w16le w32le w64le
length-elf_header is_exec entry shoff n k = refl

length-program_header : (secs : List ElfSec) → length (program_header secs) ≡ 56
unfolding program_header w_phdr w8 w16le w32le w64le
length-program_header secs = refl

length-headers :
    (is_exec : Bool) (front : Bytes) (secs : List ElfSec)
    → length front ≡ 64
    → length (front ++ (if is_exec then program_header secs else [])) ≡ contents_offset is_exec
length-headers true front secs e =
    omega (arith, length-append front (program_header secs), length-program_header secs)
length-headers false front secs e = omega (arith, length-append front [])

length-front_headers :
    (obj : ObjectFile) → length (front_headers obj) ≡ contents_offset obj.is_executable
unfolding front_headers file_header
length-front_headers obj =
    length-headers obj.is_executable (file_header obj) (placed_sections obj) (
      length-elf_header obj.is_executable
        (find_entry obj.is_executable (addrs_of (placed_sections obj)) 0 obj.global_symbols)
        (headers_offset obj) (length (placed_sections obj)) (length (placed_sections obj) - 1))

take-drop_longer :
    (o n : ℕ) (xs zs ys : Bytes)
    → n ≡ length ys
    → take n (drop o xs) ≡ ys
    → take n (drop o (xs ++ zs)) ≡ ys
take-drop_longer o zero xs zs ys e h = h
take-drop_longer zero (suc n) [] zs [] e h = absurd (omega arith)
take-drop_longer zero (suc n) [] zs (y ∷ ys) e h = cc
take-drop_longer zero (suc n) (x ∷ xs) zs [] e h = absurd (omega arith)
take-drop_longer zero (suc n) (x ∷ xs) zs (y ∷ ys) e h =
    let tails : take n xs ≡ ys = cc in
    let heads : x ≡ y = cc in rw (heads, take-drop_longer zero n xs zs ys (omega arith) tails) refl
take-drop_longer (suc o) (suc n) [] zs [] e h = absurd (omega arith)
take-drop_longer (suc o) (suc n) [] zs (y ∷ ys) e h = cc
take-drop_longer (suc o) (suc n) (x ∷ xs) zs ys e h = take-drop_longer o (suc n) xs zs ys e h

All-IsAt-longer :
    (file more : Bytes) (secs : List ElfSec) → All (IsAt file) secs → All (IsAt (file ++ more)) secs
All-IsAt-longer file more [] h = tt
All-IsAt-longer file more (s ∷ secs) (a, h) = (
  λ no. take-drop_longer s.offset (length s.contents) file more s.contents refl (a no),
  All-IsAt-longer file more secs h,
)

header_offset_lem :
    (n : ℕ)
    → n + 8 < 2 ^ 64
    → (n ≤ header_offset n) × (header_offset n < n + 8) × (header_offset n % 8 ≡ 0)
unfolding header_offset
header_offset_lem n h =
    let e : bit_and n 7 ≡ n % 8 = bit_and_mask 3 n in
    rw e (ground arith, ground arith, ground arith)

-- The eight bytes from 40 on are e_shoff.
shoff_of :
    (is_exec : Bool) (entry shoff n k : ℕ) (more : Bytes)
    → shoff < 2 ^ 64
    → le_value (take 8 (drop 40 (elf_header is_exec entry shoff n k ++ more))) ≡ shoff
unfolding elf_header w8 w16le w32le w64le
shoff_of is_exec entry shoff n k more h =
    let e : le_value (w64le shoff ++ []) ≡ shoff + 2 ^ 64 * 0 = w64le_value shoff [] h in
    omega (arith, e)

rela_tables-IsQuiet :
    (t : Tables) (relocs : List Relocation)
    → All IsQuiet t.secs
    → All IsQuiet (rela_tables t relocs).secs
unfolding rela_tables
rela_tables-IsQuiet t [] h = h
rela_tables-IsQuiet t (r ∷ relocs) h =
    All-append IsQuiet t.secs _ h (λ e. absurd (omega (arith, e)), tt)

-- Only the first section is of type SHT_NULL, and it has no contents.
sections_of-IsQuiet : (obj : ObjectFile) → All IsQuiet (sections_of obj)
unfolding sections_of names_table symbol_tables alloc_tables
sections_of-IsQuiet obj =
    let c = collected obj in
    let t = alloc_tables (addresses_of obj c) c in
    let globals = globals_of obj t in
    let t1 = symbol_tables t (null_sym ∷ (section_syms ++ globals.0)) globals.1 in
    All-append IsQuiet (rela_tables t1 c.text_relocs).secs _
      (rela_tables-IsQuiet t1 c.text_relocs (
        λ e. refl,
        (
          λ e. absurd (omega (arith, e)),
          (
            λ e. absurd (omega (arith, e)),
            (
              λ e. absurd (omega (arith, e)),
              (
                λ e. absurd (omega (arith, e)),
                (λ e. absurd (omega (arith, e)), (λ e. absurd (omega (arith, e)), tt)),
              ),
            ),
          ),
        ),
      ))
      (λ e. absurd (omega (arith, e)), tt)

-- What the last two loops make of a file that is laid out.
file-IsRead :
    (front out : Bytes) (secs : List ElfSec) (end shoff : ℕ)
    → IsLaidOut front secs end out
    → end ≤ shoff
    → shoff % 8 ≡ 0
    → ((more : Bytes) → le_value (take 8 (drop 40 (front ++ more))) ≡ shoff)
    → IsRead front shoff secs (pad_to shoff out ++ section_headers secs)
unfolding pad_to
file-IsRead front out secs end shoff laid le even named =
    let table : Bytes = section_headers secs in
    let gap : Bytes = replicate (shoff - length out) 0 in
    let whole : (out ++ gap) ++ table ≡ front ++ ((laid.rest ++ gap) ++ table) =
      ap (λ (t : Bytes). (t ++ gap) ++ table) laid.keeps
      ∙ ap (λ (t : Bytes). t ++ table) (append_assoc front laid.rest gap)
      ∙ append_assoc front (laid.rest ++ gap) table in
    record {
      starts = rw whole (take-append front _ (length front) refl);
      shoff_at = rw whole (named ((laid.rest ++ gap) ++ table));
      headers_at =
          drop-append (out ++ gap) table shoff
            (sym (length-pad_to shoff out (omega (arith, laid.ends))));
      contents_at =
          All-IsAt-longer (out ++ gap) table secs (All-IsAt-longer out gap secs laid.contents_at);
      aligned = even;
    }

named :
    (obj : ObjectFile) (more : Bytes)
    → headers_offset obj < 2 ^ 64
    → le_value (take 8 (drop 40 (front_headers obj ++ more))) ≡ headers_offset obj
unfolding front_headers file_header
named obj more h =
    let programs : Bytes = if obj.is_executable then program_header (placed_sections obj) else [] in
    ap (λ (t : Bytes). le_value (take 8 (drop 40 t))) (append_assoc (file_header obj) programs more)
    ∙ (shoff_of obj.is_executable
        (find_entry obj.is_executable (addrs_of (placed_sections obj)) 0 obj.global_symbols)
        (headers_offset obj) (length (placed_sections obj)) (length (placed_sections obj) - 1)
        (programs ++ more) h)

-- For every object file whose sections, with their alignments and headers, take less than 2^64 bytes: the
-- ELF header and, in an executable, the program header stand in front; the section headers, which e_shoff
-- names, stand at the end, at a multiple of 8; and each section that has contents has them at the
-- offset of its header.
pub write_elf-IsElf :
    (obj : ObjectFile)
    → contents_offset obj.is_executable + needed (sections_of obj) + 8 < 2 ^ 64
    → IsElf obj (write_elf obj)
unfolding write_elf
write_elf-IsElf obj room =
    let start : ℕ = contents_offset obj.is_executable in
    let front : Bytes = front_headers obj in
    let n : length front ≡ start = length-front_headers obj in
    let laid =
      assign-write (sections_of obj) start front (sections_of-IsQuiet obj) (omega (arith, n))
        (omega arith) in
    let end : ℕ = (assign_offsets start (sections_of obj)).1 in
    let ends : end ≤ start + needed (sections_of obj) =
      assign_offsets-needed (sections_of obj) start (omega arith) in
    let (le, near, even) = header_offset_lem end (omega arith) in
    let small : header_offset end < 2 ^ 64 = omega arith in
    file-IsRead front (write_sections (placed_sections obj) front) (placed_sections obj) end
      (headers_offset obj) laid le even (λ more. named obj more small)
