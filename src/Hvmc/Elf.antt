-- ===== src/Hvmc/Elf.antt =====
-- src/tools/hvmc/src/elf.cpp: little-endian output, the offsets of the sections in the file, their bytes and
-- headers.
pub mod Layout
pub mod Numbers
pub mod Image
pub mod Object
pub mod Symbols
pub mod Sections
pub mod Write
pub mod Names
pub mod Whole
pub mod Placed
pub mod Mapped
use hvmsys.Base.{
  ℕ, zero, suc, ◌+◌, ◌-◌, ◌%◌, ◌^◌, bit_and, Bool, true, false, ◌||◌, ◌&&◌, not, if◌then◌else◌, ltb,
  ◌==◌,
}
use hvmsys.Base.{List, [], ◌∷◌, ◌++◌, length, replicate}
use hvmsys.Base.Words.{add64, ◌>>>◌}

-- The functions that append to a buffer are given by the bytes that they append.
unfoldable pub w8 : ℕ → List ℕ
w8 v = v ∷ []

unfoldable pub w16le : ℕ → List ℕ
unfolding w8
w16le v = w8 (bit_and v 0xff) ++ w8 (bit_and (v >>> 8) 0xff)

unfoldable pub w32le : ℕ → List ℕ
unfolding w16le
w32le v = w16le (bit_and v 0xffff) ++ w16le (bit_and (v >>> 16) 0xffff)

unfoldable pub w64le : ℕ → List ℕ
unfolding w32le
w64le v = w32le (bit_and v 0xffff_ffff) ++ w32le (bit_and (v >>> 32) 0xffff_ffff)

-- p_paddr is p_vaddr.
unfoldable pub w_phdr : ℕ → ℕ → ℕ → ℕ → ℕ → ℕ → ℕ → List ℕ
unfolding w32le w64le
w_phdr type flags offset vaddr filesz memsz align =
    w32le type
    ++ w32le flags
    ++ w64le offset
    ++ w64le vaddr
    ++ w64le vaddr
    ++ w64le filesz
    ++ w64le memsz
    ++ w64le align

pub record ElfSec : Type 0 where
  pub name_off : ℕ
  pub kind : ℕ
  pub flags : ℕ
  pub addr : ℕ
  pub offset : ℕ
  pub size : ℕ
  pub link : ℕ
  pub info : ℕ
  pub align : ℕ
  pub entsize : ℕ
  pub contents : List ℕ

abbrev pub sht_null : ℕ
sht_null = 0

abbrev pub sht_nobits : ℕ
sht_nobits = 8

abbrev pub elf_header_size : ℕ
elf_header_size = 64

abbrev pub is_empty : List ℕ → Bool
is_empty [] = true
is_empty (x ∷ xs) = false

-- The sections that the layout loop passes over.
unfoldable pub skipped : ElfSec → Bool
skipped s = (s.kind == sht_null || s.kind == sht_nobits) || is_empty s.contents

-- `if (mis) offset += align - mis`, for an alignment above 1.
unfoldable pub align_up : ℕ → ℕ → ℕ
align_up align offset =
    if ltb 1 align && not (offset % align == 0)
    then add64 offset (align - offset % align)
    else offset

-- The loop over the sections: those sections with their offsets, and the offset behind the last.
unfoldable pub assign_offsets : ℕ → List ElfSec → List ElfSec × ℕ
unfolding align_up skipped
assign_offsets offset [] = ([], offset)
assign_offsets offset (s ∷ secs) =
    let start = align_up s.align offset in
    let placed = assign_offsets (add64 start (length s.contents)) secs in
    let passed = assign_offsets offset secs in
    if skipped s
    then (s ∷ passed.0, passed.1)
    else (record s { offset = start } ∷ placed.0, placed.1)

-- `while (out.size() < size) out.push_back(0)`.
unfoldable pub pad_to : ℕ → List ℕ → List ℕ
pad_to size out = out ++ replicate (size - length out) 0

-- The loop that writes the contents behind what is written already.
unfoldable pub write_sections : List ElfSec → List ℕ → List ℕ
unfolding pad_to skipped
write_sections [] out = out
write_sections (s ∷ secs) out =
    if is_empty s.contents || (s.kind == sht_nobits)
    then write_sections secs out
    else write_sections secs (pad_to s.offset out ++ s.contents)

-- A section header, and the loop over them.
unfoldable pub section_header : ElfSec → List ℕ
unfolding w32le w64le
section_header s =
    w32le s.name_off
    ++ w32le s.kind
    ++ w64le s.flags
    ++ w64le s.addr
    ++ w64le s.offset
    ++ w64le s.size
    ++ w32le s.link
    ++ w32le s.info
    ++ w64le s.align
    ++ w64le s.entsize

unfoldable pub section_headers : List ElfSec → List ℕ
unfolding section_header
section_headers [] = []
section_headers (s ∷ secs) = section_header s ++ section_headers secs

-- `if (shoff & 7) shoff += 8 - (shoff & 7)`.
unfoldable pub header_offset : ℕ → ℕ
header_offset offset = if bit_and offset 7 == 0 then offset else add64 offset (8 - bit_and offset 7)
