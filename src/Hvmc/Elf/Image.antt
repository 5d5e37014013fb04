-- ===== src/Hvmc/Elf/Image.antt =====
-- The addresses of the four sections, and the tables and headers of an ELF file, in
-- src/tools/hvmc/src/elf.cpp.
use hvmsys.Base.{
  ℕ, ◌+◌, ◌-◌, ◌*◌, ◌/◌, ◌%◌, ◌^◌, ◌≤◌, ◌<◌, ◌≡◌, arith, bit_and, bit_or, Bool, if◌then◌else◌, ltb,
  ◌==◌, List, [], ◌∷◌, ◌++◌, replicate,
}
use hvmsys.Base.Words.{add64, sub64, ◌<<<◌}
use hvmsys.Base.Bits.{bit_and_step, bit_and_mask}
use hvmsys.Hvmc.Elf.{ElfSec, w8, w16le, w32le, w64le, w_phdr, elf_header_size}

-- `(end + 7) & ~7`, for the alignment 8 of .rodata, .data and .bss.
unfoldable pub next_aligned : ℕ → ℕ
next_aligned end = bit_and (add64 end 7) (2 ^ 64 - 8)

pub record Addresses : Type 0 where
  pub text_addr : ℕ
  pub rodata_addr : ℕ
  pub data_addr : ℕ
  pub bss_addr : ℕ

abbrev pub hvm_base_addr : ℕ
hvm_base_addr = 0x100000

-- The addresses from the sizes of .text, .rodata and .data.
unfoldable pub section_addresses : Bool → ℕ → ℕ → ℕ → Addresses
unfolding next_aligned
section_addresses is_exec text_size rodata_size data_size =
    let text = if is_exec then hvm_base_addr else 0 in
    let rodata = next_aligned (add64 text text_size) in
    let data_start = next_aligned (add64 rodata rodata_size) in
    record {
      text_addr = text;
      rodata_addr = rodata;
      data_addr = data_start;
      bss_addr = next_aligned (add64 data_start data_size);
    }

-- Elf64_Sym.
pub record ElfSym : Type 0 where
  pub st_name : ℕ
  pub st_info : ℕ
  pub st_other : ℕ
  pub st_shndx : ℕ
  pub st_value : ℕ
  pub st_size : ℕ

unfoldable pub symbol_entry : ElfSym → List ℕ
unfolding w8 w16le w32le w64le
symbol_entry s =
    w32le s.st_name
    ++ w8 s.st_info
    ++ w8 s.st_other
    ++ w16le s.st_shndx
    ++ w64le s.st_value
    ++ w64le s.st_size

unfoldable pub symbol_table : List ElfSym → List ℕ
unfolding symbol_entry
symbol_table [] = []
symbol_table (s ∷ syms) = symbol_entry s ++ symbol_table syms

-- Relocation: its symbol as a u32, its addend as a 64-bit pattern.
pub record Relocation : Type 0 where
  pub offset : ℕ
  pub kind : ℕ
  pub symbol : ℕ
  pub addend : ℕ

unfoldable pub elf_r_info : ℕ → ℕ → ℕ
elf_r_info sym kind = bit_or (sym <<< 32) kind

unfoldable pub rela_table : List Relocation → List ℕ
unfolding w64le elf_r_info
rela_table [] = []
rela_table (r ∷ relocs) =
    w64le r.offset ++ w64le (elf_r_info r.symbol r.kind) ++ w64le r.addend ++ rela_table relocs

-- The ELF header, from the entry point, the offset of the section headers, their number and the index
-- of .shstrtab.
unfoldable pub elf_header : Bool → ℕ → ℕ → ℕ → ℕ → List ℕ
unfolding w8 w16le w32le w64le
elf_header is_exec entry shoff sections shstrndx =
    w32le 0x464c457f
    ++ (w8 2 ++ w8 1 ++ w8 1 ++ w8 0 ++ w8 0 ++ replicate 7 0)
    ++ w16le (if is_exec then 2 else 1)
    ++ w16le 0x9999
    ++ w32le 1
    ++ w64le entry
    ++ w64le (if is_exec then elf_header_size else 0)
    ++ w64le shoff
    ++ w32le 0
    ++ w16le elf_header_size
    ++ w16le (if is_exec then 56 else 0)
    ++ w16le (if is_exec then 1 else 0)
    ++ w16le 64
    ++ w16le (sections % 2 ^ 16)
    ++ w16le (shstrndx % 2 ^ 16)

-- What the loop over the sections with SHF_ALLOC finds for the one program header.
pub record Segment : Type 0 where
  pub first_sec_off : ℕ
  pub last_sec_end : ℕ
  pub min_vaddr : ℕ
  pub max_vaddr : ℕ

abbrev lower : ℕ → ℕ → ℕ
lower a b = if ltb a b then a else b

abbrev higher : ℕ → ℕ → ℕ
higher a b = if ltb b a then a else b

unfoldable pub extend_segment : Segment → ElfSec → Segment
extend_segment g s = if bit_and s.flags 2 == 0 then g else record {
  first_sec_off = if ltb 0 s.offset then lower s.offset g.first_sec_off else g.first_sec_off;
  last_sec_end = higher (add64 s.offset s.size) g.last_sec_end;
  min_vaddr = lower s.addr g.min_vaddr;
  max_vaddr = higher (add64 s.addr s.size) g.max_vaddr;
}

unfoldable pub segment_of : Segment → List ElfSec → Segment
unfolding extend_segment
segment_of g [] = g
segment_of g (s ∷ secs) = segment_of (extend_segment g s) secs

-- The program header. The sections always hold four with SHF_ALLOC, so the code's fallback for none is
-- left out.
unfoldable pub program_header : List ElfSec → List ℕ
unfolding segment_of w_phdr
program_header secs =
    let top = 2 ^ 64 - 1 in
    let g =
      segment_of (record { first_sec_off = top; last_sec_end = 0; min_vaddr = top; max_vaddr = 0 })
        secs in
    w_phdr 1 7 g.first_sec_off g.min_vaddr (sub64 g.last_sec_end g.first_sec_off)
      (sub64 g.max_vaddr g.min_vaddr) 0x1000

-- Below the top of the address space, the rounding gives the next multiple of 8.
pub next_aligned_lem :
    (end : ℕ)
    → end + 8 ≤ 2 ^ 64
    → (next_aligned end % 8 ≡ 0) × (end ≤ next_aligned end) × (next_aligned end < end + 8)
unfolding next_aligned
next_aligned_lem end room =
    let x : ℕ = add64 end 7 in
    let e : x ≡ end + 7 = omega arith in
    let halved : bit_and x (2 ^ 64 - 8) ≡ (x / 2 / 2 / 2) % 2 ^ 61 * 8 = omega (
      arith,
      bit_and_step x (2 ^ 64 - 8),
      bit_and_step (x / 2) (2 ^ 63 - 4),
      bit_and_step (x / 2 / 2) (2 ^ 62 - 2),
      bit_and_mask 61 (x / 2 / 2 / 2),
    ) in
    (omega arith, omega arith, omega arith)

-- The addresses are multiples of 8 and each section starts at or behind the end of the one before, at
-- most seven bytes on.
pub record IsSpread (text_size rodata_size data_size : ℕ) (a : Addresses) : Type 0 where
  pub rodata_multiple : a.rodata_addr % 8 ≡ 0
  pub data_multiple : a.data_addr % 8 ≡ 0
  pub bss_multiple : a.bss_addr % 8 ≡ 0
  pub text_before : a.text_addr + text_size ≤ a.rodata_addr
  pub rodata_before : a.rodata_addr + rodata_size ≤ a.data_addr
  pub data_before : a.data_addr + data_size ≤ a.bss_addr
  pub tight : a.bss_addr < a.text_addr + text_size + rodata_size + data_size + 24

-- For sizes below 2^60 the addresses of .text, .rodata, .data and .bss are in this order without
-- overlap, those behind .text are multiples of 8, and .bss starts fewer than 24 bytes behind the sum of
-- the sizes.
pub section_addresses-IsSpread :
    (is_exec : Bool) (text_size rodata_size data_size : ℕ)
    → text_size < 2 ^ 60
    → rodata_size < 2 ^ 60
    → data_size < 2 ^ 60
    → IsSpread text_size rodata_size data_size
        (section_addresses is_exec text_size rodata_size data_size)
unfolding section_addresses
section_addresses-IsSpread is_exec t r d ht hr hd =
    let text : ℕ = if is_exec then hvm_base_addr else 0 in
    let low : text ≤ 2 ^ 20 = ground arith in
    let e1 : add64 text t ≡ text + t = omega arith in
    let rodata : ℕ = next_aligned (text + t) in
    let (a1, b1, c1) = next_aligned_lem (text + t) (omega arith) in
    let e2 : add64 rodata r ≡ rodata + r = omega arith in
    let data_at : ℕ = next_aligned (rodata + r) in
    let (a2, b2, c2) = next_aligned_lem (rodata + r) (omega arith) in
    let e3 : add64 data_at d ≡ data_at + d = omega arith in
    let (a3, b3, c3) = next_aligned_lem (data_at + d) (omega arith) in
    rw (e1, e2, e3)
      (record {
        rodata_multiple = a1;
        data_multiple = a2;
        bss_multiple = a3;
        text_before = b1;
        rodata_before = b2;
        data_before = b3;
        tight = omega arith;
      })
