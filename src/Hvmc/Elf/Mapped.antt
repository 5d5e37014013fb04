-- ===== src/Hvmc/Elf/Mapped.antt =====
-- The addresses and the file offsets of the sections of an executable that write_elf makes.
use hvmsys.Base.{
  ℕ, ◌^◌, ◌<◌, ◌≡◌, refl, sym, ap, ◌∙◌, arith, bit_and, Bool, true, Bool-cases, inl, inr, List, [],
  ◌∷◌, ◌++◌, length, All, All-append,
}
use mathlib.Core.List.{append_assoc, append-nil}
use mathlib.Core.Path.{subst}
use hvmsys.Base.Text.{Bytes}
use hvmsys.Base.Words.{add64}
use hvmsys.Hvmc.Elf.{ElfSec, skipped, align_up, assign_offsets}
use hvmsys.Hvmc.Elf.Image.{ElfSym, Relocation, section_addresses}
use hvmsys.Hvmc.Elf.Object.{ObjectFile, collected}
use hvmsys.Hvmc.Elf.Sections.{
  Tables, alloc_tables, symbol_tables, rela_tables, names_table, sections_of, addresses_of,
  globals_of,
}
use hvmsys.Hvmc.Elf.Symbols.{null_sym, section_syms}
use hvmsys.Hvmc.Elf.Write.{placed_sections, contents_offset}
use hvmsys.Hvmc.Elf.Placed.{IsMapped, alloc-IsMapped}

abbrev Unallocated : ElfSec → Type 0
Unallocated s = bit_and s.flags 2 ≡ 0

-- The sections begin with these, and the others are not allocated.
record Extends (front secs : List ElfSec) : Type 0 where
  more : List ElfSec
  splits : secs ≡ front ++ more
  unallocated : All Unallocated more

same-Extends : (front : List ElfSec) → Extends front front
same-Extends front = record { more = []; splits = sym (append-nil front); unallocated = tt }

push-Extends :
    {front secs : List ElfSec} (s : ElfSec)
    → Unallocated s
    → Extends front secs
    → Extends front (secs ++ (s ∷ []))
push-Extends {front} {secs} s u e = record {
  more = e.more ++ (s ∷ []);
  splits = ap (λ (t : List ElfSec). t ++ (s ∷ [])) e.splits ∙ append_assoc front e.more (s ∷ []);
  unallocated = All-append Unallocated e.more (s ∷ []) e.unallocated (u, tt);
}

later-Extends :
    (t : Tables) (syms : List ElfSym) (strtab : Bytes) (relocs : List Relocation)
    → Extends t.secs (names_table (rela_tables (symbol_tables t syms strtab) relocs))
unfolding names_table rela_tables symbol_tables
later-Extends t syms strtab [] =
    push-Extends _ refl (push-Extends _ refl (push-Extends _ refl (same-Extends t.secs)))
later-Extends t syms strtab (r ∷ relocs) =
    push-Extends _ refl
      (push-Extends _ refl (push-Extends _ refl (push-Extends _ refl (same-Extends t.secs))))

others-IsMapped :
    (n : ℕ) (secs : List ElfSec) → All Unallocated secs → All IsMapped (assign_offsets n secs).0
unfolding assign_offsets
others-IsMapped n [] u = tt
others-IsMapped n (s ∷ secs) (u, us) = elim (Bool-cases (skipped s)) [
  | inl pass ↦ rw pass (λ no alloc. absurd (omega arith), others-IsMapped n secs us)
  | inr put ↦ rw put (
    λ no alloc. absurd (omega arith),
    others-IsMapped (add64 (align_up s.align n) (length s.contents)) secs us,
  )
]

append-IsMapped :
    (n : ℕ) (secs more : List ElfSec)
    → All Unallocated more
    → All IsMapped (assign_offsets n secs).0
    → All IsMapped (assign_offsets n (secs ++ more)).0
unfolding assign_offsets
append-IsMapped n [] more u = λ h. others-IsMapped n more u
append-IsMapped n (s ∷ secs) more u = elim (Bool-cases (skipped s)) [
  | inl pass ↦ rw pass (λ (a, h). (a, append-IsMapped n secs more u h))
  | inr put ↦ rw put (λ (a, h).
      (a, append-IsMapped (add64 (align_up s.align n) (length s.contents)) secs more u h))
]

-- For every executable whose .text, .rodata and .data each take less than 2^60 bytes: each section that
-- has contents and is to be in memory stands as far behind offset 120 in the file, where the headers
-- end, as its address is behind 0x100000, where the executable is loaded.
pub write_elf-IsMapped :
    (obj : ObjectFile)
    → obj.is_executable ≡ true
    → length (collected obj).text_data < 2 ^ 60
    → length (collected obj).rodata_data < 2 ^ 60
    → length (collected obj).data_data < 2 ^ 60
    → All IsMapped (placed_sections obj)
unfolding sections_of
write_elf-IsMapped obj exec ht hr hd =
    let c = collected obj in
    let t = alloc_tables (addresses_of obj c) c in
    let globals = globals_of obj t in
    let later = later-Extends t (null_sym ∷ (section_syms ++ globals.0)) globals.1 c.text_relocs in
    let start : contents_offset obj.is_executable ≡ 120 = ap contents_offset exec in
    let place = λ (n : ℕ) (secs : List ElfSec). (assign_offsets n secs).0 in
    let front : All IsMapped (place 120 t.secs) =
      subst
        (λ (b : Bool). All IsMapped (
          place 120
            (alloc_tables
              (section_addresses b (length c.text_data) (length c.rodata_data) (length c.data_data))
              c).secs))
        (sym exec) (alloc-IsMapped c ht hr hd) in
    subst (λ (n : ℕ). All IsMapped (place n (sections_of obj))) (sym start)
      (subst (λ secs. All IsMapped (place 120 secs)) (sym later.splits)
        (append-IsMapped 120 t.secs later.more later.unallocated front))
