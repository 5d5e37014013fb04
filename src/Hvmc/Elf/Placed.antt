-- ===== src/Hvmc/Elf/Placed.antt =====
-- The file offsets of .text, .rodata and .data, against their addresses, in src/tools/hvmc/src/elf.cpp.
use hvmsys.Base.{
  ℕ, ◌+◌, ◌^◌, ◌≤◌, ◌<◌, ◌≡◌, refl, ap, arith, bit_and, true, false, Bool-cases, ◌||◌, ◌==◌, inl,
  inr, List, [], ◌∷◌, length, All,
}
use hvmsys.Base.Text.{Bytes}
use hvmsys.Base.Words.{add64}
use hvmsys.Hvmc.Elf.{is_empty, ElfSec, skipped, align_up, assign_offsets}
use hvmsys.Hvmc.Elf.Layout.{align_up-multiple}
use hvmsys.Hvmc.Elf.Image.{next_aligned, next_aligned_lem, section_addresses}
use hvmsys.Hvmc.Elf.Object.{Collected}
use hvmsys.Hvmc.Elf.Sections.{null_sec, alloc_section, alloc_tables}

-- A section with contents that is to be in memory stands as far behind offset 120 in the file as its
-- address is behind 0x100000.
abbrev pub IsMapped : ElfSec → Type 0
IsMapped s = skipped s ≡ false → bit_and s.flags 2 ≡ 2 → s.offset + 0x100000 ≡ s.addr + 120

-- Sections of alignment 8 whose addresses follow on the address `m`.
abbrev Follows : ℕ → List ElfSec → Type 0
Follows m [] = m < 2 ^ 63
Follows m (s ∷ secs) =
    (s.align ≡ 8)
    × (s.addr ≡ next_aligned m)
    × (skipped s ≡ true → length s.contents ≡ 0)
    × (m < 2 ^ 63)
    × Follows (s.addr + length s.contents) secs

Follows-bound : (m : ℕ) (secs : List ElfSec) → Follows m secs → m < 2 ^ 63
Follows-bound m [] h = h
Follows-bound m (s ∷ secs) (a, b, c, h, f) = h

-- The next multiples of 8 in the file and in memory correspond.
abbrev Corresponds : ℕ → ℕ → Type 0
Corresponds n m = align_up 8 n + 0x100000 ≡ next_aligned m + 120

align_up_near : (n : ℕ) → n + 8 < 2 ^ 64 → (n ≤ align_up 8 n) × (align_up 8 n < n + 8)
unfolding align_up
align_up_near n h = ground arith

corresponds : (n m : ℕ) → n + 0x100000 ≡ m + 120 → m < 2 ^ 63 → Corresponds n m
corresponds n m e h =
    let (a, b) = align_up_near n (omega arith) in
    let c = align_up-multiple 8 n (omega arith) (omega arith) in
    let (d, f, g) = next_aligned_lem m (omega arith) in omega arith

next_aligned_again : (m : ℕ) → m < 2 ^ 63 → next_aligned (next_aligned m + 0) ≡ next_aligned m
next_aligned_again m h =
    let (d, f, g) = next_aligned_lem m (omega arith) in
    let (d', f', g') = next_aligned_lem (next_aligned m + 0) (omega arith) in omega arith

chain-IsMapped :
    (n m : ℕ) (secs : List ElfSec)
    → Corresponds n m
    → n < 2 ^ 63
    → Follows m secs
    → All IsMapped (assign_offsets n secs).0
unfolding assign_offsets
chain-IsMapped n m [] c h f = tt
chain-IsMapped n m (s ∷ secs) c h (al, ad, none, hm, f) = elim (Bool-cases (skipped s)) [
  | inl pass ↦
      let empty : length s.contents ≡ 0 = none pass in
      let still : Corresponds n (s.addr + length s.contents) =
        rw (ad, empty, next_aligned_again m hm) c in
      rw pass ((λ no. cc), chain-IsMapped n (s.addr + length s.contents) secs still h f)
  | inr put ↦
      let bound : s.addr + length s.contents < 2 ^ 63 = Follows-bound _ secs f in
      let (a, b) = align_up_near n (omega arith) in
      let start : align_up s.align n ≡ align_up 8 n = ap (λ (t : ℕ). align_up t n) al in
      let here : align_up s.align n + 0x100000 ≡ s.addr + 120 = omega (arith, start, c, ad) in
      let end : ℕ = add64 (align_up s.align n) (length s.contents) in
      let behind : end ≡ align_up s.align n + length s.contents = omega arith in
      let next : Corresponds end (s.addr + length s.contents) =
        corresponds end (s.addr + length s.contents) (omega (arith, behind, here)) bound in
      rw put (
        (λ no alloc. here),
        chain-IsMapped end (s.addr + length s.contents) secs next (omega (arith, behind)) f,
      )
]

-- Behind the section .text, of alignment 4, at offset 120.
text-IsMapped :
    (name : ℕ) (xs : Bytes) (secs : List ElfSec)
    → length xs < 2 ^ 61
    → Follows (0x100000 + length xs) secs
    → All IsMapped (assign_offsets 120 (alloc_section 6 0x100000 4 xs name ∷ secs)).0
unfolding assign_offsets skipped align_up
text-IsMapped name [] secs h f = (
  λ no. cc,
  chain-IsMapped 120 0x100000 secs (corresponds 120 0x100000 refl (omega arith)) (omega arith) f,
)
text-IsMapped name (x ∷ xs) secs h f =
    let end : ℕ = add64 120 (length (x ∷ xs)) in
    let behind : end ≡ 120 + length (x ∷ xs) = omega arith in
    (
      λ no alloc. refl,
      chain-IsMapped end (0x100000 + length (x ∷ xs)) secs
          (corresponds end (0x100000 + length (x ∷ xs)) (omega (arith, behind)) (omega arith))
          (omega (arith, behind)) f,
    )

null-IsMapped :
    (n : ℕ) (secs : List ElfSec)
    → All IsMapped (assign_offsets n secs).0
    → All IsMapped (assign_offsets n (null_sec ∷ secs)).0
unfolding assign_offsets skipped
null-IsMapped n secs h = (λ no. cc, h)

placed-empty : (s : ElfSec) → s.kind ≡ 1 → skipped s ≡ true → length s.contents ≡ 0
unfolding skipped
placed-empty s k h = by_contents s.contents s.kind k h
  where
    by_contents :
        (xs : Bytes) (kind : ℕ)
        → kind ≡ 1
        → (((kind == 0) || (kind == 8)) || is_empty xs) ≡ true
        → length xs ≡ 0
    by_contents [] kind k h = refl
    by_contents (x ∷ xs) kind k h = ground arith

pub alloc-IsMapped :
    (c : Collected)
    → length c.text_data < 2 ^ 60
    → length c.rodata_data < 2 ^ 60
    → length c.data_data < 2 ^ 60
    → All IsMapped
        (assign_offsets 120
          (alloc_tables
            (section_addresses true
              (length c.text_data)
              (length c.rodata_data)
              (length c.data_data))
            c).secs).0
unfolding alloc_tables section_addresses
alloc-IsMapped c ht hr hd =
    let t : ℕ = 0x100000 + length c.text_data in
    let e1 : add64 0x100000 (length c.text_data) ≡ t = omega arith in
    let x1 : ℕ = next_aligned (add64 0x100000 (length c.text_data)) in
    let f1 : x1 ≡ next_aligned t = ap next_aligned e1 in
    let (m1, l1, u1) = next_aligned_lem t (omega arith) in
    let e2 : add64 x1 (length c.rodata_data) ≡ x1 + length c.rodata_data = omega (arith, f1) in
    let x2 : ℕ = next_aligned (add64 x1 (length c.rodata_data)) in
    let f2 : x2 ≡ next_aligned (x1 + length c.rodata_data) = ap next_aligned e2 in
    let (m2, l2, u2) = next_aligned_lem (x1 + length c.rodata_data) (omega (arith, f1)) in
    let e3 : add64 x2 (length c.data_data) ≡ x2 + length c.data_data = omega (arith, f1, f2) in
    let x3 : ℕ = next_aligned (add64 x2 (length c.data_data)) in
    let f3 : x3 ≡ next_aligned (x2 + length c.data_data) = ap next_aligned e3 in
    let (m3, l3, u3) = next_aligned_lem (x2 + length c.data_data) (omega (arith, f1, f2)) in
    null-IsMapped 120 _ (
      text-IsMapped 1 c.text_data _ (omega arith) (
        refl,
        f1,
        placed-empty _ refl,
        omega arith,
        (
          refl,
          f2,
          placed-empty _ refl,
          omega (arith, f1),
          (refl, f3, λ skip. refl, omega (arith, f1, f2), omega (arith, f1, f2, f3)),
        ),
      ))
