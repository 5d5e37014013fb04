-- ===== src/Hvmc/Elf/Layout.antt =====
-- The sections lie in the file where their offsets say.
use hvmsys.Base.{
  ℕ, ◌+◌, ◌-◌, ◌*◌, ◌/◌, ◌%◌, ◌^◌, ◌≤◌, ◌<◌, ◌≡◌, refl, sym, ap, ◌∙◌, arith, true, false, ◌||◌,
  ◌==◌, Bool-cases, inl, inr, List, [], ◌∷◌, ◌++◌, length, replicate, take, drop, All,
  length-append, length-replicate, drop-append, take-append,
}
use mathlib.Core.List.{append_assoc, append-nil}
use native.Mathlib.Nat.{mod-lt, div-add-mod, mul-mod_right}
use hvmsys.Base.Words.{add64}
use hvmsys.Hvmc.Elf.{
  ElfSec, skipped, align_up, assign_offsets, pad_to, write_sections, is_empty, sht_nobits,
}

-- A section of type SHT_NULL has no contents.
abbrev pub IsQuiet : ElfSec → Type 0
IsQuiet s = s.kind ≡ 0 → is_empty s.contents ≡ true

-- A bound of what the layout loop adds to the offset.
abbrev pub needed : List ElfSec → ℕ
needed [] = 0
needed (s ∷ secs) = s.align + length s.contents + needed secs

-- The bytes from the offset of the section on are its contents.
abbrev pub IsAt : List ℕ → ElfSec → Type 0
IsAt file s = skipped s ≡ false → take (length s.contents) (drop s.offset file) ≡ s.contents

pub align_up_lem : (a n : ℕ) → n + a < 2 ^ 64 → (n ≤ align_up a n) × (align_up a n ≤ n + a)
unfolding align_up
align_up_lem a n h = ground arith

pub align_up-multiple : (a n : ℕ) → n + a < 2 ^ 64 → 1 < a → align_up a n % a ≡ 0
unfolding align_up
align_up-multiple a n h big =
    let low : n % a < a = mod-lt n (omega arith) in
    let e : n + (a - n % a) ≡ a * (n / a + 1) = grind (arith, div-add-mod n a, low) in
    let fits : (n + (a - n % a)) % 2 ^ 64 ≡ n + (a - n % a) = omega arith in
    let multiple : (n + (a - n % a)) % a ≡ 0 =
      ap (λ (t : ℕ). t % a) e ∙ mul-mod_right a (n / a + 1) in
    rw fits (ground (arith, multiple))

writer_skips :
    (s : ElfSec) → IsQuiet s → (is_empty s.contents || (s.kind == sht_nobits)) ≡ skipped s
unfolding skipped
writer_skips s q = ground arith

pub length-pad_to : (n : ℕ) (out : List ℕ) → length out ≤ n → length (pad_to n out) ≡ n
unfolding pad_to
length-pad_to n out h =
    rw
      (
        length-append out (replicate (n - length out) 0),
        length-replicate {A = ℕ} (n - length out) 0,
      )
      (omega arith)

pub padded :
    (n : ℕ) (out rest : List ℕ)
    → pad_to n out ++ rest ≡ out ++ (replicate (n - length out) 0 ++ rest)
unfolding pad_to
padded n out rest = append_assoc out (replicate (n - length out) 0) rest

-- Contents behind a prefix are found at the length of the prefix.
found :
    (front mid rest : List ℕ) (n : ℕ)
    → n ≡ length front
    → take (length mid) (drop n ((front ++ mid) ++ rest)) ≡ mid
found front mid rest n e =
    rw (append_assoc front mid rest, drop-append front (mid ++ rest) n e)
      (take-append mid rest (length mid) refl)

-- The file `file` after the loops, from what was written before them.
pub record IsLaidOut (before : List ℕ) (secs : List ElfSec) (end : ℕ) (file : List ℕ) : Type 0 where
  pub rest : List ℕ
  pub keeps : file ≡ before ++ rest
  pub contents_at : All (IsAt file) secs
  pub aligned : All (λ s. skipped s ≡ false → 1 < s.align → s.offset % s.align ≡ 0) secs
  pub ends : length file ≤ end

-- For sections of which those of type SHT_NULL have no contents, from an output that ends at or
-- before `offset`, with room below 2^64: the layout loop gives each section that it places an offset
-- that is a multiple of its alignment if that is above 1, and in the file that the writing loop
-- makes of them the contents of each placed section stand at its offset; what was written before
-- stays, and the file ends by the offset that the layout loop ends with.
pub assign-write :
    (secs : List ElfSec) (offset : ℕ) (before : List ℕ)
    → All IsQuiet secs
    → length before ≤ offset
    → offset + needed secs < 2 ^ 64
    → IsLaidOut before
        (assign_offsets offset secs).0
        (assign_offsets offset secs).1
        (write_sections (assign_offsets offset secs).0 before)
unfolding assign_offsets write_sections
assign-write [] offset before q h room = record {
  rest = [];
  keeps = sym (append-nil before);
  contents_at = tt;
  aligned = tt;
  ends = h;
}
assign-write (s ∷ secs) offset before (q, qs) h room = elim (Bool-cases (skipped s)) [
  | inl pass ↦
      let ih = assign-write secs offset before qs h (omega arith) in
      rw (pass, writer_skips s q, pass)
        (record {
          rest = ih.rest;
          keeps = ih.keeps;
          contents_at = (λ no. cc, ih.contents_at);
          aligned = (λ no. cc, ih.aligned);
          ends = ih.ends;
        })
  | inr put ↦
      let start : ℕ = align_up s.align offset in
      let bounds = align_up_lem s.align offset (omega arith) in
      let front : List ℕ = pad_to start before in
      let n : length front ≡ start = length-pad_to start before (omega arith) in
      let n' : length (front ++ s.contents) ≡ start + length s.contents =
        length-append front s.contents ∙ ap (λ (t : ℕ). t + length s.contents) n in
      let ih =
        assign-write secs (add64 start (length s.contents)) (front ++ s.contents) qs (omega arith)
          (omega arith) in
      rw (put, writer_skips s q, put)
        (record {
          rest = replicate (start - length before) 0 ++ (s.contents ++ ih.rest);
          keeps =
              ih.keeps
              ∙ append_assoc front s.contents ih.rest
              ∙ padded start before (s.contents ++ ih.rest);
          contents_at = (
            λ no.
                ap (λ (t : List ℕ). take (length s.contents) (drop start t)) ih.keeps
                ∙ found front s.contents ih.rest start (sym n),
            ih.contents_at,
          );
          aligned = (λ no big. align_up-multiple s.align offset (omega arith) big, ih.aligned);
          ends = ih.ends;
        })
]

-- The layout loop ends within the bound.
pub assign_offsets-needed :
    (secs : List ElfSec) (offset : ℕ)
    → offset + needed secs < 2 ^ 64
    → (assign_offsets offset secs).1 ≤ offset + needed secs
unfolding assign_offsets
assign_offsets-needed [] offset room = omega arith
assign_offsets-needed (s ∷ secs) offset room =
    let bounds = align_up_lem s.align offset (omega arith) in
    let start : ℕ = align_up s.align offset in
    ground (
      arith,
      assign_offsets-needed secs offset (omega arith),
      assign_offsets-needed secs (add64 start (length s.contents)) (omega arith),
    )
