-- ===== src/Hvmc/Elf/Names.antt =====
-- The names of the symbols in the string table of an ELF file.
use hvmsys.Base.{
  ℕ, ◌+◌, ◌%◌, ◌^◌, ◌<◌, ◌≡◌, ◌≢◌, refl, sym, ap, ◌∙◌, arith, Bool, if◌then◌else◌, ◌==◌, List, [],
  ◌∷◌, ◌++◌, length, drop, All, length-append, drop-append,
}
use mathlib.Core.List.{append_assoc, append-nil}
use hvmsys.Base.Text.{Bytes}
use hvmsys.Hvmc.Elf.Image.{ElfSym}
use hvmsys.Hvmc.Elf.Object.{Symbol, add_str}
use hvmsys.Hvmc.Elf.Symbols.{symbol_of, global_syms}

-- How a reader takes a text from a string table: up to the zero byte.
abbrev pub c_string : Bytes → Bytes
c_string [] = []
c_string (c ∷ cs) = if c == 0 then [] else c ∷ c_string cs

abbrev pub read_names : Bytes → List ElfSym → List Bytes
read_names strtab [] = []
read_names strtab (s ∷ syms) = c_string (drop s.st_name strtab) ∷ read_names strtab syms

abbrev pub names_of : List Symbol → List Bytes
names_of [] = []
names_of (s ∷ syms) = s.name ∷ names_of syms

abbrev pub NoZero : Symbol → Type 0
NoZero s = All (λ c. c ≢ 0) s.name

c_string-name : (name rest : Bytes) → All (λ c. c ≢ 0) name → c_string (name ++ (0 ∷ rest)) ≡ name
c_string-name [] rest there = refl
c_string-name (c ∷ cs) rest (n, there) = ground (arith, c_string-name cs rest there)

-- The table behind the loop begins with the one in front of it.
global_syms-extends :
    (is_exec : Bool) (addrs : List ℕ) (strtab : Bytes) (syms : List Symbol)
    → (more : Bytes) × ((global_syms is_exec addrs strtab syms).1 ≡ strtab ++ more)
unfolding global_syms add_str
global_syms-extends is_exec addrs strtab [] = ([], sym (append-nil strtab))
global_syms-extends is_exec addrs strtab (s ∷ syms) =
    let (more, e) = global_syms-extends is_exec addrs (strtab ++ (s.name ++ (0 ∷ []))) syms in
    ((s.name ++ (0 ∷ [])) ++ more, e ∙ append_assoc strtab (s.name ++ (0 ∷ [])) more)

-- A name behind `strtab` is found at its offset.
name_at :
    (strtab name more : Bytes) (n : ℕ)
    → n ≡ length strtab
    → All (λ c. c ≢ 0) name
    → c_string (drop n ((strtab ++ (name ++ (0 ∷ []))) ++ more)) ≡ name
name_at strtab name more n e there =
    rw
      (
        append_assoc strtab (name ++ (0 ∷ [])) more,
        drop-append strtab ((name ++ (0 ∷ [])) ++ more) n e,
        append_assoc name (0 ∷ []) more,
      )
      (c_string-name name more there)

-- Where the names of the global symbols have no zero byte and the string table ends below 2^32, the text
-- that a reader finds in the table at the st_name of each symbol's entry is the symbol's name.
pub global_syms-names :
    (is_exec : Bool) (addrs : List ℕ) (strtab : Bytes) (syms : List Symbol)
    → All NoZero syms
    → length (global_syms is_exec addrs strtab syms).1 < 2 ^ 32
    → read_names (global_syms is_exec addrs strtab syms).1 (global_syms is_exec addrs strtab syms).0
      ≡ names_of syms
unfolding global_syms add_str symbol_of
global_syms-names is_exec addrs strtab [] there fits = refl
global_syms-names is_exec addrs strtab (s ∷ syms) (n, there) fits =
    let next : Bytes = strtab ++ (s.name ++ (0 ∷ [])) in
    let (more, e) = global_syms-extends is_exec addrs next syms in
    let long : length (next ++ more) < 2 ^ 32 = rw (sym e) fits in
    let total : length (next ++ more) ≡ length next + length more = length-append next more in
    let front : length next ≡ length strtab + length (s.name ++ (0 ∷ [])) =
      length-append strtab (s.name ++ (0 ∷ [])) in
    let low : length strtab % 2 ^ 32 ≡ length strtab = omega arith in
    let head : c_string (drop (length strtab % 2 ^ 32) (global_syms is_exec addrs next syms).1)
        ≡ s.name =
      ap (λ (t : Bytes). c_string (drop (length strtab % 2 ^ 32) t)) e
      ∙ name_at strtab s.name more (length strtab % 2 ^ 32) low n in
    rw (head, global_syms-names is_exec addrs next syms there fits) refl
