-- ===== src/Hvmc/Elf/Object.antt =====
-- The object files of src/tools/hvmc/include/hvmc/types.h, and what write_elf in src/tools/hvmc/src/elf.cpp
-- takes of them.
use hvmsys.Base.{ℕ, Bool, if◌then◌else◌, List, [], ◌∷◌, ◌++◌, length, ◌%◌, ◌^◌}
use hvmsys.Base.Int.{ℤ}
use hvmsys.Base.Text.{Bytes, text, same_text}
use hvmsys.Hvmc.Elf.Image.{Relocation}

-- `section_idx` is an int, which may be negative.
pub record Symbol : Type 0 where
  pub name : Bytes
  pub value : ℕ
  pub size : ℕ
  pub is_global : Bool
  pub is_function : Bool
  pub section_idx : ℤ

pub record Section : Type 0 where
  pub name : Bytes
  pub contents : Bytes
  pub addr : ℕ
  pub flags : ℕ
  pub idx : ℤ
  pub relocs : List Relocation
  pub symbols : List Symbol

pub record ObjectFile : Type 0 where
  pub sections : List Section
  pub global_symbols : List Symbol
  pub entry_point : Bytes
  pub is_executable : Bool

-- The variables that the loop over the sections sets.
pub record Collected : Type 0 where
  pub text_data : Bytes
  pub data_data : Bytes
  pub rodata_data : Bytes
  pub text_relocs : List Relocation

unfoldable pub collect : Collected → Section → Collected
collect c s =
    if same_text s.name (text ".text")
    then record c { text_data = s.contents; text_relocs = s.relocs }
    else if same_text s.name (text ".data")
    then record c { data_data = s.contents }
    else if same_text s.name (text ".rodata")
    then record c { rodata_data = s.contents }
    else c

unfoldable pub collect_all : Collected → List Section → Collected
unfolding collect
collect_all c [] = c
collect_all c (s ∷ secs) = collect_all (collect c s) secs

unfoldable pub collected : ObjectFile → Collected
unfolding collect_all
collected obj =
    collect_all (record { text_data = []; data_data = []; rodata_data = []; text_relocs = [] })
      obj.sections

-- `add_str`: the offset, a u32, and the table with the text and a zero byte behind it.
unfoldable pub add_str : Bytes → Bytes → ℕ × Bytes
add_str tab s = (length tab % 2 ^ 32, tab ++ (s ++ (0 ∷ [])))
