-- ===== src/Hvmc/Assembler/Directives.antt =====
-- The directives of assemble in src/tools/hvmc/src/assembler.cpp.
use hvmsys.Base.{
  ℕ, zero, suc, ◌+◌, ◌-◌, ◌%◌, ◌/◌, ◌^◌, ◌||◌, if◌then◌else◌, ◌==◌, ltb, [], ◌∷◌, ◌++◌, length,
  Option, none, some,
}
use hvmsys.Base.Text.{Bytes, text, same_text}
use hvmsys.Except.{length_error}
use hvmsys.Hvmc.AsmLexer.{AsmKind, ident, number, string, dot, AsmToken}
use hvmsys.Hvmc.Assembler.State.{
  Asm, ◌>>=◌, give, fail_with, either, undefined_step, read, Pass, SectionName, text_section,
  data_section, rodata_section, commit, find_label, skip_rest,
}

-- `n` bytes of a number, the lowest first.
unfoldable pub low_bytes : ℕ → ℕ → Bytes
low_bytes zero v = []
low_bytes (suc n) v = v % 256 ∷ low_bytes n (v / 256)

unfoldable pub zeros : ℕ → Bytes
zeros zero = []
zeros (suc n) = 0 ∷ zeros n

abbrev pub add_data : Pass → Bytes → Pass
add_data p bytes = record p { current_data = p.current_data ++ bytes }

-- Bytes in the second pass, room for them in the first.
abbrev pub add_or_skip : Pass → Bytes → Pass
add_or_skip p bytes = add_data p (if p.second then bytes else zeros (length bytes))

-- `.byte`, `.word` and `.quad` with the token behind them.
abbrev pub add_number : Pass → ℕ → AsmToken → AsmKind → Pass
add_number p n t number = add_or_skip p (low_bytes n t.intval)
add_number p n t _ = p

-- `.ascii`, and `.asciz` with a closing zero.
abbrev pub add_string : Pass → Bytes → AsmToken → AsmKind → Pass
add_string p closing t string = add_or_skip p (t.text ++ closing)
add_string p closing t _ = p

-- `current_data.insert(current_data.end(), n, 0)`: a vector of bytes has at most 2^63 - 1.
unfoldable pub insert_zeros : Pass → ℕ → Asm Pass
insert_zeros p n =
    either (ltb (length p.current_data + n) (2 ^ 63)) (give (add_data p (zeros n)))
      (fail_with length_error)

-- A remainder by 0 is undefined.
abbrev pub add_padding : Pass → ℕ → Asm Pass
add_padding p zero = undefined_step
add_padding p (suc n) =
    let mis : ℕ = length p.current_data % suc n in
    either (mis == 0) (give p) (insert_zeros p (suc n - mis))

abbrev pub align : Pass → AsmToken → AsmKind → Asm Pass
align p t number = add_padding p t.intval
align p t _ = give p

abbrev pub add_symbol : Pass → Bytes → Pass
add_symbol p name =
    if p.second
    then record p {
      symbols = p.symbols ++ (record { name = name; value = find_label name p.labels } ∷ []);
    }
    else p

abbrev pub section_of : Bytes → Option SectionName
section_of name =
    if same_text name (text "text")
    then some text_section
    else if same_text name (text "data")
    then some data_section
    else if same_text name (text "rodata")
    then some rodata_section
    else none

-- A section that is entered begins with no data.
abbrev pub enter : Pass → Option SectionName → Pass
enter p (some s) = record p { current = s; current_data = [] }
enter p none = p

-- The name behind `.section`, which may have a dot in front.
abbrev pub section_name : AsmToken → AsmKind → Asm AsmToken
section_name t dot = read
section_name t _ = give t

-- What a directive does with the token behind it.
pub data Argument : Type 0 where
  global_symbol : Argument
  numbers : ℕ → Argument
  characters : Bytes → Argument
  alignment : Argument

abbrev pub argument_of : Bytes → Option Argument
argument_of dir =
    if same_text dir (text "global") || same_text dir (text "globl")
    then some global_symbol
    else if same_text dir (text "byte")
    then some (numbers 1)
    else if same_text dir (text "word") || same_text dir (text "short")
    then some (numbers 2)
    else if same_text dir (text "quad") || same_text dir (text "dword")
    then some (numbers 8)
    else if same_text dir (text "ascii")
    then some (characters [])
    else if same_text dir (text "asciz") || same_text dir (text "string")
    then some (characters (0 ∷ []))
    else if same_text dir (text "align")
    then some alignment
    else none

unfoldable pub with_argument : Pass → Argument → AsmToken → Asm Pass
with_argument p global_symbol t = give (add_symbol p t.text)
with_argument p (numbers n) t = give (add_number p n t t.kind)
with_argument p (characters closing) t = give (add_string p closing t t.kind)
with_argument p alignment t = align p t t.kind

-- A section that the directive enters, behind the commit of the current one.
abbrev pub enter_section : ℕ → Pass → AsmToken → Bytes → Asm (AsmToken × Pass)
enter_section fuel p tok name =
    skip_rest fuel tok >>= λ t. give (t, enter (commit p) (section_of name))

abbrev pub section_directive : ℕ → Pass → AsmToken → Asm (AsmToken × Pass)
section_directive fuel p tok =
    read >>= λ sn. section_name sn sn.kind >>= λ name. enter_section fuel p tok name.text

-- A directive that enters no section: with the token behind it, or, unknown, without.
unfoldable pub other_directive : ℕ → Pass → AsmToken → Option Argument → Asm (AsmToken × Pass)
other_directive fuel p tok none = do t ← skip_rest fuel tok; give (t, p)
other_directive fuel p tok (some argument) = do
  value ← read
  q ← with_argument p argument value
  t ← skip_rest fuel tok
  give (t, q)

-- A directive by its name, in front of which the token `tok`, a dot, stands.
unfoldable pub named_directive : ℕ → Pass → AsmToken → Bytes → Asm (AsmToken × Pass)
named_directive fuel p tok dir =
    if same_text dir (text "section")
    then section_directive fuel p tok
    else if same_text dir (text "text")
        || (same_text dir (text "data") || same_text dir (text "rodata"))
    then enter_section fuel p tok dir
    else other_directive fuel p tok (argument_of dir)

unfoldable pub directive : ℕ → Pass → AsmToken → AsmToken → AsmKind → Asm (AsmToken × Pass)
directive fuel p tok dir ident = named_directive fuel p tok dir.text
directive fuel p tok dir _ = do t ← read; give (t, p)
