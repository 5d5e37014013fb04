-- ===== src/Hvmc/AsmLexer/Registers.antt =====
-- parse_reg of src/tools/hvmc/src/assembler.cpp and the register names of
-- src/tools/hvmc/include/hvmc/types.h.
use hvmsys.Base.{
  ℕ, ◌+◌, ◌-◌, ◌*◌, ◌&&◌, ◌||◌, if◌then◌else◌, ltb, ◌==◌, List, [], ◌∷◌, Option, none, some,
}
use hvmsys.Base.Text.{Bytes, text, same_text, is_digit}

-- The table of reg_name.
abbrev pub reg_names : List Bytes
reg_names =
    text "zero"
    ∷ text "a0"
    ∷ text "a1"
    ∷ text "a2"
    ∷ text "tp"
    ∷ text "a3"
    ∷ text "a4"
    ∷ text "a5"
    ∷ text "a6"
    ∷ text "t0"
    ∷ text "t1"
    ∷ text "t2"
    ∷ text "t3"
    ∷ text "t4"
    ∷ text "t5"
    ∷ text "t6"
    ∷ text "s0"
    ∷ text "s1"
    ∷ text "s2"
    ∷ text "s3"
    ∷ text "s4"
    ∷ text "s5"
    ∷ text "s6"
    ∷ text "s7"
    ∷ text "s8"
    ∷ text "s9"
    ∷ text "s10"
    ∷ text "s11"
    ∷ text "s12"
    ∷ text "lr"
    ∷ text "fp"
    ∷ text "sp"
    ∷ []

-- The first index of the name from `i` on.
unfoldable pub find_name : Bytes → List Bytes → ℕ → Option ℕ
find_name s [] i = none
find_name s (name ∷ names) i =
    let later = find_name s names (i + 1) in if same_text s name then some i else later

-- std::atoi on a text without a sign: the digits in front. A number that exceeds an int, which atoi leaves
-- undefined, is kept.
unfoldable pub atoi : ℕ → Bytes → ℕ
atoi acc [] = acc
atoi acc (c ∷ cs) = let more = atoi (acc * 10 + (c - b'0')) cs in if is_digit c then more else acc

-- `r` and a number. A sign or a blank in front of the number is not read.
abbrev pub numbered : Bytes → Option ℕ
numbered (r ∷ c ∷ cs) = let n = atoi 0 (c ∷ cs) in if (r == b'r') && ltb n 32 then some n else none
numbered _ = none

abbrev pub or_numbered : Bytes → Option ℕ → Option ℕ
or_numbered s (some i) = some i
or_numbered s none = numbered s

-- `none` is -1.
unfoldable pub parse_reg : Bytes → Option ℕ
parse_reg s =
    if same_text s (text "zero") || same_text s (text "r0")
    then some 0
    else or_numbered s (find_name s reg_names 0)
