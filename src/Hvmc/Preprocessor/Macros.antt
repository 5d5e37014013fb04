-- ===== src/Hvmc/Preprocessor/Macros.antt =====
-- Macros and constants in src/tools/hvmc/src/preprocessor.cpp.
use hvmsys.Base.{
  ℕ, zero, suc, ◌-◌, ◌^◌, Bool, true, false, ◌&&◌, ◌||◌, not, if◌then◌else◌, leb, ◌==◌, List, [],
  ◌∷◌, ◌++◌, length, Option, none, some,
}
use hvmsys.Base.Text.{Bytes, same_text, is_alnum, is_digit}
use hvmsys.Hvmc.AsmLexer.{span}
use hvmsys.Hvmc.Lexer.Read.{digits_value}
use hvmsys.Hvmc.Preprocessor.Texts.{is_nil}

-- A macro has one entry.
abbrev pub Defines : Type 0
Defines = List (Bytes × Bytes)

unfoldable pub find_define : Bytes → Defines → Option Bytes
find_define name [] = none
find_define name ((key, value) ∷ rest) =
    let later = find_define name rest in if same_text key name then some value else later

unfoldable pub erase_define : Bytes → Defines → Defines
erase_define name [] = []
erase_define name ((key, value) ∷ rest) =
    let others = erase_define name rest in
    if same_text key name then others else (key, value) ∷ others

unfoldable pub set_define : Bytes → Bytes → Defines → Defines
unfolding erase_define
set_define name value defines = (name, value) ∷ erase_define name defines

abbrev pub is_some {ℓ} : {A : Type ℓ} → Option A → Bool
is_some (some a) = true
is_some none = false

unfoldable pub is_defined : Bytes → Defines → Bool
unfolding find_define
is_defined name defines = is_some (find_define name defines)

-- The char is at the border of a name.
abbrev pub is_word_char : Option ℕ → Bool
is_word_char none = false
is_word_char (some c) = is_alnum c || (c == b'_')

abbrev pub first_char : Bytes → Option ℕ
first_char [] = none
first_char (c ∷ cs) = some c

-- The byte behind a text with `prev` in front of it.
abbrev pub last_char : Option ℕ → Bytes → Option ℕ
last_char prev [] = prev
last_char prev (c ∷ cs) = last_char (some c) cs

-- What is left behind the name, which the text begins with.
unfoldable pub behind : Bytes → Bytes → Option Bytes
behind [] s = some s
behind (n ∷ ns) [] = none
behind (n ∷ ns) (c ∷ cs) = let rest = behind ns cs in if n == c then rest else none

-- What stands for the byte at `pos`: itself, or, where the name begins, the name or its value, and the
-- number of bytes behind `pos` that it stands for too.
pub record Found : Type 0 where
  pub bytes : Bytes
  pub skip : ℕ

unfoldable pub match_at : Bytes → Bytes → Option ℕ → ℕ → Option Bytes → Found
match_at name value prev c none = record { bytes = c ∷ []; skip = 0 }
match_at name value prev c (some rest) = record {
  bytes = if not (is_word_char prev) && not (is_word_char (first_char rest)) then value else name;
  skip = length name - 1;
}

-- The loop over one macro, whose name is not empty, behind the byte `prev`; `skip` bytes have been
-- passed over.
unfoldable pub replace_from : Bytes → Bytes → Option ℕ → ℕ → Bytes → Bytes
unfolding match_at behind
replace_from name value prev skip [] = []
replace_from name value prev (suc skip) (c ∷ cs) = replace_from name value prev skip cs
replace_from name value prev zero (c ∷ cs) =
    let f = match_at name value prev c (behind name (c ∷ cs)) in
    f.bytes ++ replace_from name value (last_char prev f.bytes) f.skip cs

unfoldable pub expand_each : Defines → Bytes → Bytes
unfolding replace_from
expand_each [] result = result
expand_each ((name, value) ∷ rest) result = expand_each rest (replace_from name value none 0 result)

unfoldable pub expand_macro : (Defines → Defines) → Bytes → Defines → Bytes
unfolding expand_each
expand_macro order line defines = expand_each (order defines) line

-- std::stoi is a number other than 0: a sign, digits, and a value that an int holds. A text without
-- digits and a value out of range throw, which is caught.
unfoldable pub nonzero_digits : ℕ → Bytes → Bool
unfolding span digits_value
nonzero_digits bound digits =
    let v = digits_value 10 0 (span is_digit digits).0 in not (v == 0) && leb v bound

unfoldable pub nonzero_int : Bytes → Bool
unfolding nonzero_digits
nonzero_int [] = false
nonzero_int (c ∷ cs) =
    if c == b'-'
    then nonzero_digits (2 ^ 31) cs
    else if c == b'+'
    then nonzero_digits (2 ^ 31 - 1) cs
    else nonzero_digits (2 ^ 31 - 1) (c ∷ cs)

abbrev pub truth_of : Bytes → Option Bytes → Bool
truth_of expr (some value) = not (is_nil value)
truth_of expr none = nonzero_int expr

unfoldable pub evaluate_constant : Bytes → Defines → Bool
unfolding find_define nonzero_int
evaluate_constant expr defines = truth_of expr (find_define expr defines)
