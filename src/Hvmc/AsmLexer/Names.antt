-- ===== src/Hvmc/AsmLexer/Names.antt =====
-- Which register parse_reg gives for a name.
use hvmsys.Base.{ℕ, ◌≡◌, arith, false, ◌∷◌, some}
use hvmsys.Base.Text.{Bytes, is_digit}
use hvmsys.Hvmc.AsmLexer.Registers.{find_name, atoi, parse_reg}

-- A name of two or more bytes that begins with `r` and goes on with no digit is the name of register 0,
-- whatever else it is the name of.
parse_reg_letter : (c : ℕ) (cs : Bytes) → is_digit c ≡ false → parse_reg (b'r' ∷ c ∷ cs) ≡ some 0
unfolding parse_reg find_name atoi
parse_reg_letter c cs letter = ground (arith, letter)
