-- ===== src/Hvmc/Assembler/State.antt =====
-- The state of a pass of assemble in src/tools/hvmc/src/assembler.cpp, and the reading of its tokens.
use hvmsys.Base.{
  ℕ, zero, suc, Bool, true, false, if◌then◌else◌, List, [], ◌∷◌, length, Option, none, some,
}
use hvmsys.Base.Text.{Bytes, same_text}
use hvmsys.Except.{Exception, Result, ok, thrown, undefined}
use hvmsys.Hvmc.AsmLexer.{AsmKind, newline, end, AsmToken, AsmLexer, asm_next}

-- A run ends in a result, or `stuck` where it was given too little fuel, which the code has no like of.
pub data Run {ℓ} (A : Type ℓ) : Type ℓ where
  ran : A → AsmLexer → Run A
  failed : Exception → Run A
  bad stuck : Run A

abbrev pub Asm {ℓ} : Type ℓ → Type ℓ
Asm A = AsmLexer → Run A

abbrev pub and_then {ℓ κ} : {A : Type ℓ} {B : Type κ} → Run A → (A → Asm B) → Run B
and_then (ran a l) f = f a l
and_then (failed e) f = failed e
and_then bad f = bad
and_then stuck f = stuck

infixl 5 ◌>>=◌
unfoldable pub ◌>>=◌ {ℓ κ} : {A : Type ℓ} {B : Type κ} → Asm A → (A → Asm B) → Asm B
m >>= f = λ l. and_then (m l) f

unfoldable pub give {ℓ} : {A : Type ℓ} → A → Asm A
give a = λ l. ran a l

unfoldable pub no_fuel {ℓ} : {A : Type ℓ} → Asm A
no_fuel = λ l. stuck

unfoldable pub undefined_step {ℓ} : {A : Type ℓ} → Asm A
undefined_step = λ l. bad

unfoldable pub fail_with {ℓ} : {A : Type ℓ} → Exception → Asm A
fail_with e = λ l. failed e

abbrev pub run_of {ℓ} : {A : Type ℓ} → Result (A × AsmLexer) → Run A
run_of (ok (a, l)) = ran a l
run_of (thrown e) = failed e
run_of undefined = bad

-- `next_tok()`.
unfoldable pub read : Asm AsmToken
read = λ l. run_of (asm_next l)

pub data SectionName : Type 0 where
  text_section data_section rodata_section : SectionName

-- A symbol of `.global`. Its value is not set where the label is unknown.
pub record GlobalSymbol : Type 0 where
  pub name : Bytes
  pub value : Option ℕ

-- The variables of assemble; `second` says whether current_pass is 1. A relocation is never made.
pub record Pass : Type 0 where
  pub second : Bool
  pub current : SectionName
  pub text_data : Bytes
  pub data_data : Bytes
  pub rodata_data : Bytes
  pub current_data : Bytes
  pub labels : List (Bytes × ℕ)
  pub symbols : List GlobalSymbol

abbrev pub set_section : Pass → SectionName → Pass
set_section p text_section = record p { text_data = p.current_data }
set_section p data_section = record p { data_data = p.current_data }
set_section p rodata_section = record p { rodata_data = p.current_data }

-- The data of the current section, in the second pass.
unfoldable pub commit : Pass → Pass
commit p = if p.second then set_section p p.current else p

-- `labels[id] = current_data.size()` in the first pass; the newest entry hides the others.
unfoldable pub add_label : Pass → Bytes → Pass
add_label p id =
    if p.second then p else record p { labels = (id, length p.current_data) ∷ p.labels }

unfoldable pub find_label : Bytes → List (Bytes × ℕ) → Option ℕ
find_label id [] = none
find_label id ((name, at) ∷ rest) =
    let later = find_label id rest in if same_text id name then some at else later

abbrev pub ends_line : AsmKind → Bool
ends_line newline = true
ends_line end = true
ends_line _ = false

abbrev pub either {ℓ} : {A : Type ℓ} → Bool → Asm A → Asm A → Asm A
either true x y = x
either false x y = y

-- `while (tok is no NEWLINE and no END) tok = next_tok(); tok = next_tok();`
unfoldable pub skip_rest : ℕ → AsmToken → Asm AsmToken
skip_rest zero tok = no_fuel
skip_rest (suc fuel) tok = either (ends_line tok.kind) read (read >>= skip_rest fuel)
