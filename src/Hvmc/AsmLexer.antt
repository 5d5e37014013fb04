-- ===== src/Hvmc/AsmLexer.antt =====
-- The tokens of assembly text, of src/tools/hvmc/src/assembler.cpp.
use hvmsys.Base.{
  ℕ, zero, suc, ◌+◌, ◌-◌, ◌*◌, ◌^◌, ◌%◌, Bool, true, false, ◌&&◌, ◌||◌, not, if◌then◌else◌, ltb,
  leb, ◌==◌, List, [], ◌∷◌, Option, none, some,
}
use hvmsys.Base.Text.{Bytes, text, same_text, is_digit, is_alpha, is_alnum, is_xdigit}
use hvmsys.Except.{Result, ok, thrown, out_of_range}
use hvmsys.Hvmc.Lexer.Read.{strtoull, digits_value, unescape}
pub mod Registers
pub mod Names
pub mod Progress

-- AsmToken::Type.
pub data AsmKind : Type 0 where
  ident number string colon comma lparen rparen : AsmKind
  plus minus star slash newline end dot hash : AsmKind

-- `intval` is the pattern of an i64.
pub record AsmToken : Type 0 where
  pub kind : AsmKind
  pub text : Bytes
  pub intval : ℕ
  pub line : ℕ

-- `rest` is `src` from `pos` on.
pub record AsmLexer : Type 0 where
  pub rest : Bytes
  pub line : ℕ

-- `peek`, which skips blanks, without its result.
unfoldable pub skip_blanks : Bytes → Bytes
skip_blanks [] = []
skip_blanks (c ∷ cs) =
    let further = skip_blanks cs in if c == b' ' || c == b'\t' then further else c ∷ cs

unfoldable pub skip_line : Bytes → Bytes
skip_line [] = []
skip_line (c ∷ cs) = let further = skip_line cs in if c == b'\n' then c ∷ cs else further

-- The loops that collect the bytes of a name or a number.
unfoldable pub span : (ℕ → Bool) → Bytes → Bytes × Bytes
span p [] = ([], [])
span p (c ∷ cs) = let more = span p cs in if p c then (c ∷ more.0, more.1) else ([], c ∷ cs)

abbrev pub asm_token : AsmKind → Bytes → ℕ → Bytes → ℕ → AsmToken × AsmLexer
asm_token k t v r l =
    (record { kind = k; text = t; intval = v; line = l }, record { rest = r; line = l })

-- The punctuation that stands for itself.
abbrev pub mark : ℕ → Option AsmKind
mark c =
    if c == b','
    then some comma
    else if c == b':'
    then some colon
    else if c == b'('
    then some lparen
    else if c == b')'
    then some rparen
    else if c == b'+'
    then some plus
    else if c == b'-'
    then some minus
    else if c == b'*'
    then some star
    else if c == b'/'
    then some slash
    else if c == b'.'
    then some dot
    else none

-- The loop over a string, up to its closing quote.
unfoldable pub asm_string : Bytes → Bytes × Bytes
asm_string [] = ([], [])
asm_string (c ∷ []) = if c == b'"' then ([], c ∷ []) else (c ∷ [], [])
asm_string (c ∷ d ∷ cs) =
    let escaped = asm_string cs in
    let plain = asm_string (d ∷ cs) in
    if c == b'"'
    then ([], c ∷ d ∷ cs)
    else if c == b'\\'
    then (unescape d ∷ escaped.0, escaped.1)
    else (c ∷ plain.0, plain.1)

-- `if (pos < src.size()) pos++`.
abbrev pub past_quote : Bytes → Bytes
past_quote [] = []
past_quote (c ∷ cs) = cs

abbrev pub is_number_char : ℕ → Bool
is_number_char c = is_xdigit c || (c == b'x' || c == b'X')

abbrev pub is_name_char : ℕ → Bool
is_name_char c = is_alnum c || (c == b'_' || c == b'.')

-- std::stoll on a text that starts with a digit: the digits in front, unless they exceed an i64.
unfoldable pub stoll : Bytes → Result ℕ
stoll num =
    let v = digits_value 10 0 (span is_digit num).0 in
    if ltb v (2 ^ 63) then ok v else thrown out_of_range

-- The value of the text of a number. strtoull ends in front of the first byte that is no digit.
unfoldable pub number_value : Bytes → Result ℕ
number_value (a ∷ x ∷ digits) =
    if a == b'0' && (x == b'x' || x == b'X')
    then ok (strtoull 16 (span is_xdigit digits).0)
    else stoll (a ∷ x ∷ digits)
number_value num = stoll num

abbrev pub number_token : Bytes → Bytes → ℕ → Result ℕ → Result (AsmToken × AsmLexer)
number_token num r l (ok v) = ok (asm_token number num v r l)
number_token num r l (thrown e) = thrown e
number_token num r l Result.undefined = Result.undefined

-- `next` behind the marks, at the byte `c` in front of `cs`.
unfoldable pub word_token : ℕ → Bytes → ℕ → Result (AsmToken × AsmLexer)
word_token c cs l =
    let str = asm_string cs in
    let num = span is_number_char (c ∷ cs) in
    let dollar = span is_name_char cs in
    let name = span is_name_char (c ∷ cs) in
    if c == b'"'
    then ok (asm_token string str.0 0 (past_quote str.1) l)
    else if is_digit c
    then number_token num.0 num.1 l (number_value num.0)
    else if c == b'$'
    then ok (asm_token ident dollar.0 0 dollar.1 l)
    else if is_alpha c || c == b'_'
    then ok (asm_token ident name.0 0 name.1 l)
    else ok (asm_token end [] 0 (c ∷ cs) l)

abbrev pub mark_or_word : ℕ → Bytes → ℕ → Option AsmKind → Result (AsmToken × AsmLexer)
mark_or_word c cs l (some k) = ok (asm_token k (c ∷ []) 0 cs l)
mark_or_word c cs l none = word_token c cs l

-- `//` stands at `c`.
abbrev pub is_comment : ℕ → Bytes → Bool
is_comment c [] = false
is_comment c (d ∷ cs) = c == b'/' && d == b'/'

-- `next` behind the blanks. A comment ends in front of its line break and gives a NEWLINE too.
unfoldable pub asm_next_at : Bytes → ℕ → Result (AsmToken × AsmLexer)
asm_next_at [] l = ok (asm_token end [] 0 [] l)
asm_next_at (c ∷ cs) l =
    if c == 0
    then ok (asm_token end [] 0 (c ∷ cs) l)
    else if c == b'\n'
    then ok (asm_token newline [] 0 cs (l + 1))
    else if c == b'#' || is_comment c cs
    then ok (asm_token newline [] 0 (skip_line (c ∷ cs)) l)
    else mark_or_word c cs l (mark c)

unfoldable pub asm_next : AsmLexer → Result (AsmToken × AsmLexer)
asm_next s = asm_next_at (skip_blanks s.rest) s.line
