-- ===== src/Hvmc/Lexer/Read.antt =====
-- One token from its first byte: the functions read_* of src/tools/hvmc/src/lexer.cpp and the operators of
-- Lexer::next.
use hvmsys.Base.{
  ℕ, ◌+◌, ◌-◌, ◌*◌, ◌^◌, Bool, false, ◌&&◌, ◌||◌, if◌then◌else◌, ltb, ◌==◌, List, [], ◌∷◌, Option,
  none, some,
}
use hvmsys.Base.Text.{Bytes, text, same_text, is_digit, is_lower, is_alpha, is_alnum, is_xdigit}
use hvmsys.Except.{Result, ok, thrown, runtime_error}
use hvmsys.Hvmc.Token.{
  TokenKind, Token, number_lit, string_lit, char_lit, lparen, rparen, lbrace, rbrace, lbracket,
  rbracket, semicolon, comma, dot, arrow, plus, minus, star, slash, percent, amper, pipe, caret,
  tilde, exclam, eq, eqeq, neq, lt, le, gt, ge, andand, oror, plusplus, minusminus, plus_eq,
  minus_eq, star_eq, slash_eq, percent_eq, amper_eq, pipe_eq, caret_eq, lshift, rshift, lshift_eq,
  rshift_eq, colon, question, inline_asm,
}
use hvmsys.Hvmc.Lexer.Words.{word_kind}
use hvmsys.Hvmc.Lexer.Scan.{
  Cursor, at, peek_char, get, next_line, next_col, read_while, skip_whitespace_and_comments, token,
}

abbrev pub is_ident_start : ℕ → Bool
is_ident_start c = is_alpha c || c == b'_'

abbrev pub is_ident_char : ℕ → Bool
is_ident_char c = is_alnum c || c == b'_'

-- The body of an asm block inside `depth + 1` braces, up to the closing one.
unfoldable pub asm_body : ℕ → Bytes → ℕ → ℕ → Bytes × Cursor
asm_body depth [] l k = ([], at [] l k)
asm_body depth (c ∷ cs) l k =
    let deeper = if c == b'{' then depth + 1 else if c == b'}' then depth - 1 else depth in
    let more = asm_body deeper cs (next_line c l) (next_col c k) in
    if c == b'}' && depth == 0
    then ([], at cs (next_line c l) (next_col c k))
    else (c ∷ more.0, more.1)

-- What follows the word `asm`.
unfoldable pub read_asm : Cursor → Bytes → Cursor → Token × Cursor
unfolding get peek_char asm_body word_kind
read_asm s word after =
    if peek_char after.rest == b'{'
    then (let opened = get after in
        let body = asm_body 0 opened.rest opened.line opened.col in
        (token inline_asm body.0 0 s, body.1))
    else (token (word_kind word) word 0 s, after)

unfoldable pub read_ident_or_keyword : Cursor → Token × Cursor
unfolding read_while read_asm skip_whitespace_and_comments word_kind
read_ident_or_keyword s =
    let word = read_while is_ident_char s.rest s.line s.col in
    if same_text word.0 (text "asm")
    then read_asm s word.0 (skip_whitespace_and_comments word.1)
    else (token (word_kind word.0) word.0 0 s, word.1)

abbrev pub digit_value : ℕ → ℕ
digit_value c = if is_digit c then c - b'0' else if is_lower c then c - b'a' + 10 else c - b'A' + 10

-- The number of digits in front of which `acc` has been read.
unfoldable pub digits_value : ℕ → ℕ → Bytes → ℕ
digits_value base acc [] = acc
digits_value base acc (c ∷ cs) = digits_value base (acc * base + digit_value c) cs

-- strtoull on digits of the base gives ULLONG_MAX for a number that is too large.
unfoldable pub strtoull : ℕ → Bytes → ℕ
unfolding digits_value
strtoull base digits =
    let v = digits_value base 0 digits in if ltb v (2 ^ 64) then v else 2 ^ 64 - 1

-- `0x` or `0X` stands at pos_.
abbrev pub is_hex : Bytes → Bool
is_hex (c ∷ d ∷ cs) = c == b'0' && (d == b'x' || d == b'X')
is_hex _ = false

-- strtoull skips the prefix of a hexadecimal number.
unfoldable pub read_number : Cursor → Token × Cursor
unfolding get peek_char read_while strtoull
read_number s =
    if is_hex s.rest
    then (let second = get s in
        let third = get second in
        let more = read_while is_xdigit third.rest third.line third.col in
        let num = peek_char s.rest ∷ peek_char second.rest ∷ more.0 in
        (token number_lit num (strtoull 16 more.0) s, more.1))
    else (let num = read_while is_digit s.rest s.line s.col in
        (token number_lit num.0 (strtoull 10 num.0) s, num.1))

-- The byte that an escape stands for.
unfoldable pub unescape : ℕ → ℕ
unescape d =
    if d == b'n'
    then b'\n'
    else if d == b'r'
    then b'\r'
    else if d == b't'
    then b'\t'
    else if d == b'0'
    then 0
    else d

-- The loop of read_string. An escape counts two columns and no line; a backslash at the end of the source
-- is no escape.
unfoldable pub string_body : Bytes → ℕ → ℕ → Bytes × Cursor
unfolding unescape
string_body [] l k = ([], at [] l k)
string_body (c ∷ []) l k =
    if c == b'"' then ([], at (c ∷ []) l k) else (c ∷ [], at [] (next_line c l) (next_col c k))
string_body (c ∷ d ∷ cs) l k =
    let escaped = string_body cs l (k + 1 + 1) in
    let plain = string_body (d ∷ cs) (next_line c l) (next_col c k) in
    if c == b'"'
    then ([], at (c ∷ d ∷ cs) l k)
    else if c == b'\\'
    then (unescape d ∷ escaped.0, escaped.1)
    else (c ∷ plain.0, plain.1)

unfoldable pub read_string : Cursor → Token × Cursor
unfolding get string_body
read_string s =
    let opened = get s in
    let body = string_body opened.rest opened.line opened.col in
    (token string_lit body.0 0 s, get body.1)

-- A char, which is signed, as a u64.
abbrev pub char_value : ℕ → ℕ
char_value c = if ltb c 128 then c else c + (2 ^ 64 - 256)

-- Behind the opening quote: the value, and the place behind it.
unfoldable pub char_body : Cursor → ℕ × Cursor
unfolding get peek_char unescape
char_body s =
    if peek_char s.rest == b'\\'
    then (let escaped = get s in (char_value (unescape (peek_char escaped.rest)), get escaped))
    else (char_value (peek_char s.rest), get s)

unfoldable pub read_char : Cursor → Token × Cursor
unfolding get peek_char char_body
read_char s =
    let body = char_body (get s) in
    let closed = if peek_char body.1.rest == b'\'' then get body.1 else body.1 in
    (token char_lit [] body.0 s, closed)

-- After a first byte: the kind of the first listed byte that stands next, which is read, or `own`.
unfoldable pub follow : Cursor → List (ℕ × TokenKind) → TokenKind → TokenKind × Cursor
unfolding get peek_char
follow s [] own = (own, s)
follow s ((c, k) ∷ more) own = if peek_char s.rest == c then (k, get s) else follow s more own

-- `<` and `>`, which may be doubled.
unfoldable pub angle :
    Cursor → ℕ → TokenKind → TokenKind → TokenKind → TokenKind → TokenKind × Cursor
unfolding get peek_char follow
angle s c own or_equal shift shift_eq =
    if peek_char s.rest == b'='
    then (or_equal, get s)
    else if peek_char s.rest == c
    then follow (get s) ((b'=', shift_eq) ∷ []) shift
    else (own, s)

-- The operators of one to three bytes; `s` is behind the first byte `c`.
unfoldable pub operator : ℕ → Cursor → Option (TokenKind × Cursor)
unfolding follow angle
operator c s =
    if c == b'='
    then some (follow s ((b'=', eqeq) ∷ []) eq)
    else if c == b'!'
    then some (follow s ((b'=', neq) ∷ []) exclam)
    else if c == b'<'
    then some (angle s b'<' lt le lshift lshift_eq)
    else if c == b'>'
    then some (angle s b'>' gt ge rshift rshift_eq)
    else if c == b'&'
    then some (follow s ((b'&', andand) ∷ (b'=', amper_eq) ∷ []) amper)
    else if c == b'|'
    then some (follow s ((b'|', oror) ∷ (b'=', pipe_eq) ∷ []) pipe)
    else if c == b'+'
    then some (follow s ((b'+', plusplus) ∷ (b'=', plus_eq) ∷ []) plus)
    else if c == b'-'
    then some (follow s ((b'-', minusminus) ∷ (b'=', minus_eq) ∷ (b'>', arrow) ∷ []) minus)
    else if c == b'*'
    then some (follow s ((b'=', star_eq) ∷ []) star)
    else if c == b'/'
    then some (follow s ((b'=', slash_eq) ∷ []) slash)
    else if c == b'%'
    then some (follow s ((b'=', percent_eq) ∷ []) percent)
    else if c == b'^'
    then some (follow s ((b'=', caret_eq) ∷ []) caret)
    else none

unfoldable pub punctuation : ℕ → Option TokenKind
punctuation c =
    if c == b'('
    then some lparen
    else if c == b')'
    then some rparen
    else if c == b'{'
    then some lbrace
    else if c == b'}'
    then some rbrace
    else if c == b'['
    then some lbracket
    else if c == b']'
    then some rbracket
    else if c == b';'
    then some semicolon
    else if c == b','
    then some comma
    else if c == b'.'
    then some dot
    else if c == b'~'
    then some tilde
    else if c == b'?'
    then some question
    else if c == b':'
    then some colon
    else none

-- Only `=` among the operators has a text.
abbrev pub operator_text : TokenKind → Bytes
operator_text eq = text "="
operator_text k = []

abbrev pub read_punctuation : ℕ → Cursor → Cursor → Option TokenKind → Result (Token × Cursor)
read_punctuation c s after (some k) = ok (token k (c ∷ []) 0 s, after)
read_punctuation c s after none = thrown runtime_error

abbrev pub read_operator :
    ℕ → Cursor → Cursor → Option (TokenKind × Cursor) → Result (Token × Cursor)
read_operator c s after (some (k, end)) = ok (token k (operator_text k) 0 s, end)
read_operator c s after none = read_punctuation c s after (punctuation c)

-- Lexer::next from the first byte `c` of a token on.
unfoldable pub read_token : ℕ → Cursor → Result (Token × Cursor)
unfolding read_ident_or_keyword read_number read_string read_char operator punctuation get
read_token c s =
    if is_ident_start c
    then ok (read_ident_or_keyword s)
    else if is_digit c
    then ok (read_number s)
    else if c == b'"'
    then ok (read_string s)
    else if c == b'\''
    then ok (read_char s)
    else read_operator c s (get s) (operator c (get s))
