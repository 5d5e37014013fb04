-- ===== src/Hvmc/Lexer/Tokens.antt =====
-- Every token but the end takes at least one byte, and the fuel of the loops is enough.
use hvmsys.Base.{
  ℕ, ◌+◌, ◌-◌, ◌≤◌, ◌<◌, ◌≡◌, ◌≢◌, refl, arith, Bool, true, false, if◌then◌else◌, ◌==◌, List, [],
  ◌∷◌, length, Option, none, some,
}
use hvmsys.Base.Text.{Bytes, is_digit, is_xdigit}
use hvmsys.Except.{Result, ok, thrown, undefined, runtime_error}
use hvmsys.Hvmc.Token.{
  TokenKind, Token, eqeq, eq, neq, exclam, lt, le, lshift, lshift_eq, gt, ge, rshift, rshift_eq,
  andand, amper_eq, amper, oror, pipe_eq, pipe, plusplus, plus_eq, plus, minusminus, minus_eq,
  arrow, minus, star_eq, star, slash_eq, slash, percent_eq, percent, caret_eq, caret,
}
use hvmsys.Hvmc.Lexer.Scan.{
  Cursor, peek_char, get, next_line, next_col, read_while, skip_whitespace_and_comments,
}
use hvmsys.Hvmc.Lexer.Read.{
  is_ident_start, is_ident_char, asm_body, read_asm, read_ident_or_keyword, read_number,
  string_body, read_string, char_body, read_char, follow, angle, operator, punctuation,
  read_punctuation, read_operator, read_token,
}
use hvmsys.Hvmc.Lexer.Progress.{left, get-left, get-shorter, read_while-left, skip_loop-ends}

pub skip-left : (s : Cursor) → left (skip_whitespace_and_comments s) ≤ left s
unfolding skip_whitespace_and_comments
skip-left s = (skip_loop-ends (left s) s (omega arith)).1

asm_body-left : (d : ℕ) (r : Bytes) (l k : ℕ) → left (asm_body d r l k).1 ≤ length r
unfolding asm_body
asm_body-left d [] l k = omega arith
asm_body-left d (c ∷ cs) l k =
    let deeper : ℕ = if c == b'{' then d + 1 else if c == b'}' then d - 1 else d in
    ground (arith, asm_body-left deeper cs (next_line c l) (next_col c k))

read_while-shorter :
    (p : ℕ → Bool) (r : Bytes) (l k : ℕ)
    → peek_char r ≢ 0
    → p (peek_char r) ≡ true
    → left (read_while p r l k).1 < length r
unfolding read_while peek_char
read_while-shorter p [] l k there e = absurd (there refl)
read_while-shorter p (c ∷ cs) l k there e =
    ground (arith, e, read_while-left p cs (next_line c l) (next_col c k))

read_asm-left :
    (s : Cursor) (word : Bytes) (after : Cursor) → left (read_asm s word after).1 ≤ left after
unfolding read_asm
read_asm-left s word after =
    let opened : Cursor = get after in
    ground (arith, get-left after, asm_body-left 0 opened.rest opened.line opened.col)

ident-shorter :
    (s : Cursor)
    → peek_char s.rest ≢ 0
    → is_ident_char (peek_char s.rest) ≡ true
    → left (read_ident_or_keyword s).1 < left s
unfolding read_ident_or_keyword
ident-shorter s there e =
    let word = read_while is_ident_char s.rest s.line s.col in
    ground (
      arith,
      read_while-shorter is_ident_char s.rest s.line s.col there e,
      skip-left word.1,
      read_asm-left s word.0 (skip_whitespace_and_comments word.1),
    )

number-shorter :
    (s : Cursor)
    → peek_char s.rest ≢ 0
    → is_digit (peek_char s.rest) ≡ true
    → left (read_number s).1 < left s
unfolding read_number
number-shorter s there e =
    let second : Cursor = get s in
    let third : Cursor = get second in
    ground (
      arith,
      get-shorter s there,
      get-left second,
      read_while-left is_xdigit third.rest third.line third.col,
      read_while-shorter is_digit s.rest s.line s.col there e,
    )

string_body-left : (r : Bytes) (l k : ℕ) → left (string_body r l k).1 ≤ length r
unfolding string_body
string_body-left [] l k = omega arith
string_body-left (c ∷ []) l k = ground arith
string_body-left (c ∷ d ∷ cs) l k = ground (
  arith,
  string_body-left cs l (k + 1 + 1),
  string_body-left (d ∷ cs) (next_line c l) (next_col c k),
)

string-shorter : (s : Cursor) → peek_char s.rest ≢ 0 → left (read_string s).1 < left s
unfolding read_string
string-shorter s there =
    let opened : Cursor = get s in
    let body : Bytes × Cursor = string_body opened.rest opened.line opened.col in
    omega (
      arith,
      get-shorter s there,
      string_body-left opened.rest opened.line opened.col,
      get-left body.1,
    )

char_body-left : (s : Cursor) → left (char_body s).1 ≤ left s
unfolding char_body
char_body-left s = ground (arith, get-left s, get-left (get s))

char-shorter : (s : Cursor) → peek_char s.rest ≢ 0 → left (read_char s).1 < left s
unfolding read_char
char-shorter s there =
    let body : ℕ × Cursor = char_body (get s) in
    ground (arith, get-shorter s there, char_body-left (get s), get-left body.1)

follow-left :
    (s : Cursor) (table : List (ℕ × TokenKind)) (own : TokenKind)
    → left (follow s table own).1 ≤ left s
unfolding follow
follow-left s [] own = omega arith
follow-left s ((c, k) ∷ table) own = ground (arith, get-left s, follow-left s table own)

angle-left :
    (s : Cursor) (c : ℕ) (k1 k2 k3 k4 : TokenKind) → left (angle s c k1 k2 k3 k4).1 ≤ left s
unfolding angle
angle-left s c k1 k2 k3 k4 = ground (arith, get-left s, follow-left (get s) ((b'=', k4) ∷ []) k3)

-- The cursor of an operator that was found.
abbrev Within : ℕ → Option (TokenKind × Cursor) → Type 0
Within n none = Unit {0}
Within n (some found) = left found.1 ≤ n

if-Within :
    (n : ℕ) (b : Bool) (x y : Option (TokenKind × Cursor))
    → Within n x
    → Within n y
    → Within n (if b then x else y)
if-Within n true x y hx hy = hx
if-Within n false x y hx hy = hy

operator-Within : (c : ℕ) (s : Cursor) → Within (left s) (operator c s)
unfolding operator
operator-Within c s =
    let n : ℕ = left s in
    if-Within n (c == b'=') _ _ (follow-left s ((b'=', eqeq) ∷ []) eq) (
      if-Within n (c == b'!') _ _ (follow-left s ((b'=', neq) ∷ []) exclam) (
        if-Within n (c == b'<') _ _ (angle-left s b'<' lt le lshift lshift_eq) (
          if-Within n (c == b'>') _ _ (angle-left s b'>' gt ge rshift rshift_eq) (
            if-Within n (c == b'&') _ _
              (follow-left s ((b'&', andand) ∷ (b'=', amper_eq) ∷ []) amper)
              (if-Within n (c == b'|') _ _
                (follow-left s ((b'|', oror) ∷ (b'=', pipe_eq) ∷ []) pipe)
                (if-Within n (c == b'+') _ _
                  (follow-left s ((b'+', plusplus) ∷ (b'=', plus_eq) ∷ []) plus)
                  (if-Within n (c == b'-') _ _
                    (follow-left s ((b'-', minusminus) ∷ (b'=', minus_eq) ∷ (b'>', arrow) ∷ [])
                      minus)
                    (if-Within n (c == b'*') _ _ (follow-left s ((b'=', star_eq) ∷ []) star) (
                      if-Within n (c == b'/') _ _ (follow-left s ((b'=', slash_eq) ∷ []) slash) (
                        if-Within n (c == b'%') _ _
                          (follow-left s ((b'=', percent_eq) ∷ []) percent)
                          (if-Within n (c == b'^') _ _ (follow-left s ((b'=', caret_eq) ∷ []) caret)
                            (tt))))))))))))

-- A token that took at least one of `n` bytes, or the error for a byte that starts none.
abbrev pub Takes : ℕ → Result (Token × Cursor) → Type 0
Takes n (ok found) = left found.1 < n
Takes n (thrown e) = e ≡ runtime_error
Takes n undefined = ⊥

if-Takes :
    (n : ℕ) (b : Bool) (x y : Result (Token × Cursor))
    → (b ≡ true → Takes n x)
    → (b ≡ false → Takes n y)
    → Takes n (if b then x else y)
if-Takes n true x y hx hy = hx refl
if-Takes n false x y hx hy = hy refl

read_punctuation-Takes :
    (n c : ℕ) (s after : Cursor) (k : Option TokenKind)
    → left after < n
    → Takes n (read_punctuation c s after k)
read_punctuation-Takes n c s after (some k) less = less
read_punctuation-Takes n c s after none less = refl

read_operator-Takes :
    (n c : ℕ) (s after : Cursor) (found : Option (TokenKind × Cursor))
    → left after < n
    → Within (left after) found
    → Takes n (read_operator c s after found)
read_operator-Takes n c s after (some (k, end)) less within = omega arith
read_operator-Takes n c s after none less within =
    read_punctuation-Takes n c s after (punctuation c) less

ident_start_char : (c : ℕ) → is_ident_start c ≡ true → is_ident_char c ≡ true
ident_start_char c e = ground (arith, e)

pub read_token-Takes :
    (s : Cursor) → peek_char s.rest ≢ 0 → Takes (left s) (read_token (peek_char s.rest) s)
unfolding read_token
read_token-Takes s there =
    let c : ℕ = peek_char s.rest in
    let n : ℕ = left s in
    if-Takes n (is_ident_start c) _ _ (λ e. ident-shorter s there (ident_start_char c e))
      (λ _.
        if-Takes n (is_digit c) _ _ (λ e. number-shorter s there e)
          (λ _.
            if-Takes n (c == b'"') _ _ (λ _. string-shorter s there)
              (λ _.
                if-Takes n (c == b'\'') _ _ (λ _. char-shorter s there)
                  (λ _.
                    read_operator-Takes n c s (get s) (operator c (get s)) (get-shorter s there)
                      (operator-Within c (get s))))))
