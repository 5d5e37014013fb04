-- ===== src/Hvmc/Lexer/Kinds.antt =====
-- Only the end of the source is a token END_OF_FILE: no read_* function of src/tools/hvmc/src/lexer.cpp
-- makes one.
use hvmsys.Base.{
  ℕ, ◌≡◌, refl, arith, Bool, true, false, if◌then◌else◌, ◌==◌, List, [], ◌∷◌, Option, none, some,
}
use hvmsys.Base.Text.{Bytes, text, same_text, is_digit}
use hvmsys.Except.{Result, ok, thrown, undefined}
use hvmsys.Hvmc.Token.{
  TokenKind, Token, is_kind, end_of_input, eqeq, eq, neq, exclam, lt, le, lshift, lshift_eq, gt, ge,
  rshift, rshift_eq, andand, amper_eq, amper, oror, pipe_eq, pipe, plusplus, plus_eq, plus,
  minusminus, minus_eq, arrow, minus, star_eq, star, slash_eq, slash, percent_eq, percent, caret_eq,
  caret,
}
use hvmsys.Hvmc.Lexer.Words.{keywords, find_word, word_kind}
use hvmsys.Hvmc.Lexer.Scan.{Cursor, peek_char, get, skip_whitespace_and_comments, read_while}
use hvmsys.Hvmc.Lexer.Read.{
  is_ident_start, is_ident_char, read_asm, read_ident_or_keyword, read_number, is_hex, read_string,
  read_char, follow, angle, operator, punctuation, read_punctuation, read_operator, read_token,
}

-- Not the end of the source.
abbrev pub IsReal : TokenKind → Type 0
IsReal k = is_kind k end_of_input ≡ false

choice {ℓ} : {A : Type 0} (P : A → Type ℓ) (b : Bool) (x y : A) → P x → P y → P (if b then x else y)
choice P true x y p q = p
choice P false x y p q = q

abbrev AllReal {ℓ} : {A : Type ℓ} → List (A × TokenKind) → Type 0
AllReal [] = Unit {0}
AllReal ((a, k) ∷ table) = IsReal k × AllReal table

find_word-IsReal :
    (table : List (Bytes × TokenKind)) (word : Bytes)
    → AllReal table
    → IsReal (find_word table word)
unfolding find_word
find_word-IsReal [] word h = refl
find_word-IsReal ((w, k) ∷ table) word (h, more) =
    choice IsReal (same_text word w) k (find_word table word) h (find_word-IsReal table word more)

abbrev all_real {ℓ} : {A : Type ℓ} → List (A × TokenKind) → Bool
all_real [] = true
all_real ((a, k) ∷ table) =
    let rest = all_real table in if is_kind k end_of_input then false else rest

all_real-AllReal {ℓ} :
    {A : Type ℓ} (table : List (A × TokenKind)) → all_real table ≡ true → AllReal table
all_real-AllReal [] e = tt
all_real-AllReal ((a, k) ∷ table) e =
    let real : (is_kind k end_of_input ≡ false) × (all_real table ≡ true) = ground (arith, e) in
    (real.0, all_real-AllReal table real.1)

keywords-AllReal : AllReal keywords
unfolding keywords
keywords-AllReal = all_real-AllReal keywords refl

word_kind-IsReal : (word : Bytes) → IsReal (word_kind word)
unfolding word_kind
word_kind-IsReal word = find_word-IsReal keywords word keywords-AllReal

abbrev StartsReal : Token × Cursor → Type 0
StartsReal found = IsReal found.0.kind

read_asm-IsReal : (s : Cursor) (word : Bytes) (after : Cursor) → StartsReal (read_asm s word after)
unfolding read_asm
read_asm-IsReal s word after =
    choice StartsReal (peek_char after.rest == b'{') _ _ refl (word_kind-IsReal word)

ident-IsReal : (s : Cursor) → StartsReal (read_ident_or_keyword s)
unfolding read_ident_or_keyword
ident-IsReal s =
    let word : Bytes × Cursor = read_while is_ident_char s.rest s.line s.col in
    choice StartsReal (same_text word.0 (text "asm")) _ _
      (read_asm-IsReal s word.0 (skip_whitespace_and_comments word.1)) (word_kind-IsReal word.0)

number-IsReal : (s : Cursor) → StartsReal (read_number s)
unfolding read_number
number-IsReal s = choice StartsReal (is_hex s.rest) _ _ refl refl

abbrev FoundReal : TokenKind × Cursor → Type 0
FoundReal found = IsReal found.0

follow-IsReal :
    (s : Cursor) (table : List (ℕ × TokenKind)) (own : TokenKind)
    → AllReal table
    → IsReal own
    → FoundReal (follow s table own)
unfolding follow
follow-IsReal s [] own h o = o
follow-IsReal s ((c, k) ∷ table) own (h, more) o =
    choice FoundReal (peek_char s.rest == c) (k, get s) (follow s table own) h
      (follow-IsReal s table own more o)

angle-IsReal :
    (s : Cursor) (c : ℕ) (k1 k2 k3 k4 : TokenKind)
    → IsReal k1
    → IsReal k2
    → IsReal k3
    → IsReal k4
    → FoundReal (angle s c k1 k2 k3 k4)
unfolding angle
angle-IsReal s c k1 k2 k3 k4 h1 h2 h3 h4 =
    choice FoundReal (peek_char s.rest == b'=') (k2, get s) _ h2
      (choice FoundReal (peek_char s.rest == c) (follow (get s) ((b'=', k4) ∷ []) k3) (k1, s)
        (follow-IsReal (get s) ((b'=', k4) ∷ []) k3 (h4, tt) h3) h1)

abbrev OptionReal : Option (TokenKind × Cursor) → Type 0
OptionReal none = Unit {0}
OptionReal (some found) = FoundReal found

operator-OptionReal : (c : ℕ) (s : Cursor) → OptionReal (operator c s)
unfolding operator
operator-OptionReal c s =
    choice OptionReal (c == b'=') _ _ (follow-IsReal s ((b'=', eqeq) ∷ []) eq (refl, tt) refl) (
      choice OptionReal (c == b'!') _ _ (follow-IsReal s ((b'=', neq) ∷ []) exclam (refl, tt) refl)
        (choice OptionReal (c == b'<') _ _
          (angle-IsReal s b'<' lt le lshift lshift_eq refl refl refl refl)
          (choice OptionReal (c == b'>') _ _
            (angle-IsReal s b'>' gt ge rshift rshift_eq refl refl refl refl)
            (choice OptionReal (c == b'&') _ _
              (follow-IsReal s ((b'&', andand) ∷ (b'=', amper_eq) ∷ []) amper (refl, (refl, tt))
                refl)
              (choice OptionReal (c == b'|') _ _
                (follow-IsReal s ((b'|', oror) ∷ (b'=', pipe_eq) ∷ []) pipe (refl, (refl, tt)) refl)
                (choice OptionReal (c == b'+') _ _
                  (follow-IsReal s ((b'+', plusplus) ∷ (b'=', plus_eq) ∷ []) plus (refl, (refl, tt))
                    refl)
                  (choice OptionReal (c == b'-') _ _
                    (follow-IsReal s ((b'-', minusminus) ∷ (b'=', minus_eq) ∷ (b'>', arrow) ∷ [])
                      minus (refl, (refl, (refl, tt))) refl)
                    (choice OptionReal (c == b'*') _ _
                      (follow-IsReal s ((b'=', star_eq) ∷ []) star (refl, tt) refl)
                      (choice OptionReal (c == b'/') _ _
                        (follow-IsReal s ((b'=', slash_eq) ∷ []) slash (refl, tt) refl)
                        (choice OptionReal (c == b'%') _ _
                          (follow-IsReal s ((b'=', percent_eq) ∷ []) percent (refl, tt) refl)
                          (choice OptionReal (c == b'^') _ _
                            (follow-IsReal s ((b'=', caret_eq) ∷ []) caret (refl, tt) refl)
                            (tt))))))))))))

abbrev KindReal : Option TokenKind → Type 0
KindReal none = Unit {0}
KindReal (some k) = IsReal k

punctuation-KindReal : (c : ℕ) → KindReal (punctuation c)
unfolding punctuation
punctuation-KindReal c = choice KindReal (c == b'(') _ _ refl (
    choice KindReal (c == b')') _ _ refl (
      choice KindReal (c == b'{') _ _ refl (
        choice KindReal (c == b'}') _ _ refl (
          choice KindReal (c == b'[') _ _ refl (
            choice KindReal (c == b']') _ _ refl (
              choice KindReal (c == b';') _ _ refl (
                choice KindReal (c == b',') _ _ refl (
                  choice KindReal (c == b'.') _ _ refl (
                    choice KindReal (c == b'~') _ _ refl (
                      choice KindReal (c == b'?') _ _ refl
                        (choice KindReal (c == b':') _ _ refl (tt))))))))))))

-- A token that is not the end, where there is one.
abbrev pub ResultReal : Result (Token × Cursor) → Type 0
ResultReal (ok found) = StartsReal found
ResultReal (thrown e) = Unit {0}
ResultReal undefined = Unit {0}

read_punctuation-ResultReal :
    (c : ℕ) (s after : Cursor) (k : Option TokenKind)
    → KindReal k
    → ResultReal (read_punctuation c s after k)
read_punctuation-ResultReal c s after (some k) h = h
read_punctuation-ResultReal c s after none h = tt

read_operator-ResultReal :
    (c : ℕ) (s after : Cursor) (found : Option (TokenKind × Cursor))
    → OptionReal found
    → ResultReal (read_operator c s after found)
read_operator-ResultReal c s after (some (k, end)) h = h
read_operator-ResultReal c s after none h =
    read_punctuation-ResultReal c s after (punctuation c) (punctuation-KindReal c)

string-IsReal : (s : Cursor) → StartsReal (read_string s)
unfolding read_string
string-IsReal s = refl

char-IsReal : (s : Cursor) → StartsReal (read_char s)
unfolding read_char
char-IsReal s = refl

pub read_token-ResultReal : (c : ℕ) (s : Cursor) → ResultReal (read_token c s)
unfolding read_token
read_token-ResultReal c s = choice ResultReal (is_ident_start c) _ _ (ident-IsReal s) (
    choice ResultReal (is_digit c) _ _ (number-IsReal s) (
      choice ResultReal (c == b'"') _ _ (string-IsReal s) (
        choice ResultReal (c == b'\'') _ _ (char-IsReal s) (
          read_operator-ResultReal c s (get s) (operator c (get s))
            (operator-OptionReal c (get s))))))
