-- ===== src/Hvmc/Parser/Monad.antt =====
-- The state and the primitive operations of the class Parser of src/tools/hvmc/src/parser.cpp.
use hvmsys.Base.{Bool, true, false, if◌then◌else◌, List, [], ◌∷◌, Option, none, some, ◌==◌}
use hvmsys.Base.Text.{Bytes}
use hvmsys.Except.{Exception, Result, ok, thrown, undefined, runtime_error}
use hvmsys.Hvmc.Token.{TokenKind, Token, is_kind}
use hvmsys.Hvmc.Lexer.{Lexer, next, peek}

-- A run ends in a result, or `starved` where it was given too little fuel, which the code has no like of.
pub data Outcome {ℓ} (A : Type ℓ) : Type ℓ where
  done : A → Lexer → Outcome A
  fails : Exception → Outcome A
  invalid starved : Outcome A

-- A method of Parser, whose state is its lexer.
abbrev pub Parse {ℓ} : Type ℓ → Type ℓ
Parse A = Lexer → Outcome A

abbrev pub and_then {ℓ κ} : {A : Type ℓ} {B : Type κ} → Outcome A → (A → Parse B) → Outcome B
and_then (done a l) next_parse = next_parse a l
and_then (fails e) next_parse = fails e
and_then invalid next_parse = invalid
and_then starved next_parse = starved

infixl 5 ◌>>=◌
unfoldable pub ◌>>=◌ {ℓ κ} : {A : Type ℓ} {B : Type κ} → Parse A → (A → Parse B) → Parse B
m >>= next_parse = λ l. and_then (m l) next_parse

unfoldable pub return {ℓ} : {A : Type ℓ} → A → Parse A
return a = λ l. done a l

unfoldable pub throw_error {ℓ} : {A : Type ℓ} → Parse A
throw_error = λ l. fails runtime_error

unfoldable pub out_of_fuel {ℓ} : {A : Type ℓ} → Parse A
out_of_fuel = λ l. starved

-- The outcome of an operation of the lexer.
abbrev pub outcome {ℓ} : {A : Type ℓ} → Result (A × Lexer) → Outcome A
outcome (ok (a, l)) = done a l
outcome (thrown e) = fails e
outcome undefined = invalid

unfoldable pub parser_peek : Parse Token
parser_peek = λ l. outcome (peek l)

unfoldable pub parser_next : Parse Token
parser_next = λ l. outcome (next l)

unfoldable pub choose {ℓ} : {A : Type ℓ} → Bool → Parse A → Parse A → Parse A
choose true x y = x
choose false x y = y

-- `peek().kind`.
unfoldable pub peek_kind : Parse TokenKind
peek_kind = do t ← parser_peek; return t.kind

-- The messages are left out.
unfoldable pub parser_expect : TokenKind → Parse Token
parser_expect k = do t ← parser_next; choose (is_kind t.kind k) (return t) throw_error

unfoldable pub consumed : Token → Parse Bool
consumed t = return true

unfoldable pub parser_match : TokenKind → Parse Bool
parser_match k = do
  found ← peek_kind
  choose (is_kind found k) (parser_next >>= consumed) (return false)

-- `if (match(k1)) … else if (match(k2)) … else`.
unfoldable pub match_any : List TokenKind → Parse (Option TokenKind)
match_any [] = return none
match_any (k ∷ ks) = do matched ← parser_match k; choose matched (return (some k)) (match_any ks)

-- `str_dup`, which copies up to the first zero byte.
unfoldable pub str_dup : Bytes → Bytes
str_dup [] = []
str_dup (c ∷ cs) = let copied = str_dup cs in if c == 0 then [] else c ∷ copied
