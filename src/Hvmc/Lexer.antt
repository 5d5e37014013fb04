-- ===== src/Hvmc/Lexer.antt =====
-- The class Lexer of src/tools/hvmc/src/lexer.cpp.
pub mod Words
pub mod Scan
pub mod Read
pub mod Progress
pub mod Tokens
pub mod Kinds
pub mod Ends
pub mod Spelling
pub mod Quoting
pub mod Peeking
use hvmsys.Base.{
  ℕ, zero, suc, Bool, true, false, if◌then◌else◌, ◌==◌, [], length, Option, none, some,
}
use hvmsys.Base.Text.{Bytes}
use hvmsys.Except.{Result, ok, thrown, runtime_error, ◌>>=◌}
use hvmsys.Hvmc.Token.{TokenKind, Token, is_kind, end_of_input}
use hvmsys.Hvmc.Lexer.Scan.{Cursor, at, peek_char, get, skip_whitespace_and_comments, token}
use hvmsys.Hvmc.Lexer.Read.{read_token}

-- `peeked` is peeked_, where has_peeked_ is set.
pub record Lexer : Type 0 where
  pub cursor : Cursor
  pub peeked : Option Token

unfoldable pub new : Bytes → Lexer
new source = record { cursor = at source 1 1; peeked = none }

-- Lexer::next behind the white space; `again` is the call for the next line.
unfoldable pub next_at : (Cursor → Result (Token × Cursor)) → Cursor → Result (Token × Cursor)
unfolding peek_char get read_token
next_at again s =
    if peek_char s.rest == 0
    then ok (token end_of_input [] 0 s, s)
    else if peek_char s.rest == b'\n'
    then again (get s)
    else read_token (peek_char s.rest) s

unfoldable pub next_loop : ℕ → Cursor → Result (Token × Cursor)
unfolding next_at skip_whitespace_and_comments
next_loop zero s = ok (token end_of_input [] 0 s, s)
next_loop (suc fuel) s = next_at (next_loop fuel) (skip_whitespace_and_comments s)

-- Each line break costs a byte, so the number of bytes is fuel enough.
unfoldable pub next_token : Cursor → Result (Token × Cursor)
unfolding next_loop
next_token s = next_loop (suc (length s.rest)) s

-- A lexer with nothing peeked.
abbrev pub unread : Token × Cursor → Token × Lexer
unread (t, s) = (t, record { cursor = s; peeked = none })

abbrev pub next_from : Option Token → Cursor → Result (Token × Lexer)
next_from (some t) s = ok (unread (t, s))
next_from none s = next_token s >>= λ r. ok (unread r)

unfoldable pub next : Lexer → Result (Token × Lexer)
unfolding next_token
next l = next_from l.peeked l.cursor

abbrev pub peek_from : Option Token → Cursor → Result (Token × Lexer)
peek_from (some t) s = ok (t, record { cursor = s; peeked = some t })
peek_from none s = next_token s >>= λ r. ok (r.0, record { cursor = r.1; peeked = some r.0 })

unfoldable pub peek : Lexer → Result (Token × Lexer)
unfolding next_token
peek l = peek_from l.peeked l.cursor

unfoldable pub expect : Lexer → TokenKind → Result (Token × Lexer)
unfolding next
expect l k = do (t, l1) ← next l; if is_kind t.kind k then ok (t, l1) else thrown runtime_error

abbrev pub take_if : Bool → Lexer → Result (Bool × Lexer)
take_if true l = next l >>= λ r. ok (true, r.1)
take_if false l = ok (false, l)

-- `match(kind)`.
unfoldable pub matches : Lexer → TokenKind → Result (Bool × Lexer)
unfolding next peek
matches l k = do (t, l1) ← peek l; take_if (is_kind t.kind k) l1
