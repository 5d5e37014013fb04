-- ===== src/Hvmc/Lexer/Scan.antt =====
-- The position in the source, and the white space and comments between tokens, of
-- src/tools/hvmc/src/lexer.cpp.
use hvmsys.Base.{
  ℕ, zero, suc, ◌+◌, Bool, true, false, ◌&&◌, ◌||◌, not, if◌then◌else◌, ◌==◌, [], ◌∷◌, length,
}
use hvmsys.Base.Text.{Bytes}
use hvmsys.Hvmc.Token.{TokenKind, Token}

-- `rest` is the source from pos_ on; `line` and `col` are line_ and col_, which stay below 2 ^ 31.
pub record Cursor : Type 0 where
  pub rest : Bytes
  pub line : ℕ
  pub col : ℕ

abbrev pub at : Bytes → ℕ → ℕ → Cursor
at r l k = record { rest = r; line = l; col = k }

-- `peek_char()`: the byte at pos_, or 0 at the end.
unfoldable pub peek_char : Bytes → ℕ
peek_char [] = 0
peek_char (c ∷ cs) = c

-- What `get` makes of line_ and of col_ when it reads `c`.
abbrev pub next_line : ℕ → ℕ → ℕ
next_line c l = if c == b'\n' then l + 1 else l

abbrev pub next_col : ℕ → ℕ → ℕ
next_col c k = if c == b'\n' then 1 else k + 1

abbrev pub get_from : Bytes → ℕ → ℕ → Cursor
get_from [] l k = at [] l k
get_from (c ∷ cs) l k = at cs (next_line c l) (next_col c k)

-- `get()` without its result, which is `peek_char`.
unfoldable pub get : Cursor → Cursor
get s = get_from s.rest s.line s.col

-- `while (pos_ < src_.size() && p(src_[pos_])) text += get();`
unfoldable pub read_while : (ℕ → Bool) → Bytes → ℕ → ℕ → Bytes × Cursor
read_while p [] l k = ([], at [] l k)
read_while p (c ∷ cs) l k =
    let more = read_while p cs (next_line c l) (next_col c k) in
    if p c then (c ∷ more.0, more.1) else ([], at (c ∷ cs) l k)

-- What skip_whitespace_and_comments finds at pos_.
pub data Gap : Type 0 where
  blank line_comment block_comment no_gap : Gap

abbrev pub comment_after : Bytes → Gap
comment_after [] = no_gap
comment_after (d ∷ cs) =
    if d == b'/' then line_comment else if d == b'*' then block_comment else no_gap

unfoldable pub gap : Bytes → Gap
gap [] = no_gap
gap (c ∷ cs) =
    if (c == b' ' || c == b'\t') || c == b'\r'
    then blank
    else if c == b'/'
    then comment_after cs
    else no_gap

abbrev pub not_newline : ℕ → Bool
not_newline c = not (c == b'\n')

-- The loop to the end of a line comment.
unfoldable pub to_line_end : Cursor → Cursor
unfolding read_while
to_line_end s = (read_while not_newline s.rest s.line s.col).1

-- The loop to the closing mark of a comment, which stops before the last byte if there is none.
unfoldable pub to_close : Bytes → ℕ → ℕ → Cursor
to_close [] l k = at [] l k
to_close (c ∷ []) l k = at (c ∷ []) l k
to_close (c ∷ d ∷ cs) l k =
    let further = to_close (d ∷ cs) (next_line c l) (next_col c k) in
    if c == b'*' && d == b'/' then at (c ∷ d ∷ cs) l k else further

-- `pos_ + 1 < src_.size()`.
abbrev pub two_left : Bytes → Bool
two_left [] = false
two_left (c ∷ []) = false
two_left (c ∷ d ∷ cs) = true

unfoldable pub past_block : Cursor → Cursor
unfolding get to_close
past_block s =
    let inside = get (get s) in
    let closing = to_close inside.rest inside.line inside.col in
    if two_left closing.rest then get (get closing) else closing

-- A round of skip_whitespace_and_comments, `again` being the loop.
unfoldable pub skip_gap : (Cursor → Cursor) → Gap → Cursor → Cursor
unfolding get to_line_end past_block
skip_gap again blank s = again (get s)
skip_gap again line_comment s = again (to_line_end s)
skip_gap again block_comment s = again (past_block s)
skip_gap again no_gap s = s

unfoldable pub skip_loop : ℕ → Cursor → Cursor
unfolding skip_gap gap
skip_loop zero s = s
skip_loop (suc fuel) s = skip_gap (skip_loop fuel) (gap s.rest) s

-- Every round reads a byte.
unfoldable pub skip_whitespace_and_comments : Cursor → Cursor
unfolding skip_loop
skip_whitespace_and_comments s = skip_loop (length s.rest) s

-- A token at the place where its first byte stands.
abbrev pub token : TokenKind → Bytes → ℕ → Cursor → Token
token k t v s = record { kind = k; text = t; intval = v; line = s.line; col = s.col }
