-- ===== src/Hvmc/Parser/Reads.antt =====
-- What reading a token and peeking at one leave to read.
use hvmsys.Base.{
  ℕ, ◌+◌, ◌≤◌, ◌≡◌, refl, arith, true, false, if◌then◌else◌, inl, inr, Option, none, some,
}
use mathlib.Core.Path.{subst}
use hvmsys.Except
use hvmsys.Except.{Exception, Result, ok, thrown, undefined, runtime_error}
use hvmsys.Hvmc.Token.{TokenKind, Token, is_kind, end_of_input}
use hvmsys.Hvmc.Lexer.Scan.{Cursor}
use hvmsys.Hvmc.Lexer.Progress.{left}
use hvmsys.Hvmc.Lexer.Ends.{Advances, next_token-Advances}
use hvmsys.Hvmc.Lexer.{Lexer, unread, next, next_from, next_token, peek, peek_from}
use hvmsys.Hvmc.Parser.Monad.{
  Outcome, done, fails, invalid, starved, outcome, parser_peek, parser_next,
}

-- 1 for a token that took a byte.
abbrev pub weight : Token → ℕ
weight t = if is_kind t.kind end_of_input then 0 else 1

abbrev pub pending : Option Token → ℕ
pending none = 0
pending (some t) = weight t

-- What is left to read.
abbrev pub size : Lexer → ℕ
size l = pending l.peeked + left l.cursor

abbrev pub NotEnd : TokenKind → Type 0
NotEnd k = is_kind k end_of_input ≡ false

pub same-NotEnd : (k K : TokenKind) → NotEnd K → is_kind k K ≡ true → NotEnd k
same-NotEnd k K h e = ground (arith, h, e)

pub weight_lem : (t : Token) → NotEnd t.kind → weight t ≡ 1
weight_lem t h = rw h refl

-- Reading a token leaves room for its weight.
abbrev pub Drops : ℕ → Outcome Token → Type 0
Drops s (done t l) = size l + weight t ≤ s
Drops s (fails e) = e ≡ runtime_error
Drops s invalid = ⊥
Drops s starved = ⊥

weight-Advances : (n : ℕ) (t : Token) (s : Cursor) → Advances n (ok (t, s)) → left s + weight t ≤ n
weight-Advances n t s (inl (e, z, h)) = rw e (omega arith)
weight-Advances n t s (inr (real, h)) = ground arith

-- The lexer's operations on what next_token gave.
read_from :
    (n : ℕ) (r : Result (Token × Cursor))
    → Advances n r
    → Drops n (outcome (Except.◌>>=◌ r (λ u. ok (unread u))))
read_from n (ok (t, s)) a = omega (arith, weight-Advances n t s a)
read_from n (thrown e) a = a
read_from n undefined a = a

next-Drops : (p : Option Token) (s : Cursor) → Drops (pending p + left s) (outcome (next_from p s))
next-Drops none s = read_from (0 + left s) (next_token s) (advances s)
  where
    advances : (s : Cursor) → Advances (0 + left s) (next_token s)
    advances s = subst (λ (n : ℕ). Advances n (next_token s)) (omega arith) (next_token-Advances s)
next-Drops (some t) s = omega arith

pub parser_next-Drops : (l : Lexer) → Drops (size l) (parser_next l)
unfolding parser_next next
parser_next-Drops l = next-Drops l.peeked l.cursor

-- A peek keeps what is left to read, and the token is the one peeked at.
abbrev pub Peeks : ℕ → Outcome Token → Type 0
Peeks s (done t l) = (l.peeked ≡ some t) × (size l ≤ s)
Peeks s (fails e) = e ≡ runtime_error
Peeks s invalid = ⊥
Peeks s starved = ⊥

peek_at :
    (n : ℕ) (r : Result (Token × Cursor))
    → Advances n r
    → Peeks n (outcome (Except.◌>>=◌ r (λ u. ok (u.0, record { cursor = u.1; peeked = some u.0 }))))
peek_at n (ok (t, s)) a = (refl, omega (arith, weight-Advances n t s a))
peek_at n (thrown e) a = a
peek_at n undefined a = a

peek-Peeks : (p : Option Token) (s : Cursor) → Peeks (pending p + left s) (outcome (peek_from p s))
peek-Peeks none s = peek_at (0 + left s) (next_token s) (advances s)
  where
    advances : (s : Cursor) → Advances (0 + left s) (next_token s)
    advances s = subst (λ (n : ℕ). Advances n (next_token s)) (omega arith) (next_token-Advances s)
peek-Peeks (some t) s = (refl, omega arith)

pub parser_peek-Peeks : (l : Lexer) → Peeks (size l) (parser_peek l)
unfolding parser_peek peek
parser_peek-Peeks l = peek-Peeks l.peeked l.cursor
