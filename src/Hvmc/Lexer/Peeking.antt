-- ===== src/Hvmc/Lexer/Peeking.antt =====
-- Looking at a token does not change what is read.
use hvmsys.Base.{◌≡◌, refl, Option, some, none}
use mathlib.Core.Path.{subst}
use hvmsys.Except
use hvmsys.Except.{Result, ok, thrown, undefined, ok-injective}
use hvmsys.Hvmc.Token.{Token}
use hvmsys.Hvmc.Lexer.Scan.{Cursor}
use hvmsys.Hvmc.Lexer.{Lexer, unread, next, next_from, next_token, peek, peek_from}

-- What a peek leaves, by what it gave.
abbrev Leaves : Result (Token × Lexer) → Result (Token × Lexer) → Type 0
Leaves after peeked =
    (t : Token) (l : Lexer)
    → peeked ≡ ok (t, l)
    → (next_from l.peeked l.cursor ≡ after) × (peek_from l.peeked l.cursor ≡ ok (t, l))

-- What holds of a pair holds of an equal result.
Leaves-ok :
    (t : Token) (l : Lexer) (after : Result (Token × Lexer))
    → next_from l.peeked l.cursor ≡ after
    → peek_from l.peeked l.cursor ≡ ok (t, l)
    → Leaves after (ok (t, l))
Leaves-ok t l after h k u m e =
    subst
      (λ (p : Token × Lexer).
        (next_from p.1.peeked p.1.cursor ≡ after) × (peek_from p.1.peeked p.1.cursor ≡ ok p))
      (ok-injective e) (h, k)

read_ahead :
    (r : Result (Token × Cursor))
    → Leaves
        (Except.◌>>=◌ r (λ u. ok (unread u)))
        (Except.◌>>=◌ r (λ u. ok (u.0, record { cursor = u.1; peeked = some u.0 })))
read_ahead (ok (t, s)) =
    Leaves-ok t (record { cursor = s; peeked = some t }) (ok (unread (t, s))) refl refl
read_ahead (thrown x) = λ t l e. cc
read_ahead undefined = λ t l e. cc

from_peeked : (p : Option Token) (s : Cursor) → Leaves (next_from p s) (peek_from p s)
from_peeked none s = read_ahead (next_token s)
from_peeked (some t) s =
    Leaves-ok t (record { cursor = s; peeked = some t }) (ok (unread (t, s))) refl refl

-- Where a peek gives a token, `next` gives, behind the peek, what it would have given without it, and another
-- peek gives the same token and changes nothing.
next-peek :
    (l after : Lexer) (t : Token)
    → peek l ≡ ok (t, after)
    → (next after ≡ next l) × (peek after ≡ ok (t, after))
unfolding next peek
next-peek l after t e = from_peeked l.peeked l.cursor t after e
