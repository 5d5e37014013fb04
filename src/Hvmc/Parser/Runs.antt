-- ===== src/Hvmc/Parser/Runs.antt =====
-- How much of its input a method of the parser reads, that it ends, and what its results satisfy.
use hvmsys.Base.{
  ℕ, ◌+◌, ◌-◌, ◌≤◌, ◌<◌, ◌≡◌, refl, sym, ap, ◌∙◌, arith, Bool, true, false, Bool-cases, inl, inr,
  Option, none, some,
}
use mathlib.Core.Path.{subst, fun_ext}
use hvmsys.Except.{runtime_error}
use hvmsys.Hvmc.Token.{TokenKind, Token, is_kind}
use hvmsys.Hvmc.Lexer.Scan.{Cursor}
use hvmsys.Hvmc.Lexer.Progress.{left}
use hvmsys.Hvmc.Lexer.{Lexer, next, next_from}
use hvmsys.Hvmc.Parser.Monad.{
  Outcome, done, fails, invalid, starved, Parse, and_then, ◌>>=◌, return, throw_error, outcome,
  choose, parser_peek, parser_next, peek_kind, parser_expect,
}
use hvmsys.Hvmc.Parser.Reads.{
  pending, size, NotEnd, same-NotEnd, weight_lem, Drops, parser_next-Drops, Peeks,
  parser_peek-Peeks,
}

-- A result that satisfies `P`, behind at least `d` tokens of what was `s` to read, or a runtime_error.
abbrev pub Good : {A : Type 0} → (A → Type 0) → ℕ → ℕ → Outcome A → Type 0
Good P d s (done a l) = P a × (size l + d ≤ s)
Good P d s (fails e) = e ≡ runtime_error
Good P d s invalid = ⊥
Good P d s starved = ⊥

abbrev pub Any : {A : Type 0} → A → Type 0
Any a = Unit {0}

-- The method is good from every state with less than `n` to read.
pub record Runs {A : Type 0} (P : A → Type 0) (n d : ℕ) (m : Parse A) : Type 0 where
  pub run : (l : Lexer) → size l < n → Good P d (size l) (m l)

-- The same where a token of the kind has been peeked at.
pub record RunsAt (k : TokenKind) {A : Type 0} (P : A → Type 0) (n d : ℕ) (m : Parse A)
    : Type 0 where
  pub run_at :
      (l : Lexer) (t : Token)
      → l.peeked ≡ some t
      → t.kind ≡ k
      → size l < n
      → Good P d (size l) (m l)

-- The rules of the methods' combinators.
pub return-Runs : {A : Type 0} {P : A → Type 0} {n : ℕ} (a : A) → P a → Runs P n 0 (return a)
unfolding return
return-Runs a p = record { run = λ l h. (p, omega arith) }

pub throw-Runs : {A : Type 0} {P : A → Type 0} {n d : ℕ} → Runs P n d throw_error
unfolding throw_error
throw-Runs = record { run = λ l h. refl }

Good-weaken :
    {A : Type 0} (P : A → Type 0) (c d s : ℕ) (o : Outcome A) → d ≤ c → Good P c s o → Good P d s o
Good-weaken P c d s (done a l) le (p, h) = (p, omega arith)
Good-weaken P c d s (fails e) le g = g
Good-weaken P c d s invalid le g = g
Good-weaken P c d s starved le g = g

pub weaken-Runs :
    {A : Type 0} {P : A → Type 0} {n k c d : ℕ} {m : Parse A}
    → Runs P k c m
    → n ≤ k
    → d ≤ c
    → Runs P n d m
weaken-Runs {P = P} {c = c} {d = d} {m = m} r le ge = record {
  run = λ l h. Good-weaken P c d (size l) (m l) ge (r.run l (omega arith));
}

Good-map :
    {A : Type 0} (P Q : A → Type 0) (d s : ℕ) (o : Outcome A)
    → ((a : A) → P a → Q a)
    → Good P d s o
    → Good Q d s o
Good-map P Q d s (done a l) f (p, h) = (f a p, h)
Good-map P Q d s (fails e) f g = g
Good-map P Q d s invalid f g = g
Good-map P Q d s starved f g = g

pub map-Runs :
    {A : Type 0} {P Q : A → Type 0} {n d : ℕ} {m : Parse A}
    → Runs P n d m
    → ((a : A) → P a → Q a)
    → Runs Q n d m
map-Runs {P = P} {Q = Q} {d = d} {m = m} r f = record {
  run = λ l h. Good-map P Q d (size l) (m l) f (r.run l h);
}

pub lower-Runs :
    {A : Type 0} {P : A → Type 0} {n k c : ℕ} {m : Parse A} → Runs P k c m → n ≤ k → Runs P n 0 m
lower-Runs r le = weaken-Runs r le (omega arith)

pub at-Runs :
    {A : Type 0} {P : A → Type 0} {k : TokenKind} {n d : ℕ} {m : Parse A}
    → Runs P n d m
    → RunsAt k P n d m
at-Runs r = record { run_at = λ l t e f h. r.run l h }

Good-bind :
    {A B : Type 0} (P : A → Type 0) (Q : B → Type 0) (n c d s : ℕ) (o : Outcome A) (f : A → Parse B)
    → s < n
    → Good P c s o
    → ((a : A) → P a → Runs Q (n - c) (d - c) (f a))
    → Good Q d s (and_then o f)
Good-bind {B = B} P Q n c d s (done a l) f h (p, g) r =
    further (f a l) ((r a p).run l (omega arith))
  where
    further : (o : Outcome B) → Good Q (d - c) (size l) o → Good Q d s o
    further (done b l1) (q, k) = (q, omega arith)
    further (fails e) k = k
    further invalid k = k
    further starved k = k
Good-bind P Q n c d s (fails e) f h g r = g
Good-bind P Q n c d s invalid f h g r = g
Good-bind P Q n c d s starved f h g r = g

pub bind-Runs :
    {A B : Type 0} {P : A → Type 0} {Q : B → Type 0} {n c d : ℕ} {m : Parse A} {f : A → Parse B}
    → Runs P n c m
    → ((a : A) → P a → Runs Q (n - c) (d - c) (f a))
    → Runs Q n d (m >>= f)
unfolding ◌>>=◌
bind-Runs {P = P} {Q = Q} {n = n} {c = c} {d = d} {m = m} {f = f} rm rf = record {
  run = λ l h. Good-bind P Q n c d (size l) (m l) f h (rm.run l h) rf;
}

pub bind-RunsAt :
    {A B : Type 0} {P : A → Type 0} {Q : B → Type 0} {k : TokenKind} {n c d : ℕ} {m : Parse A}
    {f : A → Parse B}
    → RunsAt k P n c m
    → ((a : A) → P a → Runs Q (n - c) (d - c) (f a))
    → RunsAt k Q n d (m >>= f)
unfolding ◌>>=◌
bind-RunsAt {P = P} {Q = Q} {n = n} {c = c} {d = d} {m = m} {f = f} rm rf = record {
  run_at = λ l t e g h. Good-bind P Q n c d (size l) (m l) f h (rm.run_at l t e g h) rf;
}

pub choose-Runs :
    {A : Type 0} {P : A → Type 0} {n d : ℕ} {x y : Parse A} (b : Bool)
    → Runs P n d x
    → Runs P n d y
    → Runs P n d (choose b x y)
unfolding choose
choose-Runs true rx ry = rx
choose-Runs false rx ry = ry

pub choose-RunsAt :
    {A : Type 0} {P : A → Type 0} {k : TokenKind} {n d : ℕ} {x y : Parse A} (b : Bool)
    → (b ≡ true → RunsAt k P n d x)
    → (b ≡ false → RunsAt k P n d y)
    → RunsAt k P n d (choose b x y)
unfolding choose
choose-RunsAt true rx ry = rx refl
choose-RunsAt false rx ry = ry refl

Drops-Good : (s : ℕ) (o : Outcome Token) → Drops s o → Good Any 0 s o
Drops-Good s (done t l) h = (tt, omega arith)
Drops-Good s (fails e) h = h
Drops-Good s invalid h = h
Drops-Good s starved h = h

pub next-Runs : {n : ℕ} → Runs Any n 0 parser_next
next-Runs = record { run = λ l h. Drops-Good (size l) (parser_next l) (parser_next-Drops l) }

some-injective : {A : Type 0} {a b : A} → some a ≡ some b → a ≡ b
some-injective e = cc

pub next-RunsAt : {k : TokenKind} {n : ℕ} → NotEnd k → RunsAt k Any n 1 parser_next
unfolding parser_next next
next-RunsAt {k} there = record { run_at = λ l t e f h. taken l.peeked l.cursor t e f }
  where
    taken :
        (p : Option Token) (s : Cursor) (t : Token)
        → p ≡ some t
        → t.kind ≡ k
        → Good Any 1 (pending p + left s) (outcome (next_from p s))
    taken none s t e f = cc
    taken (some u) s t e f =
        let same : u ≡ t = some-injective e in
        (
          tt,
          omega (
            arith,
            weight_lem u (
                subst (λ (j : TokenKind). NotEnd j) (sym (ap (λ (v : Token). v.kind) same ∙ f))
                  there),
          ),
        )

-- `expect` reads the token it waits for.
Drops-expect :
    (s : ℕ) (k : TokenKind) (o : Outcome Token)
    → NotEnd k
    → Drops s o
    → Good Any 1 s (and_then o (λ t. choose (is_kind t.kind k) (return t) throw_error))
unfolding choose return throw_error
Drops-expect s k (done t l) there h = elim (Bool-cases (is_kind t.kind k)) [
  | inl e ↦ rw e (tt, omega (arith, weight_lem t (same-NotEnd t.kind k there e)))
  | inr e ↦ rw e refl
]
Drops-expect s k (fails e) there h = h
Drops-expect s k invalid there h = h
Drops-expect s k starved there h = h

pub expect-Runs : {n : ℕ} (k : TokenKind) → NotEnd k → Runs Any n 1 (parser_expect k)
unfolding parser_expect ◌>>=◌
expect-Runs k there = record {
  run = λ l h. Drops-expect (size l) k (parser_next l) there (parser_next-Drops l);
}

Peeks-then :
    {B : Type 0} (Q : B → Type 0) (n d s : ℕ) (o : Outcome Token) (f : Token → Parse B)
    → s < n
    → Peeks s o
    → ((t : Token) → RunsAt t.kind Q n d (f t))
    → Good Q d s (and_then o f)
Peeks-then {B} Q n d s (done t l) f h (e, g) r =
    further (f t l) ((r t).run_at l t e refl (omega arith))
  where
    further : (o : Outcome B) → Good Q d (size l) o → Good Q d s o
    further (done b l1) (q, k) = (q, omega arith)
    further (fails e) k = k
    further invalid k = k
    further starved k = k
Peeks-then Q n d s (fails e) f h g r = g
Peeks-then Q n d s invalid f h g r = g
Peeks-then Q n d s starved f h g r = g

-- What follows a peek may rely on the token that it saw.
pub peek_token-Runs :
    {B : Type 0} {Q : B → Type 0} {n d : ℕ} {f : Token → Parse B}
    → ((t : Token) → RunsAt t.kind Q n d (f t))
    → Runs Q n d (parser_peek >>= f)
unfolding ◌>>=◌
peek_token-Runs {Q = Q} {n = n} {d = d} {f = f} r = record {
  run = λ l h. Peeks-then Q n d (size l) (parser_peek l) f h (parser_peek-Peeks l) r;
}

peek_kind_bind :
    {B : Type 0} (f : TokenKind → Parse B) → (peek_kind >>= f) ≡ (parser_peek >>= λ t. f t.kind)
unfolding peek_kind ◌>>=◌ return
peek_kind_bind f = fun_ext (λ l. same (parser_peek l))
  where
    same :
        (o : Outcome Token)
        → and_then (and_then o (λ t l. done t.kind l)) f ≡ and_then o (λ t. f t.kind)
    same (done t l) = refl
    same (fails e) = refl
    same invalid = refl
    same starved = refl

pub peek-Runs :
    {B : Type 0} {Q : B → Type 0} {n d : ℕ} {f : TokenKind → Parse B}
    → ((k : TokenKind) → RunsAt k Q n d (f k))
    → Runs Q n d (peek_kind >>= f)
peek-Runs {Q = Q} {n = n} {d = d} {f = f} r =
    subst (λ m. Runs Q n d m) (sym (peek_kind_bind f)) (peek_token-Runs (λ t. r t.kind))
