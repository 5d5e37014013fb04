-- ===== src/Hvmc/Parser/Matches.antt =====
-- What `match` and its chains read, in the terms of Runs.
use hvmsys.Base.{
  ℕ, ◌+◌, ◌-◌, ◌≤◌, ◌<◌, ◌≡◌, refl, arith, Bool, true, false, if◌then◌else◌, Bool-cases, inl, inr,
  List, [], ◌∷◌, Option, none, some,
}
use hvmsys.Except.{runtime_error}
use hvmsys.Hvmc.Token.{TokenKind, Token, is_kind}
use hvmsys.Hvmc.Lexer.{Lexer}
use hvmsys.Hvmc.Parser.Monad.{
  Outcome, done, fails, invalid, starved, Parse, and_then, ◌>>=◌, return, choose, parser_peek,
  parser_next, peek_kind, consumed, parser_match, match_any,
}
use hvmsys.Hvmc.Parser.Runs.{Good, Any, Runs, next-RunsAt, bind-Runs, weaken-Runs}
use hvmsys.Hvmc.Parser.Reads.{size, NotEnd, same-NotEnd, Peeks, parser_peek-Peeks}

-- A token that matched has been read.
abbrev Matched : ℕ → Outcome Bool → Type 0
Matched s (done b l) = size l + (if b then 1 else 0) ≤ s
Matched s (fails e) = e ≡ runtime_error
Matched s invalid = ⊥
Matched s starved = ⊥

consumed-Matched : (s : ℕ) (o : Outcome Token) → Good Any 1 s o → Matched s (and_then o consumed)
unfolding consumed return
consumed-Matched s (done t l) (_, h) = h
consumed-Matched s (fails e) h = h
consumed-Matched s invalid h = h
consumed-Matched s starved h = h

Peeks-Matched :
    (s : ℕ) (k : TokenKind) (o : Outcome Token)
    → NotEnd k
    → Peeks s o
    → Matched s (
        and_then
          (and_then o (λ t. return t.kind))
          (λ found. choose (is_kind found k) (parser_next >>= consumed) (return false)))
unfolding choose return ◌>>=◌
Peeks-Matched s k (done t l) there (e, h) = elim (Bool-cases (is_kind t.kind k)) [
  | inl f ↦ rw f (
      within (and_then (parser_next l) consumed) (
        consumed-Matched (size l) (parser_next l) (
          (next-RunsAt {k = t.kind} {n = size l + 1} (same-NotEnd t.kind k there f)).run_at l t e
            refl (omega arith))))
  | inr f ↦ rw f (omega arith)
]
  where
    within : (o : Outcome Bool) → Matched (size l) o → Matched s o
    within (done b l1) g = omega arith
    within (fails e) g = g
    within invalid g = g
    within starved g = g
Peeks-Matched s k (fails e) there h = h
Peeks-Matched s k invalid there h = h
Peeks-Matched s k starved there h = h

parser_match-Matched : (k : TokenKind) (l : Lexer) → NotEnd k → Matched (size l) (parser_match k l)
unfolding parser_match peek_kind ◌>>=◌
parser_match-Matched k l there =
    Peeks-Matched (size l) k (parser_peek l) there (parser_peek-Peeks l)

Matched-then :
    {B : Type 0} (Q : B → Type 0) (n d s : ℕ) (o : Outcome Bool) (f : Bool → Parse B)
    → s < n
    → Matched s o
    → Runs Q (n - 1) (d - 1) (f true)
    → Runs Q n d (f false)
    → Good Q d s (and_then o f)
Matched-then {B} Q n d s (done true l) f h g rt rf = further (f true l) (rt.run l (omega arith))
  where
    further : (o : Outcome B) → Good Q (d - 1) (size l) o → Good Q d s o
    further (done b l1) (q, k) = (q, omega arith)
    further (fails e) k = k
    further invalid k = k
    further starved k = k
Matched-then {B} Q n d s (done false l) f h g rt rf = further (f false l) (rf.run l (omega arith))
  where
    further : (o : Outcome B) → Good Q d (size l) o → Good Q d s o
    further (done b l1) (q, k) = (q, omega arith)
    further (fails e) k = k
    further invalid k = k
    further starved k = k
Matched-then Q n d s (fails e) f h g rt rf = g
Matched-then Q n d s invalid f h g rt rf = g
Matched-then Q n d s starved f h g rt rf = g

pub match-Runs :
    {B : Type 0} {Q : B → Type 0} {n d : ℕ} (k : TokenKind) (f : Bool → Parse B)
    → NotEnd k
    → Runs Q (n - 1) (d - 1) (f true)
    → Runs Q n d (f false)
    → Runs Q n d (parser_match k >>= f)
unfolding ◌>>=◌
match-Runs {Q = Q} {n = n} {d = d} k f there rt rf = record {
  run = λ l h.
      Matched-then Q n d (size l) (parser_match k l) f h (parser_match-Matched k l there) rt rf;
}

pub choose-true-Runs :
    {A : Type 0} {P : A → Type 0} {n d : ℕ} {x : Parse A} (y : Parse A)
    → Runs P n d x
    → Runs P n d (choose true x y)
unfolding choose
choose-true-Runs y r = r

pub choose-false-Runs :
    {A : Type 0} {P : A → Type 0} {n d : ℕ} (x : Parse A) {y : Parse A}
    → Runs P n d y
    → Runs P n d (choose false x y)
unfolding choose
choose-false-Runs x r = r

-- A `match` that is followed by one of two methods, and then by the rest.
pub match_choose-Runs :
    {A B : Type 0} {P : A → Type 0} {Q : B → Type 0} {n d : ℕ} (k : TokenKind) (x y : Parse A)
    (g : A → Parse B)
    → NotEnd k
    → Runs P (n - 1) 0 x
    → Runs P n 0 y
    → ((a : A) → P a → Runs Q n d (g a))
    → Runs Q n d (parser_match k >>= λ b. choose b x y >>= g)
match_choose-Runs k x y g there rx ry rg =
    match-Runs k _ there
      (bind-Runs (choose-true-Runs y rx) (λ a p. weaken-Runs (rg a p) (omega arith) (omega arith)))
      (bind-Runs (choose-false-Runs x ry) (λ a p. weaken-Runs (rg a p) (omega arith) (omega arith)))

-- A `match` whose outcome is kept as a flag.
pub flag-Runs :
    {B : Type 0} {Q : B → Type 0} {n d : ℕ} (k : TokenKind) (f : Bool → Parse B)
    → NotEnd k
    → ((b : Bool) → Runs Q n d (f b))
    → Runs Q n d (parser_match k >>= f)
flag-Runs k f there r =
    match-Runs k f there (weaken-Runs (r true) (omega arith) (omega arith)) (r false)

abbrev pub AllNotEnd : List TokenKind → Type 0
AllNotEnd [] = Unit {0}
AllNotEnd (k ∷ ks) = NotEnd k × AllNotEnd ks

-- A chain of `match`es reads the token that matched.
abbrev MatchedAny : ℕ → Outcome (Option TokenKind) → Type 0
MatchedAny s (done (some k) l) = size l + 1 ≤ s
MatchedAny s (done none l) = size l ≤ s
MatchedAny s (fails e) = e ≡ runtime_error
MatchedAny s invalid = ⊥
MatchedAny s starved = ⊥

Matched-chain :
    (s : ℕ) (k : TokenKind) (ks : List TokenKind) (o : Outcome Bool)
    → ((l : Lexer) → MatchedAny (size l) (match_any ks l))
    → Matched s o
    → MatchedAny s (and_then o (λ b. choose b (return (some k)) (match_any ks)))
unfolding choose return
Matched-chain s k ks (done true l) more h = h
Matched-chain s k ks (done false l) more h = within (match_any ks l) (more l)
  where
    within : (o : Outcome (Option TokenKind)) → MatchedAny (size l) o → MatchedAny s o
    within (done (some j) l1) g = omega arith
    within (done none l1) g = omega arith
    within (fails e) g = g
    within invalid g = g
    within starved g = g
Matched-chain s k ks (fails e) more h = h
Matched-chain s k ks invalid more h = h
Matched-chain s k ks starved more h = h

match_any-MatchedAny :
    (ks : List TokenKind) → AllNotEnd ks → (l : Lexer) → MatchedAny (size l) (match_any ks l)
unfolding match_any ◌>>=◌ return
match_any-MatchedAny [] all l = omega arith
match_any-MatchedAny (k ∷ ks) (there, all) l =
    Matched-chain (size l) k ks (parser_match k l) (match_any-MatchedAny ks all)
      (parser_match-Matched k l there)

MatchedAny-then :
    {B : Type 0} (Q : B → Type 0) (n d s : ℕ) (o : Outcome (Option TokenKind))
    (f : Option TokenKind → Parse B)
    → s < n
    → MatchedAny s o
    → ((k : TokenKind) → Runs Q (n - 1) (d - 1) (f (some k)))
    → Runs Q n d (f none)
    → Good Q d s (and_then o f)
MatchedAny-then {B} Q n d s (done (some k) l) f h g rs rn =
    further (f (some k) l) ((rs k).run l (omega arith))
  where
    further : (o : Outcome B) → Good Q (d - 1) (size l) o → Good Q d s o
    further (done b l1) (q, j) = (q, omega arith)
    further (fails e) j = j
    further invalid j = j
    further starved j = j
MatchedAny-then {B} Q n d s (done none l) f h g rs rn = further (f none l) (rn.run l (omega arith))
  where
    further : (o : Outcome B) → Good Q d (size l) o → Good Q d s o
    further (done b l1) (q, j) = (q, omega arith)
    further (fails e) j = j
    further invalid j = j
    further starved j = j
MatchedAny-then Q n d s (fails e) f h g rs rn = g
MatchedAny-then Q n d s invalid f h g rs rn = g
MatchedAny-then Q n d s starved f h g rs rn = g

pub match_any-Runs :
    {B : Type 0} {Q : B → Type 0} {n d : ℕ} (ks : List TokenKind) (f : Option TokenKind → Parse B)
    → AllNotEnd ks
    → ((k : TokenKind) → Runs Q (n - 1) (d - 1) (f (some k)))
    → Runs Q n d (f none)
    → Runs Q n d (match_any ks >>= f)
unfolding ◌>>=◌
match_any-Runs {Q = Q} {n = n} {d = d} ks f all rs rn = record {
  run = λ l h.
      MatchedAny-then Q n d (size l) (match_any ks l) f h (match_any-MatchedAny ks all l) rs rn;
}
