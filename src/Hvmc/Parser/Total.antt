-- ===== src/Hvmc/Parser/Total.antt =====
-- The parser ends on every source, and the code generator returns on what it parsed.
use hvmsys.Base.{ℕ, zero, suc, ◌+◌, ◌-◌, ◌≤◌, ◌≡◌, refl, ap, arith, false, ◌⊎◌, inl, inr, length}
use hvmsys.Base.Text.{Bytes}
use hvmsys.Except.{ok, runtime_error}
use hvmsys.Hvmc.Token.{
  TokenKind, is_kind, end_of_input, lparen, rparen, lbrace, semicolon, else_kw, if_kw, while_kw,
  for_kw, do_kw, break_kw, continue_kw, return_kw, inline_asm,
}
use hvmsys.Hvmc.Ast
use hvmsys.Hvmc.Ast.{CType, Node, Nodes, null}
use hvmsys.Hvmc.Lexer.{Lexer, new}
use hvmsys.Hvmc.Codegen.Whole.{IsWhole, AreWhole, labels}
use hvmsys.Hvmc.Codegen.Total.{generate-returns}
use hvmsys.Hvmc.Codegen.{generate}
use hvmsys.Hvmc.Parser.Monad.{Outcome, done, fails, invalid, starved, Parse, ◌>>=◌, return}
use hvmsys.Hvmc.Parser.Expressions.{past_token, parse_assignment}
use hvmsys.Hvmc.Parser.Statements.{
  condition, parse_if, parse_while, parse_for, parse_do_while, parse_return, parse_break,
  parse_continue, parse_asm_stmt, parse_expr_stmt, statement_of, parse_statement,
}
use hvmsys.Hvmc.Parser.Runs.{
  Good, Runs, RunsAt, return-Runs, lower-Runs, at-Runs, bind-Runs, bind-RunsAt, choose-Runs,
  next-RunsAt, expect-Runs, peek-Runs,
}
use hvmsys.Hvmc.Parser.Matches.{match_choose-Runs}
use hvmsys.Hvmc.Parser.SpecEnds.{none-Runs}
use hvmsys.Hvmc.Parser.ExprEnds.{Whole}
use hvmsys.Hvmc.Parser.LevelEnds.{assignment-Runs}
use hvmsys.Hvmc.Parser.StmtEnds.{Optional, Optional-Runs, unless-Runs, block-Runs, declaration-Runs}
use hvmsys.Hvmc.Parser.{declaration_loop, parse}

-- The statements that `e` and `statement` are parts of.
module _ (n : ℕ) (e statement : Parse Node) (re : Runs Whole n 1 e)
    (rs : Runs Whole (n - 1) 1 statement) where
  condition-Runs :
      (k : TokenKind) (m : ℕ)
      → is_kind k end_of_input ≡ false
      → m ≤ n
      → Runs Whole m 1 (condition k e)
  unfolding condition
  condition-Runs k m there le = bind-Runs (expect-Runs k there) (λ _ _.
      bind-Runs (expect-Runs lparen refl) (λ _ _.
        bind-Runs (lower-Runs re (omega arith))
          (λ a w. bind-Runs (expect-Runs rparen refl) (λ _ _. return-Runs _ w))))

  if-Runs : Runs Whole n 1 (parse_if e statement)
  unfolding parse_if
  if-Runs = bind-Runs (condition-Runs if_kw n refl (omega arith)) (λ cond wc.
      bind-Runs (lower-Runs rs (omega arith)) (λ body w.
        match_choose-Runs {P = Optional} else_kw _ _ _ refl (Optional-Runs rs (omega arith))
          (return-Runs _ tt) (λ else_body we. return-Runs _ (wc, w, we))))

  while-Runs : Runs Whole n 1 (parse_while e statement)
  unfolding parse_while
  while-Runs =
      bind-Runs (condition-Runs while_kw n refl (omega arith))
        (λ cond wc. bind-Runs (lower-Runs rs (omega arith)) (λ body w. return-Runs _ (wc, w)))

  for-Runs : Runs Whole n 1 (parse_for e statement)
  unfolding parse_for
  for-Runs = bind-Runs (expect-Runs for_kw refl) (λ _ _. bind-Runs (expect-Runs lparen refl) (λ _ _.
      bind-Runs (unless-Runs semicolon _ n e re (omega arith)) (λ init wi.
        bind-Runs (expect-Runs semicolon refl) (λ _ _.
          bind-Runs (unless-Runs semicolon _ n e re (omega arith)) (λ cond wc.
            bind-Runs (expect-Runs semicolon refl) (λ _ _.
              bind-Runs (unless-Runs rparen _ n e re (omega arith)) (λ inc wn.
                bind-Runs (expect-Runs rparen refl) (λ _ _.
                  bind-Runs (lower-Runs rs (omega arith))
                    (λ body w. return-Runs _ (wi, wc, wn, w))))))))))

  do_while-Runs : Runs Whole n 1 (parse_do_while e statement)
  unfolding parse_do_while
  do_while-Runs = bind-Runs (expect-Runs do_kw refl) (λ _ _.
      bind-Runs (lower-Runs rs (omega arith)) (λ body w.
        bind-Runs (condition-Runs while_kw (n - 1 - 0) refl (omega arith))
          (λ cond wc. bind-Runs (expect-Runs semicolon refl) (λ _ _. return-Runs _ (w, wc)))))

  return_stmt-Runs : Runs Whole n 1 (parse_return e)
  unfolding parse_return
  return_stmt-Runs = bind-Runs (expect-Runs return_kw refl) (λ _ _.
      bind-Runs (unless-Runs semicolon _ n e re (omega arith))
        (λ a w. bind-Runs (expect-Runs semicolon refl) (λ _ _. return-Runs _ w)))

  expr_stmt-Runs : Runs Whole n 1 (parse_expr_stmt e)
  unfolding parse_expr_stmt
  expr_stmt-Runs =
      bind-Runs re (λ a w. bind-Runs (expect-Runs semicolon refl) (λ _ _. return-Runs _ w))

  statement-RunsAt :
      (k : TokenKind) (fuel : ℕ) → n ≤ fuel → RunsAt k Whole n 1 (statement_of fuel e statement k)
  unfolding statement_of parse_break parse_continue parse_asm_stmt past_token
  statement-RunsAt lbrace fuel h = at-Runs (block-Runs fuel n (n - 1) statement h rs (omega arith))
  statement-RunsAt if_kw fuel h = at-Runs if-Runs
  statement-RunsAt while_kw fuel h = at-Runs while-Runs
  statement-RunsAt for_kw fuel h = at-Runs for-Runs
  statement-RunsAt do_kw fuel h = at-Runs do_while-Runs
  statement-RunsAt return_kw fuel h = at-Runs return_stmt-Runs
  statement-RunsAt break_kw fuel h = at-Runs (
      bind-Runs (expect-Runs break_kw refl)
        (λ _ _. bind-Runs (expect-Runs semicolon refl) (λ _ _. return-Runs _ tt)))
  statement-RunsAt continue_kw fuel h = at-Runs (
      bind-Runs (expect-Runs continue_kw refl)
        (λ _ _. bind-Runs (expect-Runs semicolon refl) (λ _ _. return-Runs _ tt)))
  statement-RunsAt semicolon fuel h = bind-RunsAt (next-RunsAt refl) (λ _ _. return-Runs _ tt)
  statement-RunsAt inline_asm fuel h =
      bind-RunsAt (next-RunsAt refl)
        (λ _ _. bind-Runs (expect-Runs semicolon refl) (λ _ _. return-Runs _ tt))
  statement-RunsAt _ fuel h =
      at-Runs (choose-Runs _ (declaration-Runs fuel n e statement h re rs) expr_stmt-Runs)

statement-Runs : (fuel n : ℕ) → n ≤ fuel → Runs Whole n 1 (parse_statement fuel)
unfolding parse_statement
statement-Runs zero n h = none-Runs (parse_statement zero) h
statement-Runs (suc fuel) n h = peek-Runs (λ k.
    statement-RunsAt n (parse_assignment (suc fuel)) (parse_statement fuel)
      (assignment-Runs (suc fuel) n h) (statement-Runs fuel (n - 1) (omega arith)) k (suc fuel) h)

declaration_loop-Runs : (fuel n : ℕ) → n ≤ fuel → Runs AreWhole n 0 (declaration_loop fuel)
unfolding declaration_loop
declaration_loop-Runs zero n h = none-Runs (declaration_loop zero) h
declaration_loop-Runs (suc fuel) n h = peek-Runs (λ k. at-Runs (
    choose-Runs (is_kind k end_of_input) (return-Runs _ tt) (
      bind-Runs
        (declaration-Runs (suc fuel) n (parse_assignment (suc fuel)) (parse_statement (suc fuel)) h
          (assignment-Runs (suc fuel) n h) (statement-Runs (suc fuel) (n - 1) (omega arith)))
        (λ a w.
          bind-Runs (declaration_loop-Runs fuel (n - 1) (omega arith))
            (λ more ws. return-Runs _ (w, ws))))))

-- How a run of the parser ends.
abbrev pub Parses : Outcome Node → Type 0
Parses o =
    (o ≡ fails runtime_error)
    ⊎ ((tree : Node) × (l : Lexer) × (o ≡ done tree l) × IsWhole tree false)

Good-Parses : (s : ℕ) (o : Outcome Node) → Good Whole 0 s o → Parses o
Good-Parses s (done tree l) (w, h) = inr (tree, l, refl, w)
Good-Parses s (fails e) h = inl (ap (λ x. fails x) h)
Good-Parses s invalid h = absurd h
Good-Parses s starved h = absurd h

-- On every source the parser throws a runtime_error or returns a tree in which a null pointer stands only for
-- an optional part. It does not run forever: the fuel of its loops and calls, one more than the bytes of
-- the source, is never used up.
pub parse-ends : (source : Bytes) → Parses (parse source)
unfolding parse new
parse-ends source =
    Good-Parses (0 + length source) (parse source)
      ((program-Runs (suc (length source))).run (new source) (omega arith))
  where
    program-Runs :
        (n : ℕ) → Runs Whole n 0 (declaration_loop n >>= λ nodes. return (Ast.program nodes))
    program-Runs n = bind-Runs (declaration_loop-Runs n n (omega arith)) (λ ns ws. return-Runs _ ws)

-- Every source is rejected by the parser with a runtime_error, or parsed into a tree for which the code
-- generator returns an output, with as many labels as the tree needs.
pub parse-generate :
    (source : Bytes)
    → (parse source ≡ fails runtime_error)
      ⊎ ((tree : Node) × (l : Lexer) × (out : Bytes) × (parse source ≡ done tree l)
          × (generate tree ≡ ok (out, labels tree)))
parse-generate source = elim (parse-ends source) [
  | inl e ↦ inl e
  | inr (tree, l, e, w) ↦ let (out, f) = generate-returns tree w in inr (tree, l, out, e, f)
]
