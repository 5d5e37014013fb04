-- ===== src/Hvmc/Parser/ExprEnds.antt =====
-- The parsers of expressions end, on every input, with a tree that has no null pointer in it.
use hvmsys.Base.{ℕ, zero, suc, ◌-◌, ◌≤◌, refl, arith, false}
use hvmsys.Base.Text.{Bytes}
use hvmsys.Hvmc.Token.{
  TokenKind, is_kind, Token, ident_tok, number_lit, string_lit, char_lit, lparen, rparen, lbracket,
  rbracket, comma, dot, arrow, plus, minus, star, tilde, exclam, amper, plusplus, minusminus,
  sizeof_kw, inline_asm,
}
use hvmsys.Hvmc.Ast.{Node, variable, deref}
use hvmsys.Hvmc.Codegen.Whole.{IsWhole, AreWhole}
use hvmsys.Hvmc.Parser.Monad.{Parse, return, out_of_fuel}
use hvmsys.Hvmc.Parser.Expressions.{
  past_token, in_parentheses, primary_of, parse_primary, argument_loop, parse_arguments, call_of,
  index_of, member_of, counting_of, postfix_round, postfix_marks, go_on, postfix_loop,
  parse_postfix, prefixed, unary_of, parse_unary, cast_of, parse_cast,
}
use hvmsys.Hvmc.Parser.Runs.{
  Runs, RunsAt, return-Runs, throw-Runs, weaken-Runs, lower-Runs, at-Runs, bind-Runs, bind-RunsAt,
  choose-RunsAt, choose-Runs, next-Runs, next-RunsAt, expect-Runs, peek-Runs, peek_token-Runs,
}
use hvmsys.Hvmc.Parser.Reads.{NotEnd, same-NotEnd}
use hvmsys.Hvmc.Parser.Matches.{match_choose-Runs, match_any-Runs}
use hvmsys.Hvmc.Parser.SpecEnds.{none-Runs, type_spec-Runs}

abbrev pub Whole : Node → Type 0
Whole n = IsWhole n false

past_token-RunsAt :
    (k : TokenKind) (n : ℕ) (a : Node)
    → NotEnd k
    → Whole a
    → RunsAt k Whole n 1 (past_token (return a))
unfolding past_token
past_token-RunsAt k n a there w = bind-RunsAt (next-RunsAt there) (λ t _. return-Runs _ w)

primary-RunsAt :
    (k : TokenKind) (n : ℕ) (e : Parse Node) (t : Token)
    → Runs Whole (n - 1) 1 e
    → RunsAt k Whole n 1 (primary_of e t k)
unfolding primary_of in_parentheses
primary-RunsAt lparen n e t re =
    bind-RunsAt (next-RunsAt refl)
      (λ _ _. bind-Runs re (λ a w. bind-Runs (expect-Runs rparen refl) (λ _ _. return-Runs _ w)))
primary-RunsAt number_lit n e t re = past_token-RunsAt number_lit n _ refl tt
primary-RunsAt string_lit n e t re = past_token-RunsAt string_lit n _ refl tt
primary-RunsAt char_lit n e t re = past_token-RunsAt char_lit n _ refl tt
primary-RunsAt ident_tok n e t re = past_token-RunsAt ident_tok n _ refl tt
primary-RunsAt inline_asm n e t re = past_token-RunsAt inline_asm n _ refl tt
primary-RunsAt _ n e t re = at-Runs throw-Runs

primary-Runs : (n : ℕ) (e : Parse Node) → Runs Whole (n - 1) 1 e → Runs Whole n 1 (parse_primary e)
unfolding parse_primary
primary-Runs n e re = peek_token-Runs (λ t. primary-RunsAt t.kind n e t re)

argument_loop-Runs :
    (fuel n k : ℕ) (e : Parse Node)
    → n ≤ fuel
    → Runs Whole k 1 e
    → n ≤ k
    → Runs AreWhole n 1 (argument_loop fuel e)
unfolding argument_loop
argument_loop-Runs zero n k e h re le = none-Runs (out_of_fuel) h
argument_loop-Runs (suc fuel) n k e h re le =
    bind-Runs (weaken-Runs {d = 1} re le (omega arith)) (λ a w.
      match_choose-Runs comma _ _ _ refl
        (lower-Runs (argument_loop-Runs fuel (n - 1 - 1) k e (omega arith) re (omega arith))
          (omega arith))
        (return-Runs _ tt) (λ more ws. return-Runs _ (w, ws)))

arguments-Runs :
    (fuel n k : ℕ) (e : Parse Node) (name : Bytes)
    → n ≤ fuel
    → Runs Whole k 1 e
    → n ≤ k
    → Runs Whole n 0 (parse_arguments fuel e name)
unfolding parse_arguments
arguments-Runs fuel n k e name h re le = peek-Runs (λ j. at-Runs (
    bind-Runs
      (choose-Runs (is_kind j rparen) (return-Runs {P = AreWhole} _ tt)
        (lower-Runs (argument_loop-Runs fuel n k e h re le) (omega arith)))
      (λ ns ws. bind-Runs (expect-Runs rparen refl) (λ _ _. return-Runs _ ws))))

call-Runs :
    (fuel n k : ℕ) (e : Parse Node) (a : Node)
    → n ≤ fuel
    → Runs Whole k 1 e
    → n ≤ k
    → Whole a
    → Runs Whole n 0 (call_of fuel e a)
unfolding call_of
call-Runs fuel n k e (variable name) h re le w = arguments-Runs fuel n k e name h re le
call-Runs fuel n k e _ h re le w = return-Runs _ w

member-Runs : (n : ℕ) (a : Node) → Whole a → Runs Whole n 0 (member_of a)
unfolding member_of
member-Runs n a w = bind-Runs (expect-Runs ident_tok refl) (λ _ _. return-Runs _ w)

counting-Runs : (n : ℕ) (a : Node) → Whole a → Runs Whole n 0 (counting_of a)
unfolding counting_of
counting-Runs n a w = peek-Runs (λ k. at-Runs (bind-Runs next-Runs (λ _ _. return-Runs _ w)))

postfix_round-Runs :
    (j : TokenKind) (fuel n k : ℕ) (e : Parse Node) (a : Node)
    → n ≤ fuel
    → Runs Whole k 1 e
    → n ≤ k
    → Whole a
    → Runs Whole n 0 (postfix_round fuel e a j)
unfolding postfix_round index_of
postfix_round-Runs lparen fuel n k e a h re le w = call-Runs fuel n k e a h re le w
postfix_round-Runs lbracket fuel n k e a h re le w =
    bind-Runs (lower-Runs re le)
      (λ i wi. bind-Runs (expect-Runs rbracket refl) (λ _ _. return-Runs _ (w, wi)))
postfix_round-Runs dot fuel n k e a h re le w = member-Runs n a w
postfix_round-Runs arrow fuel n k e a h re le w = member-Runs n (deref a) w
postfix_round-Runs _ fuel n k e a h re le w = counting-Runs n a w

postfix_loop-Runs :
    (fuel n k : ℕ) (e : Parse Node) (a : Node)
    → n ≤ fuel
    → Runs Whole k 1 e
    → n ≤ suc k
    → Whole a
    → Runs Whole n 0 (postfix_loop fuel e a)
unfolding postfix_loop go_on
postfix_loop-Runs zero n k e a h re le w = none-Runs out_of_fuel h
postfix_loop-Runs (suc fuel) n k e a h re le w =
    match_any-Runs postfix_marks _ (refl, (refl, (refl, (refl, (refl, (refl, tt))))))
      (λ j.
        bind-Runs (postfix_round-Runs j fuel (n - 1) k e a (omega arith) re (omega arith) w)
          (λ b wb. postfix_loop-Runs fuel (n - 1 - 0) k e b (omega arith) re (omega arith) wb))
      (return-Runs _ w)

postfix-Runs :
    (fuel n : ℕ) (e : Parse Node)
    → n ≤ suc fuel
    → Runs Whole (n - 1) 1 e
    → Runs Whole n 1 (parse_postfix fuel e)
unfolding parse_postfix
postfix-Runs fuel n e h re =
    bind-Runs (primary-Runs n e re)
      (λ a w. postfix_loop-Runs fuel (n - 1) (n - 1) e a (omega arith) re (omega arith) w)

prefixed-RunsAt :
    (k : TokenKind) (n : ℕ) (build : Node → Node) (operand : Parse Node)
    → NotEnd k
    → Runs Whole (n - 1) 1 operand
    → ((a : Node) → Whole a → Whole (build a))
    → RunsAt k Whole n 1 (prefixed build operand)
unfolding prefixed
prefixed-RunsAt k n build operand there r built =
    bind-RunsAt (next-RunsAt there) (λ _ _. bind-Runs r (λ a w. return-Runs _ (built a w)))

pub prefixed_lower-RunsAt :
    (k : TokenKind) (n m : ℕ) (build : Node → Node) (operand : Parse Node)
    → NotEnd k
    → Runs Whole m 1 operand
    → n ≤ suc m
    → ((a : Node) → Whole a → Whole (build a))
    → RunsAt k Whole n 0 (prefixed build operand)
unfolding prefixed
prefixed_lower-RunsAt k n m build operand there r le built =
    bind-RunsAt (next-RunsAt there)
      (λ _ _. bind-Runs (lower-Runs r (omega arith)) (λ a w. return-Runs _ (built a w)))

unary-RunsAt :
    (k : TokenKind) (n : ℕ) (again postfix : Parse Node)
    → Runs Whole (n - 1) 1 again
    → Runs Whole n 1 postfix
    → RunsAt k Whole n 1 (unary_of again postfix k)
unfolding unary_of
unary-RunsAt plusplus n again postfix ra rp = prefixed-RunsAt plusplus n _ again refl ra (λ a w. w)
unary-RunsAt minusminus n again postfix ra rp =
    prefixed-RunsAt minusminus n _ again refl ra (λ a w. w)
unary-RunsAt amper n again postfix ra rp = prefixed-RunsAt amper n _ again refl ra (λ a w. w)
unary-RunsAt star n again postfix ra rp = prefixed-RunsAt star n _ again refl ra (λ a w. w)
unary-RunsAt plus n again postfix ra rp = prefixed-RunsAt plus n _ again refl ra (λ a w. w)
unary-RunsAt minus n again postfix ra rp = prefixed-RunsAt minus n _ again refl ra (λ a w. w)
unary-RunsAt tilde n again postfix ra rp = prefixed-RunsAt tilde n _ again refl ra (λ a w. w)
unary-RunsAt exclam n again postfix ra rp = prefixed-RunsAt exclam n _ again refl ra (λ a w. w)
unary-RunsAt sizeof_kw n again postfix ra rp =
    prefixed-RunsAt sizeof_kw n _ again refl ra (λ a w. w)
unary-RunsAt _ n again postfix ra rp = at-Runs rp

unary-Runs :
    (fuel n : ℕ) (e : Parse Node)
    → n ≤ fuel
    → Runs Whole (n - 1) 1 e
    → Runs Whole n 1 (parse_unary fuel e)
unfolding parse_unary
unary-Runs zero n e h re = none-Runs (parse_unary zero e) h
unary-Runs (suc fuel) n e h re = peek-Runs (λ k.
    unary-RunsAt k n (parse_unary fuel e) (parse_postfix fuel e)
      (unary-Runs fuel (n - 1) e (omega arith) (weaken-Runs re (omega arith) (omega arith)))
      (postfix-Runs fuel n e (omega arith) re))

cast_of-RunsAt :
    (k : TokenKind) (fuel n : ℕ) (again unary : Parse Node)
    → NotEnd k
    → n ≤ fuel
    → Runs Whole (n - 1) 1 again
    → Runs Whole n 1 unary
    → RunsAt k Whole n 1 (cast_of fuel again unary)
unfolding cast_of
cast_of-RunsAt k fuel n again unary there h ra ru = bind-RunsAt (next-RunsAt there) (λ _ _.
    bind-Runs (type_spec-Runs fuel (n - 1) (omega arith)) (λ type _. peek-Runs (λ j.
      choose-RunsAt (is_kind j rparen)
        (λ e.
          prefixed_lower-RunsAt j _ (n - 1) _ again (same-NotEnd j rparen refl e) ra (omega arith)
            (λ a w. w))
        (λ _. at-Runs (lower-Runs ru (omega arith))))))

pub cast-Runs :
    (fuel n : ℕ) (e : Parse Node)
    → n ≤ fuel
    → Runs Whole (n - 1) 1 e
    → Runs Whole n 1 (parse_cast fuel e)
unfolding parse_cast
cast-Runs zero n e h re = none-Runs (parse_cast zero e) h
cast-Runs (suc fuel) n e h re = peek-Runs (λ k.
    choose-RunsAt (is_kind k lparen)
      (λ f.
        cast_of-RunsAt k (suc fuel) n (parse_cast fuel e) (parse_unary (suc fuel) e)
          (same-NotEnd k lparen refl f) h
          (cast-Runs fuel (n - 1) e (omega arith) (weaken-Runs re (omega arith) (omega arith)))
          (unary-Runs (suc fuel) n e h re))
      (λ _. at-Runs (unary-Runs (suc fuel) n e h re)))
