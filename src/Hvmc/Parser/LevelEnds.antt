-- ===== src/Hvmc/Parser/LevelEnds.antt =====
-- The levels of binary operators, and assignments, end with a tree that has no null pointer in it.
use hvmsys.Base.{ℕ, zero, suc, ◌-◌, ◌≤◌, ◌≡◌, refl, arith, true, List}
use hvmsys.Hvmc.Token.{TokenKind}
use hvmsys.Hvmc.Ast.{Node}
use hvmsys.Hvmc.Parser.Monad.{Parse, out_of_fuel}
use hvmsys.Hvmc.Parser.Expressions.{
  go_on, binary_loop, binary_level, parse_multiplicative, parse_additive, parse_shift,
  parse_relational, parse_equality, parse_bitwise_and, parse_bitwise_xor, parse_bitwise_or,
  parse_logical_and, parse_logical_or, is_assignment, parse_assignment,
}
use hvmsys.Hvmc.Parser.Runs.{
  Runs, return-Runs, lower-Runs, at-Runs, bind-Runs, choose-RunsAt, peek-Runs,
}
use hvmsys.Hvmc.Parser.Reads.{NotEnd}
use hvmsys.Hvmc.Parser.Matches.{match_any-Runs, AllNotEnd}
use hvmsys.Hvmc.Parser.SpecEnds.{none-Runs}
use hvmsys.Hvmc.Parser.ExprEnds.{Whole, cast-Runs, prefixed_lower-RunsAt}

binary_loop-Runs :
    (ks : List TokenKind) (operand : Parse Node) (fuel n k : ℕ) (a : Node)
    → AllNotEnd ks
    → n ≤ fuel
    → Runs Whole k 1 operand
    → n ≤ k
    → Whole a
    → Runs Whole n 0 (binary_loop ks operand fuel a)
unfolding binary_loop go_on
binary_loop-Runs ks operand zero n k a all h r le w = none-Runs out_of_fuel h
binary_loop-Runs ks operand (suc fuel) n k a all h r le w =
    match_any-Runs ks _ all
      (λ op.
        bind-Runs {P = Whole} {c = 0}
          (bind-Runs (lower-Runs r (omega arith)) (λ b wb. return-Runs _ (w, wb)))
          (λ b wb.
            binary_loop-Runs ks operand fuel (n - 1 - 0) k b all (omega arith) r (omega arith) wb))
      (return-Runs _ w)

level-Runs :
    (ks : List TokenKind) (operand : Parse Node) (fuel n : ℕ)
    → AllNotEnd ks
    → n ≤ fuel
    → Runs Whole n 1 operand
    → Runs Whole n 1 (binary_level ks operand fuel)
unfolding binary_level
level-Runs ks operand fuel n all h r =
    bind-Runs r
      (λ a w. binary_loop-Runs ks operand fuel (n - 1) n a all (omega arith) r (omega arith) w)

multiplicative-Runs :
    (fuel n : ℕ) (e : Parse Node)
    → n ≤ fuel
    → Runs Whole (n - 1) 1 e
    → Runs Whole n 1 (parse_multiplicative fuel e)
unfolding parse_multiplicative
multiplicative-Runs fuel n e h re =
    level-Runs _ _ fuel n (refl, (refl, (refl, tt))) h (cast-Runs fuel n e h re)

additive-Runs :
    (fuel n : ℕ) (e : Parse Node)
    → n ≤ fuel
    → Runs Whole (n - 1) 1 e
    → Runs Whole n 1 (parse_additive fuel e)
unfolding parse_additive
additive-Runs fuel n e h re =
    level-Runs _ _ fuel n (refl, (refl, tt)) h (multiplicative-Runs fuel n e h re)

shift-Runs :
    (fuel n : ℕ) (e : Parse Node)
    → n ≤ fuel
    → Runs Whole (n - 1) 1 e
    → Runs Whole n 1 (parse_shift fuel e)
unfolding parse_shift
shift-Runs fuel n e h re = level-Runs _ _ fuel n (refl, (refl, tt)) h (additive-Runs fuel n e h re)

relational-Runs :
    (fuel n : ℕ) (e : Parse Node)
    → n ≤ fuel
    → Runs Whole (n - 1) 1 e
    → Runs Whole n 1 (parse_relational fuel e)
unfolding parse_relational
relational-Runs fuel n e h re =
    level-Runs _ _ fuel n (refl, (refl, (refl, (refl, tt)))) h (shift-Runs fuel n e h re)

equality-Runs :
    (fuel n : ℕ) (e : Parse Node)
    → n ≤ fuel
    → Runs Whole (n - 1) 1 e
    → Runs Whole n 1 (parse_equality fuel e)
unfolding parse_equality
equality-Runs fuel n e h re =
    level-Runs _ _ fuel n (refl, (refl, tt)) h (relational-Runs fuel n e h re)

bitwise_and-Runs :
    (fuel n : ℕ) (e : Parse Node)
    → n ≤ fuel
    → Runs Whole (n - 1) 1 e
    → Runs Whole n 1 (parse_bitwise_and fuel e)
unfolding parse_bitwise_and
bitwise_and-Runs fuel n e h re = level-Runs _ _ fuel n (refl, tt) h (equality-Runs fuel n e h re)

bitwise_xor-Runs :
    (fuel n : ℕ) (e : Parse Node)
    → n ≤ fuel
    → Runs Whole (n - 1) 1 e
    → Runs Whole n 1 (parse_bitwise_xor fuel e)
unfolding parse_bitwise_xor
bitwise_xor-Runs fuel n e h re = level-Runs _ _ fuel n (refl, tt) h (bitwise_and-Runs fuel n e h re)

bitwise_or-Runs :
    (fuel n : ℕ) (e : Parse Node)
    → n ≤ fuel
    → Runs Whole (n - 1) 1 e
    → Runs Whole n 1 (parse_bitwise_or fuel e)
unfolding parse_bitwise_or
bitwise_or-Runs fuel n e h re = level-Runs _ _ fuel n (refl, tt) h (bitwise_xor-Runs fuel n e h re)

logical_and-Runs :
    (fuel n : ℕ) (e : Parse Node)
    → n ≤ fuel
    → Runs Whole (n - 1) 1 e
    → Runs Whole n 1 (parse_logical_and fuel e)
unfolding parse_logical_and
logical_and-Runs fuel n e h re = level-Runs _ _ fuel n (refl, tt) h (bitwise_or-Runs fuel n e h re)

logical_or-Runs :
    (fuel n : ℕ) (e : Parse Node)
    → n ≤ fuel
    → Runs Whole (n - 1) 1 e
    → Runs Whole n 1 (parse_logical_or fuel e)
unfolding parse_logical_or
logical_or-Runs fuel n e h re = level-Runs _ _ fuel n (refl, tt) h (logical_and-Runs fuel n e h re)

is_assignment-NotEnd : (k : TokenKind) → is_assignment k ≡ true → NotEnd k
is_assignment-NotEnd k e = ground (arith, e)

-- parse_assignment, the parser of all expressions.
pub assignment-Runs : (fuel n : ℕ) → n ≤ fuel → Runs Whole n 1 (parse_assignment fuel)
unfolding parse_assignment
assignment-Runs zero n h = none-Runs (parse_assignment zero) h
assignment-Runs (suc fuel) n h =
    let deeper : Runs Whole (n - 1) 1 (parse_assignment fuel) =
      assignment-Runs fuel (n - 1) (omega arith) in
    bind-Runs (logical_or-Runs (suc fuel) n (parse_assignment fuel) h deeper) (λ a w.
      peek-Runs (λ k.
        choose-RunsAt (is_assignment k)
          (λ e.
            prefixed_lower-RunsAt k _ (n - 1) _ (parse_assignment fuel) (is_assignment-NotEnd k e)
              deeper (omega arith) (λ b wb. (w, wb)))
          (λ _. at-Runs (return-Runs _ w))))
