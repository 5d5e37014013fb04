-- ===== src/Hvmc/Parser/SpecEnds.antt =====
-- The parsers of types and declarators end, on every input.
use hvmsys.Base.{ℕ, zero, suc, ◌-◌, ◌≤◌, refl, arith, Bool, true, false}
use hvmsys.Hvmc.Token.{
  TokenKind, is_kind, const_kw, volatile_kw, unsigned_kw, signed_kw, long_kw, short_kw, void_kw,
  char_kw, int_kw, struct_kw, ident_tok, star,
}
use hvmsys.Hvmc.Ast.{CType, DataType}
use hvmsys.Hvmc.Parser.Monad.{Parse, out_of_fuel}
use hvmsys.Hvmc.Parser.Specifiers.{
  Spec, new_spec, spec_step, spec_round, spec_loop, parse_type_spec, star_loop, parse_name,
  parse_declarator,
}
use hvmsys.Hvmc.Parser.Runs.{
  Any, Runs, RunsAt, return-Runs, at-Runs, bind-Runs, bind-RunsAt, next-Runs, next-RunsAt,
  expect-Runs, peek-Runs,
}
use hvmsys.Hvmc.Parser.Matches.{match-Runs, choose-true-Runs, choose-false-Runs}

-- Nothing is below 0.
pub none-Runs : {A : Type 0} {P : A → Type 0} {n d : ℕ} (m : Parse A) → n ≤ 0 → Runs P n d m
none-Runs m h = record { run = λ l k. absurd (omega arith) }

round-RunsAt :
    (k : TokenKind) (n : ℕ) (again : Spec → Parse (Spec × DataType)) (s : Spec)
    → ((s1 : Spec) → Runs Any (n - 1) 0 (again s1))
    → RunsAt k Any n 0 (spec_round again s (spec_step s k))
unfolding spec_round
round-RunsAt const_kw n again s r = bind-RunsAt (next-RunsAt refl) (λ t _. r _)
round-RunsAt volatile_kw n again s r = bind-RunsAt (next-RunsAt refl) (λ t _. r _)
round-RunsAt unsigned_kw n again s r = bind-RunsAt (next-RunsAt refl) (λ t _. r _)
round-RunsAt signed_kw n again s r = bind-RunsAt (next-RunsAt refl) (λ t _. r _)
round-RunsAt long_kw n again s r = bind-RunsAt (next-RunsAt refl) (λ t _. r _)
round-RunsAt short_kw n again s r = at-Runs (bind-Runs next-Runs (λ t _. return-Runs _ tt))
round-RunsAt void_kw n again s r = at-Runs (bind-Runs next-Runs (λ t _. return-Runs _ tt))
round-RunsAt char_kw n again s r = at-Runs (bind-Runs next-Runs (λ t _. return-Runs _ tt))
round-RunsAt int_kw n again s r = at-Runs (bind-Runs next-Runs (λ t _. return-Runs _ tt))
round-RunsAt struct_kw n again s r = at-Runs (
    bind-Runs next-Runs
      (λ t _. bind-Runs (expect-Runs ident_tok refl) (λ name _. return-Runs _ tt)))
round-RunsAt _ n again s r = at-Runs (return-Runs _ tt)

spec_loop-Runs : (fuel n : ℕ) (s : Spec) → n ≤ fuel → Runs Any n 0 (spec_loop fuel s)
unfolding spec_loop
spec_loop-Runs zero n s h = none-Runs out_of_fuel h
spec_loop-Runs (suc fuel) n s h =
    peek-Runs (λ k.
      round-RunsAt k n (spec_loop fuel) s (λ s1. spec_loop-Runs fuel (n - 1) s1 (omega arith)))

pub type_spec-Runs : (fuel n : ℕ) → n ≤ fuel → Runs Any n 0 (parse_type_spec fuel)
unfolding parse_type_spec
type_spec-Runs fuel n h = bind-Runs (spec_loop-Runs fuel n new_spec h) (λ a _. return-Runs _ tt)

star_loop-Runs : (fuel n : ℕ) (type : CType) → n ≤ fuel → Runs Any n 0 (star_loop fuel type)
unfolding star_loop
star_loop-Runs zero n type h = none-Runs out_of_fuel h
star_loop-Runs (suc fuel) n type h =
    match-Runs star _ refl (choose-true-Runs _ (star_loop-Runs fuel (n - 1) _ (omega arith)))
      (choose-false-Runs _ (return-Runs _ tt))

name-Runs : (n : ℕ) (b : Bool) → Runs Any n 0 (parse_name b)
unfolding parse_name
name-Runs n true = bind-Runs next-Runs (λ t _. return-Runs _ tt)
name-Runs n false = return-Runs _ tt

pub declarator-Runs :
    (fuel n : ℕ) (base : CType) → n ≤ fuel → Runs Any n 0 (parse_declarator fuel base)
unfolding parse_declarator
declarator-Runs fuel n base h = bind-Runs (star_loop-Runs fuel n base h) (λ type _.
    peek-Runs
      (λ k. at-Runs (bind-Runs (name-Runs _ (is_kind k ident_tok)) (λ name _. return-Runs _ tt))))
