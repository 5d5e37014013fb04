-- ===== src/Hvmc/Parser/StmtEnds.antt =====
-- The parsers of statements and declarations end, on every input, with a tree in which a null pointer stands
-- only where a part is optional.
use hvmsys.Base.{ℕ, zero, suc, ◌-◌, ◌≤◌, refl, arith, Bool, true, false, ◌||◌, Option, none, some}
use hvmsys.Base.Text.{Bytes}
use hvmsys.Hvmc.Token.{
  TokenKind, is_kind, end_of_input, ident_tok, number_lit, lparen, rparen, lbrace, rbrace, lbracket,
  rbracket, semicolon, comma, eq, extern_kw, static_kw,
}
use hvmsys.Hvmc.Ast.{CType, Node}
use hvmsys.Hvmc.Codegen.Whole.{IsWhole, AreWhole, optional-IsWhole}
use hvmsys.Hvmc.Parser.Monad.{Parse, out_of_fuel}
use hvmsys.Hvmc.Parser.Statements.{
  unless_kind, parse_array_size, parse_variable_decl, parse_parameter, parameter_loop, block_loop,
  parse_block, parse_body, parse_function_def, parse_named, parse_declared, parse_declaration,
}
use hvmsys.Hvmc.Parser.Runs.{
  Any, Runs, return-Runs, throw-Runs, weaken-Runs, map-Runs, lower-Runs, at-Runs, bind-Runs,
  choose-Runs, next-Runs, expect-Runs, peek-Runs,
}
use hvmsys.Hvmc.Parser.Matches.{match_choose-Runs, flag-Runs}
use hvmsys.Hvmc.Parser.SpecEnds.{none-Runs, type_spec-Runs, declarator-Runs}
use hvmsys.Hvmc.Parser.ExprEnds.{Whole}

abbrev pub Optional : Node → Type 0
Optional n = IsWhole n true

pub Optional-Runs : {n k : ℕ} {m : Parse Node} → Runs Whole k 1 m → n ≤ k → Runs Optional n 0 m
Optional-Runs r le = map-Runs (lower-Runs r le) optional-IsWhole

pub unless-Runs :
    (stop : TokenKind) (n k : ℕ) (m : Parse Node)
    → Runs Whole k 1 m
    → n ≤ k
    → Runs Optional n 0 (unless_kind stop m)
unfolding unless_kind
unless-Runs stop n k m r le =
    peek-Runs (λ j. at-Runs (choose-Runs (is_kind j stop) (return-Runs _ tt) (Optional-Runs r le)))

array_size-Runs : (n : ℕ) (type : CType) → Runs Any n 0 (parse_array_size type)
unfolding parse_array_size
array_size-Runs n type = peek-Runs (λ j. at-Runs (
    bind-Runs
      (choose-Runs (is_kind j number_lit) (bind-Runs next-Runs (λ _ _. return-Runs {P = Any} _ tt))
        (return-Runs _ tt))
      (λ sized _. bind-Runs (expect-Runs rbracket refl) (λ _ _. return-Runs _ tt))))

variable_decl-Runs :
    (n k : ℕ) (e : Parse Node) (type : CType) (name : Bytes) (is_extern is_static : Bool)
    → Runs Whole k 1 e
    → n ≤ k
    → Runs Whole n 1 (parse_variable_decl e type name is_extern is_static)
unfolding parse_variable_decl
variable_decl-Runs n k e type name is_extern is_static re le =
    match_choose-Runs {P = Any} lbracket _ _ _ refl (array_size-Runs (n - 1) type)
      (return-Runs _ tt)
      (λ var_type _.
        match_choose-Runs {P = Optional} eq _ _ _ refl (Optional-Runs re (omega arith))
          (return-Runs _ tt)
          (λ init w. bind-Runs (expect-Runs semicolon refl) (λ _ _. return-Runs _ w)))

parameter-Runs : (fuel n : ℕ) → n ≤ fuel → Runs Whole n 0 (parse_parameter fuel)
unfolding parse_parameter
parameter-Runs fuel n h = bind-Runs (type_spec-Runs fuel n h) (λ base _.
    bind-Runs (declarator-Runs fuel (n - 0) base (omega arith)) (λ declared _. return-Runs _ tt))

parameter_loop-Runs : (fuel n : ℕ) → n ≤ fuel → Runs AreWhole n 0 (parameter_loop fuel)
unfolding parameter_loop
parameter_loop-Runs zero n h = none-Runs out_of_fuel h
parameter_loop-Runs (suc fuel) n h = bind-Runs (parameter-Runs (suc fuel) n h) (λ a w.
    match_choose-Runs {P = AreWhole} comma _ _ _ refl
      (parameter_loop-Runs fuel (n - 0 - 1) (omega arith)) (return-Runs _ tt)
      (λ more ws. return-Runs _ (w, ws)))

block_loop-Runs :
    (fuel n k : ℕ) (statement : Parse Node)
    → n ≤ fuel
    → Runs Whole k 1 statement
    → n ≤ k
    → Runs AreWhole n 0 (block_loop fuel statement)
unfolding block_loop
block_loop-Runs zero n k statement h r le = none-Runs (block_loop zero statement) h
block_loop-Runs (suc fuel) n k statement h r le = peek-Runs (λ j. at-Runs (
    choose-Runs (is_kind j rbrace || is_kind j end_of_input) (return-Runs _ tt) (
      bind-Runs (weaken-Runs {d = 1} r le (omega arith)) (λ a w.
        bind-Runs (block_loop-Runs fuel (n - 1) k statement (omega arith) r (omega arith))
          (λ more ws. return-Runs _ (w, ws))))))

pub block-Runs :
    (fuel n k : ℕ) (statement : Parse Node)
    → n ≤ fuel
    → Runs Whole k 1 statement
    → n ≤ suc k
    → Runs Whole n 1 (parse_block fuel statement)
unfolding parse_block
block-Runs fuel n k statement h r le = bind-Runs (expect-Runs lbrace refl) (λ _ _.
    bind-Runs (block_loop-Runs fuel (n - 1) k statement (omega arith) r (omega arith))
      (λ ns ws. bind-Runs (expect-Runs rbrace refl) (λ _ _. return-Runs _ ws)))

body-Runs :
    (n : ℕ) (body : Parse Node) (b : Bool)
    → Runs Whole n 1 body
    → Runs Optional n 0 (parse_body body b)
unfolding parse_body
body-Runs n body true r = Optional-Runs r (omega arith)
body-Runs n body false r = bind-Runs (expect-Runs semicolon refl) (λ _ _. return-Runs _ tt)

function_def-Runs :
    (fuel n k : ℕ) (statement : Parse Node) (type : CType) (name : Bytes)
    → n ≤ fuel
    → Runs Whole k 1 statement
    → n ≤ suc k
    → Runs Whole n 1 (parse_function_def fuel statement type name)
unfolding parse_function_def
function_def-Runs fuel n k statement type name h r le = bind-Runs (expect-Runs lparen refl) (λ _ _.
    peek-Runs (λ j. at-Runs (
      bind-Runs
        (choose-Runs (is_kind j rparen) (return-Runs {P = AreWhole} _ tt)
          (parameter_loop-Runs fuel (n - 1) (omega arith)))
        (λ params ws. bind-Runs (expect-Runs rparen refl) (λ _ _. peek-Runs (λ i. at-Runs (
          bind-Runs
            (body-Runs (n - 1 - 0 - 1) _ (is_kind i lbrace)
              (block-Runs fuel (n - 1 - 0 - 1) k statement (omega arith) r (omega arith)))
            (λ body w. return-Runs _ (ws, w)))))))))

pub declaration-Runs :
    (fuel n : ℕ) (e statement : Parse Node)
    → n ≤ fuel
    → Runs Whole n 1 e
    → Runs Whole (n - 1) 1 statement
    → Runs Whole n 1 (parse_declaration fuel e statement)
unfolding parse_declaration parse_named parse_declared
declaration-Runs fuel n e statement h re rs = flag-Runs extern_kw _ refl (λ is_extern.
    flag-Runs static_kw _ refl (λ is_static. bind-Runs (type_spec-Runs fuel n h) (λ type _.
      peek-Runs (λ j. at-Runs (
        choose-Runs (is_kind j ident_tok) (named type is_extern is_static) (
          bind-Runs (declarator-Runs fuel (n - 0) type (omega arith))
            (λ d _. declared d.0 d.1 is_extern is_static)))))))
  where
    named :
        (type : CType) (is_extern is_static : Bool)
        → Runs Whole (n - 0) 1 (parse_named fuel e statement type is_extern is_static)
    named type is_extern is_static = bind-Runs next-Runs (λ name _. peek-Runs (λ j. at-Runs (
        choose-Runs (is_kind j lparen)
          (function_def-Runs fuel (n - 0 - 0) (n - 1) statement type _ (omega arith) rs
            (omega arith))
          (variable_decl-Runs (n - 0 - 0) n e type _ is_extern is_static re (omega arith)))))

    declared :
        (type : CType) (name : Option Bytes) (is_extern is_static : Bool)
        → Runs Whole (n - 0 - 0) 1 (parse_declared e (type, name) is_extern is_static)
    declared type (some name) is_extern is_static =
        variable_decl-Runs (n - 0 - 0) n e type name is_extern is_static re (omega arith)
    declared type none is_extern is_static = throw-Runs
