-- ===== src/Hvmc/Parser.antt =====
-- The class Parser of src/tools/hvmc/src/parser.cpp.
pub mod Monad
pub mod Specifiers
pub mod Expressions
pub mod Statements
pub mod Reads
pub mod Runs
pub mod Matches
pub mod SpecEnds
pub mod ExprEnds
pub mod LevelEnds
pub mod StmtEnds
pub mod Total
use hvmsys.Base.{ℕ, zero, suc, ◌+◌, length, []}
use hvmsys.Base.Text.{Bytes}
use hvmsys.Hvmc.Token.{is_kind, end_of_input}
use hvmsys.Hvmc.Lexer.{new}
use hvmsys.Hvmc.Ast.{Node, Nodes, empty, node, program}
use hvmsys.Hvmc.Parser.Monad.{Outcome, Parse, ◌>>=◌, return, out_of_fuel, choose, peek_kind}
use hvmsys.Hvmc.Parser.Expressions.{parse_assignment}
use hvmsys.Hvmc.Parser.Statements.{parse_declaration, parse_statement}

unfoldable pub declaration_loop : ℕ → Parse Nodes
declaration_loop zero l = out_of_fuel l
declaration_loop (suc fuel) l =
    (do
      kind ← peek_kind
      choose (is_kind kind end_of_input) (return empty) (
          parse_declaration (suc fuel) (parse_assignment (suc fuel)) (parse_statement (suc fuel))
          >>= λ n. declaration_loop fuel >>= λ more. return (node n more)))
      l

-- Every round of every loop and every nested call reads a token, so the number of bytes is fuel enough.
unfoldable pub parse : Bytes → Outcome Node
parse source =
    (declaration_loop (suc (length source)) >>= λ nodes. return (program nodes)) (new source)
