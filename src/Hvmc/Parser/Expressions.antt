-- ===== src/Hvmc/Parser/Expressions.antt =====
-- The expressions of src/tools/hvmc/src/parser.cpp, from parse_assignment down to parse_primary. Each takes
-- the fuel of its loops, and `expression`, the parser of the expressions inside brackets.
use hvmsys.Base.{ℕ, zero, suc, Bool, true, false, ◌||◌, List, [], ◌∷◌, Option, none, some}
use hvmsys.Base.Text.{Bytes}
use hvmsys.Hvmc.Token.{
  TokenKind, is_kind, Token, ident_tok, number_lit, string_lit, char_lit, lparen, rparen, lbracket,
  rbracket, comma, dot, arrow, plus, minus, star, slash, percent, amper, pipe, caret, tilde, exclam,
  eq, eqeq, neq, lt, le, gt, ge, andand, oror, plusplus, minusminus, plus_eq, minus_eq, star_eq,
  lshift, rshift, sizeof_kw, inline_asm,
}
use hvmsys.Hvmc.Ast.{
  Node, Nodes, empty, node, binary_op, unary_op, assign, call, variable, constant, string_node,
  deref, address_of, sizeof_expr, member_access, array_index, cast_expr, asm_stmt,
}
use hvmsys.Hvmc.Parser.Monad.{
  Parse, ◌>>=◌, return, throw_error, out_of_fuel, choose, parser_peek, peek_kind, parser_next,
  parser_expect, parser_match, match_any, str_dup,
}
use hvmsys.Hvmc.Parser.Specifiers.{parse_type_spec}

-- `next()` in front of more.
unfoldable pub past_token : Parse Node → Parse Node
past_token more = parser_next >>= λ t. more

unfoldable pub in_parentheses : Parse Node → Parse Node
in_parentheses expression = do
  opening ← parser_next
  e ← expression
  closing ← parser_expect rparen
  return e

-- parse_primary on a token of the kind.
unfoldable pub primary_of : Parse Node → Token → TokenKind → Parse Node
primary_of expression t lparen = in_parentheses expression
primary_of expression t number_lit = past_token (return (constant t.intval))
primary_of expression t string_lit = past_token (return (string_node (str_dup t.text)))
primary_of expression t char_lit = past_token (return (constant t.intval))
primary_of expression t ident_tok = past_token (return (variable (str_dup t.text)))
primary_of expression t inline_asm = past_token (return (asm_stmt (str_dup t.text)))
primary_of expression t _ = throw_error

unfoldable pub parse_primary : Parse Node → Parse Node
parse_primary expression = do t ← parser_peek; primary_of expression t t.kind

-- `do args.push(parse_expression()); while (match(COMMA));`
unfoldable pub argument_loop : ℕ → Parse Node → Parse Nodes
argument_loop zero expression = out_of_fuel
argument_loop (suc fuel) expression = do
  argument ← expression
  another ← parser_match comma
  more ← choose another (argument_loop fuel expression) (return empty)
  return (node argument more)

-- A call behind its opening parenthesis.
unfoldable pub parse_arguments : ℕ → Parse Node → Bytes → Parse Node
parse_arguments fuel expression name = do
  kind ← peek_kind
  arguments ← choose (is_kind kind rparen) (return empty) (argument_loop fuel expression)
  closing ← parser_expect rparen
  return (call name arguments)

-- What a `(` behind an expression does: only a variable is called.
unfoldable pub call_of : ℕ → Parse Node → Node → Parse Node
call_of fuel expression (variable name) = parse_arguments fuel expression name
call_of fuel expression n = return n

unfoldable pub index_of : Parse Node → Node → Parse Node
index_of expression n = do
  index ← expression
  closing ← parser_expect rbracket
  return (array_index n index)

unfoldable pub member_of : Node → Parse Node
member_of n = do name ← parser_expect ident_tok; return (member_access n (str_dup name.text))

abbrev pub postfix_op : TokenKind → TokenKind
postfix_op plusplus = plusplus
postfix_op _ = minusminus

-- The operator is chosen by the token behind the one that matched, and that token is read too.
unfoldable pub counting_of : Node → Parse Node
counting_of n = do
  kind ← peek_kind
  skipped ← parser_next
  return (unary_op (postfix_op kind) n false)

-- A round of the loop of parse_postfix behind the token that matched.
unfoldable pub postfix_round : ℕ → Parse Node → Node → TokenKind → Parse Node
postfix_round fuel expression n lparen = call_of fuel expression n
postfix_round fuel expression n lbracket = index_of expression n
postfix_round fuel expression n dot = member_of n
postfix_round fuel expression n arrow = member_of (deref n)
postfix_round fuel expression n _ = counting_of n

abbrev pub postfix_marks : List TokenKind
postfix_marks = lparen ∷ lbracket ∷ dot ∷ arrow ∷ plusplus ∷ minusminus ∷ []

-- Where a token matched, a round and the loop again; else the expression so far.
unfoldable pub go_on :
    (TokenKind → Parse Node) → (Node → Parse Node) → Node → Option TokenKind → Parse Node
go_on round again n none = return n
go_on round again n (some k) = round k >>= again

unfoldable pub postfix_loop : ℕ → Parse Node → Node → Parse Node
postfix_loop zero expression n = out_of_fuel
postfix_loop (suc fuel) expression n = do
  matched ← match_any postfix_marks
  go_on (postfix_round fuel expression n) (postfix_loop fuel expression) n matched

unfoldable pub parse_postfix : ℕ → Parse Node → Parse Node
parse_postfix fuel expression = parse_primary expression >>= postfix_loop fuel expression

-- A prefix operator in front of an operand.
unfoldable pub prefixed : (Node → Node) → Parse Node → Parse Node
prefixed build operand = do t ← parser_next; n ← operand; return (build n)

-- parse_unary on a token of the kind; `again` is parse_unary and `postfix` parse_postfix.
unfoldable pub unary_of : Parse Node → Parse Node → TokenKind → Parse Node
unary_of again postfix plusplus = prefixed (λ n. unary_op plusplus n true) again
unary_of again postfix minusminus = prefixed (λ n. unary_op minusminus n true) again
unary_of again postfix amper = prefixed address_of again
unary_of again postfix star = prefixed deref again
unary_of again postfix plus = prefixed (λ n. n) again
unary_of again postfix minus = prefixed (λ n. unary_op minus n true) again
unary_of again postfix tilde = prefixed (λ n. unary_op tilde n true) again
unary_of again postfix exclam = prefixed (λ n. unary_op exclam n true) again
unary_of again postfix sizeof_kw = prefixed sizeof_expr again
unary_of again postfix _ = postfix

unfoldable pub parse_unary : ℕ → Parse Node → Parse Node
parse_unary zero expression l = out_of_fuel l
parse_unary (suc fuel) expression l =
    (peek_kind >>= unary_of (parse_unary fuel expression) (parse_postfix fuel expression)) l

-- parse_cast behind a `(`. Where no `)` follows the type, the parenthesis is lost.
unfoldable pub cast_of : ℕ → Parse Node → Parse Node → Parse Node
cast_of fuel again unary = do
  opening ← parser_next
  cast_type ← parse_type_spec fuel
  kind ← peek_kind
  choose (is_kind kind rparen) (prefixed (λ n. cast_expr n cast_type) again) unary

unfoldable pub parse_cast : ℕ → Parse Node → Parse Node
parse_cast zero expression l = out_of_fuel l
parse_cast (suc fuel) expression l =
    (peek_kind >>= λ kind.
    choose (is_kind kind lparen)
      (cast_of (suc fuel) (parse_cast fuel expression) (parse_unary (suc fuel) expression))
      (parse_unary (suc fuel) expression))
      l

-- One level of binary operators that group to the left.
unfoldable pub binary_loop : List TokenKind → Parse Node → ℕ → Node → Parse Node
binary_loop operators operand zero left = out_of_fuel
binary_loop operators operand (suc fuel) left = do
  matched ← match_any operators
  go_on (λ op. operand >>= λ right. return (binary_op op left right))
      (binary_loop operators operand fuel) left matched

unfoldable pub binary_level : List TokenKind → Parse Node → ℕ → Parse Node
binary_level operators operand fuel = operand >>= binary_loop operators operand fuel

unfoldable pub parse_multiplicative : ℕ → Parse Node → Parse Node
parse_multiplicative fuel expression =
    binary_level (star ∷ slash ∷ percent ∷ []) (parse_cast fuel expression) fuel

unfoldable pub parse_additive : ℕ → Parse Node → Parse Node
parse_additive fuel expression =
    binary_level (plus ∷ minus ∷ []) (parse_multiplicative fuel expression) fuel

unfoldable pub parse_shift : ℕ → Parse Node → Parse Node
parse_shift fuel expression =
    binary_level (lshift ∷ rshift ∷ []) (parse_additive fuel expression) fuel

unfoldable pub parse_relational : ℕ → Parse Node → Parse Node
parse_relational fuel expression =
    binary_level (lt ∷ gt ∷ le ∷ ge ∷ []) (parse_shift fuel expression) fuel

unfoldable pub parse_equality : ℕ → Parse Node → Parse Node
parse_equality fuel expression =
    binary_level (eqeq ∷ neq ∷ []) (parse_relational fuel expression) fuel

unfoldable pub parse_bitwise_and : ℕ → Parse Node → Parse Node
parse_bitwise_and fuel expression = binary_level (amper ∷ []) (parse_equality fuel expression) fuel

unfoldable pub parse_bitwise_xor : ℕ → Parse Node → Parse Node
parse_bitwise_xor fuel expression =
    binary_level (caret ∷ []) (parse_bitwise_and fuel expression) fuel

unfoldable pub parse_bitwise_or : ℕ → Parse Node → Parse Node
parse_bitwise_or fuel expression = binary_level (pipe ∷ []) (parse_bitwise_xor fuel expression) fuel

unfoldable pub parse_logical_and : ℕ → Parse Node → Parse Node
parse_logical_and fuel expression =
    binary_level (andand ∷ []) (parse_bitwise_or fuel expression) fuel

unfoldable pub parse_logical_or : ℕ → Parse Node → Parse Node
parse_logical_or fuel expression = binary_level (oror ∷ []) (parse_logical_and fuel expression) fuel

abbrev pub is_assignment : TokenKind → Bool
is_assignment k = (is_kind k eq || is_kind k plus_eq) || (is_kind k minus_eq || is_kind k star_eq)

-- All operators of assignment give the same node.
unfoldable pub parse_assignment : ℕ → Parse Node
parse_assignment zero l = out_of_fuel l
parse_assignment (suc fuel) l =
    (parse_logical_or (suc fuel) (parse_assignment fuel) >>= λ target. peek_kind >>= λ kind.
    choose (is_assignment kind) (prefixed (assign target) (parse_assignment fuel)) (return target))
      l
