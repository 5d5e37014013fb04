-- ===== src/Hvmc/Parser/Statements.antt =====
-- The statements of src/tools/hvmc/src/parser.cpp. `fuel` is for the loops, `expression` is
-- parse_expression and `statement` parse_statement.
use hvmsys.Base.{ℕ, zero, suc, ◌%◌, ◌^◌, Bool, true, false, ◌||◌, Option, none, some, []}
use hvmsys.Base.Text.{Bytes}
use hvmsys.Hvmc.Token.{
  TokenKind, is_kind, end_of_input, ident_tok, number_lit, lparen, rparen, lbrace, rbrace, lbracket,
  rbracket, semicolon, comma, eq, if_kw, else_kw, while_kw, for_kw, do_kw, break_kw, continue_kw,
  return_kw, int_kw, char_kw, short_kw, long_kw, unsigned_kw, signed_kw, void_kw, static_kw,
  extern_kw, const_kw, struct_kw, inline_asm,
}
use hvmsys.Hvmc.Ast.{
  CType, Node, Nodes, empty, node, null, function_def, variable_decl, block, if_stmt, while_stmt,
  for_stmt, do_while_stmt, return_stmt, break_stmt, continue_stmt, empty_stmt, expr_stmt, asm_stmt,
}
use hvmsys.Hvmc.Parser.Monad.{
  Parse, ◌>>=◌, return, throw_error, out_of_fuel, choose, peek_kind, parser_next, parser_expect,
  parser_match, str_dup,
}
use hvmsys.Hvmc.Parser.Specifiers.{parse_type_spec, parse_declarator}
use hvmsys.Hvmc.Parser.Expressions.{past_token, parse_assignment}

-- `n`, unless the next token is of the kind; then a null pointer.
unfoldable pub unless_kind : TokenKind → Parse Node → Parse Node
unless_kind stop n = do kind ← peek_kind; choose (is_kind kind stop) (return null) n

-- `[n]` or `[]` behind the name of a variable.
unfoldable pub parse_array_size : CType → Parse CType
parse_array_size type = do
  kind ← peek_kind
  sized ←
      choose (is_kind kind number_lit)
        (parser_next >>= λ n. return (record type { array_size = n.intval % 2 ^ 32 })) (return type)
  closing ← parser_expect rbracket
  return sized

unfoldable pub parse_variable_decl : Parse Node → CType → Bytes → Bool → Bool → Parse Node
parse_variable_decl expression type name is_extern is_static = do
  array ← parser_match lbracket
  var_type ← choose array (parse_array_size type) (return type)
  initialised ← parser_match eq
  init ← choose initialised expression (return null)
  end ← parser_expect semicolon
  return (variable_decl name var_type init is_extern is_static)

abbrev pub or_empty : Option Bytes → Bytes
or_empty (some name) = name
or_empty none = []

unfoldable pub parse_parameter : ℕ → Parse Node
parse_parameter fuel = do
  base ← parse_type_spec fuel
  declared ← parse_declarator fuel base
  return (variable_decl (or_empty declared.1) declared.0 null false false)

unfoldable pub parameter_loop : ℕ → Parse Nodes
parameter_loop zero = out_of_fuel
parameter_loop (suc fuel) = do
  parameter ← parse_parameter (suc fuel)
  another ← parser_match comma
  more ← choose another (parameter_loop fuel) (return empty)
  return (node parameter more)

-- `while (peek().kind != RBRACE && peek().kind != END) stmts.push(parse_statement());`
unfoldable pub block_loop : ℕ → Parse Node → Parse Nodes
block_loop zero statement l = out_of_fuel l
block_loop (suc fuel) statement l =
    (do
      kind ← peek_kind
      choose (is_kind kind rbrace || is_kind kind end_of_input) (return empty)
          (statement >>= λ n. block_loop fuel statement >>= λ more. return (node n more)))
      l

unfoldable pub parse_block : ℕ → Parse Node → Parse Node
parse_block fuel statement = do
  opening ← parser_expect lbrace
  stmts ← block_loop fuel statement
  closing ← parser_expect rbrace
  return (block stmts)

-- The body of a function, or the `;` of a declaration.
unfoldable pub parse_body : Parse Node → Bool → Parse Node
parse_body body true = body
parse_body body false = parser_expect semicolon >>= λ t. return null

unfoldable pub parse_function_def : ℕ → Parse Node → CType → Bytes → Parse Node
parse_function_def fuel statement ret_type name = do
  opening ← parser_expect lparen
  first ← peek_kind
  params ← choose (is_kind first rparen) (return empty) (parameter_loop fuel)
  closing ← parser_expect rparen
  kind ← peek_kind
  body ← parse_body (parse_block fuel statement) (is_kind kind lbrace)
  return (function_def name params body ret_type)

-- Behind the name that follows a type at once.
unfoldable pub parse_named : ℕ → Parse Node → Parse Node → CType → Bool → Bool → Parse Node
parse_named fuel expression statement type is_extern is_static = do
  name ← parser_next
  kind ← peek_kind
  choose (is_kind kind lparen) (parse_function_def fuel statement type (str_dup name.text))
      (parse_variable_decl expression type (str_dup name.text) is_extern is_static)

-- Behind a type and a declarator.
unfoldable pub parse_declared : Parse Node → CType × Option Bytes → Bool → Bool → Parse Node
parse_declared expression (type, some name) is_extern is_static =
    parse_variable_decl expression type name is_extern is_static
parse_declared expression (type, none) is_extern is_static = throw_error

unfoldable pub parse_declaration : ℕ → Parse Node → Parse Node → Parse Node
parse_declaration fuel expression statement = do
  is_extern ← parser_match extern_kw
  is_static ← parser_match static_kw
  type ← parse_type_spec fuel
  kind ← peek_kind
  choose (is_kind kind ident_tok) (parse_named fuel expression statement type is_extern is_static) (
      parse_declarator fuel type >>= λ declared.
      parse_declared expression declared is_extern is_static)

-- `(cond)` behind a keyword.
unfoldable pub condition : TokenKind → Parse Node → Parse Node
condition keyword expression = do
  word ← parser_expect keyword
  opening ← parser_expect lparen
  cond ← expression
  closing ← parser_expect rparen
  return cond

unfoldable pub parse_if : Parse Node → Parse Node → Parse Node
parse_if expression statement = do
  cond ← condition if_kw expression
  then_body ← statement
  has_else ← parser_match else_kw
  else_body ← choose has_else statement (return null)
  return (if_stmt cond then_body else_body)

unfoldable pub parse_while : Parse Node → Parse Node → Parse Node
parse_while expression statement = do
  cond ← condition while_kw expression
  body ← statement
  return (while_stmt cond body)

unfoldable pub parse_for : Parse Node → Parse Node → Parse Node
parse_for expression statement = do
  word ← parser_expect for_kw
  opening ← parser_expect lparen
  init ← unless_kind semicolon expression
  first ← parser_expect semicolon
  cond ← unless_kind semicolon expression
  second ← parser_expect semicolon
  inc ← unless_kind rparen expression
  closing ← parser_expect rparen
  body ← statement
  return (for_stmt init cond inc body)

unfoldable pub parse_do_while : Parse Node → Parse Node → Parse Node
parse_do_while expression statement = do
  word ← parser_expect do_kw
  body ← statement
  cond ← condition while_kw expression
  end ← parser_expect semicolon
  return (do_while_stmt cond body)

unfoldable pub parse_return : Parse Node → Parse Node
parse_return expression = do
  word ← parser_expect return_kw
  value ← unless_kind semicolon expression
  end ← parser_expect semicolon
  return (return_stmt value)

unfoldable pub parse_break : Parse Node
parse_break = do word ← parser_expect break_kw; end ← parser_expect semicolon; return break_stmt

unfoldable pub parse_continue : Parse Node
parse_continue = do
  word ← parser_expect continue_kw
  end ← parser_expect semicolon
  return continue_stmt

unfoldable pub parse_asm_stmt : Parse Node
parse_asm_stmt = do
  code ← parser_next
  end ← parser_expect semicolon
  return (asm_stmt (str_dup code.text))

-- The default case of parse_statement where no declaration begins.
unfoldable pub parse_expr_stmt : Parse Node → Parse Node
parse_expr_stmt expression = do
  expr ← expression
  end ← parser_expect semicolon
  return (expr_stmt expr)

abbrev pub is_declaration : TokenKind → Bool
is_declaration int_kw = true
is_declaration char_kw = true
is_declaration short_kw = true
is_declaration long_kw = true
is_declaration void_kw = true
is_declaration unsigned_kw = true
is_declaration signed_kw = true
is_declaration static_kw = true
is_declaration extern_kw = true
is_declaration struct_kw = true
is_declaration const_kw = true
is_declaration _ = false

unfoldable pub statement_of : ℕ → Parse Node → Parse Node → TokenKind → Parse Node
statement_of fuel expression statement lbrace = parse_block fuel statement
statement_of fuel expression statement if_kw = parse_if expression statement
statement_of fuel expression statement while_kw = parse_while expression statement
statement_of fuel expression statement for_kw = parse_for expression statement
statement_of fuel expression statement do_kw = parse_do_while expression statement
statement_of fuel expression statement return_kw = parse_return expression
statement_of fuel expression statement break_kw = parse_break
statement_of fuel expression statement continue_kw = parse_continue
statement_of fuel expression statement semicolon = past_token (return empty_stmt)
statement_of fuel expression statement inline_asm = parse_asm_stmt
statement_of fuel expression statement kind =
    choose (is_declaration kind) (parse_declaration fuel expression statement)
      (parse_expr_stmt expression)

-- parse_expression is parse_assignment.
unfoldable pub parse_statement : ℕ → Parse Node
parse_statement zero l = out_of_fuel l
parse_statement (suc fuel) l =
    (peek_kind >>= statement_of (suc fuel) (parse_assignment (suc fuel)) (parse_statement fuel)) l
