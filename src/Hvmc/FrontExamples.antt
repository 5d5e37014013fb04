-- ===== src/Hvmc/FrontExamples.antt =====
-- Small sources through the lexer, the parser and the code generator.
use hvmsys.Base.{◌≡◌, refl, ◌⊎◌, [], ◌∷◌, some, false}
use hvmsys.Base.Text.{Bytes, text, to_string}
use hvmsys.Except.{ok, runtime_error}
use hvmsys.Hvmc.Token.{Token, end_of_input, ident_tok, lparen, plus, star, string_lit}
use hvmsys.Hvmc.Ast.{
  function_def, Node, empty, node, program, variable_decl, expr_stmt, assign, binary_op, variable,
  constant, while_stmt, block, int_type, CType,
}
use hvmsys.Hvmc.Lexer.Progress.{left}
use hvmsys.Hvmc.Lexer.Ends.{Advances, next_token-Advances}
use hvmsys.Hvmc.Lexer.Quoting.{quote, read_string-quote}
use hvmsys.Hvmc.Parser.Total.{Parses, parse-ends, parse-generate}
use hvmsys.Hvmc.Codegen.Whole.{labels}
use hvmsys.Hvmc.Codegen.Total.{generate-returns}
use hvmsys.Hvmc.Codegen.Silent.{gen-silent_body}
use hvmsys.Hvmc.Lexer.Words.{keywords, find_word, word_kind}
use hvmsys.Hvmc.Lexer.Scan.{
  Cursor, at, token, peek_char, get, read_while, gap, to_line_end, to_close, past_block, skip_gap,
  skip_loop, skip_whitespace_and_comments,
}
use hvmsys.Hvmc.Lexer.Read.{
  asm_body, read_asm, read_ident_or_keyword, digits_value, strtoull, read_number, unescape,
  string_body, read_string, char_body, read_char, follow, angle, operator, punctuation, read_token,
}
use hvmsys.Hvmc.Lexer.{Lexer, new, next_at, next_loop, next_token, next, peek, expect, matches}
use hvmsys.Hvmc.Parser.Monad.{
  done, fails, ◌>>=◌, return, throw_error, out_of_fuel, parser_peek, parser_next, choose, peek_kind,
  parser_expect, consumed, parser_match, match_any, str_dup,
}
use hvmsys.Hvmc.Parser.Specifiers.{
  spec_round, spec_loop, parse_type_spec, star_loop, parse_name, parse_declarator,
}
use hvmsys.Hvmc.Parser.Expressions.{
  past_token, in_parentheses, primary_of, parse_primary, argument_loop, parse_arguments, call_of,
  index_of, member_of, counting_of, postfix_round, go_on, postfix_loop, parse_postfix, prefixed,
  unary_of, parse_unary, cast_of, parse_cast, binary_loop, binary_level, parse_multiplicative,
  parse_additive, parse_shift, parse_relational, parse_equality, parse_bitwise_and,
  parse_bitwise_xor, parse_bitwise_or, parse_logical_and, parse_logical_or, parse_assignment,
}
use hvmsys.Hvmc.Parser.Statements.{
  unless_kind, parse_array_size, parse_variable_decl, parse_parameter, parameter_loop, block_loop,
  parse_block, parse_body, parse_function_def, parse_named, parse_declared, parse_declaration,
  condition, parse_if, parse_while, parse_for, parse_do_while, parse_return, parse_break,
  parse_continue, parse_asm_stmt, parse_expr_stmt, statement_of, parse_statement,
}
use hvmsys.Hvmc.Parser.{declaration_loop, parse}
use hvmsys.Hvmc.Codegen.Emit.{nothing, bad, seq, emit, emit_line, new_label, reg_name, unless_null}
use hvmsys.Hvmc.Codegen.{
  on_r1_r2, from_r1, gen_address, gen_string, load_d, gen_expression, gen_arguments, branch,
  branch_on_zero, gen_condition, gen_function_def, gen_variable_decl, gen_else, gen_if_stmt,
  gen_while_stmt, gen_for_stmt, gen_do_while_stmt, gen, gen_all, generate,
}

abbrev two_words : Cursor
two_words = at (text " /* one */ two") 1 1

next_token-Advances_example : Advances (left two_words) (next_token two_words)
next_token-Advances_example = next_token-Advances two_words

-- The comment is skipped and the word is read.
reads_two :
    next_token two_words ≡ ok (token ident_tok (text "two") 0 (at (text "two") 1 12), at [] 1 15)
unfolding keywords find_word word_kind peek_char get read_while gap to_line_end to_close past_block
    skip_gap skip_loop skip_whitespace_and_comments asm_body read_asm read_ident_or_keyword
    digits_value strtoull read_number unescape string_body read_string char_body read_char follow
    angle operator punctuation read_token new next_at next_loop next_token next peek expect matches
reads_two = refl

abbrev tricky : Bytes
tricky = b'a' ∷ b'"' ∷ b'\n' ∷ []

read_string-quote_example : read_string (at (b'"' ∷ quote tricky (b'"' ∷ text ";")) 2 1) ≡ (
  token string_lit tricky 0 (at (b'"' ∷ quote tricky (b'"' ∷ text ";")) 2 1),
  at (text ";") 2 8,
)
read_string-quote_example = read_string-quote tricky (text ";") 2 1

abbrev x_token : Token
x_token = token ident_tok (text "x") 0 (at (text "x;") 1 1)

abbrev x_peeked : Lexer
x_peeked = record { cursor = at (text ";") 1 2; peeked = some x_token }

peek_x : peek (new (text "x;")) ≡ ok (x_token, x_peeked)
unfolding keywords find_word word_kind peek_char get read_while gap to_line_end to_close past_block
    skip_gap skip_loop skip_whitespace_and_comments asm_body read_asm read_ident_or_keyword
    digits_value strtoull read_number unescape string_body read_string char_body read_char follow
    angle operator punctuation read_token new next_at next_loop next_token next peek expect matches
peek_x = refl

abbrev loop_source : Bytes
loop_source = text "int f(int a) { while (a) a = a - b * 2; }"

parse-ends_example : Parses (parse loop_source)
parse-ends_example = parse-ends loop_source

parse-generate_example :
    (parse loop_source ≡ fails runtime_error)
    ⊎ ((tree : Node) × (l : Lexer) × (out : Bytes) × (parse loop_source ≡ done tree l)
        × (generate tree ≡ ok (out, labels tree)))
parse-generate_example = parse-generate loop_source

abbrev int_c : CType
int_c = record {
  base = int_type;
  is_const = false;
  is_volatile = false;
  pointer_depth = 0;
  array_size = 0;
}

-- Products bind closer than sums, and the declaration is read to the end of the source.
parse_product :
    parse (text "int y = a + b * 2;")
    ≡ done
        (program (
          node
            (variable_decl
              (text "y")
              int_c
              (binary_op plus
                (variable (text "a"))
                (binary_op star (variable (text "b")) (constant 2)))
              false
              false)
            empty))
        (record { cursor = at [] 1 19; peeked = some (token end_of_input [] 0 (at [] 1 19)) })
unfolding keywords find_word word_kind peek_char get read_while gap to_line_end to_close past_block
    skip_gap skip_loop skip_whitespace_and_comments asm_body read_asm read_ident_or_keyword
    digits_value strtoull read_number unescape string_body read_string char_body read_char follow
    angle operator punctuation read_token new next_at next_loop next_token next peek expect matches
    ◌>>=◌ return throw_error out_of_fuel parser_peek parser_next choose peek_kind parser_expect
    consumed parser_match match_any str_dup spec_round spec_loop parse_type_spec star_loop
    parse_name parse_declarator past_token in_parentheses primary_of parse_primary argument_loop
    parse_arguments call_of index_of member_of counting_of postfix_round go_on postfix_loop
    parse_postfix prefixed unary_of parse_unary cast_of parse_cast binary_loop binary_level
    parse_multiplicative parse_additive parse_shift parse_relational parse_equality
    parse_bitwise_and parse_bitwise_xor parse_bitwise_or parse_logical_and parse_logical_or
    parse_assignment unless_kind parse_array_size parse_variable_decl parse_parameter parameter_loop
    block_loop parse_block parse_body parse_function_def parse_named parse_declared
    parse_declaration condition parse_if parse_while parse_for parse_do_while parse_return
    parse_break parse_continue parse_asm_stmt parse_expr_stmt statement_of parse_statement
    declaration_loop parse
parse_product = refl

-- A sum in parentheses is rejected.
parse_parenthesised : parse (text "int y = (a + 1);") ≡ fails runtime_error
unfolding keywords find_word word_kind peek_char get read_while gap to_line_end to_close past_block
    skip_gap skip_loop skip_whitespace_and_comments asm_body read_asm read_ident_or_keyword
    digits_value strtoull read_number unescape string_body read_string char_body read_char follow
    angle operator punctuation read_token new next_at next_loop next_token next peek expect matches
    ◌>>=◌ return throw_error out_of_fuel parser_peek parser_next choose peek_kind parser_expect
    consumed parser_match match_any str_dup spec_round spec_loop parse_type_spec star_loop
    parse_name parse_declarator past_token in_parentheses primary_of parse_primary argument_loop
    parse_arguments call_of index_of member_of counting_of postfix_round go_on postfix_loop
    parse_postfix prefixed unary_of parse_unary cast_of parse_cast binary_loop binary_level
    parse_multiplicative parse_additive parse_shift parse_relational parse_equality
    parse_bitwise_and parse_bitwise_xor parse_bitwise_or parse_logical_and parse_logical_or
    parse_assignment unless_kind parse_array_size parse_variable_decl parse_parameter parameter_loop
    block_loop parse_block parse_body parse_function_def parse_named parse_declared
    parse_declaration condition parse_if parse_while parse_for parse_do_while parse_return
    parse_break parse_continue parse_asm_stmt parse_expr_stmt statement_of parse_statement
    declaration_loop parse
parse_parenthesised = refl

-- Behind `++` a token is lost.
parse_counting : parse (text "int y = x++;") ≡ fails runtime_error
unfolding keywords find_word word_kind peek_char get read_while gap to_line_end to_close past_block
    skip_gap skip_loop skip_whitespace_and_comments asm_body read_asm read_ident_or_keyword
    digits_value strtoull read_number unescape string_body read_string char_body read_char follow
    angle operator punctuation read_token new next_at next_loop next_token next peek expect matches
    ◌>>=◌ return throw_error out_of_fuel parser_peek parser_next choose peek_kind parser_expect
    consumed parser_match match_any str_dup spec_round spec_loop parse_type_spec star_loop
    parse_name parse_declarator past_token in_parentheses primary_of parse_primary argument_loop
    parse_arguments call_of index_of member_of counting_of postfix_round go_on postfix_loop
    parse_postfix prefixed unary_of parse_unary cast_of parse_cast binary_loop binary_level
    parse_multiplicative parse_additive parse_shift parse_relational parse_equality
    parse_bitwise_and parse_bitwise_xor parse_bitwise_or parse_logical_and parse_logical_or
    parse_assignment unless_kind parse_array_size parse_variable_decl parse_parameter parameter_loop
    block_loop parse_block parse_body parse_function_def parse_named parse_declared
    parse_declaration condition parse_if parse_while parse_for parse_do_while parse_return
    parse_break parse_continue parse_asm_stmt parse_expr_stmt statement_of parse_statement
    declaration_loop parse
parse_counting = refl

abbrev open_token : Token
open_token = token lparen (text "(") 0 (at (text "(a)") 1 1)

abbrev a_token : Token
a_token = token ident_tok (text "a") 0 (at (text "a)") 1 2)

next_a : next_token (at (text "a)") 1 2) ≡ ok (a_token, at (text ")") 1 3)
unfolding keywords find_word word_kind peek_char get read_while gap to_line_end to_close past_block
    skip_gap skip_loop skip_whitespace_and_comments asm_body read_asm read_ident_or_keyword
    digits_value strtoull read_number unescape string_body read_string char_body read_char follow
    angle operator punctuation read_token new next_at next_loop next_token next peek expect matches
next_a = refl

abbrev set_x : Node
set_x = assign (variable (text "x")) (constant 1)

gen-silent_body_example :
    gen (function_def (text "f") empty (block (node (expr_stmt set_x) empty)) int_c) 7
    ≡ gen (function_def (text "f") empty (block empty) int_c) 7
gen-silent_body_example =
    gen-silent_body (text "f") empty (node (expr_stmt set_x) empty) int_c 7 (tt, tt)

abbrev endless : Node
endless = while_stmt (constant 1) (block (node (expr_stmt set_x) empty))

generate-returns_example : (out : Bytes) × (generate endless ≡ ok (out, labels endless))
generate-returns_example = generate-returns endless (tt, ((tt, tt), tt))

-- The labels stand on lines of their own without a colon.
generate-endless :
    generate endless ≡ ok (text "  .L0\nmov r1, 1\n  beq r1, r0, .L1\n  jmp .L0\n  .L1\n", 2)
unfolding nothing bad seq emit emit_line new_label reg_name unless_null on_r1_r2 from_r1 gen_address
    gen_string load_d gen_expression gen_arguments branch branch_on_zero gen_condition
    gen_function_def gen_variable_decl gen_else gen_if_stmt gen_while_stmt gen_for_stmt
    gen_do_while_stmt gen gen_all generate to_string
generate-endless = refl
