-- ===== src/Hvmc/Token.antt =====
-- The tokens of the C front end, of src/tools/hvmc/include/hvmc/types.h.
use hvmsys.Base.{ℕ, Bool, ◌==◌}
use hvmsys.Base.Text.{Bytes}

-- TokenKind, in the order of the source. A keyword has the suffix that the source gives to some of them.
pub data TokenKind : Type 0 where
  end_of_input ident_tok number_lit string_lit char_lit lparen : TokenKind
  rparen lbrace rbrace lbracket rbracket semicolon : TokenKind
  comma dot arrow plus minus star : TokenKind
  slash percent amper pipe caret tilde : TokenKind
  exclam eq eqeq neq lt le : TokenKind
  gt ge andand oror plusplus minusminus : TokenKind
  plus_eq minus_eq star_eq slash_eq percent_eq amper_eq : TokenKind
  pipe_eq caret_eq lshift rshift lshift_eq rshift_eq : TokenKind
  colon question if_kw else_kw while_kw for_kw : TokenKind
  do_kw switch_kw case_kw default_kw break_kw continue_kw : TokenKind
  return_kw goto_kw int_kw char_kw short_kw long_kw : TokenKind
  unsigned_kw signed_kw void_kw static_kw extern_kw const_kw : TokenKind
  volatile_kw typedef_kw struct_kw sizeof_kw inline_asm : TokenKind

-- The value of the enumerator.
abbrev pub value_of : TokenKind → ℕ
value_of end_of_input = 0
value_of ident_tok = 1
value_of number_lit = 2
value_of string_lit = 3
value_of char_lit = 4
value_of lparen = 5
value_of rparen = 6
value_of lbrace = 7
value_of rbrace = 8
value_of lbracket = 9
value_of rbracket = 10
value_of semicolon = 11
value_of comma = 12
value_of dot = 13
value_of arrow = 14
value_of plus = 15
value_of minus = 16
value_of star = 17
value_of slash = 18
value_of percent = 19
value_of amper = 20
value_of pipe = 21
value_of caret = 22
value_of tilde = 23
value_of exclam = 24
value_of eq = 25
value_of eqeq = 26
value_of neq = 27
value_of lt = 28
value_of le = 29
value_of gt = 30
value_of ge = 31
value_of andand = 32
value_of oror = 33
value_of plusplus = 34
value_of minusminus = 35
value_of plus_eq = 36
value_of minus_eq = 37
value_of star_eq = 38
value_of slash_eq = 39
value_of percent_eq = 40
value_of amper_eq = 41
value_of pipe_eq = 42
value_of caret_eq = 43
value_of lshift = 44
value_of rshift = 45
value_of lshift_eq = 46
value_of rshift_eq = 47
value_of colon = 48
value_of question = 49
value_of if_kw = 50
value_of else_kw = 51
value_of while_kw = 52
value_of for_kw = 53
value_of do_kw = 54
value_of switch_kw = 55
value_of case_kw = 56
value_of default_kw = 57
value_of break_kw = 58
value_of continue_kw = 59
value_of return_kw = 60
value_of goto_kw = 61
value_of int_kw = 62
value_of char_kw = 63
value_of short_kw = 64
value_of long_kw = 65
value_of unsigned_kw = 66
value_of signed_kw = 67
value_of void_kw = 68
value_of static_kw = 69
value_of extern_kw = 70
value_of const_kw = 71
value_of volatile_kw = 72
value_of typedef_kw = 73
value_of struct_kw = 74
value_of sizeof_kw = 75
value_of inline_asm = 76

-- `==` on TokenKind.
abbrev pub is_kind : TokenKind → TokenKind → Bool
is_kind a b = value_of a == value_of b

pub record Token : Type 0 where
  pub kind : TokenKind
  pub text : Bytes
  pub intval : ℕ
  pub line : ℕ
  pub col : ℕ
