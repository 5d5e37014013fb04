-- ===== src/Hvmc/Parser/Specifiers.antt =====
-- The types and declarators of src/tools/hvmc/src/parser.cpp.
use hvmsys.Base.{ℕ, zero, suc, ◌+◌, Bool, true, false, Option, none, some, if◌then◌else◌}
use hvmsys.Base.Text.{Bytes}
use hvmsys.Hvmc.Token.{
  TokenKind, is_kind, const_kw, volatile_kw, unsigned_kw, signed_kw, long_kw, short_kw, void_kw,
  char_kw, int_kw, struct_kw, ident_tok, star,
}
use hvmsys.Hvmc.Ast.{
  DataType, none_type, void_type, char_type, uchar_type, int_type, uint_type, long_type, ulong_type,
  struct_type, CType, new_type,
}
use hvmsys.Hvmc.Parser.Monad.{
  Parse, ◌>>=◌, return, out_of_fuel, choose, peek_kind, parser_next, parser_expect, parser_match,
  str_dup,
}

-- The local variables of parse_type_spec. `type.base`, which the case of `short` sets, is overwritten after
-- the loop.
pub record Spec : Type 0 where
  pub constant_type : Bool
  pub volatile_object : Bool
  pub is_unsigned : Bool
  pub is_long : Bool

abbrev pub new_spec : Spec
new_spec = record {
  constant_type = false;
  volatile_object = false;
  is_unsigned = false;
  is_long = false;
}

-- What the loop does with a token: go on with changed variables, end with a base, end after the name of a
-- struct, or end before the token.
pub data SpecStep : Type 0 where
  marks : Spec → SpecStep
  ends : DataType → SpecStep
  names_struct stops : SpecStep

abbrev pub spec_step : Spec → TokenKind → SpecStep
spec_step s const_kw = marks (record s { constant_type = true })
spec_step s volatile_kw = marks (record s { volatile_object = true })
spec_step s unsigned_kw = marks (record s { is_unsigned = true })
spec_step s signed_kw = marks s
spec_step s long_kw = marks (record s { is_long = true })
spec_step s short_kw = ends none_type
spec_step s void_kw = ends void_type
spec_step s char_kw = ends (if s.is_unsigned then uchar_type else char_type)
spec_step s int_kw = ends none_type
spec_step s struct_kw = names_struct
spec_step s _ = stops

unfoldable pub spec_round :
    (Spec → Parse (Spec × DataType)) → Spec → SpecStep → Parse (Spec × DataType)
spec_round again s (marks s1) = parser_next >>= λ t. again s1
spec_round again s (ends base) = parser_next >>= λ t. return (s, base)
spec_round again s names_struct = do
  t ← parser_next
  name ← parser_expect ident_tok
  return (s, struct_type)
spec_round again s stops = return (s, none_type)

unfoldable pub spec_loop : ℕ → Spec → Parse (Spec × DataType)
spec_loop zero s = out_of_fuel
spec_loop (suc fuel) s = do kind ← peek_kind; spec_round (spec_loop fuel) s (spec_step s kind)

abbrev pub default_base : Bool → DataType → DataType
default_base is_long none_type = if is_long then long_type else int_type
default_base is_long base = base

abbrev pub unsigned_base : Bool → DataType → DataType
unsigned_base true char_type = uchar_type
unsigned_base true int_type = uint_type
unsigned_base true long_type = ulong_type
unsigned_base signedness base = base

-- The type that the loop's variables give.
abbrev pub spec_type : Spec × DataType → CType
spec_type (s, base) = record new_type {
  base = unsigned_base s.is_unsigned (default_base s.is_long base);
  is_const = s.constant_type;
  is_volatile = s.volatile_object;
}

unfoldable pub parse_type_spec : ℕ → Parse CType
parse_type_spec fuel = do found ← spec_loop fuel new_spec; return (spec_type found)

-- The loop over `*`; `pointer_depth` stays below 2 ^ 31.
unfoldable pub star_loop : ℕ → CType → Parse CType
star_loop zero type = out_of_fuel
star_loop (suc fuel) type = do
  pointer ← parser_match star
  choose pointer (star_loop fuel (record type { pointer_depth = type.pointer_depth + 1 }))
      (return type)

unfoldable pub parse_name : Bool → Parse (Option Bytes)
parse_name true = parser_next >>= λ t. return (some (str_dup t.text))
parse_name false = return none

unfoldable pub parse_declarator : ℕ → CType → Parse (CType × Option Bytes)
parse_declarator fuel base = do
  type ← star_loop fuel base
  kind ← peek_kind
  name ← parse_name (is_kind kind ident_tok)
  return (type, name)
