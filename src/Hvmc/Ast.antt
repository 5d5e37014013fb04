-- ===== src/Hvmc/Ast.antt =====
-- The C types and the syntax tree of src/tools/hvmc/include/hvmc/types.h.
use hvmsys.Base.{ℕ, Bool, false}
use hvmsys.Base.Text.{Bytes}
use hvmsys.Hvmc.Token.{TokenKind}

pub data DataType : Type 0 where
  none_type void_type char_type uchar_type short_type ushort_type int_type : DataType
  uint_type long_type ulong_type pointer_type array_type struct_type : DataType

-- `array_size` is kept modulo 2 ^ 32, as the bits of the int.
pub record CType : Type 0 where
  pub base : DataType
  pub is_const : Bool
  pub is_volatile : Bool
  pub pointer_depth : ℕ
  pub array_size : ℕ

-- `CType type{}`.
abbrev pub new_type : CType
new_type = record {
  base = none_type;
  is_const = false;
  is_volatile = false;
  pointer_depth = 0;
  array_size = 0;
}

-- `ASTNode*`: `null`, or a node of the kind that the constructor names with the fields of its member of the
-- union. The kinds that no function builds, FUNCTION_DECL and STRUCT_DECL, are left out.
mutual
  pub data Node : Type 0 where
    null : Node
    program : Nodes → Node
    function_def : Bytes → Nodes → Node → CType → Node
    variable_decl : Bytes → CType → Node → Bool → Bool → Node
    block : Nodes → Node
    if_stmt : Node → Node → Node → Node
    while_stmt : Node → Node → Node
    for_stmt : Node → Node → Node → Node → Node
    do_while_stmt : Node → Node → Node
    return_stmt : Node → Node
    break_stmt continue_stmt empty_stmt : Node
    expr_stmt : Node → Node
    binary_op : TokenKind → Node → Node → Node
    unary_op : TokenKind → Node → Bool → Node
    assign : Node → Node → Node
    call : Bytes → Nodes → Node
    variable : Bytes → Node
    constant : ℕ → Node
    string_node : Bytes → Node
    deref address_of sizeof_expr : Node → Node
    member_access : Node → Bytes → Node
    array_index : Node → Node → Node
    cast_expr : Node → CType → Node
    asm_stmt : Bytes → Node

  -- A NodeArray in the order of its indices.
  pub data Nodes : Type 0 where
    empty : Nodes
    node : Node → Nodes → Nodes
