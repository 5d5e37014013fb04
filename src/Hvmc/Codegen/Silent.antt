-- ===== src/Hvmc/Codegen/Silent.antt =====
-- Expression statements, for which no code is generated, and the labels, which are all different.
use hvmsys.Base.{ℕ, ◌≡◌, ◌≢◌, refl, sym, ap, ◌∙◌, [], ◌∷◌}
use mathlib.Core.Path.{fun_ext}
use hvmsys.Base.Text.{Bytes}
use hvmsys.Except.{ok}
use hvmsys.Hvmc.Ast.{
  Node, Nodes, CType, empty, node, function_def, block, expr_stmt, binary_op, unary_op, assign,
  call, variable, constant, string_node, deref, address_of, sizeof_expr, member_access, array_index,
  cast_expr,
}
use hvmsys.Hvmc.Lexer.Read.{digits_value}
use hvmsys.Hvmc.Lexer.Spelling.{to_string-value}
use hvmsys.Hvmc.Codegen.Emit.{Code, nothing, seq, unless_null, label}
use hvmsys.Hvmc.Codegen.{gen, gen_all, gen_function_def}

-- An expression that is no asm block.
abbrev pub IsExpression : Node → Type 0
IsExpression (binary_op op left right) = Unit {0}
IsExpression (unary_op op operand is_prefix) = Unit {0}
IsExpression (assign target value) = Unit {0}
IsExpression (call name args) = Unit {0}
IsExpression (variable name) = Unit {0}
IsExpression (constant value) = Unit {0}
IsExpression (string_node value) = Unit {0}
IsExpression (deref operand) = Unit {0}
IsExpression (address_of operand) = Unit {0}
IsExpression (sizeof_expr expr) = Unit {0}
IsExpression (member_access obj member) = Unit {0}
IsExpression (array_index arr index) = Unit {0}
IsExpression (cast_expr expr type) = Unit {0}
IsExpression _ = ⊥

-- An expression that is used as a statement generates no code and takes no label.
gen-expr_stmt : (e : Node) (n : ℕ) → IsExpression e → gen (expr_stmt e) n ≡ ok ([], n)
unfolding gen nothing
gen-expr_stmt (binary_op op left right) n is = refl
gen-expr_stmt (unary_op op operand is_prefix) n is = refl
gen-expr_stmt (assign target value) n is = refl
gen-expr_stmt (call name args) n is = refl
gen-expr_stmt (variable name) n is = refl
gen-expr_stmt (constant value) n is = refl
gen-expr_stmt (string_node value) n is = refl
gen-expr_stmt (deref operand) n is = refl
gen-expr_stmt (address_of operand) n is = refl
gen-expr_stmt (sizeof_expr expr) n is = refl
gen-expr_stmt (member_access obj member) n is = refl
gen-expr_stmt (array_index arr index) n is = refl
gen-expr_stmt (cast_expr expr type) n is = refl
gen-expr_stmt _ n is = absurd is

-- Statements that are all expressions.
abbrev pub AreExpressions : Nodes → Type 0
AreExpressions empty = Unit {0}
AreExpressions (node (expr_stmt e) more) = IsExpression e × AreExpressions more
AreExpressions (node _ more) = ⊥

gen_all-nothing : (ns : Nodes) → AreExpressions ns → (n : ℕ) → gen_all ns n ≡ ok ([], n)
unfolding gen_all nothing seq
gen_all-nothing empty are n = refl
gen_all-nothing (node (expr_stmt e) more) (is, are) n =
    rw (gen-expr_stmt e n is) (rw (gen_all-nothing more are n) refl)
gen_all-nothing (node _ more) are n = absurd are

-- A function whose body is a block of expressions alone, assignments and calls among them, has the code of
-- a function with an empty body, whatever the label counter is.
pub gen-silent_body :
    (name : Bytes) (params stmts : Nodes) (type : CType) (n : ℕ)
    → AreExpressions stmts
    → gen (function_def name params (block stmts) type) n
      ≡ gen (function_def name params (block empty) type) n
unfolding gen gen_function_def unless_null nothing
gen-silent_body name params stmts type n are =
    ap (λ (code : Code). gen_function_def name (block empty) code n)
      (fun_ext (λ (k : ℕ). gen_all-nothing stmts are k))

-- The digits of a label, behind its two letters.
digits_of_label : Bytes → Bytes
digits_of_label (a ∷ b ∷ digits) = digits
digits_of_label short = short

label-injective : (a b : ℕ) → label a ≡ label b → a ≡ b
unfolding digits_of_label
label-injective a b e =
    sym (to_string-value a)
    ∙ ap (λ (l : Bytes). digits_value 10 0 (digits_of_label l)) e
    ∙ to_string-value b

-- Labels that are made at different values of the counter are different texts.
pub label-differs : (a b : ℕ) → a ≢ b → label a ≢ label b
label-differs a b apart e = apart (label-injective a b e)
