-- ===== src/Hvmc/Codegen/Whole.antt =====
-- The trees that the code generator can follow, and the labels that it takes for them.
use mathlib.Core.Path.{subst}
use hvmsys.Base.{ℕ, ◌+◌, ◌≡◌, refl, Bool, true, false, ◌⊎◌, inl, inr}
use hvmsys.Hvmc.Codegen.Emit.{is_null}
use hvmsys.Hvmc.Ast.{
  Node, Nodes, empty, node, null, program, function_def, variable_decl, block, if_stmt, while_stmt,
  for_stmt, do_while_stmt, return_stmt, expr_stmt, binary_op, unary_op, assign, call, string_node,
  deref, address_of, sizeof_expr, member_access, array_index, cast_expr,
}

-- No null pointer stands where the tree needs a node. `optional` says whether the node itself may be null.
abbrev mutual
  pub IsWhole : Node → Bool → Type 0
  IsWhole null true = Unit {0}
  IsWhole null false = ⊥
  IsWhole (program nodes) optional = AreWhole nodes
  IsWhole (function_def name params body type) optional = AreWhole params × IsWhole body true
  IsWhole (variable_decl name type init is_extern is_static) optional = IsWhole init true
  IsWhole (block stmts) optional = AreWhole stmts
  IsWhole (if_stmt cond then_body else_body) optional =
      IsWhole cond false × IsWhole then_body false × IsWhole else_body true
  IsWhole (while_stmt cond body) optional = IsWhole cond false × IsWhole body false
  IsWhole (for_stmt init cond inc body) optional =
      IsWhole init true × IsWhole cond true × IsWhole inc true × IsWhole body false
  IsWhole (do_while_stmt cond body) optional = IsWhole body false × IsWhole cond false
  IsWhole (return_stmt expr) optional = IsWhole expr true
  IsWhole (expr_stmt expr) optional = IsWhole expr false
  IsWhole (binary_op op left right) optional = IsWhole left false × IsWhole right false
  IsWhole (unary_op op operand is_prefix) optional = IsWhole operand false
  IsWhole (assign target value) optional = IsWhole target false × IsWhole value false
  IsWhole (call name args) optional = AreWhole args
  IsWhole (deref operand) optional = IsWhole operand false
  IsWhole (address_of operand) optional = IsWhole operand false
  IsWhole (sizeof_expr expr) optional = IsWhole expr false
  IsWhole (member_access obj member) optional = IsWhole obj false
  IsWhole (array_index arr index) optional = IsWhole arr false × IsWhole index false
  IsWhole (cast_expr expr type) optional = IsWhole expr false
  IsWhole _ optional = Unit {0}

  pub AreWhole : Nodes → Type 0
  AreWhole empty = Unit {0}
  AreWhole (node n more) = IsWhole n false × AreWhole more

-- Whether a node may be null matters for a null one alone.
abbrev pub NullOrNot : Node → Type 0
NullOrNot n =
    (n ≡ null)
    ⊎ ((is_null n ≡ false)
        × (IsWhole n true → IsWhole n false)
        × (IsWhole n false → IsWhole n true))

pub null_or_not : (n : Node) → NullOrNot n
null_or_not null = inl refl
null_or_not _ = inr (refl, λ w. w, λ w. w)

pub optional-IsWhole : (n : Node) → IsWhole n false → IsWhole n true
optional-IsWhole n w = elim (null_or_not n) [
  | inl e ↦ absurd (subst (λ m. IsWhole m false) e w)
  | inr (_, present, maybe) ↦ maybe w
]

-- The string literals in the parts of an expression that code is generated for.
abbrev mutual
  pub strings : Node → ℕ
  strings (string_node value) = 1
  strings (binary_op op left right) = strings left + strings right
  strings (unary_op op operand is_prefix) = strings operand
  strings (assign target value) = strings value
  strings (call name args) = all_strings args
  strings (deref operand) = strings operand
  strings (array_index arr index) = strings arr + strings index
  strings _ = 0

  pub all_strings : Nodes → ℕ
  all_strings empty = 0
  all_strings (node n more) = strings n + all_strings more

-- Two labels for each branch or loop, and one for each string literal.
abbrev mutual
  pub labels : Node → ℕ
  labels (program nodes) = all_labels nodes
  labels (function_def name params body type) = labels body
  labels (variable_decl name type init is_extern is_static) = strings init
  labels (block stmts) = all_labels stmts
  labels (if_stmt cond then_body else_body) =
      2 + (strings cond + (labels then_body + labels else_body))
  labels (while_stmt cond body) = 2 + (strings cond + labels body)
  labels (for_stmt init cond inc body) =
      2 + (strings init + (strings cond + (labels body + strings inc)))
  labels (do_while_stmt cond body) = 2 + (labels body + strings cond)
  labels (return_stmt expr) = strings expr
  labels (expr_stmt expr) = labels expr
  labels _ = 0

  pub all_labels : Nodes → ℕ
  all_labels empty = 0
  all_labels (node n more) = labels n + all_labels more
