-- ===== src/Hvmc/Codegen.antt =====
-- The class CodeGen of src/tools/hvmc/src/codegen.cpp.
pub mod Emit
pub mod Whole
pub mod Labels
pub mod Total
pub mod Silent
use hvmsys.Base.{ℕ, ◌+◌, Bool, true, false, Option, none, some, if◌then◌else◌, ◌==◌, ◌++◌}
use hvmsys.Base.Text.{Bytes, text, to_string}
use hvmsys.Except.{Result}
use hvmsys.Hvmc.Token.{
  TokenKind, eqeq, neq, lt, le, gt, ge, plus, minus, star, slash, percent, amper, pipe, caret,
  lshift, rshift,
}
use hvmsys.Hvmc.Ast.{
  Node, Nodes, empty, node, null, program, function_def, variable_decl, block, if_stmt, while_stmt,
  for_stmt, do_while_stmt, return_stmt, expr_stmt, asm_stmt, binary_op, unary_op, assign, call,
  variable, constant, string_node, deref, address_of, array_index,
}
use hvmsys.Hvmc.Codegen.Emit.{
  Code, nothing, bad, seq, emit, emit_line, new_label, reg_name, is_null, unless_null,
}

-- The mnemonic for an operator on r1 and r2.
abbrev pub binary_mnemonic : TokenKind → Option Bytes
binary_mnemonic plus = some (text "add")
binary_mnemonic minus = some (text "sub")
binary_mnemonic star = some (text "mul")
binary_mnemonic slash = some (text "div")
binary_mnemonic percent = some (text "rem")
binary_mnemonic amper = some (text "and")
binary_mnemonic pipe = some (text "or")
binary_mnemonic caret = some (text "xor")
binary_mnemonic lshift = some (text "sll")
binary_mnemonic rshift = some (text "srl")
binary_mnemonic _ = none

unfoldable pub on_r1_r2 : Option Bytes → Code
on_r1_r2 (some mnemonic) = emit_line (mnemonic ++ text " r1, r1, r2")
on_r1_r2 none = nothing

-- `if (target != Reg::R1) mov target, r1`.
unfoldable pub from_r1 : ℕ → Code
from_r1 target =
    if target == 1 then nothing else emit_line (text "mov " ++ (reg_name target ++ text ", r1"))

-- The operand of `&`.
unfoldable pub gen_address : ℕ → Node → Code
gen_address target null = bad
gen_address target (variable name) =
    emit_line (text "mov " ++ (reg_name target ++ (text ", $" ++ name)))
gen_address target _ = nothing

unfoldable pub gen_string : ℕ → Bytes → Code
gen_string target value = new_label (λ lbl.
    seq (emit_line (lbl ++ (text ": .string " ++ value)))
      (emit_line (text "mov " ++ (reg_name target ++ (text ", $" ++ lbl)))))

unfoldable pub load_d : ℕ → ℕ → Code
load_d target base =
    emit_line (text "LD.D " ++ (reg_name target ++ (text ", [" ++ (reg_name base ++ text "]"))))

-- gen_arguments is the loop over the arguments, from the register of the first.
unfoldable mutual
  pub gen_expression : Node → ℕ → Code
  gen_expression null target = nothing
  gen_expression (constant value) target =
      emit (text "mov " ++ (reg_name target ++ (text ", " ++ to_string value)))
  gen_expression (variable name) target =
      emit (text "mov " ++ (reg_name target ++ (text ", " ++ name)))
  gen_expression (binary_op op left right) target =
      seq (gen_expression left 1)
        (seq (gen_expression right 2) (seq (on_r1_r2 (binary_mnemonic op)) (from_r1 target)))
  gen_expression (unary_op op operand is_prefix) target = gen_expression operand target
  gen_expression (assign place value) target =
      seq (gen_expression value 1) (emit_line (text "mov " ++ (reg_name target ++ text ", r1")))
  gen_expression (address_of operand) target = gen_address target operand
  gen_expression (string_node value) target = gen_string target value
  gen_expression (call name args) target =
      seq (gen_arguments args 1) (seq (emit_line (text "call " ++ name)) (from_r1 target))
  gen_expression (deref operand) target = seq (gen_expression operand target) (load_d target target)
  gen_expression (array_index arr index) target = seq (gen_expression arr 1) (
      seq (gen_expression index 2) (
        seq (emit_line (text "sll r2, r2, 3"))
          (seq (emit_line (text "add r1, r1, r2")) (load_d target 1))))
  gen_expression _ target = nothing

  pub gen_arguments : Nodes → ℕ → Code
  gen_arguments empty r = nothing
  gen_arguments (node argument more) r =
      seq (gen_expression argument r) (gen_arguments more (r + 1))

-- The mnemonic of the branch on a comparison of r1 and r2.
abbrev pub condition_mnemonic : TokenKind → Bool → Option Bytes
condition_mnemonic eqeq invert = some (if invert then text "beq" else text "bne")
condition_mnemonic neq invert = some (if invert then text "bne" else text "beq")
condition_mnemonic lt invert = some (if invert then text "blt" else text "bge")
condition_mnemonic le invert = some (if invert then text "ble" else text "bgt")
condition_mnemonic gt invert = some (if invert then text "bgt" else text "ble")
condition_mnemonic ge invert = some (if invert then text "bge" else text "blt")
condition_mnemonic _ invert = none

unfoldable pub branch : Option Bytes → Bytes → Code
branch (some mnemonic) label = emit_line (mnemonic ++ (text " r1, r2, " ++ label))
branch none label = nothing

unfoldable pub branch_on_zero : Bytes → Bool → Code
branch_on_zero label invert =
    emit_line ((if invert then text "bne r1, r0, " else text "beq r1, r0, ") ++ label)

unfoldable pub gen_condition : Node → Bytes → Bool → Code
gen_condition null label invert = nothing
gen_condition (binary_op op left right) label invert =
    seq (gen_expression left 1)
      (seq (gen_expression right 2) (branch (condition_mnemonic op invert) label))
gen_condition n label invert = seq (gen_expression n 1) (branch_on_zero label invert)

-- `body` is the code of the body, in this and the next functions.
unfoldable pub gen_function_def : Bytes → Node → Code → Code
gen_function_def name body_node body = unless_null body_node (
    seq (emit_line (text ".section .text")) (
      seq (emit_line (text ".global " ++ name)) (
        seq (emit_line (name ++ text ":"))
          (seq (emit_line (text "enter $0, $0")) (seq body (emit_line (text "ret")))))))

unfoldable pub gen_variable_decl : Bytes → Node → Code
gen_variable_decl name init =
    unless_null init (seq (gen_expression init 1) (emit_line (text "mov r1, " ++ name)))

-- The end of an if statement.
unfoldable pub gen_else : Bytes → Bytes → Bool → Code → Code
gen_else else_lbl end_lbl no_else else_code =
    if no_else
    then emit_line else_lbl
    else seq (emit_line (text "jmp " ++ end_lbl))
        (seq (emit_line else_lbl) (seq else_code (emit_line end_lbl)))

unfoldable pub gen_if_stmt : Node → Code → Node → Code → Code
gen_if_stmt cond then_code else_body else_code = new_label (λ else_lbl. new_label (λ end_lbl.
    seq (gen_condition cond else_lbl false)
      (seq then_code (gen_else else_lbl end_lbl (is_null else_body) else_code))))

unfoldable pub gen_while_stmt : Node → Code → Code
gen_while_stmt cond body = new_label (λ start. new_label (λ end. seq (emit_line start) (
    seq (gen_condition cond end false)
      (seq body (seq (emit_line (text "jmp " ++ start)) (emit_line end))))))

unfoldable pub gen_for_stmt : Node → Node → Node → Code → Code
gen_for_stmt init cond inc body = new_label (λ start. new_label (λ end.
    seq (gen_expression init 1) (
      seq (emit_line start) (
        seq (gen_condition cond end false) (
          seq body (
            seq (gen_expression inc 1)
              (seq (emit_line (text "jmp " ++ start)) (emit_line end))))))))

unfoldable pub gen_do_while_stmt : Node → Code → Code
gen_do_while_stmt cond body = new_label (λ start. new_label (λ end. seq (emit_line start) (
    seq body (
      seq (gen_condition cond end false)
        (seq (emit_line (text "jmp " ++ start)) (emit_line end))))))

-- gen_all is the loop over a NodeArray.
unfoldable mutual
  pub gen : Node → Code
  gen null = bad
  gen (program nodes) = gen_all nodes
  gen (function_def name params body type) = gen_function_def name body (gen body)
  gen (variable_decl name type init is_extern is_static) = gen_variable_decl name init
  gen (block stmts) = gen_all stmts
  gen (expr_stmt expr) = gen expr
  gen (if_stmt cond then_body else_body) =
      gen_if_stmt cond (gen then_body) else_body (gen else_body)
  gen (while_stmt cond body) = gen_while_stmt cond (gen body)
  gen (for_stmt init cond inc body) = gen_for_stmt init cond inc (gen body)
  gen (do_while_stmt cond body) = gen_do_while_stmt cond (gen body)
  gen (return_stmt expr) = seq (gen_expression expr 1) (emit_line (text "ret"))
  gen (asm_stmt code) = emit_line code
  gen _ = nothing

  pub gen_all : Nodes → Code
  gen_all empty = nothing
  gen_all (node n more) = seq (gen n) (gen_all more)

-- `CodeGen().gen(node)`.
unfoldable pub generate : Node → Result (Bytes × ℕ)
generate n = gen n 0
