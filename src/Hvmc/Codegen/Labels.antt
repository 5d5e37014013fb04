-- ===== src/Hvmc/Codegen/Labels.antt =====
-- Code generation returns on every whole tree and takes as many labels as the tree needs.
use hvmsys.Base.{
  ℕ, ◌+◌, ◌≡◌, ap, arith, Bool, true, false, Option, none, some, if◌then◌else◌, ◌==◌, [], ◌++◌,
}
use mathlib.Core.Path.{subst}
use hvmsys.Base.Text.{Bytes, text}
use hvmsys.Except.{ok}
use hvmsys.Hvmc.Ast.{
  Node, Nodes, empty, node, null, program, function_def, variable_decl, block, if_stmt, while_stmt,
  for_stmt, do_while_stmt, return_stmt, break_stmt, continue_stmt, empty_stmt, expr_stmt, asm_stmt,
  binary_op, unary_op, assign, call, variable, constant, string_node, deref, address_of,
  sizeof_expr, member_access, array_index, cast_expr,
}
use hvmsys.Hvmc.Codegen.Emit.{Code, nothing, seq, emit, emit_line, new_label, label}
use hvmsys.Hvmc.Codegen.Whole.{IsWhole, AreWhole, strings, all_strings}
use hvmsys.Hvmc.Codegen.{
  gen_expression, gen_arguments, gen_condition, from_r1, on_r1_r2, binary_mnemonic, branch,
  branch_on_zero, condition_mnemonic, gen_address, gen_string, load_d,
}

-- The code returns and takes `k` labels.
pub record Takes (code : Code) (k : ℕ) : Type 0 where
  pub takes : (n : ℕ) → (out : Bytes) × (code n ≡ ok (out, n + k))

pub recount : {code : Code} {i j : ℕ} → Takes code i → i ≡ j → Takes code j
recount {code} t e = subst (λ (k : ℕ). Takes code k) e t

pub nothing-Takes : Takes nothing 0
unfolding nothing
nothing-Takes = record { takes = λ n. ([], ap (λ (m : ℕ). ok ([], m)) (omega arith)) }

pub emit-Takes : (line : Bytes) → Takes (emit line) 0
unfolding emit
emit-Takes line = record {
  takes = λ n. (line ++ text "\n", ap (λ (m : ℕ). ok (line ++ text "\n", m)) (omega arith));
}

pub emit_line-Takes : (line : Bytes) → Takes (emit_line line) 0
unfolding emit_line
emit_line-Takes line =
    let out : Bytes = text "  " ++ (line ++ text "\n") in
    record { takes = λ n. (out, ap (λ (m : ℕ). ok (out, m)) (omega arith)) }

pub seq-Takes :
    {first after : Code} {i j : ℕ} → Takes first i → Takes after j → Takes (seq first after) (i + j)
unfolding seq
seq-Takes {first} {after} {i} {j} a b = record {
  takes = λ n.
      let (o1, e1) = a.takes n in
      let (o2, e2) = b.takes (n + i) in
      (o1 ++ o2, rw e1 (rw e2 (ap (λ (m : ℕ). ok (o1 ++ o2, m)) (omega arith))));
}

pub new_label-Takes :
    {use_label : Bytes → Code} {k : ℕ}
    → ((lbl : Bytes) → Takes (use_label lbl) k)
    → Takes (new_label use_label) (1 + k)
unfolding new_label
new_label-Takes {use_label} {k} t = record {
  takes = λ n.
      let (out, e) = (t (label n)).takes (n + 1) in
      (out, rw e (ap (λ (m : ℕ). ok (out, m)) (omega arith)));
}

if-Takes : {x y : Code} {k : ℕ} (b : Bool) → Takes x k → Takes y k → Takes (if b then x else y) k
if-Takes true tx ty = tx
if-Takes false tx ty = ty

from_r1-Takes : (target : ℕ) → Takes (from_r1 target) 0
unfolding from_r1
from_r1-Takes target = if-Takes (target == 1) nothing-Takes (emit_line-Takes _)

on_r1_r2-Takes : (m : Option Bytes) → Takes (on_r1_r2 m) 0
unfolding on_r1_r2
on_r1_r2-Takes (some m) = (emit_line-Takes _)
on_r1_r2-Takes none = nothing-Takes

address-Takes : (n : Node) (target : ℕ) → IsWhole n false → Takes (gen_address target n) 0
unfolding gen_address
address-Takes null target w = absurd w
address-Takes (variable name) target w = (emit_line-Takes _)
address-Takes _ target w = nothing-Takes

string-Takes : (target : ℕ) (value : Bytes) → Takes (gen_string target value) 1
unfolding gen_string
string-Takes target value =
    recount (new_label-Takes (λ lbl. seq-Takes (emit_line-Takes _) (emit_line-Takes _)))
      (omega arith)

load_d-Takes : (target base : ℕ) → Takes (load_d target base) 0
unfolding load_d
load_d-Takes target base = emit_line-Takes _

mutual
  unfolding gen_expression

  pub expression-Takes :
      (e : Node) (target : ℕ) (optional : Bool)
      → IsWhole e optional
      → Takes (gen_expression e target) (strings e)
  expression-Takes null target optional w = nothing-Takes
  expression-Takes (constant value) target optional w = (emit-Takes _)
  expression-Takes (variable name) target optional w = (emit-Takes _)
  expression-Takes (binary_op op left right) target optional (wl, wr) =
      recount
        (seq-Takes (expression-Takes left 1 false wl) (
          seq-Takes (expression-Takes right 2 false wr)
            (seq-Takes (on_r1_r2-Takes (binary_mnemonic op)) (from_r1-Takes target))))
        (omega arith)
  expression-Takes (unary_op op operand is_prefix) target optional w =
      expression-Takes operand target false w
  expression-Takes (assign place value) target optional (wp, wv) =
      recount (seq-Takes (expression-Takes value 1 false wv) (emit_line-Takes _)) (omega arith)
  expression-Takes (address_of operand) target optional w = address-Takes operand target w
  expression-Takes (string_node value) target optional w = string-Takes target value
  expression-Takes (call name args) target optional w =
      recount
        (seq-Takes (arguments-Takes args 1 w)
          (seq-Takes (emit_line-Takes _) (from_r1-Takes target)))
        (omega arith)
  expression-Takes (deref operand) target optional w =
      recount (seq-Takes (expression-Takes operand target false w) (load_d-Takes target target))
        (omega arith)
  expression-Takes (array_index arr index) target optional (wa, wi) =
      recount
        (seq-Takes (expression-Takes arr 1 false wa) (
          seq-Takes (expression-Takes index 2 false wi) (
            seq-Takes (emit_line-Takes _) (seq-Takes (emit_line-Takes _) (load_d-Takes target 1)))))
        (omega arith)
  expression-Takes _ target optional w = nothing-Takes

  arguments-Takes : (ns : Nodes) (r : ℕ) → AreWhole ns → Takes (gen_arguments ns r) (all_strings ns)
  arguments-Takes empty r w = nothing-Takes
  arguments-Takes (node n more) r (w, ws) =
      seq-Takes (expression-Takes n r false w) (arguments-Takes more (r + 1) ws)

branch-Takes : (m : Option Bytes) (lbl : Bytes) → Takes (branch m lbl) 0
unfolding branch
branch-Takes (some m) lbl = emit_line-Takes _
branch-Takes none lbl = nothing-Takes

-- A branch on an expression that is no comparison.
zero-Takes :
    (n : Node) (lbl : Bytes) (invert : Bool)
    → IsWhole n true
    → Takes (seq (gen_expression n 1) (branch_on_zero lbl invert)) (strings n)
unfolding branch_on_zero
zero-Takes n lbl invert w =
    recount (seq-Takes (expression-Takes n 1 true w) (emit_line-Takes _)) (omega arith)

pub condition-Takes :
    (cond : Node) (lbl : Bytes) (invert : Bool)
    → IsWhole cond true
    → Takes (gen_condition cond lbl invert) (strings cond)
unfolding gen_condition
condition-Takes null lbl invert w = nothing-Takes
condition-Takes (binary_op op left right) lbl invert (wl, wr) =
    recount
      (seq-Takes (expression-Takes left 1 false wl) (
        seq-Takes (expression-Takes right 2 false wr)
          (branch-Takes (condition_mnemonic op invert) lbl)))
      (omega arith)
condition-Takes (program ns) lbl invert w = zero-Takes (program ns) lbl invert w
condition-Takes (function_def nm ps b t) lbl invert w =
    zero-Takes (function_def nm ps b t) lbl invert w
condition-Takes (variable_decl nm t i x s) lbl invert w =
    zero-Takes (variable_decl nm t i x s) lbl invert w
condition-Takes (block ns) lbl invert w = zero-Takes (block ns) lbl invert w
condition-Takes (if_stmt c t e) lbl invert w = zero-Takes (if_stmt c t e) lbl invert w
condition-Takes (while_stmt c b) lbl invert w = zero-Takes (while_stmt c b) lbl invert w
condition-Takes (for_stmt i c n b) lbl invert w = zero-Takes (for_stmt i c n b) lbl invert w
condition-Takes (do_while_stmt b c) lbl invert w = zero-Takes (do_while_stmt b c) lbl invert w
condition-Takes (return_stmt e) lbl invert w = zero-Takes (return_stmt e) lbl invert w
condition-Takes break_stmt lbl invert w = zero-Takes break_stmt lbl invert w
condition-Takes continue_stmt lbl invert w = zero-Takes continue_stmt lbl invert w
condition-Takes empty_stmt lbl invert w = zero-Takes empty_stmt lbl invert w
condition-Takes (expr_stmt e) lbl invert w = zero-Takes (expr_stmt e) lbl invert w
condition-Takes (unary_op op e p) lbl invert w = zero-Takes (unary_op op e p) lbl invert w
condition-Takes (assign p v) lbl invert w = zero-Takes (assign p v) lbl invert w
condition-Takes (call nm ns) lbl invert w = zero-Takes (call nm ns) lbl invert w
condition-Takes (variable nm) lbl invert w = zero-Takes (variable nm) lbl invert w
condition-Takes (constant v) lbl invert w = zero-Takes (constant v) lbl invert w
condition-Takes (string_node v) lbl invert w = zero-Takes (string_node v) lbl invert w
condition-Takes (deref e) lbl invert w = zero-Takes (deref e) lbl invert w
condition-Takes (address_of e) lbl invert w = zero-Takes (address_of e) lbl invert w
condition-Takes (sizeof_expr e) lbl invert w = zero-Takes (sizeof_expr e) lbl invert w
condition-Takes (member_access o m) lbl invert w = zero-Takes (member_access o m) lbl invert w
condition-Takes (array_index a i) lbl invert w = zero-Takes (array_index a i) lbl invert w
condition-Takes (cast_expr e t) lbl invert w = zero-Takes (cast_expr e t) lbl invert w
condition-Takes (asm_stmt c) lbl invert w = zero-Takes (asm_stmt c) lbl invert w
