-- ===== src/Hvmc/Codegen/Total.antt =====
-- Code generation returns on every whole tree, and the counter moves by the labels that the tree needs.
use hvmsys.Base.{ℕ, ◌+◌, ◌≡◌, refl, sym, ap, ◌∙◌, arith, true, false, inl, inr}
use hvmsys.Base.Text.{Bytes}
use hvmsys.Except.{ok}
use hvmsys.Hvmc.Ast.{
  Node, Nodes, empty, node, null, program, function_def, variable_decl, block, if_stmt, while_stmt,
  for_stmt, do_while_stmt, return_stmt, expr_stmt, asm_stmt,
}
use hvmsys.Hvmc.Codegen.Emit.{Code, is_null, unless_null}
use hvmsys.Hvmc.Codegen.Whole.{
  null_or_not, optional-IsWhole, IsWhole, AreWhole, strings, labels, all_labels,
}
use hvmsys.Hvmc.Codegen.Labels.{
  Takes, recount, nothing-Takes, emit_line-Takes, seq-Takes, new_label-Takes, expression-Takes,
  condition-Takes,
}
use hvmsys.Hvmc.Codegen.{
  gen_function_def, gen_variable_decl, gen_else, gen_if_stmt, gen_while_stmt, gen_for_stmt,
  gen_do_while_stmt, gen, gen_all, generate,
}

-- A part that is skipped where it is null, of which `needed` counts the labels.
optional-Takes :
    (n : Node) (code : Code) (needed : Node → ℕ)
    → needed null ≡ 0
    → IsWhole n true
    → (IsWhole n false → Takes code (needed n))
    → Takes (unless_null n code) (needed n)
unfolding unless_null
optional-Takes n code needed none_needed w t = elim (null_or_not n) [
  | inl e ↦ rw e (recount nothing-Takes (sym none_needed))
  | inr (present, whole, _) ↦ rw present (t (whole w))
]

function_def-Takes :
    (name : Bytes) (body : Node) (code : Code)
    → IsWhole body true
    → (IsWhole body false → Takes code (labels body))
    → Takes (gen_function_def name body code) (labels body)
unfolding gen_function_def
function_def-Takes name body code w t = optional-Takes body _ labels refl w (λ present.
    recount
      (seq-Takes (emit_line-Takes _) (
        seq-Takes (emit_line-Takes _) (
          seq-Takes (emit_line-Takes _)
            (seq-Takes (emit_line-Takes _) (seq-Takes (t present) (emit_line-Takes _))))))
      (omega arith))

variable_decl-Takes :
    (name : Bytes) (init : Node)
    → IsWhole init true
    → Takes (gen_variable_decl name init) (strings init)
unfolding gen_variable_decl
variable_decl-Takes name init w = optional-Takes init _ strings refl w (λ present.
    recount (seq-Takes (expression-Takes init 1 true w) (emit_line-Takes _)) (omega arith))

else-Takes :
    (else_lbl end_lbl : Bytes) (n : Node) (code : Code)
    → IsWhole n true
    → (IsWhole n false → Takes code (labels n))
    → Takes (gen_else else_lbl end_lbl (is_null n) code) (labels n)
unfolding gen_else
else-Takes else_lbl end_lbl n code w t = elim (null_or_not n) [
  | inl e ↦ rw e (emit_line-Takes _)
  | inr (present, whole, _) ↦ rw present (
      recount
        (seq-Takes (emit_line-Takes _)
          (seq-Takes (emit_line-Takes _) (seq-Takes (t (whole w)) (emit_line-Takes _))))
        (omega arith))
]

if_stmt-Takes :
    (cond : Node) (then_code : Code) (k : ℕ) (n : Node) (code : Code)
    → IsWhole cond false
    → Takes then_code k
    → IsWhole n true
    → (IsWhole n false → Takes code (labels n))
    → Takes (gen_if_stmt cond then_code n code) (2 + (strings cond + (k + labels n)))
unfolding gen_if_stmt
if_stmt-Takes cond then_code k n code wc tt_then w t =
    recount
      (new_label-Takes (λ else_lbl. new_label-Takes (λ end_lbl.
        seq-Takes (condition-Takes cond else_lbl false (optional-IsWhole cond wc))
          (seq-Takes tt_then (else-Takes else_lbl end_lbl n code w t)))))
      (omega arith)

while_stmt-Takes :
    (cond : Node) (body : Code) (k : ℕ)
    → IsWhole cond false
    → Takes body k
    → Takes (gen_while_stmt cond body) (2 + (strings cond + k))
unfolding gen_while_stmt
while_stmt-Takes cond body k wc t =
    recount
      (new_label-Takes (λ start. new_label-Takes (λ end. seq-Takes (emit_line-Takes _) (
        seq-Takes (condition-Takes cond end false (optional-IsWhole cond wc))
          (seq-Takes t (seq-Takes (emit_line-Takes _) (emit_line-Takes _)))))))
      (omega arith)

for_stmt-Takes :
    (init cond inc : Node) (body : Code) (k : ℕ)
    → IsWhole init true
    → IsWhole cond true
    → IsWhole inc true
    → Takes body k
    → Takes
        (gen_for_stmt init cond inc body)
        (2 + (strings init + (strings cond + (k + strings inc))))
unfolding gen_for_stmt
for_stmt-Takes init cond inc body k wi wc wn t =
    recount
      (new_label-Takes (λ start. new_label-Takes (λ end.
        seq-Takes (expression-Takes init 1 true wi) (
          seq-Takes (emit_line-Takes _) (
            seq-Takes (condition-Takes cond end false wc) (
              seq-Takes t (
                seq-Takes (expression-Takes inc 1 true wn)
                  (seq-Takes (emit_line-Takes _) (emit_line-Takes _)))))))))
      (omega arith)

do_while_stmt-Takes :
    (cond : Node) (body : Code) (k : ℕ)
    → IsWhole cond false
    → Takes body k
    → Takes (gen_do_while_stmt cond body) (2 + (k + strings cond))
unfolding gen_do_while_stmt
do_while_stmt-Takes cond body k wc t =
    recount
      (new_label-Takes (λ start. new_label-Takes (λ end. seq-Takes (emit_line-Takes _) (
        seq-Takes t (
          seq-Takes (condition-Takes cond end false (optional-IsWhole cond wc))
            (seq-Takes (emit_line-Takes _) (emit_line-Takes _)))))))
      (omega arith)

mutual
  unfolding gen

  statement-Takes : (n : Node) → IsWhole n false → Takes (gen n) (labels n)
  statement-Takes null w = absurd w
  statement-Takes (program nodes) w = all-Takes nodes w
  statement-Takes (function_def name params body type) (wp, w) =
      function_def-Takes name body (gen body) w (λ present. statement-Takes body present)
  statement-Takes (variable_decl name type init is_extern is_static) w =
      variable_decl-Takes name init w
  statement-Takes (block stmts) w = all-Takes stmts w
  statement-Takes (if_stmt cond then_body else_body) (wc, wt, we) =
      if_stmt-Takes cond (gen then_body) (labels then_body) else_body (gen else_body) wc
        (statement-Takes then_body wt) we (λ present. statement-Takes else_body present)
  statement-Takes (while_stmt cond body) (wc, w) =
      while_stmt-Takes cond (gen body) (labels body) wc (statement-Takes body w)
  statement-Takes (for_stmt init cond inc body) (wi, wc, wn, w) =
      for_stmt-Takes init cond inc (gen body) (labels body) wi wc wn (statement-Takes body w)
  statement-Takes (do_while_stmt cond body) (w, wc) =
      do_while_stmt-Takes cond (gen body) (labels body) wc (statement-Takes body w)
  statement-Takes (return_stmt expr) w =
      recount (seq-Takes (expression-Takes expr 1 true w) (emit_line-Takes _)) (omega arith)
  statement-Takes (expr_stmt expr) w = statement-Takes expr w
  statement-Takes (asm_stmt code) w = emit_line-Takes _
  statement-Takes _ w = nothing-Takes

  all-Takes : (ns : Nodes) → AreWhole ns → Takes (gen_all ns) (all_labels ns)
  all-Takes empty w = nothing-Takes
  all-Takes (node n more) (w, ws) = seq-Takes (statement-Takes n w) (all-Takes more ws)

-- On a tree without a null pointer where a node is needed, code generation returns, and takes as many labels
-- as the tree has: two for each branch or loop, one for each string literal that code is generated for.
pub generate-returns :
    (n : Node) → IsWhole n false → (out : Bytes) × (generate n ≡ ok (out, labels n))
unfolding generate
generate-returns n w =
    let (out, e) = (statement-Takes n w).takes 0 in
    (out, e ∙ ap (λ (m : ℕ). ok (out, m)) (omega arith))
