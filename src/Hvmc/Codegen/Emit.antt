-- ===== src/Hvmc/Codegen/Emit.antt =====
-- The state and the output of the class CodeGen of src/tools/hvmc/src/codegen.cpp, and the names it writes.
use hvmsys.Base.{ℕ, ◌+◌, Bool, true, false, if◌then◌else◌, [], ◌++◌}
use hvmsys.Base.Text.{Bytes, text, to_string}
use hvmsys.Except.{Result, ok, thrown, undefined}
use hvmsys.Hvmc.Ast.{Node, null}

-- A call on a CodeGen: from label_counter to what it adds to `output` and the counter behind it. The counter
-- stays below 2 ^ 31.
abbrev pub Code : Type 0
Code = ℕ → Result (Bytes × ℕ)

unfoldable pub nothing : Code
nothing = λ n. ok ([], n)

-- A null pointer is followed.
unfoldable pub bad : Code
bad = λ n. undefined

abbrev pub prefix_output : Bytes → Result (Bytes × ℕ) → Result (Bytes × ℕ)
prefix_output out (ok (more, n)) = ok (out ++ more, n)
prefix_output out (thrown e) = thrown e
prefix_output out undefined = undefined

abbrev pub continue_with : Result (Bytes × ℕ) → Code → Result (Bytes × ℕ)
continue_with (ok (out, n)) after = prefix_output out (after n)
continue_with (thrown e) after = thrown e
continue_with undefined after = undefined

-- One call after another.
unfoldable pub seq : Code → Code → Code
seq first after = λ n. continue_with (first n) after

unfoldable pub emit : Bytes → Code
emit line = λ n. ok (line ++ text "\n", n)

unfoldable pub emit_line : Bytes → Code
emit_line line = λ n. ok (text "  " ++ (line ++ text "\n"), n)

abbrev pub label : ℕ → Bytes
label n = text ".L" ++ to_string n

-- `new_label()`, in front of what uses the label.
unfoldable pub new_label : (Bytes → Code) → Code
new_label use_label = λ n. use_label (label n) (n + 1)

-- `reg_name`, by the number of the register.
unfoldable pub reg_name : ℕ → Bytes
reg_name r = text "r" ++ to_string r

abbrev pub is_null : Node → Bool
is_null null = true
is_null _ = false

-- `if (node) …`.
unfoldable pub unless_null : Node → Code → Code
unless_null n code = if is_null n then nothing else code
