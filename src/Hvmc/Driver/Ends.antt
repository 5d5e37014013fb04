-- ===== src/Hvmc/Driver/Ends.antt =====
-- main of src/tools/hvmc/src/main.cpp ends, and writes a file only where it succeeds.
use hvmsys.Base.{
  ℕ, suc, ◌≤◌, ◌≡◌, refl, arith, Bool, true, false, Bool-cases, inl, inr, ◌||◌, if◌then◌else◌, List,
  [], ◌∷◌, length, Option, none, some,
}
use hvmsys.Base.Text.{Bytes, text}
use hvmsys.Except.{ok}
use hvmsys.Hvmc.Parser.{parse}
use hvmsys.Hvmc.Parser.Total.{parse-generate}
use hvmsys.Hvmc.Codegen.Whole.{labels}
use hvmsys.Hvmc.Assembler.State.{Run, ran, failed, bad, stuck, Pass}
use hvmsys.Hvmc.Assembler.{assemble}
use hvmsys.Hvmc.Assembler.Runs.{no_weight, Good}
use hvmsys.Hvmc.Assembler.Ends.{assemble-ends}
use hvmsys.Hvmc.Elf.Object.{ObjectFile}
use hvmsys.Hvmc.Elf.Write.{write_elf, write_executable}
use hvmsys.Hvmc.Preprocessor
use hvmsys.Hvmc.Preprocessor.{Step, preprocess}
use hvmsys.Hvmc.Preprocessor.Covers
use hvmsys.Hvmc.Preprocessor.Covers.{IsClosed}
use hvmsys.Hvmc.Preprocessor.Ends.{preprocess-ends}
use hvmsys.Hvmc.Driver.{
  Machine, Exit, exits, aborts, undefined_run, no_fuel, Options, default_options, parse_args,
  has_suffix, write_file, assembled, generated, parsed, output_name, compile, preprocessed,
  preproc_name, run_source, run_input, run_options, run_parsed, main,
}

-- A status of 0 or 1, and no file that is written with a 1; or an exception or undefined behaviour.
abbrev pub IsEnd : Exit → Type 0
IsEnd (exits status written) = (status ≤ 1) × (status ≡ 1 → written ≡ none)
IsEnd aborts = Unit {0}
IsEnd undefined_run = Unit {0}
IsEnd no_fuel = ⊥

failing-IsEnd : IsEnd (exits 1 none)
failing-IsEnd = (omega arith, λ e. refl)

write_file-IsEnd : (m : Machine) (path bytes : Bytes) → IsEnd (write_file m path bytes)
unfolding write_file
write_file-IsEnd m path bytes = elim (Bool-cases (m.can_write path)) [
  | inl e ↦ rw e (omega arith, λ z. absurd (omega (arith, z)))
  | inr e ↦ rw e failing-IsEnd
]

assembled-IsEnd :
    (m : Machine) (output : Bytes) (make : ObjectFile → Bytes) (s : ℕ) (r : Run Pass)
    → Good no_weight s r
    → IsEnd (assembled m output make r)
unfolding assembled
assembled-IsEnd m output make s (ran p l) g = write_file-IsEnd m output _
assembled-IsEnd m output make s (failed e) g = failing-IsEnd
assembled-IsEnd m output make s bad g = tt
assembled-IsEnd m output make s stuck g = g

generated-IsEnd :
    (m : Machine) (o : Options) (output asm : Bytes) (n : ℕ)
    → IsEnd (generated m o output (ok (asm, n)))
unfolding generated
generated-IsEnd m o output asm n = elim (Bool-cases o.emit_asm) [
  | inl e ↦ rw e (write_file-IsEnd m output asm)
  | inr e ↦ rw e (
      assembled-IsEnd m output (if o.emit_obj then write_elf else write_executable) (length asm)
        (assemble asm) (assemble-ends asm))
]

parsed-IsEnd :
    (m : Machine) (o : Options) (output source : Bytes) → IsEnd (parsed m o output (parse source))
unfolding parsed
parsed-IsEnd m o output source = elim (parse-generate source) [
  | inl e ↦ rw e failing-IsEnd
  | inr (tree, l, out, e, f) ↦ rw (e, f) (generated-IsEnd m o output out (labels tree))
]

if-IsEnd : (b : Bool) (x y : Exit) → IsEnd x → IsEnd y → IsEnd (if b then x else y)
if-IsEnd true x y f g = f
if-IsEnd false x y f g = g

compile-IsEnd : (m : Machine) (o : Options) (source : Bytes) → IsEnd (compile m o source)
unfolding compile
compile-IsEnd m o source =
    if-IsEnd (has_suffix o.input (text ".s") || has_suffix o.input (text ".asm")) _ _
      (assembled-IsEnd m (output_name o) write_elf (length source) (assemble source)
        (assemble-ends source))
      (if-IsEnd (has_suffix o.input (text ".c")) _ _ (parsed-IsEnd m o (output_name o) source)
        failing-IsEnd)

preprocessed-IsEnd :
    (next : Bytes → Exit) (paths : List Bytes) (s : Step)
    → ((out : Bytes) → IsEnd (next out))
    → Covers.Good paths [] s
    → IsEnd (preprocessed next s)
unfolding preprocessed
preprocessed-IsEnd next paths (Preprocessor.done (out, st)) h g = h out
preprocessed-IsEnd next paths (Preprocessor.fails e) h g = tt
preprocessed-IsEnd next paths Preprocessor.starved h g = g

run_source-IsEnd :
    (m : Machine) (names : List Bytes) (o : Options) (source : Bytes)
    → IsClosed m.platform o.include_paths names source
    → IsEnd (run_source m (suc (length names)) o source)
unfolding run_source
run_source-IsEnd m names o source closed =
    let ends = preprocess-ends m.platform o.include_paths names source closed in
    if-IsEnd o.emit_preproc _ _
      (preprocessed-IsEnd (write_file m (preproc_name o)) o.include_paths _
        (write_file-IsEnd m (preproc_name o)) ends)
      (if-IsEnd (has_suffix o.input (text ".c")) _ _
        (preprocessed-IsEnd (compile m o) o.include_paths _ (compile-IsEnd m o) ends)
        (compile-IsEnd m o source))

run_input-IsEnd :
    (m : Machine) (names : List Bytes) (o : Options) (r : Option Bytes)
    → ((source : Bytes) → r ≡ some source → IsClosed m.platform o.include_paths names source)
    → IsEnd (run_input m (suc (length names)) o r)
run_input-IsEnd m names o none closed = failing-IsEnd
run_input-IsEnd m names o (some source) closed =
    run_source-IsEnd m names o source (closed source refl)

run_options-IsEnd :
    (m : Machine) (names : List Bytes) (o : Options) (input : Bytes)
    → ((source : Bytes)
        → m.platform.open_file input ≡ some source
        → IsClosed m.platform o.include_paths names source)
    → IsEnd (run_options m (suc (length names)) o input)
run_options-IsEnd m names o [] closed = failing-IsEnd
run_options-IsEnd m names o (c ∷ cs) closed =
    run_input-IsEnd m names o (m.platform.open_file (c ∷ cs)) closed

run_parsed-IsEnd :
    (m : Machine) (names : List Bytes) (r : Option Options)
    → ((o : Options) (source : Bytes)
        → r ≡ some o
        → m.platform.open_file o.input ≡ some source
        → IsClosed m.platform o.include_paths names source)
    → IsEnd (run_parsed m (suc (length names)) r)
run_parsed-IsEnd m names none closed = (omega arith, λ z. absurd (omega (arith, z)))
run_parsed-IsEnd m names (some o) closed =
    run_options-IsEnd m names o o.input (λ source e. closed o source refl e)

-- For all arguments, where the input file, if it is read, and the files that it includes include only
-- files of `names`: with one more than the names as fuel for the includes, main ends; with status 0, with
-- status 1 and no file written, by an exception that is not caught, or in undefined behaviour. No stage
-- runs out of its fuel.
pub main-IsEnd :
    (m : Machine) (names args : List Bytes)
    → ((o : Options) (source : Bytes)
        → parse_args args default_options ≡ some o
        → m.platform.open_file o.input ≡ some source
        → IsClosed m.platform o.include_paths names source)
    → IsEnd (main m (suc (length names)) args)
unfolding main
main-IsEnd m names [] closed = failing-IsEnd
main-IsEnd m names (arg ∷ args) closed =
    run_parsed-IsEnd m names (parse_args (arg ∷ args) default_options) closed
