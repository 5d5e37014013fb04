-- ===== src/Hvmc/Driver.antt =====
-- src/tools/hvmc/src/main.cpp: the options, and the stages of the compiler one after the other. What is
-- written to std::cerr is left out.
pub mod Ends
use hvmsys.Base.{
  ℕ, ◌-◌, Bool, true, false, ◌&&◌, ◌||◌, if◌then◌else◌, leb, List, [], ◌∷◌, ◌++◌, length, drop,
  Option, none, some,
}
use hvmsys.Base.Text.{Bytes, text, same_text}
use hvmsys.Except.{Result, ok, thrown, undefined}
use hvmsys.Hvmc.Ast.{Node}
use hvmsys.Hvmc.Parser.Monad
use hvmsys.Hvmc.Parser.Monad.{Outcome}
use hvmsys.Hvmc.Parser.{parse}
use hvmsys.Hvmc.Codegen.{generate}
use hvmsys.Hvmc.Assembler.State.{Run, ran, failed, bad, stuck, Pass}
use hvmsys.Hvmc.Assembler.{assemble}
use hvmsys.Hvmc.Assembler.Object.{object_of}
use hvmsys.Hvmc.Elf.Object.{ObjectFile}
use hvmsys.Hvmc.Elf.Write.{write_elf, write_executable}
use hvmsys.Hvmc.Preprocessor
use hvmsys.Hvmc.Preprocessor.{Platform, Step, preprocess}

-- The code and the state outside the repository: the files, those that can be written, and what a
-- number holds that is never set.
pub record Machine : Type 0 where
  pub platform : Platform
  pub can_write : Bytes → Bool
  pub junk : ℕ

-- How main ends: with a status and the file that it has written; by an exception that is not caught; in
-- undefined behaviour; or, in the model alone, with too little fuel.
pub data Exit : Type 0 where
  exits : ℕ → Option (Bytes × Bytes) → Exit
  aborts undefined_run no_fuel : Exit

pub record Options : Type 0 where
  pub output : Bytes
  pub emit_asm : Bool
  pub emit_obj : Bool
  pub emit_preproc : Bool
  pub verbose : Bool
  pub include_paths : List Bytes
  pub input : Bytes

abbrev pub default_options : Options
default_options = record {
  output = text "a.out";
  emit_asm = false;
  emit_obj = false;
  emit_preproc = false;
  verbose = false;
  include_paths = [];
  input = [];
}

-- An argument that takes no value; `none` is --help.
unfoldable pub flag : Options → Bytes → Option Options
flag o arg =
    if same_text arg (text "-S")
    then some (record o { emit_asm = true })
    else if same_text arg (text "-c")
    then some (record o { emit_obj = true })
    else if same_text arg (text "-E")
    then some (record o { emit_preproc = true })
    else if same_text arg (text "-v")
    then some (record o { verbose = true })
    else if same_text arg (text "--help")
    then none
    else some (record o { input = arg })

-- The loop over the arguments.
unfoldable pub parse_args : List Bytes → Options → Option Options
unfolding flag
parse_args [] o = some o
parse_args (arg ∷ []) o = flag o arg
parse_args (arg ∷ value ∷ rest) o =
    let with_output = parse_args rest (record o { output = value }) in
    let with_path =
      parse_args rest (record o { include_paths = o.include_paths ++ (value ∷ []) }) in
    let plain : Options → Option Options = parse_args (value ∷ rest) in
    if same_text arg (text "-o")
    then with_output
    else if same_text arg (text "-I")
    then with_path
    else elim (flag o arg) [ none ↦ none | some next ↦ plain next ]

unfoldable pub has_suffix : Bytes → Bytes → Bool
has_suffix s suffix =
    leb (length suffix) (length s) && same_text (drop (length s - length suffix) s) suffix

-- Both ways to write a file end in status 1 where it cannot be opened.
unfoldable pub write_file : Machine → Bytes → Bytes → Exit
write_file m path bytes = if m.can_write path then exits 0 (some (path, bytes)) else exits 1 none

-- An exception of these stages is caught. `make` is write_elf or write_executable.
unfoldable pub assembled : Machine → Bytes → (ObjectFile → Bytes) → Run Pass → Exit
unfolding write_file object_of
assembled m output make (ran p l) = write_file m output (make (object_of m.junk p))
assembled m output make (failed e) = exits 1 none
assembled m output make bad = undefined_run
assembled m output make stuck = no_fuel

unfoldable pub generated : Machine → Options → Bytes → Result (Bytes × ℕ) → Exit
unfolding write_file assembled assemble write_elf write_executable
generated m o output (ok (asm, n)) =
    if o.emit_asm
    then write_file m output asm
    else assembled m output (if o.emit_obj then write_elf else write_executable) (assemble asm)
generated m o output (thrown e) = exits 1 none
generated m o output undefined = undefined_run

unfoldable pub parsed : Machine → Options → Bytes → Outcome Node → Exit
unfolding generated generate
parsed m o output (Outcome.done tree l) = generated m o output (generate tree)
parsed m o output (Outcome.fails e) = exits 1 none
parsed m o output Outcome.invalid = undefined_run
parsed m o output Outcome.starved = no_fuel

-- The name of the output where none is given.
unfoldable pub output_name : Options → Bytes
output_name o =
    if same_text o.output (text "a.out")
    then (if o.emit_asm
        then o.input ++ text ".s"
        else if o.emit_obj
        then o.input ++ text ".o"
        else text "a.elf")
    else o.output

-- The try block, by the suffix of the input.
unfoldable pub compile : Machine → Options → Bytes → Exit
unfolding has_suffix assembled assemble write_elf parsed parse output_name
compile m o source =
    if has_suffix o.input (text ".s") || has_suffix o.input (text ".asm")
    then assembled m (output_name o) write_elf (assemble source)
    else if has_suffix o.input (text ".c")
    then parsed m o (output_name o) (parse source)
    else exits 1 none

-- What follows the preprocessor, whose exceptions are not caught.
unfoldable pub preprocessed : (Bytes → Exit) → Step → Exit
preprocessed next (Preprocessor.done (out, st)) = next out
preprocessed next (Preprocessor.fails e) = aborts
preprocessed next Preprocessor.starved = no_fuel

unfoldable pub preproc_name : Options → Bytes
preproc_name o = if same_text o.output (text "a.out") then o.input ++ text ".i" else o.output

-- main behind the reading of the input; `fuel` is the preprocessor's.
unfoldable pub run_source : Machine → ℕ → Options → Bytes → Exit
unfolding preprocessed preprocess preproc_name write_file has_suffix compile
run_source m fuel o source =
    if o.emit_preproc
    then preprocessed (write_file m (preproc_name o))
        (preprocess m.platform fuel source o.include_paths)
    else if has_suffix o.input (text ".c")
    then preprocessed (compile m o) (preprocess m.platform fuel source o.include_paths)
    else compile m o source

abbrev pub run_input : Machine → ℕ → Options → Option Bytes → Exit
run_input m fuel o none = exits 1 none
run_input m fuel o (some source) = run_source m fuel o source

abbrev pub run_options : Machine → ℕ → Options → Bytes → Exit
run_options m fuel o [] = exits 1 none
run_options m fuel o (c ∷ cs) = run_input m fuel o (m.platform.open_file (c ∷ cs))

abbrev pub run_parsed : Machine → ℕ → Option Options → Exit
run_parsed m fuel none = exits 0 none
run_parsed m fuel (some o) = run_options m fuel o o.input

-- main with these arguments behind the name of the program.
unfoldable pub main : Machine → ℕ → List Bytes → Exit
unfolding run_source parse_args
main m fuel [] = exits 1 none
main m fuel (arg ∷ args) = run_parsed m fuel (parse_args (arg ∷ args) default_options)
