-- ===== src/Hvmc/Preprocessor.antt =====
-- src/tools/hvmc/src/preprocessor.cpp. What opens a file, and the order in which an unordered_map is
-- gone through, are parameters.
pub mod Texts
pub mod Macros
pub mod Distinct
pub mod Covers
pub mod Ends
pub mod Plain
pub mod Words
pub mod Skipped
use hvmsys.Base.{
  ℕ, zero, suc, Bool, true, false, ◌&&◌, ◌||◌, ◌-◌, not, if◌then◌else◌, ◌==◌, List, [], ◌∷◌, ◌++◌,
  length, Option, none, some, take, drop,
}
use hvmsys.Base.Text.{Bytes, text, same_text}
use hvmsys.Except.{Exception, runtime_error}
use hvmsys.Hvmc.Preprocessor.Texts.{first_of, is_nil, trim, split, join, lines, last_is}
use hvmsys.Hvmc.Preprocessor.Distinct.{is_included}
use hvmsys.Hvmc.Preprocessor.Macros.{
  Defines, find_define, erase_define, set_define, expand_macro, evaluate_constant, is_defined,
}

-- The code outside the repository: `open_file` is std::ifstream with the contents of the file, and
-- `order` gives a map in the order of its iteration.
pub record Platform : Type 0 where
  pub open_file : Bytes → Option Bytes
  pub order : Defines → Defines

-- `starved` is a run with too little fuel, which the code has no like of.
pub data Outcome {ℓ} (A : Type ℓ) : Type ℓ where
  done : A → Outcome A
  fails : Exception → Outcome A
  starved : Outcome A

abbrev pub and_then {ℓ κ} : {A : Type ℓ} {B : Type κ} → Outcome A → (A → Outcome B) → Outcome B
and_then (done a) f = f a
and_then (fails e) f = fails e
and_then starved f = starved

-- The newest file is in front in `include_stack`.
pub record PreprocessorState : Type 0 where
  pub output : Bytes
  pub include_paths : List Bytes
  pub defines : Defines
  pub include_stack : List Bytes
  pub in_conditional : Bool
  pub conditional_active : Bool

pub data Command : Type 0 where
  define undef include_file if_value ifdef ifndef else_branch elif endif error pragma : Command

unfoldable pub command_of : Bytes → Option Command
command_of cmd =
    if same_text cmd (text "define")
    then some define
    else if same_text cmd (text "undef")
    then some undef
    else if same_text cmd (text "include")
    then some include_file
    else if same_text cmd (text "if")
    then some if_value
    else if same_text cmd (text "ifdef")
    then some ifdef
    else if same_text cmd (text "ifndef")
    then some ifndef
    else if same_text cmd (text "else")
    then some else_branch
    else if same_text cmd (text "elif")
    then some elif
    else if same_text cmd (text "endif")
    then some endif
    else if same_text cmd (text "error")
    then some error
    else if same_text cmd (text "pragma")
    then some pragma
    else none

-- The path without its quotes or angle brackets.
unfoldable pub unquote : Bytes → Bytes
unquote [] = []
unquote (c ∷ cs) =
    let inner : Bytes = take (length (c ∷ cs) - 2) cs in
    if (c == b'"') && last_is b'"' (c ∷ cs)
    then inner
    else if (c == b'<') && last_is b'>' (c ∷ cs)
    then inner
    else c ∷ cs

-- A file name behind an include path.
abbrev pub full_path : Bytes → Bytes → Bytes
full_path path filename =
    path ++ ((if is_nil path || last_is b'/' path then [] else b'/' ∷ []) ++ filename)

unfoldable pub search_paths : Platform → Bytes → List Bytes → Option Bytes
search_paths sys filename [] = none
search_paths sys filename (path ∷ paths) =
    let later = search_paths sys filename paths in
    first_of (sys.open_file (full_path path filename)) later

unfoldable pub read_file : Platform → Bytes → List Bytes → Option Bytes
unfolding search_paths
read_file sys filename paths = first_of (sys.open_file filename) (search_paths sys filename paths)

-- `state.in_conditional = true`, and the condition.
abbrev pub open_conditional : PreprocessorState → Bool → PreprocessorState
open_conditional st condition = record st {
  in_conditional = true;
  conditional_active = st.conditional_active && condition;
}

abbrev pub flip_conditional : PreprocessorState → Bool → PreprocessorState
flip_conditional st condition =
    if st.in_conditional
    then record st { conditional_active = not st.conditional_active && condition }
    else st

-- The condition that the first argument gives, false without one.
abbrev pub with_first : List Bytes → (Bytes → Bool) → Bool
with_first [] f = false
with_first (arg ∷ args) f = f arg

abbrev pub Step : Type 0
Step = Outcome (Bytes × PreprocessorState)

-- The state of an included file.
abbrev pub child_state : PreprocessorState → Bytes → PreprocessorState
child_state st filepath = record st { output = []; include_stack = filepath ∷ st.include_stack }

-- An included file, whose contents have been looked for; `again` is preprocess_internal.
unfoldable pub include_contents :
    (Bytes → PreprocessorState → Step) → PreprocessorState → Bytes → Option Bytes → Step
include_contents again st filepath none = fails runtime_error
include_contents again st filepath (some contents) =
    and_then (again contents (child_state st filepath)) (λ (processed, child).
      done (processed ++ (b'\n' ∷ []), record st { defines = child.defines }))

unfoldable pub include_path :
    Platform → (Bytes → PreprocessorState → Step) → PreprocessorState → Bytes → Step
unfolding include_contents is_included read_file
include_path sys again st filepath =
    if is_included filepath st.include_stack
    then fails runtime_error
    else include_contents again st filepath (read_file sys filepath st.include_paths)

-- A directive, with the arguments behind its name.
unfoldable pub run_command :
    Platform
    → (Bytes → PreprocessorState → Step)
    → Bytes
    → PreprocessorState
    → List Bytes
    → Option Command
    → Step
unfolding include_path unquote
run_command sys again line st [] (some define) = done ([], st)
run_command sys again line st (name ∷ values) (some define) =
    done ([], record st { defines = set_define name (join values) st.defines })
run_command sys again line st [] (some undef) = done ([], st)
run_command sys again line st (name ∷ args) (some undef) =
    done ([], record st { defines = erase_define name st.defines })
run_command sys again line st [] (some include_file) = done ([], st)
run_command sys again line st (path ∷ args) (some include_file) =
    include_path sys again st (unquote path)
run_command sys again line st args (some if_value) =
    done ([], open_conditional st (with_first args (λ e. evaluate_constant e st.defines)))
run_command sys again line st args (some ifdef) =
    done ([], open_conditional st (with_first args (λ name. is_defined name st.defines)))
run_command sys again line st args (some ifndef) =
    done ([], open_conditional st (with_first args (λ name. not (is_defined name st.defines))))
run_command sys again line st args (some else_branch) = done ([], flip_conditional st true)
run_command sys again line st args (some elif) =
    done ([], flip_conditional st (with_first args (λ e. evaluate_constant e st.defines)))
run_command sys again line st args (some endif) =
    done ([], record st { in_conditional = false; conditional_active = true })
run_command sys again line st args (some error) = fails runtime_error
run_command sys again line st args (some pragma) = done ([], st)
run_command sys again line st args none = done (line, st)

-- The words behind a `#`.
unfoldable pub directive :
    Platform → (Bytes → PreprocessorState → Step) → Bytes → PreprocessorState → List Bytes → Step
unfolding run_command command_of
directive sys again line st [] = done ([], st)
directive sys again line st (cmd ∷ args) = run_command sys again line st args (command_of cmd)

-- A line that is no directive.
unfoldable pub plain_line : Platform → Bytes → PreprocessorState → Step
plain_line sys line st =
    if st.conditional_active
    then done (expand_macro sys.order line st.defines, st)
    else done ([], st)

-- A line, by the line without its outer blanks.
unfoldable pub trimmed_line :
    Platform → (Bytes → PreprocessorState → Step) → Bytes → PreprocessorState → Bytes → Step
unfolding directive plain_line trim split
trimmed_line sys again line st [] = done (line, st)
trimmed_line sys again line st (c ∷ cs) =
    if c == b'#' then directive sys again line st (split (trim cs)) else plain_line sys line st

unfoldable pub process_line :
    Platform → (Bytes → PreprocessorState → Step) → Bytes → PreprocessorState → Step
unfolding trimmed_line trim
process_line sys again line st = trimmed_line sys again line st (trim line)

-- What a round of the loop over the lines writes.
unfoldable pub write_processed : Bytes → PreprocessorState → PreprocessorState
write_processed processed st =
    if not (is_nil processed) && not (st.in_conditional && not st.conditional_active)
    then record st { output = st.output ++ processed }
    else st

unfoldable pub line_loop :
    Platform → (Bytes → PreprocessorState → Step) → List Bytes → PreprocessorState → Step
unfolding process_line write_processed
line_loop sys again [] st = done (st.output, st)
line_loop sys again (line ∷ rest) st =
    and_then (process_line sys again line st)
      (λ (processed, next). line_loop sys again rest (write_processed processed next))

-- The fuel bounds the depth of the includes.
unfoldable pub preprocess_internal : Platform → ℕ → Bytes → PreprocessorState → Step
unfolding line_loop lines
preprocess_internal sys zero source st = starved
preprocess_internal sys (suc fuel) source st =
    line_loop sys (preprocess_internal sys fuel) (lines source) st

abbrev pub initial_state : List Bytes → PreprocessorState
initial_state include_paths = record {
  output = [];
  include_paths = include_paths;
  defines = [];
  include_stack = [];
  in_conditional = false;
  conditional_active = true;
}

unfoldable pub preprocess : Platform → ℕ → Bytes → List Bytes → Step
unfolding preprocess_internal
preprocess sys fuel source include_paths =
    preprocess_internal sys fuel source (initial_state include_paths)
