-- ===== src/Hvmc/Preprocessor/Covers.antt =====
-- Which files a text includes, in src/tools/hvmc/src/preprocessor.cpp.
use hvmsys.Base.{◌≡◌, true, if◌then◌else◌, ◌==◌, List, [], ◌∷◌, Option, none, some, All}
use hvmsys.Base.Text.{Bytes}
use hvmsys.Except.{runtime_error}
use hvmsys.Hvmc.Preprocessor.Texts.{trim, split, lines}
use hvmsys.Hvmc.Preprocessor.Distinct.{is_included}
use hvmsys.Hvmc.Preprocessor.{
  Platform, done, fails, starved, Command, include_file, command_of, unquote, read_file, Step,
}

-- The file that a line includes.
abbrev pub path_of : Option Command → List Bytes → Option Bytes
path_of (some include_file) (path ∷ args) = some (unquote path)
path_of _ _ = none

abbrev pub include_args : List Bytes → Option Bytes
include_args [] = none
include_args (cmd ∷ args) = path_of (command_of cmd) args

abbrev pub include_trimmed : Bytes → Option Bytes
include_trimmed [] = none
include_trimmed (c ∷ cs) = if c == b'#' then include_args (split (trim cs)) else none

abbrev pub IsNamed : List Bytes → Option Bytes → Type 0
IsNamed names none = Unit {0}
IsNamed names (some path) = is_included path names ≡ true

-- Each file that the text includes is one of the names.
abbrev pub IsCovered : List Bytes → Bytes → Type 0
IsCovered names source = All (λ line. IsNamed names (include_trimmed (trim line))) (lines source)

-- The text includes only files of these names, and so does each of the files.
pub record IsClosed (sys : Platform) (paths names : List Bytes) (source : Bytes) : Type 0 where
  pub source_covered : IsCovered names source
  pub files_covered :
      (name contents : Bytes)
      → is_included name names ≡ true
      → read_file sys name paths ≡ some contents
      → IsCovered names contents

-- A text and a state that includes the same files, or a runtime_error.
abbrev pub Good : List Bytes → List Bytes → Step → Type 0
Good paths stack (done (b, st)) = (st.include_paths ≡ paths) × (st.include_stack ≡ stack)
Good paths stack (fails e) = e ≡ runtime_error
Good paths stack starved = ⊥
