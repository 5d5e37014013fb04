-- ===== src/Hvmc/PreprocessorExamples.antt =====
-- Sources and what the preprocessor makes of them.
use hvmsys.Base.{◌≡◌, refl, false, [], ◌∷◌, none, some, All}
use mathlib.Core.Path.{subst}
use hvmsys.Base.Text.{Bytes, text}
use hvmsys.Hvmc.AsmLexer.{span}
use hvmsys.Hvmc.Lexer.Read.{digits_value}
use hvmsys.Hvmc.Preprocessor.Texts.{trim_front, trim_end, trim, words_from, split, join, lines}
use hvmsys.Hvmc.Preprocessor.Macros.{
  find_define, erase_define, set_define, is_defined, behind, match_at, replace_from, expand_each,
  expand_macro, nonzero_digits, nonzero_int, evaluate_constant,
}
use hvmsys.Hvmc.Preprocessor.Distinct.{is_included}
use hvmsys.Hvmc.Preprocessor.{
  Platform, Outcome, done, PreprocessorState, Step, command_of, unquote, search_paths, read_file,
  include_contents, include_path, run_command, directive, plain_line, trimmed_line, process_line,
  write_processed, line_loop, preprocess_internal, initial_state, preprocess,
}
use hvmsys.Hvmc.Preprocessor.Covers.{IsCovered, IsClosed, Good}
use hvmsys.Hvmc.Preprocessor.Ends.{preprocess-ends}
use hvmsys.Hvmc.Preprocessor.Plain.{IsPlain, words_of, without_breaks, preprocess-joins}
use hvmsys.Hvmc.Preprocessor.Words.{Replaces, replace_from-Replaces}
use hvmsys.Hvmc.Preprocessor.Skipped.{behind_endif, line_loop-skips}

-- Every file that is opened has this text.
abbrev header : Bytes
header = text "#define N 5\n"

abbrev one_header : Platform
one_header = record { open_file = λ name. some header; order = λ defines. defines }

abbrev output_of : Step → Bytes
output_of (done (bytes, st)) = bytes
output_of _ = []

-- A macro of a header; the line breaks are lost, but for the one behind the header.
with_header :
    output_of (preprocess one_header 2 (text "#include \"h\"\nint N;\nint NN;\n") [])
    ≡ text "\nint 5;int NN;"
unfolding preprocess preprocess_internal line_loop process_line write_processed trimmed_line
    plain_line directive run_command include_path include_contents search_paths read_file unquote
    command_of is_included trim_front trim_end trim words_from split join lines find_define
    erase_define set_define is_defined behind match_at replace_from expand_each expand_macro
with_header = refl

-- The inner #endif ends the outer conditional too.
nested_endif :
    output_of (preprocess one_header 1 (text "#if 0\n#if 1\n#endif\nint x;\n#endif\n") [])
    ≡ text "int x;"
unfolding preprocess preprocess_internal line_loop process_line write_processed trimmed_line
    plain_line directive run_command include_path include_contents search_paths read_file unquote
    command_of is_included trim_front trim_end trim words_from split join lines find_define
    erase_define set_define is_defined behind match_at replace_from expand_each expand_macro
    nonzero_digits nonzero_int evaluate_constant span digits_value
nested_endif = refl

header-IsCovered : IsCovered (text "h" ∷ []) header
unfolding lines trim trim_front trim_end words_from split command_of
header-IsCovered = (tt, tt)

source-IsCovered : IsCovered (text "h" ∷ []) (text "#include \"h\"\nint N;")
unfolding lines trim trim_front trim_end words_from split command_of unquote is_included
source-IsCovered = (refl, (tt, tt))

some-injective : {a b : Bytes} → some a ≡ some b → a ≡ b
some-injective e = cc

closed : IsClosed one_header [] (text "h" ∷ []) (text "#include \"h\"\nint N;")
unfolding read_file
closed = record {
  source_covered = source-IsCovered;
  files_covered = λ name contents named opened.
      subst (IsCovered (text "h" ∷ [])) (some-injective opened) header-IsCovered;
}

preprocess-ends_example : Good [] [] (preprocess one_header 2 (text "#include \"h\"\nint N;") [])
preprocess-ends_example =
    preprocess-ends one_header [] (text "h" ∷ []) (text "#include \"h\"\nint N;") closed

lines-IsPlain : All IsPlain (lines (text "int x; // x\nint y;"))
unfolding lines trim trim_front trim_end words_from split
lines-IsPlain = (refl, (refl, tt))

-- The comment reaches to the end of the text.
preprocess-joins_example :
    preprocess one_header 1 (text "int x; // x\nint y;") []
    ≡ done (
      without_breaks (text "int x; // x\nint y;"),
      record (initial_state []) { output = without_breaks (text "int x; // x\nint y;") },
    )
preprocess-joins_example =
    preprocess-joins one_header 0 (text "int x; // x\nint y;") [] refl lines-IsPlain

ifdef_words : words_of (text "#ifdef X") ≡ some (text "ifdef" ∷ text "X" ∷ [])
unfolding trim trim_front trim_end words_from split
ifdef_words = refl

endif_words : words_of (text " # endif") ≡ some (text "endif" ∷ [])
unfolding trim trim_front trim_end words_from split
endif_words = refl

not_defined : is_defined (text "X") [] ≡ false
unfolding is_defined find_define
not_defined = refl

line-IsPlain : IsPlain (text "int x;")
unfolding trim trim_front trim_end
line-IsPlain = refl

abbrev no_file : Bytes → PreprocessorState → Step
no_file contents st = Outcome.starved

line_loop-skips_example :
    line_loop one_header no_file
      (text "#ifdef X" ∷ text "int x;" ∷ text " # endif" ∷ text "int y;" ∷ [])
      (initial_state [])
    ≡ line_loop one_header no_file (text "int y;" ∷ []) (behind_endif (initial_state []))
line_loop-skips_example =
    line_loop-skips one_header no_file (text "#ifdef X") (text "X") (text " # endif")
      (text "int x;" ∷ []) (text "int y;" ∷ []) (initial_state []) ifdef_words not_defined
      (line-IsPlain, tt) endif_words

replace_from-Replaces_example :
    Replaces
      (text "N")
      (text "5")
      none
      (text "N+NN")
      (replace_from (text "N") (text "5") none 0 (text "N+NN"))
replace_from-Replaces_example = replace_from-Replaces b'N' [] (text "5") (text "N+NN")
