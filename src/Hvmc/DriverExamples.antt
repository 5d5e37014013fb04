-- ===== src/Hvmc/DriverExamples.antt =====
-- Arguments of hvmc and how main ends.
use hvmsys.Base.{◌≡◌, refl, true, List, [], ◌∷◌, none, some}
use mathlib.Core.Path.{subst}
use hvmsys.Base.Text.{Bytes, text}
use hvmsys.Hvmc.Preprocessor.Texts.{trim_front, trim_end, trim, words_from, split, lines}
use hvmsys.Hvmc.Preprocessor.{command_of, read_file}
use hvmsys.Hvmc.Preprocessor.Covers.{IsCovered, IsClosed}
use hvmsys.Hvmc.Driver.{Machine, exits, default_options, flag, parse_args, main}
use hvmsys.Hvmc.Driver.Ends.{IsEnd, main-IsEnd}

-- Every file has this text.
abbrev unit : Bytes
unit = text "int x; "

abbrev machine : Machine
machine = record {
  platform = record { open_file = λ name. some unit; order = λ defines. defines };
  can_write = λ path. true;
  junk = 0;
}

abbrev arguments : List Bytes
arguments = text "-I" ∷ text "include" ∷ text "-c" ∷ text "x.c" ∷ []

arguments_parsed :
    parse_args arguments default_options
    ≡ some (record default_options {
      include_paths = text "include" ∷ [];
      emit_obj = true;
      input = text "x.c";
    })
unfolding parse_args flag
arguments_parsed = refl

no_input : main machine 1 (text "-S" ∷ []) ≡ exits 1 none
unfolding main parse_args flag
no_input = refl

unit-IsCovered : IsCovered (text "h" ∷ []) unit
unfolding lines trim trim_front trim_end words_from split command_of
unit-IsCovered = (tt, tt)

unit-IsClosed :
    (paths : List Bytes) (source : Bytes)
    → some unit ≡ some source
    → IsClosed machine.platform paths (text "h" ∷ []) source
unfolding read_file
unit-IsClosed paths source e = record {
  source_covered = covered source e;
  files_covered = λ name contents named opened. covered contents opened;
}
  where
    covered : (contents : Bytes) → some unit ≡ some contents → IsCovered (text "h" ∷ []) contents
    covered contents opened =
        let same : unit ≡ contents = cc in subst (IsCovered (text "h" ∷ [])) same unit-IsCovered

main-IsEnd_example : IsEnd (main machine 2 arguments)
main-IsEnd_example =
    main-IsEnd machine (text "h" ∷ []) arguments
      (λ o source parsed opened. unit-IsClosed o.include_paths source opened)
