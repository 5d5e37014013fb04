-- ===== src/Hvmc/Preprocessor/Skipped.antt =====
-- Conditionals of src/tools/hvmc/src/preprocessor.cpp.
use hvmsys.Base.{
  ◌≡◌, refl, ap, ◌∙◌, arith, Bool, true, false, Bool-cases, inl, inr, if◌then◌else◌, ◌==◌, List, [],
  ◌∷◌, ◌++◌, none, some, All,
}
use hvmsys.Base.Text.{Bytes, text}
use hvmsys.Hvmc.Preprocessor.Texts.{trim}
use hvmsys.Hvmc.Preprocessor.Macros.{is_defined, expand_macro}
use hvmsys.Hvmc.Preprocessor.Plain.{words_trimmed, words_of, IsPlain}
use hvmsys.Hvmc.Preprocessor.{
  Platform, done, and_then, PreprocessorState, Step, open_conditional, command_of, run_command,
  directive, plain_line, trimmed_line, process_line, write_processed, line_loop,
}

directive_line :
    (sys : Platform) (again : Bytes → PreprocessorState → Step) (line trimmed : Bytes)
    (st : PreprocessorState) (words : List Bytes)
    → words_trimmed trimmed ≡ some words
    → trimmed_line sys again line st trimmed ≡ directive sys again line st words
unfolding trimmed_line
directive_line sys again line [] st words = λ e. cc
directive_line sys again line (c ∷ cs) st words = elim (Bool-cases (c == b'#')) [
  | inl e ↦ rw e (λ same. ap (directive sys again line st) (some-injective same))
  | inr e ↦ rw e (λ same. cc)
]
  where
    some-injective : {a b : List Bytes} → some a ≡ some b → a ≡ b
    some-injective e = cc

write_processed-inactive :
    (line : Bytes) (st : PreprocessorState)
    → st.in_conditional ≡ true
    → st.conditional_active ≡ false
    → write_processed line st ≡ st
unfolding write_processed
write_processed-inactive [] st i a = refl
write_processed-inactive (c ∷ cs) st i a = rw (i, a) refl

plain_line-inactive :
    (sys : Platform) (line : Bytes) (st : PreprocessorState)
    → st.conditional_active ≡ false
    → plain_line sys line st ≡ done ([], st)
unfolding plain_line
plain_line-inactive sys line st a =
    ap
      (λ (b : Bool). if b then done (expand_macro sys.order line st.defines, st) else done ([], st))
      a

-- A line that is no directive, in a part that is skipped, is not written.
skipped_line :
    (sys : Platform) (again : Bytes → PreprocessorState → Step) (line trimmed : Bytes)
    (st : PreprocessorState) (rest : PreprocessorState → Step)
    → st.in_conditional ≡ true
    → st.conditional_active ≡ false
    → words_trimmed trimmed ≡ none
    → and_then
        (trimmed_line sys again line st trimmed)
        (λ (processed, next). rest (write_processed processed next))
      ≡ rest st
unfolding trimmed_line
skipped_line sys again line [] st rest i a = λ plain. ap rest (write_processed-inactive line st i a)
skipped_line sys again line (c ∷ cs) st rest i a = elim (Bool-cases (c == b'#')) [
  | inl e ↦ rw e (λ plain. cc)
  | inr e ↦
      rw (e, plain_line-inactive sys line st a)
        (λ plain. ap rest (write_processed-inactive [] st i a))
]

skipped_lines :
    (sys : Platform) (again : Bytes → PreprocessorState → Step) (ls rest : List Bytes)
    (st : PreprocessorState)
    → st.in_conditional ≡ true
    → st.conditional_active ≡ false
    → All IsPlain ls
    → line_loop sys again (ls ++ rest) st ≡ line_loop sys again rest st
unfolding line_loop process_line
skipped_lines sys again [] rest st i a plain = refl
skipped_lines sys again (line ∷ ls) rest st i a (p, plain) =
    skipped_line sys again line (trim line) st (line_loop sys again (ls ++ rest)) i a p
    ∙ skipped_lines sys again ls rest st i a plain

-- The state behind an #endif.
abbrev pub behind_endif : PreprocessorState → PreprocessorState
behind_endif st = record st { in_conditional = false; conditional_active = true }

-- A directive that writes nothing.
silent_line :
    (sys : Platform) (again : Bytes → PreprocessorState → Step) (line : Bytes)
    (st next : PreprocessorState) (words : List Bytes) (rest : List Bytes)
    → words_of line ≡ some words
    → directive sys again line st words ≡ done ([], next)
    → line_loop sys again (line ∷ rest) st ≡ line_loop sys again rest next
unfolding line_loop process_line write_processed
silent_line sys again line st next words rest w d =
    rw (directive_line sys again line (trim line) st words w ∙ d) refl

-- Whatever state it stands in: a part between an #ifdef of a name that is not defined and its #endif
-- whose lines are no directives writes nothing, and what follows is preprocessed as active and outside
-- of conditionals, also where an outer conditional is not active.
pub line_loop-skips :
    (sys : Platform) (again : Bytes → PreprocessorState → Step) (opening name closing : Bytes)
    (ls rest : List Bytes) (st : PreprocessorState)
    → words_of opening ≡ some (text "ifdef" ∷ name ∷ [])
    → is_defined name st.defines ≡ false
    → All IsPlain ls
    → words_of closing ≡ some (text "endif" ∷ [])
    → line_loop sys again (opening ∷ (ls ++ (closing ∷ rest))) st
      ≡ line_loop sys again rest (behind_endif st)
unfolding directive run_command command_of
line_loop-skips sys again opening name closing ls rest st o d plain c =
    let inside : PreprocessorState = open_conditional st (is_defined name st.defines) in
    let inactive : inside.conditional_active ≡ false = rw d (ground arith) in
    silent_line sys again opening st inside (text "ifdef" ∷ name ∷ []) (ls ++ (closing ∷ rest)) o
      refl
    ∙ skipped_lines sys again ls (closing ∷ rest) inside refl inactive plain
    ∙ silent_line sys again closing inside (behind_endif st) (text "endif" ∷ []) rest c refl
