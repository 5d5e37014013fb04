-- ===== src/Hvmc/Preprocessor/Plain.antt =====
-- A source without directives, in src/tools/hvmc/src/preprocessor.cpp.
use hvmsys.Base.{
  ℕ, suc, ◌≡◌, refl, sym, ap, ◌∙◌, true, false, Bool-cases, inl, inr, if◌then◌else◌, ◌==◌, List, [],
  ◌∷◌, ◌++◌, Option, none, some, All,
}
use mathlib.Core.List.{append_assoc, append-nil}
use hvmsys.Base.Text.{Bytes}
use hvmsys.Hvmc.Preprocessor.Texts.{trim, split, lines, onto_first}
use hvmsys.Hvmc.Preprocessor.Macros.{Defines, expand_macro, expand_each}
use hvmsys.Hvmc.Preprocessor.{
  Platform, done, PreprocessorState, Step, plain_line, trimmed_line, process_line, write_processed,
  line_loop, preprocess_internal, initial_state, preprocess,
}

-- The words of a directive: a `#` is the first byte of the line that is no blank.
abbrev pub words_trimmed : Bytes → Option (List Bytes)
words_trimmed [] = none
words_trimmed (c ∷ cs) = if c == b'#' then some (split (trim cs)) else none

abbrev pub words_of : Bytes → Option (List Bytes)
words_of line = words_trimmed (trim line)

abbrev pub IsPlain : Bytes → Type 0
IsPlain line = words_of line ≡ none

abbrev pub without_breaks : Bytes → Bytes
without_breaks [] = []
without_breaks (c ∷ cs) = if c == b'\n' then without_breaks cs else c ∷ without_breaks cs

abbrev concat : List Bytes → Bytes
concat [] = []
concat (line ∷ rest) = line ++ concat rest

concat-onto_first : (c : ℕ) (ls : List Bytes) → concat (onto_first c ls) ≡ c ∷ concat ls
concat-onto_first c [] = refl
concat-onto_first c (line ∷ ls) = refl

concat-lines : (source : Bytes) → concat (lines source) ≡ without_breaks source
unfolding lines
concat-lines [] = refl
concat-lines (c ∷ cs) = elim (Bool-cases (c == b'\n')) [
  | inl e ↦ rw e (concat-lines cs)
  | inr e ↦ rw e (concat-onto_first c (lines cs) ∙ ap (◌∷◌ c) (concat-lines cs))
]

-- A plain line outside of conditionals and macros stays.
trimmed-plain :
    (sys : Platform) (again : Bytes → PreprocessorState → Step) (line trimmed : Bytes)
    (st : PreprocessorState)
    → sys.order [] ≡ []
    → st.defines ≡ []
    → st.conditional_active ≡ true
    → words_trimmed trimmed ≡ none
    → trimmed_line sys again line st trimmed ≡ done (line, st)
unfolding trimmed_line plain_line expand_macro expand_each
trimmed-plain sys again line [] st o d a = λ plain. refl
trimmed-plain sys again line (c ∷ cs) st o d a = elim (Bool-cases (c == b'#')) [
  | inl e ↦ rw e (λ plain. cc)
  | inr e ↦
      let same : expand_each (sys.order st.defines) line ≡ line =
        ap (λ (ds : Defines). expand_each (sys.order ds) line) d
        ∙ ap (λ (ds : Defines). expand_each ds line) o in
      rw (e, a, same) (λ plain. refl)
]

written : PreprocessorState → Bytes → PreprocessorState
written st line = record st { output = st.output ++ line }

write_processed-plain :
    (line : Bytes) (st : PreprocessorState)
    → st.in_conditional ≡ false
    → write_processed line st ≡ written st line
unfolding write_processed written
write_processed-plain [] st e =
    ap (λ (out : Bytes). record st { output = out }) (sym (append-nil st.output))
write_processed-plain (c ∷ cs) st e = rw e refl

abbrev finished : PreprocessorState → Bytes → Step
finished st out = done (out, record st { output = out })

loop-plain :
    (sys : Platform) (again : Bytes → PreprocessorState → Step) (ls : List Bytes)
    (st : PreprocessorState)
    → sys.order [] ≡ []
    → st.defines ≡ []
    → st.conditional_active ≡ true
    → st.in_conditional ≡ false
    → All IsPlain ls
    → line_loop sys again ls st ≡ finished st (st.output ++ concat ls)
unfolding line_loop process_line written
loop-plain sys again [] st o d a i plain = ap (finished st) (sym (append-nil st.output))
loop-plain sys again (line ∷ ls) st o d a i (p, plain) =
    let here = trimmed-plain sys again line (trim line) st o d a p in
    let next = loop-plain sys again ls (written st line) o d a i plain in
    rw (here, write_processed-plain line st i)
      (next ∙ ap (finished st) (append_assoc st.output line (concat ls)))

-- Where an empty map has no order to go through: a source without directives is preprocessed into itself
-- without its line breaks.
pub preprocess-joins :
    (sys : Platform) (fuel : ℕ) (source : Bytes) (paths : List Bytes)
    → sys.order [] ≡ []
    → All IsPlain (lines source)
    → preprocess sys (suc fuel) source paths
      ≡ done
          (without_breaks source, record (initial_state paths) { output = without_breaks source })
unfolding preprocess preprocess_internal written
preprocess-joins sys fuel source paths o plain =
    let all =
      loop-plain sys (preprocess_internal sys fuel) (lines source) (initial_state paths) o refl refl
        refl plain in
    all ∙ ap (finished (initial_state paths)) (concat-lines source)
