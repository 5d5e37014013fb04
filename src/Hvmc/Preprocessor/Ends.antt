-- ===== src/Hvmc/Preprocessor/Ends.antt =====
-- The includes of src/tools/hvmc/src/preprocessor.cpp end.
use hvmsys.Base.{
  ℕ, zero, suc, ◌+◌, ◌<◌, ◌≡◌, refl, sym, ap, ◌∙◌, arith, Bool, true, false, Bool-cases, inl, inr,
  if◌then◌else◌, ◌&&◌, not, ◌==◌, List, [], ◌∷◌, ◌++◌, length, Option, none, some, All,
}
use mathlib.Core.Path.{subst}
use hvmsys.Base.Text.{Bytes}
use hvmsys.Hvmc.Preprocessor.Texts.{is_nil, trim, split, lines}
use hvmsys.Hvmc.Preprocessor.Distinct.{is_included, IsDistinct, AllIn, distinct-length}
use hvmsys.Hvmc.Preprocessor.{
  Platform, done, fails, starved, and_then, PreprocessorState, Command, define, undef, include_file,
  else_branch, elif, error, command_of, unquote, read_file, child_state, Step, include_contents,
  include_path, run_command, directive, plain_line, trimmed_line, process_line, write_processed,
  line_loop, preprocess_internal, initial_state, preprocess,
}
use hvmsys.Hvmc.Preprocessor.Covers.{
  path_of, include_args, include_trimmed, IsNamed, IsCovered, IsClosed, Good,
}

module _ (sys : Platform) (paths names : List Bytes) where
  -- Enough fuel for the files that can still be included.
  record Fits (fuel : ℕ) (st : PreprocessorState) : Type 0 where
    same_paths : st.include_paths ≡ paths
    distinct : IsDistinct st.include_stack
    inside : AllIn names st.include_stack
    enough : length names < fuel + length st.include_stack

  -- The recursive call is good on what it is made for.
  abbrev Handles : ℕ → (Bytes → PreprocessorState → Step) → Type 0
  Handles fuel again =
      (contents : Bytes) (st : PreprocessorState)
      → Fits fuel st
      → IsCovered names contents
      → Good paths st.include_stack (again contents st)

  abbrev Covers : Type 0
  Covers =
      (name contents : Bytes)
      → is_included name names ≡ true
      → read_file sys name paths ≡ some contents
      → IsCovered names contents

  child-Fits :
      (fuel : ℕ) (st : PreprocessorState) (path : Bytes)
      → Fits (suc fuel) st
      → is_included path st.include_stack ≡ false
      → is_included path names ≡ true
      → Fits fuel (child_state st path)
  child-Fits fuel st path f fresh named = record {
    same_paths = f.same_paths;
    distinct = (fresh, f.distinct);
    inside = (named, f.inside);
    enough = omega (arith, f.enough);
  }

  behind_include :
      (st : PreprocessorState) (path : Bytes) (o : Step)
      → st.include_paths ≡ paths
      → Good paths (path ∷ st.include_stack) o
      → Good paths st.include_stack (
          and_then o (λ (processed, child).
            done (processed ++ (b'\n' ∷ []), record st { defines = child.defines })))
  behind_include st path (done (b, child)) e g = (e, refl)
  behind_include st path (fails x) e g = g
  behind_include st path starved e g = g

  include_contents-Good :
      (fuel : ℕ) (again : Bytes → PreprocessorState → Step) (st : PreprocessorState) (path : Bytes)
      (r : Option Bytes)
      → Handles fuel again
      → Fits fuel (child_state st path)
      → st.include_paths ≡ paths
      → ((contents : Bytes) → r ≡ some contents → IsCovered names contents)
      → Good paths st.include_stack (include_contents again st path r)
  unfolding include_contents
  include_contents-Good fuel again st path none h f e cov = refl
  include_contents-Good fuel again st path (some contents) h f e cov =
      behind_include st path (again contents (child_state st path)) e
        (h contents (child_state st path) f (cov contents refl))

  include_path-Good :
      (fuel : ℕ) (again : Bytes → PreprocessorState → Step) (st : PreprocessorState) (path : Bytes)
      → Handles fuel again
      → Covers
      → Fits (suc fuel) st
      → is_included path names ≡ true
      → Good paths st.include_stack (include_path sys again st path)
  unfolding include_path
  include_path-Good fuel again st path h cov f named =
      elim (Bool-cases (is_included path st.include_stack)) [
        | inl e ↦ rw e refl
        | inr e ↦ rw e (
            include_contents-Good fuel again st path (read_file sys path st.include_paths) h
              (child-Fits fuel st path f e named) f.same_paths
              (λ contents r.
                cov path contents named
                  (ap (λ (ps : List Bytes). read_file sys path ps) (sym f.same_paths) ∙ r)))
      ]

  kept :
      (st : PreprocessorState) (fuel : ℕ)
      → Fits fuel st
      → Good paths st.include_stack (done ([], st))
  kept st fuel f = (f.same_paths, refl)

  flip-Good :
      (st : PreprocessorState) (b c : Bool)
      → st.include_paths ≡ paths
      → Good paths st.include_stack
          (done ([], if b then record st { conditional_active = c } else st))
  flip-Good st true c e = (e, refl)
  flip-Good st false c e = (e, refl)

  run_command-Good :
      (fuel : ℕ) (again : Bytes → PreprocessorState → Step) (line : Bytes) (st : PreprocessorState)
      (args : List Bytes) (cmd : Option Command)
      → Handles fuel again
      → Covers
      → Fits (suc fuel) st
      → IsNamed names (path_of cmd args)
      → Good paths st.include_stack (run_command sys again line st args cmd)
  unfolding run_command
  run_command-Good fuel again line st [] (some define) h cov f named = (f.same_paths, refl)
  run_command-Good fuel again line st (x ∷ xs) (some define) h cov f named = (f.same_paths, refl)
  run_command-Good fuel again line st [] (some undef) h cov f named = (f.same_paths, refl)
  run_command-Good fuel again line st (x ∷ xs) (some undef) h cov f named = (f.same_paths, refl)
  run_command-Good fuel again line st [] (some include_file) h cov f named = (f.same_paths, refl)
  run_command-Good fuel again line st (x ∷ xs) (some include_file) h cov f named =
      include_path-Good fuel again st (unquote x) h cov f named
  run_command-Good fuel again line st args (some else_branch) h cov f named =
      flip-Good st st.in_conditional _ f.same_paths
  run_command-Good fuel again line st args (some elif) h cov f named =
      flip-Good st st.in_conditional _ f.same_paths
  run_command-Good fuel again line st args (some error) h cov f named = refl
  run_command-Good fuel again line st args _ h cov f named = (f.same_paths, refl)

  directive-Good :
      (fuel : ℕ) (again : Bytes → PreprocessorState → Step) (line : Bytes) (st : PreprocessorState)
      (words : List Bytes)
      → Handles fuel again
      → Covers
      → Fits (suc fuel) st
      → IsNamed names (include_args words)
      → Good paths st.include_stack (directive sys again line st words)
  unfolding directive
  directive-Good fuel again line st [] h cov f named = (f.same_paths, refl)
  directive-Good fuel again line st (cmd ∷ args) h cov f named =
      run_command-Good fuel again line st args (command_of cmd) h cov f named

  plain_line-Good :
      (fuel : ℕ) (line : Bytes) (st : PreprocessorState)
      → Fits (suc fuel) st
      → Good paths st.include_stack (plain_line sys line st)
  unfolding plain_line
  plain_line-Good fuel line st f = elim (Bool-cases st.conditional_active) [
    | inl e ↦ rw e (f.same_paths, refl)
    | inr e ↦ rw e (f.same_paths, refl)
  ]

  trimmed_line-Good :
      (fuel : ℕ) (again : Bytes → PreprocessorState → Step) (line : Bytes) (st : PreprocessorState)
      (trimmed : Bytes)
      → Handles fuel again
      → Covers
      → Fits (suc fuel) st
      → IsNamed names (include_trimmed trimmed)
      → Good paths st.include_stack (trimmed_line sys again line st trimmed)
  unfolding trimmed_line
  trimmed_line-Good fuel again line st [] h cov f = λ named. (f.same_paths, refl)
  trimmed_line-Good fuel again line st (c ∷ cs) h cov f = elim (Bool-cases (c == b'#')) [
    | inl e ↦ rw e (λ named. directive-Good fuel again line st (split (trim cs)) h cov f named)
    | inr e ↦ rw e (λ named. plain_line-Good fuel line st f)
  ]

  -- The state behind a line still fits.
  move-Fits :
      (fuel : ℕ) (st next : PreprocessorState)
      → Fits fuel st
      → next.include_paths ≡ paths
      → next.include_stack ≡ st.include_stack
      → Fits fuel next
  move-Fits fuel st next f p s = record {
    same_paths = p;
    distinct = subst IsDistinct (sym s) f.distinct;
    inside = subst (AllIn names) (sym s) f.inside;
    enough = subst (λ (ps : List Bytes). length names < fuel + length ps) (sym s) f.enough;
  }

  write_processed-keeps :
      (b : Bytes) (next : PreprocessorState)
      → ((write_processed b next).include_paths ≡ next.include_paths)
        × ((write_processed b next).include_stack ≡ next.include_stack)
  unfolding write_processed
  write_processed-keeps b next =
      by_test (not (is_nil b) && not (next.in_conditional && not next.conditional_active))
    where
      by_test :
          (t : Bool)
          → ((if t then record next { output = next.output ++ b } else next).include_paths
              ≡ next.include_paths)
            × ((if t then record next { output = next.output ++ b } else next).include_stack
                ≡ next.include_stack)
      by_test true = (refl, refl)
      by_test false = (refl, refl)

  behind_line :
      (fuel : ℕ) (st : PreprocessorState) (o : Step) (rest : PreprocessorState → Step)
      → Fits fuel st
      → Good paths st.include_stack o
      → ((next : PreprocessorState) → Fits fuel next → Good paths next.include_stack (rest next))
      → Good paths st.include_stack
          (and_then o (λ (processed, next). rest (write_processed processed next)))
  behind_line fuel st (done (b, next)) rest f (p, s) further =
      let (p', s') = write_processed-keeps b next in
      subst (λ (stack : List Bytes). Good paths stack (rest (write_processed b next))) (s' ∙ s)
        (further (write_processed b next)
          (move-Fits fuel st (write_processed b next) f (p' ∙ p) (s' ∙ s)))
  behind_line fuel st (fails e) rest f g further = g
  behind_line fuel st starved rest f g further = g

  line_loop-Good :
      (fuel : ℕ) (again : Bytes → PreprocessorState → Step) (ls : List Bytes)
      (st : PreprocessorState)
      → Handles fuel again
      → Covers
      → Fits (suc fuel) st
      → All (λ line. IsNamed names (include_trimmed (trim line))) ls
      → Good paths st.include_stack (line_loop sys again ls st)
  unfolding line_loop process_line
  line_loop-Good fuel again [] st h cov f named = (f.same_paths, refl)
  line_loop-Good fuel again (line ∷ ls) st h cov f (n, named) =
      behind_line (suc fuel) st (trimmed_line sys again line st (trim line))
        (line_loop sys again ls) f (trimmed_line-Good fuel again line st (trim line) h cov f n)
        (λ next fits. line_loop-Good fuel again ls next h cov fits named)

  preprocess_internal-Good :
      (fuel : ℕ) (source : Bytes) (st : PreprocessorState)
      → Covers
      → Fits fuel st
      → IsCovered names source
      → Good paths st.include_stack (preprocess_internal sys fuel source st)
  unfolding preprocess_internal
  preprocess_internal-Good zero source st cov f named =
      absurd (omega (arith, f.enough, distinct-length st.include_stack names f.distinct f.inside))
  preprocess_internal-Good (suc fuel) source st cov f named =
      line_loop-Good fuel (preprocess_internal sys fuel) (lines source) st
        (λ contents next fits covered. preprocess_internal-Good fuel contents next cov fits covered)
        cov f named

-- For a source that includes only files of `names`, as each of these files that can be read does, the
-- preprocessor ends, within as many nested includes as there are names: in a text, or in a
-- runtime_error.
pub preprocess-ends :
    (sys : Platform) (paths names : List Bytes) (source : Bytes)
    → IsClosed sys paths names source
    → Good paths [] (preprocess sys (suc (length names)) source paths)
unfolding preprocess
preprocess-ends sys paths names source closed =
    preprocess_internal-Good sys paths names (suc (length names)) source (initial_state paths)
      closed.files_covered
      (record { same_paths = refl; distinct = tt; inside = tt; enough = omega arith })
      closed.source_covered
