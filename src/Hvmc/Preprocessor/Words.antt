-- ===== src/Hvmc/Preprocessor/Words.antt =====
-- Macros as whole words, in src/tools/hvmc/src/preprocessor.cpp.
use hvmsys.Base.{
  ℕ, zero, suc, ◌+◌, ◌-◌, ◌≤◌, ◌≡◌, refl, sym, ap, ◌∙◌, arith, Bool, true, false, Bool-cases,
  Option-cases, inl, inr, ◌⊎◌, ◌&&◌, not, ◌==◌, ==_iff, [], ◌∷◌, ◌++◌, length, drop, Option, none,
  some, length-append, drop-append,
}
use mathlib.Core.Path.{subst}
use hvmsys.Base.Text.{Bytes}
use hvmsys.Hvmc.Preprocessor.Macros.{
  behind, match_at, replace_from, is_word_char, first_char, last_char,
}

-- What is left behind the name is what the text ends with.
behind-splits : (name s rest : Bytes) → behind name s ≡ some rest → s ≡ name ++ rest
unfolding behind
behind-splits [] s rest = λ e. cc
behind-splits (n ∷ ns) [] rest = λ e. cc
behind-splits (n ∷ ns) (c ∷ cs) rest = elim (Bool-cases (n == c)) [
  | inl e ↦
      rw e (λ h. let same : n ≡ c = (==_iff n c).0 e in rw (same, behind-splits ns cs rest h) refl)
  | inr e ↦ rw e (λ h. cc)
]

-- Bytes that have been passed over.
replace_from-skip :
    (name value : Bytes) (prev : Option ℕ) (skip : ℕ) (s : Bytes)
    → replace_from name value prev skip s ≡ replace_from name value prev 0 (drop skip s)
unfolding replace_from
replace_from-skip name value prev zero s = refl
replace_from-skip name value prev (suc skip) [] = refl
replace_from-skip name value prev (suc skip) (c ∷ cs) = replace_from-skip name value prev skip cs

-- The independent description: from the front, each place where the name stands as a whole word has the
-- value, a place where it stands inside a word stays, and so do all other bytes.
pub data Replaces (name value : Bytes) : Option ℕ → Bytes → Bytes → Type 0 where
  finished : {prev : Option ℕ} → Replaces name value prev [] []
  other :
      {prev : Option ℕ} {c : ℕ} {cs out : Bytes}
      → behind name (c ∷ cs) ≡ none
      → Replaces name value (some c) cs out
      → Replaces name value prev (c ∷ cs) (c ∷ out)
  word :
      {prev : Option ℕ} {rest out : Bytes}
      → is_word_char prev ≡ false
      → is_word_char (first_char rest) ≡ false
      → Replaces name value (last_char prev value) rest out
      → Replaces name value prev (name ++ rest) (value ++ out)
  inside :
      {prev : Option ℕ} {rest out : Bytes}
      → (is_word_char prev ≡ true) ⊎ (is_word_char (first_char rest) ≡ true)
      → Replaces name value (last_char prev name) rest out
      → Replaces name value prev (name ++ rest) (name ++ out)

-- The test for a whole word.
border-cases :
    (prev next : Option ℕ)
    → ((is_word_char prev ≡ false) × (is_word_char next ≡ false))
      ⊎ ((is_word_char prev ≡ true) ⊎ (is_word_char next ≡ true))
border-cases prev next = by_tests (is_word_char prev) (is_word_char next)
  where
    by_tests : (b c : Bool) → ((b ≡ false) × (c ≡ false)) ⊎ ((b ≡ true) ⊎ (c ≡ true))
    by_tests true c = inr (inl refl)
    by_tests false true = inr (inr refl)
    by_tests false false = inl (refl, refl)

either_true : (b c : Bool) → (b ≡ true) ⊎ (c ≡ true) → (not b && not c) ≡ false
either_true true c h = refl
either_true false true h = refl
either_true false false (inl e) = cc
either_true false false (inr e) = cc

-- What the loop goes on with behind the name.
behind-drop :
    (n c : ℕ) (ns cs rest : Bytes) → c ∷ cs ≡ (n ∷ ns) ++ rest → drop (length ns) cs ≡ rest
behind-drop n c ns cs rest e =
    let tails : cs ≡ ns ++ rest = cc in rw tails (drop-append ns rest (length ns) refl)

-- The loop behind the name, whatever stands for it.
goes_on :
    (n c : ℕ) (ns value cs rest out : Bytes) (prev next : Option ℕ)
    → c ∷ cs ≡ (n ∷ ns) ++ rest
    → Replaces
        (n ∷ ns)
        value
        prev
        ((n ∷ ns) ++ rest)
        (out ++ replace_from (n ∷ ns) value next 0 rest)
    → Replaces (n ∷ ns) value prev (c ∷ cs) (out ++ replace_from (n ∷ ns) value next (length ns) cs)
goes_on n c ns value cs rest out prev next split r =
    let same : replace_from (n ∷ ns) value next (length ns) cs
        ≡ replace_from (n ∷ ns) value next 0 rest =
      replace_from-skip (n ∷ ns) value next (length ns) cs
      ∙ ap (replace_from (n ∷ ns) value next 0) (behind-drop n c ns cs rest split) in
    subst (λ (t : Bytes). Replaces (n ∷ ns) value prev (c ∷ cs) (out ++ t)) (sym same)
      (subst
        (λ (t : Bytes).
          Replaces (n ∷ ns) value prev t (out ++ replace_from (n ∷ ns) value next 0 rest))
        (sym split) r)

replaces :
    (fuel n : ℕ) (ns value : Bytes) (prev : Option ℕ) (s : Bytes)
    → length s ≤ fuel
    → Replaces (n ∷ ns) value prev s (replace_from (n ∷ ns) value prev 0 s)
unfolding replace_from match_at
replaces fuel n ns value prev [] h = finished
replaces zero n ns value prev (c ∷ cs) h = absurd (omega arith)
replaces (suc fuel) n ns value prev (c ∷ cs) h = elim (Option-cases (behind (n ∷ ns) (c ∷ cs))) [
  | inl e ↦ rw e (other e (replaces fuel n ns value (some c) cs (omega arith)))
  | inr (rest, e) ↦
      let split : c ∷ cs ≡ (n ∷ ns) ++ rest = behind-splits (n ∷ ns) (c ∷ cs) rest e in
      let size : suc (length cs) ≡ length (n ∷ ns) + length rest =
        ap length split ∙ length-append (n ∷ ns) rest in
      let room : length rest ≤ fuel = omega (arith, size) in
      let back : suc (length ns) - 1 ≡ length ns = omega arith in
      elim (border-cases prev (first_char rest)) [
        | inl (a, b) ↦
            rw (e, a, b, back)
              (goes_on n c ns value cs rest value prev (last_char prev value) split
                (word a b (replaces fuel n ns value (last_char prev value) rest room)))
        | inr w ↦
            rw (e, either_true (is_word_char prev) (is_word_char (first_char rest)) w, back)
              (goes_on n c ns value cs rest (n ∷ ns) prev (last_char prev (n ∷ ns)) split
                (inside w (replaces fuel n ns value (last_char prev (n ∷ ns)) rest room)))
      ]
]

-- The loop over one macro, of a name that is not empty, puts the value wherever, from the front, the name
-- stands as a whole word, keeps the name inside of longer words, and keeps all other bytes.
pub replace_from-Replaces :
    (n : ℕ) (ns value s : Bytes)
    → Replaces (n ∷ ns) value none s (replace_from (n ∷ ns) value none 0 s)
replace_from-Replaces n ns value s = replaces (length s) n ns value none s (omega arith)
