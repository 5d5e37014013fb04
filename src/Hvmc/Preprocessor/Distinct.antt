-- ===== src/Hvmc/Preprocessor/Distinct.antt =====
-- Lists of file names without repetition, as the include_stack of src/tools/hvmc/src/preprocessor.cpp.
use hvmsys.Base.{
  suc, ◌≤◌, ◌≡◌, sym, ◌∙◌, arith, Bool, true, false, if◌then◌else◌, List, [], ◌∷◌, length, All,
}
use hvmsys.Base.Text.{Bytes, same_text, same_text_refl, same_text→eq}

-- The loop that looks for a file among those that are being included.
unfoldable pub is_included : Bytes → List Bytes → Bool
is_included path [] = false
is_included path (p ∷ stack) = if same_text p path then true else is_included path stack

abbrev pub IsDistinct : List Bytes → Type 0
IsDistinct [] = Unit {0}
IsDistinct (p ∷ ps) = (is_included p ps ≡ false) × IsDistinct ps

abbrev pub AllIn : List Bytes → List Bytes → Type 0
AllIn names ps = All (λ p. is_included p names ≡ true) ps

abbrev without : Bytes → List Bytes → List Bytes
without p [] = []
without p (q ∷ qs) = if same_text q p then qs else q ∷ without p qs

length-without :
    (p : Bytes) (qs : List Bytes)
    → is_included p qs ≡ true
    → suc (length (without p qs)) ≡ length qs
unfolding is_included
length-without p [] h = cc
length-without p (q ∷ qs) h = ground (arith, length-without p qs)

-- A name that is another one's same text has all its matches.
clash : (p q r : Bytes) → same_text q p ≡ true → same_text q r ≡ true → same_text r p ≡ true
clash p q r e f =
    let a : q ≡ p = same_text→eq q p e in
    let b : q ≡ r = same_text→eq q r f in let c : r ≡ p = sym b ∙ a in rw c (same_text_refl p)

-- Another name stays.
included-without :
    (p r : Bytes) (qs : List Bytes)
    → same_text r p ≡ false
    → is_included r qs ≡ true
    → is_included r (without p qs) ≡ true
unfolding is_included
included-without p r [] ne h = h
included-without p r (q ∷ qs) ne h = ground (arith, clash p q r, included-without p r qs ne)

AllIn-without :
    (p : Bytes) (names ps : List Bytes)
    → is_included p ps ≡ false
    → AllIn names ps
    → AllIn (without p names) ps
unfolding is_included
AllIn-without p names [] fresh h = tt
AllIn-without p names (r ∷ ps) fresh (i, h) =
    (included-without p r names (ground arith) i, AllIn-without p names ps (ground arith) h)

-- Names without repetition among others are not more than those.
pub distinct-length :
    (ps names : List Bytes) → IsDistinct ps → AllIn names ps → length ps ≤ length names
distinct-length [] names d h = omega arith
distinct-length (p ∷ ps) names (fresh, d) (i, h) = omega (
  arith,
  length-without p names i,
  distinct-length ps (without p names) d (AllIn-without p names ps fresh h),
)
