-- ===== src/Hvmc/Preprocessor/Texts.antt =====
-- The helpers on texts of src/tools/hvmc/src/preprocessor.cpp.
use hvmsys.Base.{
  ℕ, Bool, true, false, ◌&&◌, ◌||◌, if◌then◌else◌, ◌==◌, List, [], ◌∷◌, ◌++◌, Option, none, some,
}
use hvmsys.Base.Text.{Bytes}

abbrev pub is_nil : Bytes → Bool
is_nil [] = true
is_nil (c ∷ cs) = false

-- The last byte is `b`.
abbrev pub last_is : ℕ → Bytes → Bool
last_is b [] = false
last_is b (c ∷ []) = c == b
last_is b (c ∷ d ∷ cs) = last_is b (d ∷ cs)

abbrev pub first_of {ℓ} : {A : Type ℓ} → Option A → Option A → Option A
first_of (some a) b = some a
first_of none b = b

-- " \t\r\n".
abbrev pub is_blank : ℕ → Bool
is_blank c = (c == b' ' || c == b'\t') || (c == 13 || c == b'\n')

-- std::isspace.
abbrev pub is_space : ℕ → Bool
is_space c = is_blank c || (c == 11 || c == 12)

unfoldable pub trim_front : Bytes → Bytes
trim_front [] = []
trim_front (c ∷ cs) = let further = trim_front cs in if is_blank c then further else c ∷ cs

unfoldable pub trim_end : Bytes → Bytes
trim_end [] = []
trim_end (c ∷ cs) = let more = trim_end cs in if is_nil more && is_blank c then [] else c ∷ more

unfoldable pub trim : Bytes → Bytes
unfolding trim_front trim_end
trim s = trim_end (trim_front s)

-- A word in front of the others, unless it is empty.
abbrev pub flush : Bytes → List Bytes → List Bytes
flush [] words = words
flush (c ∷ cs) words = (c ∷ cs) ∷ words

-- The word that the text begins with, which may be empty, and the words behind it.
unfoldable pub words_from : Bytes → Bytes × List Bytes
words_from [] = ([], [])
words_from (c ∷ cs) =
    let more = words_from cs in
    if is_space c then ([], flush more.0 more.1) else (c ∷ more.0, more.1)

unfoldable pub split : Bytes → List Bytes
unfolding words_from
split s = flush (words_from s).0 (words_from s).1

-- The words with a space between two.
unfoldable pub join : List Bytes → Bytes
join [] = []
join (word ∷ []) = word
join (word ∷ next ∷ words) = word ++ (b' ' ∷ join (next ∷ words))

abbrev pub onto_first : ℕ → List Bytes → List Bytes
onto_first c [] = (c ∷ []) ∷ []
onto_first c (line ∷ rest) = (c ∷ line) ∷ rest

-- The lines that std::getline gives, without their line breaks.
unfoldable pub lines : Bytes → List Bytes
lines [] = []
lines (c ∷ cs) = let more = lines cs in if c == b'\n' then [] ∷ more else onto_first c more
