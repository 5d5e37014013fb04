-- ===== src/Hvmc/Lexer/Spelling.antt =====
-- The lexer reads what a printer of names, numbers and strings writes.
use hvmsys.Base.{
  ℕ, zero, suc, ◌+◌, ◌/◌, ◌%◌, ◌^◌, ◌<◌, ◌≡◌, ◌≢◌, refl, sym, ap, ◌∙◌, arith, Bool, true, false,
  if◌then◌else◌, lt→ltb, inl, inr, ◌==◌, ==_iff, Bool-cases, [], ◌∷◌, ◌++◌, length,
}
use hvmsys.Base.Text.{Bytes, text, same_text, is_digit, digits_of, to_string}
use hvmsys.Hvmc.Token.{number_lit}
use hvmsys.Hvmc.Lexer.Words.{word_kind}
use hvmsys.Hvmc.Lexer.Scan.{at, read_while, token}
use hvmsys.Hvmc.Lexer.Read.{
  is_ident_char, read_ident_or_keyword, digit_value, digits_value, strtoull, is_hex, read_number,
}

-- All bytes pass the test.
abbrev pub All : (ℕ → Bool) → Bytes → Type 0
All p [] = Unit {0}
All p (c ∷ cs) = (p c ≡ true) × All p cs

-- Nothing stands next, or a byte that fails the test.
abbrev pub Stops : (ℕ → Bool) → Bytes → Type 0
Stops p [] = Unit {0}
Stops p (c ∷ cs) = p c ≡ false

false≢true : false ≢ true
false≢true e = cc

-- What a loop reads that stops at `rest`, on one line.
read_while-All :
    (p : ℕ → Bool) (word rest : Bytes) (l k : ℕ)
    → p b'\n' ≡ false
    → All p word
    → Stops p rest
    → read_while p (word ++ rest) l k ≡ (word, at rest l (k + length word))
unfolding read_while
read_while-All p [] [] l k nl all stop = ap (λ (col : ℕ). ([], at [] l col)) (omega arith)
read_while-All p [] (d ∷ rest) l k nl all stop =
    rw stop (ap (λ (col : ℕ). ([], at (d ∷ rest) l col)) (omega arith))
read_while-All p (c ∷ cs) rest l k nl (good, all) stop = elim (Bool-cases (c == b'\n')) [
  | inl e ↦ absurd (false≢true (sym nl ∙ rw (sym ((==_iff c b'\n').0 e)) good))
  | inr e ↦ rw e (
      rw good (
        rw (read_while-All p cs rest l (k + 1) nl all stop)
          (ap (λ (col : ℕ). (c ∷ cs, at rest l col)) (omega arith))))
]

-- A name in front of anything that continues no name is read as its keyword or as an identifier, up to its
-- end.
read_ident_or_keyword-reads :
    (word rest : Bytes) (l k : ℕ)
    → All is_ident_char word
    → Stops is_ident_char rest
    → same_text word (text "asm") ≡ false
    → read_ident_or_keyword (at (word ++ rest) l k)
      ≡ (token (word_kind word) word 0 (at (word ++ rest) l k), at rest l (k + length word))
unfolding read_ident_or_keyword
read_ident_or_keyword-reads word rest l k all stop other =
    rw (read_while-All is_ident_char word rest l k refl all stop) (rw other refl)

digit_value_lem : (d : ℕ) → d < 10 → digit_value (b'0' + d) ≡ d
digit_value_lem d h = ground (arith, h)

is_digit_lem : (d : ℕ) → d < 10 → is_digit (b'0' + d) ≡ true
is_digit_lem d h = ground (arith, h)

digits_of-All :
    (fuel n : ℕ) (more : Bytes) → All is_digit more → All is_digit (digits_of fuel n more)
digits_of-All zero n more all = all
digits_of-All (suc fuel) n more all =
    let last : All is_digit ((b'0' + n % 10) ∷ more) = (is_digit_lem (n % 10) (omega arith), all) in
    if-All (n / 10 == 0) _ _ last (digits_of-All fuel (n / 10) ((b'0' + n % 10) ∷ more) last)
  where
    if-All :
        (b : Bool) (x y : Bytes)
        → All is_digit x
        → All is_digit y
        → All is_digit (if b then x else y)
    if-All true x y hx hy = hx
    if-All false x y hx hy = hy

digits_of_value :
    (fuel n : ℕ) (more : Bytes)
    → n < fuel
    → digits_value 10 0 (digits_of fuel n more) ≡ digits_value 10 n more
unfolding digits_value
digits_of_value zero n more h = absurd (omega arith)
digits_of_value (suc fuel) n more h = elim (Bool-cases (n / 10 == 0)) [
  | inl e ↦
      let small : n / 10 ≡ 0 = (==_iff (n / 10) 0).0 e in
      rw e (
        ap (λ (v : ℕ). digits_value 10 v more)
          (omega (arith, digit_value_lem (n % 10) (omega arith))))
  | inr e ↦
      let large : n / 10 ≢ 0 = λ z. false≢true (sym e ∙ (==_iff (n / 10) 0).1 z) in
      rw e (
        digits_of_value fuel (n / 10) ((b'0' + n % 10) ∷ more) (omega arith)
        ∙ ap (λ (v : ℕ). digits_value 10 v more)
            (omega (arith, digit_value_lem (n % 10) (omega arith))))
]

pub to_string-value : (n : ℕ) → digits_value 10 0 (to_string n) ≡ n
unfolding to_string digits_value
to_string-value n = digits_of_value (suc n) n [] (omega arith)

to_string-All : (n : ℕ) → All is_digit (to_string n)
unfolding to_string
to_string-All n = digits_of-All (suc n) n [] tt

-- Digits are no hexadecimal number before a byte that continues no name.
not_hex : (w rest : Bytes) → All is_digit w → Stops is_ident_char rest → is_hex (w ++ rest) ≡ false
not_hex [] [] all stop = refl
not_hex [] (c ∷ []) all stop = refl
not_hex [] (c ∷ d ∷ cs) all stop = ground (arith, stop)
not_hex (c ∷ []) [] all stop = refl
not_hex (c ∷ []) (d ∷ cs) all stop = ground (arith, stop)
not_hex (c ∷ d ∷ cs) rest (h, (h2, all)) stop = ground (arith, h2)

digit-Stops : (rest : Bytes) → Stops is_ident_char rest → Stops is_digit rest
digit-Stops [] stop = stop
digit-Stops (c ∷ cs) stop = ground (arith, stop)

-- The decimal digits of a number below 2 ^ 64, in front of anything that continues no name or number, are
-- read as that number, up to the last digit.
read_number-reads :
    (n : ℕ) (rest : Bytes) (l k : ℕ)
    → n < 2 ^ 64
    → Stops is_ident_char rest
    → read_number (at (to_string n ++ rest) l k) ≡ (
      token number_lit (to_string n) n (at (to_string n ++ rest) l k),
      at rest l (k + length (to_string n)),
    )
unfolding read_number strtoull
read_number-reads n rest l k h stop = rw (not_hex (to_string n) rest (to_string-All n) stop) (
    rw
      (read_while-All is_digit (to_string n) rest l k refl (to_string-All n)
        (digit-Stops rest stop))
      (rw (to_string-value n) (rw (lt→ltb n (2 ^ 64) h) refl)))
