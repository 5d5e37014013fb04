-- ===== src/Hvmc/AsmLexer/Progress.antt =====
-- A token of src/tools/hvmc/src/assembler.cpp that is no end takes a byte.
use hvmsys.Base.{
  ℕ, suc, ◌+◌, ◌≤◌, ◌<◌, ◌≡◌, refl, arith, Bool, true, false, ◌||◌, ◌&&◌, if◌then◌else◌, ltb, ◌==◌,
  ◌^◌, [], ◌∷◌, length, Option, none, some,
}
use hvmsys.Base.Text.{Bytes, is_digit, is_alpha, is_xdigit}
use hvmsys.Hvmc.Lexer.Read.{strtoull, digits_value}
use hvmsys.Except.{Result, ok, thrown, undefined, out_of_range}
use hvmsys.Hvmc.AsmLexer.{
  AsmKind, end, AsmToken, AsmLexer, skip_blanks, skip_line, span, asm_string, past_quote,
  number_value, number_token, stoll, word_token, mark, mark_or_word, is_comment, is_name_char,
  is_number_char, asm_next_at, asm_next,
}

abbrev pub is_end : AsmKind → Bool
is_end end = true
is_end _ = false

-- 1 for a token that took a byte.
abbrev pub weight : AsmToken → ℕ
weight t = if is_end t.kind then 0 else 1

-- A token within `n` bytes, or an out_of_range.
abbrev pub Takes : ℕ → Result (AsmToken × AsmLexer) → Type 0
Takes n (ok (t, l)) = length l.rest + weight t ≤ n
Takes n (thrown e) = e ≡ out_of_range
Takes n undefined = ⊥

skip_blanks-length : (s : Bytes) → length (skip_blanks s) ≤ length s
unfolding skip_blanks
skip_blanks-length [] = omega arith
skip_blanks-length (c ∷ cs) = ground (arith, skip_blanks-length cs)

skip_line-length : (s : Bytes) → length (skip_line s) ≤ length s
unfolding skip_line
skip_line-length [] = omega arith
skip_line-length (c ∷ cs) = ground (arith, skip_line-length cs)

span-length : (p : ℕ → Bool) (s : Bytes) → length (span p s).1 ≤ length s
unfolding span
span-length p [] = omega arith
span-length p (c ∷ cs) = ground (arith, span-length p cs)

asm_string-length : (s : Bytes) → length (asm_string s).1 ≤ length s
unfolding asm_string
asm_string-length [] = omega arith
asm_string-length (c ∷ []) = ground arith
asm_string-length (c ∷ d ∷ cs) = ground (arith, asm_string-length cs, asm_string-length (d ∷ cs))

past_quote-length : (s : Bytes) → length (past_quote s) ≤ length s
past_quote-length [] = omega arith
past_quote-length (c ∷ cs) = omega arith

-- The span of a byte in the class takes it.
span-shorter :
    (p : ℕ → Bool) (c : ℕ) (cs : Bytes) → p c ≡ true → length (span p (c ∷ cs)).1 < suc (length cs)
unfolding span
span-shorter p c cs e = rw e (omega (arith, span-length p cs))

-- A number, or an out_of_range.
abbrev IsNumeric : Result ℕ → Type 0
IsNumeric (ok v) = Unit {0}
IsNumeric (thrown e) = e ≡ out_of_range
IsNumeric undefined = ⊥

stoll-IsNumeric : (num : Bytes) → IsNumeric (stoll num)
unfolding stoll
stoll-IsNumeric num = by_test (ltb (digits_value 10 0 (span is_digit num).0) (2 ^ 63))
  where
    by_test :
        (b : Bool)
        → IsNumeric
            (if b then ok (digits_value 10 0 (span is_digit num).0) else thrown out_of_range)
    by_test true = tt
    by_test false = refl

number_value-IsNumeric : (num : Bytes) → IsNumeric (number_value num)
unfolding number_value
number_value-IsNumeric [] = stoll-IsNumeric []
number_value-IsNumeric (a ∷ []) = stoll-IsNumeric (a ∷ [])
number_value-IsNumeric (a ∷ x ∷ ds) = by_test (a == b'0' && (x == b'x' || x == b'X'))
  where
    by_test :
        (b : Bool)
        → IsNumeric (if b then ok (strtoull 16 (span is_xdigit ds).0) else stoll (a ∷ x ∷ ds))
    by_test true = tt
    by_test false = stoll-IsNumeric (a ∷ x ∷ ds)

number-Takes :
    (num r : Bytes) (l n : ℕ) (v : Result ℕ)
    → length r < n
    → IsNumeric v
    → Takes n (number_token num r l v)
number-Takes num r l n (ok v) h t = omega arith
number-Takes num r l n (thrown e) h t = t
number-Takes num r l n undefined h t = t

if-Takes :
    (n : ℕ) (x y : Result (AsmToken × AsmLexer)) (b : Bool)
    → (b ≡ true → Takes n x)
    → (b ≡ false → Takes n y)
    → Takes n (if b then x else y)
if-Takes n x y true f g = f refl
if-Takes n x y false f g = g refl

word_token-Takes : (c : ℕ) (cs : Bytes) (l : ℕ) → Takes (suc (length cs)) (word_token c cs l)
unfolding word_token
word_token-Takes c cs l =
    if-Takes _ _ _ (c == b'"')
      (λ e. omega (arith, past_quote-length (asm_string cs).1, asm_string-length cs))
      (λ e.
        if-Takes _ _ _ (is_digit c)
          (λ e.
            number-Takes _ (span is_number_char (c ∷ cs)).1 l (suc (length cs)) _
              (span-shorter is_number_char c cs (number_char c e)) (number_value-IsNumeric _))
          (λ e.
            if-Takes _ _ _ (c == b'$') (λ e. omega (arith, span-length is_name_char cs))
              (λ e.
                if-Takes _ _ _ (is_alpha c || c == b'_')
                  (λ e. omega (arith, span-shorter is_name_char c cs (name_char c e)))
                  (λ e. omega arith))))
  where
    number_char : (c : ℕ) → is_digit c ≡ true → is_number_char c ≡ true
    number_char c e = rw e refl

    name_char : (c : ℕ) → (is_alpha c || c == b'_') ≡ true → is_name_char c ≡ true
    name_char c e = ground arith

mark_or_word-Takes :
    (c : ℕ) (cs : Bytes) (l : ℕ) (k : Option AsmKind)
    → Takes (suc (length cs)) (mark_or_word c cs l k)
mark_or_word-Takes c cs l (some k) = weight_of (is_end k)
  where
    weight_of : (b : Bool) → length cs + (if b then 0 else 1) ≤ suc (length cs)
    weight_of b = ground arith
mark_or_word-Takes c cs l none = word_token-Takes c cs l

comment-shorter :
    (c : ℕ) (cs : Bytes)
    → (c == b'#' || is_comment c cs) ≡ true
    → length (skip_line (c ∷ cs)) < suc (length cs)
unfolding skip_line
comment-shorter c cs e =
    let other : (c == b'\n') ≡ false = other_byte c cs e in
    rw other (omega (arith, skip_line-length cs))
  where
    other_byte : (c : ℕ) (cs : Bytes) → (c == b'#' || is_comment c cs) ≡ true → (c == b'\n') ≡ false
    other_byte c [] e = ground arith
    other_byte c (d ∷ cs) e = ground arith

asm_next_at-Takes : (s : Bytes) (l : ℕ) → Takes (length s) (asm_next_at s l)
unfolding asm_next_at
asm_next_at-Takes [] l = omega arith
asm_next_at-Takes (c ∷ cs) l =
    if-Takes _ _ _ (c == 0) (λ e. omega arith)
      (λ e.
        if-Takes _ _ _ (c == b'\n') (λ e. omega arith)
          (λ e.
            if-Takes _ _ _ (c == b'#' || is_comment c cs)
              (λ e. omega (arith, comment-shorter c cs e))
              (λ e. mark_or_word-Takes c cs l (mark c))))

Takes-weaken : (n m : ℕ) (r : Result (AsmToken × AsmLexer)) → n ≤ m → Takes n r → Takes m r
Takes-weaken n m (ok (t, l)) le h = omega arith
Takes-weaken n m (thrown e) le h = h
Takes-weaken n m undefined le h = h

pub asm_next-Takes : (s : AsmLexer) → Takes (length s.rest) (asm_next s)
unfolding asm_next
asm_next-Takes s =
    Takes-weaken (length (skip_blanks s.rest)) (length s.rest) _ (skip_blanks-length s.rest)
      (asm_next_at-Takes (skip_blanks s.rest) s.line)
