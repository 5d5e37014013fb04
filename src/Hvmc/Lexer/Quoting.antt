-- ===== src/Hvmc/Lexer/Quoting.antt =====
-- The lexer reads a string literal back whose special bytes are escaped.
use hvmsys.Base.{
  ℕ, ◌+◌, ◌≡◌, refl, sym, ap, ◌∙◌, arith, Bool, true, false, ◌||◌, if◌then◌else◌, ◌==◌, ==_iff, inl,
  inr, [], ◌∷◌, Bool-cases,
}
use hvmsys.Base.Text.{Bytes}
use hvmsys.Hvmc.Token.{string_lit}
use hvmsys.Hvmc.Lexer.Scan.{Cursor, at, get, token}
use hvmsys.Hvmc.Lexer.Read.{unescape, string_body, read_string}

-- A byte in a literal: quotes, backslashes and line breaks are escaped.
abbrev pub quote_byte : ℕ → Bytes → Bytes
quote_byte c more =
    if c == b'"'
    then b'\\' ∷ b'"' ∷ more
    else if c == b'\\'
    then b'\\' ∷ b'\\' ∷ more
    else if c == b'\n'
    then b'\\' ∷ b'n' ∷ more
    else c ∷ more

abbrev pub quote : Bytes → Bytes → Bytes
quote [] more = more
quote (c ∷ cs) more = quote_byte c (quote cs more)

-- What string_body gives for a byte in front of what it gives for the rest.
abbrev before : ℕ → Bytes × Cursor → Bytes × Cursor
before c (cs, s) = (c ∷ cs, s)

abbrev Starts : Bytes → Type 0
Starts cs = (d : ℕ) × (ds : Bytes) × (cs ≡ d ∷ ds)

quote_byte-Starts : (c : ℕ) (more : Bytes) → Starts (quote_byte c more)
quote_byte-Starts c more =
    if-Starts (c == b'"') _ _ (_, _, refl)
      (if-Starts (c == b'\\') _ _ (_, _, refl)
        (if-Starts (c == b'\n') _ _ (_, _, refl) (c, more, refl)))
  where
    if-Starts : (b : Bool) (x y : Bytes) → Starts x → Starts y → Starts (if b then x else y)
    if-Starts true x y hx hy = hx
    if-Starts false x y hx hy = hy

quote-Starts : (cs : Bytes) (d : ℕ) (more : Bytes) → Starts (quote cs (d ∷ more))
quote-Starts [] d more = (d, more, refl)
quote-Starts (c ∷ cs) d more = quote_byte-Starts c (quote cs (d ∷ more))

-- A byte that is no quote, backslash or line break stands for itself.
string_body_plain :
    (c : ℕ) (cs : Bytes) (l k : ℕ)
    → Starts cs
    → (c == b'"') ≡ false
    → (c == b'\\') ≡ false
    → (c == b'\n') ≡ false
    → string_body (c ∷ cs) l k ≡ before c (string_body cs l (k + 1))
unfolding string_body
string_body_plain c cs l k (d, ds, e) q b n = rw e (rw q (rw b (rw n refl)))

-- The columns that the literal takes.
abbrev pub width : Bytes → ℕ
width [] = 0
width (c ∷ cs) = (if c == b'"' || (c == b'\\' || c == b'\n') then 2 else 1) + width cs

string_body-quote :
    (cs : Bytes) (rest : Bytes) (l k : ℕ)
    → string_body (quote cs (b'"' ∷ rest)) l k ≡ (cs, at (b'"' ∷ rest) l (k + width cs))
unfolding string_body unescape
string_body-quote [] [] l k = ap (λ (col : ℕ). ([], at (b'"' ∷ []) l col)) (omega arith)
string_body-quote [] (d ∷ rest) l k =
    ap (λ (col : ℕ). ([], at (b'"' ∷ d ∷ rest) l col)) (omega arith)
string_body-quote (c ∷ cs) rest l k = elim (Bool-cases (c == b'"')) [
  | inl e ↦ rw e (
      rw (string_body-quote cs rest l (k + 1 + 1))
        (spelled c b'"' (sym ((==_iff c b'"').0 e)) (k + 1 + 1) 2 (omega arith)))
  | inr q ↦ elim (Bool-cases (c == b'\\')) [
    | inl e ↦ rw q (
        rw e (
          rw (string_body-quote cs rest l (k + 1 + 1))
            (spelled c b'\\' (sym ((==_iff c b'\\').0 e)) (k + 1 + 1) 2 (omega arith))))
    | inr b ↦ elim (Bool-cases (c == b'\n')) [
      | inl e ↦ rw q (
          rw b (
            rw e (
              rw (string_body-quote cs rest l (k + 1 + 1))
                (spelled c b'\n' (sym ((==_iff c b'\n').0 e)) (k + 1 + 1) 2 (omega arith)))))
      | inr n ↦ rw q (
          rw b (
            rw n (
              string_body_plain c (quote cs (b'"' ∷ rest)) l k (quote-Starts cs b'"' rest) q b n
              ∙ rw (string_body-quote cs rest l (k + 1)) (spelled c c refl (k + 1) 1 refl))))
    ]
  ]
]
  where
    spelled :
        (c d : ℕ)
        → d ≡ c
        → (m n : ℕ) → m ≡ k + n
        → ◌≡◌ {A = Bytes × Cursor}
            (d ∷ cs, at (b'"' ∷ rest) l (m + width cs))
            (c ∷ cs, at (b'"' ∷ rest) l (k + (n + width cs)))
    spelled c d e m n f =
        rw e (ap (λ (col : ℕ). (c ∷ cs, at (b'"' ∷ rest) l col)) (omega (arith, f)))

-- A literal with every quote, backslash and line break of its text escaped is read back as that text, up to
-- the closing quote, and the escaped line breaks count as columns.
pub read_string-quote :
    (cs rest : Bytes) (l k : ℕ)
    → read_string (at (b'"' ∷ quote cs (b'"' ∷ rest)) l k) ≡ (
      token string_lit cs 0 (at (b'"' ∷ quote cs (b'"' ∷ rest)) l k),
      at rest l (k + 1 + width cs + 1),
    )
unfolding read_string get
read_string-quote cs rest l k = rw (string_body-quote cs rest l (k + 1)) refl
