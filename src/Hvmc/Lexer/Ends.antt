-- ===== src/Hvmc/Lexer/Ends.antt =====
-- Lexer::next reaches the end of the source: each token before it takes a byte, and the fuel is enough.
use hvmsys.Base.{
  ℕ, zero, suc, ◌≤◌, ◌<◌, ◌≡◌, ◌≢◌, refl, sym, ◌∙◌, arith, true, false, ◌==◌, ==_iff, ◌⊎◌, inl, inr,
  [], Bool-cases,
}
use hvmsys.Except.{Result, ok, thrown, undefined, runtime_error}
use hvmsys.Hvmc.Token.{Token, end_of_input}
use hvmsys.Hvmc.Lexer.Scan.{Cursor, peek_char, get, skip_whitespace_and_comments, token}
use hvmsys.Hvmc.Lexer.Read.{read_token}
use hvmsys.Hvmc.Lexer.Progress.{left, get-shorter}
use hvmsys.Hvmc.Lexer.Kinds.{IsReal, ResultReal, read_token-ResultReal}
use hvmsys.Hvmc.Lexer.Tokens.{Takes, read_token-Takes, skip-left}
use hvmsys.Hvmc.Lexer.{next_at, next_loop, next_token}

-- The end of the input, where a zero byte or nothing is left, or another token, which took a byte, or the
-- error for a byte that starts none.
abbrev pub Advances : ℕ → Result (Token × Cursor) → Type 0
Advances n (ok (t, after)) =
    ((t.kind ≡ end_of_input) × (peek_char after.rest ≡ 0) × (left after ≤ n))
    ⊎ (IsReal t.kind × (left after < n))
Advances n (thrown e) = e ≡ runtime_error
Advances n undefined = ⊥

Takes-Advances :
    (n m : ℕ) (r : Result (Token × Cursor)) → n ≤ m → ResultReal r → Takes n r → Advances m r
Takes-Advances n m (ok (t, after)) le real takes = inr (real, omega arith)
Takes-Advances n m (thrown e) le real takes = takes
Takes-Advances n m undefined le real takes = takes

Advances-further : (n m : ℕ) (r : Result (Token × Cursor)) → n ≤ m → Advances n r → Advances m r
Advances-further n m (ok (t, after)) le (inl (k, z, h)) = inl (k, z, omega arith)
Advances-further n m (ok (t, after)) le (inr (real, h)) = inr (real, omega arith)
Advances-further n m (thrown e) le adv = adv
Advances-further n m undefined le adv = adv

-- What next_at finds.
abbrev NextCase : ℕ → Type 0
NextCase c =
    ((c == 0) ≡ true)
    ⊎ (((c == 0) ≡ false) × ((c == b'\n') ≡ true))
    ⊎ (((c == 0) ≡ false) × ((c == b'\n') ≡ false))

next_case : (c : ℕ) → NextCase c
next_case c = elim (Bool-cases (c == 0)) [
  | inl e ↦ inl e
  | inr e ↦ elim (Bool-cases (c == b'\n')) [ inl f ↦ inr (inl (e, f)) | inr f ↦ inr (inr (e, f)) ]
]

next_at_end :
    (again : Cursor → Result (Token × Cursor)) (s : Cursor)
    → (peek_char s.rest == 0) ≡ true
    → next_at again s ≡ ok (token end_of_input [] 0 s, s)
unfolding next_at
next_at_end again s e = rw e refl

next_at_newline :
    (again : Cursor → Result (Token × Cursor)) (s : Cursor)
    → (peek_char s.rest == 0) ≡ false
    → (peek_char s.rest == b'\n') ≡ true
    → next_at again s ≡ again (get s)
unfolding next_at
next_at_newline again s e f = rw e (rw f refl)

next_at_token :
    (again : Cursor → Result (Token × Cursor)) (s : Cursor)
    → (peek_char s.rest == 0) ≡ false
    → (peek_char s.rest == b'\n') ≡ false
    → next_at again s ≡ read_token (peek_char s.rest) s
unfolding next_at
next_at_token again s e f = rw e (rw f refl)

nonzero : (c : ℕ) → (c == 0) ≡ false → c ≢ 0
nonzero c e z = ground (arith, e, z)

iszero : (c : ℕ) → (c == 0) ≡ true → c ≡ 0
iszero c e = (==_iff c 0).0 e

next_loop-Advances : (n : ℕ) (s : Cursor) → left s < n → Advances (left s) (next_loop n s)
unfolding next_loop
next_loop-Advances zero s enough = absurd (omega arith)
next_loop-Advances (suc n) s enough =
    let s1 : Cursor = skip_whitespace_and_comments s in
    elim (next_case (peek_char s1.rest)) [
      | inl e ↦
          rw (next_at_end (next_loop n) s1 e)
            (inl (refl, iszero (peek_char s1.rest) e, skip-left s))
      | inr (inl (e, f)) ↦
          let shorter : left (get s1) < left s1 = get-shorter s1 (nonzero (peek_char s1.rest) e) in
          rw (next_at_newline (next_loop n) s1 e f) (
            Advances-further (left (get s1)) (left s) (next_loop n (get s1))
              (omega (arith, skip-left s))
              (next_loop-Advances n (get s1) (omega (arith, skip-left s))))
      | inr (inr (e, f)) ↦ rw (next_at_token (next_loop n) s1 e f) (
          Takes-Advances (left s1) (left s) (read_token (peek_char s1.rest) s1) (skip-left s)
            (read_token-ResultReal (peek_char s1.rest) s1)
            (read_token-Takes s1 (nonzero (peek_char s1.rest) e)))
    ]

-- Lexer::next, on every source and from every position, gives the end of the input at a position where a
-- zero byte or nothing is left, or a token other than the end, behind which strictly fewer bytes are left,
-- or it throws the runtime_error of a byte that starts no token. It never reads outside the source.
pub next_token-Advances : (s : Cursor) → Advances (left s) (next_token s)
unfolding next_token
next_token-Advances s = next_loop-Advances (suc (left s)) s (omega arith)

-- The loop over line breaks ends by itself: any fuel above the number of bytes that are left gives the same
-- result.
pub next_loop-fuel :
    (n m : ℕ) (s : Cursor) → left s < n → left s < m → next_loop n s ≡ next_loop m s
unfolding next_loop
next_loop-fuel zero m s h k = absurd (omega arith)
next_loop-fuel (suc n) zero s h k = absurd (omega arith)
next_loop-fuel (suc n) (suc m) s h k =
    let s1 : Cursor = skip_whitespace_and_comments s in
    elim (next_case (peek_char s1.rest)) [
      | inl e ↦ next_at_end (next_loop n) s1 e ∙ sym (next_at_end (next_loop m) s1 e)
      | inr (inl (e, f)) ↦
          let shorter : left (get s1) < left s1 = get-shorter s1 (nonzero (peek_char s1.rest) e) in
          next_at_newline (next_loop n) s1 e f
          ∙ next_loop-fuel n m (get s1) (omega (arith, skip-left s)) (omega (arith, skip-left s))
          ∙ sym (next_at_newline (next_loop m) s1 e f)
      | inr (inr (e, f)) ↦
          next_at_token (next_loop n) s1 e f ∙ sym (next_at_token (next_loop m) s1 e f)
    ]
