-- ===== src/Hvmc/Lexer/Progress.antt =====
-- Reading never goes back, and a token that is not the end takes at least one byte.
use hvmsys.Base.{
  ℕ, zero, suc, ◌≤◌, ◌<◌, ◌≡◌, ◌≢◌, refl, sym, ◌∙◌, arith, Bool, ◌⊎◌, inl, inr, [], ◌∷◌, length,
}
use hvmsys.Base.Text.{Bytes}
use hvmsys.Hvmc.Lexer.Scan.{
  Cursor, at, peek_char, get, not_newline, next_line, next_col, read_while, Gap, blank,
  line_comment, block_comment, no_gap, gap, to_line_end, to_close, past_block, skip_gap, skip_loop,
}

-- The bytes that are left.
abbrev pub left : Cursor → ℕ
left s = length s.rest

pub get-left : (s : Cursor) → left (get s) ≤ left s
unfolding get
get-left s = from_rest s.rest s.line s.col
  where
    from_rest : (r : Bytes) (l k : ℕ) → left (get (at r l k)) ≤ length r
    from_rest [] l k = omega arith
    from_rest (c ∷ cs) l k = omega arith

-- A byte that is there is read.
pub get-shorter : (s : Cursor) → peek_char s.rest ≢ 0 → left (get s) < left s
unfolding get peek_char
get-shorter s there = from_rest s.rest s.line s.col there
  where
    from_rest : (r : Bytes) (l k : ℕ) → peek_char r ≢ 0 → left (get (at r l k)) < length r
    from_rest [] l k there = absurd (there refl)
    from_rest (c ∷ cs) l k there = omega arith

pub read_while-left : (p : ℕ → Bool) (r : Bytes) (l k : ℕ) → left (read_while p r l k).1 ≤ length r
unfolding read_while
read_while-left p [] l k = omega arith
read_while-left p (c ∷ cs) l k = ground (arith, read_while-left p cs (next_line c l) (next_col c k))

to_close-left : (r : Bytes) (l k : ℕ) → left (to_close r l k) ≤ length r
unfolding to_close
to_close-left [] l k = omega arith
to_close-left (c ∷ []) l k = omega arith
to_close-left (c ∷ d ∷ cs) l k =
    ground (arith, to_close-left (d ∷ cs) (next_line c l) (next_col c k))

past_block-left : (s : Cursor) → left (past_block s) ≤ left (get s)
unfolding past_block
past_block-left s =
    let inside : Cursor = get (get s) in
    let closing : Cursor = to_close inside.rest inside.line inside.col in
    ground (
      arith,
      get-left (get s),
      to_close-left inside.rest inside.line inside.col,
      get-left closing,
      get-left (get closing),
    )

blank-shorter : (r : Bytes) (l k : ℕ) → gap r ≢ no_gap → left (get (at r l k)) < length r
unfolding get gap
blank-shorter [] l k there = absurd (there refl)
blank-shorter (c ∷ cs) l k there = omega arith

line_comment-shorter :
    (r : Bytes) (l k : ℕ) → gap r ≡ line_comment → left (to_line_end (at r l k)) < length r
unfolding gap to_line_end read_while
line_comment-shorter [] l k e = cc
line_comment-shorter (c ∷ cs) l k e =
    ground (arith, read_while-left not_newline cs (next_line c l) (next_col c k))

-- What a round of the loop over white space and comments goes on with.
abbrev pub after_gap : Gap → Cursor → Cursor
after_gap blank s = get s
after_gap line_comment s = to_line_end s
after_gap block_comment s = past_block s
after_gap no_gap s = s

-- A round reads a byte.
after_gap-shorter :
    (s : Cursor) (g : Gap) → gap s.rest ≡ g → g ≢ no_gap → left (after_gap g s) < left s
after_gap-shorter s blank e there = blank-shorter s.rest s.line s.col (rw e there)
after_gap-shorter s line_comment e there = line_comment-shorter s.rest s.line s.col e
after_gap-shorter s block_comment e there =
    omega (arith, past_block-left s, blank-shorter s.rest s.line s.col (rw e there))
after_gap-shorter s no_gap e there = absurd (there refl)

skip_gap_step :
    (again : Cursor → Cursor) (s : Cursor) (g : Gap)
    → g ≢ no_gap
    → skip_gap again g s ≡ again (after_gap g s)
unfolding skip_gap
skip_gap_step again s blank there = refl
skip_gap_step again s line_comment there = refl
skip_gap_step again s block_comment there = refl
skip_gap_step again s no_gap there = absurd (there refl)

-- The gap of a cursor with nothing left.
gap-empty : (r : Bytes) → length r ≤ 0 → gap r ≡ no_gap
unfolding gap
gap-empty [] h = refl
gap-empty (c ∷ cs) h = absurd (omega arith)

gap-cases : (g : Gap) → (g ≡ no_gap) ⊎ (g ≢ no_gap)
gap-cases no_gap = inl refl
gap-cases blank = inr (λ e. cc)
gap-cases line_comment = inr (λ e. cc)
gap-cases block_comment = inr (λ e. cc)

skip_gap_stop :
    (again : Cursor → Cursor) (s : Cursor) (g : Gap) → g ≡ no_gap → skip_gap again g s ≡ s
unfolding skip_gap
skip_gap_stop again s g e = rw e refl

-- Fuel above the number of bytes that are left changes nothing, and the loop ends where no blank and no
-- comment stands.
pub skip_loop-ends :
    (n : ℕ) (s : Cursor)
    → left s ≤ n
    → (gap (skip_loop n s).rest ≡ no_gap) × (left (skip_loop n s) ≤ left s)
unfolding skip_loop
skip_loop-ends zero s enough = (gap-empty s.rest enough, omega arith)
skip_loop-ends (suc n) s enough = elim (gap-cases (gap s.rest)) [
  | inl e ↦ rw (skip_gap_stop (skip_loop n) s (gap s.rest) e) (e, omega arith)
  | inr there ↦
      let shorter : left (after_gap (gap s.rest) s) < left s =
        after_gap-shorter s (gap s.rest) refl there in
      let (ends, less) = skip_loop-ends n (after_gap (gap s.rest) s) (omega arith) in
      rw (skip_gap_step (skip_loop n) s (gap s.rest) there) (ends, omega arith)
]

pub skip_loop-fuel :
    (n m : ℕ) (s : Cursor) → left s ≤ n → left s ≤ m → skip_loop n s ≡ skip_loop m s
unfolding skip_loop
skip_loop-fuel zero zero s h k = refl
skip_loop-fuel zero (suc m) s h k =
    sym (skip_gap_stop (skip_loop m) s (gap s.rest) (gap-empty s.rest h))
skip_loop-fuel (suc n) zero s h k = skip_gap_stop (skip_loop n) s (gap s.rest) (gap-empty s.rest k)
skip_loop-fuel (suc n) (suc m) s h k = elim (gap-cases (gap s.rest)) [
  | inl e ↦
      skip_gap_stop (skip_loop n) s (gap s.rest) e
      ∙ sym (skip_gap_stop (skip_loop m) s (gap s.rest) e)
  | inr there ↦
      let shorter : left (after_gap (gap s.rest) s) < left s =
        after_gap-shorter s (gap s.rest) refl there in
      skip_gap_step (skip_loop n) s (gap s.rest) there
      ∙ skip_loop-fuel n m (after_gap (gap s.rest) s) (omega arith) (omega arith)
      ∙ sym (skip_gap_step (skip_loop m) s (gap s.rest) there)
]
