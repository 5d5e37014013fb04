-- ===== src/Hvmc/Assembler/Positions.antt =====
-- Positions of the two passes of assemble in src/tools/hvmc/src/assembler.cpp.
use hvmsys.Base.{
  List, ℕ, zero, suc, ◌-◌, ◌≡◌, refl, sym, ap, ◌∙◌, arith, Bool, true, false, if◌then◌else◌, ◌==◌,
  ltb, ◌+◌, ◌^◌, ◌%◌, ◌∷◌, ◌++◌, length, length-append, Option, none, some,
}
use mathlib.Core.Path.{subst}
use hvmsys.Base.Text.{Bytes}
use hvmsys.Except.{length_error}
use hvmsys.Hvmc.Types.{EncodingType, base32, escape32, OpcodeEntry}
use hvmsys.Hvmc.Encoder.{
  wrap, encode_instruction, emit_escape32, word_bytes, pad_to_four, encode_uleb128,
}
use hvmsys.Hvmc.AsmLexer.{AsmKind, number, string, AsmToken}
use hvmsys.Hvmc.Assembler.State.{
  give, either, fail_with, Pass, SectionName, text_section, data_section, rodata_section,
  set_section, commit, add_label,
}
use hvmsys.Hvmc.Assembler.Operands.{OperandState, add_instruction}
use hvmsys.Hvmc.Assembler.Directives.{
  Argument, global_symbol, numbers, characters, alignment, zeros, low_bytes, add_data, add_or_skip,
  add_number, add_string, insert_zeros, add_padding, align, add_symbol, enter, with_argument,
}
use hvmsys.Hvmc.Assembler.Steps.{
  Together, give-Together, undefined-Together, fail-Together, either-Together,
}

abbrev pub Labels : Type 0
Labels = List (Bytes × ℕ)

-- A state of the first pass and one of the second, at the same position of their section, where the first
-- pass has these labels.
pub record AtSamePlace (L : Labels) (p q : Pass) : Type 0 where
  pub first : p.second ≡ false
  pub second : q.second ≡ true
  pub position : length p.current_data ≡ length q.current_data
  pub known : p.labels ≡ L

wrap-length_same :
    (e : EncodingType) (op v w : ℕ) → length (wrap e op v).bytes ≡ length (wrap e op w).bytes
unfolding wrap emit_escape32
wrap-length_same base32 op v w = refl
wrap-length_same escape32 op v w =
    let front : Bytes = pad_to_four (0xfe ∷ encode_uleb128 op) in
    length-append front (word_bytes v) ∙ sym (length-append front (word_bytes w))

append-position :
    (xs ys us vs : Bytes)
    → length xs ≡ length ys
    → length us ≡ length vs
    → length (xs ++ us) ≡ length (ys ++ vs)
append-position xs ys us vs e f = omega (arith, length-append xs us, length-append ys vs)

-- The size of an instruction does not depend on its operands.
pub instruction-SamePlace :
    {L : Labels} (p q : Pass) (entry : OpcodeEntry) (s u : OperandState)
    → AtSamePlace L p q
    → AtSamePlace L (add_instruction p entry s) (add_instruction q entry u)
unfolding add_instruction encode_instruction
instruction-SamePlace p q entry s u r = record {
  first = r.first;
  known = r.known;
  second = r.second;
  position =
      append-position p.current_data q.current_data _ _ r.position
        (wrap-length_same entry.encoding entry.opcode _ _);
}

length-zeros : (n : ℕ) → length (zeros n) ≡ n
unfolding zeros
length-zeros zero = refl
length-zeros (suc n) = ap suc (length-zeros n)

room_length :
    (b : Bool) (bytes : Bytes) → length (if b then bytes else zeros (length bytes)) ≡ length bytes
room_length true bytes = refl
room_length false bytes = length-zeros (length bytes)

add_or_skip-SamePlace :
    {L : Labels} (p q : Pass) (bytes : Bytes)
    → AtSamePlace L p q
    → AtSamePlace L (add_or_skip p bytes) (add_or_skip q bytes)
add_or_skip-SamePlace p q bytes r = record {
  first = r.first;
  known = r.known;
  second = r.second;
  position =
      append-position p.current_data q.current_data _ _ r.position
        (room_length p.second bytes ∙ sym (room_length q.second bytes));
}

-- A change to neither the pass nor the current data.
abbrev pub Stays : Pass → Pass → Type 0
Stays p next =
    (next.second ≡ p.second) × (next.current_data ≡ p.current_data) × (next.labels ≡ p.labels)

pub Stays-SamePlace :
    {L : Labels} {p q next other : Pass}
    → Stays p next
    → Stays q other
    → AtSamePlace L p q
    → AtSamePlace L next other
Stays-SamePlace (a, b, k) (c, d, l) r = record {
  first = a ∙ r.first;
  known = k ∙ r.known;
  second = c ∙ r.second;
  position = ap length b ∙ r.position ∙ sym (ap length d);
}

if-Stays :
    (p next other : Pass) (b : Bool)
    → Stays p next
    → Stays p other
    → Stays p (if b then next else other)
if-Stays p next other true s t = s
if-Stays p next other false s t = t

-- The first pass gives the label the position at which the second stands.
pub add_label-SamePlace :
    {L : Labels} (p q : Pass) (id : Bytes)
    → AtSamePlace L p q
    → AtSamePlace ((id, length q.current_data) ∷ L) (add_label p id) (add_label q id)
unfolding add_label
add_label-SamePlace {L} p q id r = by_pass p.second q.second r.first r.second
  where
    by_pass :
        (b c : Bool)
        → b ≡ false
        → c ≡ true
        → AtSamePlace
            ((id, length q.current_data) ∷ L)
            (if b then p else record p { labels = (id, length p.current_data) ∷ p.labels })
            (if c then q else record q { labels = (id, length q.current_data) ∷ q.labels })
    by_pass true c e f = cc
    by_pass false true e f = record {
      first = r.first;
      second = r.second;
      position = r.position;
      known = rw (r.position, r.known) refl;
    }
    by_pass false false e f = cc

add_symbol-Stays : (p : Pass) (name : Bytes) → Stays p (add_symbol p name)
add_symbol-Stays p name = if-Stays p _ _ p.second (refl, refl, refl) (refl, refl, refl)

pub commit-Stays : (p : Pass) → Stays p (commit p)
unfolding commit
commit-Stays p = if-Stays p _ _ p.second (stored p.current) (refl, refl, refl)
  where
    stored : (s : SectionName) → Stays p (set_section p s)
    stored text_section = (refl, refl, refl)
    stored data_section = (refl, refl, refl)
    stored rodata_section = (refl, refl, refl)

pub enter-SamePlace :
    {L : Labels} (p q : Pass) (s : Option SectionName)
    → AtSamePlace L p q
    → AtSamePlace L (enter p s) (enter q s)
enter-SamePlace p q none r = r
enter-SamePlace p q (some s) r = record {
  first = r.first;
  known = r.known;
  second = r.second;
  position = refl;
}

add_number-SamePlace :
    {L : Labels} (p q : Pass) (n : ℕ) (t : AsmToken) (kind : AsmKind)
    → AtSamePlace L p q
    → AtSamePlace L (add_number p n t kind) (add_number q n t kind)
add_number-SamePlace p q n t number r = add_or_skip-SamePlace p q (low_bytes n t.intval) r
add_number-SamePlace p q n t _ r = r

add_string-SamePlace :
    {L : Labels} (p q : Pass) (closing : Bytes) (t : AsmToken) (kind : AsmKind)
    → AtSamePlace L p q
    → AtSamePlace L (add_string p closing t kind) (add_string q closing t kind)
add_string-SamePlace p q closing t string r = add_or_skip-SamePlace p q (t.text ++ closing) r
add_string-SamePlace p q closing t _ r = r

insert_zeros-Together :
    {L : Labels} (p q : Pass) (n : ℕ)
    → AtSamePlace L p q
    → Together (AtSamePlace L) (insert_zeros p n) (insert_zeros q n)
unfolding insert_zeros
insert_zeros-Together {L} p q n r =
    subst
      (λ (size : ℕ).
        Together (AtSamePlace L) (insert_zeros p n)
          (either (ltb (size + n) (2 ^ 63)) (give (add_data q (zeros n))) (fail_with length_error)))
      r.position
      (either-Together (ltb (length p.current_data + n) (2 ^ 63)) (give-Together _ _ filled)
        (fail-Together length_error))
  where
    filled : AtSamePlace L (add_data p (zeros n)) (add_data q (zeros n))
    filled = record {
      first = r.first;
      known = r.known;
      second = r.second;
      position = append-position p.current_data q.current_data _ _ r.position refl;
    }

add_padding-Together :
    {L : Labels} (p q : Pass) (n : ℕ)
    → AtSamePlace L p q
    → Together (AtSamePlace L) (add_padding p n) (add_padding q n)
add_padding-Together {L} p q zero r = undefined-Together
add_padding-Together {L} p q (suc n) r =
    let mis : ℕ = length p.current_data % suc n in
    let same : mis ≡ length q.current_data % suc n = ap (λ (t : ℕ). t % suc n) r.position in
    subst
      (λ (m : ℕ).
        Together (AtSamePlace L) (add_padding p (suc n))
          (either (m == 0) (give q) (insert_zeros q (suc n - m))))
      same
      (either-Together (mis == 0) (give-Together p q r) (insert_zeros-Together p q (suc n - mis) r))

pub with_argument-Together :
    {L : Labels} (p q : Pass) (a : Argument) (t : AsmToken)
    → AtSamePlace L p q
    → Together (AtSamePlace L) (with_argument p a t) (with_argument q a t)
unfolding with_argument
with_argument-Together {L} p q global_symbol t r =
    give-Together _ _ (Stays-SamePlace (add_symbol-Stays p t.text) (add_symbol-Stays q t.text) r)
with_argument-Together {L} p q (numbers n) t r =
    give-Together _ _ (add_number-SamePlace p q n t t.kind r)
with_argument-Together {L} p q (characters closing) t r =
    give-Together _ _ (add_string-SamePlace p q closing t t.kind r)
with_argument-Together {L} p q alignment t r = by_kind t.kind
  where
    by_kind : (kind : AsmKind) → Together (AtSamePlace L) (align p t kind) (align q t kind)
    by_kind number = add_padding-Together p q t.intval r
    by_kind _ = give-Together p q r
