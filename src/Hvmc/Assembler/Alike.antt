-- ===== src/Hvmc/Assembler/Alike.antt =====
-- The two passes of assemble in src/tools/hvmc/src/assembler.cpp go through the source alike.
use hvmsys.Base.{
  ℕ, zero, suc, ◌≡◌, refl, Bool, true, false, ◌||◌, if◌then◌else◌, ◌∷◌, ◌⊎◌, inl, inr, length,
  Option, none, some,
}
use mathlib.Core.Path.{subst}
use hvmsys.Base.Text.{Bytes, text, same_text}
use hvmsys.Hvmc.Types.{OpcodeEntry}
use hvmsys.Hvmc.AsmLexer.{AsmKind, ident, colon, end, dot, AsmToken}
use hvmsys.Hvmc.Assembler.State.{Asm, ◌>>=◌, give, read, Pass, commit, skip_rest}
use hvmsys.Hvmc.Assembler.Operands.{find_entry, no_operands}
use hvmsys.Hvmc.Assembler.Directives.{
  Argument, section_of, section_name, enter_section, argument_of, other_directive, named_directive,
  directive,
}
use hvmsys.Hvmc.Assembler.{
  instruction, named_line, upper_text, pass_round, until_end, pass_loop, run_pass,
}
use hvmsys.Hvmc.Assembler.Steps.{
  SameEnd, SameEnd-map, Together, bind-Together, give-Together, no_fuel-Together, after-Together,
}
use hvmsys.Hvmc.Assembler.OperandsAlike.{operand_loop-Together}
use hvmsys.Hvmc.Assembler.Positions.{
  Labels, AtSamePlace, add_label-SamePlace, instruction-SamePlace, Stays-SamePlace, commit-Stays,
  enter-SamePlace, with_argument-Together,
}

-- The same token behind a line that makes no label.
abbrev SameLine : Labels → AsmToken × Pass → AsmToken × Pass → Type 0
SameLine L (t, p) (u, q) = (t ≡ u) × AtSamePlace L p q

-- The same token behind a line that may have made a label, of this name and at this position.
abbrev pub SameRound : Labels → Bytes → ℕ → AsmToken × Pass → AsmToken × Pass → Type 0
SameRound L name at (t, p) (u, q) = (t ≡ u) × (AtSamePlace L p q ⊎ AtSamePlace ((name, at) ∷ L) p q)

-- The same position, whatever the labels are.
abbrev pub SomePlace : Pass → Pass → Type 0
SomePlace p q = (L : Labels) × AtSamePlace L p q

-- The last token that is read is the next for both.
last-Together :
    {L : Labels} (p q : Pass)
    → AtSamePlace L p q
    → Together (SameLine L) (read >>= λ t. give (t, p)) (read >>= λ t. give (t, q))
last-Together p q r = after-Together read (λ t. give-Together (t, p) (t, q) (refl, r))

skip-Together :
    {L : Labels} (fuel : ℕ) (tok : AsmToken) (p q : Pass)
    → AtSamePlace L p q
    → Together
        (SameLine L)
        (skip_rest fuel tok >>= λ t. give (t, p))
        (skip_rest fuel tok >>= λ t. give (t, q))
skip-Together fuel tok p q r =
    after-Together (skip_rest fuel tok) (λ t. give-Together (t, p) (t, q) (refl, r))

instruction-Together :
    {L : Labels} (fuel : ℕ) (p q : Pass) (tok : AsmToken) (e : Option OpcodeEntry)
    → AtSamePlace L p q
    → Together (SameLine L) (instruction fuel p tok e) (instruction fuel q tok e)
unfolding instruction
instruction-Together fuel p q tok none r = skip-Together fuel tok p q r
instruction-Together fuel p q tok (some entry) r =
    bind-Together (operand_loop-Together fuel p q entry no_operands no_operands)
      (λ s u e. last-Together _ _ (instruction-SamePlace p q entry s u r))

map-Together :
    {A B : Type 0} {R S : A → B → Type 0} {m : Asm A} {n : Asm B}
    → ((a : A) (b : B) → R a b → S a b)
    → Together R m n
    → Together S m n
map-Together {R = R} {S = S} {m = m} {n = n} f t = record {
  ends = λ l. SameEnd-map R S (m l) (n l) f (t.ends l);
}

unlabelled-Together :
    {L : Labels} (name : Bytes) (at : ℕ) {m n : Asm (AsmToken × Pass)}
    → Together (SameLine L) m n
    → Together (SameRound L name at) m n
unlabelled-Together name at t = map-Together (λ (t, p) (u, q) (e, r). (e, inl r)) t

named_line-Together :
    {L : Labels} (fuel : ℕ) (p q : Pass) (tok following : AsmToken) (kind : AsmKind)
    → AtSamePlace L p q
    → Together
        (SameRound L tok.text (length q.current_data))
        (named_line fuel p tok following kind)
        (named_line fuel q tok following kind)
unfolding named_line
named_line-Together fuel p q tok following colon r =
    map-Together (λ (t, p) (u, q) (e, r). (e, inr r))
      (last-Together _ _ (add_label-SamePlace p q tok.text r))
named_line-Together fuel p q tok following _ r =
    unlabelled-Together tok.text (length q.current_data)
      (instruction-Together fuel p q tok (find_entry (upper_text tok.text)) r)

enter_section-Together :
    {L : Labels} (fuel : ℕ) (p q : Pass) (tok : AsmToken) (name : Bytes)
    → AtSamePlace L p q
    → Together (SameLine L) (enter_section fuel p tok name) (enter_section fuel q tok name)
enter_section-Together fuel p q tok name r = skip-Together fuel tok _ _ (
    enter-SamePlace (commit p) (commit q) (section_of name)
      (Stays-SamePlace (commit-Stays p) (commit-Stays q) r))

other_directive-Together :
    {L : Labels} (fuel : ℕ) (p q : Pass) (tok : AsmToken) (a : Option Argument)
    → AtSamePlace L p q
    → Together (SameLine L) (other_directive fuel p tok a) (other_directive fuel q tok a)
unfolding other_directive
other_directive-Together fuel p q tok none r = skip-Together fuel tok p q r
other_directive-Together fuel p q tok (some argument) r = after-Together read (λ value.
    bind-Together (with_argument-Together p q argument value r)
      (λ p' q' r'. skip-Together fuel tok p' q' r'))

if-Together :
    {L : Labels} {x y u v : Asm (AsmToken × Pass)} (b : Bool)
    → Together (SameLine L) x u
    → Together (SameLine L) y v
    → Together (SameLine L) (if b then x else y) (if b then u else v)
if-Together true s t = s
if-Together false s t = t

named_directive-Together :
    {L : Labels} (fuel : ℕ) (p q : Pass) (tok : AsmToken) (dir : Bytes)
    → AtSamePlace L p q
    → Together (SameLine L) (named_directive fuel p tok dir) (named_directive fuel q tok dir)
unfolding named_directive
named_directive-Together fuel p q tok dir r =
    if-Together (same_text dir (text "section"))
      (after-Together read (λ sn.
        after-Together (section_name sn sn.kind)
          (λ name. enter_section-Together fuel p q tok name.text r)))
      (if-Together
        (same_text dir (text "text")
          || (same_text dir (text "data") || same_text dir (text "rodata")))
        (enter_section-Together fuel p q tok dir r)
        (other_directive-Together fuel p q tok (argument_of dir) r))

directive-Together :
    {L : Labels} (fuel : ℕ) (p q : Pass) (tok dir : AsmToken) (kind : AsmKind)
    → AtSamePlace L p q
    → Together (SameLine L) (directive fuel p tok dir kind) (directive fuel q tok dir kind)
unfolding directive
directive-Together fuel p q tok dir ident r = named_directive-Together fuel p q tok dir.text r
directive-Together fuel p q tok dir _ r = last-Together p q r

-- From states of the first and of the second pass at the same position of their section: a round of both
-- reads the same tokens and ends alike, in the same exception or with the same token behind it and again at
-- the same position; and the first pass keeps its labels, or has the name that the round begins with as a
-- new one, at the position at which the second pass stands.
pub pass_round-Together :
    {L : Labels} (fuel : ℕ) (p q : Pass) (tok : AsmToken) (kind : AsmKind)
    → AtSamePlace L p q
    → Together
        (SameRound L tok.text (length q.current_data))
        (pass_round fuel p tok kind)
        (pass_round fuel q tok kind)
unfolding pass_round
pass_round-Together fuel p q tok dot r =
    unlabelled-Together tok.text (length q.current_data)
      (after-Together read (λ dir. directive-Together fuel p q tok dir dir.kind r))
pass_round-Together fuel p q tok ident r =
    after-Together read (λ following. named_line-Together fuel p q tok following following.kind r)
pass_round-Together fuel p q tok _ r =
    unlabelled-Together tok.text (length q.current_data) (last-Together p q r)

until_end-Together :
    {x y u v : Asm Pass} (kind : AsmKind)
    → Together SomePlace x u
    → Together SomePlace y v
    → Together SomePlace (until_end x y kind) (until_end u v kind)
until_end-Together end s t = s
until_end-Together _ s t = t

some_place :
    {L : Labels} {p q : Pass} (name : Bytes) (at : ℕ)
    → AtSamePlace L p q ⊎ AtSamePlace ((name, at) ∷ L) p q
    → SomePlace p q
some_place {L} name at (inl r) = (L, r)
some_place {L} name at (inr r) = ((name, at) ∷ L, r)

pass_loop-Together :
    (fuel : ℕ) (tok : AsmToken) (p q : Pass)
    → SomePlace p q
    → Together SomePlace (pass_loop fuel (tok, p)) (pass_loop fuel (tok, q))
unfolding pass_loop
pass_loop-Together zero tok p q r = no_fuel-Together
pass_loop-Together (suc fuel) tok p q (L, r) =
    until_end-Together tok.kind (give-Together p q (L, r)) (
      bind-Together (pass_round-Together (suc fuel) p q tok tok.kind r) (λ (t, p') (u, q') (e, r').
        subst
          (λ (v : AsmToken). Together SomePlace (pass_loop fuel (t, p')) (pass_loop fuel (v, q'))) e
          (pass_loop-Together fuel t p' q' (some_place tok.text (length q.current_data) r'))))

-- From states of the first and of the second pass at the same position of their section, a pass over the
-- source reads the same tokens as the other, and both end with the same bytes left and at the same
-- position, or in the same exception.
pub run_pass-SameEnd :
    (source : Bytes) (p q : Pass)
    → SomePlace p q
    → SameEnd SomePlace (run_pass source p) (run_pass source q)
unfolding run_pass
run_pass-SameEnd source p q r =
    (after-Together read (λ tok. pass_loop-Together (suc (length source)) tok p q r)).ends
      (record { rest = source; line = 1 })
