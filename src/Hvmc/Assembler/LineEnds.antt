-- ===== src/Hvmc/Assembler/LineEnds.antt =====
-- The lines of assemble in src/tools/hvmc/src/assembler.cpp end.
use hvmsys.Base.{
  ℕ, zero, suc, ◌+◌, ◌-◌, ◌≤◌, ◌<◌, ◌≡◌, refl, arith, Bool, true, false, ◌||◌, if◌then◌else◌, ◌==◌,
  ltb, ◌%◌, ◌^◌, length, Option, none, some,
}
use hvmsys.Base.Text.{Bytes, text, same_text}
use hvmsys.Hvmc.Types.{OpcodeEntry}
use hvmsys.Hvmc.AsmLexer.{AsmKind, ident, number, colon, plus, minus, newline, end, dot, AsmToken}
use hvmsys.Hvmc.AsmLexer.Progress.{is_end, weight}
use hvmsys.Hvmc.Assembler.State.{Asm, ◌>>=◌, give, read, Pass, skip_rest}
use hvmsys.Hvmc.Assembler.Runs.{
  no_weight, pair_weight, Runs, bind-Runs, lift-Runs, lower-Runs, give-Runs, forget-Runs,
  undefined-Runs, length_error-Runs, either-Runs, read-Runs, none-Runs, weight_bound,
  skip_rest-Runs,
}
use hvmsys.Hvmc.Assembler.Operands.{
  OperandState, minus_operand, operand_round, operand_loop, find_entry, no_operands,
}
use hvmsys.Hvmc.Assembler.Directives.{
  Argument, global_symbol, numbers, characters, alignment, zeros, add_data, insert_zeros,
  add_padding, align, section_name, section_directive, with_argument, argument_of, other_directive,
  named_directive, directive,
}
use hvmsys.Hvmc.Assembler.{instruction, named_line, upper_text, pass_round}

-- A continuation that needs no more than its step.
then-Runs :
    {A B : Type 0} {v : A → ℕ} {w : B → ℕ} {n : ℕ} {m : Asm A} {f : A → Asm B}
    → Runs v n 0 m
    → ((a : A) → Runs w n (v a) (f a))
    → Runs w n 0 (m >>= f)
then-Runs {v = v} {n = n} rm rf = bind-Runs rm (λ a. lower-Runs (rf a) (omega arith))

-- The last token that is read is the next.
last-Runs :
    {n : ℕ} (k : ℕ) (p : AsmToken → Pass) → Runs pair_weight n k (read >>= λ t. give (t, p t))
last-Runs k p =
    lift-Runs k (then-Runs read-Runs (λ t. give-Runs (t, p t) (omega arith))) (omega arith)

minus_operand-Runs :
    {n : ℕ} (p : Pass) (s : OperandState) (t : AsmToken) (kind : AsmKind)
    → Runs no_weight n 0 (minus_operand p s t kind)
minus_operand-Runs p s t number =
    either-Runs (t.intval == 2 ^ 63) undefined-Runs (give-Runs _ (omega arith))
minus_operand-Runs p s t ident = give-Runs _ (omega arith)
minus_operand-Runs p s t _ = give-Runs s (omega arith)

operand_round-Runs :
    (again : OperandState → Asm OperandState) (n k : ℕ) (p : Pass) (entry : OpcodeEntry)
    (s : OperandState) (t : AsmToken) (kind : AsmKind)
    → (is_end kind ≡ false → (next : OperandState) → Runs no_weight n 0 (again next))
    → Runs no_weight n k (operand_round again p entry s t kind)
unfolding operand_round
operand_round-Runs again n k p entry s t newline h = give-Runs s (omega arith)
operand_round-Runs again n k p entry s t end h = give-Runs s (omega arith)
operand_round-Runs again n k p entry s t minus h =
    lift-Runs k
      (then-Runs read-Runs (λ nt.
        lift-Runs (weight nt) (then-Runs (minus_operand-Runs p s nt nt.kind) (h refl))
          (omega arith)))
      (omega arith)
operand_round-Runs again n k p entry s t plus h =
    lift-Runs k (then-Runs read-Runs (λ nt. lift-Runs (weight nt) (h refl _) (omega arith)))
      (omega arith)
operand_round-Runs again n k p entry s t number h = lift-Runs k (h refl _) (omega arith)
operand_round-Runs again n k p entry s t ident h = lift-Runs k (h refl _) (omega arith)
operand_round-Runs again n k p entry s t _ h = lift-Runs k (h refl s) (omega arith)

pub inside_weight : (t : AsmToken) → is_end t.kind ≡ false → weight t ≡ 1
inside_weight t e = rw e refl

operand_loop-Runs :
    (fuel n : ℕ) (p : Pass) (entry : OpcodeEntry) (s : OperandState)
    → n ≤ fuel
    → Runs no_weight n 0 (operand_loop fuel p entry s)
unfolding operand_loop
operand_loop-Runs fuel zero p entry s h = none-Runs
operand_loop-Runs zero (suc n) p entry s h = absurd (omega arith)
operand_loop-Runs (suc fuel) (suc n) p entry s h = bind-Runs read-Runs (λ t.
    operand_round-Runs (operand_loop fuel p entry) (suc n - weight t) (weight t) p entry s t t.kind
      (λ e next.
        operand_loop-Runs fuel (suc n - weight t) p entry next (omega (arith, inside_weight t e))))

if-Runs :
    {n k : ℕ} {x y : Asm (AsmToken × Pass)} (b : Bool)
    → Runs pair_weight n k x
    → Runs pair_weight n k y
    → Runs pair_weight n k (if b then x else y)
if-Runs true rx ry = rx
if-Runs false rx ry = ry

insert_zeros-Runs : {n k : ℕ} (p : Pass) (room : ℕ) → Runs no_weight n k (insert_zeros p room)
unfolding insert_zeros
insert_zeros-Runs p room =
    either-Runs (ltb (length p.current_data + room) (2 ^ 63))
      (give-Runs (add_data p (zeros room)) (omega arith)) length_error-Runs

-- The parts of a line, with enough fuel for the bytes behind the token in front.
module _ (fuel n : ℕ) (enough : n < fuel) where
  skip-Runs :
      (k : ℕ) (tok : AsmToken) (p : Pass)
      → Runs pair_weight n k (skip_rest fuel tok >>= λ t. give (t, p))
  skip-Runs k tok p =
      lift-Runs k
        (then-Runs (skip_rest-Runs fuel n tok (omega (arith, weight_bound tok)) (omega arith))
          (λ t. give-Runs (t, p) (omega arith)))
        (omega arith)

  instruction-Runs :
      (k : ℕ) (p : Pass) (tok : AsmToken) (e : Option OpcodeEntry)
      → Runs pair_weight n k (instruction fuel p tok e)
  unfolding instruction
  instruction-Runs k p tok none = skip-Runs k tok p
  instruction-Runs k p tok (some entry) =
      lift-Runs k
        (then-Runs (operand_loop-Runs fuel n p entry no_operands (omega arith))
          (λ ops. last-Runs 0 (λ t. _)))
        (omega arith)

  named_line-Runs :
      (k : ℕ) (p : Pass) (tok following : AsmToken) (kind : AsmKind)
      → Runs pair_weight n k (named_line fuel p tok following kind)
  unfolding named_line
  named_line-Runs k p tok following colon = last-Runs k (λ t. _)
  named_line-Runs k p tok following _ = instruction-Runs k p tok (find_entry (upper_text tok.text))

  align-Runs :
      (k : ℕ) (p : Pass) (t : AsmToken) (kind : AsmKind) → Runs no_weight n k (align p t kind)
  align-Runs k p t number = padding t.intval
    where
      padding : (v : ℕ) → Runs no_weight n k (add_padding p v)
      padding zero = undefined-Runs
      padding (suc v) =
          either-Runs (length p.current_data % suc v == 0) (give-Runs p (omega arith))
            (insert_zeros-Runs p _)
  align-Runs k p t _ = give-Runs p (omega arith)

  with_argument-Runs :
      (k : ℕ) (p : Pass) (a : Argument) (t : AsmToken) → Runs no_weight n k (with_argument p a t)
  unfolding with_argument
  with_argument-Runs k p alignment t = align-Runs k p t t.kind
  with_argument-Runs k p global_symbol t = give-Runs _ (omega arith)
  with_argument-Runs k p (numbers m) t = give-Runs _ (omega arith)
  with_argument-Runs k p (characters closing) t = give-Runs _ (omega arith)

  section_name-Runs : (t : AsmToken) (kind : AsmKind) → Runs no_weight n 0 (section_name t kind)
  section_name-Runs t dot = forget-Runs read-Runs
  section_name-Runs t _ = give-Runs t (omega arith)

  section_directive-Runs :
      (k : ℕ) (p : Pass) (tok : AsmToken) → Runs pair_weight n k (section_directive fuel p tok)
  section_directive-Runs k p tok =
      lift-Runs k
        (then-Runs read-Runs (λ sn.
          lift-Runs (weight sn)
            (then-Runs (section_name-Runs sn sn.kind) (λ name. skip-Runs 0 tok _)) (omega arith)))
        (omega arith)

  other_directive-Runs :
      (k : ℕ) (p : Pass) (tok : AsmToken) (a : Option Argument)
      → Runs pair_weight n k (other_directive fuel p tok a)
  unfolding other_directive
  other_directive-Runs k p tok none = skip-Runs k tok p
  other_directive-Runs k p tok (some argument) =
      lift-Runs k
        (then-Runs read-Runs (λ value.
          lift-Runs (weight value)
            (then-Runs (with_argument-Runs 0 p argument value) (λ q. skip-Runs 0 tok q))
            (omega arith)))
        (omega arith)

  named_directive-Runs :
      (k : ℕ) (p : Pass) (tok : AsmToken) (dir : Bytes)
      → Runs pair_weight n k (named_directive fuel p tok dir)
  unfolding named_directive
  named_directive-Runs k p tok dir =
      if-Runs (same_text dir (text "section")) (section_directive-Runs k p tok) (
        if-Runs
          (same_text dir (text "text")
            || (same_text dir (text "data") || same_text dir (text "rodata")))
          (skip-Runs k tok _) (other_directive-Runs k p tok (argument_of dir)))

  directive-Runs :
      (k : ℕ) (p : Pass) (tok dir : AsmToken) (kind : AsmKind)
      → Runs pair_weight n k (directive fuel p tok dir kind)
  unfolding directive
  directive-Runs k p tok dir ident = named_directive-Runs k p tok dir.text
  directive-Runs k p tok dir _ = last-Runs k (λ t. p)

  pub pass_round-Runs :
      (p : Pass) (tok : AsmToken) (kind : AsmKind)
      → Runs pair_weight n 0 (pass_round fuel p tok kind)
  unfolding pass_round
  pass_round-Runs p tok dot =
      then-Runs read-Runs (λ dir. directive-Runs (weight dir) p tok dir dir.kind)
  pass_round-Runs p tok ident =
      then-Runs read-Runs
        (λ following. named_line-Runs (weight following) p tok following following.kind)
  pass_round-Runs p tok _ = last-Runs 0 (λ t. p)
