-- ===== src/Hvmc/Assembler/OperandsAlike.antt =====
-- The operands of an instruction are read alike in both passes of assemble in
-- src/tools/hvmc/src/assembler.cpp.
use hvmsys.Base.{ℕ, zero, suc, ◌^◌, ◌==◌}
use hvmsys.Hvmc.Types.{OpcodeEntry}
use hvmsys.Hvmc.AsmLexer.{AsmKind, ident, number, plus, minus, newline, end, AsmToken}
use hvmsys.Hvmc.Assembler.State.{Asm, read, Pass}
use hvmsys.Hvmc.Assembler.Operands.{OperandState, minus_operand, operand_round, operand_loop}
use hvmsys.Hvmc.Assembler.Steps.{
  Together, give-Together, undefined-Together, no_fuel-Together, either-Together, bind-Together,
  after-Together,
}

minus_operand-Together :
    (p q : Pass) (s u : OperandState) (t : AsmToken) (kind : AsmKind)
    → Together (λ s u. Unit {0}) (minus_operand p s t kind) (minus_operand q u t kind)
minus_operand-Together p q s u t number =
    either-Together (t.intval == 2 ^ 63) undefined-Together (give-Together _ _ tt)
minus_operand-Together p q s u t ident = give-Together _ _ tt
minus_operand-Together p q s u t _ = give-Together s u tt

operand_round-Together :
    (again other : OperandState → Asm OperandState) (p q : Pass) (entry : OpcodeEntry)
    (s u : OperandState) (t : AsmToken) (kind : AsmKind)
    → ((s u : OperandState) → Together (λ s u. Unit {0}) (again s) (other u))
    → Together
        (λ s u. Unit {0})
        (operand_round again p entry s t kind)
        (operand_round other q entry u t kind)
unfolding operand_round
operand_round-Together again other p q entry s u t newline h = give-Together s u tt
operand_round-Together again other p q entry s u t end h = give-Together s u tt
operand_round-Together again other p q entry s u t minus h =
    after-Together read
      (λ nt. bind-Together (minus_operand-Together p q s u nt nt.kind) (λ a b e. h a b))
operand_round-Together again other p q entry s u t plus h = after-Together read (λ nt. h _ _)
operand_round-Together again other p q entry s u t number h = h _ _
operand_round-Together again other p q entry s u t ident h = h _ _
operand_round-Together again other p q entry s u t _ h = h s u

-- Operands are read alike, whatever the labels are.
pub operand_loop-Together :
    (fuel : ℕ) (p q : Pass) (entry : OpcodeEntry) (s u : OperandState)
    → Together (λ s u. Unit {0}) (operand_loop fuel p entry s) (operand_loop fuel q entry u)
unfolding operand_loop
operand_loop-Together zero p q entry s u = no_fuel-Together
operand_loop-Together (suc fuel) p q entry s u = after-Together read (λ t.
    operand_round-Together (operand_loop fuel p entry) (operand_loop fuel q entry) p q entry s u t
      t.kind (λ s' u'. operand_loop-Together fuel p q entry s' u'))
