-- ===== src/Cpu/Scalar.antt =====
-- The cases of execute_inst that compute a register from registers and the immediate.
use hvmsys.Base.{ℕ, ◌-◌, ◌/◌, Bool, if◌then◌else◌, ◌==◌, Option, none, some}
use hvmsys.Base.{bit_and, bit_or, bit_xor, not}
use hvmsys.Base.Words.{u64, add64, sub64, mul64, ◌<<<◌}
use hvmsys.Cpu.Mnemonic.{Move, nop, mov, movz, lui, addi, retain, release, icache_rng}
use hvmsys.Cpu.Mnemonic.{Arith, add, sub, mul, div, divu, rem, Logic, shl, shr, sar}
use hvmsys.Cpu.Mnemonic.{
  Compare, cmpeq, cmpne, cmplt, cmple, fcmpeq, fcmplt, fcmple, Float, fadd, fsub, fmul, fdiv,
}
use hvmsys.Cpu.State.{DecodedInst, Machine, Host, Outcome, done, faults, reg, set_reg, advance}
use hvmsys.Cpu.Word64.{
  all_ones, signed_lt, signed_le, signed_div, signed_rem, shift_left, shift_right,
  shift_right_signed, flag,
}

module _ {R M : Type 0} (h : Host R M) where
  -- `write_reg(di.rd, v)`, then the next instruction.
  abbrev pub write_next : DecodedInst → Machine R M → ℕ → Outcome R M (Machine R M)
  write_next di m v = done (advance di (set_reg h m di.rd v))

  unfoldable pub exec_move : Move → DecodedInst → Machine R M → Outcome R M (Machine R M)
  exec_move nop di m = done (advance di m)
  exec_move mov di m = write_next di m (reg h m di.rs1)
  exec_move movz di m = write_next di m (bit_or (reg h m di.rs1) (bit_and di.imm 0x7fff))
  exec_move lui di m =
      write_next di m (bit_or (reg h m di.rs1) (u64 (bit_and di.imm 0x7fff <<< 49)))
  exec_move addi di m = write_next di m (add64 (reg h m di.rs1) di.imm)
  exec_move retain di m = write_next di m (reg h m di.rs1)
  exec_move release di m = write_next di m 0
  exec_move icache_rng di m = done (advance di m)

  -- The result of a signed division, which may overflow.
  abbrev write_defined : DecodedInst → Machine R M → Option ℕ → Outcome R M (Machine R M)
  write_defined di m none = faults
  write_defined di m (some v) = write_next di m v

  unfoldable pub exec_arith : Arith → DecodedInst → Machine R M → Outcome R M (Machine R M)
  exec_arith add di m = write_next di m (add64 (reg h m di.rs1) (reg h m di.rs2))
  exec_arith sub di m = write_next di m (sub64 (reg h m di.rs1) (reg h m di.rs2))
  exec_arith mul di m = write_next di m (mul64 (reg h m di.rs1) (reg h m di.rs2))
  exec_arith div di m =
      if reg h m di.rs2 == 0
      then write_next di m all_ones
      else write_defined di m (signed_div (reg h m di.rs1) (reg h m di.rs2))
  exec_arith divu di m =
      if reg h m di.rs2 == 0
      then write_next di m all_ones
      else write_next di m (reg h m di.rs1 / reg h m di.rs2)
  exec_arith rem di m =
      if reg h m di.rs2 == 0
      then write_next di m (reg h m di.rs1)
      else write_defined di m (signed_rem (reg h m di.rs1) (reg h m di.rs2))

  unfoldable pub exec_logic : Logic → DecodedInst → Machine R M → Outcome R M (Machine R M)
  exec_logic shl di m = write_next di m (shift_left (reg h m di.rs1) (reg h m di.rs2))
  exec_logic shr di m = write_next di m (shift_right (reg h m di.rs1) (reg h m di.rs2))
  exec_logic sar di m = write_next di m (shift_right_signed (reg h m di.rs1) (reg h m di.rs2))
  exec_logic Logic.and di m = write_next di m (bit_and (reg h m di.rs1) (reg h m di.rs2))
  exec_logic Logic.or di m = write_next di m (bit_or (reg h m di.rs1) (reg h m di.rs2))
  exec_logic Logic.xor di m = write_next di m (bit_xor (reg h m di.rs1) (reg h m di.rs2))
  exec_logic Logic.not di m = write_next di m (all_ones - reg h m di.rs1)

  -- The comparison, without the register write.
  unfoldable pub holds : Compare → ℕ → ℕ → Bool
  holds cmpeq a b = a == b
  holds cmpne a b = not (a == b)
  holds cmplt a b = signed_lt a b
  holds cmple a b = signed_le a b
  holds fcmpeq a b = h.float_eq a b
  holds fcmplt a b = h.float_lt a b
  holds fcmple a b = h.float_le a b

  unfoldable pub exec_compare : Compare → DecodedInst → Machine R M → Outcome R M (Machine R M)
  unfolding holds
  exec_compare c di m = write_next di m (flag (holds c (reg h m di.rs1) (reg h m di.rs2)))

  unfoldable pub float_op : Float → ℕ → ℕ → ℕ
  float_op fadd a b = h.float_add a b
  float_op fsub a b = h.float_sub a b
  float_op fmul a b = h.float_mul a b
  float_op fdiv a b = h.float_div a b

  unfoldable pub exec_float : Float → DecodedInst → Machine R M → Outcome R M (Machine R M)
  unfolding float_op
  exec_float f di m = write_next di m (float_op f (reg h m di.rs1) (reg h m di.rs2))
