-- ===== src/Cpu/Flow.antt =====
-- The cases of execute_inst that set the pc: branches, jumps, calls, traps.
use hvmsys.Base.{ℕ, ◌-◌, ◌^◌, Bool, true, if◌then◌else◌, ◌==◌}
use hvmsys.Base.{bit_and, bit_or, not, Option, none, some}
use hvmsys.Base.Words.{add64, ◌>>>◌}
use hvmsys.Cpu.Mnemonic.{Jump, beq, bne, blt, ble, jmp, jal, jalr, ret}
use hvmsys.Cpu.Mnemonic.{Control, call, tailcall, syscall, break, ecall, trapret}
use hvmsys.Cpu.State.{
  user, supervisor, DecodedInst, Machine, Host, Outcome, done, faults, reg, set_reg, set_pc,
  advance, trap, inst_size,
}
use hvmsys.Cpu.Word64.{signed_lt, signed_le, times_four, signed_add}

abbrev pub add_defined : ℕ → Option ℕ → Option ℕ
add_defined a (some b) = signed_add a b
add_defined a none = none

-- `static_cast<int64_t>(state.pc) + di.imm * 4`; `none` where the product or the sum overflows.
unfoldable pub target : {R M : Type 0} → DecodedInst → Machine R M → Option ℕ
unfolding signed_add times_four
target di m = add_defined m.cpu.pc (times_four di.imm)

-- What follows the computation of the target.
abbrev pub to_target : {R M : Type 0} → Option ℕ → (ℕ → Machine R M) → Outcome R M (Machine R M)
to_target (some goal) go = done (go goal)
to_target none go = faults

-- A conditional branch, which computes its target whether it is taken or not; the instruction is 4 bytes
-- here whatever its encoding.
unfoldable pub branch_if :
    {R M : Type 0} → Bool → DecodedInst → Machine R M → Outcome R M (Machine R M)
unfolding target
branch_if taken di m =
    to_target (target di m) (λ goal. set_pc m (if taken then goal else add64 m.cpu.pc 4))

-- `& ~0x3ULL`.
unfoldable pub align_down : ℕ → ℕ
align_down a = bit_and a (2 ^ 64 - 4)

module _ {R M : Type 0} (h : Host R M) where
  -- What a conditional branch tests; the other jumps are always taken.
  unfoldable pub taken : Jump → ℕ → ℕ → Bool
  taken beq a b = a == b
  taken bne a b = not (a == b)
  taken blt a b = signed_lt a b
  taken ble a b = signed_le a b
  taken _ a b = true

  unfoldable pub exec_jump : Jump → DecodedInst → Machine R M → Outcome R M (Machine R M)
  unfolding taken branch_if target align_down
  exec_jump jmp di m = to_target (target di m) (set_pc m)
  exec_jump jal di m = to_target (target di m) (set_pc (set_reg h m di.rd (add64 m.cpu.pc 4)))
  -- The link is written before the base is read.
  exec_jump jalr di m =
      let linked = set_reg h m di.rd (add64 m.cpu.pc 4) in
      done (set_pc linked (align_down (add64 (reg h linked di.rs1) di.imm)))
  exec_jump ret di m = done (set_pc m (align_down (reg h m 29)))
  exec_jump conditional di m = branch_if (taken conditional (reg h m di.rs1) (reg h m di.rs2)) di m

  unfoldable pub exec_control : Control → DecodedInst → Machine R M → Outcome R M (Machine R M)
  unfolding target
  exec_control call di m =
      to_target (target di m) (set_pc (set_reg h m di.rd (add64 m.cpu.pc (inst_size di))))
  exec_control tailcall di m = to_target (target di m) (set_pc m)
  exec_control syscall di m = done (advance di m)
  exec_control break di m = done (trap h m 10 m.cpu.pc)
  exec_control ecall di m = done (trap h m 8 m.cpu.pc)
  exec_control trapret di m =
      let sie = bit_and (m.cpu.sstatus >>> 1) 1 in
      let spp = bit_and (m.cpu.sstatus >>> 8) 1 in
      done (record m {
        cpu = record m.cpu {
          sstatus = bit_or (bit_and m.cpu.sstatus (2 ^ 64 - 2)) sie;
          privilege = if spp == 1 then supervisor else user;
          pc = m.cpu.sepc;
        };
      })
