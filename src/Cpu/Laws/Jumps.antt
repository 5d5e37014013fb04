-- ===== src/Cpu/Laws/Jumps.antt =====
-- The targets of jumps and branches.
use hvmsys.Base.{
  ℕ, ◌-◌, ◌%◌, ◌^◌, ◌<◌, ◌≡◌, refl, sym, arith, Bool, true, false, not, ◌&&◌, ◌||◌, ◌⊎◌, some, none,
  ◌+◌, if◌then◌else◌,
}
use hvmsys.Base.Int.{ℤ, ltb_ℤ, leb_ℤ}
use hvmsys.Base.Words.{add64}
use hvmsys.Cpu.Mnemonic.{Jump, beq, bne, blt, ble, jmp, jal, jalr, ret}
use hvmsys.Cpu.State.{
  DecodedInst, Machine, Host, IsRegisterFile, Outcome, done, throws, faults, reg, set_reg, set_pc,
}
use hvmsys.Cpu.Laws.Targets.{pattern_of, goal, in_reach, target-goal}
use hvmsys.Cpu.Flow.{target, to_target, branch_if, align_down, taken, exec_jump}
use hvmsys.Cpu.Laws.Signed.{signed, signed_lt-signed}

-- The comparison of a conditional branch on the integers of its registers.
abbrev pub compares : Jump → ℤ → ℤ → Bool
compares beq a b = leb_ℤ a b && leb_ℤ b a
compares bne a b = not (leb_ℤ a b && leb_ℤ b a)
compares blt a b = ltb_ℤ a b
compares ble a b = leb_ℤ a b
compares _ a b = true

abbrev pub is_conditional : Jump → Bool
is_conditional beq = true
is_conditional bne = true
is_conditional blt = true
is_conditional ble = true
is_conditional _ = false

-- The pc-relative jumps; the others go to a register.
abbrev pub is_relative : Jump → Bool
is_relative jalr = false
is_relative ret = false
is_relative _ = true

module _ {R M : Type 0} (h : Host R M) where
  taken-compares :
      (k : Jump) (a b : ℕ)
      → a < 2 ^ 64
      → b < 2 ^ 64
      → taken h k a b ≡ compares k (signed a) (signed b)
  unfolding taken
  taken-compares beq a b ha hb = ground arith
  taken-compares bne a b ha hb = ground arith
  taken-compares blt a b ha hb = (signed_lt-signed a b ha hb).0
  taken-compares ble a b ha hb = (signed_lt-signed a b ha hb).1
  taken-compares _ a b ha hb = refl

  -- A jump relative to the pc, which goes on in `go`.
  to_target-goal :
      (di : DecodedInst) (m : Machine R M) (go : ℕ → Machine R M)
      → m.cpu.pc < 2 ^ 64
      → di.imm < 2 ^ 64
      → to_target (target di m) go ≡ (
          if in_reach m.cpu.pc di.imm
          then done (go (pattern_of (goal m.cpu.pc di.imm)))
          else faults)
  to_target-goal di m go hp hi = rw (target-goal di m hp hi) (at (in_reach m.cpu.pc di.imm))
    where
      at :
          (b : Bool)
          → to_target (if b then some (pattern_of (goal m.cpu.pc di.imm)) else none) go
            ≡ (if b then done (go (pattern_of (goal m.cpu.pc di.imm))) else faults)
      at true = refl
      at false = refl

  -- On a register file (IsRegisterFile) and with 64-bit pc and immediate, a conditional branch changes the
  -- pc alone: to the pattern of the integer pc + imm * 4 if the relation that its name gives holds of the
  -- two registers read as signed integers, and to pc + 4 (mod 2^64) otherwise. Where imm * 4 or the sum
  -- leaves int64_t it is undefined, taken or not.
  pub exec_jump-compares :
      (k : Jump) (di : DecodedInst) (m : Machine R M)
      → IsRegisterFile h
      → m.cpu.pc < 2 ^ 64
      → di.imm < 2 ^ 64
      → is_conditional k ≡ true
      → exec_jump h k di m ≡ (
          if in_reach m.cpu.pc di.imm
          then done (
              set_pc m (
                if compares k (signed (reg h m di.rs1)) (signed (reg h m di.rs2))
                then pattern_of (goal m.cpu.pc di.imm)
                else (m.cpu.pc + 4) % 2 ^ 64))
          else faults)
  unfolding exec_jump branch_if
  exec_jump-compares jmp di m file hp hi e = absurd cc
  exec_jump-compares jal di m file hp hi e = absurd cc
  exec_jump-compares jalr di m file hp hi e = absurd cc
  exec_jump-compares ret di m file hp hi e = absurd cc
  exec_jump-compares k di m file hp hi e =
      rw
        (sym (
          taken-compares k (reg h m di.rs1) (reg h m di.rs2) (file.word m.cpu.regs di.rs1)
            (file.word m.cpu.regs di.rs2)))
        (to_target-goal di m _ hp hi)

  -- Where a jump of the kind may go from m.
  abbrev pub Reaches : Jump → DecodedInst → Machine R M → ℕ → Type 0
  Reaches jmp di m p = p ≡ pattern_of (goal m.cpu.pc di.imm)
  Reaches jal di m p = p ≡ pattern_of (goal m.cpu.pc di.imm)
  Reaches jalr di m p =
      let linked : Machine R M = set_reg h m di.rd ((m.cpu.pc + 4) % 2 ^ 64) in
      let base : ℕ = (reg h linked di.rs1 + di.imm) % 2 ^ 64 in p ≡ base - base % 4
  Reaches ret di m p = p ≡ reg h m 29 - reg h m 29 % 4
  Reaches k di m p = (p ≡ pattern_of (goal m.cpu.pc di.imm)) ⊎ (p ≡ (m.cpu.pc + 4) % 2 ^ 64)

  -- A jump that ended at a multiple of 4 which its kind may go to, with pc + imm * 4 and imm * 4 of int64_t
  -- where it is relative to the pc; or a pc-relative one that overflowed.
  abbrev pub Lands : Jump → DecodedInst → Machine R M → Outcome R M (Machine R M) → Type 0
  Lands k di m (done next) =
      (next.cpu.pc % 4 ≡ 0)
      × Reaches k di m next.cpu.pc
      × (not (is_relative k) || in_reach m.cpu.pc di.imm ≡ true)
  Lands k di m (throws e next) = ⊥
  Lands k di m faults = (is_relative k ≡ true) × (in_reach m.cpu.pc di.imm ≡ false)

  -- On a register file (IsRegisterFile), JALR whose link register rd is also its base rs1 (not r0)
  -- jumps relative to its own address: to pc + 4 + imm with the two low bits cleared, whatever the
  -- base held.
  exec_jalr_same_register :
      (di : DecodedInst) (m : Machine R M)
      → IsRegisterFile h
      → 0 < di.rd
      → di.rd < 32
      → di.rs1 ≡ di.rd
      → exec_jump h jalr di m
        ≡ done (
            set_pc
              (set_reg h m di.rd (add64 m.cpu.pc 4))
              (align_down (add64 (add64 m.cpu.pc 4) di.imm)))
  unfolding exec_jump
  exec_jalr_same_register di m file low high e =
      rw (e, file.same m.cpu.regs di.rd (add64 m.cpu.pc 4) low high (omega arith)) refl
