-- ===== src/Cpu/Laws/Frames.antt =====
-- PUSH and POP, ENTER and LEAVE undo each other.
use hvmsys.Base.{
  ℕ, ◌^◌, ◌≤◌, ◌<◌, ◌≡◌, refl, ◌∙◌, arith, inl, inr, ◌==◌, ==_iff, Bool-cases, if◌then◌else◌,
}
use hvmsys.Base.Words.{add64, sub64}
use hvmsys.Except.{ok}
use hvmsys.Cpu.Mnemonic.{push, pop, enter, leave}
use hvmsys.Cpu.State.{
  DecodedInst, Machine, Host, IsRegisterFile, Outcome, done, throws, faults, reg, ◌>>=◌,
}
use hvmsys.Cpu.Data.{exec_stack}

module _ {R M : Type 0} (h : Host R M) where
  -- A machine with the memory `mem` and the registers of `m`, but for the registers of `P`.
  abbrev pub Restores : Machine R M → M → (ℕ → Type 0) → Outcome R M (Machine R M) → Type 0
  Restores m mem P (done m') = (m'.mem ≡ mem) × ((q : ℕ) → ¬ P q → reg h m' q ≡ reg h m q)
  Restores m mem P (throws e m') = ⊥
  Restores m mem P faults = ⊥

  back : (a k : ℕ) → a < 2 ^ 64 → k ≤ 2 ^ 64 → add64 (sub64 a k) k ≡ a
  back a k ha hk = omega arith

  -- A register after a write to one of them.
  pub read-write :
      (rs : R) (r v q : ℕ)
      → IsRegisterFile h
      → 0 < r
      → r < 32
      → v < 2 ^ 64
      → h.read_reg (h.write_reg rs r v) q ≡ (if q == r then v else h.read_reg rs q)
  read-write rs r v q file low high fits = elim (Bool-cases (q == r)) [
    | inl e ↦ rw (e, (==_iff q r).0 e) (file.same rs r v low high fits)
    | inr e ↦ rw e (file.apart rs r q v (ground arith))
  ]

  -- The registers after PUSH and POP.
  popped :
      (rs : R) (rd q : ℕ)
      → IsRegisterFile h
      → 0 < rd
      → rd < 31
      → (let r2 : R =
            h.write_reg (h.write_reg rs 31 (sub64 (h.read_reg rs 31) 8)) rd (h.read_reg rs rd) in
          h.read_reg (h.write_reg r2 31 (add64 (h.read_reg r2 31) 8)) q ≡ h.read_reg rs q)
  popped rs rd q file low high =
      let sp : ℕ = sub64 (h.read_reg rs 31) 8 in
      let r1 : R = h.write_reg rs 31 sp in
      let r2 : R = h.write_reg r1 rd (h.read_reg rs rd) in
      let kept : h.read_reg r2 31 ≡ sp =
        file.apart r1 rd 31 (h.read_reg rs rd) (omega arith)
        ∙ file.same rs 31 sp (omega arith) (omega arith) (omega arith) in
      rw (kept, back (h.read_reg rs 31) 8 (file.word rs 31) (omega arith))
        (ground (
          arith,
          read-write r2 31 (h.read_reg rs 31) q file (omega arith) (omega arith) (file.word rs 31),
          read-write r1 rd (h.read_reg rs rd) q file low (omega arith) (file.word rs rd),
          read-write rs 31 sp q file (omega arith) (omega arith) (omega arith),
        ))

  -- On a register file (IsRegisterFile), where the memory takes the word that PUSH stores and gives
  -- it back, PUSH rd followed by POP rd ends normally, with every register as before, the stack
  -- pointer included. rd is neither r0 nor the stack pointer.
  pub push-pop :
      (di : DecodedInst) (m : Machine R M) (mem1 mem2 : M)
      → IsRegisterFile h
      → 0 < di.rd
      → di.rd < 31
      → h.write_dword m.mem (sub64 (reg h m 31) 8) (reg h m di.rd) ≡ ok mem1
      → h.read_dword mem1 (sub64 (reg h m 31) 8) ≡ ok (reg h m di.rd, mem2)
      → Restores m mem2 (λ q. ⊥) (exec_stack h push di m >>= exec_stack h pop di)
  unfolding exec_stack
  push-pop di m mem1 mem2 file low high writes reads =
      let sp : ℕ = sub64 (reg h m 31) 8 in
      rw
        (
          file.same m.cpu.regs 31 sp (omega arith) (omega arith) (omega arith),
          file.apart m.cpu.regs 31 di.rd sp (omega arith),
          writes,
          file.same m.cpu.regs 31 sp (omega arith) (omega arith) (omega arith),
          reads,
        )
        (refl, λ q n. popped m.cpu.regs di.rd q file low high)

  left :
      (rs : R) (imm q : ℕ)
      → IsRegisterFile h
      → (let sp : ℕ = sub64 (h.read_reg rs 31) 16 in
          let entered : R = h.write_reg (h.write_reg rs 30 sp) 31 (sub64 sp imm) in
          let linked : R = h.write_reg entered 29 (h.read_reg rs 29) in
          let framed : R = h.write_reg linked 30 (h.read_reg rs 30) in
          h.read_reg (h.write_reg framed 31 (add64 sp 16)) q ≡ h.read_reg rs q)
  left rs imm q file =
      let sp : ℕ = sub64 (h.read_reg rs 31) 16 in
      let r0 : R = h.write_reg rs 30 sp in
      let r1 : R = h.write_reg r0 31 (sub64 sp imm) in
      let r2 : R = h.write_reg r1 29 (h.read_reg rs 29) in
      let r3 : R = h.write_reg r2 30 (h.read_reg rs 30) in
      rw (back (h.read_reg rs 31) 16 (file.word rs 31) (omega arith)) (
        ground (
          arith,
          read-write r3 31 (h.read_reg rs 31) q file (omega arith) (omega arith) (file.word rs 31),
          read-write r2 30 (h.read_reg rs 30) q file (omega arith) (omega arith) (file.word rs 30),
          read-write r1 29 (h.read_reg rs 29) q file (omega arith) (omega arith) (file.word rs 29),
          read-write r0 31 (sub64 sp imm) q file (omega arith) (omega arith) (omega arith),
          read-write rs 30 sp q file (omega arith) (omega arith) (omega arith),
        ))

  -- On a register file (IsRegisterFile), where the memory takes the two words that ENTER stores
  -- below the stack pointer and gives them back, ENTER, whatever the frame size, followed by LEAVE
  -- ends normally with every register as before.
  pub enter-leave :
      (di : DecodedInst) (m : Machine R M) (mem1 mem2 mem3 mem4 : M)
      → IsRegisterFile h
      → h.write_dword m.mem (sub64 (reg h m 31) 16) (reg h m 29) ≡ ok mem1
      → h.write_dword mem1 (add64 (sub64 (reg h m 31) 16) 8) (reg h m 30) ≡ ok mem2
      → h.read_dword mem2 (sub64 (reg h m 31) 16) ≡ ok (reg h m 29, mem3)
      → h.read_dword mem3 (add64 (sub64 (reg h m 31) 16) 8) ≡ ok (reg h m 30, mem4)
      → Restores m mem4 (λ q. ⊥) (exec_stack h enter di m >>= exec_stack h leave di)
  unfolding exec_stack
  enter-leave di m mem1 mem2 mem3 mem4 file write1 write2 read1 read2 =
      let sp : ℕ = sub64 (reg h m 31) 16 in
      let r0 : R = h.write_reg m.cpu.regs 30 sp in
      let frame : h.read_reg (h.write_reg r0 31 (sub64 sp di.imm)) 30 ≡ sp =
        file.apart r0 31 30 (sub64 sp di.imm) (omega arith)
        ∙ file.same m.cpu.regs 30 sp (omega arith) (omega arith) (omega arith) in
      rw (write1, write2, frame, read1, read2) (refl, λ q n. left m.cpu.regs di.imm q file)
