-- ===== src/Cpu/Laws/Reservation.antt =====
-- LR.D and SC.D.
use hvmsys.Base.{ℕ, ◌<◌, ◌≡◌, ◌≢◌, refl, arith, ==_iff}
use hvmsys.Except.{ok}
use hvmsys.Cpu.Mnemonic.{lr_d, sc_d}
use hvmsys.Cpu.State.{
  DecodedInst, Machine, Host, IsRegisterFile, Outcome, done, throws, faults, reg, ◌>>=◌,
}
use hvmsys.Cpu.System.{exec_atomic, store_reserved}

module _ {R M : Type 0} (h : Host R M) where
  -- A machine with the memory `mem` and `v` in register `r`.
  abbrev pub Ends : M → ℕ → ℕ → Outcome R M (Machine R M) → Type 0
  Ends mem r v (done m) = (m.mem ≡ mem) × (reg h m r ≡ v)
  Ends mem r v (throws e m) = ⊥
  Ends mem r v faults = ⊥

  -- On a register file (IsRegisterFile), LR.D, then SC.D with the same address register, then any
  -- second SC.D: where the memory grants the read and the first write, the three end normally, the
  -- memory is the one that the first SC.D left by storing rs2, and the second SC.D gives 1. The
  -- register that LR.D writes is neither the address nor the value register, and the result register
  -- of the second SC.D is not r0.
  pub reserve-store-store :
      (load first second : DecodedInst) (m : Machine R M) (v : ℕ) (mem1 mem2 : M)
      → IsRegisterFile h
      → load.rd ≢ load.rs1
      → load.rd ≢ first.rs2
      → first.rs1 ≡ load.rs1
      → 0 < second.rd
      → second.rd < 32
      → h.read_dword m.mem (reg h m load.rs1) ≡ ok (v, mem1)
      → h.write_dword mem1 (reg h m load.rs1) (reg h m first.rs2) ≡ ok mem2
      → Ends mem2 second.rd 1
          (exec_atomic h lr_d load m >>= exec_atomic h sc_d first >>= exec_atomic h sc_d second)
  unfolding exec_atomic store_reserved
  reserve-store-store load first second m v mem1 mem2 file a1 a2 same low high reads writes =
      let a : ℕ = reg h m load.rs1 in
      rw
        (
          reads,
          same,
          file.apart m.cpu.regs load.rd load.rs1 v a1,
          (==_iff a a).1 refl,
          file.apart m.cpu.regs load.rd first.rs2 v a2,
          writes,
        )
        (refl, file.same _ second.rd 1 low high (omega arith))
