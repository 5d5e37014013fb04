-- ===== src/Cpu/System.antt =====
-- The cases of execute_inst for reservations, control registers, hardware loops and hints.
use hvmsys.Base.{◌-◌, bit_and, true, false, ◌&&◌, if◌then◌else◌, ◌==◌}
use hvmsys.Base.Words.{add64}
use hvmsys.Cpu.Mnemonic.{Atomic, lr_d, sc_d, csrrw, sfence_vma, loop_set, loop_decbr}
use hvmsys.Cpu.Mnemonic.{Hint, alloc_bump, rdprof, chk_b, ld_d_nz}
use hvmsys.Cpu.State.{
  DecodedInst, Machine, Host, Outcome, done, reg, set_reg, set_pc, advance, read_mem, write_mem,
  trap, ◌>>=◌,
}
use hvmsys.Cpu.Scalar.{write_next}
use hvmsys.Cpu.Flow.{target, to_target}

module _ {R M : Type 0} (h : Host R M) where
  -- SC.D with a matching reservation.
  unfoldable pub store_reserved : DecodedInst → Machine R M → Outcome R M (Machine R M)
  store_reserved di m = do
    m1 ← write_mem h.write_dword m (reg h m di.rs1) (reg h m di.rs2)
    let m2 = set_reg h m1 di.rd 0
    done (advance di (record m2 { cpu = record m2.cpu { reservation_valid = false } }))

  unfoldable pub exec_atomic : Atomic → DecodedInst → Machine R M → Outcome R M (Machine R M)
  unfolding store_reserved target
  exec_atomic lr_d di m = do
    let addr = reg h m di.rs1
    (v, m1) ← read_mem h.read_dword m addr
    let m2 = set_reg h m1 di.rd v
    done (
        advance di
          (record m2 { cpu = record m2.cpu { reservation_addr = addr; reservation_valid = true } }))
  exec_atomic sc_d di m =
      if m.cpu.reservation_valid && (m.cpu.reservation_addr == reg h m di.rs1)
      then store_reserved di m
      else write_next h di m 1
  exec_atomic csrrw di m =
      let csr = bit_and di.imm 0xfff in
      let old = h.read_csr m.cpu csr in
      let m1 : Machine R M =
        if di.rs1 == 0 then m else record m { cpu = h.write_csr m.cpu csr (reg h m di.rs1) } in
      write_next h di m1 old
  exec_atomic sfence_vma di m = done (advance di m)
  exec_atomic loop_set di m = done (
      advance di
        (record m { cpu = record m.cpu { loop_count = reg h m di.rs1; loop_backedge = di.imm } }))
  exec_atomic loop_decbr di m =
      if m.cpu.loop_count == 0
      then done (advance di m)
      else (let m1 = record m { cpu = record m.cpu { loop_count = m.cpu.loop_count - 1 } } in
          if m1.cpu.loop_count == 0
          then done (advance di m1)
          else to_target (target di m1) (set_pc m1))

  unfoldable pub exec_hint : Hint → DecodedInst → Machine R M → Outcome R M (Machine R M)
  exec_hint alloc_bump di m = write_next h di m 0
  exec_hint rdprof di m = write_next h di m 0
  exec_hint chk_b di m = write_next h di m (reg h m di.rs1)
  exec_hint ld_d_nz di m = if reg h m di.rs1 == 0 then done (trap h m 9 m.cpu.pc) else (do
    (v, m1) ← read_mem h.read_dword m (add64 (reg h m di.rs1) di.imm)
    write_next h di m1 v)
  exec_hint _ di m = done (advance di m)
