-- ===== src/Cpu/Data.antt =====
-- The cases of execute_inst that read and write memory for the general registers.
use hvmsys.Base.{ℕ, bit_and}
use hvmsys.Base.Words.{add64, sub64, u8, u16, u32}
use hvmsys.Cpu.Mnemonic.{Load, ld_b, ld_bu, ld_h, ld_hu, ld_w, ld_wu, ld_d, ld_p}
use hvmsys.Cpu.Mnemonic.{Store, st_b, st_h, st_w, st_d, st_p}
use hvmsys.Cpu.Mnemonic.{Stack, lda, push, pop, enter, leave, adjsp, frame}
use hvmsys.Cpu.State.{
  DecodedInst, Machine, Host, Outcome, done, reg, set_reg, advance, read_mem, write_mem, ◌>>=◌,
}
use hvmsys.Cpu.Word64.{sign_extend}
use hvmsys.Cpu.Scalar.{write_next}

module _ {R M : Type 0} (h : Host R M) where
  -- `state.read_reg(di.rs1) + static_cast<uint64_t>(di.imm)`.
  abbrev pub address : DecodedInst → Machine R M → ℕ
  address di m = add64 (reg h m di.rs1) di.imm

  unfoldable pub exec_load : Load → DecodedInst → Machine R M → Outcome R M (Machine R M)
  unfolding sign_extend
  exec_load ld_b di m = do
    (v, m1) ← read_mem h.read_byte m (address di m)
    write_next h di m1 (sign_extend 8 v)
  exec_load ld_bu di m = do (v, m1) ← read_mem h.read_byte m (address di m); write_next h di m1 v
  exec_load ld_h di m = do
    (v, m1) ← read_mem h.read_half m (address di m)
    write_next h di m1 (sign_extend 16 v)
  exec_load ld_hu di m = do (v, m1) ← read_mem h.read_half m (address di m); write_next h di m1 v
  exec_load ld_w di m = do
    (v, m1) ← read_mem h.read_word m (address di m)
    write_next h di m1 (sign_extend 32 v)
  exec_load ld_wu di m = do (v, m1) ← read_mem h.read_word m (address di m); write_next h di m1 v
  exec_load ld_d di m = do (v, m1) ← read_mem h.read_dword m (address di m); write_next h di m1 v
  exec_load ld_p di m = do
    let addr = reg h m di.rs2
    (v, m1) ← read_mem h.read_dword m addr
    let m2 = set_reg h m1 di.rd v
    (w, m3) ← read_mem h.read_dword m2 (add64 addr 8)
    done (advance di (set_reg h m3 di.rs1 w))

  unfoldable pub exec_store : Store → DecodedInst → Machine R M → Outcome R M (Machine R M)
  exec_store st_b di m = do
    m1 ← write_mem h.write_byte m (address di m) (u8 (bit_and (reg h m di.rd) 0xff))
    done (advance di m1)
  exec_store st_h di m = do
    m1 ← write_mem h.write_half m (address di m) (u16 (bit_and (reg h m di.rd) 0xffff))
    done (advance di m1)
  exec_store st_w di m = do
    m1 ← write_mem h.write_word m (address di m) (u32 (bit_and (reg h m di.rd) 0xffff_ffff))
    done (advance di m1)
  exec_store st_d di m = do
    m1 ← write_mem h.write_dword m (address di m) (reg h m di.rd)
    done (advance di m1)
  exec_store st_p di m = do
    let addr = reg h m di.rs2
    m1 ← write_mem h.write_dword m addr (reg h m di.rd)
    m2 ← write_mem h.write_dword m1 (add64 addr 8) (reg h m1 di.rs1)
    done (advance di m2)

  unfoldable pub exec_stack : Stack → DecodedInst → Machine R M → Outcome R M (Machine R M)
  exec_stack lda di m = write_next h di m (address di m)
  exec_stack push di m = do
    let m1 = set_reg h m 31 (sub64 (reg h m 31) 8)
    m2 ← write_mem h.write_dword m1 (reg h m1 31) (reg h m1 di.rd)
    done (advance di m2)
  exec_stack pop di m = do
    (v, m1) ← read_mem h.read_dword m (reg h m 31)
    let m2 = set_reg h m1 di.rd v
    done (advance di (set_reg h m2 31 (add64 (reg h m2 31) 8)))
  exec_stack enter di m = do
    let sp = sub64 (reg h m 31) 16
    m1 ← write_mem h.write_dword m sp (reg h m 29)
    m2 ← write_mem h.write_dword m1 (add64 sp 8) (reg h m1 30)
    let m3 = set_reg h m2 30 sp
    done (advance di (set_reg h m3 31 (sub64 sp di.imm)))
  exec_stack leave di m = do
    let sp = reg h m 30
    (lr, m1) ← read_mem h.read_dword m sp
    let m2 = set_reg h m1 29 lr
    (fp, m3) ← read_mem h.read_dword m2 (add64 sp 8)
    let m4 = set_reg h m3 30 fp
    done (advance di (set_reg h m4 31 (add64 sp 16)))
  exec_stack adjsp di m = done (advance di (set_reg h m 31 (add64 (reg h m 31) di.imm)))
  exec_stack frame di m = write_next h di m (add64 (reg h m 30) di.imm)
