-- ===== src/Cpu/State.antt =====
-- The state that src/hvm_sim_core/executor.cpp works on. The headers of the directory
-- include/hvm-sim/core are not in the repository, so the record has the fields that executor.cpp
-- names, and the methods that it calls are the functions of a `Host`.
use hvmsys.Base.{ℕ, ◌+◌, ◌≡◌, ◌≢◌, ◌<◌, ◌^◌, Bool, if◌then◌else◌}
use hvmsys.Base.Words.{u64}
use hvmsys.Except.{Exception, Result, ok, thrown, undefined}
use hvmsys.Cpu.Mnemonic.{HvmMnemonic}

pub data Privilege : Type 0 where
  user supervisor : Privilege

-- `regs` is the general register file, `vec_regs` gives register and lane. All words are below 2 ^ 64.
pub record CpuState (R : Type 0) : Type 0 where
  pub regs : R
  pub pc : ℕ
  pub stime : ℕ
  pub stimecmp : ℕ
  pub sstatus : ℕ
  pub sepc : ℕ
  pub privilege : Privilege
  pub reservation_addr : ℕ
  pub reservation_valid : Bool
  pub loop_count : ℕ
  pub loop_backedge : ℕ
  pub vl : ℕ
  pub vtype : ℕ
  pub vstate : ℕ
  pub vec_regs : ℕ → ℕ → ℕ
  pub trap_pending : Bool

-- `imm` is the sign-extended immediate as a 64-bit pattern.
pub record DecodedInst : Type 0 where
  pub mnemonic : HvmMnemonic
  pub rd : ℕ
  pub rs1 : ℕ
  pub rs2 : ℕ
  pub imm : ℕ
  pub is_escape : Bool
  pub valid : Bool

pub record Machine (R M : Type 0) : Type 0 where
  pub cpu : CpuState R
  pub mem : M

-- What executor.cpp calls: methods of HvmCpuState, decode_inst, the interface MemoryAccess, the
-- operations of double on bit patterns, and the constant kVecLanes. A memory access that throws leaves
-- the memory as it was, as those of FlatMemory and MemorySystem do.
pub record Host (R M : Type 0) : Type 0 where
  pub read_reg : R → ℕ → ℕ
  pub write_reg : R → ℕ → ℕ → R
  pub read_csr : CpuState R → ℕ → ℕ
  pub write_csr : CpuState R → ℕ → ℕ → CpuState R
  pub signal_trap : CpuState R → ℕ → ℕ → CpuState R
  pub decode_inst : CpuState R → M → Result (DecodedInst × M)
  pub read_byte : M → ℕ → Result (ℕ × M)
  pub read_half : M → ℕ → Result (ℕ × M)
  pub read_word : M → ℕ → Result (ℕ × M)
  pub read_dword : M → ℕ → Result (ℕ × M)
  pub write_byte : M → ℕ → ℕ → Result M
  pub write_half : M → ℕ → ℕ → Result M
  pub write_word : M → ℕ → ℕ → Result M
  pub write_dword : M → ℕ → ℕ → Result M
  pub float_eq : ℕ → ℕ → Bool
  pub float_lt : ℕ → ℕ → Bool
  pub float_le : ℕ → ℕ → Bool
  pub float_add : ℕ → ℕ → ℕ
  pub float_sub : ℕ → ℕ → ℕ
  pub float_mul : ℕ → ℕ → ℕ
  pub float_div : ℕ → ℕ → ℕ
  pub vec_lanes : ℕ

-- How a step ends: with a value; with an exception, at the machine as the code had left it by then;
-- or in undefined behaviour.
pub data Outcome (R M : Type 0) (A : Type 0) : Type 0 where
  done : A → Outcome R M A
  throws : Exception → Machine R M → Outcome R M A
  faults : Outcome R M A

infixl 5 ◌>>=◌
abbrev pub ◌>>=◌ : {R M A B : Type 0} → Outcome R M A → (A → Outcome R M B) → Outcome R M B
done a >>= f = f a
throws e m >>= f = throws e m
faults >>= f = faults

-- The general register file as docs/hvm-spec.md describes it: r0 reads as zero and ignores writes,
-- the other 31 registers keep what was last written to them.
pub record IsRegisterFile {R M : Type 0} (h : Host R M) : Type 0 where
  pub zero_reads : (rs : R) → h.read_reg rs 0 ≡ 0
  pub zero_writes : (rs : R) (v : ℕ) → h.write_reg rs 0 v ≡ rs
  pub same :
      (rs : R) (r v : ℕ) → 0 < r → r < 32 → v < 2 ^ 64 → h.read_reg (h.write_reg rs r v) r ≡ v
  pub apart : (rs : R) (r q v : ℕ) → r ≢ q → h.read_reg (h.write_reg rs r v) q ≡ h.read_reg rs q
  pub word : (rs : R) (r : ℕ) → h.read_reg rs r < 2 ^ 64

module _ {R M : Type 0} (h : Host R M) where
  -- `state.read_reg(i)`.
  abbrev pub reg : Machine R M → ℕ → ℕ
  reg m i = h.read_reg m.cpu.regs i

  -- `state.write_reg(i, v)`.
  abbrev pub set_reg : Machine R M → ℕ → ℕ → Machine R M
  set_reg m i v = record m { cpu = record m.cpu { regs = h.write_reg m.cpu.regs i v } }

  -- `state.signal_trap(cause, value)`.
  abbrev pub trap : Machine R M → ℕ → ℕ → Machine R M
  trap m cause v = record m { cpu = h.signal_trap m.cpu cause v }

abbrev pub set_pc : {R M : Type 0} → Machine R M → ℕ → Machine R M
set_pc m pc = record m { cpu = record m.cpu { pc = pc } }

abbrev pub inst_size : DecodedInst → ℕ
inst_size di = if di.is_escape then 8 else 4

-- `state.pc += di.is_escape ? 8 : 4`.
abbrev pub advance : {R M : Type 0} → DecodedInst → Machine R M → Machine R M
advance di m = set_pc m (u64 (m.cpu.pc + inst_size di))

-- A read or a write through the interface MemoryAccess.
abbrev pub after_read :
    {R M : Type 0} → Machine R M → Result (ℕ × M) → Outcome R M (ℕ × Machine R M)
after_read m (ok (v, mem')) = done (v, record m { mem = mem' })
after_read m (thrown e) = throws e m
after_read m undefined = faults

abbrev pub read_mem :
    {R M : Type 0} → (M → ℕ → Result (ℕ × M)) → Machine R M → ℕ → Outcome R M (ℕ × Machine R M)
read_mem f m addr = after_read m (f m.mem addr)

abbrev pub after_write : {R M : Type 0} → Machine R M → Result M → Outcome R M (Machine R M)
after_write m (ok mem') = done (record m { mem = mem' })
after_write m (thrown e) = throws e m
after_write m undefined = faults

abbrev pub write_mem :
    {R M : Type 0} → (M → ℕ → ℕ → Result M) → Machine R M → ℕ → ℕ → Outcome R M (Machine R M)
write_mem f m addr v = after_write m (f m.mem addr v)
