-- ===== src/Cpu/Laws/Sequence.antt =====
-- The pc after an instruction that does not branch.
use hvmsys.Base.{ℕ, zero, suc, ◌+◌, ◌≡◌, refl, arith, Bool, true, false}
use hvmsys.Base.Words.{u64}
use hvmsys.Except.{Result, ok, thrown, undefined}
use hvmsys.Cpu.Mnemonic.{
  Control, syscall, csrrw, loop_decbr, ld_d_nz, move, arithmetic, logic, compare, float, jump, load,
  store, stack, control, atomic, hint, vec_memory, vec, HvmMnemonic, Move, Arith, Logic, Compare,
  Float, Load, Store, Stack, Atomic, Hint, VecMemory, Vec,
}
use hvmsys.Cpu.State.{
  DecodedInst, Machine, Host, Outcome, done, throws, faults, advance, inst_size, after_read,
  after_write, ◌>>=◌,
}
use hvmsys.Cpu.Scalar.{exec_move, exec_arith, exec_logic, exec_compare, exec_float}
use hvmsys.Cpu.Flow.{exec_control}
use hvmsys.Cpu.System.{exec_atomic, exec_hint}
use hvmsys.Cpu.Data.{exec_load, exec_store, exec_stack}
use hvmsys.Cpu.Vector.{VecRegs, vecs, exec_vec_memory, exec_vec, load_lanes, store_lanes}
use hvmsys.Cpu.Execute.{execute_inst}

-- The instructions after which the pc goes on by the length of the instruction. Left out are the
-- jumps, the calls and traps, CSRRW, whose register write is not in the repository, LOOP.DECBR and
-- LD.D.NZ.
abbrev pub is_sequential : HvmMnemonic → Bool
is_sequential (jump k) = false
is_sequential (control syscall) = true
is_sequential (control k) = false
is_sequential (atomic csrrw) = false
is_sequential (atomic loop_decbr) = false
is_sequential (hint ld_d_nz) = false
is_sequential k = true

module _ {R M : Type 0} where
  -- If the outcome is a machine, its pc is `pc`.
  abbrev pub EndsAt : ℕ → Outcome R M (Machine R M) → Type 0
  EndsAt pc (done m) = m.cpu.pc ≡ pc
  EndsAt pc (throws e m) = Unit {0}
  EndsAt pc faults = Unit {0}

module _ {R M : Type 0} (h : Host R M) where
  abbrev pub next_pc : DecodedInst → Machine R M → ℕ
  next_pc di m = u64 (m.cpu.pc + inst_size di)

  exec_move-EndsAt :
      (k : Move) (di : DecodedInst) (m : Machine R M) → EndsAt (next_pc di m) (exec_move h k di m)
  unfolding exec_move
  exec_move-EndsAt Move.nop di m = refl
  exec_move-EndsAt _ di m = refl

  exec_arith-EndsAt :
      (k : Arith) (di : DecodedInst) (m : Machine R M) → EndsAt (next_pc di m) (exec_arith h k di m)
  unfolding exec_arith
  exec_arith-EndsAt Arith.add di m = ground arith
  exec_arith-EndsAt _ di m = ground arith

  exec_logic-EndsAt :
      (k : Logic) (di : DecodedInst) (m : Machine R M) → EndsAt (next_pc di m) (exec_logic h k di m)
  unfolding exec_logic
  exec_logic-EndsAt Logic.shl di m = refl
  exec_logic-EndsAt _ di m = refl

  exec_compare-EndsAt :
      (k : Compare) (di : DecodedInst) (m : Machine R M)
      → EndsAt (next_pc di m) (exec_compare h k di m)
  unfolding exec_compare
  exec_compare-EndsAt Compare.cmpeq di m = refl
  exec_compare-EndsAt _ di m = refl

  exec_float-EndsAt :
      (k : Float) (di : DecodedInst) (m : Machine R M) → EndsAt (next_pc di m) (exec_float h k di m)
  unfolding exec_float
  exec_float-EndsAt Float.fadd di m = refl
  exec_float-EndsAt _ di m = refl

  exec_load-EndsAt :
      (k : Load) (di : DecodedInst) (m : Machine R M) → EndsAt (next_pc di m) (exec_load h k di m)
  unfolding exec_load
  exec_load-EndsAt Load.ld_b di m = ground arith
  exec_load-EndsAt _ di m = ground arith

  exec_store-EndsAt :
      (k : Store) (di : DecodedInst) (m : Machine R M) → EndsAt (next_pc di m) (exec_store h k di m)
  unfolding exec_store
  exec_store-EndsAt Store.st_b di m = ground arith
  exec_store-EndsAt _ di m = ground arith

  exec_stack-EndsAt :
      (k : Stack) (di : DecodedInst) (m : Machine R M) → EndsAt (next_pc di m) (exec_stack h k di m)
  unfolding exec_stack
  exec_stack-EndsAt Stack.lda di m = ground arith
  exec_stack-EndsAt _ di m = ground arith

  -- An access keeps the pc of the machine, which the rest of the code goes on with.
  after_read-EndsAt :
      (r : Result (ℕ × M)) (m : Machine R M) (k : ℕ × Machine R M → Outcome R M (Machine R M))
      → ((v : ℕ) (mem' : M) → EndsAt m.cpu.pc (k (v, record m { mem = mem' })))
      → EndsAt m.cpu.pc (after_read m r >>= k)
  after_read-EndsAt (ok (v, mem')) m k next = next v mem'
  after_read-EndsAt (thrown e) m k next = tt
  after_read-EndsAt undefined m k next = tt

  after_write-EndsAt :
      (r : Result M) (m : Machine R M) (k : Machine R M → Outcome R M (Machine R M))
      → ((mem' : M) → EndsAt m.cpu.pc (k (record m { mem = mem' })))
      → EndsAt m.cpu.pc (after_write m r >>= k)
  after_write-EndsAt (ok mem') m k next = next mem'
  after_write-EndsAt (thrown e) m k next = tt
  after_write-EndsAt undefined m k next = tt

  load_lanes-EndsAt :
      (n i rd : ℕ) (at : ℕ → VecRegs → ℕ) (m : Machine R M)
      → EndsAt m.cpu.pc (load_lanes h n i rd at m)
  unfolding load_lanes
  load_lanes-EndsAt zero i rd at m = refl
  load_lanes-EndsAt (suc n) i rd at m =
      after_read-EndsAt (h.read_dword m.mem (at i (vecs m))) m _
        (λ v mem'. load_lanes-EndsAt n (i + 1) rd at _)

  store_lanes-EndsAt :
      (n i rd : ℕ) (at : ℕ → VecRegs → ℕ) (m : Machine R M)
      → EndsAt m.cpu.pc (store_lanes h n i rd at m)
  unfolding store_lanes
  store_lanes-EndsAt zero i rd at m = refl
  store_lanes-EndsAt (suc n) i rd at m =
      after_write-EndsAt (h.write_dword m.mem (at i (vecs m)) (vecs m rd i)) m _
        (λ mem'. store_lanes-EndsAt n (i + 1) rd at _)

  advance-EndsAt :
      (o : Outcome R M (Machine R M)) (di : DecodedInst) (m : Machine R M)
      → EndsAt m.cpu.pc o
      → EndsAt (next_pc di m) (o >>= λ m1. done (advance di m1))
  advance-EndsAt (done m1) di m e = rw e
  advance-EndsAt (throws x m1) di m e = tt
  advance-EndsAt faults di m e = tt

  exec_vec_memory-EndsAt :
      (k : VecMemory) (di : DecodedInst) (m : Machine R M)
      → EndsAt (next_pc di m) (exec_vec_memory h k di m)
  unfolding exec_vec_memory
  exec_vec_memory-EndsAt VecMemory.vsetvl di m = refl
  exec_vec_memory-EndsAt VecMemory.vld_v di m =
      advance-EndsAt _ di m (load_lanes-EndsAt _ 0 di.rd _ m)
  exec_vec_memory-EndsAt VecMemory.vlds_v di m =
      advance-EndsAt _ di m (load_lanes-EndsAt _ 0 di.rd _ m)
  exec_vec_memory-EndsAt VecMemory.vldx_v di m =
      advance-EndsAt _ di m (load_lanes-EndsAt _ 0 di.rd _ m)
  exec_vec_memory-EndsAt VecMemory.vst_v di m =
      advance-EndsAt _ di m (store_lanes-EndsAt _ 0 di.rd _ m)
  exec_vec_memory-EndsAt VecMemory.vsts_v di m =
      advance-EndsAt _ di m (store_lanes-EndsAt _ 0 di.rd _ m)
  exec_vec_memory-EndsAt VecMemory.vstx_v di m =
      advance-EndsAt _ di m (store_lanes-EndsAt _ 0 di.rd _ m)

  exec_vec-EndsAt :
      (k : Vec) (di : DecodedInst) (m : Machine R M) → EndsAt (next_pc di m) (exec_vec h k di m)
  unfolding exec_vec
  exec_vec-EndsAt Vec.vmerge_vvm di m = refl
  exec_vec-EndsAt _ di m = refl

  exec_control-EndsAt :
      (k : Control) (di : DecodedInst) (m : Machine R M)
      → is_sequential (control k) ≡ true
      → EndsAt (next_pc di m) (exec_control h k di m)
  unfolding exec_control
  exec_control-EndsAt syscall di m e = refl
  exec_control-EndsAt _ di m e = absurd (cc)

  exec_atomic-EndsAt :
      (k : Atomic) (di : DecodedInst) (m : Machine R M)
      → is_sequential (atomic k) ≡ true
      → EndsAt (next_pc di m) (exec_atomic h k di m)
  unfolding exec_atomic
  exec_atomic-EndsAt csrrw di m e = absurd (cc)
  exec_atomic-EndsAt loop_decbr di m e = absurd (cc)
  exec_atomic-EndsAt _ di m e = ground arith

  exec_hint-EndsAt :
      (k : Hint) (di : DecodedInst) (m : Machine R M)
      → is_sequential (hint k) ≡ true
      → EndsAt (next_pc di m) (exec_hint h k di m)
  unfolding exec_hint
  exec_hint-EndsAt ld_d_nz di m e = absurd (cc)
  exec_hint-EndsAt _ di m e = refl

  -- An instruction other than the branches and jumps, CALL, TAILCALL, BREAK, ECALL, TRAPRET, CSRRW,
  -- LOOP.DECBR and LD.D.NZ, if it completes, leaves the pc at the next instruction: on by 8 for an escape
  -- and by 4 otherwise, mod 2^64.
  pub execute_inst-EndsAt :
      (k : HvmMnemonic) (di : DecodedInst) (m : Machine R M)
      → is_sequential k ≡ true
      → EndsAt (next_pc di m) (execute_inst h k di m)
  unfolding execute_inst
  execute_inst-EndsAt (move k) di m e = exec_move-EndsAt k di m
  execute_inst-EndsAt (arithmetic k) di m e = exec_arith-EndsAt k di m
  execute_inst-EndsAt (logic k) di m e = exec_logic-EndsAt k di m
  execute_inst-EndsAt (compare k) di m e = exec_compare-EndsAt k di m
  execute_inst-EndsAt (float k) di m e = exec_float-EndsAt k di m
  execute_inst-EndsAt (jump k) di m e = absurd (cc)
  execute_inst-EndsAt (load k) di m e = exec_load-EndsAt k di m
  execute_inst-EndsAt (store k) di m e = exec_store-EndsAt k di m
  execute_inst-EndsAt (stack k) di m e = exec_stack-EndsAt k di m
  execute_inst-EndsAt (control k) di m e = exec_control-EndsAt k di m e
  execute_inst-EndsAt (atomic k) di m e = exec_atomic-EndsAt k di m e
  execute_inst-EndsAt (hint k) di m e = exec_hint-EndsAt k di m e
  execute_inst-EndsAt (vec_memory k) di m e = exec_vec_memory-EndsAt k di m
  execute_inst-EndsAt (vec k) di m e = exec_vec-EndsAt k di m
