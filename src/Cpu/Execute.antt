-- ===== src/Cpu/Execute.antt =====
-- execute_inst, tick_timer and step.
use hvmsys.Base.{ℕ, bit_and, Bool, true, ◌&&◌, if◌then◌else◌, ◌==◌, leb}
use hvmsys.Base.Words.{add64}
use hvmsys.Except.{
  Exception, hvm, out_of_range, runtime_error, length_error, other, ExceptionType, Result, ok,
  thrown, undefined,
}
use hvmsys.Except.{
  invalid_instruction, memory_access_violation, division_by_zero, breakpoint, system_call,
  other_type,
}
use hvmsys.Cpu.Mnemonic.{
  HvmMnemonic, move, arithmetic, logic, compare, float, jump, load, store, stack, control, atomic,
  hint, vec_memory, vec,
}
use hvmsys.Cpu.State.{DecodedInst, Machine, Host, Outcome, done, throws, faults, trap}
use hvmsys.Cpu.Scalar.{exec_move, exec_arith, exec_logic, exec_compare, exec_float}
use hvmsys.Cpu.Flow.{exec_jump, exec_control}
use hvmsys.Cpu.Data.{exec_load, exec_store, exec_stack}
use hvmsys.Cpu.System.{exec_atomic, exec_hint}
use hvmsys.Cpu.Vector.{exec_vec_memory, exec_vec}

-- The cause that the handler of an HvmException signals.
unfoldable pub cause_of : ExceptionType → ℕ
cause_of invalid_instruction = 2
cause_of memory_access_violation = 5
cause_of division_by_zero = 8
cause_of breakpoint = 1
cause_of system_call = 8
cause_of other_type = 15

module _ {R M : Type 0} (h : Host R M) where
  unfoldable pub execute_inst : HvmMnemonic → DecodedInst → Machine R M → Outcome R M (Machine R M)
  execute_inst (move k) = exec_move h k
  execute_inst (arithmetic k) = exec_arith h k
  execute_inst (logic k) = exec_logic h k
  execute_inst (compare k) = exec_compare h k
  execute_inst (float k) = exec_float h k
  execute_inst (jump k) = exec_jump h k
  execute_inst (load k) = exec_load h k
  execute_inst (store k) = exec_store h k
  execute_inst (stack k) = exec_stack h k
  execute_inst (control k) = exec_control h k
  execute_inst (atomic k) = exec_atomic h k
  execute_inst (hint k) = exec_hint h k
  execute_inst (vec_memory k) = exec_vec_memory h k
  execute_inst (vec k) = exec_vec h k

  unfoldable pub tick_timer : Machine R M → Machine R M
  tick_timer m =
      let ticked = record m { cpu = record m.cpu { stime = add64 m.cpu.stime 1 } } in
      if leb ticked.cpu.stimecmp ticked.cpu.stime && (bit_and ticked.cpu.sstatus 1 == 1)
      then trap h ticked 0x8000_0000_0000_0000 0
      else ticked

  -- The handlers of `step`. An HvmException is caught as such, any other std::exception as an illegal
  -- instruction at the pc of the state as it was left.
  unfoldable pub handle : Exception → Machine R M → Machine R M
  unfolding cause_of
  handle (hvm t pc) m = trap h m (cause_of t) pc
  handle out_of_range m = trap h m 2 m.cpu.pc
  handle runtime_error m = trap h m 2 m.cpu.pc
  handle length_error m = trap h m 2 m.cpu.pc
  handle other m = trap h m 2 m.cpu.pc

  -- What follows the call of execute_inst.
  unfoldable pub finish : Outcome R M (Machine R M) → Outcome R M (Bool × Machine R M)
  unfolding tick_timer handle
  finish (done m) = let m' = tick_timer m in done (m'.cpu.trap_pending, m')
  finish (throws e m) = done (true, handle e m)
  finish faults = faults

  -- decode_inst stands outside the try block, so what it throws leaves `step`.
  unfoldable pub run_decoded :
      Machine R M → Result (DecodedInst × M) → Outcome R M (Bool × Machine R M)
  unfolding execute_inst finish
  run_decoded m (thrown e) = throws e m
  run_decoded m undefined = faults
  run_decoded m (ok (di, mem')) =
      let fetched : Machine R M = record m { mem = mem' } in
      if di.valid
      then finish (execute_inst di.mnemonic di fetched)
      else done (true, trap h fetched 9 fetched.cpu.pc)

  unfoldable pub step : Machine R M → Outcome R M (Bool × Machine R M)
  unfolding run_decoded
  step m = run_decoded m (h.decode_inst m.cpu m.mem)
