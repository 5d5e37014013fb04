-- ===== src/Cpu/Examples.antt =====
-- The theorems on the executor at concrete states.
use hvmsys.Base.{
  ◌&&◌, ℕ, ◌+◌, ◌-◌, ◌%◌, ◌^◌, ◌≡◌, refl, arith, true, false, if◌then◌else◌, ◌==◌, ltb, leb, none,
}
use hvmsys.Except.{Result, ok, undefined}
use hvmsys.Mem.System.{
  MemorySystem, empty, add_ram, read_dword, write_dword, find_region, update_region, contains,
  bounds_check,
}
use hvmsys.Mem.Endian.{load_dword, store_dword, at, put}
use hvmsys.Cpu.Mnemonic
use hvmsys.Cpu.Mnemonic.{
  HvmMnemonic, move, nop, load, store, ld_w, st_w, Vec, vadd_vv, vredadd_vs, arithmetic, add, div,
  rem, jalr, blt, push, pop,
}
use hvmsys.Cpu.State.{
  supervisor, DecodedInst, Machine, Host, IsRegisterFile, done, faults, reg, set_pc, trap, ◌>>=◌,
}
use hvmsys.Cpu.OnMemory.{on_memory, step-load_unmapped}
use hvmsys.Cpu.Word64.{all_ones, signed_lt, signed_le}
use hvmsys.Cpu.Flow.{exec_jump}
use hvmsys.Cpu.System.{exec_atomic}
use hvmsys.Cpu.Data.{exec_stack}
use hvmsys.Cpu.Vector.{exec_vec, reduce_lanes, reduce_op}
use hvmsys.Cpu.Execute.{execute_inst, step}
use hvmsys.Cpu.Laws.Step.{fetched}
use hvmsys.Cpu.Laws.Signed.{signed}
use hvmsys.Cpu.Laws.Targets.{pattern_of, goal, in_reach}
use hvmsys.Cpu.Laws.Division.{DivRem, exec_arith-DivRem}
use hvmsys.Cpu.Scalar.{exec_arith}
use hvmsys.Cpu.Laws.Sequence.{EndsAt, next_pc, execute_inst-EndsAt}
use hvmsys.Cpu.Laws.Lanes.{IsLaneByLane, exec_vec-IsLaneByLane}
use hvmsys.Cpu.Laws.Reductions.{fold_lanes, reduce_lanes-folds}
use hvmsys.Cpu.Laws.Jumps.{compares, exec_jump-compares}
use hvmsys.Cpu.Laws.Frames.{Restores, push-pop, enter-leave}
use hvmsys.Cpu.Laws.Reservation.{Ends, reserve-store-store}

abbrev Regs : Type 0
Regs = ℕ → ℕ

abbrev Memory : Type 0
Memory = MemorySystem (Unit {0})

abbrev instruction : HvmMnemonic → ℕ → ℕ → ℕ → ℕ → DecodedInst
instruction k d s t n = record {
  mnemonic = k;
  rd = d;
  rs1 = s;
  rs2 = t;
  imm = n;
  is_escape = false;
  valid = true;
}

-- Four vector lanes; every address decodes to `di`; the floating-point operations are placeholders that
-- no example uses.
abbrev bare_host : DecodedInst → Host Regs Memory
bare_host di = record {
  read_reg = λ rs r. if r == 0 then 0 else rs r % 2 ^ 64;
  write_reg = λ rs r v. if r == 0 then rs else λ q. if q == r then v else rs q;
  read_csr = λ cpu r. 0;
  write_csr = λ cpu r v. cpu;
  signal_trap = λ cpu cause v. record cpu { sepc = v; trap_pending = true };
  decode_inst = λ cpu mem. ok (di, mem);
  read_byte = λ m a. undefined;
  read_half = λ m a. undefined;
  read_word = λ m a. undefined;
  read_dword = λ m a. undefined;
  write_byte = λ m a v. undefined;
  write_half = λ m a v. undefined;
  write_word = λ m a v. undefined;
  write_dword = λ m a v. undefined;
  float_eq = λ a b. a == b;
  float_lt = λ a b. ltb a b;
  float_le = λ a b. leb a b;
  float_add = λ a b. a;
  float_sub = λ a b. a;
  float_mul = λ a b. a;
  float_div = λ a b. a;
  vec_lanes = 4;
}

abbrev host : DecodedInst → Host Regs Memory
host di = on_memory (bare_host di)

host-IsRegisterFile : (di : DecodedInst) → IsRegisterFile (host di)
host-IsRegisterFile di = record {
  zero_reads = λ rs. refl;
  zero_writes = λ rs v. refl;
  same = λ rs r v low high fits. ground arith;
  apart = λ rs r q v ne. ground arith;
  word = λ rs r. ground arith;
}

-- r31 is 0x120, every other register holds 5.
abbrev some_regs : Regs
some_regs r = if r == 31 then 0x120 else 5

-- 0x40 bytes of RAM at 0x100.
abbrev some_memory : Memory
some_memory = add_ram (empty tt) 0x100 0x40

abbrev start : Machine Regs Memory
start = record {
  cpu = record {
    regs = some_regs;
    pc = 0x1000;
    stime = 0;
    stimecmp = 100;
    sstatus = 0;
    sepc = 0;
    privilege = supervisor;
    reservation_addr = 0;
    reservation_valid = false;
    loop_count = 0;
    loop_backedge = 0;
    vl = 0;
    vtype = 0;
    vstate = 0;
    vec_regs = λ r i. r + i;
    trap_pending = false;
  };
  mem = some_memory;
}

lt_example : (signed_lt all_ones 1 ≡ true) × (signed_le all_ones 1 ≡ true)
unfolding signed_lt signed_le
lt_example = (refl, refl)

abbrev div_inst : DecodedInst
div_inst = instruction (arithmetic div) 3 31 2 0

-- 0x120 by 5.
exec_arith-DivRem_example :
    DivRem
      (host div_inst)
      div_inst
      start
      (reg (host div_inst) start 31)
      (reg (host div_inst) start 2)
      (exec_arith (host div_inst) div div_inst start)
      (exec_arith (host div_inst) rem div_inst start)
exec_arith-DivRem_example =
    exec_arith-DivRem (host div_inst) div_inst start (host-IsRegisterFile div_inst)

abbrev add_inst : DecodedInst
add_inst = instruction (arithmetic add) 3 1 2 0

execute_inst-EndsAt_example :
    EndsAt
      (next_pc (host add_inst) add_inst start)
      (execute_inst (host add_inst) (arithmetic add) add_inst start)
execute_inst-EndsAt_example =
    execute_inst-EndsAt (host add_inst) (arithmetic add) add_inst start refl

-- v1 = v1 + v2, in place.
abbrev vadd_inst : DecodedInst
vadd_inst = instruction (HvmMnemonic.vec vadd_vv) 1 1 2 0

exec_vec-IsLaneByLane_example :
    IsLaneByLane
      (host vadd_inst)
      vadd_vv
      vadd_inst
      start
      (exec_vec (host vadd_inst) vadd_vv vadd_inst start)
exec_vec-IsLaneByLane_example = exec_vec-IsLaneByLane (host vadd_inst) vadd_vv vadd_inst start refl

abbrev blt_inst : DecodedInst
blt_inst = instruction (HvmMnemonic.jump blt) 0 0 1 (2 ^ 64 - 2)

exec_jump-compares_example : exec_jump (host blt_inst) blt blt_inst start ≡ (
    if in_reach 0x1000 (2 ^ 64 - 2)
    then done (
        set_pc start (
          if compares blt
            (signed (reg (host blt_inst) start 0))
            (signed (reg (host blt_inst) start 1))
          then pattern_of (goal 0x1000 (2 ^ 64 - 2))
          else (0x1000 + 4) % 2 ^ 64))
    else faults)
exec_jump-compares_example =
    exec_jump-compares (host blt_inst) blt blt_inst start (host-IsRegisterFile blt_inst)
      (omega arith) (omega arith) refl

-- The branch goes back by two instructions, and the same from the least address overflows.
goal_test :
    (in_reach 0x1000 (2 ^ 64 - 2) ≡ true)
    × (pattern_of (goal 0x1000 (2 ^ 64 - 2)) ≡ 0xff8)
    × (in_reach (2 ^ 63) (2 ^ 64 - 2) ≡ false)
    × (in_reach 0 (2 ^ 61) ≡ false)
goal_test = (refl, refl, refl, refl)

abbrev jalr_inst : DecodedInst
jalr_inst = instruction (HvmMnemonic.jump jalr) 5 5 0 8

abbrev stored : Result Memory → Memory
stored (ok m) = m
stored _ = some_memory

abbrev push_inst : DecodedInst
push_inst = instruction (HvmMnemonic.stack push) 7 0 0 0

-- The word below the stack pointer.
abbrev pushed : Memory
pushed = stored (write_dword some_memory 0x118 5)

pushed_writes : write_dword some_memory 0x118 5 ≡ ok pushed
unfolding write_dword bounds_check find_region contains update_region store_dword put add_ram empty
pushed_writes = refl

pushed_reads : (host push_inst).read_dword pushed 0x118 ≡ ok (5, pushed)
unfolding write_dword bounds_check find_region contains update_region store_dword put add_ram empty
    read_dword load_dword at
pushed_reads = refl

push-pop_example :
    Restores
      (host push_inst)
      start
      pushed
      (λ q. ⊥)
      (exec_stack (host push_inst) push push_inst start
        >>= exec_stack (host push_inst) pop push_inst)
push-pop_example =
    push-pop (host push_inst) push_inst start pushed pushed (host-IsRegisterFile push_inst)
      (omega arith) (omega arith) pushed_writes pushed_reads

abbrev enter_inst : DecodedInst
enter_inst = instruction (HvmMnemonic.stack Mnemonic.enter) 0 0 0 64

abbrev linked : Memory
linked = stored (write_dword some_memory 0x110 5)

abbrev framed : Memory
framed = stored (write_dword linked 0x118 5)

frame_writes :
    (write_dword some_memory 0x110 5 ≡ ok linked) × (write_dword linked 0x118 5 ≡ ok framed)
unfolding write_dword bounds_check find_region contains update_region store_dword put add_ram empty
frame_writes = (refl, refl)

frame_reads :
    ((host enter_inst).read_dword framed 0x110 ≡ ok (5, framed))
    × ((host enter_inst).read_dword framed 0x118 ≡ ok (5, framed))
unfolding write_dword bounds_check find_region contains update_region store_dword put add_ram empty
    read_dword load_dword at
frame_reads = (refl, refl)

enter-leave_example :
    Restores
      (host enter_inst)
      start
      framed
      (λ q. ⊥)
      (exec_stack (host enter_inst) Mnemonic.enter enter_inst start
        >>= exec_stack (host enter_inst) Mnemonic.leave enter_inst)
enter-leave_example =
    enter-leave (host enter_inst) enter_inst start linked framed framed framed
      (host-IsRegisterFile enter_inst) frame_writes.0 frame_writes.1 frame_reads.0 frame_reads.1

abbrev lr_inst : DecodedInst
lr_inst = instruction (HvmMnemonic.atomic Mnemonic.lr_d) 8 31 0 0

abbrev sc_inst : DecodedInst
sc_inst = instruction (HvmMnemonic.atomic Mnemonic.sc_d) 9 31 10 0

abbrev swapped : Memory
swapped = stored (write_dword some_memory 0x120 5)

swapped_runs :
    ((host lr_inst).read_dword some_memory 0x120 ≡ ok (0, some_memory))
    × (write_dword some_memory 0x120 5 ≡ ok swapped)
unfolding write_dword bounds_check find_region contains update_region store_dword put add_ram empty
    read_dword load_dword at
swapped_runs = (refl, refl)

reserve-store-store_example : Ends (host lr_inst) swapped 9 1 (
    exec_atomic (host lr_inst) Mnemonic.lr_d lr_inst start
    >>= exec_atomic (host lr_inst) Mnemonic.sc_d sc_inst
    >>= exec_atomic (host lr_inst) Mnemonic.sc_d sc_inst)
reserve-store-store_example =
    reserve-store-store (host lr_inst) lr_inst sc_inst sc_inst start 0 some_memory swapped
      (host-IsRegisterFile lr_inst) (omega arith) (omega arith) refl (omega arith) (omega arith)
      swapped_runs.0 swapped_runs.1

-- r1 + 8 is 13, outside the RAM.
abbrev load_inst : DecodedInst
load_inst = instruction (load ld_w) 2 1 0 8

nothing_at_13 : find_region some_memory.regions 13 ≡ none
unfolding find_region contains add_ram empty
nothing_at_13 = refl

step-load_unmapped_example :
    step (host load_inst) start
    ≡ done (true, trap (host load_inst) (fetched (bare_host load_inst) start some_memory) 2 0x1000)
step-load_unmapped_example =
    step-load_unmapped (bare_host load_inst) ld_w load_inst start some_memory (λ e. absurd cc) refl
      refl refl nothing_at_13

-- v1 from v2's first lane and all lanes of v3.
abbrev sum_inst : DecodedInst
sum_inst = instruction (HvmMnemonic.vec vredadd_vs) 1 3 2 0

reduce_lanes-folds_example :
    reduce_lanes (host sum_inst) vredadd_vs sum_inst 4 start.cpu.vec_regs 1 0 ≡ (
      if (1 == 1) && ltb 0 4
      then (if 0 == 0
          then fold_lanes
              (reduce_op (host sum_inst) vredadd_vs)
              4
              0
              (start.cpu.vec_regs 2 0)
              (start.cpu.vec_regs 3)
          else 0)
      else start.cpu.vec_regs 1 0)
reduce_lanes-folds_example =
    reduce_lanes-folds (host sum_inst) vredadd_vs sum_inst 4 start.cpu.vec_regs 1 0 (omega arith)
      (omega arith)
