-- ===== src/Lib.antt =====
-- hvmsys, the HVM system simulator and its C toolchain, as functions on explicit states.
--
-- The simulator executes one instruction at a time: `step` of src/hvm_sim_core/executor.cpp decodes at
-- the pc, runs `execute_inst` on the processor state and the memory, turns exceptions into traps and
-- lets the timer tick. The memory is an interface with two implementations in
-- src/hvm_sim_mem/memory.cpp. The assembler of src/tools/hvmc makes the bytes that the simulator runs.
--
-- Base       numbers, Boolean tests, lists, bit operations, integers that all modules use.
-- Except     C++ exceptions and undefined behaviour as values.
-- Mem        src/hvm_sim_mem/memory.cpp and include/hvm-sim/mem/memory.hpp. Mem.Endian: the accesses to
--            consecutive bytes of a vector; Mem.Flat: FlatMemory; Mem.System: MemorySystem, whose
--            regions are searched in the order in which they were added, with the devices' state as a
--            parameter that the callbacks change. An index outside a vector is `undefined`.
-- Cpu        src/hvm_sim_core/executor.cpp. Cpu.State: HvmCpuState, DecodedInst and the Host, which has
--            what the missing headers of include/hvm-sim/core declare: register and CSR access, traps,
--            decode_inst, the memory interface, double arithmetic on bit patterns, kVecLanes. The cases
--            of execute_inst are in Cpu.Scalar (moves, arithmetic, comparisons), Cpu.Flow (jumps, calls),
--            Cpu.Data (loads, stores, stack), Cpu.System (reservations, loops, hints), Cpu.Vector.
--            Cpu.Safe: the helpers safe_read and safe_write. Cpu.Execute: execute_inst, tick_timer, step.
--            Cpu.OnMemory joins the executor with MemorySystem. Cpu.Laws has the proofs.
-- Hvmc       src/tools/hvmc: Hvmc.Types and Hvmc.Opcodes for include/hvmc/types.h, Hvmc.Encoder for
--            src/encoder.cpp. Hvmc.Elf for src/elf.cpp: Hvmc.Elf.Object has the object files of
--            include/hvmc/types.h, Hvmc.Elf.Symbols and Hvmc.Elf.Sections what stands in the tables,
--            Hvmc.Elf.Image the addresses and headers, Hvmc.Elf.Write the whole file.
--            Hvmc.Token and Hvmc.Lexer: the tokens and the class Lexer of src/lexer.cpp, over the bytes
--            that are left. Hvmc.Ast: ASTNode and CType, a null pointer being a constructor. Hvmc.Parser:
--            the class Parser of src/parser.cpp, a method for each of its methods, in a monad on the lexer
--            (Hvmc.Parser.Monad). Hvmc.Codegen: the class CodeGen of src/codegen.cpp, from a tree and the
--            label counter to bytes. Hvmc.AsmLexer: the tokens and the register names of
--            src/assembler.cpp. Hvmc.Assembler: assemble with its directives, operands and passes.
--            Hvmc.Parser.Runs and Hvmc.Assembler.Runs have the rules by which a step is seen to end.
--            Hvmc.Preprocessor: src/preprocessor.cpp, a text and its state to a text, with the files and
--            the iteration of an unordered_map as the functions of a Platform. Hvmc.Driver: main of
--            src/main.cpp, from the arguments through these stages to the status and the file that is
--            written.
--
-- A word of w bits is a native number below 2 ^ w, with `% 2 ^ w` where the code wraps; a signed word
-- is its pattern. A result that is no defined C++ behaviour (a vector index out of range; an overflow of
-- a signed division, of a negation or of the target of a jump) is a value of its own. A vector of bytes that
-- would have 2^63 or more throws a length_error; the memory of the process does not run out. The state
-- that a throwing instruction leaves behind is part of its outcome.
-- The loop of encode_uleb128 has four rounds and a last byte, which hold 35 bits, and a u32
-- needs 32. The lane loops count their rounds down. The loops of the lexer have the bytes that are left as
-- fuel, of which each round reads one. The loops and the nested calls of the parser have one more than
-- the bytes of the source, and each round and each level reads a token. The passes of assemble have as
-- much. The fuel of the preprocessor is the depth of the includes, one more than the number of names that
-- the files include.
--
-- Hypotheses on code outside the repository: a register file reads r0 as zero and keeps the other
-- registers (IsRegisterFile); a memory gives back the words that it took, where PUSH, ENTER and SC.D are
-- stated; the files include finitely many names (IsClosed). They are inhabited by the examples, which run
-- the executor on a MemorySystem and the preprocessor on a file.
--
-- Not modelled: decode_inst and the processor headers, which are not in the repository; the allocation of
-- tree nodes, the texts of exceptions and the symbol tables of the parser, which nothing reads; what
-- hvmc prints; the tools hvmsys, hvmimg and hvmdisk, which read options and files; the empty stubs; the
-- tests.
pub mod Base
pub mod Except
pub mod Mem
pub mod Cpu
pub mod Hvmc
