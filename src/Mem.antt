-- ===== src/Mem.antt =====
-- src/hvm_sim_mem/memory.cpp and src/include/hvm-sim/mem/memory.hpp.
pub mod Endian
pub mod Flat
pub mod System
mod Examples
