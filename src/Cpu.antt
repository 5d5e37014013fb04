-- ===== src/Cpu.antt =====
-- src/hvm_sim_core/executor.cpp.
pub mod Mnemonic
pub mod State
pub mod Word64
pub mod Scalar
pub mod Flow
pub mod Data
pub mod System
pub mod Vector
pub mod Execute
pub mod Laws
pub mod Safe
pub mod OnMemory
mod Examples
