-- ===== src/Cpu/Laws.antt =====
-- Theorems about the executor.
pub mod Sequence
pub mod Signed
pub mod Targets
pub mod Division
pub mod Step
pub mod Lanes
pub mod Reductions
pub mod Jumps
pub mod Frames
pub mod Reservation
