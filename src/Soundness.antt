-- ===== src/Soundness.antt =====
-- The invariant `IsSound` of the core, function by function of the processor, and over whole runs.
mod Operand
mod Operations
mod Dispatch
mod Transfer
mod Block
pub mod Step
pub mod Reachable
