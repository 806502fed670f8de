-- ===== src/DataProcessing.antt =====
-- arm_simulator-1.4/arm_data_processing.c: the sixteen operations and their dispatch.
pub mod Flags
pub mod UpdateFlags
pub mod Operations
pub mod Dispatch
pub mod Alu
pub mod Compare
pub mod Signed
