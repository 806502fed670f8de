-- ===== src/LoadStore.antt =====
-- arm_simulator-1.4/arm_load_store.c: the addressing modes, and the loads and stores.
pub mod Address
pub mod Single
pub mod Byte
pub mod Multiple
pub mod Count
pub mod Range
pub mod Store
pub mod Load
