-- ===== src/Types.antt =====
-- src/types/: the data types that the subsystems share, one module for each file of the source.
pub mod Memory
pub mod Request
pub mod Sequences
pub mod Execution
