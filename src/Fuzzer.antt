-- ===== src/Fuzzer.antt =====
-- The system call fuzzer, 544final/fuzzer_final/Fuzzy_v_0.5.
pub mod Spec
pub mod Sandbox
pub mod Args
pub mod Calls
pub mod Pool
pub mod Bounds
pub mod Fuzarg
pub mod Supported
pub mod Rows
pub mod Modes
pub mod Batches
pub mod Processes
pub mod Main
pub mod Children
pub mod Lookup
pub mod Recovery
pub mod Starting
pub mod Leaving
mod Tests
mod ProcessTests
