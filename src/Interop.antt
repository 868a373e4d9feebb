-- ===== src/Interop.antt =====
-- src/interop: what the program reads off LLVM instructions and functions.
pub mod Arguments
pub mod Entrypoint
pub mod MainEntrypoint
pub mod Call
pub mod Branches
pub mod Collected
pub mod Removal
