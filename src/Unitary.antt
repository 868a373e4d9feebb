-- ===== src/Unitary.antt =====
-- src/transform/unitary: programs of one block of intrinsics, without a loop over the shots.
pub mod Scan
pub mod Quil
pub mod Insert
pub mod Qir
