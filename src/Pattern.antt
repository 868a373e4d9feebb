-- ===== src/Pattern.antt =====
-- src/transform/shot_count_block/pattern.rs and src/transform/unitary/pattern.rs: what one call
-- instruction adds to the state of a scan. The two files repeat these functions word for word over
-- their two contexts; here they stand once, over the fields that the contexts share.
pub mod Context
pub mod Gates
pub mod Record
pub mod Quantum
pub mod Assemble
pub mod Readout
pub mod Bounds
pub mod Progress
pub mod Growth
