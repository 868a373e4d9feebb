-- ===== src/Rewriting.antt =====
-- What src/transform/shot_count_block/qir.rs and src/transform/unitary/qir.rs repeat line for line.
pub mod Cache
pub mod Launch
pub mod Protocol
pub mod Jobs
pub mod Whole
pub mod Processor
