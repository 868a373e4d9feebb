-- ===== src/ShotCount.antt =====
-- src/transform/shot_count_block: programs whose body is a loop over the shots.
pub mod Loop
pub mod Scan
pub mod Quil
pub mod Insert
pub mod Qir
