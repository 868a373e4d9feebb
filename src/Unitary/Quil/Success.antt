-- ===== src/Unitary/Quil/Success.antt =====
-- The transpilation of a module of gate calls (unitary/quil.rs).
