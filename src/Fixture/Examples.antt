-- ===== src/Fixture/Examples.antt =====
-- A fixture of two bytes (crates/hex-fixture/src/lib.rs).
