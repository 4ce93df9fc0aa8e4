-- ===== src/Examples.antt =====
-- The programs under examples.
pub mod DeviceLoop
