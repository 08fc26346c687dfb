-- ===== src/Aodc.antt =====
-- The controller service (src/dev/aodc).
pub mod AuthModule
pub mod ActiveModule
pub mod UpdateModule
