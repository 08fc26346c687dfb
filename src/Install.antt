-- ===== src/Install.antt =====
-- The installer (src/dev/install), which activates a host.
pub mod ActiveModule
