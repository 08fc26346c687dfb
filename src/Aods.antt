-- ===== src/Aods.antt =====
-- The service `aods` (src/dev/aods), which runs on each host.
pub mod AuthModule
pub mod DownloadThread
pub mod UpdateModuleMgr
