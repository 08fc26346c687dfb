-- ===== src/Util/FileControl.antt =====
-- `CAoFileControl` (src/dev/util/AoFileControl.h, AoFileControl.cpp): the checksums of a file and
-- the splitting of paths. What only calls the operating system is not modelled.
pub mod Crc3
pub mod Crc3Laws
pub mod Paths
pub mod PathLaws
mod Examples
