-- ===== src/Util/Hash.antt =====
-- `CAoHash` (src/dev/util/AoHash.h, AoHash.cpp), a module for each hash.
pub mod Crc
pub mod Sha256
mod Examples
