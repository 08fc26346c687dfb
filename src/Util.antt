-- ===== src/Util.antt =====
-- The shared library src/dev/util, a module for each class.
pub mod MsgTarget
pub mod ModuleData
pub mod Module
pub mod DbaCommuProtocol
pub mod Helper
pub mod SockChannel
pub mod Encrypt
pub mod Hash
pub mod CommuProtocol
pub mod MemCache
pub mod FileControl
pub mod OutMsg
pub mod Json
pub mod Http
pub mod ModuleDispatcher
pub mod AoChannel
pub mod CommuModule
