-- ===== src/Lib.antt =====
-- aods is a service that keeps the modules of a host up to date: `aods` runs on the host, `aodc` on
-- the controller between the hosts and a message bus, `install` activates a host. All three stand
-- on the library src/dev/util, whose components are modelled here.
--
-- Base: shared notation, Boolean tests, lists measured by native numbers (Base/Lists), byte
--   buffers and little-endian words (Base/Buffers), maps as ordered entries (Base/Maps), exclusive or and masks (Base/Bits).
-- Util/Encrypt: `CAoEncrypt` (src/dev/util/AoEncrypt.cpp). `SetSkDict`, `SetKey`, `Default`,
--   `Encode` and `Decode` are `set_sk_dict`, `set_key`, `default`, `encode` and `decode`; the two
--   tables of 65536 bytes are functions of the index, and what the memory held before is `junk`.
-- Util/Hash: `CalcCrc8` and `CalcCrc32` of src/dev/util/AoHash.cpp with its table,
--   and SHA-256 (Util/Hash/Sha256), the words being numbers below 2 ^ 32.
-- Util/Helper: the hexadecimal functions, `FindFirstBuf`, `FindLastBuf` and
--   `Toupper` of src/dev/util/AoHelper.cpp.
-- Util/FileControl: `CalcFileCrc32_3` and `CalcFileCrc32Hash` of src/dev/util/AoFileControl.cpp. A
--   file is the list of the pieces that `Read` returns. Util/FileControl/Paths has `ToStandardlPath`, `Split`
--   and `CreateDirs`.
-- Util/MemCache: `CAoMemCache` (src/dev/util/AoMemCache.cpp), the growing buffer. The block is the
--   list of its bytes, the allocator a parameter, and lengths wrap at 2 ^ 32.
-- Util/CommuProtocol: `CAoCommuProtocol` (src/dev/util/AoCommuProtocol.cpp), which keeps two
--   buffers and a cipher. `AppendDecodeData` puts what a socket received into the one buffer,
--   `GetContent` takes a message from its front and `MoveNext` passes it; `EncodeMsg` lays a message
--   out in the other. An `int` of the header is its 32-bit pattern, `rand` a sequence, and a division
--   by zero or an access outside the block is the result `fault`.
-- Util/DbaCommuProtocol: `CDBACommuProtocol` (src/dev/util/DBACommuProtocol.cpp), the other protocol of
--   a channel, with the buffers of the first: `dba_get_content`, `dba_move_next`, `dba_encode_msg`.
-- Util/SockChannel: `CAoSockChannel::ReadData` (src/dev/util/AoSockChannel.cpp), the client of the
--   protocol: what `Recv` returned is appended, and every message that is whole is delivered. The
--   deliveries are the list of contents handed to `OnRecvedData`.
-- Util/ModuleData: `CModuleData` (src/dev/util/ModuleData.cpp), the buffer of a queue, which does not grow.
-- Util/MsgTarget: `FindMsgFunByMsgCode` of src/dev/util/MsgTarget.cpp, the handler of a message by the
--   tables of its class and of those above it.
-- Util/Module: `CModule` (src/dev/util/Module.cpp), with messages as bytes behind heads of 32 bytes
--   (Util/Module/Message). `PostMsg` is `post_msg`; the exchange of the buffers in `Run` and its loop
--   are `swap` and `run_loop`. `ProcTimer` is `proc_timer` (Util/Module/Timers), whose result holds the
--   timers for which it calls `PostMsg`; Util/Module/Timers/Expected reckons when they fire in natural
--   numbers. The handlers, `DoMsg` and `SetTimer` are in Util/Module/Handlers. A pointer is
--   a number of 64 bits that stands for an object.
-- Util/ModuleDispatcher: `CModuleDispatcher` (src/dev/util/ModuleDispatcher.cpp), with the modules as a store
--   from pointers to objects.
-- Util/OutMsg, Util/Json: a message that a module sends out, and the functions of cJSON that the services
--   use, as a parameter.
-- Aodc/AuthModule: `CAodsAuthModule` of the controller (src/dev/aodc/AodsAuthModule.cpp). A handler takes
--   the module to the module it leaves and the messages it sends out; a read past a message and the
--   use of NULL are `none`. Aodc/AuthModule/Changes names what a message may change, and
--   Aodc/AuthModule/Linked shows what holds along all messages.
-- Aodc/ActiveModule: `CAodsActiveModule` of the controller (src/dev/aodc/AodsActiveModule.cpp), in the same
--   way; the answers of the bus are in Aodc/ActiveModule/Acks, and Aodc/ActiveModule/Activation follows
--   a code to the authentication with it.
-- Aodc/UpdateModule: `CUpdateModule` of the controller (src/dev/aodc/UpdateModule.cpp), in the same way.
-- Util/AoChannel: `CAoChannel` (src/dev/util/AoChannel.cpp), which puts its name in front of what it sends to
--   the modules; the blocks of its buffer are named, since two pointers are kept into it.
-- Util/CommuModule: `CCommuModule` (src/dev/util/CommuModule.cpp), the channels by name; Util/CommuModule/Create
--   makes them from the configuration, Util/CommuModule/Groups is the room of the groups. What is
--   called of a channel is an event.
-- Aods/AuthModule: `CAodsAuthModule` of the host (src/dev/aods/AodsAuthModule.cpp), which reads the file
--   that the installer has saved and asks to be let in. Aods/AuthModule/Layout has the parts of its
--   messages.
-- Aods/DownloadThread: `CDownloadThread` (src/dev/aods/DownloadThread.cpp): an item of its list from the
--   three tries to the message with the result; the network and the file system answer each try.
--   Aods/DownloadThread/Pieces is about the pieces in which a file is read and decoded.
-- Util/Http: `CAoHttp` (src/dev/util/AoHttp.cpp), by which an update is fetched: the parts of an address and
--   the reading of a response; Util/Http/Request has the request and `HttpRun`.
-- Aods/UpdateModuleMgr: `CUpdateModuleMgr` (src/dev/aods/UpdateModuleMgr.cpp), the updates that the
--   controller asks for; its configuration file is in Aods/UpdateModuleMgr/Config and the unpacking of
--   a download in Aods/UpdateModuleMgr/Unpack. The calls of the system are events in their order.
-- Install/ActiveModule: `CAodsActiveModule` of the installer (src/dev/install/AodsActiveModule.cpp), which
--   asks for a code and saves it.
--
-- The loop of `ReadData` runs on fuel, and one round more than there are messages is
-- enough; on a malformed header the code's loop need not end, so no bound fits all inputs. The loop
-- of `Run` over a queue runs on fuel too, and more than there are messages is enough. All other
-- loops are structural recursions on what they walk over or on the number of rounds left, so
-- they need none.
--
-- The `memcpy` of `CAoMemCache::Remove` between overlapping parts of a block is taken to copy as
-- `memmove` does. A reading tells a loop that has used up its fuel from a fault.
--
-- The reads of a file run on its length as fuel, and the printing of a number on one round more than
-- the number, which is enough for each.
--
-- Not modelled: vendored libraries (cJSON, zlib, librdkafka), sockets, threads, locks and files,
-- which are calls of the system, the consumer of the bus in `aodc`, the log, and the code for Windows
-- where it differs from that for Linux.
pub mod Aods
pub mod Install
pub mod Base
pub mod Util
pub mod Aodc
