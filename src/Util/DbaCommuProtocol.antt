-- ===== src/Util/DbaCommuProtocol.antt =====
-- `CDBACommuProtocol` (src/dev/util/DBACommuProtocol.cpp): messages that start with MSG_HEAD
-- (src/dev/util/AoDef.h) and stand on the stream as they are. It is a `CAoCommuProtocol` with
-- `GetContent`, `MoveNext` and `EncodeMsg` of its own.
pub mod Laws
mod Examples
use mathlib.Core.Option
use aods.Base.{
  Bytes, Option, and_then, if◌then◌else◌, length, ltb, map, none, read32, some, take, u32, ℕ, ◌+◌,
}
use aods.Util.CommuProtocol.{CommuProtocol, Content, content, fault, need_more}
use aods.Util.MemCache.{append_buf, block_of, remove, reset}

abbrev pub msg_head_size : ℕ
msg_head_size = 13

-- `unMsgCode` and `unLen`; the rest of the head is not read.
pub record MsgHead : Type 0 where
  pub msg_code : ℕ
  pub len : ℕ

pub read_msg_head : Bytes → Option MsgHead
read_msg_head s = and_then (read32 s) λ (msg_code, s1).
    and_then (read32 s1) λ (len, s2). some (record { msg_code = msg_code; len = len })

-- `unLen + EN_MSG_HEAD_SIZE`, an `unsigned int`.
abbrev pub whole_len : MsgHead → ℕ
whole_len h = u32 (h.len + msg_head_size)

abbrev pub whole_content : CommuProtocol → Option MsgHead → CommuProtocol × Content
whole_content p none = (p, fault)
whole_content p (some h) =
    if ltb p.decode_amc.cache_off (whole_len h)
    then (p, need_more)
    else (p, content (take (whole_len h) (block_of p.decode_amc.cache)))

unfoldable pub dba_get_content : CommuProtocol → CommuProtocol × Content
dba_get_content p =
    if ltb p.decode_amc.cache_off msg_head_size
    then (p, need_more)
    else whole_content p (read_msg_head (block_of p.decode_amc.cache))

abbrev pub move_whole : CommuProtocol → Option MsgHead → CommuProtocol
move_whole p none = p
move_whole p (some h) = record p { decode_amc = remove 0 (whole_len h) p.decode_amc }

unfoldable pub dba_move_next : CommuProtocol → CommuProtocol
dba_move_next p = move_whole p (read_msg_head (block_of p.decode_amc.cache))

-- `EncodeMsg`: the buffer as it is sent, up to `unMsgLen`; `none` for NULL.
unfoldable pub dba_encode_msg :
    (ℕ → Option Bytes) → Bytes → CommuProtocol → CommuProtocol × Option Bytes
dba_encode_msg malloc s p =
    let (amc, done) = append_buf malloc s (reset p.encode_amc) in
    (record p { encode_amc = amc }, Option.map (take (length s)) amc.cache)
