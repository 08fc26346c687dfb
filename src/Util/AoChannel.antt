-- ===== src/Util/AoChannel.antt =====
-- `CAoChannel` (src/dev/util/AoChannel.h, AoChannel.cpp): what a channel sends to the modules is its
-- name and, behind it, its data. The blocks of the buffer are named by numbers: `offset_block` is the
-- one that `m_pucOffsetBuf` points into. A write to a block that is not the buffer's any more, or past
-- its end, is the result `none`; `malloc n` is what the allocator returns for `n` bytes, and `moves`
-- is whether the block that `REALLOC` returns is another one.
pub mod Laws
mod Examples
use aods.Base.{
  Bool, Bytes, List, Option, [], and_then, c_str, if◌then◌else◌, length, ltb, none, not, some, take,
  u32, ℕ, ◌+◌, ◌==◌, ◌||◌, ◌∷◌,
}
use aods.Util.MemCache.{block_of, overwrite, realloc}
use aods.Util.OutMsg.{OutMsg, module_broadcast}

abbrev pub channel_recv_data : ℕ
channel_recv_data = 23

abbrev pub channel_freed_code : ℕ
channel_freed_code = 22

-- `m_pucTempBuf` with the name of its block, that of the block of `m_pucOffsetBuf`, and the lengths.
pub record AoChannel : Type 0 where
  pub temp_buf : Option Bytes
  pub temp_block : ℕ
  pub offset_block : ℕ
  pub fixed_off_len : ℕ
  pub temp_buf_len : ℕ

-- The constructor.
unfoldable pub new_channel : (ℕ → Option Bytes) → Bytes → Option AoChannel
new_channel malloc name =
    let off = length name + 1 in
    let len = if ltb off 256 then 10240 else off + 10240 in
    and_then (malloc len) λ block. some (record {
      temp_buf = some (overwrite 0 (c_str name) block);
      temp_block = 0;
      offset_block = 0;
      fixed_off_len = off;
      temp_buf_len = len;
    })

-- The growth of the buffer; the other pointer and the length stay as they are.
unfoldable pub grown : (ℕ → Option Bytes) → Bool → ℕ → AoChannel → AoChannel
grown malloc moves len c =
    if ltb c.temp_buf_len (u32 (c.fixed_off_len + len))
    then record c {
      temp_buf = realloc malloc c.temp_buf (u32 (c.fixed_off_len + len + 1024));
      temp_block = if moves then c.temp_block + 1 else c.temp_block;
    }
    else c

-- The copy behind the name and the message.
abbrev pub sent_behind : ℕ → ℕ → Bytes → AoChannel → Option Bytes → Option (AoChannel × List OutMsg)
sent_behind rmi code s c none = some (c, [])
sent_behind rmi code s c (some block) =
    if not (c.offset_block == c.temp_block) || ltb (length block) (c.fixed_off_len + length s)
    then none
    else (let laid = overwrite c.fixed_off_len s block in
        some (
          record c { temp_buf = some laid },
          record { rmi = rmi; msg_code = code; msg = take (length s + c.fixed_off_len) laid } ∷ [],
        ))

-- `SendOutMsg`, of a channel with a module.
unfoldable pub channel_send_out :
    (ℕ → Option Bytes) → Bool → ℕ → ℕ → Bytes → AoChannel → Option (AoChannel × List OutMsg)
channel_send_out malloc moves rmi code [] c = some (
  c,
  record { rmi = rmi; msg_code = code; msg = take c.fixed_off_len (block_of c.temp_buf) } ∷ [],
)
channel_send_out malloc moves rmi code (b ∷ s) c =
    let r = grown malloc moves (length (b ∷ s)) c in sent_behind rmi code (b ∷ s) r r.temp_buf

-- `OnRecvedData` and `OnFreed`
unfoldable pub on_recved_data :
    (ℕ → Option Bytes) → Bool → Bytes → AoChannel → Option (AoChannel × List OutMsg)
on_recved_data malloc moves s c =
    channel_send_out malloc moves module_broadcast channel_recv_data s c

unfoldable pub on_freed : (ℕ → Option Bytes) → Bool → AoChannel → Option (AoChannel × List OutMsg)
on_freed malloc moves c = channel_send_out malloc moves module_broadcast channel_freed_code [] c
