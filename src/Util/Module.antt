-- ===== src/Util/Module.antt =====
-- `CModule` (src/dev/util/Module.h, Module.cpp): a thread with a queue of messages and timers.
-- A pointer is a number of 64 bits, NULL being 0; it stands for the identity of an object. A copy
-- outside a buffer is `none`.
pub mod Message
pub mod Queue
pub mod Posting
pub mod Timers
pub mod Handlers
mod Examples
use aods.Base.{
  Bool, Bytes, List, Option, [], and_then, drop, false, if◌then◌else◌, length, ltb, none, some, suc,
  take, true, u32, zero, ℕ, ◌&&◌, ◌+◌, ◌==◌, ◌∷◌,
}
use aods.Util.CommuProtocol.{content}
use aods.Util.Module.Message.{MtMsg, MtMsgHead, head_bytes, mt_msg_head_size, read_head}
use aods.Util.Module.Timers.{MsgTimer}
use aods.Util.ModuleData.{ModuleData, append_data, reset_data}

-- `m_lstMT`, `m_mapMT`, the two buffers of the queue and `m_bRun`, with `this`.
pub record Module : Type 0 where
  pub this : ℕ
  pub timers : List MsgTimer
  pub targets : List (ℕ × ℕ)
  pub cus : ModuleData
  pub product : ModuleData
  pub run : Bool

-- What `PostMsg` is given: no data and a length, or the data.
pub data Payload : Type 0 where
  absent : ℕ → Payload
  given : Bytes → Payload

abbrev pub payload_len : Payload → ℕ
payload_len (absent n) = n
payload_len (given s) = length s

-- The second `AppendData` of `PostMsg`, after the first.
abbrev pub post_rest : Payload → Option (ModuleData × Bool) → Option (ModuleData × Bool)
post_rest payload none = none
post_rest payload (some (d, false)) = some (d, false)
post_rest (absent n) (some (d, true)) = some (d, true)
post_rest (given []) (some (d, true)) = some (d, true)
post_rest (given (b ∷ s)) (some (d, true)) = append_data (b ∷ s) d

abbrev pub posted : Module → Option (ModuleData × Bool) → Option (Module × Bool)
posted m none = none
posted m (some (d, done)) = some (record m { product = d }, done)

-- The arguments of `PostMsg`, with what the padding of the head holds.
pub record Post : Type 0 where
  pub msg_code : ℕ
  pub payload : Payload
  pub recver : ℕ
  pub sender : ℕ
  pub smi : ℕ
  pub pad : ℕ

abbrev pub head_of : ℕ → Post → MtMsgHead
head_of this p = record {
  smi = p.smi;
  msg_code = p.msg_code;
  data_len = payload_len p.payload;
  recver = if p.recver == 0 then this else p.recver;
  sender = p.sender;
}

unfoldable pub post_msg : Post → Module → Option (Module × Bool)
post_msg p m =
    if m.run
    then posted m
        (post_rest p.payload (append_data (head_bytes p.pad (head_of m.this p)) m.product))
    else some (m, false)

-- The exchange of the buffers in `Run`.
unfoldable pub swap : Module → Module
swap m = record m { cus = m.product; product = reset_data m.cus }

-- The message at the front of what is left of a block; its data as far as the block holds it.
unfoldable pub read_mt_msg : Bytes → Option MtMsg
read_mt_msg s =
    and_then (read_head s) λ (h, rest). some (record { head = h; content = take h.data_len rest })

module _ {S : Type 0} where
  -- One round of the loop, or its end.
  abbrev pub round_if : Bool → Option MtMsg → (MtMsg → Option S) → S → Option S
  round_if false o next st = some st
  round_if true none next st = none
  round_if true (some msg) next st = next msg

  -- The loop of `Run` over a buffer, from an offset on; `none` at the end of the fuel and where
  -- there is no whole head.
  unfoldable pub run_loop : (MtMsg → S → S) → (S → Bool) → ℕ → Bytes → ℕ → ℕ → S → Option S
  run_loop act running zero block len off st = none
  run_loop act running (suc fuel) block len off st =
      round_if (ltb off len && running st) (read_mt_msg (drop off block))
        (λ (msg : MtMsg).
          run_loop act running fuel block len (u32 (off + msg.head.data_len + mt_msg_head_size))
            (act msg st))
        st

  -- The messages in order, as long as the module runs.
  unfoldable pub deliver_msgs : (MtMsg → S → S) → (S → Bool) → List MtMsg → S → S
  deliver_msgs act running [] st = st
  deliver_msgs act running (msg ∷ msgs) st =
      if running st then deliver_msgs act running msgs (act msg st) else st

-- Posts one after the other, whatever they return.
unfoldable pub post_all : List Post → Module → Option Module
post_all [] m = some m
post_all (p ∷ ps) m = and_then (post_msg p m) λ (m', done). post_all ps m'
