-- ===== src/Util/CommuModule.antt =====
-- `CCommuModule` (src/dev/util/CommuModule.h, CommuModule.cpp), the channels by name, with the
-- `Init` of a client (src/dev/util/AoSockTcpChannel.cpp) and of a server (src/dev/util/AoTcpServer.cpp)
-- and `Append` of a group (src/dev/util/AoIoSelectGroup.cpp). What a handler does to a channel is an
-- event; the use of NULL is the result `none`. `starts` is whether a thread starts.
pub mod Create
pub mod Groups
pub mod Laws
mod Examples
use aods.Base.{
  Bool, Bytes, Bytes-Key, List, Option, [], and_then, erase, false, if◌then◌else◌, last_byte, leb,
  length, lookup, map, none, not, some, split_str, suc, true, zero, ℕ, ℕ-Key, ◌++◌, ◌==◌, ◌∷◌,
}
use aods.Util.OutMsg.{OutMsg, channel_send_data_fail, module_broadcast}

abbrev pub max_io_select_group_count : ℕ
max_io_select_group_count = 20

abbrev pub max_io_count : ℕ
max_io_count = 1024

abbrev pub max_server_num : ℕ
max_server_num = 256

-- SERVER_CHANNEL
pub record ServerChannel : Type 0 where
  pub server_name : Bytes
  pub addr : Bytes
  pub protocol : Bytes
  pub port : ℕ
  pub num : ℕ

-- The channels that the module makes.
pub data Channel : Type 0 where
  -- The protocol and the handle.
  ao_sock_channel : Bytes → ℕ → Channel
  -- The protocol and the addresses.
  tcp_client_channel : Bytes → List Bytes → Channel
  tcp_server : List ServerChannel → Channel

-- `m_mapAC` and `m_pAISG`: the channels of the groups that there are, by their names.
pub record CommuModule : Type 0 where
  pub ac : List (Bytes × Channel)
  pub groups : List (List Bytes)

-- What is sent out, and what is called of a channel.
pub data CommuEvent : Type 0 where
  send_out : OutMsg → CommuEvent
  send_msg : Bytes → Bytes → CommuEvent
  on_builded stop_channel on_free delete_channel : Bytes → CommuEvent

abbrev pub Made : Type 0
Made = CommuModule × List CommuEvent × Bool

-- `AppendSockChannle2IoSelectGroup`, with the groups that may be looked at.
pub append_to_groups : ℕ → Bytes → List (List Bytes) → List (List Bytes) × Bool
append_to_groups zero name gs = (gs, false)
append_to_groups (suc n) name [] = ((name ∷ []) ∷ [], true)
append_to_groups (suc n) name (g ∷ gs) =
    let (rest, done) = append_to_groups n name gs in
    if leb max_io_count (length g) then (g ∷ rest, done) else ((g ++ name ∷ []) ∷ gs, true)

-- `SendData2Channel`; a name that has no end within the message is longer than the message.
abbrev pub send_fail : Bytes → CommuEvent
send_fail s =
    send_out (record { rmi = module_broadcast; msg_code = channel_send_data_fail; msg = s })

abbrev pub send_to : Bytes → Bytes → Bytes → Option Channel → List CommuEvent
send_to s name rest none = send_fail s ∷ []
send_to s name rest (some channel) = send_msg name rest ∷ []

abbrev pub send_named : Bytes → CommuModule → Option (Bytes × Bytes) → List CommuEvent
send_named s st none = send_fail s ∷ []
send_named s st (some (name, rest)) = send_to s name rest (lookup name st.ac)

unfoldable pub send_data2channel : Bytes → CommuModule → List CommuEvent
send_data2channel s st = send_named s st (split_str s)

-- The part of `OnStop` that is not `CModule::OnStop`.
unfoldable pub stop_channels : CommuModule → List CommuEvent
stop_channels st = map (λ e. stop_channel e.0) st.ac

abbrev pub delete_from : Bytes → CommuModule → Option Channel → CommuModule × List CommuEvent
delete_from name st none = (st, [])
delete_from name st (some channel) = (record st { ac = erase name st.ac }, delete_channel name ∷ [])

-- `OnDelChannel` and `OnFreeChannel`; `none` where the message is empty.
unfoldable pub on_del_channel : Bytes → CommuModule → Option (CommuModule × List CommuEvent)
on_del_channel s st = and_then (last_byte s) λ last.
    if not (last == 0)
    then some (st, [])
    else and_then (split_str s) λ (name, rest). some (delete_from name st (lookup name st.ac))

abbrev pub free_of : Bytes → Option Channel → List CommuEvent
free_of name none = []
free_of name (some channel) = on_free name ∷ []

unfoldable pub on_free_channel : Bytes → CommuModule → Option (List CommuEvent)
on_free_channel s st = and_then (last_byte s) λ last.
    if not (last == 0)
    then some []
    else and_then (split_str s) λ (name, rest). some (free_of name (lookup name st.ac))
