-- ===== src/Aodc/ActiveModule.antt =====
-- `CAodsActiveModule` of the controller (src/dev/aodc/AodsActiveModule.h, AodsActiveModule.cpp),
-- which passes requests for activation on to the bus and gives the codes out that come of them.
-- `malloc` and `junk` are as in Aodc/AuthModule; what `GetUuid` returns is an argument. A read past
-- a message, a write past a buffer, the use of NULL and of the end of a map are the result `none`.
pub mod Acks
pub mod Laws
pub mod Codes
pub mod Activation
mod Examples
use aods.Base.{
  Bytes, Bytes-Key, List, Option, [], and_then, c_str, codes, contains, drop, get_or, if◌then◌else◌,
  insert, last_byte, le32, leb, length, lookup, ltb, none, not, read32, some, split_str, suc, take,
  zero, ℕ, ℕ-Key, ◌%◌, ◌*◌, ◌++◌, ◌+◌, ◌==◌, ◌∷◌,
}
use aods.Aodc.AuthModule.{
  aods_aodc_msg_size, aods_channel_name, max_ip_addr_num, module_kafka, snd2kafka,
}
use aods.Util.Helper.{get_hex_string}
use aods.Util.Json.{JsonLib}
use aods.Util.MemCache.{MemCache}
use aods.Util.OutMsg.{OutMsg, channel_send_data, module_commu}

abbrev pub aods_aodc_actv : ℕ
aods_aodc_actv = 1

abbrev pub aodc_aods_actv : ℕ
aodc_aods_actv = 2

abbrev pub aods_aodc_activate_size : ℕ
aods_aodc_activate_size = 86

abbrev pub act_rlt_dbbusy : ℕ
act_rlt_dbbusy = 3

abbrev pub act_rlt_datainv : ℕ
act_rlt_datainv = 6

abbrev pub max_text_len : ℕ
max_text_len = 1024

-- AODS_AODC_ACTIVE; the addresses are their 64 bytes.
pub record AodsAodcActive : Type 0 where
  pub index : ℕ
  pub ip_num : ℕ
  pub ip_addr : Bytes
  pub res_id : Bytes
  pub rd_serial : Bytes

abbrev pub active_of : Bytes → AodsAodcActive
active_of s = record {
  index = get_or s 0 0;
  ip_num = get_or s 1 0;
  ip_addr = take 64 (drop 2 s);
  res_id = take 6 (drop 66 s);
  rd_serial = take 14 (drop 72 s);
}

-- ACTIVE_INFO
pub record ActiveInfo : Type 0 where
  pub channel_name : Bytes
  pub active_code : Bytes

-- `m_mapUai`, from an identifier to the request, `m_mapCu`, from a channel to the identifier,
-- `m_mapCA`, from a channel to its address, and `m_pAMC`.
pub record ActiveModule : Type 0 where
  pub uai : List (Bytes × ActiveInfo)
  pub cu : List (Bytes × Bytes)
  pub ca : List (Bytes × Bytes)
  pub amc : MemCache

-- The messages that the module is given, by the handler they have.
pub data ActiveMsg : Type 0 where
  active_data : Bytes → Bytes → ActiveMsg
  active_builded active_send_fail active_freed active_from_kafka : Bytes → ActiveMsg

-- The conversions of the system's library.
pub record Inet : Type 0 where
  pub inet_addr : Bytes → ℕ
  pub inet_ntoa : ℕ → Bytes

-- A handler's result.
abbrev pub ActiveResult : Type 0
ActiveResult = Option (ActiveModule × List OutMsg)

-- The name of a channel and its two addresses, once the name is read.
abbrev pub peer_addr : Bytes → Bytes → ActiveModule → ActiveResult
peer_addr channel s st =
    if leb (length s) 0
    then some (st, [])
    else and_then (split_str s) λ (local, rest).
      if leb (length rest) 0
      then some (st, [])
      else and_then (split_str rest)
          λ (peer, behind). some (record st { ca = insert channel peer st.ca }, [])

unfoldable pub on_channel_builded : Bytes → ActiveModule → ActiveResult
on_channel_builded s st = and_then (last_byte s) λ last.
    if not (last == 0)
    then some (st, [])
    else and_then (split_str s) λ (channel, rest).
      if contains aods_channel_name channel then peer_addr channel rest st else some (st, [])

-- AODC_AODS_ACTIVE behind its code.
abbrev pub active_answer : ℕ → Bytes
active_answer rlt = le32 aodc_aods_actv ++ rlt % 256 ∷ []

-- `OnActiveFailedResult`, whose buffer has 1024 bytes.
unfoldable pub on_active_failed_result : Bytes → ℕ → Option OutMsg
on_active_failed_result channel rlt =
    if ltb max_text_len (length channel + 6)
    then none
    else some (record {
      rmi = module_commu;
      msg_code = channel_send_data;
      msg = c_str channel ++ active_answer rlt;
    })

abbrev pub failed : Bytes → ℕ → ActiveModule → ActiveResult
failed channel rlt st = and_then (on_active_failed_result channel rlt) λ out. some (st, out ∷ [])

-- The address in front of the first colon.
abbrev pub before_colon : Bytes → Option Bytes
before_colon [] = none
before_colon (b ∷ s) =
    if b == b':' then some [] else elim (before_colon s) [ none ↦ none | some t ↦ some (b ∷ t) ]

-- `unIpAddr[n]`
abbrev pub ip_at : Bytes → ℕ → ℕ
ip_at s n = elim (read32 (drop (n * 4) s)) [ none ↦ 0 | some (word, rest) ↦ word ]

module _ {J : Type 0} (lib : JsonLib J) (inet : Inet) where
  -- The loop over the addresses: the array and the address of the connection that is left.
  abbrev pub add_ips : Bytes → ℕ → ℕ → J → ℕ → J × ℕ
  add_ips ips zero n arr con_ip = (arr, con_ip)
  add_ips ips (suc left) n arr con_ip =
      let ip = ip_at ips n in
      add_ips ips left (n + 1) (lib.add_item_to_array (lib.create_string (inet.inet_ntoa ip)) arr)
        (if con_ip == ip then 0 else con_ip)

  abbrev pub ip_array : AodsAodcActive → ℕ → J
  ip_array a con_ip =
      let (arr, left) = add_ips a.ip_addr a.ip_num 0 lib.create_array con_ip in
      if left == 0 then arr else lib.add_item_to_array (lib.create_string (inet.inet_ntoa left)) arr

  unfoldable pub active_request : Bytes → AodsAodcActive → ℕ → OutMsg
  active_request uuid a con_ip =
      let obj = lib.add_item_to_object (codes "ip") (ip_array a con_ip) lib.create_object in
      let obj1 = lib.add_item_to_object (codes "uuid") (lib.create_string uuid) obj in
      let obj2 =
        lib.add_item_to_object (codes "rid") (lib.create_string (get_hex_string a.res_id)) obj1 in
      let obj3 =
        lib.add_item_to_object (codes "rds") (lib.create_string (get_hex_string a.rd_serial))
          obj2 in
      let obj4 = lib.add_item_to_object (codes "index") (lib.create_number a.index) obj3 in
      record {
        rmi = module_kafka;
        msg_code = snd2kafka;
        msg =
            lib.print_unformatted (lib.add_item_to_object (codes "active") obj4 lib.create_object);
      }

  abbrev pub asked : Bytes → Bytes → AodsAodcActive → ℕ → ActiveModule → ActiveModule × List OutMsg
  asked channel uuid a con_ip st = (
    record st {
      uai =
          insert uuid (record { channel_name = channel; active_code = a.res_id ++ a.rd_serial })
            st.uai;
      cu = insert channel uuid st.cu;
    },
    active_request uuid a con_ip ∷ [],
  )

  -- `OnRecvAodsChannel` once the address of the connection is a number.
  unfoldable pub ask_bus : Bytes → Bytes → AodsAodcActive → ℕ → ActiveModule → ActiveResult
  ask_bus channel uuid a con_ip st =
      if con_ip == 0
      then failed channel act_rlt_dbbusy st
      else if ltb max_ip_addr_num a.ip_num
      then none
      else some (asked channel uuid a con_ip st)

  -- The address as a number, once the part in front of the port is found.
  abbrev pub with_ip : Bytes → Bytes → AodsAodcActive → ActiveModule → Option Bytes → ActiveResult
  with_ip channel uuid a st none = failed channel act_rlt_dbbusy st
  with_ip channel uuid a st (some ip) = ask_bus channel uuid a (inet.inet_addr ip) st

  abbrev pub with_addr : Bytes → Bytes → AodsAodcActive → ActiveModule → Option Bytes → ActiveResult
  with_addr channel uuid a st none = failed channel act_rlt_dbbusy st
  with_addr channel uuid a st (some addr) =
      if leb 256 (length addr) then none else with_ip channel uuid a st (before_colon addr)

  -- The code of the message, unless it is too short for one.
  abbrev pub read_request : Bytes → Bytes → Bytes → ActiveModule → Option (ℕ × Bytes) → ActiveResult
  read_request channel uuid s st none = failed channel act_rlt_datainv st
  read_request channel uuid s st (some (code, rest)) =
      if not (code == aods_aodc_actv)
      then some (st, [])
      else if not (aods_aodc_msg_size + aods_aodc_activate_size == length s)
      then failed channel act_rlt_datainv st
      else with_addr channel uuid (active_of rest) st (lookup channel st.ca)

  unfoldable pub on_recv_aods_channel : Bytes → Bytes → Bytes → ActiveModule → ActiveResult
  on_recv_aods_channel uuid channel s st = read_request channel uuid s st (read32 s)

  -- `OnRecvChannelData`
  unfoldable pub active_recv_channel_data : Bytes → Bytes → ActiveModule → ActiveResult
  active_recv_channel_data uuid s st = and_then (split_str s) λ (channel, rest).
      if contains aods_channel_name channel
      then on_recv_aods_channel uuid channel rest st
      else some (st, [])
