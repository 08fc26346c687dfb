-- ===== src/Aodc/AuthModule.antt =====
-- `CAodsAuthModule` of the controller (src/dev/aodc/AodsAuthModule.h, AodsAuthModule.cpp), which
-- keeps the hosts that have authenticated, by resource and by channel, with the messages of
-- src/dev/AodsAodcMsgDef.h. `malloc` is the allocator, `junk` what the memory of a cipher held.
-- A read past a message or an array and the use of NULL are the result `none`.
pub mod Changes
pub mod Linked
pub mod Answers
mod Examples
use mathlib.Core.Option
use aods.Base.{
  Bool, Bytes, Bytes-Key, List, Option, [], and_then, bytes_eq, c_str, codes, contains, drop, erase,
  false, get_or, if◌then◌else◌, insert, le32, leb, length, lookup, ltb, map, none, not, read32,
  replicate, some, split_str, suc, take, true, zero, ℕ, ℕ-Key, ◌%◌, ◌*◌, ◌++◌, ◌+◌, ◌-◌, ◌==◌, ◌∷◌,
}
use aods.Util.Encrypt.{default, encode, set_key}
use aods.Util.Hash.Crc.{calc_crc8}
use aods.Util.Helper.{get_hex_string}
use aods.Util.Json.{JsonLib}
use aods.Util.MemCache.{MemCache, append_buf, cur_data, reset}
use aods.Util.OutMsg.{OutMsg, channel_send_data, free_msg, module_broadcast, module_commu}

abbrev pub aods_aodc_auth : ℕ
aods_aodc_auth = 3

abbrev pub aodc_aods_auth : ℕ
aodc_aods_auth = 4

abbrev pub aods_aodc_msg_size : ℕ
aods_aodc_msg_size = 4

abbrev pub aods_aodc_authen_size : ℕ
aods_aodc_authen_size = 105

abbrev pub max_ip_addr_num : ℕ
max_ip_addr_num = 16

abbrev pub act_code_len : ℕ
act_code_len = 20

abbrev pub auth_result_dif : ℕ
auth_result_dif = 2

abbrev pub module_kafka : ℕ
module_kafka = 0x103

abbrev pub auth_suc : ℕ
auth_suc = 0x200

abbrev pub snd2kafka : ℕ
snd2kafka = 0x201

-- AODS_AODC_AUTHEN; the addresses are their 64 bytes.
pub record AodsAodcAuthen : Type 0 where
  pub ip_num : ℕ
  pub ip_addr : Bytes
  pub res_id : Bytes
  pub rd_serial : Bytes
  pub act_code : Bytes

abbrev pub authen_of : Bytes → AodsAodcAuthen
authen_of s = record {
  ip_num = get_or s 0 0;
  ip_addr = take 64 (drop 1 s);
  res_id = take 6 (drop 65 s);
  rd_serial = take 14 (drop 71 s);
  act_code = take act_code_len (drop 85 s);
}

-- AUTH_INFO
pub record AuthInfo : Type 0 where
  pub ip_num : ℕ
  pub channel_name : Bytes
  pub ip_addr : Bytes

-- `m_mapRC`, from a resource to its host, `m_mapCR`, from a channel to its resource, and `m_pAMC`.
pub record AuthModule : Type 0 where
  pub rc : List (Bytes × AuthInfo)
  pub cr : List (Bytes × Bytes)
  pub amc : MemCache

-- The messages that the module is given, by the handler they have.
pub data AuthMsg : Type 0 where
  recv_channel_data send_channel_data_fail channel_freed recv_from_kafka : Bytes → AuthMsg

abbrev pub aods_channel_name : Bytes
aods_channel_name = codes "AodsServer"

-- `ucKey` from index `n` on.
abbrev pub active_key : ℕ → ℕ → Bytes
active_key zero n = []
active_key (suc left) n = (n + 0x3f) % 256 ∷ active_key left (n + 1)

abbrev pub crc8_of : Bytes → ℕ
crc8_of [] = 0
crc8_of (b ∷ s) = calc_crc8 b s

unfoldable pub calc_active_code : (ℕ → ℕ) → Bytes → Bytes
calc_active_code junk code =
    encode (set_key (active_key 16 0) 16 (default junk))
      (take (act_code_len - 1) code ++ crc8_of (take (act_code_len - 1) code) ∷ [])

-- `m_mapRC[szResId]`, which is empty where there is no entry.
abbrev pub find_info : Option AuthInfo → AuthInfo
find_info none = record { ip_num = 0; channel_name = []; ip_addr = replicate 64 0 }
find_info (some info) = info

-- The test for another host: `none` where `memcmp` would pass the end of the addresses.
abbrev pub is_other : AuthInfo → AodsAodcAuthen → Option Bool
is_other info a =
    if not (info.ip_num == a.ip_num)
    then some true
    else if ltb max_ip_addr_num info.ip_num
    then none
    else some
        (not (bytes_eq (take (info.ip_num * 4) info.ip_addr) (take (info.ip_num * 4) a.ip_addr)))

-- AODC_AODS_AUTHEN behind its code.
abbrev pub auth_answer : ℕ → Bytes
auth_answer rlt = le32 aodc_aods_auth ++ rlt % 256 ∷ []

-- `Reset` and two times `AppendBuf`.
abbrev pub fill_cache : (ℕ → Option Bytes) → Bytes → Bytes → MemCache → MemCache
fill_cache malloc s t c = (append_buf malloc t (append_buf malloc s (reset c)).0).0

-- A message of the cache's contents.
abbrev pub cache_msg : ℕ → ℕ → MemCache → OutMsg
cache_msg rmi code c = record { rmi = rmi; msg_code = code; msg = cur_data c }

abbrev pub rejected :
    (ℕ → Option Bytes) → Bytes → AuthInfo → AuthModule → Bool → AuthModule × List OutMsg
rejected malloc channel info st false = (st, free_msg info.channel_name ∷ free_msg channel ∷ [])
rejected malloc channel info st true =
    let amc = fill_cache malloc (c_str channel) (auth_answer auth_result_dif) st.amc in
    (record st { amc = amc }, cache_msg module_commu channel_send_data amc ∷ free_msg channel ∷ [])

-- What `c_str` of a string shows.
abbrev pub until_nul : Bytes → Bytes
until_nul [] = []
until_nul (b ∷ s) = if b == 0 then [] else b ∷ until_nul s

abbrev pub drop_resource : Bytes → AuthModule → Option Bytes → AuthModule
drop_resource channel st none = st
drop_resource channel st (some rid) = record st { rc = erase rid st.rc; cr = erase channel st.cr }

-- `OnSendChannelDataFail` and `OnChannelFreed`
unfoldable pub drop_channel : Bytes → AuthModule → Option (AuthModule × List OutMsg)
drop_channel s st = and_then (split_str s) λ (channel, rest). some (
  if contains aods_channel_name channel
      then drop_resource channel st (lookup channel st.cr)
      else st,
  [],
)

module _ {J : Type 0} (lib : JsonLib J) where
  unfoldable pub report_authen_msg : Bytes → Bytes → OutMsg
  report_authen_msg code rid =
      let obj =
        lib.add_item_to_object (codes "active_code") (lib.create_string (get_hex_string code))
          lib.create_object in
      let obj' = lib.add_item_to_object (codes "rid") (lib.create_string rid) obj in
      record {
        rmi = module_kafka;
        msg_code = snd2kafka;
        msg = lib.print_unformatted (lib.add_item_to_object (codes "auth") obj' lib.create_object);
      }

  abbrev pub registered : Bytes → Bytes → AodsAodcAuthen → AuthModule → AuthModule × List OutMsg
  registered channel rid a st = (
    record st {
      rc =
          insert rid (record { ip_num = a.ip_num; channel_name = channel; ip_addr = a.ip_addr })
            st.rc;
      cr = insert channel rid st.cr;
    },
    report_authen_msg a.act_code rid ∷ [],
  )

  -- `OnRecvAodsMsg` once the code is right.
  unfoldable pub authenticate :
      (ℕ → Option Bytes) → Bytes → AodsAodcAuthen → AuthModule → Option (AuthModule × List OutMsg)
  authenticate malloc channel a st =
      let rid = get_hex_string a.res_id in
      let info = find_info (lookup rid st.rc) in
      if ltb 0 (length info.channel_name)
      then Option.map (rejected malloc channel info st) (is_other info a)
      else some (registered channel rid a st)

  unfoldable pub check_code :
      (ℕ → Option Bytes)
      → (ℕ → ℕ)
      → Bytes
      → AodsAodcAuthen
      → AuthModule
      → Option (AuthModule × List OutMsg)
  check_code malloc junk channel a st =
      if bytes_eq (calc_active_code junk (a.res_id ++ a.rd_serial)) a.act_code
      then authenticate malloc channel a st
      else some (st, free_msg channel ∷ [])

  unfoldable pub on_recv_aods_msg :
      (ℕ → Option Bytes) → (ℕ → ℕ) → Bytes → Bytes → AuthModule → Option (AuthModule × List OutMsg)
  on_recv_aods_msg malloc junk channel s st = and_then (read32 s) λ (code, rest).
      if not (code == aods_aodc_auth)
      then some (st, [])
      else if not (aods_aodc_authen_size + aods_aodc_msg_size == length s)
      then some (st, free_msg channel ∷ [])
      else check_code malloc junk channel (authen_of rest) st

  unfoldable pub on_recv_channel_data :
      (ℕ → Option Bytes) → (ℕ → ℕ) → Bytes → AuthModule → Option (AuthModule × List OutMsg)
  on_recv_channel_data malloc junk s st = and_then (split_str s) λ (channel, rest).
      if leb (length s) (length channel + 1)
      then some (st, [])
      else if contains aods_channel_name channel
      then on_recv_aods_msg malloc junk channel rest st
      else some (st, [])

  -- The answer of the bus for a host.
  abbrev pub acknowledged :
      (ℕ → Option Bytes) → Bytes → ℕ → AuthInfo → AuthModule → AuthModule × List OutMsg
  acknowledged malloc rid ack info st =
      let told = fill_cache malloc (c_str rid) (c_str info.channel_name) st.amc in
      let answer = fill_cache malloc (c_str info.channel_name) (auth_answer ack) in
      if ack == 0
      then (
        record st { amc = answer told },
        cache_msg module_broadcast auth_suc told
            ∷ cache_msg module_commu channel_send_data (answer told)
            ∷ [],
      )
      else (
        record st { amc = answer st.amc },
        cache_msg module_commu channel_send_data (answer st.amc) ∷ [],
      )

  abbrev pub ack_for :
      (ℕ → Option Bytes)
      → J
      → Bytes
      → AuthModule
      → Option AuthInfo
      → Option (AuthModule × List OutMsg)
  ack_for malloc auth rid st none = some (st, [])
  ack_for malloc auth rid st (some info) =
      and_then (lib.get_object_item auth (codes "ack"))
        λ ack. some (acknowledged malloc rid (lib.value_int ack) info st)

  abbrev pub with_auth_ack :
      (ℕ → Option Bytes) → AuthModule → Option J → Option (AuthModule × List OutMsg)
  with_auth_ack malloc st none = some (st, [])
  with_auth_ack malloc st (some auth) =
      and_then (lib.get_object_item auth (codes "rid")) λ rid.
        and_then (lib.value_string rid) λ text. ack_for malloc auth text st (lookup text st.rc)

  abbrev pub with_json :
      (ℕ → Option Bytes) → AuthModule → Option J → Option (AuthModule × List OutMsg)
  with_json malloc st none = some (st, [])
  with_json malloc st (some obj) =
      with_auth_ack malloc st (lib.get_object_item obj (codes "auth_ack"))

  unfoldable pub on_recv_from_kafka :
      (ℕ → Option Bytes) → Bytes → AuthModule → Option (AuthModule × List OutMsg)
  on_recv_from_kafka malloc s st = with_json malloc st (lib.parse (until_nul s))

  -- `OnMessage`, by the code of the message.
  unfoldable pub on_auth_msg :
      (ℕ → Option Bytes) → (ℕ → ℕ) → AuthMsg → AuthModule → Option (AuthModule × List OutMsg)
  on_auth_msg malloc junk (recv_channel_data s) st = on_recv_channel_data malloc junk s st
  on_auth_msg malloc junk (send_channel_data_fail s) st = drop_channel s st
  on_auth_msg malloc junk (channel_freed s) st = drop_channel s st
  on_auth_msg malloc junk (recv_from_kafka s) st = on_recv_from_kafka malloc s st

  -- Messages one after the other.
  unfoldable pub run_auth :
      (ℕ → Option Bytes) → (ℕ → ℕ) → List AuthMsg → AuthModule → Option AuthModule
  run_auth malloc junk [] st = some st
  run_auth malloc junk (msg ∷ msgs) st =
      and_then (on_auth_msg malloc junk msg st) λ (st', out). run_auth malloc junk msgs st'
