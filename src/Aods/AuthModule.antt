-- ===== src/Aods/AuthModule.antt =====
-- `CAodsAuthModule` of the host (src/dev/aods/AodsAuthModule.h, AodsAuthModule.cpp), which asks the
-- controller to be let in with what the installer has saved. `malloc` is the allocator, `junk` what
-- the memory of a cipher held, `file` the contents of data/aoauth.db (`none` where it cannot be
-- opened) and `addrs` what `getifaddrs` lists, `none` where it fails. The code for Linux is
-- modelled. What would read or write past its data, or use NULL, is the result `none`.
pub mod Layout
pub mod Laws
use aods.Base.{
  Bytes, List, Option, [], and_then, bytes_eq, c_str, codes, drop, get_or, if◌then◌else◌, le32, leb,
  length, ltb, none, not, read32, some, split_str, suc, take, zero, ℕ, ◌%◌, ◌*◌, ◌++◌, ◌+◌, ◌==◌,
  ◌||◌, ◌∷◌,
}
use aods.Aodc.AuthModule.{
  AodsAodcAuthen, act_code_len, aodc_aods_auth, aods_aodc_auth, aods_aodc_authen_size,
  aods_aodc_msg_size, max_ip_addr_num,
}
use aods.Aodc.UpdateModule.{aodc_aods_keepalive}
use aods.Util.Encrypt.{decode, default, set_key}
use aods.Util.MemCache.{overwrite}
use aods.Util.OutMsg.{OutMsg, channel_send_data, module_broadcast, module_commu}
use aods.Util.Module.Handlers.{msg_exit}

abbrev pub aodc_client : Bytes
aodc_client = codes "AodcClient"

abbrev pub aods_aodc_keepalive : ℕ
aods_aodc_keepalive = 13

abbrev pub host_auth_suc : ℕ
host_auth_suc = 0x200

abbrev pub af_inet : ℕ
af_inet = 2

-- A handler sends messages, and stops a service.
pub data HostEvent : Type 0 where
  sent : OutMsg → HostEvent
  stop_service : Bytes → HostEvent

abbrev pub HostResult : Type 0
HostResult = Option (List HostEvent)

-- `ucKey` from index `n` on.
abbrev pub saved_key : ℕ → ℕ → Bytes
saved_key zero n = []
saved_key (suc left) n = (n + 0xBC) % 256 ∷ saved_key left (n + 1)

-- The decoded file.
abbrev pub saved_of : Bytes → AodsAodcAuthen
saved_of s = record {
  ip_num = get_or s 20 0;
  ip_addr = take 64 (drop 21 s);
  res_id = take 6 s;
  rd_serial = take 14 (drop 6 s);
  act_code = take act_code_len (drop 85 s);
}

-- `ReadActiveData`: `none` inside is false.
unfoldable pub read_active_data :
    (ℕ → Option Bytes) → (ℕ → ℕ) → Option Bytes → Option (Option AodsAodcAuthen)
read_active_data malloc junk none = some none
read_active_data malloc junk (some s) =
    if ltb (length s) aods_aodc_authen_size
    then some none
    else and_then (malloc (length s))
        λ block. some (some (saved_of (decode (set_key (saved_key 16 0) 16 (default junk)) s)))

-- The loop of `GetIpAddrs`: an entry has a family and an address, or no address at all. The
-- result is `ucNum` and the array, which has room for 16 addresses.
unfoldable pub write_addrs : List (Option (ℕ × ℕ)) → ℕ → ℕ → Bytes → Option (ℕ × Bytes)
write_addrs [] index num addr = some (index, addr)
write_addrs (none ∷ ias) index num addr = write_addrs ias index num addr
write_addrs (some (family, s_addr) ∷ ias) index num addr =
    let skipped = write_addrs ias index num addr in
    let written = write_addrs ias (index + 1) num (overwrite (index * 4) (le32 s_addr) addr) in
    if not (family == af_inet)
    then skipped
    else if leb num index
    then some (index, addr)
    else if leb max_ip_addr_num index
    then none
    else written

-- `GetIpAddrs`: `none` inside is false.
unfoldable pub get_ip_addrs :
    Option (List (Option (ℕ × ℕ))) → ℕ → Bytes → Option (Option (ℕ × Bytes))
get_ip_addrs none num addr = some none
get_ip_addrs (some ias) num addr = and_then (write_addrs ias 0 num addr) λ r. some (some r)

-- AODS_AODC_AUTHEN as it is laid out.
abbrev pub authen_bytes : AodsAodcAuthen → Bytes
authen_bytes a = a.ip_num % 256 ∷ a.ip_addr ++ (a.res_id ++ (a.rd_serial ++ a.act_code))

abbrev pub exit_msg : OutMsg
exit_msg = record { rmi = module_broadcast; msg_code = msg_exit; msg = [] }

-- Data for the controller, behind the name of the channel and the code.
abbrev pub to_aodc : Bytes → ℕ → Bytes → OutMsg
to_aodc channel code s = record {
  rmi = module_commu;
  msg_code = channel_send_data;
  msg = c_str channel ++ (le32 code ++ s);
}

abbrev pub authen_asked : Bytes → AodsAodcAuthen → Option (ℕ × Bytes) → List HostEvent
authen_asked channel a none = sent exit_msg ∷ []
authen_asked channel a (some (num, addr)) =
    sent (to_aodc channel aods_aodc_auth (authen_bytes (record a { ip_num = num; ip_addr = addr })))
    ∷ []

abbrev pub authen_with : Option (List (Option (ℕ × ℕ))) → Bytes → Option AodsAodcAuthen → HostResult
authen_with addrs channel none = some (sent exit_msg ∷ [])
authen_with addrs channel (some a) =
    and_then (get_ip_addrs addrs a.ip_num a.ip_addr) λ r. some (authen_asked channel a r)

module _ (malloc : ℕ → Option Bytes) (junk : ℕ → ℕ) (file : Option Bytes)
    (addrs : Option (List (Option (ℕ × ℕ)))) where
  -- The rest of `OnAuthen` in its buffer of 1024 bytes; nothing where there is none.
  abbrev pub authen_in : Bytes → Option Bytes → HostResult
  authen_in channel none = some []
  authen_in channel (some block) =
      if ltb 1024 (length channel + 1 + aods_aodc_msg_size + aods_aodc_authen_size)
      then none
      else and_then (read_active_data malloc junk file) λ a. authen_with addrs channel a

  -- `OnAuthen`
  unfoldable pub on_authen : Bytes → HostResult
  on_authen channel = authen_in channel (malloc 1024)

  -- `OnChannelBuild`
  unfoldable pub host_channel_build : Bytes → HostResult
  host_channel_build s =
      and_then (split_str s)
        λ (channel, rest). if not (bytes_eq channel aodc_client) then some [] else on_authen channel

  -- The results of AODC_AODS_AUTHEN.
  abbrev pub on_auth_result : Bytes → ℕ → HostResult
  on_auth_result channel rlt =
      if rlt == 0
      then some (sent (record { rmi = module_broadcast; msg_code = host_auth_suc; msg = [] }) ∷ [])
      else if (rlt == 1) || (rlt == 2)
      then some (sent exit_msg ∷ stop_service (codes "aods") ∷ [])
      else if rlt == 3
      then on_authen channel
      else some []

  abbrev pub host_auth_data : Bytes → ℕ → Bytes → HostResult
  host_auth_data channel code [] = some (
      if code == aodc_aods_keepalive
      then sent (to_aodc aodc_client aods_aodc_keepalive []) ∷ []
      else [])
  host_auth_data channel code (rlt ∷ s) =
      if code == aodc_aods_keepalive
      then some (sent (to_aodc aodc_client aods_aodc_keepalive []) ∷ [])
      else if not (code == aodc_aods_auth)
      then some []
      else on_auth_result channel rlt

  abbrev pub host_auth_code : Bytes → Option (ℕ × Bytes) → HostResult
  host_auth_code channel none = some []
  host_auth_code channel (some (code, s)) = host_auth_data channel code s

  -- `OnRecvChannelData`; fewer than four bytes behind the name have no code.
  unfoldable pub host_auth_recv : Bytes → HostResult
  host_auth_recv s = and_then (split_str s) λ (channel, rest).
      if not (bytes_eq channel aodc_client) then some [] else host_auth_code channel (read32 rest)
