-- ===== src/Install/ActiveModule.antt =====
-- `CAodsActiveModule` of the installer (src/dev/install/AodsActiveModule.h, AodsActiveModule.cpp),
-- which asks the controller for a code and saves it for the service `aods`. `malloc` is the
-- allocator, `junk` what the memory of a cipher held, `rand` the numbers of `rand` in their order,
-- `addrs` what `getifaddrs` lists, `opens` whether data/aoauth.db can be opened to write, and
-- `installs` whether the service can be installed. The code for Linux is modelled. What would read
-- or write past its data, or use NULL, is the result `none`.
pub mod Saved
pub mod Request
pub mod Laws
pub mod Activation
mod Examples
use aods.Base.{
  Bool, Bytes, List, Option, [], and_then, bytes_eq, codes, drop, false, if◌then◌else◌, length,
  none, not, read32, replicate, some, split_str, suc, take, true, zero, ℕ, ◌%◌, ◌++◌, ◌+◌, ◌==◌,
  ◌||◌, ◌∷◌,
}
use aods.Aodc.ActiveModule.{aodc_aods_actv, aods_aodc_actv}
use aods.Aodc.AuthModule.{act_code_len, max_ip_addr_num}
use aods.Aods.AuthModule.{aodc_client, exit_msg, get_ip_addrs, saved_key, to_aodc}
use aods.Util.Encrypt.{default, encode, set_key}
use aods.Util.OutMsg.{OutMsg}

abbrev pub active_suc_size : ℕ
active_suc_size = 26

-- `m_bActived`, `m_ucIndex`, `m_ucRDSerial`, `m_ucIpNum` and the 64 bytes of `m_unIpAddr`.
pub record InstallModule : Type 0 where
  pub actived : Bool
  pub index : ℕ
  pub rd_serial : Bytes
  pub ip_num : ℕ
  pub ip_addr : Bytes

-- A handler sends messages, writes the file, and installs or starts the service.
pub data InstallEvent : Type 0 where
  send_out : OutMsg → InstallEvent
  save_file : Bytes → InstallEvent
  install_service : Bytes → InstallEvent
  start_service : Bytes → InstallEvent

abbrev pub InstallResult : Type 0
InstallResult = Option (InstallModule × List InstallEvent)

-- The constructor; what `m_ucIndex` and `m_ucRDSerial` held is left in them.
abbrev pub new_install : ℕ → Bytes → InstallModule
new_install index serial = record {
  actived = false;
  index = index;
  rd_serial = serial;
  ip_num = 0;
  ip_addr = replicate 64 0;
}

-- `m_ucRDSerial` from index `n` on.
abbrev pub rand_bytes : (ℕ → ℕ) → ℕ → ℕ → Bytes
rand_bytes rand zero n = []
rand_bytes rand (suc left) n = rand n % 256 ∷ rand_bytes rand left (n + 1)

-- `m_ucIpNum` and `m_unIpAddr` once `GetIpAddrs` is called for 16 addresses; its result is not
-- looked at.
abbrev pub own_addrs : Bytes → Option (ℕ × Bytes) → ℕ × Bytes
own_addrs addr none = (max_ip_addr_num, addr)
own_addrs addr (some r) = r

-- AODS_AODC_ACTIVE as it is laid out.
abbrev pub active_bytes : InstallModule → Bytes
active_bytes st = st.index ∷ st.ip_num ∷ st.ip_addr ++ (replicate 6 0 ++ st.rd_serial)

abbrev pub active_sent : Bytes → InstallModule → InstallResult
active_sent channel st = some (st, send_out (to_aodc channel aods_aodc_actv (active_bytes st)) ∷ [])

-- `OnChannelBuild` once the channel is the right one, in its buffer of 10240 bytes.
abbrev pub ask_active :
    (ℕ → ℕ) → Option (List (Option (ℕ × ℕ))) → Bytes → InstallModule → InstallResult
ask_active rand addrs channel st = and_then (get_ip_addrs addrs max_ip_addr_num st.ip_addr) λ r.
    let own = own_addrs st.ip_addr r in
    active_sent channel
      (record st { rd_serial = rand_bytes rand 14 0; ip_num = own.0; ip_addr = own.1 })

-- `OnChannelBuild`
unfoldable pub install_channel_build :
    (ℕ → Option Bytes)
    → (ℕ → ℕ)
    → Option (List (Option (ℕ × ℕ)))
    → Bytes
    → InstallModule
    → InstallResult
install_channel_build malloc rand addrs s st = and_then (split_str s) λ (channel, rest).
    if st.actived || not (bytes_eq channel aodc_client)
    then some (st, [])
    else and_then (malloc 10240) λ block. ask_active rand addrs channel st

-- The bytes of `SaveActive` before they are encoded.
abbrev pub save_data : Bytes → Bytes → InstallModule → Bytes
save_data res_id act_code st = res_id ++ (st.rd_serial ++ (st.ip_num ∷ st.ip_addr ++ act_code))

-- `SaveActive`, up to its writing.
unfoldable pub save_active : (ℕ → ℕ) → Bytes → InstallModule → Bytes
save_active junk answer st =
    encode (set_key (saved_key 16 0) 16 (default junk))
      (save_data (take 6 answer) (take act_code_len (drop 6 answer)) st)

module _ (junk : ℕ → ℕ) (opens installs : Bool) where
  -- `ActiveSuccess`, in the directory `dir`.
  unfoldable pub active_success : Bytes → Bytes → InstallModule → List InstallEvent
  active_success dir answer st =
      if not (length answer == active_suc_size)
      then []
      else if not opens
      then []
      else save_file (save_active junk answer st)
        ∷ install_service (dir ++ codes "/aods")
        ∷ (if installs then start_service (codes "aods") ∷ [] else [])

  -- `OnRecvChannelData` with the data behind the code.
  abbrev pub install_result : Bytes → ℕ → Bytes → InstallModule → InstallResult
  install_result dir code [] st = some (st, [])
  install_result dir code (rlt ∷ s) st =
      if not (code == aodc_aods_actv)
      then some (st, [])
      else some (
        record st { actived = true },
        (if rlt == 0 then active_success dir s st else []) ++ send_out exit_msg ∷ [],
      )

  abbrev pub install_code : Bytes → InstallModule → Option (ℕ × Bytes) → InstallResult
  install_code dir st none = some (st, [])
  install_code dir st (some (code, s)) = install_result dir code s st

  -- `OnRecvChannelData`; fewer than five bytes behind the name are not read.
  unfoldable pub install_recv : Bytes → Bytes → InstallModule → InstallResult
  install_recv dir s st = and_then (split_str s) λ (channel, rest).
      if not (bytes_eq channel aodc_client)
      then some (st, [])
      else install_code dir st (read32 rest)

-- `OnSetActivePara`
unfoldable pub on_set_active_para : Bytes → InstallModule → InstallResult
on_set_active_para [] st = none
on_set_active_para (b ∷ s) st = some (record st { index = b }, [])
