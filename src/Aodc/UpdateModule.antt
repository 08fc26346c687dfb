-- ===== src/Aodc/UpdateModule.antt =====
-- `CUpdateModule` of the controller (src/dev/aodc/UpdateModule.h, UpdateModule.cpp), which passes the
-- reports of the hosts on to the bus, and the updates of the bus on to the hosts. `malloc` is
-- the allocator; what would read or write past its data, or use NULL, is the result `none`.
pub mod Laws
mod Examples
use aods.Base.{
  Bytes, Bytes-Key, List, Option, [], and_then, c_str, codes, contains, erase, if◌then◌else◌,
  insert, last_byte, le32, leb, length, lookup, ltb, none, not, read32, some, split_str, ℕ, ℕ-Key,
  ◌%◌, ◌++◌, ◌+◌, ◌==◌, ◌∷◌,
}
use aods.Aodc.AuthModule.{
  aods_channel_name, cache_msg, fill_cache, module_kafka, snd2kafka, until_nul,
}
use aods.Util.Json.{JsonLib}
use aods.Util.MemCache.{MemCache}
use aods.Util.OutMsg.{OutMsg, channel_send_data, module_commu}

abbrev pub aods_aodc_umi : ℕ
aods_aodc_umi = 5

abbrev pub aodc_aods_umi : ℕ
aodc_aods_umi = 6

abbrev pub aods_aodc_udr : ℕ
aods_aodc_udr = 7

abbrev pub aodc_aods_keepalive : ℕ
aodc_aods_keepalive = 14

abbrev pub res_id_len : ℕ
res_id_len = 6

abbrev pub ti_keepalive : ℕ
ti_keepalive = 1

-- UPDATE_OBJ
pub record UpdateObj : Type 0 where
  pub channel_name : Bytes
  pub res_id : Bytes

-- `m_mapCuo`, by channel, `m_mapRuo`, by resource, and `m_pAMC`.
pub record UpdateModule : Type 0 where
  pub cuo : List (Bytes × UpdateObj)
  pub ruo : List (Bytes × UpdateObj)
  pub amc : MemCache

abbrev pub UpdateResult : Type 0
UpdateResult = Option (UpdateModule × List OutMsg)

-- The messages that the module is given, by the handler they have.
pub data UpdateMsg : Type 0 where
  update_data update_send_fail update_freed update_auth_suc update_from_kafka : Bytes → UpdateMsg
  update_timer : ℕ → UpdateMsg

abbrev pub drop_update : Bytes → UpdateModule → Option UpdateObj → UpdateModule
drop_update channel st none = st
drop_update channel st (some obj) = record st {
  ruo = erase obj.res_id st.ruo;
  cuo = erase channel st.cuo;
}

-- `OnSendChannelDataFail` and `OnChannelFreed`
unfoldable pub update_channel_freed : Bytes → UpdateModule → UpdateResult
update_channel_freed s st = and_then (split_str s) λ (channel, rest). some (
  if contains aods_channel_name channel then drop_update channel st (lookup channel st.cuo) else st,
  [],
)

-- The entries of a host in both maps.
abbrev pub entered : Bytes → Bytes → UpdateModule → UpdateModule
entered rid channel st =
    let obj : UpdateObj = record { channel_name = channel; res_id = rid } in
    record st { ruo = insert rid obj st.ruo; cuo = insert channel obj st.cuo }

-- `OnAuthSuc`, which copies the resource to 16 bytes.
unfoldable pub on_auth_suc : Bytes → UpdateModule → UpdateResult
on_auth_suc s st =
    if ltb (length s) res_id_len
    then some (st, [])
    else and_then (last_byte s) λ last.
      if not (last == 0)
      then some (st, [])
      else and_then (split_str s) λ (rid, rest).
        if leb 16 (length rid)
        then none
        else and_then (split_str rest) λ (channel, behind). some (entered rid channel st, [])

-- The channels with the message for them, and the cache after it.
pub keep_alive : (ℕ → Option Bytes) → List (Bytes × UpdateObj) → MemCache → MemCache × List OutMsg
keep_alive malloc [] c = (c, [])
keep_alive malloc ((channel, obj) ∷ cuo) c =
    let amc = fill_cache malloc (c_str channel) (le32 aodc_aods_keepalive) c in
    let (left, out) = keep_alive malloc cuo amc in
    (left, cache_msg module_commu channel_send_data amc ∷ out)

-- `OnTimer`, for EN_TI_KEEPALIVE.
unfoldable pub update_on_timer : (ℕ → Option Bytes) → ℕ → UpdateModule → UpdateModule × List OutMsg
update_on_timer malloc timer_id st =
    if timer_id == ti_keepalive
    then (let (amc, out) = keep_alive malloc st.cuo st.amc in (record st { amc = amc }, out))
    else (st, [])

abbrev pub count_nul : Bytes → ℕ
count_nul [] = 0
count_nul (b ∷ s) = if b == 0 then 1 + count_nul s else count_nul s

abbrev pub text_keys : List Bytes
text_keys = codes "project" ∷ codes "module" ∷ codes "version" ∷ codes "hash" ∷ []

abbrev pub update_keys : List Bytes
update_keys =
    codes "project"
    ∷ codes "module"
    ∷ codes "version"
    ∷ codes "hash"
    ∷ codes "url"
    ∷ codes "code"
    ∷ []

module _ {J : Type 0} (lib : JsonLib J) where
  -- The texts of a report, each with the name of its item.
  abbrev pub add_texts : List Bytes → Bytes → J → Option J
  add_texts [] s obj = some obj
  add_texts (key ∷ keys) s obj =
      and_then (split_str s) λ (text, rest).
        add_texts keys rest (lib.add_item_to_object key (lib.create_string text) obj)

  -- A report to the bus.
  abbrev pub report : Bytes → J → OutMsg
  report key obj = record {
    rmi = module_kafka;
    msg_code = snd2kafka;
    msg = lib.print_unformatted (lib.add_item_to_object key obj lib.create_object);
  }

  -- `OnRecvUpdateModuleInfo`
  unfoldable pub on_recv_update_module_info : Bytes → Bytes → UpdateModule → UpdateResult
  on_recv_update_module_info rid s st =
      if ltb (count_nul s) 4
      then some (st, [])
      else and_then (add_texts text_keys s lib.create_object) λ obj. some (
        st,
        report (codes "check_update")
              (lib.add_item_to_object (codes "rid") (lib.create_string rid) obj)
            ∷ [],
      )

  -- `OnRecvUpdateModuleResult`
  unfoldable pub on_recv_update_module_result : Bytes → Bytes → UpdateModule → UpdateResult
  on_recv_update_module_result rid [] st = some (st, [])
  on_recv_update_module_result rid (b ∷ s) st =
      if ltb (count_nul s) 4
      then some (st, [])
      else and_then (add_texts text_keys s lib.create_object) λ obj. some (
        st,
        report (codes "update_result") (
              lib.add_item_to_object (codes "result") (lib.create_number b)
                (lib.add_item_to_object (codes "rid") (lib.create_string rid) obj))
            ∷ [],
      )

  abbrev pub host_data : UpdateObj → UpdateModule → Option (ℕ × Bytes) → UpdateResult
  host_data obj st none = some (st, [])
  host_data obj st (some (code, rest)) =
      if code == aods_aodc_umi
      then on_recv_update_module_info obj.res_id rest st
      else if code == aods_aodc_udr
      then on_recv_update_module_result obj.res_id rest st
      else some (st, [])

  abbrev pub from_host : Bytes → UpdateModule → Option UpdateObj → UpdateResult
  from_host s st none = some (st, [])
  from_host s st (some obj) = host_data obj st (read32 s)

  -- `OnRecvAodsData`; fewer than four bytes have no code.
  unfoldable pub on_recv_aods_data : Bytes → Bytes → UpdateModule → UpdateResult
  on_recv_aods_data channel s st = from_host s st (lookup channel st.cuo)

  -- `OnRecvChannelData`
  unfoldable pub update_recv_channel_data : Bytes → UpdateModule → UpdateResult
  update_recv_channel_data s st = and_then (split_str s) λ (channel, rest).
      if contains aods_channel_name channel
      then on_recv_aods_data channel rest st
      else some (st, [])

  -- `strcpy` of one item after the other.
  abbrev pub copy_texts : List Bytes → J → Option Bytes
  copy_texts [] obj = some []
  copy_texts (key ∷ keys) obj = and_then (lib.get_object_item obj key) λ item.
      and_then (lib.value_string item)
        λ text. and_then (copy_texts keys obj) λ behind. some (c_str text ++ behind)

  module _ (malloc : ℕ → Option Bytes) where
    -- The update for a host, in a buffer of 1024 bytes.
    abbrev pub send_update : UpdateObj → UpdateModule → Bytes → ℕ → UpdateResult
    send_update obj st texts force =
        if ltb 1024 (length texts + 5)
        then none
        else (let amc =
              fill_cache malloc (c_str obj.channel_name)
                (le32 aodc_aods_umi ++ (texts ++ force % 256 ∷ [])) st.amc in
            some (record st { amc = amc }, cache_msg module_commu channel_send_data amc ∷ []))

    abbrev pub update_for : J → UpdateModule → Option UpdateObj → UpdateResult
    update_for obj st none = some (st, [])
    update_for obj st (some host) = and_then (copy_texts update_keys obj) λ texts.
        and_then (lib.get_object_item obj (codes "force"))
          λ force. send_update host st texts (lib.value_int force)

    abbrev pub with_update : UpdateModule → Option J → UpdateResult
    with_update st none = some (st, [])
    with_update st (some obj) =
        and_then (lib.get_object_item obj (codes "rid"))
          λ item. and_then (lib.value_string item) λ rid. update_for obj st (lookup rid st.ruo)

    abbrev pub update_json : UpdateModule → Option J → UpdateResult
    update_json st none = some (st, [])
    update_json st (some root) = with_update st (lib.get_object_item root (codes "update"))

    -- `OnRecvFromKafka`
    unfoldable pub update_recv_from_kafka : Bytes → UpdateModule → UpdateResult
    update_recv_from_kafka s st = update_json st (lib.parse (until_nul s))

    -- `OnMessage`, by the code of the message.
    unfoldable pub on_update_msg : UpdateMsg → UpdateModule → UpdateResult
    on_update_msg (update_data s) st = update_recv_channel_data s st
    on_update_msg (update_send_fail s) st = update_channel_freed s st
    on_update_msg (update_freed s) st = update_channel_freed s st
    on_update_msg (update_auth_suc s) st = on_auth_suc s st
    on_update_msg (update_from_kafka s) st = update_recv_from_kafka s st
    on_update_msg (update_timer timer_id) st = some (update_on_timer malloc timer_id st)
