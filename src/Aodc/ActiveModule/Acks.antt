-- ===== src/Aodc/ActiveModule/Acks.antt =====
-- The handlers of src/dev/aodc/AodsActiveModule.cpp for the end of a channel and for the answers of
-- the bus, with the messages that give a code out.
use mathlib.Core.Option
use aods.Base.{
  Bool, Bytes, Bytes-Key, List, Option, [], and_then, c_str, codes, contains, erase, false,
  if◌then◌else◌, le32, length, lookup, ltb, none, some, split_str, take, true, ℕ, ℕ-Key, ◌%◌, ◌++◌,
  ◌==◌, ◌∷◌,
}
use aods.Aodc.ActiveModule.{
  ActiveInfo, ActiveModule, ActiveMsg, ActiveResult, Inet, active_builded, active_data,
  active_freed, active_from_kafka, active_recv_channel_data, active_send_fail, aodc_aods_actv,
  failed, on_channel_builded,
}
use aods.Aodc.AuthModule.{
  act_code_len, aods_channel_name, cache_msg, calc_active_code, module_kafka, snd2kafka, until_nul,
}
use aods.Util.Helper.{get_hex_data, get_hex_string}
use aods.Util.Json.{JsonLib}
use aods.Util.MemCache.{MemCache, append_buf, overwrite, reset}
use aods.Util.OutMsg.{OutMsg, channel_send_data, free_msg, module_commu}

-- `OnSendChannelDataFail`
unfoldable pub active_send_channel_data_fail : Bytes → ActiveModule → ActiveResult
active_send_channel_data_fail s st = and_then (split_str s) λ (channel, rest).
    some (st, if contains aods_channel_name channel then free_msg channel ∷ [] else [])

-- `OnChannelFreed`: `erase` of the end of a map where the request is not there.
abbrev pub free_request : Bytes → Bytes → ActiveModule → Option ActiveInfo → ActiveResult
free_request channel uuid st none = none
free_request channel uuid st (some info) =
    some (
      record st { uai = erase uuid st.uai; cu = erase channel st.cu; ca = erase channel st.ca },
      [],
    )

abbrev pub free_channel : Bytes → ActiveModule → Option Bytes → ActiveResult
free_channel channel st none = some (st, [])
free_channel channel st (some uuid) = free_request channel uuid st (lookup uuid st.uai)

unfoldable pub active_channel_freed : Bytes → ActiveModule → ActiveResult
active_channel_freed s st = and_then (split_str s) λ (channel, rest).
    if contains aods_channel_name channel
    then free_channel channel st (lookup channel st.cu)
    else some (st, [])

-- AODS_ACTIVE_SUC behind its result and its code.
abbrev pub success_answer : Bytes → Bytes → Bytes
success_answer res_id code = le32 aodc_aods_actv ++ 0 ∷ res_id ++ code

-- `RspActiveSuc`, which sends nothing where the cache does not grow.
abbrev pub rsp_sent : (ℕ → Option Bytes) → Bytes → MemCache × Bool → MemCache × List OutMsg
rsp_sent malloc s (c, false) = (c, [])
rsp_sent malloc s (c, true) =
    let (amc, done) = append_buf malloc s c in
    (amc, if done then cache_msg module_commu channel_send_data amc ∷ [] else [])

unfoldable pub rsp_active_suc :
    (ℕ → Option Bytes) → Bytes → Bytes → Bytes → MemCache → MemCache × List OutMsg
rsp_active_suc malloc channel code res_id c =
    rsp_sent malloc (success_answer res_id code) (append_buf malloc (c_str channel) (reset c))

module _ {J : Type 0} (lib : JsonLib J) (inet : Inet) where
  -- `ReportActiveSuc`
  unfoldable pub report_active_suc : Bytes → Bytes → OutMsg
  report_active_suc code res_id =
      let obj =
        lib.add_item_to_object (codes "active_code") (lib.create_string (get_hex_string code))
          lib.create_object in
      let obj' =
        lib.add_item_to_object (codes "rid") (lib.create_string (get_hex_string res_id)) obj in
      record {
        rmi = module_kafka;
        msg_code = snd2kafka;
        msg =
            lib.print_unformatted
              (lib.add_item_to_object (codes "active_suc") obj' lib.create_object);
      }

  module _ (malloc : ℕ → Option Bytes) (junk : ℕ → ℕ) where
    -- `OnActiveSucc`
    unfoldable pub on_active_succ : Bytes → Bytes → ActiveModule → ActiveModule × List OutMsg
    on_active_succ channel active st =
        let res_id = take 6 active in
        let code = calc_active_code junk active in
        let (amc, sent) = rsp_active_suc malloc channel code res_id st.amc in
        (record st { amc = amc }, report_active_suc code res_id ∷ sent)

    -- The number of the resource, written over the front of the code by `GetHexData`.
    abbrev pub with_rid : Bytes → ActiveInfo → ActiveModule → Bytes → ActiveResult
    with_rid channel info st rid =
        let res = get_hex_data rid in
        if ltb act_code_len (length res)
        then none
        else some (on_active_succ channel (overwrite 0 res info.active_code) st)

    abbrev pub active_acked : J → Bytes → ActiveInfo → ActiveModule → J → ActiveResult
    active_acked obj channel info st ack =
        if lib.value_int ack == 0
        then (and_then (lib.get_object_item obj (codes "rid"))
            λ r. and_then (lib.value_string r) (with_rid channel info st))
        else failed channel (lib.value_int ack % 256) st

    -- What follows the answer: the request is dropped and the channel freed.
    abbrev pub request_done :
        Bytes → Bytes → ActiveModule × List OutMsg → ActiveModule × List OutMsg
    request_done uuid channel (st, out) = (
      record st { uai = erase uuid st.uai; cu = erase channel st.cu; ca = erase channel st.ca },
      out ++ free_msg channel ∷ [],
    )

    -- `it2->first`, which is no element where the channel has no request.
    abbrev pub request_ack : J → Bytes → ActiveInfo → ActiveModule → Option Bytes → ActiveResult
    request_ack obj uuid info st none = none
    request_ack obj uuid info st (some other) =
        and_then (lib.get_object_item obj (codes "ack")) λ ack.
          Option.map (request_done uuid info.channel_name)
            (active_acked obj info.channel_name info st ack)

    abbrev pub for_request : J → Bytes → ActiveModule → Option ActiveInfo → ActiveResult
    for_request obj uuid st none = some (st, [])
    for_request obj uuid st (some info) =
        request_ack obj uuid info st (lookup info.channel_name st.cu)

    abbrev pub with_active_ack : ActiveModule → Option J → ActiveResult
    with_active_ack st none = some (st, [])
    with_active_ack st (some obj) =
        and_then (lib.get_object_item obj (codes "uuid"))
          λ u. and_then (lib.value_string u) λ uuid. for_request obj uuid st (lookup uuid st.uai)

    abbrev pub active_json : ActiveModule → Option J → ActiveResult
    active_json st none = some (st, [])
    active_json st (some obj) = with_active_ack st (lib.get_object_item obj (codes "active_ack"))

    -- `OnRecvFromKafka`
    unfoldable pub active_recv_from_kafka : Bytes → ActiveModule → ActiveResult
    active_recv_from_kafka s st = active_json st (lib.parse (until_nul s))

    -- `OnMessage`, by the code of the message; an identifier comes with what a channel has received.
    unfoldable pub on_active_msg : ActiveMsg → ActiveModule → ActiveResult
    on_active_msg (active_builded s) st = on_channel_builded s st
    on_active_msg (active_data uuid s) st = active_recv_channel_data lib inet uuid s st
    on_active_msg (active_send_fail s) st = active_send_channel_data_fail s st
    on_active_msg (active_freed s) st = active_channel_freed s st
    on_active_msg (active_from_kafka s) st = active_recv_from_kafka s st
