-- ===== src/Aodc/ActiveModule/Activation.antt =====
-- A code that src/dev/aodc/AodsActiveModule.cpp gives out, from the answer of the bus to the
-- authentication of the host.
use mathlib.Core.Option
use aods.Base.{
  Bytes, Bytes-Key, IsBytes, Option, [], ap, ap₂, arith, c_str, codes, drop, drop-append_self,
  erase, false, if◌then◌else◌, le32, length, length-append, length-take, lookup, ltb, refl, some,
  sym, take, take-append_self, true, ℕ, ℕ-Key, ◌++◌, ◌+◌, ◌-◌, ◌<◌, ◌==◌, ◌^◌, ◌∙◌, ◌∷◌, ◌≡◌, ◌≤◌,
}
use aods.Aodc.ActiveModule.{ActiveInfo, ActiveModule, Inet}
use aods.Aodc.ActiveModule.Acks.{
  active_acked, active_recv_from_kafka, on_active_succ, report_active_suc, request_done,
  rsp_active_suc, rsp_sent, success_answer,
}
use aods.Aodc.ActiveModule.Codes.{IsAck, active_recv_from_kafka-acked}
use aods.Aodc.AuthModule.{
  AodsAodcAuthen, AuthModule, act_code_len, active_key, cache_msg, calc_active_code, check_code,
  crc8_of, registered,
}
use aods.Aodc.AuthModule.Changes.{HasCode, name_at}
use aods.Util.Helper.{get_hex_string}
use aods.Util.Json.{JsonLib}
use aods.Util.MemCache.{MemCache, append_buf, overwrite, reset}
use aods.Util.MemCache.Laws.{
  IsValid, Serves, append_buf_lem, append_step_size-append_buf, length-cur_data, reset_lem,
}
use aods.Util.OutMsg.{OutMsg, channel_send_data, free_msg, module_commu}
use aods.Util.Helper.Laws.{get_hex_data-get_hex_string}
use aods.Util.Encrypt.{default, set_key}
use aods.Util.Encrypt.Laws.{length-encode}
use aods.Aodc.AuthModule.Answers.{check_code-free}

-- Data for a channel.
abbrev pub sent_data : Bytes → OutMsg
sent_data s = record { rmi = module_commu; msg_code = channel_send_data; msg = s }

-- The message with a code to a host.
abbrev pub success_msg : Bytes → Bytes → Bytes → OutMsg
success_msg channel res code = record {
  rmi = module_commu;
  msg_code = channel_send_data;
  msg = c_str channel ++ success_answer res code;
}

-- The two messages, on an allocator that serves every request.
rsp_active_suc_lem :
    (malloc : ℕ → Option Bytes) (channel code res : Bytes) (c : MemCache)
    → Serves malloc
    → IsValid c
    → length channel + length code + length res + c.append_step_size + 6 < 2 ^ 32
    → (rsp_active_suc malloc channel code res c).1 ≡ success_msg channel res code ∷ []
unfolding rsp_active_suc reset le32
rsp_active_suc_lem malloc channel code res c serves v small =
    let r = reset_lem c v in
    let answer = success_answer res code in
    let size : length answer ≡ 5 + length res + length code =
      omega (arith, length-append res code) in
    let name_size = length-append channel (0 ∷ []) in
    let one =
      append_buf_lem malloc serves (c_str channel) (reset c) r.0 (omega (arith, name_size)) in
    let amc = (append_buf malloc (c_str channel) (reset c)).0 in
    let off : amc.cache_off ≡ length (c_str channel) =
      sym (length-cur_data amc one.1) ∙ ap length (one.2 ∙ ap (λ z. z ++ c_str channel) r.1) in
    let two = append_buf_lem malloc serves answer amc one.1 (
      omega (
        arith,
        off,
        size,
        name_size,
        append_step_size-append_buf malloc (c_str channel) (reset c),
      )) in
    ap (λ b. (rsp_sent malloc answer (amc, b)).1) one.0
    ∙ ap
        (λ b.
          if b
          then cache_msg module_commu channel_send_data (append_buf malloc answer amc).0 ∷ []
          else [])
        two.0
    ∙ ap (λ z. sent_data z ∷ [])
        (two.2 ∙ ap (λ z. z ++ answer) (one.2 ∙ ap (λ z. z ++ c_str channel) r.1))

length-calc_active_code : (junk : ℕ → ℕ) (code : Bytes) → length (calc_active_code junk code) ≤ 20
unfolding calc_active_code
length-calc_active_code junk code =
    let body = take (act_code_len - 1) code in
    omega (
      arith,
      length-encode (set_key (active_key 16 0) 16 (default junk)) (body ++ crc8_of body ∷ []),
      length-append body (crc8_of body ∷ []),
      length-take (act_code_len - 1) code,
    )

module _ {J : Type 0} (lib : JsonLib J) (inet : Inet) (malloc : ℕ → Option Bytes)
    (junk : ℕ → ℕ) where
  -- On an allocator that serves every request, when the bus grants a request with the number
  -- of a resource, the code for that number and the serial number of the request is reported
  -- to the bus and sent to the channel, which is then freed, and the request is dropped; a
  -- host that then authenticates with that code registers the resource, if it is not
  -- registered. The sizes stay within an unsigned int.
  pub active_recv_from_kafka-check_code :
      (s uuid other res old serial : Bytes) (obj ack r : J) (info : ActiveInfo) (st : ActiveModule)
      (channel : Bytes) (a : AodsAodcAuthen) (auth : AuthModule)
      → Serves malloc
      → IsValid st.amc
      → length info.channel_name + st.amc.append_step_size + 40 < 2 ^ 32
      → IsAck lib s uuid obj ack
      → (lib.value_int ack == 0) ≡ true
      → lib.get_object_item obj (codes "rid") ≡ some r
      → lib.value_string r ≡ some (get_hex_string res)
      → IsBytes res
      → length res ≡ 6
      → lookup uuid st.uai ≡ some info
      → lookup info.channel_name st.cu ≡ some other
      → info.active_code ≡ old ++ serial
      → length old ≡ 6
      → length serial ≡ 14
      → a.res_id ≡ res
      → a.rd_serial ≡ serial
      → a.act_code ≡ calc_active_code junk (res ++ serial)
      → length (name_at (get_hex_string a.res_id) auth) ≡ 0
      → (after : ActiveModule) × (active_recv_from_kafka lib inet malloc junk s st
          ≡ some (
            after,
            report_active_suc lib inet a.act_code res
                ∷ success_msg info.channel_name res a.act_code
                ∷ free_msg info.channel_name
                ∷ [],
          ))
        × (after.uai ≡ erase uuid st.uai)
        × (check_code lib malloc junk channel a auth
            ≡ some (registered lib channel (get_hex_string res) a auth))
  unfolding on_active_succ
  active_recv_from_kafka-check_code s uuid other res old serial obj ack r info st channel a auth
        serves v small w granted has_rid rid bytes six there has laid old_six fourteen same_res
        same_serial code free =
      let name = info.channel_name in
      let active = res ++ serial in
      let fits : ltb act_code_len (length res) ≡ false = ground (arith, six) in
      let behind : drop (0 + length res) info.active_code ≡ serial =
        ap (drop (0 + length res)) laid
        ∙ drop-append_self (0 + length res) old serial (omega (arith, six, old_six)) in
      let written : overwrite 0 res info.active_code ≡ active = ap (λ z. res ++ z) behind in
      let front : take 6 active ≡ res = take-append_self 6 res serial (sym six) in
      let acked : active_acked lib inet malloc junk obj name info st ack
          ≡ some (on_active_succ lib inet malloc junk name active st) =
        rw (granted, has_rid, rid, get_hex_data-get_hex_string res bytes (omega (arith, six)), fits)
          (ap (λ z. some (on_active_succ lib inet malloc junk name z st)) written) in
      let has_code : HasCode junk a =
        code ∙ ap₂ (λ x y. calc_active_code junk (x ++ y)) (sym same_res) (sym same_serial) in
      let result =
        request_done lib inet malloc junk uuid name
          (on_active_succ lib inet malloc junk name active st) in
      let sent =
        rsp_active_suc_lem malloc name (calc_active_code junk active) res st.amc serves v
          (omega (arith, six, length-calc_active_code junk active)) in
      (
        result.0,
        active_recv_from_kafka-acked lib inet malloc junk s uuid obj ack info other st w there has
            ∙ ap (Option.map (request_done lib inet malloc junk uuid name)) acked
            ∙ ap
                (λ z. some (
                  result.0,
                  report_active_suc lib inet (calc_active_code junk active) z
                        ∷ (rsp_active_suc malloc name (calc_active_code junk active) z st.amc).1
                      ++ free_msg name ∷ [],
                ))
                front
            ∙ ap
                (λ z. some (
                  result.0,
                  report_active_suc lib inet (calc_active_code junk active) res ∷ z
                      ++ free_msg name ∷ [],
                ))
                sent
            ∙ ap
                (λ z. some (
                  result.0,
                  report_active_suc lib inet z res ∷ success_msg name res z ∷ free_msg name ∷ [],
                ))
                (sym code),
        refl,
        check_code-free lib malloc junk channel a auth has_code free
            ∙ ap (λ z. some (registered lib channel (get_hex_string z) a auth)) same_res,
      )
