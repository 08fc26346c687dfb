-- ===== src/Aodc/AuthModule/Answers.antt =====
-- What src/dev/aodc/AodsAuthModule.cpp answers to a host and does with the answer of the bus.
use mathlib.Core.Option
use aods.Base.{
  Bool, Bool-cases, Bytes, Bytes-Key, List, Option, [], ap, arith, bytes_eq, bytes_eq_iff, c_str,
  false, if◌then◌else◌, inl, inr, le32, length, length-append, lookup, ltb, not, refl, some, sym,
  take, true, ℕ, ℕ-Key, ◌&&◌, ◌*◌, ◌++◌, ◌+◌, ◌<◌, ◌==◌, ◌^◌, ◌∙◌, ◌∷◌, ◌≡◌, ◌≤◌,
}
use aods.Aodc.AuthModule.{
  AodsAodcAuthen, AuthInfo, AuthModule, auth_answer, auth_result_dif, auth_suc, authenticate,
  calc_active_code, check_code, fill_cache, is_other, max_ip_addr_num, registered, rejected,
}
use aods.Aodc.AuthModule.Changes.{HasCode, name_at}
use aods.Util.Helper.{get_hex_string}
use aods.Util.Json.{JsonLib}
use aods.Util.MemCache.{MemCache, append_buf, cur_data, reset}
use aods.Util.MemCache.Laws.{
  IsValid, Serves, append_buf_lem, append_step_size-append_buf, length-cur_data, reset_lem,
}
use aods.Util.OutMsg.{OutMsg, channel_send_data, free_msg, module_broadcast, module_commu}

-- A code that is right, for a resource that is not registered.
pub check_code-free :
    {J : Type 0} (lib : JsonLib J) (malloc : ℕ → Option Bytes) (junk : ℕ → ℕ) (channel : Bytes)
    (a : AodsAodcAuthen) (st : AuthModule)
    → HasCode junk a
    → length (name_at (get_hex_string a.res_id) st) ≡ 0
    → check_code lib malloc junk channel a st
      ≡ some (registered lib channel (get_hex_string a.res_id) a st)
unfolding check_code authenticate
check_code-free lib malloc junk channel a st code free =
    let right : bytes_eq (calc_active_code junk (a.res_id ++ a.rd_serial)) a.act_code ≡ true =
      (bytes_eq_iff _ _).1 (sym code) in
    let unknown : ltb 0 (length (name_at (get_hex_string a.res_id) st)) ≡ false =
      ground (arith, free) in
    rw (right, unknown)

-- The cache after `Reset` and two times `AppendBuf`.
pub fill_cache_lem :
    (malloc : ℕ → Option Bytes) (s t : Bytes) (c : MemCache)
    → Serves malloc
    → IsValid c
    → length s + length t + c.append_step_size < 2 ^ 32
    → IsValid (fill_cache malloc s t c) × (cur_data (fill_cache malloc s t c) ≡ s ++ t)
unfolding reset
fill_cache_lem malloc s t c serves v small =
    let r = reset_lem c v in
    let one = append_buf_lem malloc serves s (reset c) r.0 (omega arith) in
    let amc = (append_buf malloc s (reset c)).0 in
    let off : amc.cache_off ≡ length s =
      sym (length-cur_data amc one.1) ∙ ap length (one.2 ∙ ap (λ z. z ++ s) r.1) in
    let two =
      append_buf_lem malloc serves t amc one.1
        (omega (arith, off, append_step_size-append_buf malloc s (reset c))) in
    (two.1, two.2 ∙ ap (λ z. z ++ t) (one.2 ∙ ap (λ z. z ++ s) r.1))

pub step_of_fill_cache :
    (malloc : ℕ → Option Bytes) (s t : Bytes) (c : MemCache)
    → (fill_cache malloc s t c).append_step_size ≡ c.append_step_size
unfolding reset
step_of_fill_cache malloc s t c =
    append_step_size-append_buf malloc t (append_buf malloc s (reset c)).0
    ∙ append_step_size-append_buf malloc s (reset c)

-- The host of a message is the one that is registered.
abbrev pub is_same_host : AuthInfo → AodsAodcAuthen → Bool
is_same_host info a =
    (info.ip_num == a.ip_num)
    && bytes_eq (take (info.ip_num * 4) info.ip_addr) (take (info.ip_num * 4) a.ip_addr)

-- EN_AUTH_RESULT_DIF to a channel.
abbrev pub dif_msg : Bytes → OutMsg
dif_msg channel = record {
  rmi = module_commu;
  msg_code = channel_send_data;
  msg = c_str channel ++ auth_answer auth_result_dif;
}

-- The messages to a host that is turned away.
abbrev pub answers : Bytes → AuthInfo → Bool → List OutMsg
answers channel info same =
    if same
    then free_msg info.channel_name ∷ free_msg channel ∷ []
    else dif_msg channel ∷ free_msg channel ∷ []

pub length-answer : (rlt : ℕ) → length (auth_answer rlt) ≡ 5
unfolding le32
length-answer rlt = refl

rejected_lem :
    (malloc : ℕ → Option Bytes) (channel : Bytes) (info : AuthInfo) (a : AodsAodcAuthen)
    (st : AuthModule)
    → Serves malloc
    → IsValid st.amc
    → length channel + st.amc.append_step_size + 6 < 2 ^ 32
    → info.ip_num ≤ max_ip_addr_num
    → (after : AuthModule) × (Option.map (rejected malloc channel info st) (is_other info a)
        ≡ some (
          after,
          if is_same_host info a
              then free_msg info.channel_name ∷ free_msg channel ∷ []
              else dif_msg channel ∷ free_msg channel ∷ [],
        ))
      × (after.rc ≡ st.rc)
      × (after.cr ≡ st.cr)
rejected_lem malloc channel info a st serves v small few =
    let b = is_same_host info a in
    let tested : is_other info a ≡ some (not b) = ground arith in
    let amc = fill_cache malloc (c_str channel) (auth_answer auth_result_dif) st.amc in
    let sent : cur_data amc ≡ c_str channel ++ auth_answer auth_result_dif =
      (fill_cache_lem malloc (c_str channel) (auth_answer auth_result_dif) st.amc serves v
        (omega (arith, length-append channel (0 ∷ []), length-answer auth_result_dif))).1 in
    elim (Bool-cases b) [
      | inl same ↦ (
        st,
        ap (Option.map (rejected malloc channel info st)) tested
            ∙ ap (λ c. some (rejected malloc channel info st (not c))) same
            ∙ ap (λ c. some (st, answers channel info c)) (sym same),
        refl,
        refl,
      )
      | inr other ↦ (
        record st { amc = amc },
        ap (Option.map (rejected malloc channel info st)) tested
            ∙ ap (λ c. some (rejected malloc channel info st (not c))) other
            ∙ ap
                (λ z. some (
                  record st { amc = amc },
                  (record { rmi = module_commu; msg_code = channel_send_data; msg = z }
                      ∷ free_msg channel
                      ∷ []),
                ))
                sent
            ∙ ap (λ c. some (record st { amc = amc }, answers channel info c)) (sym other),
        refl,
        refl,
      )
    ]

-- On an allocator that serves every request, a host that sends the right code for a resource
-- that is registered, with at most 16 addresses, is turned away and the maps stay as they are:
-- both channels are freed where it has the addresses that are registered, and else it is told so
-- and its channel alone is freed. The sizes stay within an unsigned int.
pub check_code-taken :
    {J : Type 0} (lib : JsonLib J) (malloc : ℕ → Option Bytes) (junk : ℕ → ℕ) (channel : Bytes)
    (a : AodsAodcAuthen) (info : AuthInfo) (st : AuthModule)
    → Serves malloc
    → IsValid st.amc
    → length channel + st.amc.append_step_size + 6 < 2 ^ 32
    → HasCode junk a
    → lookup (get_hex_string a.res_id) st.rc ≡ some info
    → 0 < length info.channel_name
    → info.ip_num ≤ max_ip_addr_num
    → (after : AuthModule) × (check_code lib malloc junk channel a st
        ≡ some (after, answers channel info (is_same_host info a)))
      × (after.rc ≡ st.rc)
      × (after.cr ≡ st.cr)
unfolding check_code authenticate
check_code-taken lib malloc junk channel a info st serves v small code there named few =
    let right : bytes_eq (calc_active_code junk (a.res_id ++ a.rd_serial)) a.act_code ≡ true =
      (bytes_eq_iff _ _).1 (sym code) in
    let known : ltb 0 (length info.channel_name) ≡ true = ground (arith, named) in
    rw (right, there, known) (rejected_lem malloc channel info a st serves v small few)

-- The messages once the bus has answered for a resource.
abbrev pub ack_msgs : Bytes → Bytes → ℕ → List OutMsg
ack_msgs rid channel ack =
    let told : OutMsg = record {
      rmi = module_broadcast;
      msg_code = auth_suc;
      msg = c_str rid ++ c_str channel;
    } in
    let answer : OutMsg = record {
      rmi = module_commu;
      msg_code = channel_send_data;
      msg = c_str channel ++ auth_answer ack;
    } in
    if ack == 0 then told ∷ answer ∷ [] else answer ∷ []
