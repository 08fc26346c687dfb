-- ===== src/Aodc/ActiveModule/Codes.antt =====
-- The answers of the bus in src/dev/aodc/AodsActiveModule.cpp, and the codes that come of them,
-- which src/dev/aodc/AodsAuthModule.cpp takes.
use mathlib.Core.Option
use aods.Base.{
  Bool-cases, Bytes, Bytes-Key, List, Option, [], and_then, ap, arith, c_str, codes, erase, false,
  inl, inr, length, lookup, lookup-erase, ltb, none, refl, some, ℕ, ℕ-Key, ◌%◌, ◌++◌, ◌+◌, ◌==◌,
  ◌∙◌, ◌∷◌, ◌≡◌, ◌≢◌, ◌≤◌,
}
use aods.Aodc.ActiveModule.{
  ActiveInfo, ActiveModule, ActiveMsg, ActiveResult, Inet, active_answer, active_builded,
  active_data, active_freed, active_from_kafka, active_send_fail, failed, max_text_len,
  on_active_failed_result,
}
use aods.Aodc.ActiveModule.Acks.{
  active_acked, active_json, active_recv_from_kafka, for_request, on_active_msg, on_active_succ,
  request_ack, request_done, with_active_ack, with_rid,
}
use aods.Aodc.ActiveModule.Laws.{
  IsFresh, IsPaired, IsPaired-erase, KeepsPaired, KeepsPaired-active_channel_freed,
  KeepsPaired-active_recv_channel_data, KeepsPaired-active_send_channel_data_fail,
  KeepsPaired-and_then, KeepsPaired-on_channel_builded, name_of,
}
use aods.Aodc.AuthModule.{act_code_len, until_nul}
use aods.Util.Helper.{get_hex_data}
use aods.Util.Json.{JsonLib}
use aods.Util.OutMsg.{OutMsg, channel_send_data, free_msg, module_commu}

-- The maps of the requests are those of `st`.
abbrev pub SameRequests : ActiveModule → ActiveResult → Type 0
SameRequests st none = Unit
SameRequests st (some (st', out)) = (st'.uai ≡ st.uai) × (st'.cu ≡ st.cu)

SameRequests-and_then :
    {A : Type 0} (st : ActiveModule) (o : Option A) (f : A → ActiveResult)
    → ((x : A) → SameRequests st (f x))
    → SameRequests st (and_then o f)
SameRequests-and_then st none f h = tt
SameRequests-and_then st (some x) f h = h x

SameRequests-failed :
    (channel : Bytes) (rlt : ℕ) (st : ActiveModule) → SameRequests st (failed channel rlt st)
SameRequests-failed channel rlt st =
    SameRequests-and_then st (on_active_failed_result channel rlt) _ λ out. (refl, refl)

-- A message of the bus that answers the request `uuid`: its parts, as the library shows them.
pub record IsAck {J : Type 0} (lib : JsonLib J) (s uuid : Bytes) (obj ack : J) : Type 0 where
  pub root : J
  pub id : J
  pub parsed : lib.parse (until_nul s) ≡ some root
  pub has_obj : lib.get_object_item root (codes "active_ack") ≡ some obj
  pub has_id : lib.get_object_item obj (codes "uuid") ≡ some id
  pub is_text : lib.value_string id ≡ some uuid
  pub has_ack : lib.get_object_item obj (codes "ack") ≡ some ack

module _ {J : Type 0} (lib : JsonLib J) (inet : Inet) (malloc : ℕ → Option Bytes)
    (junk : ℕ → ℕ) where
  SameRequests-with_rid :
      (channel : Bytes) (info : ActiveInfo) (st : ActiveModule) (rid : Bytes)
      → SameRequests st (with_rid lib inet malloc junk channel info st rid)
  unfolding on_active_succ
  SameRequests-with_rid channel info st rid =
      elim (Bool-cases (ltb act_code_len (length (get_hex_data rid)))) [
        | inl long ↦ rw long tt
        | inr fits ↦ rw fits (refl, refl)
      ]

  SameRequests-active_acked :
      (obj : J) (channel : Bytes) (info : ActiveInfo) (st : ActiveModule) (ack : J)
      → SameRequests st (active_acked lib inet malloc junk obj channel info st ack)
  SameRequests-active_acked obj channel info st ack = elim (Bool-cases (lib.value_int ack == 0)) [
    | inl done ↦ rw done (
        SameRequests-and_then st (lib.get_object_item obj (codes "rid")) _ λ r.
          SameRequests-and_then st (lib.value_string r) _
            λ rid. SameRequests-with_rid channel info st rid)
    | inr refused ↦ rw refused (SameRequests-failed channel (lib.value_int ack % 256) st)
  ]

  KeepsPaired-done :
      (uuid channel : Bytes) (st : ActiveModule) (o : ActiveResult)
      → IsPaired st
      → name_of (lookup uuid st.uai) ≡ channel
      → SameRequests st o
      → KeepsPaired (Option.map (request_done lib inet malloc junk uuid channel) o)
  KeepsPaired-done uuid channel st none v h e = tt
  KeepsPaired-done uuid channel st (some (st', out)) v h e =
      IsPaired-erase channel uuid st _ v h (ap (erase uuid) e.0) (ap (erase channel) e.1)

  KeepsPaired-request_ack :
      (obj : J) (uuid : Bytes) (info : ActiveInfo) (st : ActiveModule) (o : Option Bytes)
      → IsPaired st
      → name_of (lookup uuid st.uai) ≡ info.channel_name
      → KeepsPaired (request_ack lib inet malloc junk obj uuid info st o)
  KeepsPaired-request_ack obj uuid info st none v h = tt
  KeepsPaired-request_ack obj uuid info st (some other) v h =
      KeepsPaired-and_then (lib.get_object_item obj (codes "ack")) _ λ ack.
        KeepsPaired-done uuid info.channel_name st _ v h
          (SameRequests-active_acked obj info.channel_name info st ack)

  KeepsPaired-for_request :
      (obj : J) (uuid : Bytes) (st : ActiveModule) (o : Option ActiveInfo)
      → IsPaired st
      → lookup uuid st.uai ≡ o
      → KeepsPaired (for_request lib inet malloc junk obj uuid st o)
  KeepsPaired-for_request obj uuid st none v e = v
  KeepsPaired-for_request obj uuid st (some info) v e =
      KeepsPaired-request_ack obj uuid info st (lookup info.channel_name st.cu) v (ap name_of e)

  KeepsPaired-with_active_ack :
      (st : ActiveModule) (o : Option J)
      → IsPaired st
      → KeepsPaired (with_active_ack lib inet malloc junk st o)
  KeepsPaired-with_active_ack st none v = v
  KeepsPaired-with_active_ack st (some obj) v =
      KeepsPaired-and_then (lib.get_object_item obj (codes "uuid")) _ λ u.
        KeepsPaired-and_then (lib.value_string u) _
          λ uuid. KeepsPaired-for_request obj uuid st (lookup uuid st.uai) v refl

  KeepsPaired-active_json :
      (st : ActiveModule) (o : Option J)
      → IsPaired st
      → KeepsPaired (active_json lib inet malloc junk st o)
  KeepsPaired-active_json st none v = v
  KeepsPaired-active_json st (some root) v =
      KeepsPaired-with_active_ack st (lib.get_object_item root (codes "active_ack")) v

  -- Maps that are paired stay so, whatever message arrives, where the identifier of a request
  -- is new: a channel with an identifier is the channel that the request of the identifier
  -- came from, unless the handler does not return.
  pub on_active_msg-KeepsPaired :
      (msg : ActiveMsg) (st : ActiveModule)
      → IsPaired st
      → IsFresh msg st
      → KeepsPaired (on_active_msg lib inet malloc junk msg st)
  unfolding on_active_msg active_recv_from_kafka
  on_active_msg-KeepsPaired (active_data uuid s) st v fresh =
      KeepsPaired-active_recv_channel_data lib inet uuid s st v fresh
  on_active_msg-KeepsPaired (active_builded s) st v fresh = KeepsPaired-on_channel_builded s st v
  on_active_msg-KeepsPaired (active_send_fail s) st v fresh =
      KeepsPaired-active_send_channel_data_fail s st v
  on_active_msg-KeepsPaired (active_freed s) st v fresh = KeepsPaired-active_channel_freed s st v
  on_active_msg-KeepsPaired (active_from_kafka s) st v fresh =
      KeepsPaired-active_json st (lib.parse (until_nul s)) v

  -- The request that an answer is for.
  pub active_recv_from_kafka-IsAck :
      (s uuid : Bytes) (obj ack : J) (st : ActiveModule)
      → IsAck lib s uuid obj ack
      → active_recv_from_kafka lib inet malloc junk s st
        ≡ for_request lib inet malloc junk obj uuid st (lookup uuid st.uai)
  unfolding active_recv_from_kafka
  active_recv_from_kafka-IsAck s uuid obj ack st w =
      ap (active_json lib inet malloc junk st) w.parsed
      ∙ ap (with_active_ack lib inet malloc junk st) w.has_obj
      ∙ ap
          (λ o. and_then o λ u.
            and_then (lib.value_string u)
              λ x. for_request lib inet malloc junk obj x st (lookup x st.uai))
          w.has_id
      ∙ ap (λ o. and_then o λ x. for_request lib inet malloc junk obj x st (lookup x st.uai))
          w.is_text

  -- What the answer to a request comes to.
  pub active_recv_from_kafka-acked :
      (s uuid : Bytes) (obj ack : J) (info : ActiveInfo) (other : Bytes) (st : ActiveModule)
      → IsAck lib s uuid obj ack
      → lookup uuid st.uai ≡ some info
      → lookup info.channel_name st.cu ≡ some other
      → active_recv_from_kafka lib inet malloc junk s st
        ≡ Option.map
            (request_done lib inet malloc junk uuid info.channel_name)
            (active_acked lib inet malloc junk obj info.channel_name info st ack)
  active_recv_from_kafka-acked s uuid obj ack info other st w there has =
      active_recv_from_kafka-IsAck s uuid obj ack st w
      ∙ ap (for_request lib inet malloc junk obj uuid st) there
      ∙ ap (request_ack lib inet malloc junk obj uuid info st) has
      ∙ ap
          (λ o. and_then o λ x.
            Option.map (request_done lib inet malloc junk uuid info.channel_name)
              (active_acked lib inet malloc junk obj info.channel_name info st x))
          w.has_ack

  -- A channel with a name of up to 1018 bytes that has asked twice: once the first request is
  -- refused, the answer to the second one makes the module use the end of a map.
  pub active_recv_from_kafka-twice :
      (s s' uuid uuid' : Bytes) (obj obj' ack ack' : J) (info info' : ActiveInfo) (other : Bytes)
      (st : ActiveModule)
      → IsAck lib s uuid obj ack
      → IsAck lib s' uuid' obj' ack'
      → uuid ≢ uuid'
      → lookup uuid st.uai ≡ some info
      → lookup uuid' st.uai ≡ some info'
      → info'.channel_name ≡ info.channel_name
      → lookup info.channel_name st.cu ≡ some other
      → (lib.value_int ack == 0) ≡ false
      → length info.channel_name + 6 ≤ max_text_len
      → (after : ActiveModule) × (out : List OutMsg) × (active_recv_from_kafka lib inet malloc junk
            s st
          ≡ some (after, out))
        × (active_recv_from_kafka lib inet malloc junk s' after ≡ none)
  unfolding on_active_failed_result
  active_recv_from_kafka-twice s s' uuid uuid' obj obj' ack ack' info info' other st w w' differ
        there there' same has refused short =
      let channel = info.channel_name in
      let left : ActiveModule = record st {
        uai = erase uuid st.uai;
        cu = erase channel st.cu;
        ca = erase channel st.ca;
      } in
      let fits : ltb max_text_len (length channel + 6) ≡ false = ground (arith, short) in
      let still : lookup uuid' left.uai ≡ some info' =
        ground
          (arith, lookup-erase uuid' uuid st.uai, Bytes-Key.same_iff uuid uuid', differ, there') in
      let gone : lookup info'.channel_name left.cu ≡ none = ground (
        arith,
        lookup-erase info'.channel_name channel st.cu,
        Bytes-Key.same_iff channel info'.channel_name,
        same,
      ) in
      (
        left,
        record {
          rmi = module_commu;
          msg_code = channel_send_data;
          msg = c_str channel ++ active_answer (lib.value_int ack % 256);
        }
            ∷ free_msg channel
            ∷ [],
        active_recv_from_kafka-acked s uuid obj ack info other st w there has
            ∙ rw (refused, fits) refl,
        active_recv_from_kafka-IsAck s' uuid' obj' ack' left w'
            ∙ ap (for_request lib inet malloc junk obj' uuid' left) still
            ∙ ap (request_ack lib inet malloc junk obj' uuid' info' left) gone,
      )
