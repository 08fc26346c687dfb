-- ===== src/Aodc/ActiveModule/Examples.antt =====
-- Hosts that ask for activation, and the answers that the bus gives them.
use aods.Base.{
  Bytes, Bytes-Key, List, Option, [], arith, bytes_eq, c_str, codes, contains, erase, if◌then◌else◌,
  length-replicate, lookup, none, refl, replicate, some, starts_with, true, ℕ, ℕ-Key, ◌++◌, ◌∷◌,
  ◌≡◌,
}
use aods.Util.MemCache.Laws.{IsValid, Serves}
use aods.Aodc.ActiveModule.{ActiveInfo, ActiveModule, Inet, active_freed}
use aods.Aodc.ActiveModule.Acks.{
  active_channel_freed, active_recv_from_kafka, on_active_msg, report_active_suc,
}
use aods.Aodc.ActiveModule.Activation.{active_recv_from_kafka-check_code, success_msg}
use aods.Aodc.ActiveModule.Codes.{IsAck, active_recv_from_kafka-twice, on_active_msg-KeepsPaired}
use aods.Aodc.ActiveModule.Laws.{IsPaired, KeepsPaired, active_channel_freed-served}
use aods.Aodc.AuthModule.{
  AodsAodcAuthen, AuthModule, aods_channel_name, calc_active_code, check_code, registered,
}
use aods.Util.Helper.{get_hex_string}
use aods.Util.Json.{JsonLib, json_string}
use aods.Util.MemCache.{MemCache}
use aods.Util.OutMsg.{OutMsg, free_msg}

abbrev zero_pages : ℕ → Option Bytes
zero_pages n = some (replicate n 0)

zero_pages-Serves : Serves zero_pages
zero_pages-Serves n = (replicate n 0, refl, length-replicate n 0)

abbrev no_junk : ℕ → ℕ
no_junk n = 0

abbrev name : Bytes
name = codes "AodsServer:7"

abbrev serial : Bytes
serial = replicate 14 5

abbrev request : ActiveInfo
request = record { channel_name = name; active_code = replicate 6 0 ++ serial }

abbrev cache : MemCache
cache = record { append_step_size = 8; cache_size = 4; cache_off = 0; cache = some (replicate 4 0) }

cache-IsValid : IsValid cache
cache-IsValid = record {
  block = replicate 4 0;
  allocated = refl;
  sized = refl;
  filled = omega arith;
}

-- Two requests of one channel, the second of which has replaced the first one's identifier.
abbrev twice_asked : ActiveModule
twice_asked = record {
  uai = (codes "U1", request) ∷ (codes "U2", request) ∷ [];
  cu = (name, codes "U2") ∷ [];
  ca = (name, codes "10.0.0.1:80") ∷ [];
  amc = cache;
}

abbrev res : Bytes
res = 1 ∷ 2 ∷ 3 ∷ 4 ∷ 5 ∷ 0xAB ∷ []

-- A bus whose texts answer the request that they name, with the result `ack`.
abbrev bus : ℕ → JsonLib Bytes
bus ack = record {
  parse = λ s. some s;
  get_object_item = λ j key. some (
      if bytes_eq key (codes "rid")
      then get_hex_string res
      else if bytes_eq key (codes "ack")
      then []
      else j);
  children = λ j. [];
  kind = λ j. json_string;
  name = λ j. [];
  value_string = λ j. some j;
  value_int = λ j. ack;
  create_object = [];
  create_string = λ s. s;
  create_number = λ n. [];
  create_array = [];
  add_item_to_array = λ item j. j;
  add_item_to_object = λ key item j. j;
  print_unformatted = λ j. j;
}

abbrev net : Inet
net = record { inet_addr = λ s. 1; inet_ntoa = λ n. codes "10.0.0.1" }

IsAck-bus : (ack : ℕ) → IsAck (bus ack) (codes "U1") (codes "U1") (codes "U1") []
unfolding bytes_eq
IsAck-bus ack = record {
  root = codes "U1";
  id = codes "U1";
  parsed = refl;
  has_obj = refl;
  has_id = refl;
  is_text = refl;
  has_ack = refl;
}

second_IsAck : (ack : ℕ) → IsAck (bus ack) (codes "U2") (codes "U2") (codes "U2") []
unfolding bytes_eq
second_IsAck ack = record {
  root = codes "U2";
  id = codes "U2";
  parsed = refl;
  has_obj = refl;
  has_id = refl;
  is_text = refl;
  has_ack = refl;
}

first_request : lookup (codes "U1") twice_asked.uai ≡ some request
unfolding Bytes-Key bytes_eq
first_request = refl

second_request : lookup (codes "U2") twice_asked.uai ≡ some request
unfolding Bytes-Key bytes_eq
second_request = refl

has_second : lookup name twice_asked.cu ≡ some (codes "U2")
unfolding Bytes-Key bytes_eq
has_second = refl

has_rid : (bus 0).get_object_item (codes "U1") (codes "rid") ≡ some (get_hex_string res)
unfolding bytes_eq
has_rid = refl

twice_asked-IsPaired : IsPaired twice_asked
twice_asked-IsPaired = record {
  paired = λ c u q.
      ground
        (arith, second_request, Bytes-Key.same_iff name c, Bytes-Key.same_iff (codes "U2") u, q);
}

name_is_aods : contains aods_channel_name name ≡ true
unfolding contains starts_with
name_is_aods = refl

on_active_msg-KeepsPaired_example :
    KeepsPaired
      (on_active_msg (bus 0) net zero_pages no_junk (active_freed (c_str name)) twice_asked)
on_active_msg-KeepsPaired_example =
    on_active_msg-KeepsPaired (bus 0) net zero_pages no_junk (active_freed (c_str name)) twice_asked
      twice_asked-IsPaired tt

active_channel_freed-served_example :
    (after : ActiveModule) × (active_channel_freed (c_str name) twice_asked ≡ some (after, []))
    × (lookup name after.cu ≡ none)
active_channel_freed-served_example =
    active_channel_freed-served name twice_asked twice_asked-IsPaired (ground arith) name_is_aods

active_recv_from_kafka-twice_example :
    (after : ActiveModule) × (out : List OutMsg) × (active_recv_from_kafka
        (bus 1)
        net
        zero_pages
        no_junk
        (codes "U1")
        twice_asked
      ≡ some (after, out))
    × (active_recv_from_kafka (bus 1) net zero_pages no_junk (codes "U2") after ≡ none)
active_recv_from_kafka-twice_example =
    active_recv_from_kafka-twice (bus 1) net zero_pages no_junk (codes "U1") (codes "U2")
      (codes "U1") (codes "U2") (codes "U1") (codes "U2") [] [] request request (codes "U2")
      twice_asked (IsAck-bus 1) (second_IsAck 1) (λ e. ground (arith, e)) first_request
      second_request refl has_second refl (omega arith)

abbrev host : AodsAodcAuthen
host = record {
  ip_num = 0;
  ip_addr = replicate 64 0;
  res_id = res;
  rd_serial = serial;
  act_code = calc_active_code no_junk (res ++ serial);
}

abbrev no_host : AuthModule
no_host = record { rc = []; cr = []; amc = cache }

active_recv_from_kafka-check_code_example :
    (after : ActiveModule) × (active_recv_from_kafka
        (bus 0)
        net
        zero_pages
        no_junk
        (codes "U1")
        twice_asked
      ≡ some (
        after,
        report_active_suc (bus 0) net host.act_code res
            ∷ success_msg name res host.act_code
            ∷ free_msg name
            ∷ [],
      ))
    × (after.uai ≡ erase (codes "U1") twice_asked.uai)
    × (check_code (bus 0) zero_pages no_junk name host no_host
        ≡ some (registered (bus 0) name (get_hex_string res) host no_host))
active_recv_from_kafka-check_code_example =
    active_recv_from_kafka-check_code (bus 0) net zero_pages no_junk (codes "U1") (codes "U1")
      (codes "U2") res (replicate 6 0) serial (codes "U1") [] (get_hex_string res) request
      twice_asked name host no_host zero_pages-Serves cache-IsValid (omega arith) (IsAck-bus 0) refl
      has_rid refl (ground arith) refl first_request has_second refl refl refl refl refl refl refl
