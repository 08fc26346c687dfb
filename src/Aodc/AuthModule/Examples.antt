-- ===== src/Aodc/AuthModule/Examples.antt =====
-- A host of two addresses that is registered, and what arrives for it.
use aods.Base.{
  Bytes, Bytes-Key, List, Option, [], ap, arith, bytes_eq, c_str, codes, contains, erase,
  if◌then◌else◌, length, length-replicate, lookup, read32, refl, replicate, some, split_str,
  starts_with, true, ℕ, ℕ-Key, ◌++◌, ◌==◌, ◌∷◌, ◌≡◌, ◌≢◌,
}
use aods.Util.MemCache.Laws.{IsValid, Serves}
use aods.Aodc.AuthModule.{
  AodsAodcAuthen, AuthInfo, AuthModule, AuthMsg, aods_channel_name, calc_active_code, channel_freed,
  check_code, drop_channel, on_auth_msg, on_recv_aods_msg, on_recv_channel_data, recv_channel_data,
  run_auth,
}
use aods.Aodc.AuthModule.Answers.{answers, check_code-taken, is_same_host}
use aods.Aodc.AuthModule.Changes.{Change, name_at, on_auth_msg-Change}
use aods.Aodc.AuthModule.Linked.{
  IsLinked, IsStale, check_code-IsStale, drop_channel-check_code, run_auth-IsLinked,
  run_auth-IsStale,
}
use aods.Util.Helper.{get_hex_string, hex_char}
use aods.Util.Json.{JsonLib, json_string}
use aods.Util.MemCache.{MemCache}
use aods.Util.OutMsg.{OutMsg}

abbrev zero_pages : ℕ → Option Bytes
zero_pages n = some (replicate n 0)

zero_pages-Serves : Serves zero_pages
zero_pages-Serves n = (replicate n 0, refl, length-replicate n 0)

abbrev no_junk : ℕ → ℕ
no_junk n = 0

abbrev first_name : Bytes
first_name = codes "AodsServer:1"

abbrev second_name : Bytes
second_name = codes "AodsServer:2"

abbrev first_res : Bytes
first_res = 1 ∷ 2 ∷ 3 ∷ 4 ∷ 5 ∷ 0xAB ∷ []

abbrev second_res : Bytes
second_res = 9 ∷ 2 ∷ 3 ∷ 4 ∷ 5 ∷ 0xAB ∷ []

abbrev first_rid : Bytes
first_rid = codes "0102030405ab"

abbrev first_info : AuthInfo
first_info = record {
  ip_num = 1;
  channel_name = first_name;
  ip_addr = 10 ∷ 0 ∷ 0 ∷ 1 ∷ replicate 60 0;
}

abbrev cache : MemCache
cache = record { append_step_size = 8; cache_size = 4; cache_off = 0; cache = some (replicate 4 0) }

cache-IsValid : IsValid cache
cache-IsValid = record {
  block = replicate 4 0;
  allocated = refl;
  sized = refl;
  filled = omega arith;
}

-- The first host is registered.
abbrev one_host : AuthModule
one_host = record {
  rc = (first_rid, first_info) ∷ [];
  cr = (first_name, first_rid) ∷ [];
  amc = cache;
}

-- Its channel has gone over to the second resource.
abbrev stale_host : AuthModule
stale_host = record {
  rc = (first_rid, first_info) ∷ [];
  cr = (first_name, codes "0902030405ab") ∷ [];
  amc = cache;
}

abbrev authen : Bytes → ℕ → AodsAodcAuthen
authen res ip = record {
  ip_num = 1;
  ip_addr = 10 ∷ 0 ∷ 0 ∷ ip ∷ replicate 60 0;
  res_id = res;
  rd_serial = replicate 14 7;
  act_code = calc_active_code no_junk (res ++ replicate 14 7);
}

-- A bus whose texts all mean that the first host may go on.
abbrev bus : JsonLib ℕ
bus = record {
  parse = λ s. some 0;
  get_object_item =
      λ j key. some (if j == 0 then 1 else if bytes_eq key (codes "rid") then 2 else 3);
  children = λ j. [];
  kind = λ j. json_string;
  name = λ j. [];
  value_string = λ j. some first_rid;
  value_int = λ j. 0;
  create_object = 0;
  create_string = λ s. 0;
  add_item_to_object = λ key item j. j;
  create_number = λ n. 0;
  create_array = 0;
  add_item_to_array = λ item j. j;
  print_unformatted = λ j. codes "{}";
}

first_named : name_at first_rid one_host ≡ first_name
unfolding Bytes-Key bytes_eq
first_named = refl

stale_named : name_at first_rid stale_host ≡ first_name
unfolding Bytes-Key bytes_eq
stale_named = refl

stale_other : codes "0902030405ab" ≢ first_rid
stale_other e = ground (arith, e)

one_host-IsLinked : IsLinked one_host
one_host-IsLinked = record {
  linked = λ c r q.
      ground
        (arith, first_named, Bytes-Key.same_iff first_name c, Bytes-Key.same_iff first_rid r, q);
  named = λ r i q. ground (arith, q);
}

stale_host-IsStale : IsStale first_rid stale_host
stale_host-IsStale = record {
  registered_yet = omega (arith, ap length stale_named);
  no_channel = λ c q. stale_other (ground (arith, q));
}

abbrev msgs : List AuthMsg
msgs =
    recv_channel_data (c_str second_name ++ (1 ∷ 0 ∷ 0 ∷ 0 ∷ []))
    ∷ channel_freed (c_str first_name)
    ∷ []

abbrev no_host : AuthModule
no_host = record { rc = []; cr = []; amc = cache }

run_one : run_auth bus zero_pages no_junk msgs one_host ≡ some no_host
unfolding run_auth on_auth_msg on_recv_channel_data on_recv_aods_msg drop_channel split_str contains
    starts_with Bytes-Key bytes_eq erase read32
run_one = refl

run_stale : run_auth bus zero_pages no_junk msgs stale_host ≡ some (record stale_host { cr = [] })
unfolding run_auth on_auth_msg on_recv_channel_data on_recv_aods_msg drop_channel split_str contains
    starts_with Bytes-Key bytes_eq erase read32
run_stale = refl

run_auth-IsLinked_example : IsLinked no_host
run_auth-IsLinked_example =
    run_auth-IsLinked bus zero_pages no_junk msgs one_host no_host one_host-IsLinked run_one

run_auth-IsStale_example : IsStale first_rid (record stale_host { cr = [] })
run_auth-IsStale_example =
    run_auth-IsStale bus zero_pages no_junk first_rid msgs stale_host
      (record stale_host { cr = [] }) stale_host-IsStale run_stale

first_leaves :
    on_auth_msg bus zero_pages no_junk (channel_freed (c_str first_name)) one_host
    ≡ some (no_host, [])
unfolding on_auth_msg drop_channel contains starts_with Bytes-Key bytes_eq split_str erase
first_leaves = refl

on_auth_msg-Change_example : Change no_junk one_host no_host
on_auth_msg-Change_example =
    on_auth_msg-Change bus zero_pages no_junk (channel_freed (c_str first_name)) one_host no_host []
      first_leaves

second_free : length (name_at (get_hex_string second_res) one_host) ≡ 0
unfolding get_hex_string hex_char Bytes-Key bytes_eq
second_free = refl

first_known : lookup (get_hex_string first_res) one_host.rc ≡ some first_info
unfolding get_hex_string hex_char Bytes-Key bytes_eq
first_known = refl

first_same : get_hex_string first_res ≡ first_rid
unfolding get_hex_string hex_char
first_same = refl

second_other : get_hex_string second_res ≢ first_rid
unfolding get_hex_string hex_char
second_other e = ground (arith, e)

first_linked : lookup first_name one_host.cr ≡ some first_rid
unfolding Bytes-Key bytes_eq
first_linked = refl

first_aods : contains aods_channel_name first_name ≡ true
unfolding contains starts_with
first_aods = refl

check_code-IsStale_example :
    (after : AuthModule) × (out : List OutMsg) × (check_code bus zero_pages no_junk first_name
        (authen second_res 1)
        one_host
      ≡ some (after, out))
    × IsStale first_rid after
check_code-IsStale_example =
    check_code-IsStale bus zero_pages no_junk first_name first_rid (authen second_res 1) one_host
      one_host-IsLinked (omega arith) first_named refl second_other second_free

drop_channel-check_code_example :
    (freed after : AuthModule) × (out : List OutMsg) × (drop_channel (c_str first_name) one_host
      ≡ some (freed, []))
    × (check_code bus zero_pages no_junk second_name (authen first_res 2) freed ≡ some (after, out))
    × (name_at first_rid after ≡ second_name)
    × (lookup second_name after.cr ≡ some first_rid)
drop_channel-check_code_example =
    drop_channel-check_code bus zero_pages no_junk first_name second_name first_rid
      (authen first_res 2) one_host one_host-IsLinked (ground arith) first_aods first_linked refl
      first_same

check_code-taken_example :
    (after : AuthModule) × (check_code bus zero_pages no_junk second_name
        (authen first_res 2)
        one_host
      ≡ some (after, answers second_name first_info (is_same_host first_info (authen first_res 2))))
    × (after.rc ≡ one_host.rc)
    × (after.cr ≡ one_host.cr)
check_code-taken_example =
    check_code-taken bus zero_pages no_junk second_name (authen first_res 2) first_info one_host
      zero_pages-Serves cache-IsValid (omega arith) refl first_known (omega arith) (omega arith)
