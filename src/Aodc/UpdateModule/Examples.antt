-- ===== src/Aodc/UpdateModule/Examples.antt =====
-- A host that has authenticated, and an update for it.
use aods.Base.{
  Bytes, Bytes-Key, Option, [], arith, bytes_eq, c_str, codes, contains, if◌then◌else◌, le32,
  length-replicate, lookup, map, refl, replicate, some, starts_with, true, ℕ, ℕ-Key, ◌%◌, ◌++◌, ◌∷◌,
  ◌≡◌,
}
use aods.Util.MemCache.Laws.{IsValid, Serves}
use aods.Aodc.AuthModule.{aods_channel_name}
use aods.Aodc.UpdateModule.{
  UpdateModule, UpdateObj, aodc_aods_keepalive, aodc_aods_umi, on_auth_suc, ti_keepalive,
  update_channel_freed, update_on_timer, update_recv_from_kafka,
}
use aods.Aodc.UpdateModule.Laws.{
  IsUpdate, UpdateTexts, data_msg, on_auth_suc-update_recv_from_kafka, texts_in_order,
  update_channel_freed-update_recv_from_kafka, update_on_timer_lem,
}
use aods.Util.Json.{JsonLib, json_string}
use aods.Util.MemCache.{MemCache}

abbrev zero_pages : ℕ → Option Bytes
zero_pages n = some (replicate n 0)

zero_pages-Serves : Serves zero_pages
zero_pages-Serves n = (replicate n 0, refl, length-replicate n 0)

abbrev name : Bytes
name = codes "AodsServer:3"

abbrev rid : Bytes
rid = codes "0102030405ab"

abbrev host : UpdateObj
host = record { channel_name = name; res_id = rid }

abbrev cache : MemCache
cache = record { append_step_size = 8; cache_size = 4; cache_off = 0; cache = some (replicate 4 0) }

cache-IsValid : IsValid cache
cache-IsValid = record {
  block = replicate 4 0;
  allocated = refl;
  sized = refl;
  filled = omega arith;
}

abbrev no_host : UpdateModule
no_host = record { cuo = []; ruo = []; amc = cache }

abbrev one_host : UpdateModule
one_host = record { cuo = (name, host) ∷ []; ruo = (rid, host) ∷ []; amc = cache }

-- A bus whose texts are all an update for the resource, each item with its own name as its text.
abbrev bus : JsonLib Bytes
bus = record {
  parse = λ s. some s;
  get_object_item = λ j key. some (if bytes_eq key (codes "rid") then rid else key);
  children = λ j. [];
  kind = λ j. json_string;
  name = λ j. [];
  value_string = λ j. some j;
  value_int = λ j. 1;
  create_object = [];
  create_string = λ s. s;
  create_number = λ n. [];
  create_array = [];
  add_item_to_array = λ item j. j;
  add_item_to_object = λ key item j. j;
  print_unformatted = λ j. j;
}

abbrev bus_update : UpdateTexts
bus_update = record {
  project = codes "project";
  module_name = codes "module";
  version = codes "version";
  hash = codes "hash";
  url = codes "url";
  code = codes "code";
}

-- Each item has its own name as its text, and that of the resource has the resource.
bus_update-IsUpdate : IsUpdate bus (codes "x") rid bus_update 1
unfolding bytes_eq
bus_update-IsUpdate = record {
  root = codes "x";
  obj = codes "update";
  flag = codes "force";
  parsed = refl;
  has_obj = refl;
  has_rid = (rid, refl, refl);
  has_project = (codes "project", refl, refl);
  has_module = (codes "module", refl, refl);
  has_version = (codes "version", refl, refl);
  has_hash = (codes "hash", refl, refl);
  has_url = (codes "url", refl, refl);
  has_code = (codes "code", refl, refl);
  has_flag = refl;
  is_force = refl;
}

known : lookup name one_host.cuo ≡ some host
unfolding Bytes-Key bytes_eq
known = refl

name_is_aods : contains aods_channel_name name ≡ true
unfolding contains starts_with
name_is_aods = refl

on_auth_suc-update_recv_from_kafka_example :
    (mid : UpdateModule) × (st : UpdateModule) × (on_auth_suc (c_str rid ++ c_str name) no_host
      ≡ some (mid, []))
    × (update_recv_from_kafka bus zero_pages (codes "x") mid
        ≡ some (
          st,
          data_msg name (le32 aodc_aods_umi ++ (texts_in_order bus_update ++ 1 % 256 ∷ [])) ∷ [],
        ))
on_auth_suc-update_recv_from_kafka_example =
    on_auth_suc-update_recv_from_kafka bus zero_pages (codes "x") rid name bus_update 1 no_host
      zero_pages-Serves cache-IsValid (omega arith) (ground arith) (ground arith) (omega arith)
      (omega arith) bus_update-IsUpdate (omega arith)

update_channel_freed-update_recv_from_kafka_example :
    (mid : UpdateModule) × (update_channel_freed (c_str name) one_host ≡ some (mid, []))
    × (update_recv_from_kafka bus zero_pages (codes "x") mid ≡ some (mid, []))
update_channel_freed-update_recv_from_kafka_example =
    update_channel_freed-update_recv_from_kafka bus zero_pages (codes "x") rid name bus_update 1
      host one_host (ground arith) name_is_aods known refl bus_update-IsUpdate

update_on_timer_example :
    (update_on_timer zero_pages ti_keepalive one_host).1
    ≡ map (λ e. data_msg e.0 (le32 aodc_aods_keepalive)) one_host.cuo
update_on_timer_example =
    update_on_timer_lem zero_pages one_host zero_pages-Serves cache-IsValid (omega arith, tt)
