-- ===== src/Install/ActiveModule/Examples.antt =====
-- An installer of two addresses, a host, and the controller between them.
use aods.Util.MemCache.Laws.{IsValid, Serves}
use aods.Base.{
  Bytes, Bytes-Key, List, Option, [], arith, bytes_eq, c_str, codes, contains, false, if◌then◌else◌,
  le32, length-replicate, lookup, none, refl, replicate, some, starts_with, true, ℕ, ℕ-Key, ◌++◌,
  ◌∷◌, ◌≡◌,
}
use aods.Aodc.ActiveModule.Acks.{active_recv_from_kafka, report_active_suc, success_answer}
use aods.Aodc.AuthModule.{
  AuthModule, aods_aodc_auth, aods_channel_name, calc_active_code, on_recv_aods_msg, registered,
}
use aods.Aods.AuthModule.{aodc_client, host_channel_build, sent, to_aodc}
use aods.Aods.AuthModule.Laws.{host_authen}
use aods.Install.ActiveModule.{
  InstallModule, active_bytes, install_channel_build, install_recv, new_install, send_out,
}
use aods.Install.ActiveModule.Laws.{install_events, install_recv-on_recv_aods_msg}
use aods.Install.ActiveModule.Saved.{IsInstall, installed}
use aods.Util.Helper.{get_hex_string}
use aods.Util.Json.{JsonLib, json_string}
use aods.Aodc.ActiveModule.{
  ActiveModule, Inet, active_recv_channel_data, active_request, aods_aodc_actv,
}
use aods.Aodc.ActiveModule.Activation.{success_msg}
use aods.Aodc.ActiveModule.Codes.{IsAck}
use aods.Install.ActiveModule.Activation.{install_channel_build-on_recv_aods_msg}
use aods.Install.ActiveModule.Request.{addr_text, asking, request_of}
use aods.Util.OutMsg.{free_msg}

abbrev zero_pages : ℕ → Option Bytes
zero_pages n = some (replicate n 0)

zero_pages-Serves : Serves zero_pages
zero_pages-Serves n = (replicate n 0, refl, length-replicate n 0)

abbrev installer : InstallModule
installer = record {
  actived = false;
  index = 1;
  rd_serial = replicate 14 5;
  ip_num = 2;
  ip_addr = 127 ∷ 0 ∷ 0 ∷ 1 ∷ replicate 60 0;
}

installer-IsInstall : IsInstall installer
installer-IsInstall = record {
  few = omega arith;
  addrs = refl;
  serial = refl;
  addr_bytes = omega arith;
  serial_bytes = omega arith;
}

abbrev res : Bytes
res = 1 ∷ 2 ∷ 3 ∷ 4 ∷ 5 ∷ 0xAB ∷ []

abbrev nobody : AuthModule
nobody = record {
  rc = [];
  cr = [];
  amc = record {
    append_step_size = 8;
    cache_size = 4;
    cache_off = 0;
    cache = some (replicate 4 0);
  };
}

abbrev addrs : List (Option (ℕ × ℕ))
addrs = some (2, 0x0100007F) ∷ none ∷ some (10, 0) ∷ some (2, 0x0501A8C0) ∷ []

-- A library that prints nothing.
abbrev lib : JsonLib Bytes
lib = record {
  parse = λ s. some s;
  get_object_item = λ j key. none;
  children = λ j. [];
  kind = λ j. json_string;
  name = λ j. [];
  value_string = λ j. some j;
  value_int = λ j. 0;
  create_object = [];
  create_string = λ s. s;
  create_number = λ n. [];
  create_array = [];
  add_item_to_array = λ item j. j;
  add_item_to_object = λ key item j. j;
  print_unformatted = λ j. j;
}

abbrev no_junk : ℕ → ℕ
no_junk n = 0

abbrev some_junk : ℕ → ℕ
some_junk n = 7

install_recv-on_recv_aods_msg_example :
    let code = calc_active_code no_junk (res ++ installer.rd_serial) in
    (file body : Bytes) × (install_recv some_junk true true
        (codes "/opt")
        (c_str aodc_client ++ success_answer res code)
        installer
      ≡ some (record installer { actived = true }, install_events true (codes "/opt") file))
    × (host_channel_build zero_pages no_junk (some file) (some addrs) (c_str aodc_client)
        ≡ some (sent (to_aodc aodc_client aods_aodc_auth body) ∷ []))
    × (on_recv_aods_msg lib zero_pages some_junk
          (codes "AodsServer:3")
          (le32 aods_aodc_auth ++ body)
          nobody
        ≡ some (
            registered lib
              (codes "AodsServer:3")
              (get_hex_string res)
              (host_authen (installed res code installer) addrs)
              nobody))
install_recv-on_recv_aods_msg_example =
    install_recv-on_recv_aods_msg lib zero_pages no_junk some_junk no_junk some_junk true
      (codes "/opt") res (codes "AodsServer:3") addrs installer nobody zero_pages-Serves
      installer-IsInstall (omega arith) refl refl

-- A bus whose texts grant the request that they name.
abbrev bus : JsonLib Bytes
bus = record {
  parse = λ s. some s;
  get_object_item = λ j key. some (
      if bytes_eq key (codes "rid")
      then get_hex_string res
      else if bytes_eq key (codes "ack")
      then []
      else j);
  children = λ j. [];
  kind = λ j. json_string;
  name = λ j. [];
  value_string = λ j. some j;
  value_int = λ j. 0;
  create_object = [];
  create_string = λ s. s;
  create_number = λ n. [];
  create_array = [];
  add_item_to_array = λ item j. j;
  add_item_to_object = λ key item j. j;
  print_unformatted = λ j. j;
}

abbrev net : Inet
net = record { inet_addr = λ s. 1; inet_ntoa = λ n. codes "10.0.0.1" }

granted : IsAck bus (codes "U1") (codes "U1") (codes "U1") []
unfolding bytes_eq
granted = record {
  root = codes "U1";
  id = codes "U1";
  parsed = refl;
  has_obj = refl;
  has_id = refl;
  is_text = refl;
  has_ack = refl;
}

has_rid : bus.get_object_item (codes "U1") (codes "rid") ≡ some (get_hex_string res)
unfolding bytes_eq
has_rid = refl

abbrev channel : Bytes
channel = codes "AodsServer:3"

abbrev controller : ActiveModule
controller = record {
  uai = [];
  cu = [];
  ca = (channel, addr_text (codes "10.0.0.1") (codes "80")) ∷ [];
  amc = record {
    append_step_size = 8;
    cache_size = 4;
    cache_off = 0;
    cache = some (replicate 4 0);
  };
}

controller-IsValid : IsValid controller.amc
controller-IsValid = record {
  block = replicate 4 0;
  allocated = refl;
  sized = refl;
  filled = omega arith;
}

is_known : lookup channel controller.ca ≡ some (addr_text (codes "10.0.0.1") (codes "80"))
unfolding Bytes-Key bytes_eq
is_known = refl

channel_is_aods : contains aods_channel_name channel ≡ true
unfolding contains starts_with
channel_is_aods = refl

abbrev fresh : InstallModule
fresh = new_install 1 (replicate 14 0)

install_channel_build-on_recv_aods_msg_example :
    let now = asking some_junk addrs fresh in
    let code = calc_active_code no_junk (res ++ now.rd_serial) in
    (mid after : ActiveModule) × (file body : Bytes) × (install_channel_build zero_pages some_junk
        (some addrs)
        (c_str aodc_client)
        fresh
      ≡ some (now, send_out (to_aodc aodc_client aods_aodc_actv (active_bytes now)) ∷ []))
    × (active_recv_channel_data bus net
          (codes "U1")
          (c_str channel ++ (le32 aods_aodc_actv ++ active_bytes now))
          controller
        ≡ some (mid, active_request bus net (codes "U1") (request_of now) 1 ∷ []))
    × (active_recv_from_kafka bus net zero_pages no_junk (codes "U1") mid
        ≡ some (
          after,
          report_active_suc bus net code res ∷ success_msg channel res code ∷ free_msg channel ∷ [],
        ))
    × (install_recv some_junk true true
          (codes "/opt")
          (c_str aodc_client ++ success_answer res code)
          now
        ≡ some (record now { actived = true }, install_events true (codes "/opt") file))
    × (host_channel_build zero_pages no_junk (some file) (some addrs) (c_str aodc_client)
        ≡ some (sent (to_aodc aodc_client aods_aodc_auth body) ∷ []))
    × (on_recv_aods_msg bus zero_pages some_junk
          (codes "AodsServer:4")
          (le32 aods_aodc_auth ++ body)
          nobody
        ≡ some (
            registered bus
              (codes "AodsServer:4")
              (get_hex_string res)
              (host_authen (installed res code now) addrs)
              nobody))
install_channel_build-on_recv_aods_msg_example =
    install_channel_build-on_recv_aods_msg bus net zero_pages some_junk no_junk some_junk no_junk
      some_junk addrs addrs (codes "U1") channel (codes "AodsServer:4") (codes "10.0.0.1")
      (codes "80") (codes "U1") res (codes "/opt") (codes "U1") [] (get_hex_string res) true fresh
      controller nobody zero_pages-Serves refl refl (omega arith) (ground arith) channel_is_aods
      is_known (ground arith) (omega arith) (omega arith) controller-IsValid (omega arith) granted
      refl has_rid refl (omega arith) refl refl
