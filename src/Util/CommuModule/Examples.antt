-- ===== src/Util/CommuModule/Examples.antt =====
-- A server that gets a client, and a client that goes.
use aods.Base.{
  Bool, Bytes, Bytes-Key, [], arith, bytes_eq, c_str, codes, if◌then◌else◌, lookup, refl, some,
  true, ℕ, ℕ-Key, ◌++◌, ◌==◌, ◌∷◌, ◌≡◌, ◌≢◌,
}
use aods.Util.CommuModule.{
  CommuModule, ao_sock_channel, delete_channel, max_io_select_group_count, on_del_channel,
  send_data2channel, send_fail, tcp_server,
}
use aods.Util.CommuModule.Create.{create_ao_sock_channel}
use aods.Util.CommuModule.Groups.{IsGroups}
use aods.Util.CommuModule.Laws.{
  AsksTcp, SockMade, create_ao_sock_channel-SockMade, on_del_channel-send_data2channel,
}
use aods.Util.Json.{JsonLib, json_number, json_object, json_string}

abbrev server : Bytes
server = codes "AodsServer"

abbrev client : Bytes
client = codes "AodsServer:0"

abbrev one_client : CommuModule
one_client = record {
  ac = (server, tcp_server []) ∷ (client, ao_sock_channel (codes "AoCommuProtocol") 4) ∷ [];
  groups = (client ∷ []) ∷ [];
}

abbrev second : Bytes
second = codes "AodsServer:1"

-- A library whose values are all objects for a socket of Tcp: 0 is an object, 1 a text, 2 a number.
abbrev sock_lib : JsonLib ℕ
sock_lib = record {
  parse = λ s. some 0;
  get_object_item = λ j key. some (if bytes_eq key (codes "Handle") then 2 else 1);
  children = λ j. 0 ∷ [];
  kind = λ j. if j == 0 then json_object else if j == 1 then json_string else json_number;
  name = λ j. second;
  value_string = λ j. some (codes "Tcp");
  value_int = λ j. 9;
  create_object = 0;
  create_string = λ s. 1;
  create_number = λ n. 2;
  create_array = 0;
  add_item_to_array = λ item j. j;
  add_item_to_object = λ key item j. j;
  print_unformatted = λ j. [];
}

abbrev all_start : Bytes → Bool
all_start name = true

abbrev no_scan : Bytes → ℕ → ℕ
no_scan s n = n

groups-IsGroups : IsGroups max_io_select_group_count one_client.groups
groups-IsGroups = record { few = omega arith; small = (omega arith, tt) }

asks_tcp : AsksTcp sock_lib 0 9
unfolding bytes_eq
asks_tcp = record {
  protocol_item = 1;
  handle_item = 2;
  object = refl;
  has_protocol = refl;
  string_kind = refl;
  is_tcp = refl;
  has_handle = refl;
  number_kind = refl;
  is_handle = refl;
}

has_client : lookup client one_client.ac ≡ some (ao_sock_channel (codes "AoCommuProtocol") 4)
unfolding Bytes-Key bytes_eq
has_client = refl

create_ao_sock_channel-SockMade_example :
    SockMade second (ao_sock_channel (codes "AoCommuProtocol") 9) one_client (
      create_ao_sock_channel sock_lib all_start no_scan second
        (codes "AoCommuProtocol")
        (some 0)
        one_client)
create_ao_sock_channel-SockMade_example =
    create_ao_sock_channel-SockMade sock_lib all_start no_scan second (codes "AoCommuProtocol") 0 9
      one_client (ground arith) groups-IsGroups asks_tcp

on_del_channel-send_data2channel_example :
    (after : CommuModule) × (on_del_channel (c_str client) one_client
      ≡ some (after, delete_channel client ∷ []))
    × (send_data2channel (c_str client ++ codes "hi") after
        ≡ send_fail (c_str client ++ codes "hi") ∷ [])
    × ((other : Bytes) → other ≢ client → lookup other after.ac ≡ lookup other one_client.ac)
on_del_channel-send_data2channel_example =
    on_del_channel-send_data2channel client (codes "hi")
      (ao_sock_channel (codes "AoCommuProtocol") 4) one_client (ground arith) has_client
