-- ===== src/Util/CommuModule/Create.antt =====
-- The channels that `CCommuModule` (src/dev/util/CommuModule.cpp) makes from its configuration: the
-- functions of the names Create, `LoadConfig` and `OnNewChannel`.
use aods.Base.{
  Bool, Bytes, Bytes-Key, List, Option, [], and_then, bytes_eq, codes, erase, false, if◌then◌else◌,
  insert, last_byte, leb, length, lookup, ltb, none, not, some, split_str, true, ℕ, ℕ-Key, ◌++◌,
  ◌+◌, ◌==◌, ◌∷◌,
}
use aods.Util.CommuModule.{
  Channel, CommuEvent, CommuModule, Made, ServerChannel, ao_sock_channel, append_to_groups,
  delete_channel, max_io_select_group_count, max_server_num, on_builded, tcp_client_channel,
  tcp_server,
}
use aods.Util.Json.{JsonKind, JsonLib, json_array, json_number, json_object, json_string}

-- The text in front of the first colon and the text behind it.
pub split_colon : Bytes → Option (Bytes × Bytes)
split_colon [] = none
split_colon (b ∷ s) =
    if b == b':'
    then some ([], s)
    else elim (split_colon s) [ none ↦ none | some (t, rest) ↦ some (b ∷ t, rest) ]

abbrev pub is_string : JsonKind → Bool
is_string json_string = true
is_string _ = false

abbrev pub is_number : JsonKind → Bool
is_number json_number = true
is_number _ = false

abbrev pub is_object : JsonKind → Bool
is_object json_object = true
is_object _ = false

abbrev pub is_array : JsonKind → Bool
is_array json_array = true
is_array _ = false

abbrev pub text_of : Option Bytes → Bytes
text_of none = []
text_of (some s) = s

-- The two ways out of `CreateAoSockChannel` once the channel is in the map.
abbrev pub in_group : Bytes → CommuModule → List (List Bytes) × Bool → Made
in_group name st (gs, true) = (record st { groups = gs }, on_builded name ∷ [], true)
in_group name st (gs, false) = (
  record st { ac = erase name st.ac; groups = gs },
  on_builded name ∷ delete_channel name ∷ [],
  false,
)

abbrev pub make_sock : Bytes → Bytes → CommuModule → Option Bytes → Option ℕ → Made
make_sock name protocol st (some tcp) (some handle) =
    if bytes_eq tcp (codes "Tcp")
    then in_group name (record st { ac = insert name (ao_sock_channel protocol handle) st.ac })
        (append_to_groups max_io_select_group_count name st.groups)
    else (st, [], false)
make_sock name protocol st _ _ = (st, [], false)

module _ {J : Type 0} (lib : JsonLib J) where
  -- An item that is a string, and one that is a number.
  abbrev pub string_item : J → Bytes → Option Bytes
  string_item j key =
      and_then (lib.get_object_item j key)
        λ item. if is_string (lib.kind item) then some (text_of (lib.value_string item)) else none

  abbrev pub number_item : J → Bytes → Option ℕ
  number_item j key =
      and_then (lib.get_object_item j key)
        λ item. if is_number (lib.kind item) then some (lib.value_int item) else none

  abbrev pub default_to : Bytes → Option Bytes → Bytes
  default_to d none = d
  default_to d (some s) = s

  abbrev pub number_or : ℕ → Option ℕ → ℕ
  number_or d none = d
  number_or d (some n) = n

  module _ (starts : Bytes → Bool) (scan_int : Bytes → ℕ → ℕ) where
    unfoldable pub create_ao_sock_channel : Bytes → Bytes → Option J → CommuModule → Made
    create_ao_sock_channel name protocol none st = (st, [], false)
    create_ao_sock_channel name protocol (some para) st =
        if is_object (lib.kind para)
        then make_sock name protocol st (string_item para (codes "Protocol"))
            (number_item para (codes "Handle"))
        else (st, [], false)

    -- The addresses that `Init` of a client takes.
    abbrev pub addresses : List J → List Bytes
    addresses [] = []
    addresses (j ∷ js) =
        if is_string (lib.kind j) then text_of (lib.value_string j) ∷ addresses js else addresses js

    unfoldable pub create_ao_sock_tcp_channel : Bytes → Bytes → Option J → CommuModule → Made
    create_ao_sock_tcp_channel name protocol none st = (st, [], false)
    create_ao_sock_tcp_channel name protocol (some para) st =
        if starts name
        then (
          record st {
            ac = insert name (tcp_client_channel protocol (addresses (lib.children para))) st.ac;
          },
          [],
          true,
        )
        else (st, [], false)

    -- One turn of the loop in `Init` of a server; the number and the protocol are asked of the array.
    abbrev pub server_of : J → J → ℕ → Option ServerChannel
    server_of para server port = and_then (string_item server (codes "Name")) λ server_name.
        and_then (string_item server (codes "Address")) λ address.
          and_then (split_colon address) λ (addr, behind).
            if leb (length behind) 0
            then none
            else some (record {
              server_name = server_name;
              addr = addr;
              protocol = default_to (codes "AoCommuProtocol") (string_item para (codes "Protocol"));
              port = scan_int behind port;
              num = number_or 10240 (number_item para (codes "Num"));
            })

    -- The loop, with the number of servers that there are and the port that was read last.
    abbrev pub servers : J → List J → ℕ → ℕ → Option (List ServerChannel)
    servers para [] count port = some []
    servers para (j ∷ js) count port = and_then (server_of para j port) λ server.
        if ltb max_server_num (count + 1)
        then none
        else and_then (servers para js (count + 1) server.port) λ rest. some (server ∷ rest)

    abbrev pub make_server : Bytes → CommuModule → Option (List ServerChannel) → Made
    make_server name st none = (st, [], false)
    make_server name st (some list) =
        if starts name
        then (record st { ac = insert name (tcp_server list) st.ac }, [], true)
        else (st, [], false)

    unfoldable pub create_ao_tcp_server : Bytes → Option J → CommuModule → Option Made
    create_ao_tcp_server name none st = none
    create_ao_tcp_server name (some para) st =
        if is_array (lib.kind para)
        then some (make_server name st (servers para (lib.children para) 0 0))
        else some (st, [], false)

    abbrev pub create_by_type : J → CommuModule → Option Bytes → Option Made
    create_by_type para st none = some (st, [], false)
    create_by_type para st (some type) =
        let protocol = default_to (codes "AoCommuProtocol") (string_item para (codes "Protocol")) in
        let inner = lib.get_object_item para (codes "Para") in
        if bytes_eq type (codes "AoSockChannel")
        then some (create_ao_sock_channel (lib.name para) protocol inner st)
        else if bytes_eq type (codes "TcpClientChanel")
        then some (create_ao_sock_tcp_channel (lib.name para) protocol inner st)
        else if bytes_eq type (codes "TcpServer")
        then create_ao_tcp_server (lib.name para) inner st
        else some (st, [], false)

    -- `CreateChannleByPara`
    unfoldable pub create_channel_by_para : J → CommuModule → Option Made
    create_channel_by_para para st = create_by_type para st (string_item para (codes "Type"))

    -- The loop of `LoadConfig` and of `OnNewChannel`.
    abbrev pub create_channels : List J → CommuModule → Option (CommuModule × List CommuEvent)
    create_channels [] st = some (st, [])
    create_channels (j ∷ js) st = and_then (create_channel_by_para j st) λ (st', out, done).
        and_then (create_channels js st') λ (last, more). some (last, out ++ more)

    abbrev pub load_object : CommuModule → Option J → Option (CommuModule × List CommuEvent)
    load_object st none = some (st, [])
    load_object st (some obj) = create_channels (lib.children obj) st

    -- `LoadConfig`
    unfoldable pub load_config : Bytes → CommuModule → Option (CommuModule × List CommuEvent)
    load_config s st = and_then (split_str s) λ (text, rest). load_object st (lib.parse text)

    abbrev pub new_for :
        Bytes → CommuModule → Option Channel → Option (CommuModule × List CommuEvent)
    new_for rest st none = some (st, [])
    new_for rest st (some server) =
        if leb (length rest) 0
        then some (st, [])
        else and_then (split_str rest) λ (text, behind). load_object st (lib.parse text)

    -- `OnNewChannel`
    unfoldable pub on_new_channel : Bytes → CommuModule → Option (CommuModule × List CommuEvent)
    on_new_channel s st = elim (last_byte s) [
      | none ↦ some (st, [])
      | some last ↦
          if not (last == 0)
          then some (st, [])
          else and_then (split_str s) λ (name, rest). new_for rest st (lookup name st.ac)
    ]
