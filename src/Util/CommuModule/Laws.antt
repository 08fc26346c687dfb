-- ===== src/Util/CommuModule/Laws.antt =====
-- Channels that come and go in src/dev/util/CommuModule.cpp, and the data that is sent to them.
use aods.Base.{
  Bool, Bytes, Bytes-Key, IsText, List, Option, [], ap, append_assoc, arith, bytes_eq, c_str, codes,
  erase, false, insert, last_byte-append, lookup, lookup-erase, lookup-insert, none, refl, some,
  split_str, split_str-c_str, true, ℕ, ℕ-Key, ◌*◌, ◌++◌, ◌+◌, ◌∙◌, ◌∷◌, ◌≡◌, ◌≢◌,
}
use aods.Util.CommuModule.{
  Channel, CommuEvent, CommuModule, ao_sock_channel, delete_channel, max_io_count,
  max_io_select_group_count, on_builded, on_del_channel, send_data2channel, send_fail, send_msg,
  send_named, send_to,
}
use aods.Util.CommuModule.Create.{create_ao_sock_channel, in_group}
use aods.Util.CommuModule.Groups.{Grouped, IsGroups, append_to_groups-Grouped, total}
use aods.Util.Json.{JsonLib, json_number, json_object, json_string}

-- Sending to a name, by what stands under it.
send_data2channel_lem :
    (name s : Bytes) (st : CommuModule) (o : Option Channel)
    → IsText name
    → lookup name st.ac ≡ o
    → send_data2channel (c_str name ++ s) st ≡ send_to (c_str name ++ s) name s o
unfolding send_data2channel
send_data2channel_lem name s st o text e =
    ap (send_named (c_str name ++ s) st)
      (ap split_str (append_assoc name (0 ∷ []) s) ∙ split_str-c_str name s text)
    ∙ ap (send_to (c_str name ++ s) name s) e

-- Once a channel whose name stands in the map is deleted, data for its name is reported as not
-- sent, and the channels of all other names are as they were.
pub on_del_channel-send_data2channel :
    (name s : Bytes) (channel : Channel) (st : CommuModule)
    → IsText name
    → lookup name st.ac ≡ some channel
    → (after : CommuModule) × (on_del_channel (c_str name) st
        ≡ some (after, delete_channel name ∷ []))
      × (send_data2channel (c_str name ++ s) after ≡ send_fail (c_str name ++ s) ∷ [])
      × ((other : Bytes) → other ≢ name → lookup other after.ac ≡ lookup other st.ac)
unfolding on_del_channel
on_del_channel-send_data2channel name s channel st text there =
    let after : CommuModule = record st { ac = erase name st.ac } in
    let gone : lookup name after.ac ≡ none =
      ground (arith, lookup-erase name name st.ac, Bytes-Key.same_iff name name) in
    (
      after,
      rw (last_byte-append name 0, split_str-c_str name [] text, there),
      send_data2channel_lem name s after none text gone,
      λ other differ.
          ground (arith, lookup-erase other name st.ac, Bytes-Key.same_iff name other, differ),
    )

-- What making a channel on a socket comes to.
pub record SockMade (name : Bytes) (channel : Channel) (st : CommuModule)
    (r : CommuModule × List CommuEvent × Bool) : Type 0 where
  pub groups_valid : IsGroups max_io_select_group_count r.0.groups
  pub others : (other : Bytes) → other ≢ name → lookup other r.0.ac ≡ lookup other st.ac
  pub done :
      r.2 ≡ true
      → (lookup name r.0.ac ≡ some channel)
        × (total r.0.groups ≡ total st.groups + 1)
        × (r.1 ≡ on_builded name ∷ [])
        × ((s : Bytes) → send_data2channel (c_str name ++ s) r.0 ≡ send_msg name s ∷ [])
  pub refused :
      r.2 ≡ false
      → (total st.groups ≡ max_io_select_group_count * max_io_count)
        × (lookup name r.0.ac ≡ none)
        × (r.1 ≡ on_builded name ∷ delete_channel name ∷ [])
        × (r.0.groups ≡ st.groups)

in_group-SockMade :
    (name : Bytes) (channel : Channel) (st : CommuModule) (r : List (List Bytes) × Bool)
    → IsText name
    → Grouped max_io_select_group_count st.groups r
    → SockMade name channel st (in_group name (record st { ac = insert name channel st.ac }) r)
in_group-SockMade name channel st (gs, true) text h = record {
  groups_valid = h.valid;
  others = λ other differ.
      ground (arith, lookup-insert other name channel st.ac, Bytes-Key.same_iff name other, differ);
  done = λ e.
      let there : lookup name (insert name channel st.ac) ≡ some channel =
        ground (arith, lookup-insert name name channel st.ac, Bytes-Key.same_iff name name) in
      (there, h.one_more refl, refl, λ s. send_data2channel_lem name s _ (some channel) text there);
  refused = λ e. ground (arith, e);
}
in_group-SockMade name channel st (gs, false) text h = record {
  groups_valid = h.valid;
  others = λ other differ. ground (
    arith,
    lookup-erase other name (insert name channel st.ac),
    lookup-insert other name channel st.ac,
    Bytes-Key.same_iff name other,
    differ,
  );
  done = λ e. ground (arith, e);
  refused = λ e. (
    (h.all_full refl).1,
    ground
        (arith, lookup-erase name name (insert name channel st.ac), Bytes-Key.same_iff name name),
    refl,
    (h.all_full refl).0,
  );
}

-- What asks for a channel on a socket of Tcp, as the library shows it.
pub record AsksTcp {J : Type 0} (lib : JsonLib J) (para : J) (handle : ℕ) : Type 0 where
  pub protocol_item : J
  pub handle_item : J
  pub object : lib.kind para ≡ json_object
  pub has_protocol : lib.get_object_item para (codes "Protocol") ≡ some protocol_item
  pub string_kind : lib.kind protocol_item ≡ json_string
  pub is_tcp : lib.value_string protocol_item ≡ some (codes "Tcp")
  pub has_handle : lib.get_object_item para (codes "Handle") ≡ some handle_item
  pub number_kind : lib.kind handle_item ≡ json_number
  pub is_handle : lib.value_int handle_item ≡ handle

-- With groups that keep to their sizes, a channel that is asked for on a socket of Tcp is made:
-- a socket channel of the protocol and the handle stands under the name, the groups have one
-- more channel, `OnBuilded` is called and data for the name then goes to it. Or all groups are
-- full: then the channel is deleted again after `OnBuilded`, nothing stands under the name and the groups
-- are as they were. The groups keep to their sizes and the channels of all other names are as
-- they were.
pub create_ao_sock_channel-SockMade :
    {J : Type 0} (lib : JsonLib J) (starts : Bytes → Bool) (scan_int : Bytes → ℕ → ℕ)
    (name protocol : Bytes) (para : J) (handle : ℕ) (st : CommuModule)
    → IsText name
    → IsGroups max_io_select_group_count st.groups
    → AsksTcp lib para handle
    → SockMade name
        (ao_sock_channel protocol handle)
        st
        (create_ao_sock_channel lib starts scan_int name protocol (some para) st)
unfolding create_ao_sock_channel bytes_eq
create_ao_sock_channel-SockMade lib starts scan_int name protocol para handle st text v w =
    rw (w.object, w.has_protocol, w.string_kind, w.is_tcp, w.has_handle, w.number_kind, w.is_handle)
      (in_group-SockMade name (ao_sock_channel protocol handle) st _ text
        (append_to_groups-Grouped max_io_select_group_count name st.groups v))
