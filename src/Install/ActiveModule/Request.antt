-- ===== src/Install/ActiveModule/Request.antt =====
-- The request for a code of src/dev/install/AodsActiveModule.cpp, and what the controller's
-- src/dev/aodc/AodsActiveModule.cpp makes of it.
use aods.Util.MemCache.Laws.{Serves}
use aods.Base.{
  ==_iff, All, All-append, Bytes, Bytes-Key, IsByte, IsBytes, IsText, List, Option, [], and_then,
  ap, append_assoc, arith, bytes_eq, bytes_eq_refl, c_str, contains, drop, drop-IsBytes, false,
  le32, leb, length, length-append, length-drop, length-le32, length-take, le→ltb, lookup, ltb, not,
  read32-le32, refl, replicate, some, split_str, split_str-c_str, suc, sym, take, take-append_self,
  true, zero, ℕ, ℕ-Key, ◌*◌, ◌++◌, ◌+◌, ◌<◌, ◌==◌, ◌||◌, ◌∙◌, ◌∷◌, ◌≡◌, ◌≢◌,
}
use aods.Aodc.ActiveModule.{
  ActiveModule, AodsAodcActive, Inet, active_of, active_recv_channel_data, aods_aodc_activate_size,
  aods_aodc_actv, ask_bus, asked, before_colon, on_recv_aods_channel, with_addr,
}
use aods.Aodc.AuthModule.{aods_aodc_msg_size, aods_channel_name, max_ip_addr_num}
use aods.Aods.AuthModule.{aodc_client, get_ip_addrs, to_aodc}
use aods.Aods.AuthModule.Laws.{aodc_client-IsText, length-addr_bytes}
use aods.Aods.AuthModule.Layout.{addr_bytes, inet_only, last_part, part, write_addrs_behind}
use aods.Install.ActiveModule.{
  InstallModule, active_bytes, active_sent, install_channel_build, own_addrs, rand_bytes, send_out,
}
use aods.Install.ActiveModule.Saved.{IsInstall}
use aods.Util.Json.{JsonLib}

-- The installer once it has asked, on a host with some addresses.
abbrev pub asking : (ℕ → ℕ) → List (Option (ℕ × ℕ)) → InstallModule → InstallModule
asking rand ias st =
    let got = take max_ip_addr_num (inet_only ias) in
    record st {
      rd_serial = rand_bytes rand 14 0;
      ip_num = length got;
      ip_addr = addr_bytes got ++ drop (length got * 4) st.ip_addr;
    }

length-rand_bytes : (rand : ℕ → ℕ) (left n : ℕ) → length (rand_bytes rand left n) ≡ left
length-rand_bytes rand zero n = refl
length-rand_bytes rand (suc left) n = ap suc (length-rand_bytes rand left (n + 1))

rand_bytes-IsBytes : (rand : ℕ → ℕ) (left n : ℕ) → IsBytes (rand_bytes rand left n)
rand_bytes-IsBytes rand zero n = tt
rand_bytes-IsBytes rand (suc left) n = (omega arith, rand_bytes-IsBytes rand left (n + 1))

addr_bytes-IsBytes : (addrs : List ℕ) → IsBytes (addr_bytes addrs)
unfolding le32
addr_bytes-IsBytes [] = tt
addr_bytes-IsBytes (n ∷ addrs) =
    (omega arith, (omega arith, (omega arith, (omega arith, addr_bytes-IsBytes addrs))))

-- The members have their sizes once it has asked.
pub asking-IsInstall :
    (rand : ℕ → ℕ) (ias : List (Option (ℕ × ℕ))) (st : InstallModule)
    → length st.ip_addr ≡ 64
    → IsBytes st.ip_addr
    → IsInstall (asking rand ias st)
asking-IsInstall rand ias st size bytes =
    let got = take max_ip_addr_num (inet_only ias) in
    let count = length-take max_ip_addr_num (inet_only ias) in
    let rest = drop (length got * 4) st.ip_addr in
    record {
      few = omega arith;
      addrs = omega (
        arith,
        length-append (addr_bytes got) rest,
        length-addr_bytes got,
        length-drop (length got * 4) st.ip_addr,
        size,
      );
      serial = length-rand_bytes rand 14 0;
      addr_bytes =
          All-append IsByte (addr_bytes got) rest (addr_bytes-IsBytes got)
            (drop-IsBytes (length got * 4) st.ip_addr bytes);
      serial_bytes = rand_bytes-IsBytes rand 14 0;
    }

-- On an allocator that serves every request.
install_channel_build-asking :
    (malloc : ℕ → Option Bytes) (rand : ℕ → ℕ) (ias : List (Option (ℕ × ℕ))) (st : InstallModule)
    → Serves malloc
    → st.actived ≡ false
    → install_channel_build malloc rand (some ias) (c_str aodc_client) st
      ≡ some (
        asking rand ias st,
        send_out (to_aodc aodc_client aods_aodc_actv (active_bytes (asking rand ias st))) ∷ [],
      )
unfolding install_channel_build get_ip_addrs
install_channel_build-asking malloc rand ias st serves inactive =
    let got = take max_ip_addr_num (inet_only ias) in
    let block = serves 10240 in
    let same : bytes_eq aodc_client aodc_client ≡ true = bytes_eq_refl aodc_client in
    let test : (st.actived || not (bytes_eq aodc_client aodc_client)) ≡ false =
      rw (inactive, same) refl in
    let count : 0 + length got ≡ length got = omega arith in
    rw (split_str-c_str aodc_client [] aodc_client-IsText, test, block.1)
      (ap
          (λ o. and_then (and_then o λ r. some (some r)) λ r.
            let own = own_addrs st.ip_addr r in
            active_sent aodc_client
              (record st { rd_serial = rand_bytes rand 14 0; ip_num = own.0; ip_addr = own.1 }))
          (write_addrs_behind ias 0 max_ip_addr_num max_ip_addr_num [] st.ip_addr refl (omega arith)
            (omega arith))
        ∙ ap
            (λ n. active_sent aodc_client (record st {
              rd_serial = rand_bytes rand 14 0;
              ip_num = n;
              ip_addr = addr_bytes got ++ drop (length got * 4) st.ip_addr;
            }))
            count)

-- The request as the controller reads it.
abbrev pub request_of : InstallModule → AodsAodcActive
request_of st = record {
  index = st.index;
  ip_num = st.ip_num;
  ip_addr = st.ip_addr;
  res_id = replicate 6 0;
  rd_serial = st.rd_serial;
}

active_of-active_bytes :
    (st : InstallModule) → IsInstall st → active_of (active_bytes st) ≡ request_of st
active_of-active_bytes st w =
    let zeros : Bytes = replicate 6 0 in
    let rest = zeros ++ st.rd_serial in
    let ip = take-append_self 64 st.ip_addr rest (sym w.addrs) in
    let res = part 64 6 st.ip_addr zeros st.rd_serial (sym w.addrs) refl in
    let serial : take 14 (drop 70 (st.ip_addr ++ rest)) ≡ st.rd_serial =
      ap (λ z. take 14 (drop 70 z)) (sym (append_assoc st.ip_addr zeros st.rd_serial))
      ∙ last_part 70 14 (st.ip_addr ++ zeros) st.rd_serial
          (omega (arith, length-append st.ip_addr zeros, w.addrs)) (sym w.serial) in
    rw (ip, res, serial) refl

-- The connection's address, with its port behind a colon.
abbrev pub addr_text : Bytes → Bytes → Bytes
addr_text ip port = ip ++ b':' ∷ port

before_colon-addr_text :
    (ip port : Bytes) → All (λ b. b ≢ b':') ip → before_colon (addr_text ip port) ≡ some ip
before_colon-addr_text [] port h = refl
before_colon-addr_text (b ∷ ip) port h = ground (arith, before_colon-addr_text ip port h.1, h.0)

-- On an allocator that serves every request, an installer that is not activated asks for a code
-- once its channel is built, with the addresses of its host, 16 at most, and a new serial number;
-- the controller keeps the request under its identifier, with the serial number, and asks the bus
-- with what the installer has sent and the address of the connection, where that address is
-- known as a text of at most 255 bytes with a colon before its port, and is not 0.
pub install_channel_build-active_recv_channel_data :
    {J : Type 0} (lib : JsonLib J) (inet : Inet) (malloc : ℕ → Option Bytes) (rand : ℕ → ℕ)
    (ias : List (Option (ℕ × ℕ))) (uuid channel ip port : Bytes) (st : InstallModule)
    (controller : ActiveModule)
    → Serves malloc
    → st.actived ≡ false
    → length st.ip_addr ≡ 64
    → IsBytes st.ip_addr
    → IsText channel
    → contains aods_channel_name channel ≡ true
    → lookup channel controller.ca ≡ some (addr_text ip port)
    → All (λ b. b ≢ b':') ip
    → length (addr_text ip port) < 256
    → inet.inet_addr ip ≢ 0
    → (install_channel_build malloc rand (some ias) (c_str aodc_client) st
        ≡ some (
          asking rand ias st,
          send_out (to_aodc aodc_client aods_aodc_actv (active_bytes (asking rand ias st))) ∷ [],
        ))
      × (active_recv_channel_data lib inet uuid
            (c_str channel ++ (le32 aods_aodc_actv ++ active_bytes (asking rand ias st)))
            controller
          ≡ some (
              asked lib inet channel uuid
                (request_of (asking rand ias st))
                (inet.inet_addr ip)
                controller))
unfolding active_recv_channel_data on_recv_aods_channel ask_bus
install_channel_build-active_recv_channel_data lib inet malloc rand ias uuid channel ip port st
      controller serves inactive size bytes text aods known plain short real =
    let now = asking rand ias st in
    let w = asking-IsInstall rand ias st size bytes in
    let s = active_bytes now in
    let cut =
      ap split_str (append_assoc channel (0 ∷ []) (le32 aods_aodc_actv ++ s))
      ∙ split_str-c_str channel (le32 aods_aodc_actv ++ s) text in
    let whole : (aods_aodc_msg_size + aods_aodc_activate_size == length (le32 aods_aodc_actv ++ s))
        ≡ true =
      (==_iff _ _).1 (
        omega (
          arith,
          length-append (le32 aods_aodc_actv) s,
          length-le32 aods_aodc_actv,
          length-append now.ip_addr (replicate 6 0 ++ now.rd_serial),
          length-append (replicate 6 0) now.rd_serial,
          w.addrs,
          w.serial,
        )) in
    let fits : leb 256 (length (addr_text ip port)) ≡ false = ground (arith, short) in
    let few : ltb max_ip_addr_num now.ip_num ≡ false = le→ltb max_ip_addr_num now.ip_num w.few in
    let there : (inet.inet_addr ip == 0) ≡ false = ground (arith, real) in
    (
      install_channel_build-asking malloc rand ias st serves inactive,
      rw (cut, aods, read32-le32 aods_aodc_actv s (omega arith), whole)
          (ap (λ a. with_addr lib inet channel uuid a controller (lookup channel controller.ca))
              (active_of-active_bytes now w)
            ∙ ap (with_addr lib inet channel uuid (request_of now) controller) known
            ∙ rw (fits, before_colon-addr_text ip port plain, there, few) refl),
    )
