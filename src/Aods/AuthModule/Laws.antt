-- ===== src/Aods/AuthModule/Laws.antt =====
-- The request of src/dev/aods/AodsAuthModule.cpp, and what the controller's
-- src/dev/aodc/AodsAuthModule.cpp makes of it.
use aods.Util.MemCache.Laws.{Serves}
use aods.Base.{
  Bytes, IsText, List, Option, [], and_then, ap, arith, bytes_eq, bytes_eq_refl, c_str, drop, le32,
  length, length-append, length-drop, length-le32, length-take, le→ltb, read32-le32, refl, some,
  split_str-c_str, take, true, ℕ, ◌*◌, ◌++◌, ◌+◌, ◌==◌, ◌∙◌, ◌∷◌, ◌≡◌, ◌≤◌,
}
use aods.Aodc.AuthModule.{
  AodsAodcAuthen, AuthModule, aods_aodc_auth, aods_aodc_authen_size, aods_aodc_msg_size, check_code,
  max_ip_addr_num, on_recv_aods_msg,
}
use aods.Aods.AuthModule.{
  aodc_client, authen_asked, authen_bytes, authen_with, get_ip_addrs, host_channel_build, on_authen,
  read_active_data, saved_key, saved_of, sent, to_aodc,
}
use aods.Aods.AuthModule.Layout.{
  IsAuthen, addr_bytes, authen_of-authen_bytes, inet_only, write_addrs_behind,
}
use aods.Util.Encrypt.{decode, default, set_key}
use aods.Util.Json.{JsonLib}

-- What the host sends for the saved parts: the addresses are those that it has.
abbrev pub host_authen : AodsAodcAuthen → List (Option (ℕ × ℕ)) → AodsAodcAuthen
host_authen a ias =
    let got = take a.ip_num (inet_only ias) in
    record a { ip_num = length got; ip_addr = addr_bytes got ++ drop (length got * 4) a.ip_addr }

pub length-addr_bytes : (addrs : List ℕ) → length (addr_bytes addrs) ≡ length addrs * 4
length-addr_bytes [] = refl
length-addr_bytes (s_addr ∷ addrs) = omega (
  arith,
  length-append (le32 s_addr) (addr_bytes addrs),
  length-le32 s_addr,
  length-addr_bytes addrs,
)

pub host_authen-IsAuthen :
    (a : AodsAodcAuthen) (ias : List (Option (ℕ × ℕ)))
    → IsAuthen a
    → a.ip_num ≤ max_ip_addr_num
    → IsAuthen (host_authen a ias)
host_authen-IsAuthen a ias w few =
    let got = take a.ip_num (inet_only ias) in
    let count = length-take a.ip_num (inet_only ias) in
    record {
      num = omega arith;
      addrs = omega (
        arith,
        length-append (addr_bytes got) (drop (length got * 4) a.ip_addr),
        length-addr_bytes got,
        length-drop (length got * 4) a.ip_addr,
        w.addrs,
      );
      res = w.res;
      serial = w.serial;
      code = w.code;
    }

get_ip_addrs_lem :
    (ias : List (Option (ℕ × ℕ))) (a : AodsAodcAuthen)
    → a.ip_num ≤ max_ip_addr_num
    → get_ip_addrs (some ias) a.ip_num a.ip_addr
      ≡ some (some ((host_authen a ias).ip_num, (host_authen a ias).ip_addr))
unfolding get_ip_addrs
get_ip_addrs_lem ias a few =
    let got = take a.ip_num (inet_only ias) in
    let count : 0 + length got ≡ length got = omega arith in
    ap (λ o. and_then o λ r. some (some r))
      (write_addrs_behind ias 0 a.ip_num a.ip_num [] a.ip_addr refl (omega arith) few)
    ∙ ap (λ n. some (some (n, addr_bytes got ++ drop (length got * 4) a.ip_addr))) count

pub aodc_client-IsText : IsText aodc_client
aodc_client-IsText = ground arith

-- The controller reads the parts as they were laid out.
on_recv_aods_msg-authen :
    {J : Type 0} (lib : JsonLib J) (malloc : ℕ → Option Bytes) (junk : ℕ → ℕ) (channel : Bytes)
    (a : AodsAodcAuthen) (st : AuthModule)
    → IsAuthen a
    → on_recv_aods_msg lib malloc junk channel (le32 aods_aodc_auth ++ authen_bytes a) st
      ≡ check_code lib malloc junk channel a st
unfolding on_recv_aods_msg
on_recv_aods_msg-authen lib malloc junk channel a st w =
    let body = authen_bytes a in
    let size : (aods_aodc_authen_size + aods_aodc_msg_size == length (le32 aods_aodc_auth ++ body))
        ≡ true =
      ground (
        arith,
        length-append (le32 aods_aodc_auth) body,
        length-le32 aods_aodc_auth,
        length-append a.ip_addr (a.res_id ++ (a.rd_serial ++ a.act_code)),
        length-append a.res_id (a.rd_serial ++ a.act_code),
        length-append a.rd_serial a.act_code,
        w.addrs,
        w.res,
        w.serial,
        w.code,
      ) in
    rw (read32-le32 aods_aodc_auth body (omega arith), size, authen_of-authen_bytes a w)

-- On an allocator that serves every request, once the channel to the controller is built, a host
-- whose saved file decodes to parts of their sizes with at most 16 addresses asks to be let in
-- with these parts and the addresses that it has, as many as were saved at most; and the
-- controller checks exactly what the host has asked with.
pub host_channel_build-check_code :
    {J : Type 0} (lib : JsonLib J) (malloc : ℕ → Option Bytes) (junk junk' : ℕ → ℕ) (file : Bytes)
    (a : AodsAodcAuthen) (ias : List (Option (ℕ × ℕ))) (channel : Bytes) (st : AuthModule)
    → Serves malloc
    → aods_aodc_authen_size ≤ length file
    → saved_of (decode (set_key (saved_key 16 0) 16 (default junk)) file) ≡ a
    → IsAuthen a
    → a.ip_num ≤ max_ip_addr_num
    → (body : Bytes) × (host_channel_build malloc junk (some file) (some ias) (c_str aodc_client)
        ≡ some (sent (to_aodc aodc_client aods_aodc_auth body) ∷ []))
      × (on_recv_aods_msg lib malloc junk' channel (le32 aods_aodc_auth ++ body) st
          ≡ check_code lib malloc junk' channel (host_authen a ias) st)
unfolding host_channel_build on_authen read_active_data
host_channel_build-check_code lib malloc junk junk' file a ias channel st serves long saved w few =
    let b = host_authen a ias in
    let block = serves 1024 in
    let copy = serves (length file) in
    let enough = le→ltb (length file) aods_aodc_authen_size long in
    let same : bytes_eq aodc_client aodc_client ≡ true = bytes_eq_refl aodc_client in
    (
      authen_bytes b,
      rw (split_str-c_str aodc_client [] aodc_client-IsText, same, block.1, enough, copy.1)
          (ap (λ z. authen_with (some ias) aodc_client (some z)) saved
            ∙ ap (λ o. and_then o λ r. some (authen_asked aodc_client a r))
                (get_ip_addrs_lem ias a few)),
      on_recv_aods_msg-authen lib malloc junk' channel b st (host_authen-IsAuthen a ias w few),
    )
