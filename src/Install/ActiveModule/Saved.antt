-- ===== src/Install/ActiveModule/Saved.antt =====
-- The file that src/dev/install/AodsActiveModule.cpp saves, with the code in it, and its parts as
-- src/dev/aods/AodsAuthModule.cpp reads them.
use aods.Base.{
  All-append, Bytes, IsByte, IsBytes, [], ap, append_assoc, arith, bit_xor, drop, get_or,
  get_or-behind, length, length-append, length-take, suc, sym, take, take-IsBytes, take-append_self,
  zero, ℕ, ◌++◌, ◌+◌, ◌-◌, ◌<◌, ◌∙◌, ◌∷◌, ◌≡◌, ◌≤◌,
}
use aods.Aodc.AuthModule.{
  AodsAodcAuthen, act_code_len, active_key, calc_active_code, crc8_of, max_ip_addr_num,
}
use aods.Aods.AuthModule.{saved_key, saved_of}
use aods.Install.ActiveModule.{InstallModule, save_data}
use aods.Util.Encrypt.{default, set_key}
use aods.Util.Encrypt.Junk.{encode-junk}
use aods.Util.Encrypt.Laws.{default-IsInverse, encode-IsBytes, length-encode, set_key-IsInverse}
use aods.Util.Hash.Crc.{calc_crc8, xor_bytes}
use aods.Aods.AuthModule.Layout.{IsAuthen, last_part, part}
use aods.Base.Bits.{bit_xor_lt}

-- The members of the installer have their sizes, and hold bytes.
pub record IsInstall (st : InstallModule) : Type 0 where
  pub few : st.ip_num ≤ max_ip_addr_num
  pub addrs : length st.ip_addr ≡ 64
  pub serial : length st.rd_serial ≡ 14
  pub addr_bytes : IsBytes st.ip_addr
  pub serial_bytes : IsBytes st.rd_serial

xor_bytes-IsByte : (b : ℕ) (s : Bytes) → IsByte b → IsBytes s → xor_bytes b s < 256
unfolding xor_bytes
xor_bytes-IsByte b [] h k = h
xor_bytes-IsByte b (a ∷ s) h k = xor_bytes-IsByte (bit_xor b a) s (bit_xor_lt 8 b a h k.0) k.1

crc8_of-IsByte : (s : Bytes) → IsBytes s → crc8_of s < 256
unfolding calc_crc8
crc8_of-IsByte [] h = omega arith
crc8_of-IsByte (b ∷ s) h = xor_bytes-IsByte b s h.0 h.1

pub saved_key-IsBytes : (left n : ℕ) → IsBytes (saved_key left n)
saved_key-IsBytes zero n = tt
saved_key-IsBytes (suc left) n = (omega arith, saved_key-IsBytes left (n + 1))

active_key-IsBytes : (left n : ℕ) → IsBytes (active_key left n)
active_key-IsBytes zero n = tt
active_key-IsBytes (suc left) n = (omega arith, active_key-IsBytes left (n + 1))

-- The bytes of a code before they are encoded.
code_body-IsBytes :
    (code : Bytes)
    → IsBytes code
    → IsBytes (take (act_code_len - 1) code ++ crc8_of (take (act_code_len - 1) code) ∷ [])
code_body-IsBytes code h =
    let front = take (act_code_len - 1) code in
    let bytes = take-IsBytes (act_code_len - 1) code h in
    All-append IsByte front (crc8_of front ∷ []) bytes (crc8_of-IsByte front bytes, tt)

pub calc_active_code-IsBytes :
    (junk : ℕ → ℕ) (code : Bytes) → IsBytes code → IsBytes (calc_active_code junk code)
unfolding calc_active_code
calc_active_code-IsBytes junk code h =
    encode-IsBytes
      (set_key-IsInverse (default-IsInverse junk) (active_key 16 0) 16 (active_key-IsBytes 16 0)
        (omega arith))
      _ (code_body-IsBytes code h)

-- The code does not depend on what the memory of the cipher held.
pub calc_active_code-junk :
    (junk junk' : ℕ → ℕ) (code : Bytes)
    → IsBytes code
    → calc_active_code junk code ≡ calc_active_code junk' code
unfolding calc_active_code
calc_active_code-junk junk junk' code h =
    encode-junk junk junk' (active_key 16 0) _ (active_key-IsBytes 16 0) (code_body-IsBytes code h)

pub length-calc_active_code :
    (junk : ℕ → ℕ) (code : Bytes) → length code ≡ 20 → length (calc_active_code junk code) ≡ 20
unfolding calc_active_code
length-calc_active_code junk code e =
    let front = take (act_code_len - 1) code in
    omega (
      arith,
      length-encode (set_key (active_key 16 0) 16 (default junk)) (front ++ crc8_of front ∷ []),
      length-append front (crc8_of front ∷ []),
      length-take (act_code_len - 1) code,
      e,
    )

-- The parts of the file of an installer.
abbrev pub installed : Bytes → Bytes → InstallModule → AodsAodcAuthen
installed res code st = record {
  ip_num = st.ip_num;
  ip_addr = st.ip_addr;
  res_id = res;
  rd_serial = st.rd_serial;
  act_code = code;
}

pub installed-IsAuthen :
    (res code : Bytes) (st : InstallModule)
    → IsInstall st
    → length res ≡ 6
    → length code ≡ 20
    → IsAuthen (installed res code st)
installed-IsAuthen res code st w six twenty = record {
  num = omega (arith, w.few);
  addrs = w.addrs;
  res = six;
  serial = w.serial;
  code = twenty;
}

pub saved_of-save_data :
    (res code : Bytes) (st : InstallModule)
    → IsInstall st
    → length res ≡ 6
    → length code ≡ 20
    → saved_of (save_data res code st) ≡ installed res code st
saved_of-save_data res code st w six twenty =
    let rest = st.ip_num ∷ st.ip_addr ++ code in
    let front = res ++ st.rd_serial in
    let front_size : length front ≡ 20 =
      omega (arith, length-append res st.rd_serial, six, w.serial) in
    let one = front ++ st.ip_num ∷ [] in
    let one_size : length one ≡ 21 =
      omega (arith, length-append front (st.ip_num ∷ []), front_size) in
    let at_front : save_data res code st ≡ front ++ rest =
      sym (append_assoc res st.rd_serial rest) in
    let at_one : save_data res code st ≡ one ++ (st.ip_addr ++ code) =
      at_front ∙ sym (append_assoc front (st.ip_num ∷ []) (st.ip_addr ++ code)) in
    let at_all : save_data res code st ≡ (one ++ st.ip_addr) ++ code =
      at_one ∙ sym (append_assoc one st.ip_addr code) in
    let all_size : length (one ++ st.ip_addr) ≡ 85 =
      omega (arith, length-append one st.ip_addr, one_size, w.addrs) in
    let num : get_or (save_data res code st) 20 0 ≡ st.ip_num =
      ap (λ z. get_or z 20 0) at_front
      ∙ get_or-behind 20 st.ip_num front (st.ip_addr ++ code) (sym front_size) in
    let addr : take 64 (drop 21 (save_data res code st)) ≡ st.ip_addr =
      ap (λ z. take 64 (drop 21 z)) at_one
      ∙ part 21 64 one st.ip_addr code (sym one_size) (sym w.addrs) in
    let serial = part 6 14 res st.rd_serial rest (sym six) (sym w.serial) in
    let got_code : take 20 (drop 85 (save_data res code st)) ≡ code =
      ap (λ z. take 20 (drop 85 z)) at_all
      ∙ last_part 85 20 (one ++ st.ip_addr) code (sym all_size) (sym twenty) in
    rw (num, addr, take-append_self 6 res (st.rd_serial ++ rest) (sym six), serial, got_code)

pub length-save_data :
    (res code : Bytes) (st : InstallModule)
    → IsInstall st
    → length res ≡ 6
    → length code ≡ 20
    → length (save_data res code st) ≡ 105
length-save_data res code st w six twenty = omega (
  arith,
  length-append res (st.rd_serial ++ (st.ip_num ∷ st.ip_addr ++ code)),
  length-append st.rd_serial (st.ip_num ∷ st.ip_addr ++ code),
  length-append st.ip_addr code,
  six,
  twenty,
  w.serial,
  w.addrs,
)

pub save_data-IsBytes :
    (res code : Bytes) (st : InstallModule)
    → IsInstall st
    → IsBytes res
    → IsBytes code
    → IsBytes (save_data res code st)
save_data-IsBytes res code st w h k = All-append IsByte res _ h (
    All-append IsByte st.rd_serial _ w.serial_bytes
      (omega (arith, w.few), All-append IsByte st.ip_addr code w.addr_bytes k))
