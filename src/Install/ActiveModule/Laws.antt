-- ===== src/Install/ActiveModule/Laws.antt =====
-- A code from the controller (src/dev/aodc/AodsActiveModule.cpp) to the file that the installer
-- saves (src/dev/install/AodsActiveModule.cpp), to the host that reads it
-- (src/dev/aods/AodsAuthModule.cpp), and back to the controller (src/dev/aodc/AodsAuthModule.cpp).
use aods.Util.MemCache.Laws.{Serves}
use aods.Base.{
  All-append, Bool, Bytes, IsByte, IsBytes, List, Option, [], ap, append_assoc, arith, bytes_eq,
  bytes_eq_refl, c_str, codes, drop, if◌then◌else◌, le32, length, length-append, read32,
  read32-le32, some, split_str, split_str-c_str, sym, take, take-append_self, true, ℕ, ◌++◌, ◌==◌,
  ◌∙◌, ◌∷◌, ◌≡◌, ◌≤◌,
}
use aods.Aodc.ActiveModule.{aodc_aods_actv}
use aods.Aodc.ActiveModule.Acks.{success_answer}
use aods.Aodc.AuthModule.{
  AuthModule, act_code_len, aods_aodc_auth, calc_active_code, on_recv_aods_msg, registered,
}
use aods.Aodc.AuthModule.Answers.{check_code-free}
use aods.Aodc.AuthModule.Changes.{name_at}
use aods.Aods.AuthModule.{
  aodc_client, exit_msg, host_channel_build, saved_key, saved_of, sent, to_aodc,
}
use aods.Aods.AuthModule.Laws.{aodc_client-IsText, host_authen, host_channel_build-check_code}
use aods.Aods.AuthModule.Layout.{last_part}
use aods.Install.ActiveModule.{
  InstallEvent, InstallModule, active_suc_size, active_success, install_recv, install_service,
  save_active, save_data, save_file, send_out, start_service,
}
use aods.Install.ActiveModule.Saved.{
  IsInstall, calc_active_code-IsBytes, calc_active_code-junk, installed, installed-IsAuthen,
  length-calc_active_code, length-save_data, save_data-IsBytes, saved_key-IsBytes,
  saved_of-save_data,
}
use aods.Util.Encrypt.{default, encode, set_key}
use aods.Util.Encrypt.Junk.{decode-encode-junk}
use aods.Util.Encrypt.Laws.{length-encode}
use aods.Util.Helper.{get_hex_string}
use aods.Util.Json.{JsonLib}

-- What the installer does with a code.
abbrev pub install_events : Bool → Bytes → Bytes → List InstallEvent
install_events installs dir file =
    (save_file file
      ∷ install_service (dir ++ codes "/aods")
      ∷ (if installs then start_service (codes "aods") ∷ [] else []))
    ++ send_out exit_msg ∷ []

-- The answer of the controller, where the file can be opened.
install_recv-success_answer :
    (junk : ℕ → ℕ) (installs : Bool) (dir res code : Bytes) (st : InstallModule)
    → length res ≡ 6
    → length code ≡ 20
    → install_recv junk true installs dir (c_str aodc_client ++ success_answer res code) st
      ≡ some (
        record st { actived = true },
        install_events installs dir
            (encode (set_key (saved_key 16 0) 16 (default junk)) (save_data res code st)),
      )
unfolding install_recv active_success save_active le32
install_recv-success_answer junk installs dir res code st six twenty =
    let word : read32 (success_answer res code) ≡ some (aodc_aods_actv, 0 ∷ (res ++ code)) =
      read32-le32 aodc_aods_actv (0 ∷ (res ++ code)) (omega arith) in
    let cut : split_str (c_str aodc_client ++ success_answer res code)
        ≡ some (aodc_client, success_answer res code) =
      ap split_str (append_assoc aodc_client (0 ∷ []) (success_answer res code))
      ∙ split_str-c_str aodc_client (success_answer res code) aodc_client-IsText in
    let same : bytes_eq aodc_client aodc_client ≡ true = bytes_eq_refl aodc_client in
    let size : (length (res ++ code) == active_suc_size) ≡ true =
      ground (arith, length-append res code, six, twenty) in
    let behind : take act_code_len (drop 6 (res ++ code)) ≡ code =
      last_part 6 20 res code (sym six) (sym twenty) in
    rw (cut, same, word, size, take-append_self 6 res code (sym six), behind)

module _ {J : Type 0} (lib : JsonLib J) (malloc : ℕ → Option Bytes)
    (given saving reading checking : ℕ → ℕ) where
  -- On an allocator that serves every request, the code that the controller gives for a resource
  -- of 6 bytes and the serial number of the installer is saved by the installer, where the file
  -- can be opened; with this file the host asks to be let in once its channel is built, and the
  -- controller registers the resource, if it is not registered, with the addresses that the host
  -- has then, whatever the memory of the four ciphers held before. The members of the installer
  -- have their sizes and hold bytes, with at most 16 addresses.
  pub install_recv-on_recv_aods_msg :
      (installs : Bool) (dir res channel : Bytes) (ias : List (Option (ℕ × ℕ))) (st : InstallModule)
      (auth : AuthModule)
      → Serves malloc
      → IsInstall st
      → IsBytes res
      → length res ≡ 6
      → length (name_at (get_hex_string res) auth) ≡ 0
      → let code = calc_active_code given (res ++ st.rd_serial) in
        (file body : Bytes) × (install_recv saving true installs dir
            (c_str aodc_client ++ success_answer res code)
            st
          ≡ some (record st { actived = true }, install_events installs dir file))
        × (host_channel_build malloc reading (some file) (some ias) (c_str aodc_client)
            ≡ some (sent (to_aodc aodc_client aods_aodc_auth body) ∷ []))
        × (on_recv_aods_msg lib malloc checking channel (le32 aods_aodc_auth ++ body) auth
            ≡ some (
                registered lib channel
                  (get_hex_string res)
                  (host_authen (installed res code st) ias)
                  auth))
  install_recv-on_recv_aods_msg installs dir res channel ias st auth serves w bytes six free =
      let active = res ++ st.rd_serial in
      let active_bytes = All-append IsByte res st.rd_serial bytes w.serial_bytes in
      let code = calc_active_code given active in
      let twenty : length code ≡ 20 =
        length-calc_active_code given active
          (omega (arith, length-append res st.rd_serial, six, w.serial)) in
      let a = installed res code st in
      let saved = save_data res code st in
      let file = encode (set_key (saved_key 16 0) 16 (default saving)) saved in
      let plain =
        save_data-IsBytes res code st w bytes
          (calc_active_code-IsBytes given active active_bytes) in
      let decoded =
        decode-encode-junk saving reading (saved_key 16 0) saved (saved_key-IsBytes 16 0)
          (omega arith) plain in
      let size : 105 ≤ length file = omega (
        arith,
        length-encode (set_key (saved_key 16 0) 16 (default saving)) saved,
        length-save_data res code st w six twenty,
      ) in
      let asked =
        host_channel_build-check_code lib malloc reading checking file a ias channel auth serves
          size (ap saved_of decoded ∙ saved_of-save_data res code st w six twenty)
          (installed-IsAuthen res code st w six twenty) w.few in
      (
        file,
        asked.0,
        install_recv-success_answer saving installs dir res code st six twenty,
        asked.1,
        asked.2
            ∙ check_code-free lib malloc checking channel (host_authen a ias) auth
                (calc_active_code-junk given checking active active_bytes) free,
      )
