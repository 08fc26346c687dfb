-- ===== src/Install/ActiveModule/Activation.antt =====
-- The activation of a host from the request of the installer (src/dev/install/AodsActiveModule.cpp) to
-- the first authentication of the service (src/dev/aods/AodsAuthModule.cpp), with the controller
-- (src/dev/aodc/AodsActiveModule.cpp, AodsAuthModule.cpp) between them.
use aods.Util.MemCache.Laws.{IsValid, Serves}
use aods.Base.{
  All, Bool, Bytes, Bytes-Key, IsBytes, IsText, List, Option, [], arith, c_str, codes, contains,
  false, le32, length, lookup, lookup-insert, refl, replicate, some, true, ℕ, ℕ-Key, ◌++◌, ◌+◌, ◌<◌,
  ◌==◌, ◌^◌, ◌∷◌, ◌≡◌, ◌≢◌,
}
use aods.Aodc.ActiveModule.{
  ActiveInfo, ActiveModule, Inet, active_recv_channel_data, active_request, aods_aodc_actv, asked,
}
use aods.Aodc.ActiveModule.Acks.{active_recv_from_kafka, report_active_suc, success_answer}
use aods.Aodc.ActiveModule.Activation.{active_recv_from_kafka-check_code, success_msg}
use aods.Aodc.ActiveModule.Codes.{IsAck}
use aods.Aodc.AuthModule.{
  AuthModule, aods_aodc_auth, aods_channel_name, calc_active_code, on_recv_aods_msg, registered,
}
use aods.Aodc.AuthModule.Changes.{name_at}
use aods.Aods.AuthModule.{aodc_client, host_channel_build, sent, to_aodc}
use aods.Aods.AuthModule.Laws.{host_authen}
use aods.Install.ActiveModule.{
  InstallModule, active_bytes, install_channel_build, install_recv, send_out,
}
use aods.Install.ActiveModule.Laws.{install_events, install_recv-on_recv_aods_msg}
use aods.Install.ActiveModule.Request.{
  addr_text, asking, asking-IsInstall, install_channel_build-active_recv_channel_data, request_of,
}
use aods.Install.ActiveModule.Saved.{installed}
use aods.Util.Helper.{get_hex_string}
use aods.Util.Json.{JsonLib}
use aods.Util.OutMsg.{free_msg}

-- What the controller keeps of a request.
abbrev kept_request : Bytes → InstallModule → ActiveInfo
kept_request channel st = record {
  channel_name = channel;
  active_code = replicate 6 0 ++ st.rd_serial;
}

module _ {J : Type 0} (lib : JsonLib J) (inet : Inet) (malloc : ℕ → Option Bytes)
    (rand given saving reading checking : ℕ → ℕ) where
  -- On an allocator that serves every request: an installer that is not activated asks for a code;
  -- the controller, which knows the address of its connection, asks the bus; the bus grants the
  -- request a resource of 6 bytes; the controller reports the code and sends it to the installer;
  -- the installer saves it, where the file can be opened; and when the service of the host builds
  -- its channel with this file, the controller registers the resource, if it is not registered,
  -- with the addresses that the host has then. The sizes stay within an unsigned int.
  pub install_channel_build-on_recv_aods_msg :
      (ias ias' : List (Option (ℕ × ℕ))) (uuid channel channel' ip port s res dir : Bytes)
      (obj ack r : J) (installs : Bool) (st : InstallModule) (controller : ActiveModule)
      (auth : AuthModule)
      → Serves malloc
      → st.actived ≡ false
      → length st.ip_addr ≡ 64
      → IsBytes st.ip_addr
      → IsText channel
      → contains aods_channel_name channel ≡ true
      → lookup channel controller.ca ≡ some (addr_text ip port)
      → All (λ b. b ≢ b':') ip
      → length (addr_text ip port) < 256
      → inet.inet_addr ip ≢ 0
      → IsValid controller.amc
      → length channel + controller.amc.append_step_size + 40 < 2 ^ 32
      → IsAck lib s uuid obj ack
      → (lib.value_int ack == 0) ≡ true
      → lib.get_object_item obj (codes "rid") ≡ some r
      → lib.value_string r ≡ some (get_hex_string res)
      → IsBytes res
      → length res ≡ 6
      → length (name_at (get_hex_string res) auth) ≡ 0
      → let now = asking rand ias st in
        let code = calc_active_code given (res ++ now.rd_serial) in
        (mid after : ActiveModule) × (file body : Bytes) × (install_channel_build malloc rand
            (some ias)
            (c_str aodc_client)
            st
          ≡ some (now, send_out (to_aodc aodc_client aods_aodc_actv (active_bytes now)) ∷ []))
        × (active_recv_channel_data lib inet uuid
              (c_str channel ++ (le32 aods_aodc_actv ++ active_bytes now))
              controller
            ≡ some (mid, active_request lib inet uuid (request_of now) (inet.inet_addr ip) ∷ []))
        × (active_recv_from_kafka lib inet malloc given s mid
            ≡ some (
              after,
              report_active_suc lib inet code res
                  ∷ success_msg channel res code
                  ∷ free_msg channel
                  ∷ [],
            ))
        × (install_recv saving true installs dir (c_str aodc_client ++ success_answer res code) now
            ≡ some (record now { actived = true }, install_events installs dir file))
        × (host_channel_build malloc reading (some file) (some ias') (c_str aodc_client)
            ≡ some (sent (to_aodc aodc_client aods_aodc_auth body) ∷ []))
        × (on_recv_aods_msg lib malloc checking channel' (le32 aods_aodc_auth ++ body) auth
            ≡ some (
                registered lib channel'
                  (get_hex_string res)
                  (host_authen (installed res code now) ias')
                  auth))
  install_channel_build-on_recv_aods_msg ias ias' uuid channel channel' ip port s res dir obj ack r
        installs st controller auth serves inactive size bytes text aods known plain short real v
        small acked granted has_rid rid res_bytes six free =
      let now = asking rand ias st in
      let code = calc_active_code given (res ++ now.rd_serial) in
      let w = asking-IsInstall rand ias st size bytes in
      let mid = (asked lib inet channel uuid (request_of now) (inet.inet_addr ip) controller).0 in
      let info = kept_request channel now in
      let first =
        install_channel_build-active_recv_channel_data lib inet malloc rand ias uuid channel ip port
          st controller serves inactive size bytes text aods known plain short real in
      let has_request : lookup uuid mid.uai ≡ some info =
        ground (arith, lookup-insert uuid uuid info controller.uai, Bytes-Key.same_iff uuid uuid) in
      let has_channel : lookup channel mid.cu ≡ some uuid = ground (
        arith,
        lookup-insert channel channel uuid controller.cu,
        Bytes-Key.same_iff channel channel,
      ) in
      let second =
        active_recv_from_kafka-check_code lib inet malloc given s uuid uuid res (replicate 6 0)
          now.rd_serial obj ack r info mid channel (installed res code now) auth serves v small
          acked granted has_rid rid res_bytes six has_request has_channel refl refl w.serial refl
          refl refl free in
      let third =
        install_recv-on_recv_aods_msg lib malloc given saving reading checking installs dir res
          channel' ias' now auth serves w res_bytes six free in
      (mid, second.0, third.0, third.1, first.0, first.1, second.1, third.2, third.3, third.4)
