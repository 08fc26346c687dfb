-- ===== src/Aods/UpdateModuleMgr/Reports.antt =====
-- The reports of src/dev/aods/UpdateModuleMgr.cpp, and what the controller's
-- src/dev/aodc/UpdateModule.cpp passes on to the bus for them.
use aods.Base.{
  Bytes, Bytes-Key, IsText, [], ap, append-nil, arith, c_str, codes, contains, false, le32, length,
  le→ltb, lookup, ltb, read32-le32, refl, some, sym, true, ℕ, ℕ-Key, ◌++◌, ◌+◌, ◌<◌, ◌==◌, ◌∷◌, ◌≡◌,
  ◌≤◌,
}
use aods.Aodc.AuthModule.{aods_aodc_msg_size, aods_channel_name}
use aods.Aodc.UpdateModule.{
  UpdateModule, UpdateObj, add_texts, aods_aodc_udr, aods_aodc_umi, count_nul, on_recv_aods_data,
  on_recv_update_module_info, on_recv_update_module_result, report, text_keys,
  update_recv_channel_data,
}
use aods.Aods.UpdateModuleMgr.Laws.{AreTexts, split_str-text}
use aods.Util.Json.{JsonLib}
use aods.Util.OutMsg.{OutMsg}
use aods.Aods.AuthModule.{aodc_client, to_aodc}
use aods.Aods.DownloadThread.{DownloadItem, dr_suc, result_texts}
use aods.Aods.UpdateModuleMgr.{UpdateMgr, mgr_send, report2aodc, report_cap, send_umi, umi_texts}
use aods.Aods.UpdateModuleMgr.Unpack.{Disk, arrived_of, on_download_result}

count_nul-text : (s rest : Bytes) → IsText s → count_nul (c_str s ++ rest) ≡ 1 + count_nul rest
count_nul-text [] rest h = refl
count_nul-text (b ∷ s) rest h = ground (arith, count_nul-text s rest h.1, h.0)

-- The texts of a report in their order.
pub record Report : Type 0 where
  pub prj : Bytes
  pub module_name : Bytes
  pub ver : Bytes
  pub hash : Bytes

pub record IsReport (r : Report) : Type 0 where
  pub prj : IsText r.prj
  pub module_name : IsText r.module_name
  pub ver : IsText r.ver
  pub hash : IsText r.hash

abbrev pub report_bytes : Report → Bytes → Bytes
report_bytes r rest =
    c_str r.prj ++ (c_str r.module_name ++ (c_str r.ver ++ (c_str r.hash ++ rest)))

count_nul-report :
    (r : Report) (rest : Bytes) → IsReport r → ltb (count_nul (report_bytes r rest)) 4 ≡ false
count_nul-report r rest w = le→ltb (count_nul (report_bytes r rest)) 4 (
    omega (
      arith,
      count_nul-text r.prj (c_str r.module_name ++ (c_str r.ver ++ (c_str r.hash ++ rest))) w.prj,
      count_nul-text r.module_name (c_str r.ver ++ (c_str r.hash ++ rest)) w.module_name,
      count_nul-text r.ver (c_str r.hash ++ rest) w.ver,
      count_nul-text r.hash rest w.hash,
    ))

module _ {J : Type 0} (lib : JsonLib J) where
  -- The object that the controller makes of the texts.
  abbrev pub report_obj : Report → J
  report_obj r = lib.add_item_to_object (codes "hash") (lib.create_string r.hash) (
      lib.add_item_to_object (codes "version") (lib.create_string r.ver) (
        lib.add_item_to_object (codes "module") (lib.create_string r.module_name)
          (lib.add_item_to_object (codes "project") (lib.create_string r.prj) lib.create_object)))

  add_texts-report :
      (r : Report) (rest : Bytes)
      → IsReport r
      → add_texts lib text_keys (report_bytes r rest) lib.create_object ≡ some (report_obj r)
  add_texts-report r rest w =
      rw
        (
          split_str-text r.prj (c_str r.module_name ++ (c_str r.ver ++ (c_str r.hash ++ rest)))
              w.prj,
          split_str-text r.module_name (c_str r.ver ++ (c_str r.hash ++ rest)) w.module_name,
          split_str-text r.ver (c_str r.hash ++ rest) w.ver,
          split_str-text r.hash rest w.hash,
        )
        refl

  -- The texts of a host with a resource, as they go to the bus.
  abbrev pub umi_report : Bytes → Report → OutMsg
  umi_report rid r =
      report lib (codes "check_update")
        (lib.add_item_to_object (codes "rid") (lib.create_string rid) (report_obj r))

  abbrev pub udr_report : Bytes → ℕ → Report → OutMsg
  udr_report rid rlt r = report lib (codes "update_result") (
      lib.add_item_to_object (codes "result") (lib.create_number rlt)
        (lib.add_item_to_object (codes "rid") (lib.create_string rid) (report_obj r)))

  -- A report of a host that is entered.
  update_recv_channel_data-umi :
      (channel rest : Bytes) (host : UpdateObj) (r : Report) (st : UpdateModule)
      → IsText channel
      → contains aods_channel_name channel ≡ true
      → lookup channel st.cuo ≡ some host
      → IsReport r
      → update_recv_channel_data lib
          (c_str channel ++ (le32 aods_aodc_umi ++ report_bytes r rest))
          st
        ≡ some (st, umi_report host.res_id r ∷ [])
  unfolding update_recv_channel_data on_recv_aods_data on_recv_update_module_info
  update_recv_channel_data-umi channel rest host r st text aods there w =
      let s = report_bytes r rest in
      rw
        (
          split_str-text channel (le32 aods_aodc_umi ++ s) text,
          aods,
          there,
          read32-le32 aods_aodc_umi s (omega arith),
          count_nul-report r rest w,
          add_texts-report r rest w,
        )
        refl

  update_recv_channel_data-udr :
      (channel rest : Bytes) (rlt : ℕ) (host : UpdateObj) (r : Report) (st : UpdateModule)
      → IsText channel
      → contains aods_channel_name channel ≡ true
      → lookup channel st.cuo ≡ some host
      → IsReport r
      → update_recv_channel_data lib
          (c_str channel ++ (le32 aods_aodc_udr ++ rlt ∷ report_bytes r rest))
          st
        ≡ some (st, udr_report host.res_id rlt r ∷ [])
  unfolding update_recv_channel_data on_recv_aods_data on_recv_update_module_result
  update_recv_channel_data-udr channel rest rlt host r st text aods there w =
      let s = report_bytes r rest in
      rw
        (
          split_str-text channel (le32 aods_aodc_udr ++ rlt ∷ s) text,
          aods,
          there,
          read32-le32 aods_aodc_udr (rlt ∷ s) (omega arith),
          count_nul-report r rest w,
          add_texts-report r rest w,
        )
        refl

  -- What the host tells of a module, with texts without terminators that fit into 1024 bytes, the
  -- controller passes on to the bus with the same texts and the resource of the host, where the
  -- host is entered with its channel.
  pub send_umi-update_recv_channel_data :
      (channel : Bytes) (host : UpdateObj) (r : Report) (st : UpdateModule)
      → IsText channel
      → contains aods_channel_name channel ≡ true
      → lookup channel st.cuo ≡ some host
      → IsReport r
      → 15 + length (report_bytes r []) ≤ report_cap
      → (send_umi r.prj r.module_name r.ver r.hash
          ≡ some (to_aodc aodc_client aods_aodc_umi (report_bytes r [])))
        × (update_recv_channel_data lib
              (c_str channel ++ (le32 aods_aodc_umi ++ report_bytes r []))
              st
            ≡ some (st, umi_report host.res_id r ∷ []))
  unfolding send_umi report2aodc
  send_umi-update_recv_channel_data channel host r st text aods there w fits =
      let texts = umi_texts r.prj r.module_name r.ver r.hash in
      let same : texts ≡ report_bytes r [] =
        ap (λ z. c_str r.prj ++ (c_str r.module_name ++ (c_str r.ver ++ z)))
          (sym (append-nil (c_str r.hash))) in
      let room : ltb report_cap (length texts) ≡ false =
        le→ltb report_cap (length texts) (omega (arith, ap length same, fits)) in
      let room' : ltb report_cap (length aodc_client + 1 + aods_aodc_msg_size + length texts)
          ≡ false =
        le→ltb report_cap _ (omega (arith, ap length same, fits)) in
      (
        rw (room, room') (ap (λ z. some (to_aodc aodc_client aods_aodc_umi z)) same),
        update_recv_channel_data-umi channel [] host r st text aods there w,
      )

  -- The four texts of a task, and those behind them.
  abbrev pub report_of : DownloadItem → Report
  report_of di = record {
    prj = di.prj;
    module_name = di.module_name;
    ver = di.file_ver;
    hash = di.file_hash;
  }

  arrived_of-result_texts :
      (di : DownloadItem)
      → AreTexts di
      → IsText di.save_file_name
      → arrived_of (result_texts di)
        ≡ some (record {
          prj = di.prj;
          module_name = di.module_name;
          ver = di.file_ver;
          hash = di.file_hash;
          save_file_name = di.save_file_name;
        })
  arrived_of-result_texts di w saved =
      rw
        (
          split_str-text di.prj _ w.prj,
          split_str-text di.module_name _ w.module_name,
          split_str-text di.file_ver _ w.ver,
          split_str-text di.file_hash _ w.hash,
          split_str-text di.url _ w.url,
          split_str-text di.save_file_name (c_str di.pwd) saved,
        )
        refl

  -- A download that has failed, with texts without terminators that fit into 1024 bytes, changes
  -- nothing at the host; its result is reported, and the controller passes it on to the bus with
  -- the same texts and the resource of the host, where the host is entered with its channel.
  pub on_download_result-update_recv_channel_data :
      (dir channel : Bytes) (disk : Disk) (rlt : ℕ) (di : DownloadItem) (mgr : UpdateMgr)
      (host : UpdateObj) (st : UpdateModule)
      → AreTexts di
      → IsText di.save_file_name
      → 16 + length (result_texts di) ≤ report_cap
      → 0 < rlt
      → IsText channel
      → contains aods_channel_name channel ≡ true
      → lookup channel st.cuo ≡ some host
      → (on_download_result lib dir disk (rlt ∷ result_texts di) mgr
          ≡ some (mgr, mgr_send (to_aodc aodc_client aods_aodc_udr (rlt ∷ result_texts di)) ∷ []))
        × (update_recv_channel_data lib
              (c_str channel ++ (le32 aods_aodc_udr ++ rlt ∷ result_texts di))
              st
            ≡ some (st, udr_report host.res_id rlt (report_of di) ∷ []))
  unfolding on_download_result report2aodc
  on_download_result-update_recv_channel_data dir channel disk rlt di mgr host st w saved fits fails
        text aods there =
      let behind = c_str di.url ++ (c_str di.save_file_name ++ c_str di.pwd) in
      let room : ltb report_cap
            (length aodc_client + 1 + aods_aodc_msg_size + length (rlt ∷ result_texts di))
          ≡ false =
        le→ltb report_cap _ (omega (arith, fits)) in
      let bad : (rlt == dr_suc) ≡ false = ground (arith, fails) in
      (
        rw (arrived_of-result_texts di w saved, bad, room) refl,
        update_recv_channel_data-udr channel behind rlt host (report_of di) st text aods there
            (record { prj = w.prj; module_name = w.module_name; ver = w.ver; hash = w.hash }),
      )
