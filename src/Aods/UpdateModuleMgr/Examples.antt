-- ===== src/Aods/UpdateModuleMgr/Examples.antt =====
-- A host with one module, an update for it, and its reports.
use aods.Base.{
  Bytes, Bytes-Key, List, [], arith, bytes_eq, c_str, codes, contains, false, le32, lookup, none,
  refl, replicate, some, starts_with, true, u32, ℕ-Key, ◌%◌, ◌++◌, ◌∷◌, ◌≡◌,
}
use aods.Aodc.AuthModule.{aods_channel_name}
use aods.Aodc.UpdateModule.{
  UpdateModule, UpdateObj, aodc_aods_umi, aods_aodc_udr, aods_aodc_umi, update_recv_channel_data,
}
use aods.Aods.AuthModule.{aodc_client, to_aodc}
use aods.Aods.DownloadThread.{DownloadItem, DownloadThread, result_texts}
use aods.Aods.UpdateModuleMgr.{
  MgrEvent, MgrResult, ModuleInfo, UpdateMgr, make_dirs, mgr_recv_channel_data, mgr_send, send_umi,
}
use aods.Aods.UpdateModuleMgr.Laws.{
  AreTexts, filed, mgr_recv_channel_data-task, update_texts, with_last,
}
use aods.Aods.UpdateModuleMgr.Reports.{
  IsReport, Report, on_download_result-update_recv_channel_data, report_bytes, report_of,
  send_umi-update_recv_channel_data, udr_report, umi_report,
}
use aods.Aods.UpdateModuleMgr.Unpack.{Disk, on_download_result}
use aods.Util.FileControl.Paths.{create_dirs}
use aods.Util.Json.{JsonLib, json_string}

abbrev info : ModuleInfo
info = record { fv = codes "1"; fh = codes "00"; wd = codes "/srv"; cmd = codes "restart" }

abbrev modules : List (Bytes × ModuleInfo)
modules = (codes "m", info) ∷ []

abbrev idle : DownloadThread
idle = record { items = []; load = 0 }

abbrev mgr : UpdateMgr
mgr = record { pm = (codes "p", modules) ∷ []; threads = idle ∷ []; update_times = 7 }

abbrev update_item : DownloadItem
update_item = record {
  url = codes "http://a/b";
  pwd = codes "0123456789abcdef";
  save_file_name = [];
  file_ver = codes "2";
  file_hash = codes "01";
  prj = codes "p";
  module_name = codes "m";
}

abbrev dir : Bytes
dir = codes "/opt"

update_item-AreTexts : AreTexts update_item
update_item-AreTexts = record {
  prj = ground arith;
  module_name = ground arith;
  ver = ground arith;
  hash = ground arith;
  url = ground arith;
  pwd = ground arith;
}

has_project : lookup (codes "p") mgr.pm ≡ some modules
unfolding Bytes-Key bytes_eq
has_project = refl

has_module : lookup (codes "m") modules ≡ some info
unfolding Bytes-Key bytes_eq
has_module = refl

mgr_recv_channel_data-task_example :
    mgr_recv_channel_data dir 5
      (c_str aodc_client ++ (le32 aodc_aods_umi ++ (update_texts update_item ++ 1 % 256 ∷ [])))
      mgr
    ≡ some (
      record mgr {
        threads = with_last (filed dir 5 update_item mgr) idle ∷ [];
        update_times = u32 8;
      },
      make_dirs (create_dirs (dir ++ codes "/pub")) ∷ [],
    )
mgr_recv_channel_data-task_example =
    mgr_recv_channel_data-task dir 5 update_item modules info idle mgr update_item-AreTexts
      has_project has_module refl (omega arith) (omega arith)

-- A library that prints nothing.
abbrev lib : JsonLib Bytes
lib = record {
  parse = λ s. some s;
  get_object_item = λ j key. none;
  children = λ j. [];
  kind = λ j. json_string;
  name = λ j. [];
  value_string = λ j. some j;
  value_int = λ j. 0;
  create_object = [];
  create_string = λ s. s;
  create_number = λ n. [];
  create_array = [];
  add_item_to_array = λ item j. j;
  add_item_to_object = λ key item j. j;
  print_unformatted = λ j. j;
}

abbrev channel : Bytes
channel = codes "AodsServer:3"

abbrev host : UpdateObj
host = record { channel_name = channel; res_id = codes "0102030405ab" }

abbrev controller : UpdateModule
controller = record {
  cuo = (channel, host) ∷ [];
  ruo = [];
  amc = record {
    append_step_size = 8;
    cache_size = 4;
    cache_off = 0;
    cache = some (replicate 4 0);
  };
}

channel_is_aods : contains aods_channel_name channel ≡ true
unfolding contains starts_with
channel_is_aods = refl

has_host : lookup channel controller.cuo ≡ some host
unfolding Bytes-Key bytes_eq
has_host = refl

abbrev umi : Report
umi = record { prj = codes "p"; module_name = codes "m"; ver = codes "1"; hash = codes "00" }

umi-IsReport : IsReport umi
umi-IsReport = record {
  prj = ground arith;
  module_name = ground arith;
  ver = ground arith;
  hash = ground arith;
}

send_umi-update_recv_channel_data_example :
    (send_umi umi.prj umi.module_name umi.ver umi.hash
      ≡ some (to_aodc aodc_client aods_aodc_umi (report_bytes umi [])))
    × (update_recv_channel_data lib
          (c_str channel ++ (le32 aods_aodc_umi ++ report_bytes umi []))
          controller
        ≡ some (controller, umi_report lib host.res_id umi ∷ []))
send_umi-update_recv_channel_data_example =
    send_umi-update_recv_channel_data lib channel host umi controller (ground arith) channel_is_aods
      has_host umi-IsReport (omega arith)

abbrev disk : Disk
disk = record {
  archive = some (
      record {
        readable = true;
        is_dir = false;
        name = codes "a.sh";
        is_there = true;
        opens = true;
        unzips = true;
      }
      ∷ []);
  runs = λ cmd. true;
  cfg_opens = true;
}

on_download_result-update_recv_channel_data_example :
    (on_download_result lib dir disk (3 ∷ result_texts update_item) mgr
      ≡ some
          (mgr, mgr_send (to_aodc aodc_client aods_aodc_udr (3 ∷ result_texts update_item)) ∷ []))
    × (update_recv_channel_data lib
          (c_str channel ++ (le32 aods_aodc_udr ++ 3 ∷ result_texts update_item))
          controller
        ≡ some (controller, udr_report lib host.res_id 3 (report_of lib update_item) ∷ []))
on_download_result-update_recv_channel_data_example =
    on_download_result-update_recv_channel_data lib dir channel disk 3 update_item mgr host
      controller update_item-AreTexts tt (omega arith) (omega arith) (ground arith) channel_is_aods
      has_host

-- The update, unpacked.
abbrev after_of : MgrResult → UpdateMgr
after_of none = mgr
after_of (some (st, out)) = st

abbrev events_of : MgrResult → List MgrEvent
events_of none = []
events_of (some (st, out)) = out

abbrev result : MgrResult
result = on_download_result lib dir disk (0 ∷ result_texts update_item) mgr
