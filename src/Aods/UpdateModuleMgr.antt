-- ===== src/Aods/UpdateModuleMgr.antt =====
-- `CUpdateModuleMgr` of the host (src/dev/aods/UpdateModuleMgr.h, UpdateModuleMgr.cpp): the updates
-- that the controller asks for, up to their downloads. `dir` is the directory of the service. What
-- would read or write past its data, or use NULL, is the result `none`.
pub mod Config
pub mod Unpack
pub mod Saved
pub mod RoundTrip
pub mod Laws
pub mod Changes
pub mod Reports
mod Examples
mod ConfigExamples
use aods.Base.{
  Bytes, Bytes-Key, List, Option, [], and_then, bytes_eq, c_str, codes, decimal, get_or,
  if◌then◌else◌, leb, length, lookup, ltb, none, not, read32, some, split_str, suc, u32, zero, ℕ,
  ℕ-Key, ◌++◌, ◌+◌, ◌-◌, ◌==◌, ◌||◌, ◌∷◌,
}
use aods.Aodc.AuthModule.{aods_aodc_msg_size}
use aods.Aodc.UpdateModule.{aodc_aods_umi, aods_aodc_umi}
use aods.Aods.AuthModule.{aodc_client, to_aodc}
use aods.Aods.DownloadThread.{DownloadItem, DownloadThread, append_task}
use aods.Util.FileControl.Paths.{create_dirs}
use aods.Util.Module.Handlers.{stop}
use aods.Util.OutMsg.{OutMsg}

abbrev pub max_path_len : ℕ
max_path_len = 256

abbrev pub report_cap : ℕ
report_cap = 1024

abbrev pub mgr_timer_id : ℕ
mgr_timer_id = 1

-- MODULE_INFO
pub record ModuleInfo : Type 0 where
  pub fv : Bytes
  pub fh : Bytes
  pub wd : Bytes
  pub cmd : Bytes

-- `m_mapPM`, by project and by module, `m_pDT` and `m_unUpdateTimes`.
pub record UpdateMgr : Type 0 where
  pub pm : List (Bytes × List (Bytes × ModuleInfo))
  pub threads : List DownloadThread
  pub update_times : ℕ

-- What a handler does besides: messages and timers, and calls of the system.
pub data MgrEvent : Type 0 where
  mgr_send : OutMsg → MgrEvent
  mgr_set_timer : ℕ → MgrEvent
  mgr_kill_timer : ℕ → MgrEvent
  make_dirs : List Bytes → MgrEvent
  write_cfg : Bytes → MgrEvent
  move_file : Bytes → Bytes → MgrEvent
  unzip_to : Bytes → MgrEvent
  run_cmd : Bytes → MgrEvent
  del_file : Bytes → MgrEvent

abbrev pub MgrResult : Type 0
MgrResult = Option (UpdateMgr × List MgrEvent)

-- `Report2Aodc`, in its buffer of 1024 bytes.
unfoldable pub report2aodc : ℕ → Bytes → Option OutMsg
report2aodc code s =
    if ltb report_cap (length aodc_client + 1 + aods_aodc_msg_size + length s)
    then none
    else some (to_aodc aodc_client code s)

-- The texts of `SendUmi`.
abbrev pub umi_texts : Bytes → Bytes → Bytes → Bytes → Bytes
umi_texts prj module_name ver hash = c_str prj ++ (c_str module_name ++ (c_str ver ++ c_str hash))

-- `SendUmi`, in its buffer of 1024 bytes.
unfoldable pub send_umi : Bytes → Bytes → Bytes → Bytes → Option OutMsg
send_umi prj module_name ver hash =
    let texts = umi_texts prj module_name ver hash in
    if ltb report_cap (length texts) then none else report2aodc aods_aodc_umi texts

-- The search of `AppendDownloadTask` from thread `n` on.
abbrev pub min_load : ℕ → Option ℕ → ℕ → List DownloadThread → Option ℕ
min_load least best n [] = best
min_load least best n (t ∷ ts) =
    if ltb t.load least then min_load t.load (some n) (n + 1) ts else min_load least best (n + 1) ts

abbrev pub append_at : ℕ → DownloadItem → List DownloadThread → List DownloadThread
append_at n item [] = []
append_at zero item (t ∷ ts) = append_task item t ∷ ts
append_at (suc n) item (t ∷ ts) = t ∷ append_at n item ts

-- `AppendDownloadTask`
unfoldable pub append_download_task :
    DownloadItem → List DownloadThread → Option (List DownloadThread)
append_download_task item threads =
    and_then (min_load 0xFFFFFF none 0 threads) λ n. some (append_at n item threads)

-- A path in a buffer of 256 bytes.
abbrev pub in_path {ℓ} : {A : Type ℓ} → Bytes → (Bytes → Option A) → Option A
in_path path k = if ltb max_path_len (length path + 1) then none else k path

-- The file of an update.
abbrev pub pub_file : Bytes → Bytes → Bytes → Bytes → ℕ → ℕ → Bytes
pub_file dir prj module_name ver times tick =
    dir
    ++ (codes "/pub/"
        ++ (prj
            ++ (codes "."
                ++ (module_name
                    ++ (codes "."
                        ++ (ver
                            ++ (codes "."
                                ++ (decimal times
                                    ++ (codes "." ++ (decimal tick ++ codes ".zip"))))))))))

-- The text at the front of what is left of an update, unless at most one byte is left.
abbrev pub next_text {ℓ} : {A : Type ℓ} → Bytes → A → (Bytes → Bytes → Option A) → Option A
next_text s stop k =
    if leb (length s) 1 then some stop else and_then (split_str s) λ (text, rest). k text rest

-- The download of an update.
abbrev pub start_update : Bytes → ℕ → DownloadItem → UpdateMgr → MgrResult
start_update dir tick item st = in_path (dir ++ codes "/pub") λ folder.
    in_path (pub_file dir item.prj item.module_name item.file_ver st.update_times tick) λ file.
      and_then (append_download_task (record item { save_file_name = file }) st.threads) λ threads.
        some (
          record st { threads = threads; update_times = u32 (st.update_times + 1) },
          make_dirs (create_dirs folder) ∷ [],
        )

-- The last byte of an update.
abbrev pub forced : Bytes → ℕ → DownloadItem → UpdateMgr → Bytes → MgrResult
forced dir tick item st [] = some (st, [])
forced dir tick item st (flag ∷ s) =
    if flag == 1 then start_update dir tick item st else some (st, [])

-- An update for a module that is known, from its version on.
abbrev pub umi_texts_of : Bytes → ℕ → Bytes → Bytes → Bytes → UpdateMgr → MgrResult
umi_texts_of dir tick prj module_name s st =
    next_text s (st, [])
      λ ver s1.
        next_text s1 (st, [])
          λ hash s2.
            next_text s2 (st, [])
              λ url s3.
                next_text s3 (st, [])
                  λ pwd s4.
                    forced dir tick
                      (record {
                        url = url;
                        pwd = pwd;
                        save_file_name = [];
                        file_ver = ver;
                        file_hash = hash;
                        prj = prj;
                        module_name = module_name;
                      })
                      st s4

abbrev pub known_module :
    Bytes → ℕ → Bytes → Bytes → Bytes → UpdateMgr → Option ModuleInfo → MgrResult
known_module dir tick prj module_name s st none = some (st, [])
known_module dir tick prj module_name s st (some mi) = umi_texts_of dir tick prj module_name s st

abbrev pub known_project :
    Bytes → ℕ → Bytes → Bytes → UpdateMgr → Option (List (Bytes × ModuleInfo)) → MgrResult
known_project dir tick prj s st none = some (st, [])
known_project dir tick prj s st (some mm) =
    next_text s (st, [])
      λ module_name rest. known_module dir tick prj module_name rest st (lookup module_name mm)

-- `OnRecvUmi`
unfoldable pub on_recv_umi : Bytes → ℕ → Bytes → UpdateMgr → MgrResult
on_recv_umi dir tick s st =
    if ltb (length s) 2 || not (get_or s (length s - 2) 0 == 0)
    then some (st, [])
    else and_then (split_str s) λ (prj, rest). known_project dir tick prj rest st (lookup prj st.pm)

abbrev pub mgr_data : Bytes → ℕ → UpdateMgr → Option (ℕ × Bytes) → MgrResult
mgr_data dir tick st none = some (st, [])
mgr_data dir tick st (some (code, s)) =
    if code == aodc_aods_umi then on_recv_umi dir tick s st else some (st, [])

-- `OnRecvChannelData`; fewer than four bytes behind the name have no code.
unfoldable pub mgr_recv_channel_data : Bytes → ℕ → Bytes → UpdateMgr → MgrResult
mgr_recv_channel_data dir tick s st = and_then (split_str s) λ (channel, rest).
    if not (bytes_eq channel aodc_client) then some (st, []) else mgr_data dir tick st (read32 rest)

-- `OnChannelFreed`
unfoldable pub mgr_channel_freed : Bytes → UpdateMgr → MgrResult
mgr_channel_freed s st = and_then (split_str s) λ (channel, rest).
    some (st, if bytes_eq channel aodc_client then mgr_kill_timer mgr_timer_id ∷ [] else [])
