-- ===== src/Aods/UpdateModuleMgr/Unpack.antt =====
-- `OnDownloadResult` of src/dev/aods/UpdateModuleMgr.cpp: the unpacking of what has been downloaded,
-- and the report to the controller. The archive is the list of its files, `none` where it cannot be
-- opened; `runs` is what comes of a command. The code for Linux is modelled.
use aods.Base.{
  Bool, Bytes, Bytes-Key, List, Option, [], and_then, bytes_eq, codes, contains, false,
  if◌then◌else◌, length, lookup, ltb, none, not, some, split_str, true, ℕ, ℕ-Key, ◌&&◌, ◌++◌, ◌==◌,
  ◌||◌, ◌∷◌,
}
use aods.Aodc.UpdateModule.{aods_aodc_udr}
use aods.Aods.DownloadThread.{dr_suc}
use aods.Aods.UpdateModuleMgr.{
  MgrEvent, MgrResult, ModuleInfo, UpdateMgr, del_file, in_path, make_dirs, mgr_send, move_file,
  report2aodc, run_cmd, unzip_to,
}
use aods.Aods.UpdateModuleMgr.Config.{put_module, save_cfg}
use aods.Util.FileControl.Paths.{create_dirs, split_file, to_standard_path}
use aods.Util.Json.{JsonLib}

abbrev pub dr_ufa : ℕ
dr_ufa = 4

abbrev pub dr_rfa : ℕ
dr_rfa = 5

-- A file of an archive: whether its name can be read, whether it is a directory, whether the file
-- that it replaces is there, and whether the new one can be opened and unpacked.
pub record Entry : Type 0 where
  pub readable : Bool
  pub is_dir : Bool
  pub name : Bytes
  pub is_there : Bool
  pub opens : Bool
  pub unzips : Bool

-- The directory that a module is unpacked to.
abbrev pub work_dir : Bytes → Bytes → Bytes
work_dir dir [] = dir ++ codes "/"
work_dir dir (b ∷ wd) = if b == 47 then b ∷ wd else dir ++ (codes "/" ++ b ∷ wd)

-- `CreateFileDir`
abbrev pub create_file_dir : Bytes → MgrEvent
create_file_dir path = make_dirs (create_dirs (split_file path).0)

-- The extension: from the last dot on that no separator follows, where it is not the first
-- character.
abbrev pub ext_of : Bytes → Option Bytes
ext_of [] = none
ext_of (b ∷ s) = elim (ext_of s) [
  | none ↦ if b == 46 then (if contains (codes "/") s then none else some (b ∷ s)) else none
  | some ext ↦ some ext
]

abbrev pub file_ext : Bytes → Option Bytes
file_ext [] = none
file_ext (b ∷ s) = ext_of s

abbrev pub is_program : Option Bytes → Bool
is_program none = true
is_program (some ext) =
    bytes_eq ext (codes ".so")
    || (bytes_eq ext (codes ".lib") || (bytes_eq ext (codes ".exe") || bytes_eq ext (codes ".sh")))

-- What becomes of one file: the result so far, whether the loop goes on, and the calls.
abbrev pub unpack_file : Bytes → Bytes → Entry → ℕ × Bool × List MgrEvent
unpack_file file bak e =
    let moved = if e.is_there then move_file file bak ∷ [] else [] in
    let before = create_file_dir bak ∷ moved ++ create_file_dir file ∷ [] in
    if not e.opens
    then (dr_ufa, false, before)
    else if not e.unzips
    then (dr_ufa, false, before ++ unzip_to file ∷ [])
    else (
      dr_suc,
      true,
      before
          ++ (unzip_to file
              ∷ (if is_program (file_ext file)
                  then run_cmd (codes "chmod +x " ++ file) ∷ []
                  else [])),
    )

-- The longest text in the buffer of the path of a file.
abbrev pub path_text : Bytes → Entry → Bytes
path_text file e =
    if e.opens && (e.unzips && is_program (file_ext file)) then codes "chmod +x " ++ file else file

-- A file, and what the rest of the archive comes to.
abbrev pub unpack_entry :
    Bytes → Bytes → Entry → Option (ℕ × List MgrEvent) → Option (ℕ × List MgrEvent)
unpack_entry file bak e rest =
    let (rlt, on, done) = unpack_file file bak e in
    if on then (and_then rest λ (rlt', out). some (rlt', done ++ out)) else some (rlt, done)

-- The loop over the files of the archive; `to` is the directory, `bak` the one for what is replaced.
-- Each path stands in a buffer of 256 bytes.
unfoldable pub unpack : Bytes → Bytes → List Entry → Option (ℕ × List MgrEvent)
unpack to bak [] = some (dr_suc, [])
unpack to bak (e ∷ es) =
    let rest = unpack to bak es in
    if not e.readable
    then some (dr_suc, [])
    else in_path (to ++ (codes "/" ++ e.name)) λ path.
      let file = to_standard_path 47 path in
      if e.is_dir
      then (and_then rest λ (rlt, out). some (rlt, make_dirs (create_dirs file) ∷ out))
      else in_path (bak ++ e.name)
          λ bak_file. in_path (path_text file e) λ text. unpack_entry file bak_file e rest

-- A download: the texts of DOWNLOAD_RESULT that are looked at.
pub record Arrived : Type 0 where
  pub prj : Bytes
  pub module_name : Bytes
  pub ver : Bytes
  pub hash : Bytes
  pub save_file_name : Bytes

-- What the file system does for a download.
pub record Disk : Type 0 where
  pub archive : Option (List Entry)
  pub runs : Bytes → Bool
  pub cfg_opens : Bool

-- The first six texts.
abbrev pub arrived_of : Bytes → Option Arrived
arrived_of s = and_then (split_str s) λ (prj, s1). and_then (split_str s1) λ (module_name, s2).
    and_then (split_str s2) λ (ver, s3). and_then (split_str s3) λ (hash, s4).
      and_then (split_str s4) λ (url, s5). and_then (split_str s5) λ (save_file_name, s6).
        some (record {
          prj = prj;
          module_name = module_name;
          ver = ver;
          hash = hash;
          save_file_name = save_file_name;
        })

-- The version and the hash of a module that has been replaced.
abbrev pub replaced : Arrived → ModuleInfo → UpdateMgr → UpdateMgr
replaced a mi st = record st {
  pm = put_module a.prj a.module_name (record mi { fv = a.ver; fh = a.hash }) st.pm;
}

abbrev pub restart_result : Disk → ModuleInfo → ℕ
restart_result disk mi = if disk.runs mi.cmd then dr_suc else dr_rfa

module _ {J : Type 0} (lib : JsonLib J) (dir : Bytes) (disk : Disk) where
  -- The report and what stands before it.
  abbrev pub reported : ℕ → Bytes → UpdateMgr → List MgrEvent → List MgrEvent → MgrResult
  reported rlt texts st before behind =
      and_then (report2aodc aods_aodc_udr (rlt ∷ texts))
        λ msg. some (st, before ++ mgr_send msg ∷ behind)

  -- The end of `OnDownloadResult`, once a restart has come to `rlt`.
  abbrev pub finish : Arrived → ModuleInfo → ℕ → Bytes → UpdateMgr → List MgrEvent → MgrResult
  finish a mi rlt texts st before =
      if (rlt == dr_suc) || (rlt == dr_rfa)
      then reported rlt texts (replaced a mi st)
          (before ++ save_cfg lib disk.cfg_opens (replaced a mi st)) []
      else reported rlt texts st before []

  -- What follows the unpacking.
  abbrev pub unpacked : Arrived → ModuleInfo → Bytes → UpdateMgr → ℕ × List MgrEvent → MgrResult
  unpacked a mi texts st (rlt, out) =
      let before = out ++ del_file a.save_file_name ∷ [] in
      if not ((ltb 0 (length mi.cmd)) && (rlt == dr_suc))
      then finish a mi rlt texts st before
      else if bytes_eq a.prj (codes "aods") && contains (codes "aods-") a.module_name
      then reported dr_suc texts (replaced a mi st)
          (before ++ save_cfg lib disk.cfg_opens (replaced a mi st)) (run_cmd mi.cmd ∷ [])
      else finish a mi (restart_result disk mi) texts st (before ++ run_cmd mi.cmd ∷ [])

  abbrev pub unpack_archive :
      Arrived → ModuleInfo → Bytes → UpdateMgr → Option (List Entry) → MgrResult
  unpack_archive a mi texts st none = some (st, [])
  unpack_archive a mi texts st (some es) = in_path (work_dir dir mi.wd) λ to.
      and_then
        (unpack to (to ++ (codes "/bak/" ++ (a.prj ++ (codes "/" ++ (a.module_name ++ codes "/")))))
          es)
        (unpacked a mi texts st)

  abbrev pub arrived_module : Arrived → Bytes → UpdateMgr → Option ModuleInfo → MgrResult
  arrived_module a texts st none = some (st, [])
  arrived_module a texts st (some mi) = unpack_archive a mi texts st disk.archive

  abbrev pub arrived_project :
      Arrived → Bytes → UpdateMgr → Option (List (Bytes × ModuleInfo)) → MgrResult
  arrived_project a texts st none = some (st, [])
  arrived_project a texts st (some mm) = arrived_module a texts st (lookup a.module_name mm)

  -- `OnDownloadResult`
  unfoldable pub on_download_result : Bytes → UpdateMgr → MgrResult
  on_download_result [] st = none
  on_download_result (rlt ∷ texts) st = and_then (arrived_of texts) λ a.
      if not (rlt == dr_suc)
      then reported rlt texts st [] []
      else arrived_project a texts st (lookup a.prj st.pm)
