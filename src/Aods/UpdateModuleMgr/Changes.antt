-- ===== src/Aods/UpdateModuleMgr/Changes.antt =====
-- What a download may change in the modules of src/dev/aods/UpdateModuleMgr.cpp.
use aods.Base.{
  Bytes, Bytes-Key, List, Option, [], codes, false, lookup, none, some, true, ℕ, ℕ-Key, ◌++◌, ◌∷◌,
  ◌≡◌, ◌≢◌,
}
use aods.Aods.UpdateModuleMgr.{MgrEvent, MgrResult, ModuleInfo, UpdateMgr}
use aods.Aods.UpdateModuleMgr.Config.{put_module}
use aods.Aods.UpdateModuleMgr.Unpack.{Arrived, Disk, Entry, arrived_of, dr_ufa, unpack, work_dir}

-- The directory for what a download replaces.
abbrev pub bak_dir : Bytes → Arrived → Bytes
bak_dir to a = to ++ (codes "/bak/" ++ (a.prj ++ (codes "/" ++ (a.module_name ++ codes "/"))))

-- The loop over the files of an archive has come to its end, or to a name that cannot be read, and
-- each file before that is a directory or has been opened and unpacked.
pub data AllUnpacked : List Entry → Type 0 where
  no_more : AllUnpacked []
  unreadable : (e : Entry) (es : List Entry) → e.readable ≡ false → AllUnpacked (e ∷ es)
  directory :
      (e : Entry) (es : List Entry) → e.is_dir ≡ true → AllUnpacked es → AllUnpacked (e ∷ es)
  written :
      (e : Entry) (es : List Entry)
      → e.opens ≡ true
      → e.unzips ≡ true
      → AllUnpacked es
      → AllUnpacked (e ∷ es)

-- A result that is no failure to unpack comes with `P`.
abbrev Unless : Type 0 → Option (ℕ × List MgrEvent) → Type 0
Unless P none = Unit
Unless P (some (rlt, out)) = rlt ≢ dr_ufa → P

-- The modules are as they were, or the version and the hash of one module that is known have
-- become those of a download whose archive has been unpacked.
pub data ModuleChange (dir : Bytes) (disk : Disk) (texts : Bytes) (st st' : UpdateMgr)
    : Type 0 where
  modules_kept : st'.pm ≡ st.pm → ModuleChange dir disk texts st st'
  module_replaced :
      (a : Arrived) (mm : List (Bytes × ModuleInfo)) (mi : ModuleInfo) (es : List Entry) (rlt : ℕ)
      (out : List MgrEvent)
      → arrived_of texts ≡ some a
      → lookup a.prj st.pm ≡ some mm
      → lookup a.module_name mm ≡ some mi
      → disk.archive ≡ some es
      → unpack (work_dir dir mi.wd) (bak_dir (work_dir dir mi.wd) a) es ≡ some (rlt, out)
      → AllUnpacked es
      → st'.pm ≡ put_module a.prj a.module_name (record mi { fv = a.ver; fh = a.hash }) st.pm
      → ModuleChange dir disk texts st st'

-- What holds of a result of the handler.
abbrev pub Changes : Bytes → Disk → Bytes → UpdateMgr → MgrResult → Type 0
Changes dir disk texts st none = Unit
Changes dir disk texts st (some (st', out)) =
    ModuleChange dir disk texts st st'
    × (st'.threads ≡ st.threads)
    × (st'.update_times ≡ st.update_times)
