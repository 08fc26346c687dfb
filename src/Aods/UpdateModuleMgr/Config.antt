-- ===== src/Aods/UpdateModuleMgr/Config.antt =====
-- `StartUmiSyn`, `SaveCfg` and what calls them in src/dev/aods/UpdateModuleMgr.cpp: the modules of
-- the host in data/aodsumi.db. `file` is that file, `none` where it cannot be opened, `behind` is
-- what the memory behind its copy holds, since no terminator is appended, and `opens` is whether
-- the file can be opened to write.
use aods.Base.{
  Bool, Bytes, Bytes-Key, List, Option, [], and_then, codes, if◌then◌else◌, insert, lookup, none,
  some, split_str, ℕ-Key, ◌++◌, ◌∷◌,
}
use aods.Aods.UpdateModuleMgr.{
  MgrEvent, MgrResult, ModuleInfo, UpdateMgr, mgr_send, mgr_set_timer, mgr_timer_id, send_umi,
  write_cfg,
}
use aods.Util.CommuModule.Create.{string_item, text_of}
use aods.Util.Json.{JsonLib}
use aods.Util.OutMsg.{OutMsg}

-- `m_mapPM[prj]`, which is empty where there is no entry.
abbrev pub modules_of : Option (List (Bytes × ModuleInfo)) → List (Bytes × ModuleInfo)
modules_of none = []
modules_of (some mm) = mm

-- `m_mapPM[prj][module_name] = mi`
abbrev pub put_module :
    Bytes
    → Bytes
    → ModuleInfo
    → List (Bytes × List (Bytes × ModuleInfo))
    → List (Bytes × List (Bytes × ModuleInfo))
put_module prj module_name mi pm =
    insert prj (insert module_name mi (modules_of (lookup prj pm))) pm

abbrev pub mgr_msgs : List OutMsg → List MgrEvent
mgr_msgs [] = []
mgr_msgs (msg ∷ msgs) = mgr_send msg ∷ mgr_msgs msgs

module _ {J : Type 0} (lib : JsonLib J) where
  abbrev pub text_item : J → Bytes → Bytes
  text_item j key = text_of (string_item lib j key)

  abbrev pub module_info : J → ModuleInfo
  module_info j = record {
    fv = text_item j (codes "Version");
    fh = text_item j (codes "Hash");
    wd = text_item j (codes "WorkDir");
    cmd = text_item j (codes "Command");
  }

  -- The inner loop of `StartUmiSyn`: the map, and the messages to the controller.
  abbrev pub syn_modules :
      Bytes
      → List J
      → List (Bytes × List (Bytes × ModuleInfo))
      → Option (List (Bytes × List (Bytes × ModuleInfo)) × List OutMsg)
  syn_modules prj [] pm = some (pm, [])
  syn_modules prj (j ∷ js) pm =
      let mi = module_info j in
      and_then (send_umi prj (lib.name j) mi.fv mi.fh) λ msg.
        and_then (syn_modules prj js (put_module prj (lib.name j) mi pm))
          λ (pm', msgs). some (pm', msg ∷ msgs)

  -- The outer loop.
  abbrev pub syn_projects :
      List J
      → List (Bytes × List (Bytes × ModuleInfo))
      → Option (List (Bytes × List (Bytes × ModuleInfo)) × List OutMsg)
  syn_projects [] pm = some (pm, [])
  syn_projects (j ∷ js) pm =
      and_then (syn_modules (lib.name j) (lib.children j) pm)
        λ (pm', msgs). and_then (syn_projects js pm') λ (pm'', msgs'). some (pm'', msgs ++ msgs')

  abbrev pub syn_json : UpdateMgr → Option J → MgrResult
  syn_json st none = some (st, [])
  syn_json st (some j) =
      and_then (syn_projects (lib.children j) [])
        λ (pm, msgs). some (record st { pm = pm }, mgr_msgs msgs)

  -- `StartUmiSyn`; the text ends at the first terminator, in the copy of the file or behind it.
  unfoldable pub start_umi_syn : Option Bytes → Bytes → UpdateMgr → MgrResult
  start_umi_syn none behind st = some (st, [])
  start_umi_syn (some s) behind st =
      and_then (split_str (s ++ behind)) λ (text, rest). syn_json st (lib.parse text)

  -- `OnAuthSuc`
  unfoldable pub mgr_auth_suc : Option Bytes → Bytes → UpdateMgr → MgrResult
  mgr_auth_suc file behind st =
      and_then (start_umi_syn file behind st)
        λ (st', out). some (st', out ++ mgr_set_timer mgr_timer_id ∷ [])

  -- `OnTimer`
  unfoldable pub mgr_on_timer : Option Bytes → Bytes → UpdateMgr → MgrResult
  mgr_on_timer file behind st = start_umi_syn file behind st

  abbrev pub add_text : Bytes → Bytes → J → J
  add_text key text obj = lib.add_item_to_object key (lib.create_string text) obj

  abbrev pub json_module : ModuleInfo → J
  json_module mi = add_text (codes "Command") mi.cmd (
      add_text (codes "WorkDir") mi.wd
        (add_text (codes "Version") mi.fv (add_text (codes "Hash") mi.fh lib.create_object)))

  abbrev pub json_modules : List (Bytes × ModuleInfo) → J → J
  json_modules [] obj = obj
  json_modules ((name, mi) ∷ mm) obj =
      json_modules mm (lib.add_item_to_object name (json_module mi) obj)

  abbrev pub json_projects : List (Bytes × List (Bytes × ModuleInfo)) → J → J
  json_projects [] obj = obj
  json_projects ((name, mm) ∷ pm) obj =
      json_projects pm (lib.add_item_to_object name (json_modules mm lib.create_object) obj)

  -- `SaveCfg`
  unfoldable pub save_cfg : Bool → UpdateMgr → List MgrEvent
  save_cfg opens st =
      if opens
      then write_cfg (lib.print_unformatted (json_projects st.pm lib.create_object)) ∷ []
      else []
