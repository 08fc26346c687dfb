-- ===== src/Aods/UpdateModuleMgr/RoundTrip.antt =====
-- What `SaveCfg` of src/dev/aods/UpdateModuleMgr.cpp writes, read by `StartUmiSyn`.
use aods.Base.Ascending.{
  AllBefore, AllBefore-append, IsAscending, insert-at_last, insert-last, lookup-absent, lookup-last,
}
use aods.Base.{
  All, Bytes, IsText, List, Option, [], and_then, ap, append-nil, append_assoc, ap₂, arith,
  bytes_lt, length, le→ltb, map, refl, some, split_str-c_str, sym, true, ◌++◌, ◌+◌, ◌<◌, ◌∙◌, ◌∷◌,
  ◌≡◌, ◌≤◌,
}
use aods.Aodc.AuthModule.{aods_aodc_msg_size}
use aods.Aodc.UpdateModule.{aods_aodc_umi}
use aods.Aods.AuthModule.{aodc_client, to_aodc}
use aods.Aods.UpdateModuleMgr.{
  ModuleInfo, UpdateMgr, report2aodc, report_cap, send_umi, umi_texts, write_cfg,
}
use aods.Aods.UpdateModuleMgr.Config.{
  json_module, json_modules, json_projects, mgr_msgs, put_module, save_cfg, start_umi_syn,
  syn_modules, syn_projects,
}
use aods.Aods.UpdateModuleMgr.Saved.{
  children-json_projects, children-project_item, module_info-json_module, module_item, project_item,
}
use aods.Util.Json.{JsonLib}
use aods.Util.Json.Objects.{JsonObjects}
use aods.Util.OutMsg.{OutMsg}

-- What is told of a module fits into 1024 bytes.
abbrev pub FitsUmi : Bytes → Bytes × ModuleInfo → Type 0
FitsUmi prj e = 15 + length (umi_texts prj e.0 e.1.fv e.1.fh) ≤ report_cap

-- A project with modules in ascending order.
abbrev pub IsProject : Bytes × List (Bytes × ModuleInfo) → Type 0
IsProject e = (0 < length e.1) × IsAscending e.1 × All (FitsUmi e.0) e.1

-- What is told to the controller.
abbrev pub umi_msg : Bytes → Bytes × ModuleInfo → OutMsg
umi_msg prj e = to_aodc aodc_client aods_aodc_umi (umi_texts prj e.0 e.1.fv e.1.fh)

abbrev pub umi_msgs : List (Bytes × List (Bytes × ModuleInfo)) → List OutMsg
umi_msgs [] = []
umi_msgs ((prj, mm) ∷ pm) = map (umi_msg prj) mm ++ umi_msgs pm

send_umi-FitsUmi :
    (prj : Bytes) (e : Bytes × ModuleInfo)
    → FitsUmi prj e
    → send_umi prj e.0 e.1.fv e.1.fh ≡ some (umi_msg prj e)
unfolding send_umi report2aodc
send_umi-FitsUmi prj e fits =
    let texts = umi_texts prj e.0 e.1.fv e.1.fh in
    rw
      (
        le→ltb report_cap (length texts) (omega arith),
        le→ltb report_cap (length aodc_client + 1 + aods_aodc_msg_size + length texts)
            (omega arith),
      )
      refl

-- A module that is put behind the modules of the last project.
put_module-last :
    (prj name : Bytes) (mi : ModuleInfo) (pm : List (Bytes × List (Bytes × ModuleInfo)))
    (front : List (Bytes × ModuleInfo))
    → AllBefore prj pm
    → AllBefore name front
    → put_module prj name mi (pm ++ (prj, front) ∷ []) ≡ pm ++ (prj, front ++ (name, mi) ∷ []) ∷ []
put_module-last prj name mi pm front before low =
    rw (lookup-last prj front pm before, insert-last name mi front low)
      (insert-at_last prj (front ++ (name, mi) ∷ []) front pm before)

put_module-first :
    (prj name : Bytes) (mi : ModuleInfo) (pm : List (Bytes × List (Bytes × ModuleInfo)))
    → AllBefore prj pm
    → put_module prj name mi pm ≡ pm ++ (prj, (name, mi) ∷ []) ∷ []
put_module-first prj name mi pm before =
    rw (lookup-absent prj pm before, insert-last name mi [] tt)
      (insert-last prj ((name, mi) ∷ []) pm before)

-- All keys come before all that follow.
abbrev AllBetween : List (Bytes × ModuleInfo) → List (Bytes × ModuleInfo) → Type 0
AllBetween front mm = All (λ e. AllBefore e.0 front) mm

AllBetween-append :
    (front mm : List (Bytes × ModuleInfo)) (e : Bytes × ModuleInfo)
    → AllBetween front mm
    → All (λ e'. bytes_lt e.0 e'.0 ≡ true) mm
    → AllBetween (front ++ e ∷ []) mm
AllBetween-append front [] e h low = tt
AllBetween-append front (e' ∷ mm) e h low =
    (AllBefore-append e.0 e'.0 e.1 front h.0 low.0, AllBetween-append front mm e h.1 low.1)

module _ {J : Type 0} (lib : JsonLib J) (laws : JsonObjects lib) where
  -- The round of the inner loop for a module, with its name and its items.
  abbrev syn_round :
      Bytes
      → List J
      → List (Bytes × List (Bytes × ModuleInfo))
      → Bytes
      → ModuleInfo
      → Option (List (Bytes × List (Bytes × ModuleInfo)) × List OutMsg)
  syn_round prj js pm name mi = and_then (send_umi prj name mi.fv mi.fh) λ msg.
      and_then (syn_modules lib prj js (put_module prj name mi pm))
        λ (pm', msgs). some (pm', msg ∷ msgs)

  syn_modules-round :
      (prj name : Bytes) (mi : ModuleInfo) (js : List J)
      (pm : List (Bytes × List (Bytes × ModuleInfo)))
      → syn_modules lib prj (module_item lib laws (name, mi) ∷ js) pm ≡ syn_round prj js pm name mi
  syn_modules-round prj name mi js pm =
      ap₂ (syn_round prj js pm) (laws.name_named name (json_module lib mi))
        (module_info-json_module lib laws name mi)

  -- The other modules of a project.
  syn_modules-rest :
      (prj : Bytes) (mm front : List (Bytes × ModuleInfo))
      (pm : List (Bytes × List (Bytes × ModuleInfo)))
      → AllBefore prj pm
      → AllBetween front mm
      → IsAscending mm
      → All (FitsUmi prj) mm
      → syn_modules lib prj (map (module_item lib laws) mm) (pm ++ (prj, front) ∷ [])
        ≡ some (pm ++ (prj, front ++ mm) ∷ [], map (umi_msg prj) mm)
  syn_modules-rest prj [] front pm before low up fits = rw append-nil refl
  syn_modules-rest prj ((name, mi) ∷ mm) front pm before low up fits =
      syn_modules-round prj name mi (map (module_item lib laws) mm) (pm ++ (prj, front) ∷ [])
      ∙ rw
          (
            send_umi-FitsUmi prj (name, mi) fits.0,
            put_module-last prj name mi pm front before low.0,
            syn_modules-rest prj mm (front ++ (name, mi) ∷ []) pm before
                (AllBetween-append front mm (name, mi) low.1 up.0) up.1 fits.1,
            append_assoc front ((name, mi) ∷ []) mm,
          )
          refl

  -- All modules of a project, behind the projects before it.
  syn_modules-project :
      (prj : Bytes) (mm : List (Bytes × ModuleInfo)) (pm : List (Bytes × List (Bytes × ModuleInfo)))
      → AllBefore prj pm
      → IsProject (prj, mm)
      → syn_modules lib prj (map (module_item lib laws) mm) pm
        ≡ some (pm ++ (prj, mm) ∷ [], map (umi_msg prj) mm)
  syn_modules-project prj [] pm before w = absurd (omega (arith, w.0))
  syn_modules-project prj ((name, mi) ∷ mm) pm before w =
      syn_modules-round prj name mi (map (module_item lib laws) mm) pm
      ∙ rw
          (
            send_umi-FitsUmi prj (name, mi) w.2.0,
            put_module-first prj name mi pm before,
            syn_modules-rest prj mm ((name, mi) ∷ []) pm before (behind_first mm w.1.0) w.1.1 w.2.1,
          )
          refl
    where
      behind_first :
          (ms : List (Bytes × ModuleInfo))
          → All (λ e'. bytes_lt name e'.0 ≡ true) ms
          → AllBetween ((name, mi) ∷ []) ms
      behind_first [] h = tt
      behind_first (e ∷ ms) h = ((h.0, tt), behind_first ms h.1)

  -- All projects, behind those before them.
  syn_projects_lem :
      (pm front : List (Bytes × List (Bytes × ModuleInfo)))
      → All (λ e. AllBefore e.0 front) pm
      → IsAscending pm
      → All IsProject pm
      → syn_projects lib (map (project_item lib laws) pm) front ≡ some (front ++ pm, umi_msgs pm)
  syn_projects_lem [] front low up w = rw append-nil refl
  syn_projects_lem ((prj, mm) ∷ pm) front low up w =
      rw
        (
          laws.name_named prj (json_modules lib mm lib.create_object),
          children-project_item lib laws (prj, mm),
          syn_modules-project prj mm front low.0 w.0,
          syn_projects_lem pm (front ++ (prj, mm) ∷ []) (raise pm low.1 up.0) up.1 w.1,
          append_assoc front ((prj, mm) ∷ []) pm,
        )
        refl
    where
      raise :
          (ps : List (Bytes × List (Bytes × ModuleInfo)))
          → All (λ e. AllBefore e.0 front) ps
          → All (λ e'. bytes_lt prj e'.0 ≡ true) ps
          → All (λ e. AllBefore e.0 (front ++ (prj, mm) ∷ [])) ps
      raise [] h k = tt
      raise (e ∷ ps) h k = (AllBefore-append prj e.0 mm front h.0 k.0, raise ps h.1 k.1)

  -- With a JSON library whose objects are as documented and that reads back the text of the
  -- configuration, in which no terminator stands: what a host has saved, with projects and modules
  -- in ascending order, no project empty and what is told of each module within 1024 bytes, is
  -- what the host has once it has read the file, with a terminator behind its copy; and each
  -- module is told to the controller, in this order, with its version and its hash.
  pub save_cfg-start_umi_syn :
      (st st' : UpdateMgr) (text behind : Bytes)
      → text ≡ lib.print_unformatted (json_projects lib st.pm lib.create_object)
      → IsText text
      → lib.parse text ≡ some (json_projects lib st.pm lib.create_object)
      → IsAscending st.pm
      → All IsProject st.pm
      → (save_cfg lib true st ≡ write_cfg text ∷ [])
        × (start_umi_syn lib (some text) (0 ∷ behind) st'
            ≡ some (record st' { pm = st.pm }, mgr_msgs (umi_msgs st.pm)))
  unfolding save_cfg start_umi_syn
  save_cfg-start_umi_syn st st' text behind printed plain read up w =
      let children : lib.children (json_projects lib st.pm lib.create_object)
          ≡ map (project_item lib laws) st.pm =
        children-json_projects lib laws st.pm lib.create_object
        ∙ ap (λ z. z ++ map (project_item lib laws) st.pm) laws.children_new in
      (
        ap (λ z. write_cfg z ∷ []) (sym printed),
        rw
            (
              split_str-c_str text behind plain,
              read,
              children,
              syn_projects_lem st.pm [] (none_before st.pm) up w,
            )
            refl,
      )
    where
      none_before :
          (ps : List (Bytes × List (Bytes × ModuleInfo)))
          → All (λ e. AllBefore {V = List (Bytes × ModuleInfo)} e.0 []) ps
      none_before [] = tt
      none_before (e ∷ ps) = (tt, none_before ps)
