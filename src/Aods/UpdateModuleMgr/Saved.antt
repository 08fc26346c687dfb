-- ===== src/Aods/UpdateModuleMgr/Saved.antt =====
-- The objects of `SaveCfg` of src/dev/aods/UpdateModuleMgr.cpp, as `StartUmiSyn` reads them.
use aods.Base.{
  Bytes, List, [], ap, append-nil, append_assoc, codes, map, none, refl, some, sym, true, ◌++◌, ◌∙◌,
  ◌∷◌, ◌≡◌,
}
use aods.Aods.UpdateModuleMgr.{ModuleInfo}
use aods.Aods.UpdateModuleMgr.Config.{
  add_text, json_module, json_modules, json_projects, module_info, text_item,
}
use aods.Util.Json.{JsonLib}
use aods.Util.Json.Objects.{JsonObjects, same_name}

module _ {J : Type 0} (lib : JsonLib J) (laws : JsonObjects lib) where
  -- An item that is a text.
  text_item-named :
      (name key k t : Bytes) (obj : J)
      → lib.get_object_item obj key ≡ some (laws.named k (lib.create_string t))
      → text_item lib (laws.named name obj) key ≡ t
  text_item-named name key k t obj there =
      rw (laws.item_named name key obj, there, laws.kind_named k t, laws.text_named k t) refl

  -- The items of a module, the one that is looked for and those after it.
  last_text :
      (k t : Bytes) (obj : J)
      → lib.get_object_item obj k ≡ none
      → same_name k k ≡ true
      → lib.get_object_item (add_text lib k t obj) k ≡ some (laws.named k (lib.create_string t))
  last_text k t obj free same = laws.item_added k k (lib.create_string t) obj free same

  pub module_info-json_module :
      (name : Bytes) (mi : ModuleInfo) → module_info lib (laws.named name (json_module lib mi)) ≡ mi
  unfolding same_name
  module_info-json_module name mi =
      let o1 = add_text lib (codes "Hash") mi.fh lib.create_object in
      let o2 = add_text lib (codes "Version") mi.fv o1 in
      let o3 = add_text lib (codes "WorkDir") mi.wd o2 in
      let o4 = json_module lib mi in
      let hash1 = last_text (codes "Hash") mi.fh lib.create_object (laws.item_new _) refl in
      let hash2 =
        laws.item_there (codes "Version") (codes "Hash") (lib.create_string mi.fv) o1 _ hash1 in
      let hash3 =
        laws.item_there (codes "WorkDir") (codes "Hash") (lib.create_string mi.wd) o2 _ hash2 in
      let hash4 =
        laws.item_there (codes "Command") (codes "Hash") (lib.create_string mi.cmd) o3 _ hash3 in
      let ver1 =
        laws.item_other (codes "Hash") (codes "Version") (lib.create_string mi.fh) lib.create_object
          (laws.item_new _) refl in
      let ver2 = last_text (codes "Version") mi.fv o1 ver1 refl in
      let ver3 =
        laws.item_there (codes "WorkDir") (codes "Version") (lib.create_string mi.wd) o2 _ ver2 in
      let ver4 =
        laws.item_there (codes "Command") (codes "Version") (lib.create_string mi.cmd) o3 _ ver3 in
      let wd1 =
        laws.item_other (codes "Hash") (codes "WorkDir") (lib.create_string mi.fh) lib.create_object
          (laws.item_new _) refl in
      let wd2 =
        laws.item_other (codes "Version") (codes "WorkDir") (lib.create_string mi.fv) o1 wd1 refl in
      let wd3 = last_text (codes "WorkDir") mi.wd o2 wd2 refl in
      let wd4 =
        laws.item_there (codes "Command") (codes "WorkDir") (lib.create_string mi.cmd) o3 _ wd3 in
      let cmd1 =
        laws.item_other (codes "Hash") (codes "Command") (lib.create_string mi.fh) lib.create_object
          (laws.item_new _) refl in
      let cmd2 =
        laws.item_other (codes "Version") (codes "Command") (lib.create_string mi.fv) o1 cmd1
          refl in
      let cmd3 =
        laws.item_other (codes "WorkDir") (codes "Command") (lib.create_string mi.wd) o2 cmd2
          refl in
      let cmd4 = last_text (codes "Command") mi.cmd o3 cmd3 refl in
      rw
        (
          text_item-named name (codes "Version") _ mi.fv o4 ver4,
          text_item-named name (codes "Hash") _ mi.fh o4 hash4,
          text_item-named name (codes "WorkDir") _ mi.wd o4 wd4,
          text_item-named name (codes "Command") _ mi.cmd o4 cmd4,
        )
        refl

  abbrev pub module_item : Bytes × ModuleInfo → J
  module_item e = laws.named e.0 (json_module lib e.1)

  abbrev pub project_item : Bytes × List (Bytes × ModuleInfo) → J
  project_item e = laws.named e.0 (json_modules lib e.1 lib.create_object)

  children-json_modules :
      (mm : List (Bytes × ModuleInfo)) (obj : J)
      → lib.children (json_modules lib mm obj) ≡ lib.children obj ++ map module_item mm
  children-json_modules [] obj = sym (append-nil (lib.children obj))
  children-json_modules ((name, mi) ∷ mm) obj =
      children-json_modules mm (lib.add_item_to_object name (json_module lib mi) obj)
      ∙ ap (λ z. z ++ map module_item mm) (laws.children_add name (json_module lib mi) obj)
      ∙ append_assoc (lib.children obj) (module_item (name, mi) ∷ []) (map module_item mm)

  pub children-json_projects :
      (pm : List (Bytes × List (Bytes × ModuleInfo))) (obj : J)
      → lib.children (json_projects lib pm obj) ≡ lib.children obj ++ map project_item pm
  children-json_projects [] obj = sym (append-nil (lib.children obj))
  children-json_projects ((name, mm) ∷ pm) obj =
      let item = json_modules lib mm lib.create_object in
      children-json_projects pm (lib.add_item_to_object name item obj)
      ∙ ap (λ z. z ++ map project_item pm) (laws.children_add name item obj)
      ∙ append_assoc (lib.children obj) (project_item (name, mm) ∷ []) (map project_item pm)

  -- What is walked over in a project.
  pub children-project_item :
      (e : Bytes × List (Bytes × ModuleInfo)) → lib.children (project_item e) ≡ map module_item e.1
  children-project_item (name, mm) =
      laws.children_named name (json_modules lib mm lib.create_object)
      ∙ children-json_modules mm lib.create_object
      ∙ ap (λ z. z ++ map module_item mm) laws.children_new
