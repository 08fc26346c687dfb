-- ===== src/Aods/UpdateModuleMgr/ConfigExamples.antt =====
-- A configuration of two modules, saved and read with a library of trees.
use aods.Base.Ascending.{IsAscending}
use aods.Base.{
  All, Bytes, List, Option, [], ap, arith, bytes_lt, codes, if◌then◌else◌, none, refl, some, true,
  ◌++◌, ◌∙◌, ◌∷◌, ◌≡◌,
}
use aods.Aods.UpdateModuleMgr.{ModuleInfo, UpdateMgr, write_cfg}
use aods.Aods.UpdateModuleMgr.Config.{json_projects, mgr_msgs, save_cfg, start_umi_syn}
use aods.Aods.UpdateModuleMgr.RoundTrip.{IsProject, save_cfg-start_umi_syn, umi_msgs}
use aods.Util.Json.{JsonKind, JsonLib, json_object, json_string}
use aods.Util.Json.Objects.{JsonObjects, same_name}

-- An object is built from the empty one; `renamed` gives a value its name.
data Tree : Type 0 where
  text_value : Bytes → Tree
  empty_object : Tree
  added : Bytes → Tree → Tree → Tree
  renamed : Bytes → Tree → Tree

abbrev tree_children : Tree → List Tree
tree_children (text_value s) = []
tree_children empty_object = []
tree_children (added k item obj) = tree_children obj ++ renamed k item ∷ []
tree_children (renamed k j) = tree_children j

abbrev tree_name : Tree → Bytes
tree_name (renamed k j) = k
tree_name _ = []

abbrev tree_kind : Tree → JsonKind
tree_kind (text_value s) = json_string
tree_kind (renamed k j) = tree_kind j
tree_kind _ = json_object

abbrev tree_text : Tree → Option Bytes
tree_text (text_value s) = some s
tree_text (renamed k j) = tree_text j
tree_text _ = none

-- The item that is found, or else the one that is added last.
abbrev found_or : Bytes → Bytes → Tree → Option Tree → Option Tree
found_or k key item none = if same_name k key then some (renamed k item) else none
found_or k key item (some j) = some j

abbrev tree_item : Tree → Bytes → Option Tree
tree_item (text_value s) key = none
tree_item empty_object key = none
tree_item (added k item obj) key = found_or k key item (tree_item obj key)
tree_item (renamed k j) key = tree_item j key

abbrev one : ModuleInfo
one = record { fv = codes "1"; fh = codes "00"; wd = codes "/srv"; cmd = codes "restart" }

abbrev two : ModuleInfo
two = record { fv = codes "2"; fh = codes "01"; wd = []; cmd = [] }

abbrev saved_mgr : UpdateMgr
saved_mgr = record {
  pm =
      (codes "p", (codes "m", one) ∷ (codes "n", two) ∷ [])
      ∷ (codes "q", (codes "m", two) ∷ [])
      ∷ [];
  threads = [];
  update_times = 0;
}

abbrev fresh_mgr : UpdateMgr
fresh_mgr = record { pm = []; threads = []; update_times = 3 }

-- A library that reads the one object that it prints.
abbrev trees : Tree → JsonLib Tree
trees root = record {
  parse = λ s. some root;
  get_object_item = tree_item;
  children = tree_children;
  kind = tree_kind;
  name = tree_name;
  value_string = tree_text;
  value_int = λ j. 0;
  create_object = empty_object;
  create_string = text_value;
  create_number = λ n. empty_object;
  create_array = empty_object;
  add_item_to_array = λ item j. j;
  add_item_to_object = added;
  print_unformatted = λ j. codes "{}";
}

abbrev root : Tree
root = json_projects (trees empty_object) saved_mgr.pm empty_object

trees-JsonObjects : JsonObjects (trees root)
trees-JsonObjects = record {
  named = renamed;
  name_named = λ k j. refl;
  children_named = λ k j. refl;
  item_named = λ k key j. refl;
  kind_named = λ k s. refl;
  text_named = λ k s. refl;
  children_new = refl;
  children_add = λ k j obj. refl;
  item_new = λ key. refl;
  item_there = λ k key j obj found e. ap (found_or k key j) e;
  item_added = λ k key j obj e same. ap (found_or k key j) e ∙ rw same refl;
  item_other = λ k key j obj e other. ap (found_or k key j) e ∙ rw other refl;
}

ascending : IsAscending saved_mgr.pm
unfolding bytes_lt
ascending = ((refl, tt), (tt, tt))

projects : All IsProject saved_mgr.pm
unfolding bytes_lt
projects = (
  (omega arith, ((refl, tt), (tt, tt)), (omega arith, (omega arith, tt))),
  ((omega arith, (tt, tt), (omega arith, tt)), tt),
)

save_cfg-start_umi_syn_example :
    (save_cfg (trees root) true saved_mgr ≡ write_cfg (codes "{}") ∷ [])
    × (start_umi_syn (trees root) (some (codes "{}")) (0 ∷ codes "rest") fresh_mgr
        ≡ some (record fresh_mgr { pm = saved_mgr.pm }, mgr_msgs (umi_msgs saved_mgr.pm)))
save_cfg-start_umi_syn_example =
    save_cfg-start_umi_syn (trees root) trees-JsonObjects saved_mgr fresh_mgr (codes "{}")
      (codes "rest") refl (ground arith) refl ascending projects
