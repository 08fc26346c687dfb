-- ===== src/Util/Json.antt =====
-- What the source uses of cJSON, a library of its own: a value is a member of `J`, `none` is NULL.
pub mod Objects
use aods.Base.{Bytes, List, Option, ℕ}

-- `type`
pub data JsonKind : Type 0 where
  json_object json_array json_string json_number json_other : JsonKind

pub record JsonLib (J : Type 0) : Type 0 where
  pub parse : Bytes → Option J
  pub get_object_item : J → Bytes → Option J
  pub children : J → List J
  pub kind : J → JsonKind
  pub name : J → Bytes
  pub value_string : J → Option Bytes
  pub value_int : J → ℕ
  pub create_object : J
  pub create_string : Bytes → J
  -- The name, the item and the object that it is added to.
  pub add_item_to_object : Bytes → J → J → J
  pub print_unformatted : J → Bytes
  pub create_number : ℕ → J
  pub create_array : J
  -- The item and the array that it is added to.
  pub add_item_to_array : J → J → J
