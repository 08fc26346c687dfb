-- ===== src/Util/Json/Objects.antt =====
-- What the services rely on of cJSON's objects. Names are compared without regard to case, and the
-- first item with a name is the one that is found.
use aods.Base.{
  Bool, Bytes, [], false, if◌then◌else◌, leb, none, some, true, ℕ, ◌&&◌, ◌++◌, ◌+◌, ◌==◌, ◌∷◌, ◌≡◌,
}
use aods.Util.Json.{JsonLib, json_string}

-- `tolower`
abbrev pub lower : ℕ → ℕ
lower b = if leb 65 b && leb b 90 then b + 32 else b

unfoldable pub same_name : Bytes → Bytes → Bool
same_name [] [] = true
same_name [] (b ∷ t) = false
same_name (a ∷ s) [] = false
same_name (a ∷ s) (b ∷ t) = (lower a == lower b) && same_name s t

pub record JsonObjects {J : Type 0} (lib : JsonLib J) : Type 0 where
  -- An item under its name.
  pub named : Bytes → J → J
  pub name_named : (k : Bytes) (j : J) → lib.name (named k j) ≡ k
  pub children_named : (k : Bytes) (j : J) → lib.children (named k j) ≡ lib.children j
  pub item_named :
      (k key : Bytes) (j : J) → lib.get_object_item (named k j) key ≡ lib.get_object_item j key
  pub kind_named : (k s : Bytes) → lib.kind (named k (lib.create_string s)) ≡ json_string
  pub text_named : (k s : Bytes) → lib.value_string (named k (lib.create_string s)) ≡ some s
  pub children_new : lib.children lib.create_object ≡ []
  pub children_add :
      (k : Bytes) (j obj : J)
      → lib.children (lib.add_item_to_object k j obj) ≡ lib.children obj ++ named k j ∷ []
  pub item_new : (key : Bytes) → lib.get_object_item lib.create_object key ≡ none
  pub item_there :
      (k key : Bytes) (j obj found : J)
      → lib.get_object_item obj key ≡ some found
      → lib.get_object_item (lib.add_item_to_object k j obj) key ≡ some found
  pub item_added :
      (k key : Bytes) (j obj : J)
      → lib.get_object_item obj key ≡ none
      → same_name k key ≡ true
      → lib.get_object_item (lib.add_item_to_object k j obj) key ≡ some (named k j)
  pub item_other :
      (k key : Bytes) (j obj : J)
      → lib.get_object_item obj key ≡ none
      → same_name k key ≡ false
      → lib.get_object_item (lib.add_item_to_object k j obj) key ≡ none
