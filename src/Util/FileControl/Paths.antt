-- ===== src/Util/FileControl/Paths.antt =====
-- `ToStandardlPath`, `Split` and the walk of `CreateDirs` (src/dev/util/AoFileControl.cpp). A path is
-- the text before its terminator; the buffers for the results are taken to be large enough.
use aods.Base.{
  Bool, Bytes, List, Option, [], bytes_eq, codes, false, if◌then◌else◌, length, ltb, none, not,
  some, true, ℕ, ◌&&◌, ◌++◌, ◌==◌, ◌||◌, ◌∷◌,
}

-- '/' and '\'
abbrev pub is_sep : ℕ → Bool
is_sep b = (b == 47) || (b == 92)

-- `pop_back`
abbrev pub pop_back : List Bytes → List Bytes
pop_back [] = []
pop_back (dir ∷ []) = []
pop_back (dir ∷ d ∷ dirs) = dir ∷ pop_back (d ∷ dirs)

abbrev pub is_empty : {A : Type 0} → List A → Bool
is_empty [] = true
is_empty (x ∷ xs) = false

-- A part of the path that a separator ends.
abbrev pub push_dir : List Bytes → Bytes → List Bytes
push_dir dirs dir =
    if bytes_eq dir (codes "..")
    then pop_back dirs
    else if not (bytes_eq dir (codes ".")) && (ltb 0 (length dir) || is_empty dirs)
    then dirs ++ dir ∷ []
    else dirs

-- The loop over the path, with the part that has begun.
unfoldable pub split_dirs : List Bytes → Bytes → Bytes → List Bytes
split_dirs dirs cur [] = if is_empty cur then dirs else dirs ++ cur ∷ []
split_dirs dirs cur (b ∷ s) =
    let ended = split_dirs (push_dir dirs cur) [] s in
    let longer = split_dirs dirs (cur ++ b ∷ []) s in if is_sep b then ended else longer

abbrev pub join_behind : ℕ → List Bytes → Bytes
join_behind sep [] = []
join_behind sep (dir ∷ dirs) = sep ∷ dir ++ join_behind sep dirs

-- The parts with a separator between them.
abbrev pub join_dirs : ℕ → List Bytes → Bytes
join_dirs sep [] = []
join_dirs sep (dir ∷ dirs) = dir ++ join_behind sep dirs

-- `ToStandardlPath`, with a separator of one character.
unfoldable pub to_standard_path : ℕ → Bytes → Bytes
to_standard_path sep s = join_dirs sep (split_dirs [] [] s)

-- The path before the last separator, where there is one, and what follows it.
abbrev pub split_path : Bytes → Option (Bytes × Bytes)
split_path [] = none
split_path (b ∷ s) = elim (split_path s) [
  | none ↦ if is_sep b then some ([], s) else none
  | some (path, file) ↦ some (b ∷ path, file)
]

-- `Split`
unfoldable pub split_file : Bytes → Bytes × Bytes
split_file s = elim (split_path s) [ none ↦ ([], s) | some r ↦ r ]

-- A part of the path that `CreateDirs` has come to the end of.
abbrev pub enter_dir : List Bytes → Bytes → List Bytes
enter_dir dirs dir =
    if bytes_eq dir (codes "..")
    then pop_back dirs
    else if not (bytes_eq dir (codes "."))
    then dirs ++ dir ∷ []
    else dirs

-- The first loop of `CreateDirs`. The character behind a separator is not looked at: `fresh` says
-- that one has just been passed.
unfoldable pub dirs_loop : Bool → List Bytes → Bytes → Bytes → List Bytes
dirs_loop fresh dirs cur [] = if is_empty cur then dirs else dirs ++ cur ∷ []
dirs_loop fresh dirs cur (b ∷ s) =
    let ended = dirs_loop true (enter_dir dirs cur) [] s in
    let longer = dirs_loop false dirs (cur ++ b ∷ []) s in
    if not fresh && is_sep b then ended else longer

-- The second loop: the directories that are created, one inside the other.
abbrev pub nested : Bytes → List Bytes → List Bytes
nested path [] = []
nested path (dir ∷ dirs) = let path' = path ++ (dir ++ codes "/") in path' ∷ nested path' dirs

-- `CreateDirs`, as the calls of `CreateDir`.
unfoldable pub create_dirs : Bytes → List Bytes
create_dirs s = nested [] (dirs_loop false [] [] s)
