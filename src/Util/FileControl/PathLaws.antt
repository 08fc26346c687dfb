-- ===== src/Util/FileControl/PathLaws.antt =====
-- A path that `ToStandardlPath` of src/dev/util/AoFileControl.cpp has made is left as it is by it.
use aods.Base.{
  All, All-append, Bool, Bool-cases, Bytes, List, [], ap, append-nil, append_assoc, arith, bytes_eq,
  codes, false, inl, inr, length, ltb, refl, true, ℕ, ◌&&◌, ◌++◌, ◌||◌, ◌∙◌, ◌∷◌, ◌≡◌,
}
use aods.Util.FileControl.Paths.{
  is_empty, is_sep, join_behind, join_dirs, pop_back, push_dir, split_dirs, to_standard_path,
}

-- No separator inside.
abbrev pub IsDir : Bytes → Type 0
IsDir = All (λ b. is_sep b ≡ false)

-- A part that `push_dir` keeps behind others.
pub record IsKept (dir : Bytes) : Type 0 where
  pub up : bytes_eq dir (codes "..") ≡ false
  pub here : bytes_eq dir (codes ".") ≡ false

split_dirs-text :
    (dirs : List Bytes) (cur dir s : Bytes)
    → IsDir dir
    → split_dirs dirs cur (dir ++ s) ≡ split_dirs dirs (cur ++ dir) s
unfolding split_dirs
split_dirs-text dirs cur [] s h = rw append-nil
split_dirs-text dirs cur (b ∷ dir) s h = rw h.0 (
    split_dirs-text dirs (cur ++ b ∷ []) dir s h.1
    ∙ ap (λ z. split_dirs dirs z s) (append_assoc cur (b ∷ []) dir))

-- The part may stand where it stands: only the first one may be empty.
abbrev pub IsPlaced : Bool → Bytes → Type 0
IsPlaced first dir = (ltb 0 (length dir) || first) ≡ true

-- Parts that separators have ended.
abbrev pub AllKept : Bool → List Bytes → Type 0
AllKept first [] = Unit
AllKept first (dir ∷ dirs) = IsDir dir × IsKept dir × IsPlaced first dir × AllKept false dirs

-- The parts of a path, the last one of which no separator has ended.
abbrev pub IsStandard : Bool → List Bytes → Type 0
IsStandard first [] = Unit
IsStandard first (dir ∷ []) = IsDir dir × IsPlaced first dir
IsStandard first (dir ∷ d ∷ dirs) =
    IsDir dir × IsKept dir × IsPlaced first dir × IsStandard false (d ∷ dirs)

AllKept-pop_back :
    (first : Bool) (dirs : List Bytes) → AllKept first dirs → AllKept first (pop_back dirs)
AllKept-pop_back first [] h = tt
AllKept-pop_back first (dir ∷ []) h = tt
AllKept-pop_back first (dir ∷ d ∷ dirs) h = (h.0, h.1, h.2, AllKept-pop_back false (d ∷ dirs) h.3)

AllKept-append :
    (first : Bool) (dirs : List Bytes) (dir : Bytes)
    → AllKept first dirs
    → IsDir dir
    → IsKept dir
    → IsPlaced (first && is_empty dirs) dir
    → AllKept first (dirs ++ dir ∷ [])
AllKept-append first [] dir h one kept placed = (one, kept, ground arith, tt)
AllKept-append first (d ∷ dirs) dir h one kept placed =
    (h.0, h.1, h.2, AllKept-append false dirs dir h.3 one kept (ground arith))

AllKept-IsStandard : (first : Bool) (dirs : List Bytes) → AllKept first dirs → IsStandard first dirs
AllKept-IsStandard first [] h = tt
AllKept-IsStandard first (dir ∷ []) h = (h.0, h.2)
AllKept-IsStandard first (dir ∷ d ∷ dirs) h =
    (h.0, h.1, h.2, AllKept-IsStandard false (d ∷ dirs) h.3)

IsStandard-append :
    (first : Bool) (dirs : List Bytes) (dir : Bytes)
    → AllKept first dirs
    → IsDir dir
    → is_empty dir ≡ false
    → IsStandard first (dirs ++ dir ∷ [])
IsStandard-append first [] [] h one e = ground arith
IsStandard-append first [] (b ∷ dir) h one e = (one, ground arith)
IsStandard-append first (d ∷ []) [] h one e = ground arith
IsStandard-append first (d ∷ []) (b ∷ dir) h one e = (h.0, h.1, h.2, (one, ground arith))
IsStandard-append first (d ∷ d' ∷ dirs) dir h one e =
    (h.0, h.1, h.2, IsStandard-append false (d' ∷ dirs) dir h.3 one e)

push_dir-AllKept :
    (dirs : List Bytes) (dir : Bytes)
    → AllKept true dirs
    → IsDir dir
    → AllKept true (push_dir dirs dir)
push_dir-AllKept dirs dir h one = elim (Bool-cases (bytes_eq dir (codes ".."))) [
  | inl up ↦ rw up (AllKept-pop_back true dirs h)
  | inr down ↦ elim (Bool-cases (bytes_eq dir (codes "."))) [
    | inl here ↦ rw (down, here) h
    | inr there ↦ elim (Bool-cases (ltb 0 (length dir) || is_empty dirs)) [
      | inl placed ↦
          rw (down, there, placed)
            (AllKept-append true dirs dir h one (record { up = down; here = there }) placed)
      | inr misplaced ↦ rw (down, there, misplaced) h
    ]
  ]
]

split_dirs-IsStandard :
    (dirs : List Bytes) (cur s : Bytes)
    → AllKept true dirs
    → IsDir cur
    → IsStandard true (split_dirs dirs cur s)
unfolding split_dirs
split_dirs-IsStandard dirs cur [] h one = elim (Bool-cases (is_empty cur)) [
  | inl e ↦ rw e (AllKept-IsStandard true dirs h)
  | inr e ↦ rw e (IsStandard-append true dirs cur h one e)
]
split_dirs-IsStandard dirs cur (b ∷ s) h one = elim (Bool-cases (is_sep b)) [
  | inl e ↦
      rw e (split_dirs-IsStandard (push_dir dirs cur) [] s (push_dir-AllKept dirs cur h one) tt)
  | inr e ↦ rw e (
      split_dirs-IsStandard dirs (cur ++ b ∷ []) s h
        (All-append (λ c. is_sep c ≡ false) cur (b ∷ []) one (e, tt)))
]

push_dir-IsKept :
    (dirs : List Bytes) (dir : Bytes)
    → IsKept dir
    → IsPlaced (is_empty dirs) dir
    → push_dir dirs dir ≡ dirs ++ dir ∷ []
push_dir-IsKept dirs dir kept placed = rw (kept.up, kept.here, placed)

is_empty-append : (dirs : List Bytes) (dir : Bytes) → is_empty (dirs ++ dir ∷ []) ≡ false
is_empty-append [] dir = refl
is_empty-append (d ∷ dirs) dir = refl

module _ (sep : ℕ) (sep_is : is_sep sep ≡ true) where
  -- One part that a separator ends, and the next one.
  split_dirs-next :
      (dirs : List Bytes) (dir d : Bytes) (ds : List Bytes)
      → IsKept dir
      → IsPlaced (is_empty dirs) dir
      → IsDir d
      → split_dirs dirs dir (join_behind sep (d ∷ ds))
        ≡ split_dirs (dirs ++ dir ∷ []) d (join_behind sep ds)
  unfolding split_dirs
  split_dirs-next dirs dir d ds kept placed one =
      rw (sep_is, push_dir-IsKept dirs dir kept placed)
        (split_dirs-text (dirs ++ dir ∷ []) [] d (join_behind sep ds) one)

  -- What follows some parts is found again.
  split_dirs-join_behind :
      (dirs : List Bytes) (dir : Bytes) (ds : List Bytes)
      → is_empty dirs ≡ false
      → IsStandard false (dir ∷ ds)
      → split_dirs dirs dir (join_behind sep ds) ≡ dirs ++ dir ∷ ds
  unfolding split_dirs
  split_dirs-join_behind dirs [] [] e w = absurd (ground (arith, w.1))
  split_dirs-join_behind dirs (b ∷ dir) [] e w = refl
  split_dirs-join_behind dirs dir (d ∷ []) e w =
      split_dirs-next dirs dir d [] w.1 (rw e w.2) w.3.0
      ∙ split_dirs-join_behind (dirs ++ dir ∷ []) d [] (is_empty-append dirs dir) w.3
      ∙ append_assoc dirs (dir ∷ []) (d ∷ [])
  split_dirs-join_behind dirs dir (d ∷ d' ∷ ds) e w =
      split_dirs-next dirs dir d (d' ∷ ds) w.1 (rw e w.2) w.3.0
      ∙ split_dirs-join_behind (dirs ++ dir ∷ []) d (d' ∷ ds) (is_empty-append dirs dir) w.3
      ∙ append_assoc dirs (dir ∷ []) (d ∷ d' ∷ ds)

  -- The first part may be empty.
  join_dirs-split_dirs :
      (ds : List Bytes)
      → IsStandard true ds
      → join_dirs sep (split_dirs [] [] (join_dirs sep ds)) ≡ join_dirs sep ds
  unfolding split_dirs
  join_dirs-split_dirs [] w = refl
  join_dirs-split_dirs ([] ∷ []) w = refl
  join_dirs-split_dirs ((b ∷ dir) ∷ []) w =
      ap (join_dirs sep) (split_dirs-text [] [] (b ∷ dir) [] w.0)
  join_dirs-split_dirs (dir ∷ d ∷ []) w = ap (join_dirs sep) (
      split_dirs-text [] [] dir (join_behind sep (d ∷ [])) w.0
      ∙ split_dirs-next [] dir d [] w.1 w.2 w.3.0
      ∙ split_dirs-join_behind (dir ∷ []) d [] refl w.3)
  join_dirs-split_dirs (dir ∷ d ∷ d' ∷ ds) w = ap (join_dirs sep) (
      split_dirs-text [] [] dir (join_behind sep (d ∷ d' ∷ ds)) w.0
      ∙ split_dirs-next [] dir d (d' ∷ ds) w.1 w.2 w.3.0
      ∙ split_dirs-join_behind (dir ∷ []) d (d' ∷ ds) refl w.3)

-- Where the path is written with a separator, making it standard once more changes nothing.
pub to_standard_path-twice :
    (sep : ℕ) (s : Bytes)
    → is_sep sep ≡ true
    → to_standard_path sep (to_standard_path sep s) ≡ to_standard_path sep s
unfolding to_standard_path
to_standard_path-twice sep s sep_is =
    join_dirs-split_dirs sep sep_is (split_dirs [] [] s) (split_dirs-IsStandard [] [] s tt tt)
