-- ===== src/Util/CommuModule/Groups.antt =====
-- The room of the groups of src/dev/util/AoIoSelectGroup.cpp.
use aods.Base.{
  All, Bool, Bool-cases, Bytes, List, [], ap, arith, false, inl, inr, leb, length, length-append,
  refl, suc, true, zero, ℕ, ◌*◌, ◌+◌, ◌∷◌, ◌≡◌, ◌≤◌,
}
use aods.Util.CommuModule.{append_to_groups, max_io_count}

-- The channels in all groups.
abbrev pub total : List (List Bytes) → ℕ
total [] = 0
total (g ∷ gs) = length g + total gs

-- At most `n` groups, none with more channels than it may have.
pub record IsGroups (n : ℕ) (gs : List (List Bytes)) : Type 0 where
  pub few : length gs ≤ n
  pub small : All (λ g. length g ≤ max_io_count) gs

-- What looking for room gives: one channel more, or what there was, where all groups are full.
pub record Grouped (n : ℕ) (gs : List (List Bytes)) (r : List (List Bytes) × Bool) : Type 0 where
  pub valid : IsGroups n r.0
  pub one_more : r.1 ≡ true → total r.0 ≡ total gs + 1
  pub all_full : r.1 ≡ false → (r.0 ≡ gs) × (total gs ≡ n * max_io_count)

-- Looking for room among n groups that keep to their sizes finds it unless all of them are full,
-- and keeps the groups to their number and to the number of channels that each may have.
pub append_to_groups-Grouped :
    (n : ℕ) (name : Bytes) (gs : List (List Bytes))
    → IsGroups n gs
    → Grouped n gs (append_to_groups n name gs)
unfolding append_to_groups
append_to_groups-Grouped zero name [] v = record {
  valid = v;
  one_more = λ e. ground (arith, e);
  all_full = λ e. (refl, refl);
}
append_to_groups-Grouped zero name (g ∷ gs) v = absurd (omega (arith, v.few))
append_to_groups-Grouped (suc n) name [] v = record {
  valid = record { few = omega arith; small = (omega arith, tt) };
  one_more = λ e. refl;
  all_full = λ e. ground (arith, e);
}
append_to_groups-Grouped (suc n) name (g ∷ gs) v =
    let h =
      append_to_groups-Grouped n name gs
        (record { few = omega (arith, v.few); small = v.small.1 }) in
    elim (Bool-cases (leb max_io_count (length g))) [
      | inl full ↦ rw full (record {
        valid = record { few = omega (arith, h.valid.few); small = (v.small.0, h.valid.small) };
        one_more = λ e. omega (arith, h.one_more e);
        all_full =
            λ e. (ap (◌∷◌ g) (h.all_full e).0, ground (arith, (h.all_full e).1, v.small.0, full));
      })
      | inr room ↦ rw room (record {
        valid = record {
          few = v.few;
          small = (ground (arith, room, length-append g (name ∷ [])), v.small.1);
        };
        one_more = λ e. omega (arith, length-append g (name ∷ []));
        all_full = λ e. ground (arith, e);
      })
    ]
