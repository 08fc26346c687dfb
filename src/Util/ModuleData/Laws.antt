-- ===== src/Util/ModuleData/Laws.antt =====
-- What a queue's buffer holds.
use aods.Base.{
  Bool, Bytes, Option, arith, false, leb, length, length-replicate, length-take, ltb, refl,
  replicate, some, true, u32, ℕ, ◌++◌, ◌+◌, ◌<◌, ◌^◌, ◌∙◌, ◌≡◌, ◌≤◌,
}
use aods.Util.MemCache.{overwrite}
use aods.Util.MemCache.Laws.{Serves, length-overwrite, take-overwrite}
use aods.Util.ModuleData.{ModuleData, append_data, data_of, malloc_data, new_data}

-- The block has the capacity that is kept beside it, and the fill level lies within.
pub record IsData (d : ModuleData) : Type 0 where
  pub block : Bytes
  pub allocated : d.buf ≡ some block
  pub sized : length block ≡ d.capacity
  pub filled : d.len ≤ d.capacity

-- What appending `s` gives where it fits.
pub record Appended (s : Bytes) (d : ModuleData) (o : Option (ModuleData × Bool)) : Type 0 where
  pub after : ModuleData
  pub returned : o ≡ some (after, true)
  pub valid : IsData after
  pub holds : data_of after ≡ data_of d ++ s
  pub same_capacity : after.capacity ≡ d.capacity
  pub longer : after.len ≡ d.len + length s

pub length-data_of : (d : ModuleData) → IsData d → length (data_of d) ≡ d.len
length-data_of d v = rw v.allocated (omega (arith, length-take d.len v.block, v.sized, v.filled))

pub append_data-fits :
    (s : Bytes) (d : ModuleData)
    → IsData d
    → d.capacity < 2 ^ 32
    → d.len + length s ≤ d.capacity
    → Appended s d (append_data s d)
unfolding append_data
append_data-fits s d v small fits =
    let room : ltb d.capacity (u32 (length s + d.len)) ≡ false = ground arith in
    let within : ltb (length v.block) (d.len + length s) ≡ false = ground (arith, v.sized) in
    let there : d.len + length s ≤ length v.block = omega (arith, v.sized) in
    let no_wrap : u32 (d.len + length s) ≡ d.len + length s = omega arith in
    rw (room, v.allocated, within, no_wrap)
      record {
        after = record d { buf = some (overwrite d.len s v.block); len = d.len + length s };
        returned = refl;
        valid = record {
          block = overwrite d.len s v.block;
          allocated = refl;
          sized = length-overwrite d.len s v.block there ∙ v.sized;
          filled = fits;
        };
        holds = take-overwrite d.len s v.block there;
        same_capacity = refl;
        longer = refl;
      }

-- What does not fit is refused and changes nothing.
pub append_data-full :
    (s : Bytes) (d : ModuleData)
    → d.len + length s < 2 ^ 32
    → d.capacity < d.len + length s
    → append_data s d ≡ some (d, false)
unfolding append_data
append_data-full s d small full = ground arith

pub malloc_data-IsData :
    (malloc : ℕ → Option Bytes) (size : ℕ)
    → Serves malloc
    → 0 < size
    → IsData (malloc_data malloc size new_data).0
unfolding malloc_data new_data
malloc_data-IsData malloc size serves h =
    let (block, got, sized) = serves size in
    let bigger : leb size 0 ≡ false = ground arith in
    rw (bigger, got)
      record {
        block = overwrite 0 (replicate size 0) block;
        allocated = refl;
        sized =
            length-overwrite 0 (replicate size 0) block
              (omega (arith, length-replicate {A = ℕ} size 0))
            ∙ sized;
        filled = omega arith;
      }
