-- ===== src/Util/ModuleData.antt =====
-- `CModuleData` (src/dev/util/ModuleData.h, ModuleData.cpp): the buffer of a message queue.
-- The block behind `m_pucData` is the list of its bytes, `none` for NULL; `malloc n` is what the
-- allocator returns for `n` bytes. A copy to NULL or past the end of the block is `none`.
pub mod Laws
use aods.Base.{
  Bool, Bytes, Option, false, if◌then◌else◌, leb, length, ltb, none, replicate, some, take, true,
  u32, ℕ, ◌+◌,
}
use aods.Util.MemCache.{block_of, map_block, overwrite}

pub record ModuleData : Type 0 where
  pub buf : Option Bytes
  pub capacity : ℕ
  pub len : ℕ

unfoldable pub new_data : ModuleData
new_data = record { buf = none; capacity = 0; len = 0 }

-- `memset(m_pucData, 0, size)` after `malloc`, and whether there was memory.
abbrev pub cleared : ℕ → ModuleData → Option Bytes → ModuleData × Bool
cleared size d none = (record d { buf = none }, false)
cleared size d (some block) =
    (record d { buf = some (overwrite 0 (replicate size 0) block); capacity = size }, true)

-- `Malloc`; a smaller size clears the block that there is.
unfoldable pub malloc_data : (ℕ → Option Bytes) → ℕ → ModuleData → ModuleData × Bool
malloc_data malloc size d =
    if leb size d.capacity
    then (record d { buf = map_block (overwrite 0 (replicate d.capacity 0)) d.buf }, true)
    else cleared size d (malloc size)

-- `memcpy` to `m_pucData + m_unLen`.
abbrev pub copied : Bytes → ModuleData → Option Bytes → Option (ModuleData × Bool)
copied s d none = none
copied s d (some block) =
    if ltb (length block) (d.len + length s)
    then none
    else some
        (record d { buf = some (overwrite d.len s block); len = u32 (d.len + length s) }, true)

unfoldable pub append_data : Bytes → ModuleData → Option (ModuleData × Bool)
append_data s d =
    if ltb d.capacity (u32 (length s + d.len)) then some (d, false) else copied s d d.buf

unfoldable pub reset_data : ModuleData → ModuleData
reset_data d = record d { len = 0 }

-- `Data` up to `DataLen`.
abbrev pub data_of : ModuleData → Bytes
data_of d = take d.len (block_of d.buf)
