-- ===== src/Util/MemCache.antt =====
-- `CAoMemCache` (src/dev/util/AoMemCache.h, AoMemCache.cpp): a growing buffer with a fill level.
-- The block behind `m_pucCache` is the list of all its bytes, `none` for NULL. Lengths are
-- `unsigned int`, so sums wrap. `malloc n` is what the allocator returns for `n` bytes.
pub mod Laws
mod Examples
use aods.Base.{
  Bool, Bytes, Option, [], drop, false, if◌then◌else◌, length, ltb, none, some, suc, take, true,
  u32, zero, ℕ, ◌++◌, ◌+◌, ◌-◌, ◌||◌, ◌∷◌,
}

pub record MemCache : Type 0 where
  pub append_step_size : ℕ
  pub cache_size : ℕ
  pub cache_off : ℕ
  pub cache : Option Bytes

-- `memcpy` to and from places inside a block.
abbrev pub overwrite : ℕ → Bytes → Bytes → Bytes
overwrite off s block = take off block ++ (s ++ drop (off + length s) block)

abbrev pub map_block : (Bytes → Bytes) → Option Bytes → Option Bytes
map_block f none = none
map_block f (some block) = some (f block)

-- The bytes of the block; none behind NULL.
abbrev pub block_of : Option Bytes → Bytes
block_of none = []
block_of (some block) = block

abbrev pub not_allocated : Option Bytes → Bool
not_allocated none = true
not_allocated (some block) = false

-- `realloc`: the new block with the old bytes at its front, as many as fit.
unfoldable pub realloc : (ℕ → Option Bytes) → Option Bytes → ℕ → Option Bytes
realloc malloc none n = malloc n
realloc malloc (some old) n = elim (malloc n) [
  | none ↦ none
  | some new ↦ some (take n old ++ drop (length old) new)
]

unfoldable pub create : (ℕ → Option Bytes) → ℕ → ℕ → MemCache
create malloc init_size step = record {
  append_step_size = step;
  cache_size = init_size;
  cache_off = 0;
  cache = if ltb 0 init_size then malloc init_size else none;
}

-- The first part of `AppendBuf`: a larger block where the data would not fit.
unfoldable pub reserve : (ℕ → Option Bytes) → Bool → ℕ → MemCache → MemCache
reserve malloc has_data len c =
    if not_allocated c.cache || ltb c.cache_size (u32 (len + c.cache_off))
    then (let size = u32 (len + c.cache_off + c.append_step_size) in
        record c {
          cache_size = size;
          cache = if has_data then realloc malloc c.cache size else malloc size;
        })
    else c

-- The last part of `AppendBuf`, once there is room: the copy and the new fill level.
abbrev pub stored : Bytes → MemCache → Option Bytes → MemCache × Bool
stored s c none = (c, false)
stored s c (some block) = (
  record c {
    cache = some (overwrite c.cache_off s block);
    cache_off = u32 (c.cache_off + length s);
  },
  true,
)

abbrev pub taken : ℕ → MemCache → Option Bytes → MemCache × Bool
taken len c none = (c, false)
taken len c (some block) = (record c { cache_off = u32 (c.cache_off + len) }, true)

-- `AppendBuf` with the data, and whether it succeeded.
unfoldable pub append_buf : (ℕ → Option Bytes) → Bytes → MemCache → MemCache × Bool
append_buf malloc [] c = (c, true)
append_buf malloc (b ∷ s) c =
    let r = reserve malloc true (length (b ∷ s)) c in stored (b ∷ s) r r.cache

-- `AppendBuf(NULL, len)`: the room is taken and nothing is copied.
unfoldable pub append_room : (ℕ → Option Bytes) → ℕ → MemCache → MemCache × Bool
append_room malloc zero c = (c, true)
append_room malloc (suc n) c = let r = reserve malloc false (suc n) c in taken (suc n) r r.cache

unfoldable pub reset : MemCache → MemCache
reset c = record c { cache_off = 0 }

-- The `memcpy` within the block is taken to copy as `memmove` does. In C this is assumed where more is
-- left than is removed, since the two parts overlap then.
unfoldable pub remove : ℕ → ℕ → MemCache → MemCache
remove from to c =
    if ltb to c.cache_off
    then (let left = c.cache_off - to in
        record c {
          cache_off = left;
          cache = map_block (λ block. overwrite from (take left (drop to block)) block) c.cache;
        })
    else record c { cache_off = 0 }

-- `CurData` up to `CurDataLen`.
abbrev pub cur_data : MemCache → Bytes
cur_data c = take c.cache_off (block_of c.cache)
