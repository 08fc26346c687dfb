-- ===== src/Util/MemCache/Examples.antt =====
-- The buffer on an allocator that never fails.
use aods.Base.{Bytes, Option, arith, codes, length-replicate, refl, replicate, some, ℕ, ◌≡◌}
use aods.Util.MemCache.Laws.{IsValid, Serves}
use aods.Util.MemCache.{MemCache, append_buf, realloc, reserve}

abbrev zero_pages : ℕ → Option Bytes
zero_pages n = some (replicate n 0)

zero_pages-Serves : Serves zero_pages
zero_pages-Serves n = (replicate n 0, refl, length-replicate n 0)

abbrev four : MemCache
four = record { append_step_size = 2; cache_size = 4; cache_off = 3; cache = some (codes "abc ") }

four-IsValid : IsValid four
four-IsValid = record { block = codes "abc "; allocated = refl; sized = refl; filled = omega arith }

-- Growing by the step, and the room behind the data.
growth_run : (append_buf zero_pages (codes "de") four).0.cache_size ≡ 7
unfolding append_buf reserve realloc
growth_run = refl
