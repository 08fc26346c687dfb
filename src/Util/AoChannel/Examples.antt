-- ===== src/Util/AoChannel/Examples.antt =====
-- A channel with a buffer of 16 bytes.
use aods.Base.{
  Bytes, Option, [], arith, c_str, codes, length-replicate, refl, replicate, some, true, ℕ, ◌++◌,
  ◌∷◌, ◌≡◌,
}
use aods.Util.MemCache.Laws.{Serves}
use aods.Util.AoChannel.{AoChannel, on_recved_data}
use aods.Util.AoChannel.Laws.{IsChannel, broadcast, on_recved_data-IsChannel}

abbrev zero_pages : ℕ → Option Bytes
zero_pages n = some (replicate n 0)

zero_pages-Serves : Serves zero_pages
zero_pages-Serves n = (replicate n 0, refl, length-replicate n 0)

abbrev buffer : Bytes
buffer = c_str (codes "A:1") ++ replicate 12 0

abbrev channel : AoChannel
channel = record {
  temp_buf = some buffer;
  temp_block = 0;
  offset_block = 0;
  fixed_off_len = 4;
  temp_buf_len = 16;
}

channel-IsChannel : IsChannel (codes "A:1") channel
channel-IsChannel = record {
  block = buffer;
  allocated = refl;
  sized = refl;
  one_block = refl;
  off = refl;
  named = refl;
  room = omega arith;
  small = omega arith;
}

on_recved_data-IsChannel_example :
    (st : AoChannel) × (on_recved_data zero_pages true (codes "hello") channel
      ≡ some (st, broadcast (c_str (codes "A:1") ++ codes "hello") ∷ []))
    × IsChannel (codes "A:1") st
on_recved_data-IsChannel_example =
    on_recved_data-IsChannel zero_pages true (codes "A:1") (codes "hello") channel channel-IsChannel
      (omega arith)
