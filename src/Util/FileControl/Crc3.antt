-- ===== src/Util/FileControl/Crc3.antt =====
-- `CalcFileCrc32_3` and `CalcFileCrc32Hash` (src/dev/util/AoFileControl.cpp). The file is given by
-- the pieces that the calls of `CAoFile::Read` deliver, each with at least one byte.
use aods.Base.{
  Bytes, List, Option, [], drop, if◌then◌else◌, leb, length, ltb, none, some, take, u32, ℕ, ◌++◌,
  ◌+◌, ◌-◌, ◌/◌, ◌∷◌,
}
use aods.Util.Hash.Crc.{calc_crc32}

pub record Crc3 : Type 0 where
  pub crc1 : ℕ
  pub crc2 : ℕ
  pub crc3 : ℕ
  pub readed_len : ℕ

abbrev pub start : Crc3
start = record { crc1 = 0; crc2 = 0; crc3 = 0; readed_len = 0 }

-- The body of the loop: one piece goes to the first checksum, to the second, or to both.
unfoldable pub crc3_step : ℕ → Bytes → Crc3 → Crc3
crc3_step half_len piece s =
    let read_len = length piece in
    let all = calc_crc32 s.crc3 piece in
    if ltb (s.readed_len + read_len) half_len
    then record s {
      crc1 = calc_crc32 s.crc1 piece;
      crc3 = all;
      readed_len = s.readed_len + read_len;
    }
    else if leb half_len s.readed_len
    then record s {
      crc2 = calc_crc32 s.crc2 piece;
      crc3 = all;
      readed_len = s.readed_len + read_len;
    }
    else record {
      crc1 = calc_crc32 s.crc1 (take (half_len - s.readed_len) piece);
      crc2 = calc_crc32 s.crc2 (drop (half_len - s.readed_len) piece);
      crc3 = all;
      readed_len = s.readed_len + read_len;
    }

unfoldable pub crc3_loop : ℕ → List Bytes → Crc3 → Crc3
crc3_loop half_len [] s = s
crc3_loop half_len (piece ∷ pieces) s = crc3_loop half_len pieces (crc3_step half_len piece s)

-- The bytes of all pieces.
abbrev pub contents : List Bytes → Bytes
contents [] = []
contents (piece ∷ pieces) = piece ++ contents pieces

-- `unFileLen` and the checksums; a file that cannot be opened is `none`. The length is an
-- `unsigned int`.
unfoldable pub calc_file_crc32_3 : Option (List Bytes) → Option (ℕ × Crc3)
calc_file_crc32_3 none = none
calc_file_crc32_3 (some pieces) =
    let file_len = u32 (length (contents pieces)) in
    some (file_len, crc3_loop (file_len / 2) pieces start)

-- `CalcFileCrc32Hash` up to the printing of its four words.
unfoldable pub calc_file_crc32_hash : Option (List Bytes) → Option (ℕ × Crc3)
calc_file_crc32_hash none = none
calc_file_crc32_hash (some pieces) =
    let file_len = u32 (length (contents pieces)) in
    some (file_len, crc3_loop file_len pieces start)
