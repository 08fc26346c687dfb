-- ===== src/Util/FileControl/Crc3Laws.antt =====
-- The three checksums do not depend on how the file is delivered.
use aods.Base.{
  Bytes, List, [], append-nil, append_assoc, arith, drop, drop-append, drop-of_le, length,
  length-append, some, take, take-append, take-of_le, u32, ℕ, ◌++◌, ◌-◌, ◌/◌, ◌<◌, ◌^◌, ◌∷◌, ◌≡◌,
}
use aods.Util.Hash.Crc.{calc_crc32}
use aods.Util.FileControl.Crc3.{
  Crc3, calc_file_crc32_3, calc_file_crc32_hash, contents, crc3_loop, crc3_step, start,
}
use aods.Util.Hash.Crc.Reference.{calc_crc32-append, calc_crc32-nil}

-- The checksums of the two parts of what has been read, and of all of it.
abbrev pub sums_at : ℕ → Bytes → Crc3
sums_at half_len s = record {
  crc1 = calc_crc32 0 (take half_len s);
  crc2 = calc_crc32 0 (drop half_len s);
  crc3 = calc_crc32 0 s;
  readed_len = length s;
}

module _ (half_len : ℕ) where
  crc3_step-sums_at :
      (s piece : Bytes)
      → crc3_step half_len piece (sums_at half_len s) ≡ sums_at half_len (s ++ piece)
  unfolding crc3_step
  crc3_step-sums_at s piece =
      let left = half_len - length s in
      ground (
        arith,
        length-append s piece,
        calc_crc32-append 0 s piece,
        calc_crc32-append 0 (take half_len s) (take left piece),
        calc_crc32-append 0 (drop half_len s) (drop left piece),
        take-append half_len s piece,
        drop-append half_len s piece,
        take-of_le left piece,
        drop-of_le left piece,
        calc_crc32-nil (calc_crc32 0 (take half_len s)),
        calc_crc32-nil (calc_crc32 0 (drop half_len s)),
      )

  crc3_loop-sums_at :
      (s : Bytes) (pieces : List Bytes)
      → crc3_loop half_len pieces (sums_at half_len s) ≡ sums_at half_len (s ++ contents pieces)
  unfolding crc3_loop
  crc3_loop-sums_at s [] = rw append-nil
  crc3_loop-sums_at s (piece ∷ pieces) =
      rw (crc3_step-sums_at s piece, ← append_assoc s piece (contents pieces))
        (crc3_loop-sums_at (s ++ piece) pieces)

start_lem : (half_len : ℕ) → start ≡ sums_at half_len []
start_lem half_len =
    ground (arith, calc_crc32-nil 0, take-of_le {A = ℕ} half_len [], drop-of_le {A = ℕ} half_len [])

crc3_loop-start :
    (half_len : ℕ) (pieces : List Bytes)
    → crc3_loop half_len pieces start ≡ sums_at half_len (contents pieces)
crc3_loop-start half_len pieces = rw (start_lem half_len) (crc3_loop-sums_at half_len [] pieces)

-- However the reads cut the file, the three words are the CRC-32 of its first half, of the rest,
-- and of the whole; for files that an `int` can measure.
pub calc_file_crc32_3_lem :
    (pieces : List Bytes)
    → length (contents pieces) < 2 ^ 31
    → calc_file_crc32_3 (some pieces)
      ≡ some (length (contents pieces), sums_at (length (contents pieces) / 2) (contents pieces))
unfolding calc_file_crc32_3
calc_file_crc32_3_lem pieces h =
    let small : u32 (length (contents pieces)) ≡ length (contents pieces) = omega arith in
    rw (small, crc3_loop-start)

-- `CalcFileCrc32Hash` does not halve the length: its first word is the checksum of the whole
-- file, as its third is, and its second word is 0; for files that an `int` can measure.
pub calc_file_crc32_hash_whole :
    (pieces : List Bytes)
    → length (contents pieces) < 2 ^ 31
    → calc_file_crc32_hash (some pieces)
      ≡ some (
        length (contents pieces),
        record {
          crc1 = calc_crc32 0 (contents pieces);
          crc2 = 0;
          crc3 = calc_crc32 0 (contents pieces);
          readed_len = length (contents pieces);
        },
      )
unfolding calc_file_crc32_hash
calc_file_crc32_hash_whole pieces h =
    let small : u32 (length (contents pieces)) ≡ length (contents pieces) = omega arith in
    rw (
      small,
      crc3_loop-start,
      take-of_le (length (contents pieces)) (contents pieces) (omega arith),
      drop-of_le (length (contents pieces)) (contents pieces) (omega arith),
      calc_crc32-nil,
    )
