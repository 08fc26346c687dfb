-- ===== src/Util/FileControl/Examples.antt =====
-- A small file in two pieces, and some paths.
use aods.Base.{Bytes, List, [], arith, bytes_eq, codes, refl, some, ◌∷◌, ◌≡◌}
use aods.Util.FileControl.Crc3.{calc_file_crc32_3}
use aods.Util.FileControl.Crc3Laws.{calc_file_crc32_3_lem, sums_at}
use aods.Util.FileControl.Paths.{split_dirs, to_standard_path}

abbrev pieces : List Bytes
pieces = codes "1234" ∷ codes "56789" ∷ []

calc_file_crc32_3_example :
    calc_file_crc32_3 (some pieces) ≡ some (9, sums_at 4 (codes "123456789"))
calc_file_crc32_3_example = calc_file_crc32_3_lem pieces (omega arith)

-- A name of an archive that leads out of the directory that it is unpacked to.
climbs : to_standard_path 47 (codes "/srv/../etc/a") ≡ codes "/etc/a"
unfolding to_standard_path split_dirs bytes_eq
climbs = refl

-- An absolute path that becomes a relative one.
loses_root : to_standard_path 47 (codes "/../a") ≡ codes "a"
unfolding to_standard_path split_dirs bytes_eq
loses_root = refl
