-- ===== src/Util/Hash/Crc.antt =====
-- `CalcCrc8` and `CalcCrc32` of `CAoHash` (src/dev/util/AoHash.cpp). A buffer is the list of its
-- bytes, so its length is the argument that the source passes beside it.
pub mod Table
pub mod Reference
use aods.Base.{Bytes, [], bit_and, bit_xor, get_or, ℕ, ◌/◌, ◌^◌, ◌∷◌}
use aods.Util.Hash.Crc.Table.{crc_table}

-- The loop of `CalcCrc8` over the bytes from index 1 on.
unfoldable pub xor_bytes : ℕ → Bytes → ℕ
xor_bytes crc [] = crc
xor_bytes crc (b ∷ buf) = xor_bytes (bit_xor crc b) buf

-- `CalcCrc8` reads the first byte before it looks at the length, so that byte is an argument of
-- its own.
unfoldable pub calc_crc8 : ℕ → Bytes → ℕ
unfolding xor_bytes
calc_crc8 first rest = xor_bytes first rest

-- CRC_DO1
unfoldable pub crc_do1 : ℕ → ℕ → ℕ
crc_do1 crc b = bit_xor (get_or crc_table (bit_and (bit_xor crc b) 0xff) 0) (crc / 2 ^ 8)

-- CRC_DO2, CRC_DO4
abbrev pub crc_do2 : ℕ → ℕ → ℕ → ℕ
crc_do2 crc a b = crc_do1 (crc_do1 crc a) b

abbrev pub crc_do4 : ℕ → ℕ → ℕ → ℕ → ℕ → ℕ
crc_do4 crc a b c d = crc_do2 (crc_do2 crc a b) c d

-- The loop that takes the last bytes one at a time.
unfoldable pub crc_tail : ℕ → Bytes → ℕ
crc_tail crc [] = crc
crc_tail crc (b ∷ buf) = crc_tail (crc_do1 crc b) buf

-- The loop that takes eight bytes at a time while there are eight.
unfoldable pub crc_octets : ℕ → Bytes → ℕ
crc_octets crc (a ∷ b ∷ c ∷ d ∷ e ∷ f ∷ g ∷ h ∷ buf) =
    crc_octets (crc_do4 (crc_do4 crc a b c d) e f g h) buf
crc_octets crc buf = crc_tail crc buf

unfoldable pub calc_crc32 : ℕ → Bytes → ℕ
calc_crc32 crc buf = bit_xor (crc_octets (bit_xor crc 0xffffffff) buf) 0xffffffff
