-- ===== src/Util/Helper.antt =====
-- `CAoHelper` (src/dev/util/AoHelper.cpp): bytes as hexadecimal digits and back, the search of a
-- buffer, and upper case. Strings are without their terminator.
pub mod Laws
mod Examples
use aods.Base.{
  Bytes, Option, [], bit_and, drop, if◌then◌else◌, leb, length, ltb, none, some, starts_with, suc,
  take, zero, ℕ, ◌%◌, ◌&&◌, ◌*◌, ◌+◌, ◌-◌, ◌/◌, ◌==◌, ◌^◌, ◌∷◌,
}

unfoldable pub hex_char : ℕ → ℕ
hex_char hex_data =
    if leb hex_data 9
    then hex_data + b'0'
    else if ltb hex_data 16
    then hex_data - 10 + b'a'
    else b'0'

pub hex_data : ℕ → ℕ
hex_data c =
    if leb (b'0') c && leb c (b'9')
    then c - b'0'
    else if leb (b'a') c && leb c (b'f')
    then c - b'a' + 10
    else if leb (b'A') c && leb c (b'F')
    then c - b'A' + 10
    else 0

-- The digits of the first `ucLen` bytes, an `unsigned short`.
unfoldable pub get_hex_string : Bytes → Bytes
get_hex_string [] = []
get_hex_string (b ∷ rest) =
    hex_char (bit_and (b / 2 ^ 4) 0xF) ∷ hex_char (bit_and b 0xF) ∷ get_hex_string rest

-- The bytes of a pair of digits each.
pub hex_pairs : Bytes → Bytes
hex_pairs (h ∷ l ∷ text) = (hex_data h * 2 ^ 4 + hex_data l) % 256 ∷ hex_pairs text
hex_pairs _ = []

-- `GetHexData`: what is written at the front of the buffer. The length is an `unsigned short`.
pub get_hex_data : Bytes → Bytes
get_hex_data text =
    let len = length text % 2 ^ 16 in if len % 2 == 0 then hex_pairs (take len text) else []

-- `memcmp` at index `n`, for indices from `n` on; `left` of them.
unfoldable pub find_from : Bytes → Bytes → ℕ → ℕ → Option ℕ
find_from find src n zero = none
find_from find src n (suc left) =
    if starts_with find src then some n else find_from find (drop 1 src) (n + 1) left

pub data Found : Type 0 where
  at : ℕ → Found
  not_found : Found
  no_pattern : Found

abbrev pub found : Option ℕ → Found
found none = not_found
found (some n) = at n

-- `FindFirstBuf`; -1 is `not_found` and -2 is `no_pattern`.
unfoldable pub find_first_buf : Bytes → Bytes → Found
find_first_buf src [] = no_pattern
find_first_buf src (b ∷ find) =
    found (find_from (b ∷ find) src 0 (length src + 1 - length (b ∷ find)))

-- `memcmp` at the indices below `n`, from the last down.
pub find_back : Bytes → Bytes → ℕ → Option ℕ
find_back find src zero = none
find_back find src (suc n) = if starts_with find (drop n src) then some n else find_back find src n

-- `FindLastBuf`; it has no test for an empty pattern.
pub find_last_buf : Bytes → Bytes → Found
find_last_buf src find = found (find_back find src (length src + 1 - length find))

-- `Toupper` in the C locale.
pub upper_char : ℕ → ℕ
upper_char c = if leb (b'a') c && leb c (b'z') then c - 32 else c

pub toupper : Bytes → Bytes
toupper [] = []
toupper (c ∷ text) = upper_char c ∷ toupper text
