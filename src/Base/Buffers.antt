-- ===== src/Base/Buffers.antt =====
-- Byte buffers: NUL-terminated strings inside them, little-endian words, and string search.
use Prim.Native.Nat.{ℕ, zero, suc, ◌+◌, ◌*◌, ◌/◌, ◌%◌, ◌^◌, ◌<◌}
use Prim.Native.Char.{code}
use Prim.Native.String.{String}
use mathlib.Core.Path.{◌≡◌, refl, ap}
use mathlib.Core.Logic.{◌↔◌, ◌≢◌}
use mathlib.Core.Bool.{Bool, true, false, ◌&&◌, ◌||◌}
use mathlib.Core.List.{List, [], ◌∷◌, ◌++◌}
use mathlib.Core.Option.{Option, none, some}
use native.Mathlib.Omega.{arith}
use aods.Base.Tests.{◌==◌, ltb, if◌then◌else◌}
use aods.Base.Lists.{All, length, length-append, get_or, take, drop}

abbrev pub Bytes : Type 0
Bytes = List ℕ

abbrev pub IsByte : ℕ → Type 0
IsByte b = b < 256

abbrev pub IsBytes : Bytes → Type 0
IsBytes = All IsByte

-- The bytes of an ASCII literal of the source.
abbrev pub codes : String → Bytes
codes String.[] = []
codes (String.◌∷◌ c s) = code c ∷ codes s

-- A string as it is laid out, with its terminator.
abbrev pub c_str : Bytes → Bytes
c_str s = s ++ 0 ∷ []

-- No terminator inside.
abbrev pub IsText : Bytes → Type 0
IsText = All (λ b. b ≢ 0)

-- The string at the front of a buffer and what follows its terminator; `none` where the buffer
-- holds no terminator, and the source would read past its end.
unfoldable pub split_str : Bytes → Option (Bytes × Bytes)
split_str [] = none
split_str (b ∷ bs) =
    if b == 0
    then some ([], bs)
    else elim (split_str bs) [ none ↦ none | some (s, rest) ↦ some (b ∷ s, rest) ]

pub split_str-c_str : (s rest : Bytes) → IsText s → split_str (s ++ 0 ∷ rest) ≡ some (s, rest)
unfolding split_str
split_str-c_str [] rest h = refl
split_str-c_str (b ∷ s) rest h = ground (arith, split_str-c_str s rest h.1)

-- `strcmp(a, b) == 0`, and the equality of `std::string`.
unfoldable pub bytes_eq : Bytes → Bytes → Bool
bytes_eq [] [] = true
bytes_eq [] (b ∷ bs) = false
bytes_eq (a ∷ cs) [] = false
bytes_eq (a ∷ cs) (b ∷ bs) = (a == b) && bytes_eq cs bs

-- `memcmp(a, b) < 0`, the order of `std::string`.
unfoldable pub bytes_lt : Bytes → Bytes → Bool
bytes_lt [] [] = false
bytes_lt [] (b ∷ bs) = true
bytes_lt (a ∷ cs) [] = false
bytes_lt (a ∷ cs) (b ∷ bs) = (a == b) && bytes_lt cs bs || ltb a b

pub bytes_eq_refl : (s : Bytes) → bytes_eq s s ≡ true
unfolding bytes_eq
bytes_eq_refl [] = refl
bytes_eq_refl (a ∷ s) = ground (arith, bytes_eq_refl s)

pub bytes_eq_iff : (s t : Bytes) → (bytes_eq s t ≡ true) ↔ (s ≡ t)
unfolding bytes_eq
bytes_eq_iff [] [] = ground arith
bytes_eq_iff [] (b ∷ t) = ground arith
bytes_eq_iff (a ∷ s) [] = ground arith
bytes_eq_iff (a ∷ s) (b ∷ t) = ground (arith, bytes_eq_iff s t)

-- `pre` stands at the front of `s`.
unfoldable pub starts_with : Bytes → Bytes → Bool
starts_with [] s = true
starts_with (p ∷ pre) [] = false
starts_with (p ∷ pre) (b ∷ s) = (p == b) && starts_with pre s

-- `strstr(s, pat) != NULL`
unfoldable pub contains : Bytes → Bytes → Bool
contains pat [] = starts_with pat []
contains pat (b ∷ s) = starts_with pat (b ∷ s) || contains pat s

-- An unsigned 32-bit word in memory, and the word at the front of a buffer.
abbrev pub u32 : ℕ → ℕ
u32 n = n % 2 ^ 32

unfoldable pub le32 : ℕ → Bytes
le32 n = n % 256 ∷ n / 256 % 256 ∷ n / 65536 % 256 ∷ n / 16777216 % 256 ∷ []

unfoldable pub read32 : Bytes → Option (ℕ × Bytes)
read32 (a ∷ b ∷ c ∷ d ∷ rest) = some (a + 256 * b + 65536 * c + 16777216 * d, rest)
read32 _ = none

pub read32-le32 : (n : ℕ) (rest : Bytes) → n < 2 ^ 32 → read32 (le32 n ++ rest) ≡ some (n, rest)
unfolding read32 le32
read32-le32 n rest h = ground arith

pub length-le32 : (n : ℕ) → length (le32 n) ≡ 4
unfolding le32
length-le32 n = refl

pub get_or-IsByte : (s : Bytes) (i : ℕ) → IsBytes s → get_or s i 0 < 256
get_or-IsByte [] i h = omega arith
get_or-IsByte (b ∷ s) zero h = h.0
get_or-IsByte (b ∷ s) (suc i) h = get_or-IsByte s i h.1

pub take-IsBytes : (n : ℕ) (s : Bytes) → IsBytes s → IsBytes (take n s)
take-IsBytes zero s h = tt
take-IsBytes (suc n) [] h = tt
take-IsBytes (suc n) (b ∷ s) h = (h.0, take-IsBytes n s h.1)

pub drop-IsBytes : (n : ℕ) (s : Bytes) → IsBytes s → IsBytes (drop n s)
drop-IsBytes zero s h = h
drop-IsBytes (suc n) [] h = tt
drop-IsBytes (suc n) (b ∷ s) h = drop-IsBytes n s h.1

-- The last byte of a buffer that is not empty.
abbrev pub last_byte : Bytes → Option ℕ
last_byte [] = none
last_byte (b ∷ s) = some (get_or (b ∷ s) (length s) 0)

pub last_byte-append : (s : Bytes) (b : ℕ) → last_byte (s ++ b ∷ []) ≡ some b
last_byte-append [] b = refl
last_byte-append (a ∷ s) b =
    ap some (last_of (a ∷ s) (length (s ++ b ∷ [])) b (omega (arith, length-append s (b ∷ []))))
  where
    last_of : (s : Bytes) (n b : ℕ) → n ≡ length s → get_or (s ++ b ∷ []) n 0 ≡ b
    last_of [] zero b e = refl
    last_of [] (suc n) b e = absurd (omega arith)
    last_of (a ∷ s) zero b e = absurd (omega arith)
    last_of (a ∷ s) (suc n) b e = last_of s n b (omega arith)

-- The byte behind `pre`.
pub get_or-behind : (n a : ℕ) (pre rest : Bytes) → n ≡ length pre → get_or (pre ++ a ∷ rest) n 0 ≡ a
get_or-behind zero a [] rest e = refl
get_or-behind zero a (b ∷ pre) rest e = absurd (omega arith)
get_or-behind (suc n) a [] rest e = absurd (omega arith)
get_or-behind (suc n) a (b ∷ pre) rest e = get_or-behind n a pre rest (omega arith)

-- `%u` of `sprintf`, on fuel.
abbrev pub decimal_from : ℕ → ℕ → Bytes → Bytes
decimal_from zero n behind = behind
decimal_from (suc fuel) n behind =
    let behind' : Bytes = (48 + n % 10) ∷ behind in
    let longer = decimal_from fuel (n / 10) behind' in if ltb n 10 then behind' else longer

abbrev pub decimal : ℕ → Bytes
decimal n = decimal_from (suc n) n []
