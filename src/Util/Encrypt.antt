-- ===== src/Util/Encrypt.antt =====
-- `CAoEncrypt` (src/dev/util/AoEncrypt.h, AoEncrypt.cpp): a substitution cipher that keeps, for
-- each value of a key byte, a table of 256 bytes and the table that undoes it.
-- The two arrays of 65536 bytes are functions of the index; what `malloc` left in them is the
-- argument `junk`.
pub mod Laws
pub mod Junk
mod Examples
use aods.Base.{
  Bytes, [], bit_and, get_or, if◌then◌else◌, suc, take, zero, ℕ, ◌%◌, ◌*◌, ◌+◌, ◌/◌, ◌==◌, ◌^◌, ◌∷◌,
}

abbrev pub sk_dict_len : ℕ
sk_dict_len = 65536

abbrev pub key_len : ℕ
key_len = 16

pub record Encrypt : Type 0 where
  pub en_sk_dict : ℕ → ℕ
  pub de_sk_dict : ℕ → ℕ
  pub key : Bytes

-- An assignment to one element of an array.
abbrev pub update : (ℕ → ℕ) → ℕ → ℕ → ℕ → ℕ
update f i v j = if j == i then v else f j

-- The body of the loops of `SetSkDict` and `Default`, at index `n`.
pub store_entry : (ℕ → ℕ) → ℕ → Encrypt → Encrypt
store_entry dict n c = record c {
  en_sk_dict = update c.en_sk_dict n (dict n);
  de_sk_dict = update c.de_sk_dict (n / 256 * 256 + dict n) (n % 256);
}

-- The loop from index `n`, with `left` rounds left.
pub fill_dict : ℕ → ℕ → (ℕ → ℕ) → Encrypt → Encrypt
fill_dict zero n dict c = c
fill_dict (suc left) n dict c = fill_dict left (n + 1) dict (store_entry dict n c)

pub set_sk_dict : (ℕ → ℕ) → ℕ → Encrypt → Encrypt
set_sk_dict sk_dict len c = if len == sk_dict_len then fill_dict sk_dict_len 0 sk_dict c else c

unfoldable pub set_key : Bytes → ℕ → Encrypt → Encrypt
set_key k len c = if len == key_len then record c { key = take key_len k } else c

-- `(unsigned char)0x35 + n` for the indices from `n` on.
pub default_key : ℕ → ℕ → Bytes
default_key zero n = []
default_key (suc left) n = (0x35 + n) % 256 ∷ default_key left (n + 1)

pub default_dict : ℕ → ℕ
default_dict n = (n + 10) % 256

-- `Default`, which the constructor calls.
pub default : (ℕ → ℕ) → Encrypt
default junk =
    record (fill_dict sk_dict_len 0 default_dict
      (record { en_sk_dict = junk; de_sk_dict = junk; key = [] })) { key = default_key key_len 0 }

-- The row of the tables that a key byte chooses.
pub row_start : Bytes → ℕ → ℕ
row_start k n = bit_and (get_or k (n % key_len) 0 * 2 ^ 8) 0xFF00

-- `Encode` and `Decode` from index `n` of the buffer on.
unfoldable pub encode_from : Encrypt → ℕ → Bytes → Bytes
encode_from c n [] = []
encode_from c n (b ∷ buf) = c.en_sk_dict (row_start c.key n + b) ∷ encode_from c (n + 1) buf

pub decode_from : Encrypt → ℕ → Bytes → Bytes
decode_from c n [] = []
decode_from c n (b ∷ buf) = c.de_sk_dict (row_start c.key n + b) ∷ decode_from c (n + 1) buf

unfoldable pub encode : Encrypt → Bytes → Bytes
encode c buf = encode_from c 0 buf

unfoldable pub decode : Encrypt → Bytes → Bytes
decode c buf = decode_from c 0 buf
