-- ===== src/Util/Encrypt/Laws.antt =====
-- `Decode` undoes `Encode`, for every table whose rows are injective and every key.
use aods.Base.{
  ==_iff, Bool-cases, Bytes, IsBytes, [], all_below, all_below_sound, ap, ap₂, arith, bit_and,
  get_or, get_or-IsByte, inl, inr, length, length-take, refl, suc, take-IsBytes, true, zero, ℕ, ◌%◌,
  ◌*◌, ◌+◌, ◌/◌, ◌<◌, ◌==◌, ◌^◌, ◌∷◌, ◌≡◌, ◌≤◌,
}
use aods.Util.Encrypt.{
  Encrypt, decode, decode_from, default, default_dict, default_key, encode, encode_from, fill_dict,
  key_len, row_start, set_key, set_sk_dict, sk_dict_len, store_entry,
}

-- A table whose entries are bytes, no two of one row being equal.
pub record IsSkDict (dict : ℕ → ℕ) : Type 0 where
  pub entry_byte : (i : ℕ) → i < sk_dict_len → dict i < 256
  pub row_injective :
      (i j : ℕ) → i < sk_dict_len → j < sk_dict_len → i / 256 ≡ j / 256 → dict i ≡ dict j → i ≡ j

-- The decoding table undoes the encoding table row by row, and the key is whole.
pub record IsInverse (c : Encrypt) : Type 0 where
  pub en_byte : (i : ℕ) → i < sk_dict_len → c.en_sk_dict i < 256
  pub undoes : (i : ℕ) → i < sk_dict_len → c.de_sk_dict (i / 256 * 256 + c.en_sk_dict i) ≡ i % 256
  pub key_bytes : IsBytes c.key
  pub key_whole : length c.key ≡ key_len

-- What holds of the tables when the loop stands at index `n`.
record Filled (dict : ℕ → ℕ) (n : ℕ) (c : Encrypt) : Type 0 where
  en : (i : ℕ) → i < n → c.en_sk_dict i ≡ dict i
  de : (i : ℕ) → i < n → c.de_sk_dict (i / 256 * 256 + dict i) ≡ i % 256

module _ {dict : ℕ → ℕ} (d : IsSkDict dict) where
  store_entry-Filled :
      (n : ℕ) (c : Encrypt)
      → n < sk_dict_len
      → Filled dict n c
      → Filled dict (n + 1) (store_entry dict n c)
  unfolding store_entry
  store_entry-Filled n c h f = record {
    en = λ i p. ground (arith, f.en i);
    de = λ i p. ground (arith, f.de i, d.entry_byte i, d.entry_byte n, d.row_injective i n);
  }

  fill_dict-Filled :
      (left n : ℕ) (c : Encrypt)
      → n + left ≡ sk_dict_len
      → Filled dict n c
      → Filled dict sk_dict_len (fill_dict left n dict c)
  unfolding fill_dict
  fill_dict-Filled zero n c e f = record {
    en = λ i p. f.en i (omega arith);
    de = λ i p. f.de i (omega arith);
  }
  fill_dict-Filled (suc left) n c e f =
      fill_dict-Filled left (n + 1) (store_entry dict n c) (omega arith)
        (store_entry-Filled n c (omega arith) f)

  fill_dict_lem : (c : Encrypt) → Filled dict sk_dict_len (fill_dict sk_dict_len 0 dict c)
  fill_dict_lem c =
      fill_dict-Filled sk_dict_len 0 c (omega arith)
        (record { en = λ i p. elim p [ ]; de = λ i p. elim p [ ] })

-- The shift and the mask of the index are the product by 256.
row_table : all_below 256 (λ x. bit_and (x * 2 ^ 8) 0xFF00 == x * 256) ≡ true
unfolding all_below
row_table = refl

pub row_start_lem : (k : Bytes) (n : ℕ) → IsBytes k → row_start k n ≡ get_or k (n % key_len) 0 * 256
unfolding row_start
row_start_lem k n h =
    (==_iff _ _).0
      (all_below_sound 256 _ (get_or k (n % key_len) 0) row_table (get_or-IsByte k _ h))

module _ {c : Encrypt} (v : IsInverse c) where
  decode_from-encode_from :
      (n : ℕ) (buf : Bytes) → IsBytes buf → decode_from c n (encode_from c n buf) ≡ buf
  unfolding decode_from encode_from
  decode_from-encode_from n [] h = refl
  decode_from-encode_from n (b ∷ buf) h =
      ap₂ ◌∷◌
        (rw (row_start_lem c.key n v.key_bytes) (
          ground (
            arith,
            h.0,
            get_or-IsByte c.key (n % key_len) v.key_bytes,
            v.undoes (get_or c.key (n % key_len) 0 * 256 + b),
          )))
        (decode_from-encode_from (n + 1) buf h.1)

  encode_from-IsBytes : (n : ℕ) (buf : Bytes) → IsBytes buf → IsBytes (encode_from c n buf)
  unfolding encode_from
  encode_from-IsBytes n [] h = tt
  encode_from-IsBytes n (b ∷ buf) h = (
    rw (row_start_lem c.key n v.key_bytes) (
        v.en_byte (get_or c.key (n % key_len) 0 * 256 + b)
          (omega (arith, h.0, get_or-IsByte c.key (n % key_len) v.key_bytes))),
    encode_from-IsBytes (n + 1) buf h.1,
  )

  -- Decoding undoes encoding, whatever the tables and the key, as long as the decoding table
  -- inverts the rows of the encoding table and the key has its 16 bytes.
  pub decode-encode : (buf : Bytes) → IsBytes buf → decode c (encode c buf) ≡ buf
  unfolding decode encode
  decode-encode buf h = decode_from-encode_from 0 buf h

  pub encode-IsBytes : (buf : Bytes) → IsBytes buf → IsBytes (encode c buf)
  unfolding encode
  encode-IsBytes buf h = encode_from-IsBytes 0 buf h

  -- Installing a key keeps the tables inverse; a key of another length changes nothing.
  pub set_key-IsInverse :
      (k : Bytes) (len : ℕ) → IsBytes k → key_len ≤ length k → IsInverse (set_key k len c)
  unfolding set_key
  set_key-IsInverse k len h whole = ground (
    arith,
    v.en_byte,
    v.undoes,
    v.key_bytes,
    v.key_whole,
    take-IsBytes key_len k h,
    length-take key_len k,
  )

key-fill_dict : (left n : ℕ) (dict : ℕ → ℕ) (e : Encrypt) → (fill_dict left n dict e).key ≡ e.key
unfolding fill_dict store_entry
key-fill_dict zero n dict e = refl
key-fill_dict (suc left) n dict e = key-fill_dict left (n + 1) dict (store_entry dict n e)

pub length-encode_from :
    (c : Encrypt) (n : ℕ) (buf : Bytes) → length (encode_from c n buf) ≡ length buf
unfolding encode_from
length-encode_from c n [] = refl
length-encode_from c n (b ∷ buf) = ap suc (length-encode_from c (n + 1) buf)

pub length-encode : (c : Encrypt) (buf : Bytes) → length (encode c buf) ≡ length buf
unfolding encode
length-encode c buf = length-encode_from c 0 buf

module _ {dict : ℕ → ℕ} (d : IsSkDict dict) where
  Filled-IsInverse :
      (c : Encrypt)
      → Filled dict sk_dict_len c
      → IsBytes c.key
      → length c.key ≡ key_len
      → IsInverse c
  Filled-IsInverse c f h e = record {
    en_byte = λ i p. ground (arith, f.en i, d.entry_byte i);
    undoes = λ i p. ground (arith, f.en i, f.de i);
    key_bytes = h;
    key_whole = e;
  }

  -- Installing a table whose rows are injective makes the tables inverse and keeps the key; a
  -- table of another length changes nothing.
  pub set_sk_dict-IsInverse :
      (len : ℕ) {c : Encrypt} → IsInverse c → IsInverse (set_sk_dict dict len c)
  unfolding set_sk_dict
  set_sk_dict-IsInverse len {c} v = elim (Bool-cases (len == sk_dict_len)) [
    | inl e ↦ rw e (
        Filled-IsInverse (fill_dict sk_dict_len 0 dict c) (fill_dict_lem d c)
          (rw (key-fill_dict sk_dict_len 0 dict c) v.key_bytes)
          (rw (key-fill_dict sk_dict_len 0 dict c) v.key_whole))
    | inr e ↦ rw e v
  ]

default_dict-IsSkDict : IsSkDict default_dict
unfolding default_dict
default_dict-IsSkDict = record {
  entry_byte = λ i p. omega arith;
  row_injective = λ i j p q e f. omega arith;
}

-- The constructor leaves tables that undo one another and a whole key, whatever the memory held.
pub default-IsInverse : (junk : ℕ → ℕ) → IsInverse (default junk)
unfolding default default_key
default-IsInverse junk =
    Filled-IsInverse default_dict-IsSkDict (default junk)
      (record {
        en = (fill_dict_lem default_dict-IsSkDict fresh).en;
        de = (fill_dict_lem default_dict-IsSkDict fresh).de;
      })
      (omega arith) refl
  where
    fresh : Encrypt
    fresh = record { en_sk_dict = junk; de_sk_dict = junk; key = [] }

pub default_table :
    (junk : ℕ → ℕ) (i : ℕ) → i < sk_dict_len → (default junk).en_sk_dict i ≡ default_dict i
unfolding default
default_table junk i p =
    (fill_dict_lem default_dict-IsSkDict
        (record { en_sk_dict = junk; de_sk_dict = junk; key = [] })).en
      i p
