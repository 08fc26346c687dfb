-- ===== src/Util/Encrypt/Junk.antt =====
-- Two ciphers of the constructor of src/dev/util/AoEncrypt.cpp have the same tables, whatever their
-- memory held before.
use aods.Base.{
  Bytes, IsBytes, [], ap, ap₂, arith, get_or-IsByte, length, refl, sym, take-IsBytes, ℕ, ◌%◌, ◌+◌,
  ◌<◌, ◌∙◌, ◌∷◌, ◌≡◌, ◌≤◌,
}
use aods.Util.Encrypt.{
  Encrypt, decode, default, encode, encode_from, key_len, row_start, set_key, sk_dict_len,
}
use aods.Util.Encrypt.Laws.{
  decode-encode, default-IsInverse, default_table, row_start_lem, set_key-IsInverse,
}

-- Equal tables for encoding, and equal keys.
pub record SameCode (c e : Encrypt) : Type 0 where
  pub table : (i : ℕ) → i < sk_dict_len → c.en_sk_dict i ≡ e.en_sk_dict i
  pub same_key : c.key ≡ e.key

module _ {c e : Encrypt} (same : SameCode c e) (bytes : IsBytes c.key) where
  encode_from-SameCode :
      (n : ℕ) (buf : Bytes) → IsBytes buf → encode_from c n buf ≡ encode_from e n buf
  unfolding encode_from
  encode_from-SameCode n [] h = refl
  encode_from-SameCode n (b ∷ buf) h =
      let below : row_start c.key n + b < sk_dict_len =
        omega (arith, row_start_lem c.key n bytes, get_or-IsByte c.key (n % key_len) bytes, h.0) in
      ap₂ ◌∷◌
        (same.table (row_start c.key n + b) below
          ∙ ap (λ k. e.en_sk_dict (row_start k n + b)) same.same_key)
        (encode_from-SameCode (n + 1) buf h.1)

set_key-SameCode :
    (junk junk' : ℕ → ℕ) (k : Bytes)
    → SameCode (set_key k 16 (default junk)) (set_key k 16 (default junk'))
unfolding set_key default
set_key-SameCode junk junk' k = record {
  table = λ i p. default_table junk i p ∙ sym (default_table junk' i p);
  same_key = refl;
}

-- Two ciphers of the constructor with the same key of 16 bytes encode alike.
pub encode-junk :
    (junk junk' : ℕ → ℕ) (k buf : Bytes)
    → IsBytes k
    → IsBytes buf
    → encode (set_key k 16 (default junk)) buf ≡ encode (set_key k 16 (default junk')) buf
unfolding encode set_key
encode-junk junk junk' k buf h bytes =
    encode_from-SameCode (set_key-SameCode junk junk' k) (take-IsBytes key_len k h) 0 buf bytes

-- What one of them encodes, the other decodes.
pub decode-encode-junk :
    (junk junk' : ℕ → ℕ) (k buf : Bytes)
    → IsBytes k
    → key_len ≤ length k
    → IsBytes buf
    → decode (set_key k 16 (default junk')) (encode (set_key k 16 (default junk)) buf) ≡ buf
decode-encode-junk junk junk' k buf h whole bytes =
    ap (decode (set_key k 16 (default junk'))) (encode-junk junk junk' k buf h bytes)
    ∙ decode-encode (set_key-IsInverse (default-IsInverse junk') k 16 h whole) buf bytes
