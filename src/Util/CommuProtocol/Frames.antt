-- ===== src/Util/CommuProtocol/Frames.antt =====
-- One message of the stream protocol: what `EncodeMsg` lays out is what `GetContent` takes apart.
use aods.Base.{
  Bool-cases, Bytes, IsBytes, [], ap, append_assoc, ap₂, arith, get_or-append, if◌then◌else◌, inl,
  inr, le32, length, ltb, read32-le32, refl, some, suc, sym, take, u32, zero, ℕ, ◌%◌, ◌++◌, ◌+◌,
  ◌<◌, ◌^◌, ◌∷◌, ◌≡◌, ◌≤◌,
}
use aods.Util.CommuProtocol.{
  AoMsg, ao_msg_bytes, ao_msg_size, int_abs, lay_out, make_key, max_protocol_len, rand_stop,
  random_key, read_ao_msg, set_key_buf,
}
use aods.Util.Encrypt.{Encrypt, encode, encode_from, row_start, set_key}
use aods.Util.Encrypt.Laws.{IsInverse, length-encode, set_key-IsInverse}

-- Two ciphers with the same tables; the keys may differ.
pub record Agree (a b : Encrypt) : Type 0 where
  pub same_en : a.en_sk_dict ≡ b.en_sk_dict
  pub same_de : a.de_sk_dict ≡ b.de_sk_dict

pub length-ao_msg_bytes : (m : AoMsg) → length (ao_msg_bytes m) ≡ ao_msg_size
unfolding ao_msg_bytes le32
length-ao_msg_bytes m = refl

pub record Fits (m : AoMsg) : Type 0 where
  pub data_len_fits : m.data_len < 2 ^ 32
  pub key_code_fits : m.key_code < 2 ^ 32
  pub key_len_fits : m.key_len < 2 ^ 32

pub read_ao_msg-ao_msg_bytes :
    (m : AoMsg) (t : Bytes) → Fits m → read_ao_msg (ao_msg_bytes m ++ t) ≡ some m
unfolding read_ao_msg ao_msg_bytes
read_ao_msg-ao_msg_bytes m t f = rw (
  append_assoc (le32 m.data_len) (le32 m.key_code ++ le32 m.key_len) t,
  append_assoc (le32 m.key_code) (le32 m.key_len) t,
  read32-le32 m.data_len (le32 m.key_code ++ (le32 m.key_len ++ t)) f.data_len_fits,
  read32-le32 m.key_code (le32 m.key_len ++ t) f.key_code_fits,
  read32-le32 m.key_len t f.key_len_fits,
)

-- The key that is made depends on the key bytes alone, not on what follows them.
make_key-append :
    (code : ℕ) (key t : Bytes) (left n : ℕ)
    → 0 < length key
    → length key < 2 ^ 31
    → make_key code (length key) (key ++ t) left n ≡ make_key code (length key) key left n
unfolding make_key
make_key-append code key t zero n h k = refl
make_key-append code key t (suc left) n h k =
    let below : n % int_abs (length key) < length key = ground arith in
    ap₂ ◌∷◌ (ap (λ x. (code % 256 + x) % 256) (get_or-append key t _ 0 below))
      (make_key-append code key t left (n + 1) h k)

length-make_key :
    (code len : ℕ) (key : Bytes) (left n : ℕ) → length (make_key code len key left n) ≡ left
unfolding make_key
length-make_key code len key zero n = refl
length-make_key code len key (suc left) n = ap suc (length-make_key code len key left (n + 1))

make_key-IsBytes :
    (code len : ℕ) (key : Bytes) (left n : ℕ) → IsBytes (make_key code len key left n)
unfolding make_key
make_key-IsBytes code len key zero n = tt
make_key-IsBytes code len key (suc left) n =
    (omega arith, make_key-IsBytes code len key left (n + 1))

pub set_key_buf-IsInverse :
    (code len : ℕ) (key : Bytes) {c : Encrypt}
    → IsInverse c
    → IsInverse (set_key_buf code len key c)
unfolding set_key_buf
set_key_buf-IsInverse code len key {c} v =
    set_key-IsInverse v (make_key code len key 16 0) 16 (make_key-IsBytes code len key 16 0)
      (omega (arith, length-make_key code len key 16 0))

pub set_key_buf-Agree :
    (code len : ℕ) (key : Bytes) (c : Encrypt) → Agree c (set_key_buf code len key c)
unfolding set_key_buf set_key
set_key_buf-Agree code len key c = record { same_en = refl; same_de = refl }

encode_from_congr :
    (a b : Encrypt) (n : ℕ) (s : Bytes)
    → a.en_sk_dict ≡ b.en_sk_dict
    → a.key ≡ b.key
    → encode_from a n s ≡ encode_from b n s
unfolding encode_from
encode_from_congr a b n [] e k = refl
encode_from_congr a b n (x ∷ s) e k =
    rw (e, k)
      (ap (◌∷◌ (b.en_sk_dict (row_start b.key n + x))) (encode_from_congr a b (n + 1) s e k))

-- Ciphers with the same tables encode alike once the same key is installed.
pub encode-set_key_buf :
    (a b : Encrypt) (code : ℕ) (key t s : Bytes)
    → Agree a b
    → 0 < length key
    → length key < 2 ^ 31
    → encode (set_key_buf code (length key) key a) s
      ≡ encode (set_key_buf code (length key) (key ++ t) b) s
unfolding encode set_key_buf set_key
encode-set_key_buf a b code key t s g h k =
    encode_from_congr _ _ 0 s g.same_en (ap (take 16) (sym (make_key-append code key t 16 0 h k)))

length-random_key : (rand : ℕ → ℕ) (left n : ℕ) → length (random_key rand left n) ≡ left
unfolding random_key
length-random_key rand zero n = refl
length-random_key rand (suc left) n = ap suc (length-random_key rand left (n + 1))

-- A message as it stands on the stream: the header, the key and the enciphered data.
pub record Frame (ae : Encrypt) (s msg : Bytes) : Type 0 where
  pub key_code : ℕ
  pub key : Bytes
  pub body : Bytes
  pub laid_out :
      msg
      ≡ ao_msg_bytes (record {
        data_len = length s + ao_msg_size + length key;
        key_code = key_code;
        key_len = length key;
      })
        ++ (key ++ body)
  pub code_set : 0 < key_code
  pub code_fits : key_code < 2 ^ 32
  pub key_len_fits : length key ≤ 20
  pub keyed : 0 < length s → 0 < length key
  pub length_body : length body ≡ length s
  pub enciphered : 0 < length s → body ≡ encode (set_key_buf key_code (length key) key ae) s

pub lay_out-Frame :
    (rand : ℕ → ℕ) (s : Bytes) (ae : Encrypt)
    → length s + 32 ≤ max_protocol_len
    → Frame ae s (lay_out rand s ae).1
unfolding lay_out
lay_out-Frame rand s ae h = elim (Bool-cases (ltb (length s) 1)) [
  | inl empty ↦ record {
    key_code = rand 0 % 0x20 + rand_stop;
    key = random_key rand key_len 0;
    body = s;
    laid_out = rw (empty, length-random_key rand key_len 0, no_wrap);
    code_set = omega arith;
    code_fits = omega arith;
    key_len_fits = rw (length-random_key rand key_len 0) short;
    keyed = λ p. ground arith;
    length_body = refl;
    enciphered = λ p. ground arith;
  }
  | inr full ↦ record {
    key_code = rand 0 % 0x20 + rand_stop;
    key = random_key rand key_len 0;
    body =
        encode (set_key_buf (rand 0 % 0x20 + rand_stop) key_len (random_key rand key_len 0) ae) s;
    laid_out = rw (full, length-random_key rand key_len 0, no_wrap);
    code_set = omega arith;
    code_fits = omega arith;
    key_len_fits = rw (length-random_key rand key_len 0) short;
    keyed = λ p. rw (length-random_key rand key_len 0) (ground arith);
    length_body = length-encode _ s;
    enciphered = λ p. rw (length-random_key rand key_len 0);
  }
]
  where
    key_len : ℕ
    key_len = if ltb 20 (length s) then 20 else length s

    short : key_len ≤ 20
    short = ground arith

    no_wrap : u32 (length s + ao_msg_size + key_len) ≡ length s + ao_msg_size + key_len
    no_wrap = omega (arith, short)
