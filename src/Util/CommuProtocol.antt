-- ===== src/Util/CommuProtocol.antt =====
-- `CAoCommuProtocol` (src/dev/util/AoCommuProtocol.h, AoCommuProtocol.cpp): messages on a byte
-- stream, each behind the header AO_MSG (src/dev/util/AoDef.h) with its length, a key code, the
-- length of a key and the key, the data enciphered.
-- An `int` is its 32-bit pattern. `malloc` is the allocator and `rand` the sequence of values that
-- `rand()` returns after `srand`.
pub mod Frames
pub mod Receive
pub mod Deliver
mod Examples
use aods.Base.{
  Bool, Bytes, Option, [], and_then, drop, get_or, if◌then◌else◌, le32, leb, length, ltb, none,
  read32, some, suc, take, u32, zero, ℕ, ◌%◌, ◌*◌, ◌++◌, ◌+◌, ◌-◌, ◌==◌, ◌^◌, ◌||◌, ◌∷◌,
}
use aods.Util.Encrypt.{Encrypt, decode, default, encode, set_key}
use aods.Util.MemCache.{
  MemCache, append_buf, append_room, block_of, create, overwrite, remove, reset,
}

abbrev pub ao_msg_size : ℕ
ao_msg_size = 12

abbrev pub max_protocol_len : ℕ
max_protocol_len = 1024 * 1024

abbrev pub step_append_size : ℕ
step_append_size = 10240

pub record CommuProtocol : Type 0 where
  pub decode_amc : MemCache
  pub encode_amc : MemCache
  pub ae : Encrypt

-- AO_MSG up to `szKeyData`.
pub record AoMsg : Type 0 where
  pub data_len : ℕ
  pub key_code : ℕ
  pub key_len : ℕ

-- `<` and `+` on `int`, two's complement.
abbrev pub int_lt : ℕ → ℕ → Bool
int_lt a b = ltb ((a + 2 ^ 31) % 2 ^ 32) ((b + 2 ^ 31) % 2 ^ 32)

abbrev pub int_add : ℕ → ℕ → ℕ
int_add a b = (a + b) % 2 ^ 32

abbrev pub int_sub : ℕ → ℕ → ℕ
int_sub a b = (a + 2 ^ 32 - b) % 2 ^ 32

-- What a divisor's remainder sees of an `int`: `n % k` for `n` not negative.
abbrev pub int_abs : ℕ → ℕ
int_abs k = if ltb k (2 ^ 31) then k else 2 ^ 32 - k

-- The header at the front of a buffer; `none` if it is not there whole.
pub read_ao_msg : Bytes → Option AoMsg
read_ao_msg s = and_then (read32 s) λ (data_len, s1). and_then (read32 s1) λ (key_code, s2).
    and_then (read32 s2)
      λ (key_len, s3). some (record { data_len = data_len; key_code = key_code; key_len = key_len })

pub ao_msg_bytes : AoMsg → Bytes
ao_msg_bytes m = le32 m.data_len ++ (le32 m.key_code ++ le32 m.key_len)

-- The 16 key bytes that `SetKey` makes from the code and the key, for the indices from `n` on.
pub make_key : ℕ → ℕ → Bytes → ℕ → ℕ → Bytes
make_key key_code key_len key_buf zero n = []
make_key key_code key_len key_buf (suc left) n =
    (key_code % 256 + get_or key_buf (n % int_abs key_len) 0) % 256
    ∷ make_key key_code key_len key_buf left (n + 1)

-- `SetKey`, for a length that is not 0.
pub set_key_buf : ℕ → ℕ → Bytes → Encrypt → Encrypt
set_key_buf key_code key_len key_buf ae = set_key (make_key key_code key_len key_buf 16 0) 16 ae

-- What a call of `GetContent` comes to. `fault` is a division by zero, or an access in front of
-- the buffer or behind it.
pub data Content : Type 0 where
  need_more : Content
  format_error : Content
  content : Bytes → Content
  fault : Content

-- The deciphering in place, and the content: the `len` bytes at `off` in the block. A negative
-- `len` is not deciphered, and read as `unsigned int` it passes the end of the block.
unfoldable pub open_content : CommuProtocol → AoMsg → ℕ → ℕ → Bytes → CommuProtocol × Content
open_content p m off len block =
    if len == 0
    then (p, content [])
    else if leb (2 ^ 31) len || ltb (length block) (off + len)
    then (p, fault)
    else if m.key_code == 0
    then (p, content (take len (drop off block)))
    else if m.key_len == 0
    then (p, fault)
    else (let ae = set_key_buf m.key_code m.key_len (drop ao_msg_size block) p.ae in
        let plain = decode ae (take len (drop off block)) in
        (
          record p {
            decode_amc = record p.decode_amc { cache = some (overwrite off plain block) };
            ae = ae;
          },
          content plain,
        ))

-- `GetContent` once the header is read.
unfoldable pub check_content : CommuProtocol → AoMsg → CommuProtocol × Content
check_content p m =
    if int_lt max_protocol_len m.data_len || int_lt m.data_len (int_add m.key_len ao_msg_size)
    then (p, format_error)
    else if int_lt p.decode_amc.cache_off m.data_len
    then (p, need_more)
    else open_content p m (int_add ao_msg_size m.key_len)
        (int_sub (int_sub m.data_len ao_msg_size) m.key_len) (block_of p.decode_amc.cache)

abbrev pub content_behind : CommuProtocol → Option AoMsg → CommuProtocol × Content
content_behind p none = (p, fault)
content_behind p (some m) = check_content p m

unfoldable pub get_content : CommuProtocol → CommuProtocol × Content
get_content p =
    if ltb p.decode_amc.cache_off ao_msg_size
    then (p, need_more)
    else content_behind p (read_ao_msg (block_of p.decode_amc.cache))

abbrev pub move_past : CommuProtocol → Option AoMsg → CommuProtocol
move_past p none = p
move_past p (some m) = record p { decode_amc = remove 0 m.data_len p.decode_amc }

unfoldable pub move_next : CommuProtocol → CommuProtocol
move_next p = move_past p (read_ao_msg (block_of p.decode_amc.cache))

-- The constructor's key, `(unsigned char)0xBC + n` for the indices from `n` on.
pub protocol_key : ℕ → ℕ → Bytes
protocol_key zero n = []
protocol_key (suc left) n = (0xBC + n) % 256 ∷ protocol_key left (n + 1)

pub new_protocol : (ℕ → Option Bytes) → (ℕ → ℕ) → ℕ → CommuProtocol
new_protocol malloc junk cache_size = record {
  decode_amc = create malloc cache_size step_append_size;
  encode_amc = create malloc cache_size step_append_size;
  ae = set_key (protocol_key 16 0) 16 (default junk);
}

pub reset_protocol : CommuProtocol → CommuProtocol
reset_protocol p = record p { decode_amc = reset p.decode_amc; encode_amc = reset p.encode_amc }

unfoldable pub append_decode_data :
    (ℕ → Option Bytes) → Bytes → CommuProtocol → CommuProtocol × Bool
append_decode_data malloc s p =
    let (amc, done) = append_buf malloc s p.decode_amc in (record p { decode_amc = amc }, done)

abbrev pub rand_start : ℕ
rand_start = 0x3f

abbrev pub rand_stop : ℕ
rand_stop = 0xaf

-- The key bytes from index `n` on; `rand` is called once for the code and then for each byte.
pub random_key : (ℕ → ℕ) → ℕ → ℕ → Bytes
random_key rand zero n = []
random_key rand (suc left) n =
    (rand (n + 1) % (rand_stop - rand_start) + rand_start) ∷ random_key rand left (n + 1)

-- The bytes that `EncodeMsg` lays out and the cipher that it leaves.
unfoldable pub lay_out : (ℕ → ℕ) → Bytes → Encrypt → Encrypt × Bytes
lay_out rand s ae =
    let key_len = if ltb 20 (length s) then 20 else length s in
    let key_code = rand 0 % 0x20 + rand_stop in
    let key = random_key rand key_len 0 in
    let head = ao_msg_bytes (record {
      data_len = u32 (length s + ao_msg_size + key_len);
      key_code = key_code;
      key_len = key_len;
    }) in
    if ltb (length s) 1
    then (ae, head ++ (key ++ s))
    else (let ae' = set_key_buf key_code key_len key ae in (ae', head ++ (key ++ encode ae' s)))

-- `EncodeMsg` with the message to send, `none` for NULL.
pub encode_msg : (ℕ → Option Bytes) → (ℕ → ℕ) → Bytes → CommuProtocol → CommuProtocol × Option Bytes
encode_msg malloc rand s p =
    let (ae', msg) = lay_out rand s p.ae in
    let (amc, done) = append_room malloc (length msg) (reset p.encode_amc) in
    elim amc.cache [
      | none ↦ (record p { encode_amc = amc }, none)
      | some block ↦ (
        record p { encode_amc = record amc { cache = some (overwrite 0 msg block) }; ae = ae' },
        some msg,
      )
    ]
