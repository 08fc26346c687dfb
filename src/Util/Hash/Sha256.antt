-- ===== src/Util/Hash/Sha256.antt =====
-- SHA-256 (src/dev/util/AoHash.cpp): `Sha256Init`, `Sha256Update`, `Sha256Transform`,
-- `Sha256Final` and `CalcSha256`.
-- `ucData` is the list of its first `unDataLen` bytes; what stands behind them is never read.
pub mod Count
use aods.Base.{
  Bytes, List, [], bit_and, bit_or, bit_xor, get_or, if◌then◌else◌, length, ltb, replicate, suc,
  u32, zero, ℕ, ◌%◌, ◌*◌, ◌++◌, ◌+◌, ◌-◌, ◌/◌, ◌==◌, ◌^◌, ◌∷◌,
}

abbrev pub rot_right : ℕ → ℕ → ℕ
rot_right x n = bit_or (x / 2 ^ n) (u32 (x * 2 ^ (32 - n)))

abbrev pub bit_not : ℕ → ℕ
bit_not x = bit_xor x 0xffffffff

unfoldable pub ch : ℕ → ℕ → ℕ → ℕ
ch x y z = bit_xor (bit_and x y) (bit_and (bit_not x) z)

unfoldable pub maj : ℕ → ℕ → ℕ → ℕ
maj x y z = bit_xor (bit_xor (bit_and x y) (bit_and x z)) (bit_and y z)

unfoldable pub ep0 : ℕ → ℕ
ep0 x = bit_xor (bit_xor (rot_right x 2) (rot_right x 13)) (rot_right x 22)

unfoldable pub ep1 : ℕ → ℕ
ep1 x = bit_xor (bit_xor (rot_right x 6) (rot_right x 11)) (rot_right x 25)

unfoldable pub sig0 : ℕ → ℕ
sig0 x = bit_xor (bit_xor (rot_right x 7) (rot_right x 18)) (x / 2 ^ 3)

unfoldable pub sig1 : ℕ → ℕ
sig1 x = bit_xor (bit_xor (rot_right x 17) (rot_right x 19)) (x / 2 ^ 10)

-- The table `k`.
unfoldable pub round_constants : List ℕ
round_constants =
    0x428a2f98 ∷ 0x71374491 ∷ 0xb5c0fbcf ∷ 0xe9b5dba5 ∷ 0x3956c25b ∷ 0x59f111f1 ∷ 0x923f82a4
    ∷ 0xab1c5ed5 ∷ 0xd807aa98 ∷ 0x12835b01 ∷ 0x243185be ∷ 0x550c7dc3 ∷ 0x72be5d74 ∷ 0x80deb1fe
    ∷ 0x9bdc06a7 ∷ 0xc19bf174 ∷ 0xe49b69c1 ∷ 0xefbe4786 ∷ 0x0fc19dc6 ∷ 0x240ca1cc ∷ 0x2de92c6f
    ∷ 0x4a7484aa ∷ 0x5cb0a9dc ∷ 0x76f988da ∷ 0x983e5152 ∷ 0xa831c66d ∷ 0xb00327c8 ∷ 0xbf597fc7
    ∷ 0xc6e00bf3 ∷ 0xd5a79147 ∷ 0x06ca6351 ∷ 0x14292967 ∷ 0x27b70a85 ∷ 0x2e1b2138 ∷ 0x4d2c6dfc
    ∷ 0x53380d13 ∷ 0x650a7354 ∷ 0x766a0abb ∷ 0x81c2c92e ∷ 0x92722c85 ∷ 0xa2bfe8a1 ∷ 0xa81a664b
    ∷ 0xc24b8b70 ∷ 0xc76c51a3 ∷ 0xd192e819 ∷ 0xd6990624 ∷ 0xf40e3585 ∷ 0x106aa070 ∷ 0x19a4c116
    ∷ 0x1e376c08 ∷ 0x2748774c ∷ 0x34b0bcb5 ∷ 0x391c0cb3 ∷ 0x4ed8aa4a ∷ 0x5b9cca4f ∷ 0x682e6ff3
    ∷ 0x748f82ee ∷ 0x78a5636f ∷ 0x84c87814 ∷ 0x8cc70208 ∷ 0x90befffa ∷ 0xa4506ceb ∷ 0xbef9a3f7
    ∷ 0xc67178f2 ∷ []

pub record Words : Type 0 where
  pub a : ℕ
  pub b : ℕ
  pub c : ℕ
  pub d : ℕ
  pub e : ℕ
  pub f : ℕ
  pub g : ℕ
  pub h : ℕ

pub record Sha256Ctx : Type 0 where
  pub bytes : Bytes
  pub bit_len0 : ℕ
  pub bit_len1 : ℕ
  pub state : Words

-- The 16 words of a block, the last first, in front of those that are there.
unfoldable pub block_words : Bytes → List ℕ → List ℕ
block_words (p ∷ q ∷ r ∷ s ∷ block) ws =
    block_words block ((p * 2 ^ 24 + q * 2 ^ 16 + r * 2 ^ 8 + s) ∷ ws)
block_words _ ws = ws

-- The words behind them, the last first; `left` more.
unfoldable pub more_words : ℕ → List ℕ → List ℕ
more_words zero ws = ws
more_words (suc left) ws =
    more_words left
      (u32 (sig1 (get_or ws 1 0) + get_or ws 6 0 + sig0 (get_or ws 14 0) + get_or ws 15 0) ∷ ws)

unfoldable pub sha_round : ℕ → ℕ → Words → Words
sha_round k_i m_i w =
    let t1 = u32 (w.h + ep1 w.e + ch w.e w.f w.g + k_i + m_i) in
    let t2 = u32 (ep0 w.a + maj w.a w.b w.c) in
    record {
      a = u32 (t1 + t2);
      b = w.a;
      c = w.b;
      d = w.c;
      e = u32 (w.d + t1);
      f = w.e;
      g = w.f;
      h = w.g;
    }

-- The rounds from `i` on; `ws` holds the 64 words, the last first.
unfoldable pub sha_rounds : ℕ → ℕ → List ℕ → Words → Words
sha_rounds zero i ws w = w
sha_rounds (suc left) i ws w =
    sha_rounds left (i + 1) ws (sha_round (get_or round_constants i 0) (get_or ws (63 - i) 0) w)

unfoldable pub sha256_transform : Bytes → Words → Words
sha256_transform block s =
    let w = sha_rounds 64 0 (more_words 48 (block_words block [])) s in
    record {
      a = u32 (s.a + w.a);
      b = u32 (s.b + w.b);
      c = u32 (s.c + w.c);
      d = u32 (s.d + w.d);
      e = u32 (s.e + w.e);
      f = u32 (s.f + w.f);
      g = u32 (s.g + w.g);
      h = u32 (s.h + w.h);
    }

-- `DBL_INT_ADD` on the two halves of the bit count.
unfoldable pub dbl_int_add : ℕ → Sha256Ctx → Sha256Ctx
dbl_int_add n x = record x {
  bit_len0 = u32 (x.bit_len0 + n);
  bit_len1 = if ltb (0xffffffff - n) x.bit_len0 then u32 (x.bit_len1 + 1) else x.bit_len1;
}

unfoldable pub sha256_init : Sha256Ctx
sha256_init = record {
  bytes = [];
  bit_len0 = 0;
  bit_len1 = 0;
  state = record {
    a = 0x6a09e667;
    b = 0xbb67ae85;
    c = 0x3c6ef372;
    d = 0xa54ff53a;
    e = 0x510e527f;
    f = 0x9b05688c;
    g = 0x1f83d9ab;
    h = 0x5be0cd19;
  };
}

-- The body of the loop of `Sha256Update`, for one byte.
unfoldable pub update_byte : ℕ → Sha256Ctx → Sha256Ctx
update_byte byte x =
    let bytes' = x.bytes ++ byte ∷ [] in
    if length bytes' == 64
    then dbl_int_add 512 (record x { bytes = []; state = sha256_transform bytes' x.state })
    else record x { bytes = bytes' }

unfoldable pub sha256_update : Bytes → Sha256Ctx → Sha256Ctx
sha256_update [] x = x
sha256_update (byte ∷ s) x = sha256_update s (update_byte byte x)

abbrev pub be32 : ℕ → Bytes
be32 n = n / 2 ^ 24 % 256 ∷ n / 2 ^ 16 % 256 ∷ n / 2 ^ 8 % 256 ∷ n % 256 ∷ []

-- The first 56 bytes of the last block and the state that it is put on.
unfoldable pub pad_block : Sha256Ctx → Bytes × Words
pad_block x =
    let len = length x.bytes in
    if ltb len 56
    then (x.bytes ++ (0x80 ∷ replicate (55 - len) 0), x.state)
    else (replicate 56 0, sha256_transform (x.bytes ++ (0x80 ∷ replicate (63 - len) 0)) x.state)

unfoldable pub sha256_final : Sha256Ctx → Bytes
sha256_final x =
    let (front, s) = pad_block x in
    let count = dbl_int_add (length x.bytes * 8) x in
    let w = sha256_transform (front ++ (be32 count.bit_len1 ++ be32 count.bit_len0)) s in
    be32 w.a
    ++ (be32 w.b ++ (be32 w.c ++ (be32 w.d ++ (be32 w.e ++ (be32 w.f ++ (be32 w.g ++ be32 w.h))))))

-- `CalcSha256` up to the printing of the 32 bytes.
unfoldable pub calc_sha256 : Bytes → Bytes
calc_sha256 s = sha256_final (sha256_update s sha256_init)
