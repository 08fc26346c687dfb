-- ===== src/Util/Hash/Sha256/Count.antt =====
-- The bit count and the bytes held by a running SHA-256.
use aods.Base.{
  ==_iff, Bool-cases, Bytes, [], arith, inl, inr, length, length-append, ℕ, ◌*◌, ◌++◌, ◌+◌, ◌<◌,
  ◌==◌, ◌^◌, ◌∷◌, ◌≡◌,
}
use aods.Util.Hash.Sha256.{Sha256Ctx, dbl_int_add, sha256_update, update_byte}

-- After `n` bytes: less than a block is held, and the two words of the count with the bits held
-- make `8 * n`.
pub record IsCounted (n : ℕ) (x : Sha256Ctx) : Type 0 where
  pub held : length x.bytes < 64
  pub low : x.bit_len0 < 2 ^ 32
  pub counted : x.bit_len0 + 2 ^ 32 * x.bit_len1 + 8 * length x.bytes ≡ 8 * n

update_byte-IsCounted :
    (byte n : ℕ) (x : Sha256Ctx)
    → n < 2 ^ 60
    → IsCounted n x
    → IsCounted (n + 1) (update_byte byte x)
unfolding update_byte dbl_int_add
update_byte-IsCounted byte n x small v = elim (Bool-cases (length (x.bytes ++ byte ∷ []) == 64)) [
  | inl e ↦ rw e (record {
    held = omega arith;
    low = omega arith;
    counted =
        ground
          (arith, v.low, v.held, v.counted, (==_iff _ _).0 e, length-append x.bytes (byte ∷ []));
  })
  | inr e ↦ rw e (record {
    held = ground (arith, v.held, length-append x.bytes (byte ∷ []));
    low = v.low;
    counted = omega (arith, v.counted, length-append x.bytes (byte ∷ []));
  })
]

-- Feeding `s` keeps less than a block and the count in step with the number of bytes fed, as long
-- as that stays below 2 ^ 60.
pub sha256_update-IsCounted :
    (s : Bytes) (n : ℕ) (x : Sha256Ctx)
    → n + length s < 2 ^ 60
    → IsCounted n x
    → IsCounted (n + length s) (sha256_update s x)
unfolding sha256_update
sha256_update-IsCounted [] n x small v = record {
  held = v.held;
  low = v.low;
  counted = omega (arith, v.counted);
}
sha256_update-IsCounted (byte ∷ s) n x small v =
    let rest =
      sha256_update-IsCounted s (n + 1) (update_byte byte x) (omega arith)
        (update_byte-IsCounted byte n x (omega arith) v) in
    record { held = rest.held; low = rest.low; counted = omega (arith, rest.counted) }
