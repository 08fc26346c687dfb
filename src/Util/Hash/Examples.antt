-- ===== src/Util/Hash/Examples.antt =====
-- Checksums of known texts, and the laws at concrete buffers.
use aods.Base.{[], arith, codes, refl, take, ◌∷◌, ◌≡◌}
use aods.Util.Hash.Sha256.{
  block_words, calc_sha256, ch, dbl_int_add, ep0, ep1, maj, more_words, pad_block, round_constants,
  sha256_final, sha256_init, sha256_transform, sha256_update, sha_round, sha_rounds, sig0, sig1,
  update_byte,
}
use aods.Util.Hash.Crc.Table.{crc_table}
use aods.Util.Hash.Crc.Reference.{calc_crc32-eq-crc32, crc32}
use aods.Util.Hash.Crc.{calc_crc32, crc_do1, crc_octets, crc_tail}
use aods.Util.Hash.Sha256.Count.{IsCounted}

check_value : calc_crc32 0 (codes "123456789") ≡ 0xcbf43926
unfolding calc_crc32 crc_octets crc_tail crc_do1 crc_table
check_value = refl

calc_crc32-eq-crc32_example : calc_crc32 0 (codes "123456789") ≡ crc32 0 (codes "123456789")
calc_crc32-eq-crc32_example = calc_crc32-eq-crc32 0 (codes "123456789") (omega arith)

-- The digest of "abc" starts with ba7816bf.
abc_digest :
    take 8 (calc_sha256 (codes "abc")) ≡ 0xba ∷ 0x78 ∷ 0x16 ∷ 0xbf ∷ 0x8f ∷ 0x01 ∷ 0xcf ∷ 0xea ∷ []
unfolding ch maj ep0 ep1 sig0 sig1 round_constants block_words more_words sha_round sha_rounds
    sha256_transform dbl_int_add sha256_init update_byte sha256_update pad_block sha256_final
    calc_sha256
abc_digest = refl

sha256_init-IsCounted : IsCounted 0 sha256_init
unfolding sha256_init
sha256_init-IsCounted = record { held = omega arith; low = omega arith; counted = omega arith }
