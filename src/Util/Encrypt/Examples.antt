-- ===== src/Util/Encrypt/Examples.antt =====
-- Runs of the cipher, and its laws at concrete tables, keys and buffers.
use aods.Base.{[], arith, codes, refl, replicate, ℕ, ◌%◌, ◌+◌, ◌∷◌, ◌≡◌}
use aods.Util.Encrypt.{Encrypt, decode, default, encode, encode_from, row_start}
use aods.Util.Encrypt.Laws.{IsSkDict, decode-encode, default-IsInverse}

abbrev zeros : ℕ → ℕ
zeros n = 0

-- A cipher with the constructor's tables on the first row, given by its closed form.
abbrev small : Encrypt
small = record {
  en_sk_dict = λ n. (n + 10) % 256;
  de_sk_dict = λ n. (n + 246) % 256;
  key = replicate 16 1;
}

small_run : encode small (250 ∷ 1 ∷ []) ≡ 4 ∷ 11 ∷ []
unfolding encode encode_from row_start
small_run = refl

decode-encode_example : decode (default zeros) (encode (default zeros) (codes "abc")) ≡ codes "abc"
decode-encode_example = decode-encode (default-IsInverse zeros) (codes "abc") (omega arith)

rotate-IsSkDict : IsSkDict (λ n. (n + 1) % 256)
rotate-IsSkDict = record {
  entry_byte = λ i p. omega arith;
  row_injective = λ i j p q e f. omega arith;
}
