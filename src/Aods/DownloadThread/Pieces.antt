-- ===== src/Aods/DownloadThread/Pieces.antt =====
-- The pieces in which src/dev/aods/DownloadThread.cpp reads a file, and the cipher on each of them.
use mathlib.Core.Path.{subst}
use aods.Base.{
  All, All-append, Bool-cases, Bytes, IsByte, IsBytes, List, [], ap, append-nil, ap₂, arith, c_str,
  drop, drop-IsBytes, drop-append_self, drop-of_le, false, inl, inr, length, length-append,
  length-drop, length-take, le→ltb, ltb, refl, some, suc, sym, take, take-IsBytes, take-append-drop,
  take-append_self, take-of_le, true, zero, ℕ, ◌*◌, ◌++◌, ◌+◌, ◌<◌, ◌==◌, ◌∙◌, ◌∷◌, ◌≡◌, ◌≤◌,
}
use aods.Aods.DownloadThread.{chunks, decode_all, decrypt_file, reads}
use aods.Util.Encrypt.{Encrypt, default, encode, key_len, set_key}
use aods.Util.Encrypt.Laws.{length-encode}
use aods.Util.FileControl.Crc3.{contents}
use aods.Util.Encrypt.Junk.{decode-encode-junk}

-- All pieces but the last one are full, and none is empty.
abbrev pub IsCut : ℕ → List Bytes → Type 0
IsCut cap [] = Unit
IsCut cap (p ∷ []) = (0 < length p) × (length p ≤ cap)
IsCut cap (p ∷ q ∷ ps) = (length p ≡ cap) × IsCut cap (q ∷ ps)

-- What encodes a file piece by piece.
abbrev pub encode_pieces : Encrypt → List Bytes → List Bytes
encode_pieces c [] = []
encode_pieces c (piece ∷ pieces) = encode c piece ∷ encode_pieces c pieces

module _ (cap : ℕ) (some_cap : 0 < cap) where
  cap_test : (cap == 0) ≡ false
  cap_test = ground arith

  -- The pieces are those of the file.
  pub contents-chunks : (fuel : ℕ) (s : Bytes) → length s ≤ fuel → contents (chunks cap fuel s) ≡ s
  unfolding chunks
  contents-chunks zero [] le = refl
  contents-chunks zero (b ∷ s) le = absurd (omega arith)
  contents-chunks (suc fuel) [] le = refl
  contents-chunks (suc fuel) (b ∷ s) le = rw cap_test (
      ap (λ z. take cap (b ∷ s) ++ z)
        (contents-chunks fuel (drop cap (b ∷ s)) (omega (arith, length-drop cap (b ∷ s))))
      ∙ take-append-drop cap (b ∷ s))

  chunks-rest :
      (fuel : ℕ) (p s : Bytes)
      → 0 < length p
      → length p ≡ cap
      → chunks cap (suc fuel) (p ++ s) ≡ p ∷ chunks cap fuel s
  unfolding chunks
  chunks-rest fuel [] s pos e = absurd (omega arith)
  chunks-rest fuel (b ∷ p) s pos e =
      rw (cap_test, take-append_self cap (b ∷ p) s (sym e), drop-append_self cap (b ∷ p) s (sym e))

  chunks-last :
      (fuel : ℕ) (p : Bytes) → 0 < length p → length p ≤ cap → chunks cap (suc fuel) p ≡ p ∷ []
  unfolding chunks
  chunks-last fuel [] pos le = absurd (omega arith)
  chunks-last zero (b ∷ p) pos le = rw (cap_test, take-of_le cap (b ∷ p) le)
  chunks-last (suc fuel) (b ∷ p) pos le =
      rw (cap_test, take-of_le cap (b ∷ p) le, drop-of_le cap (b ∷ p) le)

  -- What is cut already is cut in the same way.
  pub chunks-contents :
      (fuel : ℕ) (pieces : List Bytes)
      → IsCut cap pieces
      → length (contents pieces) ≤ fuel
      → chunks cap fuel (contents pieces) ≡ pieces
  unfolding chunks
  chunks-contents zero [] h le = refl
  chunks-contents (suc fuel) [] h le = refl
  chunks-contents zero (p ∷ []) h le = absurd (omega (arith, h.0, length-append p []))
  chunks-contents (suc fuel) (p ∷ []) h le = rw append-nil (chunks-last fuel p h.0 h.1)
  chunks-contents zero (p ∷ q ∷ ps) h le =
      absurd (omega (arith, h.0, length-append p (contents (q ∷ ps))))
  chunks-contents (suc fuel) (p ∷ q ∷ ps) h le =
      chunks-rest fuel p (contents (q ∷ ps)) (omega (arith, h.0)) h.0
      ∙ ap (◌∷◌ p) (
          chunks-contents fuel (q ∷ ps) h.1
            (omega (arith, h.0, length-append p (contents (q ∷ ps)))))

  chunks-step :
      (fuel b : ℕ) (s : Bytes)
      → chunks cap (suc fuel) (b ∷ s) ≡ take cap (b ∷ s) ∷ chunks cap fuel (drop cap (b ∷ s))
  unfolding chunks
  chunks-step fuel b s = rw cap_test refl

  IsCut-cons :
      (fuel : ℕ) (p s : Bytes)
      → 0 < length p
      → length p ≤ cap
      → (0 < length s → length p ≡ cap)
      → IsCut cap (chunks cap fuel s)
      → IsCut cap (p ∷ chunks cap fuel s)
  unfolding chunks
  IsCut-cons zero p s pos le full h = (pos, le)
  IsCut-cons (suc fuel) p [] pos le full h = (pos, le)
  IsCut-cons (suc fuel) p (b ∷ s) pos le full h =
      let rest = chunks cap fuel (drop cap (b ∷ s)) in
      let next = subst (λ z. IsCut cap z) (chunks-step fuel b s) h in
      subst (λ z. IsCut cap (p ∷ z)) (sym (chunks-step fuel b s)) (full (omega arith), next)

  pub chunks-IsCut : (fuel : ℕ) (s : Bytes) → IsCut cap (chunks cap fuel s)
  unfolding chunks
  chunks-IsCut zero s = tt
  chunks-IsCut (suc fuel) [] = tt
  chunks-IsCut (suc fuel) (b ∷ s) =
      let size = length-take cap (b ∷ s) in
      let left = length-drop cap (b ∷ s) in
      subst (λ z. IsCut cap z) (sym (chunks-step fuel b s))
        (IsCut-cons fuel (take cap (b ∷ s)) (drop cap (b ∷ s)) (omega arith) (omega arith)
          (λ pos. omega arith) (chunks-IsCut fuel (drop cap (b ∷ s))))

encode_pieces-IsCut :
    (c : Encrypt) (cap : ℕ) (pieces : List Bytes)
    → IsCut cap pieces
    → IsCut cap (encode_pieces c pieces)
encode_pieces-IsCut c cap [] h = tt
encode_pieces-IsCut c cap (p ∷ []) h =
    (omega (arith, h.0, length-encode c p), omega (arith, h.1, length-encode c p))
encode_pieces-IsCut c cap (p ∷ q ∷ ps) h =
    (length-encode c p ∙ h.0, encode_pieces-IsCut c cap (q ∷ ps) h.1)

-- All bytes of the pieces are bytes.
abbrev pub ArePieces : List Bytes → Type 0
ArePieces = All IsBytes

chunks-ArePieces : (cap fuel : ℕ) (s : Bytes) → IsBytes s → ArePieces (chunks cap fuel s)
unfolding chunks
chunks-ArePieces cap zero s h = tt
chunks-ArePieces cap (suc fuel) [] h = tt
chunks-ArePieces cap (suc fuel) (b ∷ s) h = elim (Bool-cases (cap == 0)) [
  | inl e ↦ rw e tt
  | inr e ↦ rw e (
    take-IsBytes cap (b ∷ s) h,
    chunks-ArePieces cap fuel (drop cap (b ∷ s)) (drop-IsBytes cap (b ∷ s) h),
  )
]

decode_all-encode_pieces :
    (junk junk' : ℕ → ℕ) (k : Bytes) (pieces : List Bytes)
    → IsBytes k
    → key_len ≤ length k
    → ArePieces pieces
    → decode_all (set_key k 16 (default junk)) (encode_pieces (set_key k 16 (default junk')) pieces)
      ≡ pieces
decode_all-encode_pieces junk junk' k [] h whole bytes = refl
decode_all-encode_pieces junk junk' k (p ∷ pieces) h whole bytes =
    ap₂ ◌∷◌ (decode-encode-junk junk' junk k p h whole bytes.0)
      (decode_all-encode_pieces junk junk' k pieces h whole bytes.1)

-- A file that is encoded piece by piece with a password.
unfoldable pub publish : (ℕ → ℕ) → Bytes → Bytes → Bytes
publish junk pwd s =
    contents (encode_pieces (set_key (c_str pwd) 16 (default junk)) (reads (length pwd * 200) s))

-- What is published with a password of at least 15 bytes is read back with it, whatever the memory
-- of the two ciphers held.
pub decrypt_file-publish :
    (junk junk' : ℕ → ℕ) (pwd s : Bytes)
    → IsBytes pwd
    → 15 ≤ length pwd
    → IsBytes s
    → decrypt_file junk true true pwd (publish junk' pwd s) ≡ some (some s)
unfolding decrypt_file publish
decrypt_file-publish junk junk' pwd s h whole bytes =
    let cap = length pwd * 200 in
    let some_cap : 0 < cap = omega arith in
    let enough : ltb (length pwd + 1) key_len ≡ false =
      le→ltb (length pwd + 1) key_len (omega arith) in
    let key_bytes : IsBytes (c_str pwd) = All-append IsByte pwd (0 ∷ []) h (omega arith, tt) in
    let key_size = length-append pwd (0 ∷ []) in
    let c = set_key (c_str pwd) 16 (default junk') in
    let pieces = reads cap s in
    let cut = encode_pieces-IsCut c cap pieces (chunks-IsCut cap some_cap (length s) s) in
    let again =
      chunks-contents cap some_cap (length (contents (encode_pieces c pieces)))
        (encode_pieces c pieces) cut (omega arith) in
    rw (
      enough,
      again,
      decode_all-encode_pieces junk junk' (c_str pwd) pieces key_bytes (omega arith)
          (chunks-ArePieces cap (length s) s bytes),
      contents-chunks cap some_cap (length s) s (omega arith),
    )
