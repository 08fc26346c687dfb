-- ===== src/Aods/DownloadThread/Laws.antt =====
-- What src/dev/aods/DownloadThread.cpp keeps of what it has fetched, and what it reports.
use aods.Base.{
  ==_iff, Bool, Bool-cases, Bytes, IsBytes, Option, ap, arith, bytes_eq, bytes_eq_iff, false, inl,
  inr, length, le→ltb, ltb, none, refl, some, suc, sym, true, zero, ℕ, ◌+◌, ◌/◌, ◌<◌, ◌==◌, ◌^◌,
  ◌∙◌, ◌∷◌, ◌≡◌, ◌≢◌, ◌≤◌, ◌⊎◌,
}
use aods.Aods.DownloadThread.{
  Attempt, DownloadItem, Downloaded, Fetch, download, dr_cfa, dr_dfa, dr_sfa, dr_suc, fetch_from,
  fetched, file_sums, got, hash_text, http_failed, open_failed, reads, result_cap, result_texts,
  run_item, saved_sums, tried,
}
use aods.Aods.DownloadThread.Pieces.{contents-chunks, decrypt_file-publish, publish}
use aods.Util.FileControl.Crc3.{contents}
use aods.Util.FileControl.Crc3Laws.{calc_file_crc32_3_lem, sums_at}

-- The file could not be fetched.
abbrev pub is_failed : Attempt → Bool
is_failed open_failed = true
is_failed http_failed = true
is_failed (fetched s) = false

tried-fails :
    (next : ℕ → Fetch) (a : Attempt) (s : Bytes)
    → is_failed a ≡ true
    → ((rlt : ℕ) → next rlt ≡ got s)
    → tried next a ≡ got s
tried-fails next open_failed s h rest = rest dr_sfa
tried-fails next http_failed s h rest = rest dr_dfa
tried-fails next (fetched t) s h rest = ground arith

-- The tries before `k` fail, and the one at `k` brings a file.
fetch_from-fetched :
    (attempts : ℕ → Attempt) (left n k rlt : ℕ) (s : Bytes)
    → ((j : ℕ) → n ≤ j → j < k → is_failed (attempts j) ≡ true)
    → n ≤ k
    → k < n + left
    → attempts k ≡ fetched s
    → fetch_from attempts left n rlt ≡ got s
unfolding fetch_from
fetch_from-fetched attempts zero n k rlt s fails le lt there = absurd (omega arith)
fetch_from-fetched attempts (suc left) n k rlt s fails le lt there = elim (Bool-cases (n == k)) [
  | inl e ↦ ap (tried (fetch_from attempts left (n + 1))) (ap attempts ((==_iff n k).0 e) ∙ there)
  | inr e ↦
      let before : n < k = ground (arith, ==_iff n k) in
      tried-fails (fetch_from attempts left (n + 1)) (attempts n) s (fails n (omega arith) before)
        (λ rlt'.
          fetch_from-fetched attempts left (n + 1) k rlt' s (λ j p q. fails j (omega arith) q)
            (omega arith) (omega arith) there)
]

-- The text of the checksums of a file, computed on the whole of it.
abbrev pub published_hash : Bytes → Bytes
published_hash s = hash_text (length s) (sums_at (length s / 2) s)

saved_sums-some :
    (len : ℕ) (s : Bytes)
    → length s < 2 ^ 31
    → saved_sums len (some s) ≡ (length s, published_hash s)
unfolding saved_sums
saved_sums-some len s small =
    let whole : contents (reads 10240 s) ≡ s =
      contents-chunks 10240 (omega arith) (length s) s (omega arith) in
    let size : length (contents (reads 10240 s)) < 2 ^ 31 = omega (arith, ap length whole) in
    ap (file_sums len) (calc_file_crc32_3_lem (reads 10240 s) size)
    ∙ ap (λ z. (length z, published_hash z)) whole

module _ (junk junk' : ℕ → ℕ) (attempts : ℕ → Attempt) (deletes : Bool) (di : DownloadItem)
    (s : Bytes) (k rlt len : ℕ) (bytes : IsBytes di.pwd) (whole : 15 ≤ length di.pwd)
    (plain : IsBytes s) (small : length s < 2 ^ 31)
    (fails : (j : ℕ) → 0 ≤ j → j < k → is_failed (attempts j) ≡ true) (in_time : k < 3)
    (there : attempts k ≡ fetched (publish junk' di.pwd s))
    (same : di.file_hash ≡ published_hash s) where
  pub download-publish :
      download junk attempts true true deletes di rlt len
      ≡ some (record { rlt = dr_suc; kept = some s; file_len = length s })
  unfolding download
  download-publish =
      let fetch =
        fetch_from-fetched attempts 3 0 k rlt (publish junk' di.pwd s) fails (omega arith)
          (omega arith) there in
      let decrypted = decrypt_file-publish junk junk' di.pwd s bytes whole plain in
      let right : bytes_eq (published_hash s) di.file_hash ≡ true =
        (bytes_eq_iff _ _).1 (sym same) in
      rw (fetch, decrypted, saved_sums-some len s small, right) refl

  -- A file of bytes below 2 GiB that is published with a password of at least 15 bytes, and whose
  -- checksums are those of the task, is fetched by the first of the three tries that brings it,
  -- where the tries before it fail and the files can be opened: it is kept as it was, and the
  -- success is reported with the seven texts of the task, as long as they fit into 5120 bytes.
  pub run_item-publish :
      length (result_texts di) < result_cap
      → run_item junk attempts true true deletes di rlt len
        ≡ some
            (record { rlt = dr_suc; kept = some s; file_len = length s }, dr_suc ∷ result_texts di)
  unfolding run_item
  run_item-publish fits =
      let room : ltb result_cap (1 + length (result_texts di)) ≡ false =
        le→ltb result_cap (1 + length (result_texts di)) (omega arith) in
      rw (download-publish, room) refl

-- A file below 2 GiB that is kept has the checksums of its task, and is a success, or it has not,
-- is reported so, and could not be deleted.
abbrev IsChecked : Bool → DownloadItem → Downloaded → Type 0
IsChecked deletes di d =
    (s : Bytes)
    → d.kept ≡ some s
    → length s < 2 ^ 31
    → ((d.rlt ≡ dr_suc) × (di.file_hash ≡ published_hash s))
      ⊎ ((d.rlt ≡ dr_cfa) × (di.file_hash ≢ published_hash s) × (deletes ≡ false))

abbrev ResultIsChecked : Bool → DownloadItem → Option Downloaded → Type 0
ResultIsChecked deletes di none = Unit
ResultIsChecked deletes di (some d) = IsChecked deletes di d
