-- ===== src/Aods/DownloadThread/Examples.antt =====
-- A file that is fetched by the second try.
use aods.Base.{
  Bytes, IsBytes, arith, codes, if◌then◌else◌, length, refl, some, suc, true, zero, ℕ, ◌<◌, ◌==◌,
  ◌∷◌, ◌≡◌, ◌≤◌,
}
use aods.Aods.DownloadThread.{
  Attempt, DownloadItem, Downloaded, dr_suc, fetched, http_failed, result_cap, result_texts,
  run_item,
}
use aods.Aods.DownloadThread.Laws.{is_failed, published_hash, run_item-publish}
use aods.Aods.DownloadThread.Pieces.{publish}
use aods.Util.Helper.{get_hex_string}

abbrev no_junk : ℕ → ℕ
no_junk n = 0

abbrev file : Bytes
file = codes "abc"

abbrev task : DownloadItem
task = record {
  url = codes "http://a/b";
  pwd = codes "0123456789abcdef";
  save_file_name = codes "/opt/pub/p.m.1.0.7.zip";
  file_ver = codes "1";
  file_hash = published_hash file;
  prj = codes "p";
  module_name = codes "m";
}

abbrev second_try : ℕ → Attempt
second_try n = if n == 0 then http_failed else fetched (publish no_junk task.pwd file)

first_fails : (j : ℕ) → 0 ≤ j → j < 1 → is_failed (second_try j) ≡ true
first_fails zero p q = refl
first_fails (suc j) p q = absurd (omega arith)

pwd-IsBytes : IsBytes task.pwd
pwd-IsBytes = ground arith

result_fits : length (result_texts task) < result_cap
unfolding get_hex_string
result_fits = omega arith

run_item-publish_example :
    run_item no_junk second_try true true true task 0 0
    ≡ some (record { rlt = dr_suc; kept = some file; file_len = 3 }, dr_suc ∷ result_texts task)
run_item-publish_example =
    run_item-publish no_junk no_junk second_try true task file 1 0 0 pwd-IsBytes (omega arith)
      (ground arith) (omega arith) first_fails (omega arith) refl refl result_fits

abbrev done : Downloaded
done = record { rlt = dr_suc; kept = some file; file_len = 3 }
