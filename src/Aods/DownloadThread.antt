-- ===== src/Aods/DownloadThread.antt =====
-- `CDownloadThread` of the host (src/dev/aods/DownloadThread.h, DownloadThread.cpp), which fetches the
-- files of updates, with DOWNLOAD_RESULT of src/dev/aods/AodsDef.h. What the file system and the HTTP
-- client answer to a try is a value of `Attempt`; `junk` is what the memory of a cipher held. A read
-- of a file delivers as many bytes as are asked for until the file ends, as `fread` does. What would
-- read or write past its data is the result `none`.
pub mod Pieces
pub mod Laws
mod Examples
use aods.Base.{
  Bool, Bytes, List, Option, [], and_then, bytes_eq, c_str, drop, if◌then◌else◌, length, ltb, none,
  not, some, suc, take, zero, ℕ, ◌%◌, ◌*◌, ◌++◌, ◌+◌, ◌-◌, ◌/◌, ◌==◌, ◌∷◌,
}
use aods.Util.Encrypt.{Encrypt, decode, default, key_len, set_key}
use aods.Util.FileControl.Crc3.{Crc3, calc_file_crc32_3, contents, start}
use aods.Util.Helper.{get_hex_string}

abbrev pub dr_suc : ℕ
dr_suc = 0

abbrev pub dr_dfa : ℕ
dr_dfa = 1

abbrev pub dr_sfa : ℕ
dr_sfa = 2

abbrev pub dr_cfa : ℕ
dr_cfa = 3

abbrev pub result_cap : ℕ
result_cap = 5120

-- DOWNLOAD_ITEM
pub record DownloadItem : Type 0 where
  pub url : Bytes
  pub pwd : Bytes
  pub save_file_name : Bytes
  pub file_ver : Bytes
  pub file_hash : Bytes
  pub prj : Bytes
  pub module_name : Bytes

-- `m_lstDi` and `m_nLoad`.
pub record DownloadThread : Type 0 where
  pub items : List DownloadItem
  pub load : ℕ

-- `AppendDownloadTask`
unfoldable pub append_task : DownloadItem → DownloadThread → DownloadThread
append_task item t = record t { items = t.items ++ item ∷ []; load = t.load + 1 }

-- A try to fetch a file: the intermediate file cannot be opened, the request fails, or it brings
-- the bytes of the file.
pub data Attempt : Type 0 where
  open_failed : Attempt
  http_failed : Attempt
  fetched : Bytes → Attempt

-- What the tries come to: a result, or a file.
pub data Fetch : Type 0 where
  gave_up : ℕ → Fetch
  got : Bytes → Fetch

-- A try, with what the next one comes to for its result.
abbrev pub tried : (ℕ → Fetch) → Attempt → Fetch
tried next open_failed = next dr_sfa
tried next http_failed = next dr_dfa
tried next (fetched s) = got s

-- The loop over `nRetryTimes` from `n` on, up to the file; `rlt` is the result so far.
unfoldable pub fetch_from : (ℕ → Attempt) → ℕ → ℕ → ℕ → Fetch
fetch_from attempts zero n rlt = gave_up rlt
fetch_from attempts (suc left) n rlt = tried (fetch_from attempts left (n + 1)) (attempts n)

-- What the reads of `cap` bytes deliver, on fuel.
unfoldable pub chunks : ℕ → ℕ → Bytes → List Bytes
chunks cap zero s = []
chunks cap (suc fuel) [] = []
chunks cap (suc fuel) (b ∷ s) =
    let rest = chunks cap fuel (drop cap (b ∷ s)) in
    if cap == 0 then [] else take cap (b ∷ s) ∷ rest

abbrev pub reads : ℕ → Bytes → List Bytes
reads cap s = chunks cap (length s) s

abbrev pub decode_all : Encrypt → List Bytes → List Bytes
decode_all c [] = []
decode_all c (piece ∷ pieces) = decode c piece ∷ decode_all c pieces

-- `DecryptFile`: the file that is written, `none` inside where it cannot be opened. The key is
-- read from the password and its terminator.
unfoldable pub decrypt_file : (ℕ → ℕ) → Bool → Bool → Bytes → Bytes → Option (Option Bytes)
decrypt_file junk dst_opens src_opens pwd s =
    if not dst_opens
    then some none
    else if not src_opens
    then some (some [])
    else if ltb (length pwd + 1) key_len
    then none
    else some (
        some (
          contents
            (decode_all (set_key (c_str pwd) 16 (default junk)) (reads (length pwd * 200) s))))

-- `%08x` of a word of 32 bits.
abbrev pub hex8 : ℕ → Bytes
hex8 n = get_hex_string (n / 16777216 % 256 ∷ n / 65536 % 256 ∷ n / 256 % 256 ∷ n % 256 ∷ [])

abbrev pub hash_text : ℕ → Crc3 → Bytes
hash_text file_len c = hex8 file_len ++ (hex8 c.crc1 ++ (hex8 c.crc2 ++ hex8 c.crc3))

-- `unFileLen` and the text of the checksums of the saved file; where it cannot be opened the length
-- is what it was.
abbrev pub file_sums : ℕ → Option (ℕ × Crc3) → ℕ × Bytes
file_sums len none = (len, hash_text len start)
file_sums len (some (file_len, c)) = (file_len, hash_text file_len c)

unfoldable pub saved_sums : ℕ → Option Bytes → ℕ × Bytes
saved_sums len none = file_sums len (calc_file_crc32_3 none)
saved_sums len (some s) = file_sums len (calc_file_crc32_3 (some (reads 10240 s)))

-- The seven texts of a result.
abbrev pub result_texts : DownloadItem → Bytes
result_texts di =
    c_str di.prj
    ++ (c_str di.module_name
        ++ (c_str di.file_ver
            ++ (c_str di.file_hash ++ (c_str di.url ++ (c_str di.save_file_name ++ c_str di.pwd)))))

-- What one item leaves: DOWNLOAD_RESULT, the saved file where it is kept, and `unFileLen`.
pub record Downloaded : Type 0 where
  pub rlt : ℕ
  pub kept : Option Bytes
  pub file_len : ℕ

-- The checking of the saved file; `deletes` is whether `DelFile` deletes it, which the code does not
-- look at.
abbrev pub checked : Bool → DownloadItem → ℕ → Option Bytes → Downloaded
checked deletes di len saved =
    let (len', text) = saved_sums len saved in
    if bytes_eq text di.file_hash
    then record { rlt = dr_suc; kept = saved; file_len = len' }
    else record { rlt = dr_cfa; kept = if deletes then none else saved; file_len = len' }

abbrev pub after_fetch : (ℕ → ℕ) → Bool → Bool → Bool → DownloadItem → ℕ → Fetch → Option Downloaded
after_fetch junk dst_opens src_opens deletes di len (gave_up rlt) =
    some (record { rlt = rlt; kept = none; file_len = len })
after_fetch junk dst_opens src_opens deletes di len (got s) =
    and_then (decrypt_file junk dst_opens src_opens di.pwd s)
      λ saved. some (checked deletes di len saved)

-- The body of the loop of `Run` over the items, up to its message.
unfoldable pub download :
    (ℕ → ℕ) → (ℕ → Attempt) → Bool → Bool → Bool → DownloadItem → ℕ → ℕ → Option Downloaded
download junk attempts dst_opens src_opens deletes di rlt len =
    after_fetch junk dst_opens src_opens deletes di len (fetch_from attempts 3 0 rlt)

-- The message of an item, in a buffer of 5120 bytes.
abbrev pub result_msg : DownloadItem → ℕ → Option Bytes
result_msg di rlt =
    if ltb result_cap (1 + length (result_texts di)) then none else some (rlt ∷ result_texts di)

-- An item from the list to its message.
unfoldable pub run_item :
    (ℕ → ℕ)
    → (ℕ → Attempt)
    → Bool
    → Bool
    → Bool
    → DownloadItem
    → ℕ
    → ℕ
    → Option (Downloaded × Bytes)
run_item junk attempts dst_opens src_opens deletes di rlt len =
    and_then (download junk attempts dst_opens src_opens deletes di rlt len)
      λ d. and_then (result_msg di d.rlt) λ msg. some (d, msg)

-- What an item meets.
pub record World : Type 0 where
  pub attempts : ℕ → Attempt
  pub dst_opens : Bool
  pub src_opens : Bool
  pub deletes : Bool

-- The loop of `Run` over the items that it has taken: `m_nLoad` after it, and the messages that are
-- posted; `rlt` and `len` are what the item before has left.
unfoldable pub run_items :
    (ℕ → ℕ) → (ℕ → World) → ℕ → List DownloadItem → ℕ → ℕ → ℕ → Option (ℕ × List Bytes)
run_items junk worlds n [] load rlt len = some (load, [])
run_items junk worlds n (di ∷ items) load rlt len =
    let w = worlds n in
    and_then (run_item junk w.attempts w.dst_opens w.src_opens w.deletes di rlt len) λ (d, msg).
      and_then (run_items junk worlds (n + 1) items (load - 1) d.rlt d.file_len)
        λ (load', msgs). some (load', msg ∷ msgs)
