-- ===== src/Util/Http.antt =====
-- `CAoHttp` (src/dev/util/AoHttp.cpp): the parts of an address, and the reading of a response. `scan`
-- stands for the calls of `sscanf`, `writes` is whether the stream takes some bytes, and what
-- `Recv` delivers is a list that ends where it fails. What would write past a buffer is the
-- result `none`.
pub mod Body
pub mod Request
pub mod Laws
mod Examples
use aods.Base.{
  Bool, Bytes, List, Option, [], and_then, bytes_eq, codes, drop, false, if◌then◌else◌, leb, length,
  ltb, none, not, some, take, true, ℕ, ◌%◌, ◌&&◌, ◌+◌, ◌==◌, ◌^◌, ◌||◌, ◌∷◌,
}
use aods.Util.Helper.{Found, at, find_first_buf, no_pattern, not_found}

-- `%d` of a port, `HTTP/%f %d` of a status line, and `%llu` of a length.
pub record Scan : Type 0 where
  pub number : Bytes → Option ℕ
  pub status : Bytes → Option ℕ
  pub length_of : Bytes → Option ℕ

abbrev pub is_host_char : ℕ → Bool
is_host_char c =
    (leb 48 c && leb c 57)
    || (leb 65 c && leb c 90)
    || (leb 97 c && leb c 122)
    || ((c == 45) || (c == 46))

abbrev pub is_alnum : ℕ → Bool
is_alnum c = (leb 48 c && leb c 57) || (leb 65 c && leb c 90) || (leb 97 c && leb c 122)

abbrev pub all_of : (ℕ → Bool) → Bytes → Bool
all_of f [] = true
all_of f (c ∷ s) = f c && all_of f s

-- What stands before the first character with a property, and from it on.
abbrev pub before_any : (ℕ → Bool) → Bytes → Bytes
before_any f [] = []
before_any f (c ∷ s) = if f c then [] else c ∷ before_any f s

abbrev pub from_any : (ℕ → Bool) → Bytes → Bytes
from_any f [] = []
from_any f (c ∷ s) = if f c then c ∷ s else from_any f s

abbrev pub is_slash : ℕ → Bool
is_slash c = c == 47

abbrev pub ends_host : ℕ → Bool
ends_host c = (c == 58) || (c == 47)

-- `CrashHostName`, with `CheckHostName`: the host, behind "http://" or "https://".
unfoldable pub crash_host_name : Bytes → Option Bytes
crash_host_name url = elim (find_first_buf url (codes "//")) [
  | not_found ↦ none
  | no_pattern ↦ none
  | at n ↦
      let pro_head = take (n + 2) url in
      let host = before_any ends_host (drop (n + 2) url) in
      if not (bytes_eq pro_head (codes "http://")) && not (bytes_eq pro_head (codes "https://"))
      then none
      else if all_of is_host_char host
      then some host
      else none
]

abbrev pub port_number : Option ℕ → Option ℕ
port_number none = some 0
port_number (some n) = if ltb 65535 n then none else some n

-- `CrashPort` of what follows the host.
unfoldable pub crash_port : Scan → Bytes → Option ℕ
crash_port scan [] = some 80
crash_port scan (c ∷ s) =
    let port = before_any is_slash s in
    if not (c == 58)
    then some 80
    else if length port == 0
    then some 80
    else if not (all_of is_alnum port)
    then none
    else port_number (scan.number port)

-- `CrashUrl`: the host, the object and the port.
unfoldable pub crash_url : Scan → Bytes → Option (Bytes × Bytes × ℕ)
crash_url scan url = and_then (crash_host_name url) λ host.
    let rest = drop (length (before_any is_slash url) + 2 + length host) url in
    and_then (crash_port scan rest) λ port. some (host, from_any is_slash rest, port)

-- `m_nHttpErrcode`, `m_unContentLen` and `m_unOffset`.
pub record Http : Type 0 where
  pub errcode : ℕ
  pub content_len : ℕ
  pub offset : ℕ

abbrev pub u64 : ℕ → ℕ
u64 n = n % 2 ^ 64

abbrev pub with_length : Option ℕ → Http → Http
with_length none h = h
with_length (some len) h = record h { content_len = u64 len }

-- The text of the length, in a buffer of 256 bytes.
abbrev pub length_field : Scan → ℕ → Bytes → Http → Found → Option (Option ℕ × Http)
length_field scan rep_len s h not_found = some (none, h)
length_field scan rep_len s h no_pattern = some (none, h)
length_field scan rep_len s h (at n) =
    if leb 256 n then none else some (some rep_len, with_length (scan.length_of (take n s)) h)

abbrev pub head_field : Scan → Bytes → Http → Found → Option (Option ℕ × Http)
head_field scan head h not_found = some (none, h)
head_field scan head h no_pattern = some (none, h)
head_field scan head h (at n) =
    let s = drop (n + length (codes "Content-Length:")) head in
    length_field scan (length head) s h (find_first_buf s (codes "\r\n"))

abbrev pub status_code : Scan → Bytes → Http → Option ℕ → Option (Option ℕ × Http)
status_code scan head h none = some (none, h)
status_code scan head h (some code) =
    head_field scan head (record h { errcode = code })
      (find_first_buf head (codes "Content-Length:"))

-- The first line, in a buffer of 256 bytes.
abbrev pub status_line : Scan → Bytes → Http → Found → Option (Option ℕ × Http)
status_line scan head h not_found = some (none, h)
status_line scan head h no_pattern = some (none, h)
status_line scan head h (at n) =
    if leb 256 n then none else status_code scan head h (scan.status (take n head))

-- The head, up to an empty line.
abbrev pub parse_head : Scan → Bytes → Http → Found → Option (Option ℕ × Http)
parse_head scan rep h not_found = some (none, h)
parse_head scan rep h no_pattern = some (none, h)
parse_head scan rep h (at n) =
    let head = take (n + 4) rep in status_line scan head h (find_first_buf head (codes "\r\n"))

-- `ParseResponse`: the length of the head, `none` inside where it is false.
unfoldable pub parse_response : Scan → Bytes → Http → Option (Option ℕ × Http)
parse_response scan rep h = parse_head scan rep h (find_first_buf rep (codes "\r\n\r\n"))

-- The second loop of `ReadData`, with `has` bytes read: the result, and what is written.
unfoldable pub read_body : (Bytes → Bool) → ℕ → List Bytes → Http → Bool × Http × List Bytes
read_body writes has [] h = (not (ltb has h.content_len), h, [])
read_body writes has (s ∷ ss) h =
    let (ok, h', out) =
      read_body writes (u64 (has + length s)) ss
        (record h { offset = u64 (h.offset + length s) }) in
    if not (ltb has h.content_len)
    then (true, h, [])
    else if (length s == 0) || not (writes s)
    then (false, h, [])
    else (ok, h', s ∷ out)

-- What follows the head.
abbrev pub read_behind :
    (Bytes → Bool) → Bytes → List Bytes → Option ℕ × Http → Bool × Http × List Bytes
read_behind writes rep ss (none, h) = (false, h, [])
read_behind writes rep ss (some rep_len, h) =
    let s = drop rep_len rep in
    let (ok, h', out) =
      read_body writes (length s) ss (record h { offset = u64 (h.offset + length s) }) in
    if h.content_len == 0
    then (true, h, [])
    else if not (ltb rep_len (length rep))
    then read_body writes 0 ss h
    else if not (writes s)
    then (false, h, [])
    else (ok, h', s ∷ out)

-- `ReadData` with a stream.
unfoldable pub read_http :
    Scan → (Bytes → Bool) → List Bytes → Http → Option (Bool × Http × List Bytes)
read_http scan writes [] h = some (false, h, [])
read_http scan writes (rep ∷ ss) h =
    and_then (parse_response scan rep h) λ r. some (read_behind writes rep ss r)
