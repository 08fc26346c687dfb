-- ===== src/Util/Http/Request.antt =====
-- `HttpRun` of src/dev/util/AoHttp.cpp and the request that it sends. `utf8_of` stands for
-- `Gb2312CvtUtf8`, with at most 10 bytes, and what the socket does is given. What would write past
-- a buffer is the result `none`.
use aods.Base.{
  Bool, Bytes, List, Option, [], and_then, codes, decimal, drop, get_or, if◌then◌else◌, leb, length,
  ltb, none, not, some, suc, zero, ℕ, ◌%◌, ◌++◌, ◌+◌, ◌/◌, ◌==◌, ◌^◌, ◌∷◌,
}
use aods.Util.Helper.{hex_char}
use aods.Util.Http.{Http, Scan, crash_url, read_http}

pub data HttpMethod : Type 0 where
  http_method_get : HttpMethod
  http_method_post : HttpMethod
  http_method_put : HttpMethod

abbrev pub method_string : HttpMethod → Bytes
method_string http_method_get = codes "GET "
method_string http_method_post = codes "POST "
method_string http_method_put = codes "PUT "

pub data HttpEncode : Type 0 where
  encode_gb2312 : HttpEncode
  encode_unicode : HttpEncode
  encode_utf8 : HttpEncode

-- `%%%02x` of bytes.
abbrev pub percent_escape : Bytes → Bytes
percent_escape [] = []
percent_escape (b ∷ s) = 37 ∷ hex_char (b / 16) ∷ hex_char (b % 16) ∷ percent_escape s

-- A character of two bytes is read from `c` and what follows it, which may be the terminator;
-- the byte that follows is passed over. `left` bytes are to be encoded.
abbrev pub encode_chars : (Bytes → Bytes) → HttpEncode → ℕ → Bytes → Bytes
encode_chars utf8_of enc zero s = []
encode_chars utf8_of enc (suc left) [] = []
encode_chars utf8_of encode_gb2312 (suc left) (c ∷ s) =
    (if ltb 0x7f c then percent_escape (c ∷ []) else c ∷ [])
    ++ encode_chars utf8_of encode_gb2312 left s
encode_chars utf8_of encode_unicode (suc left) (c ∷ s) = []
encode_chars utf8_of encode_utf8 (suc zero) (c ∷ s) =
    if ltb 0x7f c then percent_escape (utf8_of (c ∷ get_or s 0 0 ∷ [])) else c ∷ []
encode_chars utf8_of encode_utf8 (suc (suc left)) (c ∷ s) =
    let plain = encode_chars utf8_of encode_utf8 (suc left) s in
    let wide = encode_chars utf8_of encode_utf8 left (drop 1 s) in
    if ltb 0x7f c then percent_escape (utf8_of (c ∷ get_or s 0 0 ∷ [])) ++ wide else c ∷ plain

-- `Encode`, whose length is an `unsigned short`.
unfoldable pub encode_text : (Bytes → Bytes) → HttpEncode → Bytes → Bytes
encode_text utf8_of enc s = encode_chars utf8_of enc (length s % 2 ^ 16) s

abbrev pub format_range : ℕ → Bytes
format_range offset =
    if offset == 0 then [] else codes "Range: bytes=" ++ (decimal offset ++ codes "-\r\n")

-- `m_strReqHeader`, `m_strRequestData` and `m_ucEncode`.
pub record HttpRequest : Type 0 where
  pub req_header : Bytes
  pub request_data : Bytes
  pub text_encode : HttpEncode

abbrev pub header_line : Bytes → Bytes
header_line [] = []
header_line (c ∷ s) = c ∷ s ++ codes "\r\n"

abbrev pub data_part : Bytes → Bytes
data_part [] = []
data_part (c ∷ s) =
    codes "Content-Length: "
    ++ (decimal (length (c ∷ s) % 2 ^ 32) ++ (codes "\r\n\r\n" ++ (c ∷ s ++ codes "\r\n")))

-- `FormatRequest`; the line of the host has 255 bytes.
unfoldable pub format_request :
    (Bytes → Bytes) → HttpRequest → ℕ → HttpMethod → Bytes → Bytes → Option Bytes
format_request utf8_of req offset mth obj host =
    if leb 255 (length host + 8)
    then none
    else some (
        method_string mth
        ++ (encode_text utf8_of req.text_encode obj
            ++ (codes " HTTP/1.1\r\n"
                ++ (codes "Host: "
                    ++ (host
                        ++ (codes "\r\n"
                            ++ (codes "Connection: Keep-Alive\r\nPragma:no-cache\r\n"
                                ++ (format_range offset
                                    ++ (header_line req.req_header
                                        ++ (data_part req.request_data ++ codes "\r\n"))))))))))

abbrev pub error_http_crash_url_fail : ℕ
error_http_crash_url_fail = 0x3004

abbrev pub error_http_connect_fail : ℕ
error_http_connect_fail = 0x3005

abbrev pub error_http_dload_file_fail : ℕ
error_http_dload_file_fail = 0x3006

abbrev pub error_http_send_request_fail : ℕ
error_http_send_request_fail = 0x3007

-- What the other side does: whether it takes the connection and the request, and its answer.
pub record Peer : Type 0 where
  pub connects : Bytes → ℕ → Bool
  pub takes : Bytes → Bool
  pub answer : Bytes → List Bytes

abbrev pub run_result : Bool × Http × List Bytes → ℕ × Http × List Bytes
run_result (ok, h, out) = (if ok then 0 else error_http_dload_file_fail, h, out)

abbrev pub http_sent : Scan → Peer → (Bytes → Bool) → Http → Bytes → Option (ℕ × Http × List Bytes)
http_sent scan peer writes h request =
    if not (peer.takes request)
    then some (error_http_send_request_fail, h, [])
    else and_then (read_http scan writes (peer.answer request) h) λ r. some (run_result r)

abbrev pub http_crashed :
    Scan
    → (Bytes → Bytes)
    → Peer
    → (Bytes → Bool)
    → HttpRequest
    → HttpMethod
    → Http
    → Option (Bytes × Bytes × ℕ)
    → Option (ℕ × Http × List Bytes)
http_crashed scan utf8_of peer writes req mth h none = some (error_http_crash_url_fail, h, [])
http_crashed scan utf8_of peer writes req mth h (some (host, obj, port)) =
    if not (peer.connects host port)
    then some (error_http_connect_fail, h, [])
    else and_then (format_request utf8_of req h.offset mth obj host) (http_sent scan peer writes h)

-- `HttpRun` with an address and a stream.
unfoldable pub http_run :
    Scan
    → (Bytes → Bytes)
    → Peer
    → (Bytes → Bool)
    → HttpRequest
    → HttpMethod
    → Bytes
    → Http
    → Option (ℕ × Http × List Bytes)
http_run scan utf8_of peer writes req mth url h =
    http_crashed scan utf8_of peer writes req mth h (crash_url scan url)
