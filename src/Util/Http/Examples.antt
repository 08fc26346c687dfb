-- ===== src/Util/Http/Examples.antt =====
-- A response whose text arrives in two pieces, and some addresses.
use aods.Base.{
  Bytes, [], arith, bytes_eq, codes, false, refl, some, starts_with, true, ◌++◌, ◌==◌, ◌∷◌, ◌≡◌,
}
use aods.Util.Helper.{find_first_buf, find_from}
use aods.Util.Http.{
  Http, Scan, crash_host_name, crash_port, crash_url, parse_response, read_body, read_http,
}
use aods.Util.Http.Laws.{Answered, read_http-Answered}
use aods.Util.Http.Request.{
  HttpRequest, Peer, encode_text, encode_utf8, format_request, http_method_get, http_run,
}

-- The library reads the length 5, the status 404 and the port 8080.
abbrev scan : Scan
scan = record { number = λ s. some 8080; status = λ s. some 404; length_of = λ s. some 5 }

abbrev head : Bytes
head = codes "HTTP/1.1 404 Not Found\r\nContent-Length: 5\r\n\r\n"

abbrev resumed : Http
resumed = record { errcode = 0; content_len = 0; offset = 100 }

abbrev read_whole : Http
read_whole = record { errcode = 404; content_len = 5; offset = 105 }

two_pieces :
    read_http scan (λ s. true) ((head ++ codes "ab") ∷ codes "cde" ∷ []) resumed
    ≡ some (true, read_whole, codes "ab" ∷ codes "cde" ∷ [])
unfolding read_http read_body parse_response find_first_buf find_from starts_with
two_pieces = refl

read_http-Answered_example :
    Answered scan
      (head ++ codes "ab")
      (codes "cde" ∷ [])
      resumed
      read_whole
      (codes "ab" ∷ codes "cde" ∷ [])
read_http-Answered_example =
    read_http-Answered scan (λ s. true) (head ++ codes "ab") (codes "cde" ∷ []) resumed read_whole
      (codes "ab" ∷ codes "cde" ∷ []) (omega arith) (omega arith) two_pieces

-- The connection ends resumed the whole text has arrived.
cut_short :
    read_http scan (λ s. true) ((head ++ codes "ab") ∷ []) resumed
    ≡ some (false, record { errcode = 404; content_len = 5; offset = 102 }, codes "ab" ∷ [])
unfolding read_http read_body parse_response find_first_buf find_from starts_with
cut_short = refl

crashed :
    crash_url scan (codes "http://host:8080/dir/file")
    ≡ some (codes "host", codes "/dir/file", 8080)
unfolding crash_url crash_host_name crash_port find_first_buf find_from starts_with bytes_eq
crashed = refl

-- An address with "https://" has the port 80 too.
secured : crash_url scan (codes "https://host/file") ≡ some (codes "host", codes "/file", 80)
unfolding crash_url crash_host_name crash_port find_first_buf find_from starts_with bytes_eq
secured = refl

abbrev plain : HttpRequest
plain = record { req_header = []; request_data = []; text_encode = encode_utf8 }

abbrev peer : Peer
peer = record {
  connects = λ host port. port == 8080;
  takes = λ request. bytes_eq request (
      codes
        "GET /a HTTP/1.1\r\nHost: host\r\nConnection: Keep-Alive\r\nPragma:no-cache\r\nRange: bytes=100-\r\n\r\n");
  answer = λ request. (head ++ codes "ab") ∷ codes "cde" ∷ [];
}

fetched_whole :
    http_run scan
      (λ s. s)
      peer
      (λ s. true)
      plain
      http_method_get
      (codes "http://host:8080/a")
      resumed
    ≡ some (0, read_whole, codes "ab" ∷ codes "cde" ∷ [])
unfolding http_run format_request encode_text crash_url crash_host_name crash_port read_http
    read_body parse_response find_first_buf find_from starts_with bytes_eq
fetched_whole = refl
