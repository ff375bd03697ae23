-- ===== src/Tests/Http.antt =====
-- http.rs, its unit tests.
use libagent.Base.{◌≡◌, refl, some, List, [], ◌∷◌, ◌++◌, length, ok, err}
use libagent.Text.{codes, crlf}
use libagent.Io.Script.{segment, receive}
use libagent.Http.{Header, invalid_status_code}
use libagent.Http.Status.{parse_status_line}
use libagent.Http.Headers.{parse_headers, parse_header_lines, header_lookup}
use libagent.Http.Request.{add_default_headers}
use libagent.Http.Framing.{memchr_crlf_crlf}
use libagent.Text.Number.{from_str_radix}
use libagent.Http.Transfer.{read_exact_len, read_to_end}
use libagent.Http.Body.{is_chunked, read_sized, read_http_body}

status_200 : parse_status_line (codes "HTTP/1.1 200 OK") ≡ ok 200
unfolding parse_status_line
status_200 = refl

status_invalid : parse_status_line (codes "HTTP/1.1 invalid") ≡ err invalid_status_code
unfolding parse_status_line
status_invalid = refl

abbrev two_headers : List Header
two_headers =
    (codes "Content-Type", codes "application/json") ∷ (codes "Content-Length", codes "42") ∷ []

headers_parsed :
    parse_headers
      (codes "Content-Type: application/json" ++ crlf ++ codes "Content-Length: 42" ++ crlf)
    ≡ two_headers
unfolding parse_headers
headers_parsed = refl

lines_parsed :
    parse_header_lines
      (codes "Content-Type: application/json" ++ 10 ∷ codes "Content-Length: 42" ++ 10 ∷ 10 ∷ [])
    ≡ two_headers
unfolding parse_header_lines
lines_parsed = refl

looked_up : header_lookup two_headers (codes "content-type") ≡ some (codes "application/json")
unfolding header_lookup
looked_up = refl

found_at_nine : memchr_crlf_crlf (codes "hello" ++ crlf ++ crlf ++ codes "world") ≡ some 9
unfolding memchr_crlf_crlf
found_at_nine = refl

defaults_added :
    length (add_default_headers ((codes "Custom", codes "value") ∷ []) (codes "Hello World") []) ≡ 4
unfolding add_default_headers
defaults_added = refl

sized_run :
    read_http_body receive
      (segment (codes "world") ∷ [])
      (codes "hello")
      ((codes "Content-Length", codes "10") ∷ [])
    ≡ ok (codes "helloworld")
unfolding read_http_body receive header_lookup from_str_radix read_sized read_exact_len
sized_run = refl

eof_run :
    read_http_body receive (segment (codes "hello world") ∷ []) [] [] ≡ ok (codes "hello world")
unfolding read_http_body receive header_lookup is_chunked read_to_end
eof_run = refl
