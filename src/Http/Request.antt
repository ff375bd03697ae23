-- ===== src/Http/Request.antt =====
-- http.rs: `add_default_headers` and `build_request`.
pub mod Wire
pub mod Length
pub mod Defaulted
pub mod Sent
use libagent.Base.{Bool, true, false, List, [], ◌∷◌, ◌++◌, if◌then◌else◌, length}
use libagent.Text.{Bytes, codes, crlf, bytes_eq, to_ascii_lowercase}
use libagent.Text.Number.{to_string}
use libagent.Http.{Header}
use libagent.Http.Headers.{serialize_headers}

-- The flags `has_content_length`, `has_host` and `has_connection`.
pub record Seen : Type 0 where
  pub content_length : Bool
  pub host : Bool
  pub connection : Bool

abbrev pub nothing_seen : Seen
nothing_seen = record { content_length = false; host = false; connection = false }

-- One round of the loop over the names.
unfoldable pub see : Seen → Bytes → Seen
unfolding bytes_eq to_ascii_lowercase
see f name =
    let n = to_ascii_lowercase name in
    if bytes_eq n (codes "content-length")
    then record f { content_length = true }
    else if bytes_eq n (codes "host")
    then record f { host = true }
    else if bytes_eq n (codes "connection")
    then record f { connection = true }
    else f

unfoldable pub see_all : Seen → List Header → Seen
unfolding see
see_all f [] = f
see_all f ((name, value) ∷ headers) = see_all (see f name) headers

abbrev pub push_unless : Bool → List Header → Header → List Header
push_unless seen headers h = if seen then headers else headers ++ h ∷ []

unfoldable pub add_default_headers : List Header → Bytes → Bytes → List Header
unfolding see_all to_string
add_default_headers headers body host =
    let f = see_all nothing_seen headers in
    let with_length =
      push_unless f.content_length headers (codes "Content-Length", to_string (length body)) in
    let with_host = push_unless f.host with_length (codes "Host", host) in
    push_unless f.connection with_host (codes "Connection", codes "close")

-- The bytes in front of the body.
unfoldable pub request_head : Bytes → Bytes → List Header → Bytes
unfolding serialize_headers
request_head method path headers =
    method ++ codes " " ++ path ++ codes " HTTP/1.1" ++ crlf ++ serialize_headers headers ++ crlf

unfoldable pub build_request : Bytes → Bytes → List Header → Bytes → Bytes
unfolding add_default_headers request_head
build_request method path headers body =
    request_head method path (add_default_headers headers body (codes "localhost")) ++ body
