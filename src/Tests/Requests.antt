-- ===== src/Tests/Requests.antt =====
-- The theorems on printed headers and requests, at a request with a body.
use libagent.Base.{◌≡◌, refl, true, none, some, List, [], ◌∷◌, arith, All}
use libagent.Text.{codes}
use libagent.Text.Spaces.{trim_start, trim, trim_end}
use libagent.Http.{Header}
use libagent.Http.Headers.{header_lookup, parse_header_lines, serialize_headers}
use libagent.Http.Headers.Printed.{is_line, is_token}
use libagent.Http.Headers.Laws.{
  field_line, IsField, IsTrimmed, parse_header_lines-serialize_headers,
}
use libagent.Http.Body.Content.{StatesLength}
use libagent.Http.Request.{add_default_headers}
use libagent.Http.Request.Defaulted.{completed}
use libagent.Http.Request.Wire.{read_request}
use libagent.Http.Request.Sent.{request_line, read_request-build_request}
use libagent.Http.Request.Length.{add_default_headers-StatesLength}
use libagent.Uds
use libagent.Winpipe.Request as Pipe

abbrev headers : List Header
headers = (codes "Content-Type", codes "text/plain") ∷ (codes "X-Test", codes "1") ∷ []

type-IsField : IsField (codes "Content-Type", codes "text/plain")
unfolding is_token is_line trim_start
type-IsField = record { name_token = refl; value_line = refl; value_starts = refl }

test-IsField : IsField (codes "X-Test", codes "1")
unfolding is_token is_line trim_start
test-IsField = record { name_token = refl; value_line = refl; value_starts = refl }

headers-IsTrimmed : All IsTrimmed headers
unfolding trim trim_start trim_end field_line
headers-IsTrimmed = (
  record { field = type-IsField; named = refl; ends = refl },
  (record { field = test-IsField; named = refl; ends = refl }, tt),
)

parse_header_lines-serialize_headers_example :
    parse_header_lines (serialize_headers headers) ≡ headers
parse_header_lines-serialize_headers_example =
    parse_header_lines-serialize_headers headers headers-IsTrimmed

post-is_line : is_line (codes "POST") ≡ true
unfolding is_line
post-is_line = refl

foo-is_line : is_line (codes "/foo") ≡ true
unfolding is_line
foo-is_line = refl

read_request-build_request_example :
    (read_request (Uds.build_request (codes "POST") (codes "/foo") headers (codes "payload"))
      ≡ some (
        request_line (codes "POST") (codes "/foo"),
        completed headers (codes "payload") (codes "unix"),
        codes "payload",
      ))
    × (read_request (Pipe.build_request (codes "POST") (codes "/foo") headers (codes "payload"))
        ≡ some (
          request_line (codes "POST") (codes "/foo"),
          completed headers (codes "payload") (codes "pipe"),
          codes "payload",
        ))
read_request-build_request_example =
    read_request-build_request (codes "POST") (codes "/foo") headers (codes "payload") post-is_line
      foo-is_line (type-IsField, (test-IsField, tt))

no_length : header_lookup headers (codes "Content-Length") ≡ none
unfolding header_lookup
no_length = refl

add_default_headers-StatesLength_example :
    StatesLength (add_default_headers headers (codes "payload") (codes "unix")) 7
add_default_headers-StatesLength_example =
    add_default_headers-StatesLength headers (codes "payload") (codes "unix") no_length
      (omega arith)
