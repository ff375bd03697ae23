-- ===== src/Tests/Exchange.antt =====
-- The theorems on whole exchanges over the socket, at concrete inputs.
use libagent.Base.{
  inl, ◌≡◌, refl, true, none, some, List, [], ◌∷◌, ◌++◌, arith, length, take, drop, length-take, ok,
}
use libagent.Text.{Bytes, codes, crlf, contains}
use libagent.Text.Utf8.{is_utf8}
use libagent.Text.Spaces.{trim_start}
use libagent.Text.Number.{from_str_radix, to_string}
use libagent.Io.Script.{Stream, segment, receive, IsLive, content, receive-IsSource}
use libagent.Http.{Header}
use libagent.Http.Headers.{serialize_headers, header_lookup}
use libagent.Http.Headers.Printed.{is_line, is_token}
use libagent.Http.Framing.{memchr_crlf_crlf, read_until_double_crlf}
use libagent.Http.Framing.Delivers.{Framed, read_until_double_crlf-Framed}
use libagent.Http.Chunked.Wire.{digit, done, SizeLine, Wire, last, more}
use libagent.Http.Body.{is_chunked}
use libagent.Http.Body.Content.{StatesLength}
use libagent.Uds.{Socket, build_request, request_over_uds}
use libagent.Io.{IsBounded, NeverInterrupted, got}
use libagent.Uds.Bounds.{ResponseEnds, request_over_uds-ResponseEnds}
use libagent.Http.{max_body_size}
use libagent.Uds.Heads.{IsHead}
use libagent.Uds.Responses.{Serves, request_over_uds_sized, request_over_uds_chunked}

abbrev pub sized_head : Bytes
sized_head = codes "HTTP/1.1 200 OK" ++ crlf ++ codes "Content-Length: 5" ++ crlf ++ crlf

abbrev pub sized_headers : List Header
sized_headers = (codes "Content-Length", codes "5") ∷ []

abbrev pub hello : Bytes
hello = codes "hello"

-- The response in three pieces, the first of which ends inside the head.
abbrev sized_stream : Stream
sized_stream =
    segment (codes "HTTP/1.1 200 OK" ++ crlf ++ codes "Content-")
    ∷ segment (codes "Length: 5" ++ crlf ++ crlf ++ codes "he")
    ∷ segment (codes "llo")
    ∷ []

-- A socket that answers every request with the same stream.
abbrev answering : Stream → Socket Stream
answering stream = record {
  connect = λ path. ok stream;
  write_all = λ bytes s. ok s;
  read = receive;
  drains = λ s. true;
}

sized_found : memchr_crlf_crlf (sized_head ++ hello) ≡ some (length sized_head)
unfolding memchr_crlf_crlf
sized_found = refl

pub sized_IsHead : IsHead sized_head 200 sized_headers
unfolding to_string serialize_headers is_line is_token is_utf8 trim_start
sized_IsHead = record {
  reason = codes "OK";
  printed = refl;
  one_line = refl;
  fields = (record { name_token = refl; value_line = refl; value_starts = refl }, tt);
  code = omega arith;
  text = refl;
  small = omega arith;
}

pub sized_StatesLength : StatesLength sized_headers 5
unfolding header_lookup from_str_radix
sized_StatesLength = (codes "5", refl, refl)

read_until_double_crlf-Framed_example :
    Framed receive IsLive content
      (sized_head ++ hello)
      38
      (read_until_double_crlf receive [] sized_stream)
read_until_double_crlf-Framed_example =
    read_until_double_crlf-Framed receive IsLive content receive-IsSource (sized_head ++ hello) 38
      sized_found (omega arith) sized_stream (omega arith, (omega arith, (omega arith, tt))) refl

abbrev put_request : Bytes
put_request = build_request (codes "PUT") (codes "/v0.4/traces") [] (codes "[]")

sized_Serves :
    Serves
      (answering sized_stream)
      IsLive
      content
      (codes "/tmp/apm")
      put_request
      (sized_head ++ hello)
sized_Serves = record {
  connected = sized_stream;
  written = sized_stream;
  connects = refl;
  writes = refl;
  live = (omega arith, (omega arith, (omega arith, tt)));
  input = refl;
}

request_over_uds_sized_example :
    request_over_uds
      (answering sized_stream)
      (codes "/tmp/apm")
      (codes "PUT")
      (codes "/v0.4/traces")
      []
      (codes "[]")
    ≡ ok (record { status = 200; headers = sized_headers; body = hello })
request_over_uds_sized_example =
    request_over_uds_sized (answering sized_stream) IsLive content receive-IsSource
      (codes "/tmp/apm") (codes "PUT") (codes "/v0.4/traces") [] (codes "[]") sized_head hello 200
      sized_headers sized_IsHead sized_StatesLength (omega arith) sized_Serves

abbrev pub chunked_head : Bytes
chunked_head = codes "HTTP/1.1 202 OK" ++ crlf ++ codes "Transfer-Encoding: chunked" ++ crlf ++ crlf

abbrev pub chunked_headers : List Header
chunked_headers = (codes "Transfer-Encoding", codes "chunked") ∷ []

five_line : SizeLine (codes "5") 5
unfolding is_utf8
five_line = record {
  one_line = ((λ e. cc), tt);
  short = omega arith;
  first = b'5';
  digits = [];
  extension = [];
  parts = refl;
  number = digit 0 b'5' 5 5 [] (inl (refl, omega arith)) (done 5);
  extends = inl refl;
  text = refl;
  fits = omega arith;
}

last_line : SizeLine (codes "0") 0
unfolding is_utf8
last_line = record {
  one_line = ((λ e. cc), tt);
  short = omega arith;
  first = b'0';
  digits = [];
  extension = [];
  parts = refl;
  number = digit 0 b'0' 0 0 [] (inl (refl, omega arith)) (done 0);
  extends = inl refl;
  text = refl;
  fits = omega arith;
}

abbrev pub wire : Bytes
wire = (codes "5" ++ crlf) ++ (hello ++ (crlf ++ ((codes "0" ++ crlf) ++ crlf)))

pub hello-Wire : Wire wire hello
hello-Wire =
    more (codes "5") hello five_line (omega arith) (omega arith) (last (codes "0") crlf last_line)

abbrev chunked_stream : Stream
chunked_stream =
    segment (chunked_head ++ codes "5")
    ∷ segment (crlf ++ hello ++ crlf ++ codes "0" ++ crlf ++ crlf)
    ∷ []

pub chunked_IsHead : IsHead chunked_head 202 chunked_headers
unfolding to_string serialize_headers is_line is_token is_utf8 trim_start
chunked_IsHead = record {
  reason = codes "OK";
  printed = refl;
  one_line = refl;
  fields = (record { name_token = refl; value_line = refl; value_starts = refl }, tt);
  code = omega arith;
  text = refl;
  small = omega arith;
}

pub chunked_unsized : header_lookup chunked_headers (codes "Content-Length") ≡ none
unfolding header_lookup
chunked_unsized = refl

pub chunked_coded : is_chunked chunked_headers ≡ true
unfolding is_chunked header_lookup contains
chunked_coded = refl

chunked_Serves :
    Serves
      (answering chunked_stream)
      IsLive
      content
      (codes "/tmp/apm")
      put_request
      (chunked_head ++ wire)
chunked_Serves = record {
  connected = chunked_stream;
  written = chunked_stream;
  connects = refl;
  writes = refl;
  live = (omega arith, (omega arith, tt));
  input = refl;
}

request_over_uds_chunked_example :
    request_over_uds
      (answering chunked_stream)
      (codes "/tmp/apm")
      (codes "PUT")
      (codes "/v0.4/traces")
      []
      (codes "[]")
    ≡ ok (record { status = 202; headers = chunked_headers; body = hello })
request_over_uds_chunked_example =
    request_over_uds_chunked (answering chunked_stream) IsLive content receive-IsSource
      (codes "/tmp/apm") (codes "PUT") (codes "/v0.4/traces") [] (codes "[]") chunked_head wire
      hello 202 chunked_headers chunked_IsHead chunked_unsized chunked_coded hello-Wire
      (omega arith) chunked_Serves

-- A server that sends the given bytes, whatever the request.
abbrev in_memory : Bytes → Socket Bytes
in_memory input = record {
  connect = λ path. ok input;
  write_all = λ bytes s. ok s;
  read = λ n s. got (take n s) (drop n s);
  drains = λ s. true;
}

in_memory-IsBounded : IsBounded (in_memory hello).read
in_memory-IsBounded n s = omega (arith, length-take n s)

in_memory-NeverInterrupted : NeverInterrupted (in_memory hello).read
in_memory-NeverInterrupted n s = tt

request_over_uds-ResponseEnds_example :
    ResponseEnds max_body_size
      (request_over_uds (in_memory hello) (codes "/tmp/apm") (codes "GET") (codes "/info") [] [])
request_over_uds-ResponseEnds_example =
    request_over_uds-ResponseEnds (in_memory hello) in_memory-IsBounded in_memory-NeverInterrupted
      (λ s. refl) (codes "/tmp/apm") (codes "GET") (codes "/info") [] []
