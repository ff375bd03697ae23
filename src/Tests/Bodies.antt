-- ===== src/Tests/Bodies.antt =====
-- The theorems on bodies and requests, at concrete inputs.
use libagent.Base.{
  inl, max, ◌≡◌, refl, true, false, none, List, [], ◌∷◌, ◌++◌, arith, length, take, drop,
  length-take, ok,
}
use libagent.Text.{Bytes, codes, crlf, contains}
use libagent.Text.Utf8.{is_utf8}
use libagent.Text.Number.{from_str_radix}
use libagent.Io.{Reader, got, IsSource, IsBounded, NeverInterrupted}
use libagent.Io.Script.{Stream, segment, receive, IsLive, content, receive-IsSource}
use libagent.Io.RestThen
use libagent.Io.RestThen.{RestThen}
use libagent.Io.RestThen.Delivers.{LiveThen, content_then, read-IsSource}
use libagent.Http.{Header, max_body_size}
use libagent.Http.Headers.{header_lookup}
use libagent.Http.Chunked.Wire.{digit, done, SizeLine, Wire, last, more}
use libagent.Http.Body.{is_chunked, read_http_body}
use libagent.Http.Body.Bounds.{BodyEnds, read_http_body_bounded}
use libagent.Http.Body.Content.{
  StatesLength, read_http_body_sized, read_http_body_to_end, read_http_body-Wire,
}

-- Bytes in memory as a reader.
unfoldable drip : Reader Bytes
drip n s = got (take n s) (drop n s)

drip-IsBounded : IsBounded drip
unfolding drip
drip-IsBounded n s = omega (arith, length-take n s)

drip-NeverInterrupted : NeverInterrupted drip
unfolding drip
drip-NeverInterrupted n s = tt

abbrev five_long : List Header
five_long = (codes "Content-Length", codes "5") ∷ []

abbrev chunked_headers : List Header
chunked_headers = (codes "Transfer-Encoding", codes "Chunked") ∷ []

five_long-StatesLength : StatesLength five_long 5
unfolding header_lookup from_str_radix
five_long-StatesLength = (codes "5", refl, refl)

five_line : SizeLine (codes "5") 5
unfolding is_utf8
five_line = record {
  one_line = ((λ e. cc), tt);
  short = omega arith;
  first = b'5';
  digits = [];
  extension = [];
  parts = refl;
  number = digit 0 b'5' 5 5 [] (inl (refl, omega arith)) (done 5);
  extends = inl refl;
  text = refl;
  fits = omega arith;
}

last_line : SizeLine (codes "0") 0
unfolding is_utf8
last_line = record {
  one_line = ((λ e. cc), tt);
  short = omega arith;
  first = b'0';
  digits = [];
  extension = [];
  parts = refl;
  number = digit 0 b'0' 0 0 [] (inl (refl, omega arith)) (done 0);
  extends = inl refl;
  text = refl;
  fits = omega arith;
}

abbrev wire_end : Bytes
wire_end = (codes "0" ++ crlf) ++ crlf

abbrev wire : Bytes
wire = (codes "5" ++ crlf) ++ (codes "hello" ++ (crlf ++ wire_end))

hello_Wire : Wire wire (codes "hello" ++ [])
hello_Wire =
    more (codes "5") (codes "hello") five_line (omega arith) (omega arith)
      (last (codes "0") crlf last_line)

-- The wire in three pieces, of which the first came with the headers.
abbrev wire_rest : Bytes
wire_rest = codes "5" ++ crlf ++ codes "he"

abbrev wire_stream : Stream
wire_stream = segment (codes "llo" ++ crlf) ∷ segment wire_end ∷ []

not_sized : header_lookup chunked_headers (codes "Content-Length") ≡ none
unfolding header_lookup
not_sized = refl

chunked_named : is_chunked chunked_headers ≡ true
unfolding is_chunked header_lookup contains
chunked_named = refl

read_http_body-Wire_example :
    read_http_body receive wire_stream wire_rest chunked_headers ≡ ok (codes "hello" ++ [])
read_http_body-Wire_example =
    read_http_body-Wire receive IsLive content receive-IsSource hello_Wire chunked_headers wire_rest
      wire_stream not_sized chunked_named (omega arith, (omega arith, tt)) refl (omega arith)

read_http_body_sized_example :
    read_http_body receive (segment (codes "llo, world") ∷ []) (codes "he") five_long
    ≡ ok (codes "hello")
read_http_body_sized_example =
    read_http_body_sized receive IsLive content receive-IsSource five_long 5 (codes "he")
      (segment (codes "llo, world") ∷ []) five_long-StatesLength (omega arith) (omega arith)
      (omega arith, tt)

no_length : header_lookup [] (codes "Content-Length") ≡ none
unfolding header_lookup
no_length = refl

no_coding : is_chunked [] ≡ false
unfolding is_chunked header_lookup
no_coding = refl

read_http_body_to_end_example :
    read_http_body receive (segment (codes "lo") ∷ []) (codes "hel") [] ≡ ok (codes "hello")
read_http_body_to_end_example =
    read_http_body_to_end receive IsLive content receive-IsSource [] (codes "hel")
      (segment (codes "lo") ∷ []) no_length no_coding (omega arith, tt) (omega arith)

read_http_body_bounded_example :
    BodyEnds
      (max max_body_size (length (codes "he")))
      (read_http_body drip (codes "llo") (codes "he") five_long)
read_http_body_bounded_example =
    read_http_body_bounded drip drip-IsBounded drip-NeverInterrupted (codes "llo") (codes "he")
      five_long

read-IsSource_example :
    IsSource
      (RestThen.read receive)
      (LiveThen receive IsLive content)
      (content_then receive IsLive content)
read-IsSource_example = read-IsSource receive IsLive content receive-IsSource
