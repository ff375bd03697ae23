-- ===== src/Uds.antt =====
-- uds.rs: the HTTP client over a Unix domain socket. The socket is a parameter: the outcome of
-- connecting to it and of writing to it, and a reader for what comes back. The log calls are left out.
pub mod Heads
pub mod Responses
pub mod Bounds
use libagent.Base.{
  ℕ, Bool, true, false, List, [], ◌∷◌, if◌then◌else◌, take, drop, Result, ok, err, ◌>>=◌,
}
use libagent.Text.{Bytes, codes}
use libagent.Text.Lines.{split_crlf, join_crlf}
use libagent.Text.Utf8.{is_utf8}
use libagent.Io.{Reader}
use libagent.Http.{
  Header, Response, Attempt, connect_error, write_error, invalid_head_utf8, empty_response,
  out_of_fuel,
}
use libagent.Http.Status.{parse_status_line}
use libagent.Http.Headers.{parse_headers}
use libagent.Http.Request
use libagent.Http.Request.{add_default_headers}
use libagent.Http.Framing.{read_until_double_crlf}
use libagent.Http.Body.{read_http_body}

unfoldable pub build_request : Bytes → Bytes → List Header → Bytes → Bytes
build_request method path headers body =
    Request.build_request method path (add_default_headers headers body (codes "unix")) body

-- What connects to the path and writes the request: a stream, or the text of the `io::Error`. `drains`
-- says of the stream as the reading of the response finds it whether `read_to_end`, which the code calls
-- without a cap when the head cannot be read, and whose bytes only go into the log, comes to an end.
pub record Socket (S : Type 0) : Type 0 where
  pub connect : Bytes → Result Bytes S
  pub write_all : Bytes → S → Result Bytes S
  pub read : Reader S
  pub drains : S → Bool

-- `map_err`.
abbrev pub map_err : {A B C : Type 0} → (A → B) → Result A C → Result B C
map_err f (ok c) = ok c
map_err f (err a) = err (f a)

-- The status and the headers in the lines of the head.
unfoldable pub parse_head_lines : List Bytes → Attempt (ℕ × List Header)
parse_head_lines [] = err empty_response
parse_head_lines (status_line ∷ lines) = do
  status ← parse_status_line status_line
  ok (status, parse_headers (join_crlf lines))

unfoldable pub parse_head : Bytes → Attempt (ℕ × List Header)
unfolding parse_head_lines
parse_head head =
    let parsed = parse_head_lines (split_crlf head) in
    if is_utf8 head then parsed else err invalid_head_utf8

module _ {S : Type 0} (read : Reader S) where
  -- From the end of the headers on.
  unfoldable pub finish_response : ℕ × Bytes × S → Attempt Response
  finish_response (header_end, buf, s) = do
    (status, headers) ← parse_head (take header_end buf)
    body ← read_http_body read s (drop header_end buf) headers
    ok (record { status = status; headers = headers; body = body })

  -- All that winpipe.rs reads from a pipe.
  unfoldable pub read_response : S → Attempt Response
  read_response s = do p ← read_until_double_crlf read [] s; finish_response p

-- The closure of the `map_err` on the head: the error comes behind the `read_to_end`.
abbrev pub drained : {A : Type 0} → Bool → Attempt A → Attempt A
drained ends (ok a) = ok a
drained true (err e) = err e
drained false (err e) = err out_of_fuel

unfoldable pub request_over_uds :
    {S : Type 0} → Socket S → Bytes → Bytes → Bytes → List Header → Bytes → Attempt Response
request_over_uds socket uds_path method path headers body = do
  s ← map_err connect_error (socket.connect uds_path)
  s' ← map_err write_error (socket.write_all (build_request method path headers body) s)
  p ← drained (socket.drains s') (read_until_double_crlf socket.read [] s')
  finish_response socket.read p
