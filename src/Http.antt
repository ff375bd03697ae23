-- ===== src/Http.antt =====
-- http.rs: the HTTP/1.1 client code that the two transports share. This file has the response type
-- and the errors; the children follow the functions of http.rs.
pub mod Status
pub mod Headers
pub mod Request
pub mod Defaults
pub mod Framing
pub mod Transfer
pub mod Chunked
pub mod Body
use libagent.Base.{ℕ, ◌≢◌, List, Result, ok, err}
use libagent.Text.{Bytes}
use libagent.Io.{Fault}

-- `MAX_BODY_SIZE` and `MAX_CHUNK_SIZE`.
abbrev pub max_body_size : ℕ
max_body_size = 104857600

abbrev pub max_chunk_size : ℕ
max_chunk_size = 10485760

-- The cap on the bytes read before the end of the headers, 1024 * 1024.
abbrev pub max_head_size : ℕ
max_head_size = 1048576

abbrev pub Header : Type 0
Header = Bytes × Bytes

pub record Response : Type 0 where
  pub status : ℕ
  pub headers : List Header
  pub body : Bytes

-- The error strings of http.rs and uds.rs, with what is formatted into them. `out_of_fuel` is the
-- model's own: a loop that was given too few rounds.
pub data HttpError : Type 0 where
  malformed_status_line missing_status_code invalid_status_code : HttpError
  read_error : Fault → HttpError
  eof_in_headers headers_too_large : HttpError
  eof_in_body : HttpError
  eof_in_chunked chunk_line_too_long invalid_chunk_line invalid_chunk_utf8 : HttpError
  invalid_chunk_size chunked_body_too_large invalid_chunk_terminator : HttpError
  chunk_too_large : ℕ → HttpError
  invalid_content_length body_too_large : HttpError
  content_length_too_large : ℕ → HttpError
  connect_error write_error : Bytes → HttpError
  invalid_head_utf8 empty_response : HttpError
  out_of_fuel : HttpError

abbrev pub Attempt : Type 0 → Type 0
Attempt A = Result HttpError A

-- An error is one of the source, not the model's own.
abbrev pub Sourced : {A : Type 0} → Attempt A → Type 0
Sourced (ok a) = Unit
Sourced (err e) = e ≢ out_of_fuel
