-- ===== src/Http/Request/Sent.antt =====
-- The requests that uds.rs and winpipe.rs send, as a server reads them.
use libagent.Base.{
  ℕ, ◌+◌, ◌<◌, ◌≡◌, refl, ap, ◌∙◌, Bool, true, false, some, List, [], ◌∷◌, ◌++◌, arith, length, All,
  All-append,
}
use libagent.Text.{Bytes, codes, is_empty}
use libagent.Text.Number.{to_string}
use libagent.Text.Number.Digits.{trim_start-to_string, decimal_induction}
use libagent.Text.Spaces.{trim_start}
use libagent.Http.{Header}
use libagent.Http.Headers.Printed.{is_line, is_token, is_line-append, is_line-cons}
use libagent.Http.Headers.Laws.{IsField}
use libagent.Http.Request.{see_all, push_unless, nothing_seen, add_default_headers, request_head}
use libagent.Http.Request.Defaulted.{completed, add_default_headers-completed}
use libagent.Http.Request.Wire.{IsFull, read_request, read_request-serialize_headers}
use libagent.Http.Request
use libagent.Http.Defaults.{build_request_named}
use libagent.Uds
use libagent.Winpipe.Request as Pipe

is_line-to_string : (n : ℕ) → is_line (to_string n) ≡ true
is_line-to_string n =
    decimal_induction (λ s. is_line s ≡ true) digit
      (λ s d h e. is_line-append s ((b'0' + d) ∷ []) e (digit d h)) n
  where
    digit : (d : ℕ) → d < 10 → is_line ((b'0' + d) ∷ []) ≡ true
    digit d h = is_line-cons (b'0' + d) [] (ground arith) (ground arith) (unfold is_line in refl)

length-IsField : (n : ℕ) → IsField (codes "Content-Length", to_string n)
length-IsField n = record {
  name_token = unfold is_token in refl;
  value_line = is_line-to_string n;
  value_starts = trim_start-to_string n;
}

unix-IsField : IsField (codes "Host", codes "unix")
unix-IsField = record {
  name_token = unfold is_token in refl;
  value_line = unfold is_line in refl;
  value_starts = unfold trim_start in refl;
}

pipe-IsField : IsField (codes "Host", codes "pipe")
pipe-IsField = record {
  name_token = unfold is_token in refl;
  value_line = unfold is_line in refl;
  value_starts = unfold trim_start in refl;
}

connection-IsField : IsField (codes "Connection", codes "close")
connection-IsField = record {
  name_token = unfold is_token in refl;
  value_line = unfold is_line in refl;
  value_starts = unfold trim_start in refl;
}

push_unless-IsField :
    (seen : Bool) (hs : List Header) (h : Header)
    → All IsField hs
    → IsField h
    → All IsField (push_unless seen hs h)
push_unless-IsField true hs h a f = a
push_unless-IsField false hs h a f = All-append IsField hs (h ∷ []) a (f, tt)

add_default_headers-IsField :
    (hs : List Header) (body host : Bytes)
    → All IsField hs
    → IsField (codes "Host", host)
    → All IsField (add_default_headers hs body host)
unfolding add_default_headers
add_default_headers-IsField hs body host a f =
    let seen = see_all nothing_seen hs in
    push_unless-IsField seen.connection _ _
      (push_unless-IsField seen.host _ _
        (push_unless-IsField seen.content_length hs _ a (length-IsField (length body))) f)
      connection-IsField

-- The first line of a request.
abbrev pub request_line : Bytes → Bytes → Bytes
request_line method path = method ++ codes " " ++ path ++ codes " HTTP/1.1"

request_line-IsFull :
    (method path : Bytes)
    → is_line method ≡ true
    → is_line path ≡ true
    → IsFull (request_line method path)
request_line-IsFull method path e₁ e₂ = record {
  whole =
      is_line-append (method ++ codes " " ++ path) (codes " HTTP/1.1")
        (is_line-append (method ++ codes " ") path
          (is_line-append method (codes " ") e₁ (unfold is_line in refl)) e₂)
        (unfold is_line in refl);
  full = full method;
}
  where
    full : (m : Bytes) → is_empty (request_line m path) ≡ false
    full [] = refl
    full (b ∷ m) = refl

read_request_named :
    (method path : Bytes) (headers : List Header) (body host : Bytes)
    → is_line method ≡ true
    → is_line path ≡ true
    → All IsField headers
    → IsField (codes "Host", host)
    → read_request (Request.build_request method path (add_default_headers headers body host) body)
      ≡ some (request_line method path, add_default_headers headers body host, body)
unfolding request_head
read_request_named method path headers body host e₁ e₂ a f =
    ap read_request (build_request_named method path headers body host)
    ∙ read_request-serialize_headers (request_line method path)
        (add_default_headers headers body host) body (request_line-IsFull method path e₁ e₂)
        (add_default_headers-IsField headers body host a f)

-- The requests that are written to the socket and to the pipe are read back: a server that looks for
-- the first empty line, and splits what is in front of it at CRLF, gets the method and the path in the
-- first line, the caller's headers, and the body. Behind the caller's headers come those of these that
-- a lookup does not find among them: Content-Length with the length of the body, Host with "unix" or
-- "pipe", and Connection with "close". The method, the path and the headers' values have no CR or LF,
-- the names no colon either, and the values no leading white space.
pub read_request-build_request :
    (method path : Bytes) (headers : List Header) (body : Bytes)
    → is_line method ≡ true
    → is_line path ≡ true
    → All IsField headers
    → (read_request (Uds.build_request method path headers body)
        ≡ some (request_line method path, completed headers body (codes "unix"), body))
      × (read_request (Pipe.build_request method path headers body)
          ≡ some (request_line method path, completed headers body (codes "pipe"), body))
unfolding Uds.build_request Pipe.build_request
read_request-build_request method path headers body e₁ e₂ a = (
  read_request_named method path headers body (codes "unix") e₁ e₂ a unix-IsField
      ∙ ap (λ hs. some (request_line method path, hs, body))
          (add_default_headers-completed headers body (codes "unix")),
  read_request_named method path headers body (codes "pipe") e₁ e₂ a pipe-IsField
      ∙ ap (λ hs. some (request_line method path, hs, body))
          (add_default_headers-completed headers body (codes "pipe")),
)
