-- ===== src/Http/Body.antt =====
-- http.rs: `read_http_body`.
pub mod Bounds
pub mod Content
use libagent.Base.{
  ℕ, suc, ◌-◌, Bool, false, none, some, List, ◌++◌, ltb, if◌then◌else◌, length, ok, err, ◌>>=◌,
}
use libagent.Text.{Bytes, codes, contains, to_ascii_lowercase}
use libagent.Text.Number.{u64_max, from_str_radix}
use libagent.Io.{Reader}
use libagent.Io.RestThen
use libagent.Io.RestThen.{RestThen}
use libagent.Http.{Header, Attempt, max_body_size, invalid_content_length, content_length_too_large}
use libagent.Http.Headers.{header_lookup}
use libagent.Http.Transfer.{read_exact_len, read_to_end}
use libagent.Http.Chunked.{read_chunked}

-- `matches!(header_lookup(headers, "Transfer-Encoding"), Some(v) if …)`.
unfoldable pub is_chunked : List Header → Bool
is_chunked headers = elim (header_lookup headers (codes "Transfer-Encoding")) [
  | none ↦ false
  | some v ↦ contains (to_ascii_lowercase v) (codes "chunked")
]

-- The stream of a result is not used any more.
abbrev pub body_of : {S : Type 0} → Attempt (Bytes × S) → Attempt Bytes
body_of r = do (body, s) ← r; ok body

module _ {S : Type 0} (read : Reader S) where
  -- A body of a given length: the bytes left over, and what is missing of them.
  unfoldable pub read_sized : Bytes → ℕ → S → Attempt Bytes
  read_sized rest len s =
      let more = (do (chunk, s') ← read_exact_len read (len - length rest) s; ok (rest ++ chunk)) in
      if ltb max_body_size len
      then err (content_length_too_large len)
      else if ltb (length rest) len
      then more
      else ok rest

  unfoldable pub read_http_body : S → Bytes → List Header → Attempt Bytes
  read_http_body s rest headers = elim (header_lookup headers (codes "Content-Length")) [
    | some len_str ↦ elim (from_str_radix 10 u64_max len_str) [
      | none ↦ err invalid_content_length
      | some len ↦ read_sized rest len s
    ]
    | none ↦
        if is_chunked headers
        then body_of (read_chunked (RestThen.read read) (RestThen.new rest s))
        else body_of (read_to_end read (suc max_body_size) rest s)
  ]
