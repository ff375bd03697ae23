-- ===== src/Http/Body/Bounds.antt =====
-- `read_http_body` over any reader that keeps to its buffer and is not interrupted.
use libagent.Base.{
  ℕ, suc, ◌-◌, ◌≤◌, max, ◌≢◌, inl, inr, Bool, true, false, List, ◌++◌, arith, ltb, if◌then◌else◌,
  ltb→lt, ltb-false→le, Bool-cases, Option-cases, length, length-append, ok, err, ◌>>=◌,
}
use libagent.Text.{Bytes, codes}
use libagent.Text.Number.{u64_max, from_str_radix}
use libagent.Io.{Reader, IsBounded, NeverInterrupted}
use libagent.Io.RestThen
use libagent.Io.RestThen.{RestThen}
use libagent.Io.RestThen.Delivers.{read-IsBounded, read-NeverInterrupted}
use libagent.Http.{Header, Attempt, max_body_size, out_of_fuel}
use libagent.Http.Headers.{header_lookup}
use libagent.Http.Transfer.{read_exact_len, read_to_end}
use libagent.Http.Transfer.Bounds.{Ends, HasLength, AtMost, read_exact_len-Ends, read_to_end-Ends}
use libagent.Http.Chunked.{read_chunked}
use libagent.Http.Chunked.Bounds.{read_chunked-Ends}
use libagent.Http.Body.{is_chunked, body_of, read_sized, read_http_body}

-- The attempt ended by itself: with a body of `n` bytes at most, or with an error of the source.
abbrev pub BodyEnds : ℕ → Attempt Bytes → Type 0
BodyEnds n (ok body) = length body ≤ n
BodyEnds n (err e) = e ≢ out_of_fuel

body_of-Ends :
    {S : Type 0} (n : ℕ) (r : Attempt (Bytes × S)) → Ends (AtMost n) r → BodyEnds n (body_of r)
body_of-Ends n (ok (body, s)) h = h
body_of-Ends n (err e) h = h

BodyEnds-mono : (m n : ℕ) (r : Attempt Bytes) → m ≤ n → BodyEnds m r → BodyEnds n r
BodyEnds-mono m n (ok body) h k = omega arith
BodyEnds-mono m n (err e) h k = k

module _ {S : Type 0} (read : Reader S) (bounded : IsBounded read) where
  joined-Ends :
      (rest : Bytes) (len : ℕ) (r : Attempt (Bytes × S))
      → length rest ≤ len
      → Ends (HasLength (len - length rest)) r
      → BodyEnds len (r >>= λ (p : Bytes × S). ok (rest ++ p.0))
  joined-Ends rest len (ok (chunk, s)) h k = omega (arith, length-append rest chunk)
  joined-Ends rest len (err e) h k = k

  read_sized-Ends :
      (rest : Bytes) (len : ℕ) (s : S)
      → BodyEnds (max max_body_size (length rest)) (read_sized read rest len s)
  unfolding read_sized
  read_sized-Ends rest len s = elim (Bool-cases (ltb max_body_size len)) [
    | inl e ↦ rw e (cc)
    | inr e ↦ rw e (elim (Bool-cases (ltb (length rest) len)) [
      | inl e₂ ↦
          let cap_ok = ltb-false→le max_body_size len e in
          rw e₂ (
            BodyEnds-mono len (max max_body_size (length rest)) _ (omega arith) (
              joined-Ends rest len (read_exact_len read (len - length rest) s)
                (omega (arith, ltb→lt (length rest) len e₂))
                (read_exact_len-Ends read bounded (len - length rest) s)))
      | inr e₂ ↦ rw e₂ (omega arith)
    ])
  ]

  unsized-Ends :
      NeverInterrupted read
      → (s : S) (rest : Bytes) (chunked : Bool)
      → BodyEnds (max max_body_size (length rest)) (
          if chunked
          then body_of (read_chunked (RestThen.read read) (RestThen.new rest s))
          else body_of (read_to_end read (suc max_body_size) rest s))
  unsized-Ends quiet s rest true =
      BodyEnds-mono max_body_size (max max_body_size (length rest)) _ (omega arith) (
        body_of-Ends max_body_size _ (
          read_chunked-Ends (RestThen.read read) (read-IsBounded read bounded)
            (read-NeverInterrupted read quiet) (RestThen.new rest s)))
  unsized-Ends quiet s rest false = body_of-Ends (max max_body_size (length rest)) _ (
      read_to_end-Ends read (max max_body_size (length rest)) (suc max_body_size) rest s
        (omega arith) (omega arith) (omega arith) (omega arith))

  -- Over a reader that keeps to its buffers, and of which no read is interrupted, reading a body ends,
  -- whatever the server sends, with no more bytes than the cap of 100 MiB or
  -- the bytes that were read with the headers already, whichever is more.
  pub read_http_body_bounded :
      NeverInterrupted read
      → (s : S) (rest : Bytes) (headers : List Header)
      → BodyEnds (max max_body_size (length rest)) (read_http_body read s rest headers)
  unfolding read_http_body
  read_http_body_bounded quiet s rest headers =
      elim (Option-cases (header_lookup headers (codes "Content-Length"))) [
        | inl e ↦ rw (e, read_http_body) (unsized-Ends quiet s rest (is_chunked headers))
        | inr (str, e) ↦
            rw (e, read_http_body)
              (elim (Option-cases (from_str_radix 10 u64_max str)) [
                | inl e₂ ↦ rw e₂ (cc)
                | inr (len, e₂) ↦ rw e₂ (read_sized-Ends rest len s)
              ])
      ]
