-- ===== src/Http/Framing.antt =====
-- http.rs: `memchr_crlf_crlf` and `read_until_double_crlf`.
pub mod Found
pub mod Delivers
use libagent.Base.{
  ℕ, zero, suc, ◌+◌, ◌&&◌, Option, none, some, [], ◌∷◌, ◌++◌, ltb, ◌==◌, if◌then◌else◌, length, ok,
  err,
}
use libagent.Text.{Bytes, cr, lf}
use libagent.Io.{Reader, Read, got, fault}
use libagent.Http.{
  Attempt, max_head_size, read_error, eof_in_headers, headers_too_large, out_of_fuel,
}

abbrev pub crlf_crlf : Bytes
crlf_crlf = cr ∷ lf ∷ cr ∷ lf ∷ []

-- The loop over `i`, on the bytes from index `i` on.
unfoldable pub memchr_from : ℕ → Bytes → Option ℕ
memchr_from i (a ∷ b ∷ c ∷ d ∷ bs) =
    let rest = memchr_from (i + 1) (b ∷ c ∷ d ∷ bs) in
    if (a == cr && b == lf) && (c == cr && d == lf) then some (i + 4) else rest
memchr_from i _ = none

unfoldable pub memchr_crlf_crlf : Bytes → Option ℕ
unfolding memchr_from
memchr_crlf_crlf buf = memchr_from 0 buf

module _ {S : Type 0} (read : Reader S) where
  -- What the loop does with one read into its buffer of 1024 bytes: go on with more bytes, or stop.
  unfoldable pub after_read :
      Bytes → (Bytes → S → Attempt (ℕ × Bytes × S)) → Read S → Attempt (ℕ × Bytes × S)
  after_read buf go (fault f s) = err (read_error f)
  after_read buf go (got [] s) = err eof_in_headers
  after_read buf go (got (b ∷ bs) s) =
      let next = go (buf ++ b ∷ bs) s in
      if ltb max_head_size (length (buf ++ b ∷ bs)) then err headers_too_large else next

  unfoldable pub read_head : ℕ → Bytes → S → Attempt (ℕ × Bytes × S)
  unfolding after_read memchr_crlf_crlf
  read_head zero buf s = elim (memchr_crlf_crlf buf) [
    | some pos ↦ ok (pos, buf, s)
    | none ↦ err out_of_fuel
  ]
  read_head (suc fuel) buf s = elim (memchr_crlf_crlf buf) [
    | some pos ↦ ok (pos, buf, s)
    | none ↦ after_read buf (λ buf' s'. read_head fuel buf' s') (read 1024 s)
  ]

  -- The position behind the headers, the buffer and the stream.
  unfoldable pub read_until_double_crlf : Bytes → S → Attempt (ℕ × Bytes × S)
  unfolding read_head
  read_until_double_crlf buf s = read_head (suc max_head_size) buf s
