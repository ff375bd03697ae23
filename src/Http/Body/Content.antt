-- ===== src/Http/Body/Content.antt =====
-- `read_http_body` over a source: which body each of the three framings gives.
use libagent.Base.{
  ℕ, suc, ◌+◌, ◌-◌, ◌≤◌, ◌≡◌, refl, ◌∙◌, inl, inr, true, false, none, some, List, ◌++◌, arith, ltb,
  leb, if◌then◌else◌, ltb-false→le, le→ltb-false, leb→le, Bool-cases, length, take,
  take-append_length, take-append_add, ok, err, ◌>>=◌,
}
use libagent.Text.{Bytes, codes}
use libagent.Text.Number.{u64_max, from_str_radix}
use libagent.Io.{Reader, IsSource}
use libagent.Io.RestThen
use libagent.Io.RestThen.{RestThen}
use libagent.Io.RestThen.Delivers.{LiveThen, content_then, read-IsSource}
use libagent.Http.{Header, Attempt, max_body_size, eof_in_body, body_too_large}
use libagent.Http.Headers.{header_lookup}
use libagent.Http.Transfer.{read_exact_len}
use libagent.Http.Transfer.Content.{
  Taken, fill-Taken, fill_short, read_to_end-Consumed, read_to_end_large,
}
use libagent.Http.Chunked.Wire.{Wire}
use libagent.Http.Chunked.Decode.{read_chunked-Wire}
use libagent.Http.Body.{is_chunked, read_sized, read_http_body}

-- The headers state a length.
abbrev pub StatesLength : List Header → ℕ → Type 0
StatesLength headers len =
    (str : Bytes) × (header_lookup headers (codes "Content-Length") ≡ some str)
    × (from_str_radix 10 u64_max str ≡ some len)

module _ {S : Type 0} (read : Reader S) where
  stated :
      (headers : List Header) (len : ℕ) (rest : Bytes) (s : S)
      → StatesLength headers len
      → read_http_body read s rest headers ≡ read_sized read rest len s
  unfolding read_http_body
  stated headers len rest s (str, e₁, e₂) = rw (e₁, read_http_body) (rw e₂)

  module _ (Live : S → Type 0) (content : S → Bytes) (source : IsSource read Live content) where
    take_filled :
        (rest : Bytes) (len : ℕ) (s : S)
        → length rest ≤ len
        → (r : Attempt (Bytes × S)) → Taken read Live content (len - length rest) r s
        → (r >>= λ (p : Bytes × S). ok (rest ++ p.0)) ≡ ok (take len (rest ++ content s))
    take_filled rest len s h r (bs, c, e) =
        let sum : len ≡ length rest + length bs = omega arith in
        rw (c.result, sum, ← c.splits, take-append_add, take-append_length)

    -- With a stated length below the cap, and no more bytes than that read with the headers, the body is
    -- that many bytes, those that came with the headers first, and an error if fewer come.
    pub read_http_body_sized :
        (headers : List Header) (len : ℕ) (rest : Bytes) (s : S)
        → StatesLength headers len
        → len ≤ max_body_size
        → length rest ≤ len
        → Live s
        → read_http_body read s rest headers ≡ (
            if leb len (length rest + length (content s))
            then ok (take len (rest ++ content s))
            else err eof_in_body)
    unfolding read_sized read_exact_len
    read_http_body_sized headers len rest s st small fits l =
        stated headers len rest s st
        ∙ rw (le→ltb-false max_body_size len small) (elim (Bool-cases (ltb (length rest) len)) [
          | inl e ↦ rw e (elim (Bool-cases (leb len (length rest + length (content s)))) [
            | inl enough ↦ rw enough (
                take_filled rest len s fits _ (
                  fill-Taken read Live content source need need s (omega arith) l
                    (omega (arith, leb→le _ _ enough))))
            | inr short ↦ rw short (
                rw (fill_short read Live content source need need s (omega arith) l (ground arith))
                  refl)
          ])
          | inr e ↦
              let same : len ≡ length rest = omega (arith, ltb-false→le (length rest) len e) in
              let enough : leb len (length rest + length (content s)) ≡ true = ground arith in
              rw (e, enough, same, take-append_length)
        ])
      where
        need : ℕ
        need = len - length rest

    -- With neither framing the body is all that comes, up to the cap, where no more than the cap came
    -- with the headers.
    pub read_http_body_to_end :
        (headers : List Header) (rest : Bytes) (s : S)
        → header_lookup headers (codes "Content-Length") ≡ none
        → is_chunked headers ≡ false
        → Live s
        → length rest ≤ max_body_size
        → read_http_body read s rest headers ≡ (
            if leb (length rest + length (content s)) max_body_size
            then ok (rest ++ content s)
            else err body_too_large)
    read_http_body_to_end headers rest s e₁ e₂ l p =
        unfold read_http_body in
        rw (e₁, read_http_body)
          (rw e₂ (elim (Bool-cases (leb (length rest + length (content s)) max_body_size)) [
            | inl fits ↦
                let (s', r) =
                  read_to_end-Consumed read Live content source (suc max_body_size) rest s l
                    (omega arith) (leb→le _ _ fits) in
                rw (fits, r)
            | inr large ↦ rw (
              large,
              read_to_end_large read Live content source (suc max_body_size) rest s l (omega arith)
                  (omega arith) (ground arith) (ground arith),
            )
          ]))

    -- With the chunked framing the body is that of the wire format, which may begin among the bytes
    -- that came with the headers.
    pub read_http_body-Wire :
        {w b : Bytes}
        → Wire w b
        → (headers : List Header) (rest : Bytes) (s : S)
        → header_lookup headers (codes "Content-Length") ≡ none
        → is_chunked headers ≡ true
        → Live s
        → rest ++ content s ≡ w
        → length b ≤ max_body_size
        → read_http_body read s rest headers ≡ ok b
    unfolding read_http_body RestThen.new
    read_http_body-Wire wire headers rest s e₁ e₂ l split fits =
        let (r, result) =
          read_chunked-Wire (RestThen.read read) (LiveThen read Live content)
            (content_then read Live content) (read-IsSource read Live content source) wire
            (RestThen.new rest s) l split fits in
        rw (e₁, read_http_body) (rw (e₂, result))
