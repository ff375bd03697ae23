-- ===== src/Http/Chunked.antt =====
-- http.rs: `read_chunked`, the decoder of a chunked body.
pub mod Bounds
pub mod Wire
pub mod Sizes
pub mod Decode
use libagent.Base.{
  ℕ, zero, suc, ◌-◌, Bool, true, false, ◌&&◌, Option, none, some, List, [], ◌∷◌, ◌++◌, ltb, ◌==◌,
  if◌then◌else◌, length, take, ok, err, ◌>>=◌,
}
use libagent.Text.{Bytes, cr, lf, crlf, bytes_eq}
use libagent.Text.Spaces.{trim}
use libagent.Text.Number.{u64_max, from_str_radix}
use libagent.Text.Lines.{split_byte}
use libagent.Text.Utf8.{is_utf8}
use libagent.Io.{Reader, Read, got, fault}
use libagent.Http.{
  Attempt, max_body_size, max_chunk_size, read_error, eof_in_chunked, chunk_line_too_long,
  invalid_chunk_line, invalid_chunk_utf8, invalid_chunk_size, chunk_too_large,
  chunked_body_too_large, invalid_chunk_terminator, out_of_fuel,
}
use libagent.Http.Transfer.{saturating_add, read_exact_len, fill_exact}

-- `line.split(';').next().unwrap_or("")`.
abbrev pub first_part : List Bytes → Bytes
first_part [] = []
first_part (p ∷ ps) = p

-- Whether the line is too short, whether it is a `str`, and the number in it.
abbrev pub size_result : Bool → Bool → Option ℕ → Attempt ℕ
size_result true _ _ = err invalid_chunk_line
size_result false false _ = err invalid_chunk_utf8
size_result false true none = err invalid_chunk_size
size_result false true (some size) = ok size

-- The number in a size line, which still has its CRLF.
unfoldable pub chunk_size : Bytes → Attempt ℕ
chunk_size line_buf =
    let line = take (length line_buf - 2) line_buf in
    size_result (ltb (length line_buf) 2) (is_utf8 line)
      (from_str_radix 16 u64_max (trim (first_part (split_byte b';' line))))

-- The rounds that `read_exact` may spend on the two bytes and on interrupted reads.
abbrev pub exact_fuel : ℕ
exact_fuel = 1000

module _ {S : Type 0} (read : Reader S) where
  -- One byte of a size line. `last` is the byte before it.
  pub line_byte : ℕ → Bytes → (ℕ → Bytes → S → Attempt (Bytes × S)) → Read S → Attempt (Bytes × S)
  line_byte last line go (fault f s) = err (read_error f)
  line_byte last line go (got [] s) = err eof_in_chunked
  line_byte last line go (got (b ∷ bs) s) =
      let line' = line ++ b ∷ [] in
      let next = go b line' s in
      if last == cr && b == lf
      then ok (line', s)
      else if ltb 1024 (length line')
      then err chunk_line_too_long
      else next

  unfoldable pub read_line : ℕ → ℕ → Bytes → S → Attempt (Bytes × S)
  unfolding line_byte
  read_line zero last line s = err out_of_fuel
  read_line (suc fuel) last line s =
      line_byte last line (λ last' line' s'. read_line fuel last' line' s') (read 1 s)

  -- `let _ = stream.read(&mut tmp)`: a read whose result is ignored.
  abbrev skipped : Read S → S
  skipped (got bs s) = s
  skipped (fault f s) = s

  unfoldable pub skip : S → S
  skip s = skipped (read 1 s)

  -- The data of one chunk and the CRLF behind it.
  unfoldable pub read_data : ℕ → S → Attempt (Bytes × S)
  read_data size s = do
    (chunk, s₁) ← read_exact_len read size s
    (end, s₂) ← fill_exact read exact_fuel 2 s₁
    if bytes_eq end crlf then ok (chunk, s₂) else err invalid_chunk_terminator

  -- What follows a size line: the end of the body, or one chunk and the chunks behind it.
  unfoldable pub take_chunk :
      Bytes → (Bytes → S → Attempt (Bytes × S)) → ℕ → S → Attempt (Bytes × S)
  take_chunk body go size s₁ =
      let more = (do (chunk, s₂) ← read_data size s₁; go (body ++ chunk) s₂) in
      if size == 0
      then ok (body, skip (skip s₁))
      else if ltb max_chunk_size size
      then err (chunk_too_large size)
      else if ltb max_body_size (saturating_add (length body) size)
      then err chunked_body_too_large
      else more

  unfoldable pub read_chunks : ℕ → Bytes → S → Attempt (Bytes × S)
  read_chunks zero body s = err out_of_fuel
  read_chunks (suc fuel) body s = do
    (line, s₁) ← read_line 1025 0 [] s
    size ← chunk_size line
    take_chunk body (λ body' s'. read_chunks fuel body' s') size s₁

  -- Every chunk but the last adds a byte to the body, so `max_body_size + 1` rounds are enough.
  unfoldable pub read_chunked : S → Attempt (Bytes × S)
  read_chunked s = read_chunks (suc max_body_size) [] s
