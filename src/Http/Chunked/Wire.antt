-- ===== src/Http/Chunked/Wire.antt =====
-- What a chunked body looks like on the wire, stated without the decoder (RFC 9112, section 7.1). A
-- size line is text in UTF-8, its extensions included, since the decoder asks for that.
use libagent.Base.{ℕ, ◌+◌, ◌-◌, ◌*◌, ◌≤◌, ◌<◌, ◌≡◌, ◌≢◌, ◌⊎◌, true, [], ◌∷◌, ◌++◌, length, All}
use libagent.Text.{Bytes, lf, crlf}
use libagent.Text.Utf8.{is_utf8}
use libagent.Text.Number.{u64_max}
use libagent.Http.{max_chunk_size}

-- A hexadecimal digit, and its value.
abbrev pub HexDigit : ℕ → ℕ → Type 0
HexDigit b d =
    ((b ≡ b'0' + d) × (d < 10))
    ⊎ (((b ≡ b'a' + (d - 10)) × (10 ≤ d) × (d < 16))
        ⊎ ((b ≡ b'A' + (d - 10)) × (10 ≤ d) × (d < 16)))

-- `HexFrom n s m`: behind digits of value `n`, the digits `s` make the number `m`.
pub data HexFrom : ℕ → Bytes → ℕ → Type 0 where
  done : (n : ℕ) → HexFrom n [] n
  digit : (n b d m : ℕ) (s : Bytes) → HexDigit b d → HexFrom (n * 16 + d) s m → HexFrom n (b ∷ s) m

-- Chunk extensions: nothing, or what follows a semicolon.
abbrev pub IsExtension : Bytes → Type 0
IsExtension s = (s ≡ []) ⊎ ((more : Bytes) × (s ≡ b';' ∷ more))

-- A size line without its CRLF: the hexadecimal digits of the size and the extensions, on one line.
pub record SizeLine (line : Bytes) (size : ℕ) : Type 0 where
  pub one_line : All (λ b. b ≢ lf) line
  pub short : length line ≤ 1023
  pub first : ℕ
  pub digits : Bytes
  pub extension : Bytes
  pub parts : line ≡ (first ∷ digits) ++ extension
  pub number : HexFrom 0 (first ∷ digits) size
  pub extends : IsExtension extension
  pub text : is_utf8 line ≡ true
  pub fits : size ≤ u64_max

-- `Wire w b`: the bytes `w` are chunks of the body `b`, the last chunk, and a trailer.
pub data Wire : Bytes → Bytes → Type 0 where
  last : (line trailer : Bytes) → SizeLine line 0 → Wire ((line ++ crlf) ++ trailer) []
  more :
      (line chunk : Bytes) {w b : Bytes}
      → SizeLine line (length chunk)
      → 0 < length chunk
      → length chunk ≤ max_chunk_size
      → Wire w b
      → Wire ((line ++ crlf) ++ (chunk ++ (crlf ++ w))) (chunk ++ b)
