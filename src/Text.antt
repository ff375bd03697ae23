-- ===== src/Text.antt =====
-- Rust's `str` and `[u8]`: a byte string is a list of numbers, and a `str` is the list of its UTF-8
-- bytes, as in memory. Here are the standard library's operations that the sources call on texts.
pub mod Equality
pub mod Spaces
pub mod Number
pub mod Lines
pub mod Utf8
use Prim.Native.Char.{code}
use Prim.Native.String.{String}
use libagent.Base.{
  ℕ, suc, ◌+◌, Bool, true, false, ◌&&◌, ◌||◌, Option, none, some, List, [], ◌∷◌, ◌++◌, leb, ◌==◌,
  if◌then◌else◌,
}

abbrev pub Bytes : Type 0
Bytes = List ℕ

-- The bytes of an ASCII literal.
abbrev pub codes : String → Bytes
codes String.[] = []
codes (String.◌∷◌ c s) = code c ∷ codes s

abbrev pub cr : ℕ
cr = 13

abbrev pub lf : ℕ
lf = 10

abbrev pub colon : ℕ
colon = b':'

abbrev pub space : ℕ
space = 32

abbrev pub crlf : Bytes
crlf = cr ∷ lf ∷ []

-- `==` on texts.
unfoldable pub bytes_eq : Bytes → Bytes → Bool
bytes_eq [] [] = true
bytes_eq [] (b ∷ bs) = false
bytes_eq (a ∷ as') [] = false
bytes_eq (a ∷ as') (b ∷ bs) = (a == b) && bytes_eq as' bs

abbrev pub is_empty : Bytes → Bool
is_empty [] = true
is_empty (b ∷ bs) = false

-- `str::starts_with`.
unfoldable pub starts_with : Bytes → Bytes → Bool
starts_with bs [] = true
starts_with [] (p ∷ ps) = false
starts_with (b ∷ bs) (p ∷ ps) = (b == p) && starts_with bs ps

-- `str::contains`.
unfoldable pub contains : Bytes → Bytes → Bool
unfolding starts_with
contains [] p = starts_with [] p
contains (b ∷ bs) p = starts_with (b ∷ bs) p || contains bs p

-- `to_ascii_lowercase`, on one byte and on a text.
unfoldable pub to_lower : ℕ → ℕ
to_lower b = if leb b'A' b && leb b b'Z' then b + 32 else b

unfoldable pub to_ascii_lowercase : Bytes → Bytes
unfolding to_lower
to_ascii_lowercase [] = []
to_ascii_lowercase (b ∷ bs) = to_lower b ∷ to_ascii_lowercase bs

-- `str::find` of one ASCII character: the index of its first byte.
unfoldable pub find_byte : ℕ → Bytes → Option ℕ
find_byte c [] = none
find_byte c (b ∷ bs) =
    let rest = find_byte c bs in
    if b == c then some 0 else (elim rest [ none ↦ none | some i ↦ some (suc i) ])

-- The prefix of the paths of Windows pipes.
abbrev pub pipe_prefix : Bytes
pipe_prefix = b'\\' ∷ b'\\' ∷ b'.' ∷ b'\\' ∷ codes "pipe" ++ b'\\' ∷ []
