-- ===== src/Text/Spaces.antt =====
-- Unicode white space at either end of a text, as `trim`, `trim_start` and `split_whitespace` of
-- Rust's standard library see it, on the UTF-8 bytes.
pub mod Words
use libagent.Base.{
  ℕ, zero, suc, ◌≡◌, refl, ap, ◌∙◌, Bool, ◌&&◌, ◌||◌, Option, none, some, [], ◌∷◌, reverse, leb,
  ◌==◌, if◌then◌else◌,
}
use mathlib.Core.List.{reverse-reverse}
use libagent.Text.{Bytes, is_empty}

-- The white space characters of one byte.
unfoldable pub ascii_space : ℕ → Bool
ascii_space b = (leb 9 b && leb b 13) || b == 32

-- U+0085 and U+00A0 behind their first byte, hexadecimal c2.
abbrev space_of_two : ℕ → ℕ → Bool
space_of_two a b = a == 0xC2 && (b == 0x85 || b == 0xA0)

-- U+1680, U+2000 to U+200A, U+2028, U+2029, U+202F, U+205F and U+3000.
abbrev space_of_three : ℕ → ℕ → ℕ → Bool
space_of_three a b c =
    (a == 0xE1 && (b == 0x9A && c == 0x80))
    || ((a == 0xE2
          && ((b == 0x80 && ((leb 0x80 c && leb c 0x8A) || ((c == 0xA8 || c == 0xA9) || c == 0xAF)))
              || (b == 0x81 && c == 0x9F)))
        || (a == 0xE3 && (b == 0x80 && c == 0x80)))

-- The number of bytes of the white space character at the front; 0 if there is none.
unfoldable pub space_front : Bytes → ℕ
unfolding ascii_space
space_front [] = 0
space_front (a ∷ []) = if ascii_space a then 1 else 0
space_front (a ∷ b ∷ []) = if ascii_space a then 1 else if space_of_two a b then 2 else 0
space_front (a ∷ b ∷ c ∷ s) =
    if ascii_space a
    then 1
    else if space_of_two a b
    then 2
    else if space_of_three a b c
    then 3
    else 0

-- The same at the end of a text that is given backwards.
unfoldable pub space_back : Bytes → ℕ
unfolding ascii_space
space_back [] = 0
space_back (a ∷ []) = if ascii_space a then 1 else 0
space_back (b ∷ a ∷ []) = if ascii_space b then 1 else if space_of_two a b then 2 else 0
space_back (c ∷ b ∷ a ∷ s) =
    if ascii_space c
    then 1
    else if space_of_two b c
    then 2
    else if space_of_three a b c
    then 3
    else 0

-- Drops characters that `width` measures; the first argument counts bytes of one still to drop.
trim_from : (Bytes → ℕ) → ℕ → Bytes → Bytes
trim_from width k [] = []
trim_from width (suc k) (b ∷ s) = trim_from width k s
trim_from width zero (b ∷ s) = elim (width (b ∷ s)) [ zero ↦ b ∷ s | suc k ↦ trim_from width k s ]

unfoldable pub trim_start : Bytes → Bytes
unfolding trim_from space_front
trim_start s = trim_from space_front 0 s

unfoldable pub trim_end : Bytes → Bytes
unfolding trim_from space_back
trim_end s = reverse (trim_from space_back 0 (reverse s))

unfoldable pub trim : Bytes → Bytes
unfolding trim_start trim_end
trim s = trim_end (trim_start s)

-- `trim_end_matches('\r')`.
unfoldable pub drop_cr : Bytes → Bytes
drop_cr [] = []
drop_cr (b ∷ s) = let rest = drop_cr s in if b == 13 then rest else b ∷ s

unfoldable pub trim_end_cr : Bytes → Bytes
unfolding drop_cr
trim_end_cr s = reverse (drop_cr (reverse s))

unfoldable pub take_word : Bytes → Bytes
unfolding space_front
take_word [] = []
take_word (b ∷ s) = let rest = take_word s in if space_front (b ∷ s) == 0 then b ∷ rest else []

unfoldable pub drop_word : Bytes → Bytes
unfolding space_front
drop_word [] = []
drop_word (b ∷ s) = let rest = drop_word s in if space_front (b ∷ s) == 0 then rest else b ∷ s

-- One step of `split_whitespace`: the next word and the text behind it.
unfoldable pub next_word : Bytes → Option (Bytes × Bytes)
unfolding trim_start take_word drop_word
next_word s = let t = trim_start s in if is_empty t then none else some (take_word t, drop_word t)

-- A text that does not begin with white space is left alone.
pub trim_start_of_word : (s : Bytes) → space_front s ≡ 0 → trim_start s ≡ s
unfolding trim_start
trim_start_of_word [] h = refl
trim_start_of_word (b ∷ s) h = rw (h, trim_from)

-- One leading blank goes.
pub trim_start-space : (s : Bytes) → trim_start (32 ∷ s) ≡ trim_start s
unfolding trim_start
trim_start-space [] = refl
trim_start-space (a ∷ []) = refl
trim_start-space (a ∷ b ∷ s) = refl

-- Nor is one that does not end in white space.
pub trim_end_of_word : (s : Bytes) → space_back (reverse s) ≡ 0 → trim_end s ≡ s
unfolding trim_end
trim_end_of_word s h = ap reverse (untouched (reverse s) h) ∙ reverse-reverse s
  where
    untouched : (t : Bytes) → space_back t ≡ 0 → trim_from space_back 0 t ≡ t
    untouched [] h = refl
    untouched (b ∷ t) h = rw (h, trim_from)
