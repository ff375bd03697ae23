-- ===== src/Text/Utf8.antt =====
-- `std::str::from_utf8`: which byte strings are a `str`.
use libagent.Base.{
  ℕ, Bool, true, false, ◌&&◌, Option, none, some, [], ◌∷◌, leb, ltb, ◌==◌, if◌then◌else◌,
}
use libagent.Text.{Bytes}

-- What may come next: a first byte, or a continuation byte in a range with so many more behind it.
pub data Expect : Type 0 where
  first : Expect
  one two three : Expect
  within : ℕ → ℕ → Expect → Expect

abbrev in_range : ℕ → ℕ → ℕ → Bool
in_range lo hi b = leb lo b && leb b hi

-- The first byte of a character says how many follow, and narrows the second byte.
after_first : ℕ → Option Expect
after_first b =
    if ltb b 0x80
    then some first
    else if in_range 0xC2 0xDF b
    then some one
    else if b == 0xE0
    then some (within 0xA0 0xBF one)
    else if b == 0xED
    then some (within 0x80 0x9F one)
    else if in_range 0xE1 0xEF b
    then some two
    else if b == 0xF0
    then some (within 0x90 0xBF two)
    else if b == 0xF4
    then some (within 0x80 0x8F two)
    else if in_range 0xF1 0xF3 b
    then some three
    else none

accept : Expect → ℕ → Option Expect
unfolding after_first
accept first b = after_first b
accept one b = if in_range 0x80 0xBF b then some first else none
accept two b = if in_range 0x80 0xBF b then some one else none
accept three b = if in_range 0x80 0xBF b then some two else none
accept (within lo hi next) b = if in_range lo hi b then some next else none

utf8_from : Expect → Bytes → Bool
unfolding accept
utf8_from first [] = true
utf8_from _ [] = false
utf8_from e (b ∷ s) = elim (accept e b) [ none ↦ false | some e' ↦ utf8_from e' s ]

unfoldable pub is_utf8 : Bytes → Bool
unfolding utf8_from
is_utf8 s = utf8_from first s
