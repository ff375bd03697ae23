-- ===== src/Text/Number.antt =====
-- Unsigned numbers as text: `to_string`, `str::parse` and `from_str_radix`.
pub mod Printed
pub mod Digits
use libagent.Base.{
  ℕ, zero, suc, ◌+◌, ◌-◌, ◌*◌, ◌/◌, ◌%◌, ◌&&◌, Option, none, some, [], ◌∷◌, ◌++◌, leb, ltb, ◌==◌,
  if◌then◌else◌,
}
use libagent.Text.{Bytes}

abbrev pub u16_max : ℕ
u16_max = 65535

abbrev pub u32_max : ℕ
u32_max = 4294967295

abbrev pub u64_max : ℕ
u64_max = 18446744073709551615

-- `char::to_digit` below the radix.
unfoldable pub to_digit : ℕ → ℕ → Option ℕ
to_digit radix b =
    let v : ℕ =
      if leb b'0' b && leb b b'9'
      then b - b'0'
      else if leb b'a' b && leb b b'z'
      then b - b'a' + 10
      else if leb b'A' b && leb b b'Z'
      then b - b'A' + 10
      else radix in
    if ltb v radix then some v else none

-- The digits left, behind the value so far. A value above `top` overflows.
unfoldable pub parse_digits : ℕ → ℕ → ℕ → Bytes → Option ℕ
unfolding to_digit
parse_digits radix top acc [] = some acc
parse_digits radix top acc (b ∷ s) = elim (to_digit radix b) [
  | none ↦ none
  | some d ↦ if leb (acc * radix + d) top then parse_digits radix top (acc * radix + d) s else none
]

-- A text that is empty or one sign is refused; a leading plus is skipped.
unfoldable pub from_str_radix : ℕ → ℕ → Bytes → Option ℕ
unfolding parse_digits
from_str_radix radix top [] = none
from_str_radix radix top (b ∷ []) = if b == b'+' then none else parse_digits radix top 0 (b ∷ [])
from_str_radix radix top (b ∷ c ∷ s) =
    if b == b'+' then parse_digits radix top 0 (c ∷ s) else parse_digits radix top 0 (b ∷ c ∷ s)

-- The decimal digits; the fuel is at least the number of digits.
decimal : ℕ → ℕ → Bytes
decimal zero n = []
decimal (suc f) n =
    let front = decimal f (n / 10) in
    if ltb n 10 then (b'0' + n) ∷ [] else front ++ (b'0' + n % 10) ∷ []

unfoldable pub to_string : ℕ → Bytes
unfolding decimal
to_string n = decimal (suc n) n
