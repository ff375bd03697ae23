-- ===== src/Text/Number/Printed.antt =====
-- Reading back a number that was printed.
use libagent.Base.{
  ℕ, zero, suc, ◌+◌, ◌*◌, ◌/◌, ◌%◌, ◌≤◌, ◌<◌, ◌≡◌, refl, sym, ap, ◌∙◌, subst, ◌≢◌, inl, inr, true,
  some, [], ◌∷◌, ◌++◌, append-nil, append_assoc, arith, ltb, leb, ltb→lt, ltb-false→le, Bool-cases,
}
use libagent.Text.{Bytes}
use libagent.Text.Number.{to_digit, parse_digits, from_str_radix, decimal, to_string}

to_digit_lem : (d : ℕ) → d < 10 → to_digit 10 (b'0' + d) ≡ some d
unfolding to_digit
to_digit_lem d h = ground arith

-- One digit more.
parse_digits_cons :
    (top acc d : ℕ) (rest : Bytes)
    → d < 10
    → acc * 10 + d ≤ top
    → parse_digits 10 top acc ((b'0' + d) ∷ rest) ≡ parse_digits 10 top (acc * 10 + d) rest
unfolding parse_digits
parse_digits_cons top acc d rest h k =
    let fits : leb (acc * 10 + d) top ≡ true = ground arith in
    rw (to_digit_lem d h, parse_digits) (rw fits refl)

parse_digits-decimal :
    (f n top : ℕ) (rest : Bytes)
    → n < f
    → n ≤ top
    → parse_digits 10 top 0 (decimal f n ++ rest) ≡ parse_digits 10 top n rest
unfolding decimal
parse_digits-decimal zero n top rest h k = absurd (omega arith)
parse_digits-decimal (suc f) n top rest h k = elim (Bool-cases (ltb n 10)) [
  | inl e ↦
      let small = ltb→lt n 10 e in
      let same : 0 * 10 + n ≡ n = omega arith in
      rw e (parse_digits_cons top 0 n rest small (omega arith) ∙ rw same refl)
  | inr e ↦
      let large = ltb-false→le n 10 e in
      let back : n / 10 * 10 + n % 10 ≡ n = omega arith in
      rw e (
        ap (parse_digits 10 top 0) (append_assoc (decimal f (n / 10)) ((b'0' + n % 10) ∷ []) rest)
        ∙ (parse_digits-decimal f (n / 10) top ((b'0' + n % 10) ∷ rest) (omega arith) (omega arith)
            ∙ (parse_digits_cons top (n / 10) (n % 10) rest (omega arith) (omega arith)
                ∙ rw back refl)))
]

-- The text starts, and not with a sign.
abbrev IsUnsigned : Bytes → Type 0
IsUnsigned [] = ⊥
IsUnsigned (b ∷ s) = b ≢ b'+'

decimal-IsUnsigned : (f n : ℕ) (rest : Bytes) → n < f → IsUnsigned (decimal f n ++ rest)
unfolding decimal
decimal-IsUnsigned zero n rest h = absurd (omega arith)
decimal-IsUnsigned (suc f) n rest h = elim (Bool-cases (ltb n 10)) [
  | inl e ↦ rw e (λ s. omega arith)
  | inr e ↦
      let large = ltb-false→le n 10 e in
      rw e (
        subst IsUnsigned (sym (append_assoc (decimal f (n / 10)) ((b'0' + n % 10) ∷ []) rest))
          (decimal-IsUnsigned f (n / 10) ((b'0' + n % 10) ∷ rest) (omega arith)))
]

from_str_radix_unsigned :
    (radix top : ℕ) (s : Bytes)
    → IsUnsigned s
    → from_str_radix radix top s ≡ parse_digits radix top 0 s
unfolding from_str_radix
from_str_radix_unsigned radix top [] h = absurd h
from_str_radix_unsigned radix top (b ∷ []) h = ground arith
from_str_radix_unsigned radix top (b ∷ c ∷ s) h = ground arith

-- A number that fits is read back from its decimal text.
pub from_str_radix-to_string : (top n : ℕ) → n ≤ top → from_str_radix 10 top (to_string n) ≡ some n
unfolding to_string
from_str_radix-to_string top n h =
    ap (from_str_radix 10 top) (sym (append-nil (decimal (suc n) n)))
    ∙ (from_str_radix_unsigned 10 top (decimal (suc n) n ++ [])
          (decimal-IsUnsigned (suc n) n [] (omega arith))
        ∙ (parse_digits-decimal (suc n) n top [] (omega arith) h ∙ unfold parse_digits in refl))
