-- ===== src/Text/Number/Digits.antt =====
-- The text of a number stands on one line and has no white space in front.
use libagent.Base.{
  ℕ, zero, suc, ◌+◌, ◌/◌, ◌%◌, ◌≤◌, ◌<◌, ◌≡◌, refl, sym, subst, inl, inr, false, [], ◌∷◌, ◌++◌,
  append-nil, append_assoc, arith, ltb, ◌==◌, ltb→lt, ltb-false→le, Bool-cases, on_true, on_false,
}
use libagent.Text.{Bytes}
use libagent.Text.Number.{decimal, to_string}
use libagent.Text.Spaces.{ascii_space, space_front, trim_start, trim_start_of_word}

-- The text starts with a digit.
abbrev StartsDigit : Bytes → Type 0
StartsDigit [] = ⊥
StartsDigit (b ∷ s) = (b'0' ≤ b) × (b ≤ b'9')

decimal-StartsDigit : (f n : ℕ) (rest : Bytes) → n < f → StartsDigit (decimal f n ++ rest)
unfolding decimal
decimal-StartsDigit zero n rest h = absurd (omega arith)
decimal-StartsDigit (suc f) n rest h = elim (Bool-cases (ltb n 10)) [
  | inl e ↦ let small = ltb→lt n 10 e in rw e (omega arith, omega arith)
  | inr e ↦
      let large = ltb-false→le n 10 e in
      rw e (
        subst StartsDigit (sym (append_assoc (decimal f (n / 10)) ((b'0' + n % 10) ∷ []) rest))
          (decimal-StartsDigit f (n / 10) ((b'0' + n % 10) ∷ rest) (omega arith)))
]

digit-ascii_space : (b : ℕ) → b'0' ≤ b → b ≤ b'9' → ascii_space b ≡ false
unfolding ascii_space
digit-ascii_space b h k = ground arith

digit_not_first : (b n : ℕ) → b ≤ b'9' → b'9' < n → (b == n) ≡ false
digit_not_first b n h k = ground arith

StartsDigit-space_front : (s : Bytes) → StartsDigit s → space_front s ≡ 0
unfolding space_front
StartsDigit-space_front [] h = refl
StartsDigit-space_front (a ∷ []) (h, k) = rw (digit-ascii_space a h k) refl
StartsDigit-space_front (a ∷ b ∷ []) (h, k) =
    rw (digit-ascii_space a h k, digit_not_first a 0xC2 k (omega arith)) refl
StartsDigit-space_front (a ∷ b ∷ c ∷ s) (h, k) =
    rw
      (
        digit-ascii_space a h k,
        digit_not_first a 0xC2 k (omega arith),
        digit_not_first a 0xE1 k (omega arith),
        digit_not_first a 0xE2 k (omega arith),
        digit_not_first a 0xE3 k (omega arith),
      )
      refl

pub trim_start-to_string : (n : ℕ) → trim_start (to_string n) ≡ to_string n
unfolding to_string
trim_start-to_string n = trim_start_of_word (to_string n) (
    StartsDigit-space_front (to_string n) (
      subst StartsDigit (append-nil (decimal (suc n) n))
        (decimal-StartsDigit (suc n) n [] (omega arith))))

-- What holds of texts of digits, and of two of them put together, holds of a number's text.
pub decimal_induction :
    (P : Bytes → Type 0)
    → ((d : ℕ) → d < 10 → P ((b'0' + d) ∷ []))
    → ((s : Bytes) (d : ℕ) → d < 10 → P s → P (s ++ (b'0' + d) ∷ []))
    → (n : ℕ) → P (to_string n)
unfolding to_string
decimal_induction P one more n = go (suc n) n (omega arith)
  where
    go : (f m : ℕ) → m < f → P (decimal f m)
    go zero m h = absurd (omega arith)
    go (suc f) m h = elim (Bool-cases (ltb m 10)) [
      | inl e ↦ on_true P (ltb m 10) _ _ e (one m (ltb→lt m 10 e))
      | inr e ↦
          let large = ltb-false→le m 10 e in
          on_false P (ltb m 10) _ _ e
            (more (decimal f (m / 10)) (m % 10) (omega arith) (go f (m / 10) (omega arith)))
    ]
