-- ===== src/Text/Spaces/Words.antt =====
-- Words of one-byte characters, as `split_whitespace` cuts them off.
use libagent.Base.{ℕ, ◌≤◌, ◌<◌, ◌≡◌, refl, ap, false, some, [], ◌∷◌, ◌++◌, arith, ◌==◌, All}
use libagent.Text.{Bytes, is_empty}
use libagent.Text.Spaces.{
  ascii_space, space_front, take_word, drop_word, next_word, trim_start_of_word, trim_start-space,
}

-- A visible character of one byte.
pub record IsGraph (b : ℕ) : Type 0 where
  pub from : 33 ≤ b
  pub to : b < 128

pub graph-ascii_space : (b : ℕ) → IsGraph b → ascii_space b ≡ false
unfolding ascii_space
graph-ascii_space b p = let h = p.from in ground arith

pub not_equal : (b n : ℕ) → b < 128 → 128 ≤ n → (b == n) ≡ false
not_equal b n h k = ground arith

pub graph-space_front : (b : ℕ) (s : Bytes) → IsGraph b → space_front (b ∷ s) ≡ 0
unfolding space_front
graph-space_front b [] p = rw (graph-ascii_space b p) refl
graph-space_front b (c ∷ []) p =
    rw (graph-ascii_space b p, not_equal b 0xC2 p.to (omega arith)) refl
graph-space_front b (c ∷ d ∷ s) p =
    rw
      (
        graph-ascii_space b p,
        not_equal b 0xC2 p.to (omega arith),
        not_equal b 0xE1 p.to (omega arith),
        not_equal b 0xE2 p.to (omega arith),
        not_equal b 0xE3 p.to (omega arith),
      )
      refl

blank-space_front : (s : Bytes) → space_front (32 ∷ s) ≡ 1
unfolding space_front
blank-space_front [] = refl
blank-space_front (c ∷ []) = refl
blank-space_front (c ∷ d ∷ s) = refl

take_word-blank : (w s : Bytes) → All IsGraph w → take_word (w ++ 32 ∷ s) ≡ w
unfolding take_word
take_word-blank [] s a = rw (blank-space_front s) refl
take_word-blank (b ∷ w) s (p, a) =
    rw (graph-space_front b (w ++ 32 ∷ s) p) (ap (λ t. b ∷ t) (take_word-blank w s a))

drop_word-blank : (w s : Bytes) → All IsGraph w → drop_word (w ++ 32 ∷ s) ≡ 32 ∷ s
unfolding drop_word
drop_word-blank [] s a = rw (blank-space_front s) refl
drop_word-blank (b ∷ w) s (p, a) = rw (graph-space_front b (w ++ 32 ∷ s) p) (drop_word-blank w s a)

-- The first word is what stands before the first blank.
pub next_word-blank :
    (w s : Bytes) → is_empty w ≡ false → All IsGraph w → next_word (w ++ 32 ∷ s) ≡ some (w, 32 ∷ s)
next_word-blank [] s e a = absurd (cc (e))
next_word-blank (b ∷ w) s e (p, a) =
    unfold next_word in
    rw
      (
        trim_start_of_word (b ∷ (w ++ 32 ∷ s)) (graph-space_front b (w ++ 32 ∷ s) p),
        take_word-blank (b ∷ w) s (p, a),
        drop_word-blank (b ∷ w) s (p, a),
      )
      refl

-- A blank in front makes no difference.
pub next_word-space : (s : Bytes) → next_word (32 ∷ s) ≡ next_word s
unfolding next_word
next_word-space s = rw (trim_start-space s) refl
