-- ===== src/Http/Chunked/Sizes.antt =====
-- The decoder's `chunk_size` reads the number of a size line.
use libagent.Base.{
  ℕ, ◌+◌, ◌-◌, ◌*◌, ◌≤◌, ◌<◌, ◌≡◌, refl, ap, ◌∙◌, ◌≢◌, inl, inr, true, false, some, List, [], ◌∷◌,
  ◌++◌, arith, ltb, leb, ◌==◌, length, length-append, take-append_length, reverse, All, All-append,
  ok,
}
use mathlib.Core.List.{reverse-cons}
use libagent.Text.{Bytes, crlf}
use libagent.Text.Spaces.{
  space_front, space_back, trim_end, trim, trim_start_of_word, trim_end_of_word,
}
use libagent.Text.Spaces.Words.{IsGraph, graph-ascii_space, not_equal, graph-space_front}
use libagent.Text.Number.{u64_max, to_digit, parse_digits, from_str_radix}
use libagent.Text.Lines.{cons_head, split_byte}
use libagent.Http.Chunked.{first_part, chunk_size}
use libagent.Http.Chunked.Wire.{HexDigit, HexFrom, done, digit, IsExtension, SizeLine}

to_digit_hex : (b d : ℕ) → HexDigit b d → to_digit 16 b ≡ some d
unfolding to_digit
to_digit_hex b d (inl (e, h)) = ground arith
to_digit_hex b d (inr (inl (e, h, k))) = ground arith
to_digit_hex b d (inr (inr (e, h, k))) = ground arith

hex-range : (b d : ℕ) → HexDigit b d → (48 ≤ b) × (b < 128) × (b ≢ b';')
hex-range b d (inl (e, h)) = (omega arith, omega arith, λ k. omega arith)
hex-range b d (inr (inl (e, h, k))) = (omega arith, omega arith, λ k. omega arith)
hex-range b d (inr (inr (e, h, k))) = (omega arith, omega arith, λ k. omega arith)

HexFrom-grows : {n m : ℕ} {s : Bytes} → HexFrom n s m → n ≤ m
HexFrom-grows (done n) = omega arith
HexFrom-grows (digit n b d m s h r) = let ih = HexFrom-grows r in omega arith

parse_digits-hex :
    (top : ℕ) {n m : ℕ} {s : Bytes} → HexFrom n s m → m ≤ top → parse_digits 16 top n s ≡ some m
unfolding parse_digits
parse_digits-hex top (done n) k = refl
parse_digits-hex top (digit n b d m s h r) k =
    let grows = HexFrom-grows r in
    let fits : leb (n * 16 + d) top ≡ true = ground arith in
    rw (to_digit_hex b d h, parse_digits) (rw fits (parse_digits-hex top r k))

-- A byte of one character that is no white space, no plus sign and no semicolon.
record IsPlain (b : ℕ) : Type 0 where
  pub from : 48 ≤ b
  pub to : b < 128
  pub other : b ≢ b';'

HexFrom-IsPlain : {n m : ℕ} {s : Bytes} → HexFrom n s m → All IsPlain s
HexFrom-IsPlain (done n) = tt
HexFrom-IsPlain (digit n b d m s h r) =
    let (from, to, other) = hex-range b d h in
    (record { from = from; to = to; other = other }, HexFrom-IsPlain r)

All-reverse : (P : ℕ → Type 0) (s : Bytes) → All P s → All P (reverse s)
All-reverse P [] a = tt
All-reverse P (b ∷ s) (p, a) =
    rw (reverse-cons b s) (All-append P (reverse s) (b ∷ []) (All-reverse P s a) (p, tt))

graphic : (b : ℕ) → IsPlain b → IsGraph b
graphic b p = record { from = (let h = p.from in omega arith); to = p.to }

plain-space_front : (s : Bytes) → All IsPlain s → space_front s ≡ 0
plain-space_front [] a = unfold space_front in refl
plain-space_front (b ∷ s) (p, a) = graph-space_front b s (graphic b p)

plain-space_back : (s : Bytes) → All IsPlain s → space_back s ≡ 0
unfolding space_back
plain-space_back [] a = refl
plain-space_back (b ∷ []) (p, a) = rw (graph-ascii_space b (graphic b p)) refl
plain-space_back (b ∷ c ∷ []) (p, (q, a)) =
    rw (graph-ascii_space b (graphic b p), not_equal c 0xC2 q.to (omega arith)) refl
plain-space_back (b ∷ c ∷ d ∷ s) (p, (q, (r, a))) =
    rw
      (
        graph-ascii_space b (graphic b p),
        not_equal c 0xC2 q.to (omega arith),
        not_equal d 0xE1 r.to (omega arith),
        not_equal d 0xE2 r.to (omega arith),
        not_equal d 0xE3 r.to (omega arith),
      )
      refl

trim-plain : (s : Bytes) → All IsPlain s → trim s ≡ s
unfolding trim
trim-plain s a =
    ap trim_end (trim_start_of_word s (plain-space_front s a))
    ∙ trim_end_of_word s (plain-space_back (reverse s) (All-reverse IsPlain s a))

first_part-cons_head : (b : ℕ) (ps : List Bytes) → first_part (cons_head b ps) ≡ b ∷ first_part ps
first_part-cons_head b [] = refl
first_part-cons_head b (p ∷ ps) = refl

-- The digits stand in front of the first semicolon.
first_part-split_byte :
    (s extension : Bytes)
    → All IsPlain s
    → IsExtension extension
    → first_part (split_byte b';' (s ++ extension)) ≡ s
unfolding split_byte
first_part-split_byte [] extension a (inl e) = rw e refl
first_part-split_byte [] extension a (inr (after, e)) = rw e refl
first_part-split_byte (b ∷ s) extension (p, a) x =
    let other : (b == b';') ≡ false = (let k = p.other in ground arith) in
    rw other (
      first_part-cons_head b (split_byte b';' (s ++ extension))
      ∙ ap (λ t. b ∷ t) (first_part-split_byte s extension a x))

from_str_radix-hex :
    (top : ℕ) (b m : ℕ) (s : Bytes)
    → All IsPlain (b ∷ s)
    → HexFrom 0 (b ∷ s) m
    → m ≤ top
    → from_str_radix 16 top (b ∷ s) ≡ some m
unfolding from_str_radix
from_str_radix-hex top b m [] (p, a) h k =
    let h' = p.from in
    let sign : (b == b'+') ≡ false = ground arith in rw sign (parse_digits-hex top h k)
from_str_radix-hex top b m (c ∷ s) (p, a) h k =
    let h' = p.from in
    let sign : (b == b'+') ≡ false = ground arith in rw sign (parse_digits-hex top h k)

-- The decoder reads the size of a size line.
pub chunk_size-SizeLine :
    (line : Bytes) (size : ℕ) → SizeLine line size → chunk_size (line ++ crlf) ≡ ok size
unfolding chunk_size
chunk_size-SizeLine line size l =
    let plain = HexFrom-IsPlain l.number in
    let two : length (line ++ crlf) - 2 ≡ length line = omega (arith, length-append line crlf) in
    let long : ltb (length (line ++ crlf)) 2 ≡ false =
      (let sum = length-append line crlf in ground arith) in
    let digits : trim (first_part (split_byte b';' line)) ≡ l.first ∷ l.digits =
      ap (λ t. trim (first_part (split_byte b';' t))) l.parts
      ∙ ap trim (first_part-split_byte (l.first ∷ l.digits) l.extension plain l.extends)
      ∙ trim-plain (l.first ∷ l.digits) plain in
    rw (long, two, take-append_length line crlf)
      (rw (l.text, digits, from_str_radix-hex u64_max l.first size l.digits plain l.number l.fits)
        refl)
