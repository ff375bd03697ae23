-- ===== src/Http/Headers/Printed.antt =====
-- Printed header lines and how both parsers of http.rs cut a text into lines.
use libagent.Base.{
  ℕ, ◌≡◌, refl, ap, ◌∙◌, Bool, true, false, ◌&&◌, not, some, [], ◌∷◌, ◌++◌, ◌==◌, length,
}
use libagent.Text.{Bytes, cr, lf, colon, crlf, find_byte}
use libagent.Text.Lines.{cons_head, split_byte, split_crlf}

-- No CR and no LF; and no colon either.
unfoldable pub is_line : Bytes → Bool
is_line [] = true
is_line (b ∷ s) = not (b == cr) && (not (b == lf) && is_line s)

unfoldable pub is_token : Bytes → Bool
is_token [] = true
is_token (b ∷ s) = not (b == cr) && (not (b == lf) && (not (b == colon) && is_token s))

and_cases : (a b : Bool) → (a && b) ≡ true → (a ≡ true) × (b ≡ true)
and_cases true b e = (refl, e)
and_cases false b e = absurd (cc)

false_of_not : (a : Bool) → not a ≡ true → a ≡ false
false_of_not true e = absurd (cc)
false_of_not false e = refl

-- What a line that is not empty gives.
pub line_cons :
    (b : ℕ) (s : Bytes)
    → is_line (b ∷ s) ≡ true
    → ((b == cr) ≡ false) × ((b == lf) ≡ false) × (is_line s ≡ true)
unfolding is_line
line_cons b s e =
    let (e₁, r) = and_cases _ _ e in
    let (e₂, t) = and_cases _ _ r in (false_of_not _ e₁, false_of_not _ e₂, t)

token_cons :
    (b : ℕ) (s : Bytes)
    → is_token (b ∷ s) ≡ true
    → ((b == colon) ≡ false) × (is_token s ≡ true) × ((b == cr) ≡ false) × ((b == lf) ≡ false)
unfolding is_token
token_cons b s e =
    let (e₁, r) = and_cases _ _ e in
    let (e₂, t) = and_cases _ _ r in
    let (e₃, u) = and_cases _ _ t in (false_of_not _ e₃, u, false_of_not _ e₁, false_of_not _ e₂)

pub is_line-cons :
    (b : ℕ) (s : Bytes)
    → (b == cr) ≡ false
    → (b == lf) ≡ false
    → is_line s ≡ true
    → is_line (b ∷ s) ≡ true
unfolding is_line
is_line-cons b s e₁ e₂ e₃ = rw (e₁, e₂) e₃

pub is_line_of_token : (s : Bytes) → is_token s ≡ true → is_line s ≡ true
is_line_of_token [] e = unfold is_line in refl
is_line_of_token (b ∷ s) e =
    let (c, t, e₁, e₂) = token_cons b s e in is_line-cons b s e₁ e₂ (is_line_of_token s t)

pub is_line-append : (s t : Bytes) → is_line s ≡ true → is_line t ≡ true → is_line (s ++ t) ≡ true
is_line-append [] t e f = f
is_line-append (b ∷ s) t e f =
    let (e₁, e₂, r) = line_cons b s e in is_line-cons b (s ++ t) e₁ e₂ (is_line-append s t r f)

-- The colon behind a name is the first one.
pub find_byte-colon :
    (name s : Bytes)
    → is_token name ≡ true
    → find_byte colon (name ++ colon ∷ s) ≡ some (length name)
unfolding find_byte
find_byte-colon [] s e = refl
find_byte-colon (b ∷ name) s e =
    let (c, t, e₁, e₂) = token_cons b name e in rw c (rw (find_byte-colon name s t) refl)

-- The first line of a text.
split_crlf_cons :
    (b : ℕ) (s : Bytes) → (b == cr) ≡ false → split_crlf (b ∷ s) ≡ cons_head b (split_crlf s)
unfolding split_crlf
split_crlf_cons b [] e = refl
split_crlf_cons b (c ∷ s) e = rw e refl

pub split_crlf-line :
    (line s : Bytes) → is_line line ≡ true → split_crlf (line ++ crlf ++ s) ≡ line ∷ split_crlf s
split_crlf-line [] s e = unfold split_crlf in refl
split_crlf-line (b ∷ line) s e =
    let (e₁, e₂, r) = line_cons b line e in
    split_crlf_cons b (line ++ crlf ++ s) e₁ ∙ ap (cons_head b) (split_crlf-line line s r)

split_byte-cr : (s : Bytes) → split_byte lf (crlf ++ s) ≡ (cr ∷ []) ∷ split_byte lf s
unfolding split_byte
split_byte-cr s = refl

pub split_byte-line :
    (line s : Bytes)
    → is_line line ≡ true
    → split_byte lf (line ++ crlf ++ s) ≡ (line ++ cr ∷ []) ∷ split_byte lf s
unfolding split_byte
split_byte-line [] s e = split_byte-cr s
split_byte-line (b ∷ line) s e =
    let (e₁, e₂, r) = line_cons b line e in rw e₂ (ap (cons_head b) (split_byte-line line s r))
