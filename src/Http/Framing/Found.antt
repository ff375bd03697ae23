-- ===== src/Http/Framing/Found.antt =====
-- Where `memchr_crlf_crlf` finds the end of the headers, in a buffer and in a longer one.
use libagent.Base.{
  ℕ, ◌+◌, ◌≤◌, ◌<◌, ◌≡◌, Bool, true, false, ◌&&◌, Option, none, some, [], ◌∷◌, ◌++◌, arith, ◌==◌,
  if◌then◌else◌, length,
}
use libagent.Text.{Bytes, cr, lf}
use libagent.Http.Framing.{memchr_from, memchr_crlf_crlf}

-- The four bytes are the end of the headers.
abbrev is_end : ℕ → ℕ → ℕ → ℕ → Bool
is_end a b c d = (a == cr && b == lf) && (c == cr && d == lf)

some_inj : {p q : ℕ} → some p ≡ some q → p ≡ q
some_inj e = cc

-- The two ways in which a conditional has a value.
if_cases :
    {P : Type 0} (t : Bool) (x y r : Option ℕ)
    → (if t then x else y) ≡ r
    → (x ≡ r → P)
    → (y ≡ r → P)
    → P
if_cases true x y r e f g = f e
if_cases false x y r e f g = g e

if_keeps :
    (t : Bool) (x y z r : Option ℕ)
    → (if t then x else y) ≡ r
    → (y ≡ r → z ≡ r)
    → (if t then x else z) ≡ r
if_keeps true x y z r e f = e
if_keeps false x y z r e f = f e

if_not_yet :
    {P : Type 0} (t : Bool) (q p : ℕ) (y z : Option ℕ)
    → (if t then some q else y) ≡ none
    → (if t then some q else z) ≡ some p
    → (y ≡ none → z ≡ some p → P)
    → P
if_not_yet true q p y z n e f = absurd cc
if_not_yet false q p y z n e f = f n e

memchr_from-ge : (i : ℕ) (bs : Bytes) (p : ℕ) → memchr_from i bs ≡ some p → i + 4 ≤ p
unfolding memchr_from
memchr_from-ge i [] p e = absurd cc
memchr_from-ge i (a ∷ []) p e = absurd cc
memchr_from-ge i (a ∷ b ∷ []) p e = absurd cc
memchr_from-ge i (a ∷ b ∷ c ∷ []) p e = absurd cc
memchr_from-ge i (a ∷ b ∷ c ∷ d ∷ bs) p e =
    if_cases (is_end a b c d) _ _ _ e (λ h. let k = some_inj h in omega arith)
      (λ h. let k = memchr_from-ge (i + 1) (b ∷ c ∷ d ∷ bs) p h in omega arith)

memchr_from-le : (i : ℕ) (bs : Bytes) (p : ℕ) → memchr_from i bs ≡ some p → p ≤ i + length bs
unfolding memchr_from
memchr_from-le i [] p e = absurd cc
memchr_from-le i (a ∷ []) p e = absurd cc
memchr_from-le i (a ∷ b ∷ []) p e = absurd cc
memchr_from-le i (a ∷ b ∷ c ∷ []) p e = absurd cc
memchr_from-le i (a ∷ b ∷ c ∷ d ∷ bs) p e =
    if_cases (is_end a b c d) _ _ _ e (λ h. let k = some_inj h in omega arith)
      (λ h. let k = memchr_from-le (i + 1) (b ∷ c ∷ d ∷ bs) p h in omega arith)

memchr_from-append :
    (i : ℕ) (xs ys : Bytes) (p : ℕ) → memchr_from i xs ≡ some p → memchr_from i (xs ++ ys) ≡ some p
unfolding memchr_from
memchr_from-append i [] ys p e = absurd cc
memchr_from-append i (a ∷ []) ys p e = absurd cc
memchr_from-append i (a ∷ b ∷ []) ys p e = absurd cc
memchr_from-append i (a ∷ b ∷ c ∷ []) ys p e = absurd cc
memchr_from-append i (a ∷ b ∷ c ∷ d ∷ xs) ys p e =
    if_keeps (is_end a b c d) _ _ _ _ e (memchr_from-append (i + 1) (b ∷ c ∷ d ∷ xs) ys p)

memchr_from_later :
    (i : ℕ) (xs ys : Bytes) (p : ℕ)
    → memchr_from i xs ≡ none
    → memchr_from i (xs ++ ys) ≡ some p
    → i + length xs < p
unfolding memchr_from
memchr_from_later i [] ys p n e = let k = memchr_from-ge i ys p e in omega arith
memchr_from_later i (a ∷ []) ys p n e = let k = memchr_from-ge i (a ∷ ys) p e in omega arith
memchr_from_later i (a ∷ b ∷ []) ys p n e = let k = memchr_from-ge i (a ∷ b ∷ ys) p e in omega arith
memchr_from_later i (a ∷ b ∷ c ∷ []) ys p n e =
    let k = memchr_from-ge i (a ∷ b ∷ c ∷ ys) p e in omega arith
memchr_from_later i (a ∷ b ∷ c ∷ d ∷ xs) ys p n e =
    if_not_yet (is_end a b c d) _ _ _ _ n e
      (λ h k. let l = memchr_from_later (i + 1) (b ∷ c ∷ d ∷ xs) ys p h k in omega arith)

-- The end lies inside the buffer.
pub memchr_crlf_crlf-le : (bs : Bytes) (p : ℕ) → memchr_crlf_crlf bs ≡ some p → p ≤ length bs
unfolding memchr_crlf_crlf
memchr_crlf_crlf-le bs p e = let k = memchr_from-le 0 bs p e in omega arith

-- More bytes behind the buffer do not move it.
pub memchr_crlf_crlf-append :
    (xs ys : Bytes) (p : ℕ) → memchr_crlf_crlf xs ≡ some p → memchr_crlf_crlf (xs ++ ys) ≡ some p
unfolding memchr_crlf_crlf
memchr_crlf_crlf-append xs ys p e = memchr_from-append 0 xs ys p e

-- A buffer in which it is not found ends before it.
pub memchr_crlf_crlf_later :
    (xs ys : Bytes) (p : ℕ)
    → memchr_crlf_crlf xs ≡ none
    → memchr_crlf_crlf (xs ++ ys) ≡ some p
    → length xs < p
unfolding memchr_crlf_crlf
memchr_crlf_crlf_later xs ys p n e = let k = memchr_from_later 0 xs ys p n e in omega arith
