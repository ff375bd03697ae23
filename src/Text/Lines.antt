-- ===== src/Text/Lines.antt =====
-- Splitting a text: `split('\n')`, `split("\r\n")` and `join`.
use libagent.Base.{ℕ, ◌&&◌, List, [], ◌∷◌, ◌++◌, ◌==◌, if◌then◌else◌}
use libagent.Text.{Bytes, cr, lf, crlf}

-- Puts a byte in front of the first part.
abbrev pub cons_head : ℕ → List Bytes → List Bytes
cons_head b [] = (b ∷ []) ∷ []
cons_head b (p ∷ ps) = (b ∷ p) ∷ ps

unfoldable pub split_byte : ℕ → Bytes → List Bytes
split_byte c [] = [] ∷ []
split_byte c (b ∷ s) = let rest = split_byte c s in if b == c then [] ∷ rest else cons_head b rest

unfoldable pub split_crlf : Bytes → List Bytes
split_crlf [] = [] ∷ []
split_crlf (b ∷ []) = (b ∷ []) ∷ []
split_crlf (b ∷ c ∷ s) =
    let cut = split_crlf s in
    let rest = split_crlf (c ∷ s) in if b == cr && c == lf then [] ∷ cut else cons_head b rest

-- `join("\r\n")`.
unfoldable pub join_crlf : List Bytes → Bytes
join_crlf [] = []
join_crlf (p ∷ []) = p
join_crlf (p ∷ q ∷ ps) = p ++ crlf ++ join_crlf (q ∷ ps)
