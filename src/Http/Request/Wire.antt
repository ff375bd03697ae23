-- ===== src/Http/Request/Wire.antt =====
-- What a server reads from the bytes of a request: the head's end, the request line, the headers and
-- the body, found with the functions that http.rs uses on responses.
use libagent.Base.{
  ℕ, ◌+◌, ◌≡◌, refl, sym, ap, ◌∙◌, true, false, Option, none, some, List, [], ◌∷◌, ◌++◌,
  append_assoc, arith, ◌==◌, length, take, drop, length-append, take-append_length,
  drop-append_length, All,
}
use libagent.Text.{Bytes, cr, lf, crlf, is_empty}
use libagent.Text.Lines.{split_crlf}
use libagent.Http.{Header}
use libagent.Http.Framing.{memchr_from, memchr_crlf_crlf}
use libagent.Http.Headers.{header_of_line, parse_lines, serialize_headers}
use libagent.Http.Headers.Printed.{is_line, line_cons, split_crlf-line}
use libagent.Http.Headers.Laws.{
  field_line, IsField, field_line-is_line, header_line_lem, header_of_line-field_line,
  field_line_starts,
}

-- The lines of a head, each with its end.
unfoldable pub block : List Bytes → Bytes
block [] = []
block (line ∷ lines) = line ++ crlf ++ block lines

-- A line that is neither broken nor empty.
pub record IsFull (line : Bytes) : Type 0 where
  pub whole : is_line line ≡ true
  pub full : is_empty line ≡ false

unfoldable pub request_of : List Bytes → Bytes → Option (Bytes × List Header × Bytes)
request_of [] body = none
request_of (line ∷ lines) body = some (line, parse_lines lines, body)

-- The request line, the headers and the body.
unfoldable pub read_request : Bytes → Option (Bytes × List Header × Bytes)
unfolding request_of memchr_crlf_crlf
read_request buf = elim (memchr_crlf_crlf buf) [
  | none ↦ none
  | some pos ↦ request_of (split_crlf (take pos buf)) (drop pos buf)
]

memchr_from_skip :
    (i b : ℕ) (s : Bytes) → (b == cr) ≡ false → memchr_from i (b ∷ s) ≡ memchr_from (i + 1) s
unfolding memchr_from
memchr_from_skip i b [] e = refl
memchr_from_skip i b (c ∷ []) e = refl
memchr_from_skip i b (c ∷ d ∷ []) e = refl
memchr_from_skip i b (c ∷ d ∷ x ∷ s) e = rw e refl

-- The end of a line that another line follows.
memchr_from_crlf :
    (i b : ℕ) (s : Bytes)
    → (b == cr) ≡ false
    → memchr_from i (cr ∷ lf ∷ b ∷ s) ≡ memchr_from (i + 2) (b ∷ s)
memchr_from_crlf i b [] e = unfold memchr_from in refl
memchr_from_crlf i b (c ∷ s) e =
    let two : i + 1 + 1 ≡ i + 2 = omega arith in
    unfold memchr_from in
    rw e (memchr_from_skip (i + 1) lf (b ∷ c ∷ s) refl ∙ ap (λ k. memchr_from k (b ∷ c ∷ s)) two)

memchr_from-line :
    (i : ℕ) (line s : Bytes)
    → is_line line ≡ true
    → memchr_from i (line ++ s) ≡ memchr_from (i + length line) s
memchr_from-line i [] s e = ap (λ k. memchr_from k s) (omega arith)
memchr_from-line i (b ∷ line) s e =
    let (e₁, e₂, r) = line_cons b line e in
    memchr_from_skip i b (line ++ s) e₁
    ∙ memchr_from-line (i + 1) line s r
    ∙ ap (λ k. memchr_from k s) (omega arith)

block_cons :
    (line rest body : Bytes)
    → line ++ crlf ++ rest ++ crlf ++ body ≡ line ++ (crlf ++ (rest ++ crlf ++ body))
block_cons [] rest body = refl
block_cons (b ∷ line) rest body = ap (λ t. b ∷ t) (block_cons line rest body)

length-block_cons :
    (line rest : Bytes) → length (line ++ crlf ++ rest) ≡ length line + 2 + length rest
length-block_cons [] rest = omega arith
length-block_cons (b ∷ line) rest = let ih = length-block_cons line rest in omega arith

-- From the end of a line on, the end of the head is the first empty line.
memchr_from-block :
    (i : ℕ) (lines : List Bytes) (body : Bytes)
    → All IsFull lines
    → memchr_from i (crlf ++ (block lines ++ crlf ++ body)) ≡ some (i + length (block lines) + 4)
unfolding block
memchr_from-block i [] body a = unfold memchr_from in ap some (omega arith)
memchr_from-block i ([] ∷ lines) body (f, a) = absurd (cc (f.full))
memchr_from-block i ((b ∷ line) ∷ lines) body (f, a) =
    let (e₁, e₂, r) = line_cons b line f.whole in
    let rest = block lines ++ crlf ++ body in
    let sum = length-block_cons (b ∷ line) (block lines) in
    ap (λ s. memchr_from i (crlf ++ s)) (block_cons (b ∷ line) (block lines) body)
    ∙ memchr_from_crlf i b (line ++ (crlf ++ rest)) e₁
    ∙ memchr_from-line (i + 2) (b ∷ line) (crlf ++ rest) f.whole
    ∙ memchr_from-block (i + 2 + length (b ∷ line)) lines body a
    ∙ ap some (omega arith)

-- Where the head of a request ends.
pub memchr_crlf_crlf-block :
    (line : Bytes) (lines : List Bytes) (body : Bytes)
    → All IsFull (line ∷ lines)
    → memchr_crlf_crlf (block (line ∷ lines) ++ crlf ++ body)
      ≡ some (length (block (line ∷ lines)) + 2)
unfolding memchr_crlf_crlf block
memchr_crlf_crlf-block line lines body (f, a) =
    let sum = length-block_cons line (block lines) in
    ap (memchr_from 0) (block_cons line (block lines) body)
    ∙ memchr_from-line 0 line (crlf ++ (block lines ++ crlf ++ body)) f.whole
    ∙ memchr_from-block (0 + length line) lines body a
    ∙ ap some (omega arith)

-- The lines of a head are read back, with the empty line and what is left behind it.
pub split_crlf-block :
    (lines : List Bytes)
    → All IsFull lines
    → split_crlf (block lines ++ crlf) ≡ lines ++ [] ∷ [] ∷ []
unfolding block
split_crlf-block [] a = unfold split_crlf in refl
split_crlf-block (line ∷ lines) (f, a) =
    ap split_crlf (append_assoc (line ++ crlf) (block lines) crlf)
    ∙ split_crlf-line line (block lines ++ crlf) f.whole
    ∙ ap (λ ls. line ∷ ls) (split_crlf-block lines a)

pub read_request-block :
    (line : Bytes) (lines : List Bytes) (body : Bytes)
    → All IsFull (line ∷ lines)
    → read_request (block (line ∷ lines) ++ crlf ++ body)
      ≡ some (line, parse_lines (lines ++ [] ∷ [] ∷ []), body)
unfolding read_request
read_request-block line lines body a =
    let head = block (line ∷ lines) ++ crlf in
    let end : length (block (line ∷ lines)) + 2 ≡ length head =
      sym (length-append (block (line ∷ lines)) crlf) in
    rw (memchr_crlf_crlf-block line lines body a, read_request)
      (rw end (
        rw (take-append_length head body, drop-append_length head body)
          (ap (λ ls. request_of ls body) (split_crlf-block (line ∷ lines) a))))

unfoldable pub field_lines : List Header → List Bytes
field_lines [] = []
field_lines (h ∷ hs) = field_line h ∷ field_lines hs

pub serialize_headers_lem : (hs : List Header) → serialize_headers hs ≡ block (field_lines hs)
unfolding serialize_headers block field_lines
serialize_headers_lem [] = refl
serialize_headers_lem (h ∷ hs) =
    ap (λ s. s ++ serialize_headers hs) (header_line_lem h)
    ∙ ap (λ s. field_line h ++ crlf ++ s) (serialize_headers_lem hs)

pub field_lines-IsFull : (hs : List Header) → All IsField hs → All IsFull (field_lines hs)
unfolding field_lines
field_lines-IsFull [] a = tt
field_lines-IsFull (h ∷ hs) (f, a) =
    (record { whole = field_line-is_line h f; full = field_line_starts h }, field_lines-IsFull hs a)

pub parse_lines-field_lines :
    (hs : List Header) → All IsField hs → parse_lines (field_lines hs ++ [] ∷ [] ∷ []) ≡ hs
unfolding parse_lines field_lines
parse_lines-field_lines [] a = unfold header_of_line in refl
parse_lines-field_lines (h ∷ hs) (f, a) =
    header_of_line-field_line h (parse_lines (field_lines hs ++ [] ∷ [] ∷ [])) f
    ∙ ap (λ out. h ∷ out) (parse_lines-field_lines hs a)

-- A head of a first line and headers, with a body behind it.
pub read_request-serialize_headers :
    (line : Bytes) (hs : List Header) (body : Bytes)
    → IsFull line
    → All IsField hs
    → read_request (line ++ crlf ++ serialize_headers hs ++ crlf ++ body) ≡ some (line, hs, body)
unfolding block
read_request-serialize_headers line hs body f a =
    ap (λ s. read_request (line ++ crlf ++ s ++ crlf ++ body)) (serialize_headers_lem hs)
    ∙ (read_request-block line (field_lines hs) body (f, field_lines-IsFull hs a))
    ∙ ap (λ out. some (line, out, body)) (parse_lines-field_lines hs a)
