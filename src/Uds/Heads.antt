-- ===== src/Uds/Heads.antt =====
-- The head of a response, described as it is printed, and what `parse_head` reads from it.
use libagent.Base.{
  ℕ, ◌+◌, ◌≤◌, ◌≡◌, refl, sym, ap, ◌∙◌, true, false, some, List, [], ◌∷◌, ◌++◌, append_assoc, arith,
  length, length-append, All, All-append, ◌<◌, ok,
}
use libagent.Text.{Bytes, codes, crlf, is_empty, starts_with}
use libagent.Text.Lines.{split_crlf, join_crlf}
use libagent.Text.Utf8.{is_utf8}
use libagent.Text.Number.{u16_max, to_string, from_str_radix}
use libagent.Text.Number.Printed.{from_str_radix-to_string}
use libagent.Text.Number.Digits.{decimal_induction}
use libagent.Text.Spaces.{next_word}
use libagent.Text.Spaces.Words.{IsGraph, next_word-blank, next_word-space}
use libagent.Http.{Header, max_head_size}
use libagent.Http.Status.{parse_status_line}
use libagent.Http.Headers.{parse_lines, parse_headers, serialize_headers}
use libagent.Http.Headers.Printed.{is_line, is_line-cons, is_line-append}
use libagent.Http.Headers.Laws.{IsField}
use libagent.Http.Framing.{memchr_crlf_crlf}
use libagent.Http.Request.Wire.{
  block, IsFull, memchr_crlf_crlf-block, split_crlf-block, field_lines, serialize_headers_lem,
  field_lines-IsFull, parse_lines-field_lines,
}
use libagent.Uds.{parse_head_lines, parse_head}

-- The first line, with a reason phrase that may be empty.
abbrev pub status_line : ℕ → Bytes → Bytes
status_line status reason = codes "HTTP/1.1" ++ 32 ∷ (to_string status ++ 32 ∷ reason)

-- The head of a response as a server prints it: the status line, the headers, and an empty line. It is a
-- `str` that leaves room for the last read below the cap of the head.
pub record IsHead (head : Bytes) (status : ℕ) (headers : List Header) : Type 0 where
  pub reason : Bytes
  pub printed : head ≡ status_line status reason ++ crlf ++ serialize_headers headers ++ crlf
  pub one_line : is_line reason ≡ true
  pub fields : All IsField headers
  pub code : status ≤ u16_max
  pub text : is_utf8 head ≡ true
  pub small : length head + 1023 ≤ max_head_size

to_string-IsGraph : (n : ℕ) → All IsGraph (to_string n)
to_string-IsGraph =
    decimal_induction (All IsGraph) (λ d h. (record { from = omega arith; to = omega arith }, tt))
      (λ s d h a.
        All-append IsGraph s ((b'0' + d) ∷ []) a
          (record { from = omega arith; to = omega arith }, tt))

to_string-is_empty : (n : ℕ) → is_empty (to_string n) ≡ false
to_string-is_empty = decimal_induction (λ s. is_empty s ≡ false) (λ d h. refl) more
  where
    more :
        (s : Bytes) (d : ℕ) → d < 10 → is_empty s ≡ false → is_empty (s ++ (b'0' + d) ∷ []) ≡ false
    more [] d h e = refl
    more (b ∷ s) d h e = refl

protocol-IsGraph : All IsGraph (codes "HTTP/1.1")
protocol-IsGraph = (
  graph (omega arith) (omega arith),
  (
    graph (omega arith) (omega arith),
    (
      graph (omega arith) (omega arith),
      (
        graph (omega arith) (omega arith),
        (
          graph (omega arith) (omega arith),
          (
            graph (omega arith) (omega arith),
            (graph (omega arith) (omega arith), (graph (omega arith) (omega arith), tt)),
          ),
        ),
      ),
    ),
  ),
)
  where
    graph : {b : ℕ} → 33 ≤ b → b < 128 → IsGraph b
    graph h k = record { from = h; to = k }

-- The code is the second word, behind the protocol.
parse_status_line-words :
    (line proto behind code_str more : Bytes) (code : ℕ)
    → next_word line ≡ some (proto, behind)
    → starts_with proto (codes "HTTP/") ≡ true
    → next_word behind ≡ some (code_str, more)
    → from_str_radix 10 u16_max code_str ≡ some code
    → parse_status_line line ≡ ok code
unfolding parse_status_line
parse_status_line-words line proto behind code_str more code e₁ e₂ e₃ e₄ =
    rw e₁ (rw e₂ (rw e₃ (rw e₄ refl)))

-- The status of a printed status line is read back.
parse_status_line-status_line :
    (status : ℕ) (reason : Bytes)
    → status ≤ u16_max
    → parse_status_line (status_line status reason) ≡ ok status
parse_status_line-status_line status reason h =
    parse_status_line-words (status_line status reason) (codes "HTTP/1.1")
      (32 ∷ (to_string status ++ 32 ∷ reason)) (to_string status) (32 ∷ reason) status
      (next_word-blank (codes "HTTP/1.1") (to_string status ++ 32 ∷ reason) refl protocol-IsGraph)
      (unfold starts_with in refl)
      (next_word-space (to_string status ++ 32 ∷ reason)
        ∙ next_word-blank (to_string status) reason (to_string-is_empty status)
            (to_string-IsGraph status))
      (from_str_radix-to_string u16_max status h)

-- Putting lines together and cutting them apart again.
join_crlf-block : (lines : List Bytes) → join_crlf (lines ++ [] ∷ [] ∷ []) ≡ block lines ++ crlf
unfolding join_crlf block
join_crlf-block [] = refl
join_crlf-block (line ∷ []) =
    ap (λ s. line ++ crlf ++ s) (join_crlf-block []) ∙ sym (append_assoc (line ++ crlf) [] crlf)
join_crlf-block (line ∷ next ∷ lines) =
    ap (λ s. line ++ crlf ++ s) (join_crlf-block (next ∷ lines))
    ∙ sym (append_assoc (line ++ crlf) (block (next ∷ lines)) crlf)

graph-is_line : (s : Bytes) → All IsGraph s → is_line s ≡ true
graph-is_line [] a = unfold is_line in refl
graph-is_line (b ∷ s) (p, a) =
    let h = p.from in is_line-cons b s (ground arith) (ground arith) (graph-is_line s a)

status_line-IsFull :
    (status : ℕ) (reason : Bytes) → is_line reason ≡ true → IsFull (status_line status reason)
status_line-IsFull status reason e = record {
  whole =
      is_line-append (codes "HTTP/1.1") (32 ∷ (to_string status ++ 32 ∷ reason))
        (graph-is_line (codes "HTTP/1.1") protocol-IsGraph)
        (is_line-cons 32 (to_string status ++ 32 ∷ reason) refl refl (
          is_line-append (to_string status) (32 ∷ reason)
            (graph-is_line (to_string status) (to_string-IsGraph status))
            (is_line-cons 32 reason refl refl e)));
  full = refl;
}

parse_head_lines-cons :
    (line : Bytes) (lines : List Bytes) (status : ℕ) (headers : List Header)
    → parse_status_line line ≡ ok status
    → parse_headers (join_crlf lines) ≡ headers
    → parse_head_lines (line ∷ lines) ≡ ok (status, headers)
unfolding parse_head_lines
parse_head_lines-cons line lines status headers e h = rw (e, h) refl

module _ {head : Bytes} {status : ℕ} {headers : List Header} (h : IsHead head status headers) where
  abbrev first_line : Bytes
  first_line = status_line status h.reason

  full : All IsFull (first_line ∷ field_lines headers)
  full = (status_line-IsFull status h.reason h.one_line, field_lines-IsFull headers h.fields)

  blocked : head ≡ block (first_line ∷ field_lines headers) ++ crlf
  blocked =
      h.printed
      ∙ ap (λ s. first_line ++ crlf ++ s ++ crlf) (serialize_headers_lem headers)
      ∙ unfold block in refl

  -- The head ends at its first empty line, whatever follows.
  pub memchr_crlf_crlf-IsHead :
      (tail : Bytes) → memchr_crlf_crlf (head ++ tail) ≡ some (length head)
  memchr_crlf_crlf-IsHead tail =
      ap (λ s. memchr_crlf_crlf (s ++ tail)) blocked
      ∙ memchr_crlf_crlf-block first_line (field_lines headers) tail full
      ∙ ap some
          (sym (ap length blocked ∙ length-append (block (first_line ∷ field_lines headers)) crlf))

  -- And it says what was printed.
  pub parse_head-IsHead : parse_head head ≡ ok (status, headers)
  parse_head-IsHead =
      let lines : split_crlf head ≡ first_line ∷ (field_lines headers ++ [] ∷ [] ∷ []) =
        ap split_crlf blocked ∙ split_crlf-block (first_line ∷ field_lines headers) full in
      let fields : parse_headers (join_crlf (field_lines headers ++ [] ∷ [] ∷ [])) ≡ headers =
        ap parse_headers (join_crlf-block (field_lines headers)) ∙ parsed in
      unfold parse_head in
      rw (h.text, lines)
        (parse_head_lines-cons first_line (field_lines headers ++ [] ∷ [] ∷ []) status headers
          (parse_status_line-status_line status h.reason h.code) fields)
    where
      parsed : parse_headers (block (field_lines headers) ++ crlf) ≡ headers
      parsed =
          unfold parse_headers in
          ap parse_lines
            (split_crlf-block (field_lines headers) (field_lines-IsFull headers h.fields))
          ∙ parse_lines-field_lines headers h.fields
