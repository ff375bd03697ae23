-- ===== src/Http/Headers/Laws.antt =====
-- Round trips of header lines: `serialize_headers` and the two parsers of http.rs.
use libagent.Base.{
  ◌≡◌, refl, ap, ◌∙◌, true, false, some, List, [], ◌∷◌, ◌++◌, reverse, append_assoc,
  take-append_length, drop-append_length, All,
}
use mathlib.Core.List.{reverse-append, reverse-reverse, reverse-cons}
use libagent.Text.{Bytes, codes, cr, lf, colon, crlf, is_empty}
use libagent.Text.Spaces.{trim_start, trim, trim_end_cr, drop_cr, trim_start-space}
use libagent.Text.Lines.{split_byte}
use libagent.Http.{Header}
use libagent.Http.Headers.{
  cut_header, header_of_line, named_of_line, parse_named, parse_header_lines, header_line,
  serialize_headers,
}
use libagent.Http.Headers.Printed.{
  is_line, is_token, line_cons, is_line-cons, is_line_of_token, is_line-append, find_byte-colon,
  split_byte-line,
}

-- A header line without its end.
unfoldable pub field_line : Header → Bytes
field_line (name, value) = name ++ codes ": " ++ value

-- A header that fits on a line: the name has no colon, neither part has CR or LF, and the value does
-- not start with white space.
pub record IsField (h : Header) : Type 0 where
  pub name_token : is_token h.0 ≡ true
  pub value_line : is_line h.1 ≡ true
  pub value_starts : trim_start h.1 ≡ h.1

-- One that also survives the trimming of lines: it has a name, and no white space at either end.
pub record IsTrimmed (h : Header) : Type 0 where
  pub field : IsField h
  pub named : is_empty h.0 ≡ false
  pub ends : trim (field_line h) ≡ field_line h

pub field_line-is_line : (h : Header) → IsField h → is_line (field_line h) ≡ true
unfolding field_line
field_line-is_line (name, value) f =
    is_line-append (name ++ codes ": ") value
      (is_line-append name (codes ": ") (is_line_of_token name f.name_token)
        (unfold is_line in refl))
      f.value_line

pub header_line_lem : (h : Header) → header_line h ≡ field_line h ++ crlf
unfolding header_line field_line
header_line_lem (name, value) = refl

pub field_line_starts : (h : Header) → is_empty (field_line h) ≡ false
unfolding field_line
field_line_starts ([], value) = refl
field_line_starts (b ∷ name, value) = refl

field_line-colon : (name value : Bytes) → field_line (name, value) ≡ name ++ colon ∷ 32 ∷ value
unfolding field_line
field_line-colon name value = append_assoc name (codes ": ") value

-- The colon is found, and both parts are read back.
cut_header-field_line : (h : Header) → IsField h → cut_header (field_line h) ≡ some h
unfolding cut_header
cut_header-field_line (name, value) f =
    ap cut_header (field_line-colon name value)
    ∙ rw (find_byte-colon name (32 ∷ value) f.name_token, cut_header)
        (rw
          (
            take-append_length name (colon ∷ 32 ∷ value),
            drop-append_length name (colon ∷ 32 ∷ value),
          )
          (ap (λ v. some (name, v)) (trim_start-space value ∙ f.value_starts)))

pub header_of_line-field_line :
    (h : Header) (out : List Header) → IsField h → header_of_line (field_line h) out ≡ h ∷ out
unfolding header_of_line
header_of_line-field_line h out f = rw (field_line_starts h) (rw (cut_header-field_line h f) refl)

-- What `trim_end_matches('\r')` takes off a line that ended in CRLF.
drop_cr_line : (s : Bytes) → is_line s ≡ true → drop_cr s ≡ s
unfolding drop_cr
drop_cr_line [] e = refl
drop_cr_line (b ∷ s) e = let (e₁, e₂, r) = line_cons b s e in rw e₁ refl

is_line-reverse : (s : Bytes) → is_line s ≡ true → is_line (reverse s) ≡ true
is_line-reverse [] e = e
is_line-reverse (b ∷ s) e =
    let (e₁, e₂, r) = line_cons b s e in
    rw (reverse-cons b s) (
      is_line-append (reverse s) (b ∷ []) (is_line-reverse s r)
        (is_line-cons b [] e₁ e₂ (unfold is_line in refl)))

trim_end_cr-line : (s : Bytes) → is_line s ≡ true → trim_end_cr (s ++ cr ∷ []) ≡ s
unfolding trim_end_cr
trim_end_cr-line s e =
    ap (λ t. reverse (drop_cr t)) (reverse-append s (cr ∷ []))
    ∙ ap reverse (unfold drop_cr in drop_cr_line (reverse s) (is_line-reverse s e))
    ∙ reverse-reverse s

named_of_line-field_line :
    (h : Header) (out : List Header)
    → IsTrimmed h
    → named_of_line (field_line h ++ cr ∷ []) out ≡ h ∷ out
unfolding named_of_line
named_of_line-field_line h out t =
    rw (trim_end_cr-line (field_line h) (field_line-is_line h t.field)) (
      rw t.ends (rw (field_line_starts h) (rw (cut_header-field_line h t.field) (rw t.named refl))))

-- Header lines that are printed and read back are the same, if each header has a name, and no part of
-- it has what ends it: no colon in the name, no CR or LF in either, no white space at the start of
-- the value or at either end of the line.
pub parse_header_lines-serialize_headers :
    (hs : List Header) → All IsTrimmed hs → parse_header_lines (serialize_headers hs) ≡ hs
unfolding parse_header_lines serialize_headers parse_named
parse_header_lines-serialize_headers [] a =
    unfold split_byte named_of_line trim trim_end_cr trim_start in refl
parse_header_lines-serialize_headers (h ∷ hs) (t, a) =
    ap (λ s. parse_named (split_byte lf (s ++ serialize_headers hs))) (header_line_lem h)
    ∙ ap parse_named
        (split_byte-line (field_line h) (serialize_headers hs) (field_line-is_line h t.field))
    ∙ (named_of_line-field_line h (parse_header_lines (serialize_headers hs)) t
        ∙ ap (λ out. h ∷ out) (parse_header_lines-serialize_headers hs a))
