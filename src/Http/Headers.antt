-- ===== src/Http/Headers.antt =====
-- http.rs: `parse_headers`, `header_lookup`, `parse_header_lines` and `serialize_headers`.
pub mod Printed
pub mod Laws
use libagent.Base.{Option, none, some, List, [], ◌∷◌, ◌++◌, if◌then◌else◌, take, drop}
use libagent.Text.{Bytes, codes, crlf, colon, lf, bytes_eq, is_empty, to_ascii_lowercase, find_byte}
use libagent.Text.Spaces.{trim_start, trim, trim_end_cr}
use libagent.Text.Lines.{split_crlf, split_byte}
use libagent.Http.{Header}

-- `split_at(idx)`, and the value behind the colon with its leading white space dropped.
unfoldable pub cut_header : Bytes → Option Header
unfolding find_byte trim_start
cut_header line = elim (find_byte colon line) [
  | none ↦ none
  | some idx ↦ some (take idx line, trim_start (drop 1 (drop idx line)))
]

-- One round of the loop of `parse_headers`: what it pushes.
unfoldable pub header_of_line : Bytes → List Header → List Header
unfolding cut_header
header_of_line line out =
    if is_empty line then out else elim (cut_header line) [ none ↦ out | some h ↦ h ∷ out ]

unfoldable pub parse_lines : List Bytes → List Header
unfolding header_of_line
parse_lines [] = []
parse_lines (line ∷ lines) = header_of_line line (parse_lines lines)

unfoldable pub parse_headers : Bytes → List Header
unfolding parse_lines split_crlf
parse_headers raw = parse_lines (split_crlf raw)

-- The first header of that name in any case.
unfoldable pub lookup_lower : Bytes → List Header → Option Bytes
unfolding bytes_eq to_ascii_lowercase
lookup_lower lname [] = none
lookup_lower lname ((n, v) ∷ headers) =
    if bytes_eq (to_ascii_lowercase n) lname then some v else lookup_lower lname headers

unfoldable pub header_lookup : List Header → Bytes → Option Bytes
unfolding lookup_lower
header_lookup headers name = lookup_lower (to_ascii_lowercase name) headers

-- `parse_header_lines`: lines end in LF or CRLF, are trimmed, and need a name.
abbrev keep_named : Option Header → List Header → List Header
keep_named none out = out
keep_named (some (name, value)) out = if is_empty name then out else (name, value) ∷ out

unfoldable pub named_of_line : Bytes → List Header → List Header
unfolding cut_header trim trim_end_cr
named_of_line raw_line out =
    let line = trim (trim_end_cr raw_line) in
    if is_empty line then out else keep_named (cut_header line) out

unfoldable pub parse_named : List Bytes → List Header
unfolding named_of_line
parse_named [] = []
parse_named (line ∷ lines) = named_of_line line (parse_named lines)

unfoldable pub parse_header_lines : Bytes → List Header
unfolding parse_named split_byte
parse_header_lines input = parse_named (split_byte lf input)

unfoldable pub header_line : Header → Bytes
header_line (name, value) = name ++ codes ": " ++ value ++ crlf

unfoldable pub serialize_headers : List Header → Bytes
unfolding header_line
serialize_headers [] = []
serialize_headers (h ∷ headers) = header_line h ++ serialize_headers headers
