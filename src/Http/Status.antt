-- ===== src/Http/Status.antt =====
-- http.rs: `parse_status_line`.
use libagent.Base.{ℕ, inl, inr, Option, none, some, if◌then◌else◌, Bool-cases, ok, err}
use libagent.Text.{Bytes, codes, starts_with}
use libagent.Text.Spaces.{next_word}
use libagent.Text.Number.{u16_max, from_str_radix}
use libagent.Http.{
  Attempt, malformed_status_line, missing_status_code, invalid_status_code, Sourced,
}

abbrev code_of : Option ℕ → Attempt ℕ
code_of none = err invalid_status_code
code_of (some code) = ok code

-- The code is the word behind the protocol.
abbrev status_code : Option (Bytes × Bytes) → Attempt ℕ
status_code none = err missing_status_code
status_code (some (code_str, more)) = code_of (from_str_radix 10 u16_max code_str)

abbrev after_proto : Option (Bytes × Bytes) → Attempt ℕ
after_proto none = err malformed_status_line
after_proto (some (proto, behind)) =
    if starts_with proto (codes "HTTP/")
    then status_code (next_word behind)
    else err malformed_status_line

unfoldable pub parse_status_line : Bytes → Attempt ℕ
unfolding next_word starts_with from_str_radix
parse_status_line line = after_proto (next_word line)

code_of-Sourced : (r : Option ℕ) → Sourced (code_of r)
code_of-Sourced none = λ h. cc
code_of-Sourced (some code) = tt

status_code-Sourced : (r : Option (Bytes × Bytes)) → Sourced (status_code r)
status_code-Sourced none = λ h. cc
status_code-Sourced (some (code_str, more)) = code_of-Sourced (from_str_radix 10 u16_max code_str)

after_proto-Sourced : (r : Option (Bytes × Bytes)) → Sourced (after_proto r)
after_proto-Sourced none = λ h. cc
after_proto-Sourced (some (proto, behind)) = elim (Bool-cases (starts_with proto (codes "HTTP/"))) [
  | inl e ↦ rw e (status_code-Sourced (next_word behind))
  | inr e ↦ rw e (λ h. cc)
]

-- A status line is refused with an error of the source.
pub parse_status_line-Sourced : (line : Bytes) → Sourced (parse_status_line line)
unfolding parse_status_line
parse_status_line-Sourced line = after_proto-Sourced (next_word line)
