-- ===== src/Http/Request/Defaulted.antt =====
-- The default headers, described by what a lookup in the caller's headers finds.
use libagent.Base.{
  ◌≡◌, refl, sym, ap, ◌∙◌, inl, inr, Bool, true, false, Option, none, some, List, [], ◌∷◌, ◌++◌,
  append-nil, if◌then◌else◌, Bool-cases, Option-cases, length,
}
use libagent.Text.{Bytes, codes, bytes_eq, to_ascii_lowercase}
use libagent.Text.Equality.{eq_of_bytes_eq}
use libagent.Text.Number.{to_string}
use libagent.Http.{Header}
use libagent.Http.Headers.{lookup_lower, header_lookup}
use libagent.Http.Request.{Seen, see, see_all, push_unless, nothing_seen, add_default_headers}
use libagent.Http.Request.Length.{lookup_lower-cons_none}

-- A header, unless one of its name is there.
abbrev unless_found : Option Bytes → Header → List Header
unless_found none h = h ∷ []
unless_found (some v) h = []

abbrev pub missing : List Header → Header → List Header
missing headers h = unless_found (header_lookup headers h.0) h

-- The caller's headers, and behind them those of Content-Length, Host and Connection that they lack.
abbrev pub completed : List Header → Bytes → Bytes → List Header
completed headers body host =
    headers
    ++ missing headers (codes "Content-Length", to_string (length body))
    ++ missing headers (codes "Host", host)
    ++ missing headers (codes "Connection", codes "close")

-- The three flags, with the names that they are about.
data Flag : Type 0 where
  of_length of_host of_connection : Flag

abbrev up : Flag → Seen → Bool
up of_length f = f.content_length
up of_host f = f.host
up of_connection f = f.connection

abbrev lname : Flag → Bytes
lname of_length = codes "content-length"
lname of_host = codes "host"
lname of_connection = codes "connection"

raised : Flag → Seen → Seen
raised of_length f = record f { content_length = true }
raised of_host f = record f { host = true }
raised of_connection f = record f { connection = true }

up-raised : (k : Flag) (f : Seen) → up k (raised k f) ≡ true
unfolding raised
up-raised of_length f = refl
up-raised of_host f = refl
up-raised of_connection f = refl

-- A name that is the flag's raises it.
see-raised :
    (k : Flag) (f : Seen) (n : Bytes) → to_ascii_lowercase n ≡ lname k → see f n ≡ raised k f
unfolding see raised bytes_eq
see-raised of_length f n e = rw e refl
see-raised of_host f n e = rw e refl
see-raised of_connection f n e = rw e refl

-- Which of the three tests is the flag's.
abbrev test : Flag → Bool → Bool → Bool → Bool
test of_length a b c = a
test of_host a b c = b
test of_connection a b c = c

kept_cases :
    (k : Flag) (a b c : Bool) (f : Seen)
    → test k a b c ≡ false
    → up k (
        if a
        then record f { content_length = true }
        else if b
        then record f { host = true }
        else if c
        then record f { connection = true }
        else f)
      ≡ up k f
kept_cases of_length true b c f e = absurd (cc)
kept_cases of_length false true c f e = refl
kept_cases of_length false false true f e = refl
kept_cases of_length false false false f e = refl
kept_cases of_host true b c f e = refl
kept_cases of_host false true c f e = absurd (cc)
kept_cases of_host false false true f e = refl
kept_cases of_host false false false f e = refl
kept_cases of_connection true b c f e = refl
kept_cases of_connection false true c f e = refl
kept_cases of_connection false false true f e = absurd (cc)
kept_cases of_connection false false false f e = refl

-- Another name leaves it.
see_kept :
    (k : Flag) (f : Seen) (n : Bytes)
    → bytes_eq (to_ascii_lowercase n) (lname k) ≡ false
    → up k (see f n) ≡ up k f
unfolding see
see_kept of_length f n e =
    kept_cases of_length _ (bytes_eq (to_ascii_lowercase n) (lname of_host))
      (bytes_eq (to_ascii_lowercase n) (lname of_connection)) f e
see_kept of_host f n e =
    kept_cases of_host (bytes_eq (to_ascii_lowercase n) (lname of_length)) _
      (bytes_eq (to_ascii_lowercase n) (lname of_connection)) f e
see_kept of_connection f n e =
    kept_cases of_connection (bytes_eq (to_ascii_lowercase n) (lname of_length))
      (bytes_eq (to_ascii_lowercase n) (lname of_host)) _ f e

see-up : (k : Flag) (f : Seen) (n : Bytes) → up k f ≡ true → up k (see f n) ≡ true
see-up k f n e = elim (Bool-cases (bytes_eq (to_ascii_lowercase n) (lname k))) [
  | inl h ↦ ap (up k) (see-raised k f n (eq_of_bytes_eq _ _ h)) ∙ up-raised k f
  | inr h ↦ see_kept k f n h ∙ e
]

see_all-up : (k : Flag) (f : Seen) (hs : List Header) → up k f ≡ true → up k (see_all f hs) ≡ true
unfolding see_all
see_all-up k f [] e = e
see_all-up k f ((n, v) ∷ hs) e = see_all-up k (see f n) hs (see-up k f n e)

see_all-unfound :
    (k : Flag) (f : Seen) (hs : List Header)
    → lookup_lower (lname k) hs ≡ none
    → up k (see_all f hs) ≡ up k f
unfolding see_all
see_all-unfound k f [] e = refl
see_all-unfound k f ((n, v) ∷ hs) e =
    let (h, r) = lookup_lower-cons_none (lname k) n v hs e in
    see_all-unfound k (see f n) hs r ∙ see_kept k f n h

see_all-found :
    (k : Flag) (f : Seen) (hs : List Header) (w : Bytes)
    → lookup_lower (lname k) hs ≡ some w
    → up k (see_all f hs) ≡ true
unfolding see_all lookup_lower
see_all-found k f [] w e = absurd (cc)
see_all-found k f ((n, v) ∷ hs) w e =
    elim (Bool-cases (bytes_eq (to_ascii_lowercase n) (lname k))) [
      | inl h ↦
          see_all-up k (see f n) hs
            (ap (up k) (see-raised k f n (eq_of_bytes_eq _ _ h)) ∙ up-raised k f)
      | inr h ↦ see_all-found k (see f n) hs w (rw h at e)
    ]

nothing_up : (k : Flag) → up k nothing_seen ≡ false
nothing_up of_length = refl
nothing_up of_host = refl
nothing_up of_connection = refl

-- Pushing a header unless its flag is up adds it where it is missing.
push_unless-missing :
    (k : Flag) (hs out : List Header) (h : Header)
    → header_lookup hs h.0 ≡ lookup_lower (lname k) hs
    → push_unless (up k (see_all nothing_seen hs)) out h ≡ out ++ missing hs h
push_unless-missing k hs out h e = elim (Option-cases (lookup_lower (lname k) hs)) [
  | inl f ↦
      let found : header_lookup hs h.0 ≡ none = e ∙ f in
      rw (see_all-unfound k nothing_seen hs f ∙ nothing_up k, found) refl
  | inr (w, f) ↦
      let found : header_lookup hs h.0 ≡ some w = e ∙ f in
      rw (see_all-found k nothing_seen hs w f, found) (sym (append-nil out))
]

pub add_default_headers-completed :
    (hs : List Header) (body host : Bytes)
    → add_default_headers hs body host ≡ completed hs body host
unfolding add_default_headers
add_default_headers-completed hs body host =
    let seen = see_all nothing_seen hs in
    let one =
      push_unless seen.content_length hs (codes "Content-Length", to_string (length body)) in
    let two = push_unless seen.host one (codes "Host", host) in
    push_unless-missing of_connection hs two (codes "Connection", codes "close")
      (unfold header_lookup to_ascii_lowercase in refl)
    ∙ ap (λ out. out ++ missing hs (codes "Connection", codes "close"))
        (push_unless-missing of_host hs one (codes "Host", host)
            (unfold header_lookup to_ascii_lowercase in refl)
          ∙ ap (λ out. out ++ missing hs (codes "Host", host))
              (push_unless-missing of_length hs hs (codes "Content-Length", to_string (length body))
                (unfold header_lookup to_ascii_lowercase in refl)))
