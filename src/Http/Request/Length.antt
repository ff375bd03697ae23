-- ===== src/Http/Request/Length.antt =====
-- The Content-Length that `add_default_headers` of http.rs adds.
use libagent.Base.{
  ◌≤◌, ◌≡◌, refl, ◌∙◌, inl, inr, Bool, true, false, none, some, List, [], ◌∷◌, ◌++◌, if◌then◌else◌,
  Bool-cases, on_false, length,
}
use libagent.Text.{Bytes, codes, bytes_eq, to_ascii_lowercase}
use libagent.Text.Number.{to_string, u64_max}
use libagent.Text.Number.Printed.{from_str_radix-to_string}
use libagent.Http.{Header}
use libagent.Http.Headers.{lookup_lower, header_lookup}
use libagent.Http.Body.Content.{StatesLength}
use libagent.Http.Request.{Seen, see, see_all, push_unless, nothing_seen, add_default_headers}

-- A header that is not that one is passed over.
pub lookup_lower-cons_none :
    (name n v : Bytes) (hs : List Header)
    → lookup_lower name ((n, v) ∷ hs) ≡ none
    → (bytes_eq (to_ascii_lowercase n) name ≡ false) × (lookup_lower name hs ≡ none)
unfolding lookup_lower
lookup_lower-cons_none name n v hs e = elim (Bool-cases (bytes_eq (to_ascii_lowercase n) name)) [
  | inl f ↦ absurd (let e' : some v ≡ none = rw f at e in cc)
  | inr f ↦ (f, rw f at e)
]

lookup_lower-append_none :
    (name : Bytes) (hs more : List Header)
    → lookup_lower name hs ≡ none
    → lookup_lower name (hs ++ more) ≡ lookup_lower name more
unfolding lookup_lower
lookup_lower-append_none name [] more e = refl
lookup_lower-append_none name ((n, v) ∷ hs) more e =
    let (f, r) = lookup_lower-cons_none name n v hs e in
    rw f (lookup_lower-append_none name hs more r)

lookup_lower-append_some :
    (name v : Bytes) (hs more : List Header)
    → lookup_lower name hs ≡ some v
    → lookup_lower name (hs ++ more) ≡ some v
unfolding lookup_lower
lookup_lower-append_some name v [] more e = absurd cc
lookup_lower-append_some name v ((n, w) ∷ hs) more e =
    elim (Bool-cases (bytes_eq (to_ascii_lowercase n) name)) [
      | inl f ↦ rw f (rw f at e)
      | inr f ↦ rw f (lookup_lower-append_some name v hs more (rw f at e))
    ]

lookup_lower-push_unless :
    (name v : Bytes) (seen : Bool) (hs : List Header) (h : Header)
    → lookup_lower name hs ≡ some v
    → lookup_lower name (push_unless seen hs h) ≡ some v
lookup_lower-push_unless name v true hs h e = e
lookup_lower-push_unless name v false hs h e = lookup_lower-append_some name v hs (h ∷ []) e

either_length :
    (b : Bool) (x y : Seen) (c : Bool)
    → x.content_length ≡ c
    → y.content_length ≡ c
    → (if b then x else y).content_length ≡ c
either_length true x y c e f = e
either_length false x y c e f = f

see_other :
    (f : Seen) (n : Bytes)
    → bytes_eq (to_ascii_lowercase n) (codes "content-length") ≡ false
    → (see f n).content_length ≡ f.content_length
unfolding see
see_other f n e =
    let name = to_ascii_lowercase n in
    let connected =
      if bytes_eq name (codes "connection") then record f { connection = true } else f in
    on_false (λ (g : Seen). g.content_length ≡ f.content_length)
      (bytes_eq name (codes "content-length")) _ _ e
      (either_length (bytes_eq name (codes "host")) (record f { host = true }) connected
        f.content_length refl
        (either_length (bytes_eq name (codes "connection")) (record f { connection = true }) f
          f.content_length refl refl))

-- The flag is up only where there is the header.
see_all-none :
    (f : Seen) (hs : List Header)
    → lookup_lower (codes "content-length") hs ≡ none
    → (see_all f hs).content_length ≡ f.content_length
unfolding see_all
see_all-none f [] e = refl
see_all-none f ((n, v) ∷ hs) e =
    let (k, r) = lookup_lower-cons_none (codes "content-length") n v hs e in
    see_all-none (see f n) hs r ∙ see_other f n k

length_header :
    (v : Bytes) → lookup_lower (codes "content-length") ((codes "Content-Length", v) ∷ []) ≡ some v
unfolding lookup_lower bytes_eq to_ascii_lowercase
length_header v = refl

-- Where the caller states no length, the defaults state that of the body.
pub add_default_headers-StatesLength :
    (hs : List Header) (body host : Bytes)
    → header_lookup hs (codes "Content-Length") ≡ none
    → length body ≤ u64_max
    → StatesLength (add_default_headers hs body host) (length body)
unfolding add_default_headers header_lookup to_ascii_lowercase
add_default_headers-StatesLength hs body host e fits = (
  to_string (length body),
  lookup_lower-push_unless name printed seen.connection with_host
      (codes "Connection", codes "close")
      (lookup_lower-push_unless name printed seen.host with_length (codes "Host", host) stated),
  from_str_radix-to_string u64_max (length body) fits,
)
  where
    name : Bytes
    name = codes "content-length"

    printed : Bytes
    printed = to_string (length body)

    seen : Seen
    seen = see_all nothing_seen hs

    with_length : List Header
    with_length = push_unless seen.content_length hs (codes "Content-Length", printed)

    with_host : List Header
    with_host = push_unless seen.host with_length (codes "Host", host)

    stated : lookup_lower name with_length ≡ some printed
    stated =
        on_false (λ out. lookup_lower name out ≡ some printed) seen.content_length hs
          (hs ++ (codes "Content-Length", printed) ∷ []) (see_all-none nothing_seen hs e)
          (lookup_lower-append_none name hs ((codes "Content-Length", printed) ∷ []) e
            ∙ length_header printed)
