-- ===== src/Http/Defaults.antt =====
-- The default headers: what `add_default_headers` leaves a second call to add, which is what
-- uds.rs does before `build_request`.
use libagent.Base.{◌≡◌, refl, ap, ◌∙◌, Bool, true, false, List, [], ◌∷◌, ◌++◌, length}
use libagent.Text.{Bytes, codes, bytes_eq, to_ascii_lowercase}
use libagent.Text.Number.{to_string}
use libagent.Http.{Header}
use libagent.Http.Request.{
  Seen, see, see_all, push_unless, nothing_seen, add_default_headers, request_head, build_request,
}

see_all-append :
    (f : Seen) (hs : List Header) (h : Header) → see_all f (hs ++ h ∷ []) ≡ see (see_all f hs) h.0
unfolding see_all
see_all-append f [] h = refl
see_all-append f ((name, value) ∷ hs) h = see_all-append (see f name) hs h

see_length : (f : Seen) → see f (codes "Content-Length") ≡ record f { content_length = true }
unfolding see bytes_eq to_ascii_lowercase
see_length f = refl

see_host : (f : Seen) → see f (codes "Host") ≡ record f { host = true }
unfolding see bytes_eq to_ascii_lowercase
see_host f = refl

see_connection : (f : Seen) → see f (codes "Connection") ≡ record f { connection = true }
unfolding see bytes_eq to_ascii_lowercase
see_connection f = refl

-- A header is pushed unless its flag is up; afterwards the flag is up in either case.
pushed :
    (seen : Bool) (hs : List Header) (h : Header) (g : Seen)
    → (seen ≡ true → see_all nothing_seen hs ≡ g)
    → see (see_all nothing_seen hs) h.0 ≡ g
    → see_all nothing_seen (push_unless seen hs h) ≡ g
pushed true hs h g e₁ e₂ = e₁ refl
pushed false hs h g e₁ e₂ = see_all-append nothing_seen hs h ∙ e₂

pushed_length :
    (f : Seen) (hs : List Header) (v : Bytes)
    → see_all nothing_seen hs ≡ f
    → see_all nothing_seen (push_unless f.content_length hs (codes "Content-Length", v))
      ≡ record f { content_length = true }
pushed_length f hs v e =
    pushed f.content_length hs _ _ (λ up. e ∙ ap (λ b. record f { content_length = b }) up)
      (ap (λ g. see g (codes "Content-Length")) e ∙ see_length f)

pushed_host :
    (f : Seen) (hs : List Header) (v : Bytes)
    → see_all nothing_seen hs ≡ f
    → see_all nothing_seen (push_unless f.host hs (codes "Host", v)) ≡ record f { host = true }
pushed_host f hs v e =
    pushed f.host hs _ _ (λ up. e ∙ ap (λ b. record f { host = b }) up)
      (ap (λ g. see g (codes "Host")) e ∙ see_host f)

pushed_connection :
    (f : Seen) (hs : List Header) (v : Bytes)
    → see_all nothing_seen hs ≡ f
    → see_all nothing_seen (push_unless f.connection hs (codes "Connection", v))
      ≡ record f { connection = true }
pushed_connection f hs v e =
    pushed f.connection hs _ _ (λ up. e ∙ ap (λ b. record f { connection = b }) up)
      (ap (λ g. see g (codes "Connection")) e ∙ see_connection f)

all_seen : Seen
all_seen = record { content_length = true; host = true; connection = true }

see_all-add_default_headers :
    (headers : List Header) (body host : Bytes)
    → see_all nothing_seen (add_default_headers headers body host) ≡ all_seen
unfolding add_default_headers all_seen
see_all-add_default_headers headers body host =
    let f = see_all nothing_seen headers in
    pushed_connection (record f { content_length = true; host = true }) _ (codes "close")
      (pushed_host (record f { content_length = true }) _ host
        (pushed_length f headers (to_string (length body)) refl))

nothing_added :
    (f : Seen) (headers : List Header) (v host : Bytes)
    → f ≡ all_seen
    → push_unless f.connection
        (push_unless f.host
          (push_unless f.content_length headers (codes "Content-Length", v))
          (codes "Host", host))
        (codes "Connection", codes "close")
      ≡ headers
unfolding all_seen
nothing_added f headers v host e = rw e

add_default_headers_complete :
    (headers : List Header) (body host : Bytes)
    → see_all nothing_seen headers ≡ all_seen
    → add_default_headers headers body host ≡ headers
unfolding add_default_headers
add_default_headers_complete headers body host e =
    nothing_added (see_all nothing_seen headers) headers (to_string (length body)) host e

-- Adding the default headers a second time adds nothing, whatever the body and the host are then.
pub add_default_headers-add_default_headers :
    (headers : List Header) (body body' host host' : Bytes)
    → add_default_headers (add_default_headers headers body host) body' host'
      ≡ add_default_headers headers body host
add_default_headers-add_default_headers headers body body' host host' =
    add_default_headers_complete (add_default_headers headers body host) body' host'
      (see_all-add_default_headers headers body host)

-- The "localhost" of `build_request` never gets into a request that has a host already.
pub build_request_named :
    (method path : Bytes) (headers : List Header) (body host : Bytes)
    → build_request method path (add_default_headers headers body host) body
      ≡ request_head method path (add_default_headers headers body host) ++ body
unfolding build_request
build_request_named method path headers body host =
    ap (λ (hs : List Header). request_head method path hs ++ body)
      (add_default_headers-add_default_headers headers body body host (codes "localhost"))
