-- ===== src/Uds/Responses.antt =====
-- `request_over_uds` from end to end, over a socket that delivers a well-formed response: the response
-- is the same however the socket cuts the bytes into pieces.
use libagent.Base.{
  ℕ, ◌+◌, ◌≤◌, ◌≡◌, sym, ap, ◌∙◌, Bool, true, false, none, List, ◌++◌, arith, leb, length, take,
  drop, length-append, take-append_length, drop-append_length, take_all, take-append_le,
  drop-append_le, ok, err, ◌>>=◌,
}
use libagent.Text.{Bytes, codes}
use libagent.Io.{IsSource, Reader}
use libagent.Http.{Header, Response, Attempt, max_body_size}
use libagent.Http.Headers.{header_lookup}
use libagent.Http.Framing.Delivers.{read_until_double_crlf-Framed}
use libagent.Http.Chunked.Wire.{Wire}
use libagent.Http.Body.{is_chunked, read_http_body}
use libagent.Http.Body.Content.{StatesLength, read_http_body_sized, read_http_body-Wire}
use libagent.Uds.Heads.{IsHead, memchr_crlf_crlf-IsHead, parse_head-IsHead}
use libagent.Uds.{Socket, build_request, finish_response, read_response, drained, request_over_uds}

-- What the socket does when all goes well: it connects, takes the request, and has the input `whole`.
pub record Serves {S : Type 0} (socket : Socket S) (Live : S → Type 0) (content : S → Bytes)
    (uds_path request whole : Bytes) : Type 0 where
  pub connected : S
  pub written : S
  pub connects : socket.connect uds_path ≡ ok connected
  pub writes : socket.write_all request connected ≡ ok written
  pub live : Live written
  pub input : content written ≡ whole

module _ {S : Type 0} (read : Reader S) (Live : S → Type 0) (content : S → Bytes)
    (source : IsSource read Live content) where
  -- Behind the head: the response has the body that is read from the rest of the input.
  finish_response_body :
      (head tail : Bytes) (status : ℕ) (headers : List Header) (body buf : Bytes) (s : S)
      → IsHead head status headers
      → buf ++ content s ≡ head ++ tail
      → length head ≤ length buf
      → read_http_body read s (drop (length head) buf) headers ≡ ok body
      → finish_response read (length head, buf, s)
        ≡ ok (record { status = status; headers = headers; body = body })
  unfolding finish_response
  finish_response_body head tail status headers body buf s h e covers r =
      let cut : take (length head) buf ≡ head =
        sym (take-append_le (length head) buf (content s) covers)
        ∙ (ap (take (length head)) e ∙ take-append_length head tail) in
      rw (cut, parse_head-IsHead h, r)

  -- What is left of the buffer behind the head, and what is still to come, are the input's tail.
  left_over :
      (head tail buf : Bytes) (s : S)
      → buf ++ content s ≡ head ++ tail
      → length head ≤ length buf
      → drop (length head) buf ++ content s ≡ tail
  left_over head tail buf s e covers =
      sym (drop-append_le (length head) buf (content s) covers)
      ∙ (ap (drop (length head)) e ∙ drop-append_length head tail)

  read_response_body :
      (head tail : Bytes) (status : ℕ) (headers : List Header) (body : Bytes) (s : S)
      → IsHead head status headers
      → Live s
      → content s ≡ head ++ tail
      → ((rest : Bytes) (s' : S)
          → Live s'
          → rest ++ content s' ≡ tail
          → read_http_body read s' rest headers ≡ ok body)
      → read_response read s ≡ ok (record { status = status; headers = headers; body = body })
  unfolding read_response
  read_response_body head tail status headers body s h l e reads =
      let f =
        read_until_double_crlf-Framed read Live content source (head ++ tail) (length head)
          (memchr_crlf_crlf-IsHead h tail) h.small s l e in
      rw f.result (
        finish_response_body head tail status headers body f.buf f.after h f.splits f.covers (
          reads (drop (length head) f.buf) f.after f.live
            (left_over head tail f.buf f.after f.splits f.covers)))

  -- From the stream on, whatever transport it belongs to.
  pub read_response_sized :
      (head body : Bytes) (status : ℕ) (answered : List Header) (s : S)
      → IsHead head status answered
      → StatesLength answered (length body)
      → length body ≤ max_body_size
      → Live s
      → content s ≡ head ++ body
      → read_response read s ≡ ok (record { status = status; headers = answered; body = body })
  read_response_sized head body status answered s h st fits l e =
      read_response_body head body status answered body s h l e sized
    where
      sized :
          (rest : Bytes) (s : S)
          → Live s
          → rest ++ content s ≡ body
          → read_http_body read s rest answered ≡ ok body
      sized rest s l e =
          let total : length rest + length (content s) ≡ length body =
            sym (length-append rest (content s)) ∙ ap length e in
          let enough : leb (length body) (length rest + length (content s)) ≡ true = ground arith in
          read_http_body_sized read Live content source answered (length body) rest s st fits
            (omega arith) l
          ∙ rw (enough, e, take_all (length body) body (omega arith))

  pub read_response_chunked :
      (head wire body : Bytes) (status : ℕ) (answered : List Header) (s : S)
      → IsHead head status answered
      → header_lookup answered (codes "Content-Length") ≡ none
      → is_chunked answered ≡ true
      → Wire wire body
      → length body ≤ max_body_size
      → Live s
      → content s ≡ head ++ wire
      → read_response read s ≡ ok (record { status = status; headers = answered; body = body })
  read_response_chunked head wire body status answered s h e₁ e₂ w fits l e =
      read_response_body head wire status answered body s h l e (λ rest s' l' e'.
        read_http_body-Wire read Live content source w answered rest s' e₁ e₂ l' e' fits)

-- A head that is read needs no draining.
through :
    {A : Type 0} (ends : Bool) (r : Attempt A) (k : A → Attempt Response) (resp : Response)
    → (r >>= k) ≡ ok resp
    → (drained ends r >>= k) ≡ ok resp
through ends (ok a) k resp e = e
through true (err e) k resp h = h
through false (err e) k resp h = absurd (cc)

module _ {S : Type 0} (socket : Socket S) (Live : S → Type 0) (content : S → Bytes)
    (source : IsSource socket.read Live content) where
  responds :
      (uds_path method path : Bytes) (headers : List Header) (body whole : Bytes) (resp : Response)
      → (serves : Serves socket Live content uds_path
          (build_request method path headers body)
          whole)
      → read_response socket.read serves.written ≡ ok resp
      → request_over_uds socket uds_path method path headers body ≡ ok resp
  unfolding request_over_uds read_response
  responds uds_path method path headers body whole resp serves r =
      rw (serves.connects, serves.writes)
        (through (socket.drains serves.written) _ (finish_response socket.read) resp r)

  -- A response with a Content-Length is read as it was sent, in whatever pieces the bytes arrive: a
  -- socket that serves "HTTP/1.1", a status below 65536, a reason phrase, printed headers that fit on
  -- lines, an empty line and a body of the stated length, below the caps and in UTF-8 up to the body,
  -- gives that status, those headers and that body.
  pub request_over_uds_sized :
      (uds_path method path : Bytes) (headers : List Header) (payload : Bytes)
      → (head body : Bytes) (status : ℕ) (answered : List Header) → IsHead head status answered
      → StatesLength answered (length body)
      → length body ≤ max_body_size
      → Serves socket Live content uds_path
          (build_request method path headers payload)
          (head ++ body)
      → request_over_uds socket uds_path method path headers payload
        ≡ ok (record { status = status; headers = answered; body = body })
  request_over_uds_sized uds_path method path headers payload head body status answered h st fits
        serves =
      responds uds_path method path headers payload (head ++ body) _ serves (
        read_response_sized socket.read Live content source head body status answered serves.written
          h st fits serves.live serves.input)

  -- A chunked response is read as it was sent, in whatever pieces the bytes arrive: a socket that serves
  -- a printed status line, printed headers that name the chunked coding and no length, an empty line and
  -- a body in chunks of hexadecimal sizes, below the caps, gives that status, those headers and the
  -- data of the chunks.
  pub request_over_uds_chunked :
      (uds_path method path : Bytes) (headers : List Header) (payload : Bytes)
      → (head wire body : Bytes) (status : ℕ) (answered : List Header) → IsHead head status answered
      → header_lookup answered (codes "Content-Length") ≡ none
      → is_chunked answered ≡ true
      → Wire wire body
      → length body ≤ max_body_size
      → Serves socket Live content uds_path
          (build_request method path headers payload)
          (head ++ wire)
      → request_over_uds socket uds_path method path headers payload
        ≡ ok (record { status = status; headers = answered; body = body })
  request_over_uds_chunked uds_path method path headers payload head wire body status answered h e₁
        e₂ w fits serves =
      responds uds_path method path headers payload (head ++ wire) _ serves (
        read_response_chunked socket.read Live content source head wire body status answered
          serves.written h e₁ e₂ w fits serves.live serves.input)
