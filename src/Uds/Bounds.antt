-- ===== src/Uds/Bounds.antt =====
-- `request_over_uds` over any socket that keeps to its buffers: it ends, with a body below the cap.
use libagent.Base.{
  ℕ, zero, suc, ◌+◌, ◌≤◌, ◌<◌, max, ◌≡◌, ◌≢◌, inl, inr, Bool, true, false, List, [], ◌∷◌, ◌++◌,
  arith, ltb, ltb-false→le, Bool-cases, Option-cases, length, take, drop, length-append,
  length-drop, Result, ok, err, ◌>>=◌,
}
use libagent.Text.{Bytes}
use libagent.Text.Lines.{split_crlf, join_crlf}
use libagent.Text.Utf8.{is_utf8}
use libagent.Io.{Reader, Read, got, fault, IsBounded, NeverInterrupted}
use libagent.Http.{
  Header, Response, Attempt, max_body_size, max_head_size, out_of_fuel, connect_error, write_error,
  Sourced,
}
use libagent.Http.Status.{parse_status_line, parse_status_line-Sourced}
use libagent.Http.Headers.{parse_headers}
use libagent.Http.Framing.{memchr_crlf_crlf, after_read, read_head, read_until_double_crlf}
use libagent.Http.Body.{read_http_body}
use libagent.Http.Body.Bounds.{BodyEnds, read_http_body_bounded}
use libagent.Uds.{
  Socket, map_err, build_request, parse_head_lines, parse_head, finish_response, read_response,
  drained, request_over_uds,
}

-- The attempt ended by itself: with a buffer below the cap, or with an error of the source.
abbrev HeadEnds : {S : Type 0} → Attempt (ℕ × Bytes × S) → Type 0
HeadEnds (ok (pos, buf, s)) = length buf ≤ max_head_size
HeadEnds (err e) = e ≢ out_of_fuel

-- Likewise for a response, by its body.
abbrev pub ResponseEnds : ℕ → Attempt Response → Type 0
ResponseEnds n (ok resp) = length resp.body ≤ n
ResponseEnds n (err e) = e ≢ out_of_fuel

parse_head-Sourced : (head : Bytes) → Sourced (parse_head head)
unfolding parse_head parse_head_lines
parse_head-Sourced head = elim (Bool-cases (is_utf8 head)) [
  | inl e ↦ rw e (lines-Sourced (split_crlf head))
  | inr e ↦ rw e (cc)
]
  where
    with_headers :
        (lines : List Bytes) (r : Attempt ℕ)
        → Sourced r
        → Sourced {A = ℕ × List Header}
            (r >>= λ status. ok (status, parse_headers (join_crlf lines)))
    with_headers lines (ok status) h = tt
    with_headers lines (err e) h = h

    lines-Sourced : (lines : List Bytes) → Sourced (parse_head_lines lines)
    lines-Sourced [] = cc
    lines-Sourced (status_line ∷ lines) =
        with_headers lines (parse_status_line status_line) (parse_status_line-Sourced status_line)

module _ {S : Type 0} (read : Reader S) (bounded : IsBounded read)
    (quiet : NeverInterrupted read) where
  after_read-Ends :
      (buf : Bytes) (go : Bytes → S → Attempt (ℕ × Bytes × S)) (r : Read S)
      → ((more : Bytes) (s : S)
          → length buf < length more
          → length more ≤ max_head_size
          → HeadEnds (go more s))
      → HeadEnds (after_read read buf go r)
  unfolding after_read
  after_read-Ends buf go (fault f s) h = cc
  after_read-Ends buf go (got [] s) h = cc
  after_read-Ends buf go (got (b ∷ bs) s) h =
      elim (Bool-cases (ltb max_head_size (length (buf ++ b ∷ bs)))) [
        | inl e ↦ rw e (cc)
        | inr e ↦ rw e (
            h (buf ++ b ∷ bs) s (omega (arith, length-append buf (b ∷ bs)))
              (omega (arith, ltb-false→le _ _ e)))
      ]

  read_head-Ends :
      (fuel : ℕ) (buf : Bytes) (s : S)
      → length buf ≤ max_head_size
      → max_head_size < fuel + length buf
      → HeadEnds (read_head read fuel buf s)
  unfolding read_head
  read_head-Ends zero buf s small f = absurd (omega arith)
  read_head-Ends (suc fuel) buf s small f = elim (Option-cases (memchr_crlf_crlf buf)) [
    | inr (p, e) ↦ rw (e, read_head) small
    | inl e ↦
        rw (e, read_head)
          (after_read-Ends buf (λ buf' s'. read_head read fuel buf' s') (read 1024 s)
            (λ more s' grows fits. read_head-Ends fuel more s' fits (omega arith)))
  ]

  body_ends :
      (status : ℕ) (headers : List Header) (n : ℕ) (r : Attempt Bytes)
      → n ≤ max_body_size
      → BodyEnds n r
      → ResponseEnds max_body_size
          (r >>= λ body. ok (record { status = status; headers = headers; body = body }))
  body_ends status headers n (ok body) h k = omega arith
  body_ends status headers n (err e) h k = k

  finish_response-Ends :
      (pos : ℕ) (buf : Bytes) (s : S)
      → length buf ≤ max_head_size
      → ResponseEnds max_body_size (finish_response read (pos, buf, s))
  unfolding finish_response
  finish_response-Ends pos buf s small =
      headed (parse_head (take pos buf)) (parse_head-Sourced (take pos buf))
    where
      headed :
          (r : Attempt (ℕ × List Header))
          → Sourced r
          → ResponseEnds max_body_size (
              r >>= λ (p : ℕ × List Header). read_http_body read s (drop pos buf) p.1 >>= λ body.
              ok (record { status = p.0; headers = p.1; body = body }))
      headed (err e) h = h
      headed (ok (status, headers)) h =
          body_ends status headers (max max_body_size (length (drop pos buf))) _
            (omega (arith, length-drop pos buf))
            (read_http_body_bounded read bounded quiet s (drop pos buf) headers)

  pub read_response-Ends : (s : S) → ResponseEnds max_body_size (read_response read s)
  unfolding read_response read_until_double_crlf
  read_response-Ends s =
      framed (read_head read (suc max_head_size) [] s)
        (read_head-Ends (suc max_head_size) [] s (omega arith) (omega arith))
    where
      framed :
          (r : Attempt (ℕ × Bytes × S))
          → HeadEnds r
          → ResponseEnds max_body_size (r >>= λ (p : ℕ × Bytes × S). finish_response read p)
      framed (err e) h = h
      framed (ok (pos, buf, s')) h = finish_response-Ends pos buf s' h

-- Where the rest of the stream comes to an end, so does reading it.
drained-ResponseEnds :
    {A : Type 0} (n : ℕ) (ends : Bool) (r : Attempt A) (k : A → Attempt Response)
    → ends ≡ true
    → ResponseEnds n (r >>= k)
    → ResponseEnds n (drained ends r >>= k)
drained-ResponseEnds n ends (ok a) k e h = h
drained-ResponseEnds n true (err f) k e h = h
drained-ResponseEnds n false (err f) k e h = absurd (cc)

-- An exchange over a socket that keeps to its buffers and is not interrupted ends, whatever the server
-- sends, if what it sends ends where the head of the response cannot be read: with an error of the
-- source, or with a response whose body has 100 MiB at most.
pub request_over_uds-ResponseEnds :
    {S : Type 0} (socket : Socket S)
    → IsBounded socket.read
    → NeverInterrupted socket.read
    → ((s : S) → socket.drains s ≡ true)
    → (uds_path method path : Bytes) (headers : List Header) (body : Bytes)
    → ResponseEnds max_body_size (request_over_uds socket uds_path method path headers body)
unfolding request_over_uds read_response
request_over_uds-ResponseEnds {S} socket bounded quiet ends uds_path method path headers body =
    connected (socket.connect uds_path)
  where
    answer : S → Attempt Response
    answer s = drained (socket.drains s) (read_until_double_crlf socket.read [] s) >>= λ p.
        finish_response socket.read p

    written :
        (r : Result Bytes S) → ResponseEnds max_body_size (map_err write_error r >>= λ s. answer s)
    written (err e) = λ h. cc
    written (ok s) =
        drained-ResponseEnds max_body_size (socket.drains s)
          (read_until_double_crlf socket.read [] s) (finish_response socket.read) (ends s)
          (read_response-Ends socket.read bounded quiet s)

    connected :
        (r : Result Bytes S)
        → ResponseEnds max_body_size (
            map_err connect_error r >>= λ s.
            map_err write_error (socket.write_all (build_request method path headers body) s)
            >>= λ s'. answer s')
    connected (err e) = λ h. cc
    connected (ok s) = written (socket.write_all (build_request method path headers body) s)
