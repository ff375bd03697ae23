-- ===== src/Ffi/Laws.antt =====
-- What the C functions promise: the code that is returned says which callback was called, once at
-- most, and what was counted.
use libagent.Base.{
  ◌++◌, List, ℕ, zero, suc, ◌+◌, ◌%◌, ◌<◌, ◌≡◌, refl, sym, subst, ◌∙◌, ◌⊎◌, inl, inr, Bool, true,
  false, Option, none, some, [], ◌∷◌, arith, if◌then◌else◌, Result, ok, err,
}
use libagent.Text.{Bytes}
use libagent.Config.{Env, get_trace_agent_uds_path, get_dogstatsd_uds_path, get_dogstatsd_pipe_name}
use libagent.Io.{IsBounded, NeverInterrupted}
use libagent.Http.{
  Response, Attempt, max_body_size, malformed_status_line, missing_status_code, invalid_status_code,
  eof_in_headers, headers_too_large, eof_in_body, eof_in_chunked, chunk_line_too_long,
  invalid_chunk_line, invalid_chunk_utf8, invalid_chunk_size, chunked_body_too_large,
  invalid_chunk_terminator, invalid_content_length, body_too_large, invalid_head_utf8,
  empty_response, read_error, chunk_too_large, content_length_too_large, connect_error, write_error,
  out_of_fuel,
}
use libagent.Http.Headers.{serialize_headers}
use libagent.Metrics.{
  Metrics, u64_mod, in_class, fetch_add_one, record_proxy_request, record_dogstatsd_request,
  record_dogstatsd_success, record_dogstatsd_error,
}
use libagent.Metrics.Laws.{
  requests, responses, requests-record_proxy_request, responses-record_proxy_response,
  requests-record_proxy_response, response_times-record_proxy_request,
}
use libagent.Manager.{AgentManager, manager_cell}
use libagent.Manager.Readiness.{IsClock, EnsuresReady, ensure_trace_agent_ready-EnsuresReady}
use libagent.Dogstatsd.{Datagram, send_metric_over_uds, PipeFile, send_metric_over_pipe}
use libagent.Uds.{Socket}
use libagent.Uds.Bounds.{ResponseEnds, request_over_uds-ResponseEnds}
use libagent.Ffi.{
  panicked, Event, came_back, ℤ, pos, negsuc, ProxyError, Pointer, ProxyArgs, ValidArgs,
  validate_proxy_args, responded, failed, Library, Site, after_ready, perform_proxy_request,
  Proxied, event_if, deliver, proceed, proxy_trace_agent, record_sent, send_payload, send_with,
  send_dogstatsd_metric, send_dogstatsd_metric_over_pipe,
}

-- A result 0 comes with the response callback, and with a request and a response counted; -1 with
-- the error callback, and the manager and the metrics as they were; -2 with the error callback, and
-- a request counted. No other result comes.
abbrev pub Reports : {F S : Type 0} → ProxyArgs → Library F → Proxied F S → Type 0
Reports args lib none = ⊥
Reports args lib (some (pos zero, events, lib', s)) =
    ((resp : Response) × (events
        ≡ event_if args.on_response
            (responded resp.status (serialize_headers resp.headers) resp.body))
      × (responses lib'.metrics ≡ (
          if in_class 200 600 resp.status
          then responses lib.metrics + 1
          else responses lib.metrics)))
    × (requests lib'.metrics ≡ requests lib.metrics + 1)
Reports args lib (some (pos (suc n), events, lib', s)) = ⊥
Reports args lib (some (negsuc zero, events, lib', s)) =
    ((e : ProxyError) × (events ≡ event_if args.on_error (failed e)))
    × (lib'.metrics ≡ lib.metrics)
    × (lib'.manager ≡ lib.manager)
Reports args lib (some (negsuc (suc zero), events, lib', s)) =
    ((e : ProxyError) × (events ≡ event_if args.on_error (failed e)))
    × (requests lib'.metrics ≡ requests lib.metrics + 1)
    × (responses lib'.metrics ≡ responses lib.metrics)
Reports args lib (some (negsuc (suc (suc n)), events, lib', s)) = ⊥

-- A socket that keeps to its buffers, is not interrupted, and on which what the server sends comes to an
-- end where the head of its response cannot be read.
pub record EndsWell {T : Type 0} (socket : Socket T) : Type 0 where
  pub bounded : IsBounded socket.read
  pub quiet : NeverInterrupted socket.read
  pub drains : (t : T) → socket.drains t ≡ true

module _ {F S T : Type 0} (site : Site F S T) where
  abbrev Comes : Option (Result ProxyError Response × AgentManager × S) → Type 0
  Comes none = ⊥
  Comes (some p) = Unit

  came_back-Comes :
      (n : ℕ) (r : Attempt Response) (mgr : AgentManager) (s : S)
      → ResponseEnds n r
      → Comes (came_back r mgr s)
  came_back-Comes n (ok resp) mgr s h = tt
  came_back-Comes n (err malformed_status_line) mgr s h = tt
  came_back-Comes n (err missing_status_code) mgr s h = tt
  came_back-Comes n (err invalid_status_code) mgr s h = tt
  came_back-Comes n (err eof_in_headers) mgr s h = tt
  came_back-Comes n (err headers_too_large) mgr s h = tt
  came_back-Comes n (err eof_in_body) mgr s h = tt
  came_back-Comes n (err eof_in_chunked) mgr s h = tt
  came_back-Comes n (err chunk_line_too_long) mgr s h = tt
  came_back-Comes n (err invalid_chunk_line) mgr s h = tt
  came_back-Comes n (err invalid_chunk_utf8) mgr s h = tt
  came_back-Comes n (err invalid_chunk_size) mgr s h = tt
  came_back-Comes n (err chunked_body_too_large) mgr s h = tt
  came_back-Comes n (err invalid_chunk_terminator) mgr s h = tt
  came_back-Comes n (err invalid_content_length) mgr s h = tt
  came_back-Comes n (err body_too_large) mgr s h = tt
  came_back-Comes n (err invalid_head_utf8) mgr s h = tt
  came_back-Comes n (err empty_response) mgr s h = tt
  came_back-Comes n (err (read_error x)) mgr s h = tt
  came_back-Comes n (err (chunk_too_large x)) mgr s h = tt
  came_back-Comes n (err (content_length_too_large x)) mgr s h = tt
  came_back-Comes n (err (connect_error x)) mgr s h = tt
  came_back-Comes n (err (write_error x)) mgr s h = tt
  came_back-Comes n (err out_of_fuel) mgr s h = h refl

  after_ready-Comes :
      ((s : S) → EndsWell (site.socket s))
      → (debug : Bool) (mgr : AgentManager) (args : ValidArgs)
        (r : Option (Bool × AgentManager × S))
      → EnsuresReady debug mgr r
      → Comes (after_ready site args r)
  after_ready-Comes ends debug mgr args none h = h
  after_ready-Comes ends debug mgr args (some (true, mgr', s)) h =
      came_back-Comes max_body_size _ mgr' s (
        request_over_uds-ResponseEnds (site.socket s) (ends s).bounded (ends s).quiet
          (ends s).drains (get_trace_agent_uds_path site.host.env) args.method args.path
          args.headers args.body)
  after_ready-Comes ends debug mgr args (some (false, mgr', s)) h = tt

  deliver-Reports :
      (args : ProxyArgs) (lib : Library F) (m : Metrics F)
      (r : Option (Result ProxyError Response × AgentManager × S))
      → Comes r
      → (requests m ≡ requests lib.metrics + 1) × (responses m ≡ responses lib.metrics)
      → responses m + 1 < u64_mod
      → m.response_times.sample_count + 1 < u64_mod
      → (id : ℕ)
      → Reports args lib (deliver site args (record lib { request_id = id; metrics = m }) r)
  unfolding deliver
  deliver-Reports args lib m none h (e₁, e₂) b₁ b₂ id = h
  deliver-Reports args lib m (some (err e, mgr, s)) h (e₁, e₂) b₁ b₂ id = ((e, refl), e₁, e₂)
  deliver-Reports args lib m (some (ok resp, mgr, s)) h (e₁, e₂) b₁ b₂ id =
      let (counted, sampled) =
        responses-record_proxy_response site.floats m resp.status (site.response_ms s) b₁ b₂ in
      let same = requests-record_proxy_response site.floats m resp.status (site.response_ms s) in
      ((resp, refl, rw (← e₂) counted), same ∙ e₁)

  perform-Comes :
      (time : S → ℕ)
      → IsClock site.probe time
      → ((s : S) → EndsWell (site.socket s))
      → (args : ValidArgs) (mgr : AgentManager) (s : S)
      → Comes (perform_proxy_request site args mgr s)
  unfolding perform_proxy_request
  perform-Comes time clock ends args mgr s = after_ready-Comes ends site.debug mgr args _ (
      ensure_trace_agent_ready-EnsuresReady site.probe (get_trace_agent_uds_path site.host.env) time
        clock site.debug mgr s)

  -- A proxy call that does not panic ends, when the clock of its wait goes on, its socket keeps to its
  -- buffers and is not interrupted, and what the server sends ends where the head of the response cannot
  -- be read. Below the wrap-around of the counters, 0
  -- comes with the response callback and one request more, and one response more if the status has
  -- a class; -1 with the error callback and nothing changed; -2 with the error callback and one
  -- request more. A callback that is null is not called, and no other code is returned; a call
  -- that panics returns -100, with the error callback behind what was called before.
  pub proxy_trace_agent-Reports :
      (time : S → ℕ)
      → IsClock site.probe time
      → ((s : S) → EndsWell (site.socket s))
      → (args : ProxyArgs) (lib : Library F) (s : S) → requests lib.metrics + 1 < u64_mod
      → responses lib.metrics + 1 < u64_mod
      → lib.metrics.response_times.sample_count + 1 < u64_mod
      → Reports args lib (proxy_trace_agent site none args lib s)
        × ((events : List Event) (lib' : Library F) (s' : S)
            → proxy_trace_agent site (some (events, lib', s')) args lib s
              ≡ some (negsuc 99, events ++ event_if args.on_error (failed panicked), lib', s'))
  unfolding proxy_trace_agent
  proxy_trace_agent-Reports time clock ends args lib s h₁ h₂ h₃ =
      (proceeds (validate_proxy_args args), λ events lib' s'. refl)
    where
      lib₁ : Library F
      lib₁ = record lib { request_id = fetch_add_one lib.request_id }

      proceeds : (r : Result ProxyError ValidArgs) → Reports args lib (proceed site args lib₁ s r)
      proceeds (err e) = unfold proceed in ((e, refl), refl, refl)
      proceeds (ok valid) =
          let m = record_proxy_request site.to_uppercase valid.method lib.metrics in
          let counts =
            requests-record_proxy_request site.to_uppercase valid.method lib.metrics h₁ in
          let times =
            response_times-record_proxy_request site.to_uppercase valid.method lib.metrics in
          let comes = perform-Comes time clock ends valid (manager_cell site.host lib.manager) s in
          unfold proceed in
          deliver-Reports args lib m
            (perform_proxy_request site valid (manager_cell site.host lib.manager) s) comes counts
            (rw counts.1 h₂) (rw times h₃) (fetch_add_one lib.request_id)

-- The sends so far: each was a success or an error.
abbrev pub IsBalanced : {F : Type 0} → Metrics F → Type 0
IsBalanced m = m.dogstatsd_requests ≡ (m.dogstatsd_successes + m.dogstatsd_errors) % u64_mod

-- The send gave a success; it gave an error.
abbrev pub Succeeds : {E S : Type 0} → Result E S → Type 0
Succeeds (ok s) = Unit
Succeeds (err e) = ⊥

abbrev pub Fails : {E S : Type 0} → Result E S → Type 0
Fails (ok s) = ⊥
Fails (err e) = Unit

-- The transport took the payload; it refused it.
abbrev pub Takes : {E S : Type 0} → (Bytes → Result E S) → Pointer → Type 0
Takes send none = ⊥
Takes send (some []) = ⊥
Takes send (some (b ∷ bs)) = Succeeds (send (b ∷ bs))

abbrev pub Refuses : {E S : Type 0} → (Bytes → Result E S) → Pointer → Type 0
Refuses send none = ⊥
Refuses send (some []) = ⊥
Refuses send (some (b ∷ bs)) = Fails (send (b ∷ bs))

-- What one send does: 0 and a success more, if the transport took a payload; -2 and an error more, if it
-- refused one; -1 and nothing counted, if there is no payload.
abbrev pub Sent :
    {F E S : Type 0} → (Bytes → Result E S) → Pointer → Library F → ℤ × Library F × S → Type 0
Sent send payload lib (pos zero, lib', s) =
    Takes send payload
    × (lib'.metrics ≡ record_dogstatsd_success (record_dogstatsd_request lib.metrics))
Sent send payload lib (pos (suc n), lib', s) = ⊥
Sent send payload lib (negsuc zero, lib', s) =
    ((payload ≡ none) ⊎ (payload ≡ some [])) × (lib'.metrics ≡ lib.metrics)
Sent send payload lib (negsuc (suc zero), lib', s) =
    Refuses send payload
    × (lib'.metrics ≡ record_dogstatsd_error (record_dogstatsd_request lib.metrics))
Sent send payload lib (negsuc (suc (suc n)), lib', s) = ⊥

module _ {F S E : Type 0} (send_metric : Bytes → S → Result E S) where
  record_sent-Sent :
      (b : ℕ) (bs : Bytes) (lib : Library F) (id : ℕ) (s : S) (r : Result E S)
      → send_metric (b ∷ bs) s ≡ r
      → Sent
          (λ p. send_metric p s)
          (some (b ∷ bs))
          lib
          (record_sent send_metric
            (record lib { request_id = id; metrics = record_dogstatsd_request lib.metrics })
            s
            r)
  unfolding record_sent
  record_sent-Sent b bs lib id s (ok s') e = (subst Succeeds (sym e) tt, refl)
  record_sent-Sent b bs lib id s (err f) e = (subst Fails (sym e) tt, refl)

  send_with-Sent :
      (payload : Pointer) (lib : Library F) (s : S)
      → Sent (λ p. send_metric p s) payload lib (send_with send_metric payload lib s)
  unfolding send_with send_payload
  send_with-Sent none lib s = (inl refl, refl)
  send_with-Sent (some []) lib s = (inr refl, refl)
  send_with-Sent (some (b ∷ bs)) lib s =
      record_sent-Sent b bs lib (fetch_add_one lib.request_id) s (send_metric (b ∷ bs) s) refl

module _ {F S : Type 0} (env : Env) where
  pub send_dogstatsd_metric-Sent :
      (socket : Datagram S) (pipe : PipeFile S) (payload : Pointer) (lib : Library F) (s : S)
      → Sent
          (λ p. send_metric_over_uds socket (get_dogstatsd_uds_path env) p s)
          payload
          lib
          (send_dogstatsd_metric env socket payload lib s)
        × Sent
            (λ p. send_metric_over_pipe pipe (get_dogstatsd_pipe_name env) p s)
            payload
            lib
            (send_dogstatsd_metric_over_pipe env pipe payload lib s)
  unfolding send_dogstatsd_metric send_dogstatsd_metric_over_pipe
  send_dogstatsd_metric-Sent socket pipe payload lib s = (
    send_with-Sent (λ p t. send_metric_over_uds socket (get_dogstatsd_uds_path env) p t) payload lib
        s,
    send_with-Sent (λ p t. send_metric_over_pipe pipe (get_dogstatsd_pipe_name env) p t) payload lib
        s,
  )

  Sent-IsBalanced :
      {E : Type 0} (send : Bytes → Result E S) (payload : Pointer) (lib : Library F)
      (r : ℤ × Library F × S)
      → Sent send payload lib r
      → IsBalanced lib.metrics
      → IsBalanced r.1.metrics
  unfolding record_dogstatsd_success record_dogstatsd_error record_dogstatsd_request
  Sent-IsBalanced send payload lib (pos zero, lib', s) (_, e) h = rw e (omega arith)
  Sent-IsBalanced send payload lib (pos (suc n), lib', s) k h = absurd k
  Sent-IsBalanced send payload lib (negsuc zero, lib', s) (_, e) h = rw e h
  Sent-IsBalanced send payload lib (negsuc (suc zero), lib', s) (_, e) h = rw e (omega arith)
  Sent-IsBalanced send payload lib (negsuc (suc (suc n)), lib', s) k h = absurd k

  -- Every send, in either build, keeps the balance of requests, successes and errors, over the wrap-around too.
  pub send_dogstatsd_metric-IsBalanced :
      (socket : Datagram S) (pipe : PipeFile S) (payload : Pointer) (lib : Library F) (s : S)
      → IsBalanced lib.metrics
      → IsBalanced (send_dogstatsd_metric env socket payload lib s).1.metrics
        × IsBalanced (send_dogstatsd_metric_over_pipe env pipe payload lib s).1.metrics
  send_dogstatsd_metric-IsBalanced socket pipe payload lib s h =
      let (over_uds, over_pipe) = send_dogstatsd_metric-Sent socket pipe payload lib s in
      (
        Sent-IsBalanced (λ p. send_metric_over_uds socket (get_dogstatsd_uds_path env) p s) payload
            lib (send_dogstatsd_metric env socket payload lib s) over_uds h,
        Sent-IsBalanced (λ p. send_metric_over_pipe pipe (get_dogstatsd_pipe_name env) p s) payload
            lib (send_dogstatsd_metric_over_pipe env pipe payload lib s) over_pipe h,
      )
