-- ===== src/Ffi.antt =====
-- ffi.rs: the C surface. A C string is its bytes before the NUL, or none for a null pointer; a body or
-- a payload is its bytes, or none. The callbacks that are called are events. What a
-- panic of `ProxyTraceAgent` leaves is an argument; the other arms of `catch_unwind` are left out.
pub mod Laws
pub mod Report
pub mod Pipe
use libagent.Base.{
  ℕ, Bool, true, false, Option, none, some, List, [], ◌∷◌, ◌++◌, if◌then◌else◌, Result, ok, err,
  ◌>>=◌,
}
use libagent.Text.{Bytes, codes, starts_with}
use libagent.Text.Utf8.{is_utf8}
use libagent.Config.{Env, get_trace_agent_uds_path, get_dogstatsd_uds_path, get_dogstatsd_pipe_name}
use libagent.Http.{Header, Response, HttpError, Attempt, out_of_fuel}
use libagent.Http.Headers.{parse_header_lines, serialize_headers}
use libagent.Metrics.{
  Floats, Metrics, fetch_add_one, record_proxy_request, record_proxy_response,
  record_dogstatsd_request, record_dogstatsd_success, record_dogstatsd_error,
}
use libagent.Manager.{AgentManager, Host, Global, manager_cell}
use libagent.Manager.Readiness.{Probe, ensure_trace_agent_ready}
use libagent.Uds.{Socket, request_over_uds}
use libagent.Dogstatsd.{Datagram, send_metric_over_uds, PipeFile, send_metric_over_pipe}

-- `pos n` is `n`, and `negsuc n` is `-1 - n`.
pub data ℤ : Type 0 where
  pos : ℕ → ℤ
  negsuc : ℕ → ℤ

-- The errors that a proxy call can give, with what is formatted into them.
pub data ProxyError : Type 0 where
  null_argument invalid_utf8 : Bytes → ProxyError
  not_ready panicked : ProxyError
  http_error : HttpError → ProxyError

-- A pointer to a C string, or to bytes.
abbrev pub Pointer : Type 0
Pointer = Option Bytes

unfoldable pub cstr_arg : Pointer → Bytes → Result ProxyError Bytes
cstr_arg none name = err (null_argument name)
cstr_arg (some s) name = if is_utf8 s then ok s else err (invalid_utf8 name)

abbrev pub slash : Bytes
slash = codes "/"

-- The path as it is sent.
unfoldable pub with_slash : Bytes → Bytes
with_slash path = if starts_with path slash then path else slash ++ path

-- A null body is an empty one.
abbrev pub body_arg : Pointer → Bytes
body_arg none = []
body_arg (some body) = body

-- The arguments of `ProxyTraceAgent`, and which callbacks are not null.
pub record ProxyArgs : Type 0 where
  pub method : Pointer
  pub path : Pointer
  pub headers : Pointer
  pub body : Pointer
  pub on_response : Bool
  pub on_error : Bool

-- `ValidatedProxyArgs`.
pub record ValidArgs : Type 0 where
  pub method : Bytes
  pub path : Bytes
  pub headers : List Header
  pub body : Bytes

unfoldable pub validate_proxy_args : ProxyArgs → Result ProxyError ValidArgs
unfolding cstr_arg with_slash
validate_proxy_args args = do
  method ← cstr_arg args.method (codes "method")
  path ← cstr_arg args.path (codes "path")
  headers ← cstr_arg args.headers (codes "headers")
  ok (record {
    method = method;
    path = with_slash path;
    headers = parse_header_lines headers;
    body = body_arg args.body;
  })

-- A call of a callback.
pub data Event : Type 0 where
  responded : ℕ → Bytes → Bytes → Event
  failed : ProxyError → Event

-- The state of the library: the counter of request ids, the manager's cell and the metrics.
pub record Library (F : Type 0) : Type 0 where
  pub request_id : ℕ
  pub manager : Global
  pub metrics : Metrics F

-- What a proxy call meets: the configuration, whether the build is a debug one, the system's calls,
-- the socket as the request finds it, and the time that the request takes, in milliseconds.
pub record Site (F S T : Type 0) : Type 0 where
  pub host : Host
  pub debug : Bool
  pub floats : Floats F
  pub to_uppercase : Bytes → Bytes
  pub probe : Probe S
  pub socket : S → Socket T
  pub response_ms : S → F

unfoldable pub map_http_error : Attempt Response → Result ProxyError Response
map_http_error (ok resp) = ok resp
map_http_error (err e) = err (http_error e)

-- What the request leaves, the manager and the system; `none` if the wait ran out of rounds, or the
-- exchange does not come back.
abbrev pub Performed : Type 0 → Type 0
Performed S = Option (Result ProxyError Response × AgentManager × S)

-- The code that is returned, the callbacks, the library and the system.
abbrev pub Proxied : Type 0 → Type 0 → Type 0
Proxied F S = Option (ℤ × List Event × Library F × S)

-- Behind the exchange.
abbrev pub came_back : {S : Type 0} → Attempt Response → AgentManager → S → Performed S
came_back (ok resp) mgr s = some (ok resp, mgr, s)
came_back (err out_of_fuel) mgr s = none
came_back (err e) mgr s = some (map_http_error (err e), mgr, s)

-- The event of a callback that may be null.
abbrev pub event_if : Bool → Event → List Event
event_if given e = if given then e ∷ [] else []

module _ {F S T : Type 0} (site : Site F S T) where
  -- Once the check of the trace agent has ended.
  abbrev pub after_ready : ValidArgs → Option (Bool × AgentManager × S) → Performed S
  after_ready args none = none
  after_ready args (some (false, mgr, s)) = some (err not_ready, mgr, s)
  after_ready args (some (true, mgr, s)) =
      came_back
        (request_over_uds (site.socket s) (get_trace_agent_uds_path site.host.env) args.method
          args.path args.headers args.body)
        mgr s

  unfoldable pub perform_proxy_request : ValidArgs → AgentManager → S → Performed S
  perform_proxy_request args mgr s = after_ready args (
      ensure_trace_agent_ready site.probe (get_trace_agent_uds_path site.host.env) site.debug mgr s)

  -- The end of the call, on the outcome of the request.
  unfoldable pub deliver : ProxyArgs → Library F → Performed S → Proxied F S
  deliver args lib none = none
  deliver args lib (some (err e, mgr, s)) =
      some (negsuc 1, event_if args.on_error (failed e), record lib { manager = some mgr }, s)
  deliver args lib (some (ok resp, mgr, s)) = some (
    pos 0,
    event_if args.on_response (responded resp.status (serialize_headers resp.headers) resp.body),
    record lib {
      manager = some mgr;
      metrics = record_proxy_response site.floats lib.metrics resp.status (site.response_ms s);
    },
    s,
  )

  unfoldable pub proceed : ProxyArgs → Library F → S → Result ProxyError ValidArgs → Proxied F S
  proceed args lib s (err e) = some (negsuc 0, event_if args.on_error (failed e), lib, s)
  proceed args lib s (ok valid) =
      let lib' = record lib {
        metrics = record_proxy_request site.to_uppercase valid.method lib.metrics;
      } in
      deliver args lib' (perform_proxy_request valid (manager_cell site.host lib.manager) s)

  -- `catch_unwind` with its arm: after a panic the error callback is called, behind what was called by
  -- then, and the code is -100.
  abbrev pub caught : Bool → Option (List Event × Library F × S) → Proxied F S → Proxied F S
  caught on_error none returned = returned
  caught on_error (some (events, lib, s)) returned =
      some (negsuc 99, events ++ event_if on_error (failed panicked), lib, s)

  -- `ProxyTraceAgent`. The first argument is what a panic leaves, if there is one.
  unfoldable pub proxy_trace_agent :
      Option (List Event × Library F × S) → ProxyArgs → Library F → S → Proxied F S
  proxy_trace_agent unwound args lib s = caught args.on_error unwound (
      proceed args (record lib { request_id = fetch_add_one lib.request_id }) s
        (validate_proxy_args args))

-- `SendDogStatsDMetric`, over the transport of the build.
module _ {F S E : Type 0} (send_metric : Bytes → S → Result E S) where
  unfoldable pub record_sent : Library F → S → Result E S → ℤ × Library F × S
  record_sent lib s (ok s') =
      (pos 0, record lib { metrics = record_dogstatsd_success lib.metrics }, s')
  record_sent lib s (err e) =
      (negsuc 1, record lib { metrics = record_dogstatsd_error lib.metrics }, s)

  -- The payload once it is there.
  unfoldable pub send_payload : Bytes → Library F → S → ℤ × Library F × S
  send_payload payload lib s =
      record_sent (record lib { metrics = record_dogstatsd_request lib.metrics }) s
        (send_metric payload s)

  unfoldable pub send_with : Pointer → Library F → S → ℤ × Library F × S
  send_with none lib s = (negsuc 0, record lib { request_id = fetch_add_one lib.request_id }, s)
  send_with (some []) lib s =
      (negsuc 0, record lib { request_id = fetch_add_one lib.request_id }, s)
  send_with (some (b ∷ bs)) lib s =
      send_payload (b ∷ bs) (record lib { request_id = fetch_add_one lib.request_id }) s

module _ {F S : Type 0} (env : Env) where
  -- In the Unix build.
  unfoldable pub send_dogstatsd_metric : Datagram S → Pointer → Library F → S → ℤ × Library F × S
  send_dogstatsd_metric socket =
      send_with (λ payload s. send_metric_over_uds socket (get_dogstatsd_uds_path env) payload s)

  -- In the Windows build.
  unfoldable pub send_dogstatsd_metric_over_pipe :
      PipeFile S → Pointer → Library F → S → ℤ × Library F × S
  send_dogstatsd_metric_over_pipe pipe =
      send_with (λ payload s. send_metric_over_pipe pipe (get_dogstatsd_pipe_name env) payload s)
