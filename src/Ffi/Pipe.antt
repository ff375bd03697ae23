-- ===== src/Ffi/Pipe.antt =====
-- ffi.rs, the Windows build: the request of `ProxyTraceAgent` goes over a named pipe. The answers of
-- the pool's workers are a parameter.
use libagent.Base.{
  ℕ, ◌≡◌, ◌≢◌, ◌⊎◌, ◌++◌, Bool, true, false, Option, none, some, if◌then◌else◌, Result, ok, err,
}
use libagent.Text.{Bytes, pipe_prefix}
use libagent.Config.{Env, get_trace_agent_pipe_name}
use libagent.Http.{Response}
use libagent.Monitor.{from_secs}
use libagent.Manager.{AgentManager}
use libagent.Manager.Readiness.{Probe}
use libagent.Manager.Readiness.Pipe.{is_blank, ensure_pipe_ready}
use libagent.Winpipe.{PipeError, PipeResult}
use libagent.Winpipe.Pool.{
  WorkItem, PoolCell, Received, on_received, full_path_of, request_over_named_pipe,
}
use libagent.Winpipe.Pool.Spread.{IsServing}
use libagent.Ffi.{ValidArgs}

-- The errors of a request, with what is formatted into them.
pub data PipeProxyError : Type 0 where
  pipe_not_ready pipe_not_set : PipeProxyError
  pipe_error : PipeError → PipeProxyError

-- The timeout of a request.
abbrev pub request_timeout : ℕ
request_timeout = from_secs 50

unfoldable pub map_pipe_error : PipeResult Response → Result PipeProxyError Response
map_pipe_error (ok resp) = ok resp
map_pipe_error (err e) = err (pipe_error e)

-- What the request leaves: the pool, the manager and the system.
abbrev pub PipePerformed : Type 0 → Type 0
PipePerformed S = Option (Result PipeProxyError Response × PoolCell × AgentManager × S)

-- The item that the request to the pipe hands to the pool.
abbrev pub item_of : Bytes → ValidArgs → WorkItem
item_of name args = record {
  pipe_name = full_path_of name;
  method = args.method;
  path = args.path;
  headers = args.headers;
  body = args.body;
  timeout = request_timeout;
}

module _ {S : Type 0} (recv : WorkItem → Received) (probe : Probe S) (env : Env) where
  -- Once the check of the trace agent has succeeded.
  unfoldable pub request_by_name :
      Bytes → ValidArgs → PoolCell → Result PipeProxyError Response × PoolCell
  request_by_name name args cell =
      let (r, cell') =
        request_over_named_pipe recv name args.method args.path args.headers args.body
          request_timeout cell in
      if is_blank name then (err pipe_not_set, cell) else (map_pipe_error r, cell')

  unfoldable pub after_pipe_ready :
      ValidArgs → PoolCell → Option (Bool × AgentManager × S) → PipePerformed S
  after_pipe_ready args cell none = none
  after_pipe_ready args cell (some (false, mgr, s)) = some (err pipe_not_ready, cell, mgr, s)
  after_pipe_ready args cell (some (true, mgr, s)) =
      let (r, cell') = request_by_name (get_trace_agent_pipe_name env) args cell in
      some (r, cell', mgr, s)

  unfoldable pub perform_pipe_request :
      Bool → ValidArgs → PoolCell → AgentManager → S → PipePerformed S
  perform_pipe_request debug args cell mgr s =
      after_pipe_ready args cell (ensure_pipe_ready probe env debug mgr s)

-- The path of the pipe with a name: a name that begins with the prefix of pipes is a path already, and
-- any other name has the prefix put in front.
abbrev pub IsFullPath : Bytes → Bytes → Type 0
IsFullPath name full =
    (((rest : Bytes) × (name ≡ pipe_prefix ++ rest)) × (full ≡ name))
    ⊎ (((rest : Bytes) → name ≢ pipe_prefix ++ rest) × (full ≡ pipe_prefix ++ name))

-- The item for a worker, with the path of the pipe.
abbrev pub item_at : Bytes → ValidArgs → WorkItem
item_at full args = record {
  pipe_name = full;
  method = args.method;
  path = args.path;
  headers = args.headers;
  body = args.body;
  timeout = request_timeout;
}

-- What the workers' answer to a request for a pipe is.
abbrev pub Answers : (WorkItem → Received) → Bytes → ValidArgs → PipeResult Response → Type 0
Answers recv name args r =
    (full : Bytes) × IsFullPath name full
    × (on_received request_timeout (recv (item_at full args)) ≡ r)

-- What a request may come to. Only one for a pipe with a name gets to the pool, and then its result is
-- that of its worker; the pool serves on.
abbrev pub Answered :
    {S : Type 0} → (WorkItem → Received) → Bytes → ValidArgs → PoolCell → PipePerformed S → Type 0
Answered recv name args cell none = ⊥
Answered recv name args cell (some (ok resp, cell', mgr, s)) =
    (is_blank name ≡ false) × Answers recv name args (ok resp) × IsServing cell'
Answered recv name args cell (some (err pipe_not_ready, cell', mgr, s)) = cell' ≡ cell
Answered recv name args cell (some (err pipe_not_set, cell', mgr, s)) =
    (is_blank name ≡ true) × (cell' ≡ cell)
Answered recv name args cell (some (err (pipe_error e), cell', mgr, s)) =
    (is_blank name ≡ false) × Answers recv name args (err e) × IsServing cell'
