-- ===== src/Winpipe/Request.antt =====
-- `perform_request`: one exchange over the pipe. From the response on it is the code of uds.rs.
pub mod Ends
pub mod Responses
use libagent.Base.{ℕ, ◌+◌, Option, none, some, List, [], ◌∷◌, ◌++◌, ok, err, ◌>>=◌}
use libagent.Text.{Bytes, codes}
use libagent.Http.{Header, Response}
use libagent.Http.Request
use libagent.Http.Request.{add_default_headers}
use libagent.Uds.{map_err, read_response}
use libagent.Winpipe.{Win32, Outcome, PipeResult, http_error, context, out_of_rounds}
use libagent.Winpipe.Open.{open_pipe_handle}
use libagent.Winpipe.Connection.{PipeConnection, write_all, read}

unfoldable pub build_request : Bytes → Bytes → List Header → Bytes → Bytes
build_request method path headers body =
    Request.build_request method path (add_default_headers headers body (codes "pipe")) body

unfoldable pub map_io_err : {S A : Type 0} → Bytes → Option (Outcome S A) → PipeResult (A × S)
map_io_err what none = err out_of_rounds
map_io_err what (some (ok a, s)) = ok (a, s)
map_io_err what (some (err e, s)) = err (context what e)

module _ {S : Type 0} (w : Win32 S) where
  unfoldable pub to_wide : Bytes → List ℕ
  to_wide input = w.encode_wide input ++ 0 ∷ []

  -- The exchange on an open connection.
  unfoldable pub exchange : PipeConnection → Bytes → S → PipeResult Response
  exchange connection req s = do
    (_, s') ← map_io_err (codes "request write failed") (write_all w connection req s)
    map_err http_error (read_response (read w connection) s')

  -- The rounds for `open_pipe_handle` come first.
  unfoldable pub perform_request :
      ℕ → Bytes → Bytes → Bytes → List Header → Bytes → ℕ → S → PipeResult Response
  perform_request fuel full_path method path headers body timeout s =
      let (t, s₀) = w.now s in
      map_io_err (codes "failed to open pipe " ++ full_path)
        (open_pipe_handle w fuel (to_wide full_path) (t + timeout) s₀)
      >>= λ (p : ℕ × S).
          exchange (record { handle = p.0; deadline = t + timeout })
            (build_request method path headers body) p.1
