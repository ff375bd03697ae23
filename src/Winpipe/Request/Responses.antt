-- ===== src/Winpipe/Request/Responses.antt =====
-- `perform_request` from end to end, over a pipe that delivers a well-formed response: the response is
-- the same however the pipe cuts the bytes into pieces.
use libagent.Base.{ℕ, ◌+◌, ◌≡◌, some, ok}
use libagent.Text.{Bytes}
use libagent.Http.Chunked.Wire.{Wire}
use libagent.Winpipe.{Win32}
use libagent.Winpipe.Open.{open_pipe_handle}
use libagent.Winpipe.Connection.{PipeConnection, write_all}
use libagent.Winpipe.Connection.Delivers.{IsFeed}
use libagent.Winpipe.Request.{to_wide}

-- The connection of a request.
abbrev pub connection_of : ℕ → ℕ → PipeConnection
connection_of handle deadline = record { handle = handle; deadline = deadline }

-- What happens when all goes well: the pipe is opened, the request is written, and what is to come
-- from the server in time is `whole`.
pub record Serves {S : Type 0} (w : Win32 S) (Live : S → Type 0) (content : S → Bytes) (fuel : ℕ)
    (full_path request whole : Bytes) (timeout : ℕ) (s : S) : Type 0 where
  pub handle : ℕ
  pub opened : S
  pub written : S
  pub opens :
      open_pipe_handle w fuel (to_wide w full_path) ((w.now s).0 + timeout) (w.now s).1
      ≡ some (ok handle, opened)
  pub writes :
      write_all w (connection_of handle ((w.now s).0 + timeout)) request opened
      ≡ some (ok tt, written)
  pub feed : IsFeed w (connection_of handle ((w.now s).0 + timeout)) Live content
  pub live : Live written
  pub input : content written ≡ whole
