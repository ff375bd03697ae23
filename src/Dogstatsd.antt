-- ===== src/Dogstatsd.antt =====
-- dogstatsd.rs: one datagram in the Unix build, one write to a pipe in the Windows build. The calls of
-- the socket and of the pipe are parameters.
use libagent.Base.{Result, ok, err, ◌++◌, if◌then◌else◌}
use libagent.Text.{Bytes, starts_with, pipe_prefix}

-- The two formatted errors.
pub data SendError : Type 0 where
  no_socket : Bytes → SendError
  send_to_error : Bytes → Bytes → SendError

-- `UnixDatagram::unbound` and `send_to`; an error is the text of the `io::Error`.
pub record Datagram (S : Type 0) : Type 0 where
  pub unbound : S → Result Bytes S
  pub send_to : Bytes → Bytes → S → Result Bytes S

unfoldable pub send_metric_over_uds :
    {S : Type 0} → Datagram S → Bytes → Bytes → S → Result SendError S
send_metric_over_uds socket uds_path payload s = elim (socket.unbound s) [
  | err e ↦ err (no_socket e)
  | ok s' ↦ elim (socket.send_to payload uds_path s') [
    | err e ↦ err (send_to_error uds_path e)
    | ok s'' ↦ ok s''
  ]
]

-- The two formatted errors of a pipe.
pub data PipeSendError : Type 0 where
  no_pipe : Bytes → Bytes → PipeSendError
  pipe_write_error : Bytes → PipeSendError

-- `OpenOptions::open` for writing, and `write_all`; an error is the text of the `io::Error`.
pub record PipeFile (S : Type 0) : Type 0 where
  pub open_to_write : Bytes → S → Result Bytes S
  pub write_all : Bytes → S → Result Bytes S

unfoldable pub pipe_path_of : Bytes → Bytes
pipe_path_of pipe_name =
    if starts_with pipe_name pipe_prefix then pipe_name else pipe_prefix ++ pipe_name

unfoldable pub send_metric_over_pipe :
    {S : Type 0} → PipeFile S → Bytes → Bytes → S → Result PipeSendError S
send_metric_over_pipe pipe pipe_name payload s =
    elim (pipe.open_to_write (pipe_path_of pipe_name) s) [
      | err e ↦ err (no_pipe (pipe_path_of pipe_name) e)
      | ok s' ↦ elim (pipe.write_all payload s') [
        | err e ↦ err (pipe_write_error e)
        | ok s'' ↦ ok s''
      ]
    ]
