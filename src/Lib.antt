-- ===== src/Lib.antt =====
-- libagent starts the Datadog agent and the trace agent as child processes, keeps them running, and
-- forwards HTTP requests and DogStatsD metrics to them, behind a small C interface.
--
-- The parts, each with the file of the repository that it follows and the modules that model it:
--
-- * src/http.rs, the HTTP/1.1 client code, is Http and its children: Status, Headers, Request and
--   Framing (the parsers and the printer), Transfer (the loops that read), Chunked and Body (the
--   framings). The functions keep their names. `RestThen`, the reader over the bytes that came with
--   the headers, is Io/RestThen.antt; Io.antt states what `std::io::Read` promises.
-- * src/uds.rs is Uds.antt: `build_request` and `request_over_uds`, which calls the functions of Http
--   in the order of the source.
-- * src/metrics.rs is Metrics.antt, with the report in Metrics/Format.antt.
-- * src/config.rs is Config.antt, with the search for the library in Config/Library.antt, src/logging.rs is Logging.antt, src/process.rs is Process.antt. The
--   environment is a function from names to what `std::env::var` gives.
-- * src/monitor.rs is Monitor.antt: a `Slot` is a child with its backoff, `should_attempt_spawn`,
--   `commit_spawn_result` and `tick_process` take it and the metrics and give the new ones. A `World` is
--   what the system answers while one check runs. `monitor_loop`, the thread, is Monitor/Loop.antt: the
--   states are the points where another thread may come in, `advance` is what the thread does from one
--   to the next, and a `Step` is a step of the thread, a `stop`, or a proxy call.
-- * src/shutdown.rs is Shutdown.antt: waiting for a child, and the escalation of signals.
-- * src/manager.rs is Manager.antt: `start`, `stop`, `initialize` on the state behind the locks, with
--   the wait for the trace agent in Manager/Readiness.antt (and its Windows build in its child Pipe). It
--   calls Monitor's ticks and Shutdown's kills. The process that `start` forks outside Linux, which
--   kills the children once their parent is gone, is Manager/Orphans.antt, and `start` with that fork
--   its child Start. The job object of the Windows build, and `stop` with it, is Manager/Job.antt.
-- * manager.rs and monitor.rs together are Manager/Session.antt: a run of `initialize` and `stop`, which
--   `Initialize` and `Stop` of src/ffi.rs call, with steps of the monitor thread between them. Its
--   abstract view is Spec, and the uptime that `GetMetrics` reports after it is Reports.
-- * src/winpipe.rs, the HTTP client of the Windows build, is Winpipe.antt, with the calls of Win32 as a
--   parameter, and its children: Overlapped (one transfer), Open (`open_pipe_handle`), Connection
--   (`write_all` and `read`), Request (`perform_request`, on the functions of Http and Uds) and Pool (the
--   workers and `request_over_named_pipe`).
-- * src/dogstatsd.rs is Dogstatsd.antt, and src/ffi.rs is Ffi.antt: `ProxyTraceAgent` checks its
--   arguments, waits for the trace agent, sends through Uds and counts in Metrics. Its request in the
--   Windows build, through Winpipe, is Ffi/Pipe.antt, and `GetMetrics` is Ffi/Report.antt.
--
-- Base has the shared names and the lemmas on lists and Booleans; Text has byte strings and what the
-- sources use of `str`: case, trimming, splitting, numbers, UTF-8. A text is its list of bytes.
--
-- Parameters: sockets, the clock, child processes, the environment, the file system, `f64` and the
-- Unicode upper case are arguments of the definitions that use them. What a theorem needs of them is
-- among its hypotheses: a read keeps to its buffer, a clock does not go back, a sleep lasts. Three go
-- further than the documentation, and the theorems say where: that no read is interrupted, that every
-- reading of the pipe client's clock is later than the one before, and that it stays below a deadline.
-- Where the head of a response cannot be read, `request_over_uds` reads the stream to its end for a log
-- message; whether that call ends is a part of the socket, and where it does not the model runs out.
--
-- Rounds: a loop that reads or waits takes a number of rounds, and the theorems show that it is
-- enough. Reading goes on only when bytes came, so a cap on the bytes caps the rounds; waiting sleeps
-- in each round, so the timeout divided by the interval, and two more, are enough. The loop that opens
-- a pipe reads the clock in each round, so the nanoseconds of the timeout, and two more, are enough.
-- Where the rounds run out, a model gives `out_of_fuel`, `out_of_rounds` or `none`, which the theorems
-- exclude.
--
-- Numbers are natural numbers: a `u64` counter wraps at 2 ^ 64, and a number that is read from a text
-- is refused where it does not fit. Instants and durations count nanoseconds.
--
-- Left out: the log calls of the other parts, the rest of the Windows build (the flags of the process
-- creation, the probe `is_pipe_in_use`), the closing of a pipe's handle at the end of a request, poisoned
-- locks, and panics but for the arms of `catch_unwind` in `ProxyTraceAgent` and `GetMetrics`.
pub mod Base
pub mod Text
pub mod Io
pub mod Http
pub mod Metrics
pub mod Config
pub mod Logging
pub mod Process
pub mod Monitor
pub mod Shutdown
pub mod Manager
pub mod Uds
pub mod Winpipe
pub mod Dogstatsd
pub mod Ffi
mod Tests
