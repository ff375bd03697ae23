-- ===== src/Winpipe.antt =====
-- winpipe.rs, the Windows build: the HTTP client over a named pipe. The operating system is a
-- parameter: a state with the calls of the Win32 interface that the code makes. Times and durations
-- are in nanoseconds. The log calls and the identifier of a request are left out.
pub mod Overlapped
pub mod Open
pub mod Connection
pub mod Request
pub mod Pool
use libagent.Base.{ℕ, ◌-◌, ◌/◌, Bool, Option, List, leb, ◌==◌, if◌then◌else◌, Result, ok, err}
use libagent.Text.{Bytes}
use libagent.Text.Number.{u32_max}
use libagent.Io.{Fault, broken}
use libagent.Http.{HttpError}

-- What `GetLastError` gives, by the names that the code compares it with.
pub data OsError : Type 0 where
  broken_pipe file_not_found io_pending pipe_busy sem_timeout : OsError
  other_error : ℕ → OsError

-- What `WaitForSingleObject` gives.
pub data Waited : Type 0 where
  object_0 timed_out failed abandoned : Waited
  other_result : ℕ → Waited

-- The calls. A handle is a number; `none` stands for a handle that is invalid or null, and for a
-- transfer that returned 0. A transfer that succeeds gives its number of bytes, and `buffer n` is
-- what the caller's buffer of `n` bytes holds then. `os_error` is `io::Error::from_raw_os_error`.
pub record Win32 (S : Type 0) : Type 0 where
  pub now : S → ℕ × S
  pub sleep : ℕ → S → S
  pub get_last_error : S → OsError
  pub os_error : OsError → Fault
  pub encode_wide : Bytes → List ℕ
  pub create_file : List ℕ → S → Option ℕ × S
  pub set_read_mode : ℕ → S → Bool × S
  pub close_handle : ℕ → S → S
  pub wait_named_pipe : List ℕ → ℕ → S → Bool × S
  pub create_event : S → Option ℕ × S
  pub write_file : ℕ → Bytes → ℕ → S → Option ℕ × S
  pub read_file : ℕ → ℕ → ℕ → S → Option ℕ × S
  pub buffer : ℕ → S → Bytes
  pub wait_for_single_object : ℕ → ℕ → S → Waited × S
  pub get_overlapped_result : ℕ → ℕ → S → Option ℕ × S
  pub cancel_io : ℕ → ℕ → S → S

-- The errors of a request: those of http.rs, an `io::Error` behind a context, and the pool's.
-- `out_of_rounds` is the model's own: a loop that was given too few rounds.
pub data PipeError : Type 0 where
  http_error : HttpError → PipeError
  context : Bytes → Fault → PipeError
  request_timed_out : ℕ → PipeError
  worker_disconnected pool_shut_down pool_not_initialized channel_closed : PipeError
  out_of_rounds : PipeError

-- What a call on the system gives: an outcome, and the system after it.
abbrev pub Outcome : Type 0 → Type 0 → Type 0
Outcome S A = Result Fault A × S

abbrev pub millisecond : ℕ
millisecond = 1000000

unfoldable pub duration_to_millis : ℕ → ℕ
duration_to_millis duration =
    let millis = duration / millisecond in
    if millis == 0 then 1 else if leb u32_max millis then u32_max - 1 else millis

-- The time left until the deadline, or the error with this text.
unfoldable pub time_left : {S : Type 0} → Bytes → ℕ → ℕ × S → Outcome S ℕ
time_left why deadline (t, s) =
    if leb t deadline then (ok (deadline - t), s) else (err (broken why), s)

abbrev pub PipeResult : Type 0 → Type 0
PipeResult A = Result PipeError A
