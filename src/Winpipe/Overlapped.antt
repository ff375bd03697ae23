-- ===== src/Winpipe/Overlapped.antt =====
-- One transfer over the pipe: `write_some`, `read_some` and `wait_overlapped`. The OVERLAPPED
-- structure stands for its event.
pub mod Writes
use libagent.Base.{
  ℕ, min, Bool, true, false, ◌&&◌, Option, none, some, ◌++◌, if◌then◌else◌, length, take, ok, err,
}
use libagent.Text.{Bytes, codes}
use libagent.Text.Number.{u32_max, to_string}
use libagent.Io.{broken}
use libagent.Winpipe.{
  OsError, broken_pipe, io_pending, file_not_found, pipe_busy, sem_timeout, other_error, Waited,
  object_0, timed_out, failed, abandoned, other_result, Win32, Outcome, duration_to_millis,
}

unfoldable pub is_broken_pipe : OsError → Bool
is_broken_pipe broken_pipe = true
is_broken_pipe file_not_found = false
is_broken_pipe io_pending = false
is_broken_pipe pipe_busy = false
is_broken_pipe sem_timeout = false
is_broken_pipe (other_error code) = false

unfoldable pub is_io_pending : OsError → Bool
is_io_pending io_pending = true
is_io_pending broken_pipe = false
is_io_pending file_not_found = false
is_io_pending pipe_busy = false
is_io_pending sem_timeout = false
is_io_pending (other_error code) = false

-- `len().min(u32::MAX)`.
abbrev pub transfer_size : ℕ → ℕ
transfer_size n = min n u32_max

module _ {S : Type 0} (w : Win32 S) where
  -- The `io::Error` of the last error.
  unfoldable pub last_os_error : {A : Type 0} → S → Outcome S A
  last_os_error s = (err (w.os_error (w.get_last_error s)), s)

  -- The result of a transfer whose event was signalled.
  unfoldable pub on_result : Bool → Option ℕ × S → Outcome S ℕ
  on_result eof_ok (some transferred, s) = (ok transferred, s)
  on_result eof_ok (none, s) =
      if eof_ok && is_broken_pipe (w.get_last_error s) then (ok 0, s) else last_os_error s

  unfoldable pub on_wait : ℕ → ℕ → Bool → Waited × S → Outcome S ℕ
  on_wait handle event eof_ok (object_0, s) =
      on_result eof_ok (w.get_overlapped_result handle event s)
  on_wait handle event eof_ok (timed_out, s) =
      (err (broken (codes "operation timed out")), w.cancel_io handle event s)
  on_wait handle event eof_ok (failed, s) = last_os_error s
  on_wait handle event eof_ok (abandoned, s) = (err (broken (codes "wait abandoned")), s)
  on_wait handle event eof_ok (other_result n, s) =
      (err (broken (codes "unexpected wait result: " ++ to_string n)), s)

  unfoldable pub wait_overlapped : ℕ → ℕ → ℕ → Bool → S → Outcome S ℕ
  wait_overlapped handle event timeout eof_ok s =
      on_wait handle event eof_ok (w.wait_for_single_object event (duration_to_millis timeout) s)

  -- A pending transfer that succeeds has its event closed; one that fails has not.
  unfoldable pub close_after : ℕ → Outcome S ℕ → Outcome S ℕ
  close_after event (ok transferred, s) = (ok transferred, w.close_handle event s)
  close_after event (err e, s) = (err e, s)

  unfoldable pub on_write : ℕ → ℕ → ℕ → Option ℕ × S → Outcome S ℕ
  on_write handle event timeout (some written, s) = (ok written, w.close_handle event s)
  on_write handle event timeout (none, s) =
      if is_io_pending (w.get_last_error s)
      then close_after event (wait_overlapped handle event timeout false s)
      else (err (w.os_error (w.get_last_error s)), w.close_handle event s)

  unfoldable pub write_with : ℕ → Bytes → ℕ → Option ℕ × S → Outcome S ℕ
  write_with handle bytes timeout (none, s) = last_os_error s
  write_with handle bytes timeout (some event, s) =
      on_write handle event timeout
        (w.write_file handle (take (transfer_size (length bytes)) bytes) event s)

  unfoldable pub write_some : ℕ → Bytes → ℕ → S → Outcome S ℕ
  write_some handle bytes timeout s = write_with handle bytes timeout (w.create_event s)

  unfoldable pub on_read : ℕ → ℕ → ℕ → Option ℕ × S → Outcome S ℕ
  on_read handle event timeout (some transferred, s) = (ok transferred, w.close_handle event s)
  on_read handle event timeout (none, s) =
      let e = w.get_last_error s in
      if is_broken_pipe e
      then (ok 0, w.close_handle event s)
      else if is_io_pending e
      then close_after event (wait_overlapped handle event timeout true s)
      else (err (w.os_error e), w.close_handle event s)

  unfoldable pub read_with : ℕ → ℕ → ℕ → Option ℕ × S → Outcome S ℕ
  read_with handle n timeout (none, s) = last_os_error s
  read_with handle n timeout (some event, s) =
      on_read handle event timeout (w.read_file handle (transfer_size n) event s)

  -- The number of bytes that were read into the buffer.
  unfoldable pub read_some : ℕ → ℕ → ℕ → S → Outcome S ℕ
  read_some handle n timeout s = read_with handle n timeout (w.create_event s)
