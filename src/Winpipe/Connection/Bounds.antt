-- ===== src/Winpipe/Connection/Bounds.antt =====
-- `PipeStream` as a reader: its buffer and its errors.
use libagent.Base.{
  ℕ, zero, suc, ◌≤◌, refl, ◌≢◌, Bool, true, false, ◌&&◌, Option, none, some, arith, leb,
  if◌then◌else◌, length, length-take, ok, err,
}
use libagent.Io.{
  Fault, interrupted, broken, fault, Fits, Uninterrupted, IsBounded, NeverInterrupted,
}
use libagent.Winpipe.{
  Waited, object_0, timed_out, failed, abandoned, other_result, Win32, OsError, Outcome, time_left,
}
use libagent.Winpipe.Overlapped.{
  is_broken_pipe, is_io_pending, last_os_error, on_result, on_wait, wait_overlapped, close_after,
  on_read, read_with, read_some,
}
use libagent.Winpipe.Connection.{PipeConnection, remaining, on_read_some, read_until_deadline, read}

-- The documented behaviour of the calls that a read makes: a buffer has its length, and no error of a
-- pipe is of the kind `Interrupted`.
pub record IsReader {S : Type 0} (w : Win32 S) : Type 0 where
  pub buffer_fits : (n : ℕ) (s : S) → length (w.buffer n s) ≤ n
  pub never_interrupted : (e : OsError) → w.os_error e ≢ interrupted

-- No outcome is an interruption.
abbrev Quiet : {S A : Type 0} → Outcome S A → Type 0
Quiet (ok a, s) = Unit
Quiet (err e, s) = e ≢ interrupted

module _ {S : Type 0} (w : Win32 S) (reader : IsReader w) (connection : PipeConnection) where
  if-Quiet :
      {A : Type 0} (b : Bool) (x y : Outcome S A) → Quiet x → Quiet y → Quiet (if b then x else y)
  if-Quiet true x y h k = h
  if-Quiet false x y h k = k

  last_os_error-Quiet : (s : S) → Quiet {A = ℕ} (last_os_error w s)
  unfolding last_os_error
  last_os_error-Quiet s = reader.never_interrupted (w.get_last_error s)

  on_result-Quiet : (eof_ok : Bool) (r : Option ℕ × S) → Quiet (on_result w eof_ok r)
  unfolding on_result
  on_result-Quiet eof_ok (some n, s) = tt
  on_result-Quiet eof_ok (none, s) =
      if-Quiet (eof_ok && is_broken_pipe (w.get_last_error s)) _ _ tt (last_os_error-Quiet s)

  on_wait-Quiet :
      (handle event : ℕ) (eof_ok : Bool) (r : Waited × S) → Quiet (on_wait w handle event eof_ok r)
  unfolding on_wait
  on_wait-Quiet handle event eof_ok (object_0, s) =
      on_result-Quiet eof_ok (w.get_overlapped_result handle event s)
  on_wait-Quiet handle event eof_ok (timed_out, s) = λ e. cc
  on_wait-Quiet handle event eof_ok (failed, s) = last_os_error-Quiet s
  on_wait-Quiet handle event eof_ok (abandoned, s) = λ e. cc
  on_wait-Quiet handle event eof_ok (other_result n, s) = λ e. cc

  close_after-Quiet : (event : ℕ) (r : Outcome S ℕ) → Quiet r → Quiet (close_after w event r)
  unfolding close_after
  close_after-Quiet event (ok n, s) h = tt
  close_after-Quiet event (err e, s) h = h

  on_read-Quiet :
      (handle event timeout : ℕ) (r : Option ℕ × S) → Quiet (on_read w handle event timeout r)
  unfolding on_read wait_overlapped
  on_read-Quiet handle event timeout (some n, s) = tt
  on_read-Quiet handle event timeout (none, s) =
      if-Quiet (is_broken_pipe (w.get_last_error s)) _ _ tt (
        if-Quiet (is_io_pending (w.get_last_error s)) _ _
          (close_after-Quiet event _ (on_wait-Quiet handle event true _))
          (reader.never_interrupted (w.get_last_error s)))

  read_with-Quiet :
      (handle n timeout : ℕ) (r : Option ℕ × S) → Quiet (read_with w handle n timeout r)
  unfolding read_with
  read_with-Quiet handle n timeout (none, s) = last_os_error-Quiet s
  read_with-Quiet handle n timeout (some event, s) = on_read-Quiet handle event timeout _

  -- The outcome of `read_some` as that of a read.
  on_read_some-Fits : (n : ℕ) (r : Outcome S ℕ) → Fits n (on_read_some w connection n r)
  unfolding on_read_some
  on_read_some-Fits n (ok t, s) =
      omega (arith, length-take t (w.buffer n s), reader.buffer_fits n s)
  on_read_some-Fits n (err e, s) = tt

  fault-Uninterrupted : (e : Fault) (s : S) → e ≢ interrupted → Uninterrupted (fault e s)
  fault-Uninterrupted interrupted s h = h refl
  fault-Uninterrupted (broken why) s h = tt

  on_read_some-Uninterrupted :
      (n : ℕ) (r : Outcome S ℕ) → Quiet r → Uninterrupted (on_read_some w connection n r)
  unfolding on_read_some
  on_read_some-Uninterrupted n (ok t, s) h = tt
  on_read_some-Uninterrupted n (err e, s) h = fault-Uninterrupted e s h

  read_until_deadline-Fits :
      (n : ℕ) (r : Outcome S ℕ) → Fits n (read_until_deadline w connection n r)
  unfolding read_until_deadline
  read_until_deadline-Fits n (ok timeout, s) = on_read_some-Fits n _
  read_until_deadline-Fits n (err e, s) = tt

  read_until_deadline-Uninterrupted :
      (n : ℕ) (r : Outcome S ℕ) → Quiet r → Uninterrupted (read_until_deadline w connection n r)
  unfolding read_until_deadline read_some
  read_until_deadline-Uninterrupted n (ok timeout, s) h =
      on_read_some-Uninterrupted n _ (read_with-Quiet connection.handle n timeout _)
  read_until_deadline-Uninterrupted n (err e, s) h = fault-Uninterrupted e s h

  remaining-Quiet : (s : S) → Quiet (remaining w connection s)
  unfolding remaining time_left
  remaining-Quiet s = if-Quiet (leb (w.now s).0 connection.deadline) _ _ tt (λ e. cc)

  pub read-IsBounded : IsBounded (read w connection)
  unfolding read
  read-IsBounded zero s = omega arith
  read-IsBounded (suc n) s = read_until_deadline-Fits (suc n) (remaining w connection s)

  pub read-NeverInterrupted : NeverInterrupted (read w connection)
  unfolding read
  read-NeverInterrupted zero s = tt
  read-NeverInterrupted (suc n) s =
      read_until_deadline-Uninterrupted (suc n) (remaining w connection s) (remaining-Quiet s)
