-- ===== src/Winpipe/Open.antt =====
-- `open_pipe_handle`: the loop that waits for the pipe until the deadline. A round that goes on was
-- told that the pipe is busy, and waited for it, or that it does not exist, and slept.
pub mod Rounds
use libagent.Base.{
  ℕ, zero, suc, ◌*◌, Bool, true, false, not, Option, none, some, List, leb, if◌then◌else◌, ok, err,
}
use libagent.Text.{codes}
use libagent.Io.{broken}
use libagent.Winpipe.{
  OsError, file_not_found, pipe_busy, sem_timeout, Win32, Outcome, millisecond, duration_to_millis,
  time_left,
}

-- `none` if the rounds run out.
abbrev pub Rounds : Type 0 → Type 0
Rounds S = Option (Outcome S ℕ)

module _ {S : Type 0} (w : Win32 S) where
  unfoldable pub on_mode : ℕ → Bool × S → Outcome S ℕ
  on_mode handle (true, s) = (ok handle, s)
  on_mode handle (false, s) = (err (w.os_error (w.get_last_error s)), w.close_handle handle s)

  -- Why `WaitNamedPipeW` returned 0.
  unfoldable pub wait_failed : OsError → S → Outcome S ℕ
  wait_failed sem_timeout s = (err (broken (codes "timed out waiting for pipe")), s)
  wait_failed e s = (err (w.os_error e), s)

  unfoldable pub on_busy : (S → Rounds S) → Bool × S → Rounds S
  on_busy go (true, s) = go s
  on_busy go (false, s) = some (wait_failed (w.get_last_error s) s)

  unfoldable pub on_missing : (S → Rounds S) → ℕ → S → Rounds S
  on_missing go remaining s =
      let again = go (w.sleep (10 * millisecond) s) in
      if leb remaining (10 * millisecond)
      then some (err (broken (codes "pipe not found")), s)
      else again

  -- The branches for the error of `CreateFileW`.
  unfoldable pub on_open_error : (S → Rounds S) → List ℕ → ℕ → OsError → S → Rounds S
  on_open_error go path remaining pipe_busy s =
      on_busy go (w.wait_named_pipe path (duration_to_millis remaining) s)
  on_open_error go path remaining file_not_found s = on_missing go remaining s
  on_open_error go path remaining e s = some (err (w.os_error e), s)

  unfoldable pub on_create : (S → Rounds S) → List ℕ → ℕ → Option ℕ × S → Rounds S
  on_create go path remaining (some handle, s) = some (on_mode handle (w.set_read_mode handle s))
  on_create go path remaining (none, s) = on_open_error go path remaining (w.get_last_error s) s

  unfoldable pub open_round : (S → Rounds S) → List ℕ → Outcome S ℕ → Rounds S
  open_round go path (err e, s) = some (err e, s)
  open_round go path (ok remaining, s) = on_create go path remaining (w.create_file path s)

  unfoldable pub open_pipe_handle : ℕ → List ℕ → ℕ → S → Rounds S
  open_pipe_handle zero path deadline s = none
  open_pipe_handle (suc fuel) path deadline s =
      open_round (λ s'. open_pipe_handle fuel path deadline s') path
        (time_left (codes "timed out waiting for pipe") deadline (w.now s))
