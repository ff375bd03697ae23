-- ===== src/Winpipe/Connection.antt =====
-- `PipeConnection` and `PipeStream`: the two ends of a request on one handle, both with the deadline.
pub mod Writes
pub mod Bounds
pub mod Delivers
use libagent.Base.{ℕ, zero, suc, Option, none, some, [], ◌∷◌, length, take, drop, ok, err}
use libagent.Text.{Bytes, codes}
use libagent.Io.{broken, Read, got, fault, Reader}
use libagent.Winpipe.{Win32, Outcome, time_left}
use libagent.Winpipe.Overlapped.{write_some, read_some}

-- A handle with its deadline.
pub record PipeConnection : Type 0 where
  pub handle : ℕ
  pub deadline : ℕ

module _ {S : Type 0} (w : Win32 S) (connection : PipeConnection) where
  unfoldable pub remaining : S → Outcome S ℕ
  remaining s = time_left (codes "request timed out") connection.deadline (w.now s)

  -- What a round of the loop does with the outcome of `write_some`.
  unfoldable pub on_written :
      (Bytes → S → Option (Outcome S Unit)) → Bytes → Outcome S ℕ → Option (Outcome S Unit)
  on_written go rest (err e, s) = some (err e, s)
  on_written go rest (ok zero, s) = some (err (broken (codes "failed to write to named pipe")), s)
  on_written go rest (ok (suc n), s) = go (drop (suc n) rest) s

  unfoldable pub write_round :
      (Bytes → S → Option (Outcome S Unit)) → Bytes → Outcome S ℕ → Option (Outcome S Unit)
  write_round go rest (err e, s) = some (err e, s)
  write_round go rest (ok timeout, s) =
      on_written go rest (write_some w connection.handle rest timeout s)

  -- The loop on the bytes that are not written yet; `none` if the rounds run out.
  unfoldable pub write_rest : ℕ → Bytes → S → Option (Outcome S Unit)
  write_rest fuel [] s = some (ok tt, s)
  write_rest zero (b ∷ bs) s = none
  write_rest (suc fuel) (b ∷ bs) s =
      write_round (λ rest s'. write_rest fuel rest s') (b ∷ bs) (remaining s)

  -- A round that goes on wrote a byte, so the bytes bound the rounds.
  unfoldable pub write_all : Bytes → S → Option (Outcome S Unit)
  write_all buf s = write_rest (length buf) buf s

  -- `read` fills the start of the buffer with what it read.
  unfoldable pub on_read_some : ℕ → Outcome S ℕ → Read S
  on_read_some n (ok transferred, s) = got (take transferred (w.buffer n s)) s
  on_read_some n (err e, s) = fault e s

  unfoldable pub read_until_deadline : ℕ → Outcome S ℕ → Read S
  read_until_deadline n (err e, s) = fault e s
  read_until_deadline n (ok timeout, s) = on_read_some n (read_some w connection.handle n timeout s)

  unfoldable pub read : Reader S
  read zero s = got [] s
  read (suc n) s = read_until_deadline (suc n) (remaining s)
