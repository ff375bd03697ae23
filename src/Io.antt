-- ===== src/Io.antt =====
-- `std::io::Read`: the stream that the HTTP code reads from, which the sources do not implement.
-- A reader is a function `read` on the stream's state. What is proved of the code is proved for every
-- reader, or for every reader that delivers its bytes (`IsSource`), however it cuts them into pieces.
pub mod Script
pub mod RestThen
use libagent.Base.{ℕ, ◌≤◌, ◌<◌, ◌≡◌, ◌++◌, length}
use libagent.Text.{Bytes}

-- An `io::Error`: the kind that `Read::read_exact` retries, or any other.
pub data Fault : Type 0 where
  interrupted : Fault
  broken : Bytes → Fault

-- What one `read` into a buffer gives: no bytes stand for the end of the stream.
pub data Read (S : Type 0) : Type 0 where
  got : Bytes → S → Read S
  fault : Fault → S → Read S

-- The type of `read`: the buffer's length and the stream.
abbrev pub Reader : Type 0 → Type 0
Reader S = ℕ → S → Read S

-- The documented contract of `read`: it fills no more than the buffer.
abbrev pub Fits : {S : Type 0} → ℕ → Read S → Type 0
Fits n (got bs s) = length bs ≤ n
Fits n (fault f s) = Unit

abbrev pub IsBounded : {S : Type 0} → Reader S → Type 0
IsBounded {S} read = (n : ℕ) (s : S) → Fits n (read n s)

-- No read ends with `ErrorKind::Interrupted`.
abbrev pub Uninterrupted : {S : Type 0} → Read S → Type 0
Uninterrupted (got bs s) = Unit
Uninterrupted (fault interrupted s) = ⊥
Uninterrupted (fault (broken why) s) = Unit

abbrev pub NeverInterrupted : {S : Type 0} → Reader S → Type 0
NeverInterrupted {S} read = (n : ℕ) (s : S) → Uninterrupted (read n s)

-- One delivery: some of the bytes to come, at most `n`, and none only at the end.
pub record Delivery {S : Type 0} (read : Reader S) (Live : S → Type 0) (content : S → Bytes) (n : ℕ)
    (s : S) : Type 0 where
  pub piece : Bytes
  pub after : S
  pub reads : read n s ≡ got piece after
  pub live : Live after
  pub splits : piece ++ content after ≡ content s
  pub fits : length piece ≤ n
  pub progress : 0 < length (content s) → 0 < length piece

-- A reader that delivers the bytes `content` of its state, as long as the state is live.
pub record IsSource {S : Type 0} (read : Reader S) (Live : S → Type 0) (content : S → Bytes)
    : Type 0 where
  pub deliver : (n : ℕ) (s : S) → 0 < n → Live s → Delivery read Live content n s
