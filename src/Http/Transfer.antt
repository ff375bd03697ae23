-- ===== src/Http/Transfer.antt =====
-- http.rs: `read_exact_len`, the loop that reads to the end of the stream, and the standard
-- library's `Read::read_exact`.
pub mod Bounds
pub mod Content
use libagent.Base.{ℕ, zero, suc, ◌+◌, ◌-◌, min, [], ◌∷◌, ◌++◌, ltb, if◌then◌else◌, length, ok, err}
use libagent.Text.{Bytes}
use libagent.Text.Number.{u64_max}
use libagent.Io.{Reader, Read, got, fault, interrupted, broken}
use libagent.Http.{Attempt, max_body_size, read_error, eof_in_body, body_too_large, out_of_fuel}

-- `usize::saturating_add`.
abbrev pub saturating_add : ℕ → ℕ → ℕ
saturating_add a b = min (a + b) u64_max

-- Puts the piece just read in front of what is read later.
abbrev pub prepend : {S : Type 0} → Bytes → Attempt (Bytes × S) → Attempt (Bytes × S)
prepend bs (ok (more, s)) = ok (bs ++ more, s)
prepend bs (err e) = err e

module _ {S : Type 0} (read : Reader S) where
  -- The rest of the loop of `read_exact_len` after one read, where `need` bytes were missing.
  pub filled : ℕ → (ℕ → S → Attempt (Bytes × S)) → Read S → Attempt (Bytes × S)
  filled need go (fault f s) = err (read_error f)
  filled need go (got [] s) = err eof_in_body
  filled need go (got (b ∷ bs) s) = prepend (b ∷ bs) (go (need - length (b ∷ bs)) s)

  unfoldable pub fill : ℕ → ℕ → S → Attempt (Bytes × S)
  unfolding filled
  fill fuel zero s = ok ([], s)
  fill zero (suc need) s = err out_of_fuel
  fill (suc fuel) (suc need) s =
      filled (suc need) (λ need' s'. fill fuel need' s') (read (suc need) s)

  -- Every read gives a byte at least, so `len` rounds are enough.
  unfoldable pub read_exact_len : ℕ → S → Attempt (Bytes × S)
  unfolding fill
  read_exact_len len s = fill len len s

  -- `Read::read_exact`, which tries an interrupted read again. Its error at the end of the stream
  -- is reported like any other by its caller.
  pub filled_exact : ℕ → (ℕ → S → Attempt (Bytes × S)) → Read S → Attempt (Bytes × S)
  filled_exact need go (fault interrupted s) = go need s
  filled_exact need go (fault (broken why) s) = err (read_error (broken why))
  filled_exact need go (got [] s) = err (read_error (broken []))
  filled_exact need go (got (b ∷ bs) s) = prepend (b ∷ bs) (go (need - length (b ∷ bs)) s)

  unfoldable pub fill_exact : ℕ → ℕ → S → Attempt (Bytes × S)
  unfolding filled_exact
  fill_exact fuel zero s = ok ([], s)
  fill_exact zero (suc need) s = err out_of_fuel
  fill_exact (suc fuel) (suc need) s =
      filled_exact (suc need) (λ need' s'. fill_exact fuel need' s') (read (suc need) s)

  -- A read to the end of the stream, in pieces of 16 KiB, from a body that is there already.
  pub after_chunk : Bytes → (Bytes → S → Attempt (Bytes × S)) → Read S → Attempt (Bytes × S)
  after_chunk body go (fault f s) = err (read_error f)
  after_chunk body go (got [] s) = ok (body, s)
  after_chunk body go (got (b ∷ bs) s) =
      let next = go (body ++ b ∷ bs) s in
      if ltb max_body_size (saturating_add (length body) (length (b ∷ bs)))
      then err body_too_large
      else next

  unfoldable pub read_to_end : ℕ → Bytes → S → Attempt (Bytes × S)
  unfolding after_chunk
  read_to_end zero body s = err out_of_fuel
  read_to_end (suc fuel) body s =
      after_chunk body (λ body' s'. read_to_end fuel body' s') (read 16384 s)
