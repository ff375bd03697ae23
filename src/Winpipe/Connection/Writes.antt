-- ===== src/Winpipe/Connection/Writes.antt =====
-- `write_all` over a system that writes what it says it has written.
use libagent.Base.{
  ℕ, zero, suc, ◌≤◌, ◌≡◌, sym, ap, ◌∙◌, subst, inl, inr, Option, none, some, [], ◌∷◌, ◌++◌,
  append-nil, append_assoc, arith, leb, Bool-cases, length, take, drop, take-append-drop,
  length-drop, ok, err,
}
use libagent.Text.{Bytes}
use libagent.Winpipe.{Win32, Outcome, time_left}
use libagent.Winpipe.Overlapped.{write_some}
use libagent.Winpipe.Overlapped.Writes.{IsWriter, Took, write_some-Took}
use libagent.Winpipe.Connection.{
  PipeConnection, remaining, on_written, write_round, write_rest, write_all,
}

-- The loop came to an end, and if it reports success then all the bytes were added.
abbrev pub SendsAll : {S : Type 0} → (S → Bytes) → Bytes → Option (Outcome S Unit) → Type 0
SendsAll sent whole none = ⊥
SendsAll sent whole (some (ok done, s)) = sent s ≡ whole
SendsAll sent whole (some (err e, s)) = Unit

module _ {S : Type 0} (w : Win32 S) (sent in_flight : S → Bytes)
    (writer : IsWriter w sent in_flight) (connection : PipeConnection) where
  on_written-SendsAll :
      (go : Bytes → S → Option (Outcome S Unit)) (before rest : Bytes) (r : Outcome S ℕ)
      → Took sent before rest r
      → ((n : ℕ) (s : S)
          → suc n ≤ length rest
          → sent s ≡ before ++ take (suc n) rest
          → SendsAll sent (before ++ rest) (go (drop (suc n) rest) s))
      → SendsAll sent (before ++ rest) (on_written w connection go rest r)
  unfolding on_written
  on_written-SendsAll go before rest (err e, s) h k = tt
  on_written-SendsAll go before rest (ok zero, s) h k = tt
  on_written-SendsAll go before rest (ok (suc n), s) (fits, e) k = k n s fits e

  write_round-SendsAll :
      (go : Bytes → S → Option (Outcome S Unit)) (before rest : Bytes) (r : Outcome S ℕ)
      → sent r.1 ≡ before
      → ((n : ℕ) (s : S)
          → suc n ≤ length rest
          → sent s ≡ before ++ take (suc n) rest
          → SendsAll sent (before ++ rest) (go (drop (suc n) rest) s))
      → SendsAll sent (before ++ rest) (write_round w connection go rest r)
  unfolding write_round
  write_round-SendsAll go before rest (err e, s) h k = tt
  write_round-SendsAll go before rest (ok timeout, s) h k =
      on_written-SendsAll go before rest (write_some w connection.handle rest timeout s)
        (rw (sym h) (write_some-Took w sent in_flight writer connection.handle timeout rest s)) k

  -- Reading the clock adds nothing.
  remaining_keeps : (s : S) → sent (remaining w connection s).1 ≡ sent s
  unfolding remaining time_left
  remaining_keeps s = elim (Bool-cases (leb (w.now s).0 connection.deadline)) [
    | inl e ↦ rw e (writer.now_keeps s)
    | inr e ↦ rw e (writer.now_keeps s)
  ]

  -- What the round added and what is left make up the whole.
  joined :
      (before rest : Bytes) (n : ℕ) (s : S)
      → sent s ≡ before ++ take n rest
      → sent s ++ drop n rest ≡ before ++ rest
  joined before rest n s e =
      ap (λ (l : Bytes). l ++ drop n rest) e
      ∙ (append_assoc before (take n rest) (drop n rest)
          ∙ ap (λ (l : Bytes). before ++ l) (take-append-drop n rest))

  write_rest-SendsAll :
      (fuel : ℕ) (rest : Bytes) (s : S)
      → length rest ≤ fuel
      → SendsAll sent (sent s ++ rest) (write_rest w connection fuel rest s)
  unfolding write_rest
  write_rest-SendsAll fuel [] s h = sym (append-nil (sent s))
  write_rest-SendsAll zero (b ∷ bs) s h = absurd (omega arith)
  write_rest-SendsAll (suc fuel) (b ∷ bs) s h =
      write_round-SendsAll (λ rest s'. write_rest w connection fuel rest s') (sent s) (b ∷ bs)
        (remaining w connection s) (remaining_keeps s)
        (λ n s' fits e.
          subst (λ (l : Bytes). SendsAll sent l (write_rest w connection fuel (drop n bs) s'))
            (joined (sent s) (b ∷ bs) (suc n) s' e)
            (write_rest-SendsAll fuel (drop n bs) s' (omega (arith, length-drop n bs))))

  -- `write_all` always comes to an end, and when it reports success the other end gets all the bytes
  -- of the buffer, in order, behind what was sent before, in however many writes.
  pub write_all-SendsAll :
      (buf : Bytes) (s : S) → SendsAll sent (sent s ++ buf) (write_all w connection buf s)
  unfolding write_all
  write_all-SendsAll buf s = write_rest-SendsAll (length buf) buf s (omega arith)
