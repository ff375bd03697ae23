-- ===== src/Winpipe/Overlapped/Writes.antt =====
-- `write_some` over a system that writes what it says it has written.
use libagent.Base.{
  ℕ, zero, suc, ◌≤◌, ◌≡◌, refl, sym, ap, ◌∙◌, Bool, true, false, Option, none, some, List, [], ◌∷◌,
  ◌++◌, arith, if◌then◌else◌, length, take, length-take, ok, err,
}
use libagent.Text.{Bytes}
use libagent.Winpipe.{
  Waited, object_0, timed_out, failed, abandoned, other_result, Win32, Outcome, duration_to_millis,
}
use libagent.Winpipe.Overlapped.{
  is_io_pending, transfer_size, last_os_error, on_result, on_wait, wait_overlapped, close_after,
  on_write, write_with, write_some,
}

-- What a transfer of these bytes may report, `before` having been sent: the number of bytes that were
-- added. Nothing is said of a transfer that gave no number.
abbrev pub Moved : {S : Type 0} → (S → Bytes) → Bytes → Bytes → Option ℕ × S → Type 0
Moved sent before bytes (some n, s) = (n ≤ length bytes) × (sent s ≡ before ++ take n bytes)
Moved sent before bytes (none, s) = Unit

-- A write that is pending: nothing is sent yet, and the bytes are those in flight.
abbrev pub Pends : {S : Type 0} → (S → Bytes) → (S → Bytes) → Bytes → Bytes → Option ℕ × S → Type 0
Pends sent in_flight before bytes (some n, s) = Unit
Pends sent in_flight before bytes (none, s) = (sent s ≡ before) × (in_flight s ≡ bytes)

-- The documented behaviour of the calls that a write makes: `sent` is what the other end gets.
pub record IsWriter {S : Type 0} (w : Win32 S) (sent in_flight : S → Bytes) : Type 0 where
  pub write_moves :
      (handle event : ℕ) (bytes : Bytes) (s : S)
      → Moved sent (sent s) bytes (w.write_file handle bytes event s)
  pub write_pends :
      (handle event : ℕ) (bytes : Bytes) (s : S)
      → Pends sent in_flight (sent s) bytes (w.write_file handle bytes event s)
  pub result_moves :
      (handle event : ℕ) (s : S)
      → Moved sent (sent s) (in_flight s) (w.get_overlapped_result handle event s)
  pub wait_keeps : (event ms : ℕ) (s : S) → sent (w.wait_for_single_object event ms s).1 ≡ sent s
  pub wait_keeps_flight :
      (event ms : ℕ) (s : S) → in_flight (w.wait_for_single_object event ms s).1 ≡ in_flight s
  pub now_keeps : (s : S) → sent (w.now s).1 ≡ sent s
  pub event_keeps : (s : S) → sent (w.create_event s).1 ≡ sent s
  pub close_keeps : (handle : ℕ) (s : S) → sent (w.close_handle handle s) ≡ sent s

-- What `write_some` reports of bytes that it took.
abbrev pub Took : {S : Type 0} → (S → Bytes) → Bytes → Bytes → Outcome S ℕ → Type 0
Took sent before bytes (ok n, s) = (n ≤ length bytes) × (sent s ≡ before ++ take n bytes)
Took sent before bytes (err e, s) = Unit

take-take :
    {A : Type 0} (n m : ℕ) (xs : List A) → n ≤ length (take m xs) → take n (take m xs) ≡ take n xs
take-take zero m xs h = refl
take-take (suc n) zero xs h = absurd (omega arith)
take-take (suc n) (suc m) [] h = refl
take-take (suc n) (suc m) (x ∷ xs) h = ap (λ l. x ∷ l) (take-take n m xs (omega arith))

module _ {S : Type 0} (w : Win32 S) (sent in_flight : S → Bytes)
    (writer : IsWriter w sent in_flight) where
  if-Took :
      (b : Bool) (before bytes : Bytes) (x y : Outcome S ℕ)
      → Took sent before bytes x
      → Took sent before bytes y
      → Took sent before bytes (if b then x else y)
  if-Took true before bytes x y h k = h
  if-Took false before bytes x y h k = k

  on_result-Took :
      (before bytes : Bytes) (r : Option ℕ × S)
      → Moved sent before bytes r
      → Took sent before bytes (on_result w false r)
  unfolding on_result last_os_error
  on_result-Took before bytes (some n, s) h = h
  on_result-Took before bytes (none, s) h = tt

  on_wait-Took :
      (handle event : ℕ) (before bytes : Bytes) (r : Waited × S)
      → sent r.1 ≡ before
      → in_flight r.1 ≡ bytes
      → Took sent before bytes (on_wait w handle event false r)
  unfolding on_wait last_os_error
  on_wait-Took handle event before bytes (object_0, s) e f =
      on_result-Took before bytes (w.get_overlapped_result handle event s)
        (rw (sym e, sym f) (writer.result_moves handle event s))
  on_wait-Took handle event before bytes (timed_out, s) e f = tt
  on_wait-Took handle event before bytes (failed, s) e f = tt
  on_wait-Took handle event before bytes (abandoned, s) e f = tt
  on_wait-Took handle event before bytes (other_result n, s) e f = tt

  close_after-Took :
      (event : ℕ) (before bytes : Bytes) (r : Outcome S ℕ)
      → Took sent before bytes r
      → Took sent before bytes (close_after w event r)
  unfolding close_after
  close_after-Took event before bytes (ok n, s) (fits, e) = (fits, writer.close_keeps event s ∙ e)
  close_after-Took event before bytes (err e, s) h = tt

  on_write-Took :
      (handle event timeout : ℕ) (before bytes : Bytes) (r : Option ℕ × S)
      → Moved sent before bytes r
      → Pends sent in_flight before bytes r
      → Took sent before bytes (on_write w handle event timeout r)
  unfolding on_write wait_overlapped
  on_write-Took handle event timeout before bytes (some n, s) (fits, e) k =
      (fits, writer.close_keeps event s ∙ e)
  on_write-Took handle event timeout before bytes (none, s) h (e, f) =
      let ms = duration_to_millis timeout in
      if-Took (is_io_pending (w.get_last_error s)) before bytes _ _
        (close_after-Took event before bytes _ (
          on_wait-Took handle event before bytes (w.wait_for_single_object event ms s)
            (writer.wait_keeps event ms s ∙ e) (writer.wait_keeps_flight event ms s ∙ f)))
        tt

  -- A write of the first bytes only is one of all the bytes.
  Took-take :
      (m : ℕ) (before bytes : Bytes) (r : Outcome S ℕ)
      → Took sent before (take m bytes) r
      → Took sent before bytes r
  Took-take m before bytes (ok n, s) (fits, e) = (
    omega (arith, length-take m bytes),
    e ∙ ap (λ (l : Bytes). before ++ l) (take-take n m bytes fits),
  )
  Took-take m before bytes (err e, s) h = tt

  write_with-Took :
      (handle timeout : ℕ) (before bytes : Bytes) (r : Option ℕ × S)
      → sent r.1 ≡ before
      → Took sent before bytes (write_with w handle bytes timeout r)
  unfolding write_with last_os_error
  write_with-Took handle timeout before bytes (none, s) e = tt
  write_with-Took handle timeout before bytes (some event, s) e =
      let m = transfer_size (length bytes) in
      Took-take m before bytes _ (
        on_write-Took handle event timeout before (take m bytes) _
          (rw (sym e) (writer.write_moves handle event (take m bytes) s))
          (rw (sym e) (writer.write_pends handle event (take m bytes) s)))

  pub write_some-Took :
      (handle timeout : ℕ) (bytes : Bytes) (s : S)
      → Took sent (sent s) bytes (write_some w handle bytes timeout s)
  unfolding write_some
  write_some-Took handle timeout bytes s =
      write_with-Took handle timeout (sent s) bytes (w.create_event s) (writer.event_keeps s)
