-- ===== src/Winpipe/Open/Rounds.antt =====
-- `open_pipe_handle` over a system whose clock goes forward: the number of its rounds.
use libagent.Base.{
  ℕ, zero, suc, ◌+◌, ◌-◌, ◌*◌, ◌≤◌, ◌<◌, ◌≡◌, inl, inr, Bool, true, false, Option, none, some, List,
  arith, leb, if◌then◌else◌, leb→le, Bool-cases,
}
use libagent.Text.{Bytes}
use libagent.Winpipe.{
  OsError, broken_pipe, file_not_found, io_pending, pipe_busy, sem_timeout, other_error, Win32,
  millisecond, duration_to_millis, time_left,
}
use libagent.Winpipe.Open.{
  Rounds, on_busy, on_missing, on_open_error, on_create, open_round, open_pipe_handle,
}

-- `Instant::now` is monotonic, and each look at it takes time; no call sets it back.
pub record IsClock {S : Type 0} (w : Win32 S) (time : S → ℕ) : Type 0 where
  pub now_time : (s : S) → (w.now s).0 ≡ time s
  pub now_ticks : (s : S) → time s < time (w.now s).1
  pub create_time : (path : List ℕ) (s : S) → time s ≤ time (w.create_file path s).1
  pub wait_time : (path : List ℕ) (ms : ℕ) (s : S) → time s ≤ time (w.wait_named_pipe path ms s).1
  pub sleep_time : (ns : ℕ) (s : S) → time s ≤ time (w.sleep ns s)

-- The rounds sufficed.
abbrev pub Sufficed : {S : Type 0} → Rounds S → Type 0
Sufficed none = ⊥
Sufficed (some r) = Unit

module _ {S : Type 0} (w : Win32 S) (time : S → ℕ) (clock : IsClock w time) where
  if-Sufficed :
      (b : Bool) (x y : Rounds S) → Sufficed x → Sufficed y → Sufficed (if b then x else y)
  if-Sufficed true x y h k = h
  if-Sufficed false x y h k = k

  on_busy-Sufficed :
      (go : S → Rounds S) (t : ℕ) (r : Bool × S)
      → t ≤ time r.1
      → ((s : S) → t ≤ time s → Sufficed (go s))
      → Sufficed (on_busy w go r)
  unfolding on_busy
  on_busy-Sufficed go t (true, s) h k = k s h
  on_busy-Sufficed go t (false, s) h k = tt

  on_missing-Sufficed :
      (go : S → Rounds S) (remaining t : ℕ) (s : S)
      → t ≤ time s
      → ((s : S) → t ≤ time s → Sufficed (go s))
      → Sufficed (on_missing w go remaining s)
  unfolding on_missing
  on_missing-Sufficed go remaining t s h k =
      if-Sufficed (leb remaining (10 * millisecond)) _ _ tt
        (k (w.sleep (10 * millisecond) s) (omega (arith, clock.sleep_time (10 * millisecond) s)))

  on_open_error-Sufficed :
      (go : S → Rounds S) (path : List ℕ) (remaining t : ℕ) (e : OsError) (s : S)
      → t ≤ time s
      → ((s : S) → t ≤ time s → Sufficed (go s))
      → Sufficed (on_open_error w go path remaining e s)
  unfolding on_open_error
  on_open_error-Sufficed go path remaining t pipe_busy s h k =
      let ms = duration_to_millis remaining in
      on_busy-Sufficed go t (w.wait_named_pipe path ms s) (omega (arith, clock.wait_time path ms s))
        k
  on_open_error-Sufficed go path remaining t file_not_found s h k =
      on_missing-Sufficed go remaining t s h k
  on_open_error-Sufficed go path remaining t broken_pipe s h k = tt
  on_open_error-Sufficed go path remaining t io_pending s h k = tt
  on_open_error-Sufficed go path remaining t sem_timeout s h k = tt
  on_open_error-Sufficed go path remaining t (other_error code) s h k = tt

  on_create-Sufficed :
      (go : S → Rounds S) (path : List ℕ) (remaining t : ℕ) (r : Option ℕ × S)
      → t ≤ time r.1
      → ((s : S) → t ≤ time s → Sufficed (go s))
      → Sufficed (on_create w go path remaining r)
  unfolding on_create
  on_create-Sufficed go path remaining t (some handle, s) h k = tt
  on_create-Sufficed go path remaining t (none, s) h k =
      on_open_error-Sufficed go path remaining t (w.get_last_error s) s h k

  open_round-Sufficed :
      (go : S → Rounds S) (path : List ℕ) (why : Bytes) (deadline : ℕ) (s : S)
      → (time s ≤ deadline → (s' : S) → time s < time s' → Sufficed (go s'))
      → Sufficed (open_round w go path (time_left why deadline (w.now s)))
  unfolding open_round time_left
  open_round-Sufficed go path why deadline s k = elim (Bool-cases (leb (w.now s).0 deadline)) [
    | inr e ↦ rw e tt
    | inl e ↦
        let (t, s₁) = w.now s in
        rw e (
          on_create-Sufficed go path (deadline - (w.now s).0) (suc (time s))
            (w.create_file path (w.now s).1)
            (omega (arith, clock.now_ticks s, clock.create_time path (w.now s).1))
            (λ s' h.
              k (omega (arith, leb→le (w.now s).0 deadline e, clock.now_time s)) s' (omega arith)))
  ]

  -- The loop that opens the pipe ends, however often the pipe is busy or missing: it takes at most
  -- two rounds more than there are ticks of the clock until the deadline.
  pub open_pipe_handle-Sufficed :
      (fuel : ℕ) (path : List ℕ) (deadline : ℕ) (s : S)
      → deadline + 1 - time s < fuel
      → Sufficed (open_pipe_handle w fuel path deadline s)
  unfolding open_pipe_handle
  open_pipe_handle-Sufficed zero path deadline s h = absurd (omega arith)
  open_pipe_handle-Sufficed (suc fuel) path deadline s h =
      open_round-Sufficed (λ s'. open_pipe_handle w fuel path deadline s') path _ deadline s
        (λ before s' later. open_pipe_handle-Sufficed fuel path deadline s' (omega arith))
