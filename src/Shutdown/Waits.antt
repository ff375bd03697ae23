-- ===== src/Shutdown/Waits.antt =====
-- Each wait of the shutdown ends within its rounds.
use libagent.Base.{
  ℕ, zero, suc, ◌+◌, ◌*◌, ◌/◌, ◌≤◌, ◌<◌, inl, inr, Bool, true, false, Option, none, some, arith,
  leb, Bool-cases,
}
use libagent.Monitor.{Poll, exited, still_running, poll_error}
use libagent.Shutdown.{
  Signal, group_term, group_kill, pid_term, pid_kill, child_kill, Os, poll_interval, timeout,
  past_deadline, on_poll, wait_until, wait_with_timeout, wait_if_sent, signal_process,
}

-- Time goes on: a clock reads the present, and a sleep lasts as long as it was asked to.
pub record IsClock {S : Type 0} (os : Os S) (time : S → ℕ) : Type 0 where
  pub now_reads : (s : S) → (time s ≤ (os.now s).0) × ((os.now s).0 ≤ time (os.now s).1)
  pub sleep_lasts : (d : ℕ) (s : S) → time s + d ≤ time (os.sleep d s)
  pub try_wait_later : (s : S) → time s ≤ time (os.try_wait s).1

-- The loop came to an end.
abbrev pub IsDone {ℓ} : {A : Type ℓ} → Option A → Type 0
IsDone none = ⊥
IsDone (some a) = Unit

module _ {S : Type 0} (os : Os S) (time : S → ℕ) (clock : IsClock os time) where
  on_poll-IsDone :
      (deadline : ℕ) (go : S → Option (Bool × S)) (t₀ : ℕ) (p : Poll × S)
      → t₀ ≤ time p.1
      → ((s : S) → t₀ < deadline → t₀ + poll_interval ≤ time s → IsDone (go s))
      → IsDone (on_poll os deadline go p)
  unfolding on_poll past_deadline
  on_poll-IsDone deadline go t₀ (exited, s) later h = tt
  on_poll-IsDone deadline go t₀ (poll_error, s) later h = tt
  on_poll-IsDone deadline go t₀ (still_running, s) later h =
      elim (Bool-cases (leb deadline (os.now s).0)) [
        | inl e ↦ rw e tt
        | inr e ↦
            let (lo, hi) = clock.now_reads s in
            let slept = clock.sleep_lasts poll_interval (os.now s).1 in
            let before : (os.now s).0 < deadline = ground arith in
            rw e (h (os.sleep poll_interval (os.now s).1) (omega arith) (omega arith))
      ]

  wait_until-IsDone :
      (fuel deadline : ℕ) (s : S)
      → 0 < fuel
      → deadline + poll_interval ≤ time s + fuel * poll_interval
      → IsDone (wait_until os fuel deadline s)
  unfolding wait_until
  wait_until-IsDone zero deadline s p h = absurd (omega arith)
  wait_until-IsDone (suc fuel) deadline s p h =
      on_poll-IsDone deadline _ (time s) (os.try_wait s) (clock.try_wait_later s)
        (λ s' early slept. wait_until-IsDone fuel deadline s' (omega arith) (omega arith))

  -- Waiting ends within the rounds that the timeout allows.
  pub wait_with_timeout-IsDone : (limit : ℕ) (s : S) → IsDone (wait_with_timeout os limit s)
  unfolding wait_with_timeout
  wait_with_timeout-IsDone limit s =
      let (lo, hi) = clock.now_reads s in
      wait_until-IsDone (limit / poll_interval + 2) ((os.now s).0 + limit) (os.now s).1
        (omega arith) (omega arith)

  wait_if_sent-IsDone : (p : Bool × S) → IsDone (wait_if_sent os p)
  wait_if_sent-IsDone (true, s) = wait_with_timeout-IsDone timeout s
  wait_if_sent-IsDone (false, s) = tt

  pub signal_process-IsDone : (sig : Signal) (s : S) → IsDone (signal_process os sig s)
  unfolding signal_process
  signal_process-IsDone group_term s = wait_if_sent-IsDone _
  signal_process-IsDone group_kill s = wait_if_sent-IsDone _
  signal_process-IsDone pid_term s = wait_if_sent-IsDone _
  signal_process-IsDone pid_kill s = wait_if_sent-IsDone _
  signal_process-IsDone child_kill s = wait_with_timeout-IsDone timeout _
