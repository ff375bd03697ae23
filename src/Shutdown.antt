-- ===== src/Shutdown.antt =====
-- shutdown.rs, the Unix build: waiting for a child, and the escalation of signals that stops it.
-- The operating system is a parameter: a state with the calls that the code makes.
pub mod Waits
pub mod Escalation
use libagent.Base.{
  ℕ, zero, suc, ◌+◌, ◌/◌, Bool, true, false, Option, none, some, List, [], ◌∷◌, ◌++◌, leb,
  if◌then◌else◌,
}
use libagent.Config.{graceful_shutdown_timeout_secs}
use libagent.Monitor.{Child, Poll, exited, still_running, poll_error, from_secs}

-- The signals in the code: to the process group or to the process, and `Child::kill`.
pub data Signal : Type 0 where
  group_term group_kill pid_term pid_kill child_kill : Signal

-- The calls about one child. `send` says whether `libc::kill` returned 0.
pub record Os (S : Type 0) : Type 0 where
  pub try_wait : S → Poll × S
  pub now : S → ℕ × S
  pub sleep : ℕ → S → S
  pub send : Signal → S → Bool × S

-- 50 milliseconds.
abbrev pub poll_interval : ℕ
poll_interval = 50000000

-- The flag `terminated`, the signals that were tried, and the system.
abbrev pub Progress : Type 0 → Type 0
Progress S = Bool × List Signal × S

infixl 5 ◌>>=?◌
abbrev pub ◌>>=?◌ :
    {S : Type 0} → Option (Progress S) → (Progress S → Option (Progress S)) → Option (Progress S)
none >>=? k = none
some p >>=? k = k p

abbrev pub timeout : ℕ
timeout = from_secs graceful_shutdown_timeout_secs

module _ {S : Type 0} (os : Os S) where
  -- The branch of the loop where the child still runs.
  unfoldable pub past_deadline : ℕ → (S → Option (Bool × S)) → ℕ × S → Option (Bool × S)
  past_deadline deadline go (t, s) =
      let next = go (os.sleep poll_interval s) in if leb deadline t then some (false, s) else next

  unfoldable pub on_poll : ℕ → (S → Option (Bool × S)) → Poll × S → Option (Bool × S)
  on_poll deadline go (exited, s) = some (true, s)
  on_poll deadline go (still_running, s) = past_deadline deadline go (os.now s)
  on_poll deadline go (poll_error, s) = some (false, s)

  -- `none` if the rounds run out.
  unfoldable pub wait_until : ℕ → ℕ → S → Option (Bool × S)
  wait_until zero deadline s = none
  wait_until (suc fuel) deadline s =
      on_poll deadline (λ s'. wait_until fuel deadline s') (os.try_wait s)

  -- A round that goes on sleeps for the interval, so the timeout bounds the rounds.
  unfoldable pub wait_with_timeout : ℕ → S → Option (Bool × S)
  wait_with_timeout limit s =
      let (t, s') = os.now s in wait_until (limit / poll_interval + 2) (t + limit) s'

  abbrev wait_if_sent : Bool × S → Option (Bool × S)
  wait_if_sent (true, s) = wait_with_timeout timeout s
  wait_if_sent (false, s) = some (false, s)

  -- `signal_process_group` and `signal_process_pid`; the last resort waits whatever `kill` says.
  unfoldable pub signal_process : Signal → S → Option (Bool × S)
  signal_process group_term s = wait_if_sent (os.send group_term s)
  signal_process group_kill s = wait_if_sent (os.send group_kill s)
  signal_process pid_term s = wait_if_sent (os.send pid_term s)
  signal_process pid_kill s = wait_if_sent (os.send pid_kill s)
  signal_process child_kill s = wait_with_timeout timeout (os.send child_kill s).1

  abbrev tried : List Signal → Signal → Option (Bool × S) → Option (Progress S)
  tried signals sig none = none
  tried signals sig (some (terminated, s)) = some (terminated, signals ++ sig ∷ [], s)

  -- `if !terminated { terminated = … }`.
  unfoldable pub stage : Signal → Progress S → Option (Progress S)
  stage sig (true, signals, s) = some (true, signals, s)
  stage sig (false, signals, s) = tried signals sig (signal_process sig s)

  -- The stages for a child that is there.
  unfoldable pub kill_child : S → Option (Progress S)
  kill_child s =
      stage group_term (false, [], s)
      >>=? stage group_kill
      >>=? stage pid_term
      >>=? stage pid_kill
      >>=? stage child_kill

abbrev pub emptied : {S : Type 0} → Option (Progress S) → Option (Option Child × List Signal × S)
emptied none = none
emptied (some (terminated, signals, s)) = some (none, signals, s)

-- `graceful_kill` takes the child out of the option first: the option is empty afterwards. With no
-- child nothing is done.
unfoldable pub graceful_kill :
    {S : Type 0} → (Child → Os S) → Option Child → S → Option (Option Child × List Signal × S)
graceful_kill os none s = some (none, [], s)
graceful_kill os (some c) s = emptied (kill_child (os c) s)
