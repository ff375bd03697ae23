-- ===== src/Manager/Session/Spec.antt =====
-- The abstract view of a program's run: the library is idle or runs.
use libagent.Base.{ℕ, suc, ◌≤◌, ◌≡◌, true, Option, none, some, List, [], ◌∷◌, length}
use libagent.Manager.{AgentManager, Global}
use libagent.Manager.Invariant.{IsClean}
use libagent.Monitor.Loop.Invariant.{InvariantAt}
use libagent.Manager.Session.{Session, Event, initialized, stepped, found_ready, stopped}

-- The abstract state: the library runs or does not.
pub data Phase : Type 0 where
  idle running : Phase

abbrev pub phase_after : Event → Phase → Phase
phase_after (initialized host w_agent w_trace) p = running
phase_after (stepped w) p = p
phase_after found_ready p = p
phase_after (stopped ws) p = idle

abbrev pub phase_of_run : List Event → Phase → Phase
phase_of_run [] p = p
phase_of_run (e ∷ es) p = phase_of_run es (phase_after e p)

-- The number of stops, added to a count.
abbrev pub count_stop : Event → ℕ → ℕ
count_stop (initialized host w_agent w_trace) n = n
count_stop (stepped w) n = n
count_stop found_ready n = n
count_stop (stopped ws) n = suc n

abbrev pub stops_of_run : List Event → ℕ → ℕ
stops_of_run [] n = n
stops_of_run (e ∷ es) n = stops_of_run es (count_stop e n)

-- The thread of a stop has as many steps as it may need.
abbrev pub HasSteps : Event → Type 0
HasSteps (initialized host w_agent w_trace) = Unit
HasSteps (stepped w) = Unit
HasSteps found_ready = Unit
HasSteps (stopped ws) = 9 ≤ length ws

-- What the phases mean: idle is without a manager or with a clean one; running is with a manager that
-- has its thread, and the thread's invariant.
abbrev pub IsIdle : Global → Type 0
IsIdle none = Unit
IsIdle (some mgr) = IsClean mgr

pub record IsRunning {F S : Type 0} (mgr : AgentManager) (sess : Session F S) : Type 0 where
  pub held : sess.cell ≡ some mgr
  pub runs : mgr.should_run ≡ true
  pub has_thread : mgr.monitor_thread ≡ true
  pub invariant : InvariantAt sess.pc mgr sess.lost

abbrev pub IsPhase : {F S : Type 0} → Phase → Session F S → Type 0
IsPhase idle sess = IsIdle sess.cell
IsPhase running sess = (mgr : AgentManager) × IsRunning mgr sess

-- The run came to an end in the phase, and at most `n` children were leaked.
abbrev pub Reaches : {F S : Type 0} → Phase → ℕ → Option (Session F S) → Type 0
Reaches p n none = ⊥
Reaches p n (some sess) = IsPhase p sess × (length sess.leaked ≤ n)
