-- ===== src/Monitor/Loop.antt =====
-- monitor.rs: `monitor_loop`, the thread that restarts the children. A step of the thread is what it
-- does from one point where another thread may come in to the next; `stop` clears `should_run` at any of
-- them, and then waits for the thread before it touches the children.
pub mod Invariant
pub mod Flags
pub mod Rounds
pub mod Progress
pub mod Restart
pub mod Leak
use libagent.Base.{
  ℕ, ◌-◌, min, ◌≡◌, Bool, true, false, ◌||◌, Option, none, some, List, [], ◌∷◌, ◌++◌, ltb,
  if◌then◌else◌,
}
use libagent.Process.{ProcessSpec}
use libagent.Metrics.{Metrics}
use libagent.Config.{Env, get_monitor_interval_secs}
use libagent.Monitor.{Child, World, from_secs, should_attempt_spawn, commit_spawn_result}
use libagent.Manager.{AgentManager, spawn_process, reset_trace_agent_readiness}

-- The result of a spawn, if there was one.
abbrev pub Attempted : Type 0
Attempted = Option (Option Child)

-- Where the thread stands, with its local variables: `…_spec_to_spawn` as a flag, `…_spawn_result`
-- and `trace_agent_spawned`.
pub data Pc : Type 0 where
  at_loop : Pc
  agent_checked : Bool → Pc
  checked : Bool → Bool → Pc
  agent_spawned : Attempted → Bool → Pc
  spawned : Attempted → Attempted → Pc
  agent_committed : Bool → Attempted → Pc
  committed : Bool → Pc
  computing : Pc
  sleeping : ℕ → Pc
  ended : Pc

-- The manager with the thread. `lost` are the children that the thread dropped without storing them.
pub record System (F : Type 0) : Type 0 where
  pub manager : AgentManager
  pub metrics : Metrics F
  pub pc : Pc
  pub lost : List Child

-- A child in a result that is dropped.
abbrev pub dropped : Attempted → List Child
dropped none = []
dropped (some none) = []
dropped (some (some c)) = c ∷ []

-- One backoff timer: `min` with what is left until a deadline that is yet to come.
unfoldable pub sleep_until : ℕ → Option ℕ → ℕ → ℕ
sleep_until now none sleep_dur = sleep_dur
sleep_until now (some next) sleep_dur =
    if ltb now next then min sleep_dur (next - now) else sleep_dur

unfoldable pub sleep_duration : ℕ → ℕ → AgentManager → ℕ
sleep_duration interval now mgr =
    sleep_until now mgr.trace.next_attempt (sleep_until now mgr.agent.next_attempt interval)

module _ {F : Type 0} (interval : ℕ) (w : World) (spawn : ProcessSpec → Option Child) where
  -- Phase 1. An agent that is not configured is not checked.
  abbrev pub check_agent : Option ProcessSpec → System F → System F
  check_agent none s = record s { pc = agent_checked false }
  check_agent (some spec) s =
      let (slot, m, due) = should_attempt_spawn w spec s.manager.agent s.metrics in
      record s { manager = record s.manager { agent = slot }; metrics = m; pc = agent_checked due }

  unfoldable pub check_trace : Bool → System F → System F
  check_trace agent_due s =
      let (slot, m, due) = should_attempt_spawn w s.manager.trace_spec s.manager.trace s.metrics in
      record s {
        manager = record s.manager { trace = slot };
        metrics = m;
        pc = checked agent_due due;
      }

  -- Phase 2: `spawn_fn`, which resets the readiness when it starts a trace agent.
  unfoldable pub spawn_agent : ProcessSpec → Bool → System F → System F
  spawn_agent spec trace_due s =
      let (result, ready) = spawn_process spawn spec s.manager.trace_agent_ready in
      record s {
        manager = record s.manager { trace_agent_ready = ready };
        pc = agent_spawned (some result) trace_due;
      }

  unfoldable pub spawn_trace : Attempted → System F → System F
  spawn_trace agent_result s =
      let (result, ready) = spawn_process spawn s.manager.trace_spec s.manager.trace_agent_ready in
      record s {
        manager = record s.manager { trace_agent_ready = ready };
        pc = spawned agent_result (some result);
      }

  -- The re-check of `should_run` before a spawn. On `break` the results so far are dropped.
  abbrev pub recheck : Attempted → System F → System F → System F
  recheck result s next =
      if s.manager.should_run
      then next
      else record s { pc = ended; lost = dropped result ++ s.lost }

  abbrev pub due_agent : Option ProcessSpec → Bool → System F → System F
  due_agent none trace_due s = record s { pc = agent_spawned none trace_due }
  due_agent (some spec) trace_due s = recheck none s (spawn_agent spec trace_due s)

  -- Phase 3.
  abbrev pub commit_agent : Option ProcessSpec → Attempted → Attempted → System F → System F
  commit_agent none result trace_result s = record s {
    pc = agent_committed false trace_result;
    lost = dropped result ++ s.lost;
  }
  commit_agent (some spec) none trace_result s = record s {
    pc = agent_committed false trace_result;
  }
  commit_agent (some spec) (some result) trace_result s =
      let (slot, m, started) = commit_spawn_result w.now spec s.manager.agent s.metrics result in
      record s {
        manager = record s.manager { agent = slot };
        metrics = m;
        pc = agent_committed started trace_result;
      }

  abbrev pub commit_trace : Bool → Attempted → System F → System F
  commit_trace started none s = record s { pc = committed started }
  commit_trace started (some result) s =
      let (slot, m, trace_started) =
        commit_spawn_result w.now s.manager.trace_spec s.manager.trace s.metrics result in
      record s {
        manager = record s.manager { trace = slot };
        metrics = m;
        pc = committed (trace_started || started);
      }

  abbrev pub advance_at : Pc → System F → System F
  advance_at at_loop s =
      if s.manager.should_run then check_agent s.manager.agent_spec s else record s { pc = ended }
  advance_at (agent_checked agent_due) s = check_trace agent_due s
  advance_at (checked true trace_due) s = due_agent s.manager.agent_spec trace_due s
  advance_at (checked false trace_due) s = record s { pc = agent_spawned none trace_due }
  advance_at (agent_spawned result true) s = recheck result s (spawn_trace result s)
  advance_at (agent_spawned result false) s = record s { pc = spawned result none }
  advance_at (spawned result trace_result) s =
      commit_agent s.manager.agent_spec result trace_result s
  advance_at (agent_committed started trace_result) s = commit_trace started trace_result s
  advance_at (committed true) s = record s {
    manager = reset_trace_agent_readiness s.manager;
    pc = computing;
  }
  advance_at (committed false) s = record s { pc = computing }
  advance_at computing s = record s { pc = sleeping (sleep_duration interval w.now s.manager) }
  advance_at (sleeping d) s = record s { pc = at_loop }
  advance_at ended s = s

  -- One step of the thread, in the world that it meets.
  unfoldable pub advance : System F → System F
  advance s = advance_at s.pc s

-- What happens meanwhile: a step of the thread, `stop` clears the flag, or a proxy call finds the trace
-- agent ready.
pub data Step {F : Type 0} (interval : ℕ) (s t : System F) : Type 0 where
  thread :
      (w : World) (spawn : ProcessSpec → Option Child)
      → t ≡ advance interval w spawn s
      → Step interval s t
  stopping : t ≡ record s { manager = record s.manager { should_run = false } } → Step interval s t
  readied :
      t ≡ record s { manager = record s.manager { trace_agent_ready = true } } → Step interval s t

pub data Reach {F : Type 0} (interval : ℕ) (s : System F) : System F → Type 0 where
  here : Reach interval s s
  next : {t u : System F} → Reach interval s t → Step interval t u → Reach interval s u

-- The interval, as the thread reads it when it starts.
unfoldable pub loop_interval : Env → ℕ
loop_interval env = from_secs (get_monitor_interval_secs env)

-- The thread as `start` spawns it.
abbrev pub spawned_thread : {F : Type 0} → AgentManager → Metrics F → System F
spawned_thread mgr m = record { manager = mgr; metrics = m; pc = at_loop; lost = [] }
