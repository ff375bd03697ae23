-- ===== src/Monitor/Loop/Flags.antt =====
-- What no step of the thread changes: the manager's two flags.
use libagent.Base.{ℕ, ◌≡◌, refl, Bool, true, false, Option, none, some, if◌then◌else◌}
use libagent.Process.{ProcessSpec}
use libagent.Monitor.{Child, World}
use libagent.Manager.{AgentManager, reset_trace_agent_readiness}
use libagent.Monitor.Loop.{
  Attempted, Pc, at_loop, agent_checked, checked, agent_spawned, spawned, agent_committed,
  committed, computing, sleeping, ended, System, check_agent, check_trace, spawn_agent, spawn_trace,
  due_agent, commit_agent, commit_trace, advance_at, advance,
}

-- The flags of the manager.
abbrev pub SameFlags : AgentManager → AgentManager → Type 0
SameFlags mgr mgr' = (mgr'.should_run ≡ mgr.should_run) × (mgr'.monitor_thread ≡ mgr.monitor_thread)

module _ {F : Type 0} (interval : ℕ) (w : World) (spawn : ProcessSpec → Option Child) where
  either-SameFlags :
      (mgr : AgentManager) (b : Bool) (s t : System F)
      → SameFlags mgr s.manager
      → SameFlags mgr t.manager
      → SameFlags mgr (if b then s else t).manager
  either-SameFlags mgr true s t h k = h
  either-SameFlags mgr false s t h k = k

  check_agent-SameFlags :
      (spec : Option ProcessSpec) (s : System F)
      → SameFlags s.manager (check_agent interval w spawn spec s).manager
  check_agent-SameFlags none s = (refl, refl)
  check_agent-SameFlags (some spec) s = (refl, refl)

  due_agent-SameFlags :
      (spec : Option ProcessSpec) (trace_due : Bool) (s : System F)
      → SameFlags s.manager (due_agent interval w spawn spec trace_due s).manager
  unfolding spawn_agent
  due_agent-SameFlags none trace_due s = (refl, refl)
  due_agent-SameFlags (some spec) trace_due s =
      either-SameFlags s.manager s.manager.should_run _ _ (refl, refl) (refl, refl)

  commit_agent-SameFlags :
      (spec : Option ProcessSpec) (result trace_result : Attempted) (s : System F)
      → SameFlags s.manager (commit_agent interval w spawn spec result trace_result s).manager
  commit_agent-SameFlags none result trace_result s = (refl, refl)
  commit_agent-SameFlags (some spec) none trace_result s = (refl, refl)
  commit_agent-SameFlags (some spec) (some r) trace_result s = (refl, refl)

  commit_trace-SameFlags :
      (started : Bool) (result : Attempted) (s : System F)
      → SameFlags s.manager (commit_trace interval w spawn started result s).manager
  commit_trace-SameFlags started none s = (refl, refl)
  commit_trace-SameFlags started (some r) s = (refl, refl)

  advance_at-SameFlags :
      (pc : Pc) (s : System F) → SameFlags s.manager (advance_at interval w spawn pc s).manager
  unfolding check_trace spawn_trace reset_trace_agent_readiness
  advance_at-SameFlags at_loop s =
      either-SameFlags s.manager s.manager.should_run _ _
        (check_agent-SameFlags s.manager.agent_spec s) (refl, refl)
  advance_at-SameFlags (agent_checked due) s = (refl, refl)
  advance_at-SameFlags (checked true trace_due) s =
      due_agent-SameFlags s.manager.agent_spec trace_due s
  advance_at-SameFlags (checked false trace_due) s = (refl, refl)
  advance_at-SameFlags (agent_spawned result true) s =
      either-SameFlags s.manager s.manager.should_run _ _ (refl, refl) (refl, refl)
  advance_at-SameFlags (agent_spawned result false) s = (refl, refl)
  advance_at-SameFlags (spawned result trace_result) s =
      commit_agent-SameFlags s.manager.agent_spec result trace_result s
  advance_at-SameFlags (agent_committed started trace_result) s =
      commit_trace-SameFlags started trace_result s
  advance_at-SameFlags (committed true) s = (refl, refl)
  advance_at-SameFlags (committed false) s = (refl, refl)
  advance_at-SameFlags computing s = (refl, refl)
  advance_at-SameFlags (sleeping d) s = (refl, refl)
  advance_at-SameFlags ended s = (refl, refl)

  pub advance-SameFlags : (s : System F) → SameFlags s.manager (advance interval w spawn s).manager
  unfolding advance
  advance-SameFlags s = advance_at-SameFlags s.pc s
