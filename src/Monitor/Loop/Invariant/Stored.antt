-- ===== src/Monitor/Loop/Invariant/Stored.antt =====
-- What becomes of a child that the thread has spawned.
use libagent.Base.{ℕ, ◌≡◌, Bool, true, Option, some}
use libagent.Process.{ProcessSpec}
use libagent.Metrics.{Metrics}
use libagent.Monitor.{Child, World}
use libagent.Monitor.Loop.{Attempted, agent_spawned, spawned, agent_committed, System, advance}
use libagent.Monitor.Loop.Invariant.{Invariant}

module _ {F : Type 0} (interval : ℕ) where
  -- The next step of the thread, whatever world it meets, carries a spawned agent on while the manager
  -- runs, and puts it into its slot when it commits; likewise a spawned trace agent.
  pub record Stores (t : System F) : Type 0 where
    pub carries :
        (w : World) (spawn : ProcessSpec → Option Child) (c : Child) (due : Bool)
        → t.pc ≡ agent_spawned (some (some c)) due
        → t.manager.should_run ≡ true
        → (trace_result : Attempted) × ((advance interval w spawn t).pc
            ≡ spawned (some (some c)) trace_result)
    pub stores_agent :
        (w : World) (spawn : ProcessSpec → Option Child) (c : Child) (trace_result : Attempted)
        → t.pc ≡ spawned (some (some c)) trace_result
        → ((advance interval w spawn t).manager.agent.child ≡ some c)
          × ((started : Bool) × ((advance interval w spawn t).pc
                ≡ agent_committed started trace_result))
    pub stores_trace :
        (w : World) (spawn : ProcessSpec → Option Child) (c : Child) (started : Bool)
        → t.pc ≡ agent_committed started (some (some c))
        → (advance interval w spawn t).manager.trace.child ≡ some c
