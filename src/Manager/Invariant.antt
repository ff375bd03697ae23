-- ===== src/Manager/Invariant.antt =====
-- What holds of a manager between two calls, and that every call keeps it.
use libagent.Base.{◌≡◌, refl, Bool, true, false, Option, none, some, arith, if◌then◌else◌}
use libagent.Process.{ProcessSpec}
use libagent.Metrics.{Metrics, record_initialization}
use libagent.Monitor.{Child, Slot, World}
use libagent.Monitor.Backoff.{IsValid, tick_process-IsValid}
use libagent.Manager.{
  AgentManager, Host, fresh_slot, new, reset_trace_agent_readiness, reset_slot, reset_backoff_state,
  spawn_process, tick_agent, tick_trace, start_body, start, initialize_in,
}

-- A stopped manager: no child, no monitor thread, not ready, and the backoff at its start.
pub record IsClean (mgr : AgentManager) : Type 0 where
  pub stopped : mgr.should_run ≡ false
  pub no_thread : mgr.monitor_thread ≡ false
  pub agent_fresh : mgr.agent ≡ fresh_slot
  pub trace_fresh : mgr.trace ≡ fresh_slot
  pub not_ready : mgr.trace_agent_ready ≡ false

-- A stopped manager is clean, a running one has its monitor thread, the backoffs are in their bounds,
-- and no agent runs that is not configured.
pub record IsSound (mgr : AgentManager) : Type 0 where
  pub clean : mgr.should_run ≡ false → IsClean mgr
  pub thread : mgr.should_run ≡ true → mgr.monitor_thread ≡ true
  pub agent_valid : IsValid mgr.agent
  pub trace_valid : IsValid mgr.trace
  pub unconfigured : mgr.agent_spec ≡ none → mgr.agent.child ≡ none

pub fresh_slot-IsValid : IsValid fresh_slot
fresh_slot-IsValid = record {
  at_least_initial = omega arith;
  at_most_max = omega arith;
  calm = λ c e. cc;
}

-- A new manager is sound, whatever the configuration.
pub new-IsSound : (host : Host) → IsSound (new host)
unfolding new
new-IsSound host = record {
  clean = λ _. record {
    stopped = refl;
    no_thread = refl;
    agent_fresh = refl;
    trace_fresh = refl;
    not_ready = refl;
  };
  thread = λ h. cc;
  agent_valid = fresh_slot-IsValid;
  trace_valid = fresh_slot-IsValid;
  unconfigured = λ _. refl;
}

reset_slot-IsValid : (slot : Slot) → IsValid (reset_slot slot)
unfolding reset_slot
reset_slot-IsValid slot = record {
  at_least_initial = omega arith;
  at_most_max = omega arith;
  calm = λ c e. refl;
}

-- What the two ticks of `start` keep.
record Kept (before after : AgentManager) : Type 0 where
  same_run : after.should_run ≡ before.should_run
  agent_valid : IsValid after.agent
  trace_valid : IsValid after.trace
  unconfigured : after.agent_spec ≡ none → after.agent.child ≡ none

module _ {F : Type 0} (spawn : ProcessSpec → Option Child) where
  tick_agent-Kept :
      (spec : Option ProcessSpec) (w : World) (mgr : AgentManager) (m : Metrics F)
      → mgr.agent_spec ≡ spec
      → IsValid mgr.agent
      → IsValid mgr.trace
      → (mgr.agent_spec ≡ none → mgr.agent.child ≡ none)
      → Kept mgr (tick_agent spec w spawn mgr m).0
  unfolding tick_agent
  tick_agent-Kept none w mgr m e va vt un = record {
    same_run = refl;
    agent_valid = va;
    trace_valid = vt;
    unconfigured = un;
  }
  tick_agent-Kept (some spec) w mgr m e va vt un = record {
    same_run = refl;
    agent_valid =
        tick_process-IsValid w spec (spawn_process spawn) mgr.agent m mgr.trace_agent_ready va;
    trace_valid = vt;
    unconfigured = λ h. cc;
  }

  tick_trace-Kept :
      (w : World) (mgr : AgentManager) (m : Metrics F)
      → IsValid mgr.agent
      → IsValid mgr.trace
      → (mgr.agent_spec ≡ none → mgr.agent.child ≡ none)
      → Kept mgr (tick_trace w spawn mgr m).0
  unfolding tick_trace
  tick_trace-Kept w mgr m va vt un = record {
    same_run = refl;
    agent_valid = va;
    trace_valid =
        tick_process-IsValid w mgr.trace_spec (spawn_process spawn) mgr.trace m
          mgr.trace_agent_ready vt;
    unconfigured = un;
  }

  start_body-IsSound :
      (w_agent w_trace : World) (mgr : AgentManager) (m : Metrics F)
      → IsSound mgr
      → IsSound (start_body w_agent w_trace spawn mgr m).0
  unfolding start_body reset_trace_agent_readiness reset_backoff_state
  start_body-IsSound w_agent w_trace mgr m h =
      let mgr₁ =
        reset_trace_agent_readiness (reset_backoff_state (record mgr { should_run = true })) in
      let m₁ = record_initialization w_agent.now m in
      let k₁ =
        tick_agent-Kept mgr₁.agent_spec w_agent mgr₁ m₁ refl (reset_slot-IsValid mgr.agent)
          (reset_slot-IsValid mgr.trace) (unfold reset_slot in h.unconfigured) in
      let p = tick_agent mgr₁.agent_spec w_agent spawn mgr₁ m₁ in
      let k₂ = tick_trace-Kept w_trace p.0 p.1 k₁.agent_valid k₁.trace_valid k₁.unconfigured in
      record {
        clean = λ e. cc (k₂.same_run, k₁.same_run);
        thread = λ _. refl;
        agent_valid = k₂.agent_valid;
        trace_valid = k₂.trace_valid;
        unconfigured = k₂.unconfigured;
      }

  branch-IsSound :
      (b : Bool) (p q : AgentManager × Metrics F)
      → IsSound p.0
      → IsSound q.0
      → IsSound (if b then p else q).0
  branch-IsSound true p q hp hq = hp
  branch-IsSound false p q hp hq = hq

  -- Starting a manager keeps it sound, whatever the two ticks meet.
  pub start-IsSound :
      (w_agent w_trace : World) (mgr : AgentManager) (m : Metrics F)
      → IsSound mgr
      → IsSound (start w_agent w_trace spawn mgr m).0
  unfolding start
  start-IsSound w_agent w_trace mgr m h =
      branch-IsSound mgr.should_run (mgr, m) _ h (start_body-IsSound w_agent w_trace mgr m h)

  -- So does initialising, on a new manager or on a running one.
  pub initialize_in-IsSound :
      (host : Host) (w_agent w_trace : World) (current : AgentManager) (m : Metrics F)
      → IsSound current
      → IsSound (initialize_in host w_agent w_trace spawn current m).0
  unfolding initialize_in
  initialize_in-IsSound host w_agent w_trace current m h =
      branch-IsSound current.should_run (current, m) _ h
        (start-IsSound w_agent w_trace (new host) m (new-IsSound host))
