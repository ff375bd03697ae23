-- ===== src/Monitor/Loop/Invariant.antt =====
-- The invariant of the monitor thread: the slots, what is pending, and what was lost, at each point.
pub mod Phases
pub mod Reached
pub mod Stored
use libagent.Base.{
  ◌≡◌, refl, ◌≢◌, ◌⊎◌, inl, inr, Bool, true, false, none, some, List, [], ◌++◌, length,
}
use libagent.Monitor.{Child}
use libagent.Monitor.Backoff.{IsValid}
use libagent.Manager.{AgentManager}
use libagent.Monitor.Loop.{
  Attempted, Pc, agent_checked, checked, agent_spawned, spawned, agent_committed, ended, System,
  dropped,
}

-- The agent is about to be spawned, or was spawned and is not stored yet.
abbrev pub AgentPending : Pc → Type 0
AgentPending (agent_checked due) = due ≡ true
AgentPending (checked due trace_due) = due ≡ true
AgentPending (agent_spawned result trace_due) = result ≢ none
AgentPending (spawned result trace_result) = result ≢ none
AgentPending pc = ⊥

abbrev pub TracePending : Pc → Type 0
TracePending (checked due trace_due) = trace_due ≡ true
TracePending (agent_spawned result trace_due) = trace_due ≡ true
TracePending (spawned result trace_result) = trace_result ≢ none
TracePending (agent_committed started trace_result) = trace_result ≢ none
TracePending pc = ⊥

-- While the thread runs nothing is lost; after its end one child at most, and that on a stop.
abbrev pub Losses : Pc → AgentManager → List Child → Type 0
Losses ended mgr lost = (lost ≡ []) ⊎ ((mgr.should_run ≡ false) × (length lost ≡ 1))
Losses pc mgr lost = lost ≡ []

pub record InvariantAt (pc : Pc) (mgr : AgentManager) (lost : List Child) : Type 0 where
  pub agent_valid : IsValid mgr.agent
  pub trace_valid : IsValid mgr.trace
  pub agent_vacant : AgentPending pc → (mgr.agent.child ≡ none) × (mgr.agent_spec ≢ none)
  pub trace_vacant : TracePending pc → mgr.trace.child ≡ none
  pub unconfigured : mgr.agent_spec ≡ none → mgr.agent.child ≡ none
  pub losses : Losses pc mgr lost

abbrev pub Invariant : {F : Type 0} → System F → Type 0
Invariant s = InvariantAt s.pc s.manager s.lost

-- The thread moves on without a change to the slots; nothing becomes pending.
pub moved :
    (pc pc' : Pc) (mgr : AgentManager) (run ready : Bool) (lost lost' : List Child)
    → InvariantAt pc mgr lost
    → (AgentPending pc' → AgentPending pc)
    → (TracePending pc' → TracePending pc)
    → Losses pc' (record mgr { should_run = run; trace_agent_ready = ready }) lost'
    → InvariantAt pc' (record mgr { should_run = run; trace_agent_ready = ready }) lost'
moved pc pc' mgr run ready lost lost' h a t l = record {
  agent_valid = h.agent_valid;
  trace_valid = h.trace_valid;
  agent_vacant = λ d. h.agent_vacant (a d);
  trace_vacant = λ d. h.trace_vacant (t d);
  unconfigured = h.unconfigured;
  losses = l;
}

pub dropped-Losses :
    (result : Attempted) (mgr : AgentManager) (lost : List Child)
    → lost ≡ []
    → mgr.should_run ≡ false
    → Losses ended mgr (dropped result ++ lost)
dropped-Losses none mgr lost e h = inl e
dropped-Losses (some none) mgr lost e h = inl e
dropped-Losses (some (some c)) mgr lost e h = inr (h, rw e refl)
