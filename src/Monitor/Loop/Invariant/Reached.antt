-- ===== src/Monitor/Loop/Invariant/Reached.antt =====
-- The invariant at every point that the thread reaches, with stops and proxy calls in between.
use libagent.Base.{ℕ, refl, inl, inr, true, false, List}
use libagent.Metrics.{Metrics}
use libagent.Monitor.{Child}
use libagent.Manager.{AgentManager}
use libagent.Manager.Invariant.{IsSound}
use libagent.Monitor.Loop.{
  Pc, at_loop, agent_checked, checked, agent_spawned, spawned, agent_committed, committed,
  computing, sleeping, ended, System, Step, thread, stopping, readied, Reach, here, next,
  spawned_thread,
}
use libagent.Monitor.Loop.Invariant.{Losses, Invariant, moved}
use libagent.Monitor.Loop.Invariant.Phases.{advance-Invariant}

-- A stop finds the same losses, with the flag cleared.
stopped-Losses :
    (pc : Pc) (mgr : AgentManager) (lost : List Child)
    → Losses pc mgr lost
    → Losses pc (record mgr { should_run = false }) lost
stopped-Losses at_loop mgr lost h = h
stopped-Losses (agent_checked due) mgr lost h = h
stopped-Losses (checked due trace_due) mgr lost h = h
stopped-Losses (agent_spawned result trace_due) mgr lost h = h
stopped-Losses (spawned result trace_result) mgr lost h = h
stopped-Losses (agent_committed started trace_result) mgr lost h = h
stopped-Losses (committed started) mgr lost h = h
stopped-Losses computing mgr lost h = h
stopped-Losses (sleeping d) mgr lost h = h
stopped-Losses ended mgr lost (inl e) = inl e
stopped-Losses ended mgr lost (inr (r, e)) = inr (refl, e)

pub readied-Losses :
    (pc : Pc) (mgr : AgentManager) (lost : List Child)
    → Losses pc mgr lost
    → Losses pc (record mgr { trace_agent_ready = true }) lost
readied-Losses at_loop mgr lost h = h
readied-Losses (agent_checked due) mgr lost h = h
readied-Losses (checked due trace_due) mgr lost h = h
readied-Losses (agent_spawned result trace_due) mgr lost h = h
readied-Losses (spawned result trace_result) mgr lost h = h
readied-Losses (agent_committed started trace_result) mgr lost h = h
readied-Losses (committed started) mgr lost h = h
readied-Losses computing mgr lost h = h
readied-Losses (sleeping d) mgr lost h = h
readied-Losses ended mgr lost h = h

module _ {F : Type 0} (interval : ℕ) where
  Step-Invariant : (s t : System F) → Step interval s t → Invariant s → Invariant t
  Step-Invariant s t (thread w spawn e) h = rw e (advance-Invariant interval w spawn s h)
  Step-Invariant s t (stopping e) h = rw e (
      moved s.pc s.pc s.manager false s.manager.trace_agent_ready s.lost s.lost h (λ d. d) (λ d. d)
        (stopped-Losses s.pc s.manager s.lost h.losses))
  Step-Invariant s t (readied e) h = rw e (
      moved s.pc s.pc s.manager s.manager.should_run true s.lost s.lost h (λ d. d) (λ d. d)
        (readied-Losses s.pc s.manager s.lost h.losses))

  -- The invariant holds at every point that is reached.
  pub Reach-Invariant :
      (s : System F) {t : System F} → Invariant s → Reach interval s t → Invariant t
  Reach-Invariant s h here = h
  Reach-Invariant s h (next {t} {u} r st) = Step-Invariant t u st (Reach-Invariant s h r)

-- A sound manager meets the invariant when the thread is spawned.
pub IsSound-Invariant :
    {F : Type 0} (mgr : AgentManager) (m : Metrics F)
    → IsSound mgr
    → Invariant (spawned_thread mgr m)
IsSound-Invariant mgr m h = record {
  agent_valid = h.agent_valid;
  trace_valid = h.trace_valid;
  agent_vacant = λ d. absurd d;
  trace_vacant = λ d. absurd d;
  unconfigured = h.unconfigured;
  losses = refl;
}
