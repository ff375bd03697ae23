-- ===== src/Manager/Job/Stops.antt =====
-- What the Windows build's `stop` leaves of the children and of the job.
use libagent.Base.{ℕ, ◌≡◌, refl, sym, subst, true, false, Option, none, some, on_true}
use libagent.Process.{ProcessSpec}
use libagent.Metrics.{Metrics}
use libagent.Monitor.{Child, Slot}
use libagent.Manager.{
  AgentManager, stop_end, reset_backoff_state, reset_trace_agent_readiness, reset_slot,
}
use libagent.Manager.Job.{
  JobSystem, WindowsManager, terminate_via_job, graceful_kill_now, kill_agent_now, kill_children,
  stop_windows_body, stop_windows,
}
use libagent.Manager.Job.Protocol.{JobState, Holds, IsJobSystem}
use libagent.Manager.Job.Laws.{kill_children-Clear}

-- The child that a stop leaves in a slot: none, unless a job did the killing.
unfoldable pub left_in_slot : Option ℕ → Option Child → Option Child
left_in_slot none child = none
left_in_slot (some job) child = child

abbrev with_job : AgentManager → Option ℕ → WindowsManager
with_job mgr job = record { manager = mgr; windows_job = job }

module _ {S : Type 0} (sys : JobSystem S) (st : JobState S) (laws : IsJobSystem sys st) where
  -- The child has ended, if there is one.
  abbrev pub Ended : Option Child → S → Type 0
  Ended none s = Unit
  Ended (some c) s = st.Dead c s

  -- The child is in the job, if there are both.
  abbrev pub Joined : Option ℕ → Option Child → S → Type 0
  Joined none child s = Unit
  Joined (some job) none s = Unit
  Joined (some job) (some c) s = st.In job c s

  -- The stop has ended the children of the manager, and the job with its handle is gone.
  pub record StopsAll {F : Type 0} (win : WindowsManager) (r : WindowsManager × Metrics F × S)
      : Type 0 where
    pub no_job : r.0.windows_job ≡ none
    pub no_handle : st.Clear r.2
    pub stopped : r.0.manager.should_run ≡ false
    pub agent_ended : Ended win.manager.agent.child r.2
    pub trace_ended : Ended win.manager.trace.child r.2
    pub agent_left : r.0.manager.agent.child ≡ left_in_slot win.windows_job win.manager.agent.child
    pub trace_left : r.0.manager.trace.child ≡ left_in_slot win.windows_job win.manager.trace.child

  by_job :
      (job : ℕ) (child : Option Child) (s : S)
      → st.Held job s
      → Joined (some job) child s
      → Ended child (sys.close_handle job (sys.terminate_job job s))
  by_job job none s h i = tt
  by_job job (some c) s h i =
      laws.dead_closed job c (sys.terminate_job job s) (laws.ends job c s h i)

  -- What has ended stays so while another child is killed.
  graceful_kill_now-keeps :
      (slot : Slot) (child other : Option Child) (s : S)
      → Ended other s
      → Ended other (graceful_kill_now sys slot child s).1
  unfolding graceful_kill_now
  graceful_kill_now-keeps slot none other s h = h
  graceful_kill_now-keeps slot (some c) none s h = tt
  graceful_kill_now-keeps slot (some c) (some d) s h =
      laws.dead_waited c d (sys.kill c s) (laws.dead_killed c d s h)

  graceful_kill_now-Ended :
      (slot : Slot) (child : Option Child) (s : S)
      → Ended child (graceful_kill_now sys slot child s).1
  unfolding graceful_kill_now
  graceful_kill_now-Ended slot none s = tt
  graceful_kill_now-Ended slot (some c) s = laws.waited c (sys.kill c s) (laws.kills c s)

  graceful_kill_now-empties :
      (slot : Slot) (child : Option Child) (s : S)
      → (graceful_kill_now sys slot child s).0.child ≡ none
  unfolding graceful_kill_now
  graceful_kill_now-empties slot none s = refl
  graceful_kill_now-empties slot (some c) s = refl

  kill_agent_now-Ended :
      (spec : Option ProcessSpec) (slot : Slot) (s : S)
      → (spec ≡ none → slot.child ≡ none)
      → Ended slot.child (kill_agent_now sys spec slot s).1
        × ((kill_agent_now sys spec slot s).0.child ≡ none)
  kill_agent_now-Ended none slot s un = (subst (λ o. Ended o s) (sym (un refl)) tt, un refl)
  kill_agent_now-Ended (some spec) slot s un =
      (graceful_kill_now-Ended slot slot.child s, graceful_kill_now-empties slot slot.child s)

  stop_windows_body-StopsAll :
      {F : Type 0} (job : Option ℕ) (mgr : AgentManager) (m : Metrics F) (s : S)
      → Holds st job s
      → (mgr.agent_spec ≡ none → mgr.agent.child ≡ none)
      → Joined job mgr.agent.child s
      → Joined job mgr.trace.child s
      → StopsAll (with_job mgr job) (stop_windows_body sys (with_job mgr job) m s)
  unfolding stop_windows_body terminate_via_job kill_children stop_end reset_backoff_state
      reset_trace_agent_readiness reset_slot left_in_slot
  stop_windows_body-StopsAll (some job) mgr m s h un a t = record {
    no_job = refl;
    no_handle = laws.closes job (sys.terminate_job job s) (laws.terminates job s h);
    stopped = refl;
    agent_ended = by_job job mgr.agent.child s h a;
    trace_ended = by_job job mgr.trace.child s h t;
    agent_left = refl;
    trace_left = refl;
  }
  stop_windows_body-StopsAll none mgr m s h un a t =
      let (ended, left) = kill_agent_now-Ended mgr.agent_spec mgr.agent s un in
      record {
        no_job = refl;
        no_handle = kill_children-Clear sys st laws mgr (false, s) h;
        stopped = refl;
        agent_ended = graceful_kill_now-keeps mgr.trace mgr.trace.child mgr.agent.child _ ended;
        trace_ended = graceful_kill_now-Ended mgr.trace mgr.trace.child _;
        agent_left = left;
        trace_left = graceful_kill_now-empties mgr.trace mgr.trace.child _;
      }

  -- Stopping a manager that runs, in the Windows build: afterwards both children have ended, whether by
  -- the job, which they are in where there is one, or one by one, and no handle of a job is open. The
  -- slots are emptied only where there was no job: one that ended the children leaves them in the slots.
  pub stop_windows-StopsAll :
      {F : Type 0} (win : WindowsManager) (m : Metrics F) (s : S)
      → win.manager.should_run ≡ true
      → Holds st win.windows_job s
      → (win.manager.agent_spec ≡ none → win.manager.agent.child ≡ none)
      → Joined win.windows_job win.manager.agent.child s
      → Joined win.windows_job win.manager.trace.child s
      → StopsAll win (stop_windows sys win m s)
  unfolding stop_windows
  stop_windows-StopsAll win m s e h un a t =
      on_true (StopsAll win) win.manager.should_run _ _ e
        (stop_windows_body-StopsAll win.windows_job win.manager m s h un a t)
