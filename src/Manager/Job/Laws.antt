-- ===== src/Manager/Job/Laws.antt =====
-- The handle of the job over spawns and stops.
use libagent.Base.{ℕ, ◌≡◌, refl, sym, subst, Bool, true, false, Option, none, some}
use libagent.Process.{ProcessSpec}
use libagent.Monitor.{Child, Slot}
use libagent.Manager.{AgentManager}
use libagent.Manager.Job.{
  JobSystem, on_information, on_job, windows_job_handle, assign_to, assign_child_to_job,
  terminate_via_job, graceful_kill_now, kill_agent_now, kill_children,
}
use libagent.Manager.Job.Protocol.{JobState, Holds, IsJobSystem}

module _ {S : Type 0} (sys : JobSystem S) (st : JobState S) (laws : IsJobSystem sys st) where
  -- The handle that is given is the one in the field.
  abbrev Given : Option ℕ × Option ℕ × S → Type 0
  Given (handle, cell, s) = (cell ≡ handle) × Holds st cell s

  on_information-Given :
      (job : ℕ) (r : Bool × S) → st.Held job r.1 → Given (on_information sys job r)
  on_information-Given job (true, s) h = (refl, h)
  on_information-Given job (false, s) h = (refl, laws.closes job s h)

  on_job-Given : (r : Option ℕ × S) → Holds st r.0 r.1 → Given (on_job sys r)
  on_job-Given (none, s) h = (refl, h)
  on_job-Given (some job, s) h =
      on_information-Given job (sys.set_information job s) (laws.configures job s h)

  windows_job_handle-Given :
      (cell : Option ℕ) (s : S) → Holds st cell s → Given (windows_job_handle sys cell s)
  unfolding windows_job_handle
  windows_job_handle-Given none s h = on_job-Given (sys.create_job_object s) (laws.creates s h)
  windows_job_handle-Given (some job) s h = (refl, h)

  assign_to-Holds :
      (c : Child) (r : Option ℕ × Option ℕ × S)
      → Given r
      → let q = assign_to sys c r in Holds st q.0 q.1
  assign_to-Holds c (none, cell, s) (e, h) = h
  assign_to-Holds c (some job, cell, s) (e, h) =
      subst (λ o. Holds st o (sys.assign_process job c s).1) (sym e)
        (laws.assigns job c s (subst (λ o. Holds st o s) e h))

  -- A child is put into the job: the handle in the field is still the only one that is open, also
  -- where the job could not be created, or was created and could not be configured.
  pub assign_child_to_job-Holds :
      (c : Child) (cell : Option ℕ) (s : S)
      → Holds st cell s
      → let q = assign_child_to_job sys c cell s in Holds st q.0 q.1
  unfolding assign_child_to_job
  assign_child_to_job-Holds c cell s h =
      assign_to-Holds c (windows_job_handle sys cell s) (windows_job_handle-Given cell s h)

  assign_to-Joins :
      (c : Child) (r : Option ℕ × Option ℕ × S)
      → Given r
      → ((job : ℕ) (t : S) → (sys.assign_process job c t).0 ≡ true)
      → let q = assign_to sys c r in (job : ℕ) → q.0 ≡ some job → st.In job c q.1
  assign_to-Joins c (none, cell, s) (e, h) k job e' = absurd (cc)
  assign_to-Joins c (some j, cell, s) (e, h) k job e' =
      let same : j ≡ job = cc in
      subst (λ i. st.In i c (sys.assign_process j c s).1) same
        (laws.joins j c s (subst (λ o. Holds st o s) e h) (k j s))

  -- Where its assignment succeeds, the child is in the job.
  pub assign_child_to_job-Joins :
      (c : Child) (cell : Option ℕ) (s : S)
      → Holds st cell s
      → ((job : ℕ) (t : S) → (sys.assign_process job c t).0 ≡ true)
      → let q = assign_child_to_job sys c cell s in (job : ℕ) → q.0 ≡ some job → st.In job c q.1
  unfolding assign_child_to_job
  assign_child_to_job-Joins c cell s h k =
      assign_to-Joins c (windows_job_handle sys cell s) (windows_job_handle-Given cell s h) k

  -- The children that were in the job stay there.
  pub assign_child_to_job-Stays :
      (c d : Child) (job : ℕ) (s : S)
      → st.In job d s
      → let q = assign_child_to_job sys c (some job) s in (q.0 ≡ some job) × st.In job d q.1
  unfolding assign_child_to_job windows_job_handle
  assign_child_to_job-Stays c d job s h = (refl, laws.stays job c d s h)

  pub terminate_via_job-Clear :
      (cell : Option ℕ) (s : S) → Holds st cell s → st.Clear (terminate_via_job sys cell s).1
  unfolding terminate_via_job
  terminate_via_job-Clear none s h = h
  terminate_via_job-Clear (some job) s h =
      laws.closes job (sys.terminate_job job s) (laws.terminates job s h)

  pub graceful_kill_now-Clear :
      (slot : Slot) (child : Option Child) (s : S)
      → st.Clear s
      → st.Clear (graceful_kill_now sys slot child s).1
  unfolding graceful_kill_now
  graceful_kill_now-Clear slot none s h = h
  graceful_kill_now-Clear slot (some c) s h =
      laws.clear_waited c (sys.kill c s) (laws.clear_killed c s h)

  kill_agent_now-Clear :
      (spec : Option ProcessSpec) (slot : Slot) (s : S)
      → st.Clear s
      → st.Clear (kill_agent_now sys spec slot s).1
  kill_agent_now-Clear none slot s h = h
  kill_agent_now-Clear (some spec) slot s h = graceful_kill_now-Clear slot slot.child s h

  pub kill_children-Clear :
      (mgr : AgentManager) (r : Bool × S)
      → st.Clear r.1
      → let q = kill_children sys mgr r in st.Clear q.2
  unfolding kill_children
  kill_children-Clear mgr (true, s) h = h
  kill_children-Clear mgr (false, s) h =
      graceful_kill_now-Clear mgr.trace mgr.trace.child _
        (kill_agent_now-Clear mgr.agent_spec mgr.agent s h)
