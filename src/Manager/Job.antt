-- ===== src/Manager/Job.antt =====
-- manager.rs, the Windows build: the job object that holds the children, and `stop` with it. The calls
-- of Win32 and of `std::process::Child` are a parameter; a null handle is `none`.
pub mod Protocol
pub mod Laws
pub mod Stops
use libagent.Base.{ℕ, Bool, true, false, Option, none, some, if◌then◌else◌}
use libagent.Process.{ProcessSpec}
use libagent.Metrics.{Metrics}
use libagent.Monitor.{Child, Slot}
use libagent.Manager.{AgentManager, stop_end, ready_after}

-- The system behind the calls: `CreateJobObjectW`, `SetInformationJobObject`,
-- `AssignProcessToJobObject`, `TerminateJobObject`, `CloseHandle`, `Child::kill` and `Child::wait`.
pub record JobSystem (S : Type 0) : Type 0 where
  pub create_job_object : S → Option ℕ × S
  pub set_information : ℕ → S → Bool × S
  pub assign_process : ℕ → Child → S → Bool × S
  pub terminate_job : ℕ → S → S
  pub close_handle : ℕ → S → S
  pub kill : Child → S → S
  pub wait : Child → S → S

-- The manager with the field `windows_job`.
pub record WindowsManager : Type 0 where
  pub manager : AgentManager
  pub windows_job : Option ℕ

module _ {S : Type 0} (sys : JobSystem S) where
  -- A job that cannot be configured is closed and not kept.
  abbrev pub on_information : ℕ → Bool × S → Option ℕ × Option ℕ × S
  on_information job (true, s) = (some job, some job, s)
  on_information job (false, s) = (none, none, sys.close_handle job s)

  abbrev pub on_job : Option ℕ × S → Option ℕ × Option ℕ × S
  on_job (none, s) = (none, none, s)
  on_job (some job, s) = on_information job (sys.set_information job s)

  -- The handle, the field and the system. A job that is there is given again.
  unfoldable pub windows_job_handle : Option ℕ → S → Option ℕ × Option ℕ × S
  windows_job_handle none s = on_job (sys.create_job_object s)
  windows_job_handle (some job) s = (some job, some job, s)

  abbrev pub assign_to : Child → Option ℕ × Option ℕ × S → Option ℕ × S
  assign_to child (none, cell, s) = (cell, s)
  assign_to child (some job, cell, s) = (cell, (sys.assign_process job child s).1)

  unfoldable pub assign_child_to_job : Child → Option ℕ → S → Option ℕ × S
  assign_child_to_job child cell s = assign_to child (windows_job_handle cell s)

  -- `spawn_process`, on the readiness flag, the field and the system.
  abbrev pub on_spawned : Option ℕ → Option Child × S → Option ℕ × S
  on_spawned cell (none, s) = (cell, s)
  on_spawned cell (some child, s) = assign_child_to_job child cell s

  unfoldable pub spawn_in_job :
      (ProcessSpec → S → Option Child × S)
      → ProcessSpec
      → Bool
      → Option ℕ
      → S
      → Option Child × Bool × Option ℕ × S
  spawn_in_job spawn spec ready cell s =
      let p = spawn spec s in
      let (child, ready') = ready_after spec ready p.0 in
      let (cell', s') = on_spawned cell p in (child, ready', cell', s')

  -- `terminated_via_job`: the job is taken out of the field, terminated and closed.
  unfoldable pub terminate_via_job : Option ℕ → S → Bool × S
  terminate_via_job none s = (false, s)
  terminate_via_job (some job) s = (true, sys.close_handle job (sys.terminate_job job s))

  -- `graceful_kill` of shutdown.rs: it takes the child out of the slot.
  unfoldable pub graceful_kill_now : Slot → Option Child → S → Slot × S
  graceful_kill_now slot none s = (record slot { child = none }, s)
  graceful_kill_now slot (some c) s = (record slot { child = none }, sys.wait c (sys.kill c s))

  abbrev pub kill_agent_now : Option ProcessSpec → Slot → S → Slot × S
  kill_agent_now none slot s = (slot, s)
  kill_agent_now (some spec) slot s = graceful_kill_now slot slot.child s

  -- Unless the job did it, both children are killed.
  unfoldable pub kill_children : AgentManager → Bool × S → Slot × Slot × S
  kill_children mgr (true, s) = (mgr.agent, mgr.trace, s)
  kill_children mgr (false, s) =
      let (agent, s₁) = kill_agent_now mgr.agent_spec mgr.agent s in
      let (trace, s₂) = graceful_kill_now mgr.trace mgr.trace.child s₁ in (agent, trace, s₂)

  -- Behind the join of the monitor thread.
  unfoldable pub stop_windows_body :
      {F : Type 0} → WindowsManager → Metrics F → S → WindowsManager × Metrics F × S
  stop_windows_body win m s =
      let (agent, trace, s₁) = kill_children win.manager (terminate_via_job win.windows_job s) in
      let (mgr, m', s₂) = stop_end win.manager m agent trace s₁ in
      (record { manager = mgr; windows_job = none }, m', s₂)

  unfoldable pub stop_windows :
      {F : Type 0} → WindowsManager → Metrics F → S → WindowsManager × Metrics F × S
  stop_windows win m s =
      let stopped = stop_windows_body win m s in
      if win.manager.should_run then stopped else (win, m, s)
