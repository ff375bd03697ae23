-- ===== src/Manager/Job/Protocol.antt =====
-- What the documentation of Win32 says of job objects, as far as manager.rs relies on it.
use libagent.Base.{ℕ, ◌≡◌, true, Option, none, some}
use libagent.Monitor.{Child}
use libagent.Manager.Job.{JobSystem}

-- No handle of a job is open; one is, and only that; the process is in the job; the process was told to
-- end; the process has ended.
pub record JobState (S : Type 0) : Type 1 where
  pub Clear : S → Type 0
  pub Held : ℕ → S → Type 0
  pub In : ℕ → Child → S → Type 0
  pub Killed : Child → S → Type 0
  pub Dead : Child → S → Type 0

-- The handle that is in the field, if there is one, is the one that is open.
abbrev pub Holds : {S : Type 0} → JobState S → Option ℕ → S → Type 0
Holds st none s = st.Clear s
Holds st (some job) s = st.Held job s

-- A handle is opened where none is, used while it is open, and closed once. A process that joined a
-- job stays in it, and ends with it. `Child::kill` tells a process to end; `Child::wait` on one that was
-- told to returns when it has ended, and what has ended does not come back.
pub record IsJobSystem {S : Type 0} (sys : JobSystem S) (st : JobState S) : Type 0 where
  pub creates :
      (s : S) → st.Clear s → Holds st (sys.create_job_object s).0 (sys.create_job_object s).1
  pub configures : (job : ℕ) (s : S) → st.Held job s → st.Held job (sys.set_information job s).1
  pub assigns :
      (job : ℕ) (c : Child) (s : S) → st.Held job s → st.Held job (sys.assign_process job c s).1
  pub joins :
      (job : ℕ) (c : Child) (s : S)
      → st.Held job s
      → (sys.assign_process job c s).0 ≡ true
      → st.In job c (sys.assign_process job c s).1
  pub stays :
      (job : ℕ) (c d : Child) (s : S) → st.In job d s → st.In job d (sys.assign_process job c s).1
  pub terminates : (job : ℕ) (s : S) → st.Held job s → st.Held job (sys.terminate_job job s)
  pub ends :
      (job : ℕ) (c : Child) (s : S)
      → st.Held job s
      → st.In job c s
      → st.Dead c (sys.terminate_job job s)
  pub closes : (job : ℕ) (s : S) → st.Held job s → st.Clear (sys.close_handle job s)
  pub dead_closed : (job : ℕ) (c : Child) (s : S) → st.Dead c s → st.Dead c (sys.close_handle job s)
  pub clear_killed : (c : Child) (s : S) → st.Clear s → st.Clear (sys.kill c s)
  pub clear_waited : (c : Child) (s : S) → st.Clear s → st.Clear (sys.wait c s)
  pub kills : (c : Child) (s : S) → st.Killed c (sys.kill c s)
  pub waited : (c : Child) (s : S) → st.Killed c s → st.Dead c (sys.wait c s)
  pub dead_killed : (c d : Child) (s : S) → st.Dead d s → st.Dead d (sys.kill c s)
  pub dead_waited : (c d : Child) (s : S) → st.Dead d s → st.Dead d (sys.wait c s)
