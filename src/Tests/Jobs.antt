-- ===== src/Tests/Jobs.antt =====
-- The theorem on the Windows build's `stop`, with one job and its members as the system.
use libagent.Base.{ℕ, ◌≡◌, refl, Bool, true, false, ◌||◌, Option, none, some, [], arith, ◌==◌}
use libagent.Metrics.{Floats, Metrics}
use libagent.Metrics
use libagent.Monitor.{Child}
use libagent.Process.{agent_name, trace_agent_name}
use libagent.Text.{codes}
use libagent.Manager.{AgentManager, fresh_slot}
use libagent.Manager.Job.{
  JobSystem, WindowsManager, windows_job_handle, assign_child_to_job, stop_windows,
}
use libagent.Manager.Job.Protocol.{JobState, Holds, IsJobSystem}
use libagent.Manager.Job.Laws.{assign_child_to_job-Holds}
use libagent.Manager.Job.Stops.{StopsAll, stop_windows-StopsAll}

-- Whether the handle 7 is open, the processes in the job, those that were told to end, and those that
-- have ended, of which a process that was not told to never is one.
record Processes : Type 0 where
  open_handle : Bool
  members : Child → Bool
  killed : Child → Bool
  dead : Child → Bool

abbrev also : Child → (Child → Bool) → Child → Bool
also c f d = (c == d) || f d

abbrev win32 : JobSystem Processes
win32 = record {
  create_job_object = λ s. (some 7, record s { open_handle = true });
  set_information = λ job s. (true, s);
  assign_process = λ job c s. (true, record s { members = also c s.members });
  terminate_job = λ job s. record s { dead = λ c. s.members c || s.dead c };
  close_handle = λ job s. record s { open_handle = false };
  kill = λ c s. record s { killed = also c s.killed };
  wait = λ c s. record s { dead = λ d. s.killed d || s.dead d };
}

abbrev win32_state : JobState Processes
win32_state = record {
  Clear = λ s. s.open_handle ≡ false;
  Held = λ job s. (job ≡ 7) × (s.open_handle ≡ true);
  In = λ job c s. s.members c ≡ true;
  Killed = λ c s. s.killed c ≡ true;
  Dead = λ c s. s.dead c ≡ true;
}

or_left : (a b : Bool) → a ≡ true → (a || b) ≡ true
or_left true b e = refl
or_left false b e = absurd (cc)

or_right : (a b : Bool) → b ≡ true → (a || b) ≡ true
or_right true b e = refl
or_right false b e = e

same_child : (c : Child) → (c == c) ≡ true
same_child c = ground arith

win32-IsJobSystem : IsJobSystem win32 win32_state
win32-IsJobSystem = record {
  creates = λ s h. (refl, refl);
  configures = λ job s h. h;
  assigns = λ job c s h. h;
  joins = λ job c s h e. or_left (c == c) (s.members c) (same_child c);
  stays = λ job c d s h. or_right (c == d) (s.members d) h;
  terminates = λ job s h. h;
  ends = λ job c s h i. or_left (s.members c) (s.dead c) i;
  closes = λ job s h. refl;
  dead_closed = λ job c s h. h;
  clear_killed = λ c s h. h;
  clear_waited = λ c s h. h;
  kills = λ c s. or_left (c == c) (s.killed c) (same_child c);
  waited = λ c s h. or_left (s.killed c) (s.dead c) h;
  dead_killed = λ c d s h. h;
  dead_waited = λ c d s h. or_right (s.killed d) (s.dead d) h;
}

abbrev both_running : AgentManager
both_running = record {
  should_run = true;
  monitor_thread = true;
  agent_spec = some (record { name = agent_name; program = codes "datadog-agent"; args = [] });
  trace_spec = record { name = trace_agent_name; program = codes "trace-agent"; args = [] };
  agent = record fresh_slot { child = some 42 };
  trace = record fresh_slot { child = some 43 };
  trace_agent_ready = true;
}

-- Both children were put into the job.
abbrev nothing : Processes
nothing = record {
  open_handle = false;
  members = λ c. false;
  killed = λ c. false;
  dead = λ c. false;
}

abbrev assigned : Option ℕ × Processes
assigned =
    let (cell, s) = assign_child_to_job win32 42 none nothing in assign_child_to_job win32 43 cell s

assigned-Holds : Holds win32_state assigned.0 assigned.1
assigned-Holds =
    let (cell, s) = assign_child_to_job win32 42 none nothing in
    assign_child_to_job-Holds win32 win32_state win32-IsJobSystem 43 cell s
      (assign_child_to_job-Holds win32 win32_state win32-IsJobSystem 42 none nothing refl)

abbrev running : WindowsManager
running = record { manager = both_running; windows_job = assigned.0 }

abbrev floats : Floats Unit
floats = record {
  zero_float = tt;
  alpha = tt;
  one_minus_alpha = tt;
  add = λ a b. tt;
  mul = λ a b. tt;
  is_zero = λ a. true;
}

stop_windows-StopsAll_example :
    StopsAll win32 win32_state win32-IsJobSystem running
      (stop_windows win32 running (Metrics.new floats) assigned.1)
unfolding assign_child_to_job windows_job_handle
stop_windows-StopsAll_example =
    stop_windows-StopsAll win32 win32_state win32-IsJobSystem running (Metrics.new floats)
      assigned.1 refl assigned-Holds (λ e. absurd (cc)) refl refl
