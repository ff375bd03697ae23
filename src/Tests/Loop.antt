-- ===== src/Tests/Loop.antt =====
-- The theorems on the monitor thread and on the forked monitor process, at concrete inputs.
use libagent.Base.{
  ℕ, ◌+◌, ◌≡◌, refl, Bool, true, false, Option, none, some, List, [], ◌∷◌, arith, ltb, All,
}
use libagent.Text.{codes, bytes_eq}
use libagent.Config.{not_present, is_agent_enabled, get_trace_agent_uds_path}
use libagent.Process.{ProcessSpec, agent_name, trace_agent_name, is_agent, is_trace_agent}
use libagent.Metrics.{Floats, Metrics}
use libagent.Metrics
use libagent.Monitor.{
  Child, still_running, World, is_taken, is_backing_off, is_socket_in_use,
  is_remote_config_available, tick_process, tick_child, tick_spawn, tick_result,
}
use libagent.Monitor.Backoff.{IsValid}
use libagent.Monitor.Supervision.{MaySpawn}
use libagent.Manager.{
  AgentManager, fresh_slot, start_body, start, tick_agent, tick_trace, reset_trace_agent_readiness,
  reset_backoff_state, reset_slot, spawn_process,
}
use libagent.Monitor.Loop.{System, spawned_thread, advance, Reach}
use libagent.Monitor.Loop.Invariant.{Invariant}
use libagent.Monitor.Loop.Rounds.{KeepsRunning, advance-KeepsRunning}
use libagent.Monitor.Loop.Progress.{advance_all}
use libagent.Monitor.Loop.Restart.{Restarted, trace_agent_restarts}
use libagent.Monitor.Loop.Leak.{Leaks, stop_between_spawns-Leaks}
use libagent.Manager.Orphans.{Vars, agent_key, trace_key, Sig, probe, term, kill, Killer, getenv}
use libagent.Manager.Orphans.Cleanup.{FitsPid, gone, alive}
use libagent.Manager.Orphans.Start.{Guards, start_and_fork, start_and_fork-Guards}

abbrev floats : Floats Unit
floats = record {
  zero_float = tt;
  alpha = tt;
  one_minus_alpha = tt;
  add = λ a b. tt;
  mul = λ a b. tt;
  is_zero = λ a. true;
}

abbrev agent : ProcessSpec
agent = record { name = agent_name; program = codes "datadog-agent"; args = [] }

abbrev trace_agent : ProcessSpec
trace_agent = record { name = trace_agent_name; program = codes "trace-agent"; args = [] }

-- Both processes are configured, and neither runs.
abbrev started : AgentManager
started = record {
  should_run = true;
  monitor_thread = true;
  agent_spec = some agent;
  trace_spec = trace_agent;
  agent = fresh_slot;
  trace = fresh_slot;
  trace_agent_ready = false;
}

abbrev system : System Unit
system = spawned_thread started (Metrics.new floats)

-- No other process does the work, and every spawn gives the process 42.
abbrev world : World
world = record {
  now = 7;
  env = λ name. not_present;
  try_wait = λ c. still_running;
  uds_connects = λ path. false;
  resolve = λ addr. none;
  tcp_connects = λ addr. false;
}

abbrev spawn : ProcessSpec → Option Child
spawn spec = some 42

abbrev interval : ℕ
interval = 1000000000

fresh_slot-IsValid : IsValid fresh_slot
fresh_slot-IsValid = record {
  at_least_initial = omega arith;
  at_most_max = omega arith;
  calm = λ c e. refl;
}

system-Invariant : Invariant system
system-Invariant = record {
  agent_valid = fresh_slot-IsValid;
  trace_valid = fresh_slot-IsValid;
  agent_vacant = λ d. absurd d;
  trace_vacant = λ d. absurd d;
  unconfigured = λ e. refl;
  losses = refl;
}

agent-MaySpawn : MaySpawn world agent fresh_slot
unfolding is_taken is_backing_off is_agent is_trace_agent is_remote_config_available bytes_eq
    is_agent_enabled
agent-MaySpawn = (λ c e. cc, refl, refl)

trace_agent-MaySpawn : MaySpawn world trace_agent fresh_slot
unfolding is_taken is_backing_off is_agent is_trace_agent is_socket_in_use bytes_eq
    get_trace_agent_uds_path
trace_agent-MaySpawn = (λ c e. cc, refl, refl)

abbrev one_step : System Unit
one_step = advance interval world spawn system

advance-KeepsRunning_example : KeepsRunning world started one_step.manager
advance-KeepsRunning_example = advance-KeepsRunning interval world spawn system system-Invariant

abbrev stopped : System Unit
stopped = record system { manager = record started { should_run = false } }

abbrev eight_worlds : List World
eight_worlds = world ∷ world ∷ world ∷ world ∷ world ∷ world ∷ world ∷ world ∷ []

each_due : All (λ w. MaySpawn w trace_agent fresh_slot) eight_worlds
each_due = let m = trace_agent-MaySpawn in (m, (m, (m, (m, (m, (m, (m, (m, tt))))))))

trace_agent_restarts_example : Restarted 42 (advance_all interval spawn eight_worlds system)
trace_agent_restarts_example =
    trace_agent_restarts interval spawn eight_worlds 42 system refl refl each_due refl refl

stop_between_spawns-Leaks_example : (t : System Unit) × Reach interval system t × Leaks 42 t
stop_between_spawns-Leaks_example =
    stop_between_spawns-Leaks interval world spawn agent trace_agent 42 system refl refl refl refl
      refl agent-MaySpawn trace_agent-MaySpawn refl

-- The system is the number of seconds; the parent is gone after seven of them. The signals other than
-- the probe cost a second each.
abbrev signal_in : ℕ → Sig → ℕ → Bool × ℕ
signal_in pid probe t = (ltb t 7, t)
signal_in pid term t = (true, t + 1)
signal_in pid kill t = (true, t + 1)

abbrev seconds : Killer ℕ
seconds = record { signal = signal_in; sleep = λ d t. t + d }

abbrev home : Vars
home = (codes "HOME", codes "/root") ∷ []

home-agent_key : getenv agent_key home ≡ none
unfolding getenv bytes_eq
home-agent_key = refl

home-trace_key : getenv trace_key home ≡ none
unfolding getenv bytes_eq
home-trace_key = refl

abbrev not_started : AgentManager
not_started = record started { should_run = false; monitor_thread = false }

abbrev forking : AgentManager × Metrics Unit
forking = start world world spawn not_started (Metrics.new floats)

-- Both children are those of `spawn`.
agent_fits : FitsPid forking.0.agent.child
unfolding start start_body tick_agent tick_trace reset_trace_agent_readiness reset_backoff_state
    reset_slot spawn_process tick_process tick_child tick_spawn tick_result is_backing_off is_taken
    is_agent is_trace_agent is_socket_in_use is_remote_config_available is_agent_enabled bytes_eq
    get_trace_agent_uds_path
agent_fits = omega arith

trace_fits : FitsPid forking.0.trace.child
unfolding start start_body tick_agent tick_trace reset_trace_agent_readiness reset_backoff_state
    reset_slot spawn_process tick_process tick_child tick_spawn tick_result is_backing_off is_taken
    is_agent is_trace_agent is_socket_in_use is_remote_config_available is_agent_enabled bytes_eq
    get_trace_agent_uds_path
trace_fits = omega arith

start_and_fork-Guards_example :
    Guards seconds 3 0 10 home forking
      (λ forked. start_and_fork world world spawn 41 forked not_started (Metrics.new floats) home)
start_and_fork-Guards_example =
    start_and_fork-Guards seconds world world spawn 41 not_started (Metrics.new floats) home refl
      (omega arith) agent_fits trace_fits home-agent_key home-trace_key 2 3 0 10
      (alive refl (alive refl (gone refl))) (omega arith)
