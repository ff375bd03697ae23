-- ===== src/Tests/Clocks.antt =====
-- The theorems on waiting and stopping, with a system whose state is the time.
use libagent.Base.{
  ℕ, ◌+◌, ◌*◌, ◌/◌, ◌≡◌, refl, true, false, Option, none, some, List, [], ◌∷◌, ◌++◌, arith, ◌==◌,
}
use libagent.Text.{codes}
use libagent.Config.{not_present}
use libagent.Metrics.{Floats, Metrics}
use libagent.Metrics
use libagent.Process.{ProcessSpec}
use libagent.Monitor.{Child, still_running, World}
use libagent.Shutdown.{Os, Signal}
use libagent.Shutdown.Waits
use libagent.Manager.Signals.{StopsAndTells, stop-StopsAndTells}
use libagent.Shutdown.Escalation.{IsLog}
use libagent.Manager
use libagent.Manager.{AgentManager, Host, fresh_slot, stop, start}
use libagent.Manager.Invariant.{new-IsSound, start-IsSound}
use libagent.Manager.Lifecycle.{start_runs}
use libagent.Monitor.Loop.{ended}
use libagent.Manager.Session.{Session, Event, initialized, stepped, found_ready, stopped, run}
use libagent.Manager.Session.Reports.{ReportsUptime, run-ReportsUptime}
use libagent.Manager.Readiness
use libagent.Manager.Readiness.{
  Probe, EnsuresReady, ensure_trace_agent_ready, ensure_trace_agent_ready-EnsuresReady,
}

-- A child that never ends, whatever is sent to it.
abbrev stubborn : Os ℕ
stubborn = record {
  try_wait = λ t. (still_running, t);
  now = λ t. (t, t);
  sleep = λ d t. t + d;
  send = λ sig t. (true, t);
}

stubborn-IsClock : Waits.IsClock stubborn (λ t. t)
stubborn-IsClock = record {
  now_reads = λ t. (omega arith, omega arith);
  sleep_lasts = λ d t. omega arith;
  try_wait_later = λ t. omega arith;
}

-- The same with a log of what is sent: the time, and each signal with the child that it is for.
record Logging : Type 0 where
  time : ℕ
  log : List (Child × Signal)

abbrev logging : Child → Os Logging
logging c = record {
  try_wait = λ s. (still_running, s);
  now = λ s. (s.time, s);
  sleep = λ d s. record s { time = s.time + d };
  send = λ sig s. (true, record s { log = s.log ++ (c, sig) ∷ [] });
}

logging-IsClock : (c : Child) → Waits.IsClock (logging c) (λ s. s.time)
logging-IsClock c = record {
  now_reads = λ s. (omega arith, omega arith);
  sleep_lasts = λ d s. omega arith;
  try_wait_later = λ s. omega arith;
}

logging-IsLog : (c : Child) → IsLog (logging c) (λ sig. (c, sig)) (λ s. s.log)
logging-IsLog c = record {
  sends = λ sig s. refl;
  try_wait_silent = λ s. refl;
  now_silent = λ s. refl;
  sleep_silent = λ d s. refl;
}

abbrev empty_log : Logging
empty_log = record { time = 7; log = [] }

-- A socket that refuses every connection.
abbrev refusing : Probe ℕ
refusing = record { connect = λ path t. (false, t); now = λ t. (t, t); sleep = λ d t. t + d }

refusing-IsClock : Readiness.IsClock refusing (λ t. t)
refusing-IsClock = record {
  now_reads = λ t. (omega arith, omega arith);
  sleep_lasts = λ d t. omega arith;
  connect_later = λ path t. omega arith;
}

abbrev host : Host
host = record {
  env = λ name. not_present;
  places = record { library_dir = none; exe_dir = none; exists = λ path. false };
  split = λ s. none;
}

abbrev fresh : AgentManager
fresh = Manager.new host

-- A manager whose trace agent runs.
abbrev running : AgentManager
running = record fresh {
  should_run = true;
  monitor_thread = true;
  trace = record fresh_slot { child = some 42 };
}

ensure_trace_agent_ready-EnsuresReady_example :
    EnsuresReady false running
      (ensure_trace_agent_ready refusing (codes "/tmp/apm") false running 7)
ensure_trace_agent_ready-EnsuresReady_example =
    ensure_trace_agent_ready-EnsuresReady refusing (codes "/tmp/apm") (λ t. t) refusing-IsClock
      false running 7

abbrev floats : Floats Unit
floats = record {
  zero_float = tt;
  alpha = tt;
  one_minus_alpha = tt;
  add = λ a b. tt;
  mul = λ a b. tt;
  is_zero = λ a. true;
}

abbrev no_metrics : Metrics Unit
no_metrics = Metrics.new floats

-- The free way: no other process, and every spawn gives the process 42.
abbrev world : World
world = record {
  now = 7;
  env = λ name. not_present;
  try_wait = λ c. still_running;
  uds_connects = λ path. false;
  resolve = λ addr. none;
  tcp_connects = λ addr. false;
}

abbrev spawn : ProcessSpec → Option Child
spawn spec = some 42

start_runs_example : (start world world spawn fresh no_metrics).0.should_run ≡ true
start_runs_example = start_runs spawn world world fresh no_metrics

stop-StopsAndTells_example :
    StopsAndTells logging
      (λ s. s.log)
      (λ c s. s.time)
      logging-IsClock
      logging-IsLog
      (start world world spawn fresh no_metrics).0
      empty_log
      (stop logging (start world world spawn fresh no_metrics).0 no_metrics empty_log)
stop-StopsAndTells_example =
    stop-StopsAndTells logging (λ s. s.log) (λ c s. s.time) logging-IsClock logging-IsLog
      (start world world spawn fresh no_metrics).0 no_metrics empty_log
      (start-IsSound spawn world world fresh no_metrics (new-IsSound host))

-- A program that initializes the library twice and stops it twice.
abbrev before : Session Unit ℕ
before = record {
  cell = none;
  metrics = no_metrics;
  pc = ended;
  lost = [];
  leaked = [];
  system = 0;
}

abbrev nine_worlds : List World
nine_worlds = world ∷ world ∷ world ∷ world ∷ world ∷ world ∷ world ∷ world ∷ world ∷ []

abbrev events : List Event
events =
    initialized host world world
    ∷ initialized host world world
    ∷ stepped world
    ∷ found_ready
    ∷ stopped nine_worlds
    ∷ initialized host world world
    ∷ stopped nine_worlds
    ∷ []

-- Whole numbers in the place of `f64`, which is enough for the seconds.
abbrev whole : Floats ℕ
whole = record {
  zero_float = 0;
  alpha = 0;
  one_minus_alpha = 1;
  add = λ a b. a + b;
  mul = λ a b. a * b;
  is_zero = λ a. a == 0;
}

abbrev seconds : ℕ → ℕ
seconds d = d / 1000000000

abbrev at_first : Session ℕ ℕ
at_first = record {
  cell = none;
  metrics = Metrics.new whole;
  pc = ended;
  lost = [];
  leaked = [];
  system = 0;
}

abbrev restarted : List Event
restarted =
    initialized host world world
    ∷ stopped nine_worlds
    ∷ initialized host (record world { now = 5000000000 }) world
    ∷ initialized host (record world { now = 6000000000 }) world
    ∷ stepped world
    ∷ []

no_time : at_first.metrics.initialization_time ≡ none
unfolding Metrics.new
no_time = refl

run-ReportsUptime_example :
    ReportsUptime whole seconds
      (some 5000000000)
      (run (λ c. stubborn) 1000000000 spawn restarted at_first)
run-ReportsUptime_example =
    run-ReportsUptime (λ c. stubborn) (λ c t. t) (λ c. stubborn-IsClock) 1000000000 spawn whole
      seconds restarted at_first refl no_time (tt, (omega arith, (tt, (tt, (tt, tt)))))
