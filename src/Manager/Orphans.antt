-- ===== src/Manager/Orphans.antt =====
-- manager.rs: the process that `start` forks on the Unix systems other than Linux, and which kills the
-- children once the program that uses the library is gone. A signal's target is the 32 bits of the pid.
pub mod Cleanup
pub mod Start
use libagent.Base.{
  ℕ, zero, suc, Bool, true, false, Option, none, some, List, [], ◌∷◌, if◌then◌else◌,
}
use libagent.Text.{Bytes, codes, bytes_eq}
use libagent.Text.Number.{u32_max, to_string, from_str_radix}
use libagent.Manager.{AgentManager}

-- The environment of a process.
abbrev pub Vars : Type 0
Vars = List (Bytes × Bytes)

unfoldable pub unsetenv : Bytes → Vars → Vars
unsetenv key [] = []
unsetenv key ((k, v) ∷ vars) =
    let rest = unsetenv key vars in if bytes_eq k key then rest else (k, v) ∷ rest

-- `setenv` with overwriting.
unfoldable pub setenv : Bytes → Bytes → Vars → Vars
setenv key value vars = (key, value) ∷ unsetenv key vars

unfoldable pub getenv : Bytes → Vars → Option Bytes
getenv key [] = none
getenv key ((k, v) ∷ vars) = if bytes_eq k key then some v else getenv key vars

abbrev pub agent_key : Bytes
agent_key = codes "LIBAGENT_MONITOR_AGENT_PID"

abbrev pub trace_key : Bytes
trace_key = codes "LIBAGENT_MONITOR_TRACE_PID"

abbrev pub parent_key : Bytes
parent_key = codes "LIBAGENT_MONITOR_PARENT_PID"

-- `if let Some(pid) = … { setenv … }`.
unfoldable pub set_pid : Bytes → Option ℕ → Vars → Vars
set_pid key none vars = vars
set_pid key (some pid) vars = setenv key (to_string pid) vars

unfoldable pub set_pids : ℕ → Option ℕ → Option ℕ → Vars → Vars
set_pids parent agent trace vars =
    setenv parent_key (to_string parent) (set_pid trace_key trace (set_pid agent_key agent vars))

-- `.and_then(|s| s.parse::<u32>().ok())`.
abbrev pub parse_pid : Option Bytes → Option ℕ
parse_pid none = none
parse_pid (some s) = from_str_radix 10 u32_max s

unfoldable pub read_pid : Bytes → Vars → Option ℕ
read_pid key vars = parse_pid (getenv key vars)

-- `.unwrap_or(1)`.
abbrev pub or_init : Option ℕ → ℕ
or_init none = 1
or_init (some pid) = pid

-- `clear_orphan_monitor_env`.
unfoldable pub clear_orphan_monitor_env : Vars → Vars
clear_orphan_monitor_env vars = unsetenv parent_key (unsetenv trace_key (unsetenv agent_key vars))

-- What `fork` says.
pub data Forked : Type 0 where
  fork_failed in_child in_parent : Forked

-- Whom the monitor process watches, and whom it kills.
pub record Watch : Type 0 where
  pub parent : ℕ
  pub agent : Option ℕ
  pub trace : Option ℕ

unfoldable pub watch_of : Vars → Watch
watch_of vars = record {
  parent = or_init (read_pid parent_key vars);
  agent = read_pid agent_key vars;
  trace = read_pid trace_key vars;
}

-- The environment afterwards, and what the process is to run, if it is the forked one.
unfoldable pub fork_orphan_cleanup_monitor : ℕ → AgentManager → Vars → Forked → Vars × Option Watch
fork_orphan_cleanup_monitor parent mgr vars in_child =
    let vars' = set_pids parent mgr.agent.child mgr.trace.child vars in
    (clear_orphan_monitor_env vars', some (watch_of vars'))
fork_orphan_cleanup_monitor parent mgr vars in_parent =
    (clear_orphan_monitor_env (set_pids parent mgr.agent.child mgr.trace.child vars), none)
fork_orphan_cleanup_monitor parent mgr vars fork_failed =
    (clear_orphan_monitor_env (set_pids parent mgr.agent.child mgr.trace.child vars), none)

pub data Sig : Type 0 where
  probe term kill : Sig

-- `libc::kill`, which says whether it returned 0, and `libc::sleep`.
pub record Killer (S : Type 0) : Type 0 where
  pub signal : ℕ → Sig → S → Bool × S
  pub sleep : ℕ → S → S

module _ {S : Type 0} (os : Killer S) where
  unfoldable pub kill_orphan : Option ℕ → S → S
  kill_orphan none s = s
  kill_orphan (some pid) s = (os.signal pid kill (os.sleep 1 (os.signal pid term s).1)).1

  abbrev pub on_probe : Watch → (S → Option S) → Bool × S → Option S
  on_probe watch go (true, s) = go (os.sleep 5 s)
  on_probe watch go (false, s) = some (kill_orphan watch.trace (kill_orphan watch.agent s))

  -- `none` if the rounds run out: the loop goes on for as long as the parent lives.
  unfoldable pub run_orphan_monitor : ℕ → Watch → S → Option S
  run_orphan_monitor zero watch s = none
  run_orphan_monitor (suc fuel) watch s =
      on_probe watch (λ s'. run_orphan_monitor fuel watch s') (os.signal watch.parent probe s)
