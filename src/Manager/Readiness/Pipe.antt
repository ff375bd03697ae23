-- ===== src/Manager/Readiness/Pipe.antt =====
-- manager.rs, the Windows build: waiting for the trace agent's pipe. The loop is that of the Unix
-- build, on the path of the pipe; opening the pipe takes the place of connecting to the socket.
use libagent.Base.{ℕ, ◌≡◌, refl, Bool, true, false, Option, none, some, ◌++◌, if◌then◌else◌}
use libagent.Text.{Bytes, starts_with, is_empty, pipe_prefix}
use libagent.Text.Spaces.{trim}
use libagent.Config.{Env, get_trace_agent_pipe_name}
use libagent.Monitor.{Child}
use libagent.Manager.{AgentManager}
use libagent.Manager.Readiness.{
  Probe, ready_timeout, wait_for_trace_agent_ready, after_wait, IsClock, EnsuresReady, Ended,
  wait_for_trace_agent_ready-Ended, after_wait-EnsuresReady,
}

unfoldable pub normalize_pipe_path : Bytes → Bytes
normalize_pipe_path pipe_name =
    if starts_with pipe_name pipe_prefix then pipe_name else pipe_prefix ++ pipe_name

-- `pipe_name.trim().is_empty()`.
abbrev pub is_blank : Bytes → Bool
is_blank name = is_empty (trim name)

module _ {S : Type 0} (probe : Probe S) (env : Env) where
  -- A pipe without a name is not waited for.
  unfoldable pub wait_for_pipe : ℕ → S → Option (Bool × S)
  wait_for_pipe timeout s =
      let name = get_trace_agent_pipe_name env in
      let waited = wait_for_trace_agent_ready probe (normalize_pipe_path name) timeout s in
      if is_blank name then some (false, s) else waited

  abbrev pub unless_pipe_absent :
      Bool → AgentManager → S → Option Child → Option (Bool × AgentManager × S)
  unless_pipe_absent debug mgr s none = some (true, mgr, s)
  unless_pipe_absent debug mgr s (some c) =
      after_wait probe (normalize_pipe_path (get_trace_agent_pipe_name env)) debug mgr
        (wait_for_pipe (ready_timeout debug) s)

  unfoldable pub ensure_pipe_ready : Bool → AgentManager → S → Option (Bool × AgentManager × S)
  ensure_pipe_ready debug mgr s =
      let checked = unless_pipe_absent debug mgr s mgr.trace.child in
      if mgr.trace_agent_ready then some (true, mgr, s) else checked

module _ {S : Type 0} (probe : Probe S) (env : Env) (time : S → ℕ)
    (clock : IsClock probe time) where
  abbrev path : Bytes
  path = normalize_pipe_path (get_trace_agent_pipe_name env)

  if-Ended :
      (b : Bool) (x y : Option (Bool × S))
      → Ended probe path time clock x
      → Ended probe path time clock y
      → Ended probe path time clock (if b then x else y)
  if-Ended true x y h k = h
  if-Ended false x y h k = k

  unless_pipe_absent-EnsuresReady :
      (debug : Bool) (mgr : AgentManager) (s : S) (child : Option Child)
      → mgr.trace.child ≡ child
      → EnsuresReady debug mgr (unless_pipe_absent probe env debug mgr s child)
  unfolding wait_for_pipe
  unless_pipe_absent-EnsuresReady debug mgr s none h = (λ c e. absurd (cc (h, e)), refl)
  unless_pipe_absent-EnsuresReady debug mgr s (some c) h =
      after_wait-EnsuresReady probe path time clock debug mgr _ (
        if-Ended (is_blank (get_trace_agent_pipe_name env)) _ _ tt
          (wait_for_trace_agent_ready-Ended probe path time clock (ready_timeout debug) s))

  -- The check before a request over the pipe ends, however the pipe answers, when the clock goes on.
  -- If it is `Ok` and a trace agent was spawned, the readiness flag is set afterwards; it fails in a
  -- release build only, and then leaves the manager alone. It changes no more than the flag.
  pub ensure_pipe_ready-EnsuresReady :
      (debug : Bool) (mgr : AgentManager) (s : S)
      → EnsuresReady debug mgr (ensure_pipe_ready probe env debug mgr s)
  unfolding ensure_pipe_ready
  ensure_pipe_ready-EnsuresReady debug mgr s = branch mgr.trace_agent_ready refl
    where
      branch :
          (b : Bool)
          → mgr.trace_agent_ready ≡ b
          → EnsuresReady debug mgr (
              if b
              then some (true, mgr, s)
              else unless_pipe_absent probe env debug mgr s mgr.trace.child)
      branch true e = (λ c h. e, refl)
      branch false e = unless_pipe_absent-EnsuresReady debug mgr s mgr.trace.child refl
