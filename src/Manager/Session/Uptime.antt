-- ===== src/Manager/Session/Uptime.antt =====
-- The uptime that `GetMetrics` of ffi.rs reports over a run: `start` of manager.rs records the time of
-- the initialization, and `stop` clears it.
use libagent.Base.{
  ℕ, ◌≡◌, refl, ◌∙◌, Bool, true, false, Option, none, some, List, [], ◌∷◌, if◌then◌else◌, on_false,
}
use libagent.Process.{ProcessSpec}
use libagent.Metrics.{Metrics, record_initialization, clear_initialization}
use libagent.Monitor.{Child, Slot, World}
use libagent.Monitor.Uptime.{SameTime, tick_process-SameTime}
use libagent.Shutdown.{Os}
use libagent.Manager.{
  AgentManager, Host, Stopped, new, reset_trace_agent_readiness, reset_backoff_state, tick_agent,
  tick_trace, start_body, start, kill_agent, kill_trace, stop_end, after_agent, stop_body,
  initialize_in, spawn_process,
}
use libagent.Monitor.Loop.{
  Pc, at_loop, ended, agent_checked, checked, agent_spawned, spawned, agent_committed, committed,
  computing, sleeping, System,
}
use libagent.Monitor.Loop.Progress.{advance_all}
use libagent.Manager.Session.{
  Session, Event, initialized, stepped, found_ready, stopped, thread_of, after_stop, joined,
  stop_running,
}
use libagent.Manager.Session.Spec.{Phase, idle, running}

-- The abstract view: the instant of the initialization, while the library runs.
abbrev pub phase_of : Option ℕ → Phase
phase_of none = idle
phase_of (some t) = running

-- An `initialize` sets it where there is none, and a `stop` clears it.
abbrev pub time_after : Event → Option ℕ → Option ℕ
time_after (initialized host w_agent w_trace) none = some w_agent.now
time_after (initialized host w_agent w_trace) (some t) = some t
time_after (stepped w) o = o
time_after found_ready o = o
time_after (stopped ws) o = none

abbrev pub time_of_run : List Event → Option ℕ → Option ℕ
time_of_run [] o = o
time_of_run (e ∷ es) o = time_of_run es (time_after e o)

abbrev pub Timed : {F : Type 0} → Option ℕ → Metrics F → Type 0
Timed o m = m.initialization_time ≡ o

abbrev pub TimedAfter : {F S : Type 0} → Option ℕ → Option (Session F S) → Type 0
TimedAfter o none = Unit
TimedAfter o (some sess) = Timed o sess.metrics

-- What was stopped keeps no time.
abbrev Cleared : {F S : Type 0} → Stopped F S → Type 0
Cleared none = Unit
Cleared (some (mgr, m, s)) = m.initialization_time ≡ none

module _ {F : Type 0} (spawn : ProcessSpec → Option Child) where
  tick_agent-SameTime :
      (spec : Option ProcessSpec) (w : World) (mgr : AgentManager) (m : Metrics F)
      → SameTime m (tick_agent spec w spawn mgr m).1
  unfolding tick_agent
  tick_agent-SameTime none w mgr m = refl
  tick_agent-SameTime (some spec) w mgr m =
      tick_process-SameTime w spec (spawn_process spawn) mgr.agent m mgr.trace_agent_ready

  start_body_time :
      (w_agent w_trace : World) (mgr : AgentManager) (m : Metrics F)
      → (start_body w_agent w_trace spawn mgr m).1.initialization_time ≡ some w_agent.now
  unfolding start_body tick_trace record_initialization
  start_body_time w_agent w_trace mgr m =
      let mgr₁ =
        reset_trace_agent_readiness (reset_backoff_state (record mgr { should_run = true })) in
      let (mgr₂, m₂) =
        tick_agent mgr₁.agent_spec w_agent spawn mgr₁
          (record m { initialization_time = some w_agent.now }) in
      tick_process-SameTime w_trace mgr₂.trace_spec (spawn_process spawn) mgr₂.trace m₂
        mgr₂.trace_agent_ready
      ∙ tick_agent-SameTime mgr₁.agent_spec w_agent mgr₁
          (record m { initialization_time = some w_agent.now })

  -- A manager that does not run is replaced by a new one, which is started.
  pub initialize_in_time :
      (host : Host) (w_agent w_trace : World) (current : AgentManager) (m : Metrics F)
      → current.should_run ≡ false
      → (initialize_in host w_agent w_trace spawn current m).1.initialization_time
        ≡ some w_agent.now
  unfolding initialize_in start new
  initialize_in_time host w_agent w_trace current m e =
      on_false (λ (q : AgentManager × Metrics F). q.1.initialization_time ≡ some w_agent.now)
        current.should_run (current, m) _ e (start_body_time w_agent w_trace (new host) m)

module _ {F S : Type 0} (os : Child → Os S) where
  stop_body-Cleared : (mgr : AgentManager) (m : Metrics F) (s : S) → Cleared (stop_body os mgr m s)
  unfolding stop_body stop_end clear_initialization
  stop_body-Cleared mgr m s = agent (kill_agent os mgr.agent_spec mgr.agent s)
    where
      trace :
          (slot : Slot) (r : Option (Slot × S))
          → Cleared (elim r [ none ↦ none | some (t, s') ↦ some (stop_end mgr m slot t s') ])
      trace slot none = tt
      trace slot (some (t, s')) = refl

      agent : (r : Option (Slot × S)) → Cleared (after_agent os mgr m r)
      agent none = tt
      agent (some (slot, s')) = trace slot (kill_trace os mgr.trace s')

module _ {F S : Type 0} (os : Child → Os S) (interval : ℕ)
    (spawn : ProcessSpec → Option Child) where
  after_stop-Timed :
      (sess : Session F S) (t : System F) (r : Stopped F S)
      → Cleared r
      → TimedAfter none (after_stop os interval spawn sess t r)
  after_stop-Timed sess t none h = tt
  after_stop-Timed sess t (some (mgr, m, s)) h = h

  joined-Timed :
      (sess : Session F S) (t : System F) (pc : Pc)
      → TimedAfter none (joined os interval spawn sess t pc)
  joined-Timed sess t ended =
      after_stop-Timed sess t _ (stop_body-Cleared os t.manager t.metrics sess.system)
  joined-Timed sess t at_loop = tt
  joined-Timed sess t (agent_checked d) = tt
  joined-Timed sess t (checked a d) = tt
  joined-Timed sess t (agent_spawned r d) = tt
  joined-Timed sess t (spawned r q) = tt
  joined-Timed sess t (agent_committed b r) = tt
  joined-Timed sess t (committed b) = tt
  joined-Timed sess t computing = tt
  joined-Timed sess t (sleeping d) = tt

  either_after :
      (o : Option ℕ) (b : Bool) (x y : Option (Session F S))
      → TimedAfter o x
      → TimedAfter o y
      → TimedAfter o (if b then x else y)
  either_after o true x y h k = h
  either_after o false x y h k = k

  pub stop_running-Timed :
      (ws : List World) (mgr : AgentManager) (sess : Session F S)
      → TimedAfter none (stop_running os interval spawn ws mgr sess)
  unfolding stop_running
  stop_running-Timed ws mgr sess =
      let s = thread_of (record mgr { should_run = false }) sess in
      let t = advance_all interval spawn ws s in
      either_after none mgr.monitor_thread _ _ (joined-Timed sess t t.pc)
        (after_stop-Timed sess s _ (stop_body-Cleared os s.manager s.metrics sess.system))
