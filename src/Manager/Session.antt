-- ===== src/Manager/Session.antt =====
-- manager.rs and monitor.rs together: the calls of a program that uses the library, and the monitor
-- thread between them. `initialize` spawns the thread, and `stop` clears the flag, waits for the thread
-- to end, and then kills the children.
pub mod Spec
pub mod Phases
pub mod Refines
pub mod Uptime
pub mod Reports
use libagent.Base.{ℕ, true, false, Option, none, some, List, [], ◌∷◌, ◌++◌, if◌then◌else◌}
use libagent.Process.{ProcessSpec}
use libagent.Metrics.{Metrics}
use libagent.Monitor.{Child, World}
use libagent.Shutdown.{Os}
use libagent.Manager.{AgentManager, Host, Global, Stopped, stop_body, initialize_in, manager_cell}
use libagent.Monitor.Loop.{Pc, at_loop, ended, System, advance}
use libagent.Monitor.Loop.Progress.{advance_all}

-- The global cell, the metrics and the operating system; where the monitor thread stands and what it
-- has lost; and what the threads before it have lost.
pub record Session (F S : Type 0) : Type 0 where
  pub cell : Global
  pub metrics : Metrics F
  pub pc : Pc
  pub lost : List Child
  pub leaked : List Child
  pub system : S

-- `initialize` and `stop` of the module, a step of the thread, and a proxy call that finds the trace
-- agent ready. The worlds are those that the two ticks, or the steps of the thread, meet.
pub data Event : Type 0 where
  initialized : Host → World → World → Event
  stepped : World → Event
  found_ready : Event
  stopped : List World → Event

-- The manager with its thread.
abbrev pub thread_of : {F S : Type 0} → AgentManager → Session F S → System F
thread_of mgr sess = record {
  manager = mgr;
  metrics = sess.metrics;
  pc = sess.pc;
  lost = sess.lost;
}

abbrev pub with_thread : {F S : Type 0} → Session F S → System F → Session F S
with_thread sess t = record sess {
  cell = some t.manager;
  metrics = t.metrics;
  pc = t.pc;
  lost = t.lost;
}

-- The readiness flag is set only where there is a child.
abbrev pub ready_if : Option Child → AgentManager → AgentManager
ready_if none mgr = mgr
ready_if (some c) mgr = record mgr { trace_agent_ready = true }

module _ {F S : Type 0} (os : Child → Os S) (interval : ℕ)
    (spawn : ProcessSpec → Option Child) where
  -- A running manager is kept with its thread, and a new one gets a new thread.
  unfoldable pub initialize_session : Host → World → World → Session F S → Session F S
  initialize_session host w_agent w_trace sess =
      let current = manager_cell host sess.cell in
      let (mgr, m) = initialize_in host w_agent w_trace spawn current sess.metrics in
      let begun = record sess { cell = some mgr; metrics = m; pc = at_loop; lost = [] } in
      if current.should_run then record sess { cell = some mgr; metrics = m } else begun

  abbrev pub step_thread : World → Global → Session F S → Session F S
  step_thread w none sess = sess
  step_thread w (some mgr) sess =
      let t = advance interval w spawn (thread_of mgr sess) in
      if mgr.monitor_thread then with_thread sess t else sess

  abbrev pub find_ready : Global → Session F S → Session F S
  find_ready none sess = sess
  find_ready (some mgr) sess = record sess { cell = some (ready_if mgr.trace.child mgr) }

  -- What is killed once the thread was joined; what the thread lost stays lost.
  abbrev pub after_stop : Session F S → System F → Stopped F S → Option (Session F S)
  after_stop sess t none = none
  after_stop sess t (some (mgr, m, s)) = some (record sess {
    cell = some mgr;
    metrics = m;
    pc = ended;
    lost = [];
    leaked = t.lost ++ sess.leaked;
    system = s;
  })

  -- `handle.join()`: it waits for a thread that has not ended, here in vain.
  abbrev pub joined : Session F S → System F → Pc → Option (Session F S)
  joined sess t ended = after_stop sess t (stop_body os t.manager t.metrics sess.system)
  joined sess t pc = none

  -- The flag is swapped, the thread, if there is one, goes on until it ends, and the children are killed.
  unfoldable pub stop_running : List World → AgentManager → Session F S → Option (Session F S)
  stop_running ws mgr sess =
      let s = thread_of (record mgr { should_run = false }) sess in
      let t = advance_all interval spawn ws s in
      let done = joined sess t t.pc in
      if mgr.monitor_thread
      then done
      else after_stop sess s (stop_body os s.manager s.metrics sess.system)

  abbrev pub stop_session : List World → Global → Session F S → Option (Session F S)
  stop_session ws none sess = some sess
  stop_session ws (some mgr) sess =
      let done = stop_running ws mgr sess in if mgr.should_run then done else some sess

  abbrev pub handle : Event → Session F S → Option (Session F S)
  handle (initialized host w_agent w_trace) sess =
      some (initialize_session host w_agent w_trace sess)
  handle (stepped w) sess = some (step_thread w sess.cell sess)
  handle found_ready sess = some (find_ready sess.cell sess)
  handle (stopped ws) sess = stop_session ws sess.cell sess

  abbrev pub and_then :
      Option (Session F S) → (Session F S → Option (Session F S)) → Option (Session F S)
  and_then none k = none
  and_then (some sess) k = k sess

  -- A run of the program; `none` if a wait ran out of rounds.
  unfoldable pub run : List Event → Session F S → Option (Session F S)
  run [] sess = some sess
  run (e ∷ es) sess = and_then (handle e sess) (λ sess'. run es sess')
