-- ===== src/Manager/Session/Phases.antt =====
-- The phases through `initialize`, a step of the thread and a proxy call.
use libagent.Base.{
  ℕ, ◌≤◌, ◌≡◌, refl, sym, ap, ◌∙◌, subst, inl, inr, true, false, Option, none, some, List, [],
  if◌then◌else◌, Bool-cases, on_true, on_false, length,
}
use libagent.Process.{ProcessSpec}
use libagent.Metrics.{Metrics}
use libagent.Monitor.{Child, World}
use libagent.Shutdown.{Os}
use libagent.Manager.{AgentManager, Host, Global, new, initialize_in, manager_cell}
use libagent.Manager.Invariant.{
  IsClean, IsSound, new-IsSound, initialize_in-IsSound, fresh_slot-IsValid,
}
use libagent.Manager.Lifecycle.{initialize_in-running, initialize_in_runs}
use libagent.Monitor.Backoff.{IsValid}
use libagent.Monitor.Loop.{Pc, at_loop, advance}
use libagent.Monitor.Loop.Flags.{advance-SameFlags}
use libagent.Monitor.Loop.Invariant.{InvariantAt, moved}
use libagent.Monitor.Loop.Invariant.Phases.{advance-Invariant}
use libagent.Monitor.Loop.Invariant.Reached.{IsSound-Invariant, readied-Losses}
use libagent.Manager.Session.{
  Session, thread_of, with_thread, ready_if, initialize_session, step_thread, find_ready,
}
use libagent.Manager.Session.Spec.{running, IsIdle, IsRunning, IsPhase}

IsClean-IsSound : (mgr : AgentManager) → IsClean mgr → IsSound mgr
IsClean-IsSound mgr h = record {
  clean = λ e. h;
  thread = λ e. absurd (cc (e, h.stopped));
  agent_valid = subst IsValid (sym h.agent_fresh) fresh_slot-IsValid;
  trace_valid = subst IsValid (sym h.trace_fresh) fresh_slot-IsValid;
  unconfigured = λ e. ap (λ slot. slot.child) h.agent_fresh;
}

idle-IsSound : (host : Host) (cell : Global) → IsIdle cell → IsSound (manager_cell host cell)
unfolding manager_cell
idle-IsSound host none h = new-IsSound host
idle-IsSound host (some mgr) h = IsClean-IsSound mgr h

pub idle_stopped :
    (host : Host) (cell : Global) → IsIdle cell → (manager_cell host cell).should_run ≡ false
unfolding manager_cell new
idle_stopped host none h = refl
idle_stopped host (some mgr) h = h.stopped

readied_invariant :
    (pc : Pc) (mgr : AgentManager) (lost : List Child)
    → InvariantAt pc mgr lost
    → InvariantAt pc (record mgr { trace_agent_ready = true }) lost
readied_invariant pc mgr lost h =
    moved pc pc mgr mgr.should_run true lost lost h (λ d. d) (λ d. d)
      (readied-Losses pc mgr lost h.losses)

module _ {F S : Type 0} (os : Child → Os S) (interval : ℕ)
    (spawn : ProcessSpec → Option Child) where
  pub initialize_idle :
      (host : Host) (w_agent w_trace : World) (sess : Session F S)
      → IsIdle sess.cell
      → IsPhase running (initialize_session os interval spawn host w_agent w_trace sess)
  unfolding initialize_session
  initialize_idle host w_agent w_trace sess h =
      let current = manager_cell host sess.cell in
      let (mgr, m) = initialize_in host w_agent w_trace spawn current sess.metrics in
      let sound =
        initialize_in-IsSound spawn host w_agent w_trace current sess.metrics
          (idle-IsSound host sess.cell h) in
      let runs = initialize_in_runs spawn host w_agent w_trace current sess.metrics in
      on_false (IsPhase running) current.should_run _ _ (idle_stopped host sess.cell h) (
        mgr,
        record {
          held = refl;
          runs = runs;
          has_thread = sound.thread runs;
          invariant = IsSound-Invariant mgr m sound;
        },
      )

  pub initialize_running :
      (host : Host) (w_agent w_trace : World) (sess : Session F S) (mgr : AgentManager)
      → IsRunning mgr sess
      → IsPhase running (initialize_session os interval spawn host w_agent w_trace sess)
  unfolding initialize_session manager_cell
  initialize_running host w_agent w_trace sess mgr h =
      subst
        (λ (c : Global).
          let current = manager_cell host c in
          let p = initialize_in host w_agent w_trace spawn current sess.metrics in
          IsPhase running (
            if current.should_run
            then record sess { cell = some p.0; metrics = p.1 }
            else record sess { cell = some p.0; metrics = p.1; pc = at_loop; lost = [] }))
        (sym h.held) (on_true (IsPhase running) mgr.should_run _ _ h.runs (kept _ same))
    where
      same : initialize_in host w_agent w_trace spawn mgr sess.metrics ≡ (mgr, sess.metrics)
      same = initialize_in-running spawn host w_agent w_trace mgr sess.metrics h.runs

      kept :
          (p : AgentManager × Metrics F)
          → p ≡ (mgr, sess.metrics)
          → IsPhase running (record sess { cell = some p.0; metrics = p.1 })
      kept p e = (
        mgr,
        record {
          held = ap (λ (q : AgentManager × Metrics F). some q.0) e;
          runs = h.runs;
          has_thread = h.has_thread;
          invariant = h.invariant;
        },
      )

  pub step_running :
      (w : World) (sess : Session F S) (mgr : AgentManager)
      → IsRunning mgr sess
      → IsPhase running (step_thread os interval spawn w (some mgr) sess)
  step_running w sess mgr h =
      let t = advance interval w spawn (thread_of mgr sess) in
      let (runs, has) = advance-SameFlags interval w spawn (thread_of mgr sess) in
      on_true (IsPhase running) mgr.monitor_thread (with_thread sess t) sess h.has_thread (
        t.manager,
        record {
          held = refl;
          runs = runs ∙ h.runs;
          has_thread = has ∙ h.has_thread;
          invariant = advance-Invariant interval w spawn (thread_of mgr sess) h.invariant;
        },
      )

  pub step_idle :
      (w : World) (cell : Global) (sess : Session F S)
      → IsIdle cell
      → step_thread os interval spawn w cell sess ≡ sess
  step_idle w none sess h = refl
  step_idle w (some mgr) sess h = on_false (λ q. q ≡ sess) mgr.monitor_thread _ _ h.no_thread refl

  pub same_leaked :
      (host : Host) (w_agent w_trace : World) (n : ℕ) (sess : Session F S)
      → length sess.leaked ≤ n
      → length (initialize_session os interval spawn host w_agent w_trace sess).leaked ≤ n
  unfolding initialize_session
  same_leaked host w_agent w_trace n sess k =
      elim (Bool-cases (manager_cell host sess.cell).should_run) [
        | inl e ↦ on_true (λ (q : Session F S). length q.leaked ≤ n) _ _ _ e k
        | inr e ↦ on_false (λ (q : Session F S). length q.leaked ≤ n) _ _ _ e k
      ]

  pub ready_leaks :
      (cell : Global) (n : ℕ) (sess : Session F S)
      → length sess.leaked ≤ n
      → length (find_ready os interval spawn cell sess).leaked ≤ n
  ready_leaks none n sess k = k
  ready_leaks (some mgr) n sess k = k

  -- A proxy call that finds the agent ready changes neither phase.
  pub ready_running :
      (child : Option Child) (sess : Session F S) (mgr : AgentManager)
      → IsRunning mgr sess
      → IsPhase running (record sess { cell = some (ready_if child mgr) })
  ready_running none sess mgr h = (
    mgr,
    record { held = refl; runs = h.runs; has_thread = h.has_thread; invariant = h.invariant },
  )
  ready_running (some c) sess mgr h = (
    record mgr { trace_agent_ready = true },
    record {
      held = refl;
      runs = h.runs;
      has_thread = h.has_thread;
      invariant = readied_invariant sess.pc mgr sess.lost h.invariant;
    },
  )

  pub ready-IsIdle :
      (cell : Global) (sess : Session F S)
      → IsIdle cell
      → sess.cell ≡ cell
      → IsIdle (find_ready os interval spawn cell sess).cell
  ready-IsIdle none sess h e = subst IsIdle (sym e) tt
  ready-IsIdle (some mgr) sess h e =
      no_child mgr.trace.child (ap (λ slot. slot.child) h.trace_fresh)
    where
      no_child : (child : Option Child) → child ≡ none → IsClean (ready_if child mgr)
      no_child none q = h
      no_child (some c) q = absurd (cc)
