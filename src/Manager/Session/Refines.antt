-- ===== src/Manager/Session/Refines.antt =====
-- The session against the abstract view.
use libagent.Base.{
  ℕ, suc, ◌≤◌, ◌≡◌, refl, sym, ap, subst, inl, inr, false, Option, none, some, List, [], ◌∷◌, arith,
  on_true, on_false, length, length-append,
}
use libagent.Process.{ProcessSpec}
use libagent.Monitor.{Child, World}
use libagent.Shutdown.{Os}
use libagent.Shutdown.Waits.{IsClock}
use libagent.Manager.{AgentManager, Global, Stopped}
use libagent.Manager.Lifecycle.{StopsClean, stop_body-StopsClean}
use libagent.Monitor.Loop.{Pc, ended, System, advance, Reach, here, next, thread, stopping}
use libagent.Monitor.Loop.Progress.{advance_all, advance_all_stopped}
use libagent.Monitor.Loop.Invariant.{Invariant, Losses}
use libagent.Monitor.Loop.Invariant.Reached.{Reach-Invariant}
use libagent.Manager.Session.{
  Session, Event, initialized, stepped, found_ready, stopped, thread_of, step_thread, find_ready,
  after_stop, joined, stop_running, stop_session, handle,
}
use libagent.Manager.Session.Spec.{
  Phase, idle, running, phase_after, count_stop, HasSteps, IsIdle, IsRunning, IsPhase, Reaches,
}
use libagent.Manager.Session.Phases.{
  initialize_idle, initialize_running, step_running, step_idle, same_leaked, ready_leaks,
  ready_running, ready-IsIdle,
}

lost_by_ended :
    (pc : Pc) (mgr : AgentManager) (lost : List Child)
    → pc ≡ ended
    → Losses pc mgr lost
    → length lost ≤ 1
lost_by_ended pc mgr lost e h = elim (subst (λ q. Losses q mgr lost) e h) [
  | inl none_lost ↦ omega (arith, ap length none_lost)
  | inr p ↦ omega (arith, p.1)
]

module _ {F S : Type 0} (os : Child → Os S) (time : Child → S → ℕ)
    (clock : (c : Child) → IsClock (os c) (time c)) (interval : ℕ)
    (spawn : ProcessSpec → Option Child) where
  -- The steps that the thread takes before it is joined.
  advance_all-Reach :
      (s₀ s : System F) (ws : List World)
      → Reach interval s₀ s
      → Reach interval s₀ (advance_all interval spawn ws s)
  unfolding advance_all
  advance_all-Reach s₀ s [] r = r
  advance_all-Reach s₀ s (w ∷ ws) r =
      advance_all-Reach s₀ (advance interval w spawn s) ws (next r (thread w spawn refl))

  after_stop-Reaches :
      (n : ℕ) (sess : Session F S) (t : System F) (r : Stopped F S)
      → StopsClean r
      → length t.lost ≤ 1
      → length sess.leaked ≤ n
      → Reaches idle (suc n) (after_stop os interval spawn sess t r)
  after_stop-Reaches n sess t none h l k = h
  after_stop-Reaches n sess t (some (mgr, m, s)) h l k =
      (h, omega (arith, length-append t.lost sess.leaked))

  stop_running-Reaches :
      (n : ℕ) (ws : List World) (sess : Session F S) (mgr : AgentManager)
      → IsRunning mgr sess
      → 9 ≤ length ws
      → length sess.leaked ≤ n
      → Reaches idle (suc n) (stop_running os interval spawn ws mgr sess)
  unfolding stop_running
  stop_running-Reaches n ws sess mgr h p k =
      let s₀ = thread_of mgr sess in
      let s₁ = thread_of (record mgr { should_run = false }) sess in
      let t = advance_all interval spawn ws s₁ in
      let over : t.pc ≡ ended = advance_all_stopped interval spawn ws s₁ refl p in
      let inv : Invariant t =
        Reach-Invariant interval s₀ h.invariant
          (advance_all-Reach s₀ s₁ ws (next here (stopping refl))) in
      on_true (Reaches idle (suc n)) mgr.monitor_thread _ _ h.has_thread (
        subst (λ pc. Reaches idle (suc n) (joined os interval spawn sess t pc)) (sym over)
          (after_stop-Reaches n sess t _
            (stop_body-StopsClean os time clock t.manager t.metrics sess.system inv.unconfigured)
            (lost_by_ended t.pc t.manager t.lost over inv.losses) k))

  stop_idle :
      (n : ℕ) (ws : List World) (cell : Global) (sess : Session F S)
      → IsIdle cell
      → Reaches idle n (some sess)
      → Reaches idle n (stop_session os interval spawn ws cell sess)
  stop_idle n ws none sess h k = k
  stop_idle n ws (some mgr) sess h k = on_false (Reaches idle n) mgr.should_run _ _ h.stopped k

  handle_running :
      (n : ℕ) (e : Event) (sess : Session F S) (mgr : AgentManager)
      → IsRunning mgr sess
      → HasSteps e
      → length sess.leaked ≤ n
      → Reaches (phase_after e running) (count_stop e n) (handle os interval spawn e sess)
  handle_running n (initialized host w_agent w_trace) sess mgr h p k = (
    initialize_running os interval spawn host w_agent w_trace sess mgr h,
    same_leaked os interval spawn host w_agent w_trace n sess k,
  )
  handle_running n (stepped w) sess mgr h p k =
      subst (λ c. Reaches running n (some (step_thread os interval spawn w c sess))) (sym h.held)
        (
          step_running os interval spawn w sess mgr h,
          on_true (λ (q : Session F S). length q.leaked ≤ n) mgr.monitor_thread _ _ h.has_thread k,
        )
  handle_running n found_ready sess mgr h p k =
      subst (λ c. Reaches running n (some (find_ready os interval spawn c sess))) (sym h.held)
        (ready_running os interval spawn mgr.trace.child sess mgr h, k)
  handle_running n (stopped ws) sess mgr h p k =
      subst (λ c. Reaches idle (suc n) (stop_session os interval spawn ws c sess)) (sym h.held)
        (on_true (Reaches idle (suc n)) mgr.should_run _ _ h.runs
          (stop_running-Reaches n ws sess mgr h p k))

  handle_idle :
      (n : ℕ) (e : Event) (sess : Session F S)
      → IsIdle sess.cell
      → length sess.leaked ≤ n
      → Reaches (phase_after e idle) (count_stop e n) (handle os interval spawn e sess)
  handle_idle n (initialized host w_agent w_trace) sess h k = (
    initialize_idle os interval spawn host w_agent w_trace sess h,
    same_leaked os interval spawn host w_agent w_trace n sess k,
  )
  handle_idle n (stepped w) sess h k =
      subst (λ q. Reaches idle n (some q)) (sym (step_idle os interval spawn w sess.cell sess h))
        (h, k)
  handle_idle n found_ready sess h k = (
    ready-IsIdle os interval spawn sess.cell sess h refl,
    ready_leaks os interval spawn sess.cell n sess k,
  )
  handle_idle n (stopped ws) sess h k = stop_idle (suc n) ws sess.cell sess h (h, omega arith)

  pub handle-Reaches :
      (p : Phase) (n : ℕ) (e : Event) (sess : Session F S)
      → IsPhase p sess
      → HasSteps e
      → length sess.leaked ≤ n
      → Reaches (phase_after e p) (count_stop e n) (handle os interval spawn e sess)
  handle-Reaches idle n e sess h q k = handle_idle n e sess h k
  handle-Reaches running n e sess (mgr, h) q k = handle_running n e sess mgr h q k
