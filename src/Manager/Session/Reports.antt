-- ===== src/Manager/Session/Reports.antt =====
-- `GetMetrics` of ffi.rs after a run.
use libagent.Base.{
  ℕ, ◌-◌, ◌≤◌, ◌≡◌, refl, sym, ap, ◌∙◌, subst, Bool, true, false, Option, none, some, List, [], ◌∷◌,
  arith, if◌then◌else◌, on_true, on_false, length, All,
}
use libagent.Process.{ProcessSpec}
use libagent.Metrics.{Floats, Metrics, uptime}
use libagent.Monitor.{Child, World}
use libagent.Monitor.Uptime.{advance-SameTime}
use libagent.Shutdown.{Os}
use libagent.Shutdown.Waits.{IsClock}
use libagent.Manager.{AgentManager, Host, Global, manager_cell}
use libagent.Manager.Lifecycle.{initialize_in-running}
use libagent.Monitor.Loop.{advance}
use libagent.Ffi.Report.{seconds_or_zero, get_metrics}
use libagent.Manager.Session.{
  Session, Event, initialized, stepped, found_ready, stopped, thread_of, with_thread,
  initialize_session, step_thread, find_ready, stop_running, stop_session, handle, and_then, run,
}
use libagent.Manager.Session.Spec.{
  Phase, phase_after, count_stop, HasSteps, IsIdle, IsRunning, IsPhase, Reaches,
}
use libagent.Manager.Session.Phases.{idle_stopped}
use libagent.Manager.Session.Refines.{handle-Reaches}
use libagent.Manager.Session.Uptime.{
  phase_of, time_after, time_of_run, Timed, TimedAfter, initialize_in_time, stop_running-Timed,
}

-- The uptime that a report gives at every later time: zero, or the time since the instant.
abbrev pub ReportsUptime :
    {F S : Type 0} → Floats F → (ℕ → F) → Option ℕ → Option (Session F S) → Type 0
ReportsUptime floats as_secs o none = ⊥
ReportsUptime floats as_secs none (some sess) =
    (now : ℕ) → (get_metrics floats as_secs now sess.metrics).uptime_seconds ≡ floats.zero_float
ReportsUptime floats as_secs (some t) (some sess) =
    (now : ℕ) → (get_metrics floats as_secs now sess.metrics).uptime_seconds ≡ as_secs (now - t)

phase_of-time_after :
    (e : Event) (o : Option ℕ) → phase_after e (phase_of o) ≡ phase_of (time_after e o)
phase_of-time_after (initialized host w_agent w_trace) none = refl
phase_of-time_after (initialized host w_agent w_trace) (some t) = refl
phase_of-time_after (stepped w) o = refl
phase_of-time_after found_ready o = refl
phase_of-time_after (stopped ws) o = refl

module _ {F S : Type 0} (os : Child → Os S) (interval : ℕ)
    (spawn : ProcessSpec → Option Child) where
  either_metrics :
      (o : Option ℕ) (b : Bool) (x y : Session F S)
      → Timed o x.metrics
      → Timed o y.metrics
      → Timed o (if b then x else y).metrics
  either_metrics o true x y h k = h
  either_metrics o false x y h k = k

  initialize_idle-Timed :
      (host : Host) (w_agent w_trace : World) (sess : Session F S)
      → IsIdle sess.cell
      → Timed
          (some w_agent.now)
          (initialize_session os interval spawn host w_agent w_trace sess).metrics
  unfolding initialize_session
  initialize_idle-Timed host w_agent w_trace sess h =
      let e = idle_stopped host sess.cell h in
      on_false (λ (q : Session F S). Timed (some w_agent.now) q.metrics)
        (manager_cell host sess.cell).should_run _ _ e
        (initialize_in_time spawn host w_agent w_trace (manager_cell host sess.cell) sess.metrics e)

  initialize_running-Timed :
      (host : Host) (w_agent w_trace : World) (sess : Session F S) (mgr : AgentManager)
      (o : Option ℕ)
      → IsRunning mgr sess
      → Timed o sess.metrics
      → Timed o (initialize_session os interval spawn host w_agent w_trace sess).metrics
  unfolding initialize_session manager_cell
  initialize_running-Timed host w_agent w_trace sess mgr o h k =
      let current = manager_cell host sess.cell in
      let e : current.should_run ≡ true =
        ap (λ c. (manager_cell host c).should_run) h.held ∙ h.runs in
      on_true (λ (q : Session F S). Timed o q.metrics) current.should_run _ _ e
        (subst (λ (q : AgentManager × Metrics F). Timed o q.1)
          (sym (initialize_in-running spawn host w_agent w_trace current sess.metrics e)) k)

  step_thread-Timed :
      (o : Option ℕ) (w : World) (cell : Global) (sess : Session F S)
      → Timed o sess.metrics
      → Timed o (step_thread os interval spawn w cell sess).metrics
  step_thread-Timed o w none sess k = k
  step_thread-Timed o w (some mgr) sess k =
      let t = thread_of mgr sess in
      either_metrics o mgr.monitor_thread (with_thread sess (advance interval w spawn t)) sess
        (advance-SameTime interval w spawn t ∙ k) k

  find_ready-Timed :
      (o : Option ℕ) (cell : Global) (sess : Session F S)
      → Timed o sess.metrics
      → Timed o (find_ready os interval spawn cell sess).metrics
  find_ready-Timed o none sess k = k
  find_ready-Timed o (some mgr) sess k = k

  stop_session-Timed :
      (ws : List World) (cell : Global) (sess : Session F S)
      → IsIdle cell
      → Timed none sess.metrics
      → TimedAfter none (stop_session os interval spawn ws cell sess)
  stop_session-Timed ws none sess h k = k
  stop_session-Timed ws (some mgr) sess h k =
      on_false (TimedAfter none) mgr.should_run (stop_running os interval spawn ws mgr sess)
        (some sess) h.stopped k

  handle-Timed :
      (o : Option ℕ) (e : Event) (sess : Session F S)
      → IsPhase (phase_of o) sess
      → Timed o sess.metrics
      → TimedAfter (time_after e o) (handle os interval spawn e sess)
  handle-Timed none (initialized host w_agent w_trace) sess h k =
      initialize_idle-Timed host w_agent w_trace sess h
  handle-Timed (some t) (initialized host w_agent w_trace) sess (mgr, h) k =
      initialize_running-Timed host w_agent w_trace sess mgr (some t) h k
  handle-Timed o (stepped w) sess h k = step_thread-Timed o w sess.cell sess k
  handle-Timed o found_ready sess h k = find_ready-Timed o sess.cell sess k
  handle-Timed none (stopped ws) sess h k = stop_session-Timed ws sess.cell sess h k
  handle-Timed (some t) (stopped ws) sess (mgr, h) k =
      subst (λ c. TimedAfter none (stop_session os interval spawn ws c sess)) (sym h.held)
        (on_true (TimedAfter none) mgr.should_run _ _ h.runs
          (stop_running-Timed os interval spawn ws mgr sess))

module _ {F S : Type 0} (os : Child → Os S) (time : Child → S → ℕ)
    (clock : (c : Child) → IsClock (os c) (time c)) (interval : ℕ)
    (spawn : ProcessSpec → Option Child) (floats : Floats F) (as_secs : ℕ → F) where
  Timed-ReportsUptime :
      (o : Option ℕ) (sess : Session F S)
      → Timed o sess.metrics
      → ReportsUptime floats as_secs o (some sess)
  unfolding get_metrics seconds_or_zero uptime
  Timed-ReportsUptime none sess h = λ now. rw h refl
  Timed-ReportsUptime (some t) sess h = λ now. rw h refl

  and_then-ReportsUptime :
      (p : Phase) (o q : Option ℕ) (n : ℕ) (r : Option (Session F S))
      (go : Session F S → Option (Session F S))
      → Reaches p n r
      → TimedAfter o r
      → ((sess : Session F S)
          → IsPhase p sess
          → length sess.leaked ≤ n
          → Timed o sess.metrics
          → ReportsUptime floats as_secs q (go sess))
      → ReportsUptime floats as_secs q (and_then os interval spawn r go)
  and_then-ReportsUptime p o q n none go h t k = absurd h
  and_then-ReportsUptime p o q n (some sess) go (h, l) t k = k sess h l t

  reports_from :
      (es : List Event) (o : Option ℕ) (n : ℕ) (sess : Session F S)
      → IsPhase (phase_of o) sess
      → length sess.leaked ≤ n
      → Timed o sess.metrics
      → All HasSteps es
      → ReportsUptime floats as_secs (time_of_run es o) (run os interval spawn es sess)
  unfolding run
  reports_from [] o n sess h l t steps = Timed-ReportsUptime o sess t
  reports_from (e ∷ es) o n sess h l t (q, steps) =
      and_then-ReportsUptime (phase_after e (phase_of o)) (time_after e o)
        (time_of_run es (time_after e o)) (count_stop e n) (handle os interval spawn e sess)
        (λ s. run os interval spawn es s)
        (handle-Reaches os time clock interval spawn (phase_of o) n e sess h q l)
        (handle-Timed os interval spawn o e sess h t)
        (λ s h' l' t'.
          reports_from es (time_after e o) (count_stop e n) s
            (subst (λ p. IsPhase p s) (phase_of-time_after e o) h') l' t' steps)

  -- The report for C tells for how long the library has run: after any calls of `initialize` and `stop`,
  -- with steps of the monitor thread and proxy calls in between, the run comes to an end, and the uptime
  -- is zero if the last of these calls was a `stop` or there was none; else it is the time since the
  -- first `initialize` behind the last `stop`. The clock goes on while `stop` sleeps, the thread may take
  -- nine steps in it, and the program starts without a manager and without a recorded time.
  pub run-ReportsUptime :
      (es : List Event) (sess : Session F S)
      → sess.cell ≡ none
      → sess.metrics.initialization_time ≡ none
      → All HasSteps es
      → ReportsUptime floats as_secs (time_of_run es none) (run os interval spawn es sess)
  run-ReportsUptime es sess none_yet no_time steps =
      reports_from es none (length sess.leaked) sess (subst IsIdle (sym none_yet) tt) (omega arith)
        no_time steps
