-- ===== src/Manager/Lifecycle.antt =====
-- The life of the manager: what starting and stopping do, and that doing either twice does no more.
use libagent.Base.{
  ℕ, ◌≡◌, refl, ap, ◌∙◌, inl, inr, Bool, true, false, Option, none, some, List, if◌then◌else◌,
  Bool-cases,
}
use libagent.Process.{ProcessSpec}
use libagent.Metrics.{Metrics}
use libagent.Monitor.{Child, Slot, World}
use libagent.Shutdown.{Os, Signal, Progress, emptied, kill_child, graceful_kill}
use libagent.Shutdown.Waits.{IsClock, IsDone}
use libagent.Shutdown.Escalation.{kill_child-IsDone}
use libagent.Manager.{
  AgentManager, Host, fresh_slot, new, reset_trace_agent_readiness, reset_slot, tick_agent,
  tick_trace, reset_backoff_state, start_body, start, Stopped, kill_agent, kill_trace, stop_end,
  after_agent, stop_body, stop, Global, initialize_in, manager_cell, initialize, put_back,
}
use libagent.Manager.Invariant.{IsClean, IsSound}

if_true : {A : Type 0} (b : Bool) (x y : A) → b ≡ true → (if b then x else y) ≡ x
if_true true x y e = refl
if_true false x y e = absurd cc

if_false : {A : Type 0} (b : Bool) (x y : A) → b ≡ false → (if b then x else y) ≡ y
if_false true x y e = absurd cc
if_false false x y e = refl

-- Equal managers run or not alike.
run_of : {F : Type 0} {p q : AgentManager × Metrics F} → p ≡ q → p.0.should_run ≡ q.0.should_run
run_of e = ap (λ (p : AgentManager × Metrics _). p.0.should_run) e

module _ {F : Type 0} (spawn : ProcessSpec → Option Child) where
  start-running :
      (w_agent w_trace : World) (mgr : AgentManager) (m : Metrics F)
      → mgr.should_run ≡ true
      → start w_agent w_trace spawn mgr m ≡ (mgr, m)
  unfolding start
  start-running w_agent w_trace mgr m e = if_true mgr.should_run _ _ e

  tick_agent_run :
      (spec : Option ProcessSpec) (w : World) (mgr : AgentManager) (m : Metrics F)
      → (tick_agent spec w spawn mgr m).0.should_run ≡ mgr.should_run
  unfolding tick_agent
  tick_agent_run none w mgr m = refl
  tick_agent_run (some spec) w mgr m = refl

  start_body-running :
      (w_agent w_trace : World) (mgr : AgentManager) (m : Metrics F)
      → (start_body w_agent w_trace spawn mgr m).0.should_run ≡ true
  unfolding start_body tick_trace reset_trace_agent_readiness reset_backoff_state
  start_body-running w_agent w_trace mgr m =
      tick_agent_run mgr.agent_spec w_agent
        (record mgr {
          should_run = true;
          agent = reset_slot mgr.agent;
          trace = reset_slot mgr.trace;
          trace_agent_ready = false;
        })
        _

  -- After a start the manager runs.
  pub start_runs :
      (w_agent w_trace : World) (mgr : AgentManager) (m : Metrics F)
      → (start w_agent w_trace spawn mgr m).0.should_run ≡ true
  start_runs w_agent w_trace mgr m = elim (Bool-cases mgr.should_run) [
    | inl e ↦ run_of (start-running w_agent w_trace mgr m e) ∙ e
    | inr e ↦
        unfold start in
        run_of (if_false mgr.should_run _ _ e) ∙ start_body-running w_agent w_trace mgr m
  ]

  pub initialize_in-running :
      (host : Host) (w_agent w_trace : World) (current : AgentManager) (m : Metrics F)
      → current.should_run ≡ true
      → initialize_in host w_agent w_trace spawn current m ≡ (current, m)
  unfolding initialize_in
  initialize_in-running host w_agent w_trace current m e = if_true current.should_run _ _ e

  pub initialize_in_runs :
      (host : Host) (w_agent w_trace : World) (current : AgentManager) (m : Metrics F)
      → (initialize_in host w_agent w_trace spawn current m).0.should_run ≡ true
  unfolding initialize_in
  initialize_in_runs host w_agent w_trace current m = elim (Bool-cases current.should_run) [
    | inl e ↦ run_of (if_true current.should_run _ _ e) ∙ e
    | inr e ↦ run_of (if_false current.should_run _ _ e) ∙ start_runs w_agent w_trace (new host) m
  ]

  -- Initialising twice is initialising once: the second call keeps the running manager, its
  -- children and the metrics, though the configuration and the world may have changed.
  pub initialize-initialize :
      (host host' : Host) (w_agent w_trace w_agent' w_trace' : World) (g : Global) (m : Metrics F)
      → let r = initialize host w_agent w_trace spawn g m in
        initialize host' w_agent' w_trace' spawn r.0 r.1 ≡ r
  unfolding initialize manager_cell
  initialize-initialize host host' w_agent w_trace w_agent' w_trace' g m =
      kept (initialize_in host w_agent w_trace spawn (manager_cell host g) m)
        (initialize_in_runs host w_agent w_trace (manager_cell host g) m)
    where
      put : AgentManager × Metrics F → Global × Metrics F
      put q = (some q.0, q.1)

      kept :
          (p : AgentManager × Metrics F)
          → p.0.should_run ≡ true
          → put (initialize_in host' w_agent' w_trace' spawn p.0 p.1) ≡ put p
      kept p e =
          let same : initialize_in host' w_agent' w_trace' spawn p.0 p.1 ≡ p =
            initialize_in-running host' w_agent' w_trace' p.0 p.1 e in
          ap put same

module _ {S : Type 0} (os : Child → Os S) (time : Child → S → ℕ)
    (clock : (c : Child) → IsClock (os c) (time c)) where
  -- The kill came to an end and left no child.
  abbrev Gone : Option (Slot × S) → Type 0
  Gone none = ⊥
  Gone (some (slot, s)) = slot.child ≡ none

  abbrev Empties : Option (Option Child × List Signal × S) → Type 0
  Empties none = ⊥
  Empties (some (c, signals, s)) = c ≡ none

  put_back-Gone :
      (slot : Slot) (r : Option (Option Child × List Signal × S))
      → Empties r
      → Gone (put_back slot r)
  put_back-Gone slot none h = h
  put_back-Gone slot (some (c, signals, s')) h = h

  graceful_kill-Empties : (child : Option Child) (s : S) → Empties (graceful_kill os child s)
  unfolding graceful_kill
  graceful_kill-Empties none s = refl
  graceful_kill-Empties (some c) s =
      killed (kill_child (os c) s) (kill_child-IsDone (os c) (time c) (clock c) s)
    where
      killed : (r : Option (Progress S)) → IsDone r → Empties (emptied r)
      killed none h = absurd h
      killed (some (t, signals, s')) h = refl

  kill_agent-Gone :
      (spec : Option ProcessSpec) (slot : Slot) (s : S)
      → (spec ≡ none → slot.child ≡ none)
      → Gone (kill_agent os spec slot s)
  unfolding kill_agent
  kill_agent-Gone none slot s un = un refl
  kill_agent-Gone (some spec) slot s un = put_back-Gone slot _ (graceful_kill-Empties slot.child s)

  kill_trace-Gone : (slot : Slot) (s : S) → Gone (kill_trace os slot s)
  unfolding kill_trace
  kill_trace-Gone slot s = put_back-Gone slot _ (graceful_kill-Empties slot.child s)

  reset_slot-fresh : (slot : Slot) → slot.child ≡ none → reset_slot slot ≡ fresh_slot
  unfolding reset_slot
  reset_slot-fresh slot e = ap (λ c. record fresh_slot { child = c }) e

-- The stop came to an end, and left the manager clean.
abbrev pub StopsClean : {F S : Type 0} → Stopped F S → Type 0
StopsClean none = ⊥
StopsClean (some (mgr, m, s)) = IsClean mgr

module _ {F : Type 0} {S : Type 0} (os : Child → Os S) (time : Child → S → ℕ)
    (clock : (c : Child) → IsClock (os c) (time c)) where
  stop_end-IsClean :
      (mgr : AgentManager) (m : Metrics F) (agent trace : Slot) (s : S)
      → agent.child ≡ none
      → trace.child ≡ none
      → IsClean (stop_end mgr m agent trace s).0
  unfolding stop_end reset_backoff_state reset_trace_agent_readiness
  stop_end-IsClean mgr m agent trace s e₁ e₂ = record {
    stopped = refl;
    no_thread = refl;
    agent_fresh = reset_slot-fresh os time clock agent e₁;
    trace_fresh = reset_slot-fresh os time clock trace e₂;
    not_ready = refl;
  }

  after_agent-StopsClean :
      (mgr : AgentManager) (m : Metrics F) (r : Option (Slot × S))
      → Gone os time clock r
      → StopsClean (after_agent os mgr m r)
  after_agent-StopsClean mgr m none h = absurd h
  after_agent-StopsClean mgr m (some (agent, s)) h =
      traced (kill_trace os mgr.trace s) (kill_trace-Gone os time clock mgr.trace s)
    where
      traced :
          (r : Option (Slot × S))
          → Gone os time clock r
          → StopsClean
              (elim r [ none ↦ none | some (trace, s') ↦ some (stop_end mgr m agent trace s') ])
      traced none k = absurd k
      traced (some (trace, s')) k = stop_end-IsClean mgr m agent trace s' h k

  -- Once the flag is cleared and the thread has ended.
  pub stop_body-StopsClean :
      (mgr : AgentManager) (m : Metrics F) (s : S)
      → (mgr.agent_spec ≡ none → mgr.agent.child ≡ none)
      → StopsClean (stop_body os mgr m s)
  unfolding stop_body
  stop_body-StopsClean mgr m s un =
      after_agent-StopsClean mgr m _ (kill_agent-Gone os time clock mgr.agent_spec mgr.agent s un)

  -- Stopping a sound manager ends, whatever the children do, when the clock goes on while the code
  -- sleeps. It leaves both slots empty, no monitor thread, and the backoffs at their start.
  pub stop-IsClean :
      (mgr : AgentManager) (m : Metrics F) (s : S) → IsSound mgr → StopsClean (stop os mgr m s)
  unfolding stop
  stop-IsClean mgr m s h = branch mgr.should_run refl
    where
      branch :
          (b : Bool)
          → mgr.should_run ≡ b
          → StopsClean (if b then stop_body os mgr m s else some (mgr, m, s))
      branch true e = stop_body-StopsClean mgr m s h.unconfigured
      branch false e = h.clean e
