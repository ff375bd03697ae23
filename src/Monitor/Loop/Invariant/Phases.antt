-- ===== src/Monitor/Loop/Invariant/Phases.antt =====
-- The invariant through each step of the monitor thread.
use libagent.Base.{
  ℕ, ◌≡◌, refl, sym, subst, inl, Bool, true, false, Option, none, some, [], ◌++◌, if◌then◌else◌,
}
use libagent.Process.{ProcessSpec}
use libagent.Monitor.{Child, World}
use libagent.Monitor.Backoff.{
  should_attempt_spawn-IsValid, should_attempt_spawn-Childless, commit_spawn_result-IsValid,
}
use libagent.Manager.{reset_trace_agent_readiness}
use libagent.Monitor.Loop.{
  Attempted, Pc, at_loop, agent_checked, checked, agent_spawned, spawned, agent_committed,
  committed, computing, sleeping, ended, System, dropped, check_agent, check_trace, spawn_agent,
  spawn_trace, recheck, due_agent, commit_agent, commit_trace, advance_at, advance,
}
use libagent.Monitor.Loop.Invariant.{InvariantAt, Invariant, moved, dropped-Losses}

module _ {F : Type 0} (interval : ℕ) (w : World) (spawn : ProcessSpec → Option Child) where
  check_agent-Invariant :
      (spec : Option ProcessSpec) (s : System F)
      → s.manager.agent_spec ≡ spec
      → InvariantAt at_loop s.manager s.lost
      → Invariant (check_agent interval w spawn spec s)
  check_agent-Invariant none s e h =
      moved (at_loop) (agent_checked false) s.manager s.manager.should_run
        s.manager.trace_agent_ready s.lost s.lost h (λ d. cc) (λ d. d) h.losses
  check_agent-Invariant (some spec) s e h = record {
    agent_valid = should_attempt_spawn-IsValid w spec s.manager.agent s.metrics h.agent_valid;
    trace_valid = h.trace_valid;
    agent_vacant =
        λ d. (should_attempt_spawn-Childless w spec s.manager.agent s.metrics d, λ n. cc (n, e));
    trace_vacant = λ d. absurd d;
    unconfigured = λ n. absurd (cc (n, e));
    losses = h.losses;
  }

  check_trace-Invariant :
      (due : Bool) (s : System F)
      → InvariantAt (agent_checked due) s.manager s.lost
      → Invariant (check_trace interval w spawn due s)
  unfolding check_trace
  check_trace-Invariant due s h = record {
    agent_valid = h.agent_valid;
    trace_valid =
        should_attempt_spawn-IsValid w s.manager.trace_spec s.manager.trace s.metrics h.trace_valid;
    agent_vacant = h.agent_vacant;
    trace_vacant = should_attempt_spawn-Childless w s.manager.trace_spec s.manager.trace s.metrics;
    unconfigured = h.unconfigured;
    losses = h.losses;
  }

  recheck-Invariant :
      (pc : Pc) (result : Attempted) (s later : System F)
      → InvariantAt pc s.manager s.lost
      → s.lost ≡ []
      → Invariant later
      → Invariant (recheck interval w spawn result s later)
  recheck-Invariant pc result s later h e k = branch s.manager.should_run refl
    where
      branch :
          (b : Bool)
          → s.manager.should_run ≡ b
          → Invariant
              (if b then later else record s { pc = ended; lost = dropped result ++ s.lost })
      branch true r = k
      branch false r =
          moved pc ended s.manager s.manager.should_run s.manager.trace_agent_ready s.lost _ h
            (λ d. absurd d) (λ d. absurd d) (dropped-Losses result s.manager s.lost e r)

  due_agent-Invariant :
      (spec : Option ProcessSpec) (trace_due : Bool) (s : System F)
      → InvariantAt (checked true trace_due) s.manager s.lost
      → Invariant (due_agent interval w spawn spec trace_due s)
  unfolding spawn_agent
  due_agent-Invariant none trace_due s h =
      moved (checked true trace_due) (agent_spawned none trace_due) s.manager s.manager.should_run
        s.manager.trace_agent_ready s.lost s.lost h (λ d. refl) (λ d. d) h.losses
  due_agent-Invariant (some spec) trace_due s h =
      recheck-Invariant (checked true trace_due) none s _ h h.losses (
        moved (checked true trace_due) (agent_spawned _ trace_due) s.manager s.manager.should_run _
          s.lost s.lost h (λ d. refl) (λ d. d) h.losses)

  spawn_trace-Invariant :
      (result : Attempted) (s : System F)
      → InvariantAt (agent_spawned result true) s.manager s.lost
      → Invariant (spawn_trace interval w spawn result s)
  unfolding spawn_trace
  spawn_trace-Invariant result s h =
      moved (agent_spawned result true) (spawned result _) s.manager s.manager.should_run _ s.lost
        s.lost h (λ d. d) (λ d. refl) h.losses

  commit_agent-Invariant :
      (spec : Option ProcessSpec) (result trace_result : Attempted) (s : System F)
      → s.manager.agent_spec ≡ spec
      → InvariantAt (spawned result trace_result) s.manager s.lost
      → Invariant (commit_agent interval w spawn spec result trace_result s)
  commit_agent-Invariant none none trace_result s e h =
      moved (spawned none trace_result) (agent_committed false trace_result) s.manager
        s.manager.should_run s.manager.trace_agent_ready s.lost s.lost h (λ d. absurd d) (λ d. d)
        h.losses
  commit_agent-Invariant none (some r) trace_result s e h = absurd ((h.agent_vacant (λ n. cc)).1 e)
  commit_agent-Invariant (some spec) none trace_result s e h =
      moved (spawned none trace_result) (agent_committed false trace_result) s.manager
        s.manager.should_run s.manager.trace_agent_ready s.lost s.lost h (λ d. absurd d) (λ d. d)
        h.losses
  commit_agent-Invariant (some spec) (some r) trace_result s e h = record {
    agent_valid =
        commit_spawn_result-IsValid w.now spec s.manager.agent s.metrics r h.agent_valid
          (λ n. (h.agent_vacant (λ q. cc)).0);
    trace_valid = h.trace_valid;
    agent_vacant = λ d. absurd d;
    trace_vacant = h.trace_vacant;
    unconfigured = λ n. absurd (cc (n, e));
    losses = h.losses;
  }

  commit_trace-Invariant :
      (started : Bool) (trace_result : Attempted) (s : System F)
      → InvariantAt (agent_committed started trace_result) s.manager s.lost
      → Invariant (commit_trace interval w spawn started trace_result s)
  commit_trace-Invariant started none s h =
      moved (agent_committed started none) (committed started) s.manager s.manager.should_run
        s.manager.trace_agent_ready s.lost s.lost h (λ d. d) (λ d. absurd d) h.losses
  commit_trace-Invariant started (some r) s h = record {
    agent_valid = h.agent_valid;
    trace_valid =
        commit_spawn_result-IsValid w.now s.manager.trace_spec s.manager.trace s.metrics r
          h.trace_valid (λ n. h.trace_vacant (λ q. cc));
    agent_vacant = λ d. absurd d;
    trace_vacant = λ d. absurd d;
    unconfigured = h.unconfigured;
    losses = h.losses;
  }

  advance_at-Invariant :
      (pc : Pc) (s : System F)
      → InvariantAt pc s.manager s.lost
      → s.pc ≡ pc
      → Invariant (advance_at interval w spawn pc s)
  unfolding reset_trace_agent_readiness
  advance_at-Invariant at_loop s h e = branch s.manager.should_run refl
    where
      branch :
          (b : Bool)
          → s.manager.should_run ≡ b
          → Invariant (
              if b
              then check_agent interval w spawn s.manager.agent_spec s
              else record s { pc = ended })
      branch true r = check_agent-Invariant s.manager.agent_spec s refl h
      branch false r =
          moved at_loop ended s.manager s.manager.should_run s.manager.trace_agent_ready s.lost
            s.lost h (λ d. d) (λ d. d) (inl h.losses)
  advance_at-Invariant (agent_checked due) s h e = check_trace-Invariant due s h
  advance_at-Invariant (checked true trace_due) s h e =
      due_agent-Invariant s.manager.agent_spec trace_due s h
  advance_at-Invariant (checked false trace_due) s h e =
      moved (checked false trace_due) (agent_spawned none trace_due) s.manager s.manager.should_run
        s.manager.trace_agent_ready s.lost s.lost h (λ d. absurd (d refl)) (λ d. d) h.losses
  advance_at-Invariant (agent_spawned result true) s h e =
      recheck-Invariant (agent_spawned result true) result s _ h h.losses
        (spawn_trace-Invariant result s h)
  advance_at-Invariant (agent_spawned result false) s h e =
      moved (agent_spawned result false) (spawned result none) s.manager s.manager.should_run
        s.manager.trace_agent_ready s.lost s.lost h (λ d. d) (λ d. absurd (d refl)) h.losses
  advance_at-Invariant (spawned result trace_result) s h e =
      commit_agent-Invariant s.manager.agent_spec result trace_result s refl h
  advance_at-Invariant (agent_committed started trace_result) s h e =
      commit_trace-Invariant started trace_result s h
  advance_at-Invariant (committed true) s h e =
      moved (committed true) computing s.manager s.manager.should_run false s.lost s.lost h (λ d. d)
        (λ d. d) h.losses
  advance_at-Invariant (committed false) s h e =
      moved (committed false) computing s.manager s.manager.should_run s.manager.trace_agent_ready
        s.lost s.lost h (λ d. d) (λ d. d) h.losses
  advance_at-Invariant computing s h e =
      moved computing (sleeping _) s.manager s.manager.should_run s.manager.trace_agent_ready s.lost
        s.lost h (λ d. d) (λ d. d) h.losses
  advance_at-Invariant (sleeping d) s h e =
      moved (sleeping d) at_loop s.manager s.manager.should_run s.manager.trace_agent_ready s.lost
        s.lost h (λ d. d) (λ d. d) h.losses
  advance_at-Invariant ended s h e = subst (λ p. InvariantAt p s.manager s.lost) (sym e) h

  pub advance-Invariant : (s : System F) → Invariant s → Invariant (advance interval w spawn s)
  unfolding advance
  advance-Invariant s h = advance_at-Invariant s.pc s h refl
