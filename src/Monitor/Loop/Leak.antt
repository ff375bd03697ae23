-- ===== src/Monitor/Loop/Leak.antt =====
-- A run of the thread with a stop between the two spawns of a round.
use libagent.Base.{
  ℕ, ◌≡◌, refl, sym, ap, ◌∙◌, subst, true, false, Option, none, some, [], ◌∷◌, ◌++◌, if◌then◌else◌,
}
use libagent.Process.{ProcessSpec}
use libagent.Monitor.{Child, World, should_attempt_spawn}
use libagent.Monitor.Supervision.{MaySpawn, should_attempt_spawn_iff}
use libagent.Monitor.Backoff.{should_attempt_spawn-Childless}
use libagent.Manager.{spawn_process}
use libagent.Monitor.Loop.{
  Pc, at_loop, agent_checked, checked, agent_spawned, ended, System, dropped, check_agent,
  check_trace, spawn_agent, spawn_trace, due_agent, advance_at, advance, thread, stopping, Reach,
  here, next,
}

-- The thread has ended with the child lost: neither slot has it.
abbrev pub Leaks : {F : Type 0} → Child → System F → Type 0
Leaks c s =
    (s.pc ≡ ended)
    × (s.lost ≡ c ∷ [])
    × (s.manager.agent.child ≡ none)
    × (s.manager.trace.child ≡ none)

module _ {F : Type 0} (interval : ℕ) (w : World) (spawn : ProcessSpec → Option Child) where
  step_from :
      (pc : Pc) (s : System F)
      → s.pc ≡ pc
      → advance interval w spawn s ≡ advance_at interval w spawn pc s
  unfolding advance
  step_from pc s e = ap (λ q. advance_at interval w spawn q s) e

  running :
      (s t u : System F) → s.manager.should_run ≡ true → (if s.manager.should_run then t else u) ≡ t
  running s t u e = simp (e) refl

  stopped :
      (s t u : System F)
      → s.manager.should_run ≡ false
      → (if s.manager.should_run then t else u) ≡ u
  stopped s t u e = simp (e) refl

  -- The configuration, which no step changes, and that nothing is lost so far.
  record Round (spec trace_spec : ProcessSpec) (s : System F) : Type 0 where
    run : s.manager.should_run ≡ true
    configured : s.manager.agent_spec ≡ some spec
    trace_configured : s.manager.trace_spec ≡ trace_spec
    none_lost : s.lost ≡ []

  module _ (spec trace_spec : ProcessSpec) (c : Child) where
    -- Both slots are to be filled.
    abbrev Due : System F → Type 0
    Due s = MaySpawn w spec s.manager.agent × MaySpawn w trace_spec s.manager.trace

    abbrev Vacant : System F → Type 0
    Vacant s = (s.manager.agent.child ≡ none) × (s.manager.trace.child ≡ none)

    abbrev AgentChecked : System F → Type 0
    AgentChecked s =
        Round spec trace_spec s
        × (s.pc ≡ agent_checked true)
        × (s.manager.agent.child ≡ none)
        × MaySpawn w trace_spec s.manager.trace

    agent_is_checked :
        (s : System F)
        → s.pc ≡ at_loop
        → Round spec trace_spec s
        → Due s
        → AgentChecked (advance interval w spawn s)
    agent_is_checked s at r (may, may_trace) =
        let due = (should_attempt_spawn_iff w spec s.manager.agent s.metrics).1 may in
        subst AgentChecked
          (sym (
            step_from at_loop s at
            ∙ (running s _ _ r.run ∙ ap (λ q. check_agent interval w spawn q s) r.configured)))
          (
            record {
              run = r.run;
              configured = r.configured;
              trace_configured = r.trace_configured;
              none_lost = r.none_lost;
            },
            ap agent_checked due,
            should_attempt_spawn-Childless w spec s.manager.agent s.metrics due,
            may_trace,
          )

    abbrev BothChecked : System F → Type 0
    BothChecked s = Round spec trace_spec s × (s.pc ≡ checked true true) × Vacant s

    both_are_checked : (s : System F) → AgentChecked s → BothChecked (advance interval w spawn s)
    both_are_checked s (r, at, vacant, may) =
        let due : (should_attempt_spawn w s.manager.trace_spec s.manager.trace s.metrics).2 ≡ true =
          subst (λ q. (should_attempt_spawn w q s.manager.trace s.metrics).2 ≡ true)
            (sym r.trace_configured)
            ((should_attempt_spawn_iff w trace_spec s.manager.trace s.metrics).1 may) in
        subst BothChecked (sym (step_from (agent_checked true) s at)) (
          unfold check_trace in
          (
            record {
              run = r.run;
              configured = r.configured;
              trace_configured = r.trace_configured;
              none_lost = r.none_lost;
            },
            ap (checked true) due,
            (
              vacant,
              should_attempt_spawn-Childless w s.manager.trace_spec s.manager.trace s.metrics due,
            ),
          ))

    abbrev AgentStarted : System F → Type 0
    AgentStarted s = (s.pc ≡ agent_spawned (some (some c)) true) × (s.lost ≡ []) × Vacant s

    agent_is_started :
        (s : System F)
        → spawn spec ≡ some c
        → BothChecked s
        → AgentStarted (advance interval w spawn s)
    agent_is_started s starts (r, at, vacant) =
        let result : (spawn_process spawn spec s.manager.trace_agent_ready).0 ≡ some c =
          unfold spawn_process in rw starts refl in
        subst AgentStarted
          (sym (
            step_from (checked true true) s at
            ∙ (ap (λ q. due_agent interval w spawn q true s) r.configured
                ∙ running s (spawn_agent interval w spawn spec true s) _ r.run)))
          (unfold spawn_agent in
            (ap (λ q. agent_spawned (some q) true) result, r.none_lost, vacant))

    stop_now : System F → System F
    stop_now s = record s { manager = record s.manager { should_run = false } }

    agent_is_lost :
        (s : System F) → AgentStarted s → Leaks c (advance interval w spawn (stop_now s))
    unfolding stop_now
    agent_is_lost s (at, none_lost, vacant) =
        subst (Leaks c)
          (sym (
            step_from (agent_spawned (some (some c)) true) (stop_now s) at
            ∙ stopped (stop_now s) (spawn_trace interval w spawn (some (some c)) (stop_now s))
                (record s {
                  manager = record s.manager { should_run = false };
                  pc = ended;
                  lost = dropped (some (some c)) ++ s.lost;
                })
                refl))
          (refl, ap (λ l. c ∷ l) none_lost, vacant.0, vacant.1)

    -- Where both children are due and the agent can be started, a stop between the two spawns leaks the
    -- agent: there is a run of the thread with one stop that ends with the new process in neither slot.
    pub stop_between_spawns-Leaks :
        (s : System F)
        → s.pc ≡ at_loop
        → s.manager.should_run ≡ true
        → s.manager.agent_spec ≡ some spec
        → s.manager.trace_spec ≡ trace_spec
        → s.lost ≡ []
        → MaySpawn w spec s.manager.agent
        → MaySpawn w trace_spec s.manager.trace
        → spawn spec ≡ some c
        → (t : System F) × Reach interval s t × Leaks c t
    unfolding stop_now
    stop_between_spawns-Leaks s at run configured trace_configured none_lost may may_trace starts =
        let go = λ (q : System F). advance interval w spawn q in
        let r : Round spec trace_spec s = record {
          run = run;
          configured = configured;
          trace_configured = trace_configured;
          none_lost = none_lost;
        } in
        let started =
          agent_is_started (go (go s)) starts
            (both_are_checked (go s) (agent_is_checked s at r (may, may_trace))) in
        (
          go (stop_now (go (go (go s)))),
          next
              (next
                (next (next (next here (thread w spawn refl)) (thread w spawn refl))
                  (thread w spawn refl))
                (stopping refl))
              (thread w spawn refl),
          agent_is_lost (go (go (go s))) started,
        )
