-- ===== src/Monitor/Loop/Restart.antt =====
-- How far the restart of a trace agent has got, round the loop of the thread.
use libagent.Base.{
  ℕ, suc, ◌<◌, ◌≡◌, refl, sym, ap, ◌∙◌, subst, Bool, true, false, Option, none, some, List, [], ◌∷◌,
  arith, if◌then◌else◌, length, All,
}
use libagent.Config.{backoff_initial_secs}
use libagent.Process.{ProcessSpec}
use libagent.Monitor.{Child, Slot, World, commit_spawn_result}
use libagent.Monitor.Supervision.{MaySpawn, should_attempt_spawn_iff}
use libagent.Manager.{AgentManager, spawn_process, reset_trace_agent_readiness}
use libagent.Monitor.Loop.{
  Attempted, Pc, at_loop, agent_checked, checked, agent_spawned, spawned, agent_committed,
  committed, computing, sleeping, ended, System, check_agent, check_trace, spawn_agent, spawn_trace,
  due_agent, commit_agent, commit_trace, advance_at, advance,
}
use libagent.Monitor.Loop.Progress.{advance_all}

-- The steps until the thread sleeps.
ahead : Pc → ℕ
ahead at_loop = 9
ahead (agent_checked due) = 8
ahead (checked due due') = 7
ahead (agent_spawned q due) = 6
ahead (spawned q r) = 5
ahead (agent_committed started r) = 4
ahead (committed started) = 3
ahead computing = 2
ahead (sleeping d) = 1
ahead ended = 0

abbrev pub stored : Child → Slot
stored c = record { child = some c; backoff_secs = backoff_initial_secs; next_attempt = none }

-- How far the restart of the trace agent has got: the slot is as it was, its spawn is due, the child `c`
-- is there, the child is stored.
abbrev Restarting : Slot → Child → Pc → AgentManager → Type 0
Restarting slot c at_loop mgr = mgr.trace ≡ slot
Restarting slot c (agent_checked due) mgr = mgr.trace ≡ slot
Restarting slot c (checked due trace_due) mgr = trace_due ≡ true
Restarting slot c (agent_spawned r trace_due) mgr = trace_due ≡ true
Restarting slot c (spawned r trace_result) mgr = trace_result ≡ some (some c)
Restarting slot c (agent_committed st trace_result) mgr = trace_result ≡ some (some c)
Restarting slot c (committed st) mgr = mgr.trace ≡ stored c
Restarting slot c computing mgr = mgr.trace ≡ stored c
Restarting slot c (sleeping d) mgr = mgr.trace ≡ stored c
Restarting slot c ended mgr = ⊥

module _ {F : Type 0} (interval : ℕ) (w : World) (spawn : ProcessSpec → Option Child)
    (spec : ProcessSpec) (slot : Slot) (c : Child) where
  -- One step less to go.
  abbrev Rises : ℕ → System F → Type 0
  Rises n s =
      (suc (ahead s.pc) ≡ n)
      × (s.manager.should_run ≡ true)
      × (s.manager.trace_spec ≡ spec)
      × Restarting slot c s.pc s.manager

  either-Rises :
      (n : ℕ) (b : Bool) (s t : System F) → b ≡ true → Rises n s → Rises n (if b then s else t)
  either-Rises n true s t e h = h
  either-Rises n false s t e h = absurd (cc)

  check_agent-Rises :
      (agent : Option ProcessSpec) (s : System F)
      → s.manager.should_run ≡ true
      → s.manager.trace_spec ≡ spec
      → s.manager.trace ≡ slot
      → Rises 9 (check_agent interval w spawn agent s)
  unfolding ahead
  check_agent-Rises none s h e r = (refl, h, e, r)
  check_agent-Rises (some agent) s h e r = (refl, h, e, r)

  due_agent-Rises :
      (agent : Option ProcessSpec) (trace_due : Bool) (s : System F)
      → s.manager.should_run ≡ true
      → s.manager.trace_spec ≡ spec
      → trace_due ≡ true
      → Rises 7 (due_agent interval w spawn agent trace_due s)
  unfolding ahead spawn_agent
  due_agent-Rises none trace_due s h e r = (refl, h, e, r)
  due_agent-Rises (some agent) trace_due s h e r =
      either-Rises 7 s.manager.should_run (spawn_agent interval w spawn agent trace_due s) _ h
        (refl, h, e, r)

  commit_agent-Rises :
      (agent : Option ProcessSpec) (result trace_result : Attempted) (s : System F)
      → s.manager.should_run ≡ true
      → s.manager.trace_spec ≡ spec
      → trace_result ≡ some (some c)
      → Rises 5 (commit_agent interval w spawn agent result trace_result s)
  unfolding ahead
  commit_agent-Rises none result trace_result s h e r = (refl, h, e, r)
  commit_agent-Rises (some agent) none trace_result s h e r = (refl, h, e, r)
  commit_agent-Rises (some agent) (some q) trace_result s h e r = (refl, h, e, r)

  commit_trace-Rises :
      (started : Bool) (trace_result : Attempted) (s : System F)
      → s.manager.should_run ≡ true
      → s.manager.trace_spec ≡ spec
      → trace_result ≡ some (some c)
      → Rises 4 (commit_trace interval w spawn started trace_result s)
  unfolding ahead commit_spawn_result
  commit_trace-Rises started none s h e r = absurd (cc)
  commit_trace-Rises started (some none) s h e r = absurd (cc)
  commit_trace-Rises started (some (some d)) s h e r =
      let same : d ≡ c = cc in (refl, h, e, ap stored same)

  spawn_trace-Rises :
      (result : Attempted) (s : System F)
      → spawn spec ≡ some c
      → s.manager.should_run ≡ true
      → s.manager.trace_spec ≡ spec
      → Rises 6 (spawn_trace interval w spawn result s)
  unfolding ahead spawn_trace
  spawn_trace-Rises result s starts h e = (refl, h, e, ap some started)
    where
      started : (spawn_process spawn s.manager.trace_spec s.manager.trace_agent_ready).0 ≡ some c
      started = unfold spawn_process in rw (e, starts) refl

  advance_at-Rises :
      (pc : Pc) (s : System F)
      → MaySpawn w spec slot
      → spawn spec ≡ some c
      → 1 < ahead pc
      → s.manager.should_run ≡ true
      → s.manager.trace_spec ≡ spec
      → Restarting slot c pc s.manager
      → Rises (ahead pc) (advance_at interval w spawn pc s)
  unfolding ahead check_trace reset_trace_agent_readiness
  advance_at-Rises at_loop s may starts p h e r =
      either-Rises 9 s.manager.should_run (check_agent interval w spawn s.manager.agent_spec s) _ h
        (check_agent-Rises s.manager.agent_spec s h e r)
  advance_at-Rises (agent_checked due) s may starts p h e r =
      (refl, h, e, rw (e, r) ((should_attempt_spawn_iff w spec slot s.metrics).1 may))
  advance_at-Rises (checked true trace_due) s may starts p h e r =
      due_agent-Rises s.manager.agent_spec trace_due s h e r
  advance_at-Rises (checked false trace_due) s may starts p h e r = (refl, h, e, r)
  advance_at-Rises (agent_spawned result true) s may starts p h e r =
      either-Rises 6 s.manager.should_run (spawn_trace interval w spawn result s) _ h
        (spawn_trace-Rises result s starts h e)
  advance_at-Rises (agent_spawned result false) s may starts p h e r = absurd (cc)
  advance_at-Rises (spawned result trace_result) s may starts p h e r =
      commit_agent-Rises s.manager.agent_spec result trace_result s h e r
  advance_at-Rises (agent_committed started trace_result) s may starts p h e r =
      commit_trace-Rises started trace_result s h e r
  advance_at-Rises (committed true) s may starts p h e r = (refl, h, e, r)
  advance_at-Rises (committed false) s may starts p h e r = (refl, h, e, r)
  advance_at-Rises computing s may starts p h e r = (refl, h, e, r)
  advance_at-Rises (sleeping d) s may starts p h e r = absurd (omega arith)
  advance_at-Rises ended s may starts p h e r = absurd r

  advance-Rises :
      (s : System F)
      → MaySpawn w spec slot
      → spawn spec ≡ some c
      → 1 < ahead s.pc
      → s.manager.should_run ≡ true
      → s.manager.trace_spec ≡ spec
      → Restarting slot c s.pc s.manager
      → Rises (ahead s.pc) (advance interval w spawn s)
  unfolding advance
  advance-Rises s may starts p h e r = advance_at-Rises s.pc s may starts p h e r

-- Asleep, with the child stored.
abbrev pub Restarted : {F : Type 0} → Child → System F → Type 0
Restarted c s = ((d : ℕ) × (s.pc ≡ sleeping d)) × (s.manager.trace ≡ stored c)

asleep :
    (pc : Pc) (mgr : AgentManager) (slot : Slot) (c : Child)
    → ahead pc ≡ 1
    → Restarting slot c pc mgr
    → ((d : ℕ) × (pc ≡ sleeping d)) × (mgr.trace ≡ stored c)
unfolding ahead
asleep (sleeping d) mgr slot c e r = ((d, refl), r)
asleep at_loop mgr slot c e r = absurd (omega arith)
asleep (agent_checked due) mgr slot c e r = absurd (omega arith)
asleep (checked due due') mgr slot c e r = absurd (omega arith)
asleep (agent_spawned q due) mgr slot c e r = absurd (omega arith)
asleep (spawned q q') mgr slot c e r = absurd (omega arith)
asleep (agent_committed st q) mgr slot c e r = absurd (omega arith)
asleep (committed st) mgr slot c e r = absurd (omega arith)
asleep computing mgr slot c e r = absurd (omega arith)
asleep ended mgr slot c e r = absurd r

module _ {F : Type 0} (interval : ℕ) (spawn : ProcessSpec → Option Child) where
  advance_all-Restarted :
      (ws : List World) (spec : ProcessSpec) (slot : Slot) (c : Child) (s : System F)
      → All (λ w. MaySpawn w spec slot) ws
      → spawn spec ≡ some c
      → ahead s.pc ≡ suc (length ws)
      → s.manager.should_run ≡ true
      → s.manager.trace_spec ≡ spec
      → Restarting slot c s.pc s.manager
      → Restarted c (advance_all interval spawn ws s)
  unfolding advance_all
  advance_all-Restarted [] spec slot c s may starts p h e r =
      asleep s.pc s.manager slot c (omega arith) r
  advance_all-Restarted (w ∷ ws) spec slot c s (may, rest) starts p h e r =
      let (p', h', e', r') =
        advance-Rises interval w spawn spec slot c s may starts (omega arith) h e r in
      advance_all-Restarted ws spec slot c (advance interval w spawn s) rest starts (omega arith) h'
        e' r'

  -- A trace agent that is not running is restarted in one round, if a spawn is due in the worlds of the
  -- round and succeeds: eight steps after the top of the loop the new child is stored, with the backoff
  -- at its start, and the thread sleeps.
  pub trace_agent_restarts :
      (ws : List World) (c : Child) (s : System F)
      → s.pc ≡ at_loop
      → s.manager.should_run ≡ true
      → All (λ w. MaySpawn w s.manager.trace_spec s.manager.trace) ws
      → length ws ≡ 8
      → spawn s.manager.trace_spec ≡ some c
      → Restarted c (advance_all interval spawn ws s)
  unfolding ahead
  trace_agent_restarts ws c s at h may eight starts =
      advance_all-Restarted ws s.manager.trace_spec s.manager.trace c s may starts
        (ap ahead at ∙ ap suc (sym eight)) h refl
        (subst (λ pc. Restarting s.manager.trace c pc s.manager) (sym at) refl)
