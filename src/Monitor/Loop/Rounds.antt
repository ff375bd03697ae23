-- ===== src/Monitor/Loop/Rounds.antt =====
-- What the thread does in a round: which children it keeps, and how long it sleeps.
use libagent.Base.{
  ℕ, ◌+◌, ◌≤◌, ◌<◌, ◌≡◌, refl, inl, inr, Bool, true, false, Option, none, some, arith, ltb,
  if◌then◌else◌, ltb→lt, ltb-false→le, Bool-cases,
}
use libagent.Process.{ProcessSpec}
use libagent.Metrics.{Metrics}
use libagent.Monitor.{Child, still_running, Slot, World, attempt_of, polled, should_attempt_spawn}
use libagent.Manager.{AgentManager, reset_trace_agent_readiness}
use libagent.Monitor.Loop.{
  Attempted, Pc, at_loop, agent_checked, checked, agent_spawned, spawned, agent_committed,
  committed, computing, sleeping, ended, System, sleep_until, sleep_duration, check_agent,
  check_trace, spawn_agent, spawn_trace, due_agent, commit_agent, commit_trace, advance_at, advance,
}
use libagent.Monitor.Loop.Invariant.{Invariant, InvariantAt}

-- A child that runs is left alone by the check.
check_running :
    {F : Type 0} (w : World) (spec : ProcessSpec) (slot : Slot) (m : Metrics F) (c : Child)
    → slot.child ≡ some c
    → w.try_wait c ≡ still_running
    → should_attempt_spawn w spec slot m ≡ (slot, m, false)
check_running w spec slot m c e r = unfold should_attempt_spawn in running slot.child e
  where
    running :
        (child : Option Child) → child ≡ some c → attempt_of w spec child slot m ≡ (slot, m, false)
    running none n = absurd (cc)
    running (some d) n =
        let same : w.try_wait d ≡ still_running = cc in unfold attempt_of polled in rw same refl

-- The slot still has its child, if that runs.
abbrev Keeps : World → Slot → Slot → Type 0
Keeps w slot slot' =
    (c : Child) → slot.child ≡ some c → w.try_wait c ≡ still_running → slot'.child ≡ some c

abbrev pub KeepsRunning : World → AgentManager → AgentManager → Type 0
KeepsRunning w mgr mgr' = Keeps w mgr.agent mgr'.agent × Keeps w mgr.trace mgr'.trace

check-Keeps :
    {F : Type 0} (w : World) (spec : ProcessSpec) (slot : Slot) (m : Metrics F)
    → Keeps w slot (should_attempt_spawn w spec slot m).0
check-Keeps w spec slot m c e r = rw (check_running w spec slot m c e r) e

all_kept : (w : World) (mgr : AgentManager) → KeepsRunning w mgr mgr
all_kept w mgr = (λ c e r. e, λ c e r. e)

-- What holds of the manager on both branches holds of the choice.
either_manager :
    {F : Type 0} (P : AgentManager → Type 0) (b : Bool) (s t : System F)
    → P s.manager
    → P t.manager
    → P (if b then s else t).manager
either_manager P true s t h k = h
either_manager P false s t h k = k

module _ {F : Type 0} (interval : ℕ) (w : World) (spawn : ProcessSpec → Option Child) where
  check_agent-KeepsRunning :
      (spec : Option ProcessSpec) (s : System F)
      → KeepsRunning w s.manager (check_agent interval w spawn spec s).manager
  check_agent-KeepsRunning none s = all_kept w s.manager
  check_agent-KeepsRunning (some spec) s =
      (check-Keeps w spec s.manager.agent s.metrics, λ c e r. e)

  due_agent-KeepsRunning :
      (spec : Option ProcessSpec) (trace_due : Bool) (s : System F)
      → KeepsRunning w s.manager (due_agent interval w spawn spec trace_due s).manager
  unfolding spawn_agent
  due_agent-KeepsRunning none trace_due s = all_kept w s.manager
  due_agent-KeepsRunning (some spec) trace_due s =
      either_manager (KeepsRunning w s.manager) s.manager.should_run
        (spawn_agent interval w spawn spec trace_due s) _ (all_kept w s.manager)
        (all_kept w s.manager)

  commit_agent-KeepsRunning :
      (spec : Option ProcessSpec) (result trace_result : Attempted) (s : System F)
      → InvariantAt (spawned result trace_result) s.manager s.lost
      → KeepsRunning w s.manager (commit_agent interval w spawn spec result trace_result s).manager
  commit_agent-KeepsRunning none result trace_result s h = all_kept w s.manager
  commit_agent-KeepsRunning (some spec) none trace_result s h = all_kept w s.manager
  commit_agent-KeepsRunning (some spec) (some r) trace_result s h =
      (λ c e run. absurd (cc (e, (h.agent_vacant (λ n. cc)).0)), λ c e run. e)

  commit_trace-KeepsRunning :
      (started : Bool) (trace_result : Attempted) (s : System F)
      → InvariantAt (agent_committed started trace_result) s.manager s.lost
      → KeepsRunning w s.manager (commit_trace interval w spawn started trace_result s).manager
  commit_trace-KeepsRunning started none s h = all_kept w s.manager
  commit_trace-KeepsRunning started (some r) s h =
      (λ c e run. e, λ c e run. absurd (cc (e, h.trace_vacant (λ n. cc))))

  advance_at-KeepsRunning :
      (pc : Pc) (s : System F)
      → InvariantAt pc s.manager s.lost
      → KeepsRunning w s.manager (advance_at interval w spawn pc s).manager
  unfolding check_trace spawn_trace reset_trace_agent_readiness
  advance_at-KeepsRunning at_loop s h =
      either_manager (KeepsRunning w s.manager) s.manager.should_run
        (check_agent interval w spawn s.manager.agent_spec s) _
        (check_agent-KeepsRunning s.manager.agent_spec s) (all_kept w s.manager)
  advance_at-KeepsRunning (agent_checked due) s h =
      (λ c e r. e, check-Keeps w s.manager.trace_spec s.manager.trace s.metrics)
  advance_at-KeepsRunning (checked true trace_due) s h =
      due_agent-KeepsRunning s.manager.agent_spec trace_due s
  advance_at-KeepsRunning (checked false trace_due) s h = all_kept w s.manager
  advance_at-KeepsRunning (agent_spawned result true) s h =
      either_manager (KeepsRunning w s.manager) s.manager.should_run
        (spawn_trace interval w spawn result s) _ (all_kept w s.manager) (all_kept w s.manager)
  advance_at-KeepsRunning (agent_spawned result false) s h = all_kept w s.manager
  advance_at-KeepsRunning (spawned result trace_result) s h =
      commit_agent-KeepsRunning s.manager.agent_spec result trace_result s h
  advance_at-KeepsRunning (agent_committed started trace_result) s h =
      commit_trace-KeepsRunning started trace_result s h
  advance_at-KeepsRunning (committed true) s h = all_kept w s.manager
  advance_at-KeepsRunning (committed false) s h = all_kept w s.manager
  advance_at-KeepsRunning computing s h = all_kept w s.manager
  advance_at-KeepsRunning (sleeping d) s h = all_kept w s.manager
  advance_at-KeepsRunning ended s h = all_kept w s.manager

  -- In no step does the thread let go of a child that runs: a slot whose child is found running has it
  -- afterwards. So a spawned child never takes the place of one that runs.
  pub advance-KeepsRunning :
      (s : System F) → Invariant s → KeepsRunning w s.manager (advance interval w spawn s).manager
  unfolding advance
  advance-KeepsRunning s h = advance_at-KeepsRunning s.pc s h

-- The sleep is no longer than `limit`, and ends no later than a deadline that is yet to come.
abbrev pub WakesFor : ℕ → Option ℕ → ℕ → Type 0
WakesFor now none d = Unit
WakesFor now (some deadline) d = now < deadline → now + d ≤ deadline

sleep_until_lem :
    (now : ℕ) (deadline : Option ℕ) (d : ℕ)
    → 0 < d
    → (0 < sleep_until now deadline d)
      × (sleep_until now deadline d ≤ d)
      × WakesFor now deadline (sleep_until now deadline d)
unfolding sleep_until
sleep_until_lem now none d h = (h, omega arith, tt)
sleep_until_lem now (some deadline) d h = elim (Bool-cases (ltb now deadline)) [
  | inl e ↦ let k = ltb→lt now deadline e in rw e (omega arith, omega arith, λ early. omega arith)
  | inr e ↦
      let k = ltb-false→le now deadline e in rw e (h, omega arith, λ early. absurd (omega arith))
]

WakesFor-sooner :
    (now : ℕ) (deadline : Option ℕ) (d d' : ℕ)
    → d' ≤ d
    → WakesFor now deadline d
    → WakesFor now deadline d'
WakesFor-sooner now none d d' h k = tt
WakesFor-sooner now (some deadline) d d' h k = λ early. let e = k early in omega arith

-- The thread sleeps, for the interval at most, and wakes no later than the end of either backoff.
pub sleep_duration_bounds :
    (interval now : ℕ) (mgr : AgentManager)
    → 0 < interval
    → (0 < sleep_duration interval now mgr)
      × (sleep_duration interval now mgr ≤ interval)
      × WakesFor now mgr.agent.next_attempt (sleep_duration interval now mgr)
      × WakesFor now mgr.trace.next_attempt (sleep_duration interval now mgr)
unfolding sleep_duration
sleep_duration_bounds interval now mgr h =
    let d = sleep_until now mgr.agent.next_attempt interval in
    let (p, q, r) = sleep_until_lem now mgr.agent.next_attempt interval h in
    let (p', q', r') = sleep_until_lem now mgr.trace.next_attempt d p in
    (p', omega arith, WakesFor-sooner now mgr.agent.next_attempt d _ q' r, r')
