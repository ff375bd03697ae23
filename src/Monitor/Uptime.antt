-- ===== src/Monitor/Uptime.antt =====
-- The time of the initialization through the checks, the ticks and the steps of the thread.
use libagent.Base.{ℕ, ◌≡◌, refl, ◌∙◌, Bool, true, false, Option, none, some, if◌then◌else◌}
use libagent.Process.{ProcessSpec, is_agent, is_trace_agent}
use libagent.Metrics.{
  Metrics, record_agent_spawn, record_trace_agent_spawn, record_agent_failure,
  record_trace_agent_failure,
}
use libagent.Monitor.{
  Child, Slot, World, Poll, exited, still_running, poll_error, record_process_spawn,
  record_process_failure, is_taken, is_backing_off, may_spawn, polled, attempt_of,
  should_attempt_spawn, commit_spawn_result, Tick, tick_result, tick_spawn, tick_polled, tick_child,
  tick_process,
}
use libagent.Monitor.Loop.{
  Attempted, Pc, at_loop, agent_checked, checked, agent_spawned, spawned, agent_committed,
  committed, computing, sleeping, ended, System, check_agent, check_trace, spawn_agent, spawn_trace,
  due_agent, commit_agent, commit_trace, advance_at, advance,
}

abbrev pub SameTime : {F : Type 0} → Metrics F → Metrics F → Type 0
SameTime m m' = m'.initialization_time ≡ m.initialization_time

-- Both branches of a test keep the time.
pub either_time :
    {F A : Type 0} (metrics : A → Metrics F) (m : Metrics F) (b : Bool) (x y : A)
    → SameTime m (metrics x)
    → SameTime m (metrics y)
    → SameTime m (metrics (if b then x else y))
either_time metrics m true x y h k = h
either_time metrics m false x y h k = k

record_process_spawn-SameTime :
    {F : Type 0} (spec : ProcessSpec) (m : Metrics F) → SameTime m (record_process_spawn spec m)
unfolding record_process_spawn record_agent_spawn record_trace_agent_spawn
record_process_spawn-SameTime spec m =
    either_time (λ q. q) m (is_agent spec) _ _ refl
      (either_time (λ q. q) m (is_trace_agent spec) _ _ refl refl)

record_process_failure-SameTime :
    {F : Type 0} (spec : ProcessSpec) (m : Metrics F) → SameTime m (record_process_failure spec m)
unfolding record_process_failure record_agent_failure record_trace_agent_failure
record_process_failure-SameTime spec m =
    either_time (λ q. q) m (is_agent spec) _ _ refl
      (either_time (λ q. q) m (is_trace_agent spec) _ _ refl refl)

module _ {F : Type 0} (w : World) (spec : ProcessSpec) where
  may_spawn-SameTime : (slot : Slot) (m : Metrics F) → SameTime m (may_spawn w spec slot m).1
  unfolding may_spawn
  may_spawn-SameTime slot m =
      either_time (λ (q : Slot × Metrics F × Bool). q.1) m (is_backing_off w.now slot.next_attempt)
        _ _ refl
        (either_time (λ (q : Slot × Metrics F × Bool). q.1) m (is_taken w spec) _ _ refl refl)

  polled-SameTime :
      (slot : Slot) (m : Metrics F) (poll : Poll) → SameTime m (polled w spec slot m poll).1
  unfolding polled
  polled-SameTime slot m exited = may_spawn-SameTime _ _ ∙ record_process_failure-SameTime spec m
  polled-SameTime slot m still_running = refl
  polled-SameTime slot m poll_error =
      may_spawn-SameTime _ _ ∙ record_process_failure-SameTime spec m

  attempt_of-SameTime :
      (child : Option Child) (slot : Slot) (m : Metrics F)
      → SameTime m (attempt_of w spec child slot m).1
  unfolding attempt_of
  attempt_of-SameTime none slot m = may_spawn-SameTime slot m
  attempt_of-SameTime (some child) slot m = polled-SameTime slot m (w.try_wait child)

  should_attempt_spawn-SameTime :
      (slot : Slot) (m : Metrics F) → SameTime m (should_attempt_spawn w spec slot m).1
  unfolding should_attempt_spawn
  should_attempt_spawn-SameTime slot m = attempt_of-SameTime slot.child slot m

commit_spawn_result-SameTime :
    {F : Type 0} (now : ℕ) (spec : ProcessSpec) (slot : Slot) (m : Metrics F)
    (result : Option Child)
    → SameTime m (commit_spawn_result now spec slot m result).1
unfolding commit_spawn_result
commit_spawn_result-SameTime now spec slot m (some c) = record_process_spawn-SameTime spec m
commit_spawn_result-SameTime now spec slot m none = record_process_failure-SameTime spec m

module _ {F R : Type 0} (w : World) (spec : ProcessSpec)
    (spawn_fn : ProcessSpec → R → Option Child × R) where
  tick_result-SameTime :
      (slot : Slot) (m : Metrics F) (p : Option Child × R)
      → SameTime m (tick_result w spec spawn_fn slot m p).metrics
  unfolding tick_result
  tick_result-SameTime slot m (some c, r) = record_process_spawn-SameTime spec m
  tick_result-SameTime slot m (none, r) = record_process_failure-SameTime spec m

  tick_spawn-SameTime :
      (slot : Slot) (m : Metrics F) (r : R)
      → SameTime m (tick_spawn w spec spawn_fn slot m r).metrics
  unfolding tick_spawn
  tick_spawn-SameTime slot m r =
      either_time (λ (t : Tick F R). t.metrics) m (is_backing_off w.now slot.next_attempt) _ _ refl
        (either_time (λ (t : Tick F R). t.metrics) m (is_taken w spec) _ _ refl
          (tick_result-SameTime slot m (spawn_fn spec r)))

  tick_polled-SameTime :
      (slot : Slot) (m : Metrics F) (r : R) (poll : Poll)
      → SameTime m (tick_polled w spec spawn_fn slot m r poll).metrics
  unfolding tick_polled
  tick_polled-SameTime slot m r exited =
      tick_spawn-SameTime _ _ r ∙ record_process_failure-SameTime spec m
  tick_polled-SameTime slot m r still_running = refl
  tick_polled-SameTime slot m r poll_error =
      tick_spawn-SameTime _ _ r ∙ record_process_failure-SameTime spec m

  tick_child-SameTime :
      (child : Option Child) (slot : Slot) (m : Metrics F) (r : R)
      → SameTime m (tick_child w spec spawn_fn child slot m r).metrics
  unfolding tick_child
  tick_child-SameTime none slot m r = tick_spawn-SameTime slot m r
  tick_child-SameTime (some c) slot m r = tick_polled-SameTime slot m r (w.try_wait c)

  pub tick_process-SameTime :
      (slot : Slot) (m : Metrics F) (r : R)
      → SameTime m (tick_process w spec spawn_fn slot m r).metrics
  unfolding tick_process
  tick_process-SameTime slot m r = tick_child-SameTime slot.child slot m r

module _ {F : Type 0} (interval : ℕ) (w : World) (spawn : ProcessSpec → Option Child) where
  check_agent-SameTime :
      (spec : Option ProcessSpec) (s : System F)
      → SameTime s.metrics (check_agent interval w spawn spec s).metrics
  check_agent-SameTime none s = refl
  check_agent-SameTime (some spec) s =
      should_attempt_spawn-SameTime w spec s.manager.agent s.metrics

  due_agent-SameTime :
      (spec : Option ProcessSpec) (trace_due : Bool) (s : System F)
      → SameTime s.metrics (due_agent interval w spawn spec trace_due s).metrics
  unfolding spawn_agent
  due_agent-SameTime none trace_due s = refl
  due_agent-SameTime (some spec) trace_due s =
      either_time (λ (t : System F). t.metrics) s.metrics s.manager.should_run _ _ refl refl

  commit_agent-SameTime :
      (spec : Option ProcessSpec) (result trace_result : Attempted) (s : System F)
      → SameTime s.metrics (commit_agent interval w spawn spec result trace_result s).metrics
  commit_agent-SameTime none result trace_result s = refl
  commit_agent-SameTime (some spec) none trace_result s = refl
  commit_agent-SameTime (some spec) (some r) trace_result s =
      commit_spawn_result-SameTime w.now spec s.manager.agent s.metrics r

  commit_trace-SameTime :
      (started : Bool) (result : Attempted) (s : System F)
      → SameTime s.metrics (commit_trace interval w spawn started result s).metrics
  commit_trace-SameTime started none s = refl
  commit_trace-SameTime started (some r) s =
      commit_spawn_result-SameTime w.now s.manager.trace_spec s.manager.trace s.metrics r

  advance_at-SameTime :
      (pc : Pc) (s : System F) → SameTime s.metrics (advance_at interval w spawn pc s).metrics
  unfolding check_trace spawn_trace
  advance_at-SameTime at_loop s =
      either_time (λ (t : System F). t.metrics) s.metrics s.manager.should_run _ _
        (check_agent-SameTime s.manager.agent_spec s) refl
  advance_at-SameTime (agent_checked due) s =
      should_attempt_spawn-SameTime w s.manager.trace_spec s.manager.trace s.metrics
  advance_at-SameTime (checked true trace_due) s =
      due_agent-SameTime s.manager.agent_spec trace_due s
  advance_at-SameTime (checked false trace_due) s = refl
  advance_at-SameTime (agent_spawned result true) s =
      either_time (λ (t : System F). t.metrics) s.metrics s.manager.should_run _ _ refl refl
  advance_at-SameTime (agent_spawned result false) s = refl
  advance_at-SameTime (spawned result trace_result) s =
      commit_agent-SameTime s.manager.agent_spec result trace_result s
  advance_at-SameTime (agent_committed started trace_result) s =
      commit_trace-SameTime started trace_result s
  advance_at-SameTime (committed true) s = refl
  advance_at-SameTime (committed false) s = refl
  advance_at-SameTime computing s = refl
  advance_at-SameTime (sleeping d) s = refl
  advance_at-SameTime ended s = refl

  -- A step of the thread keeps the time of the initialization.
  pub advance-SameTime : (s : System F) → SameTime s.metrics (advance interval w spawn s).metrics
  unfolding advance
  advance-SameTime s = advance_at-SameTime s.pc s
