-- ===== src/Monitor/Equivalence.antt =====
-- The two ways to supervise a child are one: `tick_process`, and its replacement in the monitor loop.
use libagent.Base.{ℕ, ◌≡◌, refl, inl, inr, Bool, true, false, Option, none, some, Bool-cases}
use libagent.Process.{ProcessSpec}
use libagent.Metrics.{Metrics}
use libagent.Monitor.{
  Slot, World, Child, Poll, exited, still_running, poll_error, may_spawn, polled, attempt_of,
  should_attempt_spawn, commit_spawn_result, Tick, tick_result, tick_spawn, tick_polled, tick_child,
  tick_process, is_backing_off, is_taken,
}

module _ {F : Type 0} {R : Type 0} (w : World) (spec : ProcessSpec)
    (spawn_fn : ProcessSpec → R → Option Child × R) where
  -- `should_attempt_spawn`, the spawn if it is called for, and `commit_spawn_result`.
  abbrev pub commit_at : ℕ → Slot × Metrics F × Bool → R → Tick F R
  commit_at now (slot, m, false) r = record {
    slot = slot;
    metrics = m;
    outer = r;
    trace_agent_spawned = false;
  }
  commit_at now (slot, m, true) r =
      let (result, r') = spawn_fn spec r in
      let (slot', m', spawned) = commit_spawn_result now spec slot m result in
      record { slot = slot'; metrics = m'; outer = r'; trace_agent_spawned = spawned }

  unfoldable pub split_tick : ℕ → Slot → Metrics F → R → Tick F R
  split_tick now slot m r = commit_at now (should_attempt_spawn w spec slot m) r

  commit_result :
      (slot : Slot) (m : Metrics F) (p : Option Child × R)
      → tick_result w spec spawn_fn slot m p ≡ (
          let (slot', m', spawned) = commit_spawn_result w.now spec slot m p.0 in
          record { slot = slot'; metrics = m'; outer = p.1; trace_agent_spawned = spawned })
  unfolding tick_result commit_spawn_result
  commit_result slot m (some c, r) = refl
  commit_result slot m (none, r) = refl

  tick_spawn_lem :
      (slot : Slot) (m : Metrics F) (r : R)
      → tick_spawn w spec spawn_fn slot m r ≡ commit_at w.now (may_spawn w spec slot m) r
  unfolding tick_spawn may_spawn
  tick_spawn_lem slot m r = elim (Bool-cases (is_backing_off w.now slot.next_attempt)) [
    | inl e ↦ rw e
    | inr e ↦ rw e (elim (Bool-cases (is_taken w spec)) [
      | inl e₂ ↦ rw e₂
      | inr e₂ ↦ rw e₂ (commit_result slot m (spawn_fn spec r))
    ])
  ]

  tick_polled_lem :
      (slot : Slot) (m : Metrics F) (r : R) (p : Poll)
      → tick_polled w spec spawn_fn slot m r p ≡ commit_at w.now (polled w spec slot m p) r
  unfolding tick_polled polled
  tick_polled_lem slot m r exited = tick_spawn_lem _ _ r
  tick_polled_lem slot m r still_running = refl
  tick_polled_lem slot m r poll_error = tick_spawn_lem _ _ r

  tick_child_lem :
      (c : Option Child) (slot : Slot) (m : Metrics F) (r : R)
      → tick_child w spec spawn_fn c slot m r ≡ commit_at w.now (attempt_of w spec c slot m) r
  unfolding tick_child attempt_of
  tick_child_lem none slot m r = tick_spawn_lem slot m r
  tick_child_lem (some c) slot m r = tick_polled_lem slot m r (w.try_wait c)

  -- If no time passes between the check and the commit, both do the same to the slot, the metrics
  -- and the caller's state, on every branch.
  pub tick_process-split :
      (slot : Slot) (m : Metrics F) (r : R)
      → tick_process w spec spawn_fn slot m r ≡ split_tick w.now slot m r
  unfolding tick_process split_tick should_attempt_spawn
  tick_process-split slot m r = tick_child_lem slot.child slot m r
