-- ===== src/Monitor/Account.antt =====
-- The account of spawns and failures that the metrics keep, over any number of ticks.
use libagent.Base.{
  ℕ, suc, ◌+◌, ◌*◌, ◌≤◌, ◌<◌, ◌≡◌, refl, ◌⊎◌, inl, inr, Bool, true, false, Option, none, some, List,
  [], ◌∷◌, arith, if◌then◌else◌, Bool-cases, length,
}
use libagent.Process.{ProcessSpec, is_agent, is_trace_agent}
use libagent.Metrics.{
  Metrics, u64_mod, fetch_add_one, record_agent_spawn, record_trace_agent_spawn,
  record_agent_failure, record_trace_agent_failure,
}
use libagent.Monitor.{
  Slot, World, Child, Poll, exited, still_running, poll_error, record_process_spawn,
  record_process_failure, may_spawn, polled, attempt_of, should_attempt_spawn, commit_spawn_result,
  is_backing_off, is_taken, Tick, tick_process,
}
use libagent.Monitor.Equivalence.{commit_at, split_tick, tick_process-split}
use libagent.Monitor.Backoff.{should_attempt_spawn-Childless}

-- The counters of a specification.
unfoldable pub spawns : {F : Type 0} → ProcessSpec → Metrics F → ℕ
spawns spec m = if is_agent spec then m.agent_spawns else m.trace_agent_spawns

unfoldable pub failures : {F : Type 0} → ProcessSpec → Metrics F → ℕ
failures spec m = if is_agent spec then m.agent_failures else m.trace_agent_failures

abbrev pub IsKnown : ProcessSpec → Type 0
IsKnown spec = (is_agent spec ≡ true) ⊎ ((is_agent spec ≡ false) × (is_trace_agent spec ≡ true))

abbrev pub present : Option Child → ℕ
present none = 0
present (some c) = 1

module _ {F : Type 0} (spec : ProcessSpec) (known : IsKnown spec) where
  spawn_counts :
      (m : Metrics F)
      → (spawns spec (record_process_spawn spec m) ≡ fetch_add_one (spawns spec m))
        × (failures spec (record_process_spawn spec m) ≡ failures spec m)
  unfolding spawns failures record_process_spawn record_agent_spawn record_trace_agent_spawn
  spawn_counts m = elim known [ inl a ↦ rw a (refl, refl) | inr (a, t) ↦ rw (a, t) (refl, refl) ]

  failure_counts :
      (m : Metrics F)
      → (failures spec (record_process_failure spec m) ≡ fetch_add_one (failures spec m))
        × (spawns spec (record_process_failure spec m) ≡ spawns spec m)
  unfolding spawns failures record_process_failure record_agent_failure record_trace_agent_failure
  failure_counts m = elim known [ inl a ↦ rw a (refl, refl) | inr (a, t) ↦ rw (a, t) (refl, refl) ]

  -- After at most `n` checks and spawns, every spawn is matched by the child that is there or by a
  -- failure that was counted.
  pub record Accounted (n : ℕ) (slot : Slot) (m : Metrics F) : Type 0 where
    pub few_spawns : spawns spec m ≤ n
    pub few_failures : failures spec m ≤ n
    pub matched : spawns spec m ≤ failures spec m + present slot.child

  module _ (w : World) where
    may_spawn-Accounted :
        (n : ℕ) (slot : Slot) (m : Metrics F)
        → Accounted n slot m
        → Accounted n (may_spawn w spec slot m).0 (may_spawn w spec slot m).1
    unfolding may_spawn
    may_spawn-Accounted n slot m h = elim (Bool-cases (is_backing_off w.now slot.next_attempt)) [
      | inl e ↦ rw e h
      | inr e ↦ rw e (elim (Bool-cases (is_taken w spec)) [ inl e₂ ↦ rw e₂ h | inr e₂ ↦ rw e₂ h ])
    ]

    dropped-Accounted :
        (n : ℕ) (slot : Slot) (m : Metrics F)
        → suc n < u64_mod
        → Accounted n slot m
        → Accounted (suc n) (record slot { child = none }) (record_process_failure spec m)
    dropped-Accounted n slot m small h =
        let (f, s) = failure_counts m in
        let few = h.few_spawns in
        let fewer = h.few_failures in
        let matched = h.matched in
        let one : present slot.child ≤ 1 = at_most_one slot.child in
        record { few_spawns = omega arith; few_failures = omega arith; matched = omega arith }
      where
        at_most_one : (c : Option Child) → present c ≤ 1
        at_most_one none = omega arith
        at_most_one (some c) = omega arith

    weaker : (n : ℕ) (slot : Slot) (m : Metrics F) → Accounted n slot m → Accounted (suc n) slot m
    weaker n slot m h =
        let few = h.few_spawns in
        let fewer = h.few_failures in
        record { few_spawns = omega arith; few_failures = omega arith; matched = h.matched }

    polled-Accounted :
        (n : ℕ) (slot : Slot) (m : Metrics F) (p : Poll)
        → suc n < u64_mod
        → Accounted n slot m
        → Accounted (suc n) (polled w spec slot m p).0 (polled w spec slot m p).1
    unfolding polled
    polled-Accounted n slot m exited small h =
        may_spawn-Accounted (suc n) _ _ (dropped-Accounted n slot m small h)
    polled-Accounted n slot m still_running small h = weaker n slot m h
    polled-Accounted n slot m poll_error small h =
        may_spawn-Accounted (suc n) _ _ (dropped-Accounted n slot m small h)

    attempt_of-Accounted :
        (n : ℕ) (c : Option Child) (slot : Slot) (m : Metrics F)
        → suc n < u64_mod
        → Accounted n slot m
        → Accounted (suc n) (attempt_of w spec c slot m).0 (attempt_of w spec c slot m).1
    unfolding attempt_of
    attempt_of-Accounted n none slot m small h =
        may_spawn-Accounted (suc n) slot m (weaker n slot m h)
    attempt_of-Accounted n (some c) slot m small h =
        polled-Accounted n slot m (w.try_wait c) small h

  commit-Accounted :
      (n now : ℕ) (slot : Slot) (m : Metrics F) (result : Option Child)
      → suc n < u64_mod
      → slot.child ≡ none
      → Accounted n slot m
      → Accounted
          (suc n)
          (commit_spawn_result now spec slot m result).0
          (commit_spawn_result now spec slot m result).1
  unfolding commit_spawn_result
  commit-Accounted n now slot m (some c) small e h =
      let (s, f) = spawn_counts m in
      let few = h.few_spawns in
      let fewer = h.few_failures in
      let matched : spawns spec m ≤ failures spec m + 0 = rw e at h.matched in
      record { few_spawns = omega arith; few_failures = omega arith; matched = omega arith }
  commit-Accounted n now slot m none small e h =
      let (f, s) = failure_counts m in
      let few = h.few_spawns in
      let fewer = h.few_failures in
      let matched = h.matched in
      record { few_spawns = omega arith; few_failures = omega arith; matched = omega arith }

module _ {F : Type 0} {R : Type 0} (spec : ProcessSpec) (known : IsKnown spec)
    (spawn_fn : ProcessSpec → R → Option Child × R) where
  commit_at-Accounted :
      (w : World) (n : ℕ) (slot : Slot) (m : Metrics F) (b : Bool) (r : R)
      → suc n < u64_mod
      → (b ≡ true → slot.child ≡ none)
      → Accounted spec known n slot m
      → Accounted spec known
          (suc n)
          (commit_at w spec spawn_fn w.now (slot, m, b) r).slot
          (commit_at w spec spawn_fn w.now (slot, m, b) r).metrics
  commit_at-Accounted w n slot m false r small h a = weaker spec known w n slot m a
  commit_at-Accounted w n slot m true r small h a =
      commit-Accounted spec known n w.now slot m (spawn_fn spec r).0 small (h refl) a

  tick-Accounted :
      (w : World) (n : ℕ) (slot : Slot) (m : Metrics F) (r : R)
      → n + 2 < u64_mod
      → Accounted spec known n slot m
      → Accounted spec known
          (n + 2)
          (tick_process w spec spawn_fn slot m r).slot
          (tick_process w spec spawn_fn slot m r).metrics
  unfolding split_tick should_attempt_spawn
  tick-Accounted w n slot m r small a =
      let e : n + 2 ≡ suc (suc n) = omega arith in
      let checked = should_attempt_spawn w spec slot m in
      rw (e, tick_process-split w spec spawn_fn slot m r)
        (commit_at-Accounted w (suc n) checked.0 checked.1 checked.2 r (omega arith)
          (should_attempt_spawn-Childless w spec slot m)
          (attempt_of-Accounted spec known w n slot.child slot m (omega arith) a))

  -- One tick after the other.
  unfoldable pub supervise : List World → Slot → Metrics F → R → Tick F R
  supervise [] slot m r = record {
    slot = slot;
    metrics = m;
    outer = r;
    trace_agent_spawned = false;
  }
  supervise (w ∷ ws) slot m r =
      let t = tick_process w spec spawn_fn slot m r in supervise ws t.slot t.metrics t.outer

  -- For the agent's or the trace agent's specification, over any ticks in any worlds of which there are
  -- so few that a count bound by `n` stays below 2 ^ 64 when each adds two, the counters stay matched:
  -- there is no spawn that neither the child in the slot nor a counted failure accounts for.
  pub supervise-Accounted :
      (ws : List World) (n : ℕ) (slot : Slot) (m : Metrics F) (r : R)
      → n + 2 * length ws < u64_mod
      → Accounted spec known n slot m
      → Accounted spec known
          (n + 2 * length ws)
          (supervise ws slot m r).slot
          (supervise ws slot m r).metrics
  unfolding supervise
  supervise-Accounted [] n slot m r small a = let e : n + 2 * 0 ≡ n = omega arith in rw e a
  supervise-Accounted (w ∷ ws) n slot m r small a =
      let t = tick_process w spec spawn_fn slot m r in
      let e : n + 2 * suc (length ws) ≡ n + 2 + 2 * length ws = omega arith in
      rw e (
        supervise-Accounted ws (n + 2) t.slot t.metrics t.outer (omega arith)
          (tick-Accounted w n slot m r (omega arith) a))
