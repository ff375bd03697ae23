-- ===== src/Monitor.antt =====
-- monitor.rs: when a child process is started, and the backoff between attempts that fail.
-- Instants and durations are numbers of nanoseconds.
pub mod Backoff
pub mod Equivalence
pub mod Supervision
pub mod Permission
pub mod Account
pub mod Loop
pub mod Uptime
use libagent.Base.{
  ℕ, ◌+◌, ◌*◌, min, Bool, true, false, ◌&&◌, not, Option, none, some, List, [], ◌∷◌, ltb,
  if◌then◌else◌,
}
use libagent.Text.{Bytes, is_empty}
use libagent.Text.Number.{u64_max}
use libagent.Config.{
  Env, get_trace_agent_uds_path, is_agent_enabled, get_agent_remote_config_addr,
  backoff_initial_secs, backoff_max_secs,
}
use libagent.Process.{ProcessSpec, is_agent, is_trace_agent}
use libagent.Metrics.{
  Metrics, record_agent_spawn, record_trace_agent_spawn, record_agent_failure,
  record_trace_agent_failure,
}

-- What `Child::try_wait` says: `Ok(Some(status))`, `Ok(None)` or `Err(_)`.
pub data Poll : Type 0 where
  exited still_running poll_error : Poll

-- A process is its number.
abbrev pub Child : Type 0
Child = ℕ

-- The child of one specification with its backoff, `agent_child` and so on.
pub record Slot : Type 0 where
  pub child : Option Child
  pub backoff_secs : ℕ
  pub next_attempt : Option ℕ

-- What the operating system answers during one check.
pub record World : Type 0 where
  pub now : ℕ
  pub env : Env
  pub try_wait : Child → Poll
  pub uds_connects : Bytes → Bool
  pub resolve : Bytes → Option (List Bytes)
  pub tcp_connects : Bytes → Bool

abbrev pub from_secs : ℕ → ℕ
from_secs n = n * 1000000000

-- `saturating_mul(2).min(get_backoff_max_secs())`.
unfoldable pub double_backoff : ℕ → ℕ
double_backoff b = min (min (b * 2) u64_max) backoff_max_secs

module _ {F : Type 0} where
  unfoldable pub record_process_spawn : ProcessSpec → Metrics F → Metrics F
  record_process_spawn spec m =
      if is_agent spec
      then record_agent_spawn m
      else if is_trace_agent spec
      then record_trace_agent_spawn m
      else m

  unfoldable pub record_process_failure : ProcessSpec → Metrics F → Metrics F
  record_process_failure spec m =
      if is_agent spec
      then record_agent_failure m
      else if is_trace_agent spec
      then record_trace_agent_failure m
      else m

-- The loop over the resolved addresses.
unfoldable pub any_connects : (Bytes → Bool) → List Bytes → Bool
any_connects connects [] = false
any_connects connects (a ∷ as') = if connects a then true else any_connects connects as'

abbrev pub resolved_connects : World → Option (List Bytes) → Bool
resolved_connects w none = false
resolved_connects w (some addrs) = any_connects w.tcp_connects addrs

abbrev pub addr_connects : World → Option Bytes → Bool
addr_connects w none = false
addr_connects w (some addr) = resolved_connects w (w.resolve addr)

unfoldable pub is_remote_config_available : World → Bool
is_remote_config_available w =
    if is_agent_enabled w.env then addr_connects w (get_agent_remote_config_addr w.env) else false

unfoldable pub is_socket_in_use : World → Bytes → Bool
is_socket_in_use w path = w.uds_connects path

-- The match on `spec.name`: another process already does the work of this one.
unfoldable pub is_taken : World → ProcessSpec → Bool
is_taken w spec =
    let path = get_trace_agent_uds_path w.env in
    if is_trace_agent spec
    then not (is_empty path) && is_socket_in_use w path
    else if is_agent spec
    then is_remote_config_available w
    else false

-- `next_attempt_guard.as_ref().is_some_and(|&next| now < next)`.
unfoldable pub is_backing_off : ℕ → Option ℕ → Bool
is_backing_off now none = false
is_backing_off now (some next) = ltb now next

module _ {F : Type 0} (w : World) (spec : ProcessSpec) where
  -- The checks of `should_attempt_spawn` once no child is running.
  unfoldable pub may_spawn : Slot → Metrics F → Slot × Metrics F × Bool
  may_spawn slot m =
      if is_backing_off w.now slot.next_attempt
      then (slot, m, false)
      else if is_taken w spec
      then (slot, m, false)
      else (slot, m, true)

  unfoldable pub polled : Slot → Metrics F → Poll → Slot × Metrics F × Bool
  polled slot m exited = may_spawn (record slot { child = none }) (record_process_failure spec m)
  polled slot m still_running = (slot, m, false)
  polled slot m poll_error =
      may_spawn (record slot { child = none }) (record_process_failure spec m)

  unfoldable pub attempt_of : Option Child → Slot → Metrics F → Slot × Metrics F × Bool
  attempt_of none slot m = may_spawn slot m
  attempt_of (some child) slot m = polled slot m (w.try_wait child)

  -- The slot, the metrics, and whether a spawn should be attempted.
  unfoldable pub should_attempt_spawn : Slot → Metrics F → Slot × Metrics F × Bool
  should_attempt_spawn slot m = attempt_of slot.child slot m

-- `now` is read anew when a failure is committed. The result is the slot, the metrics, and whether
-- a trace agent was spawned.
unfoldable pub commit_spawn_result :
    {F : Type 0} → ℕ → ProcessSpec → Slot → Metrics F → Option Child → Slot × Metrics F × Bool
commit_spawn_result now spec slot m (some new_child) = (
  record { child = some new_child; backoff_secs = backoff_initial_secs; next_attempt = none },
  record_process_spawn spec m,
  is_trace_agent spec,
)
commit_spawn_result now spec slot m none = (
  record slot {
    next_attempt = some (now + from_secs slot.backoff_secs);
    backoff_secs = double_backoff slot.backoff_secs;
  },
  record_process_failure spec m,
  false,
)

-- `tick_process`, which is one function in the source: the same checks, then the spawn by `spawn_fn`,
-- which works on a state of its caller, and the result.
pub record Tick (F : Type 0) (R : Type 0) : Type 0 where
  pub slot : Slot
  pub metrics : Metrics F
  pub outer : R
  pub trace_agent_spawned : Bool

module _ {F : Type 0} {R : Type 0} (w : World) (spec : ProcessSpec)
    (spawn_fn : ProcessSpec → R → Option Child × R) where
  abbrev idle : Slot → Metrics F → R → Tick F R
  idle slot m r = record { slot = slot; metrics = m; outer = r; trace_agent_spawned = false }

  unfoldable pub tick_result : Slot → Metrics F → Option Child × R → Tick F R
  tick_result slot m (some new_child, r) = record {
    slot = record {
      child = some new_child;
      backoff_secs = backoff_initial_secs;
      next_attempt = none;
    };
    metrics = record_process_spawn spec m;
    outer = r;
    trace_agent_spawned = is_trace_agent spec;
  }
  tick_result slot m (none, r) = record {
    slot = record slot {
      next_attempt = some (w.now + from_secs slot.backoff_secs);
      backoff_secs = double_backoff slot.backoff_secs;
    };
    metrics = record_process_failure spec m;
    outer = r;
    trace_agent_spawned = false;
  }

  unfoldable pub tick_spawn : Slot → Metrics F → R → Tick F R
  tick_spawn slot m r =
      let done = tick_result slot m (spawn_fn spec r) in
      if is_backing_off w.now slot.next_attempt
      then idle slot m r
      else if is_taken w spec
      then idle slot m r
      else done

  unfoldable pub tick_polled : Slot → Metrics F → R → Poll → Tick F R
  tick_polled slot m r exited =
      tick_spawn (record slot { child = none }) (record_process_failure spec m) r
  tick_polled slot m r still_running = idle slot m r
  tick_polled slot m r poll_error =
      tick_spawn (record slot { child = none }) (record_process_failure spec m) r

  unfoldable pub tick_child : Option Child → Slot → Metrics F → R → Tick F R
  tick_child none slot m r = tick_spawn slot m r
  tick_child (some child) slot m r = tick_polled slot m r (w.try_wait child)

  unfoldable pub tick_process : Slot → Metrics F → R → Tick F R
  tick_process slot m r = tick_child slot.child slot m r
