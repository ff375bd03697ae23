-- ===== src/Manager.antt =====
-- manager.rs: the manager of the two agents. A method takes the manager and gives the new one; the
-- locks serialise the methods. The monitor thread is a flag here; its steps are in Monitor.Loop.
pub mod Readiness
pub mod Lifecycle
pub mod Signals
pub mod Invariant
pub mod Orphans
pub mod Session
pub mod Job
use libagent.Base.{Bool, true, false, Option, none, some, List, if◌then◌else◌}
use libagent.Text.{Bytes}
use libagent.Config.{
  Env, Places, get_agent_program, get_agent_args, get_trace_agent_program, get_trace_agent_args,
  is_agent_enabled, backoff_initial_secs,
}
use libagent.Process.{ProcessSpec, agent_name, trace_agent_name, is_trace_agent}
use libagent.Metrics.{Metrics, record_initialization, clear_initialization}
use libagent.Monitor.{Child, Slot, World, Tick, tick_process}
use libagent.Shutdown.{Os, Signal, graceful_kill}

pub record AgentManager : Type 0 where
  pub should_run : Bool
  pub monitor_thread : Bool
  pub agent_spec : Option ProcessSpec
  pub trace_spec : ProcessSpec
  pub agent : Slot
  pub trace : Slot
  pub trace_agent_ready : Bool

-- What `AgentManager::new` reads: the environment, the file system and the shell-word splitter.
pub record Host : Type 0 where
  pub env : Env
  pub places : Places
  pub split : Bytes → Option (List Bytes)

abbrev pub fresh_slot : Slot
fresh_slot = record { child = none; backoff_secs = backoff_initial_secs; next_attempt = none }

unfoldable pub new_agent_spec : Host → Option ProcessSpec
new_agent_spec host =
    if is_agent_enabled host.env
    then some (record {
      name = agent_name;
      program = get_agent_program host.env;
      args = get_agent_args host.split host.env;
    })
    else none

unfoldable pub new : Host → AgentManager
new host = record {
  should_run = false;
  monitor_thread = false;
  agent_spec = new_agent_spec host;
  trace_spec = record {
    name = trace_agent_name;
    program = get_trace_agent_program host.places host.env;
    args = get_trace_agent_args host.split host.env;
  };
  agent = fresh_slot;
  trace = fresh_slot;
  trace_agent_ready = false;
}

unfoldable pub reset_trace_agent_readiness : AgentManager → AgentManager
reset_trace_agent_readiness mgr = record mgr { trace_agent_ready = false }

unfoldable pub reset_slot : Slot → Slot
reset_slot slot = record slot { backoff_secs = backoff_initial_secs; next_attempt = none }

unfoldable pub reset_backoff_state : AgentManager → AgentManager
unfolding reset_slot
reset_backoff_state mgr = record mgr { agent = reset_slot mgr.agent; trace = reset_slot mgr.trace }

abbrev pub ready_after : ProcessSpec → Bool → Option Child → Option Child × Bool
ready_after spec ready none = (none, ready)
ready_after spec ready (some c) = (some c, if is_trace_agent spec then false else ready)

-- `spawn_process`, on the readiness flag: a new trace agent is not ready.
unfoldable pub spawn_process :
    (ProcessSpec → Option Child) → ProcessSpec → Bool → Option Child × Bool
spawn_process spawn spec ready = ready_after spec ready (spawn spec)

module _ {F : Type 0} where
  -- `tick_process`: the readiness flag goes when a trace agent was spawned.
  unfoldable pub settle : Tick F Bool → Bool
  settle t = if t.trace_agent_spawned then false else t.outer

  abbrev tick :
      World → (ProcessSpec → Option Child) → ProcessSpec → Slot → Metrics F → Bool → Tick F Bool
  tick w spawn spec slot m ready = tick_process w spec (spawn_process spawn) slot m ready

  -- The first tick of each child, at the time when it is reached.
  unfoldable pub tick_agent :
      Option ProcessSpec
      → World
      → (ProcessSpec → Option Child)
      → AgentManager
      → Metrics F
      → AgentManager × Metrics F
  tick_agent none w spawn mgr m = (mgr, m)
  tick_agent (some spec) w spawn mgr m =
      let t = tick w spawn spec mgr.agent m mgr.trace_agent_ready in
      (record mgr { agent = t.slot; trace_agent_ready = settle t }, t.metrics)

  unfoldable pub tick_trace :
      World → (ProcessSpec → Option Child) → AgentManager → Metrics F → AgentManager × Metrics F
  tick_trace w spawn mgr m =
      let t = tick w spawn mgr.trace_spec mgr.trace m mgr.trace_agent_ready in
      (record mgr { trace = t.slot; trace_agent_ready = settle t }, t.metrics)

  -- What `start` does once it has set `should_run`, up to the children's first ticks. The worlds are
  -- those of the two ticks.
  abbrev pub start_children :
      World
      → World
      → (ProcessSpec → Option Child)
      → AgentManager
      → Metrics F
      → AgentManager × Metrics F
  start_children w_agent w_trace spawn mgr m =
      let m₁ = record_initialization w_agent.now m in
      let mgr₁ =
        reset_trace_agent_readiness (reset_backoff_state (record mgr { should_run = true })) in
      let (mgr₂, m₂) = tick_agent mgr₁.agent_spec w_agent spawn mgr₁ m₁ in
      tick_trace w_trace spawn mgr₂ m₂

  unfoldable pub start_body :
      World
      → World
      → (ProcessSpec → Option Child)
      → AgentManager
      → Metrics F
      → AgentManager × Metrics F
  start_body w_agent w_trace spawn mgr m =
      let (mgr', m') = start_children w_agent w_trace spawn mgr m in
      (record mgr' { monitor_thread = true }, m')

  unfoldable pub start :
      World
      → World
      → (ProcessSpec → Option Child)
      → AgentManager
      → Metrics F
      → AgentManager × Metrics F
  start w_agent w_trace spawn mgr m =
      if mgr.should_run then (mgr, m) else start_body w_agent w_trace spawn mgr m

-- The manager, the metrics and the system behind `stop`; `none` if a wait ran out of rounds.
abbrev pub Stopped : Type 0 → Type 0 → Type 0
Stopped F S = Option (AgentManager × Metrics F × S)

-- The option in the slot is what the kill leaves of it.
abbrev pub put_back :
    {S : Type 0} → Slot → Option (Option Child × List Signal × S) → Option (Slot × S)
put_back slot none = none
put_back slot (some (c, signals, s)) = some (record slot { child = c }, s)

module _ {S : Type 0} (os : Child → Os S) where
  unfoldable pub kill_agent : Option ProcessSpec → Slot → S → Option (Slot × S)
  kill_agent none slot s = some (slot, s)
  kill_agent (some spec) slot s = put_back slot (graceful_kill os slot.child s)

  unfoldable pub kill_trace : Slot → S → Option (Slot × S)
  kill_trace slot s = put_back slot (graceful_kill os slot.child s)

-- What is left to do once the children are dead.
unfoldable pub stop_end :
    {F S : Type 0} → AgentManager → Metrics F → Slot → Slot → S → AgentManager × Metrics F × S
stop_end mgr m agent trace s = (
  reset_backoff_state (
      reset_trace_agent_readiness
        (record mgr { should_run = false; monitor_thread = false; agent = agent; trace = trace })),
  clear_initialization m,
  s,
)

module _ {F : Type 0} {S : Type 0} (os : Child → Os S) where
  abbrev after_agent : AgentManager → Metrics F → Option (Slot × S) → Stopped F S
  after_agent mgr m none = none
  after_agent mgr m (some (agent, s)) = elim (kill_trace os mgr.trace s) [
    | none ↦ none
    | some (trace, s') ↦ some (stop_end mgr m agent trace s')
  ]

  unfoldable pub stop_body : AgentManager → Metrics F → S → Stopped F S
  stop_body mgr m s = after_agent mgr m (kill_agent os mgr.agent_spec mgr.agent s)

  unfoldable pub stop : AgentManager → Metrics F → S → Stopped F S
  stop mgr m s =
      let stopped = stop_body mgr m s in if mgr.should_run then stopped else some (mgr, m, s)

-- The functions of the module, on the global cell: `none` until `manager_cell` is first called.
abbrev pub Global : Type 0
Global = Option AgentManager

-- `manager_cell`: the cell is filled on the first call.
unfoldable pub manager_cell : Host → Global → AgentManager
manager_cell host none = new host
manager_cell host (some mgr) = mgr

module _ {F : Type 0} where
  -- `initialize`: a running manager is kept, and otherwise a new one is put in its place.
  unfoldable pub initialize_in :
      Host
      → World
      → World
      → (ProcessSpec → Option Child)
      → AgentManager
      → Metrics F
      → AgentManager × Metrics F
  initialize_in host w_agent w_trace spawn current m =
      if current.should_run then (current, m) else start w_agent w_trace spawn (new host) m

  unfoldable pub initialize :
      Host → World → World → (ProcessSpec → Option Child) → Global → Metrics F → Global × Metrics F
  initialize host w_agent w_trace spawn g m =
      let (mgr, m') = initialize_in host w_agent w_trace spawn (manager_cell host g) m in
      (some mgr, m')

  unfoldable pub stop_global :
      {S : Type 0} → (Child → Os S) → Global → Metrics F → S → Option (Global × Metrics F × S)
  stop_global os none m s = some (none, m, s)
  stop_global os (some mgr) m s = elim (stop os mgr m s) [
    | none ↦ none
    | some (mgr', m', s') ↦ some (some mgr', m', s')
  ]
