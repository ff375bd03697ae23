-- ===== src/Tests/Supervision.antt =====
-- The theorems on spawning and backing off, at concrete inputs.
use libagent.Base.{
  ℕ, ◌+◌, ◌^◌, min, ◌≡◌, refl, ◌↔◌, inl, true, false, Option, none, some, [], ◌∷◌, ◌++◌, arith,
}
use libagent.Text.{codes, bytes_eq}
use libagent.Config.{not_present, Env}
use libagent.Metrics.{Floats, Metrics}
use libagent.Metrics
use libagent.Process.{ProcessSpec, agent_name, is_agent}
use libagent.Monitor.{Child, exited, Slot, World, from_secs, tick_process, should_attempt_spawn}
use libagent.Monitor.Backoff.{IsValid, tick_process-IsValid, fail_at, fail_at_backoff}
use libagent.Monitor.Equivalence.{split_tick, tick_process-split}
use libagent.Monitor.Supervision.{NotRunning}
use libagent.Monitor.Permission.{IsDue, IsFree, should_attempt_spawn-Permits}
use libagent.Monitor.Account.{spawns, failures, IsKnown, Accounted, supervise, supervise-Accounted}

abbrev floats : Floats Unit
floats = record {
  zero_float = tt;
  alpha = tt;
  one_minus_alpha = tt;
  add = λ a b. tt;
  mul = λ a b. tt;
  is_zero = λ a. true;
}

abbrev no_metrics : Metrics Unit
no_metrics = Metrics.new floats

abbrev agent : ProcessSpec
agent = record { name = agent_name; program = codes "datadog-agent"; args = [] }

-- Every child has exited, and no other process does the work.
abbrev world : World
world = record {
  now = 7;
  env = λ name. not_present;
  try_wait = λ c. exited;
  uds_connects = λ path. false;
  resolve = λ addr. none;
  tcp_connects = λ addr. false;
}

-- Every spawn fails; the caller's state counts the attempts.
abbrev failing : ProcessSpec → ℕ → Option Child × ℕ
failing spec n = (none, n + 1)

abbrev exited_slot : Slot
exited_slot = record { child = some 42; backoff_secs = 1; next_attempt = none }

exited_slot-IsValid : IsValid exited_slot
exited_slot-IsValid = record {
  at_least_initial = omega arith;
  at_most_max = omega arith;
  calm = λ c e. refl;
}

tick_process-IsValid_example :
    IsValid (tick_process world agent failing exited_slot no_metrics 0).slot
tick_process-IsValid_example =
    tick_process-IsValid world agent failing exited_slot no_metrics 0 exited_slot-IsValid

tick_process-split_example :
    tick_process world agent failing exited_slot no_metrics 0
    ≡ split_tick world agent failing 7 exited_slot no_metrics 0
tick_process-split_example = tick_process-split world agent failing exited_slot no_metrics 0

should_attempt_spawn-Permits_example :
    ((should_attempt_spawn world agent exited_slot no_metrics).2 ≡ true)
    ↔ (NotRunning world exited_slot × IsDue world exited_slot × IsFree world agent)
should_attempt_spawn-Permits_example =
    should_attempt_spawn-Permits world agent exited_slot no_metrics

fail_at_backoff_example :
    let after = (fail_at agent ((10 ∷ 20 ∷ []) ++ 30 ∷ []) exited_slot no_metrics).0 in
    (after.backoff_secs ≡ min (2 ^ (0 + 3)) 30)
    × (after.next_attempt ≡ some (30 + from_secs (min (2 ^ (0 + 2)) 30)))
    × (after.child ≡ exited_slot.child)
fail_at_backoff_example = fail_at_backoff agent (10 ∷ 20 ∷ []) 30 0 exited_slot no_metrics refl

agent-IsKnown : IsKnown agent
unfolding is_agent bytes_eq
agent-IsKnown = inl refl

no_metrics-Accounted : Accounted agent agent-IsKnown 1 exited_slot no_metrics
unfolding spawns failures is_agent bytes_eq Metrics.new
no_metrics-Accounted = record {
  few_spawns = omega arith;
  few_failures = omega arith;
  matched = omega arith;
}

supervise-Accounted_example :
    Accounted agent agent-IsKnown 5
      (supervise agent agent-IsKnown failing (world ∷ world ∷ []) exited_slot no_metrics 0).slot
      (supervise agent agent-IsKnown failing (world ∷ world ∷ []) exited_slot no_metrics 0).metrics
supervise-Accounted_example =
    supervise-Accounted agent agent-IsKnown failing (world ∷ world ∷ []) 1 exited_slot no_metrics 0
      (omega arith) no_metrics-Accounted

abbrev empty_env : Env
empty_env name = not_present
