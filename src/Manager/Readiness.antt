-- ===== src/Manager/Readiness.antt =====
-- manager.rs: waiting for the trace agent's socket, before the first request goes to it.
pub mod Pipe
use libagent.Base.{
  ℕ, zero, suc, ◌+◌, ◌-◌, ◌*◌, ◌/◌, ◌≤◌, ◌<◌, ◌≡◌, refl, inl, inr, Bool, true, false, Option, none,
  some, arith, ltb, if◌then◌else◌, ltb→lt, Bool-cases,
}
use libagent.Text.{Bytes}
use libagent.Monitor.{Child, from_secs}
use libagent.Manager.{AgentManager}

-- The calls of the wait: connecting to a socket, `Instant::now` and `sleep`.
pub record Probe (S : Type 0) : Type 0 where
  pub connect : Bytes → S → Bool × S
  pub now : S → ℕ × S
  pub sleep : ℕ → S → S

-- 100 milliseconds; and the two timeouts, of a debug build and of a release build.
abbrev pub retry_interval : ℕ
retry_interval = 100000000

abbrev pub ready_timeout : Bool → ℕ
ready_timeout debug = if debug then 500000000 else from_secs 10

module _ {S : Type 0} (probe : Probe S) (uds_path : Bytes) where
  abbrev pub after_connect : (S → Option (Bool × S)) → Bool × S → Option (Bool × S)
  after_connect go (true, s) = some (true, s)
  after_connect go (false, s) = go (probe.sleep retry_interval s)

  -- A round of the loop, at the time that was read. The clock does not go back.
  abbrev pub ready_round : ℕ → ℕ → (S → Option (Bool × S)) → ℕ × S → Option (Bool × S)
  ready_round start timeout go (t, s) =
      let next = after_connect go (probe.connect uds_path s) in
      if ltb (t - start) timeout then next else some (false, s)

  -- `none` if the rounds run out.
  unfoldable pub wait_ready : ℕ → ℕ → ℕ → S → Option (Bool × S)
  wait_ready zero start timeout s = none
  wait_ready (suc fuel) start timeout s =
      ready_round start timeout (λ s'. wait_ready fuel start timeout s') (probe.now s)

  -- A round that goes on sleeps for the interval, so the timeout bounds the rounds.
  unfoldable pub wait_for_trace_agent_ready : ℕ → S → Option (Bool × S)
  wait_for_trace_agent_ready timeout s =
      let (start, s') = probe.now s in wait_ready (timeout / retry_interval + 2) start timeout s'

  -- Whether the call is `Ok`, the manager and the system after it.
  abbrev pub Ensured : Type 0
  Ensured = Option (Bool × AgentManager × S)

  abbrev pub after_wait : Bool → AgentManager → Option (Bool × S) → Ensured
  after_wait debug mgr none = none
  after_wait debug mgr (some (true, s)) = some (true, record mgr { trace_agent_ready = true }, s)
  after_wait true mgr (some (false, s)) = some (true, record mgr { trace_agent_ready = true }, s)
  after_wait false mgr (some (false, s)) = some (false, mgr, s)

  abbrev pub unless_absent : Bool → AgentManager → S → Option Child → Ensured
  unless_absent debug mgr s none = some (true, mgr, s)
  unless_absent debug mgr s (some c) =
      after_wait debug mgr (wait_for_trace_agent_ready (ready_timeout debug) s)

  unfoldable pub ensure_trace_agent_ready : Bool → AgentManager → S → Ensured
  ensure_trace_agent_ready debug mgr s =
      let checked = unless_absent debug mgr s mgr.trace.child in
      if mgr.trace_agent_ready then some (true, mgr, s) else checked

-- The clock does not go back, and a sleep lasts as long as it was asked to.
pub record IsClock {S : Type 0} (probe : Probe S) (time : S → ℕ) : Type 0 where
  pub now_reads : (s : S) → (time s ≤ (probe.now s).0) × ((probe.now s).0 ≤ time (probe.now s).1)
  pub sleep_lasts : (d : ℕ) (s : S) → time s + d ≤ time (probe.sleep d s)
  pub connect_later : (path : Bytes) (s : S) → time s ≤ time (probe.connect path s).1

-- The check came to an end. Where it is `Ok` with a child, the flag is set; where it is not, the
-- manager is as it was, in a release build. Nothing else of the manager changes.
abbrev pub EnsuresReady :
    {S : Type 0} → Bool → AgentManager → Option (Bool × AgentManager × S) → Type 0
EnsuresReady debug mgr none = ⊥
EnsuresReady debug mgr (some (true, after, s)) =
    ((c : Child) → mgr.trace.child ≡ some c → after.trace_agent_ready ≡ true)
    × (record after { trace_agent_ready = mgr.trace_agent_ready } ≡ mgr)
EnsuresReady debug mgr (some (false, after, s)) = (after ≡ mgr) × (debug ≡ false)

module _ {S : Type 0} (probe : Probe S) (uds_path : Bytes) (time : S → ℕ)
    (clock : IsClock probe time) where
  abbrev pub Ended : Option (Bool × S) → Type 0
  Ended none = ⊥
  Ended (some p) = Unit

  after_connect-Ended :
      (go : S → Option (Bool × S)) (t₀ : ℕ) (p : Bool × S)
      → t₀ ≤ time p.1
      → ((s : S) → t₀ + retry_interval ≤ time s → Ended (go s))
      → Ended (after_connect probe uds_path go p)
  after_connect-Ended go t₀ (true, s) later h = tt
  after_connect-Ended go t₀ (false, s) later h =
      let slept = clock.sleep_lasts retry_interval s in
      h (probe.sleep retry_interval s) (omega arith)

  wait_ready-Ended :
      (fuel start timeout : ℕ) (s : S)
      → 0 < fuel
      → start ≤ time s
      → start + timeout + retry_interval ≤ time s + fuel * retry_interval
      → Ended (wait_ready probe uds_path fuel start timeout s)
  unfolding wait_ready
  wait_ready-Ended zero start timeout s p q h = absurd (omega arith)
  wait_ready-Ended (suc fuel) start timeout s p q h =
      elim (Bool-cases (ltb ((probe.now s).0 - start) timeout)) [
        | inl e ↦
            let (lo, hi) = clock.now_reads s in
            let early = ltb→lt ((probe.now s).0 - start) timeout e in
            rw e (
              after_connect-Ended (λ s'. wait_ready probe uds_path fuel start timeout s') (time s)
                (probe.connect uds_path (probe.now s).1)
                (let c = clock.connect_later uds_path (probe.now s).1 in omega arith)
                (λ s' slept.
                  wait_ready-Ended fuel start timeout s' (omega arith) (omega arith) (omega arith)))
        | inr e ↦ rw e tt
      ]

  pub wait_for_trace_agent_ready-Ended :
      (timeout : ℕ) (s : S) → Ended (wait_for_trace_agent_ready probe uds_path timeout s)
  unfolding wait_for_trace_agent_ready
  wait_for_trace_agent_ready-Ended timeout s =
      let (lo, hi) = clock.now_reads s in
      wait_ready-Ended (timeout / retry_interval + 2) (probe.now s).0 timeout (probe.now s).1
        (omega arith) (omega arith) (omega arith)

  pub after_wait-EnsuresReady :
      (debug : Bool) (mgr : AgentManager) (r : Option (Bool × S))
      → Ended r
      → EnsuresReady debug mgr (after_wait probe uds_path debug mgr r)
  after_wait-EnsuresReady debug mgr none h = h
  after_wait-EnsuresReady debug mgr (some (true, s)) h = (λ c e. refl, refl)
  after_wait-EnsuresReady true mgr (some (false, s)) h = (λ c e. refl, refl)
  after_wait-EnsuresReady false mgr (some (false, s)) h = (refl, refl)

  unless_absent-EnsuresReady :
      (debug : Bool) (mgr : AgentManager) (s : S) (child : Option Child)
      → mgr.trace.child ≡ child
      → EnsuresReady debug mgr (unless_absent probe uds_path debug mgr s child)
  unless_absent-EnsuresReady debug mgr s none h = (λ c e. absurd (cc (h, e)), refl)
  unless_absent-EnsuresReady debug mgr s (some c) h =
      after_wait-EnsuresReady debug mgr _ (wait_for_trace_agent_ready-Ended (ready_timeout debug) s)

  -- The check before a request ends, however the socket answers, when the clock goes on. If it is
  -- `Ok` and a trace agent was spawned, the readiness flag is set afterwards; it fails in a release
  -- build only, and then leaves the manager alone. It changes no more than the flag.
  pub ensure_trace_agent_ready-EnsuresReady :
      (debug : Bool) (mgr : AgentManager) (s : S)
      → EnsuresReady debug mgr (ensure_trace_agent_ready probe uds_path debug mgr s)
  unfolding ensure_trace_agent_ready
  ensure_trace_agent_ready-EnsuresReady debug mgr s = branch mgr.trace_agent_ready refl
    where
      branch :
          (b : Bool)
          → mgr.trace_agent_ready ≡ b
          → EnsuresReady debug mgr (
              if b
              then some (true, mgr, s)
              else unless_absent probe uds_path debug mgr s mgr.trace.child)
      branch true e = (λ c h. e, refl)
      branch false e = unless_absent-EnsuresReady debug mgr s mgr.trace.child refl
