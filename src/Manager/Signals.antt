-- ===== src/Manager/Signals.antt =====
-- What `stop` asks the system to do to the children that are in the slots.
use libagent.Base.{
  ℕ, ◌≡◌, refl, sym, subst, ◌≢◌, Bool, true, false, Option, none, some, List, [], ◌++◌,
  if◌then◌else◌,
}
use libagent.Process.{ProcessSpec}
use libagent.Metrics.{Metrics}
use libagent.Monitor.{Child, Slot}
use libagent.Shutdown.{Os, Signal, Progress, emptied, kill_child, graceful_kill}
use libagent.Shutdown.Waits.{IsClock}
use libagent.Shutdown.Escalation.{IsLog, entries, all_signals, Escalates, kill_child-Escalates}
use libagent.Manager.{
  AgentManager, Stopped, put_back, kill_agent, kill_trace, stop_end, after_agent, stop_body, stop,
}
use libagent.Manager.Invariant.{IsClean, IsSound}
use libagent.Manager.Lifecycle.{StopsClean, stop-IsClean}

module _ {S : Type 0} (os : Child → Os S) (sent : S → List (Child × Signal)) where
  -- From the first state to the second, the child of a slot was told to end: it was sent the first of the
  -- documented signals, and those that follow up to some, in order. Nothing else was sent.
  abbrev pub Told : Option Child → S → S → Type 0
  Told none s s' = sent s' ≡ sent s
  Told (some c) s s' =
      (signals : List Signal) × (left : List Signal) × (sent s'
        ≡ sent s ++ entries (λ sig. (c, sig)) signals)
      × (signals ++ left ≡ all_signals)
      × (signals ≢ [])

  -- The agent's child was told, and then the trace agent's; where the manager did not run, nobody was.
  abbrev pub ToldBoth : Bool → AgentManager → S → S → Type 0
  ToldBoth true mgr s s' =
      (between : S) × Told mgr.agent.child s between × Told mgr.trace.child between s'
  ToldBoth false mgr s s' = sent s' ≡ sent s

  abbrev BodyTells : {F : Type 0} → AgentManager → S → Stopped F S → Type 0
  BodyTells mgr s none = Unit
  BodyTells mgr s (some (mgr', m, s')) = ToldBoth true mgr s s'

  abbrev KillTells : Option Child → S → Option (Option Child × List Signal × S) → Type 0
  KillTells child s none = Unit
  KillTells child s (some (c, signals, s')) = Told child s s'

  abbrev SlotTells : Option Child → S → Option (Slot × S) → Type 0
  SlotTells child s none = Unit
  SlotTells child s (some (slot, s')) = Told child s s'

  module _ (time : Child → S → ℕ) (clock : (c : Child) → IsClock (os c) (time c))
      (log : (c : Child) → IsLog (os c) (λ sig. (c, sig)) sent) where
    graceful_kill-Tells :
        (child : Option Child) (s : S) → KillTells child s (graceful_kill os child s)
    unfolding graceful_kill
    graceful_kill-Tells none s = refl
    graceful_kill-Tells (some c) s =
        killed (kill_child (os c) s)
          (kill_child-Escalates (os c) (time c) (clock c) (λ sig. (c, sig)) sent (log c) s)
      where
        killed :
            (r : Option (Progress S))
            → Escalates (λ sig. (c, sig)) sent s r
            → KillTells (some c) s (emptied r)
        killed none h = tt
        killed (some (t, signals, s')) (e, (left, l), ne, all) = (signals, left, e, l, ne)

    put_back-Tells :
        (slot : Slot) (child : Option Child) (s : S) (r : Option (Option Child × List Signal × S))
        → KillTells child s r
        → SlotTells child s (put_back slot r)
    put_back-Tells slot child s none h = tt
    put_back-Tells slot child s (some (c, signals, s')) h = h

    kill_agent-Tells :
        (spec : Option ProcessSpec) (slot : Slot) (s : S)
        → (spec ≡ none → slot.child ≡ none)
        → SlotTells slot.child s (kill_agent os spec slot s)
    unfolding kill_agent
    kill_agent-Tells none slot s un = subst (λ c. Told c s s) (sym (un refl)) refl
    kill_agent-Tells (some spec) slot s un =
        put_back-Tells slot slot.child s _ (graceful_kill-Tells slot.child s)

    kill_trace-Tells : (slot : Slot) (s : S) → SlotTells slot.child s (kill_trace os slot s)
    unfolding kill_trace
    kill_trace-Tells slot s = put_back-Tells slot slot.child s _ (graceful_kill-Tells slot.child s)

    after_agent-Tells :
        {F : Type 0} (mgr : AgentManager) (m : Metrics F) (s : S) (r : Option (Slot × S))
        → SlotTells mgr.agent.child s r
        → BodyTells mgr s (after_agent os mgr m r)
    unfolding stop_end
    after_agent-Tells mgr m s none h = tt
    after_agent-Tells mgr m s (some (agent, s₁)) h =
        traced (kill_trace os mgr.trace s₁) (kill_trace-Tells mgr.trace s₁)
      where
        traced :
            (r : Option (Slot × S))
            → SlotTells mgr.trace.child s₁ r
            → BodyTells mgr s
                (elim r [ none ↦ none | some (trace, s') ↦ some (stop_end mgr m agent trace s') ])
        traced none k = tt
        traced (some (trace, s')) k = (s₁, h, k)

    stop_body-Tells :
        {F : Type 0} (mgr : AgentManager) (m : Metrics F) (s : S)
        → (mgr.agent_spec ≡ none → mgr.agent.child ≡ none)
        → BodyTells mgr s (stop_body os mgr m s)
    unfolding stop_body
    stop_body-Tells mgr m s un =
        after_agent-Tells mgr m s _ (kill_agent-Tells mgr.agent_spec mgr.agent s un)

    -- The stop ended: with a clean manager, and with the children told.
    abbrev pub StopsAndTells : {F : Type 0} → AgentManager → S → Stopped F S → Type 0
    StopsAndTells mgr s none = ⊥
    StopsAndTells mgr s (some (mgr', m, s')) = IsClean mgr' × ToldBoth mgr.should_run mgr s s'

    -- Stopping a sound manager ends, whatever the children do, when the clock goes on while the code
    -- sleeps. Where the manager ran, the system is asked to send each child that was in a slot, the
    -- agent before the trace agent, at least the first of the documented signals, and those that follow
    -- it up to some, in order, and nothing else; where it did not, nothing is sent. The slots are empty
    -- afterwards, there is no monitor thread, and the backoffs are at their start.
    pub stop-StopsAndTells :
        {F : Type 0} (mgr : AgentManager) (m : Metrics F) (s : S)
        → IsSound mgr
        → StopsAndTells mgr s (stop os mgr m s)
    stop-StopsAndTells {F} mgr m s h =
        both (stop os mgr m s) (stop-IsClean os time clock mgr m s h) told
      where
        Tells : Bool → Stopped F S → Type 0
        Tells b none = Unit
        Tells b (some (mgr', m', s')) = ToldBoth b mgr s s'

        branch : (b : Bool) → Tells b (if b then stop_body os mgr m s else some (mgr, m, s))
        branch true = lifted (stop_body os mgr m s) (stop_body-Tells mgr m s h.unconfigured)
          where
            lifted : (r : Stopped F S) → BodyTells mgr s r → Tells true r
            lifted none k = tt
            lifted (some p) k = k
        branch false = refl

        told : Tells mgr.should_run (stop os mgr m s)
        told = unfold stop in branch mgr.should_run

        both : (r : Stopped F S) → StopsClean r → Tells mgr.should_run r → StopsAndTells mgr s r
        both none c t = c
        both (some (mgr', m', s')) c t = (c, t)
