-- ===== src/Manager/Orphans/Start.antt =====
-- manager.rs: `start` on the Unix systems other than Linux, which forks the monitor process between
-- the children's first ticks and the start of the monitor thread.
use libagent.Base.{
  ℕ, ◌≤◌, ◌<◌, ◌≡◌, refl, ap, ◌∙◌, Bool, true, false, Option, none, some, List, [], ◌∷◌, ◌++◌,
  if◌then◌else◌,
}
use libagent.Process.{ProcessSpec}
use libagent.Metrics.{Metrics}
use libagent.Monitor.{Child, World}
use libagent.Text.{Bytes, bytes_eq}
use libagent.Text.Number.{u32_max}
use libagent.Manager.{AgentManager, start_children, start_body, start}
use libagent.Manager.Orphans.{
  Vars, unsetenv, getenv, agent_key, trace_key, parent_key, set_pids, clear_orphan_monitor_env,
  Forked, fork_failed, in_child, in_parent, Watch, fork_orphan_cleanup_monitor, Sig, term, kill,
  Killer, kill_orphan, run_orphan_monitor,
}
use libagent.Manager.Orphans.Cleanup.{
  getenv-unsetenv_same, getenv-unsetenv_other, getenv-setenv_other, getenv-set_pid_other, FitsPid,
  DiesAfter, orphans_killed, trace_key-agent_key, parent_key-agent_key, parent_key-trace_key,
}

-- The manager, the metrics and the environment, and what a forked process is to run.
pub record Started (F : Type 0) : Type 0 where
  pub manager : AgentManager
  pub metrics : Metrics F
  pub vars : Vars
  pub watch : Option Watch

-- Behind the first ticks: the fork, and the start of the monitor thread.
unfoldable pub fork_and_watch :
    {F : Type 0} → ℕ → Forked → AgentManager × Metrics F → Vars → Started F
fork_and_watch pid forked (mgr, m) vars =
    let (vars', watch) = fork_orphan_cleanup_monitor pid mgr vars forked in
    record {
      manager = record mgr { monitor_thread = true };
      metrics = m;
      vars = vars';
      watch = watch;
    }

-- The pid is that of the process itself, `getpid`.
unfoldable pub start_and_fork :
    {F : Type 0}
    → World
    → World
    → (ProcessSpec → Option Child)
    → ℕ
    → Forked
    → AgentManager
    → Metrics F
    → Vars
    → Started F
start_and_fork w_agent w_trace spawn pid forked mgr m vars =
    let started = fork_and_watch pid forked (start_children w_agent w_trace spawn mgr m) vars in
    if mgr.should_run
    then record { manager = mgr; metrics = m; vars = vars; watch = none }
    else started

-- The three variables are gone, and the others are as before.
pub record Cleared (before after : Vars) : Type 0 where
  pub agent_cleared : getenv agent_key after ≡ none
  pub trace_cleared : getenv trace_key after ≡ none
  pub parent_cleared : getenv parent_key after ≡ none
  pub others :
      (key : Bytes)
      → bytes_eq agent_key key ≡ false
      → bytes_eq trace_key key ≡ false
      → bytes_eq parent_key key ≡ false
      → getenv key after ≡ getenv key before

clear_orphan_monitor_env-Cleared :
    (parent : ℕ) (agent trace : Option ℕ) (vars : Vars)
    → Cleared vars (clear_orphan_monitor_env (set_pids parent agent trace vars))
unfolding clear_orphan_monitor_env set_pids
clear_orphan_monitor_env-Cleared parent agent trace vars =
    let vars' = set_pids parent agent trace vars in
    let no_agent = unsetenv agent_key vars' in
    let no_trace = unsetenv trace_key no_agent in
    record {
      agent_cleared =
          getenv-unsetenv_other agent_key parent_key no_trace parent_key-agent_key
          ∙ getenv-unsetenv_other agent_key trace_key no_agent trace_key-agent_key
          ∙ getenv-unsetenv_same agent_key vars';
      trace_cleared =
          getenv-unsetenv_other trace_key parent_key no_trace parent_key-trace_key
          ∙ getenv-unsetenv_same trace_key no_agent;
      parent_cleared = getenv-unsetenv_same parent_key no_trace;
      others = λ key a t p.
          getenv-unsetenv_other key parent_key no_trace p
          ∙ getenv-unsetenv_other key trace_key no_agent t
          ∙ getenv-unsetenv_other key agent_key vars' a
          ∙ getenv-setenv_other key parent_key _ _ p
          ∙ getenv-set_pid_other key trace_key trace _ t
          ∙ getenv-set_pid_other key agent_key agent vars a;
    }

fork-Cleared :
    (forked : Forked) (parent : ℕ) (mgr : AgentManager) (vars : Vars)
    → Cleared vars (fork_orphan_cleanup_monitor parent mgr vars forked).0
unfolding fork_orphan_cleanup_monitor
fork-Cleared in_child parent mgr vars =
    clear_orphan_monitor_env-Cleared parent mgr.agent.child mgr.trace.child vars
fork-Cleared in_parent parent mgr vars =
    clear_orphan_monitor_env-Cleared parent mgr.agent.child mgr.trace.child vars
fork-Cleared fork_failed parent mgr vars =
    clear_orphan_monitor_env-Cleared parent mgr.agent.child mgr.trace.child vars

-- A call of the system by the forked process.
pub data Action : Type 0 where
  signalled : ℕ → Sig → Action
  slept : ℕ → Action

-- The calls, made in turn.
unfoldable pub perform : {S : Type 0} → Killer S → List Action → S → S
perform os [] s = s
perform os (signalled pid sig ∷ actions) s = perform os actions (os.signal pid sig s).1
perform os (slept d ∷ actions) s = perform os actions (os.sleep d s)

-- How a child ends: SIGTERM, a second, SIGKILL. Without a child nothing is called.
abbrev pub ending : Option ℕ → List Action
ending none = []
ending (some pid) = signalled pid term ∷ slept 1 ∷ signalled pid kill ∷ []

kill_orphan-ending :
    {S : Type 0} (os : Killer S) (child : Option ℕ) (s : S)
    → kill_orphan os child s ≡ perform os (ending child) s
unfolding kill_orphan perform
kill_orphan-ending os none s = refl
kill_orphan-ending os (some pid) s = refl

perform-append :
    {S : Type 0} (os : Killer S) (a b : List Action) (s : S)
    → perform os b (perform os a s) ≡ perform os (a ++ b) s
unfolding perform
perform-append os [] b s = refl
perform-append os (signalled pid sig ∷ a) b s = perform-append os a b (os.signal pid sig s).1
perform-append os (slept d ∷ a) b s = perform-append os a b (os.sleep d s)

kill_both :
    {S : Type 0} (os : Killer S) (agent trace : Option ℕ) (s : S)
    → kill_orphan os trace (kill_orphan os agent s) ≡ perform os (ending agent ++ ending trace) s
kill_both os agent trace s =
    kill_orphan-ending os trace (kill_orphan os agent s)
    ∙ ap (perform os (ending trace)) (kill_orphan-ending os agent s)
    ∙ perform-append os (ending agent) (ending trace) s

-- What the fork is to the start: in the parent nothing but a start that leaves the environment as it
-- was, and in the forked process a watch that ends with the children that were started.
pub record Guards {F S : Type 0} (os : Killer S) (fuel : ℕ) (s s' : S) (vars : Vars)
    (plain : AgentManager × Metrics F) (r : Forked → Started F) : Type 0 where
  pub starts : (forked : Forked) → ((r forked).manager ≡ plain.0) × ((r forked).metrics ≡ plain.1)
  pub cleared : (forked : Forked) → Cleared vars (r forked).vars
  pub parent_goes_on : ((r in_parent).watch ≡ none) × ((r fork_failed).watch ≡ none)
  pub watches :
      (watch : Watch) × ((r in_child).watch ≡ some watch)
      × (run_orphan_monitor os fuel watch s
          ≡ some (perform os (ending plain.0.agent.child ++ ending plain.0.trace.child) s'))

module _ {F S : Type 0} (os : Killer S) (fuel : ℕ) (s s' : S) (vars : Vars) where
  either-Guards :
      (b : Bool) (p q : AgentManager × Metrics F) (y : Started F) (r : Forked → Started F)
      → b ≡ false
      → Guards os fuel s s' vars q r
      → Guards os fuel s s' vars (if b then p else q) (λ forked. if b then y else r forked)
  either-Guards true p q y r e g = absurd (cc)
  either-Guards false p q y r e g = g

  fork_and_watch-Guards :
      (parent : ℕ) (mgr : AgentManager) (m : Metrics F)
      → parent ≤ u32_max
      → FitsPid mgr.agent.child
      → FitsPid mgr.trace.child
      → getenv agent_key vars ≡ none
      → getenv trace_key vars ≡ none
      → (n : ℕ) → DiesAfter os parent s' n s
      → n < fuel
      → Guards os fuel s s' vars
          (record mgr { monitor_thread = true }, m)
          (λ forked. fork_and_watch parent forked (mgr, m) vars)
  unfolding fork_and_watch fork_orphan_cleanup_monitor
  fork_and_watch-Guards parent mgr m fp fa ft ea et n d h = record {
    starts = λ forked. (refl, refl);
    cleared = λ forked. fork-Cleared forked parent mgr vars;
    parent_goes_on = (refl, refl);
    watches =
        let (watch, e, r) = orphans_killed os parent mgr vars fp fa ft ea et n fuel s s' d h in
        (watch, e, r ∙ ap some (kill_both os mgr.agent.child mgr.trace.child s'));
  }

of_false {ℓ κ} :
    {A : Type ℓ} (P : A → Type κ) (b : Bool) (x y : A) → b ≡ false → P (if b then x else y) → P y
of_false P true x y e p = absurd (cc)
of_false P false x y e p = p

module _ {F S : Type 0} (os : Killer S) (w_agent w_trace : World)
    (spawn : ProcessSpec → Option Child) (parent : ℕ) (mgr : AgentManager) (m : Metrics F)
    (vars : Vars) where
  abbrev plain : AgentManager × Metrics F
  plain = start w_agent w_trace spawn mgr m

  -- Starting a stopped manager with the fork starts it as without: the same children, and the same
  -- metrics. The environment is left as it was, without the three variables, whether the fork succeeds
  -- or not. The forked process waits until its parent, which answers a number of probes, is gone, and
  -- then ends the children that the start has spawned, the agent first: each gets SIGTERM, and SIGKILL
  -- after a sleep of a second. The pids fit in 32 bits, and the variables for
  -- the children's pids were not set before.
  pub start_and_fork-Guards :
      mgr.should_run ≡ false
      → parent ≤ u32_max
      → FitsPid plain.0.agent.child
      → FitsPid plain.0.trace.child
      → getenv agent_key vars ≡ none
      → getenv trace_key vars ≡ none
      → (n fuel : ℕ) (s s' : S) → DiesAfter os parent s' n s
      → n < fuel
      → Guards os fuel s s' vars plain
          (λ forked. start_and_fork w_agent w_trace spawn parent forked mgr m vars)
  unfolding start_and_fork start start_body
  start_and_fork-Guards e fp fa ft ea et n fuel s s' d h =
      let p = start_children w_agent w_trace spawn mgr m in
      let q : AgentManager × Metrics F = (record p.0 { monitor_thread = true }, p.1) in
      either-Guards os fuel s s' vars mgr.should_run (mgr, m) q _ _ e
        (fork_and_watch-Guards os fuel s s' vars parent p.0 p.1 fp
          (of_false (λ (r : AgentManager × Metrics F). FitsPid r.0.agent.child) mgr.should_run
            (mgr, m) q e fa)
          (of_false (λ (r : AgentManager × Metrics F). FitsPid r.0.trace.child) mgr.should_run
            (mgr, m) q e ft)
          ea et n d h)
